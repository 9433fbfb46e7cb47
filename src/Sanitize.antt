-- ===== src/Sanitize.antt =====
-- common/utils/sanitize.util.ts: `sanitize`, on trees. `lower` is `toLowerCase`.
pub mod Clean
pub mod Keeps
mod Tests
use text.Mathlib.Text.{starts_with}
use talent_flow_ai_backend.Prelude.{
  ℕ, suc, String, List, [], ◌∷◌, Bool, true, false, ◌||◌, any, ltb, if◌then◌else◌,
}
use talent_flow_ai_backend.Json.{
  Json, Items, Fields, undefined, null, boolean, number, string, array, object, no_fields, field,
  is_object,
}

abbrev pub sensitive_keys : List String
sensitive_keys =
    "password" ∷ "passwd" ∷ "pwd" ∷ "secret" ∷ "token" ∷ "apikey" ∷ "api_key" ∷ "authorization"
    ∷ "auth" ∷ "cookie" ∷ "cookies" ∷ "credentials" ∷ "credential" ∷ "privatekey" ∷ "private_key"
    ∷ "accesskey" ∷ "access_key" ∷ "secretkey" ∷ "secret_key" ∷ "sessionid" ∷ "session_id"
    ∷ "bearer" ∷ "apitoken" ∷ "api_token" ∷ []

abbrev pub max_depth : ℕ
max_depth = 5

abbrev pub redacted : Json
redacted = string "[REDACTED]"

-- `text.includes(part)`
unfoldable pub includes : (text part : String) → Bool
includes String.[] part = starts_with "" part
includes (String.◌∷◌ c s) part =
    let rest = includes s part in starts_with (String.◌∷◌ c s) part || rest

-- `SENSITIVE_KEYS.some((term) => lowerKey.includes(term))`
unfoldable pub is_sensitive : (String → String) → String → Bool
is_sensitive lower key = any (λ term. includes (lower key) term) sensitive_keys

module _ (lower : String → String) where
  unfoldable mutual
    -- `sanitize(obj, depth)`
    pub sanitize : ℕ → Json → Json
    sanitize depth (array xs) =
        let items = sanitize_items (suc depth) xs in
        if ltb max_depth depth then string "[MAX_DEPTH_EXCEEDED]" else array items
    sanitize depth (object fs) =
        let fields = sanitize_fields depth fs in
        if ltb max_depth depth then string "[MAX_DEPTH_EXCEEDED]" else object fields
    sanitize depth v = if ltb max_depth depth then string "[MAX_DEPTH_EXCEEDED]" else v

    pub sanitize_items : ℕ → Items → Items
    sanitize_items depth Items.[] = Items.[]
    sanitize_items depth (Items.◌∷◌ x xs) = Items.◌∷◌ (sanitize depth x) (sanitize_items depth xs)

    -- The loop over the entries of an object at a depth
    pub sanitize_fields : ℕ → Fields → Fields
    sanitize_fields depth no_fields = no_fields
    sanitize_fields depth (field key v fs) =
        let deeper = sanitize (suc depth) v in
        let rest = sanitize_fields depth fs in
        field key (if is_sensitive lower key then redacted else if is_object v then deeper else v)
          rest
