-- ===== src/Auth/Guards.antt =====
-- auth/strategies/*.ts and auth/guards/roles.guard.ts: who a request is let through for.
use talent_flow_ai_backend.Prelude.{
  String, Option, none, some, List, [], ◌∷◌, Bool, true, false, not, ◌==◌, ◌≡◌, ◌↔◌, ◌⊎◌, inl, inr,
  refl, arith, lookup, Bool-cases, any, if◌then◌else◌,
}
use mathlib.Core.Bool.{decide, decide_iff}
use talent_flow_ai_backend.Model.{User, Role, Role-discrete, Db}
use talent_flow_ai_backend.Prelude.{Option-cases, ℕ}
use talent_flow_ai_backend.Async.{Exception, Result, ok, err, unauthorized}
use talent_flow_ai_backend.Users.Service as Users
use talent_flow_ai_backend.Auth.Service.{
  PublicUser, public_user, live, Environment, World, refresh_key, blacklist_key,
  RefreshTokenPayload,
}

user_or_unauthorized : Option User → Result PublicUser
user_or_unauthorized none = err (unauthorized "User not found or deleted")
user_or_unauthorized (some u) = ok (public_user u)

-- `validate` of the strategy for access tokens, on the `sub` of a token that was verified
unfoldable pub validate : (sub : String) → Db → Result PublicUser
unfolding user_or_unauthorized live
validate sub d = user_or_unauthorized (live (Users.find_by_id sub d))

pub record RefreshUser : Type 0 where
  pub id : String
  pub email : String
  pub token_id : String

-- `storedToken !== token`
is_stored : Option String → String → Bool
is_stored none token = false
is_stored (some stored) token = stored == token

module _ {Keys : Type 0} (env : Environment Keys) where
  -- `validate` of the strategy for refresh tokens, on the cookie of the request and the payload of a
  -- token that was verified
  unfoldable pub validate_refresh :
      (cookie : Option String) → RefreshTokenPayload → World Keys → Result RefreshUser
  unfolding is_stored
  validate_refresh none payload w = err (unauthorized "Refresh token not found")
  validate_refresh (some token) payload w =
      if token == ""
      then err (unauthorized "Refresh token not found")
      else if not (is_stored (env.redis.get (refresh_key payload.payload.sub) w.keys) token)
      then err (unauthorized "Invalid refresh token")
      else if env.redis.exists (blacklist_key payload.token_id) w.keys
      then err (unauthorized "Token has been revoked")
      else ok (record {
        id = payload.payload.sub;
        email = payload.payload.email;
        token_id = payload.token_id;
      })

-- `canActivate` of the guard of roles: the roles that the route asks for, and the user's role.
unfoldable pub can_activate : Option (List Role) → Option Role → Bool
can_activate none role = true
can_activate (some required) none = false
can_activate (some required) (some role) = any (λ r. decide (Role-discrete role r)) required

pub live-some :
    (o : Option User) (u : User) → live o ≡ some u → (o ≡ some u) × (u.deleted_at ≡ none)
unfolding live
live-some none u h = absurd (ground arith)
live-some (some v) u h = (ground arith, ground arith)

validate-tests :
    (o : Option User) (a : PublicUser)
    → (user_or_unauthorized (live o) ≡ ok a)
      ↔ ((u : User) × (o ≡ some u) × (u.deleted_at ≡ none) × (a ≡ public_user u))
unfolding user_or_unauthorized live
validate-tests none a =
    (λ h. absurd (ground arith), λ s. let (u, found, lives, same) = s in absurd (ground arith))
validate-tests (some u) a = (
  λ h. (u, refl, ground arith, ground arith),
  λ s. let (v, found, lives, same) = s in ground arith,
)

-- The strategy for access tokens lets a request through exactly if the account that the token names
-- is stored and not deleted, and then tells of that account as it is stored now.
pub validate-ok_iff :
    (sub : String) (d : Db) (a : PublicUser)
    → (validate sub d ≡ ok a)
      ↔ ((u : User) × (lookup sub d.users ≡ some u) × (u.deleted_at ≡ none) × (a ≡ public_user u))
unfolding validate
validate-ok_iff sub d a = validate-tests (lookup sub d.users) a

-- The strategy for access tokens refuses with 401 alone.
pub validate-err :
    (sub : String) (d : Db) (e : Exception)
    → validate sub d ≡ err e
    → (message : String) × (e ≡ unauthorized message)
unfolding validate user_or_unauthorized
validate-err sub d e h = elim (Option-cases (live (lookup sub d.users))) [
  | inl n ↦ ("User not found or deleted", ground arith)
  | inr (u, y) ↦ absurd (ground arith)
]

-- A token of an account that is deleted is refused.
pub validate-deleted :
    (sub : String) (d : Db) (u : User) (t : ℕ)
    → lookup sub d.users ≡ some u
    → u.deleted_at ≡ some t
    → validate sub d ≡ err (unauthorized "User not found or deleted")
unfolding validate user_or_unauthorized live
validate-deleted sub d u t there gone = rw (there, gone) refl

abbrev pub IsOneOf : Role → List Role → Type 0
IsOneOf role [] = ⊥
IsOneOf role (r ∷ rs) = (role ≡ r) ⊎ IsOneOf role rs

IsOneOf-iff :
    (role : Role) (rs : List Role)
    → (any (λ r. decide (Role-discrete role r)) rs ≡ true) ↔ IsOneOf role rs
IsOneOf-iff role [] = (λ h. absurd (ground arith), λ s. absurd s)
IsOneOf-iff role (r ∷ rs) =
    let (to, from) = IsOneOf-iff role rs in
    let (same, same') = decide_iff (Role-discrete role r) in
    (
      λ h. elim (Bool-cases (decide (Role-discrete role r))) [
        | inl y ↦ inl (same y)
        | inr n ↦ inr (to (ground arith))
      ],
      λ s. elim s [ inl x ↦ ground (arith, same' x) | inr x ↦ ground (arith, from x) ],
    )

-- The guard of roles lets a request through exactly if the route asks for no roles, or the user has
-- a role and it is one of those.
pub can_activate_iff :
    (required : Option (List Role)) (role : Option Role)
    → (can_activate required role ≡ true) ↔ (
        (required ≡ none)
        ⊎ ((rs : List Role) × (r : Role) × (required ≡ some rs) × (role ≡ some r) × IsOneOf r rs))
unfolding can_activate
can_activate_iff none role = (λ h. inl refl, λ s. refl)
can_activate_iff (some rs) none = (
  λ h. absurd (ground arith),
  λ s. elim s [ inl e ↦ absurd (ground arith) | inr (qs, r, e, f, m) ↦ absurd (ground arith) ],
)
can_activate_iff (some rs) (some r) =
    let (to, from) = IsOneOf-iff r rs in
    (
      λ h. inr (rs, r, refl, refl, to h),
      λ s. elim s [
        | inl e ↦ absurd (ground arith)
        | inr (qs, q, e, f, m) ↦
            let same : rs ≡ qs = ground arith in
            let same' : r ≡ q = ground arith in from (rw (same, same') m)
      ],
    )
