-- ===== src/Http/Interceptor.antt =====
-- common/interceptors/transform.interceptor.ts.
use talent_flow_ai_backend.Prelude.{
  ℕ, String, Bool, true, false, ◌==◌, ◌≡◌, refl, arith, eq_iff, ◌∙◌, Bool-cases, inl, inr,
  if◌then◌else◌,
}
use talent_flow_ai_backend.Json.{
  Json, Fields, undefined, null, string, object, no_fields, field, property,
}

pub record Answer : Type 0 where
  pub status : ℕ
  pub message : Json
  pub body : Json
  pub timestamp : String

-- `key in value`
unfoldable pub has_property : String → Fields → Bool
has_property k no_fields = false
has_property k (field j v fs) = if j == k then true else has_property k fs

-- `const { key: …, ...rest } = value`
unfoldable pub without_property : String → Fields → Fields
without_property k no_fields = no_fields
without_property k (field j v fs) =
    let rest = without_property k fs in if j == k then rest else field j v rest

-- `Object.keys(rest).length > 0 ? rest : null`
abbrev pub or_null : Fields → Json
or_null no_fields = null
or_null fs = object fs

-- `value ?? null`
abbrev pub defined : Json → Json
defined undefined = null
defined v = v

-- `intercept`, on what the handler returned, with the status of the response and the time
unfoldable pub intercept : (status : ℕ) (now : String) → Json → Answer
intercept status now (object fs) =
    if has_property "message" fs
    then record {
      status = status;
      message = property "message" fs;
      body = or_null (without_property "message" fs);
      timestamp = now;
    }
    else record { status = status; message = string "Success"; body = object fs; timestamp = now }
intercept status now v = record {
  status = status;
  message = string "Success";
  body = defined v;
  timestamp = now;
}

-- The property of the handler's object that an answer carries: `message` beside the others.
abbrev pub carried : String → Answer → Json
carried k a = if k == "message" then a.message else inside a.body
  where
    inside : Json → Json
    inside (object fs) = property k fs
    inside _ = undefined

property-without :
    (k j : String) (fs : Fields)
    → (k == j) ≡ false
    → property k (without_property j fs) ≡ property k fs
unfolding property without_property
property-without k j no_fields h = refl
property-without k j (field i v fs) h =
    ground (arith, eq_iff k j, eq_iff i j, eq_iff i k, property-without k j fs h)

inside-or_null :
    (k : String) (status : ℕ) (now : String) (message : Json) (fs : Fields)
    → (k == "message") ≡ false
    → carried k (record { status = status; message = message; body = or_null fs; timestamp = now })
      ≡ property k fs
unfolding property
inside-or_null k status now message no_fields h = rw h refl
inside-or_null k status now message (field j v fs) h = rw h refl

-- Whatever object a handler returns, the answer carries each of its properties other than
-- `message` with its value, in its body, and its message is the object's own `message` if it has one
-- and `Success` if it has none.
pub carried-intercept :
    (status : ℕ) (now : String) (fs : Fields)
    → ((k : String)
        → (k == "message") ≡ false
        → carried k (intercept status now (object fs)) ≡ property k fs)
      × (intercept status now (object fs)).message
        ≡ (if has_property "message" fs then property "message" fs else string "Success")
unfolding intercept
carried-intercept status now fs = elim (Bool-cases (has_property "message" fs)) [
  | inl y ↦ rw y (
    λ k h.
        inside-or_null k status now (property "message" fs) (without_property "message" fs) h
        ∙ property-without k "message" fs h,
    refl,
  )
  | inr n ↦ rw n (λ k h. rw h refl, refl)
]
