-- ===== src/Dto.antt =====
-- Optional properties of request bodies, and JavaScript's tests on them.
use talent_flow_ai_backend.Prelude.{String, Option, none, some, Bool, true, false, not, ◌==◌}

-- A property that may be absent or `null`: `@IsOptional()` lets both through.
pub data Field {ℓ} (A : Type ℓ) : Type ℓ where
  undefined null : Field A
  value : A → Field A

module _ {ℓ} {A : Type ℓ} where
  -- A column that may be null, under `data`: Prisma leaves it if the property is `undefined`.
  abbrev pub written : Field A → Option A → Option A
  written undefined old = old
  written null old = none
  written (value a) old = some a

  -- A JSON column: Prisma leaves it if the property is `undefined`.
  abbrev pub written_json : Option A → Option A → Option A
  written_json none old = old
  written_json (some a) old = some a

  -- A column that may not be null: `...(x !== undefined && { x })`.
  abbrev pub replaced : Option A → A → A
  replaced none old = old
  replaced (some a) old = a

-- `!!text`: the empty text is falsy.
abbrev pub truthy : Field String → Bool
truthy (value s) = not (s == "")
truthy _ = false

-- `if (text) filter = text`
unfoldable pub when_truthy : Option String → Option String
when_truthy none = none
when_truthy (some s) = elim (s == "") [ true ↦ none | false ↦ some s ]
