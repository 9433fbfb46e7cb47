-- ===== src/Texts.antt =====
-- JavaScript's `split` on one character, and the last of a list.
use Prim.Native.Char.{Char, code}
use talent_flow_ai_backend.Prelude.{String, Option, none, some, List, [], ◌∷◌, nat_eq}
use talent_flow_ai_backend.Prelude.{if◌then◌else◌}

-- A character in front of the first part.
prepend : Char → List String → List String
prepend c [] = []
prepend c (part ∷ parts) = String.◌∷◌ c part ∷ parts

-- `text.split(separator)`, for a separator of one character
unfoldable pub split : Char → String → List String
unfolding prepend
split sep String.[] = "" ∷ []
split sep (String.◌∷◌ c s) =
    let parts = split sep s in if nat_eq (code c) (code sep) then "" ∷ parts else prepend c parts

-- `parts.pop()`
unfoldable pub last {ℓ} : {A : Type ℓ} → List A → Option A
last [] = none
last (x ∷ []) = some x
last (x ∷ y ∷ xs) = last (y ∷ xs)
