-- ===== src/FileKey/Extension.antt =====
-- The extension of a file name: what follows its last dot.
use Prim.Native.String
use Prim.Native.String.append
use Prim.Native.Char.{Char, code}
use text.Mathlib.TextEquality.{Char-path}
use talent_flow_ai_backend.Prelude.{
  ℕ, sym, String, some, List, [], ◌∷◌, Bool, true, false, ◌||◌, ◌≡◌, refl, ap, ◌∙◌, ◌⊎◌, inl, inr,
  arith, nat_eq, ltb, length, Bool-cases,
}
use talent_flow_ai_backend.Texts.{split, last}
use talent_flow_ai_backend.FileKey.{extension_of}

unfoldable pub has_char : Char → String → Bool
has_char sep String.[] = false
has_char sep (String.◌∷◌ c s) = nat_eq (code c) (code sep) || has_char sep s

-- The name is a stem, a dot and a text without a dot.
abbrev pub IsStemDot : (name stem ext : String) → Type 0
IsStemDot name stem ext =
    (name ≡ String.◌++◌ stem (String.◌∷◌ "." ext)) × (has_char "." ext ≡ false)

split-free : (sep : Char) (s : String) → has_char sep s ≡ false → split sep s ≡ s ∷ []
unfolding has_char split
split-free sep String.[] h = refl
split-free sep (String.◌∷◌ c s) h =
    let other : nat_eq (code c) (code sep) ≡ false = ground arith in
    let rest = split-free sep s (ground arith) in rw (other, rest) refl

nat_eq_refl : (n : ℕ) → nat_eq n n ≡ true
nat_eq_refl n = ground arith

split-here :
    (sep : Char) (ext : String)
    → has_char sep ext ≡ false
    → split sep (String.◌∷◌ sep ext) ≡ "" ∷ ext ∷ []
unfolding split
split-here sep ext h = rw (nat_eq_refl (code sep), split-free sep ext h) refl

split-stem :
    (sep : Char) (stem ext : String)
    → has_char sep ext ≡ false
    → (p q : String) × (qs : List String) × (split sep (String.◌++◌ stem (String.◌∷◌ sep ext))
        ≡ p ∷ q ∷ qs)
      × (last (q ∷ qs) ≡ some ext)
unfolding split last
split-stem sep String.[] ext h =
    ("", ext, [], ap (split sep) (append.nil (String.◌∷◌ sep ext)) ∙ split-here sep ext h, refl)
split-stem sep (String.◌∷◌ c stem) ext h =
    let (p, q, qs, parts, final) = split-stem sep stem ext h in
    let cons = append.cons c stem (String.◌∷◌ sep ext) in
    elim (Bool-cases (nat_eq (code c) (code sep))) [
      | inl y ↦ ("", p, q ∷ qs, ap (split sep) cons ∙ rw (y, parts) refl, final)
      | inr n ↦ (String.◌∷◌ c p, q, qs, ap (split sep) cons ∙ rw (n, parts) refl, final)
    ]

-- A name without a dot, or with a last dot
last_dot :
    (name : String) → (has_char "." name ≡ false) ⊎ ((stem ext : String) × IsStemDot name stem ext)
unfolding has_char
last_dot String.[] = inl refl
last_dot (String.◌∷◌ c s) = elim (last_dot s) [
  | inr (stem, ext, (e, n)) ↦ inr (
    String.◌∷◌ c stem,
    ext,
    (ap (λ t. String.◌∷◌ c t) e ∙ sym (append.cons c stem (String.◌∷◌ "." ext)), n),
  )
  | inl n ↦ elim (Bool-cases (nat_eq (code c) (code "."))) [
    | inl y ↦ inr (
      "",
      s,
      (
        ap (λ d. String.◌∷◌ d s) (Char-path c "." (ground (arith, y)))
            ∙ sym (append.nil (String.◌∷◌ "." s)),
        n,
      ),
    )
    | inr other ↦ inl (rw (other, n) refl)
  ]
]

module _ (lower : String → String) where
  extension_of-free : (name : String) → has_char "." name ≡ false → extension_of lower name ≡ ""
  unfolding extension_of
  extension_of-free name h = rw (split-free "." name h) refl

  extension_of-stem :
      (name stem ext : String) → IsStemDot name stem ext → extension_of lower name ≡ lower ext
  unfolding extension_of last
  extension_of-stem name stem ext (e, n) =
      let (p, q, qs, parts, final) = split-stem "." stem ext n in
      let many : ltb 1 (length (p ∷ q ∷ qs)) ≡ true = ground arith in
      rw (e, parts, many, final) refl

  -- The extension is that of the last dot, in lower case, and a name without a dot has none.
  pub extension_of-some :
      (name e : String)
      → extension_of lower name ≡ e
      → (e ≡ "") ⊎ ((stem ext : String) × IsStemDot name stem ext × (lower ext ≡ e))
  extension_of-some name e h = elim (last_dot name) [
    | inl n ↦ inl (sym h ∙ extension_of-free name n)
    | inr (stem, ext, is) ↦ inr (stem, ext, is, sym (extension_of-stem name stem ext is) ∙ h)
  ]

  pub extension_of-of :
      (name e stem ext : String)
      → IsStemDot name stem ext
      → lower ext ≡ e
      → extension_of lower name ≡ e
  extension_of-of name e stem ext is h = extension_of-stem name stem ext is ∙ h
