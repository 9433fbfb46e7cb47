-- ===== src/Sanitize/Keeps.antt =====
-- What `sanitize` keeps.
use talent_flow_ai_backend.Prelude.{
  ℕ, suc, ◌+◌, ◌≤◌, max, String, false, ◌≡◌, refl, sym, arith, ltb, Bool-cases, inl, inr, ap,
}
use talent_flow_ai_backend.Json.{
  Json, Items, Fields, undefined, null, boolean, number, string, array, object, no_fields, field,
  is_object,
}
use talent_flow_ai_backend.Sanitize.{is_sensitive, sanitize, sanitize_items, sanitize_fields}
use talent_flow_ai_backend.Sanitize.Clean.{
  IsClean, AreClean, HasCleanFields, depth_of, depth_of_items, depth_of_fields,
}

module _ (lower : String → String) where
  max-left : (m n : ℕ) → m ≤ max m n
  max-left m n = ground arith

  max-right : (m n : ℕ) → n ≤ max m n
  max-right m n = ground arith

  shallow-ltb : (depth : ℕ) → depth ≤ 5 → ltb 5 depth ≡ false
  shallow-ltb depth p = ground arith

  mutual
    unfolding sanitize depth_of IsClean

    sanitize-keeps-rest :
        (depth : ℕ) (v : Json)
        → IsClean lower v
        → depth + depth_of v ≤ 5
        → sanitize lower depth v ≡ v
    sanitize-keeps-rest depth (array xs) c p =
        let small = shallow-ltb depth (omega arith) in
        rw small (ap array (sanitize_items-keeps (suc depth) xs c (omega arith)))
    sanitize-keeps-rest depth (object fs) c p =
        let small = shallow-ltb depth (omega arith) in
        rw small (ap object (sanitize_fields-keeps depth fs c (omega arith)))
    sanitize-keeps-rest depth undefined c p =
        let small = shallow-ltb depth (omega arith) in rw small refl
    sanitize-keeps-rest depth null c p =
        let small = shallow-ltb depth (omega arith) in rw small refl
    sanitize-keeps-rest depth (boolean b) c p =
        let small = shallow-ltb depth (omega arith) in rw small refl
    sanitize-keeps-rest depth (number n) c p =
        let small = shallow-ltb depth (omega arith) in rw small refl
    sanitize-keeps-rest depth (string s) c p =
        let small = shallow-ltb depth (omega arith) in rw small refl

    sanitize_items-keeps :
        (depth : ℕ) (xs : Items)
        → AreClean lower xs
        → depth + depth_of_items xs ≤ 5
        → sanitize_items lower depth xs ≡ xs
    sanitize_items-keeps depth Items.[] c p = refl
    sanitize_items-keeps depth (Items.◌∷◌ x xs) (c, cs) p =
        let l = max-left (depth_of x) (depth_of_items xs) in
        let r = max-right (depth_of x) (depth_of_items xs) in
        let first = sanitize-keeps-rest depth x c (omega arith) in
        let rest = sanitize_items-keeps depth xs cs (omega arith) in rw (first, rest) refl

    sanitize_fields-keeps :
        (depth : ℕ) (fs : Fields)
        → HasCleanFields lower fs
        → suc depth + depth_of_fields fs ≤ 5
        → sanitize_fields lower depth fs ≡ fs
    sanitize_fields-keeps depth no_fields c p = refl
    sanitize_fields-keeps depth (field key v fs) (s, c, cs) p =
        let l = max-left (depth_of v) (depth_of_fields fs) in
        let r = max-right (depth_of v) (depth_of_fields fs) in
        let rest = sanitize_fields-keeps depth fs cs (omega arith) in
        elim (Bool-cases (is_sensitive lower key)) [
          | inl y ↦ rw (y, rest) (ap (λ w. field key w fs) (sym (s y)))
          | inr n ↦ elim (Bool-cases (is_object v)) [
            | inl o ↦
                let deeper = sanitize-keeps-rest (suc depth) v c (omega arith) in
                rw (n, o, deeper, rest) refl
            | inr o ↦ rw (n, o) (ap (field key v) rest)
          ]
        ]

  -- A value with no property to redact, and in which arrays and objects stand at most five deep, is
  -- sanitized to itself: all that is not sensitive is kept.
  pub sanitize-keeps : (v : Json) → IsClean lower v → depth_of v ≤ 5 → sanitize lower 0 v ≡ v
  sanitize-keeps v c p = sanitize-keeps-rest 0 v c (omega arith)
