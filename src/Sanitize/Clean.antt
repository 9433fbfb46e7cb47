-- ===== src/Sanitize/Clean.antt =====
-- What `sanitize` leaves of a value.
use talent_flow_ai_backend.Prelude.{
  ℕ, suc, ◌-◌, ◌≤◌, ◌<◌, max, String, Bool, true, false, ◌≡◌, refl, arith, ltb, Bool-cases, inl,
  inr, if◌then◌else◌,
}
use talent_flow_ai_backend.Json.{
  Json, Items, Fields, undefined, null, boolean, number, string, array, object, no_fields, field,
  is_object,
}
use talent_flow_ai_backend.Sanitize.{
  is_sensitive, redacted, sanitize, sanitize_items, sanitize_fields,
}

-- At every depth, a property whose name holds a sensitive term is `[REDACTED]`.
module _ (lower : String → String) where
  unfoldable mutual
    pub IsClean : Json → Type 0
    IsClean (array xs) = AreClean xs
    IsClean (object fs) = HasCleanFields fs
    IsClean _ = Unit

    pub AreClean : Items → Type 0
    AreClean Items.[] = Unit
    AreClean (Items.◌∷◌ x xs) = IsClean x × AreClean xs

    pub HasCleanFields : Fields → Type 0
    HasCleanFields no_fields = Unit
    HasCleanFields (field key v fs) =
        (is_sensitive lower key ≡ true → v ≡ redacted) × IsClean v × HasCleanFields fs

-- How deep arrays and objects stand in each other.
unfoldable mutual
  pub depth_of : Json → ℕ
  depth_of (array xs) = suc (depth_of_items xs)
  depth_of (object fs) = suc (depth_of_fields fs)
  depth_of _ = 0

  pub depth_of_items : Items → ℕ
  depth_of_items Items.[] = 0
  depth_of_items (Items.◌∷◌ x xs) = max (depth_of x) (depth_of_items xs)

  pub depth_of_fields : Fields → ℕ
  depth_of_fields no_fields = 0
  depth_of_fields (field key v fs) = max (depth_of v) (depth_of_fields fs)

module _ (lower : String → String) where
  pub IsClean-value : (v : Json) → is_object v ≡ false → IsClean lower v
  unfolding IsClean
  IsClean-value (array xs) h = absurd (ground arith)
  IsClean-value (object fs) h = absurd (ground arith)
  IsClean-value undefined h = tt
  IsClean-value null h = tt
  IsClean-value (boolean b) h = tt
  IsClean-value (number n) h = tt
  IsClean-value (string s) h = tt

  IsClean-if :
      (b : Bool) (v : Json)
      → IsClean lower v
      → IsClean lower (if b then string "[MAX_DEPTH_EXCEEDED]" else v)
  unfolding IsClean
  IsClean-if false v c = c
  IsClean-if true v c = tt

  mutual
    unfolding sanitize IsClean

    sanitize-IsClean' : (depth : ℕ) (v : Json) → IsClean lower (sanitize lower depth v)
    sanitize-IsClean' depth (array xs) =
        IsClean-if (ltb 5 depth) (array (sanitize_items lower (suc depth) xs))
          (sanitize_items-AreClean (suc depth) xs)
    sanitize-IsClean' depth (object fs) =
        IsClean-if (ltb 5 depth) (object (sanitize_fields lower depth fs))
          (sanitize_fields-HasCleanFields depth fs)
    sanitize-IsClean' depth undefined = IsClean-if (ltb 5 depth) undefined tt
    sanitize-IsClean' depth null = IsClean-if (ltb 5 depth) null tt
    sanitize-IsClean' depth (boolean b) = IsClean-if (ltb 5 depth) (boolean b) tt
    sanitize-IsClean' depth (number n) = IsClean-if (ltb 5 depth) (number n) tt
    sanitize-IsClean' depth (string s) = IsClean-if (ltb 5 depth) (string s) tt

    sanitize_items-AreClean :
        (depth : ℕ) (xs : Items) → AreClean lower (sanitize_items lower depth xs)
    sanitize_items-AreClean depth Items.[] = tt
    sanitize_items-AreClean depth (Items.◌∷◌ x xs) =
        (sanitize-IsClean' depth x, sanitize_items-AreClean depth xs)

    sanitize_fields-HasCleanFields :
        (depth : ℕ) (fs : Fields) → HasCleanFields lower (sanitize_fields lower depth fs)
    sanitize_fields-HasCleanFields depth no_fields = tt
    sanitize_fields-HasCleanFields depth (field key v fs) =
        elim (Bool-cases (is_sensitive lower key)) [
          | inl y ↦ rw y (λ h. refl, tt, sanitize_fields-HasCleanFields depth fs)
          | inr n ↦ elim (Bool-cases (is_object v)) [
            | inl o ↦
                rw (n, o)
                  (
                    λ h. absurd (ground arith),
                    sanitize-IsClean' (suc depth) v,
                    sanitize_fields-HasCleanFields depth fs,
                  )
            | inr o ↦
                rw (n, o)
                  (
                    λ h. absurd (ground arith),
                    IsClean-value v o,
                    sanitize_fields-HasCleanFields depth fs,
                  )
          ]
        ]

  -- Whatever value is sanitized, in what is left every property whose name holds a sensitive term, in
  -- lower case, has the value `[REDACTED]`, at every depth.
  pub sanitize-IsClean : (v : Json) → IsClean lower (sanitize lower 0 v)
  sanitize-IsClean v = sanitize-IsClean' 0 v

  ltb-false : (depth : ℕ) → ltb 5 depth ≡ false → depth < 6
  ltb-false depth h = ground arith

  depth_of-value : (v : Json) → is_object v ≡ false → depth_of v ≡ 0
  unfolding depth_of
  depth_of-value (array xs) h = absurd (ground arith)
  depth_of-value (object fs) h = absurd (ground arith)
  depth_of-value undefined h = refl
  depth_of-value null h = refl
  depth_of-value (boolean b) h = refl
  depth_of-value (number n) h = refl
  depth_of-value (string s) h = refl

  max_depth-if :
      (b : Bool) (v : Json) (n : ℕ)
      → (b ≡ false → depth_of v ≤ n)
      → depth_of (if b then string "[MAX_DEPTH_EXCEEDED]" else v) ≤ n
  unfolding depth_of
  max_depth-if false v n h = h refl
  max_depth-if true v n h = omega arith

  max-lub : (m n k : ℕ) → m ≤ k → n ≤ k → max m n ≤ k
  max-lub m n k p q = ground arith

  mutual
    unfolding sanitize depth_of

    depth_of-sanitize-rest : (depth : ℕ) (v : Json) → depth_of (sanitize lower depth v) ≤ 6 - depth
    depth_of-sanitize-rest depth (array xs) =
        max_depth-if (ltb 5 depth) (array (sanitize_items lower (suc depth) xs)) (6 - depth) (λ h.
          let below = depth_of_items-sanitize depth xs in
          let small : depth < 6 = ltb-false depth h in omega arith)
    depth_of-sanitize-rest depth (object fs) =
        max_depth-if (ltb 5 depth) (object (sanitize_fields lower depth fs)) (6 - depth) (λ h.
          let below = depth_of_fields-sanitize depth fs in
          let small : depth < 6 = ltb-false depth h in omega arith)
    depth_of-sanitize-rest depth undefined =
        max_depth-if (ltb 5 depth) undefined (6 - depth) (λ h. omega arith)
    depth_of-sanitize-rest depth null =
        max_depth-if (ltb 5 depth) null (6 - depth) (λ h. omega arith)
    depth_of-sanitize-rest depth (boolean b) =
        max_depth-if (ltb 5 depth) (boolean b) (6 - depth) (λ h. omega arith)
    depth_of-sanitize-rest depth (number n) =
        max_depth-if (ltb 5 depth) (number n) (6 - depth) (λ h. omega arith)
    depth_of-sanitize-rest depth (string s) =
        max_depth-if (ltb 5 depth) (string s) (6 - depth) (λ h. omega arith)

    depth_of_items-sanitize :
        (depth : ℕ) (xs : Items) → depth_of_items (sanitize_items lower (suc depth) xs) ≤ 5 - depth
    depth_of_items-sanitize depth Items.[] = omega arith
    depth_of_items-sanitize depth (Items.◌∷◌ x xs) =
        max-lub (depth_of (sanitize lower (suc depth) x))
          (depth_of_items (sanitize_items lower (suc depth) xs)) (5 - depth)
          (let p = depth_of-sanitize-rest (suc depth) x in omega arith)
          (depth_of_items-sanitize depth xs)

    depth_of_fields-sanitize :
        (depth : ℕ) (fs : Fields) → depth_of_fields (sanitize_fields lower depth fs) ≤ 5 - depth
    depth_of_fields-sanitize depth no_fields = omega arith
    depth_of_fields-sanitize depth (field key v fs) =
        let rest = depth_of_fields-sanitize depth fs in
        let deeper = depth_of-sanitize-rest (suc depth) v in
        elim (Bool-cases (is_sensitive lower key)) [
          | inl y ↦ rw y (
              max-lub 0 (depth_of_fields (sanitize_fields lower depth fs)) (5 - depth) (omega arith)
                rest)
          | inr n ↦ elim (Bool-cases (is_object v)) [
            | inl o ↦
                rw (n, o)
                  (max-lub (depth_of (sanitize lower (suc depth) v))
                    (depth_of_fields (sanitize_fields lower depth fs)) (5 - depth) (omega arith)
                    rest)
            | inr o ↦
                rw (n, o)
                  (max-lub (depth_of v) (depth_of_fields (sanitize_fields lower depth fs))
                    (5 - depth) (let z = depth_of-value v o in omega arith) rest)
          ]
        ]

  -- Whatever value is sanitized, arrays and objects stand at most six deep in what is left.
  pub depth_of-sanitize : (v : Json) → depth_of (sanitize lower 0 v) ≤ 6
  depth_of-sanitize v = depth_of-sanitize-rest 0 v
