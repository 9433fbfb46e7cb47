-- ===== src/Prisma/Memory/Search.antt =====
-- Searching a table for a row that passes a test.
use talent_flow_ai_backend.Prelude.{
  String, Option, none, some, List, [], ◌∷◌, Bool, true, ◌≡◌, ◌≢◌, arith, eq_iff, Table, lookup,
  if◌then◌else◌, Option-cases, All, Bool-cases, inl, inr,
}

module _ {Row : Type 0} (test : Row → Bool) where
  pick : Option Row → Option Row → Option Row
  pick none rest = rest
  pick (some r) rest = if test r then some r else rest

  -- The first row of `t` under a key of `ks` that passes.
  search_keys : Table Row → Table Row → Option Row
  search_keys [] t = none
  search_keys ((k, _) ∷ ks) t = pick (lookup k t) (search_keys ks t)

  unfoldable pub search : Table Row → Option Row
  unfolding search_keys pick
  search t = search_keys t t

  search_keys_sound :
      (ks t : Table Row) (r : Row)
      → search_keys ks t ≡ some r
      → (test r ≡ true) × ((id : String) × (lookup id t ≡ some r))
  unfolding search_keys pick
  search_keys_sound [] t r h = cc
  search_keys_sound ((k, _) ∷ ks) t r h = elim (Option-cases (lookup k t)) [
    | inl e ↦ search_keys_sound ks t r (ground arith)
    | inr (q, e) ↦ elim (Bool-cases (test q)) [
      | inl y ↦ (ground arith, (k, ground arith))
      | inr n ↦ search_keys_sound ks t r (ground arith)
    ]
  ]

  pub search_sound :
      (t : Table Row) (r : Row)
      → search t ≡ some r
      → (test r ≡ true) × ((id : String) × (lookup id t ≡ some r))
  unfolding search
  search_sound t r h = search_keys_sound t t r h

  search_keys_complete :
      (ks t : Table Row) (id : String) (q r : Row)
      → lookup id ks ≡ some q
      → lookup id t ≡ some r
      → test r ≡ true
      → search_keys ks t ≢ none
  unfolding search_keys pick lookup
  search_keys_complete [] t id q r a b c = cc
  search_keys_complete ((k, v) ∷ ks) t id q r a b c =
      ground (arith, eq_iff k id, search_keys_complete ks t id q r)

  pub search_complete :
      (t : Table Row) (id : String) (r : Row)
      → lookup id t ≡ some r
      → test r ≡ true
      → search t ≢ none
  unfolding search
  search_complete t id r a b = search_keys_complete t t id r r a a b

  unfoldable pub select : Table Row → List Row
  select [] = []
  select ((_, r) ∷ t) = if test r then r ∷ select t else select t

  pub select-All :
      (P : Row → Type 0) (t : Table Row) → ((r : Row) → test r ≡ true → P r) → All P (select t)
  unfolding select
  select-All P [] h = tt
  select-All P ((_, r) ∷ t) h = elim (Bool-cases (test r)) [
    | inl y ↦ rw y (h r y, select-All P t h)
    | inr n ↦ rw n (select-All P t h)
  ]
