-- ===== src/Prisma/Memory/Rows.antt =====
-- A delegate over a table in memory, for any model, and its laws.
use Prim.Native.String.{String}
use talent_flow_ai_backend.Prelude.{
  ℕ, zero, suc, none, some, Bool, true, ◌≡◌, ◌||◌, arith, lookup, insert, is_some, if◌then◌else◌,
  length, take, drop, All-take, All-drop, length-take-le,
}
use talent_flow_ai_backend.Model.{Db}
use talent_flow_ai_backend.Async.{Async, ok, err, error}
use talent_flow_ai_backend.Prisma.{Delegate}
use talent_flow_ai_backend.Prisma.Laws.{Place, Writes, Reads}
use talent_flow_ai_backend.Prisma.Memory.Search.{select, select-All}

-- The primary keys that the memory gives out.
abbrev marks : ℕ → String
marks zero = "k"
marks (suc n) = String.◌∷◌ "k" (marks n)

module _ {Row New Where : Type 0} (p : Place Row) (row : String → ℕ → New → Row)
    (clash : New → Db → Bool) (test : Where → Db → Row → Bool) where
  unfoldable pub create_in : New → Async Db Row
  create_in n d =
      let r = row (marks (length (p.table d))) 0 n in
      if clash n d || is_some (lookup (p.key r) (p.table d))
      then (err (error "constraint failed"), d)
      else (ok r, p.put (insert (p.key r) r (p.table d)) d)

  unfoldable pub update_in : String → (Row → Row) → Async Db Row
  update_in id change d = elim (lookup id (p.table d)) [
    | none ↦ (err (error "record to update not found"), d)
    | some q ↦ (ok (change q), p.put (insert id (change q) (p.table d)) d)
  ]

  abbrev pub delegate : Delegate Row New Where
  delegate = record {
    create = create_in;
    update = update_in;
    find_many = λ w o skip limit d. take limit (drop skip (select (test w d) (p.table d)));
    count = λ w d. length (select (test w d) (p.table d));
  }

  pub delegate-Writes :
      ((id : String) (now : ℕ) (n : New) → p.key (row id now n) ≡ id) → Writes p row delegate
  unfolding create_in update_in
  delegate-Writes key_row = record {
    create_ok = λ n d r h.
        (0, ground (arith, key_row (marks (length (p.table d))) 0 n), ground arith, ground arith);
    create_err = λ n d e h. ("constraint failed", ground arith, ground arith);
    update_ok = λ id change d r h. ground arith;
    update_err = λ id change d e h. ("record to update not found", ground arith, ground arith);
  }

  pub delegate-Reads :
      (holds : Where → Db → Row → Type 0)
      → ((w : Where) (d : Db) (r : Row) → test w d r ≡ true → holds w d r)
      → Reads holds delegate
  delegate-Reads holds sound = record {
    find_many_holds = λ w o skip limit d.
        All-take (holds w d) limit (drop skip (select (test w d) (p.table d))) (
          All-drop (holds w d) skip (select (test w d) (p.table d))
            (select-All (test w d) (holds w d) (p.table d) (sound w d)));
    find_many_limit =
        λ w o skip limit d. length-take-le limit (drop skip (select (test w d) (p.table d)));
  }
