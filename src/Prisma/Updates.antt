-- ===== src/Prisma/Updates.antt =====
-- An update of a row that was read before, for every model.
use talent_flow_ai_backend.Prelude.{ℕ, String, some, ◌≡◌, arith, ap, ◌∙◌, lookup, insert}
use talent_flow_ai_backend.Model.{Db}
use talent_flow_ai_backend.Async.{ok}
use talent_flow_ai_backend.Prisma.{Delegate}
use talent_flow_ai_backend.Prisma.Laws.{Place, Writes}

module _ {Row New Where : Type 0} (place : Place Row) (row : String → ℕ → New → Row)
    (m : Delegate Row New Where) (laws : Writes place row m) where
  pub update-known :
      (id : String) (change : Row → Row) (d : Db) (old r : Row)
      → lookup id (place.table d) ≡ some old
      → (m.update id change d).0 ≡ ok r
      → (r ≡ change old)
        × ((m.update id change d).1 ≡ place.put (insert id (change old) (place.table d)) d)
  update-known id change d old r there done =
      let (q, at, new, after) = laws.update_ok id change d r done in
      let one : q ≡ old = ground arith in
      let same : r ≡ change old = new ∙ ap change one in
      (same, after ∙ ap (λ k. place.put (insert id k (place.table d)) d) same)
