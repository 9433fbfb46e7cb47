-- ===== src/Analytics/Pipeline.antt =====
-- The numbers of applications by stage.
use talent_flow_ai_backend.Prelude.{
  ℕ, suc, ◌+◌, ◌<◌, List, [], ◌∷◌, map, Bool, true, false, ◌≡◌, ◌∙◌, sym, refl, ap, arith, Table,
  All, any, ◌&&◌, if◌then◌else◌, Bool-cases, inl, inr,
}
use talent_flow_ai_backend.Model.{
  Db, Application, ApplicationStage, applied, screening, interview, offer, hired, rejected,
  same_stage, same_stage_iff, ApplicationStage-discrete,
}
use talent_flow_ai_backend.Analytics.Service.{
  Queries, all_stages, found_count, get_pipeline, live_applications,
}
use talent_flow_ai_backend.Analytics.Laws.{
  QueriesLaws, count_rows, count_of, total_of, is_live, is_at, passes, count-at, count-live,
}

-- The count found in groups that are right is the number, when no group is missing.
found_count-right :
    (count : ApplicationStage → ℕ) (s : ApplicationStage) (gs : List (ApplicationStage × ℕ))
    → All (λ g. g.1 ≡ count g.0) gs
    → (0 < count s → any (λ g. same_stage g.0 s) gs ≡ true)
    → found_count s gs ≡ count s
unfolding found_count
found_count-right count s [] sound complete = ground (arith, complete)
found_count-right count s ((r, n) ∷ gs) (e, sound) complete = elim (Bool-cases (same_stage r s)) [
  | inl y ↦ let same : r ≡ s = (same_stage_iff r s).0 y in rw (y, e) (ap count same)
  | inr n ↦
      rw n (found_count-right count s gs sound (λ p. let c = complete p in ground (arith, c, n)))
]

-- One of the six stages is that of an application, and no other.
one_stage :
    (live : Bool) (s : ApplicationStage) (a b c d e f : ℕ)
    → (if live && same_stage s applied then suc a else a)
        + ((if live && same_stage s screening then suc b else b)
            + ((if live && same_stage s interview then suc c else c)
                + ((if live && same_stage s offer then suc d else d)
                    + ((if live && same_stage s hired then suc e else e)
                        + ((if live && same_stage s rejected then suc f else f) + 0)))))
      ≡ (if live
          then suc (a + (b + (c + (d + (e + (f + 0))))))
          else a + (b + (c + (d + (e + (f + 0))))))
unfolding same_stage ApplicationStage-discrete
one_stage false s a b c d e f = refl
one_stage true applied a b c d e f = omega arith
one_stage true screening a b c d e f = omega arith
one_stage true interview a b c d e f = omega arith
one_stage true offer a b c d e f = omega arith
one_stage true hired a b c d e f = omega arith
one_stage true rejected a b c d e f = omega arith

counts-total :
    (t : Table Application)
    → total_of (map (λ s. (s, count_rows (is_at s) t)) all_stages) ≡ count_rows is_live t
unfolding total_of count_rows count_of
counts-total [] = refl
counts-total ((id, a) ∷ t) =
    let rest = counts-total t in
    one_stage (is_live a) a.stage (at applied) (at screening) (at interview) (at offer) (at hired)
      (at rejected)
    ∙ rw rest refl
  where
    at : ApplicationStage → ℕ
    at s = count_of (λ entry. is_at s entry.1) t

module _ (q : Queries) (laws : QueriesLaws q) where
  right :
      (d : Db) (s : ApplicationStage)
      → found_count s (q.group_by_stage live_applications d) ≡ count_rows (is_at s) d.applications
  right d s =
      found_count-right
        (λ r. count_rows (λ a. passes live_applications a && same_stage a.stage r) d.applications) s
        (q.group_by_stage live_applications d) (laws.group_sound live_applications d)
        (laws.group_complete live_applications s d)
      ∙ count-at q laws s d

  -- The pipeline has the six stages in their order, each with the number of the applications at it
  -- that are not deleted; the numbers add up to the number of the applications that are not
  -- deleted, which is the total that the overview counts.
  pub get_pipeline-counts :
      (d : Db)
      → (get_pipeline q d ≡ map (λ s. (s, count_rows (is_at s) d.applications)) all_stages)
        × (total_of (get_pipeline q d) ≡ count_rows is_live d.applications)
        × total_of (get_pipeline q d) ≡ q.count_applications live_applications d
  unfolding get_pipeline
  get_pipeline-counts d =
      let each = right d in
      let same : get_pipeline q d ≡ map (λ s. (s, count_rows (is_at s) d.applications)) all_stages =
        rw (each applied, each screening, each interview, each offer, each hired, each rejected)
          refl in
      let total = ap total_of same ∙ counts-total d.applications in
      (same, total, total ∙ sym (count-live q laws d))
