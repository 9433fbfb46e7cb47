-- ===== src/Analytics/Overview.antt =====
-- `getOverview`: what its numbers count, and the rate of hires.
use talent_flow_ai_backend.Prelude.{ℕ, ◌+◌, ◌*◌, ◌≤◌, ◌<◌, ◌≡◌, arith, ltb, Bool-cases, inl, inr}
use native.Mathlib.Nat.{div-lt_iff_lt-mul}
use talent_flow_ai_backend.Model.{Db, hired}
use talent_flow_ai_backend.Analytics.Service.{
  Queries, Moments, hire_rate_of, get_overview, hired_applications, live_applications,
}
use talent_flow_ai_backend.Analytics.Laws.{
  QueriesLaws, count_rows, count_of_mono, is_live, is_at, is_live_job, is_open_job, count-live,
  count-hired, count-live_jobs, count-open_jobs,
}

hire_rate_of-le : (h t : ℕ) → h ≤ t → hire_rate_of h t ≤ 1000
unfolding hire_rate_of
hire_rate_of-le h t p = elim (Bool-cases (ltb 0 t)) [
  | inl y ↦
      let positive : 0 < 2 * t = ground arith in
      let below =
        (div-lt_iff_lt-mul {k = 2 * t} {x = 2000 * h + t} {y = 1001} positive).1 (omega arith) in
      rw y (omega (arith, below))
  | inr n ↦ rw n (omega arith)
]

hired-le : (d : Db) → count_rows (is_at hired) d.applications ≤ count_rows is_live d.applications
unfolding count_rows
hired-le d =
    count_of_mono (λ entry. is_at hired entry.1) (λ entry. is_live entry.1) d.applications
      (λ x h. ground (arith, h))

module _ (q : Queries) (laws : QueriesLaws q) where
  -- The numbers of the overview are those of the jobs that are not deleted, of those of them that
  -- are open, of the applications that are not deleted and of those of them that are at HIRED, each
  -- as its query finds them. When the two counts of applications find the same rows, the
  -- applications hired are at most all of them, and the rate is at most 100 percent.
  pub get_overview-hire_rate :
      (m : Moments)
      → ((get_overview q m).total_jobs ≡ count_rows is_live_job m.at_jobs.jobs)
        × ((get_overview q m).open_jobs ≡ count_rows is_open_job m.at_open_jobs.jobs)
        × ((get_overview q m).total_applications
            ≡ count_rows is_live m.at_applications.applications)
        × ((get_overview q m).hired_count ≡ count_rows (is_at hired) m.at_hired.applications)
        × (m.at_hired ≡ m.at_applications
            → ((get_overview q m).hired_count ≤ (get_overview q m).total_applications)
              × (get_overview q m).hire_rate ≤ 1000)
  unfolding get_overview
  get_overview-hire_rate m = (
    count-live_jobs q laws m.at_jobs,
    count-open_jobs q laws m.at_open_jobs,
    count-live q laws m.at_applications,
    count-hired q laws m.at_hired,
    λ same.
        let all = count-live q laws m.at_applications in
        let of_them = count-hired q laws m.at_hired in
        let le : q.count_applications hired_applications m.at_hired
            ≤ q.count_applications live_applications m.at_applications =
          rw (all, of_them, same) (hired-le m.at_applications) in
        (
          le,
          hire_rate_of-le (q.count_applications hired_applications m.at_hired)
              (q.count_applications live_applications m.at_applications) le,
        ),
  )
