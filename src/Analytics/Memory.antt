-- ===== src/Analytics/Memory.antt =====
-- Queries on a database in memory that meet the laws.
use talent_flow_ai_backend.Prelude.{
  ℕ, ◌<◌, List, [], ◌∷◌, Bool, true, ◌&&◌, ◌≡◌, refl, arith, Table, All, any, ltb, if◌then◌else◌,
  Bool-cases, inl, inr,
}
use talent_flow_ai_backend.Model.{
  Db, Job, Application, ApplicationStage, same_stage, same_stage_iff, ApplicationStage-discrete,
  applied, screening, interview, offer, hired, rejected,
}
use talent_flow_ai_backend.Prelude.{take, ◌==◌}
use talent_flow_ai_backend.Analytics.Service.{Queries, all_stages, ApplicationFilter, JobFilter}
use talent_flow_ai_backend.Analytics.Laws.{QueriesLaws, count_rows, count_of, passes, passes_job}

unfoldable pub groups : (ApplicationStage → ℕ) → List ApplicationStage → List (ApplicationStage × ℕ)
groups count [] = []
groups count (s ∷ ss) =
    let rest = groups count ss in if ltb 0 (count s) then (s, count s) ∷ rest else rest

unfoldable pub times : ApplicationFilter → Table Application → List ℕ
times w [] = []
times w ((id, a) ∷ t) = let rest = times w t in if passes w a then a.applied_at ∷ rest else rest

-- The jobs of a filter, each with the number of all its applications
unfoldable pub jobs_of : JobFilter → Db → Table Job → List (Job × ℕ)
jobs_of w d [] = []
jobs_of w d ((id, j) ∷ t) =
    let rest = jobs_of w d t in
    if passes_job w j then (j, count_rows (λ a. a.job_id == id) d.applications) ∷ rest else rest

abbrev pub memory : Queries
memory = record {
  count_jobs = λ w d. count_rows (passes_job w) d.jobs;
  count_candidates = λ d. count_rows (λ c. true) d.candidates;
  count_applications = λ w d. count_rows (passes w) d.applications;
  group_by_stage = λ w d.
      groups (λ s. count_rows (λ a. passes w a && same_stage a.stage s) d.applications) all_stages;
  find_applied_at = λ w d. times w d.applications;
  find_jobs = λ w limit d. take limit (jobs_of w d d.jobs);
}

groups_sound :
    (count : ApplicationStage → ℕ) (ss : List ApplicationStage)
    → All (λ g. g.1 ≡ count g.0) (groups count ss)
unfolding groups
groups_sound count [] = tt
groups_sound count (s ∷ ss) = elim (Bool-cases (ltb 0 (count s))) [
  | inl y ↦ rw y (refl, groups_sound count ss)
  | inr n ↦ rw n (groups_sound count ss)
]

groups_complete :
    (count : ApplicationStage → ℕ) (s : ApplicationStage) (ss : List ApplicationStage)
    → any (λ r. same_stage r s) ss ≡ true
    → 0 < count s
    → any (λ g. same_stage g.0 s) (groups count ss) ≡ true
unfolding groups
groups_complete count s [] h p = h
groups_complete count s (r ∷ ss) h p =
    let same = same_stage_iff r s in
    let rest = groups_complete count s ss in ground (arith, same, rest)

every_stage : (s : ApplicationStage) → any (λ r. same_stage r s) all_stages ≡ true
unfolding same_stage ApplicationStage-discrete
every_stage applied = refl
every_stage screening = refl
every_stage interview = refl
every_stage offer = refl
every_stage hired = refl
every_stage rejected = refl

times-count :
    (f : ℕ → Bool) (w : ApplicationFilter) (t : Table Application)
    → count_of f (times w t) ≡ count_rows (λ a. passes w a && f a.applied_at) t
unfolding times count_of count_rows
times-count f w [] = refl
times-count f w ((id, a) ∷ t) =
    let rest = times-count f w t in
    elim (Bool-cases (passes w a)) [ inl y ↦ rw (y, rest) refl | inr n ↦ rw (n, rest) refl ]

pub memory-QueriesLaws : QueriesLaws memory
memory-QueriesLaws = record {
  jobs = λ w d. refl;
  applications = λ w d. refl;
  group_sound = λ w d.
      groups_sound (λ s. count_rows (λ a. passes w a && same_stage a.stage s) d.applications)
        all_stages;
  group_complete = λ w s d p.
      groups_complete (λ r. count_rows (λ a. passes w a && same_stage a.stage r) d.applications) s
        all_stages (every_stage s) p;
  applied_at = λ f w d. times-count f w d.applications;
}
