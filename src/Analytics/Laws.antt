-- ===== src/Analytics/Laws.antt =====
-- What the statistics rely on of the Prisma client: a count is the number of the rows that satisfy
-- the `where`, and the groups are those that have rows.
use talent_flow_ai_backend.Prelude.{
  ℕ, suc, ◌+◌, ◌≤◌, ◌<◌, none, some, List, [], ◌∷◌, Bool, true, false, ◌&&◌, ◌≡◌, refl, arith,
  Table, All, any, leb, is_some, not, if◌then◌else◌, ◌∙◌, Option,
}
use talent_flow_ai_backend.Model.{
  Db, Application, ApplicationStage, same_stage, Job, JobStatus, JobStatus-discrete, is_open, hired,
}
use mathlib.Core.Bool.{decide}
use talent_flow_ai_backend.Analytics.Service.{
  Queries, JobFilter, ApplicationFilter, live_jobs, live_applications, hired_applications,
  applications_since, Calendar, diff, pos,
}

-- The number of the elements that pass a test
unfoldable pub count_of {ℓ} : {A : Type ℓ} → (A → Bool) → List A → ℕ
count_of f [] = 0
count_of f (x ∷ xs) = let rest = count_of f xs in if f x then suc rest else rest

-- The number of the rows that pass a test
unfoldable pub count_rows {ℓ} : {Row : Type ℓ} → (Row → Bool) → Table Row → ℕ
unfolding count_of
count_rows f t = count_of (λ entry. f entry.1) t

-- The total of the counts of a list
unfoldable pub total_of {ℓ} : {A : Type ℓ} → List (A × ℕ) → ℕ
total_of [] = 0
total_of ((a, n) ∷ xs) = n + total_of xs

abbrev pub is_live : Application → Bool
is_live a = not (is_some a.deleted_at)

abbrev pub is_at : ApplicationStage → Application → Bool
is_at s a = is_live a && same_stage a.stage s

abbrev pub is_since : ℕ → Application → Bool
is_since start a = is_live a && leb start a.applied_at

abbrev pub is_live_job : Job → Bool
is_live_job j = not (is_some j.deleted_at)

abbrev pub is_open_job : Job → Bool
is_open_job j = is_live_job j && decide (JobStatus-discrete j.status is_open)

-- When a row passes the filters of a `where`
abbrev pub is_live_if : Bool → Option ℕ → Bool
is_live_if true deleted_at = not (is_some deleted_at)
is_live_if false deleted_at = true

abbrev pub has_stage : Option ApplicationStage → Application → Bool
has_stage none a = true
has_stage (some s) a = same_stage a.stage s

abbrev pub has_status : Option JobStatus → Job → Bool
has_status none j = true
has_status (some s) j = decide (JobStatus-discrete j.status s)

abbrev pub is_at_least : Option ℕ → ℕ → Bool
is_at_least none time = true
is_at_least (some start) time = leb start time

abbrev pub passes : ApplicationFilter → Application → Bool
passes w a =
    is_live_if w.live a.deleted_at
    && (has_stage w.stage a && is_at_least w.applied_at_gte a.applied_at)

abbrev pub passes_job : JobFilter → Job → Bool
passes_job w j = is_live_if w.live j.deleted_at && has_status w.status j

pub record QueriesLaws (q : Queries) : Type 0 where
  pub jobs : (w : JobFilter) (d : Db) → q.count_jobs w d ≡ count_rows (passes_job w) d.jobs
  pub applications :
      (w : ApplicationFilter) (d : Db)
      → q.count_applications w d ≡ count_rows (passes w) d.applications
  pub group_sound :
      (w : ApplicationFilter) (d : Db)
      → All
          (λ g. g.1 ≡ count_rows (λ a. passes w a && same_stage a.stage g.0) d.applications)
          (q.group_by_stage w d)
  pub group_complete :
      (w : ApplicationFilter) (s : ApplicationStage) (d : Db)
      → 0 < count_rows (λ a. passes w a && same_stage a.stage s) d.applications
      → any (λ g. same_stage g.0 s) (q.group_by_stage w d) ≡ true
  pub applied_at :
      (f : ℕ → Bool) (w : ApplicationFilter) (d : Db)
      → count_of f (q.find_applied_at w d)
        ≡ count_rows (λ a. passes w a && f a.applied_at) d.applications

-- What satisfies a stronger test is counted by a weaker one.
pub count_of_mono {ℓ} :
    {A : Type ℓ} (f g : A → Bool) (xs : List A)
    → ((x : A) → f x ≡ true → g x ≡ true)
    → count_of f xs ≤ count_of g xs
unfolding count_of
count_of_mono f g [] h = omega arith
count_of_mono f g (x ∷ xs) h = let rest = count_of_mono f g xs h in let here = h x in ground arith

-- Tests that agree count the same.
pub count_of-ext {ℓ} :
    {A : Type ℓ} (f g : A → Bool) (xs : List A)
    → ((x : A) → f x ≡ g x)
    → count_of f xs ≡ count_of g xs
unfolding count_of
count_of-ext f g [] h = refl
count_of-ext f g (x ∷ xs) h = rw (h x, count_of-ext f g xs h) refl

pub count_rows-ext {ℓ} :
    {Row : Type ℓ} (f g : Row → Bool) (t : Table Row)
    → ((r : Row) → f r ≡ g r)
    → count_rows f t ≡ count_rows g t
unfolding count_rows
count_rows-ext f g t h = count_of-ext (λ x. f x.1) (λ x. g x.1) t (λ x. h x.1)

-- The filters of the service, one by one
passes-live : (a : Application) → passes live_applications a ≡ is_live a
passes-live a = ground arith

passes-hired : (a : Application) → passes hired_applications a ≡ is_at hired a
passes-hired a = ground arith

passes-at :
    (s : ApplicationStage) (a : Application)
    → (passes live_applications a && same_stage a.stage s) ≡ is_at s a
passes-at s a = ground arith

passes-since :
    (start : ℕ) (f : Bool) (a : Application)
    → (passes (applications_since start) a && f) ≡ (is_since start a && f)
passes-since start f a = ground arith

passes_job-live : (j : Job) → passes_job live_jobs j ≡ is_live_job j
passes_job-live j = ground arith

module _ (q : Queries) (laws : QueriesLaws q) where
  pub count-live :
      (d : Db) → q.count_applications live_applications d ≡ count_rows is_live d.applications
  count-live d =
      laws.applications live_applications d
      ∙ count_rows-ext (passes live_applications) is_live d.applications passes-live

  pub count-hired :
      (d : Db) → q.count_applications hired_applications d ≡ count_rows (is_at hired) d.applications
  count-hired d =
      laws.applications hired_applications d
      ∙ count_rows-ext (passes hired_applications) (is_at hired) d.applications passes-hired

  pub count-live_jobs : (d : Db) → q.count_jobs live_jobs d ≡ count_rows is_live_job d.jobs
  count-live_jobs d =
      laws.jobs live_jobs d
      ∙ count_rows-ext (passes_job live_jobs) is_live_job d.jobs passes_job-live

  pub count-open_jobs :
      (d : Db)
      → q.count_jobs (record { live = true; status = some is_open }) d
        ≡ count_rows is_open_job d.jobs
  count-open_jobs d = laws.jobs (record { live = true; status = some is_open }) d

  pub count-at :
      (s : ApplicationStage) (d : Db)
      → count_rows (λ a. passes live_applications a && same_stage a.stage s) d.applications
        ≡ count_rows (is_at s) d.applications
  count-at s d =
      count_rows-ext (λ a. passes live_applications a && same_stage a.stage s) (is_at s)
        d.applications (passes-at s)

  pub count-since :
      (f : ℕ → Bool) (start : ℕ) (d : Db)
      → count_of f (q.find_applied_at (applications_since start) d)
        ≡ count_rows (λ a. is_since start a && f a.applied_at) d.applications
  count-since f start d =
      laws.applied_at f (applications_since start) d
      ∙ count_rows-ext (λ a. passes (applications_since start) a && f a.applied_at)
          (λ a. is_since start a && f a.applied_at) d.applications
          (λ a. passes-since start (f a.applied_at) a)

-- What the trends rely on of `Date`: `day` numbers the dates of local time, and `midnight` is the
-- first moment of one.
pub record CalendarLaws (calendar : Calendar) : Type 0 where
  pub day : ℕ → ℕ
  pub midnight : ℕ → ℕ
  pub day_midnight : (k : ℕ) → day (midnight k) ≡ k
  pub midnight_leb : (k t : ℕ) → leb (midnight k) t ≡ leb k (day t)
  pub set_hours_zero : (t : ℕ) → calendar.set_hours t 0 0 0 0 ≡ midnight (day t)
  pub set_date_back :
      (t n : ℕ) → n ≤ day t → day (calendar.set_date t (diff (calendar.get_date t) n)) + n ≡ day t
  pub set_date_on :
      (t n : ℕ) → day (calendar.set_date t (pos (calendar.get_date t + n))) ≡ day t + n
