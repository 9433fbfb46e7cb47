-- ===== src/Analytics/Service.antt =====
-- analytics/analytics.service.ts.
use talent_flow_ai_backend.Prelude.{
  ℕ, zero, suc, ◌+◌, ◌*◌, ◌/◌, ◌-◌, Bool, String, leb, true, Option, none, some, List, [], ◌∷◌, map,
  Table, lookup, insert, or_else, ltb, if◌then◌else◌,
}
use talent_flow_ai_backend.Texts.{split}
use talent_flow_ai_backend.Model.{
  Db, Job, JobStatus, is_open, ApplicationStage, applied, screening, interview, offer, hired,
  rejected, same_stage,
}

-- The `where` of a query on jobs and on applications. `live` says that `deletedAt: null` is set; a
-- filter that is not set is `none`.
pub record JobFilter : Type 0 where
  pub live : Bool
  pub status : Option JobStatus

pub record ApplicationFilter : Type 0 where
  pub live : Bool
  pub stage : Option ApplicationStage
  pub applied_at_gte : Option ℕ

-- The queries, which the Prisma client answers.
pub record Queries : Type 0 where
  -- `job.count`, `candidate.count` and `application.count`
  pub count_jobs : JobFilter → Db → ℕ
  pub count_candidates : Db → ℕ
  pub count_applications : ApplicationFilter → Db → ℕ
  -- `application.groupBy({ by: ['stage'], _count: { id: true } })`
  pub group_by_stage : ApplicationFilter → Db → List (ApplicationStage × ℕ)
  -- `application.findMany`: `appliedAt`, in ascending order
  pub find_applied_at : ApplicationFilter → Db → List ℕ
  -- `job.findMany`: the first jobs by the number of their applications, with the number
  pub find_jobs : JobFilter → (limit : ℕ) → Db → List (Job × ℕ)

-- `{ deletedAt: null }`, on jobs and on applications
abbrev pub live_jobs : JobFilter
live_jobs = record { live = true; status = none }

abbrev pub live_applications : ApplicationFilter
live_applications = record { live = true; stage = none; applied_at_gte = none }

-- What each of the queries that `Promise.all` starts finds in the database: no transaction holds
-- them together.
pub record Moments : Type 0 where
  pub at_jobs : Db
  pub at_open_jobs : Db
  pub at_candidates : Db
  pub at_applications : Db
  pub at_hired : Db

-- `hire_rate` is in tenths of a percent.
pub record Overview : Type 0 where
  pub total_jobs : ℕ
  pub open_jobs : ℕ
  pub total_candidates : ℕ
  pub total_applications : ℕ
  pub hired_count : ℕ
  pub hire_rate : ℕ

-- `Math.round((hired / total) * 1000)`, which rounds a half up, without an error of the quotient
unfoldable pub hire_rate_of : (hired_count total : ℕ) → ℕ
hire_rate_of hired_count total =
    if ltb 0 total then (2000 * hired_count + total) / (2 * total) else 0

-- `{ stage: 'HIRED', deletedAt: null }`
abbrev pub hired_applications : ApplicationFilter
hired_applications = record { live = true; stage = some hired; applied_at_gte = none }

-- `getOverview`
unfoldable pub get_overview : Queries → Moments → Overview
get_overview q m = record {
  total_jobs = q.count_jobs live_jobs m.at_jobs;
  open_jobs = q.count_jobs (record { live = true; status = some is_open }) m.at_open_jobs;
  total_candidates = q.count_candidates m.at_candidates;
  total_applications = q.count_applications live_applications m.at_applications;
  hired_count = q.count_applications hired_applications m.at_hired;
  hire_rate =
      hire_rate_of (q.count_applications hired_applications m.at_hired)
        (q.count_applications live_applications m.at_applications);
}

abbrev pub all_stages : List ApplicationStage
all_stages = applied ∷ screening ∷ interview ∷ offer ∷ hired ∷ rejected ∷ []

-- `stages.find((s) => s.stage === stage)`, and its count
unfoldable pub found_count : ApplicationStage → List (ApplicationStage × ℕ) → ℕ
found_count stage [] = 0
found_count stage ((s, n) ∷ rest) = if same_stage s stage then n else found_count stage rest

-- `getPipeline`
unfoldable pub get_pipeline : Queries → Db → List (ApplicationStage × ℕ)
get_pipeline q d =
    map (λ stage. (stage, found_count stage (q.group_by_stage live_applications d))) all_stages

pub data ℤ : Type 0 where
  pos negsuc : ℕ → ℤ

-- The difference of two natural numbers
unfoldable pub diff : ℕ → ℕ → ℤ
diff a b = if leb b a then pos (a - b) else negsuc (b - a - 1)

-- The methods of `Date` in local time, on a time: `getDate()`, `setDate(day)`, which takes any
-- integer, `setHours(h, m, s, ms)`, and `toISOString()`
pub record Calendar : Type 0 where
  pub get_date : ℕ → ℕ
  pub set_date : ℕ → (day : ℤ) → ℕ
  pub set_hours : ℕ → (hours minutes seconds ms : ℕ) → ℕ
  pub to_iso_string : ℕ → String

first : List String → String
first [] = ""
first (part ∷ parts) = part

-- `toISOString().split('T')[0]`
unfoldable pub date_key : Calendar → ℕ → String
unfolding first split
date_key calendar time = first (split "T" (calendar.to_iso_string time))

-- `startDate.setDate(startDate.getDate() - days); startDate.setHours(0, 0, 0, 0);`
unfoldable pub start_date : Calendar → (days now : ℕ) → ℕ
unfolding diff
start_date calendar days now =
    calendar.set_hours (calendar.set_date now (diff (calendar.get_date now) days)) 0 0 0 0

-- `date.setDate(date.getDate() + i)`
unfoldable pub add_days : Calendar → (time i : ℕ) → ℕ
add_days calendar time i = calendar.set_date time (pos (calendar.get_date time + i))

-- `{ appliedAt: { gte: startDate }, deletedAt: null }`
abbrev pub applications_since : ℕ → ApplicationFilter
applications_since start = record { live = true; stage = none; applied_at_gte = some start }

module _ (calendar : Calendar) where
  -- The loop that sets the dates from the `i`th on to 0, `n` of them
  unfoldable pub with_dates : (start i n : ℕ) → Table ℕ → Table ℕ
  with_dates start i zero dates = dates
  with_dates start i (suc n) dates =
      with_dates start (suc i) n (insert (date_key calendar (add_days calendar start i)) 0 dates)

  -- The loop that counts the applications
  unfoldable pub counted : List ℕ → Table ℕ → Table ℕ
  counted [] dates = dates
  counted (time ∷ times) dates =
      let key = date_key calendar time in
      counted times (insert key (or_else (lookup key dates) 0 + 1) dates)

  -- `getTrends`
  unfoldable pub get_trends : Queries → (now days : ℕ) → Db → Table ℕ
  get_trends q now days d =
      let start = start_date calendar days now in
      counted (q.find_applied_at (applications_since start) d) (with_dates start 0 (days + 1) [])

pub record TopJob : Type 0 where
  pub id : String
  pub title : String
  pub department : Option String
  pub status : JobStatus
  pub application_count : ℕ

abbrev pub top_job_of : Job × ℕ → TopJob
top_job_of (job, count) = record {
  id = job.id;
  title = job.title;
  department = job.department;
  status = job.status;
  application_count = count;
}

-- `getTopJobs`
unfoldable pub get_top_jobs : Queries → (limit : ℕ) → Db → List TopJob
get_top_jobs q limit d = map top_job_of (q.find_jobs live_jobs limit d)
