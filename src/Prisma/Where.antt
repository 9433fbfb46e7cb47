-- ===== src/Prisma/Where.antt =====
-- The `where` and `orderBy` objects that the services build, and when a row satisfies a `where`.
-- A filter that is not set is `none`; `live` says that `deletedAt: null` is set.
use talent_flow_ai_backend.Prelude.{
  ℕ, String, Option, none, some, List, Bool, true, false, ◌≡◌, ◌≤◌, lookup,
}
use talent_flow_ai_backend.Model.{Role, EmploymentType, JobStatus, ApplicationStage}
use talent_flow_ai_backend.Model.{ApplicationStatus, InterviewType, InterviewStatus}
use talent_flow_ai_backend.Model.{Job, Application, Interview, User, Db}

pub data SortOrder : Type 0 where
  asc desc : SortOrder

pub record OrderBy : Type 0 where
  pub sort_by : String
  pub sort_order : SortOrder

pub record UserWhere : Type 0 where
  pub live : Bool
  pub search : Option String
  pub role : Option Role

pub record JobWhere : Type 0 where
  pub live : Bool
  pub search : Option String
  pub status : Option JobStatus
  pub employment_type : Option EmploymentType
  pub department : Option String
  pub salary_max_gte : Option ℕ
  pub salary_min_lte : Option ℕ
  pub skills : Option (List String)

pub record CandidateWhere : Type 0 where
  pub search : Option String

pub record ApplicationWhere : Type 0 where
  pub live : Bool
  pub job_created_by_id : Option String
  pub candidate_id : Option String
  pub job_id : Option String
  pub stage : Option ApplicationStage
  pub status : Option ApplicationStatus

pub record InterviewWhere : Type 0 where
  pub application_id : Option String
  pub interviewer_id : Option String
  pub type : Option InterviewType
  pub status : Option InterviewStatus

-- A filter on one column: the column has the value, if one is set.
abbrev pub Equals {ℓ} : {A : Type ℓ} → Option A → A → Type ℓ
Equals none x = Unit
Equals (some a) x = x ≡ a

abbrev pub IsLive : Bool → Option ℕ → Type 0
IsLive true deleted_at = deleted_at ≡ none
IsLive false deleted_at = Unit

-- `{ gte: a }` and `{ lte: a }` on a column that may be null, which neither accepts.
abbrev pub AtLeast : Option ℕ → Option ℕ → Type 0
AtLeast none x = Unit
AtLeast (some a) x = (n : ℕ) × (x ≡ some n) × (a ≤ n)

abbrev pub AtMost : Option ℕ → Option ℕ → Type 0
AtMost none x = Unit
AtMost (some a) x = (n : ℕ) × (x ≡ some n) × (n ≤ a)

-- `{ job: { createdById: u } }`
abbrev pub JobCreatedBy : Option String → Db → String → Type 0
JobCreatedBy none d job_id = Unit
JobCreatedBy (some u) d job_id = (j : Job) × (lookup job_id d.jobs ≡ some j) × (j.created_by_id ≡ u)

pub record Satisfies (w : ApplicationWhere) (d : Db) (a : Application) : Type 0 where
  pub live : IsLive w.live a.deleted_at
  pub job_created_by : JobCreatedBy w.job_created_by_id d a.job_id
  pub candidate : Equals w.candidate_id a.candidate_id
  pub job : Equals w.job_id a.job_id
  pub stage : Equals w.stage a.stage
  pub status : Equals w.status a.status

-- Of a job's filters, those that no text search decides.
pub record SatisfiesJob (w : JobWhere) (d : Db) (j : Job) : Type 0 where
  pub live : IsLive w.live j.deleted_at
  pub status : Equals w.status j.status
  pub employment_type : Equals w.employment_type j.employment_type
  pub salary_max : AtLeast w.salary_max_gte j.salary_max
  pub salary_min : AtMost w.salary_min_lte j.salary_min

pub record SatisfiesUser (w : UserWhere) (d : Db) (u : User) : Type 0 where
  pub live : IsLive w.live u.deleted_at
  pub role : Equals w.role u.role

pub record SatisfiesInterview (w : InterviewWhere) (d : Db) (i : Interview) : Type 0 where
  pub application : Equals w.application_id i.application_id
  pub interviewer : (u : String) → w.interviewer_id ≡ some u → i.interviewer_id ≡ some u
  pub type : Equals w.type i.type
  pub status : Equals w.status i.status
