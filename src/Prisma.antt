-- ===== src/Prisma.antt =====
-- What the services use of the Prisma client, which is not part of the repository: a parameter of
-- the model. A read by primary key is the row of the table; a read that the database refuses is
-- left out, a write that it refuses is an error.
pub mod Where
pub mod Laws
pub mod Updates
pub mod Memory
use talent_flow_ai_backend.Prelude.{ℕ, String, Option, List}
use talent_flow_ai_backend.Model.{Role, EmploymentType, JobStatus, InterviewType}
use talent_flow_ai_backend.Model.{User, Job, Candidate, Application, Interview, Db}
use talent_flow_ai_backend.Async.{Async}
use Where.{OrderBy, UserWhere, JobWhere, CandidateWhere, ApplicationWhere, InterviewWhere}

-- The `data` of each `create`.
pub record NewUser : Type 0 where
  pub email : String
  pub password : String
  pub full_name : String
  pub role : Role

pub record NewJob : Type 0 where
  pub title : String
  pub description : Option String
  pub requirements : Option String
  pub department : Option String
  pub location : Option String
  pub employment_type : Option EmploymentType
  pub salary_min : Option ℕ
  pub salary_max : Option ℕ
  pub status : Option JobStatus
  pub created_by_id : String

pub record NewCandidate : Type 0 where
  pub email : String
  pub full_name : String

pub record NewApplication : Type 0 where
  pub job_id : String
  pub candidate_id : String
  pub cover_letter : Option String
  pub cv_file_key : Option String
  pub cv_file_url : Option String

pub record NewInterview : Type 0 where
  pub application_id : String
  pub scheduled_at : ℕ
  pub duration : ℕ
  pub type : InterviewType
  pub location : Option String
  pub notes : Option String
  pub interviewer_id : Option String

-- `prisma.<model>`. The `data` of an `update` is the change that it makes to the row.
pub record Delegate (Row New Where : Type 0) : Type 0 where
  pub create : New → Async Db Row
  pub update : String → (Row → Row) → Async Db Row
  pub find_many : Where → OrderBy → (skip take : ℕ) → Db → List Row
  pub count : Where → Db → ℕ

pub record PrismaClient : Type 0 where
  pub user : Delegate User NewUser UserWhere
  pub job : Delegate Job NewJob JobWhere
  pub candidate : Delegate Candidate NewCandidate CandidateWhere
  pub application : Delegate Application NewApplication ApplicationWhere
  pub interview : Delegate Interview NewInterview InterviewWhere
  -- `findUnique({ where: { email } })`
  pub user_by_email : String → Db → Option User
  pub candidate_by_email : String → Db → Option Candidate
  -- `application.findFirst({ where })`
  pub first_application : ApplicationWhere → Db → Option Application
  -- `delete({ where: { id } })`
  pub delete_candidate : String → Async Db Candidate
  pub delete_application : String → Async Db Application
