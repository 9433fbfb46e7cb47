-- ===== src/Model.antt =====
-- The rows and enumerations of the database (api-gateway/prisma/schema.prisma), as the services
-- read and write them. A time is a number of milliseconds. The columns `createdAt` and `updatedAt`,
-- which the database fills and no service reads back, are left out.
use mathlib.Core.Bool.{decide, decide_iff}
use talent_flow_ai_backend.Prelude.{ℕ, String, Option, Table, Bool, true, ◌≡◌, ◌↔◌}

pub data Role : Type 0 where
  admin recruiter interviewer : Role

pub data EmploymentType : Type 0 where
  full_time part_time contract internship : EmploymentType

-- `is_open` is the status OPEN.
pub data JobStatus : Type 0 where
  draft is_open closed archived : JobStatus

pub data ApplicationStage : Type 0 where
  applied screening interview offer hired rejected : ApplicationStage

pub data ApplicationStatus : Type 0 where
  submitted reviewing shortlisted interview_scheduled interviewed offered accepted rejected
        withdrawn :
      ApplicationStatus

pub data InterviewType : Type 0 where
  phone video in_person panel technical : InterviewType

pub data InterviewStatus : Type 0 where
  scheduled confirmed in_progress completed cancelled no_show : InterviewStatus

pub record User : Type 0 where
  pub id : String
  pub email : String
  pub password : String
  pub role : Role
  pub full_name : String
  pub deleted_at : Option ℕ

pub record Job : Type 0 where
  pub id : String
  pub title : String
  pub description : Option String
  pub requirements : Option String
  pub department : Option String
  pub location : Option String
  pub employment_type : EmploymentType
  pub salary_min : Option ℕ
  pub salary_max : Option ℕ
  pub status : JobStatus
  pub created_by_id : String
  pub deleted_at : Option ℕ

pub record Candidate : Type 0 where
  pub id : String
  pub email : String
  pub full_name : String
  pub phone : Option String
  pub linkedin_url : Option String
  pub resume_url : Option String
  pub resume_text : Option String

pub record Application : Type 0 where
  pub id : String
  pub job_id : String
  pub candidate_id : String
  pub stage : ApplicationStage
  pub status : ApplicationStatus
  pub cv_file_key : Option String
  pub cv_file_url : Option String
  pub cover_letter : Option String
  pub notes : Option String
  pub applied_at : ℕ
  pub reviewed_at : Option ℕ
  pub deleted_at : Option ℕ

pub record Interview : Type 0 where
  pub id : String
  pub application_id : String
  pub scheduled_at : ℕ
  pub duration : ℕ
  pub type : InterviewType
  pub location : Option String
  pub notes : Option String
  pub status : InterviewStatus
  pub interviewer_id : Option String

-- The database: the contents of its tables.
pub record Db : Type 0 where
  pub users : Table User
  pub jobs : Table Job
  pub candidates : Table Candidate
  pub applications : Table Application
  pub interviews : Table Interview

unfoldable pub Role-discrete : Discrete Role
Role-discrete = hlevel

pub EmploymentType-discrete : Discrete EmploymentType
EmploymentType-discrete = hlevel

pub JobStatus-discrete : Discrete JobStatus
JobStatus-discrete = hlevel

unfoldable pub ApplicationStage-discrete : Discrete ApplicationStage
ApplicationStage-discrete = hlevel

unfoldable pub ApplicationStatus-discrete : Discrete ApplicationStatus
ApplicationStatus-discrete = hlevel

pub InterviewType-discrete : Discrete InterviewType
InterviewType-discrete = hlevel

pub InterviewStatus-discrete : Discrete InterviewStatus
InterviewStatus-discrete = hlevel

-- `===` on two statuses
unfoldable pub same_status : ApplicationStatus → ApplicationStatus → Bool
unfolding ApplicationStatus-discrete decide
same_status a b = decide (ApplicationStatus-discrete a b)

pub same_status_iff : (a b : ApplicationStatus) → (same_status a b ≡ true) ↔ (a ≡ b)
unfolding same_status
same_status_iff a b = decide_iff (ApplicationStatus-discrete a b)

-- `===` on two stages
unfoldable pub same_stage : ApplicationStage → ApplicationStage → Bool
unfolding ApplicationStage-discrete decide
same_stage a b = decide (ApplicationStage-discrete a b)

pub same_stage_iff : (a b : ApplicationStage) → (same_stage a b ≡ true) ↔ (a ≡ b)
unfolding same_stage
same_stage_iff a b = decide_iff (ApplicationStage-discrete a b)
