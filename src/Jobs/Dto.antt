-- ===== src/Jobs/Dto.antt =====
-- jobs/dto/*.ts
use talent_flow_ai_backend.Prelude.{ℕ, String, Option}
use talent_flow_ai_backend.Dto.{Field}
use talent_flow_ai_backend.Model.{EmploymentType, JobStatus}
use talent_flow_ai_backend.Prisma.Where.{SortOrder}

pub record CreateJobDto : Type 0 where
  pub title : String
  pub description : Option String
  pub department : Option String
  pub location : Option String
  pub employment_type : Option EmploymentType
  pub salary_min : Option ℕ
  pub salary_max : Option ℕ
  pub status : Option JobStatus
  pub requirements : Option String

-- `PartialType(CreateJobDto)`. A `null` for a column that may not be null, which the database
-- refuses, is left out.
-- A `null` for `requirements`, which Prisma does not take for a JSON column, is left out.
pub record UpdateJobDto : Type 0 where
  pub title : Option String
  pub description : Field String
  pub department : Field String
  pub location : Field String
  pub employment_type : Option EmploymentType
  pub salary_min : Field ℕ
  pub salary_max : Field ℕ
  pub status : Option JobStatus
  pub requirements : Option String

pub record QueryJobsDto : Type 0 where
  pub page : Option ℕ
  pub limit : Option ℕ
  pub search : Option String
  pub status : Option JobStatus
  pub employment_type : Option EmploymentType
  pub department : Option String
  pub salary_min : Option ℕ
  pub salary_max : Option ℕ
  pub skills : Option String
  pub sort_by : Option String
  pub sort_order : Option SortOrder
