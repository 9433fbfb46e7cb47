-- ===== src/Applications/Dto.antt =====
-- applications/dto/*.ts. A property that is not marked optional is always there.
use talent_flow_ai_backend.Prelude.{ℕ, String, Option}
use talent_flow_ai_backend.Dto.{Field}
use talent_flow_ai_backend.Model.{ApplicationStage, ApplicationStatus}
use talent_flow_ai_backend.Prisma.Where.{SortOrder}

pub record CreateApplicationDto : Type 0 where
  pub job_id : String
  pub cover_letter : Option String
  pub cv_file_key : Option String
  pub cv_file_url : Option String

pub record UploadCvDto : Type 0 where
  pub job_id : String
  pub cover_letter : Option String

-- A `null` for `stage` or `status`, which the validation lets through and the database refuses, is
-- left out.
pub record UpdateApplicationDto : Type 0 where
  pub stage : Option ApplicationStage
  pub status : Option ApplicationStatus
  pub notes : Field String
  pub cover_letter : Field String

pub record QueryApplicationsDto : Type 0 where
  pub page : Option ℕ
  pub limit : Option ℕ
  pub job_id : Option String
  pub candidate_id : Option String
  pub stage : Option ApplicationStage
  pub status : Option ApplicationStatus
  pub sort_by : Option String
  pub sort_order : Option SortOrder

pub record UploadCvResponseDto : Type 0 where
  pub application_id : String
  pub file_key : String
  pub file_url : String
  pub presigned_url : Option String
  pub status : String
  pub message : String
