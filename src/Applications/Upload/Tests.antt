-- ===== src/Applications/Upload/Tests.antt =====
-- Runs of `createWithCv` in memory, and its theorems at concrete inputs.
use talent_flow_ai_backend.Prelude.{none, some, Bool, true, false, ◌≡◌, refl, arith, [], ◌∷◌}
use talent_flow_ai_backend.Model.{Application, Role}
use talent_flow_ai_backend.Async.{ok, err}
use talent_flow_ai_backend.Prisma.Memory.{memory, memory-PrismaLaws}
use talent_flow_ai_backend.Storage.{
  StorageConfig, UploadResult, upload, get_signed_url, delete, build_file_url,
}
use talent_flow_ai_backend.Storage.Memory
use talent_flow_ai_backend.Queue.{publish_cv_uploaded, cv_uploaded}
use talent_flow_ai_backend.Queue.Memory.{channel_answering, channel-AmqpLaws}
use talent_flow_ai_backend.FileKey.{extension_of, generate_cv_file_key}
use talent_flow_ai_backend.Applications.Dto.{UploadCvDto, UploadCvResponseDto}
use talent_flow_ai_backend.Applications.Tests.{run, before, made}
use talent_flow_ai_backend.Applications.Upload.{
  World, UploadedFile, Environment, response, on_db, on_bucket, on_broker, beside, event_of,
  build_upload_response, rollback_create_with_cv, process, process_or_rollback, upload_cv_or_throw,
  create_with_cv,
}
use talent_flow_ai_backend.Applications.Upload.Steps.{Compensates}
use talent_flow_ai_backend.Applications.Upload.Atomic.{
  cv_failure, IsUndone, process_or_rollback-IsUndone,
}
use talent_flow_ai_backend.Applications.Upload.Failure.{HasSameApplications, create_with_cv-err}
use talent_flow_ai_backend.Texts.{split, last}
use talent_flow_ai_backend.FileValidation.{
  File, transform, has_signature, is_empty, extension_of_name,
}
use talent_flow_ai_backend.Auth.Service.{TokenPayload, live}
use talent_flow_ai_backend.Auth.Guards.{validate, can_activate}
use talent_flow_ai_backend.Gateway.{serve, jwt_auth_guard, authenticate, admit}
use talent_flow_ai_backend.Applications.Controller.{
  Reply, upload_cv, upload_checked, handle, controller,
}
use talent_flow_ai_backend.Applications.Submission.{IsSubmission, serve-IsSubmission}

run_upload : Unit {0}
unfolding run create_with_cv process_or_rollback process rollback_create_with_cv
    build_upload_response upload_cv_or_throw on_db on_bucket on_broker beside event_of upload
    get_signed_url delete build_file_url publish_cv_uploaded cv_uploaded generate_cv_file_key
    extension_of
run_upload = tt

abbrev config : StorageConfig
config = record {
  node_env = "development";
  r2_endpoint = none;
  r2_account_id = none;
  r2_bucket = "cvs";
  r2_public_url = some "https://files";
}

-- The channel answers with the Boolean.
abbrev env : Bool → Environment
env answer = record {
  prisma = memory;
  s3 = Memory.memory;
  storage = config;
  channel = channel_answering answer;
  uuid = "id";
  now = 5;
  lower = λ s. s;
}

abbrev world : World
world = record { db = before; bucket = []; broker = []; has_channel = true }

abbrev cv : UploadedFile
cv = record { originalname = "cv.pdf"; mimetype = "application/pdf"; buffer = 37 ∷ 80 ∷ [] }

abbrev dto : UploadCvDto
dto = record { job_id = "j1"; cover_letter = none }

abbrev answer : UploadCvResponseDto
answer = response "k" "cvs/id.pdf" "https://files/cvs/id.pdf" (some "https://signed/cvs/id.pdf")

-- The buffer of the channel is full.
upload_fails : (create_with_cv (env false) "u1" cv dto world).0 ≡ err cv_failure
unfolding run_upload
upload_fails = refl

memory-Compensates : (b : Bool) → Compensates (env b)
unfolding run
memory-Compensates b = record {
  delete_row = λ id d a h. (a, ground arith);
  delete_file = λ key w. refl;
}

create_with_cv-err_example :
    HasSameApplications world (create_with_cv (env false) "u1" cv dto world).1
create_with_cv-err_example =
    create_with_cv-err (env false) memory-PrismaLaws Memory.memory-S3Laws (memory-Compensates false)
      "u1" cv dto world cv_failure upload_fails

abbrev uploaded : UploadResult
uploaded = record { key = "cvs/id.pdf"; url = "https://files/cvs/id.pdf" }

process_fails : (process_or_rollback (env false) cv dto "c1" uploaded world).0 ≡ err cv_failure
unfolding run_upload
process_fails = refl

process_or_rollback-IsUndone_example :
    (cv_failure ≡ cv_failure)
    × IsUndone "cvs/id.pdf" world (process_or_rollback (env false) cv dto "c1" uploaded world).1
process_or_rollback-IsUndone_example =
    process_or_rollback-IsUndone (env false) memory-PrismaLaws Memory.memory-S3Laws
      (memory-Compensates false) cv dto "c1" uploaded world cv_failure process_fails

abbrev orphan : Application
orphan = record made {
  candidate_id = "c1";
  cover_letter = none;
  cv_file_key = some "cvs/id.pdf";
  cv_file_url = some "https://files/cvs/id.pdf";
}

abbrev sent_cv : File
sent_cv = record {
  mimetype = "application/pdf";
  original_name = "cv.pdf";
  size = 5;
  buffer = 37 ∷ 80 ∷ 68 ∷ 70 ∷ 45 ∷ [];
}

abbrev ann_token : TokenPayload
ann_token = record { sub = "u1"; email = "ann@example.com"; role = Role.interviewer }

submission_runs :
    (serve
      (λ w. w.db)
      (controller (env true))
      (some ann_token)
      (upload_cv (some sent_cv) dto)
      world).0
    ≡ ok (Reply.uploaded answer)
unfolding run_upload serve jwt_auth_guard authenticate validate live admit can_activate handle
    upload_checked transform has_signature is_empty extension_of_name split last
submission_runs = refl

serve-IsSubmission_example :
    IsSubmission
      (env true)
      memory-PrismaLaws
      Memory.memory-S3Laws
      (channel-AmqpLaws true)
      (some ann_token)
      (some sent_cv)
      dto
      world
      (serve
        (λ w. w.db)
        (controller (env true))
        (some ann_token)
        (upload_cv (some sent_cv) dto)
        world).1
      (Reply.uploaded answer)
serve-IsSubmission_example =
    serve-IsSubmission (env true) memory-PrismaLaws Memory.memory-S3Laws (channel-AmqpLaws true)
      (some ann_token) (some sent_cv) dto world (Reply.uploaded answer) submission_runs
