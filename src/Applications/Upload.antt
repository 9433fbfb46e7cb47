-- ===== src/Applications/Upload.antt =====
-- applications.service.ts, `createWithCv` and its helpers: the one method that uses the database,
-- the store of files and the broker.
pub mod Steps
pub mod Atomic
pub mod Delivery
pub mod Failure
mod Tests
use talent_flow_ai_backend.Prelude.{ℕ, String, Option, none, some, Bool, ◌≡◌, refl, if◌then◌else◌}
use talent_flow_ai_backend.Model.{Application, Db}
use talent_flow_ai_backend.Async.{
  Async, Result, ok, err, Exception, internal_server_error, pure, throw, attempt, handle, ◌>>=◌,
  ◌>>◌,
}
use talent_flow_ai_backend.Prisma.{PrismaClient, NewApplication}
use talent_flow_ai_backend.Storage.{Buffer, Bucket, StorageConfig, S3Client, UploadResult}
use talent_flow_ai_backend.Storage
use talent_flow_ai_backend.Queue.{AmqpChannel, Broker, CvUploadedEvent, publish_cv_uploaded}
use talent_flow_ai_backend.FileKey.{generate_cv_file_key}
use talent_flow_ai_backend.Applications.Dto.{UploadCvDto, UploadCvResponseDto}
use talent_flow_ai_backend.Applications.Service.{
  find_open_job_or_throw, find_or_create_candidate_or_throw, ensure_no_duplicate_application,
}

-- What the method touches. `has_channel`: the queue service has a channel.
pub record World : Type 0 where
  pub db : Db
  pub bucket : Bucket
  pub broker : Broker
  pub has_channel : Bool

-- `Express.Multer.File`, as far as it is read
pub record UploadedFile : Type 0 where
  pub originalname : String
  pub mimetype : String
  pub buffer : Buffer

-- The clients of the three services, and what a call draws from the runtime: the random identifier
-- of the file, the time and `toLowerCase`.
pub record Environment : Type 0 where
  pub prisma : PrismaClient
  pub s3 : S3Client
  pub storage : StorageConfig
  pub channel : AmqpChannel
  pub uuid : String
  pub now : ℕ
  pub lower : String → String

module _ {A : Type 0} where
  unfoldable pub on_db : Async Db A → Async World A
  on_db m w = let r = m w.db in (r.0, record w { db = r.1 })

  unfoldable pub on_bucket : Async Bucket A → Async World A
  on_bucket m w = let r = m w.bucket in (r.0, record w { bucket = r.1 })

  unfoldable pub on_broker : Async Broker A → Async World A
  on_broker m w = let r = m w.broker in (r.0, record w { broker = r.1 })

  -- Beside the local variable `applicationId`
  unfoldable pub beside : Async World A → Async (World × Option String) A
  beside m (w, l) = let r = m w in (r.0, (r.1, l))

abbrev pub response :
    (application_id file_key upload_url : String) → Option String → UploadCvResponseDto
response application_id file_key upload_url url = record {
  application_id = application_id;
  file_key = file_key;
  file_url = upload_url;
  presigned_url = url;
  status = "processing";
  message = "CV uploaded successfully. Processing started.";
}

module _ (env : Environment) where
  abbrev pub file_key_of : UploadedFile → String
  file_key_of file = generate_cv_file_key env.lower env.uuid file.originalname

  -- `uploadCvOrThrow`
  unfoldable pub upload_cv_or_throw : UploadedFile → Async World UploadResult
  upload_cv_or_throw file =
      attempt
        (on_bucket (Storage.upload env.s3 env.storage file.buffer (file_key_of file) file.mimetype))
        (λ e. throw (internal_server_error "Failed to upload CV file"))

  presigned : String → Async World (Option String)
  presigned file_key =
      attempt
        (on_bucket (Storage.get_signed_url env.s3 env.storage file_key) >>= λ url. pure (some url))
        (λ e. pure none)

  -- `buildUploadResponse`
  unfoldable pub build_upload_response :
      (application_id file_key upload_url : String) → Async World UploadCvResponseDto
  unfolding presigned
  build_upload_response application_id file_key upload_url = do
    url ← presigned file_key
    pure (response application_id file_key upload_url url)

  delete_created : Option String → Async World Unit
  delete_created none = pure tt
  delete_created (some id) =
      attempt (on_db (env.prisma.delete_application id) >> pure tt) (λ e. pure tt)

  -- `rollbackCreateWithCv`
  unfoldable pub rollback_create_with_cv : Option String → String → Async World Unit
  unfolding delete_created
  rollback_create_with_cv application_id file_key = do
    delete_created application_id
    attempt (on_bucket (Storage.delete env.s3 env.storage file_key)) (λ e. pure tt)

  unfoldable pub event_of :
      UploadedFile → (candidate_id application_id job_id file_key : String) → CvUploadedEvent
  event_of file candidate_id application_id job_id file_key = record {
    candidate_id = candidate_id;
    application_id = application_id;
    job_id = job_id;
    bucket = Storage.get_bucket_name env.s3 env.storage;
    file_key = file_key;
    mime_type = file.mimetype;
    uploaded_at = env.now;
  }

  set_application_id : String → Async (World × Option String) Unit
  set_application_id id (w, _) = (ok tt, (w, some id))

  -- The body of the `try` of `createWithCv`
  unfoldable pub process :
      UploadedFile
      → UploadCvDto
      → (candidate_id : String) → UploadResult
      → Async (World × Option String) UploadCvResponseDto
  unfolding set_application_id
  process file dto candidate_id uploaded = do
    application ← beside (
        on_db (
          env.prisma.application.create (record {
            job_id = dto.job_id;
            candidate_id = candidate_id;
            cover_letter = dto.cover_letter;
            cv_file_key = some uploaded.key;
            cv_file_url = some uploaded.url;
          })))
    set_application_id application.id
    beside (λ w.
        on_broker
          (publish_cv_uploaded env.channel w.has_channel
            (event_of file candidate_id application.id dto.job_id uploaded.key))
          w)
    beside (build_upload_response application.id uploaded.key uploaded.url)

  rollback_and_throw :
      String → Result UploadCvResponseDto → Option String → Async World UploadCvResponseDto
  rollback_and_throw file_key (ok response) application_id = pure response
  rollback_and_throw file_key (err e) application_id = do
    rollback_create_with_cv application_id file_key
    throw (internal_server_error "Failed to process CV upload")

  -- The `try` and `catch` of `createWithCv`
  unfoldable pub process_or_rollback :
      UploadedFile
      → UploadCvDto
      → (candidate_id : String) → UploadResult
      → Async World UploadCvResponseDto
  unfolding rollback_and_throw
  process_or_rollback file dto candidate_id uploaded w =
      let r = process file dto candidate_id uploaded (w, none) in
      rollback_and_throw uploaded.key r.0 r.1.1 r.1.0

  -- `createWithCv`
  unfoldable pub create_with_cv :
      String → UploadedFile → UploadCvDto → Async World UploadCvResponseDto
  create_with_cv user_id file dto = do
    on_db (find_open_job_or_throw dto.job_id)
    candidate ← on_db (find_or_create_candidate_or_throw env.prisma user_id)
    on_db (ensure_no_duplicate_application env.prisma dto.job_id candidate.id)
    uploaded ← upload_cv_or_throw file
    process_or_rollback file dto candidate.id uploaded
