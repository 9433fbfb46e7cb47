-- ===== src/Applications/Upload/Steps.antt =====
-- `createWithCv` step by step: how the upload, the `try` body and the rollback can end.
use talent_flow_ai_backend.Prelude.{
  String, Option, none, some, ◌≡◌, inl, inr, refl, arith, lookup, without, lookup-without, ◌==◌,
  if◌then◌else◌,
}
use talent_flow_ai_backend.Model.{Application, Db}
use talent_flow_ai_backend.Async.{Result, ok, err, Exception, Result-cases}
use talent_flow_ai_backend.Prisma.{NewApplication}
use talent_flow_ai_backend.Prisma.Laws.{PrismaLaws}
use talent_flow_ai_backend.Storage.{S3Laws, UploadResult}
use talent_flow_ai_backend.Storage
use talent_flow_ai_backend.Queue.{Broker, publish_cv_uploaded}
use talent_flow_ai_backend.Applications.Dto.{UploadCvDto}
use talent_flow_ai_backend.Applications.Upload.{
  World, UploadedFile, Environment, response, on_db, on_bucket, on_broker, beside, event_of,
  build_upload_response, rollback_create_with_cv, process,
}

-- The `data` of the application that is made for an uploaded file.
abbrev pub with_cv : UploadCvDto → String → UploadResult → NewApplication
with_cv dto candidate_id uploaded = record {
  job_id = dto.job_id;
  candidate_id = candidate_id;
  cover_letter = dto.cover_letter;
  cv_file_key = some uploaded.key;
  cv_file_url = some uploaded.url;
}

module _ (env : Environment) where
  module _ (file : UploadedFile) (dto : UploadCvDto) (candidate_id : String) (up : UploadResult)
      (w : World) where
    abbrev pub published : Application → Result (Unit {0}) × Broker
    published a =
        publish_cv_uploaded env.channel w.has_channel
          (event_of env file candidate_id a.id dto.job_id up.key) w.broker

    -- The world when the application is made and the event was handed over, or was not.
    abbrev pub after_publish : Application → World
    after_publish a = record w {
      db = (env.prisma.application.create (with_cv dto candidate_id up) w.db).1;
      broker = (published a).1;
    }

module _ (env : Environment) (s3 : S3Laws env.s3) where
  -- The answer is always built; a signature that fails only leaves it without `presignedUrl`.
  pub build_upload_response-total :
      (id key url : String) (w : World)
      → (o : Option String) × (build_upload_response env id key url w
          ≡ (ok (response id key url o), w))
  unfolding build_upload_response on_bucket Storage.get_signed_url
  build_upload_response-total id key url w =
      let same = s3.get_signed_url_keeps env.storage.r2_bucket key 3600 w.bucket in
      elim (Result-cases (env.s3.get_signed_url env.storage.r2_bucket key 3600 w.bucket).0) [
        | inl (u, e) ↦ (some u, ground arith)
        | inr (x, e) ↦ (none, ground arith)
      ]

  module _ (file : UploadedFile) (dto : UploadCvDto) (candidate_id : String) (up : UploadResult)
      (w : World) where
    pub process_refused :
        (e : Exception)
        → (env.prisma.application.create (with_cv dto candidate_id up) w.db).0 ≡ err e
        → process env file dto candidate_id up (w, none) ≡ (
          err e,
          (
            record w { db = (env.prisma.application.create (with_cv dto candidate_id up) w.db).1 },
            none,
          ),
        )
    unfolding process on_db beside
    process_refused e h = ground arith

    pub process_unpublished :
        (a : Application) (e : Exception)
        → (env.prisma.application.create (with_cv dto candidate_id up) w.db).0 ≡ ok a
        → (published env file dto candidate_id up w a).0 ≡ err e
        → process env file dto candidate_id up (w, none)
          ≡ (err e, (after_publish env file dto candidate_id up w a, some a.id))
    unfolding process on_db beside on_broker
    process_unpublished a e h f = ground arith

    pub process_done :
        (a : Application)
        → (env.prisma.application.create (with_cv dto candidate_id up) w.db).0 ≡ ok a
        → (published env file dto candidate_id up w a).0 ≡ ok tt
        → (o : Option String) × (process env file dto candidate_id up (w, none) ≡ (
          ok (response a.id up.key up.url o),
          (after_publish env file dto candidate_id up w a, some a.id),
        ))
    unfolding process on_db beside on_broker
    process_done a h f =
        let (o, built) =
          build_upload_response-total a.id up.key up.url
            (after_publish env file dto candidate_id up w a) in
        (o, ground arith)

-- The compensations go through: a row that is there can be deleted, and so can a file.
pub record Compensates (env : Environment) : Type 0 where
  pub delete_row :
      (id : String) (d : Db) (a : Application)
      → lookup id d.applications ≡ some a
      → (b : Application) × ((env.prisma.delete_application id d).0 ≡ ok b)
  pub delete_file :
      (key : String) (w : World)
      → (env.s3.delete_object env.storage.r2_bucket key w.bucket).0 ≡ ok tt

-- From `w` the rollback leads to a world with the same applications but `id`, and without the file.
pub record IsRolledBack (id : Option String) (key : String) (w w' : World) : Type 0 where
  pub applications :
      (j : String)
      → lookup j w'.db.applications ≡ (elim id [
        | none ↦ lookup j w.db.applications
        | some i ↦ if i == j then none else lookup j w.db.applications
      ])
  pub bucket : w'.bucket ≡ without key w.bucket
  pub broker : w'.broker ≡ w.broker

module _ (env : Environment) (laws : PrismaLaws env.prisma) (s3 : S3Laws env.s3)
    (undo : Compensates env) where
  file_deleted :
      (key : String) (w : World)
      → (rollback_create_with_cv env none key w).1 ≡ record w { bucket = without key w.bucket }
  unfolding rollback_create_with_cv on_bucket Storage.delete
  file_deleted key w =
      ground (arith, undo.delete_file key w, s3.delete_object_ok env.storage.r2_bucket key w.bucket)

  pub rollback_none :
      (key : String) (w : World)
      → IsRolledBack none key w (rollback_create_with_cv env none key w).1
  rollback_none key w =
      rw (file_deleted key w) (record { applications = λ j. refl; bucket = refl; broker = refl })

  rollback-delete :
      (id key : String) (a b : Application) (w : World)
      → (env.prisma.delete_application id w.db).0 ≡ ok b
      → (rollback_create_with_cv env (some id) key w).1
        ≡ record w { db = (env.prisma.delete_application id w.db).1; bucket = without key w.bucket }
  unfolding rollback_create_with_cv on_bucket on_db Storage.delete
  rollback-delete id key a b w h =
      let w1 = record w { db = (env.prisma.delete_application id w.db).1 } in
      ground
        (arith, undo.delete_file key w1, s3.delete_object_ok env.storage.r2_bucket key w.bucket)

  pub rollback_some :
      (id key : String) (a : Application) (w : World)
      → lookup id w.db.applications ≡ some a
      → IsRolledBack (some id) key w (rollback_create_with_cv env (some id) key w).1
  rollback_some id key a w there =
      let (b, gone) = undo.delete_row id w.db a there in
      let (is, after) = laws.delete_application_ok id w.db b gone in
      rw (rollback-delete id key a b w gone, after)
        (record {
          applications = λ j. lookup-without id j w.db.applications;
          bucket = refl;
          broker = refl;
        })
