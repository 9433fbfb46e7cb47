-- ===== src/Applications/Upload/Delivery.antt =====
-- `createWithCv` as a whole: what an answer delivers, what a rejection leaves alone, and an event
-- that stays behind.
use talent_flow_ai_backend.Prelude.{
  ℕ, String, Option, none, some, Bool, true, ◌≡◌, refl, arith, lookup, insert, lookup-insert,
  eq_refl, ap, ◌∙◌, sym, subst, [], ◌∷◌, ◌++◌, inl, inr,
}
use talent_flow_ai_backend.Model.{User, Candidate, Application}
use talent_flow_ai_backend.Async.{ok, Result-cases, bind-ok}
use talent_flow_ai_backend.Prisma.Laws.{PrismaLaws, application_of}
use talent_flow_ai_backend.Storage.{S3Laws, UploadResult}
use talent_flow_ai_backend.Storage
use talent_flow_ai_backend.Queue.{
  Message, CvUploadedEvent, AmqpLaws, cv_uploaded, publish_cv_uploaded,
}
use talent_flow_ai_backend.Applications.Dto.{UploadCvDto, UploadCvResponseDto}
use talent_flow_ai_backend.Applications.Service.{
  find_open_job_or_throw, find_or_create_candidate_or_throw, ensure_no_duplicate_application,
}
use talent_flow_ai_backend.Applications.Create.{
  IsOpenJob, find_open_job_or_throw-ok, find_or_create-ok, IsCandidateOf, IsCandidateOf-same,
}
use talent_flow_ai_backend.Applications.Upload.{
  World, UploadedFile, Environment, response, on_db, on_bucket, file_key_of, event_of,
  process_or_rollback, upload_cv_or_throw, create_with_cv,
}
use talent_flow_ai_backend.Applications.Upload.Steps.{
  with_cv, published, after_publish, process_refused, process_unpublished, process_done,
}
use talent_flow_ai_backend.Applications.Upload.Atomic.{
  process_or_rollback-ok, process_or_rollback-err,
}

module _ (env : Environment) (s3 : S3Laws env.s3) where
  -- An upload that resolves has stored the file under the key, and touched nothing else.
  upload_cv_or_throw-ok :
      (file : UploadedFile) (w : World) (up : UploadResult)
      → (upload_cv_or_throw env file w).0 ≡ ok up
      → (up.key ≡ file_key_of env file)
        × ((upload_cv_or_throw env file w).1
            ≡ record w { bucket = insert (file_key_of env file) file.buffer w.bucket })
  unfolding upload_cv_or_throw on_bucket Storage.upload
  upload_cv_or_throw-ok file w up h =
      let key = file_key_of env file in
      ground (arith, s3.put_object_ok env.storage.r2_bucket key file.buffer file.mimetype w.bucket)

  upload_cv_or_throw-db :
      (file : UploadedFile) (w : World) → (upload_cv_or_throw env file w).1.db ≡ w.db
  unfolding upload_cv_or_throw on_bucket
  upload_cv_or_throw-db file w = ground arith

publish_cv_uploaded-ok :
    (env : Environment)
    → AmqpLaws env.channel
    → (has_channel : Bool) (event : CvUploadedEvent) (b : talent_flow_ai_backend.Queue.Broker)
    → (publish_cv_uploaded env.channel has_channel event b).0 ≡ ok tt
    → (publish_cv_uploaded env.channel has_channel event b).1 ≡ b ++ cv_uploaded event ∷ []
unfolding publish_cv_uploaded
publish_cv_uploaded-ok env amqp has_channel event b h =
    ground (arith, amqp.publish_ok (cv_uploaded event) b true)

-- What the body of the `try` delivered for the application `a`.
pub record IsProcessed (env : Environment) (file : UploadedFile) (dto : UploadCvDto)
    (candidate_id : String) (up : UploadResult) (w w' : World) (r : UploadCvResponseDto)
    : Type 0 where
  pub row :
      (a : Application) × (r.application_id ≡ a.id)
      × (lookup a.id w'.db.applications ≡ some a)
      × (a.job_id ≡ dto.job_id)
      × (a.candidate_id ≡ candidate_id)
      × (a.cv_file_key ≡ some up.key)
      × (a.deleted_at ≡ none)
  pub candidates : w'.db.candidates ≡ w.db.candidates
  pub key : r.file_key ≡ up.key
  pub bucket : w'.bucket ≡ w.bucket
  pub broker :
      w'.broker
      ≡ w.broker
        ++ cv_uploaded (event_of env file candidate_id r.application_id dto.job_id up.key) ∷ []

module _ (env : Environment) (laws : PrismaLaws env.prisma) (s3 : S3Laws env.s3)
    (amqp : AmqpLaws env.channel) where
  module _ (file : UploadedFile) (dto : UploadCvDto) (candidate_id : String) (up : UploadResult)
      (w : World) where
    IsProcessed-of_steps :
        (a : Application) (now : ℕ) (o : Option String) (w' : World) (r : UploadCvResponseDto)
        → a ≡ application_of a.id now (with_cv dto candidate_id up)
        → w'.db ≡ record w.db { applications = insert a.id a w.db.applications }
        → w'.bucket ≡ w.bucket
        → w'.broker
          ≡ w.broker ++ cv_uploaded (event_of env file candidate_id a.id dto.job_id up.key) ∷ []
        → r ≡ response a.id up.key up.url o
        → IsProcessed env file dto candidate_id up w w' r
    IsProcessed-of_steps a now o w' r row after same sent answer = rw answer (record {
      row = (
        a,
        refl,
        rw (after, lookup-insert) (ground (arith, eq_refl a.id)),
        ap (λ b. b.job_id) row,
        ap (λ b. b.candidate_id) row,
        ap (λ b. b.cv_file_key) row,
        ap (λ b. b.deleted_at) row,
      );
      candidates = ap (λ d. d.candidates) after;
      key = refl;
      bucket = same;
      broker = sent;
    })

    process_or_rollback-IsProcessed :
        (r : UploadCvResponseDto)
        → (process_or_rollback env file dto candidate_id up w).0 ≡ ok r
        → IsProcessed env file dto candidate_id up w
            (process_or_rollback env file dto candidate_id up w).1
            r
    process_or_rollback-IsProcessed r h =
        elim (Result-cases (env.prisma.application.create (with_cv dto candidate_id up) w.db).0) [
          | inr (x, refused) ↦
              let step = process_refused env s3 file dto candidate_id up w x refused in
              let end = process_or_rollback-err env file dto candidate_id up w x _ none step in
              absurd (ground arith)
          | inl (a, made) ↦ elim (Result-cases (published env file dto candidate_id up w a).0) [
            | inr (x, failed) ↦
                let step = process_unpublished env s3 file dto candidate_id up w a x made failed in
                let end =
                  process_or_rollback-err env file dto candidate_id up w x _ (some a.id) step in
                absurd (ground arith)
            | inl (t, sent) ↦
                let (now, row, fresh, after) =
                  laws.application.create_ok (with_cv dto candidate_id up) w.db a made in
                let (o, step) = process_done env s3 file dto candidate_id up w a made sent in
                let end = process_or_rollback-ok env file dto candidate_id up w _ _ _ step in
                rw end (
                  IsProcessed-of_steps a now o (after_publish env file dto candidate_id up w a) r
                    row after refl
                    (publish_cv_uploaded-ok env amqp w.has_channel
                      (event_of env file candidate_id a.id dto.job_id up.key) w.broker sent)
                    (ground arith))
          ]
        ]

  -- What `createWithCv` delivers with its answer `r`, for a user and a candidate.
  pub record IsDelivered (user_id : String) (file : UploadedFile) (dto : UploadCvDto) (w w' : World)
      (r : UploadCvResponseDto) (u : User) (c : Candidate) (a : Application) : Type 0 where
    pub opened : IsOpenJob dto.job_id w.db
    pub user : lookup user_id w.db.users ≡ some u
    pub candidate : IsCandidateOf u w.db w'.db c
    pub row : lookup r.application_id w'.db.applications ≡ some a
    pub job_id : a.job_id ≡ dto.job_id
    pub candidate_id : a.candidate_id ≡ c.id
    pub cv_file_key : a.cv_file_key ≡ some r.file_key
    pub live : a.deleted_at ≡ none
    pub file_key : r.file_key ≡ file_key_of env file
    pub stored : lookup r.file_key w'.bucket ≡ some file.buffer
    pub event :
        w'.broker
        ≡ w.broker
          ++ cv_uploaded (event_of env file c.id r.application_id dto.job_id r.file_key) ∷ []

  IsDelivered-of_steps :
      (user_id : String) (file : UploadedFile) (dto : UploadCvDto) (w w3 w' : World) (u : User)
      (c : Candidate) (up : UploadResult) (r : UploadCvResponseDto)
      → IsOpenJob dto.job_id w.db
      → lookup user_id w.db.users ≡ some u
      → IsCandidateOf u w.db w3.db c
      → up.key ≡ file_key_of env file
      → w3.bucket ≡ insert (file_key_of env file) file.buffer w.bucket
      → w3.broker ≡ w.broker
      → IsProcessed env file dto c.id up w3 w' r
      → (a : Application) × IsDelivered user_id file dto w w' r u c a
  IsDelivered-of_steps user_id file dto w w3 w' u c up r opened known mail key stored quiet done =
      let (a, same_id, there, job, candidate, cv, live) = done.row in
      (
        a,
        record {
          opened = opened;
          user = known;
          candidate = IsCandidateOf-same u w.db w3.db w'.db c mail done.candidates;
          row = rw same_id there;
          job_id = job;
          candidate_id = candidate;
          cv_file_key = rw done.key cv;
          live = live;
          file_key = done.key ∙ key;
          stored =
              rw (done.bucket, stored, done.key, key, lookup-insert)
                (ground (arith, eq_refl (file_key_of env file)));
          event = rw (done.key, ← quiet) done.broker;
        },
      )

  pub create_with_cv-IsDelivered :
      (user_id : String) (file : UploadedFile) (dto : UploadCvDto) (w : World)
      (r : UploadCvResponseDto)
      → (create_with_cv env user_id file dto w).0 ≡ ok r
      → (u : User) × (c : Candidate) × ((a : Application) × IsDelivered user_id file dto w
            (create_with_cv env user_id file dto w).1
            r
            u
            c
            a)
  unfolding create_with_cv on_db find_open_job_or_throw ensure_no_duplicate_application
  create_with_cv-IsDelivered user_id file dto w r h =
      let (j, opened, h1, e1) = bind-ok (on_db (find_open_job_or_throw dto.job_id)) _ w r h in
      let (c, found, h2, e2) =
        bind-ok (on_db (find_or_create_candidate_or_throw env.prisma user_id)) _ w r h1 in
      let d1 = (find_or_create_candidate_or_throw env.prisma user_id w.db).1 in
      let w1 = record w { db = d1 } in
      let (t, unique, h3, e3) =
        bind-ok (on_db (ensure_no_duplicate_application env.prisma dto.job_id c.id)) _ w1 r h2 in
      let (up, uploaded, h4, e4) = bind-ok (upload_cv_or_throw env file) _ w1 r h3 in
      let w3 = (upload_cv_or_throw env file w1).1 in
      let (key, stored) = upload_cv_or_throw-ok env s3 file w1 up uploaded in
      let (u, known, mail) = find_or_create-ok env.prisma laws user_id w.db c found in
      let done = process_or_rollback-IsProcessed file dto c.id up w3 r h4 in
      let end = sym (ap (λ x. x.1) (e1 ∙ e2 ∙ e3 ∙ e4)) in
      (
        u,
        c,
        IsDelivered-of_steps user_id file dto w w3 _ u c up r
            (find_open_job_or_throw-ok dto.job_id w.db j opened) known
            (IsCandidateOf-same u w.db d1 w3.db c mail
              (ap (λ d. d.candidates) (upload_cv_or_throw-db env s3 file w1)))
            key (ap (λ v. v.bucket) stored) (ap (λ v. v.broker) stored)
            (subst (λ v. IsProcessed env file dto c.id up w3 v r) end done),
      )
