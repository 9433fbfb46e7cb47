-- ===== src/Applications/Upload/Atomic.antt =====
-- `createWithCv`: all of it, or nothing but the candidate.
use talent_flow_ai_backend.Prelude.{
  String, Option, none, some, ◌≡◌, inl, inr, refl, arith, lookup, insert, without, lookup-insert,
  eq_iff, eq_refl, ap, ◌∙◌, ◌==◌, if◌then◌else◌,
}
use talent_flow_ai_backend.Model.{Application, Db}
use talent_flow_ai_backend.Async.{Result, ok, err, Exception, internal_server_error, Result-cases}
use talent_flow_ai_backend.Prisma.Laws.{PrismaLaws}
use talent_flow_ai_backend.Storage.{S3Laws, UploadResult}
use talent_flow_ai_backend.Applications.Dto.{UploadCvDto, UploadCvResponseDto}
use talent_flow_ai_backend.Applications.Upload.{
  World, UploadedFile, Environment, rollback_create_with_cv, process, process_or_rollback,
}
use talent_flow_ai_backend.Applications.Upload.Steps.{
  with_cv, published, process_refused, process_unpublished, process_done, Compensates,
  rollback_none, rollback_some,
}

abbrev pub cv_failure : Exception
cv_failure = internal_server_error "Failed to process CV upload"

module _ (env : Environment) where
  rollback-ok :
      (l : Option String) (key : String) (w : World)
      → (rollback_create_with_cv env l key w).0 ≡ ok tt
  unfolding rollback_create_with_cv
  rollback-ok none key w = ground arith
  rollback-ok (some id) key w = ground arith

  module _ (file : UploadedFile) (dto : UploadCvDto) (candidate_id : String) (up : UploadResult)
      (w : World) where
    pub process_or_rollback-err :
        (x : Exception) (w1 : World) (l : Option String)
        → process env file dto candidate_id up (w, none) ≡ (err x, (w1, l))
        → process_or_rollback env file dto candidate_id up w
          ≡ (err cv_failure, (rollback_create_with_cv env l up.key w1).1)
    unfolding process_or_rollback
    process_or_rollback-err x w1 l h = ground (arith, rollback-ok l up.key w1)

    pub process_or_rollback-ok :
        (r : UploadCvResponseDto) (w1 : World) (l : Option String)
        → process env file dto candidate_id up (w, none) ≡ (ok r, (w1, l))
        → process_or_rollback env file dto candidate_id up w ≡ (ok r, w1)
    unfolding process_or_rollback
    process_or_rollback-ok r w1 l h = ground arith

-- From `w` to `w'` no application was made or lost, and the file under `key` is gone.
pub record IsUndone (key : String) (w w' : World) : Type 0 where
  pub applications : (j : String) → lookup j w'.db.applications ≡ lookup j w.db.applications
  pub file : w'.bucket ≡ without key w.bucket

module _ (env : Environment) (laws : PrismaLaws env.prisma) (s3 : S3Laws env.s3)
    (undo : Compensates env) where
  removed_again :
      (a : Application) (d d1 : Db) (j : String)
      → lookup a.id d.applications ≡ none
      → d1 ≡ record d { applications = insert a.id a d.applications }
      → (if a.id == j then none else lookup j d1.applications) ≡ lookup j d.applications
  removed_again a d d1 j fresh e = rw (e, lookup-insert) (ground (arith, eq_iff a.id j))

  module _ (file : UploadedFile) (dto : UploadCvDto) (candidate_id : String) (up : UploadResult)
      (w : World) where
    abbrev outcome : Result UploadCvResponseDto × World
    outcome = process_or_rollback env file dto candidate_id up w

    IsUndone-none :
        (e : Exception) (w1 : World)
        → w1.db ≡ w.db
        → w1.bucket ≡ w.bucket
        → outcome ≡ (err cv_failure, (rollback_create_with_cv env none up.key w1).1)
        → outcome.0 ≡ err e
        → (e ≡ cv_failure) × IsUndone up.key w outcome.1
    IsUndone-none e w1 kept same end h =
        let back = rollback_none env laws s3 undo up.key w1 in
        (
          ground arith,
          rw end (record {
            applications = λ j. back.applications j ∙ ap (λ d. lookup j d.applications) kept;
            file = back.bucket ∙ ap (without up.key) same;
          }),
        )

    IsUndone-some :
        (e : Exception) (a : Application) (w1 : World)
        → lookup a.id w.db.applications ≡ none
        → w1.db ≡ record w.db { applications = insert a.id a w.db.applications }
        → w1.bucket ≡ w.bucket
        → outcome ≡ (err cv_failure, (rollback_create_with_cv env (some a.id) up.key w1).1)
        → outcome.0 ≡ err e
        → (e ≡ cv_failure) × IsUndone up.key w outcome.1
    IsUndone-some e a w1 fresh after same end h =
        let there : lookup a.id w1.db.applications ≡ some a =
          rw (after, lookup-insert) (ground (arith, eq_refl a.id)) in
        let back = rollback_some env laws s3 undo a.id up.key a w1 there in
        (
          ground arith,
          rw end (record {
            applications = λ j. back.applications j ∙ removed_again a w.db w1.db j fresh after;
            file = back.bucket ∙ ap (without up.key) same;
          }),
        )

    -- When the `try` body fails, then, if a row and a file that are there can be deleted, the error
    -- is the one internal error, the applications are as before and the bucket is without the
    -- uploaded file.
    pub process_or_rollback-IsUndone :
        (e : Exception)
        → (process_or_rollback env file dto candidate_id up w).0 ≡ err e
        → (e ≡ cv_failure)
          × IsUndone up.key w (process_or_rollback env file dto candidate_id up w).1
    process_or_rollback-IsUndone e h =
        elim (Result-cases (env.prisma.application.create (with_cv dto candidate_id up) w.db).0) [
          | inr (x, refused) ↦
              let (_, _, kept) =
                laws.application.create_err (with_cv dto candidate_id up) w.db x refused in
              let step = process_refused env s3 file dto candidate_id up w x refused in
              let end = process_or_rollback-err env file dto candidate_id up w x _ none step in
              IsUndone-none e _ kept refl end h
          | inl (a, made) ↦
              let (_, _, fresh, after) =
                laws.application.create_ok (with_cv dto candidate_id up) w.db a made in
              elim (Result-cases (published env file dto candidate_id up w a).0) [
                | inr (x, failed) ↦
                    let step =
                      process_unpublished env s3 file dto candidate_id up w a x made failed in
                    let end =
                      process_or_rollback-err env file dto candidate_id up w x _ (some a.id) step in
                    IsUndone-some e a _ fresh after refl end h
                | inl (t, sent) ↦
                    let (o, step) = process_done env s3 file dto candidate_id up w a made sent in
                    let end = process_or_rollback-ok env file dto candidate_id up w _ _ _ step in
                    absurd (ground arith)
              ]
        ]
