-- ===== src/Applications/Upload/Failure.antt =====
-- `createWithCv` that rejects: what is left of it.
use talent_flow_ai_backend.Prelude.{String, ◌≡◌, refl, arith, lookup, ap, ◌∙◌, sym, subst, inl, inr}
use talent_flow_ai_backend.Async.{err, Exception, bind-err}
use talent_flow_ai_backend.Prisma.Laws.{PrismaLaws}
use talent_flow_ai_backend.Storage.{S3Laws}
use talent_flow_ai_backend.Queue.{Message}
use talent_flow_ai_backend.Applications.Dto.{UploadCvDto}
use talent_flow_ai_backend.Applications.Service.{
  find_open_job_or_throw, find_or_create_candidate_or_throw, ensure_no_duplicate_application,
}
use talent_flow_ai_backend.Applications.Create.{find_or_create-keeps}
use talent_flow_ai_backend.Applications.Upload.{
  World, UploadedFile, Environment, on_db, on_bucket, upload_cv_or_throw, create_with_cv,
}
use talent_flow_ai_backend.Applications.Upload.Steps.{Compensates}
use talent_flow_ai_backend.Applications.Upload.Atomic.{process_or_rollback-IsUndone}

-- No application was made or lost from `w` to `w'`.
abbrev pub HasSameApplications : World → World → Type 0
HasSameApplications w w' = (i : String) → lookup i w'.db.applications ≡ lookup i w.db.applications

module _ (env : Environment) (laws : PrismaLaws env.prisma) (s3 : S3Laws env.s3)
    (undo : Compensates env) where
  upload_cv_or_throw-db :
      (file : UploadedFile) (w : World) → (upload_cv_or_throw env file w).1.db ≡ w.db
  unfolding upload_cv_or_throw on_bucket
  upload_cv_or_throw-db file w = ground arith

  -- However `createWithCv` rejects, the table of applications is as before, if a row and a file that
  -- are there can be deleted.
  pub create_with_cv-err :
      (user_id : String) (file : UploadedFile) (dto : UploadCvDto) (w : World) (e : Exception)
      → (create_with_cv env user_id file dto w).0 ≡ err e
      → HasSameApplications w (create_with_cv env user_id file dto w).1
  unfolding create_with_cv on_db find_open_job_or_throw ensure_no_duplicate_application
  create_with_cv-err user_id file dto w e h =
      let kept = find_or_create-keeps env.prisma laws user_id w.db in
      let d1 = (find_or_create_candidate_or_throw env.prisma user_id w.db).1 in
      let w1 = record w { db = d1 } in
      let w3 = (upload_cv_or_throw env file w1).1 in
      let back : HasSameApplications w w1 = λ i. ap (lookup i) kept.applications in
      let P = HasSameApplications w in
      elim (bind-err (on_db (find_open_job_or_throw dto.job_id)) _ w e h) [
        | inl same ↦ subst P (sym (ap (λ r. r.1) same)) (λ i. refl)
        | inr (j, _, h1, e1) ↦
            elim (bind-err (on_db (find_or_create_candidate_or_throw env.prisma user_id)) _ w e
              h1) [
                | inl same ↦ subst P (sym (ap (λ r. r.1) (e1 ∙ same))) back
                | inr (c, _, h2, e2) ↦
                    elim (bind-err
                      (on_db (ensure_no_duplicate_application env.prisma dto.job_id c.id)) _ w1 e
                      h2) [
                        | inl same ↦ subst P (sym (ap (λ r. r.1) (e1 ∙ e2 ∙ same))) back
                        | inr (t, _, h3, e3) ↦
                            let stay : HasSameApplications w w3 = λ i.
                              ap (λ d. lookup i d.applications) (upload_cv_or_throw-db file w1)
                              ∙ back i in
                            elim (bind-err (upload_cv_or_throw env file) _ w1 e h3) [
                              | inl same ↦ subst P (sym (ap (λ r. r.1) (e1 ∙ e2 ∙ e3 ∙ same))) stay
                              | inr (up, _, h4, e4) ↦
                                  let (_, undone) =
                                    process_or_rollback-IsUndone env laws s3 undo file dto c.id up
                                      w3 e h4 in
                                  subst P (sym (ap (λ r. r.1) (e1 ∙ e2 ∙ e3 ∙ e4)))
                                    (λ i. undone.applications i ∙ stay i)
                            ]
                      ]
              ]
      ]
