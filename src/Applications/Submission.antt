-- ===== src/Applications/Submission.antt =====
-- A CV on its way from the request to the bucket: the guards, the validation pipe and `createWithCv`.
use talent_flow_ai_backend.Prelude.{
  String, Option, none, some, ◌≡◌, ◌≢◌, ◌∙◌, inl, inr, refl, ap, sym, arith, lookup,
}
use talent_flow_ai_backend.Model.{User, Candidate, Application}
use talent_flow_ai_backend.Async.{Result-cases, ok, err, unauthorized, forbidden, bind-ok, pure}
use talent_flow_ai_backend.Prisma.Laws.{PrismaLaws}
use talent_flow_ai_backend.Storage.{S3Laws}
use talent_flow_ai_backend.Queue.{AmqpLaws}
use talent_flow_ai_backend.FileValidation.{File, transform, IsAccepted, transform-ok_iff}
use talent_flow_ai_backend.Auth.Service.{TokenPayload, public_user}
use talent_flow_ai_backend.Gateway.{serve}
use talent_flow_ai_backend.Gateway.Access.{serve-IsHandled}
use talent_flow_ai_backend.Applications.Dto.{UploadCvDto, UploadCvResponseDto}
use talent_flow_ai_backend.Applications.Upload.{World, Environment, create_with_cv}
use talent_flow_ai_backend.Applications.Upload.Delivery.{IsDelivered, create_with_cv-IsDelivered}
use talent_flow_ai_backend.Applications.Controller.{
  Reply, upload_cv, uploaded, uploaded_file, upload_checked, handle, controller,
}

not_unauthorized : (m : String) (r : Reply) → err (unauthorized m) ≢ ok r
not_unauthorized m r h = ground arith

not_forbidden : (m : String) (r : Reply) → err (forbidden m) ≢ ok r
not_forbidden m r h = ground arith

module _ (env : Environment) (laws : PrismaLaws env.prisma) (s3 : S3Laws env.s3)
    (amqp : AmqpLaws env.channel) where
  -- What an answer to a request with a CV tells.
  pub record IsSubmission (token : Option TokenPayload) (file : Option File) (dto : UploadCvDto)
      (w w' : World) (r : Reply) : Type 0 where
    pub payload : TokenPayload
    pub user : User
    pub named : token ≡ some payload
    pub stored : lookup payload.sub w.db.users ≡ some user
    pub lives : user.deleted_at ≡ none
    pub cv : File
    pub sent : file ≡ some cv
    pub accepted : IsAccepted env.lower cv
    pub answer : UploadCvResponseDto
    pub replied : r ≡ uploaded answer
    pub delivered :
        (u : User) × (c : Candidate) × ((a : Application) × IsDelivered env laws s3 amqp user.id
            (uploaded_file cv)
            dto
            w
            w'
            answer
            u
            c
            a)

  upload_checked-ok :
      (user_id : String) (o : Option File) (dto : UploadCvDto) (w : World)
      (answer : UploadCvResponseDto)
      → (upload_checked env user_id (transform env.lower o) dto w).0 ≡ ok answer
      → (cv : File) × (o ≡ some cv)
        × IsAccepted env.lower cv
        × (upload_checked env user_id (transform env.lower o) dto w
            ≡ create_with_cv env user_id (uploaded_file cv) dto w)
  unfolding upload_checked
  upload_checked-ok user_id o dto w answer h = elim (Result-cases (transform env.lower o)) [
    | inl (cv, passed) ↦
        let (sent, accepted) = (transform-ok_iff env.lower o cv).0 passed in
        (cv, sent, accepted, rw passed refl)
    | inr (e, refused) ↦ absurd (ground arith)
  ]

  -- A request to upload a CV that is answered carried the token of an account that is stored and not
  -- deleted and a file that the pipe accepts, by its type, size, extension and first bytes; and what
  -- it leaves is a delivery of that file for that account: an open job, a live application of
  -- a candidate that is stored with the email of the account, one that was there before or, if none had
  -- that email, a new one with the name of the account, the file in the bucket and one message to the
  -- broker.
  pub serve-IsSubmission :
      (token : Option TokenPayload) (file : Option File) (dto : UploadCvDto) (w : World) (r : Reply)
      → (serve (λ x. x.db) (controller env) token (upload_cv file dto) w).0 ≡ ok r
      → IsSubmission token file dto w
          (serve (λ x. x.db) (controller env) token (upload_cv file dto) w).1
          r
  unfolding handle
  serve-IsSubmission token file dto w r h =
      elim (serve-IsHandled (λ x. x.db) (controller env) token (upload_cv file dto) w refl) [
        | inl y ↦
            let h' : (handle env (some (public_user y.user)) (upload_cv file dto) w).0 ≡ ok r =
              sym (ap (λ x. x.0) y.runs) ∙ h in
            let (answer, first, rest, same) =
              bind-ok (upload_checked env y.user.id (transform env.lower file) dto)
                (λ a. pure (uploaded a)) w r h' in
            let (cv, sent, accepted, made) = upload_checked-ok y.user.id file dto w answer first in
            let done =
              create_with_cv-IsDelivered env laws s3 amqp y.user.id (uploaded_file cv) dto w answer
                (sym (ap (λ x. x.0) made) ∙ first) in
            record {
              payload = y.payload;
              user = y.user;
              named = y.named;
              stored = y.stored;
              lives = y.lives;
              cv = cv;
              sent = sent;
              accepted = accepted;
              answer = answer;
              replied = ground (arith, rest);
              delivered = rw (ap (λ x. x.1) (y.runs ∙ same) ∙ ap (λ x. x.1) made) done;
            }
        | inr (m, x) ↦ absurd (elim x [
          | inl e ↦ not_unauthorized m r (sym (ap (λ x. x.0) e) ∙ h)
          | inr e ↦ not_forbidden m r (sym (ap (λ x. x.0) e) ∙ h)
        ])
      ]
