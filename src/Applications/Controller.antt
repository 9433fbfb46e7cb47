-- ===== src/Applications/Controller.antt =====
-- applications/applications.controller.ts. `lower` is `toLowerCase`; the limit of the interceptor on
-- the size of a file is left out, since the pipe has the same.
use talent_flow_ai_backend.Prelude.{String, Option, none, List, Bool, false}
use talent_flow_ai_backend.Model.{Role, Application}
use talent_flow_ai_backend.Async.{Async, Result, ok, err, pure, ◌>>=◌, ◌>>◌}
use talent_flow_ai_backend.Pagination.{PaginatedResult}
use talent_flow_ai_backend.FileValidation.{File, transform}
use talent_flow_ai_backend.Auth.Service.{PublicUser}
use talent_flow_ai_backend.Gateway.{Controller, with_user, role_text}
use talent_flow_ai_backend.Applications.Dto.{
  CreateApplicationDto, UpdateApplicationDto, QueryApplicationsDto, UploadCvDto,
  UploadCvResponseDto,
}
use talent_flow_ai_backend.Applications.Service as Service
use talent_flow_ai_backend.Applications.Upload.{
  Environment, World, UploadedFile, on_db, create_with_cv,
}

pub data Route : Type 0 where
  create : CreateApplicationDto → Route
  upload_cv : (file : Option File) → UploadCvDto → Route
  find_all : QueryApplicationsDto → Route
  find_one : (id : String) → Route
  update : (id : String) → UpdateApplicationDto → Route
  remove : (id : String) → Route

pub data Reply : Type 0 where
  application : Application → Reply
  uploaded : UploadCvResponseDto → Reply
  page : PaginatedResult Application → Reply
  no_content : Reply

-- The route carries neither `@Public()` nor `@Roles(…)`.
abbrev pub is_public : Route → Bool
is_public _ = false

abbrev pub roles : Route → Option (List Role)
roles _ = none

abbrev pub uploaded_file : File → UploadedFile
uploaded_file file = record {
  originalname = file.original_name;
  mimetype = file.mimetype;
  buffer = file.buffer;
}

module _ (env : Environment) where
  -- `uploadCv`, on what the pipe makes of the file
  unfoldable pub upload_checked :
      (user_id : String) → Result File → UploadCvDto → Async World UploadCvResponseDto
  upload_checked user_id (ok file) dto = create_with_cv env user_id (uploaded_file file) dto
  upload_checked user_id (err e) dto = λ w. (err e, w)

  unfoldable pub handle : Option PublicUser → Route → Async World Reply
  handle user (create dto) =
      with_user user
        (λ u. do made ← on_db (Service.create env.prisma u.id dto); pure (application made))
  handle user (upload_cv file dto) =
      with_user user (λ u. do
        answer ← upload_checked u.id (transform env.lower file) dto
        pure (uploaded answer))
  handle user (find_all query) = with_user user (λ u. do
    result ← on_db (Service.find_all env.prisma u.id (role_text u.role) query)
    pure (page result))
  handle user (find_one id) = with_user user (λ u. do
    found ← on_db (Service.find_one env.prisma id u.id (role_text u.role))
    pure (application found))
  handle user (update id dto) = with_user user (λ u. do
    changed ← on_db (Service.update env.prisma env.now id u.id (role_text u.role) dto)
    pure (application changed))
  handle user (remove id) = with_user user (λ u. do
    on_db (Service.remove env.prisma env.now id u.id (role_text u.role))
    pure no_content)

  abbrev pub controller : Controller World Route Reply
  controller = record { is_public = is_public; roles = roles; handle = handle }
