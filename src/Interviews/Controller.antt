-- ===== src/Interviews/Controller.antt =====
-- interviews/interviews.controller.ts.
use talent_flow_ai_backend.Prelude.{ℕ, String, Option, some, List, [], ◌∷◌, Bool, false}
use talent_flow_ai_backend.Model.{Db, Role, recruiter, admin, interviewer, Interview}
use talent_flow_ai_backend.Async.{Async, pure, ◌>>=◌, ◌>>◌}
use talent_flow_ai_backend.Pagination.{PaginatedResult}
use talent_flow_ai_backend.Prisma.{PrismaClient}
use talent_flow_ai_backend.Auth.Service.{PublicUser}
use talent_flow_ai_backend.Gateway.{Controller}
use talent_flow_ai_backend.Interviews.Service as Service
use talent_flow_ai_backend.Interviews.Service.{
  CreateInterviewDto, UpdateInterviewDto, QueryInterviewsDto,
}

pub data Route : Type 0 where
  create : CreateInterviewDto → Route
  find_all : QueryInterviewsDto → Route
  find_one : (id : String) → Route
  update : (id : String) → UpdateInterviewDto → Route
  remove : (id : String) → Route

pub data Reply : Type 0 where
  interview : Interview → Reply
  page : PaginatedResult Interview → Reply
  no_content : Reply

abbrev pub is_public : Route → Bool
is_public _ = false

abbrev pub roles : Route → Option (List Role)
roles (find_all query) = some (recruiter ∷ admin ∷ interviewer ∷ [])
roles (find_one id) = some (recruiter ∷ admin ∷ interviewer ∷ [])
roles _ = some (recruiter ∷ admin ∷ [])

module _ (p : PrismaClient) (date_of : String → ℕ) (now : ℕ) where
  unfoldable pub handle : Option PublicUser → Route → Async Db Reply
  handle user (create dto) = do made ← Service.create p date_of now dto; pure (interview made)
  handle user (find_all query) = do result ← Service.find_all p query; pure (page result)
  handle user (find_one id) = do found ← Service.find_one id; pure (interview found)
  handle user (update id dto) = do
    changed ← Service.update p date_of now id dto
    pure (interview changed)
  handle user (remove id) = do Service.remove p id; pure no_content

  abbrev pub controller : Controller Db Route Reply
  controller = record { is_public = is_public; roles = roles; handle = handle }
