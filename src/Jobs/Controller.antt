-- ===== src/Jobs/Controller.antt =====
-- jobs/jobs.controller.ts.
use talent_flow_ai_backend.Prelude.{ℕ, String, Option, none, some, List, [], ◌∷◌, Bool, true, false}
use talent_flow_ai_backend.Model.{Job, Db, Role, recruiter, admin}
use talent_flow_ai_backend.Async.{Async, pure, ◌>>=◌, ◌>>◌}
use talent_flow_ai_backend.Pagination.{PaginatedResult}
use talent_flow_ai_backend.Prisma.{PrismaClient}
use talent_flow_ai_backend.Auth.Service.{PublicUser}
use talent_flow_ai_backend.Gateway.{Controller, with_user, role_text}
use talent_flow_ai_backend.Jobs.Dto.{CreateJobDto, UpdateJobDto, QueryJobsDto}
use talent_flow_ai_backend.Jobs.Service as Service

pub data Route : Type 0 where
  create : CreateJobDto → Route
  find_all : QueryJobsDto → Route
  find_one : (id : String) → Route
  update : (id : String) → UpdateJobDto → Route
  remove : (id : String) → Route

pub data Reply : Type 0 where
  job : Job → Reply
  page : PaginatedResult Job → Reply
  no_content : Reply

abbrev pub is_public : Route → Bool
is_public (find_all query) = true
is_public (find_one id) = true
is_public _ = false

abbrev pub roles : Route → Option (List Role)
roles (find_all query) = none
roles (find_one id) = none
roles _ = some (recruiter ∷ admin ∷ [])

module _ (p : PrismaClient) (skill_of : String → String) (now : ℕ) where
  unfoldable pub handle : Option PublicUser → Route → Async Db Reply
  handle user (create dto) =
      with_user user (λ u. do made ← Service.create p u.id dto; pure (job made))
  handle user (find_all query) = do result ← Service.find_all p skill_of query; pure (page result)
  handle user (find_one id) = do found ← Service.find_one id; pure (job found)
  handle user (update id dto) =
      with_user user
        (λ u. do changed ← Service.update p id u.id (role_text u.role) dto; pure (job changed))
  handle user (remove id) =
      with_user user (λ u. do Service.remove p now id u.id (role_text u.role); pure no_content)

  abbrev pub controller : Controller Db Route Reply
  controller = record { is_public = is_public; roles = roles; handle = handle }
