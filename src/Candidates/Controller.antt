-- ===== src/Candidates/Controller.antt =====
-- candidates/candidates.controller.ts.
use talent_flow_ai_backend.Prelude.{String, Option, some, List, [], ◌∷◌, Bool, false}
use talent_flow_ai_backend.Model.{Db, Role, recruiter, admin, interviewer, Candidate}
use talent_flow_ai_backend.Async.{Async, pure, ◌>>=◌, ◌>>◌}
use talent_flow_ai_backend.Pagination.{PaginatedResult}
use talent_flow_ai_backend.Prisma.{PrismaClient}
use talent_flow_ai_backend.Auth.Service.{PublicUser}
use talent_flow_ai_backend.Gateway.{Controller}
use talent_flow_ai_backend.Candidates.Service as Service
use talent_flow_ai_backend.Candidates.Service.{UpdateCandidateDto, QueryCandidatesDto}

pub data Route : Type 0 where
  find_all : QueryCandidatesDto → Route
  find_one : (id : String) → Route
  update : (id : String) → UpdateCandidateDto → Route
  remove : (id : String) → Route

pub data Reply : Type 0 where
  candidate : Candidate → Reply
  page : PaginatedResult Candidate → Reply
  no_content : Reply

abbrev pub is_public : Route → Bool
is_public _ = false

abbrev pub roles : Route → Option (List Role)
roles (update id dto) = some (recruiter ∷ admin ∷ [])
roles (remove id) = some (admin ∷ [])
roles _ = some (recruiter ∷ admin ∷ interviewer ∷ [])

module _ (p : PrismaClient) where
  unfoldable pub handle : Option PublicUser → Route → Async Db Reply
  handle user (find_all query) = do result ← Service.find_all p query; pure (page result)
  handle user (find_one id) = do found ← Service.find_one id; pure (candidate found)
  handle user (update id dto) = do changed ← Service.update p id dto; pure (candidate changed)
  handle user (remove id) = do Service.remove p id; pure no_content

  abbrev pub controller : Controller Db Route Reply
  controller = record { is_public = is_public; roles = roles; handle = handle }
