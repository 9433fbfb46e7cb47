-- ===== src/Users/Controller.antt =====
-- users/users.controller.ts.
use talent_flow_ai_backend.Prelude.{ℕ, String, Option, none, some, List, [], ◌∷◌, Bool, false}
use talent_flow_ai_backend.Model.{Db, Role, admin}
use talent_flow_ai_backend.Async.{Async, pure, ◌>>=◌, ◌>>◌}
use talent_flow_ai_backend.Pagination.{PaginatedResult}
use talent_flow_ai_backend.Prisma.{PrismaClient}
use talent_flow_ai_backend.Auth.Service.{PublicUser}
use talent_flow_ai_backend.Gateway.{Controller, with_user, role_text}
use talent_flow_ai_backend.Users.Service as Service
use talent_flow_ai_backend.Users.Service.{QueryUsersDto, SafeUser}

pub data Route : Type 0 where
  find_all : QueryUsersDto → Route
  find_one : (id : String) → Route
  update : (id : String) (full_name : Option String) → Route
  update_role : (id : String) → Role → Route
  remove : (id : String) → Route

pub data Reply : Type 0 where
  user : SafeUser → Reply
  page : PaginatedResult SafeUser → Reply
  no_content : Reply

abbrev pub is_public : Route → Bool
is_public _ = false

abbrev pub roles : Route → Option (List Role)
roles (find_one id) = none
roles (update id full_name) = none
roles _ = some (admin ∷ [])

module _ (p : PrismaClient) (now : ℕ) where
  unfoldable pub handle : Option PublicUser → Route → Async Db Reply
  handle current (find_all query) = do result ← Service.find_all p query; pure (page result)
  handle current (find_one id) = do found ← Service.find_one_profile id; pure (user found)
  handle current (update id full_name) = with_user current (λ u. do
    changed ← Service.update_profile p id u.id (role_text u.role) full_name
    pure (user changed))
  handle current (update_role id role) = do
    changed ← Service.update_role p id role
    pure (user changed)
  handle current (remove id) = do Service.soft_delete_user p now id; pure no_content

  abbrev pub controller : Controller Db Route Reply
  controller = record { is_public = is_public; roles = roles; handle = handle }
