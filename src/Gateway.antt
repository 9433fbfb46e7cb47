-- ===== src/Gateway.antt =====
-- What stands before the controllers: `JwtAuthGuard` (auth/guards/jwt-auth.guard.ts), `RolesGuard` and
-- their order, in which app.module.ts names them. The guard that limits the rate of requests, which
-- comes third, is left out. A controller is its routes, with their metadata and what each does.
pub mod Access
pub mod Removal
mod Tests
use talent_flow_ai_backend.Prelude.{
  String, Option, none, some, List, Bool, true, false, if◌then◌else◌,
}
use talent_flow_ai_backend.Model.{Role, admin, recruiter, interviewer, Db}
use talent_flow_ai_backend.Async.{Async, Result, ok, err, error, Exception, unauthorized, forbidden}
use talent_flow_ai_backend.Auth.Service.{PublicUser, TokenPayload}
use talent_flow_ai_backend.Auth.Guards.{validate, can_activate}

-- `handle` is given `request.user`.
pub record Controller (State Route Reply : Type 0) : Type 0 where
  -- `@Public()`
  pub is_public : Route → Bool
  -- `@Roles(…)`, on the method or else on the class
  pub roles : Route → Option (List Role)
  pub handle : Option PublicUser → Route → Async State Reply

-- The role of `request.user`, as a text
abbrev pub role_text : Role → String
role_text admin = "ADMIN"
role_text recruiter = "RECRUITER"
role_text interviewer = "INTERVIEWER"

abbrev pub role_of : Option PublicUser → Option Role
role_of none = none
role_of (some user) = some user.role

-- `user.…`, on a route without the user
abbrev pub with_user {ℓ} :
    {State : Type ℓ} {Reply : Type ℓ}
    → Option PublicUser
    → (PublicUser → Async State Reply)
    → Async State Reply
with_user none f s = (err (error "Cannot read properties of undefined"), s)
with_user (some user) f s = f user s

-- The strategy for access tokens, on the payload of the cookie's token, if that is verified: if not,
-- passport refuses the request.
unfoldable pub authenticate : Option TokenPayload → Db → Result PublicUser
authenticate none d = err (unauthorized "Unauthorized")
authenticate (some payload) d = validate payload.sub d

-- `canActivate` of `JwtAuthGuard`: the user that it puts on the request, if any
unfoldable pub jwt_auth_guard :
    (is_public : Bool) → Option TokenPayload → Db → Result (Option PublicUser)
jwt_auth_guard true token d = ok none
jwt_auth_guard false token d = elim (authenticate token d) [
  | ok user ↦ ok (some user)
  | err e ↦ err e
]

module _ {State Route Reply : Type 0} (db : State → Db) (c : Controller State Route Reply) where
  -- `RolesGuard`, and then the handler
  unfoldable pub admit : Option PublicUser → Route → Async State Reply
  admit user route s =
      if can_activate (c.roles route) (role_of user)
      then c.handle user route s
      else (err (forbidden "Forbidden resource"), s)

  -- A request: the payload of the access token that its cookie holds, once verified, and the route
  unfoldable pub serve : Option TokenPayload → Route → Async State Reply
  serve token route s = elim (jwt_auth_guard (c.is_public route) token (db s)) [
    | ok user ↦ admit user route s
    | err e ↦ (err e, s)
  ]
