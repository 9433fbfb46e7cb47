-- ===== src/Gateway/Tests.antt =====
-- Requests to the controllers in memory, and the theorems on the guards at them.
use talent_flow_ai_backend.Prelude.{
  none, some, ◌≡◌, ◌⊎◌, refl, false, lookup, insert, [], ◌∷◌, String,
}
use mathlib.Core.Bool.{decide}
use talent_flow_ai_backend.Model.{User, Role, Role-discrete, Db, admin}
use talent_flow_ai_backend.Async.{ok, err, unauthorized, forbidden}
use talent_flow_ai_backend.Prisma.Memory.{memory, memory-PrismaLaws}
use talent_flow_ai_backend.Prisma.Memory.Rows.{update_in}
use talent_flow_ai_backend.Auth.Service.{TokenPayload, live}
use talent_flow_ai_backend.Auth.Guards.{validate, can_activate}
use talent_flow_ai_backend.Users.Service.{find_live, find_one_profile, soft_delete_user, safe}
use talent_flow_ai_backend.Users.Controller as UsersController
use talent_flow_ai_backend.Users.Controller.{handle, user, no_content}
use talent_flow_ai_backend.Gateway.{authenticate, jwt_auth_guard, admit, serve}
use talent_flow_ai_backend.Gateway.Access.{IsHandled, IsRefused, serve-IsHandled}
use talent_flow_ai_backend.Gateway.Removal.{serve-after_removal}

-- What a run computes with.
unfoldable run : Unit {0}
unfolding authenticate jwt_auth_guard admit serve handle validate live can_activate find_live
    find_one_profile soft_delete_user update_in lookup insert decide Role-discrete
run = tt

abbrev person : String → Role → User
person id role = record {
  id = id;
  email = "mail@example.com";
  password = "hash";
  role = role;
  full_name = "Name";
  deleted_at = none;
}

abbrev two : Db
two = record {
  users = ("root", person "root" admin) ∷ ("cleo", person "cleo" Role.recruiter) ∷ [];
  jobs = [];
  candidates = [];
  applications = [];
  interviews = [];
}

-- Tokens, whose role is not looked at
abbrev token_of : String → TokenPayload
token_of id = record { sub = id; email = "mail@example.com"; role = admin }

profile_runs :
    (serve
      (λ d. d)
      (UsersController.controller memory 4)
      (some (token_of "cleo"))
      (UsersController.find_one "root")
      two).0
    ≡ ok (user (safe (person "root" admin)))
unfolding run
profile_runs = refl

removal_refused :
    serve
      (λ d. d)
      (UsersController.controller memory 4)
      (some (token_of "cleo"))
      (UsersController.remove "root")
      two
    ≡ (err (forbidden "Forbidden resource"), two)
unfolding run
removal_refused = refl

removal_runs :
    (serve
      (λ d. d)
      (UsersController.controller memory 4)
      (some (token_of "root"))
      (UsersController.remove "cleo")
      two).0
    ≡ ok no_content
unfolding run
removal_runs = refl

serve-IsHandled_example :
    IsHandled
      (λ d. d)
      (UsersController.controller memory 4)
      (some (token_of "cleo"))
      (UsersController.find_one "root")
      two
    ⊎ IsRefused
        (λ d. d)
        (UsersController.controller memory 4)
        (some (token_of "cleo"))
        (UsersController.find_one "root")
        two
serve-IsHandled_example =
    serve-IsHandled (λ d. d) (UsersController.controller memory 4) (some (token_of "cleo"))
      (UsersController.find_one "root") two refl

serve-after_removal_example :
    ((payload : TokenPayload) × (u : User) × (some (token_of "root") ≡ some payload)
      × (lookup payload.sub two.users ≡ some u)
      × (u.deleted_at ≡ none)
      × (u.role ≡ admin))
    × ((payload : TokenPayload) (route : UsersController.Route) (s : Db)
        → s
          ≡ (serve
              (λ d. d)
              (UsersController.controller memory 4)
              (some (token_of "root"))
              (UsersController.remove "cleo")
              two).1
        → payload.sub ≡ "cleo"
        → UsersController.is_public route ≡ false
        → serve (λ d. d) (UsersController.controller memory 5) (some payload) route s
          ≡ (err (unauthorized "User not found or deleted"), s))
serve-after_removal_example =
    serve-after_removal memory memory-PrismaLaws 4 (λ d. d) (UsersController.controller memory 5)
      (some (token_of "root")) "cleo" two no_content removal_runs
