-- ===== src/Auth/Tests.antt =====
-- Runs of the authentication in memory, and its theorems at concrete inputs.
use talent_flow_ai_backend.Prelude.{
  ◌+◌, ◌/◌, String, none, some, List, [], ◌∷◌, ◌≡◌, ◌≢◌, refl, arith, eq_iff, lookup, insert, All,
}
use talent_flow_ai_backend.Model.{User, Role}
use talent_flow_ai_backend.Async.{ok, err, unauthorized}
use talent_flow_ai_backend.Prisma.Memory.Search.{search}
use talent_flow_ai_backend.Auth.Service.{
  lockout_message, get_remaining_lockout_time, World, LoginAnswer, Tokens, refresh, refresh_as,
  RefreshTokenPayload, public_user, live, number_of, get_login_attempts, get_remaining_lockout_time,
  check_account_lockout, start_lockout, count_failure, handle_failed_login, generate_tokens,
  store_refresh_token, welcome, login_as, login, logout,
}
use talent_flow_ai_backend.Auth.Guards.{validate, validate_refresh, RefreshUser}
use talent_flow_ai_backend.Auth.Lockout.{IsWrong, logins, login-locks}
use talent_flow_ai_backend.Auth.Login.{IsLogin, login-IsLogin}
use talent_flow_ai_backend.Prelude.{Option}
use talent_flow_ai_backend.Prisma.Memory.{memory-PrismaLaws}
use talent_flow_ai_backend.Auth.Controller as Controller
use talent_flow_ai_backend.Auth.Session.{
  IsKeyed, serve_refresh-after_login, serve_refresh-after_logout,
}
use talent_flow_ai_backend.Auth.Rotation.{refresh-rotates}
use talent_flow_ai_backend.Auth.Memory.{
  Values, tally, parse_tally, incr, redis-RedisLaws, environment, environment-NumberLaws,
}

-- What a run computes with.
unfoldable run : Unit {0}
unfolding live number_of get_login_attempts get_remaining_lockout_time check_account_lockout
    start_lockout count_failure handle_failed_login generate_tokens store_refresh_token welcome
    login_as login logout refresh refresh_as validate validate_refresh search parse_tally incr
    lookup insert
run = tt

abbrev eve : User
eve = record {
  id = "u1";
  email = "eve@example.com";
  password = "right";
  role = Role.recruiter;
  full_name = "Eve";
  deleted_at = none;
}

abbrev before : World Values
before = record {
  db = record {
    users = ("u1", eve) ∷ [];
    jobs = [];
    candidates = [];
    applications = [];
    interviews = [];
  };
  keys = λ k. none;
  audit = [];
}

abbrev answer : LoginAnswer
answer = record { access_token = "access"; refresh_token = "refresh-t1"; user = public_user eve }

login_runs : (login environment "t1" "eve@example.com" "right" before).0 ≡ ok answer
unfolding run
login_runs = refl

abbrev guesses : List String
guesses = "a" ∷ "b" ∷ "c" ∷ "d" ∷ "e" ∷ []

guess-IsWrong :
    (password : String)
    → password ≢ "right"
    → IsWrong environment "eve@example.com" password before.db
unfolding run
guess-IsWrong password n u h = ground (arith, eq_iff password "right")

guesses-IsWrong : All (λ password. IsWrong environment "eve@example.com" password before.db) guesses
guesses-IsWrong = (
  guess-IsWrong "a" (λ e. ground (arith, eq_iff "a" "right")),
  (
    guess-IsWrong "b" (λ e. ground (arith, eq_iff "b" "right")),
    (
      guess-IsWrong "c" (λ e. ground (arith, eq_iff "c" "right")),
      (
        guess-IsWrong "d" (λ e. ground (arith, eq_iff "d" "right")),
        (guess-IsWrong "e" (λ e. ground (arith, eq_iff "e" "right")), tt),
      ),
    ),
  ),
)

abbrev locked : World Values
locked = logins environment "t1" "eve@example.com" guesses before

login-locks_example :
    ((login environment "t1" "eve@example.com" "right" locked).0
      ≡ err (
          unauthorized (
            lockout_message environment.show
              ((get_remaining_lockout_time environment "eve@example.com" locked.keys + 59) / 60))))
    × ((login environment "t1" "eve@example.com" "right" locked).1.keys ≡ locked.keys)
    × ((login environment "t1" "eve@example.com" "right" locked).1.db ≡ before.db)
login-locks_example =
    login-locks environment tally redis-RedisLaws environment-NumberLaws "t1" "eve@example.com"
      "right" guesses before refl guesses-IsWrong refl

login-IsLogin_example :
    IsLogin environment tally redis-RedisLaws "eve@example.com" "right" before
      (login environment "t1" "eve@example.com" "right" before).1
      answer
login-IsLogin_example =
    login-IsLogin environment tally redis-RedisLaws "t1" "eve@example.com" "right" before answer
      login_runs

abbrev payload : RefreshTokenPayload
payload = record {
  payload = record { sub = "u1"; email = "eve@example.com"; role = Role.recruiter };
  token_id = "t1";
}

token_is_some : ◌≢◌ {A = String} "refresh-t1" ""
token_is_some = λ e. ground (arith, eq_iff "refresh-t1" "")

nothing_revoked :
    (login environment "t1" "eve@example.com" "right" before).1.keys "blacklist:t1" ≡ none
unfolding run
nothing_revoked = refl

abbrev known : RefreshUser
known = record { id = "u1"; email = "eve@example.com"; token_id = "t1" }

abbrev tokens : Tokens
tokens = record { access_token = "access"; refresh_token = "refresh-t2" }

refresh_runs : (refresh environment "t2" "u1" before).0 ≡ ok tokens
unfolding run
refresh_runs = refl

refresh-rotates_example :
    (u : User) × (lookup "u1" before.db.users ≡ some u)
    × (u.deleted_at ≡ none)
    × ((refresh environment "t2" "u1" before).1.db ≡ before.db)
    × ((token : String) (p : RefreshTokenPayload) (r : RefreshUser)
        → p.payload.sub ≡ u.id
        → token ≢ "refresh-t2"
        → validate_refresh environment (some token) p (refresh environment "t2" "u1" before).1
          ≢ ok r)
refresh-rotates_example =
    refresh-rotates environment tally redis-RedisLaws "t2" "u1" before tokens refresh_runs

abbrev login_answer : Controller.Reply
login_answer = Controller.login_reply answer

login_answered :
    (Controller.login environment "t1" "eve@example.com" "right" before).0 ≡ ok login_answer
unfolding run Controller.login
login_answered = refl

abbrev no_cookies : String → Option String
no_cookies name = none

cookie_is_some : Controller.kept login_answer.cookies no_cookies "refresh_token" ≢ some ""
unfolding Controller.kept
cookie_is_some e = ground (arith, eq_iff "refresh-t1" "")

nothing_revoked_after :
    (Controller.login environment "t1" "eve@example.com" "right" before).1.keys "blacklist:t1"
    ≡ none
unfolding run Controller.login
nothing_revoked_after = refl

before-IsKeyed : IsKeyed before.db
unfolding lookup
before-IsKeyed id u h = ground (arith, h, eq_iff "u1" id)

serve_refresh-after_login_example :
    (t : Tokens) × ((Controller.serve_refresh environment "t2"
        (Controller.kept login_answer.cookies no_cookies "refresh_token")
        (some payload)
        (Controller.login environment "t1" "eve@example.com" "right" before).1).0
      ≡ ok (Controller.refresh_reply t))
serve_refresh-after_login_example =
    serve_refresh-after_login environment tally redis-RedisLaws memory-PrismaLaws "t1" "t2"
      "eve@example.com" "right" before login_answer no_cookies (public_user eve) payload
      login_answered refl cookie_is_some refl nothing_revoked_after before-IsKeyed

abbrev logout_answer : Controller.Reply
logout_answer = record {
  message = some "Logout successful";
  user = none;
  cookies = Controller.clear_cookie "access_token" ∷ Controller.clear_cookie "refresh_token" ∷ [];
}

logout_answered : (Controller.logout environment (public_user eve) none before).0 ≡ ok logout_answer
unfolding run Controller.logout
logout_answered = refl

serve_refresh-after_logout_example :
    ((s : Controller.Reply)
      → (Controller.serve_refresh environment "t2"
          (some "refresh-t1")
          (some payload)
          (Controller.logout environment (public_user eve) none before).1).0
        ≢ ok s)
    × (Controller.kept logout_answer.cookies no_cookies "access_token" ≡ none)
    × (Controller.kept logout_answer.cookies no_cookies "refresh_token" ≡ none)
serve_refresh-after_logout_example =
    serve_refresh-after_logout environment tally redis-RedisLaws (public_user eve) none before
      logout_answer "t2" (some "refresh-t1") payload no_cookies logout_answered refl
