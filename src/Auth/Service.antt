-- ===== src/Auth/Service.antt =====
-- auth/auth.service.ts. Of a security event its type, user and email are kept. `salt` and `uuid`
-- are what bcrypt and `randomUUID()` drew.
use Prim.Native.String
use talent_flow_ai_backend.Prelude.{
  ℕ, String, Option, none, some, List, ◌∷◌, Bool, not, ◌||◌, ◌==◌, ◌+◌, ◌/◌, ◌*◌, leb, nat_eq,
  is_some, if◌then◌else◌,
}
use talent_flow_ai_backend.Model.{User, Role, Db}
use talent_flow_ai_backend.Async.{
  Async, Result, ok, err, unauthorized, conflict, error, pure, throw, ◌>>=◌, ◌>>◌,
}
use talent_flow_ai_backend.Prisma.{PrismaClient}
use talent_flow_ai_backend.Users.Service as Users
use talent_flow_ai_backend.SecurityAudit.{SecurityEventType, SecurityEvent}
use talent_flow_ai_backend.Auth.Redis.{RedisClient}

pub record TokenPayload : Type 0 where
  pub sub : String
  pub email : String
  pub role : Role

pub record RefreshTokenPayload : Type 0 where
  pub payload : TokenPayload
  pub token_id : String

pub record Tokens : Type 0 where
  pub access_token : String
  pub refresh_token : String

-- What `signup` and `login` tell of a user.
pub record PublicUser : Type 0 where
  pub id : String
  pub email : String
  pub full_name : String
  pub role : Role

abbrev pub public_user : User → PublicUser
public_user u = record { id = u.id; email = u.email; full_name = u.full_name; role = u.role }

pub record LoginAnswer : Type 0 where
  pub access_token : String
  pub refresh_token : String
  pub user : PublicUser

-- The services and libraries that the service is made with. `sign` and `sign_refresh` are
-- `signAsync` with a secret and the time of expiry; `parse_int` is `parseInt(text, 10)`;
-- `show` is the text of a number in a template literal.
pub record Environment (Keys : Type 0) : Type 0 where
  pub prisma : PrismaClient
  pub redis : RedisClient Keys
  pub hash_password : (salt password : String) → String
  pub compare_password : (password hash : String) → Bool
  pub sign : (secret : String) → TokenPayload → String
  pub sign_refresh : (secret : String) → RefreshTokenPayload → String
  pub access_secret : Option String
  pub refresh_secret : Option String
  pub parse_int : String → ℕ
  pub show : ℕ → String

-- The message of the lockout, from the minutes that remain
abbrev pub lockout_message : (show : ℕ → String) → (remaining_minutes : ℕ) → String
lockout_message show remaining_minutes =
    String.◌++◌ "Account temporarily locked. Try again in "
      (String.◌++◌ (show remaining_minutes) " minute(s).")

pub record World (Keys : Type 0) : Type 0 where
  pub db : Db
  pub keys : Keys
  pub audit : List SecurityEvent

abbrev pub account_lockout_max_attempts : ℕ
account_lockout_max_attempts = 5

abbrev pub account_lockout_duration_seconds : ℕ
account_lockout_duration_seconds = 15 * 60

abbrev pub attempts_key : String → String
attempts_key email = String.◌++◌ "login_attempts:" email

abbrev pub refresh_key : String → String
refresh_key user_id = String.◌++◌ "refresh_token:" user_id

abbrev pub blacklist_key : String → String
blacklist_key token_id = String.◌++◌ "blacklist:" token_id

-- `7 * 24 * 60 * 60`
abbrev pub refresh_token_expiration : ℕ
refresh_token_expiration = 604800

abbrev pub payload_of : User → TokenPayload
payload_of u = record { sub = u.id; email = u.email; role = u.role }

-- `!user || user.deletedAt`
unfoldable pub live : Option User → Option User
live none = none
live (some u) = if is_some u.deleted_at then none else some u

abbrev is_locking : ℕ → Bool
is_locking n = leb account_lockout_max_attempts n

module _ {Keys : Type 0} (env : Environment Keys) where
  abbrev on_keys : (Keys → Keys) → Async (World Keys) Unit
  on_keys f w = (ok tt, record w { keys = f w.keys })

  abbrev on_db : {A : Type 0} → Async Db A → Async (World Keys) A
  on_db m w = let r = m w.db in (r.0, record w { db = r.1 })

  abbrev log : SecurityEventType → (user_id email : Option String) → Async (World Keys) Unit
  log t user_id email w = (
    ok tt,
    record w { audit = record { event_type = t; user_id = user_id; email = email } ∷ w.audit },
  )

  -- `attempts ? parseInt(attempts, 10) : 0`
  unfoldable pub number_of : Option String → ℕ
  number_of none = 0
  number_of (some t) = if t == "" then 0 else env.parse_int t

  -- `getLoginAttempts`
  unfoldable pub get_login_attempts : String → Keys → ℕ
  get_login_attempts email keys = number_of (env.redis.get (attempts_key email) keys)

  -- `getRemainingLockoutTime`; a time that is not known, which Redis gives as -1 or -2, is 0.
  unfoldable pub get_remaining_lockout_time : String → Keys → ℕ
  get_remaining_lockout_time email keys = env.redis.ttl (attempts_key email) keys

  -- `checkAccountLockout`
  unfoldable pub check_account_lockout : String → Async (World Keys) Unit
  check_account_lockout email w =
      if is_locking (get_login_attempts email w.keys)
      then (
        err (
            unauthorized
              (lockout_message env.show ((get_remaining_lockout_time email w.keys + 59) / 60))),
        (log SecurityEventType.login_blocked none (some email) w).1,
      )
      else (ok tt, w)

  -- `if (attempts === 1) await expire(…)`
  unfoldable pub start_lockout : String → ℕ → Keys → Keys
  start_lockout key attempts keys =
      if nat_eq attempts 1 then env.redis.expire key account_lockout_duration_seconds keys else keys

  unfoldable pub count_failure : String → Keys → ℕ × Keys
  unfolding start_lockout
  count_failure email keys =
      let r = env.redis.incr (attempts_key email) keys in
      (r.0, start_lockout (attempts_key email) r.0 r.1)

  -- `handleFailedLogin`
  unfoldable pub handle_failed_login : String → Option String → Async (World Keys) Unit
  handle_failed_login email user_id w =
      let r = count_failure email w.keys in
      let failed =
        (log SecurityEventType.login_failed user_id (some email) (record w { keys = r.1 })).1 in
      (
        ok tt,
        if is_locking r.0
            then (log SecurityEventType.account_locked user_id (some email) failed).1
            else failed,
      )

  -- `!accessSecret || !refreshSecret`
  signed : User → String → Option String → Option String → Result Tokens
  signed u uuid (some a) (some b) =
      if a == "" || b == ""
      then err (error "JWT secrets are not configured")
      else ok (record {
        access_token = env.sign a (payload_of u);
        refresh_token = env.sign_refresh b (record { payload = payload_of u; token_id = uuid });
      })
  signed u uuid _ _ = err (error "JWT secrets are not configured")

  -- `generateTokens`
  unfoldable pub generate_tokens : (uuid : String) → User → Async (World Keys) Tokens
  unfolding signed
  generate_tokens uuid u w = (signed u uuid env.access_secret env.refresh_secret, w)

  -- `storeRefreshToken`
  unfoldable pub store_refresh_token : (user_id token : String) → Async (World Keys) Unit
  store_refresh_token user_id token =
      on_keys (env.redis.set (refresh_key user_id) token refresh_token_expiration)

  -- `signup`
  unfoldable pub signup :
      (salt email password full_name : String) → Role → Async (World Keys) PublicUser
  signup salt email password full_name role w =
      if is_some (Users.find_by_email env.prisma email w.db)
      then (err (conflict "Email already exists"), w)
      else (do
        user ←
            on_db (Users.create env.prisma email (env.hash_password salt password) full_name role)
        log SecurityEventType.signup (some user.id) (some user.email)
        pure (public_user user))
          w

  -- The steps of `login` for a password that is right.
  unfoldable pub welcome : (uuid email : String) → User → Async (World Keys) LoginAnswer
  welcome uuid email user = do
    on_keys (env.redis.del (attempts_key email))
    tokens ← generate_tokens uuid user
    store_refresh_token user.id tokens.refresh_token
    log SecurityEventType.login_success (some user.id) (some user.email)
    pure (record {
      access_token = tokens.access_token;
      refresh_token = tokens.refresh_token;
      user = public_user user;
    })

  abbrev reject : String → Option String → Async (World Keys) LoginAnswer
  reject email user_id = do
    handle_failed_login email user_id
    throw (unauthorized "Invalid credentials")

  -- The steps of `login` after the lookup.
  unfoldable pub login_as :
      (uuid email password : String) → Option User → Async (World Keys) LoginAnswer
  login_as uuid email password none = reject email none
  login_as uuid email password (some user) =
      if not (env.compare_password password user.password)
      then reject email (some user.id)
      else welcome uuid email user

  -- `login`
  unfoldable pub login : (uuid email password : String) → Async (World Keys) LoginAnswer
  login uuid email password = do
    check_account_lockout email
    λ w. login_as uuid email password (live (Users.find_by_email env.prisma email w.db)) w

  unfoldable pub refresh_as : (uuid user_id : String) → Option User → Async (World Keys) Tokens
  refresh_as uuid user_id none = do
    log SecurityEventType.token_refresh_failed (some user_id) none
    throw (unauthorized "User not found")
  refresh_as uuid user_id (some user) = do
    tokens ← generate_tokens uuid user
    store_refresh_token user.id tokens.refresh_token
    log SecurityEventType.token_refresh (some user.id) (some user.email)
    pure tokens

  -- `refresh`
  unfoldable pub refresh : (uuid user_id : String) → Async (World Keys) Tokens
  refresh uuid user_id w = refresh_as uuid user_id (live (Users.find_by_id user_id w.db)) w

  -- `logout`
  unfoldable pub logout : (user_id token_id : String) → Async (World Keys) Unit
  logout user_id token_id = do
    on_keys (env.redis.del (refresh_key user_id))
    on_keys (env.redis.set (blacklist_key token_id) "true" refresh_token_expiration)
    log SecurityEventType.logout (some user_id) none
