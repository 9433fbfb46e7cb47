-- ===== src/Auth/Controller.antt =====
-- auth/auth.controller.ts. Of a cookie its name, value and age are kept. The users that the
-- strategies put on a request are those of Auth.Guards.
use talent_flow_ai_backend.Prelude.{
  ℕ, ◌*◌, String, Option, none, some, List, [], ◌∷◌, ◌==◌, or_else, if◌then◌else◌,
}
use talent_flow_ai_backend.Model.{Role}
use talent_flow_ai_backend.Async.{Async, Result, ok, err, unauthorized, pure, ◌>>=◌, ◌>>◌}
use talent_flow_ai_backend.Auth.Service as Service
use talent_flow_ai_backend.Auth.Service.{
  Environment, World, PublicUser, LoginAnswer, Tokens, RefreshTokenPayload,
}
use talent_flow_ai_backend.Auth.Guards.{RefreshUser, validate_refresh}

-- `res.cookie(name, value, { maxAge })` and `res.clearCookie(name)`
pub data CookieCall : Type 0 where
  set_cookie : (name value : String) (max_age : ℕ) → CookieCall
  clear_cookie : (name : String) → CookieCall

abbrev pub access_token_cookie_name : String
access_token_cookie_name = "access_token"

abbrev pub refresh_token_cookie_name : String
refresh_token_cookie_name = "refresh_token"

abbrev pub access_token_cookie_max_age : ℕ
access_token_cookie_max_age = 15 * 60 * 1000

abbrev pub refresh_token_cookie_max_age : ℕ
refresh_token_cookie_max_age = 7 * 24 * 60 * 60 * 1000

-- The body of an answer and the cookies that come with it
pub record Reply : Type 0 where
  pub message : Option String
  pub user : Option PublicUser
  pub cookies : List CookieCall

abbrev pub token_cookies : (access_token refresh_token : String) → List CookieCall
token_cookies access_token refresh_token =
    set_cookie access_token_cookie_name access_token access_token_cookie_max_age
    ∷ set_cookie refresh_token_cookie_name refresh_token refresh_token_cookie_max_age
    ∷ []

abbrev pub login_reply : LoginAnswer → Reply
login_reply a = record {
  message = some "Login successful";
  user = some a.user;
  cookies = token_cookies a.access_token a.refresh_token;
}

abbrev pub refresh_reply : Tokens → Reply
refresh_reply t = record {
  message = some "Token refreshed successfully";
  user = none;
  cookies = token_cookies t.access_token t.refresh_token;
}

module _ {Keys : Type 0} (env : Environment Keys) where
  -- `signup`
  unfoldable pub signup : (salt email password full_name : String) → Role → Async (World Keys) Reply
  signup salt email password full_name role = do
    user ← Service.signup env salt email password full_name role
    pure (record { message = some "User registered successfully"; user = some user; cookies = [] })

  -- `login`
  unfoldable pub login : (uuid email password : String) → Async (World Keys) Reply
  login uuid email password = do a ← Service.login env uuid email password; pure (login_reply a)

  -- `refresh`, for the user that the strategy for refresh tokens tells of
  unfoldable pub refresh : (uuid : String) → RefreshUser → Async (World Keys) Reply
  refresh uuid user = do t ← Service.refresh env uuid user.id; pure (refresh_reply t)

  -- `getProfile`
  abbrev pub get_profile : PublicUser → Reply
  get_profile user = record { message = none; user = some user; cookies = [] }

  -- `logout`. `token_id` is the `tokenId` of the user on the request; `user.tokenId || ''`
  unfoldable pub logout : PublicUser → (token_id : Option String) → Async (World Keys) Reply
  logout user token_id = do
    Service.logout env user.id (or_else token_id "")
    pure (record {
      message = some "Logout successful";
      user = none;
      cookies = clear_cookie access_token_cookie_name ∷ clear_cookie refresh_token_cookie_name ∷ [];
    })

  unfoldable pub refresh_checked : (uuid : String) → Result RefreshUser → Async (World Keys) Reply
  refresh_checked uuid (ok user) = refresh uuid user
  refresh_checked uuid (err e) = λ w. (err e, w)

  -- `JwtRefreshGuard` before `refresh`: the cookie, and the payload of its token if passport verifies
  -- that
  unfoldable pub serve_refresh :
      (uuid : String) (cookie : Option String)
      → Option RefreshTokenPayload
      → Async (World Keys) Reply
  serve_refresh uuid cookie none w = (err (unauthorized "Unauthorized"), w)
  serve_refresh uuid cookie (some payload) w =
      refresh_checked uuid (validate_refresh env cookie payload w) w

-- A client that keeps cookies: what it sends of a name, after an answer.
unfoldable pub kept : List CookieCall → (String → Option String) → String → Option String
kept [] jar name = jar name
kept (set_cookie n v age ∷ calls) jar name = kept calls (λ m. if n == m then some v else jar m) name
kept (clear_cookie n ∷ calls) jar name = kept calls (λ m. if n == m then none else jar m) name
