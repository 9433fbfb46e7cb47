-- ===== src/Auth/Session.antt =====
-- A session as a client with cookies sees it: login, refresh and logout through the controller.
use talent_flow_ai_backend.Prelude.{
  or_else, ℕ, String, Option, none, some, ◌≡◌, ◌≢◌, ◌∙◌, refl, ap, sym, arith, lookup, [], ◌∷◌,
}
use talent_flow_ai_backend.Model.{User, Db}
use talent_flow_ai_backend.Async.{Result, ok, err, bind-ok, pure}
use talent_flow_ai_backend.Prisma.Laws.{PrismaLaws}
use talent_flow_ai_backend.Auth.Redis.{RedisLaws}
use talent_flow_ai_backend.Auth.Service as Service
use talent_flow_ai_backend.Auth.Service.{
  Environment, World, PublicUser, LoginAnswer, Tokens, RefreshTokenPayload, blacklist_key,
  public_user, live, generate_tokens, store_refresh_token, refresh_as,
}
use talent_flow_ai_backend.Auth.Guards.{RefreshUser, validate_refresh}
use talent_flow_ai_backend.Auth.Login.{
  login-IsLogin, login-tokens, login-validate_refresh, logout-validate_refresh,
}
use talent_flow_ai_backend.Auth.Controller.{
  Reply, clear_cookie, kept, login, refresh, logout, serve_refresh, refresh_checked, login_reply,
  refresh_reply,
}

-- Each account stands under its own id.
abbrev pub IsKeyed : Db → Type 0
IsKeyed d = (id : String) (u : User) → lookup id d.users ≡ some u → u.id ≡ id

module _ {Keys : Type 0} (env : Environment Keys) (decimal : ℕ → String)
    (laws : RedisLaws env.redis decimal) where
  refresh_as-ok :
      (uuid user_id : String) (u : User) (w : World Keys) (t : Tokens)
      → generate_tokens env uuid u w ≡ (ok t, w)
      → (refresh_as env uuid user_id (some u) w).0 ≡ ok t
  unfolding refresh_as store_refresh_token
  refresh_as-ok uuid user_id u w t h = rw h refl

  live-of_found : (o : Option User) (u : User) → o ≡ some u → u.deleted_at ≡ none → live o ≡ some u
  unfolding live
  live-of_found o u there lives = rw (there, lives) refl

  -- What the controller answers to a login
  login-reply :
      (uuid email password : String) (w : World Keys) (r : Reply)
      → (login env uuid email password w).0 ≡ ok r
      → (a : LoginAnswer) × ((Service.login env uuid email password w).0 ≡ ok a)
        × (r ≡ login_reply a)
        × ((login env uuid email password w).1 ≡ (Service.login env uuid email password w).1)
  unfolding login
  login-reply uuid email password w r h =
      let (a, first, rest, same) =
        bind-ok (Service.login env uuid email password) (λ a. pure (login_reply a)) w r h in
      (a, first, ground (arith, rest), ap (λ x. x.1) same)

  kept-login_reply :
      (a : LoginAnswer) (jar : String → Option String)
      → kept (login_reply a).cookies jar "refresh_token" ≡ some a.refresh_token
  unfolding kept
  kept-login_reply a jar = refl

  serve_refresh-ok :
      (uuid : String) (cookie : Option String) (payload : RefreshTokenPayload) (user : RefreshUser)
      (w : World Keys) (u : User) (t : Tokens)
      → validate_refresh env cookie payload w ≡ ok user
      → lookup user.id w.db.users ≡ some u
      → u.deleted_at ≡ none
      → generate_tokens env uuid u w ≡ (ok t, w)
      → (serve_refresh env uuid cookie (some payload) w).0 ≡ ok (refresh_reply t)
  unfolding serve_refresh refresh_checked refresh Service.refresh
  serve_refresh-ok uuid cookie payload user w u t valid there lives made =
      rw
        (
          valid,
          live-of_found (lookup user.id w.db.users) u there lives,
          refresh_as-ok uuid user.id u w t made,
        )
        refl

  -- A client that keeps cookies and logs in is answered when it asks to refresh: with the cookie that
  -- the login left it, if that is not empty and is verified as signed for the user of the answer,
  -- with an identifier that is not revoked. Accounts stand under their ids.
  pub serve_refresh-after_login :
      PrismaLaws env.prisma
      → (uuid uuid' email password : String) (w : World Keys) (r : Reply)
        (jar : String → Option String) (user : PublicUser) (payload : RefreshTokenPayload)
      → (login env uuid email password w).0 ≡ ok r
      → r.user ≡ some user
      → kept r.cookies jar "refresh_token" ≢ some ""
      → payload.payload.sub ≡ user.id
      → env.redis.get (blacklist_key payload.token_id) (login env uuid email password w).1.keys
        ≡ none
      → IsKeyed w.db
      → (t : Tokens) × ((serve_refresh env uuid'
            (kept r.cookies jar "refresh_token")
            (some payload)
            (login env uuid email password w).1).0
          ≡ ok (refresh_reply t))
  serve_refresh-after_login prisma uuid uuid' email password w r jar user payload h told some_token
        sub free keyed =
      let (a, first, replied, state) = login-reply uuid email password w r h in
      let l = login-IsLogin env decimal laws uuid email password w a first in
      let (u, found, lives, right, same) = l.user in
      let (mail, (id, there)) = prisma.user_by_email_sound email w.db u found in
      let own : a.user ≡ user = ground (arith, told, replied) in
      let own_id : user.id ≡ u.id = ap (λ v. v.id) (sym own ∙ same) in
      let cookie : kept r.cookies jar "refresh_token" ≡ some a.refresh_token =
        ap (λ q. kept q.cookies jar "refresh_token") replied ∙ kept-login_reply a jar in
      let given : a.refresh_token ≢ "" = λ e. some_token (cookie ∙ ap some e) in
      let w' = (Service.login env uuid email password w).1 in
      let valid =
        login-validate_refresh env decimal laws uuid email password w a payload first given
          (sub ∙ ap (λ v. v.id) (sym own))
          (ap (λ x. env.redis.get (blacklist_key payload.token_id) x.keys) (sym state) ∙ free) in
      let at : lookup a.user.id w'.db.users ≡ some u =
        ap (λ x. lookup a.user.id x.users) l.db
        ∙ ap (λ k. lookup k w.db.users) (ap (λ v. v.id) same ∙ keyed id u there)
        ∙ there in
      let (t, made) = login-tokens env decimal laws uuid email password uuid' w a u w' first in
      (
        t,
        rw (cookie, state)
            (serve_refresh-ok uuid' (some a.refresh_token) payload _ w' u t valid at lives made),
      )

  refresh_checked-refused :
      (uuid : String) (q : Result RefreshUser) (w : World Keys) (s : Reply)
      → ((known : RefreshUser) → q ≢ ok known)
      → (refresh_checked env uuid q w).0 ≢ ok s
  unfolding refresh_checked
  refresh_checked-refused uuid (ok known) w s n h = n known refl
  refresh_checked-refused uuid (err e) w s n h = ground arith

  -- What the controller answers to a logout
  logout-reply :
      (user : PublicUser) (token_id : Option String) (w : World Keys) (r : Reply)
      → (logout env user token_id w).0 ≡ ok r
      → (r.cookies ≡ clear_cookie "access_token" ∷ clear_cookie "refresh_token" ∷ [])
        × ((logout env user token_id w).1 ≡ (Service.logout env user.id (or_else token_id "") w).1)
  unfolding logout Service.logout
  logout-reply user token_id w r h = (ground (arith, h), refl)

  -- Once a logout was answered, no request to refresh in the name of that user is, whatever cookie
  -- and token it carries and whatever token identifier the logout named, and the client that keeps cookies has neither of them left.
  pub serve_refresh-after_logout :
      (user : PublicUser) (token_id : Option String) (w : World Keys) (r : Reply) (uuid : String)
      (cookie : Option String) (payload : RefreshTokenPayload) (jar : String → Option String)
      → (logout env user token_id w).0 ≡ ok r
      → payload.payload.sub ≡ user.id
      → ((s : Reply)
          → (serve_refresh env uuid cookie (some payload) (logout env user token_id w).1).0 ≢ ok s)
        × (kept r.cookies jar "access_token" ≡ none)
        × (kept r.cookies jar "refresh_token" ≡ none)
  unfolding serve_refresh kept
  serve_refresh-after_logout user token_id w r uuid cookie payload jar h sub =
      let (replied, state) = logout-reply user token_id w r h in
      (
        λ s.
            refresh_checked-refused uuid
              (validate_refresh env cookie payload (logout env user token_id w).1)
              (logout env user token_id w).1 s
              (λ known. rw state (
                logout-validate_refresh env decimal laws user.id (or_else token_id "") w cookie
                  payload known sub)),
        rw replied refl,
        rw replied refl,
      )
