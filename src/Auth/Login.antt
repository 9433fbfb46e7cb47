-- ===== src/Auth/Login.antt =====
-- `login`, `refresh` and `logout` against the strategies: which tokens are accepted, and until when.
use Prim.Native.Char.{code}
use text.Mathlib.TextLemmas.{cons-append}
use talent_flow_ai_backend.Prelude.{
  ℕ, ◌<◌, String, Option, none, some, true, ◌≡◌, ◌≢◌, inl, inr, refl, arith, eq_iff, eq_refl, ap,
  sym, ◌∙◌, Bool-cases, Option-cases, leb, ◌==◌, ◌||◌,
}
use talent_flow_ai_backend.Model.{User}
use talent_flow_ai_backend.Async.{ok, Result-cases}
use talent_flow_ai_backend.Users.Service.{find_by_email}
use talent_flow_ai_backend.Auth.Redis.{RedisLaws}
use talent_flow_ai_backend.Auth.Service.{
  refresh_key, blacklist_key, attempts_key, Environment, World, LoginAnswer, Tokens, payload_of,
  RefreshTokenPayload, public_user, live, get_login_attempts, check_account_lockout,
  handle_failed_login, generate_tokens, store_refresh_token, welcome, login_as, login, logout,
}
use talent_flow_ai_backend.Auth.Guards.{live-some, validate_refresh, RefreshUser}

head_code : String → ℕ
head_code String.[] = 0
head_code (String.◌∷◌ c s) = code c

refresh_key-ne-blacklist_key : (a b : String) → blacklist_key b ≢ refresh_key a
unfolding head_code
refresh_key-ne-blacklist_key a b e =
    let same =
      ap head_code (sym (cons-append "b" "lacklist:" b) ∙ e ∙ cons-append "r" "efresh_token:" a) in
    absurd (omega (arith, same))

module _ {Keys : Type 0} (env : Environment Keys) (decimal : ℕ → String)
    (laws : RedisLaws env.redis decimal) where
  login_as-steps :
      (uuid email password : String) (o : Option User) (w : World Keys) (a : LoginAnswer)
      → (login_as env uuid email password o w).0 ≡ ok a
      → (u : User) × (o ≡ some u)
        × (env.compare_password password u.password ≡ true)
        × (login_as env uuid email password o w ≡ welcome env uuid email u w)
  unfolding login_as handle_failed_login
  login_as-steps uuid email password none w a h = absurd (ground arith)
  login_as-steps uuid email password (some u) w a h =
      elim (Bool-cases (env.compare_password password u.password)) [
        | inl y ↦ (u, refl, y, rw y refl)
        | inr n ↦ absurd (ground arith)
      ]

  login-steps :
      (uuid email password : String) (w : World Keys) (a : LoginAnswer)
      → (login env uuid email password w).0 ≡ ok a
      → (get_login_attempts env email w.keys < 5)
        × (login env uuid email password w
            ≡ login_as env uuid email password (live (find_by_email env.prisma email w.db)) w)
  unfolding login check_account_lockout
  login-steps uuid email password w a h =
      elim (Bool-cases (leb 5 (get_login_attempts env email w.keys))) [
        | inl y ↦ absurd (ground arith)
        | inr n ↦ (ground arith, rw n refl)
      ]

  -- What `welcome` leaves behind.
  welcome-steps :
      (uuid email : String) (u : User) (w : World Keys) (a : LoginAnswer)
      → (welcome env uuid email u w).0 ≡ ok a
      → (a.user ≡ public_user u)
        × ((welcome env uuid email u w).1.keys
            ≡ env.redis.set
                (refresh_key u.id)
                a.refresh_token
                604800
                (env.redis.del (attempts_key email) w.keys))
        × ((welcome env uuid email u w).1.db ≡ w.db)
  unfolding welcome store_refresh_token generate_tokens
  welcome-steps uuid email u w a h = (ground arith, ground arith, ground arith)

  -- A user for whom tokens were made: the secrets are set, and tokens are made for every user.
  generate_tokens-anew :
      (uuid uuid' : String) (u u' : User) (w w' : World Keys) (t : Tokens)
      → (generate_tokens env uuid u w).0 ≡ ok t
      → (t' : Tokens) × (generate_tokens env uuid' u' w' ≡ (ok t', w'))
  unfolding generate_tokens
  generate_tokens-anew uuid uuid' u u' w w' t h = elim (Option-cases env.access_secret) [
    | inl e ↦ absurd (ground arith)
    | inr (a, e) ↦ elim (Option-cases env.refresh_secret) [
      | inl f ↦ absurd (ground arith)
      | inr (b, f) ↦ elim (Bool-cases (a == "" || b == "")) [
        | inl y ↦ absurd (ground arith)
        | inr n ↦
            let made : Tokens = record {
              access_token = env.sign a (payload_of u');
              refresh_token =
                  env.sign_refresh b (record { payload = payload_of u'; token_id = uuid' });
            } in
            (made, rw (e, f, n) refl)
      ]
    ]
  ]

  welcome-tokens :
      (uuid email : String) (u : User) (w : World Keys) (a : LoginAnswer)
      → (welcome env uuid email u w).0 ≡ ok a
      → (t : Tokens) × ((generate_tokens env uuid u w).0 ≡ ok t)
  unfolding welcome generate_tokens
  welcome-tokens uuid email u w a h = elim (Result-cases (generate_tokens env uuid u w).0) [
    | inl (t, e) ↦ (t, e)
    | inr (x, e) ↦ absurd (ground arith)
  ]

  -- Once a login was answered, tokens are made for every user.
  pub login-tokens :
      (uuid email password uuid' : String) (w : World Keys) (a : LoginAnswer) (u' : User)
      (w' : World Keys)
      → (login env uuid email password w).0 ≡ ok a
      → (t' : Tokens) × (generate_tokens env uuid' u' w' ≡ (ok t', w'))
  login-tokens uuid email password uuid' w a u' w' h =
      let (few, same) = login-steps uuid email password w a h in
      let answer = sym (ap (λ r. r.0) same) ∙ h in
      let (u, found, right, same') =
        login_as-steps uuid email password (live (find_by_email env.prisma email w.db)) w a
          answer in
      let answer' = sym (ap (λ r. r.0) same') ∙ answer in
      let (t, made) = welcome-tokens uuid email u w a answer' in
      generate_tokens-anew uuid uuid' u u' w w' t made

  attempts_key-ne-refresh_key : (a b : String) → refresh_key b ≢ attempts_key a
  unfolding head_code
  attempts_key-ne-refresh_key a b e =
      let same =
        ap head_code
          (sym (cons-append "r" "efresh_token:" b) ∙ e ∙ cons-append "l" "ogin_attempts:" a) in
      absurd (omega (arith, same))

  -- What a login that is answered with `a` means, from `w` to `w'`.
  pub record IsLogin (email password : String) (w w' : World Keys) (a : LoginAnswer) : Type 0 where
    pub few : get_login_attempts env email w.keys < 5
    pub user :
        (u : User) × (find_by_email env.prisma email w.db ≡ some u)
        × (u.deleted_at ≡ none)
        × (env.compare_password password u.password ≡ true)
        × (a.user ≡ public_user u)
    pub stored : env.redis.get (refresh_key a.user.id) w'.keys ≡ some a.refresh_token
    pub cleared : env.redis.get (attempts_key email) w'.keys ≡ none
    pub db : w'.db ≡ w.db

  -- A login that is answered had fewer than five failures counted, and the password of an account
  -- with the email that is not deleted, which the answer tells of; the refresh token of the answer is
  -- the one stored for the user, no failure is counted any more, and the database is as before.
  pub login-IsLogin :
      (uuid email password : String) (w : World Keys) (a : LoginAnswer)
      → (login env uuid email password w).0 ≡ ok a
      → IsLogin email password w (login env uuid email password w).1 a
  login-IsLogin uuid email password w a h =
      let (few, same) = login-steps uuid email password w a h in
      let answer = sym (ap (λ r. r.0) same) ∙ h in
      let (u, found, right, same') =
        login_as-steps uuid email password (live (find_by_email env.prisma email w.db)) w a
          answer in
      let answer' = sym (ap (λ r. r.0) same') ∙ answer in
      let (told, keys, db) = welcome-steps uuid email u w a answer' in
      let (there, lives) = live-some (find_by_email env.prisma email w.db) u found in
      let id : a.user.id ≡ u.id = ap (λ v. v.id) told in
      let mid = env.redis.del (attempts_key email) w.keys in
      rw (same, same')
        (record {
          few = few;
          user = (u, there, lives, right, told);
          stored = rw (keys, id) (laws.get_set (refresh_key u.id) a.refresh_token 604800 mid);
          cleared = rw keys (
              laws.get_set_other (refresh_key u.id) (attempts_key email) a.refresh_token 604800 mid
                (attempts_key-ne-refresh_key email u.id)
              ∙ laws.get_del (attempts_key email) w.keys);
          db = db;
        })

  accepted :
      (token : String) (payload : RefreshTokenPayload) (w : World Keys)
      → token ≢ ""
      → env.redis.get (refresh_key payload.payload.sub) w.keys ≡ some token
      → env.redis.get (blacklist_key payload.token_id) w.keys ≡ none
      → validate_refresh env (some token) payload w
        ≡ ok (record {
          id = payload.payload.sub;
          email = payload.payload.email;
          token_id = payload.token_id;
        })
  unfolding validate_refresh
  accepted token payload w some_token stored free =
      let exists = laws.exists_get (blacklist_key payload.token_id) w.keys in
      ground (arith, eq_iff token "", eq_refl token)

  -- The refresh token that a login answered with is accepted by the strategy for refresh tokens, if
  -- it is not empty, was signed for the user of the answer, and its identifier is not revoked.
  pub login-validate_refresh :
      (uuid email password : String) (w : World Keys) (a : LoginAnswer)
      (payload : RefreshTokenPayload)
      → (login env uuid email password w).0 ≡ ok a
      → a.refresh_token ≢ ""
      → payload.payload.sub ≡ a.user.id
      → env.redis.get (blacklist_key payload.token_id) (login env uuid email password w).1.keys
        ≡ none
      → validate_refresh env (some a.refresh_token) payload (login env uuid email password w).1
        ≡ ok (record { id = a.user.id; email = payload.payload.email; token_id = payload.token_id })
  login-validate_refresh uuid email password w a payload h n sub free =
      let l = login-IsLogin uuid email password w a h in
      rw (← sub) (
        accepted a.refresh_token payload (login env uuid email password w).1 n (rw sub l.stored)
          free)

  logout-keys :
      (user_id token_id : String) (w : World Keys)
      → env.redis.get (refresh_key user_id) (logout env user_id token_id w).1.keys ≡ none
  unfolding logout
  logout-keys user_id token_id w =
      laws.get_set_other (blacklist_key token_id) (refresh_key user_id) "true" 604800
        (env.redis.del (refresh_key user_id) w.keys) (refresh_key-ne-blacklist_key user_id token_id)
      ∙ laws.get_del (refresh_key user_id) w.keys

  nothing_stored :
      (cookie : Option String) (payload : RefreshTokenPayload) (w : World Keys) (r : RefreshUser)
      → env.redis.get (refresh_key payload.payload.sub) w.keys ≡ none
      → validate_refresh env cookie payload w ≢ ok r
  unfolding validate_refresh
  nothing_stored none payload w r empty h = ground arith
  nothing_stored (some token) payload w r empty h = ground arith

  -- After a logout no refresh token of the user is accepted, whatever its cookie and identifier, and
  -- whatever token identifier the logout named.
  pub logout-validate_refresh :
      (user_id token_id : String) (w : World Keys) (cookie : Option String)
      (payload : RefreshTokenPayload) (r : RefreshUser)
      → payload.payload.sub ≡ user_id
      → validate_refresh env cookie payload (logout env user_id token_id w).1 ≢ ok r
  logout-validate_refresh user_id token_id w cookie payload r sub =
      nothing_stored cookie payload (logout env user_id token_id w).1 r
        (rw sub (logout-keys user_id token_id w))
