-- ===== src/Auth/Lockout.antt =====
-- The lockout: failed logins are counted, and after five of them nobody logs in.
use talent_flow_ai_backend.Prelude.{
  ℕ, zero, suc, ◌+◌, ◌/◌, ◌≤◌, String, Option, none, some, List, [], ◌∷◌, true, false, ◌≡◌, ◌≢◌,
  inl, inr, refl, arith, eq_iff, All, length, Bool-cases, leb, nat_eq, sym, ◌∙◌, subst,
}
use talent_flow_ai_backend.Model.{User, Db}
use talent_flow_ai_backend.Async.{err, unauthorized}
use talent_flow_ai_backend.Users.Service.{find_by_email}
use talent_flow_ai_backend.Auth.Redis.{RedisLaws}
use talent_flow_ai_backend.Auth.Service.{
  lockout_message, Environment, World, attempts_key, live, number_of, get_login_attempts,
  get_remaining_lockout_time, check_account_lockout, start_lockout, count_failure,
  handle_failed_login, login_as, login,
}

-- What is relied on of numbers written by INCR and read by `parseInt`.
pub record NumberLaws {Keys : Type 0} (env : Environment Keys) (decimal : ℕ → String) : Type 0 where
  pub parse_decimal : (n : ℕ) → env.parse_int (decimal n) ≡ n
  pub decimal_some : (n : ℕ) → decimal n ≢ ""

module _ {Keys : Type 0} (env : Environment Keys) where
  -- The password is not that of a live account with the email.
  abbrev pub IsWrong : (email password : String) → Db → Type 0
  IsWrong email password d =
      (u : User)
      → live (find_by_email env.prisma email d) ≡ some u
      → env.compare_password password u.password ≡ false

  -- Logins with the passwords of a list, one after the other.
  abbrev pub logins : (uuid email : String) → List String → World Keys → World Keys
  logins uuid email [] w = w
  logins uuid email (password ∷ passwords) w =
      logins uuid email passwords (login env uuid email password w).1

module _ {Keys : Type 0} (env : Environment Keys) (decimal : ℕ → String)
    (redis_laws : RedisLaws env.redis decimal) (number_laws : NumberLaws env decimal) where
  -- The counter of failures for the email stands at `n`: it is not there for 0.
  abbrev pub Counts : String → ℕ → Keys → Type 0
  Counts email zero keys = env.redis.get (attempts_key email) keys ≡ none
  Counts email (suc n) keys = env.redis.get (attempts_key email) keys ≡ some (decimal (suc n))

  get_login_attempts-Counts :
      (email : String) (n : ℕ) (keys : Keys)
      → Counts email n keys
      → get_login_attempts env email keys ≡ n
  unfolding get_login_attempts number_of
  get_login_attempts-Counts email zero keys h = rw h refl
  get_login_attempts-Counts email (suc n) keys h =
      let parsed = number_laws.parse_decimal (suc n) in
      let there = number_laws.decimal_some (suc n) in
      rw h (ground (arith, eq_iff (decimal (suc n)) ""))

  count_failure-Counts :
      (email : String) (n : ℕ) (keys : Keys)
      → Counts email n keys
      → ((count_failure env email keys).0 ≡ suc n)
        × Counts email (suc n) (count_failure env email keys).1
  unfolding count_failure start_lockout
  count_failure-Counts email zero keys h =
      let (first, there) = redis_laws.incr_none (attempts_key email) keys h in
      let kept =
        redis_laws.get_expire (attempts_key email) (attempts_key email) 899
          (env.redis.incr (attempts_key email) keys).1 in
      (first, rw first (kept ∙ there))
  count_failure-Counts email (suc n) keys h =
      let (more, there) = redis_laws.incr_some (attempts_key email) (suc n) keys h in
      let later : nat_eq (suc (suc n)) 1 ≡ false = ground arith in (more, rw (more, later) there)

  handle_failed_login-Counts :
      (email : String) (user_id : Option String) (n : ℕ) (w : World Keys)
      → Counts email n w.keys
      → Counts email (suc n) (handle_failed_login env email user_id w).1.keys
        × ((handle_failed_login env email user_id w).1.db ≡ w.db)
  unfolding handle_failed_login
  handle_failed_login-Counts email user_id n w h =
      let (more, there) = count_failure-Counts email n w.keys h in
      elim (Bool-cases (leb 5 (count_failure env email w.keys).0)) [
        | inl y ↦ rw y (there, refl)
        | inr m ↦ rw m (there, refl)
      ]

  login_as-wrong :
      (uuid email password : String) (o : Option User) (n : ℕ) (w : World Keys)
      → ((u : User) → o ≡ some u → env.compare_password password u.password ≡ false)
      → Counts email n w.keys
      → Counts email (suc n) (login_as env uuid email password o w).1.keys
        × ((login_as env uuid email password o w).1.db ≡ w.db)
  unfolding login_as handle_failed_login
  login_as-wrong uuid email password none n w wrong h = handle_failed_login-Counts email none n w h
  login_as-wrong uuid email password (some u) n w wrong h =
      rw (wrong u refl) (handle_failed_login-Counts email (some u.id) n w h)

  login-wrong :
      (uuid email password : String) (n : ℕ) (w : World Keys)
      → suc n ≤ 5
      → IsWrong env email password w.db
      → Counts email n w.keys
      → Counts email (suc n) (login env uuid email password w).1.keys
        × ((login env uuid email password w).1.db ≡ w.db)
  unfolding login check_account_lockout
  login-wrong uuid email password n w few wrong h =
      let counted = get_login_attempts-Counts email n w.keys h in
      let unlocked : leb 5 (get_login_attempts env email w.keys) ≡ false =
        rw counted (ground arith) in
      rw unlocked (login_as-wrong uuid email password _ n w wrong h)

  logins-Counts :
      (uuid email : String) (passwords : List String) (n : ℕ) (w : World Keys)
      → n + length passwords ≤ 5
      → All (λ password. IsWrong env email password w.db) passwords
      → Counts email n w.keys
      → Counts email (n + length passwords) (logins env uuid email passwords w).keys
        × ((logins env uuid email passwords w).db ≡ w.db)
  logins-Counts uuid email [] n w few wrong h =
      let all : n + 0 ≡ n = omega arith in (rw all h, refl)
  logins-Counts uuid email (password ∷ passwords) n w few (wrong, rest) h =
      let (there, same) = login-wrong uuid email password n w (omega arith) wrong h in
      let rest' =
        subst (λ d. All (λ password. IsWrong env email password d) passwords) (sym same) rest in
      let (last, same') = logins-Counts uuid email passwords (suc n) _ (omega arith) rest' there in
      (
        subst (λ k. Counts email k (logins env uuid email (password ∷ passwords) w).keys)
            (omega arith) last,
        same' ∙ same,
      )

  login-locked :
      (uuid email password : String) (w : World Keys)
      → 5 ≤ get_login_attempts env email w.keys
      → ((login env uuid email password w).0
          ≡ err (
              unauthorized (
                lockout_message env.show
                  ((get_remaining_lockout_time env email w.keys + 59) / 60))))
        × ((login env uuid email password w).1.keys ≡ w.keys)
        × ((login env uuid email password w).1.db ≡ w.db)
  unfolding login check_account_lockout
  login-locked uuid email password w many =
      let shut : leb 5 (get_login_attempts env email w.keys) ≡ true = ground arith in
      rw shut (refl, refl, refl)

  -- If nothing is counted for an email, then after five logins with passwords that are not those of
  -- a live account with the email, while no key expires, every further login for the email is
  -- refused with the message of the lockout, whatever the password, and changes neither the keys nor
  -- the database.
  pub login-locks :
      (uuid email password : String) (passwords : List String) (w : World Keys)
      → length passwords ≡ 5
      → All (λ password. IsWrong env email password w.db) passwords
      → Counts email 0 w.keys
      → let w' = logins env uuid email passwords w in
        ((login env uuid email password w').0
          ≡ err (
              unauthorized (
                lockout_message env.show
                  ((get_remaining_lockout_time env email w'.keys + 59) / 60))))
        × ((login env uuid email password w').1.keys ≡ w'.keys)
        × ((login env uuid email password w').1.db ≡ w.db)
  login-locks uuid email password passwords w five wrong h =
      let (there, same) = logins-Counts uuid email passwords 0 w (omega arith) wrong h in
      let all : 0 + length passwords ≡ 5 = omega arith in
      let five' : Counts email 5 (logins env uuid email passwords w).keys =
        subst (λ k. Counts email k (logins env uuid email passwords w).keys) all there in
      let counted =
        get_login_attempts-Counts email 5 (logins env uuid email passwords w).keys five' in
      let (answer, keys, db) =
        login-locked uuid email password (logins env uuid email passwords w) (omega arith) in
      (answer, keys, db ∙ same)
