-- ===== src/Auth/Memory.antt =====
-- A Redis in memory that meets the laws, where no key expires, and an environment for runs.
use Prim.Native.String
use talent_flow_ai_backend.Prelude.{
  ℕ, zero, suc, String, Option, none, some, ◌≡◌, ◌≢◌, refl, arith, ◌==◌, eq_iff, eq_refl, ap,
  if◌then◌else◌, is_some,
}
use talent_flow_ai_backend.Prisma.Memory.{memory}
use talent_flow_ai_backend.Auth.Redis.{RedisClient, RedisLaws}
use talent_flow_ai_backend.Auth.Service.{Environment}
use talent_flow_ai_backend.Auth.Lockout.{NumberLaws}

abbrev pub Values : Type 0
Values = String → Option String

abbrev hold : String → Option String → Values → Values
hold k v s = λ j. if k == j then v else s j

-- Numbers as tallies: one stroke more than the number.
abbrev pub tally : ℕ → String
tally zero = "|"
tally (suc n) = String.◌∷◌ "|" (tally n)

size : String → ℕ
size String.[] = 0
size (String.◌∷◌ c s) = suc (size s)

unfoldable pub parse_tally : String → ℕ
unfolding size
parse_tally String.[] = 0
parse_tally (String.◌∷◌ c s) = size s

unfoldable pub incr : String → Values → ℕ × Values
incr k s = elim (s k) [
  | none ↦ (1, hold k (some (tally 1)) s)
  | some t ↦ (suc (parse_tally t), hold k (some (tally (suc (parse_tally t)))) s)
]

abbrev pub redis : RedisClient Values
redis = record {
  set = λ k v t. hold k (some v);
  get = λ k s. s k;
  del = λ k. hold k none;
  exists = λ k s. is_some (s k);
  incr = incr;
  expire = λ k t s. s;
  ttl = λ k s. 900;
}

size_tally : (n : ℕ) → size (tally n) ≡ suc n
unfolding size
size_tally zero = refl
size_tally (suc n) = ap suc (size_tally n)

parse_tally_lem : (n : ℕ) → parse_tally (tally n) ≡ n
unfolding parse_tally
parse_tally_lem zero = refl
parse_tally_lem (suc n) = size_tally n

tally-some : (n : ℕ) → tally n ≢ ""
unfolding size
tally-some n e = ground (arith, size_tally n, ap size e)

pub redis-RedisLaws : RedisLaws redis tally
unfolding incr
redis-RedisLaws = record {
  get_set = λ k v t s. simp eq_refl;
  get_set_other = λ k j v t s n. ground (arith, eq_iff k j);
  get_del = λ k s. simp eq_refl;
  get_del_other = λ k j s n. ground (arith, eq_iff k j);
  exists_get = λ k s. refl;
  incr_none = λ k s h. (ground arith, ground (arith, eq_refl k));
  incr_some =
      λ k n s h. (ground (arith, parse_tally_lem n), ground (arith, eq_refl k, parse_tally_lem n));
  get_expire = λ k j t s. refl;
}

abbrev pub environment : Environment Values
environment = record {
  prisma = memory;
  redis = redis;
  hash_password = λ salt password. password;
  compare_password = λ password hash. password == hash;
  sign = λ secret payload. "access";
  sign_refresh = λ secret payload. String.◌++◌ "refresh-" payload.token_id;
  access_secret = some "a";
  refresh_secret = some "r";
  parse_int = parse_tally;
  show = tally;
}

pub environment-NumberLaws : NumberLaws environment tally
environment-NumberLaws = record { parse_decimal = parse_tally_lem; decimal_some = tally-some }
