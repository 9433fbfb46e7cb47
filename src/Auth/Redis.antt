-- ===== src/Auth/Redis.antt =====
-- redis/redis.service.ts: what the authentication uses of the client of Redis, which is not part of
-- the repository: a parameter, over whatever Redis keeps.
use talent_flow_ai_backend.Prelude.{ℕ, suc, String, Option, none, some, ◌≡◌, ◌≢◌, Bool, is_some}

pub record RedisClient (Keys : Type 0) : Type 0 where
  -- `set(key, value, 'EX', ttl)`
  pub set : (key value : String) (ttl : ℕ) → Keys → Keys
  pub get : String → Keys → Option String
  pub del : String → Keys → Keys
  pub exists : String → Keys → Bool
  pub incr : String → Keys → ℕ × Keys
  pub expire : String → ℕ → Keys → Keys
  -- -1 and -2, for a key that does not expire or is not there, count as 0.
  pub ttl : String → Keys → ℕ

-- The documented effect of the commands on what `get` and `exists` answer, at one moment: no time
-- passes, so that no key expires. `decimal` is how INCR writes a number.
pub record RedisLaws {Keys : Type 0} (r : RedisClient Keys) (decimal : ℕ → String) : Type 0 where
  pub get_set : (k v : String) (t : ℕ) (s : Keys) → r.get k (r.set k v t s) ≡ some v
  pub get_set_other :
      (k j v : String) (t : ℕ) (s : Keys) → k ≢ j → r.get j (r.set k v t s) ≡ r.get j s
  pub get_del : (k : String) (s : Keys) → r.get k (r.del k s) ≡ none
  pub get_del_other : (k j : String) (s : Keys) → k ≢ j → r.get j (r.del k s) ≡ r.get j s
  pub exists_get : (k : String) (s : Keys) → r.exists k s ≡ is_some (r.get k s)
  pub incr_none :
      (k : String) (s : Keys)
      → r.get k s ≡ none
      → ((r.incr k s).0 ≡ 1) × (r.get k (r.incr k s).1 ≡ some (decimal 1))
  pub incr_some :
      (k : String) (n : ℕ) (s : Keys)
      → r.get k s ≡ some (decimal n)
      → ((r.incr k s).0 ≡ suc n) × (r.get k (r.incr k s).1 ≡ some (decimal (suc n)))
  pub get_expire : (k j : String) (t : ℕ) (s : Keys) → r.get j (r.expire k (suc t) s) ≡ r.get j s
