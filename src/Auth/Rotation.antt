-- ===== src/Auth/Rotation.antt =====
-- `refresh`: a new token takes the place of the one before.
use talent_flow_ai_backend.Prelude.{
  String, Option, none, some, ◌≡◌, ◌≢◌, refl, arith, eq_iff, lookup,
}
use talent_flow_ai_backend.Model.{User}
use talent_flow_ai_backend.Async.{ok}
use talent_flow_ai_backend.Auth.Redis.{RedisLaws}
use talent_flow_ai_backend.Auth.Service.{
  refresh_key, Environment, World, Tokens, RefreshTokenPayload, live, generate_tokens,
  store_refresh_token, refresh_as, refresh,
}
use talent_flow_ai_backend.Auth.Guards.{live-some, validate_refresh, RefreshUser}
use talent_flow_ai_backend.Prelude.{ℕ}

module _ {Keys : Type 0} (env : Environment Keys) (decimal : ℕ → String)
    (laws : RedisLaws env.redis decimal) where
  refresh_as-steps :
      (uuid user_id : String) (o : Option User) (w : World Keys) (t : Tokens)
      → (refresh_as env uuid user_id o w).0 ≡ ok t
      → (u : User) × (o ≡ some u)
        × ((refresh_as env uuid user_id o w).1.keys
            ≡ env.redis.set (refresh_key u.id) t.refresh_token 604800 w.keys)
        × ((refresh_as env uuid user_id o w).1.db ≡ w.db)
  unfolding refresh_as generate_tokens store_refresh_token
  refresh_as-steps uuid user_id none w t h = absurd (ground arith)
  refresh_as-steps uuid user_id (some u) w t h = (u, refl, ground arith, ground arith)

  another_stored :
      (token stored : String) (payload : RefreshTokenPayload) (w : World Keys) (r : RefreshUser)
      → env.redis.get (refresh_key payload.payload.sub) w.keys ≡ some stored
      → token ≢ stored
      → validate_refresh env (some token) payload w ≢ ok r
  unfolding validate_refresh
  another_stored token stored payload w r there n h = ground (arith, eq_iff stored token)

  -- A refresh that is answered with `t` was for an account that is stored and not deleted; the
  -- database is as before, and every other refresh token of that account is refused from then on.
  pub refresh-rotates :
      (uuid user_id : String) (w : World Keys) (t : Tokens)
      → (refresh env uuid user_id w).0 ≡ ok t
      → (u : User) × (lookup user_id w.db.users ≡ some u)
        × (u.deleted_at ≡ none)
        × ((refresh env uuid user_id w).1.db ≡ w.db)
        × ((token : String) (payload : RefreshTokenPayload) (r : RefreshUser)
            → payload.payload.sub ≡ u.id
            → token ≢ t.refresh_token
            → validate_refresh env (some token) payload (refresh env uuid user_id w).1 ≢ ok r)
  unfolding refresh
  refresh-rotates uuid user_id w t h =
      let (u, found, keys, db) =
        refresh_as-steps uuid user_id (live (lookup user_id w.db.users)) w t h in
      let (there, lives) = live-some (lookup user_id w.db.users) u found in
      let stored = laws.get_set (refresh_key u.id) t.refresh_token 604800 w.keys in
      (
        u,
        there,
        lives,
        db,
        λ token payload r sub n.
            another_stored token t.refresh_token payload _ r (rw (sub, keys) stored) n,
      )
