-- ===== src/Queue/Backoff.antt =====
-- `scheduleReconnect`: the delays.
use native.Mathlib.Nat.{pow-suc, mul_assoc}
use talent_flow_ai_backend.Prelude.{
  ℕ, suc, ◌+◌, ◌*◌, ◌^◌, ◌≤◌, ◌<◌, min, max, ◌≡◌, arith, sym, ap, ◌∙◌,
}
use talent_flow_ai_backend.Queue.Connection.{QueueConfig, base_delay, reconnect_delay}
use talent_flow_ai_backend.Queue.Steps.{IsJitter}

module _ (config : QueueConfig) where
  -- Whatever the jitter that `Math.random` gives, the delay of an attempt is at least its base and at
  -- most the limit, and beyond the base by less than a fifth of it, or than 1; the base of the first
  -- attempt is the initial delay, and that of each later one is twice the base before, both cut at
  -- the limit; so the bases never fall, and once at the limit they stay there.
  pub reconnect_delay-bounds :
      (attempt jitter : ℕ)
      → IsJitter (base_delay config attempt) jitter
      → (base_delay config attempt ≤ reconnect_delay config attempt jitter)
        × (reconnect_delay config attempt jitter ≤ config.max_delay_ms)
        × (5 * reconnect_delay config attempt jitter
            < 5 * base_delay config attempt + max 5 (base_delay config attempt))
        × (base_delay config 0 ≡ min config.max_delay_ms config.initial_delay_ms)
        × (base_delay config (suc attempt)
            ≡ min config.max_delay_ms (2 * base_delay config attempt))
  unfolding base_delay reconnect_delay
  reconnect_delay-bounds attempt jitter small =
      let double : config.initial_delay_ms * 2 ^ suc attempt
          ≡ config.initial_delay_ms * 2 ^ attempt * 2 =
        ap (λ k. config.initial_delay_ms * k) (pow-suc 2 attempt)
        ∙ sym (mul_assoc config.initial_delay_ms (2 ^ attempt) 2) in
      (omega arith, omega arith, omega arith, omega arith, omega (arith, double))
