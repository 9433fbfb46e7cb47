-- ===== src/Queue/Steps.antt =====
-- The runs of the connection: at each moment one outstanding await ends, a listener is called, a
-- timer fires, or the module is destroyed, in any order.
use talent_flow_ai_backend.Prelude.{ℕ, ◌*◌, ◌<◌, max, String, List, ◌∷◌, ◌++◌, ◌≡◌}
use talent_flow_ai_backend.Queue.Connection.{
  QueueConfig, QueueService, Task, Outcome, constructed, base_delay, connect_with_setup, settle,
  handle_connection_lost, reconnect, on_module_destroy,
}

-- `Math.floor(Math.random() * Math.max(1, baseDelayMs * 0.2))`
abbrev pub IsJitter : (base jitter : ℕ) → Type 0
IsJitter base jitter = 5 * jitter < max 5 base

module _ (lower : String → String) (config : QueueConfig) where
  pub data Step (s u : QueueService) : Type 0 where
    settles :
        (before after : List Task) (t : Task) (o : Outcome) (jitter handle : ℕ)
        → s.tasks ≡ before ++ t ∷ after
        → IsJitter (base_delay config s.reconnect_attempt) jitter
        → u ≡ settle config jitter handle t o (record s { tasks = before ++ after })
        → Step s u
    loses_connection : u ≡ handle_connection_lost s → Step s u
    fires :
        (before after : List (ℕ × ℕ)) (handle delay : ℕ)
        → s.timeouts ≡ before ++ (handle, delay) ∷ after
        → u ≡ reconnect lower config (record s { timeouts = before ++ after })
        → Step s u
    destroys : u ≡ on_module_destroy s → Step s u

  -- `onModuleInit`, and any steps from there
  pub data Reach : QueueService → Type 0 where
    starts : Reach (connect_with_setup lower config constructed)
    steps : {s u : QueueService} → Reach s → Step s u → Reach u
