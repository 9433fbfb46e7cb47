-- ===== src/Queue/Connection.antt =====
-- queue/queue.service.ts, the connection: what the service does between two awaits is one function,
-- and an await that is outstanding is a task. Handles of connections, channels and timers are
-- numbers. `lower` is `toLowerCase`; the logger is left out.
use text.Mathlib.Text.{starts_with}
use talent_flow_ai_backend.Prelude.{
  ℕ, suc, ◌+◌, ◌*◌, ◌^◌, min, String, Option, none, some, List, [], ◌∷◌, Bool, true, false, not,
  ◌&&◌, ◌||◌, ◌==◌, nat_eq, is_some, if◌then◌else◌,
}
use talent_flow_ai_backend.Async.{Result, ok, err, error}

-- The environment variables that the connection reads, with their defaults put in.
pub record QueueConfig : Type 0 where
  pub rabbitmq_url : Option String
  pub node_env : String
  pub initial_delay_ms : ℕ
  pub max_delay_ms : ℕ

-- The calls of `setupTopology` on the channel.
pub data TopologyCall : Type 0 where
  assert_exchange : (exchange kind : String) → TopologyCall
  assert_queue : (queue : String) → (dead_letter_routing_key : Option String) → TopologyCall
  bind_queue : (queue source routing_key : String) → TopologyCall

abbrev pub cv_processing_queue : String
cv_processing_queue = "cv_parser.jobs"

abbrev pub cv_parsing_dlq : String
cv_parsing_dlq = "cv_parser.jobs.dlq"

-- What comes after the first call of `setupTopology`.
abbrev pub later_calls : List TopologyCall
later_calls =
    TopologyCall.assert_queue cv_parsing_dlq none
    ∷ TopologyCall.assert_queue cv_processing_queue (some cv_parsing_dlq)
    ∷ TopologyCall.bind_queue cv_processing_queue "talentflow.events" "cv.uploaded"
    ∷ []

-- The awaits: of `connect`, of `createChannel`, of a call of `setupTopology` with those that come
-- after it, of the two calls of `safeCloseResources`, and of those of `onModuleDestroy`.
pub data Task : Type 0 where
  connecting opening : Task
  setting_up : (later : List TopologyCall) → Task
  closing_channel : (connection : Option ℕ) → Task
  closing_connection destroying_channel destroying_connection : Task

-- How an await ends: with a handle, where one is awaited, or by a rejection.
pub data Outcome : Type 0 where
  resolved : ℕ → Outcome
  rejected : Outcome

-- The fields of the service, the awaits that are outstanding, and the timers of the runtime, each a
-- handle and a delay.
pub record QueueService : Type 0 where
  pub connection : Option ℕ
  pub channel : Option ℕ
  pub reconnect_timer : Option ℕ
  pub reconnect_attempt : ℕ
  pub is_shutting_down : Bool
  pub tasks : List Task
  pub timeouts : List (ℕ × ℕ)

-- The service as it is constructed.
abbrev pub constructed : QueueService
constructed = record {
  connection = none;
  channel = none;
  reconnect_timer = none;
  reconnect_attempt = 0;
  is_shutting_down = false;
  tasks = [];
  timeouts = [];
}

abbrev pub await : Task → QueueService → QueueService
await t s = record s { tasks = t ∷ s.tasks }

-- `cleanupConnectionState`, less what it returns
abbrev pub cleanup_connection_state : QueueService → QueueService
cleanup_connection_state s = record s { connection = none; channel = none }

-- `safeCloseCurrentConnection`, up to its first await
unfoldable pub safe_close_current_connection : QueueService → QueueService
safe_close_current_connection s = await (closing_channel s.connection) (cleanup_connection_state s)

-- The listeners for `error` and `close`: `handleConnectionLost`
unfoldable pub handle_connection_lost : QueueService → QueueService
handle_connection_lost s =
    if s.is_shutting_down
    then s
    else await (closing_channel s.connection) (cleanup_connection_state s)

-- `Math.min(maxDelayMs, initialDelayMs * Math.pow(2, this.reconnectAttempt))`
unfoldable pub base_delay : QueueConfig → (attempt : ℕ) → ℕ
base_delay config attempt = min config.max_delay_ms (config.initial_delay_ms * 2 ^ attempt)

-- `Math.min(maxDelayMs, baseDelayMs + jitterMs)`
unfoldable pub reconnect_delay : QueueConfig → (attempt jitter : ℕ) → ℕ
reconnect_delay config attempt jitter = min config.max_delay_ms (base_delay config attempt + jitter)

-- `scheduleReconnect`, given the jitter and the handle that `setTimeout` returns
unfoldable pub schedule_reconnect : QueueConfig → (jitter handle : ℕ) → QueueService → QueueService
schedule_reconnect config jitter handle s =
    if s.is_shutting_down || is_some s.reconnect_timer then s else record s {
      reconnect_attempt = suc s.reconnect_attempt;
      reconnect_timer = some handle;
      timeouts = (handle, reconnect_delay config s.reconnect_attempt jitter) ∷ s.timeouts;
    }

-- `nodeEnv === 'production' && !url.toLowerCase().startsWith('amqps://')`
checked_url : (String → String) → QueueConfig → String → Result {0} Unit
checked_url lower config url =
    if url == ""
    then err (error "RABBITMQ_URL environment variable is not defined")
    else if config.node_env == "production" && not (starts_with (lower url) "amqps://")
    then err (error "RABBITMQ_URL must use amqps:// in production")
    else ok tt

-- The checks of `connect` before its first await
unfoldable pub check_url : (String → String) → QueueConfig → Result {0} Unit
unfolding checked_url
check_url lower config = elim config.rabbitmq_url [
  | none ↦ err (error "RABBITMQ_URL environment variable is not defined")
  | some url ↦ checked_url lower config url
]

unfoldable pub connect_if : Result {0} Unit → QueueService → QueueService
connect_if (ok t) s = await connecting s
connect_if (err e) s = safe_close_current_connection s

-- `connectWithSetup`, up to its first await
unfoldable pub connect_with_setup : (String → String) → QueueConfig → QueueService → QueueService
connect_with_setup lower config s = connect_if (check_url lower config) s

-- The next call of `setupTopology`, on `this.channel`: an error if that is `null` by now
unfoldable pub call_channel : Task → QueueService → QueueService
call_channel t s = if is_some s.channel then await t s else safe_close_current_connection s

-- `this.connection.on(…)` and the start of `setupTopology`
unfoldable pub listen : QueueService → QueueService
listen s =
    if is_some s.connection
    then call_channel (setting_up later_calls) s
    else safe_close_current_connection s

-- What runs once an await ends. Where a call of `connectWithSetup` rejects, its `catch` runs;
-- `safeCloseResources` catches every rejection.
unfoldable pub settle :
    QueueConfig → (jitter handle : ℕ) → Task → Outcome → QueueService → QueueService
settle config jitter handle connecting (resolved c) s =
    await opening (record s { connection = some c })
settle config jitter handle connecting rejected s = safe_close_current_connection s
settle config jitter handle opening (resolved c) s = listen (record s { channel = some c })
settle config jitter handle opening rejected s = safe_close_current_connection s
settle config jitter handle (setting_up []) (resolved _) s = record s { reconnect_attempt = 0 }
settle config jitter handle (setting_up (c ∷ later)) (resolved _) s =
    call_channel (setting_up later) s
settle config jitter handle (setting_up later) rejected s = safe_close_current_connection s
settle config jitter handle (closing_channel c) o s = await closing_connection s
settle config jitter handle closing_connection o s = schedule_reconnect config jitter handle s
settle config jitter handle destroying_channel (resolved _) s = await destroying_connection s
settle config jitter handle destroying_channel rejected s = s
settle config jitter handle destroying_connection (resolved _) s = cleanup_connection_state s
settle config jitter handle destroying_connection rejected s = s

-- The callback of the timer
unfoldable pub reconnect : (String → String) → QueueConfig → QueueService → QueueService
reconnect lower config s = connect_with_setup lower config (record s { reconnect_timer = none })

unfoldable pub without_handle : ℕ → List (ℕ × ℕ) → List (ℕ × ℕ)
without_handle h [] = []
without_handle h ((k, d) ∷ ts) =
    let rest = without_handle h ts in if nat_eq k h then rest else (k, d) ∷ rest

-- `if (this.reconnectTimer) { clearTimeout(…); … }`
unfoldable pub clear_reconnect_timer : Option ℕ → QueueService → QueueService
clear_reconnect_timer none s = s
clear_reconnect_timer (some h) s = record s {
  reconnect_timer = none;
  timeouts = without_handle h s.timeouts;
}

-- `onModuleDestroy`, up to its first await
unfoldable pub on_module_destroy : QueueService → QueueService
on_module_destroy s =
    await destroying_channel
      (clear_reconnect_timer s.reconnect_timer (record s { is_shutting_down = true }))

-- `isHealthy`
abbrev pub is_healthy : QueueService → Bool
is_healthy s = is_some s.connection && is_some s.channel
