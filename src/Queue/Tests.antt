-- ===== src/Queue/Tests.antt =====
-- Runs of the connection, and its theorems at concrete inputs.
use talent_flow_ai_backend.Prelude.{
  ◌+◌, ◌*◌, ◌≤◌, ◌<◌, min, max, String, none, some, [], ◌∷◌, false, ◌≡◌, refl, arith,
}
use talent_flow_ai_backend.Async.{ok}
use talent_flow_ai_backend.Queue.Connection.{
  QueueConfig, QueueService, constructed, connecting, closing_channel, closing_connection, resolved,
  rejected, base_delay, reconnect_delay, check_url, connect_with_setup, connect_if, settle,
  schedule_reconnect, call_channel, listen, safe_close_current_connection, handle_connection_lost,
  reconnect, on_module_destroy, clear_reconnect_timer, without_handle,
}
use talent_flow_ai_backend.Queue.Steps.{settles, Reach, starts, steps}
use talent_flow_ai_backend.Queue.Invariant.{Inv, Reach-Inv}
use talent_flow_ai_backend.Queue.Recovery.{Recovers, Reach-Recovers}
use talent_flow_ai_backend.Queue.Backoff.{reconnect_delay-bounds}

-- What a run computes with.
unfoldable run : Unit {0}
unfolding base_delay reconnect_delay check_url connect_with_setup connect_if settle
    schedule_reconnect call_channel listen safe_close_current_connection handle_connection_lost
    reconnect on_module_destroy clear_reconnect_timer without_handle
run = tt

abbrev local : QueueConfig
local = record {
  rabbitmq_url = some "amqp://localhost";
  node_env = "development";
  initial_delay_ms = 1000;
  max_delay_ms = 30000;
}

abbrev same_text : String → String
same_text s = s

local_is_valid : check_url same_text local ≡ ok tt
unfolding run
local_is_valid = refl

-- The first connection fails, both handles close, and a reconnection is due.
abbrev first : QueueService
first = connect_with_setup same_text local constructed

abbrev failed : QueueService
failed = settle local 7 1 connecting rejected (record first { tasks = [] })

abbrev closed : QueueService
closed = settle local 7 1 (closing_channel none) rejected (record failed { tasks = [] })

abbrev due : QueueService
due = settle local 7 1 closing_connection (resolved 0) (record closed { tasks = [] })

due_runs : due ≡ record constructed {
  reconnect_timer = some 1;
  reconnect_attempt = 1;
  timeouts = (1, 1007) ∷ [];
}
unfolding run
due_runs = refl

due-Reach : Reach same_text local due
unfolding run
due-Reach =
    steps
      (steps (steps starts (settles [] [] connecting rejected 7 1 refl (omega arith) refl))
        (settles [] [] (closing_channel none) rejected 7 1 refl (omega arith) refl))
      (settles [] [] closing_connection (resolved 0) 7 1 refl (omega arith) refl)

Reach-Inv_example : Inv local due
Reach-Inv_example = Reach-Inv same_text local due-Reach

due_is_up : due.is_shutting_down ≡ false
unfolding run
due_is_up = refl

Reach-Recovers_example : Recovers same_text local due
Reach-Recovers_example = Reach-Recovers same_text local due local_is_valid due-Reach due_is_up

third_base : base_delay local 3 ≡ 8000
unfolding run
third_base = refl

reconnect_delay-bounds_example :
    (base_delay local 3 ≤ reconnect_delay local 3 11)
    × (reconnect_delay local 3 11 ≤ 30000)
    × (5 * reconnect_delay local 3 11 < 5 * base_delay local 3 + max 5 (base_delay local 3))
    × (base_delay local 0 ≡ min 30000 1000)
    × (base_delay local 4 ≡ min 30000 (2 * base_delay local 3))
reconnect_delay-bounds_example = reconnect_delay-bounds local 3 11 (rw third_base (omega arith))
