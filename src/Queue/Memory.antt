-- ===== src/Queue/Memory.antt =====
-- A broker in memory whose channel always answers with the one Boolean it is given.
use talent_flow_ai_backend.Prelude.{Bool, [], ◌∷◌, ◌++◌, refl, arith}
use talent_flow_ai_backend.Async.{ok}
use talent_flow_ai_backend.Queue.{AmqpChannel, AmqpLaws}

abbrev pub channel_answering : Bool → AmqpChannel
channel_answering answer = record { publish = λ m b. (ok answer, b ++ m ∷ []) }

pub channel-AmqpLaws : (answer : Bool) → AmqpLaws (channel_answering answer)
channel-AmqpLaws answer = record {
  publish_ok = λ m b r h. refl;
  publish_err = λ m b e h. absurd (ground arith);
}
