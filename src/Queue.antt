-- ===== src/Queue.antt =====
-- queue/queue.service.ts. The AMQP channel is a parameter; the broker's state is the list of the
-- messages that were handed to the connection, the newest last.
pub mod Memory
pub mod Connection
pub mod Steps
pub mod Invariant
pub mod Recovery
pub mod Backoff
pub mod Shutdown
mod Tests
use talent_flow_ai_backend.Prelude.{ℕ, String, List, [], ◌∷◌, ◌++◌, Bool, not, ◌≡◌}
use talent_flow_ai_backend.Prelude.{if◌then◌else◌}
use talent_flow_ai_backend.Async.{Async, Result, ok, err, Exception, error, pure, throw}
use talent_flow_ai_backend.Async.{◌>>=◌, ◌>>◌}

-- queue/interfaces/cv-uploaded-event.interface.ts
pub record CvUploadedEvent : Type 0 where
  pub candidate_id : String
  pub application_id : String
  pub job_id : String
  pub bucket : String
  pub file_key : String
  pub mime_type : String
  pub uploaded_at : ℕ

pub record Message : Type 0 where
  pub exchange : String
  pub routing_key : String
  pub content : CvUploadedEvent

abbrev pub talentflow_events_exchange : String
talentflow_events_exchange = "talentflow.events"

abbrev pub routing_key_cv_uploaded : String
routing_key_cv_uploaded = "cv.uploaded"

abbrev pub Broker : Type 0
Broker = List Message

-- `channel.publish(…)`, which may throw.
pub record AmqpChannel : Type 0 where
  pub publish : Message → Async Broker Bool

pub record AmqpLaws (c : AmqpChannel) : Type 0 where
  -- the message is written whatever is returned: `false` says that the buffer is full by now
  pub publish_ok :
      (m : Message) (b : Broker) (r : Bool)
      → (c.publish m b).0 ≡ ok r
      → (c.publish m b).1 ≡ b ++ m ∷ []
  pub publish_err :
      (m : Message) (b : Broker) (e : Exception) → (c.publish m b).0 ≡ err e → (c.publish m b).1 ≡ b

unfoldable pub cv_uploaded : CvUploadedEvent → Message
cv_uploaded event = record {
  exchange = talentflow_events_exchange;
  routing_key = routing_key_cv_uploaded;
  content = event;
}

-- `has_channel`: the field `channel` of the service is not `null`.
unfoldable pub publish_cv_uploaded : AmqpChannel → Bool → CvUploadedEvent → Async Broker Unit
publish_cv_uploaded channel has_channel event =
    if not has_channel then throw (error "RabbitMQ channel not initialized") else do
      published ← channel.publish (cv_uploaded event)
      if not published then throw (error "RabbitMQ outbound buffer full") else pure tt
