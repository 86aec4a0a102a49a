-- ===== src/Publisher.antt =====
-- src/services/outboxPublisher.ts: the outbox rows that go to the Redis stream.
pub mod Delivery
mod Tests
use trust_gate.Prelude.{ℕ, String, Option, none, some, List, [], ◌∷◌, ◌++◌, length}
use trust_gate.Models.{Payload}
use trust_gate.Outbox.{OutboxEvent, list_unprocessed, mark_processed, mark_failed}

-- The fields of a stream entry that the publisher adds. The payload is its JSON text, of which
-- `JSON.parse` makes the payload again.
pub record Message : Type 0 where
  pub id : String
  pub type : String
  pub aggregate_type : String
  pub aggregate_id : String
  pub payload : Payload

abbrev pub message : OutboxEvent → Message
message event = record {
  id = event.id;
  type = event.type;
  aggregate_type = event.aggregate_type;
  aggregate_id = event.aggregate_id;
  payload = event.payload;
}

-- The outbox, and the messages that have been added to the stream.
pub record Queues : Type 0 where
  pub outbox : List OutboxEvent
  pub stream : List Message

-- `add_error` is the message of what `xAdd` throws for an event, if it does.
module _ (add_error : OutboxEvent → Option String) (now : ℕ) where
  pub publish_event : OutboxEvent → Queues → Queues
  publish_event event q = elim (add_error event) [
    | none ↦ record {
      outbox = mark_processed event.id now q.outbox;
      stream = q.stream ++ message event ∷ [];
    }
    | some error ↦ record { outbox = mark_failed event.id error q.outbox; stream = q.stream }
  ]

  pub publish_events : List OutboxEvent → Queues → Queues
  unfolding publish_event
  publish_events [] q = q
  publish_events (event ∷ events) q = publish_events events (publish_event event q)

  -- the number of events it took, and what it made of the queues
  pub publish_once : (batch_size : ℕ) → Queues → ℕ × Queues
  publish_once batch_size q =
      let events = list_unprocessed batch_size q.outbox in
      (length {A = OutboxEvent} events, publish_events events q)
