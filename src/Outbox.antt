-- ===== src/Outbox.antt =====
-- src/repositories/outboxRepository.ts: the table of the transactional outbox.
pub mod Rows
use trust_gate.Prelude.{
  ℕ, suc, ◌+◌, String, Bool, true, false, ◌&&◌, Option, none, some, List, [], ◌∷◌, ◌++◌, ltb, keep,
  take, length, ◌==◌, if◌then◌else◌,
}
use trust_gate.Models.{Payload}
use trust_gate.Table.{find, update_at}

pub record OutboxEvent : Type 0 where
  pub id : String
  pub type : String
  pub aggregate_type : String
  pub aggregate_id : String
  pub payload : Payload
  pub created_at : ℕ
  pub processed_at : Option ℕ
  pub attempts : ℕ
  pub last_error : Option String

abbrev pub event_id : OutboxEvent → String
event_id e = e.id

abbrev pub is_unprocessed : OutboxEvent → Bool
is_unprocessed e = elim e.processed_at [ none ↦ true | some _ ↦ false ]

-- The rows stand in the order of `created_at`, which `insert` sets to `now()`.
unfoldable pub insert :
    (id type aggregate_type aggregate_id : String)
    → Payload
    → (now : ℕ) → List OutboxEvent
    → List OutboxEvent
insert id type aggregate_type aggregate_id payload now rows =
    rows
    ++ record {
      id = id;
      type = type;
      aggregate_type = aggregate_type;
      aggregate_id = aggregate_id;
      payload = payload;
      created_at = now;
      processed_at = none;
      attempts = 0;
      last_error = none;
    }
      ∷ []

unfoldable pub list_unprocessed : ℕ → List OutboxEvent → List OutboxEvent
list_unprocessed limit rows = take limit (keep is_unprocessed rows)

unfoldable pub count_unprocessed : List OutboxEvent → ℕ
count_unprocessed rows = length (keep is_unprocessed rows)

unfoldable pub count_failed : List OutboxEvent → ℕ
count_failed rows = length (keep (λ e. is_unprocessed e && ltb 0 e.attempts) rows)

unfoldable pub find_by_id : String → List OutboxEvent → Option OutboxEvent
unfolding find
find_by_id = find event_id

abbrev pub set_processed : ℕ → OutboxEvent → OutboxEvent
set_processed now e = if is_unprocessed e then record e { processed_at = some now } else e

unfoldable pub mark_processed : String → ℕ → List OutboxEvent → List OutboxEvent
unfolding update_at
mark_processed id now = update_at event_id id (set_processed now)

unfoldable pub mark_failed : String → String → List OutboxEvent → List OutboxEvent
unfolding update_at
mark_failed id error =
    update_at event_id id (λ e. record e { attempts = e.attempts + 1; last_error = some error })
