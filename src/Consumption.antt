-- ===== src/Consumption.antt =====
-- src/repositories/eventConsumptionRepository.ts: which handler has consumed which event. Each
-- operation is one transaction that locks its row, so it is one step.
pub mod Attempts
mod Tests
use trust_gate.Prelude.{
  ℕ, ◌+◌, String, Bool, true, false, ◌&&◌, Option, none, some, List, [], ◌∷◌, ◌++◌, leb, ltb, keep,
  take, ◌==◌, if◌then◌else◌,
}

pub data EventConsumptionStatus : Type 0 where
  processing succeeded failed : EventConsumptionStatus

pub record EventConsumptionRecord : Type 0 where
  pub handler_name : String
  pub event_id : String
  pub stream_entry_id : Option String
  pub status : EventConsumptionStatus
  pub attempts : ℕ
  pub last_error : Option String
  pub next_retry_at : Option ℕ
  pub created_at : ℕ
  pub updated_at : ℕ

-- `where handler_name = $1 and event_id = $2`
abbrev pub is_row : String → String → EventConsumptionRecord → Bool
is_row handler_name event_id r = (r.handler_name == handler_name) && (r.event_id == event_id)

unfoldable pub find_row :
    String → String → List EventConsumptionRecord → Option EventConsumptionRecord
find_row handler_name event_id [] = none
find_row handler_name event_id (r ∷ rows) =
    if is_row handler_name event_id r then some r else find_row handler_name event_id rows

unfoldable pub update_row :
    String
    → String
    → (EventConsumptionRecord → EventConsumptionRecord)
    → List EventConsumptionRecord
    → List EventConsumptionRecord
update_row handler_name event_id f [] = []
update_row handler_name event_id f (r ∷ rows) =
    (if is_row handler_name event_id r then f r else r) ∷ update_row handler_name event_id f rows

abbrev pub coalesce {ℓ} : {A : Type ℓ} → Option A → Option A → Option A
coalesce none b = b
coalesce (some a) b = some a

abbrev pub is_succeeded : EventConsumptionStatus → Bool
is_succeeded succeeded = true
is_succeeded _ = false

abbrev pub is_failed : EventConsumptionStatus → Bool
is_failed failed = true
is_failed _ = false

-- `t && t > now`
abbrev pub is_after : Option ℕ → ℕ → Bool
is_after none now = false
is_after (some t) now = ltb now t

pub record StartArgs : Type 0 where
  pub handler_name : String
  pub event_id : String
  pub stream_entry_id : Option String
  pub max_attempts : ℕ
  pub next_retry_at : Option ℕ

pub record Started : Type 0 where
  pub started : Bool
  pub attempt : EventConsumptionRecord

-- the row that the first `tryStart` inserts
unfoldable pub first_row : StartArgs → ℕ → EventConsumptionRecord
first_row args now = record {
  handler_name = args.handler_name;
  event_id = args.event_id;
  stream_entry_id = args.stream_entry_id;
  status = processing;
  attempts = 1;
  last_error = none;
  next_retry_at = args.next_retry_at;
  created_at = now;
  updated_at = now;
}

-- the update of a later `tryStart`
unfoldable pub restarted : StartArgs → ℕ → EventConsumptionRecord → EventConsumptionRecord
restarted args now r = record r {
  status = processing;
  attempts = r.attempts + 1;
  stream_entry_id = coalesce args.stream_entry_id r.stream_entry_id;
  updated_at = now;
}

unfoldable pub try_start :
    StartArgs → ℕ → List EventConsumptionRecord → Started × List EventConsumptionRecord
unfolding find_row update_row first_row restarted
try_start args now rows = elim (find_row args.handler_name args.event_id rows) [
  | none ↦
      (record { started = true; attempt = first_row args now }, rows ++ first_row args now ∷ [])
  | some existing ↦
      if is_succeeded existing.status
      then (record { started = false; attempt = existing }, rows)
      else if leb args.max_attempts existing.attempts
      then (record { started = false; attempt = existing }, rows)
      else if is_after existing.next_retry_at now
      then (record { started = false; attempt = existing }, rows)
      else (
        record { started = true; attempt = restarted args now existing },
        update_row args.handler_name args.event_id (restarted args now) rows,
      )
]

unfoldable pub mark_succeeded :
    String → String → ℕ → List EventConsumptionRecord → List EventConsumptionRecord
unfolding update_row
mark_succeeded handler_name event_id now =
    update_row handler_name event_id λ r. record r {
      status = succeeded;
      last_error = none;
      next_retry_at = none;
      updated_at = now;
    }

unfoldable pub mark_failed :
    String
    → String
    → String
    → Option ℕ
    → ℕ
    → List EventConsumptionRecord
    → List EventConsumptionRecord
unfolding update_row
mark_failed handler_name event_id error next_retry_at now = update_row handler_name event_id λ r.
    record r {
      status = failed;
      last_error = some error;
      next_retry_at = next_retry_at;
      updated_at = now;
    }

abbrev pub due_at : EventConsumptionRecord → ℕ
due_at r = elim r.next_retry_at [ none ↦ r.updated_at | some t ↦ t ]

-- `order by coalesce(next_retry_at, updated_at) asc`
unfoldable pub insert_by_due :
    EventConsumptionRecord → List EventConsumptionRecord → List EventConsumptionRecord
insert_by_due r [] = r ∷ []
insert_by_due r (x ∷ xs) = if leb (due_at r) (due_at x) then r ∷ x ∷ xs else x ∷ insert_by_due r xs

unfoldable pub sort_by_due : List EventConsumptionRecord → List EventConsumptionRecord
unfolding insert_by_due
sort_by_due [] = []
sort_by_due (r ∷ rows) = insert_by_due r (sort_by_due rows)

abbrev pub is_due : String → ℕ → EventConsumptionRecord → Bool
is_due handler_name now r =
    if (r.handler_name == handler_name) && is_failed r.status
    then (if is_after r.next_retry_at now then false else true)
    else false

unfoldable pub list_due_retries :
    String → ℕ → ℕ → List EventConsumptionRecord → List EventConsumptionRecord
unfolding sort_by_due
list_due_retries handler_name limit now rows =
    take limit (sort_by_due (keep (is_due handler_name now) rows))
