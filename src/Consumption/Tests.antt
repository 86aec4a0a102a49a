-- ===== src/Consumption/Tests.antt =====
-- The first start on an event.
use trust_gate.Prelude.{refl, arith, none, []}
use trust_gate.Consumption.{StartArgs, find_row, try_start}
use trust_gate.Consumption.Attempts.{IsBounded, try_start-IsBounded}

no_rows-IsBounded : IsBounded 5 []
unfolding find_row
no_rows-IsBounded h e r found = ground arith

abbrev first_args : StartArgs
first_args = record {
  handler_name = "event:result_published";
  event_id = "e1";
  stream_entry_id = none;
  max_attempts = 5;
  next_retry_at = none;
}

try_start-IsBounded_example : IsBounded 5 (try_start first_args 1000 []).1
try_start-IsBounded_example =
    try_start-IsBounded 5 1000 [] no_rows-IsBounded first_args refl (omega arith)
