-- ===== src/Samples/Keys.antt =====
-- The sample tables have keys.
use trust_gate.Prelude.{arith, eq_iff, ◌∷◌, []}
use trust_gate.Server.{bid_key, task_key}
use trust_gate.Outbox.{event_id}
use trust_gate.Table.{IsKeyed}
use trust_gate.Samples.{sample_world, sample_event}

pub sample_bids-IsKeyed : IsKeyed bid_key sample_world.bids
sample_bids-IsKeyed = ground (
  arith,
  eq_iff "b2" "b1",
  eq_iff "b3" "b1",
  eq_iff "b4" "b1",
  eq_iff "b3" "b2",
  eq_iff "b4" "b2",
  eq_iff "b4" "b3",
)

pub sample_tasks-IsKeyed : IsKeyed task_key sample_world.tasks
sample_tasks-IsKeyed = ground (arith, eq_iff "t2" "t1", eq_iff "t3" "t1", eq_iff "t3" "t2")

pub sample_events-IsKeyed : IsKeyed event_id (sample_event "e1" ∷ sample_event "e2" ∷ [])
sample_events-IsKeyed = ground (arith, eq_iff "e2" "e1")
