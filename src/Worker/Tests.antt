-- ===== src/Worker/Tests.antt =====
-- The worker's handlers.
use trust_gate.Table.{find}
use trust_gate.Prelude.{◌≡◌, refl, arith, eq_iff, ◌∷◌, [], ◌++◌, some, none, ◌≤◌, ◌+◌}
use trust_gate.Models.{Payload}
use trust_gate.Server.{EscrowCall, find_task}
use trust_gate.Worker.{
  WorkerEnv, compute_backoff, completion_fields, handle_task_completion_requested,
}
use trust_gate.Worker.Backoff.{compute_backoff-bounds}
use trust_gate.Worker.Releases.{Releasable, as_completed, handle-once}
use trust_gate.Samples.{
  sample_worker, failing_env, sample_world, sample_release, completing_task, bid_of_completing,
}

abbrev requested : Payload
requested = Payload.completion_requested "t3" "escrow-0"

requested-Releasable : Releasable requested sample_world completing_task bid_of_completing
unfolding completion_fields find
requested-Releasable = record {
  named = refl;
  complete_payload = (ground (arith, eq_iff "t3" ""), ground (arith, eq_iff "escrow-0" ""));
  found = refl;
  is_completing = refl;
  winner = refl;
}

handle-once_example :
    let (thrown, w') =
      handle_task_completion_requested sample_worker "e1" (some requested) sample_world in
    (thrown ≡ none)
    × (find_task "t3" w' ≡ some (as_completed completing_task))
    × (w'.escrow_calls ≡ [] ++ EscrowCall.release_milestone "escrow-0" ∷ [])
    × (handle_task_completion_requested sample_worker "e1" (some requested) w' ≡ (none, w'))
handle-once_example =
    handle-once sample_worker "e1" requested sample_world completing_task bid_of_completing
      requested-Releasable sample_release refl

abbrev failing_worker : WorkerEnv
failing_worker = record sample_worker { server = failing_env }

compute_backoff-bounds_example :
    (1000 + 2000 ≤ compute_backoff 1 1000)
    × (compute_backoff 1 1000 ≤ compute_backoff 9 1000)
    × (compute_backoff 9 1000 ≤ 1000 + 300000)
compute_backoff-bounds_example = compute_backoff-bounds 1 9 1000 (omega arith)
