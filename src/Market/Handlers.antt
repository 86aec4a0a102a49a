-- ===== src/Market/Handlers.antt =====
-- Every step is a change that the market allows.
use mathlib.Core.Path.{subst}
use trust_gate.Prelude.{◌≡◌, sym, ap, ◌∙◌, inl, inr, none}
use trust_gate.Models.{Task, TaskStatus}
use trust_gate.Table.{find, IsKeyed}
use trust_gate.Server.{SameTables, World, Env, task_key, bid_key, find_task}
use trust_gate.Tasks.Tables.{
  Creates, create-Creates, create_paid-Creates, Completes, complete-Completes, select_tables,
}
use trust_gate.Bids.Tables.{Places, create-Places}
use trust_gate.Timeout.Tables.{Expires, run_once-Expires}
use trust_gate.Worker.{WorkerEnv}
use trust_gate.Worker.Tables.{Releases, handle-Releases}
use trust_gate.Results.Publication.{publish_result_tables}
use trust_gate.Executors.Registration.{register_tables}
use trust_gate.Market.{Forward, requests, completes, expires, releases, Change, Step}

same-Change : {w v : World} → SameTables w v → Change w v
same-Change (tasks, bids) = Change.quiet tasks bids

module _ (env : Env) where
  creates-Change :
      {w v : World} → find_task (env.uuid w.uuids) w ≡ none → Creates env w v → Change w v
  creates-Change fresh (inl same) = same-Change same
  creates-Change {w} fresh (inr (task, id, is_open, tasks, bids)) =
      Change.and_then (Change.opened task (ap (λ i. find_task i w) id ∙ fresh) is_open)
        (Change.quiet tasks bids)

  places-Change :
      {w v : World} → find bid_key (env.uuid w.uuids) w.bids ≡ none → Places env w v → Change w v
  places-Change fresh (inl same) = same-Change same
  places-Change {w} fresh (inr (bid, u, id, is_new, tasks, bids, same)) =
      let new_bid = Change.placed bid (ap (λ i. find bid_key i w.bids) id ∙ fresh) is_new in
      subst (Change w) (sym same) (
        Change.and_then new_bid
          (Change.and_then (Change.quiet {v = u} tasks bids) (Change.chosen bid.task_id)))

from_assigned :
    (t : Task) (s : TaskStatus)
    → t.status ≡ TaskStatus.assigned
    → Forward TaskStatus.assigned s
    → Forward t.status s
from_assigned t s e f = subst (λ x. Forward x s) (sym e) f

completes-Change : (env : Env) {w v : World} → Completes env w v → Change w v
completes-Change env (inl same) = same-Change same
completes-Change env {w} (inr (task, s, found, is_assigned, ends, tasks, bids)) =
    let forward : Forward TaskStatus.assigned s = elim ends [
      | inl e ↦ subst (Forward TaskStatus.assigned) (sym e) requests
      | inr e ↦ subst (Forward TaskStatus.assigned) (sym e) completes
    ] in
    Change.and_then (Change.moved task s found (from_assigned task s is_assigned forward))
      (Change.quiet tasks bids)

expires-Change : {w v : World} → Expires w v → Change w v
expires-Change (Expires.stop same) = same-Change same
expires-Change (Expires.skip same rest) = Change.and_then (same-Change same) (expires-Change rest)
expires-Change (Expires.after task found is_assigned tasks bids rest) =
    Change.and_then
      (Change.and_then
        (Change.moved task TaskStatus.expired found
          (from_assigned task TaskStatus.expired is_assigned expires))
        (Change.quiet tasks bids))
      (expires-Change rest)

releases-Change : (worker : WorkerEnv) {w v : World} → Releases worker w v → Change w v
releases-Change worker (inl same) = same-Change same
releases-Change worker {w} (inr (task, found, completing, tasks, bids)) =
    let forward = subst (λ x. Forward x TaskStatus.completed) (sym completing) releases in
    Change.and_then (Change.moved task TaskStatus.completed found forward) (Change.quiet tasks bids)

module _ (env : Env) (worker : WorkerEnv) where
  -- Where the tasks have different ids, a step does no more to the two tables than the market allows.
  pub Step-Change : {w v : World} → IsKeyed task_key w.tasks → Step env worker w v → Change w v
  Step-Change {w} keyed (Step.create_task body fresh) =
      creates-Change env fresh (create-Creates env body w)
  Step-Change {w} keyed (Step.create_paid_task body fresh) =
      creates-Change env fresh (create_paid-Creates env body w)
  Step-Change {w} keyed (Step.create_bid body fresh) =
      places-Change env fresh (create-Places env body w)
  Step-Change {w} keyed (Step.select task_id) =
      Change.and_then (Change.chosen task_id) (same-Change (select_tables env task_id w))
  Step-Change {w} keyed (Step.complete task_id body) =
      completes-Change env (complete-Completes env body w task_id)
  Step-Change {w} keyed (Step.register_executor body) = same-Change (register_tables env body w)
  Step-Change {w} keyed (Step.publish task_id body payload) =
      same-Change (publish_result_tables env task_id body payload w)
  Step-Change {w} keyed Step.sweep = expires-Change (run_once-Expires env w keyed)
  Step-Change {w} keyed (Step.work event_id payload) =
      releases-Change worker (handle-Releases worker event_id payload w)
  Step-Change keyed (Step.other tasks bids) = Change.quiet tasks bids
