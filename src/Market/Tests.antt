-- ===== src/Market/Tests.antt =====
-- A market that starts empty, and one with a task that is being completed.
use trust_gate.Prelude.{
  String, ◌≡◌, refl, ap, sym, ◌∙◌, [], ◌∷◌, Option, some, none, arith, eq_iff, ◌⊎◌,
}
use trust_gate.Table.{find}
use trust_gate.Models.{Task, Bid, TaskStatus, Payload}
use trust_gate.Server.{World, selected_bid, find_task}
use trust_gate.Tasks
use trust_gate.Worker.{handle_task_completion_requested}
use trust_gate.Samples.{
  sample_env, sample_worker, sample_world, task_body, completing_task, bid_of_completing,
}
use trust_gate.Market.{here, later, Step}
use trust_gate.Market.Sound.{IsSound, IsPast, IsWinner}
use trust_gate.Market.Runs.{Leads, status_at}
use trust_gate.Market.Winners.{run-IsSound, run-Leads, selected_bid-IsPast}

abbrev empty_world : World
empty_world = record sample_world { tasks = []; bids = [] }

fresh : find_task (sample_env.uuid 0) empty_world ≡ none
unfolding find
fresh = refl

run-IsSound_example :
    let v = (Tasks.create sample_env task_body empty_world).1 in IsSound v.tasks v.bids
run-IsSound_example =
    run-IsSound sample_env sample_worker {w = empty_world}
      {v = (Tasks.create sample_env task_body empty_world).1} refl refl
      (later here (Step.create_task task_body fresh))

abbrev done_task : Task
done_task = record completing_task { status = TaskStatus.completed }

abbrev done_world : World
done_world = record sample_world { tasks = done_task ∷ []; bids = bid_of_completing ∷ [] }

abbrev busy_world : World
busy_world = record done_world { tasks = completing_task ∷ [] }

done-IsWinner :
    (id : String) → IsPast done_world.tasks id → IsWinner done_world.bids id bid_of_completing
unfolding find
done-IsWinner id (t, found, ne) = (refl, ground (arith, eq_iff "t3" id), refl)

busy-IsWinner :
    (id : String) → IsPast busy_world.tasks id → IsWinner busy_world.bids id bid_of_completing
unfolding find
busy-IsWinner id (t, found, ne) = (refl, ground (arith, eq_iff "t3" id), refl)

only_bid : (id : String) (b : Bid) → IsWinner done_world.bids id b → (b.id ≡ "b4") × (id ≡ "t3")
unfolding find
only_bid id b (found, named, won) =
    let same : b ≡ bid_of_completing = ground (arith, eq_iff "b4" b.id) in
    (ap (λ (x : Bid). x.id) same, sym named ∙ ap (λ (x : Bid). x.task_id) same)

done-IsPast : (id : String) → id ≡ "t3" → IsPast done_world.tasks id
unfolding find
done-IsPast id e = (done_task, ground (arith, eq_iff "t3" id), λ s. cc)

busy-IsPast : (id : String) → id ≡ "t3" → IsPast busy_world.tasks id
unfolding find
busy-IsPast id e = (completing_task, ground (arith, eq_iff "t3" id), λ s. cc)

done-IsSound : IsSound done_world.tasks done_world.bids
done-IsSound = record {
  tasks_keyed = (tt, tt);
  bids_keyed = (tt, tt);
  past_won = λ id h. (bid_of_completing, done-IsWinner id h);
  won_past = λ id b h. done-IsPast id (only_bid id b h).1;
  won_once = λ id b c h k. (only_bid id b h).0 ∙ sym (only_bid id c k).0;
}

busy-IsSound : IsSound busy_world.tasks busy_world.bids
busy-IsSound = record {
  tasks_keyed = (tt, tt);
  bids_keyed = (tt, tt);
  past_won = λ id h. (bid_of_completing, busy-IsWinner id h);
  won_past = λ id b h. busy-IsPast id (only_bid id b h).1;
  won_once = λ id b c h k. (only_bid id b h).0 ∙ sym (only_bid id c k).0;
}

abbrev request : Option Payload
request = some (Payload.completion_requested "t3" "escrow-0")

run-Leads_example :
    Leads
      (status_at "t3" busy_world)
      (status_at "t3" (handle_task_completion_requested sample_worker "e1" request busy_world).1)
run-Leads_example =
    run-Leads sample_env sample_worker {w = busy_world}
      {v = (handle_task_completion_requested sample_worker "e1" request busy_world).1} busy-IsSound
      (later here (Step.work "e1" request)) "t3"

selected_bid-IsPast_example :
    (IsPast done_world.tasks "t3"
      × ((b : Bid) × (selected_bid "t3" done_world ≡ some b)
          × ((c : Bid) → IsWinner done_world.bids "t3" c → c.id ≡ b.id)))
    ⊎ (¬ IsPast done_world.tasks "t3" × (selected_bid "t3" done_world ≡ none))
selected_bid-IsPast_example = selected_bid-IsPast "t3" done_world done-IsSound
