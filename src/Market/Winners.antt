-- ===== src/Market/Winners.antt =====
-- Every task that is past OPEN has its winner.
use trust_gate.Prelude.{
  String, true, ◌≡◌, ◌≢◌, ap, ◌⊎◌, inl, inr, none, some, List, [], ◌∷◌, first, first_sound, keep,
  arith, eq_iff, ◌==◌, Option-cases, All-first,
}
use trust_gate.Models.{Bid, BidStatus, is_selected}
use trust_gate.Table.{find, IsKeyed, keep-found}
use trust_gate.Server.{World, Env, bid_key, find_bids, selected_bid}
use trust_gate.Worker.{WorkerEnv}
use trust_gate.Market.{Run, here, later}
use trust_gate.Market.Sound.{IsWinner, IsPast, IsSound, empty-IsSound}
use trust_gate.Market.Handlers.{Step-Change}
use trust_gate.Market.Runs.{Sound, Change-IsSound, Leads, stays, in_turn, status_at, Change-Leads}

module _ (env : Env) (worker : WorkerEnv) where
  Run-IsSound : {w v : World} → Run env worker w v → Sound w → Sound v
  Run-IsSound here sound = sound
  Run-IsSound (later run step) sound =
      let before = Run-IsSound run sound in
      Change-IsSound (Step-Change env worker before.tasks_keyed step) before

  -- A market that starts with no tasks and no bids keeps its tables sound, however it runs: ids are
  -- unique, every task past OPEN has one bid that was selected for it, and no other task has any.
  pub run-IsSound :
      {w v : World} → w.tasks ≡ [] → w.bids ≡ [] → Run env worker w v → IsSound v.tasks v.bids
  run-IsSound no_tasks no_bids run = Run-IsSound run (rw (no_tasks, no_bids) empty-IsSound)

  -- However the market runs from sound tables, each task goes its way from OPEN over ASSIGNED and
  -- perhaps COMPLETING to COMPLETED or to EXPIRED, and never back, nor does it vanish.
  pub run-Leads :
      {w v : World}
      → IsSound w.tasks w.bids
      → Run env worker w v
      → (id : String) → Leads (status_at id w) (status_at id v)
  run-Leads sound here id = stays
  run-Leads sound (later run step) id =
      let before = Run-IsSound run sound in
      in_turn (run-Leads sound run id)
        (Change-Leads (Step-Change env worker before.tasks_keyed step) id)

-- A stored bid that is selected is found by the search.
selected_there :
    (id k : String) (b : Bid) (bids : List Bid)
    → find bid_key k bids ≡ some b
    → (b.task_id == id) ≡ true
    → is_selected b.status ≡ true
    → first (λ (c : Bid). is_selected c.status) (keep (λ (c : Bid). c.task_id == id) bids) ≢ none
unfolding find
selected_there id k b [] found named won missing = cc
selected_there id k b (c ∷ bids) found named won missing =
    ground (arith, selected_there id k b bids)

selected_of : (b : Bid) → is_selected b.status ≡ true → b.status ≡ BidStatus.selected
selected_of b h = ground arith

-- What the search finds is a stored bid that was selected for the task.
selected_bid-IsWinner :
    (id : String) (w : World) (b : Bid)
    → IsKeyed bid_key w.bids
    → selected_bid id w ≡ some b
    → IsWinner w.bids id b
selected_bid-IsWinner id w b keyed found =
    let (stored, named) =
      All-first (λ (c : Bid). (find bid_key c.id w.bids ≡ some c) × ((c.task_id == id) ≡ true))
        (λ (c : Bid). is_selected c.status) (find_bids id w) b
        (keep-found bid_key (λ (c : Bid). c.task_id == id) w.bids keyed) found in
    let won = first_sound (λ (c : Bid). is_selected c.status) (find_bids id w) {a = b} found in
    (stored, (eq_iff b.task_id id).0 named, selected_of b won)

-- In sound tables, a task that is past OPEN has a selected bid, the only one of its task, which is
-- what the search for it finds; where there is no such task, or it is OPEN, the search finds none.
pub selected_bid-IsPast :
    (id : String) (w : World)
    → IsSound w.tasks w.bids
    → (IsPast w.tasks id
        × ((b : Bid) × (selected_bid id w ≡ some b)
            × ((c : Bid) → IsWinner w.bids id c → c.id ≡ b.id)))
      ⊎ (¬ IsPast w.tasks id × (selected_bid id w ≡ none))
selected_bid-IsPast id w sound = elim (Option-cases (selected_bid id w)) [
  | inr (b, found) ↦
      let won = selected_bid-IsWinner id w b sound.bids_keyed found in
      inl (sound.won_past id b won, (b, found, λ c h. sound.won_once id c b h won))
  | inl missing ↦ inr (
    λ past.
        let (b, (found, named, won)) = sound.past_won id past in
        let is_won : is_selected b.status ≡ true = ap is_selected won in
        selected_there id b.id b w.bids found ((eq_iff b.task_id id).1 named) is_won missing,
    missing,
  )
]
