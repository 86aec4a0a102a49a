-- ===== src/Auction/Effect.antt =====
-- What `selectWinner` changes.
use mathlib.Core.Path.{subst}
use trust_gate.Prelude.{
  String, ◌≡◌, ◌≢◌, refl, sym, ap, ◌∙◌, some, List, [], ◌∷◌, All, ◌==◌, eq_iff, arith, Bool-cases,
  inl, inr,
}
use trust_gate.Models.{Task, Bid, TaskStatus, BidStatus}
use trust_gate.Table.{find, upsert, find-upsert, key-find, IsKeyed, IsKeyed-keep}
use trust_gate.Server.{World, task_key, bid_key, find_task, save_task, save_bid}
use trust_gate.Auction.Lowest.{OneOf, lowest_least}
use trust_gate.Auction.{
  AuctionError, selected, refused, lowest, reject_other, reject_others, pending_bids, assign,
  select_winner,
}

abbrev pub as_rejected : Bid → Bid
as_rejected b = record b { status = BidStatus.rejected }

abbrev pub as_selected : Bid → Bid
as_selected b = record b { status = BidStatus.selected }

abbrev pub as_assigned : Task → Task
as_assigned t = record t { status = TaskStatus.assigned }

module _ (winner : Bid) where
  find-reject_other :
      (bid : Bid) (w : World) (id : String)
      → bid.id ≢ id
      → find bid_key id (reject_other winner bid w).bids ≡ find bid_key id w.bids
  unfolding reject_other
  find-reject_other bid w id ne =
      ground (arith, find-upsert bid_key id (as_rejected bid) w.bids, eq_iff bid.id id)

  find-reject_other_self :
      (bid : Bid) (w : World)
      → bid.id ≢ winner.id
      → find bid_key bid.id (reject_other winner bid w).bids ≡ some (as_rejected bid)
  unfolding reject_other
  find-reject_other_self bid w ne = ground (
    arith,
    find-upsert bid_key bid.id (as_rejected bid) w.bids,
    eq_iff bid.id winner.id,
    eq_iff bid.id bid.id,
  )

  find-reject_other_winner :
      (bid : Bid) (w : World)
      → find bid_key winner.id (reject_other winner bid w).bids ≡ find bid_key winner.id w.bids
  unfolding reject_other
  find-reject_other_winner bid w =
      ground
        (arith, find-upsert bid_key winner.id (as_rejected bid) w.bids, eq_iff bid.id winner.id)

  -- Bids that are not among those given stay as they are.
  pub find-reject_others :
      (bids : List Bid) (w : World) (id : String)
      → All (λ (b : Bid). b.id ≢ id) bids
      → find bid_key id (reject_others winner bids w).bids ≡ find bid_key id w.bids
  unfolding reject_others
  find-reject_others [] w id h = refl
  find-reject_others (bid ∷ bids) w id (ne, h) =
      find-reject_others bids _ id h ∙ find-reject_other bid w id ne

  pub find-reject_others_winner :
      (bids : List Bid) (w : World)
      → find bid_key winner.id (reject_others winner bids w).bids ≡ find bid_key winner.id w.bids
  unfolding reject_others
  find-reject_others_winner [] w = refl
  find-reject_others_winner (bid ∷ bids) w =
      find-reject_others_winner bids _ ∙ find-reject_other_winner bid w

  pub find-reject_others_loser :
      (bids : List Bid) (w : World)
      → IsKeyed bid_key bids
      → All
          (λ (b : Bid).
            b.id ≢ winner.id
            → find bid_key b.id (reject_others winner bids w).bids ≡ some (as_rejected b))
          bids
  unfolding reject_others
  find-reject_others_loser [] w h = tt
  find-reject_others_loser (bid ∷ bids) w (h, k) = (
    λ ne. find-reject_others bids _ bid.id h ∙ find-reject_other_self bid w ne,
    find-reject_others_loser bids _ k,
  )

  reject_other_rest :
      (bid : Bid) (w : World)
      → reject_other winner bid w ≡ record w { bids = (reject_other winner bid w).bids }
  unfolding reject_other
  reject_other_rest bid w = elim (Bool-cases (bid.id == winner.id)) [ inl e ↦ rw e | inr e ↦ rw e ]

  -- Nothing but the bids is changed.
  pub reject_others_rest :
      (bids : List Bid) (w : World)
      → reject_others winner bids w ≡ record w { bids = (reject_others winner bids w).bids }
  unfolding reject_others
  reject_others_rest [] w = refl
  reject_others_rest (bid ∷ bids) w =
      reject_others_rest bids (reject_other winner bid w)
      ∙ ap
          (λ (v : World).
            let r : World = record v { bids = (reject_others winner (bid ∷ bids) w).bids } in r)
          (reject_other_rest bid w)

module _ (task : Task) (task_id : String) where
  find_saved :
      (w : World)
      → find_task task_id w ≡ some task
      → find task_key task_id (upsert task_key (as_assigned task) w.tasks) ≡ some (as_assigned task)
  find_saved w found = ground (
    arith,
    find-upsert task_key task_id (as_assigned task) w.tasks,
    key-find task_key task_id w.tasks task found,
    eq_iff task.id task_id,
  )

  find_other :
      (id : String) (w : World)
      → find_task task_id w ≡ some task
      → task_id ≢ id
      → find task_key id (upsert task_key (as_assigned task) w.tasks) ≡ find task_key id w.tasks
  find_other id w found ne = ground (
    arith,
    find-upsert task_key id (as_assigned task) w.tasks,
    key-find task_key task_id w.tasks task found,
    eq_iff task.id id,
  )

find-upsert_self : (b : Bid) (bids : List Bid) → find bid_key b.id (upsert bid_key b bids) ≡ some b
find-upsert_self b bids = ground (arith, find-upsert bid_key b.id b bids, eq_iff b.id b.id)

find-upsert_other :
    (b : Bid) (id : String) (bids : List Bid)
    → b.id ≢ id
    → find bid_key id (upsert bid_key b bids) ≡ find bid_key id bids
find-upsert_other b id bids ne = ground (arith, find-upsert bid_key id b bids, eq_iff b.id id)

All-OneOf : (P : Bid → Type 0) (bids : List Bid) (a : Bid) → All P bids → OneOf a bids → P a
All-OneOf P [] a h o = absurd o
All-OneOf P (b ∷ bids) a (p, h) (inl e) = subst P (sym e) p
All-OneOf P (b ∷ bids) a (p, h) (inr o) = All-OneOf P bids a h o

-- What assigning `task_id` to the winner among `pending` has made of `w`.
pub record Assigned (task_id : String) (task : Task) (pending : List Bid) (winner : Bid)
    (w w' : World) : Type 0 where
  pub assigned : find_task task_id w' ≡ some (as_assigned task)
  pub other_tasks : (id : String) → task_id ≢ id → find_task id w' ≡ find_task id w
  pub won : find bid_key winner.id w'.bids ≡ some (as_selected winner)
  pub losers :
      All (λ (b : Bid). b.id ≢ winner.id → find bid_key b.id w'.bids ≡ some (as_rejected b)) pending
  pub other_bids :
      (id : String)
      → All (λ (b : Bid). b.id ≢ id) pending
      → find bid_key id w'.bids ≡ find bid_key id w.bids
  pub rest : w' ≡ record w { tasks = w'.tasks; bids = w'.bids }

module _ (task_id : String) (w : World) where
  -- A refused selection changes nothing.
  pub select_winner_refused :
      (e : AuctionError) (w' : World) → select_winner task_id w ≡ (refused e, w') → w' ≡ w
  unfolding select_winner assign
  select_winner_refused e w' h = ground arith

  pub select_winner-assign :
      (task : Task) (first : Bid) (others : List Bid)
      → find_task task_id w ≡ some task
      → task.status ≡ TaskStatus.opened
      → pending_bids task_id w ≡ first ∷ others
      → select_winner task_id w ≡ assign task first others w
  unfolding select_winner
  select_winner-assign task first others found is_open bids = ground arith

  IsKeyed-pending :
      {first : Bid} {others : List Bid}
      → pending_bids task_id w ≡ first ∷ others
      → IsKeyed bid_key w.bids
      → IsKeyed bid_key (first ∷ others)
  IsKeyed-pending bids keyed =
      subst (IsKeyed bid_key) bids (IsKeyed-keep bid_key _ _ (IsKeyed-keep bid_key _ _ keyed))

  assign-Assigned :
      (task : Task) (first : Bid) (others : List Bid)
      → find_task task_id w ≡ some task
      → IsKeyed bid_key (first ∷ others)
      → let winner = lowest first others in
        let (selection, w') = assign task first others w in
        (selection ≡ selected (as_assigned task) (as_selected winner))
        × Assigned task_id task (first ∷ others) winner w w'
  unfolding assign
  assign-Assigned task first others found keyed =
      let winner = lowest first others in
      let w1 = save_bid (as_selected winner) (save_task (as_assigned task) w) in
      let same = reject_others_rest winner (first ∷ others) w1 in
      let tasks : (assign task first others w).1.tasks ≡ w1.tasks =
        ap (λ (v : World). v.tasks) same in
      (
        refl,
        record {
          assigned = ap (find task_key task_id) tasks ∙ find_saved task task_id w found;
          other_tasks =
              λ id ne. ap (find task_key id) tasks ∙ find_other task task_id id w found ne;
          won =
              find-reject_others_winner winner (first ∷ others) w1
              ∙ find-upsert_self (as_selected winner) w.bids;
          losers = find-reject_others_loser winner (first ∷ others) w1 keyed;
          other_bids = λ id h.
              find-reject_others winner (first ∷ others) w1 id h
              ∙ find-upsert_other (as_selected winner) id w.bids (
                  All-OneOf (λ (b : Bid). b.id ≢ id) (first ∷ others) winner h
                    (lowest_least first others).0);
          rest =
              same
              ∙ ap
                  (λ (ts : List Task).
                    let r : World = record w {
                      tasks = ts;
                      bids = (assign task first others w).1.bids;
                    } in
                    r)
                  (sym tasks);
        },
      )

  -- Where the stored bids have different ids, an open task with pending bids is assigned: the
  -- task is ASSIGNED, the lowest pending bid is SELECTED, its other pending bids are REJECTED,
  -- and nothing else changes.
  pub select_winner-Assigned :
      (task : Task) (first : Bid) (others : List Bid)
      → find_task task_id w ≡ some task
      → task.status ≡ TaskStatus.opened
      → pending_bids task_id w ≡ first ∷ others
      → IsKeyed bid_key w.bids
      → let winner = lowest first others in
        let (selection, w') = select_winner task_id w in
        (selection ≡ selected (as_assigned task) (as_selected winner))
        × Assigned task_id task (first ∷ others) winner w w'
  select_winner-Assigned task first others found is_open bids keyed =
      rw (select_winner-assign task first others found is_open bids)
        (assign-Assigned task first others found (IsKeyed-pending bids keyed))
