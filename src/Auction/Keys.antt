-- ===== src/Auction/Keys.antt =====
-- An auction keeps the ids of bids apart.
use trust_gate.Prelude.{String, List, [], ◌∷◌, ◌==◌, Bool-cases, Option-cases, List-cases, inl, inr}
use trust_gate.Models.{Task, Bid, is_opened}
use trust_gate.Table.{IsKeyed, IsKeyed-upsert}
use trust_gate.Server.{World, bid_key, find_task}
use trust_gate.Auction.{lowest, reject_other, reject_others, pending_bids, assign, select_winner}
use trust_gate.Auction.Effect.{as_rejected, as_selected}

IsKeyed-reject_other :
    (winner bid : Bid) (w : World)
    → IsKeyed bid_key w.bids
    → IsKeyed bid_key (reject_other winner bid w).bids
unfolding reject_other
IsKeyed-reject_other winner bid w h = elim (Bool-cases (bid.id == winner.id)) [
  | inl e ↦ rw (e, reject_other) h
  | inr e ↦ rw (e, reject_other) (IsKeyed-upsert bid_key (as_rejected bid) w.bids h)
]

IsKeyed-reject_others :
    (winner : Bid) (bids : List Bid) (w : World)
    → IsKeyed bid_key w.bids
    → IsKeyed bid_key (reject_others winner bids w).bids
unfolding reject_others
IsKeyed-reject_others winner [] w h = h
IsKeyed-reject_others winner (bid ∷ bids) w h =
    IsKeyed-reject_others winner bids (reject_other winner bid w)
      (IsKeyed-reject_other winner bid w h)

IsKeyed-assign :
    (task : Task) (first : Bid) (others : List Bid) (w : World)
    → IsKeyed bid_key w.bids
    → IsKeyed bid_key (assign task first others w).1.bids
unfolding assign
IsKeyed-assign task first others w h =
    let winner = lowest first others in
    IsKeyed-reject_others winner (first ∷ others) _
      (IsKeyed-upsert bid_key (as_selected winner) w.bids h)

pub IsKeyed-select_winner :
    (task_id : String) (w : World)
    → IsKeyed bid_key w.bids
    → IsKeyed bid_key (select_winner task_id w).1.bids
unfolding select_winner
IsKeyed-select_winner task_id w h = elim (Option-cases (find_task task_id w)) [
  | inl e ↦ rw (e, select_winner) h
  | inr (task, found) ↦ elim (Bool-cases (is_opened task.status)) [
    | inr n ↦ rw (found, n, select_winner) h
    | inl y ↦ elim (List-cases (pending_bids task_id w)) [
      | inl e ↦ rw (found, y, e, select_winner) h
      | inr (first, others, e) ↦
          rw (found, y, e, select_winner) (IsKeyed-assign task first others w h)
    ]
  ]
]
