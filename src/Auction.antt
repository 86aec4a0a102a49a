-- ===== src/Auction.antt =====
-- src/services/auctionService.ts: the choice of a winning bid.
pub mod Lowest
pub mod Effect
pub mod Tables
pub mod Keys
mod Tests
use trust_gate.Prelude.{
  ℕ, String, Bool, true, false, not, ◌&&◌, Option, none, some, List, [], ◌∷◌, ltb, ◌=?◌, keep, ◌==◌,
  if◌then◌else◌,
}
use trust_gate.Models.{Task, Bid, TaskStatus, BidStatus, is_opened, is_pending}
use trust_gate.Server.{World, find_task, save_task, save_bid, find_bids}

-- The errors that `selectWinner` throws.
pub data AuctionError : Type 0 where
  task_not_found : AuctionError
  task_not_open : TaskStatus → AuctionError
  no_bids : AuctionError

-- `SelectWinnerResult`, or the error.
pub data Selection : Type 0 where
  selected : (task : Task) → (winning_bid : Bid) → Selection
  refused : AuctionError → Selection

abbrev pub lower : Bid → Bid → Bid
lower lowest bid =
    if ltb bid.amount_stroops lowest.amount_stroops
    then bid
    else if (bid.amount_stroops =? lowest.amount_stroops) && ltb bid.created_at lowest.created_at
    then bid
    else lowest

-- `pendingBids.reduce(…)`, from its first bid
pub lowest : Bid → List Bid → Bid
lowest best [] = best
lowest best (bid ∷ bids) = lowest (lower best bid) bids

-- one round of `for (const bid of pendingBids)`
pub reject_other : Bid → Bid → World → World
reject_other winning_bid bid w =
    if not (bid.id == winning_bid.id)
    then save_bid (record bid { status = BidStatus.rejected }) w
    else w

pub reject_others : Bid → List Bid → World → World
reject_others winning_bid [] w = w
reject_others winning_bid (bid ∷ bids) w =
    reject_others winning_bid bids (reject_other winning_bid bid w)

abbrev pub pending_bids : String → World → List Bid
pending_bids task_id w = keep (λ (b : Bid). is_pending b.status) (find_bids task_id w)

-- the part of `selectWinner` behind its checks
pub assign : Task → Bid → List Bid → World → Selection × World
assign task first others w =
    let winning_bid = lowest first others in
    let updated_task = record task { status = TaskStatus.assigned } in
    let updated_winning_bid = record winning_bid { status = BidStatus.selected } in
    (
      selected updated_task updated_winning_bid,
      reject_others winning_bid (first ∷ others)
          (save_bid updated_winning_bid (save_task updated_task w)),
    )

unfoldable pub select_winner : String → World → Selection × World
select_winner task_id w = elim (find_task task_id w) [
  | none ↦ (refused task_not_found, w)
  | some task ↦
      if not (is_opened task.status)
      then (refused (task_not_open task.status), w)
      else (elim (pending_bids task_id w) [
        | [] ↦ (refused no_bids, w)
        | first ∷ others ↦ assign task first others w
      ])
]
