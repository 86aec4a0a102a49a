-- ===== src/Server/Columns.antt =====
-- migrations/0001_init.sql with src/repositories/taskRepository.ts and
-- src/repositories/bidRepository.ts: the rows that the tables make of a new task and a new bid.
use trust_gate.Prelude.{ℕ, ◌^◌, Bool, true, ◌&&◌, Option, none, some, ltb, if◌then◌else◌}
use trust_gate.Models.{Task, Bid}
use trust_gate.Server.{Env}

-- a bigint column
unfoldable pub fits_bigint : ℕ → Bool
fits_bigint n = ltb n (2 ^ 63)

module _ (env : Env) where
  -- The task as it is read back, or `none` where the database refuses it. The map in memory takes
  -- every task as it is.
  unfoldable pub task_row : Task → Option Task
  unfolding fits_bigint
  task_row task =
      if env.has_outbox
      then if fits_bigint task.reserve_price_stroops
          && (env.is_text task.requester_public_key && env.is_text task.description)
        then elim (env.timestamptz task.deadline) [
          | none ↦ none
          | some deadline ↦ some (record task { deadline = deadline })
        ]
        else none
      else some task

  -- Whether the table takes the bid, which is read back as it is.
  unfoldable pub takes_bid : Bid → Bool
  unfolding fits_bigint
  takes_bid bid =
      if env.has_outbox
      then fits_bigint bid.amount_stroops
        && (fits_bigint bid.collateral_stroops
            && (env.is_text bid.executor_public_key && env.is_text bid.escrow_id))
      else true
