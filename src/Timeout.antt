-- ===== src/Timeout.antt =====
-- src/services/timeoutService.ts: the punishment of abandoned tasks.
pub mod Expiry
pub mod Tables
mod Tests
use trust_gate.Prelude.{
  ℕ, Bool, true, false, ◌&&◌, String, Option, none, some, List, [], ◌∷◌, ltb, keep, if◌then◌else◌,
}
use trust_gate.Money.{pos, format_usdc_stroops_to_decimal}
use trust_gate.Models.{Task, Bid, TaskStatus, is_assigned, Payload}
use trust_gate.Server.{World, Env, EscrowCall, save_task, selected_bid, emit, log_call}

module _ (env : Env) where
  -- `new Date(deadline).getTime() < now`, which NaN fails
  pub is_past : Option ℕ → ℕ → Bool
  is_past none now = false
  is_past (some t) now = ltb t now

  pub is_abandoned : ℕ → Task → Bool
  unfolding is_past
  is_abandoned now task = is_assigned task.status && is_past (env.date_parse task.deadline) now

  pub emit_expired : Task → World → World
  emit_expired task w =
      if env.has_outbox
      then emit env "task_expired" "task" task.id (Payload.task_expired task.id) w
      else w

  pub expire : Task → World → World
  unfolding emit_expired
  expire task w =
      let updated_task : Task = record task { status = TaskStatus.expired } in
      emit_expired updated_task (save_task updated_task w)

  -- one task: whether it has expired, and the state behind it
  pub punish : Task → World → Bool × World
  unfolding expire
  punish task w = elim (selected_bid task.id w) [
    | none ↦ (false, w)
    | some winning_bid ↦
        let collateral = format_usdc_stroops_to_decimal (pos winning_bid.collateral_stroops) in
        let called = log_call (EscrowCall.confiscate winning_bid.escrow_id collateral) w in
        elim (env.confiscate_answer w.escrow_calls winning_bid.escrow_id collateral) [
          | none ↦ (true, expire task called)
          | some message ↦ (false, called)
        ]
  ]

  -- the loop, with the ids that it pushes
  pub punish_all : List Task → World → List String × World
  punish_all [] w = ([], w)
  punish_all (task ∷ tasks) w =
      let (expired, w1) = punish task w in
      let (ids, w2) = punish_all tasks w1 in (if expired then task.id ∷ ids else ids, w2)

  pub run_once : World → List String × World
  unfolding is_abandoned
  run_once w = punish_all (keep (is_abandoned w.now) w.tasks) w
