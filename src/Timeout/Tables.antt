-- ===== src/Timeout/Tables.antt =====
-- What a run of the timeout service does to the tables of tasks and bids.
use trust_gate.Prelude.{
  ℕ, true, ◌≡◌, ◌≢◌, refl, inl, inr, some, List, [], ◌∷◌, All, arith, eq_iff, Bool-cases,
  Option-cases,
}
use trust_gate.Models.{Task, TaskStatus, is_assigned}
use trust_gate.Money.{pos, format_usdc_stroops_to_decimal}
use trust_gate.Table.{upsert, IsKeyed, IsKeyed-keep, keep-found}
use trust_gate.Server.{SameTables, World, Env, selected_bid, emit, log_call, find_task, task_key}
use trust_gate.Timeout.{is_abandoned, emit_expired, expire, punish, punish_all, run_once}
use trust_gate.Timeout.Expiry.{as_expired, punished_tasks, find-punish}

-- Assigned tasks expire, one after another.
pub data Expires : World → World → Type 0 where
  stop : {w v : World} → SameTables w v → Expires w v
  after :
      {w u v : World} (task : Task)
      → find_task task.id w ≡ some task
      → task.status ≡ TaskStatus.assigned
      → u.tasks ≡ upsert task_key (as_expired task) w.tasks
      → u.bids ≡ w.bids
      → Expires u v
      → Expires w v
  skip : {w u v : World} → SameTables w u → Expires u v → Expires w v

assigned_of : (s : TaskStatus) → is_assigned s ≡ true → s ≡ TaskStatus.assigned
assigned_of s h = ground arith

module _ (env : Env) where
  expire_bids : (task : Task) (w : World) → (expire env task w).bids ≡ w.bids
  unfolding expire emit_expired emit
  expire_bids task w = elim (Bool-cases env.has_outbox) [ inl e ↦ rw e refl | inr e ↦ rw e refl ]

  punished_bids : (task : Task) (w : World) → (punish env task w).1.bids ≡ w.bids
  unfolding punish log_call
  punished_bids task w = elim (Option-cases (selected_bid task.id w)) [
    | inl e ↦ rw (e, punish) refl
    | inr (bid, e) ↦
        let answer =
          env.confiscate_answer w.escrow_calls bid.escrow_id
            (format_usdc_stroops_to_decimal (pos bid.collateral_stroops)) in
        elim (Option-cases answer) [
          | inl a ↦ rw (e, a, punish) (expire_bids task _)
          | inr (m, a) ↦ rw (e, a, punish) refl
        ]
  ]

  -- Stored, and assigned.
  abbrev Waits : World → Task → Type 0
  Waits w t = (find_task t.id w ≡ some t) × (t.status ≡ TaskStatus.assigned)

  Waits-on :
      (task : Task) (w : World) (tasks : List Task)
      → All (λ (t : Task). t.id ≢ task.id) tasks
      → All (Waits w) tasks
      → All (Waits (punish env task w).1) tasks
  Waits-on task w [] ne h = tt
  Waits-on task w (t ∷ tasks) (here, ne) ((found, is_assigned), h) = (
    (ground (arith, find-punish env task w t.id, eq_iff task.id t.id), is_assigned),
    Waits-on task w tasks ne h,
  )

  punish_all-Expires :
      (tasks : List Task) (w : World)
      → IsKeyed task_key tasks
      → All (Waits w) tasks
      → Expires w (punish_all env tasks w).1
  unfolding punish_all
  punish_all-Expires [] w keyed h = stop (refl, refl)
  punish_all-Expires (task ∷ tasks) w (ne, keyed) ((found, waiting), h) =
      let rest =
        punish_all-Expires tasks (punish env task w).1 keyed (Waits-on task w tasks ne h) in
      let bids = punished_bids task w in
      let same = punished_tasks env task w in
      elim (Bool-cases (punish env task w).0) [
        | inl e ↦ after task found waiting (rw e at same) bids rest
        | inr e ↦ skip (rw e at same, bids) rest
      ]

  waiting :
      (now : ℕ) (tasks : List Task) (w : World)
      → All (λ (t : Task). (find_task t.id w ≡ some t) × (is_abandoned env now t ≡ true)) tasks
      → All (Waits w) tasks
  unfolding is_abandoned
  waiting now [] w h = tt
  waiting now (t ∷ tasks) w ((found, abandoned), h) =
      ((found, assigned_of t.status (ground arith)), waiting now tasks w h)

  -- Where the tasks have different ids, a run does nothing but let assigned tasks expire.
  pub run_once-Expires : (w : World) → IsKeyed task_key w.tasks → Expires w (run_once env w).1
  unfolding run_once
  run_once-Expires w keyed =
      punish_all-Expires _ w (IsKeyed-keep task_key (is_abandoned env w.now) w.tasks keyed)
        (waiting w.now _ w (keep-found task_key (is_abandoned env w.now) w.tasks keyed))
