-- ===== src/Timeout/Expiry.antt =====
-- Which tasks a run of the timeout service expires.
use trust_gate.Prelude.{
  ℕ, ◌≤◌, ◌⊎◌, true, false, ◌&&◌, ◌≡◌, ◌≢◌, refl, ap, ◌∙◌, inl, inr, String, some, List, [], ◌∷◌,
  All, arith, if◌then◌else◌, Bool-cases, Option-cases, eq_iff, ◌==◌,
}
use trust_gate.Models.{Task, TaskStatus}
use trust_gate.Money.{pos, format_usdc_stroops_to_decimal}
use trust_gate.Table.{IsKeyed, keep-drops, upsert, find, find-upsert}
use trust_gate.Server.{World, Env, selected_bid, emit, log_call, find_task, task_key}
use trust_gate.Timeout.{is_past, is_abandoned, emit_expired, expire, punish, punish_all, run_once}

abbrev pub as_expired : Task → Task
as_expired t = record t { status = TaskStatus.expired }

module _ (env : Env) (task : Task) where
  expire_tasks : (w : World) → (expire env task w).tasks ≡ upsert task_key (as_expired task) w.tasks
  unfolding expire emit_expired emit
  expire_tasks w = elim (Bool-cases env.has_outbox) [ inl e ↦ rw e refl | inr e ↦ rw e refl ]

  expire_calls : (w : World) → (expire env task w).escrow_calls ≡ w.escrow_calls
  unfolding expire emit_expired emit
  expire_calls w = elim (Bool-cases env.has_outbox) [ inl e ↦ rw e refl | inr e ↦ rw e refl ]

  pub punished_tasks :
      (w : World)
      → (punish env task w).1.tasks
        ≡ (if (punish env task w).0 then upsert task_key (as_expired task) w.tasks else w.tasks)
  unfolding punish log_call
  punished_tasks w = elim (Option-cases (selected_bid task.id w)) [
    | inl e ↦ rw (e, punish) refl
    | inr (bid, e) ↦
        let answer =
          env.confiscate_answer w.escrow_calls bid.escrow_id
            (format_usdc_stroops_to_decimal (pos bid.collateral_stroops)) in
        elim (Option-cases answer) [
          | inl a ↦ rw (e, a, punish) (expire_tasks _)
          | inr (m, a) ↦ rw (e, a, punish) refl
        ]
  ]

  -- what has become of a task after one round
  pub find-punish :
      (w : World) (id : String)
      → find_task id (punish env task w).1 ≡ (
          if (punish env task w).0
          then (if task.id == id then some (as_expired task) else find_task id w)
          else find_task id w)
  find-punish w id = elim (Bool-cases (punish env task w).0) [
    | inl e ↦
        let same = ap (find task_key id) (punished_tasks w) in
        same ∙ rw e (find-upsert task_key id (as_expired task) w.tasks)
    | inr e ↦ let same = ap (find task_key id) (punished_tasks w) in same ∙ rw e refl
  ]

-- The task of an id is stored as EXPIRED.
abbrev pub IsExpired : World → String → Type 0
IsExpired w id = (t : Task) × (find_task id w ≡ some t) × (t.status ≡ TaskStatus.expired)

module _ (env : Env) where
  IsExpired-punish :
      (task : Task) (w : World) (id : String) → IsExpired w id → IsExpired (punish env task w).1 id
  IsExpired-punish task w id (t, found, e) =
      elim (Bool-cases ((punish env task w).0 && (task.id == id))) [
        | inl b ↦ (as_expired task, ground (arith, find-punish env task w id), refl)
        | inr b ↦ (t, ground (arith, find-punish env task w id), e)
      ]

  punish-IsExpired :
      (task : Task) (w : World)
      → (punish env task w).0 ≡ true
      → IsExpired (punish env task w).1 task.id
  punish-IsExpired task w h = (
    as_expired task,
    ground (arith, find-punish env task w task.id, eq_iff task.id task.id),
    refl,
  )

  punish_all-keeps :
      (tasks : List Task) (w : World) (id : String)
      → IsExpired w id
      → IsExpired (punish_all env tasks w).1 id
  unfolding punish_all
  punish_all-keeps [] w id h = h
  punish_all-keeps (task ∷ tasks) w id h =
      punish_all-keeps tasks _ id (IsExpired-punish task w id h)

  punish_all-IsExpired :
      (tasks : List Task) (w : World)
      → let (ids, w') = punish_all env tasks w in All (IsExpired w') ids
  unfolding punish_all
  punish_all-IsExpired [] w = tt
  punish_all-IsExpired (task ∷ tasks) w = elim (Bool-cases (punish env task w).0) [
    | inl e ↦
        rw e (
          punish_all-keeps tasks _ task.id (punish-IsExpired task w e),
          punish_all-IsExpired tasks _,
        )
    | inr e ↦ rw e (punish_all-IsExpired tasks _)
  ]

  punish_all-others :
      (tasks : List Task) (w : World) (id : String)
      → All (λ (t : Task). t.id ≢ id) tasks
      → find_task id (punish_all env tasks w).1 ≡ find_task id w
  unfolding punish_all
  punish_all-others [] w id h = refl
  punish_all-others (task ∷ tasks) w id (ne, h) =
      punish_all-others tasks _ id h ∙ ground (arith, find-punish env task w id, eq_iff task.id id)

  -- Every task that a run reports as expired is stored as EXPIRED when the run ends.
  pub run_once-IsExpired : (w : World) → let (ids, w') = run_once env w in All (IsExpired w') ids
  unfolding run_once
  run_once-IsExpired w = punish_all-IsExpired _ w

  not_abandoned :
      (now : ℕ) (t : Task)
      → (t.status ≢ TaskStatus.assigned) ⊎ ((d : ℕ) → env.date_parse t.deadline ≡ some d → now ≤ d)
      → is_abandoned env now t ≡ false
  unfolding is_abandoned is_past
  not_abandoned now t (inl ne) = ground arith
  not_abandoned now t (inr later) = elim (Option-cases (env.date_parse t.deadline)) [
    | inl e ↦ ground arith
    | inr (d, e) ↦ let ahead = later d e in ground arith
  ]

  -- Where the tasks have different ids, a task that is not ASSIGNED, or that has no date of a
  -- deadline before now, is left as it is.
  pub run_once-keeps :
      (w : World) (id : String) (t : Task)
      → IsKeyed task_key w.tasks
      → find_task id w ≡ some t
      → (t.status ≢ TaskStatus.assigned)
        ⊎ ((d : ℕ) → env.date_parse t.deadline ≡ some d → w.now ≤ d)
      → find_task id (run_once env w).1 ≡ some t
  unfolding run_once
  run_once-keeps w id t keyed found h =
      punish_all-others _ w id (
        keep-drops task_key (is_abandoned env w.now) id w.tasks t keyed found
          (not_abandoned w.now t h))
      ∙ found
