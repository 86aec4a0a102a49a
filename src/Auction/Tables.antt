-- ===== src/Auction/Tables.antt =====
-- What an auction does to the table of tasks.
use trust_gate.Prelude.{
  ◌⊎◌, true, Option-cases, List-cases, Bool-cases, String, ◌≡◌, refl, ap, ◌∙◌, some, List, ◌∷◌,
  arith, inl, inr,
}
use trust_gate.Models.{Task, Bid, TaskStatus, is_opened}
use trust_gate.Table.{upsert}
use trust_gate.Server.{World, task_key, find_task, save_task, save_bid}
use trust_gate.Auction.{Selection, lowest, pending_bids, assign, select_winner}
use trust_gate.Auction.Effect.{as_selected, as_assigned, reject_others_rest, select_winner-assign}

opened_of : (s : TaskStatus) → is_opened s ≡ true → s ≡ TaskStatus.opened
opened_of s h = ground arith

assign_tasks :
    (task : Task) (first : Bid) (others : List Bid) (w : World)
    → (assign task first others w).1.tasks ≡ upsert task_key (as_assigned task) w.tasks
unfolding assign
assign_tasks task first others w =
    let winner = lowest first others in
    ap (λ (v : World). v.tasks)
      (reject_others_rest winner (first ∷ others)
        (save_bid (as_selected winner) (save_task (as_assigned task) w)))

assign_calls :
    (task : Task) (first : Bid) (others : List Bid) (w : World)
    → (assign task first others w).1.escrow_calls ≡ w.escrow_calls
unfolding assign
assign_calls task first others w =
    let winner = lowest first others in
    ap (λ (v : World). v.escrow_calls)
      (reject_others_rest winner (first ∷ others)
        (save_bid (as_selected winner) (save_task (as_assigned task) w)))

-- An auction asks nothing of the escrow provider.
pub select_winner_calls :
    (task_id : String) (w : World) → (select_winner task_id w).1.escrow_calls ≡ w.escrow_calls
unfolding select_winner
select_winner_calls task_id w = elim (Option-cases (find_task task_id w)) [
  | inl e ↦ rw (e, select_winner) refl
  | inr (task, found) ↦ elim (Bool-cases (is_opened task.status)) [
    | inr n ↦ rw (found, n, select_winner) refl
    | inl y ↦ elim (List-cases (pending_bids task_id w)) [
      | inl e ↦ rw (found, y, e, select_winner) refl
      | inr (first, others, e) ↦ rw (found, y, e, select_winner) (assign_calls task first others w)
    ]
  ]
]

module _ (task_id : String) (w : World) where
  -- the task table behind `selectWinner`
  pub select_winner_tasks :
      ((select_winner task_id w).1 ≡ w)
      ⊎ ((task : Task) × (first : Bid) × (others : List Bid) × (find_task task_id w ≡ some task)
          × (task.status ≡ TaskStatus.opened)
          × (pending_bids task_id w ≡ first ∷ others)
          × ((select_winner task_id w).1.tasks ≡ upsert task_key (as_assigned task) w.tasks))
  unfolding select_winner
  select_winner_tasks = elim (Option-cases (find_task task_id w)) [
    | inl e ↦ inl (rw (e, select_winner) refl)
    | inr (task, found) ↦ elim (Bool-cases (is_opened task.status)) [
      | inr n ↦ inl (rw (found, n, select_winner) refl)
      | inl y ↦ elim (List-cases (pending_bids task_id w)) [
        | inl e ↦ inl (rw (found, y, e, select_winner) refl)
        | inr (first, others, e) ↦
            let is_open = opened_of task.status y in
            inr (
              task,
              first,
              others,
              found,
              is_open,
              e,
              ap (λ (r : Selection × World). r.1.tasks)
                    (select_winner-assign task_id w task first others found is_open e)
                  ∙ assign_tasks task first others w,
            )
      ]
    ]
  ]
