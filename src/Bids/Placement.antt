-- ===== src/Bids/Placement.antt =====
-- What `POST /bids` answers, and what it leaves behind.
use trust_gate.Prelude.{
  List-cases, Bool, true, false, Bool-cases, sym, inl, inr, keep, eq_iff, ◌==◌, ℕ, ◌<◌, String, ◌≡◌,
  ◌≢◌, refl, some, List, [], ◌∷◌, ◌++◌, arith, ap, ◌∙◌,
}
use trust_gate.Models.{Task, TaskStatus, Bid, BidStatus, is_pending, to_bid_dto}
use trust_gate.Table.{upsert, find, IsKeyed, IsKeyed-upsert}
use mathlib.Core.Path.{subst}
use trust_gate.Auction.{pending_bids, select_winner}
use trust_gate.Auction.Effect.{as_assigned, select_winner-Assigned}
use trust_gate.Auction.Tables.{select_winner_calls}
use trust_gate.Schema.{RequestBody, BidInput, stroops_of}
use trust_gate.Server.{
  draw_uuid, World, Env, ok, err, Result-cases, find_task, emit, log_call, task_key, bid_key,
  save_bid,
}
use trust_gate.Server.Action.{Body, Response, Flow, answered, next}
use trust_gate.Server.Columns.{takes_bid}
use trust_gate.Bids.{
  admit, escrow_call, lock_collateral, new_bid, emit_placed, place, store_bid, create,
}
use trust_gate.Bids.Admission.{admit-Admitted, admit_pure}

module _ (env : Env) where
  -- A refused request leaves the state as it is.
  pub create_refused :
      (body : RequestBody) (w : World) (r : Response)
      → (admit env body w).0 ≡ answered r
      → create env body w ≡ (answered r, w)
  unfolding create
  create_refused body w r h = ground (arith, admit_pure env body w)

  -- Where the escrow cannot be created, the answer is 502, and the state has gained nothing but
  -- the record of that call.
  pub create_unlocked :
      (body : RequestBody) (w : World) (input : BidInput) (message : String)
      → (admit env body w).0 ≡ next input
      → env.create_escrow_answer w.escrow_calls (escrow_call input) ≡ err message
      → create env body w ≡ (
        answered (record { status = 502; body = Body.error "escrow creation failed" }),
        log_call (escrow_call input) w,
      )
  unfolding create lock_collateral
  create_unlocked body w input message h failed = ground (arith, admit_pure env body w)

  -- how the request of a bid ends once its collateral is locked, by whether the database takes it
  abbrev pub placed : Bid → World → Bool → Flow (Unit {0}) × World
  placed bid w true = (
    answered (record { status = 201; body = Body.bid (to_bid_dto bid) }),
    place env bid (draw_uuid w),
  )
  placed bid w false =
      (answered (record { status = 500; body = Body.error "Internal Server Error" }), draw_uuid w)

  stored :
      (input : BidInput) (escrow_id : String) (amount collateral : ℕ) (w : World)
      → stroops_of input.amount ≡ some amount
      → stroops_of input.collateral ≡ some collateral
      → let bid = new_bid env input escrow_id amount collateral w in
        store_bid env input escrow_id w ≡ placed bid w (takes_bid env bid)
  unfolding store_bid
  stored input escrow_id amount collateral w a c =
      elim (Bool-cases (takes_bid env (new_bid env input escrow_id amount collateral w))) [
        | inl e ↦ rw e (ground arith)
        | inr e ↦ rw e (ground arith)
      ]

  create_store :
      (body : RequestBody) (w : World) (input : BidInput) (escrow_id : String)
      → (admit env body w).0 ≡ next input
      → env.create_escrow_answer w.escrow_calls (escrow_call input) ≡ ok escrow_id
      → create env body w ≡ store_bid env input escrow_id (log_call (escrow_call input) w)
  unfolding create lock_collateral
  create_store body w input escrow_id h locked = ground (arith, admit_pure env body w)

  pub create_locked :
      (body : RequestBody) (w : World) (input : BidInput) (escrow_id : String)
      → (admit env body w).0 ≡ next input
      → env.create_escrow_answer w.escrow_calls (escrow_call input) ≡ ok escrow_id
      → (amount collateral : ℕ) × (stroops_of input.amount ≡ some amount)
        × (0 < amount)
        × (stroops_of input.collateral ≡ some collateral)
        × (0 < collateral)
        × (let w1 = log_call (escrow_call input) w in
            let bid = new_bid env input escrow_id amount collateral w1 in
            create env body w ≡ placed bid w1 (takes_bid env bid))
  create_locked body w input escrow_id h locked =
      let valid = (admit-Admitted env body w input h).valid in
      let (amount, a, a_pos) = valid.amount in
      let (collateral, c, c_pos) = valid.collateral in
      (
        amount,
        collateral,
        a,
        a_pos,
        c,
        c_pos,
        create_store body w input escrow_id h locked
            ∙ stored input escrow_id amount collateral (log_call (escrow_call input) w) a c,
      )

-- A bid that has just been saved is among the pending ones.
module _ (bid : Bid) (is_new : bid.status ≡ BidStatus.pending) where
  pending_upsert :
      (bids : List Bid)
      → keep
          (λ (b : Bid). is_pending b.status)
          (keep (λ (b : Bid). b.task_id == bid.task_id) (upsert bid_key bid bids))
        ≢ []
  unfolding upsert
  pending_upsert [] h = ground (arith, eq_iff bid.task_id bid.task_id)
  pending_upsert (b ∷ bids) h = ground (arith, eq_iff bid.task_id bid.task_id, pending_upsert bids)

module _ (env : Env) (bid : Bid) (is_new : bid.status ≡ BidStatus.pending) where
  -- the state in which the auction of a new bid runs
  pub announced : World → World
  announced w = emit_placed env bid (save_bid bid w)

  pub announced_tasks : (w : World) → (announced w).tasks ≡ w.tasks
  unfolding announced emit_placed emit
  announced_tasks w = elim (Bool-cases env.has_outbox) [ inl e ↦ rw e refl | inr e ↦ rw e refl ]

  pub announced_bids : (w : World) → (announced w).bids ≡ upsert bid_key bid w.bids
  unfolding announced emit_placed emit
  announced_bids w = elim (Bool-cases env.has_outbox) [ inl e ↦ rw e refl | inr e ↦ rw e refl ]

  pub place-announced : (w : World) → place env bid w ≡ (select_winner bid.task_id (announced w)).1
  unfolding place announced
  place-announced w = refl

  announced_pending : (w : World) → pending_bids bid.task_id (announced w) ≢ []
  announced_pending w h = pending_upsert bid is_new w.bids (ap pending (sym (announced_bids w)) ∙ h)
    where
      pending : List Bid → List Bid
      pending bids =
          keep (λ (b : Bid). is_pending b.status)
            (keep (λ (b : Bid). b.task_id == bid.task_id) bids)

  place_assigns :
      (w : World) (t : Task)
      → find_task bid.task_id w ≡ some t
      → t.status ≡ TaskStatus.opened
      → IsKeyed bid_key w.bids
      → find_task bid.task_id (place env bid w) ≡ some (as_assigned t)
  unfolding place announced
  place_assigns w t found is_open keyed =
      elim (List-cases (pending_bids bid.task_id (announced w))) [
        | inl none_left ↦ absurd (announced_pending w none_left)
        | inr (first, others, e) ↦
            (select_winner-Assigned bid.task_id (announced w) t first others
              (ap (find task_key bid.task_id) (announced_tasks w) ∙ found) is_open e
              (subst (IsKeyed bid_key) (sym (announced_bids w))
                (IsKeyed-upsert bid_key bid w.bids keyed))).1.assigned
      ]

module _ (env : Env) where
  taken :
      (bid : Bid) (w : World) (r : Response)
      → (placed env bid w (takes_bid env bid)).0 ≡ answered r
      → r.status ≡ 201
      → takes_bid env bid ≡ true
  taken bid w r h created = elim (Bool-cases (takes_bid env bid)) [
    | inl e ↦ e
    | inr e ↦ absurd (ground arith)
  ]

  created_locked :
      (body : RequestBody) (w : World) (input : BidInput) (r : Response)
      → (admit env body w).0 ≡ next input
      → (create env body w).0 ≡ answered r
      → r.status ≡ 201
      → (escrow_id : String) × (env.create_escrow_answer w.escrow_calls (escrow_call input)
          ≡ ok escrow_id)
  created_locked body w input r h answer created =
      elim (Result-cases (env.create_escrow_answer w.escrow_calls (escrow_call input))) [
        | inl found ↦ found
        | inr (message, failed) ↦
            let same = create_unlocked env body w input message h failed in
            let status = ap (λ (u : Flow (Unit {0}) × World). u.0) same in absurd (ground arith)
      ]

  -- Where the stored bids have different ids, an admitted bid that is answered with 201 closes the
  -- auction at once: the task that was open is ASSIGNED when the handler returns.
  pub create_assigns :
      (body : RequestBody) (w : World) (input : BidInput) (r : Response)
      → (admit env body w).0 ≡ next input
      → (create env body w).0 ≡ answered r
      → r.status ≡ 201
      → IsKeyed bid_key w.bids
      → (t : Task) × (find_task input.task_id w ≡ some t)
        × (t.status ≡ TaskStatus.opened)
        × (find_task input.task_id (create env body w).1 ≡ some (as_assigned t))
  unfolding new_bid log_call
  create_assigns body w input r h answer created keyed =
      let (escrow_id, locked) = created_locked body w input r h answer created in
      let (t, found, is_open) = (admit-Admitted env body w input h).task in
      let (amount, collateral, _, _, _, _, same) =
        create_locked env body w input escrow_id h locked in
      let w1 = log_call (escrow_call input) w in
      let bid = new_bid env input escrow_id amount collateral w1 in
      (
        t,
        found,
        is_open,
        ap (λ (r : Flow (Unit {0}) × World). find_task input.task_id r.1)
              (same
                ∙ ap (placed env bid w1) (
                    taken bid w1 r (sym (ap (λ (u : Flow (Unit {0}) × World). u.0) same) ∙ answer)
                      created))
            ∙ place_assigns env bid refl (draw_uuid w1) t found is_open keyed,
      )

  placed_calls :
      (bid : Bid) (w : World)
      → (placed env bid w (takes_bid env bid)).1.escrow_calls ≡ w.escrow_calls
  unfolding place emit_placed emit
  placed_calls bid w = elim (Bool-cases (takes_bid env bid)) [
    | inr e ↦ rw e refl
    | inl e ↦ elim (Bool-cases env.has_outbox) [
      | inl o ↦ rw (e, select_winner_calls, o) refl
      | inr o ↦ rw (e, select_winner_calls, o) refl
    ]
  ]

  pub created_calls :
      (body : RequestBody) (w : World) (input : BidInput)
      → (admit env body w).0 ≡ next input
      → (create env body w).1.escrow_calls ≡ w.escrow_calls ++ escrow_call input ∷ []
  unfolding log_call
  created_calls body w input h =
      elim (Result-cases (env.create_escrow_answer w.escrow_calls (escrow_call input))) [
        | inr (message, failed) ↦
            ap (λ (r : Flow (Unit {0}) × World). r.1.escrow_calls)
              (create_unlocked env body w input message h failed)
        | inl (escrow_id, locked) ↦
            let (amount, collateral, _, _, _, _, same) =
              create_locked env body w input escrow_id h locked in
            let w1 = log_call (escrow_call input) w in
            ap (λ (r : Flow (Unit {0}) × World). r.1.escrow_calls) same
            ∙ placed_calls (new_bid env input escrow_id amount collateral w1) w1
      ]
