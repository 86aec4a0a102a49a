-- ===== src/Bids/Tables.antt =====
-- What `POST /bids` does to the tables of tasks and bids.
use trust_gate.Prelude.{◌≡◌, refl, ap, ◌∙◌, ◌⊎◌, inl, inr, Bool-cases}
use trust_gate.Models.{Bid, BidStatus}
use trust_gate.Table.{upsert}
use trust_gate.Schema.{RequestBody}
use trust_gate.Server.{draw_uuid, SameTables, World, Env, Result-cases, bid_key, log_call}
use trust_gate.Server.Action.{Flow-cases}
use trust_gate.Auction.{select_winner}
use trust_gate.Server.Columns.{takes_bid}
use trust_gate.Bids.{admit, escrow_call, new_bid, create}
use trust_gate.Bids.Placement.{
  placed, create_refused, create_unlocked, create_locked, announced, announced_tasks,
  announced_bids, place-announced,
}

module _ (env : Env) where
  -- a bid is placed under the next UUID, and an auction is held
  abbrev pub Places : World → World → Type 0
  Places w v =
      SameTables w v
      ⊎ ((bid : Bid) × (u : World) × (bid.id ≡ env.uuid w.uuids)
          × (bid.status ≡ BidStatus.pending)
          × (u.tasks ≡ w.tasks)
          × (u.bids ≡ upsert bid_key bid w.bids)
          × (v ≡ (select_winner bid.task_id u).1))

  placed-Places :
      (bid : Bid) (w w1 : World)
      → bid.id ≡ env.uuid w.uuids
      → bid.status ≡ BidStatus.pending
      → SameTables w w1
      → Places w (placed env bid w1 (takes_bid env bid)).1
  placed-Places bid w w1 id is_new (tasks, bids) = elim (Bool-cases (takes_bid env bid)) [
    | inr e ↦ rw e (inl (tasks, bids))
    | inl e ↦
        let v = draw_uuid w1 in
        rw e (
          inr (
            bid,
            announced env bid is_new v,
            id,
            is_new,
            announced_tasks env bid is_new v ∙ tasks,
            announced_bids env bid is_new v ∙ ap (upsert bid_key bid) bids,
            place-announced env bid is_new v,
          ))
  ]

  pub create-Places : (body : RequestBody) (w : World) → Places w (create env body w).1
  unfolding new_bid log_call
  create-Places body w = elim (Flow-cases (admit env body w).0) [
    | inl (r, h) ↦ rw (create_refused env body w r h) (inl (refl, refl))
    | inr (input, h) ↦
        elim (Result-cases (env.create_escrow_answer w.escrow_calls (escrow_call input))) [
          | inr (message, failed) ↦
              rw (create_unlocked env body w input message h failed) (inl (refl, refl))
          | inl (escrow_id, locked) ↦
              let (amount, collateral, _, _, _, _, same) =
                create_locked env body w input escrow_id h locked in
              let w1 = log_call (escrow_call input) w in
              let bid = new_bid env input escrow_id amount collateral w1 in
              rw same (placed-Places bid w w1 refl refl (refl, refl))
        ]
  ]
