-- ===== src/Market/Choosing.antt =====
-- An auction keeps the tables sound.
use mathlib.Core.Path.{subst}
use trust_gate.Prelude.{
  String, true, ◌≡◌, ◌≢◌, refl, sym, ap, ◌∙◌, some, List, [], ◌∷◌, All, All-keep_passes, arith,
  eq_iff, ◌==◌, Bool-cases, inl, inr, ◌⊎◌,
}
use trust_gate.Models.{Task, Bid, TaskStatus, BidStatus, is_pending}
use trust_gate.Table.{find, IsKeyed, IsKeyed-upsert, keep-found}
use trust_gate.Server.{World, find_task, task_key, bid_key, find_bids}
use trust_gate.Auction.{lowest, pending_bids, select_winner}
use trust_gate.Auction.Lowest.{OneOf, lowest_least}
use trust_gate.Auction.Tables.{select_winner_tasks}
use trust_gate.Auction.Effect.{
  as_rejected, as_selected, as_assigned, Assigned, select_winner-Assigned,
}
use trust_gate.Auction.Keys.{IsKeyed-select_winner}
use trust_gate.Market.Sound.{IsWinner, IsPast, IsSound}

-- A bid that may win: stored, for the task, and pending.
abbrev IsCandidate : World → String → Bid → Type 0
IsCandidate w task_id b =
    (find bid_key b.id w.bids ≡ some b) × (b.task_id ≡ task_id) × (b.status ≡ BidStatus.pending)

pending_of : (b : Bid) → is_pending b.status ≡ true → b.status ≡ BidStatus.pending
pending_of b h = ground arith

All-map : {P Q : Bid → Type 0} (bids : List Bid) → ((b : Bid) → P b → Q b) → All P bids → All Q bids
All-map [] f h = tt
All-map (b ∷ bids) f (p, h) = (f b p, All-map bids f h)

candidates :
    (task_id : String) (w : World)
    → IsKeyed bid_key w.bids
    → All (IsCandidate w task_id) (pending_bids task_id w)
candidates task_id w keyed =
    All-map (pending_bids task_id w)
      (λ b ((found, named), pending).
        (found, (eq_iff b.task_id task_id).0 named, pending_of b pending))
      (All-keep_passes
        (λ (b : Bid). (find bid_key b.id w.bids ≡ some b) × ((b.task_id == task_id) ≡ true))
        (λ (b : Bid). is_pending b.status) (find_bids task_id w)
        (keep-found bid_key (λ (b : Bid). b.task_id == task_id) w.bids keyed))

All-OneOf : (P : Bid → Type 0) (bids : List Bid) (a : Bid) → All P bids → OneOf a bids → P a
All-OneOf P [] a h o = absurd o
All-OneOf P (b ∷ bids) a (p, h) (inl e) = subst P (sym e) p
All-OneOf P (b ∷ bids) a (p, h) (inr o) = All-OneOf P bids a h o

-- Either no bid of a list has the id, or one has.
missing_or_there :
    (id : String) (bids : List Bid)
    → All (λ (b : Bid). b.id ≢ id) bids ⊎ ((b : Bid) × OneOf b bids × (b.id ≡ id))
missing_or_there id [] = inl tt
missing_or_there id (b ∷ bids) = elim (Bool-cases (b.id == id)) [
  | inl e ↦ inr (b, inl refl, (eq_iff b.id id).0 e)
  | inr n ↦ elim (missing_or_there id bids) [
    | inl h ↦ inl (λ (same : b.id ≡ id). ground (arith, eq_iff b.id id), h)
    | inr (c, o, e) ↦ inr (c, inr o, e)
  ]
]

module _ (task_id : String) (w w' : World) (task : Task) (first : Bid) (others : List Bid)
    (sound : IsSound w.tasks w.bids) (found : find_task task_id w ≡ some task)
    (is_open : task.status ≡ TaskStatus.opened) (bids : pending_bids task_id w ≡ first ∷ others)
    (effect : Assigned task_id task (first ∷ others) (lowest first others) w w') where
  winner : Bid
  winner = lowest first others

  All-candidates : All (IsCandidate w task_id) (first ∷ others)
  All-candidates = subst (All (IsCandidate w task_id)) bids (candidates task_id w sound.bids_keyed)

  winner-IsCandidate : IsCandidate w task_id (lowest first others)
  winner-IsCandidate =
      All-OneOf (IsCandidate w task_id) (first ∷ others) (lowest first others) All-candidates
        (lowest_least first others).0

  new-IsWinner : IsWinner w'.bids task_id (as_selected (lowest first others))
  new-IsWinner = let (_, named, _) = winner-IsCandidate in (effect.won, named, refl)

  -- A bid that had won before is no candidate, and stays.
  old_stays : (id : String) (c : Bid) → IsWinner w.bids id c → IsWinner w'.bids id c
  old_stays id c (there, named, won) = elim (missing_or_there c.id (first ∷ others)) [
    | inl missing ↦ (effect.other_bids c.id missing ∙ there, named, won)
    | inr (b, one, same) ↦
        let (stored, _, pending) =
          All-OneOf (IsCandidate w task_id) (first ∷ others) b All-candidates one in
        let stored_here : find bid_key c.id w.bids ≡ some b =
          ap (λ i. find bid_key i w.bids) (sym same) ∙ stored in
        absurd cc
  ]

  -- A bid that has won is the one that was chosen, or had won before.
  new_or_old :
      (id : String) (c : Bid)
      → IsWinner w'.bids id c
      → ((c ≡ as_selected (lowest first others)) × (id ≡ task_id)) ⊎ IsWinner w.bids id c
  new_or_old id c (there, named, won) = elim (missing_or_there c.id (first ∷ others)) [
    | inl missing ↦ inr (sym (effect.other_bids c.id missing) ∙ there, named, won)
    | inr (b, one, same) ↦ elim (Bool-cases (b.id == (lowest first others).id)) [
      | inl e ↦
          let same_id : c.id ≡ (lowest first others).id =
            sym same ∙ (eq_iff b.id (lowest first others).id).0 e in
          let stored = effect.won in
          let (_, named_winner, _) = winner-IsCandidate in
          let here : find bid_key c.id w'.bids ≡ some (as_selected (lowest first others)) =
            ap (λ i. find bid_key i w'.bids) same_id ∙ stored in
          let is_new : c ≡ as_selected (lowest first others) = cc in
          inl (is_new, sym named ∙ ap (λ (x : Bid). x.task_id) is_new ∙ named_winner)
      | inr n ↦
          let lost =
            All-OneOf
              (λ (x : Bid).
                x.id ≢ (lowest first others).id → find bid_key x.id w'.bids ≡ some (as_rejected x))
              (first ∷ others) b effect.losers one in
          let rejected = lost (λ (e : b.id ≡ (lowest first others).id).
            ground (arith, eq_iff b.id (lowest first others).id)) in
          let here : find bid_key c.id w'.bids ≡ some (as_rejected b) =
            ap (λ i. find bid_key i w'.bids) (sym same) ∙ rejected in
          let is_rejected : c ≡ as_rejected b = cc in
          let status : c.status ≡ BidStatus.rejected = ap (λ (x : Bid). x.status) is_rejected in
          absurd cc
    ]
  ]

  IsPast-forth : (id : String) → IsPast w.tasks id → IsPast w'.tasks id
  IsPast-forth id (t, there, ne) = elim (Bool-cases (task_id == id)) [
    | inl e ↦ absurd (
        let same = (eq_iff task_id id).0 e in
        let here : find task_key id w.tasks ≡ some task =
          ap (λ i. find task_key i w.tasks) (sym same) ∙ found in
        let equal : t ≡ task = cc in ne (ap (λ (x : Task). x.status) equal ∙ is_open))
    | inr n ↦ (
      t,
      effect.other_tasks id (λ (e : task_id ≡ id). ground (arith, eq_iff task_id id)) ∙ there,
      ne,
    )
  ]

  task-IsPast : IsPast w'.tasks task_id
  task-IsPast = (as_assigned task, effect.assigned, λ e. cc)

  -- the task that is open is not past it
  not_past : IsPast w.tasks task_id → ⊥
  not_past (t, there, ne) =
      let equal : t ≡ task = cc in ne (ap (λ (x : Task). x.status) equal ∙ is_open)

  chosen-IsSound : IsKeyed task_key w'.tasks → IsKeyed bid_key w'.bids → IsSound w'.tasks w'.bids
  chosen-IsSound tasks_keyed bids_keyed = record {
    tasks_keyed = tasks_keyed;
    bids_keyed = bids_keyed;
    past_won = λ id (t, there, ne). elim (Bool-cases (task_id == id)) [
      | inl e ↦ (
        as_selected (lowest first others),
        subst (λ i. IsWinner w'.bids i (as_selected (lowest first others)))
            ((eq_iff task_id id).0 e) new-IsWinner,
      )
      | inr n ↦
          let kept =
            effect.other_tasks id (λ (e : task_id ≡ id). ground (arith, eq_iff task_id id)) in
          let (b, won) = sound.past_won id (t, sym kept ∙ there, ne) in (b, old_stays id b won)
    ];
    won_past = λ id b won. elim (new_or_old id b won) [
      | inl (_, same) ↦ subst (IsPast w'.tasks) (sym same) task-IsPast
      | inr old ↦ IsPast-forth id (sound.won_past id b old)
    ];
    won_once = λ id b c h k. elim (new_or_old id b h) [
      | inl (new_b, here) ↦ elim (new_or_old id c k) [
        | inl (new_c, _) ↦ ap (λ (x : Bid). x.id) (new_b ∙ sym new_c)
        | inr old_c ↦ absurd (not_past (subst (IsPast w.tasks) here (sound.won_past id c old_c)))
      ]
      | inr old_b ↦ elim (new_or_old id c k) [
        | inl (_, here) ↦
            absurd (not_past (subst (IsPast w.tasks) here (sound.won_past id b old_b)))
        | inr old_c ↦ sound.won_once id b c old_b old_c
      ]
    ];
  }

-- Whatever `selectWinner` answers, it keeps the tables sound.
pub select_winner-IsSound :
    (task_id : String) (w : World)
    → IsSound w.tasks w.bids
    → let w' = (select_winner task_id w).1 in IsSound w'.tasks w'.bids
select_winner-IsSound task_id w sound = elim (select_winner_tasks task_id w) [
  | inl same ↦ rw same sound
  | inr (task, first, others, found, is_open, bids, tasks) ↦
      let w' = (select_winner task_id w).1 in
      let effect =
        (select_winner-Assigned task_id w task first others found is_open bids
          sound.bids_keyed).1 in
      chosen-IsSound task_id w w' task first others sound found is_open bids effect
        (subst (IsKeyed task_key) (sym tasks)
          (IsKeyed-upsert task_key (as_assigned task) w.tasks sound.tasks_keyed))
        (IsKeyed-select_winner task_id w sound.bids_keyed)
]
