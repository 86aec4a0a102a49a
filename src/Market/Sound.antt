-- ===== src/Market/Sound.antt =====
-- Sound tables: every task that is past OPEN has one bid that was selected for it, and a task that
-- is OPEN has none.
use trust_gate.Prelude.{
  String, ◌≡◌, ◌≢◌, none, some, List, [], arith, eq_iff, ◌==◌, Bool-cases, inl, inr,
}
use trust_gate.Models.{Task, Bid, TaskStatus, BidStatus}
use trust_gate.Table.{find, upsert, find-upsert, IsKeyed, IsKeyed-upsert}
use trust_gate.Server.{task_key, bid_key}
use trust_gate.Market.{Forward, requests, completes, expires, releases, with_status}

-- The bid is stored, and was selected for the task of the id.
abbrev pub IsWinner : List Bid → String → Bid → Type 0
IsWinner bids id b =
    (find bid_key b.id bids ≡ some b) × (b.task_id ≡ id) × (b.status ≡ BidStatus.selected)

-- A task of the id is stored, and is past OPEN.
abbrev pub IsPast : List Task → String → Type 0
IsPast tasks id = (t : Task) × (find task_key id tasks ≡ some t) × (t.status ≢ TaskStatus.opened)

pub record IsSound (tasks : List Task) (bids : List Bid) : Type 0 where
  pub tasks_keyed : IsKeyed task_key tasks
  pub bids_keyed : IsKeyed bid_key bids
  pub past_won : (id : String) → IsPast tasks id → (b : Bid) × IsWinner bids id b
  pub won_past : (id : String) (b : Bid) → IsWinner bids id b → IsPast tasks id
  pub won_once : (id : String) (b c : Bid) → IsWinner bids id b → IsWinner bids id c → b.id ≡ c.id

pub empty-IsSound : IsSound [] []
unfolding find
empty-IsSound = record {
  tasks_keyed = tt;
  bids_keyed = tt;
  past_won = λ id (t, found, ne). absurd cc;
  won_past = λ id b (found, named, won). absurd cc;
  won_once = λ id b c (found, named, won) k. absurd cc;
}

Forward-past :
    {s s' : TaskStatus} → Forward s s' → (s ≢ TaskStatus.opened) × (s' ≢ TaskStatus.opened)
Forward-past requests = (λ e. cc, λ e. cc)
Forward-past completes = (λ e. cc, λ e. cc)
Forward-past expires = (λ e. cc, λ e. cc)
Forward-past releases = (λ e. cc, λ e. cc)

module _ (tasks : List Task) (bids : List Bid) (sound : IsSound tasks bids) where
  -- The tasks that are past OPEN are what the invariant reads of the table of tasks.
  retask :
      (tasks' : List Task)
      → IsKeyed task_key tasks'
      → ((id : String) → IsPast tasks' id → IsPast tasks id)
      → ((id : String) → IsPast tasks id → IsPast tasks' id)
      → IsSound tasks' bids
  retask tasks' keyed back forth = record {
    tasks_keyed = keyed;
    bids_keyed = sound.bids_keyed;
    past_won = λ id h. sound.past_won id (back id h);
    won_past = λ id b h. forth id (sound.won_past id b h);
    won_once = sound.won_once;
  }

  opened_back :
      (t : Task) (id : String)
      → t.status ≡ TaskStatus.opened
      → IsPast (upsert task_key t tasks) id
      → IsPast tasks id
  opened_back t id is_open (u, found, ne) =
      (u, ground (arith, find-upsert task_key id t tasks, eq_iff t.id id), ne)

  opened_forth :
      (t : Task) (id : String)
      → find task_key t.id tasks ≡ none
      → IsPast tasks id
      → IsPast (upsert task_key t tasks) id
  opened_forth t id fresh (u, found, ne) =
      (u, ground (arith, find-upsert task_key id t tasks, eq_iff t.id id), ne)

  pub opened-IsSound :
      (t : Task)
      → find task_key t.id tasks ≡ none
      → t.status ≡ TaskStatus.opened
      → IsSound (upsert task_key t tasks) bids
  opened-IsSound t fresh is_open =
      retask (upsert task_key t tasks) (IsKeyed-upsert task_key t tasks sound.tasks_keyed)
        (λ id h. opened_back t id is_open h) (λ id h. opened_forth t id fresh h)

  moved_back :
      (t : Task) (s : TaskStatus) (id : String)
      → find task_key t.id tasks ≡ some t
      → Forward t.status s
      → IsPast (upsert task_key (with_status s t) tasks) id
      → IsPast tasks id
  moved_back t s id there f (u, found, ne) = elim (Bool-cases (t.id == id)) [
    | inl same ↦ (t, ground (arith, eq_iff t.id id), (Forward-past f).0)
    | inr differs ↦ (u, ground (arith, find-upsert task_key id (with_status s t) tasks), ne)
  ]

  moved_forth :
      (t : Task) (s : TaskStatus) (id : String)
      → Forward t.status s
      → IsPast tasks id
      → IsPast (upsert task_key (with_status s t) tasks) id
  moved_forth t s id f (u, found, ne) = elim (Bool-cases (t.id == id)) [
    | inl same ↦ (
      with_status s t,
      ground (arith, find-upsert task_key id (with_status s t) tasks),
      (Forward-past f).1,
    )
    | inr differs ↦ (u, ground (arith, find-upsert task_key id (with_status s t) tasks), ne)
  ]

  pub moved-IsSound :
      (t : Task) (s : TaskStatus)
      → find task_key t.id tasks ≡ some t
      → Forward t.status s
      → IsSound (upsert task_key (with_status s t) tasks) bids
  moved-IsSound t s there f =
      retask (upsert task_key (with_status s t) tasks)
        (IsKeyed-upsert task_key (with_status s t) tasks sound.tasks_keyed)
        (λ id h. moved_back t s id there f h) (λ id h. moved_forth t s id f h)

  placed_back :
      (b : Bid) (id : String) (c : Bid)
      → b.status ≡ BidStatus.pending
      → IsWinner (upsert bid_key b bids) id c
      → IsWinner bids id c
  placed_back b id c pending (found, named, won) =
      (ground (arith, find-upsert bid_key c.id b bids, eq_iff b.id c.id), named, won)

  placed_forth :
      (b : Bid) (id : String) (c : Bid)
      → find bid_key b.id bids ≡ none
      → IsWinner bids id c
      → IsWinner (upsert bid_key b bids) id c
  placed_forth b id c fresh (found, named, won) =
      (ground (arith, find-upsert bid_key c.id b bids, eq_iff b.id c.id), named, won)

  pub placed-IsSound :
      (b : Bid)
      → find bid_key b.id bids ≡ none
      → b.status ≡ BidStatus.pending
      → IsSound tasks (upsert bid_key b bids)
  placed-IsSound b fresh pending = record {
    tasks_keyed = sound.tasks_keyed;
    bids_keyed = IsKeyed-upsert bid_key b bids sound.bids_keyed;
    past_won = λ id h. let (c, k) = sound.past_won id h in (c, placed_forth b id c fresh k);
    won_past = λ id c h. sound.won_past id c (placed_back b id c pending h);
    won_once = λ id c d h k.
        sound.won_once id c d (placed_back b id c pending h) (placed_back b id d pending k);
  }
