-- ===== src/Market/Runs.antt =====
-- What holds of the tables however the market runs.
use trust_gate.Prelude.{
  String, ◌≡◌, refl, sym, ap, ◌∙◌, inl, inr, Option, none, some, eq_iff, ◌==◌, Bool-cases,
}
use mathlib.Core.Path.{subst}
use trust_gate.Models.{Task, TaskStatus}
use trust_gate.Table.{find, upsert, find-upsert, key-find}
use trust_gate.Server.{World, task_key, find_task}
use trust_gate.Auction.Tables.{select_winner_tasks}
use trust_gate.Auction.Effect.{as_assigned}
use trust_gate.Market.{Forward, with_status, Change}
use trust_gate.Market.Sound.{IsSound, opened-IsSound, moved-IsSound, placed-IsSound}
use trust_gate.Market.Choosing.{select_winner-IsSound}

abbrev pub Sound : World → Type 0
Sound w = IsSound w.tasks w.bids

quiet-IsSound : (w v : World) → v.tasks ≡ w.tasks → v.bids ≡ w.bids → Sound w → Sound v
quiet-IsSound w v tasks bids sound = rw (tasks, bids) sound

pub Change-IsSound : {w v : World} → Change w v → Sound w → Sound v
Change-IsSound {w} {v} (Change.quiet tasks bids) sound = quiet-IsSound w v tasks bids sound
Change-IsSound {w} (Change.opened t fresh is_open) sound =
    opened-IsSound w.tasks w.bids sound t fresh is_open
Change-IsSound {w} (Change.moved t s found f) sound = moved-IsSound w.tasks w.bids sound t s found f
Change-IsSound {w} (Change.placed b fresh pending) sound =
    placed-IsSound w.tasks w.bids sound b fresh pending
Change-IsSound {w} (Change.chosen task_id) sound = select_winner-IsSound task_id w sound
Change-IsSound (Change.and_then h k) sound = Change-IsSound k (Change-IsSound h sound)

-- The life of a task: what its status may become, in any number of steps.
pub data Leads : Option TaskStatus → Option TaskStatus → Type 0 where
  stays : {s : Option TaskStatus} → Leads s s
  opens : Leads none (some TaskStatus.opened)
  assigns : Leads (some TaskStatus.opened) (some TaskStatus.assigned)
  goes : {s t : TaskStatus} → Forward s t → Leads (some s) (some t)
  in_turn : {s t u : Option TaskStatus} → Leads s t → Leads t u → Leads s u

-- the status under an id, if there is a task
unfoldable pub status_at : String → World → Option TaskStatus
status_at id w = elim (find_task id w) [ none ↦ none | some t ↦ some t.status ]

status_at-found :
    (id : String) (w : World) (t : Task) → find_task id w ≡ some t → status_at id w ≡ some t.status
unfolding status_at
status_at-found id w t h = rw (h, status_at) refl

status_at-missing : (id : String) (w : World) → find_task id w ≡ none → status_at id w ≡ none
unfolding status_at
status_at-missing id w h = rw (h, status_at) refl

same_status :
    (id : String) (w v : World)
    → find_task id v ≡ find_task id w
    → Leads (status_at id w) (status_at id v)
unfolding status_at
same_status id w v h = rw (h, status_at) stays

-- A task that is saved changes the status under its own id only.
saved-Leads :
    (t : Task) (id : String) (w v : World)
    → v.tasks ≡ upsert task_key t w.tasks
    → Leads (status_at t.id w) (some t.status)
    → Leads (status_at id w) (status_at id v)
saved-Leads t id w v saved h =
    let same = ap (find task_key id) saved ∙ find-upsert task_key id t w.tasks in
    elim (Bool-cases (t.id == id)) [
      | inl e ↦
          let here_now : find_task id v ≡ some t = same ∙ rw e refl in
          let own = (eq_iff t.id id).0 e in
          subst (Leads (status_at id w)) (sym (status_at-found id v t here_now))
            (subst (λ i. Leads (status_at i w) (some t.status)) own h)
      | inr e ↦ same_status id w v (same ∙ rw e refl)
    ]

found_by_id :
    (id : String) (w : World) (t : Task) → find_task id w ≡ some t → find_task t.id w ≡ some t
found_by_id id w t h = ap (λ i. find_task i w) (key-find task_key id w.tasks t h) ∙ h

pub Change-Leads :
    {w v : World} → Change w v → (id : String) → Leads (status_at id w) (status_at id v)
Change-Leads {w} {v} (Change.quiet tasks bids) id = same_status id w v (ap (find task_key id) tasks)
Change-Leads {w} {v} (Change.opened t fresh is_open) id = saved-Leads t id w v refl (
    subst (λ s. Leads s (some t.status)) (sym (status_at-missing t.id w fresh))
      (subst (λ s. Leads none (some s)) (sym is_open) opens))
Change-Leads {w} {v} (Change.moved t s found f) id =
    saved-Leads (with_status s t) id w v refl
      (subst (λ x. Leads x (some s)) (sym (status_at-found t.id w t found)) (goes f))
Change-Leads {w} {v} (Change.placed b fresh pending) id = same_status id w v refl
Change-Leads {w} {v} (Change.chosen task_id) id = elim (select_winner_tasks task_id w) [
  | inl same ↦ same_status id w v (ap (find_task id) same)
  | inr (task, first_bid, others, found, is_open, bids, tasks) ↦
      let own : find_task task.id w ≡ some task = found_by_id task_id w task found in
      let before = status_at-found task.id w task own ∙ ap some is_open in
      saved-Leads (as_assigned task) id w v tasks
        (subst (λ x. Leads x (some TaskStatus.assigned)) (sym before) assigns)
]
Change-Leads (Change.and_then h k) id = in_turn (Change-Leads h id) (Change-Leads k id)
