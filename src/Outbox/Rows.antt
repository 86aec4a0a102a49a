-- ===== src/Outbox/Rows.antt =====
-- What marking an event does to the rows of the outbox.
use trust_gate.Prelude.{
  ℕ, ◌+◌, true, ◌≡◌, ◌≢◌, refl, ◌∙◌, String, some, List, arith, Option-cases, inl, inr, eq_iff,
}
use trust_gate.Table.{find, find-update_at}
use trust_gate.Outbox.{
  OutboxEvent, event_id, is_unprocessed, set_processed, mark_processed, mark_failed,
}

abbrev pub processed_at_time : ℕ → OutboxEvent → OutboxEvent
processed_at_time now e = record e { processed_at = some now }

abbrev pub failed_with : String → OutboxEvent → OutboxEvent
failed_with error e = record e { attempts = e.attempts + 1; last_error = some error }

id-set_processed : (now : ℕ) (e : OutboxEvent) → (set_processed now e).id ≡ e.id
id-set_processed now e = ground arith

module _ (id : String) (rows : List OutboxEvent) where
  pub find-mark_processed_other :
      (j : String) (now : ℕ)
      → j ≢ id
      → find event_id id (mark_processed j now rows) ≡ find event_id id rows
  unfolding mark_processed
  find-mark_processed_other j now ne =
      find-update_at event_id id j (set_processed now) rows (id-set_processed now)
      ∙ (elim (Option-cases (find event_id id rows)) [
        | inl e ↦ rw e refl
        | inr (r, e) ↦ rw e (ground (arith, eq_iff id j))
      ])

  pub find-mark_failed_other :
      (j error : String)
      → j ≢ id
      → find event_id id (mark_failed j error rows) ≡ find event_id id rows
  unfolding mark_failed
  find-mark_failed_other j error ne =
      find-update_at event_id id j (failed_with error) rows (λ e. refl)
      ∙ (elim (Option-cases (find event_id id rows)) [
        | inl e ↦ rw e refl
        | inr (r, e) ↦ rw e (ground (arith, eq_iff id j))
      ])

  pub find-mark_processed_self :
      (now : ℕ) (r : OutboxEvent)
      → find event_id id rows ≡ some r
      → is_unprocessed r ≡ true
      → find event_id id (mark_processed id now rows) ≡ some (processed_at_time now r)
  unfolding mark_processed
  find-mark_processed_self now r found h =
      find-update_at event_id id id (set_processed now) rows (id-set_processed now)
      ∙ rw found (ground (arith, eq_iff id id))

  pub find-mark_failed_self :
      (error : String) (r : OutboxEvent)
      → find event_id id rows ≡ some r
      → find event_id id (mark_failed id error rows) ≡ some (failed_with error r)
  unfolding mark_failed
  find-mark_failed_self error r found =
      find-update_at event_id id id (failed_with error) rows (λ e. refl)
      ∙ rw found (ground (arith, eq_iff id id))
