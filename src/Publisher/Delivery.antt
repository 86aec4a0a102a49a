-- ===== src/Publisher/Delivery.antt =====
-- Which outbox rows are published, and which are kept for a later run.
use trust_gate.Prelude.{
  ℕ, Bool, true, false, ◌≡◌, ◌≢◌, refl, sym, ap, ◌∙◌, inl, inr, String, Option, none, some, List,
  [], ◌∷◌, ◌++◌, All-take, map, append_assoc, append-nil, All, keep, length, arith, if◌then◌else◌,
  Option-cases, Bool-cases,
}
use trust_gate.Table.{find, keep-found, IsKeyed, IsKeyed-keep, IsKeyed-take}
use trust_gate.Outbox.{
  OutboxEvent, event_id, is_unprocessed, list_unprocessed, mark_processed, mark_failed,
}
use trust_gate.Outbox.Rows.{
  processed_at_time, failed_with, find-mark_processed_other, find-mark_failed_other,
  find-mark_processed_self, find-mark_failed_self,
}
use trust_gate.Publisher.{Message, message, Queues, publish_event, publish_events, publish_once}

module _ (add_error : OutboxEvent → Option String) (now : ℕ) where
  -- the event goes to the stream
  abbrev pub is_added : OutboxEvent → Bool
  is_added event = elim (add_error event) [ none ↦ true | some _ ↦ false ]

  publish_event-stream :
      (event : OutboxEvent) (q : Queues)
      → (publish_event add_error now event q).stream
        ≡ (if is_added event then q.stream ++ message event ∷ [] else q.stream)
  unfolding publish_event
  publish_event-stream event q = ground arith

  publish_event-outbox :
      (event : OutboxEvent) (q : Queues)
      → (publish_event add_error now event q).outbox ≡ (elim (add_error event) [
        | none ↦ mark_processed event.id now q.outbox
        | some error ↦ mark_failed event.id error q.outbox
      ])
  unfolding publish_event
  publish_event-outbox event q = ground arith

  stream_added :
      (event : OutboxEvent) (q : Queues)
      → is_added event ≡ true
      → (publish_event add_error now event q).stream ≡ q.stream ++ message event ∷ []
  stream_added event q e = publish_event-stream event q ∙ rw e refl

  stream_not_added :
      (event : OutboxEvent) (q : Queues)
      → is_added event ≡ false
      → (publish_event add_error now event q).stream ≡ q.stream
  stream_not_added event q e = publish_event-stream event q ∙ rw e refl

  publish_events-stream :
      (events : List OutboxEvent) (q : Queues)
      → (publish_events add_error now events q).stream
        ≡ q.stream ++ map message (keep is_added events)
  unfolding publish_events
  publish_events-stream [] q = sym (append-nil _)
  publish_events-stream (event ∷ events) q = elim (Bool-cases (is_added event)) [
    | inl e ↦
        publish_events-stream events _
        ∙ ap (λ (s : List Message). s ++ map message (keep is_added events))
            (stream_added event q e)
        ∙ rw e (append_assoc q.stream (message event ∷ []) (map message (keep is_added events)))
    | inr e ↦
        publish_events-stream events _
        ∙ ap (λ (s : List Message). s ++ map message (keep is_added events))
            (stream_not_added event q e)
        ∙ rw e refl
  ]

  -- A run adds to the stream the messages of the unprocessed rows of its batch that Redis takes,
  -- once each and in the order of the outbox, and reports the size of the batch.
  publish_once-stream :
      (batch_size : ℕ) (q : Queues)
      → let events = list_unprocessed batch_size q.outbox in
        let (count, q') = publish_once add_error now batch_size q in
        (q'.stream ≡ q.stream ++ map message (keep is_added events))
        × (count ≡ length {A = OutboxEvent} events)
  unfolding publish_once
  publish_once-stream batch_size q = (publish_events-stream _ q, refl)

  -- the row of an event behind a round: processed, or with one failed attempt more
  abbrev pub settled : OutboxEvent → OutboxEvent
  settled event = elim (add_error event) [
    | none ↦ processed_at_time now event
    | some error ↦ failed_with error event
  ]

  find-publish_event_other :
      (event : OutboxEvent) (q : Queues) (id : String)
      → event.id ≢ id
      → find event_id id (publish_event add_error now event q).outbox ≡ find event_id id q.outbox
  unfolding publish_event
  find-publish_event_other event q id ne = elim (Option-cases (add_error event)) [
    | inl e ↦ rw (e, publish_event) (find-mark_processed_other id q.outbox event.id now ne)
    | inr (m, e) ↦ rw (e, publish_event) (find-mark_failed_other id q.outbox event.id m ne)
  ]

  find-publish_event_self :
      (event : OutboxEvent) (q : Queues)
      → find event_id event.id q.outbox ≡ some event
      → is_unprocessed event ≡ true
      → find event_id event.id (publish_event add_error now event q).outbox ≡ some (settled event)
  unfolding publish_event
  find-publish_event_self event q found h = elim (Option-cases (add_error event)) [
    | inl e ↦
        rw (e, publish_event, settled)
          (find-mark_processed_self event.id q.outbox now event found h)
    | inr (m, e) ↦
        rw (e, publish_event, settled) (find-mark_failed_self event.id q.outbox m event found)
  ]

  publish_events-others :
      (events : List OutboxEvent) (q : Queues) (id : String)
      → All (λ (e : OutboxEvent). e.id ≢ id) events
      → find event_id id (publish_events add_error now events q).outbox ≡ find event_id id q.outbox
  unfolding publish_events
  publish_events-others [] q id h = refl
  publish_events-others (event ∷ events) q id (ne, h) =
      publish_events-others events _ id h ∙ find-publish_event_other event q id ne

  -- a row of the outbox that is to be published
  abbrev IsListed : List OutboxEvent → OutboxEvent → Type 0
  IsListed outbox e = (find event_id e.id outbox ≡ some e) × (is_unprocessed e ≡ true)

  IsListed-on :
      (event : OutboxEvent) (q : Queues) (events : List OutboxEvent)
      → All (λ (e : OutboxEvent). e.id ≢ event.id) events
      → All (IsListed q.outbox) events
      → All (IsListed (publish_event add_error now event q).outbox) events
  IsListed-on event q [] ne h = tt
  IsListed-on event q (e ∷ events) (ne, nes) ((found, u), h) = (
    (find-publish_event_other event q e.id (λ same. ne (sym same)) ∙ found, u),
    IsListed-on event q events nes h,
  )

  publish_events-settled :
      (events : List OutboxEvent) (q : Queues)
      → IsKeyed event_id events
      → All (IsListed q.outbox) events
      → All
          (λ (e : OutboxEvent).
            find event_id e.id (publish_events add_error now events q).outbox ≡ some (settled e))
          events
  unfolding publish_events
  publish_events-settled [] q keyed h = tt
  publish_events-settled (event ∷ events) q (ne, keyed) ((found, u), h) = (
    publish_events-others events _ event.id ne ∙ find-publish_event_self event q found u,
    publish_events-settled events _ keyed (IsListed-on event q events ne h),
  )

  -- In an outbox of different ids, the row of each event of the batch is marked as processed where
  -- Redis took the event, and otherwise stays unprocessed, for a later run, with one attempt more.
  pub publish_once-settled :
      (batch_size : ℕ) (q : Queues)
      → IsKeyed event_id q.outbox
      → let events = list_unprocessed batch_size q.outbox in
        let (count, q') = publish_once add_error now batch_size q in
        All (λ (e : OutboxEvent). find event_id e.id q'.outbox ≡ some (settled e)) events
  unfolding publish_once list_unprocessed
  publish_once-settled batch_size q keyed =
      publish_events-settled _ q
        (IsKeyed-take event_id batch_size _ (IsKeyed-keep event_id is_unprocessed _ keyed))
        (All-take (IsListed q.outbox) batch_size _
          (keep-found event_id is_unprocessed q.outbox keyed))
