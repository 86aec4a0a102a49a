-- ===== src/Worker/Loop/Ticks.antt =====
-- What a tick of the worker does with the entries and the retries that it takes.
use trust_gate.Prelude.{
  ℕ, ◌≤◌, true, ◌≡◌, refl, sym, ap, ◌∙◌, inl, inr, String, none, some, List, [], ◌∷◌, ◌++◌, map,
  append_assoc, append-nil, All, ◌||◌, arith, Bool-cases, ◌==◌,
}
use trust_gate.Consumption.{EventConsumptionRecord, Started, find_row, list_due_retries}
use trust_gate.Consumption.Attempts.{try_start_exhausted}
use trust_gate.Publisher.{publish_once}
use trust_gate.Worker.{
  WorkerEnv, WorkerState, StreamEntry, Handled, deliver_result, handle_result_published, dispatch,
  settle,
}
use trust_gate.Worker.Loop.{
  handler_of, ack, start_event, args_of, run_entry, handle_entry, handle_entries, retry_record,
  retry_records, run_retry, retry_handler, publish, tick,
}

module _ (env : WorkerEnv) where
  settle-acked :
      (handler_name event_id : String) (attempt : ℕ) (h : Handled)
      → (settle env handler_name event_id attempt h).acked ≡ h.1.acked
  unfolding settle
  settle-acked handler_name event_id attempt (none, s) = refl
  settle-acked handler_name event_id attempt (some message, s) = refl

  dispatch-acked :
      (event_id type : String) (payload : _) (s : WorkerState)
      → (dispatch env event_id type payload s).1.acked ≡ s.acked
  unfolding dispatch handle_result_published deliver_result
  dispatch-acked event_id type payload s = ground arith

  run_entry-acked :
      (entry : StreamEntry) (p : Started × WorkerState) → (run_entry env entry p).acked ≡ p.1.acked
  unfolding run_entry
  run_entry-acked entry (started, s) = elim (Bool-cases started.started) [
    | inl e ↦ rw e (settle-acked _ _ _ _ ∙ dispatch-acked _ _ _ _)
    | inr e ↦ rw e refl
  ]

  handle_entry-acked :
      (entry : StreamEntry) (s : WorkerState)
      → (handle_entry env entry s).acked ≡ s.acked ++ entry.id ∷ []
  unfolding handle_entry ack start_event
  handle_entry-acked entry s = elim (Bool-cases ((entry.event_id == "") || (entry.type == ""))) [
    | inl e ↦ rw e refl
    | inr e ↦ rw e (
        ap (λ (ids : List String). ids ++ entry.id ∷ [])
          (run_entry-acked entry
            (start_event (args_of env (handler_of entry.type) entry.event_id (some entry.id)) s)))
  ]

  -- Every entry that is handed to the worker is acknowledged, once and in order, whether its
  -- handler succeeds or fails.
  pub handle_entries-acked :
      (entries : List StreamEntry) (s : WorkerState)
      → (handle_entries env entries s).acked ≡ s.acked ++ map (λ (e : StreamEntry). e.id) entries
  unfolding handle_entries
  handle_entries-acked [] s = sym (append-nil _)
  handle_entries-acked (entry ∷ entries) s =
      handle_entries-acked entries _
      ∙ ap (λ (ids : List String). ids ++ map (λ (e : StreamEntry). e.id) entries)
          (handle_entry-acked entry s)
      ∙ append_assoc s.acked (entry.id ∷ []) (map (λ (e : StreamEntry). e.id) entries)

  -- The attempts of the record are used up.
  abbrev pub IsExhausted : List EventConsumptionRecord → EventConsumptionRecord → Type 0
  IsExhausted rows r =
      (find_row r.handler_name r.event_id rows ≡ some r) × (env.max_attempts ≤ r.attempts)

  retry_record_exhausted :
      (r : EventConsumptionRecord) (s : WorkerState)
      → IsExhausted s.world.consumptions r
      → retry_record env r s ≡ s
  unfolding retry_record run_retry start_event
  retry_record_exhausted r s (found, used) =
      rw
        (try_start_exhausted (args_of env r.handler_name r.event_id none) s.world.now
          s.world.consumptions r found used)
        refl

  retry_records_exhausted :
      (due : List EventConsumptionRecord) (s : WorkerState)
      → All (IsExhausted s.world.consumptions) due
      → retry_records env due s ≡ s
  unfolding retry_records
  retry_records_exhausted [] s h = refl
  retry_records_exhausted (r ∷ due) s (here, later) =
      ap (retry_records env due) (retry_record_exhausted r s here)
      ∙ retry_records_exhausted due s later

  -- Where the attempts of all of the at most 25 retries that a tick lists for a handler are used
  -- up, retrying leaves the whole state as it is.
  pub retry_handler_exhausted :
      (handler_name : String) (s : WorkerState)
      → All
          (IsExhausted s.world.consumptions)
          (list_due_retries handler_name 25 s.world.now s.world.consumptions)
      → retry_handler env handler_name s ≡ s
  unfolding retry_handler
  retry_handler_exhausted handler_name s h = retry_records_exhausted _ s h

  -- While consumption is paused, a tick publishes, and nothing else: of the state it changes only
  -- the outbox rows and the stream, and acknowledges no entry.
  tick_paused :
      (claimed polled : List StreamEntry) (s : WorkerState)
      → env.server.safety.pause_worker_consumption ≡ true
      → let s' = tick env claimed polled s in
        let (count, q) =
          publish_once env.add_error s.world.now 50
            (record { outbox = s.world.outbox; stream = s.stream }) in
        (s'.world ≡ record s.world { outbox = q.outbox })
        × (s'.stream ≡ q.stream)
        × (s'.acked ≡ s.acked)
  unfolding tick publish
  tick_paused claimed polled s paused = rw paused (refl, refl, refl)
