-- ===== src/Results/Publication.antt =====
-- A result that is published can be read.
use trust_gate.Prelude.{
  ◌≤◌, String, concat, true, ◌≡◌, refl, sym, ap, ◌∙◌, Option, none, some, arith, eq_iff,
  Option-cases, inl, inr,
}
use trust_gate.Json.{Json}
use trust_gate.Json.Order.{Same, canonicalize-Same}
use trust_gate.Schema.{RequestBody, string_field}
use trust_gate.Table.{find-upsert}
use trust_gate.Models.{Task, Bid, TaskStatus, is_assigned}
use trust_gate.Server.{
  SameTables, World, Env, TaskResultRecord, result_key, find_task, selected_bid, emit,
}
use trust_gate.Server.Action.{Body, Response, answered, next, Flow-cases}
use trust_gate.Results.{
  find_result, get_result, payload_hash_of, kept_result, new_result, put_result, payload_row,
  upsert_result, publish, emit_published, admit_publication, publish_result,
}

module _ (env : Env) where
  -- Payloads that differ only in the order in which objects name their entries, at any depth, have the
  -- same hash, where the comparison of keys is transitive and tells the keys that are swapped apart.
  pub payload_hash_of-Same :
      {a b : Json}
      → ((i j k : String) → env.before i j ≡ true → env.before j k ≡ true → env.before i k ≡ true)
      → Same env.before a b
      → payload_hash_of env a ≡ payload_hash_of env b
  unfolding payload_hash_of
  payload_hash_of-Same transitive h =
      ap (λ v. concat "sha256:" (env.sha256 (env.stringify v)))
        (canonicalize-Same env.before transitive h)

  -- what is checked of a publication
  pub record MayPublish (task_id : String) (body : RequestBody) (w : World) (executor : String)
      : Type 0 where
    pub task : Task
    pub is_found : find_task task_id w ≡ some task
    pub is_assigned : task.status ≡ TaskStatus.assigned
    pub chosen : Bid
    pub is_chosen : selected_bid task_id w ≡ some chosen
    pub is_named : string_field "executorPublicKey" body ≡ some executor
    pub is_executor : executor ≡ chosen.executor_public_key

  admit_publication_pure :
      (task_id : String) (body : RequestBody) (w : World)
      → (admit_publication env task_id body w).1 ≡ w
  unfolding admit_publication
  admit_publication_pure task_id body w = ground arith

  assigned_of : (s : TaskStatus) → is_assigned s ≡ true → s ≡ TaskStatus.assigned
  assigned_of s h = ground arith

  admit_publication-MayPublish :
      (task_id : String) (body : RequestBody) (w : World) (executor : String)
      → (admit_publication env task_id body w).0 ≡ next executor
      → MayPublish task_id body w executor
  unfolding admit_publication
  admit_publication-MayPublish task_id body w executor h =
      elim (Option-cases (find_task task_id w)) [
        | inl e ↦ absurd (ground arith)
        | inr (task, e) ↦ elim (Option-cases (selected_bid task_id w)) [
          | inl f ↦ absurd (ground arith)
          | inr (chosen, f) ↦ record {
            task = task;
            is_found = e;
            is_assigned = assigned_of task.status (ground arith);
            chosen = chosen;
            is_chosen = f;
            is_named = ground arith;
            is_executor = ground (arith, eq_iff executor chosen.executor_public_key);
          }
        ]
      ]

  kept_fields :
      (r : TaskResultRecord) (w : World)
      → (kept_result env r w ≡ record r { created_at = (kept_result env r w).created_at })
  unfolding kept_result
  kept_fields r w = ground arith

  find-upsert_result :
      (r : TaskResultRecord) (w : World)
      → find_result r.task_id (put_result env r w) ≡ some (kept_result env r w)
  unfolding find_result put_result
  find-upsert_result r w =
      let same : result_key (kept_result env r w) ≡ r.task_id = ap result_key (kept_fields r w) in
      ground (
        arith,
        eq_iff (result_key (kept_result env r w)) r.task_id,
        find-upsert result_key r.task_id (kept_result env r w) w.results,
      )

  -- the record that a publication leaves
  abbrev pub row_result : String → (payload row : Json) → World → TaskResultRecord
  row_result task_id payload row w = record (new_result env task_id payload w) { payload = row }

  abbrev pub stored_result : String → (payload row : Json) → World → TaskResultRecord
  stored_result task_id payload row w = kept_result env (row_result task_id payload row w) w

  publish_stores :
      (task_id : String) (payload row : Json) (w : World)
      → payload_row env payload ≡ some row
      → publish env task_id payload w ≡ (
        next (stored_result task_id payload row w),
        put_result env (row_result task_id payload row w) w,
      )
  unfolding publish upsert_result
  publish_stores task_id payload row w taken =
      rw (taken, find-upsert_result (row_result task_id payload row w) w, publish, upsert_result)
        refl

  publish_fails :
      (task_id : String) (payload : Json) (w : World)
      → payload_row env payload ≡ none
      → publish env task_id payload w
        ≡ (answered (record { status = 500; body = Body.error "Internal Server Error" }), w)
  unfolding publish upsert_result
  publish_fails task_id payload w full = rw (full, publish, upsert_result) refl

  admit_publication_status :
      (task_id : String) (body : RequestBody) (w : World) (r : Response)
      → (admit_publication env task_id body w).0 ≡ answered r
      → 400 ≤ r.status
  unfolding admit_publication
  admit_publication_status task_id body w r h = ground arith

  -- A publication that is not admitted, or has no payload, is refused with a status of 400 and more,
  -- and changes nothing.
  publish_result_refused :
      (task_id : String) (body : RequestBody) (payload : Option Json) (w : World) (r : Response)
      → (admit_publication env task_id body w).0 ≡ answered r
      → publish_result env task_id body payload w ≡ (answered r, w)
  unfolding publish_result
  publish_result_refused task_id body payload w r h =
      ground (arith, admit_publication_pure task_id body w)

  publish_result_empty :
      (task_id : String) (body : RequestBody) (w : World) (executor : String)
      → (admit_publication env task_id body w).0 ≡ next executor
      → publish_result env task_id body none w
        ≡ (answered (record { status = 400; body = Body.error "payload is required" }), w)
  unfolding publish_result
  publish_result_empty task_id body w executor h =
      ground (arith, admit_publication_pure task_id body w)

  -- the world after a publication
  abbrev after_publication : String → String → (payload row : Json) → World → World
  after_publication task_id executor payload row w =
      emit_published env task_id executor (stored_result task_id payload row w)
        (put_result env (row_result task_id payload row w) w)

  publish_result_unstored :
      (task_id : String) (body : RequestBody) (payload : Json) (w : World) (executor : String)
      → (admit_publication env task_id body w).0 ≡ next executor
      → payload_row env payload ≡ none
      → publish_result env task_id body (some payload) w
        ≡ (answered (record { status = 500; body = Body.error "Internal Server Error" }), w)
  unfolding publish_result
  publish_result_unstored task_id body payload w executor h full =
      ground (arith, admit_publication_pure task_id body w, publish_fails task_id payload w full)

  publish_result_stores :
      (task_id : String) (body : RequestBody) (payload row : Json) (w : World) (executor : String)
      → (admit_publication env task_id body w).0 ≡ next executor
      → payload_row env payload ≡ some row
      → publish_result env task_id body (some payload) w ≡ (
        answered (record {
          status = 201;
          body =
              Body.published
                (stored_result task_id payload row w).task_id
                (stored_result task_id payload row w).payload_hash;
        }),
        after_publication task_id executor payload row w,
      )
  unfolding publish_result
  publish_result_stores task_id body payload row w executor h taken =
      ground
        (arith, admit_publication_pure task_id body w, publish_stores task_id payload row w taken)

  emit_published_keeps :
      (task_id executor : String) (stored : TaskResultRecord) (w : World)
      → ((emit_published env task_id executor stored w).tasks ≡ w.tasks)
        × ((emit_published env task_id executor stored w).bids ≡ w.bids)
        × ((emit_published env task_id executor stored w).results ≡ w.results)
  unfolding emit_published emit
  emit_published_keeps task_id executor stored w = ground arith

  put_result_keeps :
      (r : TaskResultRecord) (w : World)
      → ((put_result env r w).tasks ≡ w.tasks) × ((put_result env r w).bids ≡ w.bids)
  unfolding put_result
  put_result_keeps r w = (refl, refl)

  get_result_stored :
      (task_id : String) (w : World) (task : Task) (chosen : Bid) (stored : TaskResultRecord)
      → find_task task_id w ≡ some task
      → task.status ≡ TaskStatus.assigned
      → selected_bid task_id w ≡ some chosen
      → find_result task_id w ≡ some stored
      → get_result task_id w ≡ (answered (record { status = 200; body = Body.result stored }), w)
  unfolding get_result
  get_result_stored task_id w task chosen stored found assigned bid result = ground arith

  publish_result_created :
      (task_id : String) (body : RequestBody) (payload : Option Json) (w : World) (r : Response)
      → (publish_result env task_id body payload w).0 ≡ answered r
      → r.status ≡ 201
      → (executor : String) × (value row : Json) × ((admit_publication env task_id body w).0
          ≡ next executor)
        × (payload ≡ some value)
        × (payload_row env value ≡ some row)
  publish_result_created task_id body payload w r h created =
      elim (Flow-cases (admit_publication env task_id body w).0) [
        | inl (refusal, e) ↦
            let same = publish_result_refused task_id body payload w refusal e in
            let big = admit_publication_status task_id body w refusal e in
            absurd (let answer = (rw same at h) in ground arith)
        | inr (executor, e) ↦ elim (Option-cases payload) [
          | inl empty ↦
              let same = publish_result_empty task_id body w executor e in
              absurd (let answer = (rw (empty, same) at h) in ground arith)
          | inr (value, given) ↦ elim (Option-cases (payload_row env value)) [
            | inl full ↦
                let same = publish_result_unstored task_id body value w executor e full in
                absurd (let answer = (rw (given, same) at h) in ground arith)
            | inr (row, taken) ↦ (executor, value, row, e, given, taken)
          ]
        ]
      ]

  find-after_publication :
      (task_id executor : String) (payload row : Json) (w : World)
      → (find_task task_id (after_publication task_id executor payload row w) ≡ find_task task_id w)
        × (selected_bid task_id (after_publication task_id executor payload row w)
            ≡ selected_bid task_id w)
        × (find_result task_id (after_publication task_id executor payload row w)
            ≡ some (stored_result task_id payload row w))
  unfolding find_result
  find-after_publication task_id executor payload row w =
      let new_record = row_result task_id payload row w in
      let stored = stored_result task_id payload row w in
      let (same_tasks, same_bids, same_results) =
        emit_published_keeps task_id executor stored (put_result env new_record w) in
      let (tasks_kept, bids_kept) = put_result_keeps new_record w in
      rw (same_tasks, same_bids, same_results, tasks_kept, bids_kept)
        (refl, refl, find-upsert_result new_record w)

  -- A publication that is answered with 201 is one of the executor whose bid was selected, for a task
  -- that is ASSIGNED. The result that is then read has the hash of its payload, and the payload as the
  -- repository gives it back: in memory as it is, from the database as its jsonb column has taken it.
  pub publish_result-MayPublish :
      (task_id : String) (body : RequestBody) (payload : Option Json) (w : World) (r : Response)
      → (publish_result env task_id body payload w).0 ≡ answered r
      → r.status ≡ 201
      → (executor : String) × (value : Json) × (stored : TaskResultRecord) × MayPublish task_id body
          w executor
        × (payload ≡ some value)
        × (payload_row env value ≡ some stored.payload)
        × (stored.payload_hash ≡ payload_hash_of env value)
        × (get_result task_id (publish_result env task_id body payload w).1 ≡ (
          answered (record { status = 200; body = Body.result stored }),
          (publish_result env task_id body payload w).1,
        ))
  publish_result-MayPublish task_id body payload w r h created =
      let (executor, value, row, admitted, given, taken) =
        publish_result_created task_id body payload w r h created in
      let may = admit_publication-MayPublish task_id body w executor admitted in
      let stored = stored_result task_id value row w in
      let same = kept_fields (row_result task_id value row w) w in
      let (same_task, same_bid, found) = find-after_publication task_id executor value row w in
      (
        executor,
        value,
        stored,
        may,
        given,
        taken ∙ ap some (sym (ap (λ (x : TaskResultRecord). x.payload) same)),
        ap (λ (x : TaskResultRecord). x.payload_hash) same,
        rw (given, publish_result_stores task_id body value row w executor admitted taken)
            (get_result_stored task_id (after_publication task_id executor value row w) may.task
              may.chosen stored (same_task ∙ may.is_found) may.is_assigned
              (same_bid ∙ may.is_chosen) found),
      )

  -- No publication touches tasks or bids.
  pub publish_result_tables :
      (task_id : String) (body : RequestBody) (payload : Option Json) (w : World)
      → SameTables w (publish_result env task_id body payload w).1
  publish_result_tables task_id body payload w =
      elim (Flow-cases (admit_publication env task_id body w).0) [
        | inl (r, h) ↦ rw (publish_result_refused task_id body payload w r h) (refl, refl)
        | inr (executor, h) ↦ elim (Option-cases payload) [
          | inl e ↦ rw (e, publish_result_empty task_id body w executor h) (refl, refl)
          | inr (value, e) ↦ elim (Option-cases (payload_row env value)) [
            | inl full ↦
                rw (e, publish_result_unstored task_id body value w executor h full) (refl, refl)
            | inr (row, taken) ↦
                let new_record = row_result task_id value row w in
                let (same_tasks, same_bids, _) =
                  emit_published_keeps task_id executor (stored_result task_id value row w)
                    (put_result env new_record w) in
                let (tasks_kept, bids_kept) = put_result_keeps new_record w in
                rw (e, publish_result_stores task_id body value row w executor h taken)
                  (same_tasks ∙ tasks_kept, same_bids ∙ bids_kept)
          ]
        ]
      ]
