-- ===== src/Consumption/Attempts.antt =====
-- How often a handler may start on an event.
use mathlib.Core.Path.{subst}
use trust_gate.Prelude.{
  ◌⊎◌, sym, ℕ, ◌≤◌, ◌<◌, false, ◌&&◌, ◌≡◌, refl, inl, inr, String, Option, none, some, List, [],
  ◌∷◌, ◌++◌, arith, if◌then◌else◌, Bool-cases, Option-cases, leb, eq_iff, ◌==◌,
}
use trust_gate.Consumption.{
  EventConsumptionStatus, EventConsumptionRecord, StartArgs, is_row, is_succeeded, is_after,
  find_row, update_row, first_row, restarted, try_start, mark_succeeded, mark_failed,
}

-- A record of `tryStart` that does not start.
abbrev pub IsRefused : StartArgs → ℕ → List EventConsumptionRecord → Type 0
IsRefused args now rows =
    (r : EventConsumptionRecord) × (try_start args now rows
      ≡ (record { started = false; attempt = r }, rows))

module _ (args : StartArgs) (now : ℕ) (rows : List EventConsumptionRecord)
    (r : EventConsumptionRecord)
    (found : find_row args.handler_name args.event_id rows ≡ some r) where
  -- An event that has succeeded is not started again, and its record stays.
  pub try_start_succeeded :
      r.status ≡ EventConsumptionStatus.succeeded
      → try_start args now rows ≡ (record { started = false; attempt = r }, rows)
  unfolding try_start
  try_start_succeeded h = ground arith

  -- Nor is one whose attempts are used up.
  pub try_start_exhausted :
      args.max_attempts ≤ r.attempts
      → try_start args now rows ≡ (record { started = false; attempt = r }, rows)
  unfolding try_start
  try_start_exhausted h = ground arith

-- `is_row` is read as equality of both keys
module _ (h e : String) where
  find_row-update_row :
      (h' e' : String) (f : EventConsumptionRecord → EventConsumptionRecord)
      (rows : List EventConsumptionRecord)
      → ((r : EventConsumptionRecord)
          → ((f r).handler_name ≡ r.handler_name) × ((f r).event_id ≡ r.event_id))
      → find_row h e (update_row h' e' f rows) ≡ (elim (find_row h e rows) [
        | none ↦ none
        | some r ↦ some (if (h == h') && (e == e') then f r else r)
      ])
  unfolding find_row update_row
  find_row-update_row h' e' f [] same = refl
  find_row-update_row h' e' f (r ∷ rows) same = ground (
    arith,
    same r,
    eq_iff r.handler_name h,
    eq_iff r.event_id e,
    eq_iff r.handler_name h',
    eq_iff r.event_id e',
    eq_iff h h',
    eq_iff e e',
    find_row-update_row h' e' f rows same,
  )

  find_row-append :
      (rows : List EventConsumptionRecord) (a : EventConsumptionRecord)
      → find_row h e (rows ++ a ∷ []) ≡ (elim (find_row h e rows) [
        | some r ↦ some r
        | none ↦ if is_row h e a then some a else none
      ])
  unfolding find_row
  find_row-append [] a = refl
  find_row-append (r ∷ rows) a = ground (arith, find_row-append rows a)

-- Every record that is found counts between one attempt and the attempts allowed.
abbrev pub IsBounded : (max_attempts : ℕ) → List EventConsumptionRecord → Type 0
IsBounded max_attempts rows =
    (h e : String) (r : EventConsumptionRecord)
    → find_row h e rows ≡ some r
    → (1 ≤ r.attempts) × (r.attempts ≤ max_attempts)

module _ (args : StartArgs) (now : ℕ) (rows : List EventConsumptionRecord) where
  started_first :
      find_row args.handler_name args.event_id rows ≡ none
      → (try_start args now rows).1 ≡ rows ++ first_row args now ∷ []
  unfolding try_start
  started_first e = rw (e, try_start) refl

  started_again :
      (r : EventConsumptionRecord)
      → find_row args.handler_name args.event_id rows ≡ some r
      → ((try_start args now rows).1 ≡ rows)
        ⊎ ((r.attempts < args.max_attempts)
            × ((try_start args now rows).1
                ≡ update_row args.handler_name args.event_id (restarted args now) rows))
  unfolding try_start
  started_again r e = elim (Bool-cases (is_succeeded r.status)) [
    | inl a ↦ inl (rw (e, a, try_start) refl)
    | inr a ↦ elim (Bool-cases (leb args.max_attempts r.attempts)) [
      | inl b ↦ inl (rw (e, a, b, try_start) refl)
      | inr b ↦ elim (Bool-cases (is_after r.next_retry_at now)) [
        | inl c ↦ inl (rw (e, a, b, c, try_start) refl)
        | inr c ↦ inr (ground arith, rw (e, a, b, c, try_start) refl)
      ]
    ]
  ]

module _ (max_attempts : ℕ) (now : ℕ) (rows : List EventConsumptionRecord)
    (bounded : IsBounded max_attempts rows) where
  pub update_row-IsBounded :
      (h' e' : String) (f : EventConsumptionRecord → EventConsumptionRecord)
      → ((r : EventConsumptionRecord)
          → ((f r).handler_name ≡ r.handler_name) × ((f r).event_id ≡ r.event_id))
      → ((r : EventConsumptionRecord)
          → find_row h' e' rows ≡ some r
          → (1 ≤ (f r).attempts) × ((f r).attempts ≤ max_attempts))
      → IsBounded max_attempts (update_row h' e' f rows)
  update_row-IsBounded h' e' f same inside h e r found =
      let eq = find_row-update_row h e h' e' f rows same in
      elim (Option-cases (find_row h e rows)) [
        | inl e0 ↦ absurd (ground (arith, eq))
        | inr (r0, e0) ↦ elim (Bool-cases ((h == h') && (e == e'))) [
          | inl b ↦
              let here : f r0 ≡ r = ground (arith, eq) in
              let same_h : h ≡ h' = ground (arith, eq_iff h h') in
              let same_e : e ≡ e' = ground (arith, eq_iff e e') in
              subst (λ x. (1 ≤ x.attempts) × (x.attempts ≤ max_attempts)) here (inside r0 cc)
          | inr b ↦
              let here : r0 ≡ r = ground (arith, eq) in
              subst (λ x. (1 ≤ x.attempts) × (x.attempts ≤ max_attempts)) here (bounded h e r0 e0)
        ]
      ]

  append-IsBounded :
      (a : EventConsumptionRecord)
      → a.attempts ≡ 1
      → 1 ≤ max_attempts
      → IsBounded max_attempts (rows ++ a ∷ [])
  append-IsBounded a first one h e r found =
      let eq = find_row-append h e rows a in
      elim (Option-cases (find_row h e rows)) [
        | inl e0 ↦
            let here : a ≡ r = ground (arith, eq) in
            subst (λ x. (1 ≤ x.attempts) × (x.attempts ≤ max_attempts)) here
              (omega arith, omega arith)
        | inr (r0, e0) ↦
            let here : r0 ≡ r = ground (arith, eq) in
            subst (λ x. (1 ≤ x.attempts) × (x.attempts ≤ max_attempts)) here (bounded h e r0 e0)
      ]

  -- Where at least one attempt is allowed, and every record that is found counts from one
  -- attempt to those allowed, so does every record behind `tryStart`.
  pub try_start-IsBounded :
      (args : StartArgs)
      → args.max_attempts ≡ max_attempts
      → 1 ≤ max_attempts
      → IsBounded max_attempts (try_start args now rows).1
  unfolding restarted first_row
  try_start-IsBounded args same one =
      elim (Option-cases (find_row args.handler_name args.event_id rows)) [
        | inl e ↦
            subst (IsBounded max_attempts) (sym (started_first args now rows e))
              (append-IsBounded (first_row args now) refl one)
        | inr (r, e) ↦ elim (started_again args now rows r e) [
          | inl kept ↦ subst (IsBounded max_attempts) (sym kept) bounded
          | inr (less, updated) ↦ subst (IsBounded max_attempts) (sym updated) (
              update_row-IsBounded args.handler_name args.event_id (restarted args now)
                (λ x. (refl, refl))
                λ x found.
                  let same_row : x ≡ r = cc in
                  let fewer : x.attempts < max_attempts =
                    rw same_row (subst (λ m. r.attempts < m) same less) in
                  (omega arith, omega arith))
        ]
      ]

  -- Marking an event as succeeded or as failed counts no attempt.
  pub mark_succeeded-IsBounded :
      (h e : String) → IsBounded max_attempts (mark_succeeded h e now rows)
  unfolding mark_succeeded
  mark_succeeded-IsBounded h e =
      update_row-IsBounded h e _ (λ x. (refl, refl)) λ x found. bounded h e x found

  pub mark_failed-IsBounded :
      (h e message : String) (next_retry_at : Option ℕ)
      → IsBounded max_attempts (mark_failed h e message next_retry_at now rows)
  unfolding mark_failed
  mark_failed-IsBounded h e message next_retry_at =
      update_row-IsBounded h e _ (λ x. (refl, refl)) λ x found. bounded h e x found
