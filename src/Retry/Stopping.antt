-- ===== src/Retry/Stopping.antt =====
-- When `withRetry` stops, and with what.
use mathlib.Core.Path.{subst}
use native.Mathlib.Numerals.{add-one}
use trust_gate.Prelude.{
  ℕ, zero, suc, ◌+◌, ◌≤◌, ◌<◌, ◌≡◌, refl, true, false, Option, none, some, List, [], ◌∷◌, ◌=?◌, not,
  ◌||◌, ◌⊎◌, inl, inr, Bool-cases, arith,
}
use trust_gate.Retry.{
  Attempt, returned, threw, Outcome, value, error, Step, tried, slept, RetryOptions, loop,
  with_retry, computed_delay_ms, sleep_ms,
}

module _ {E A : Type 0} where
  abbrev pub count_tried : List (Step E A) → ℕ
  count_tried [] = 0
  count_tried (tried _ _ ∷ steps) = suc (count_tried steps)
  count_tried (slept _ _ _ _ ∷ steps) = count_tried steps

  abbrev pub count_slept : List (Step E A) → ℕ
  count_slept [] = 0
  count_slept (tried _ _ ∷ steps) = count_slept steps
  count_slept (slept _ _ _ _ ∷ steps) = suc (count_slept steps)

k_eq : (k j : ℕ) → (k =? j) ≡ true → k ≡ j
k_eq k j h = ground arith

later : (k j : ℕ) → k ≤ j → (k =? j) ≡ false → k + 1 ≤ j
later k j h n = ground arith

module _ {E A : Type 0} (options : RetryOptions E) (fn : ℕ → Attempt E A) where
  -- Attempt `j` failed with an error that may be retried.
  abbrev pub Continues : ℕ → Type 0
  Continues j = (e : E) × (fn j ≡ threw e) × (options.should_retry e ≡ true)

  -- Attempt `k` gives the outcome: it returned, or it failed with no retry allowed or left.
  abbrev pub Ends : ℕ → Outcome E A → Type 0
  Ends k (value a) = fn k ≡ returned a
  Ends k (error (some e)) =
      (fn k ≡ threw e) × ((options.should_retry e ≡ false) ⊎ (k ≡ options.retries))
  Ends k (error none) = ⊥

  -- The call's outcome is that of attempt `last`, all attempts from `start` on before it failed
  -- and were retried, and nothing else was tried or slept.
  pub record Stops (start : ℕ) (run : Outcome E A × List (Step E A)) : Type 0 where
    pub last : ℕ
    pub started : start ≤ last
    pub in_range : last ≤ options.retries
    pub before : (j : ℕ) → start ≤ j → j < last → Continues j
    pub ends : Ends last run.0
    pub attempts : count_tried run.1 + start ≡ last + 1
    pub sleeps : count_slept run.1 + start ≡ last

  Stops-at :
      (k : ℕ) (r : Attempt E A) (o : Outcome E A)
      → k ≤ options.retries
      → Ends k o
      → Stops k (o, tried k r ∷ [])
  Stops-at k r o h ends = record {
    last = k;
    started = omega arith;
    in_range = h;
    before = λ j p q. absurd (omega arith);
    ends = ends;
    attempts = omega arith;
    sleeps = omega arith;
  }

  -- what an attempt that may be retried puts before the rest of the run
  Stops-later :
      (k computed slept_ms : ℕ) (e : E) (rest : Outcome E A × List (Step E A))
      → fn k ≡ threw e
      → options.should_retry e ≡ true
      → Stops (k + 1) rest
      → Stops k (rest.0, tried k (threw e) ∷ slept k e computed slept_ms ∷ rest.1)
  Stops-later k computed slept_ms e rest failed retry s = record {
    last = s.last;
    started = omega (arith, s.started);
    in_range = s.in_range;
    before = λ j p q. elim (Bool-cases (k =? j)) [
      | inl same ↦ subst Continues (k_eq k j same) (e, failed, retry)
      | inr other ↦ s.before j (later k j p other) q
    ];
    ends = s.ends;
    attempts = omega (arith, s.attempts);
    sleeps = omega (arith, s.sleeps);
  }

  loop-Stops :
      (rounds attempt : ℕ) (last_error : Option E)
      → attempt + rounds ≡ options.retries + 1
      → attempt ≤ options.retries
      → Stops attempt (loop options fn rounds attempt last_error)
  unfolding loop
  loop-Stops zero attempt last_error h k = absurd (omega arith)
  loop-Stops (suc rounds) attempt last_error h k =
      go (fn attempt) refl (loop-Stops rounds (attempt + 1))
    where
      go :
          (r : Attempt E A)
          → fn attempt ≡ r
          → ((le : Option E)
              → attempt + 1 + rounds ≡ options.retries + 1
              → attempt + 1 ≤ options.retries
              → Stops (attempt + 1) (loop options fn rounds (attempt + 1) le))
          → Stops attempt (loop options fn (suc rounds) attempt last_error)
      go (returned a) e ih = rw (e, loop) (Stops-at attempt (returned a) (value a) k e)
      go (threw err) e ih =
          elim (Bool-cases (attempt =? options.retries || not (options.should_retry err))) [
            | inl stop ↦
                rw (e, loop, stop)
                  (Stops-at attempt (threw err) (error (some err)) k (e, ground arith))
            | inr go_on ↦
                rw (e, loop, go_on)
                  (Stops-later attempt (computed_delay_ms options fn attempt)
                    (sleep_ms options fn attempt err) err
                    (loop options fn rounds (attempt + 1) (some err)) e (ground arith)
                    (ih (some err) (omega arith) (ground arith)))
          ]

  -- Every call stops: its outcome is that of one attempt, at most `retries` retries from the first,
  -- which returned or whose error is not to be retried or was the last that is allowed; every
  -- attempt before that failed with an error that may be retried, and is followed by one sleep.
  pub with_retry-Stops : Stops 0 (with_retry options fn)
  unfolding with_retry
  with_retry-Stops = loop-Stops (options.retries + 1) 0 none (omega arith) (omega arith)

  -- A first error that is not to be retried ends the call at once.
  pub with_retry-final :
      (e : E)
      → fn 0 ≡ threw e
      → options.should_retry e ≡ false
      → with_retry options fn ≡ (error (some e), tried 0 (threw e) ∷ [])
  unfolding with_retry loop
  with_retry-final e failed final = rw (add-one, failed, loop) (ground arith)
