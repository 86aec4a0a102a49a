-- ===== src/Charge/Sending.antt =====
-- How often a listing fee that is charged has been sent.
use trust_gate.Prelude.{
  ℕ, zero, suc, ◌+◌, ◌≤◌, ◌<◌, String, ◌≡◌, refl, ◌⊎◌, inl, inr, true, Option, none, some, List, [],
  ◌∷◌, Bool-cases, arith,
}
use mathlib.Core.Path.{subst}
use trust_gate.Money.{calculate_listing_fee_stroops}
use trust_gate.Retry.{
  Attempt, returned, threw, value, Step, tried, slept, loop, with_retry, default_options,
  is_transient_network_error,
}
use trust_gate.Retry.Stopping.{count_tried, Ends, with_retry-Stops}
use trust_gate.Charge.{
  ok, Result-cases, ChargeResult, ChargeFailure, message_of, TokenContract, attempt_charge,
  charge_listing_fee, is_sent, count_sent,
}

-- A fee that was charged: `sent` transfers of it went out, attempt `last` is the one whose transfer
-- was accepted, and every attempt before it failed with an error that looks transient.
pub record Paid (token : TokenContract) (fee sent : ℕ) : Type 0 where
  pub last : ℕ
  pub in_range : last ≤ 3
  pub hash : String
  pub accepted : token.sign_and_send last ≡ ok hash
  pub before :
      (j : ℕ)
      → j < last
      → (e : ChargeFailure) × (attempt_charge token fee j ≡ threw e)
        × (is_transient_network_error (message_of e) ≡ true)
  pub at_least_once : 1 ≤ sent
  pub at_most : sent ≤ last + 1

module _ (token : TokenContract) (fee : ℕ) where
  returned_sent :
      (n : ℕ) (a : ChargeResult)
      → attempt_charge token fee n ≡ returned a
      → is_sent token fee n ≡ true
  unfolding attempt_charge is_sent
  returned_sent n a h = ground arith

  returned_accepted :
      (n : ℕ) (a : ChargeResult)
      → attempt_charge token fee n ≡ returned a
      → (hash : String) × (token.sign_and_send n ≡ ok hash)
  unfolding attempt_charge
  returned_accepted n a h = elim (Result-cases (token.sign_and_send n)) [
    | inl found ↦ found
    | inr (message, e) ↦ absurd (ground arith)
  ]

  count_le :
      (steps : List (Step ChargeFailure ChargeResult))
      → count_sent token fee steps ≤ count_tried steps
  unfolding count_sent
  count_le [] = omega arith
  count_le (slept _ _ _ _ ∷ steps) = count_le steps
  count_le (tried n _ ∷ steps) =
      let ih = count_le steps in
      elim (Bool-cases (is_sent token fee n)) [ inl e ↦ ground arith | inr e ↦ ground arith ]

  Attempt-cases :
      (t : Attempt ChargeFailure ChargeResult)
      → ((a : ChargeResult) × (t ≡ returned a)) ⊎ ((e : ChargeFailure) × (t ≡ threw e))
  Attempt-cases (returned a) = inl (a, refl)
  Attempt-cases (threw e) = inr (e, refl)

  loop_sent :
      (rounds attempt : ℕ) (last_error : Option ChargeFailure) (a : ChargeResult)
      → let run =
          loop (default_options message_of) (attempt_charge token fee) rounds attempt last_error in
        run.0 ≡ value a → 1 ≤ count_sent token fee run.1
  unfolding loop count_sent
  loop_sent zero attempt last_error a h = absurd (ground arith)
  loop_sent (suc rounds) attempt last_error a h =
      elim (Attempt-cases (attempt_charge token fee attempt)) [
        | inl (r, e) ↦ ground (arith, returned_sent attempt r e)
        | inr (x, e) ↦ ground (arith, loop_sent rounds (attempt + 1) (some x) a)
      ]

-- A fee that is charged went out at least once, and more than once only after a failed attempt.
pub charge_listing_fee-Paid :
    (token : TokenContract) (price : ℕ) (a : ChargeResult)
    → (charge_listing_fee token price).0 ≡ value a
    → Paid token
        (calculate_listing_fee_stroops price)
        (count_sent token (calculate_listing_fee_stroops price) (charge_listing_fee token price).1)
unfolding charge_listing_fee default_options with_retry
charge_listing_fee-Paid token price a h =
    let fee = calculate_listing_fee_stroops price in
    let stops = with_retry-Stops (default_options message_of) (attempt_charge token fee) in
    let ends : attempt_charge token fee stops.last ≡ returned a =
      subst (Ends (default_options message_of) (attempt_charge token fee) stops.last) h
        stops.ends in
    let (hash, accepted) = returned_accepted token fee stops.last a ends in
    let tried_last = stops.attempts in
    let le = count_le token fee (charge_listing_fee token price).1 in
    record {
      last = stops.last;
      in_range = stops.in_range;
      hash = hash;
      accepted = accepted;
      before = λ j lt. stops.before j (omega arith) lt;
      at_least_once = loop_sent token fee 4 0 none a h;
      at_most = omega arith;
    }
