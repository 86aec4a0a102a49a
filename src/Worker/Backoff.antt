-- ===== src/Worker/Backoff.antt =====
-- The time of the next try.
use trust_gate.Prelude.{ℕ, zero, suc, ◌+◌, ◌-◌, ◌^◌, ◌≤◌, arith}
use trust_gate.Worker.{compute_backoff}

pow_pos : (n : ℕ) → 1 ≤ 2 ^ n
pow_pos zero = omega arith
pow_pos (suc n) = omega (arith, pow_pos n)

pow_mono : (m n : ℕ) → m ≤ n → 2 ^ m ≤ 2 ^ n
pow_mono zero n h = pow_pos n
pow_mono (suc m) zero h = omega arith
pow_mono (suc m) (suc n) h =
    let rest : 2 ^ m ≤ 2 ^ n = pow_mono m n (omega arith) in omega (arith, rest)

-- The next try is between 2 seconds and 5 minutes away, and no sooner after more attempts.
pub compute_backoff-bounds :
    (attempt later now : ℕ)
    → attempt ≤ later
    → (now + 2000 ≤ compute_backoff attempt now)
      × (compute_backoff attempt now ≤ compute_backoff later now)
      × (compute_backoff later now ≤ now + 300000)
unfolding compute_backoff
compute_backoff-bounds attempt later now h =
    let one = pow_pos (attempt - 1) in
    let more = pow_mono (attempt - 1) (later - 1) (omega arith) in
    (omega arith, omega arith, omega arith)
