-- ===== src/Consumer/Claiming.antt =====
-- A claim that fails.
use trust_gate.Prelude.{String, Option, true, false, ◌≡◌, refl}
use trust_gate.Server.{Result, ok, err}
use trust_gate.Consumer.{Reply, StreamEntry, EventConsumer, auto_claim_once}

module _ (string_of : Reply → String) {S : Type 0}
    (handler : StreamEntry → S → Option String × S) where
  claims_failed :
      (xautoclaim : String → Result Reply) (c : EventConsumer) (s : S) (message : String)
      → c.claiming ≡ false
      → xautoclaim c.claim_cursor ≡ err message
      → auto_claim_once string_of handler xautoclaim c s
        ≡ (err message, record c { claiming = true }, s)
  unfolding auto_claim_once
  claims_failed xautoclaim c s message idle failed = rw (idle, failed, auto_claim_once) refl

  claims_busy :
      (xautoclaim : String → Result Reply) (c : EventConsumer) (s : S)
      → c.claiming ≡ true
      → auto_claim_once string_of handler xautoclaim c s ≡ (ok 0, c, s)
  unfolding auto_claim_once
  claims_busy xautoclaim c s busy = rw (busy, auto_claim_once) refl

  -- Once XAUTOCLAIM has failed, the consumer claims nothing ever again: whatever Redis would answer
  -- later, every further call counts no entry, handles none, and leaves the consumer as it is.
  pub auto_claim_once_stuck :
      (xautoclaim : String → Result Reply) (c : EventConsumer) (s : S) (message : String)
      → c.claiming ≡ false
      → xautoclaim c.claim_cursor ≡ err message
      → let (count, c1, s1) = auto_claim_once string_of handler xautoclaim c s in
        (count ≡ err message)
        × (s1 ≡ s)
        × ((answers : String → Result Reply) (t : S)
            → auto_claim_once string_of handler answers c1 t ≡ (ok 0, c1, t))
  auto_claim_once_stuck xautoclaim c s message idle failed =
      rw (claims_failed xautoclaim c s message idle failed)
        (refl, refl, λ answers t. claims_busy answers (record c { claiming = true }) t refl)
