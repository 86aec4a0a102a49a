-- ===== src/Consumer/Tests.antt =====
-- A claim that fails, and a reply with two entries.
use trust_gate.Prelude.{ℕ, suc, String, Option, none, true, ◌≡◌, refl, List, [], ◌∷◌}
use trust_gate.Server.{Result, ok, err}
use trust_gate.Consumer.{
  Reply, null, bulk, array, StreamEntry, EventConsumer, new_consumer, auto_claim_once,
}
use trust_gate.Consumer.Claiming.{auto_claim_once_stuck}

abbrev text_of : Reply → String
text_of null = "null"
text_of (bulk s) = s
text_of (array replies) = ""

-- a handler that counts the entries
abbrev counting : StreamEntry → ℕ → Option String × ℕ
counting entry n = (none, suc n)

abbrev stuck_consumer : EventConsumer
stuck_consumer = record new_consumer { claiming = true }

auto_claim_once_stuck_example :
    let (count, c1, s1) = auto_claim_once text_of counting (λ _. err "down") new_consumer 0 in
    (count ≡ err "down")
    × (s1 ≡ 0)
    × ((answers : String → Result Reply) (t : ℕ)
        → auto_claim_once text_of counting answers c1 t ≡ (ok 0, c1, t))
auto_claim_once_stuck_example =
    auto_claim_once_stuck text_of counting (λ _. err "down") new_consumer 0 "down" refl refl

abbrev two_entries : List StreamEntry
two_entries =
    record { id = "1-0"; fields = ("id", "e1") ∷ ("type", "bid_placed") ∷ [] }
    ∷ record { id = "2-0"; fields = [] }
    ∷ []
