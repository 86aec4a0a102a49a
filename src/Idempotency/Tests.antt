-- ===== src/Idempotency/Tests.antt =====
-- A bid that is sent twice.
use trust_gate.Prelude.{ℕ, suc, ◌≡◌, refl, [], ◌∷◌, none, some, true, arith, eq_iff}
use trust_gate.Schema.{str}
use trust_gate.Samples.{ada}
use trust_gate.Table.{find}
use trust_gate.Http.{Request}
use trust_gate.Server.Action.{Body, Response}
use trust_gate.Idempotency.{
  IdempotencyRecord, idempotency_key, PublicKeyFrom, IdempotencyOptions, Site, Handler, idempotency,
}
use trust_gate.Idempotency.Replay.{record_of, idempotency_replay}

abbrev keyed_request : Request
keyed_request = record {
  method = "POST";
  url = "/bids";
  ip = "::1";
  public_key = ada;
  timestamp = "";
  nonce = "";
  signature = "";
  idempotency_key = "k1";
  admin_secret = "";
  body = ("executor", str ada) ∷ [];
  raw_body = [];
}

abbrev bid_options : IdempotencyOptions
bid_options = record {
  scope = "bids:create";
  public_key_from = PublicKeyFrom.body_field "executor";
  require_header = true;
}

abbrev made : Response
made = record { status = 201; body = Body.error "made" }

-- a handler that counts its runs
abbrev counting : Handler ℕ
counting n = (some made, suc n)

abbrev empty_site : Site ℕ
empty_site = record { state = 0; rows = [] }

abbrev row : IdempotencyRecord
row = record_of (λ t. t) bid_options keyed_request none made

nothing_there : find idempotency_key "k1" [] ≡ none
unfolding find
nothing_there = refl

idempotency_replay_example :
    let first = idempotency (λ t. t) bid_options keyed_request none counting empty_site in
    (first.0 ≡ some made)
    × (first.1.state ≡ 1)
    × ((again : Handler ℕ) (later : Site ℕ)
        → find idempotency_key "k1" later.rows ≡ find idempotency_key "k1" first.1.rows
        → idempotency (λ t. t) bid_options keyed_request none again later ≡ (some made, later))
idempotency_replay_example =
    idempotency_replay (λ t. t) bid_options keyed_request none counting empty_site made 1
      (λ same. ground (arith, eq_iff "k1" "")) nothing_there refl (ground arith)

row_there : find idempotency_key "k1" (row ∷ []) ≡ some row
unfolding find
row_there = refl
