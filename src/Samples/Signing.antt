-- ===== src/Samples/Signing.antt =====
-- A signed request, and the surroundings in which it is checked.
use trust_gate.Prelude.{true, false, [], ◌∷◌, none, some, ◌==◌, if◌then◌else◌}
use trust_gate.Money.{pos}
use trust_gate.Schema.{str}
use trust_gate.Samples.{ada}
use trust_gate.Http.{Request}
use trust_gate.Auth.{SignatureAuthOptions, AuthEnv}

abbrev pub signing_env : AuthEnv
signing_env = record {
  is_local = false;
  is_test = false;
  allow_client_nonce = false;
  redis_is_up = true;
  now = 1000;
  number = λ text. if text == "1000" then some (pos 1000) else none;
  digits = λ _. "1000";
  is_key = λ key. key == ada;
  verify = λ key payload signature. elim signature [ [] ↦ false | c ∷ s ↦ true ];
  from_hex = λ s. s;
  from_base64 = λ s. s;
  sha256 = λ _. [];
  uuid = "n1";
}

abbrev pub lenient_env : AuthEnv
lenient_env = record signing_env { allow_client_nonce = true }

abbrev pub signed_request : Request
signed_request = record {
  method = "POST";
  url = "/bids";
  ip = "::1";
  public_key = ada;
  timestamp = "1000";
  nonce = "n1";
  signature = "sig";
  idempotency_key = "";
  admin_secret = "";
  body = ("executor", str ada) ∷ [];
  raw_body = [];
}

abbrev pub signed_options : SignatureAuthOptions
signed_options = record {
  required = true;
  match_body_field = some "executor";
  nonce_ttl_seconds = 600;
  enforce_in_local = false;
}
