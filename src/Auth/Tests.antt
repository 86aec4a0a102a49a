-- ===== src/Auth/Tests.antt =====
-- Ada takes a nonce and signs a request with it.
use trust_gate.Prelude.{true, false, ◌≡◌, ◌≢◌, refl, none, some, inr, ◌⊎◌}
use trust_gate.Money.{trim}
use trust_gate.Schema.{string_field}
use trust_gate.Samples.{ada}
use trust_gate.Server.Action.{next}
use trust_gate.Samples.Signing.{signing_env, lenient_env, signed_request, signed_options}
use trust_gate.Auth.Memory.{memory, empty_memory}
use trust_gate.Auth.{signature_auth, issue_nonce, server_nonce_key, nonce_key, legacy_nonce_key}
use trust_gate.Auth.Accepted.{IsAuthentic, signature_auth-IsAuthentic}
use trust_gate.Auth.Nonces.{Later, signature_auth_once}
use trust_gate.Auth.Issued.{signature_auth_replays, issue_nonce_passes}

abbrev issued_store : memory.Store
issued_store = (issue_nonce memory signing_env ada "::1" empty_memory).1

issued_ok : (issue_nonce memory signing_env ada "::1" empty_memory).0.status ≡ 200
unfolding memory issue_nonce empty_memory
issued_ok = refl

passes :
    (signature_auth memory signing_env signed_options signed_request issued_store).0
    ≡ next (some ada)
unfolding signature_auth issue_nonce memory empty_memory string_field trim
passes = refl

passes_leniently :
    (signature_auth memory lenient_env signed_options signed_request issued_store).0
    ≡ next (some ada)
unfolding signature_auth issue_nonce memory empty_memory string_field trim
passes_leniently = refl

signature_auth-IsAuthentic_example :
    (ada ≡ signed_request.public_key)
    × IsAuthentic memory signing_env signed_options signed_request
    × ((memory.get (server_nonce_key ada "n1") issued_store ≡ some "1000") ⊎ (false ≡ true))
signature_auth-IsAuthentic_example =
    signature_auth-IsAuthentic memory signing_env signed_options signed_request issued_store ada
      passes

signature_auth_once_example :
    (signature_auth memory signing_env signed_options signed_request
      (signature_auth memory signing_env signed_options signed_request issued_store).1).0
    ≢ next (some ada)
signature_auth_once_example =
    signature_auth_once memory signing_env signed_options signed_request issued_store ada passes
      signing_env signed_options signed_request
      (signature_auth memory signing_env signed_options signed_request issued_store).1 ada Later.now
      refl refl refl

issued_there : memory.get (server_nonce_key ada "n1") issued_store ≡ some "1000"
unfolding issue_nonce memory empty_memory server_nonce_key nonce_key
issued_there = refl

legacy_free : memory.get (legacy_nonce_key ada "n1") issued_store ≡ none
unfolding issue_nonce memory empty_memory legacy_nonce_key nonce_key
legacy_free = refl

signature_auth_replays_example :
    (signature_auth memory lenient_env signed_options signed_request
      (signature_auth memory lenient_env signed_options signed_request issued_store).1).0
    ≡ next (some ada)
signature_auth_replays_example =
    signature_auth_replays memory lenient_env signed_options signed_request issued_store ada refl
      legacy_free issued_there passes_leniently

authentic : IsAuthentic memory signing_env signed_options signed_request
authentic =
    let shown =
      signature_auth-IsAuthentic memory signing_env signed_options signed_request issued_store ada
        passes in
    shown.1

issue_nonce_passes_example :
    (signature_auth memory signing_env signed_options signed_request issued_store).0
    ≡ next (some ada)
issue_nonce_passes_example =
    issue_nonce_passes memory signing_env signing_env signed_options signed_request "::1"
      empty_memory issued_store issued_ok refl refl refl authentic refl (inr refl) refl refl
