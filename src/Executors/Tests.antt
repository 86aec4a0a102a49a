-- ===== src/Executors/Tests.antt =====
-- Ada registers.
use trust_gate.Money.{trim}
use trust_gate.Prelude.{String, false, ◌≡◌, refl, some, [], ◌∷◌}
use trust_gate.Schema.{RequestBody, str, string_field}
use trust_gate.Samples.{sample_env, sample_world, ada}
use trust_gate.Server.{ExecutorRecord}
use trust_gate.Server.Action.{Body, Response, answered}
use trust_gate.Executors.{
  register, register_local, find_executor, is_blank, new_executor, takes_executor, store_executor,
}
use trust_gate.Executors.Registration.{Names, InRegistry, register-InRegistry}

abbrev register_body : RequestBody
register_body = ("secret", str "S") ∷ ("metadataUri", str "ipfs") ∷ []

abbrev registered_response : Response
registered_response = record {
  status = 201;
  body = Body.executor (record { public_key = ada; metadata_uri = "ipfs"; registered_at = 1000 });
}

registered : (register sample_env register_body sample_world).0 ≡ answered registered_response
unfolding register register_local string_field trim store_executor takes_executor
registered = refl

register-InRegistry_example :
    (public_key metadata_uri : String) × Names sample_env register_body public_key
    × (string_field "metadataUri" register_body ≡ some metadata_uri)
    × InRegistry sample_env public_key metadata_uri
    × (registered_response.body
        ≡ Body.executor (new_executor sample_env public_key metadata_uri sample_world))
    × (is_blank metadata_uri ≡ false)
    × ((stored : ExecutorRecord) × (find_executor public_key
            (register sample_env register_body sample_world).1
          ≡ some stored)
        × (stored.metadata_uri ≡ metadata_uri))
register-InRegistry_example =
    register-InRegistry sample_env register_body sample_world registered_response registered refl
