-- ===== src/Results/Tests.antt =====
-- Ada publishes the result of the task that is assigned to her.
use trust_gate.Prelude.{
  String, Bool, true, ◌≡◌, refl, some, [], ◌∷◌, arith, inl, ◌==◌, if◌then◌else◌,
}
use trust_gate.Json.{Json, Entries}
use trust_gate.Json.Order.{Same, SameEntries}
use trust_gate.Schema.{RequestBody, str, string_field}
use trust_gate.Samples.{sample_env, sample_world, ada}
use trust_gate.Server.{Env, TaskResultRecord}
use trust_gate.Server.Action.{Body, Response, answered}
use trust_gate.Table.{find, upsert}
use trust_gate.Results.{
  publish_result, admit_publication, publish, upsert_result, payload_row, get_result,
  payload_hash_of,
}
use trust_gate.Results.Publication.{MayPublish, payload_hash_of-Same, publish_result-MayPublish}

abbrev result_body : RequestBody
result_body = ("executorPublicKey", str ada) ∷ []

abbrev empty_object : Json
empty_object = Json.object Entries.no_entries

abbrev result_created : Response
result_created = record { status = 201; body = Body.published "t2" "sha256:{}" }

published :
    (publish_result sample_env "t2" result_body (some empty_object) sample_world).0
    ≡ answered result_created
unfolding publish_result admit_publication publish upsert_result payload_row find string_field
    upsert
published = refl

publish_result-MayPublish_example :
    (executor : String) × (value : Json) × (stored : TaskResultRecord) × MayPublish sample_env "t2"
      result_body sample_world executor
    × (some empty_object ≡ some value)
    × (payload_row sample_env value ≡ some stored.payload)
    × (stored.payload_hash ≡ payload_hash_of sample_env value)
    × (get_result "t2"
          (publish_result sample_env "t2" result_body (some empty_object) sample_world).1
        ≡ (
          answered (record { status = 200; body = Body.result stored }),
          (publish_result sample_env "t2" result_body (some empty_object) sample_world).1,
        ))
publish_result-MayPublish_example =
    publish_result-MayPublish sample_env "t2" result_body (some empty_object) sample_world
      result_created published refl

-- an order on two keys
abbrev key_order : String → String → Bool
key_order i j = if j == "a" then i == "a" else true

abbrev ordering_env : Env
ordering_env = record sample_env { before = key_order }

abbrev entries : String → String → Json
entries i j = Json.object (Entries.entry i Json.null (Entries.entry j Json.null Entries.no_entries))

payload_hash_of-Same_example :
    payload_hash_of ordering_env (entries "a" "b") ≡ payload_hash_of ordering_env (entries "b" "a")
payload_hash_of-Same_example =
    payload_hash_of-Same ordering_env (λ i j k first second. ground arith)
      (Same.same_object
        (SameEntries.swapped "a" "b" Json.null Json.null Entries.no_entries (inl (refl, refl))))
