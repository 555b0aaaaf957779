-- ===== src/Tests/Requests.antt =====
-- The theorems on requests and attestations at concrete ones.
use gluon_actor.Base.{◌≤◌, ◌≡◌, ◌↔◌, refl, true, String, [], ◌∷◌, ok, arith}
use gluon_actor.Base.Bytes.{as_bytes}
use gluon_actor.Base.HashMap
use gluon_actor.Proto.{
  TaskKeyGenerationApplyRequst, TaskSignWithKeySlicesRequst, KeyGenerationCandidateRequest,
}
use gluon_actor.Common.TaskInfo.{of_candidate_request}
use gluon_actor.Common.TaskInfo.Laws.{IsValid, of_candidate_request_iff}
use gluon_actor.Host.{Event}
use gluon_actor.Host.Callbacks.{Role}
use gluon_actor.Delegator.KeyGen.Ra
use gluon_actor.Delegator.Sign.Ra as SignRa
use gluon_actor.Delegator.Sign.Observers as SignObservers
use gluon_actor.Actor.{operation_after_verify, check_strategy}
use gluon_actor.Actor.Attestation.{ComesBack, key_gen_roundtrip, sign_roundtrip, verified}
use gluon_actor.Common.KeyGeneration.{
  to_candidate_signature_bytes, send_key_candidate_request, verify_to_candidate_signature,
}
use gluon_actor.Common.KeyGeneration.Signature.{
  signed_request, to_candidate_signature_bytes_injective, candidate_request_verifies,
}
use gluon_actor.Proto.{GeneralMsg}
use gluon_actor.Host.{perform, ◌>>◌}
use gluon_actor.Common.Utils.{send_ra_request}
use gluon_actor.Host.Callbacks.{got_delegator_profile}
use gluon_actor.Tests.Memory.{memory-verifies, memory}
use gluon_actor.Tests.Data.{two_of_three, executor_a, invited_world}

abbrev application : TaskKeyGenerationApplyRequst
application = record { task_id = "AQ=="; rsa_pub_key = 3 ∷ []; apply_executor = true }

key_gen_roundtrip_example :
    (notice : String) × (properties : HashMap.HashMap String)
    × (Ra.task_key_generation_apply_request_handler ⦃H = memory⦄ application "A" "reply"
        ≡ ◌>>◌ ⦃H = memory⦄
            (perform ⦃H = memory⦄ (Event.response_reply "reply" notice))
            (send_ra_request ⦃H = memory⦄ "A" properties))
    × ComesBack ⦃H = memory⦄ "uuid" "A" (1 ∷ []) Role.executor application properties
key_gen_roundtrip_example =
    key_gen_roundtrip ⦃H = memory⦄ "uuid" "A" (1 ∷ []) application "reply" refl

abbrev sign_application : TaskSignWithKeySlicesRequst
sign_application = record { task_id = "AQ=="; rsa_pub_key = 3 ∷ [] }

sign_roundtrip_example :
    (check_strategy ⦃H = memory⦄ (
        verified ⦃H = memory⦄ "uuid" "A"
          (1 ∷ [])
          (SignRa.executor_ra_properties ⦃H = memory⦄ sign_application))
      ≡ ok true)
    × (operation_after_verify ⦃H = memory⦄ "A" (1 ∷ []) (
          verified ⦃H = memory⦄ "uuid" "A"
            (1 ∷ [])
            (SignRa.executor_ra_properties ⦃H = memory⦄ sign_application))
        ≡ SignObservers.on_executor_ra_success ⦃H = memory⦄ "AQ==" "A" (3 ∷ []))
    × (check_strategy ⦃H = memory⦄ (
          verified ⦃H = memory⦄ "uuid" "A" (1 ∷ []) (
            HashMap.insert SignObservers.property_key_deployment_id "d"
              (SignRa.generate_pinner_ra_properties "AQ==")))
        ≡ ok true)
    × (operation_after_verify ⦃H = memory⦄ "A" (1 ∷ []) (
          verified ⦃H = memory⦄ "uuid" "A" (1 ∷ []) (
            HashMap.insert SignObservers.property_key_deployment_id "d"
              (SignRa.generate_pinner_ra_properties "AQ==")))
        ≡ SignObservers.on_pinner_ra_success ⦃H = memory⦄ "AQ==" "A" "d")
sign_roundtrip_example =
    sign_roundtrip ⦃H = memory⦄ "uuid" "A" (1 ∷ []) sign_application "AQ==" "d" refl

abbrev candidate_request : KeyGenerationCandidateRequest
candidate_request = record {
  task_id = "AQ==";
  n = 259;
  k = 2;
  key_type = "bitcoin";
  delegator_ephemeral_id = 1 ∷ [];
  executor = true;
  signature = [];
}

of_candidate_request_iff_example :
    (of_candidate_request candidate_request ≡ ok two_of_three)
    ↔ (IsValid two_of_three × (3 ≤ 255) × (two_of_three ≡ two_of_three))
of_candidate_request_iff_example = of_candidate_request_iff candidate_request two_of_three

to_candidate_signature_bytes_injective_example :
    (as_bytes "AQ==" ≡ as_bytes "AQ==")
    × (two_of_three.exec_info.n ≡ 3)
    × (two_of_three.exec_info.k ≡ 2)
    × (as_bytes "bitcoin" ≡ as_bytes "bitcoin")
    × (executor_a.rsa_pub_key ≡ executor_a.rsa_pub_key)
    × (true ≡ true)
to_candidate_signature_bytes_injective_example =
    to_candidate_signature_bytes_injective "AQ==" "AQ==" 3 3 2 2 "bitcoin" "bitcoin" (1 ∷ [])
      (1 ∷ []) true true (omega arith, omega arith, omega arith, omega arith) refl refl refl

candidate_request_verifies_example :
    (send_key_candidate_request ⦃H = memory⦄ "A" two_of_three true invited_world
      ≡ perform ⦃H = memory⦄
          (Event.send_message "A" "AQ==" (
            GeneralMsg.key_generation_candidate_request (
              signed_request ⦃H = memory⦄
                (1 ∷ [])
                two_of_three
                true
                (to_candidate_signature_bytes "AQ==" 3 2 "bitcoin" (1 ∷ []) true))))
          invited_world)
    × (verify_to_candidate_signature ⦃H = memory⦄ "delegator"
          (signed_request ⦃H = memory⦄
            (1 ∷ [])
            two_of_three
            true
            (to_candidate_signature_bytes "AQ==" 3 2 "bitcoin" (1 ∷ []) true))
          Role.executor
          invited_world
        ≡ perform ⦃H = memory⦄
            (Event.lookup_node_profile (1 ∷ []) (
              got_delegator_profile "delegator"
                (signed_request ⦃H = memory⦄
                  (1 ∷ [])
                  two_of_three
                  true
                  (to_candidate_signature_bytes "AQ==" 3 2 "bitcoin" (1 ∷ []) true))
                Role.executor))
            invited_world)
candidate_request_verifies_example =
    candidate_request_verifies ⦃H = memory⦄ (1 ∷ []) two_of_three true
      (to_candidate_signature_bytes "AQ==" 3 2 "bitcoin" (1 ∷ []) true) "A" "delegator"
      Role.executor invited_world invited_world refl memory-verifies refl
