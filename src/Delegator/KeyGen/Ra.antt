-- ===== src/Delegator/KeyGen/Ra.antt =====
-- src/delegator/key_gen/ra.rs and the tag of src/delegator/key_gen/observers.rs
use gluon_actor.Base.{Bool, String, [], if◌then◌else◌}
use gluon_actor.Base.HashMap.{HashMap, insert}
use gluon_actor.Proto.{TaskKeyGenerationApplyRequst, ChallangeStoreItem}
use gluon_actor.Common.Properties.{has_property}
use gluon_actor.Common.Utils.{send_ra_request}
use gluon_actor.Host.{Host, M, Event, perform, ◌>>◌, binding_name}

abbrev pub property_task_id : String
property_task_id = "task_id"

abbrev pub property_rsa_pub_key : String
property_rsa_pub_key = "rsa_pub_key"

abbrev pub property_delegator_ra_target_role : String
property_delegator_ra_target_role = "delegator_ra_target_role"

abbrev pub value_ra_target_executor : String
value_ra_target_executor = "executor"

abbrev pub value_ra_target_initial_pinner : String
value_ra_target_initial_pinner = "initial_pinner"

abbrev pub property_key_gen_flag : String
property_key_gen_flag = "task_delegator_key_gen_flag"

unfoldable pub tag_for_key_gen : HashMap String → HashMap String
unfolding insert
tag_for_key_gen settings = insert property_key_gen_flag binding_name settings

unfoldable pub is_key_gen_tag : ChallangeStoreItem → Bool
is_key_gen_tag item = has_property property_key_gen_flag binding_name item.properties

unfoldable pub is_executor_ra_response : ChallangeStoreItem → Bool
is_executor_ra_response item =
    has_property property_delegator_ra_target_role value_ra_target_executor item.properties

unfoldable pub is_initial_pinner_ra_response : ChallangeStoreItem → Bool
is_initial_pinner_ra_response item =
    has_property property_delegator_ra_target_role value_ra_target_initial_pinner item.properties

module _ ⦃H : Host⦄ where
  unfoldable pub executor_properties : TaskKeyGenerationApplyRequst → HashMap String
  unfolding tag_for_key_gen
  executor_properties request = tag_for_key_gen (
      insert property_delegator_ra_target_role value_ra_target_executor (
        insert property_rsa_pub_key (H.base64_encode request.rsa_pub_key)
          (insert property_task_id request.task_id [])))

  unfoldable pub remote_attestation_executor :
      TaskKeyGenerationApplyRequst → String → String → M (Unit {0})
  remote_attestation_executor request peer_id reply_to = do
    perform (Event.response_reply reply_to "key generation to ra executor sent")
    send_ra_request peer_id (executor_properties request)

  unfoldable pub initial_pinner_properties : TaskKeyGenerationApplyRequst → HashMap String
  unfolding tag_for_key_gen
  initial_pinner_properties request = tag_for_key_gen (
      insert property_delegator_ra_target_role value_ra_target_initial_pinner (
        insert property_rsa_pub_key (H.base64_encode request.rsa_pub_key)
          (insert property_task_id request.task_id [])))

  unfoldable pub remote_attestation_initial_pinner :
      TaskKeyGenerationApplyRequst → String → String → M (Unit {0})
  remote_attestation_initial_pinner request peer_id reply_to = do
    perform (Event.response_reply reply_to "key generation to ra initial pinner sent")
    send_ra_request peer_id (initial_pinner_properties request)

  -- `task_key_generation_apply_request_handler` of src/delegator/handler.rs
  unfoldable pub task_key_generation_apply_request_handler :
      TaskKeyGenerationApplyRequst → String → String → M (Unit {0})
  task_key_generation_apply_request_handler request peer_id reply_to =
      if request.apply_executor
      then remote_attestation_executor request peer_id reply_to
      else remote_attestation_initial_pinner request peer_id reply_to
