-- ===== src/Delegator/Sign/Ra.antt =====
-- src/delegator/sign/ra.rs and the tag of src/delegator/sign/observers.rs
use gluon_actor.Base.{Bool, String, []}
use gluon_actor.Base.HashMap.{HashMap, insert}
use gluon_actor.Proto.{TaskSignWithKeySlicesRequst, ChallangeStoreItem}
use gluon_actor.Common.Properties.{has_property}
use gluon_actor.Common.Utils.{send_ra_request}
use gluon_actor.Host.{Host, M, Event, perform, ◌>>◌, binding_name}

abbrev pub property_task_id : String
property_task_id = "task_id"

abbrev pub property_rsa_pub_key : String
property_rsa_pub_key = "rsa_pub_key"

abbrev pub property_delegator_ra_target_role : String
property_delegator_ra_target_role = "delegator_sign_ra_target_role"

abbrev pub value_ra_target_executor : String
value_ra_target_executor = "executor"

abbrev pub value_ra_target_pinner : String
value_ra_target_pinner = "pinner"

abbrev pub property_sign_flag : String
property_sign_flag = "task_delegator_sign_flag"

unfoldable pub tag_for_sign : HashMap String → HashMap String
unfolding insert
tag_for_sign settings = insert property_sign_flag binding_name settings

unfoldable pub is_sign_tag : ChallangeStoreItem → Bool
is_sign_tag item = has_property property_sign_flag binding_name item.properties

unfoldable pub is_executor_ra_response : ChallangeStoreItem → Bool
is_executor_ra_response item =
    has_property property_delegator_ra_target_role value_ra_target_executor item.properties

unfoldable pub is_pinner_ra_response : ChallangeStoreItem → Bool
is_pinner_ra_response item =
    has_property property_delegator_ra_target_role value_ra_target_pinner item.properties

unfoldable pub generate_pinner_ra_properties : String → HashMap String
unfolding tag_for_sign
generate_pinner_ra_properties task_id = tag_for_sign (
    insert property_delegator_ra_target_role value_ra_target_pinner
      (insert property_task_id task_id []))

module _ ⦃H : Host⦄ where
  unfoldable pub executor_ra_properties : TaskSignWithKeySlicesRequst → HashMap String
  unfolding tag_for_sign
  executor_ra_properties request = tag_for_sign (
      insert property_delegator_ra_target_role value_ra_target_executor (
        insert property_rsa_pub_key (H.base64_encode request.rsa_pub_key)
          (insert property_task_id request.task_id [])))

  unfoldable pub remote_attestation_executor :
      TaskSignWithKeySlicesRequst → String → String → M (Unit {0})
  remote_attestation_executor request peer_id reply_to = do
    perform (Event.response_reply reply_to "sign to ra executor sent")
    send_ra_request peer_id (executor_ra_properties request)
