-- ===== src/Delegator/KeyGen/Observers.antt =====
-- src/delegator/key_gen/observers/client_observer.rs
use gluon_actor.Base.{Bool, String, Error, ok_or, if◌then◌else◌, true, false}
use gluon_actor.Base.Bytes.{Bytes}
use gluon_actor.Proto.{ChallangeStoreItem}
use gluon_actor.Common.Properties.{find_property}
use gluon_actor.Host.{Host, M, pure, lift, ◌>>=◌, ◌>>◌}
use gluon_actor.Delegator.KeyGen.StoreItem.{
  DelegatorKeyGenStoreItem, StoreItemState, insert_executor, insert_initial_pinner,
}
use gluon_actor.Delegator.KeyGen.Store.{get, save}
use gluon_actor.Delegator.KeyGen.Ra.{
  property_task_id, property_rsa_pub_key, is_executor_ra_response, is_initial_pinner_ra_response,
}
use gluon_actor.Delegator.KeyGen.Handlers.{try_send_to_executor}

-- `state == StoreItemState::InvitedCandidates`
abbrev pub is_inviting : StoreItemState → Bool
is_inviting StoreItemState.invited_candidates = true
is_inviting _ = false

module _ ⦃H : Host⦄ where
  unfoldable pub on_executor_ra_success : String → String → Bytes → M (Unit {0})
  on_executor_ra_success task_id peer_id rsa_pub_key = do
    store_item ← get task_id
    if is_inviting store_item.state
        then (do
          let with_executor : DelegatorKeyGenStoreItem =
              insert_executor (record { peer_id = peer_id; rsa_pub_key = rsa_pub_key }) store_item
          save with_executor
          try_send_to_executor with_executor)
        else pure tt

  unfoldable pub on_initial_pinner_ra_success : String → String → Bytes → M (Unit {0})
  on_initial_pinner_ra_success task_id peer_id rsa_pub_key = do
    store_item ← get task_id
    if is_inviting store_item.state
        then (do
          let with_pinner : DelegatorKeyGenStoreItem =
              insert_initial_pinner (record { peer_id = peer_id; rsa_pub_key = rsa_pub_key })
                store_item
          save with_pinner
          try_send_to_executor with_pinner)
        else pure tt

  unfoldable pub operation_after_verify_handler : String → Bytes → ChallangeStoreItem → M (Unit {0})
  operation_after_verify_handler peer_id _ item = do
    task_id ← lift (
        ok_or (find_property property_task_id item.properties)
          (Error.property_missing property_task_id))
    encoded ← lift (
        ok_or (find_property property_rsa_pub_key item.properties)
          (Error.property_missing property_rsa_pub_key))
    rsa_pub_key ← lift (H.base64_decode encoded)
    if is_executor_ra_response item
        then on_executor_ra_success task_id peer_id rsa_pub_key
        else if is_initial_pinner_ra_response item
        then on_initial_pinner_ra_success task_id peer_id rsa_pub_key
        else pure tt
