-- ===== src/Delegator/Sign/Observers.antt =====
-- src/delegator/sign/observers/client_observer.rs
use gluon_actor.Base.{
  String, List, [], ◌∷◌, none, some, Result, ok, err, Error, ok_or, is_some, if◌then◌else◌,
}
use gluon_actor.Base.Bytes.{Bytes}
use gluon_actor.Base.HashMap.{HashMap}
use gluon_actor.Proto.{GeneralMsg, ChallangeStoreItem}
use gluon_actor.Common.Properties.{find_property}
use gluon_actor.Common.Utils.{for_each}
use gluon_actor.Host.{Host, M, Event, pure, lift, perform, ◌>>=◌, ◌>>◌}
use gluon_actor.Delegator.Sign.StoreItem.{
  DelegatorSignStoreItem, has_found_key_slice, insert_deployment, pop_all_candidates,
  ready_send_to_executor,
}
use gluon_actor.Delegator.Sign.Store.{get, save}
use gluon_actor.Delegator.Sign.Ra.{
  property_task_id, property_rsa_pub_key, is_executor_ra_response, is_pinner_ra_response,
}
use gluon_actor.Delegator.Sign.Handlers.{try_send_to_executor}

abbrev pub property_key_deployment_id : String
property_key_deployment_id = "deployment_id"

-- `item.executor.as_ref().unwrap().rsa_pub_key`
abbrev pub executor_key : DelegatorSignStoreItem → Result Bytes
executor_key item = elim item.executor [ none ↦ err Error.panic | some e ↦ ok e.rsa_pub_key ]

module _ ⦃H : Host⦄ where
  unfoldable pub send_get_pinner_key_slice_request :
      String → String → String → DelegatorSignStoreItem → M (Unit {0})
  send_get_pinner_key_slice_request task_id peer_id deployment_id item = do
    rsa_pub_key ← lift (executor_key item)
    perform (
        Event.send_message peer_id task_id (
          GeneralMsg.task_sign_get_pinner_key_slice_request (record {
            task_id = task_id;
            rsa_pub_key = rsa_pub_key;
            deployment_id = deployment_id;
          })))

  -- `for (deployment_id, peers) in candidates { for peer_id in peers { .. } }`
  unfoldable pub ask_candidates :
      String → DelegatorSignStoreItem → HashMap (List String) → M (Unit {0})
  unfolding send_get_pinner_key_slice_request
  ask_candidates task_id item [] = pure tt
  ask_candidates task_id item ((deployment_id, peers) ∷ candidates) = do
    for_each (λ peer_id. send_get_pinner_key_slice_request task_id peer_id deployment_id item) peers
    ask_candidates task_id item candidates

  unfoldable pub on_executor_ra_success : String → String → Bytes → M (Unit {0})
  on_executor_ra_success task_id peer_id rsa_pub_key = do
    stored ← get task_id
    if is_some stored.executor then pure tt else do
      let with_executor : DelegatorSignStoreItem = record stored {
        executor = some (record { peer_id = peer_id; rsa_pub_key = rsa_pub_key });
      }
      let (candidates, store_item) = pop_all_candidates with_executor
      save store_item
      if ready_send_to_executor store_item
          then try_send_to_executor store_item
          else ask_candidates task_id store_item candidates

  unfoldable pub on_pinner_ra_success : String → String → String → M (Unit {0})
  on_pinner_ra_success task_id peer_id deployment_id = do
    store_item ← get task_id
    if has_found_key_slice store_item deployment_id
        then pure tt
        else if is_some store_item.executor
        then send_get_pinner_key_slice_request task_id peer_id deployment_id store_item
        else do inserted ← lift (insert_deployment deployment_id peer_id store_item); save inserted

  unfoldable pub operation_after_verify_handler : String → Bytes → ChallangeStoreItem → M (Unit {0})
  operation_after_verify_handler peer_id _ item = do
    task_id ← lift (
        ok_or (find_property property_task_id item.properties)
          (Error.property_missing property_task_id))
    if is_executor_ra_response item
        then (do
          encoded ← lift (
              ok_or (find_property property_rsa_pub_key item.properties)
                (Error.property_missing property_rsa_pub_key))
          rsa_pub_key ← lift (H.base64_decode encoded)
          on_executor_ra_success task_id peer_id rsa_pub_key)
        else if is_pinner_ra_response item
        then (do
          deployment_id ← lift (
              ok_or (find_property property_key_deployment_id item.properties)
                (Error.property_missing property_key_deployment_id))
          on_pinner_ra_success task_id peer_id deployment_id)
        else pure tt
