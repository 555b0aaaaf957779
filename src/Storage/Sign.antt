-- ===== src/Storage/Sign.antt =====
-- What the handlers of src/delegator/sign leave in the store.
use gluon_actor.Base.{◌≡◌, ◌∙◌, ap, refl, arith, Option, none, some, String, List, [], ◌∷◌, ok}
use gluon_actor.Base.HashMap.{HashMap}
use gluon_actor.Base.Bytes.{Bytes}
use gluon_actor.Proto.{
  SignTransactionResponse, TaskSignWithKeySlicesRequst, TaskCommitSignResultRequest,
  TaskSignGetPinnerKeySliceResponse, ChallangeStoreItem,
}
use gluon_actor.Common.TaskInfo.{TaskInfo}
use gluon_actor.Common.Utils.{send_ra_request, invite_candidate_executors}
use gluon_actor.Common.Properties.{find_property}
use gluon_actor.Host.{Host, Kind, binding_name}
use gluon_actor.Delegator.DumpMethods
use gluon_actor.Delegator.Sign.StoreItem
use gluon_actor.Delegator.Sign.StoreItem.{DelegatorSignStoreItem, KeySliceInfo}
use gluon_actor.Delegator.Sign.Ra
use gluon_actor.Delegator.Sign.Handlers
use gluon_actor.Delegator.Sign.Observers
use gluon_actor.Storage.Keeps.{
  Keeps, keeps_rules, Keeps-for_each, Keeps-lift, Keeps-kvp_get, Keeps-bind, Keeps-bind_lift,
}
use gluon_actor.Storage.Tasks.{AllowsTask, Keeps-read_sign_item, task_rules, ok_or_inv}

init_deployment_resources_task :
    (ids : List String) (item : DelegatorSignStoreItem)
    → (StoreItem.init_deployment_resources ids item).task_info ≡ item.task_info
unfolding StoreItem.init_deployment_resources
init_deployment_resources_task [] item = refl
init_deployment_resources_task (id ∷ ids) item = init_deployment_resources_task ids _

insert_deployment_owned :
    (id peer_id : String) (task_id : String) (item inserted : DelegatorSignStoreItem)
    → StoreItem.insert_deployment id peer_id item ≡ ok inserted
    → item.task_info.task_id ≡ task_id
    → inserted.task_info.task_id ≡ task_id
unfolding StoreItem.insert_deployment
insert_deployment_owned id peer_id task_id item inserted e owned = ground arith

insert_key_slice_info_owned :
    (id : String) (info : KeySliceInfo) (task_id : String) (item inserted : DelegatorSignStoreItem)
    → StoreItem.insert_key_slice_info id info item ≡ ok inserted
    → item.task_info.task_id ≡ task_id
    → inserted.task_info.task_id ≡ task_id
unfolding StoreItem.insert_key_slice_info
insert_key_slice_info_owned id info task_id item inserted e owned = ground arith

module _ ⦃H : Host⦄ where
  initial_item_task :
      (res : SignTransactionResponse) (nonce : Bytes) (ids : List String)
      → (Handlers.initial_item res nonce ids).task_info.task_id ≡ H.base64_encode res.task_id
  unfolding Handlers.initial_item StoreItem.of_response
  initial_item_task res nonce ids =
      ap (λ (i : TaskInfo). i.task_id) (init_deployment_resources_task ids _)

module _ ⦃H : Host⦄ {I : H.Kv → Type 0} where
  pub send_sign_candidate_request-Keeps :
      (item : DelegatorSignStoreItem) (info : TaskInfo) (peer_id : String)
      → Keeps I (Handlers.send_sign_candidate_request item info peer_id)
  unfolding Handlers.send_sign_candidate_request
  send_sign_candidate_request-Keeps item info peer_id = search keeps_rules

  begin_find_pinners-Keeps :
      (id : String) (properties : HashMap String)
      → Keeps I (Handlers.begin_find_pinners id properties)
  unfolding Handlers.begin_find_pinners
  begin_find_pinners-Keeps id properties = search keeps_rules

  remote_attestation_executor-Keeps :
      (req : TaskSignWithKeySlicesRequst) (peer_id reply_to : String)
      → Keeps I (Ra.remote_attestation_executor req peer_id reply_to)
  unfolding Ra.remote_attestation_executor send_ra_request
  remote_attestation_executor-Keeps req peer_id reply_to = search keeps_rules

  send_get_pinner_key_slice_request-Keeps :
      (task_id peer_id deployment_id : String) (item : DelegatorSignStoreItem)
      → Keeps I (Observers.send_get_pinner_key_slice_request task_id peer_id deployment_id item)
  unfolding Observers.send_get_pinner_key_slice_request
  send_get_pinner_key_slice_request-Keeps task_id peer_id deployment_id item = search keeps_rules

  ask_candidates-Keeps :
      (task_id : String) (item : DelegatorSignStoreItem) (candidates : HashMap (List String))
      → Keeps I (Observers.ask_candidates task_id item candidates)
  unfolding Observers.ask_candidates
  ask_candidates-Keeps task_id item [] = Keeps-lift (ok tt)
  ask_candidates-Keeps task_id item ((deployment_id, peers) ∷ candidates) =
      Keeps-bind _ _
        (Keeps-for_each _ peers
          (λ peer_id. send_get_pinner_key_slice_request-Keeps task_id peer_id deployment_id item))
        λ _. ask_candidates-Keeps task_id item candidates

  module _ {task_id : String} (A : AllowsTask I task_id) where
    begin_signing-Keeps :
        (nonce : Bytes) (res : SignTransactionResponse) (ids : List String)
        → H.base64_encode res.task_id ≡ task_id
        → Keeps I (Handlers.begin_signing nonce res ids)
    unfolding Handlers.begin_signing invite_candidate_executors
    begin_signing-Keeps nonce res ids e =
        let owned : (Handlers.initial_item res nonce ids).task_info.task_id ≡ task_id =
          initial_item_task res nonce ids ∙ e in
        search task_rules

    pub on_deployment_ids-Keeps :
        (nonce : Bytes) (res : SignTransactionResponse) (body : Bytes)
        → H.base64_encode res.task_id ≡ task_id
        → Keeps I (Handlers.on_deployment_ids nonce res body)
    unfolding Handlers.on_deployment_ids
    on_deployment_ids-Keeps nonce res body e = search (begin_signing-Keeps, keeps_rules)

    mocked_ids-Keeps : Keeps I DumpMethods.get_deployment_ids
    unfolding DumpMethods.get_deployment_ids
    mocked_ids-Keeps = Keeps-kvp_get Kind.deployment_ids binding_name DumpMethods.deployment_ids_key

    ask_deployment_ids-Keeps :
        (nonce : Bytes) (res : SignTransactionResponse)
        → Keeps I (Handlers.ask_deployment_ids nonce res)
    unfolding Handlers.ask_deployment_ids
    ask_deployment_ids-Keeps nonce res = search keeps_rules

    with_mocked_ids-Keeps :
        (nonce : Bytes) (res : SignTransactionResponse) (ids : Option (List String))
        → H.base64_encode res.task_id ≡ task_id
        → Keeps I (Handlers.with_mocked_ids nonce res ids)
    unfolding Handlers.with_mocked_ids
    with_mocked_ids-Keeps nonce res none e = ask_deployment_ids-Keeps nonce res
    with_mocked_ids-Keeps nonce res (some []) e = ask_deployment_ids-Keeps nonce res
    with_mocked_ids-Keeps nonce res (some (id ∷ ids)) e = begin_signing-Keeps nonce res (id ∷ ids) e

    pub on_delegator-Keeps :
        (res : SignTransactionResponse) (nonce : Bytes)
        → H.base64_encode res.task_id ≡ task_id
        → Keeps I (Handlers.on_delegator res nonce)
    unfolding Handlers.on_delegator Handlers.get_deployment_ids
    on_delegator-Keeps res nonce e =
        search (mocked_ids-Keeps, with_mocked_ids-Keeps, ask_deployment_ids-Keeps, keeps_rules)

    pub find_deployments-Keeps :
        (ids : List String) (properties : HashMap String) (info : TaskInfo)
        → info.task_id ≡ task_id
        → Keeps I (Handlers.find_deployments ids properties info)
    unfolding Handlers.find_deployments
    find_deployments-Keeps ids properties info e = search (begin_find_pinners-Keeps, task_rules)

    pub process_executor_request-Keeps :
        (req : TaskSignWithKeySlicesRequst) (peer_id reply_to : String)
        → Keeps I (Handlers.process_executor_sign_with_key_slices_request req peer_id reply_to)
    unfolding Handlers.process_executor_sign_with_key_slices_request
    process_executor_request-Keeps req peer_id reply_to =
        search (Keeps-read_sign_item, remote_attestation_executor-Keeps, keeps_rules)

    pub process_commit_sign_result_request-Keeps :
        (req : TaskCommitSignResultRequest) (peer_id reply_to : String)
        → req.task_id ≡ task_id
        → Keeps I (Handlers.process_commit_sign_result_request req peer_id reply_to)
    unfolding Handlers.process_commit_sign_result_request
    process_commit_sign_result_request-Keeps req peer_id reply_to e = search task_rules

    try_send_to_executor-Keeps :
        (item : DelegatorSignStoreItem)
        → item.task_info.task_id ≡ task_id
        → Keeps I (Handlers.try_send_to_executor item)
    unfolding Handlers.try_send_to_executor
    try_send_to_executor-Keeps item owned = search task_rules

    pub process_pinner_key_slice_response-Keeps :
        (res : TaskSignGetPinnerKeySliceResponse) (peer_id reply_to : String)
        → res.task_id ≡ task_id
        → Keeps I (Handlers.process_pinner_key_slice_response res peer_id reply_to)
    unfolding Handlers.process_pinner_key_slice_response
    process_pinner_key_slice_response-Keeps res peer_id reply_to e =
        search
          (Keeps-bind_lift, insert_key_slice_info_owned, task_rules, try_send_to_executor-Keeps)
          depth 12

    on_executor_ra_success-Keeps :
        (id peer_id : String) (key : Bytes)
        → id ≡ task_id
        → Keeps I (Observers.on_executor_ra_success id peer_id key)
    unfolding Observers.on_executor_ra_success StoreItem.pop_all_candidates
    on_executor_ra_success-Keeps id peer_id key e =
        search (task_rules, try_send_to_executor-Keeps, ask_candidates-Keeps)

    on_pinner_ra_success-Keeps :
        (id peer_id deployment_id : String)
        → id ≡ task_id
        → Keeps I (Observers.on_pinner_ra_success id peer_id deployment_id)
    unfolding Observers.on_pinner_ra_success
    on_pinner_ra_success-Keeps id peer_id deployment_id e =
        search
          (
            Keeps-bind_lift, insert_deployment_owned, task_rules,
            send_get_pinner_key_slice_request-Keeps,
          )
          depth 12

  -- The task is the one that the properties of the challenge name.
  pub operation_after_verify_handler-Keeps :
      (peer_id : String) (ephemeral_id : Bytes) (item : ChallangeStoreItem)
      → ((id : String)
          → find_property Ra.property_task_id item.properties ≡ some id
          → AllowsTask I id)
      → Keeps I (Observers.operation_after_verify_handler peer_id ephemeral_id item)
  unfolding Observers.operation_after_verify_handler
  operation_after_verify_handler-Keeps peer_id ephemeral_id item A = Keeps-bind_lift _ _ λ id e.
      let B : AllowsTask I id = A id (ok_or_inv _ _ id e) in
      search (keeps_rules, on_executor_ra_success-Keeps B, on_pinner_ra_success-Keeps B) depth 12
