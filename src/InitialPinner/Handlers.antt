-- ===== src/InitialPinner/Handlers.antt =====
-- src/initial_pinner/handler.rs, and the guard of src/initial_pinner.rs. `willing_to_run` and
-- `check_capabilities` always allow the task.
use gluon_actor.Base.{
  Bool, true, false, not, String, ◌<>◌, Option, none, some, List, [], ◌∷◌, Result, ok, err, Error,
  if◌then◌else◌,
}
use gluon_actor.Base.Bytes.{Bytes}
use gluon_actor.Proto.{
  GeneralMsg, Request, KeyGenerationCandidateRequest, TaskPinnerKeySliceRequest,
}
use gluon_actor.Common.KeyGeneration.{
  verify_to_candidate_signature, send_key_generation_request, decrypt_key_slice,
}
use gluon_actor.Host.{
  Host, M, Event, Kind, Expiry, pure, lift, ask, perform, on_result, kvp_get, kvp_set, kvp_get_or,
  ◌>>=◌, ◌>>◌, binding_name,
}
use gluon_actor.Host.Callbacks.{Role, logged, registered_upload_key, processed_data_upload}
use gluon_actor.Executor.Store
use gluon_actor.InitialPinner.StoreItem.{
  InitialPinnerStoreItem, StoreItemState, of_candidate_request, of_executor_item,
}
use gluon_actor.InitialPinner.Store.{get, save}

abbrev willing_to_run : InitialPinnerStoreItem → Bool
willing_to_run _item = true

abbrev check_capabilities : InitialPinnerStoreItem → Result (Unit {0})
check_capabilities _item = ok tt

abbrev ids_of : Option String → List String
ids_of none = []
ids_of (some id) = id ∷ []

module _ ⦃H : Host⦄ where
  unfoldable pub get_temp_deployment_key : Bytes → String
  get_temp_deployment_key multi_sig_account = "depl-id" <> "-" <> H.base64_encode multi_sig_account

  unfoldable pub get_temp_data_cid_key : Bytes → String
  get_temp_data_cid_key multi_sig_account = "data-cid" <> "-" <> H.base64_encode multi_sig_account

  unfoldable pub commit_data_upload : Bytes → InitialPinnerStoreItem → M (Unit {0})
  commit_data_upload multi_sig_account _ = do
    cid_code ←
        kvp_get_or Kind.text binding_name (get_temp_data_cid_key multi_sig_account)
          Error.data_cid_missing
    deployment_id ←
        kvp_get_or Kind.text binding_name (get_temp_deployment_key multi_sig_account)
          Error.deployment_id_missing
    body ← lift (H.encode_protobuf (Request.commit_data_upload deployment_id cid_code))
    perform (Event.call_async_intercom "actor.pinner.intercom.commit_data_upload" body logged)

  unfoldable pub trying_commit_data_upload : String → Bytes → M (Unit {0})
  unfolding commit_data_upload
  trying_commit_data_upload task_id multi_sig_account =
      on_result (get task_id) (commit_data_upload multi_sig_account) (λ e. pure tt)

  unfoldable pub update_conflict_list : Bytes → List String → M (Unit {0})
  update_conflict_list multi_sig_account deployment_ids = do
    current ← kvp_get Kind.text binding_name (get_temp_deployment_key multi_sig_account)
    body ← lift (
        H.encode_protobuf
          (Request.update_conflict_list multi_sig_account deployment_ids (ids_of current) 1))
    perform (Event.call_async_intercom "actor.pinner.intercom.update_conflict_list" body logged)

  unfoldable pub trying_get_initial_pinner_store_item : String → M InitialPinnerStoreItem
  trying_get_initial_pinner_store_item task_id =
      on_result (get task_id) (λ item. pure item)
        λ e. do item ← Store.get task_id; pure (of_executor_item item)

  unfoldable pub deploy_key_slice :
      TaskPinnerKeySliceRequest → InitialPinnerStoreItem → String → String → M (Unit {0})
  deploy_key_slice req item peer_id reply_to = do
    session_id ← ask H.get_guid
    perform (
        Event.call_async_intercom ("actor.pinner.intercom.register_upload_rsa_key." <> session_id)
          [] (registered_upload_key session_id req item peer_id reply_to))

  unfoldable pub store_and_deploy :
      TaskPinnerKeySliceRequest → String → String → InitialPinnerStoreItem → M (Unit {0})
  unfolding deploy_key_slice
  store_and_deploy req peer_id reply_to stored = do
    let item : InitialPinnerStoreItem = record stored { state = StoreItemState.responded }
    save item
    deploy_key_slice req item peer_id reply_to

  unfoldable pub task_pinner_key_slice_request_handler :
      TaskPinnerKeySliceRequest → String → String → M (Unit {0})
  unfolding store_and_deploy
  task_pinner_key_slice_request_handler req peer_id reply_to =
      on_result (trying_get_initial_pinner_store_item req.task_id)
        (store_and_deploy req peer_id reply_to)
        (λ e. perform (Event.respond_error reply_to peer_id req.task_id e))

  -- The outer callback of `deploy_key_slice`: the slice is encrypted anew, and put into IPFS.
  unfoldable pub on_upload_key :
      String
      → TaskPinnerKeySliceRequest
      → InitialPinnerStoreItem
      → String
      → String
      → Bytes
      → M (Unit {0})
  on_upload_key session_id req item peer_id reply_to body = do
    key_slice ← decrypt_key_slice req.task_id req.encrypted_key_slice
    key1 ← ask H.generate_aes_key
    encrypted_data ← lift (H.aes_encrypt key1 key_slice)
    data_cid ← ask (H.ipfs_block_put encrypted_data)
    kvp_set Kind.text binding_name (get_temp_data_cid_key req.multi_sig_account) data_cid
        (Expiry.seconds 6000)
    pk_str ← lift (H.from_utf8 body)
    rsa_pub_key ← lift (H.rsa_key_to_bytes pk_str)
    encrypted_key1 ← ask (H.rsa_encrypt rsa_pub_key key1)
    request ← lift (
        H.encode_protobuf (Request.data_upload_completed data_cid (H.base64_encode encrypted_key1)))
    perform (
        Event.call_async_intercom ("actor.pinner.intercom.process_data_upload." <> session_id)
          request (processed_data_upload req item peer_id reply_to))

  -- The inner callback, with the closure that `task_pinner_key_slice_request_handler` gives it.
  unfoldable pub on_data_upload :
      TaskPinnerKeySliceRequest → InitialPinnerStoreItem → String → String → Bytes → M (Unit {0})
  on_data_upload req item peer_id reply_to body = do
    deployment_id ← lift (H.from_utf8 body)
    kvp_set Kind.text binding_name (get_temp_deployment_key req.multi_sig_account) deployment_id
        (Expiry.seconds 6000)
    save (record item { state = StoreItemState.deployed })
    perform (
        Event.send_message peer_id req.task_id (
          GeneralMsg.task_pinner_key_slice_response
            (record { task_id = req.task_id; deployment_id = deployment_id })))
    perform (Event.response_reply reply_to "pinned key slice successfully")

  -- `initial_pinner::task_key_generation_candidate_request_handler`
  unfoldable pub task_key_generation_candidate_request_handler :
      String → KeyGenerationCandidateRequest → M (Unit {0})
  task_key_generation_candidate_request_handler peer_id req = do
    executor ← Store.contains_item req.task_id
    if executor then pure tt else verify_to_candidate_signature peer_id req Role.initial_pinner

  abbrev pub after_capabilities : String → InitialPinnerStoreItem → Result (Unit {0}) → M (Unit {0})
  after_capabilities peer_id store_item (err e) = pure tt
  after_capabilities peer_id store_item (ok _) = do
    save store_item
    send_key_generation_request peer_id store_item.task_info false
    save (record store_item { state = StoreItemState.requested })

  -- The closure, once the delegator's profile is confirmed.
  unfoldable pub on_delegator_verified : String → KeyGenerationCandidateRequest → M (Unit {0})
  on_delegator_verified peer_id req = do
    store_item ← lift (of_candidate_request req)
    if not (willing_to_run store_item)
        then pure tt
        else after_capabilities peer_id store_item (check_capabilities store_item)
