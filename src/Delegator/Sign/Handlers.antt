-- ===== src/Delegator/Sign/Handlers.antt =====
-- src/delegator/sign.rs
use gluon_actor.Base.{
  not, String, ◌<>◌, Option, none, some, List, [], ◌∷◌, Result, Error, ok_or, is_some,
  if◌then◌else◌,
}
use gluon_actor.Base.Bytes.{Bytes, as_bytes}
use gluon_actor.Base.HashMap.{HashMap}
use gluon_actor.Proto.{
  GeneralMsg, Request, SignTransactionResponse, TaskSignWithKeySlicesRequst,
  TaskCommitSignResultRequest, TaskSignGetPinnerKeySliceResponse,
}
use gluon_actor.Common.TaskInfo.{TaskInfo}
use gluon_actor.Common.Properties.{from_hash_map}
use gluon_actor.Common.Utils.{for_each, invite_candidate_executors}
use gluon_actor.Host.{Host, M, Event, P2pReplyType, pure, lift, perform, ◌>>=◌, ◌>>◌}
use gluon_actor.Host.Callbacks.{Duty, Invite, got_deployment_ids, logged}
use gluon_actor.Delegator.ExecutorInfo.{ExecutorInfo}
use gluon_actor.Delegator.DumpMethods
use gluon_actor.Delegator.Verifier.{try_to_be_delegator}
use gluon_actor.Delegator.Sign.StoreItem
use gluon_actor.Delegator.Sign.StoreItem.{DelegatorSignStoreItem, StoreItemState}
use gluon_actor.Delegator.Sign.Store.{get, save}
use gluon_actor.Delegator.Sign.Ra.{generate_pinner_ra_properties, remote_attestation_executor}

abbrev pub executor_of : DelegatorSignStoreItem → Result ExecutorInfo
executor_of item = ok_or item.executor (Error.executor_missing item.task_info.task_id)

module _ ⦃H : Host⦄ where
  unfoldable pub process_sign_with_key_slices_event : SignTransactionResponse → M (Unit {0})
  process_sign_with_key_slices_event res =
      try_to_be_delegator res.data_adhoc.delegator_tea_nonce_rsa_encryption
        res.data_adhoc.delegator_tea_nonce_hash (Duty.signing res)

  -- The item that the innermost closure builds and saves.
  unfoldable pub initial_item :
      SignTransactionResponse → Bytes → List String → DelegatorSignStoreItem
  initial_item res nonce deployment_ids =
      let created : DelegatorSignStoreItem = StoreItem.of_response H.base64_encode res in
      let item : DelegatorSignStoreItem = record created {
        nonce = nonce;
        task_info = record {
          task_id = created.task_info.task_id;
          exec_info = record { n = 2; k = 1; task_type = "bitcoin_mainnet" };
        };
      } in
      let prepared : DelegatorSignStoreItem =
        StoreItem.init_deployment_resources deployment_ids item in
      record prepared { state = StoreItemState.initialized }

  -- The innermost closure, which runs once the deployment ids are known.
  unfoldable pub begin_signing : Bytes → SignTransactionResponse → List String → M (Unit {0})
  begin_signing nonce res deployment_ids = do
    let item : DelegatorSignStoreItem = initial_item res nonce deployment_ids
    save item
    invite_candidate_executors item.task_info
        (Invite.signing item deployment_ids (generate_pinner_ra_properties item.task_info.task_id))

  unfoldable pub on_deployment_ids : Bytes → SignTransactionResponse → Bytes → M (Unit {0})
  unfolding begin_signing
  on_deployment_ids nonce res body = do
    text ← lift (H.from_utf8 body)
    decoded ← lift (H.base64_decode text)
    deployment_ids ← lift (H.decode_deployment_ids decoded)
    begin_signing nonce res deployment_ids

  -- `get_deployment_ids` after the lines of the "dev" feature: layer 1 is asked.
  unfoldable pub ask_deployment_ids : Bytes → SignTransactionResponse → M (Unit {0})
  ask_deployment_ids nonce res = do
    request ← lift (H.encode_protobuf (Request.get_deployment_ids res.multi_sig_account))
    perform (
        Event.call "layer1.async.reply.get_deployment_ids" (as_bytes (H.base64_encode request))
          (got_deployment_ids nonce res))

  -- The ids that a developer has set, if there are any, are taken in place of layer 1's.
  unfoldable pub with_mocked_ids :
      Bytes → SignTransactionResponse → Option (List String) → M (Unit {0})
  unfolding ask_deployment_ids begin_signing
  with_mocked_ids nonce res none = ask_deployment_ids nonce res
  with_mocked_ids nonce res (some []) = ask_deployment_ids nonce res
  with_mocked_ids nonce res (some (id ∷ ids)) = begin_signing nonce res (id ∷ ids)

  unfoldable pub get_deployment_ids : Bytes → SignTransactionResponse → M (Unit {0})
  unfolding ask_deployment_ids with_mocked_ids
  get_deployment_ids nonce res =
      if H.is_dev
      then (do mocked ← DumpMethods.get_deployment_ids; with_mocked_ids nonce res mocked)
      else ask_deployment_ids nonce res

  -- The closure of `process_sign_with_key_slices_event`.
  unfoldable pub on_delegator : SignTransactionResponse → Bytes → M (Unit {0})
  unfolding get_deployment_ids
  on_delegator res nonce = get_deployment_ids nonce res

  -- The `candidate_op` closure.
  unfoldable pub send_sign_candidate_request :
      DelegatorSignStoreItem → TaskInfo → String → M (Unit {0})
  send_sign_candidate_request item task_info peer_id = perform (
      Event.send_message peer_id task_info.task_id (
        GeneralMsg.sign_candidate_request (record {
          task_id = task_info.task_id;
          multi_sig_account = item.multi_sig_account;
          n = task_info.exec_info.n;
          k = task_info.exec_info.k;
          task_type = task_info.exec_info.task_type;
        })))

  unfoldable pub begin_find_pinners : String → HashMap String → M (Unit {0})
  begin_find_pinners deployment_id properties = do
    finding_mode ← lift H.serialize_as_much_as_possible
    body ← lift (
        H.encode_protobuf
          (Request.find_pinners deployment_id (from_hash_map properties) 0 finding_mode))
    perform (Event.call_async_intercom "actor.pinner.intercom.find_pinners" body logged)

  -- The `callback` closure of the invitation.
  unfoldable pub find_deployments : List String → HashMap String → TaskInfo → M (Unit {0})
  unfolding begin_find_pinners
  find_deployments deployment_ids properties task_info = do
    for_each (λ id. begin_find_pinners id properties) deployment_ids
    item ← get task_info.task_id
    save (record item { state = StoreItemState.finding_deployments })

  unfoldable pub process_executor_sign_with_key_slices_request :
      TaskSignWithKeySlicesRequst → String → String → M (Unit {0})
  process_executor_sign_with_key_slices_request req peer_id reply_to = do
    item ← get req.task_id
    if is_some item.executor
        then perform (
            Event.response_p2p reply_to peer_id req.task_id "executor already exists"
              P2pReplyType.rejected)
        else do
          remote_attestation_executor req peer_id reply_to
          perform (Event.response_reply reply_to "has sent executor ra request")

  unfoldable pub process_commit_sign_result_request :
      TaskCommitSignResultRequest → String → String → M (Unit {0})
  process_commit_sign_result_request req peer_id _ = do
    item ← get req.task_id
    save (record item { state = StoreItemState.commit_result })
    perform (Event.close_p2p peer_id)

  unfoldable pub try_send_to_executor : DelegatorSignStoreItem → M (Unit {0})
  try_send_to_executor item = if not (StoreItem.ready_send_to_executor item) then pure tt else do
    executor ← lift (executor_of item)
    perform (
        Event.send_message executor.peer_id item.task_info.task_id (
          GeneralMsg.task_sign_with_key_slices_response (record {
            task_id = item.task_info.task_id;
            adhoc_data = item.transaction_data;
            p1_signature = item.p1_signature;
            key_type = item.task_info.exec_info.task_type;
            encrypted_key_slices = StoreItem.get_encrypted_key_slices item;
          })))
    save (record item { state = StoreItemState.sent_to_executor })

  unfoldable pub process_pinner_key_slice_response :
      TaskSignGetPinnerKeySliceResponse → String → String → M (Unit {0})
  process_pinner_key_slice_response res peer_id reply_to = do
    item ← get res.task_id
    if StoreItem.has_found_key_slice item res.deployment_id
        then perform (
            Event.response_p2p reply_to peer_id res.task_id
              ("pinner of " <> res.deployment_id <> " already exists") P2pReplyType.rejected)
        else do
          inserted ← lift (
              StoreItem.insert_key_slice_info res.deployment_id
                (record { peer_id = peer_id; encrypted_key_slice = res.encrypted_key_slice }) item)
          save inserted
          perform (Event.close_p2p peer_id)
          try_send_to_executor inserted
