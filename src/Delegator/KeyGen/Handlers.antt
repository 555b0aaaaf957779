-- ===== src/Delegator/KeyGen/Handlers.antt =====
-- src/delegator/key_gen.rs, and `invite_candidate_initial_pinners` of key_gen/candidates.rs.
use gluon_actor.Base.{
  ◌*◌, false, not, String, ◌<>◌, Option, none, some, List, [], ◌∷◌, Result, ok, err, Error,
  if◌then◌else◌, take, contains,
}
use gluon_actor.Base.Bytes.{Bytes, as_bytes}
use gluon_actor.Base.HashMap
use gluon_actor.Proto.{
  GeneralMsg, Request, KeyGenerationResponse, TaskExecutionResponse, TaskResultInitialPinnerData,
  TaskPinnerKeySliceResponse,
}
use gluon_actor.Common.TaskInfo.{TaskInfo}
use gluon_actor.Common.Utils.{for_each, invite_candidate_executors}
use gluon_actor.Common.KeyGeneration.{send_key_candidate_request}
use gluon_actor.Host.{
  Host, M, Event, P2pReplyType, pure, fail, lift, ask, perform, on_result, ◌>>=◌, ◌>>◌,
}
use gluon_actor.Host.Callbacks.{Duty, Invite, got_update_result}
use gluon_actor.Delegator.ExecutorInfo.{ExecutorInfo, InitialPinnerInfo}
use gluon_actor.Delegator.Verifier.{try_to_be_delegator}
use gluon_actor.Delegator.KeyGen.StoreItem
use gluon_actor.Delegator.KeyGen.StoreItem.{DelegatorKeyGenStoreItem, StoreItemState}
use gluon_actor.Delegator.KeyGen.Candidates.{random_select_peers}
use gluon_actor.Delegator.KeyGen.Store.{get, save}

-- The peers that are no delegates.
unfoldable pub without_ids : List String → List String → List String
without_ids filter_ids [] = []
without_ids filter_ids (v ∷ vs) =
    let rest = without_ids filter_ids vs in if contains filter_ids v then rest else v ∷ rest

-- `item.executor.as_ref().unwrap().peer_id`
abbrev pub executor_peer_id : DelegatorKeyGenStoreItem → Result String
executor_peer_id item = elim item.executor [ none ↦ err Error.panic | some e ↦ ok e.peer_id ]

module _ ⦃H : Host⦄ where
  unfoldable pub invite_candidate_initial_pinners : TaskInfo → List String → M (Unit {0})
  unfolding without_ids
  invite_candidate_initial_pinners task_info filter_ids = do
    peers_ids ← ask H.ipfs_swarm_peers
    selected ← lift (
        random_select_peers (without_ids filter_ids peers_ids) task_info.exec_info.n
          task_info.task_id)
    for_each (λ peer_id. send_key_candidate_request peer_id task_info false)
        (take (task_info.exec_info.n * 2) selected)

  unfoldable pub process_key_generation_event : KeyGenerationResponse → M (Unit {0})
  process_key_generation_event res =
      try_to_be_delegator res.data_adhoc.delegator_tea_nonce_rsa_encryption
        res.data_adhoc.delegator_tea_nonce_hash (Duty.key_generation res)

  -- The closure of `process_key_generation_event`, once this node is the delegator.
  unfoldable pub on_delegator : KeyGenerationResponse → Bytes → M (Unit {0})
  on_delegator res nonce = do
    created ← lift (StoreItem.of_response H.base64_encode res)
    let store_item : DelegatorKeyGenStoreItem = record created { nonce = nonce }
    save store_item
    invite_candidate_executors store_item.task_info Invite.key_generation
    save (record store_item { state = StoreItemState.invited_candidates })

  unfoldable pub send_to_elected : DelegatorKeyGenStoreItem → M (Unit {0})
  send_to_elected item =
      if not (StoreItem.request_ready item)
      then fail (Error.not_elected item.task_info.task_id)
      else do
        peer_id ← lift (executor_peer_id item)
        perform (
            Event.send_message peer_id item.task_info.task_id
              (GeneralMsg.task_execution_request (StoreItem.generate item)))
        save (record item { state = StoreItemState.sent_to_executor })

  unfoldable pub try_send_to_executor : DelegatorKeyGenStoreItem → M (Unit {0})
  unfolding send_to_elected
  try_send_to_executor item =
      if StoreItem.candidates_ready item
      then (do elected ← lift (StoreItem.elect item); send_to_elected elected)
      else pure tt

  unfoldable pub delegator_store_item_handler :
      String → String → String → (DelegatorKeyGenStoreItem → M (Unit {0})) → M (Unit {0})
  delegator_store_item_handler task_id peer_id reply_to action =
      on_result (get task_id) action (λ e. perform (Event.respond_error reply_to peer_id task_id e))

  unfoldable pub share_slices_to_initial_pinner :
      String → TaskResultInitialPinnerData → Bytes → Bytes → M (Unit {0})
  share_slices_to_initial_pinner task_id slice pub_key multi_sig_account = perform (
      Event.send_message slice.peer_id task_id (
        GeneralMsg.task_pinner_key_slice_request (record {
          task_id = task_id;
          public_key = pub_key;
          encrypted_key_slice = slice.encrypted_key_slice;
          multi_sig_account = multi_sig_account;
        })))

  -- The loop over the slices: each is sent, and its pinner has not answered yet.
  unfoldable pub share_slices :
      TaskExecutionResponse
      → List TaskResultInitialPinnerData
      → DelegatorKeyGenStoreItem
      → M DelegatorKeyGenStoreItem
  unfolding share_slices_to_initial_pinner
  share_slices res [] item = pure item
  share_slices res (pinner_data ∷ rest) item = do
    share_slices_to_initial_pinner item.task_info.task_id pinner_data res.p2_public_key
        res.multi_sig_account
    share_slices res rest (record item {
      initial_pinner_responses =
          HashMap.insert pinner_data.peer_id none item.initial_pinner_responses;
    })

  unfoldable pub on_execution_response :
      TaskExecutionResponse → String → DelegatorKeyGenStoreItem → M (Unit {0})
  unfolding share_slices
  on_execution_response res reply_to stored = do
    let item : DelegatorKeyGenStoreItem = record stored {
      p2_public_key = some res.p2_public_key;
      multi_sig_account = some res.multi_sig_account;
      state = StoreItemState.received_execution_result;
    }
    save item
    shared ← share_slices res res.initial_pinners item
    save (record shared { state = StoreItemState.sent_to_initial_pinner })
    perform (Event.response_reply reply_to "received task response")

  unfoldable pub process_task_execution_response :
      TaskExecutionResponse → String → String → M (Unit {0})
  unfolding delegator_store_item_handler on_execution_response
  process_task_execution_response res peer_id reply_to =
      delegator_store_item_handler res.task_id peer_id reply_to (on_execution_response res reply_to)

  -- The two ways out, once the answer of the pinner is in the item.
  unfoldable pub after_answer : String → DelegatorKeyGenStoreItem → M (Unit {0})
  after_answer reply_to item =
      if StoreItem.is_all_initial_pinners_ready item
      then (do
        let done : DelegatorKeyGenStoreItem = record item {
          state = StoreItemState.received_all_pinner_response;
        }
        save done
        result ← lift (StoreItem.to_result H.base64_decode done)
        body ← lift (H.encode_protobuf (Request.update_key_generation_result result))
        perform (
            Event.call "layer1.async.reply.update_generate_key_result"
              (as_bytes (H.base64_encode body)) (got_update_result done.task_info.task_id)))
      else (do
        save item
        perform (Event.response_reply reply_to "received initial pinner key slice response"))

  unfoldable pub on_pinner_response :
      TaskPinnerKeySliceResponse → String → String → DelegatorKeyGenStoreItem → M (Unit {0})
  unfolding after_answer
  on_pinner_response res peer_id reply_to item =
      elim (HashMap.get item.initial_pinner_responses peer_id) [
        | none ↦ perform (
            Event.response_p2p reply_to peer_id res.task_id
              ("failed to get initial pinner's (peer id is " <> peer_id <> ") info with task_id of "
                <> res.task_id)
              P2pReplyType.rejected)
        | some _ ↦ after_answer reply_to (record item {
          initial_pinner_responses =
              HashMap.insert peer_id (some res.deployment_id) item.initial_pinner_responses;
        })
      ]

  unfoldable pub process_task_pinner_key_slice_response :
      TaskPinnerKeySliceResponse → String → String → M (Unit {0})
  unfolding delegator_store_item_handler on_pinner_response
  process_task_pinner_key_slice_response res peer_id reply_to =
      delegator_store_item_handler res.task_id peer_id reply_to
        (on_pinner_response res peer_id reply_to)

  abbrev pub close_executor : Option ExecutorInfo → M (Unit {0})
  close_executor none = pure tt
  close_executor (some executor) = perform (Event.close_p2p executor.peer_id)

  unfoldable pub close_p2p_connections : String → M (Unit {0})
  close_p2p_connections task_id = do
    item ← get task_id
    for_each (λ (pinner : InitialPinnerInfo). perform (Event.close_p2p pinner.peer_id))
        item.initial_pinners
    close_executor item.executor
