-- ===== src/Actor.antt =====
-- src/lib.rs: the dispatch of messages, and of the answers to the callbacks that were registered.
pub mod Attestation
pub mod Roles
pub mod Messages
use gluon_actor.Base.{
  Bool, true, false, ◌||◌, String, Option, none, some, List, [], ◌∷◌, Result, ok, err, Error, ok_or,
  if◌then◌else◌,
}
use gluon_actor.Base.Bytes.{Bytes}
use gluon_actor.Proto.{GeneralMsg, ChallangeStoreItem, KeyGenerationCandidateRequest}
use gluon_actor.Host.{Host, World, M, Event, pure, lift, perform, ◌>>=◌, ◌>>◌}
use gluon_actor.Host.Callbacks.{Answer, Callback, Duty, Invite, Role}
use gluon_actor.Common.TaskInfo.{TaskInfo}
use gluon_actor.Common.Utils.{on_delegates}
use gluon_actor.Common.KeyGeneration.{send_key_candidate_request, on_delegator_profile}
use gluon_actor.Delegator.DumpMethods
use gluon_actor.Delegator.Verifier.{on_delegator_key}
use gluon_actor.Delegator.Handler
use gluon_actor.Delegator.KeyGen.Ra
use gluon_actor.Delegator.KeyGen.Handlers
use gluon_actor.Delegator.KeyGen.Observers
use gluon_actor.Delegator.Sign.Ra as SignRa
use gluon_actor.Delegator.Sign.Handlers as SignHandlers
use gluon_actor.Delegator.Sign.Observers as SignObservers
use gluon_actor.Executor.KeyGen
use gluon_actor.Executor.Sign
use gluon_actor.InitialPinner.Handlers as InitialPinner
use gluon_actor.Pinner
use gluon_actor.Portal

module _ ⦃H : Host⦄ where
  -- The closure of `listen_p2p_message`.
  unfoldable pub dispatch_p2p : GeneralMsg → String → String → M (Unit {0})
  dispatch_p2p (GeneralMsg.task_key_generation_apply_request req) from_peer_id reply_to =
      Ra.task_key_generation_apply_request_handler req from_peer_id reply_to
  dispatch_p2p (GeneralMsg.task_execution_request req) from_peer_id reply_to =
      KeyGen.task_execution_request_handler req from_peer_id reply_to
  dispatch_p2p (GeneralMsg.task_execution_response res) from_peer_id reply_to =
      Handler.task_execution_response_handler res from_peer_id reply_to
  dispatch_p2p (GeneralMsg.task_pinner_key_slice_request req) from_peer_id reply_to =
      InitialPinner.task_pinner_key_slice_request_handler req from_peer_id reply_to
  dispatch_p2p (GeneralMsg.task_pinner_key_slice_response res) from_peer_id reply_to =
      Handler.task_pinner_key_slice_response_handler res from_peer_id reply_to
  dispatch_p2p (GeneralMsg.task_sign_with_key_slices_request req) from_peer_id reply_to =
      Handler.task_sign_with_key_slices_request_handler req from_peer_id reply_to
  dispatch_p2p (GeneralMsg.task_sign_with_key_slices_response res) from_peer_id reply_to =
      Sign.task_sign_with_key_slices_response_handler res from_peer_id reply_to
  dispatch_p2p (GeneralMsg.task_sign_get_pinner_key_slice_request req) from_peer_id reply_to =
      Pinner.task_sign_with_key_slices_request_handler req from_peer_id reply_to
  dispatch_p2p (GeneralMsg.task_sign_get_pinner_key_slice_response res) from_peer_id reply_to =
      Handler.task_sign_get_pinner_key_slice_response_handler res from_peer_id reply_to
  dispatch_p2p (GeneralMsg.task_commit_sign_result_request req) from_peer_id reply_to =
      Handler.task_commit_sign_result_request_handler req from_peer_id reply_to
  dispatch_p2p (GeneralMsg.key_generation_candidate_request req) from_peer_id reply_to =
      if req.executor
      then KeyGen.task_key_generation_candidate_request_handler from_peer_id req
      else InitialPinner.task_key_generation_candidate_request_handler from_peer_id req
  dispatch_p2p (GeneralMsg.sign_candidate_request req) from_peer_id reply_to =
      Sign.process_sign_with_key_slices_handler from_peer_id req
  dispatch_p2p GeneralMsg.other from_peer_id reply_to =
      perform (Event.response_reply reply_to "Task actor unknown message")

  -- `pinner_client_operation_after_verify`, after the message is decoded.
  unfoldable pub operation_after_verify : String → Bytes → Option ChallangeStoreItem → M (Unit {0})
  operation_after_verify peer_id pinner_ephemeral_id found = do
    item ← lift (ok_or found Error.challenge_item_missing)
    if Ra.is_key_gen_tag item
        then Observers.operation_after_verify_handler peer_id pinner_ephemeral_id item
        else if SignRa.is_sign_tag item
        then SignObservers.operation_after_verify_handler peer_id pinner_ephemeral_id item
        else pure tt

  -- The verdict that `pinner_server_check_strategy` replies with.
  unfoldable pub check_strategy : Option ChallangeStoreItem → Result Bool
  check_strategy none = err Error.challenge_item_missing
  check_strategy (some item) = ok (Ra.is_key_gen_tag item || SignRa.is_sign_tag item)

  abbrev pub on_nonce : Duty → Bytes → M (Unit {0})
  on_nonce (Duty.key_generation res) = Handlers.on_delegator res
  on_nonce (Duty.signing res) = SignHandlers.on_delegator res

  abbrev pub on_candidates : Invite → TaskInfo → List String → M (Unit {0})
  on_candidates Invite.key_generation task_info peer_ids =
      Handlers.invite_candidate_initial_pinners task_info peer_ids
  on_candidates (Invite.signing _ deployment_ids properties) task_info _ =
      SignHandlers.find_deployments deployment_ids properties task_info

  abbrev pub on_candidate : Invite → TaskInfo → String → M (Unit {0})
  on_candidate Invite.key_generation task_info peer_id =
      send_key_candidate_request peer_id task_info true
  on_candidate (Invite.signing item _ _) task_info peer_id =
      SignHandlers.send_sign_candidate_request item task_info peer_id

  abbrev pub on_role : Role → String → KeyGenerationCandidateRequest → M (Unit {0})
  on_role Role.executor peer_id req = KeyGen.on_delegator_verified peer_id req
  on_role Role.initial_pinner peer_id req = InitialPinner.on_delegator_verified peer_id req

module _ ⦃H : Host⦄ where
  -- A callback runs with its answer.
  unfoldable pub resume : (c : Callback) → Answer c → M (Unit {0})
  resume (Callback.ready_for_key_generation decoded) ready =
      Portal.on_ready_for_key_generation decoded ready
  resume (Callback.ready_for_signing decoded) ready = Portal.on_ready_for_signing decoded ready
  resume (Callback.got_delegator_key nonce_encrypted nonce_hash duty) body =
      on_delegator_key nonce_encrypted nonce_hash (on_nonce duty) body
  resume (Callback.got_deployment_ids nonce res) body =
      SignHandlers.on_deployment_ids nonce res body
  resume (Callback.got_delegates task_info invite) body =
      on_delegates task_info invite (on_candidates invite) body
  resume (Callback.got_delegate_profile task_info invite) peer_id =
      on_candidate invite task_info peer_id
  resume (Callback.got_update_result task_id) _ = Handlers.close_p2p_connections task_id
  resume (Callback.got_delegator_profile peer_id req role) profile_peer_id =
      on_delegator_profile peer_id (on_role role peer_id req) profile_peer_id
  resume (Callback.registered_upload_key session_id req item peer_id reply_to) body =
      InitialPinner.on_upload_key session_id req item peer_id reply_to body
  resume (Callback.processed_data_upload req item peer_id reply_to) body =
      InitialPinner.on_data_upload req item peer_id reply_to body
  resume (Callback.got_deployment_info req peer_id reply_to) (data_cid, key1) =
      Pinner.on_deployment_info req peer_id reply_to data_cid key1
  resume (Callback.got_delegator_pub_key reply_to operation) body =
      DumpMethods.on_delegator_pub_key reply_to operation body
  resume Callback.logged _ = pure tt
