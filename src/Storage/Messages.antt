-- ===== src/Storage/Messages.antt =====
-- What the answers to callbacks and the broker's messages leave in the store, for src/lib.rs.
use gluon_actor.Base.{refl, Bool, true, Option, none, some, String, List, Result, ok, err}
use gluon_actor.Base.Bytes.{Bytes}
use gluon_actor.Base.Text.{split}
use gluon_actor.Proto.{
  GeneralMsg, ChallangeStoreItem, BrokerMessage, KeyGenerationCandidateRequest,
  TaskSignGetPinnerKeySliceRequest,
}
use gluon_actor.Common.TaskInfo.{TaskInfo}
use gluon_actor.Common.Utils.{on_delegates}
use gluon_actor.Common.KeyGeneration.{on_delegator_profile}
use gluon_actor.Host.{Host, M}
use gluon_actor.Host.Callbacks.{Answer, Callback, Duty, Invite, Role, Operation}
use gluon_actor.Delegator.DumpMethods
use gluon_actor.Delegator.Verifier as Verifier
use gluon_actor.Delegator.KeyGen.Handlers
use gluon_actor.Delegator.Sign.Handlers as SignHandlers
use gluon_actor.Pinner
use gluon_actor.Portal
use gluon_actor.Actor.{
  operation_after_verify, resume, on_nonce, on_candidates, on_candidate, on_role,
}
use gluon_actor.Actor.Messages
use gluon_actor.Storage.Keeps.{Keeps, keeps_rules, Keeps-lift, Keeps-bind}
use gluon_actor.Storage.Tasks.{AllowsTask, AllowsShared, shared_rules}
use gluon_actor.Storage.Dispatch.{dispatch_p2p-Keeps}
use gluon_actor.Storage.Executor
use gluon_actor.Storage.InitialPinner
use gluon_actor.Storage.KeyGen
use gluon_actor.Storage.Sign

module _ ⦃H : Host⦄ {I : H.Kv → Type 0} where
  check_nonce-Keeps :
      (hash : Bytes) (callback : Bytes → M (Unit {0})) (r : Result Bytes)
      → ((nonce : Bytes) → Keeps I (callback nonce))
      → Keeps I (Verifier.check_nonce hash callback r)
  unfolding Verifier.check_nonce
  check_nonce-Keeps hash callback (ok nonce) h = search (h, keeps_rules)
  check_nonce-Keeps hash callback (err e) h = Keeps-lift (ok tt)

  with_key-Keeps :
      (encrypted hash : Bytes) (callback : Bytes → M (Unit {0})) (key : Option Bytes)
      → ((nonce : Bytes) → Keeps I (callback nonce))
      → Keeps I (Verifier.with_key encrypted hash callback key)
  unfolding Verifier.with_key
  with_key-Keeps encrypted hash callback none h = Keeps-lift (ok tt)
  with_key-Keeps encrypted hash callback (some key) h = check_nonce-Keeps hash callback _ h

  on_delegator_key-Keeps :
      (encrypted hash : Bytes) (callback : Bytes → M (Unit {0})) (body : Bytes)
      → ((nonce : Bytes) → Keeps I (callback nonce))
      → Keeps I (Verifier.on_delegator_key encrypted hash callback body)
  unfolding Verifier.on_delegator_key
  on_delegator_key-Keeps encrypted hash callback body h = search (with_key-Keeps, h, keeps_rules)

  on_delegates-Keeps :
      (info : TaskInfo) (invite : Invite) (callback : TaskInfo → List String → M (Unit {0}))
      (body : Bytes)
      → ((ids : List String) → Keeps I (callback info ids))
      → Keeps I (on_delegates info invite callback body)
  unfolding on_delegates
  on_delegates-Keeps info invite callback body h = search (h, keeps_rules) depth 10

  on_delegator_profile-Keeps :
      (peer_id : String) (callback : M (Unit {0})) (profile : String)
      → Keeps I callback
      → Keeps I (on_delegator_profile peer_id callback profile)
  unfolding on_delegator_profile
  on_delegator_profile-Keeps peer_id callback profile h = search (h, keeps_rules)

  on_deployment_info-Keeps :
      (req : TaskSignGetPinnerKeySliceRequest) (peer_id reply_to : String)
      → (data_cid : Option String) (key : Option Bytes)
      → Keeps I (Pinner.on_deployment_info req peer_id reply_to data_cid key)
  unfolding Pinner.on_deployment_info
  on_deployment_info-Keeps req peer_id reply_to data_cid key = search keeps_rules depth 10

  operate-Keeps :
      (operation : Operation) (hash encryption : Bytes)
      → Keeps I (DumpMethods.operate operation hash encryption)
  unfolding DumpMethods.operate
  operate-Keeps (Operation.sign_message key_type account) hash encryption = search keeps_rules
  operate-Keeps (Operation.key_gen_message key_type) hash encryption = search keeps_rules

  on_delegator_pub_key-Keeps :
      (reply_to : String) (operation : Operation) (body : Bytes)
      → Keeps I (DumpMethods.on_delegator_pub_key reply_to operation body)
  unfolding DumpMethods.on_delegator_pub_key
  on_delegator_pub_key-Keeps reply_to operation body = search (operate-Keeps, keeps_rules) depth 12

  on_ready-Keeps :
      (decoded : Bytes) (ready : Bool)
      → Keeps I (Portal.on_ready_for_key_generation decoded ready)
        × Keeps I (Portal.on_ready_for_signing decoded ready)
  unfolding Portal.on_ready_for_key_generation Portal.on_ready_for_signing
      Handlers.process_key_generation_event SignHandlers.process_sign_with_key_slices_event
      Verifier.try_to_be_delegator
  on_ready-Keeps decoded ready = (search keeps_rules, search keeps_rules)

  module _ (A : (id : String) → AllowsTask I id) (S : AllowsShared I) where
    on_nonce-Keeps : (duty : Duty) (nonce : Bytes) → Keeps I (on_nonce duty nonce)
    on_nonce-Keeps (Duty.key_generation res) nonce = KeyGen.on_delegator-Keeps (A _) res nonce refl
    on_nonce-Keeps (Duty.signing res) nonce = Sign.on_delegator-Keeps (A _) res nonce refl

    on_candidates-Keeps :
        (invite : Invite) (info : TaskInfo) (ids : List String)
        → Keeps I (on_candidates invite info ids)
    on_candidates-Keeps Invite.key_generation info ids =
        KeyGen.invite_candidate_initial_pinners-Keeps info ids
    on_candidates-Keeps (Invite.signing item deployment_ids properties) info ids =
        Sign.find_deployments-Keeps (A _) deployment_ids properties info refl

    on_candidate-Keeps :
        (invite : Invite) (info : TaskInfo) (peer_id : String)
        → Keeps I (on_candidate invite info peer_id)
    on_candidate-Keeps Invite.key_generation info peer_id =
        KeyGen.send_key_candidate_request-Keeps peer_id info true
    on_candidate-Keeps (Invite.signing item deployment_ids properties) info peer_id =
        Sign.send_sign_candidate_request-Keeps item info peer_id

    on_role-Keeps :
        (role : Role) (peer_id : String) (req : KeyGenerationCandidateRequest)
        → Keeps I (on_role role peer_id req)
    on_role-Keeps Role.executor peer_id req =
        Executor.begin_as_executor-Keeps (A _) peer_id req refl
    on_role-Keeps Role.initial_pinner peer_id req =
        InitialPinner.begin_as_initial_pinner-Keeps (A _) peer_id req refl

    pub resume-Keeps : (c : Callback) (answer : Answer c) → Keeps I (resume c answer)
    unfolding resume
    resume-Keeps (Callback.ready_for_key_generation decoded) ready =
        (on_ready-Keeps decoded ready).0
    resume-Keeps (Callback.ready_for_signing decoded) ready = (on_ready-Keeps decoded ready).1
    resume-Keeps (Callback.got_delegator_key encrypted hash duty) body =
        on_delegator_key-Keeps encrypted hash (on_nonce duty) body (on_nonce-Keeps duty)
    resume-Keeps (Callback.got_deployment_ids nonce res) body =
        Sign.on_deployment_ids-Keeps (A _) nonce res body refl
    resume-Keeps (Callback.got_delegates info invite) body =
        on_delegates-Keeps info invite (on_candidates invite) body (on_candidates-Keeps invite info)
    resume-Keeps (Callback.got_delegate_profile info invite) peer_id =
        on_candidate-Keeps invite info peer_id
    resume-Keeps (Callback.got_update_result id) _ = KeyGen.close_p2p_connections-Keeps id
    resume-Keeps (Callback.got_delegator_profile peer_id req role) profile =
        on_delegator_profile-Keeps peer_id (on_role role peer_id req) profile
          (on_role-Keeps role peer_id req)
    resume-Keeps (Callback.registered_upload_key session_id req item peer_id reply_to) body =
        InitialPinner.on_upload_key-Keeps S session_id req item peer_id reply_to body
    resume-Keeps (Callback.processed_data_upload req item peer_id reply_to) body =
        InitialPinner.on_data_upload-Keeps (A _) S req item peer_id reply_to body refl
    resume-Keeps (Callback.got_deployment_info req peer_id reply_to) (data_cid, key) =
        on_deployment_info-Keeps req peer_id reply_to data_cid key
    resume-Keeps (Callback.got_delegator_pub_key reply_to operation) body =
        on_delegator_pub_key-Keeps reply_to operation body
    resume-Keeps Callback.logged _ = Keeps-lift (ok tt)

    operation_after_verify-Keeps :
        (peer_id : String) (ephemeral_id : Bytes) (found : Option ChallangeStoreItem)
        → Keeps I (operation_after_verify peer_id ephemeral_id found)
    unfolding operation_after_verify
    operation_after_verify-Keeps peer_id ephemeral_id found = Keeps-bind _ _ (Keeps-lift _) λ item.
        search (
          KeyGen.operation_after_verify_handler-Keeps peer_id ephemeral_id item (λ id _. A id),
          Sign.operation_after_verify_handler-Keeps peer_id ephemeral_id item (λ id _. A id),
          keeps_rules,
        )

    run_closure-Keeps :
        (closure : Option (GeneralMsg × String × String)) → Keeps I (Messages.run_closure closure)
    run_closure-Keeps none = Keeps-lift (ok tt)
    run_closure-Keeps (some (msg, from, reply_to)) =
        dispatch_p2p-Keeps msg from reply_to (λ id _. A id)

    run_callback-Keeps :
        (called : Option ((c : Callback) × Answer c)) → Keeps I (Messages.run_callback called)
    run_callback-Keeps none = Keeps-lift (ok tt)
    run_callback-Keeps (some (c, answer)) = resume-Keeps c answer

    listen_p2p_message-Keeps :
        (from : String) (msg : BrokerMessage) → Keeps I (Messages.listen_p2p_message from msg)
    unfolding Messages.listen_p2p_message
    listen_p2p_message-Keeps from msg = search (run_closure-Keeps, keeps_rules)

    result_handler-Keeps :
        (msg : BrokerMessage) (uuid : String) → Keeps I (Messages.result_handler msg uuid)
    unfolding Messages.result_handler
    result_handler-Keeps msg uuid = search (run_callback-Keeps, keeps_rules)

    handle-Keeps : (r : Messages.Route) (msg : BrokerMessage) → Keeps I (Messages.handle r msg)
    unfolding Messages.handle Messages.pinner_client_operation_after_verify
        Messages.pinner_server_check_strategy Portal.key_generation_request_handler
        Portal.sign_with_key_slices_handler Portal.asset_generated_event_handler Portal.decode_body
        DumpMethods.generate_key_gen_response_message DumpMethods.generate_sign_response_message
        DumpMethods.delegator_key_operation
    handle-Keeps (Messages.p2p_message from) msg = listen_p2p_message-Keeps from msg
    handle-Keeps Messages.operation_verified msg =
        search (operation_after_verify-Keeps, keeps_rules)
    handle-Keeps Messages.strategy_check msg = search keeps_rules
    handle-Keeps Messages.key_generation_requested msg = search keeps_rules
    handle-Keeps Messages.signature_requested msg = search keeps_rules
    handle-Keeps Messages.asset_generated msg = search (
      InitialPinner.update_conflict_list-Keeps, InitialPinner.trying_commit_data_upload-Keeps,
      keeps_rules,
    )
    handle-Keeps (Messages.callback_result uuid) msg = result_handler-Keeps msg uuid
    handle-Keeps Messages.debug_key_gen msg = search keeps_rules
    handle-Keeps Messages.debug_sign msg = search shared_rules
    handle-Keeps Messages.ignored msg = Keeps-lift (ok tt)

    -- A predicate that lets every task be worked on outlives every message, whatever the handling returns.
    pub handle_message-Keeps : (msg : BrokerMessage) → Keeps I (Messages.handle_message msg)
    unfolding Messages.handle_message
    handle_message-Keeps msg = handle-Keeps (Messages.route H.is_dev (split b'.' msg.subject)) msg
