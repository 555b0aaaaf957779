-- ===== src/Storage/KeyGen.antt =====
-- What the handlers of src/delegator/key_gen leave in the store.
use gluon_actor.Base.{
  ℕ, zero, suc, ◌≡◌, ◌∙◌, ap, refl, arith, Bool, Option, none, some, String, List, [], ◌∷◌, Result,
  ok, err,
}
use gluon_actor.Base.HashMap
use gluon_actor.Base.Bytes.{Bytes}
use gluon_actor.Base.Errors as Errors
use gluon_actor.Proto.{
  KeyGenerationResponse, TaskExecutionResponse, TaskResultInitialPinnerData,
  TaskPinnerKeySliceResponse, ChallangeStoreItem, TaskKeyGenerationApplyRequst,
}
use gluon_actor.Common.TaskInfo
use gluon_actor.Common.TaskInfo.{TaskInfo}
use gluon_actor.Common.Utils.{send_ra_request, invite_candidate_executors}
use gluon_actor.Common.KeyGeneration.{send_key_candidate_request}
use gluon_actor.Common.Properties.{find_property}
use gluon_actor.Host.{Host}
use gluon_actor.Delegator.ExecutorInfo.{ExecutorInfo}
use gluon_actor.Delegator.KeyGen.StoreItem
use gluon_actor.Delegator.KeyGen.StoreItem.{DelegatorKeyGenStoreItem}
use gluon_actor.Delegator.KeyGen.Ra
use gluon_actor.Delegator.KeyGen.Handlers
use gluon_actor.Delegator.KeyGen.Observers
use gluon_actor.Storage.Keeps.{
  Keeps, Yields, keeps_rules, Keeps-if, Keeps-option, Keeps-lift, Keeps-perform, Keeps-bind,
  Keeps-bind_lift, Keeps-bind_yield, Keeps-on_result_yield, Yields-bind, Yields-pure, Yields-any,
}
use gluon_actor.Storage.Tasks.{
  AllowsTask, Yields-get_key_gen_item, Keeps-read_key_gen_item, task_rules, ok_or_inv,
}

take_pinner_task :
    (item : DelegatorKeyGenStoreItem) → (StoreItem.take_pinner item).task_info ≡ item.task_info
unfolding StoreItem.take_pinner
take_pinner_task item = ground arith

select_loop_task :
    (fuel : ℕ) (item chosen : DelegatorKeyGenStoreItem)
    → StoreItem.select_loop fuel item ≡ ok chosen
    → chosen.task_info ≡ item.task_info
unfolding StoreItem.select_loop
select_loop_task zero item chosen e = cc e
select_loop_task (suc fuel) item chosen e =
    ground (arith, take_pinner_task item, select_loop_task fuel (StoreItem.take_pinner item) chosen)

select_executor_task :
    (item chosen : DelegatorKeyGenStoreItem)
    → StoreItem.select_executor item ≡ ok chosen
    → chosen.task_info ≡ item.task_info
unfolding StoreItem.select_executor
select_executor_task item chosen e = ground arith

-- The election stays with the task.
elect_task :
    (item chosen : DelegatorKeyGenStoreItem)
    → StoreItem.elect item ≡ ok chosen
    → chosen.task_info ≡ item.task_info
unfolding StoreItem.elect StoreItem.select_initial_pinners
elect_task item chosen e = selected (StoreItem.select_executor item) refl e
  where
    selected :
        (r : Result DelegatorKeyGenStoreItem)
        → StoreItem.select_executor item ≡ r
        → Errors.◌>>=◌ r StoreItem.select_initial_pinners ≡ ok chosen
        → chosen.task_info ≡ item.task_info
    selected (ok i) q e = select_loop_task _ i chosen e ∙ select_executor_task item i q
    selected (err x) q e = cc e

response_task_id :
    (encode : Bytes → String) (res : KeyGenerationResponse) (item : DelegatorKeyGenStoreItem)
    → StoreItem.of_response encode res ≡ ok item
    → item.task_info.task_id ≡ encode res.task_id
unfolding StoreItem.of_response TaskInfo.of_key_generation_response TaskInfo.validate_task_info
response_task_id encode res item made = ground arith

module _ ⦃H : Host⦄ {I : H.Kv → Type 0} where
  pub apply_request-Keeps :
      (req : TaskKeyGenerationApplyRequst) (peer_id reply_to : String)
      → Keeps I (Ra.task_key_generation_apply_request_handler req peer_id reply_to)
  unfolding Ra.task_key_generation_apply_request_handler Ra.remote_attestation_executor
      Ra.remote_attestation_initial_pinner send_ra_request
  apply_request-Keeps req peer_id reply_to = search keeps_rules

  pub send_key_candidate_request-Keeps :
      (peer_id : String) (info : TaskInfo) (executor : Bool)
      → Keeps I (send_key_candidate_request peer_id info executor)
  unfolding send_key_candidate_request
  send_key_candidate_request-Keeps peer_id info executor = search keeps_rules

  pub invite_candidate_initial_pinners-Keeps :
      (info : TaskInfo) (filter_ids : List String)
      → Keeps I (Handlers.invite_candidate_initial_pinners info filter_ids)
  unfolding Handlers.invite_candidate_initial_pinners
  invite_candidate_initial_pinners-Keeps info filter_ids =
      search (keeps_rules, send_key_candidate_request-Keeps)

  close_executor-Keeps :
      (executor : Option ExecutorInfo) → Keeps I (Handlers.close_executor executor)
  close_executor-Keeps none = Keeps-lift (ok tt)
  close_executor-Keeps (some executor) = Keeps-perform _

  pub close_p2p_connections-Keeps : (id : String) → Keeps I (Handlers.close_p2p_connections id)
  unfolding Handlers.close_p2p_connections
  close_p2p_connections-Keeps id =
      Keeps-bind _ _ (Keeps-read_key_gen_item id)
        λ item. Keeps-bind _ _ (search keeps_rules) λ _. close_executor-Keeps item.executor

  module _ {task_id : String} (A : AllowsTask I task_id) where
    send_to_elected-Keeps :
        (item : DelegatorKeyGenStoreItem)
        → item.task_info.task_id ≡ task_id
        → Keeps I (Handlers.send_to_elected item)
    unfolding Handlers.send_to_elected
    send_to_elected-Keeps item owned = search task_rules

    try_send_to_executor-Keeps :
        (item : DelegatorKeyGenStoreItem)
        → item.task_info.task_id ≡ task_id
        → Keeps I (Handlers.try_send_to_executor item)
    unfolding Handlers.try_send_to_executor
    try_send_to_executor-Keeps item owned =
        Keeps-if _ _ _
          (λ _. Keeps-bind_lift _ _ λ elected e.
            send_to_elected-Keeps elected
              (ap (λ (i : TaskInfo). i.task_id) (elect_task item elected e) ∙ owned))
          (λ _. Keeps-lift (ok tt))

    share_slices-Yields :
        (res : TaskExecutionResponse) (slices : List TaskResultInitialPinnerData)
        → (item : DelegatorKeyGenStoreItem) → item.task_info.task_id ≡ task_id
        → Yields I
            (λ (shared : DelegatorKeyGenStoreItem). shared.task_info.task_id ≡ task_id)
            (Handlers.share_slices res slices item)
    unfolding Handlers.share_slices Handlers.share_slices_to_initial_pinner
    share_slices-Yields res [] item owned = Yields-pure item _ owned
    share_slices-Yields res (slice ∷ slices) item owned =
        Yields-bind _ _ _ _ (Yields-any _ (Keeps-perform _))
          λ _ _. share_slices-Yields res slices _ owned

    on_execution_response-Keeps :
        (res : TaskExecutionResponse) (reply_to : String) (item : DelegatorKeyGenStoreItem)
        → item.task_info.task_id ≡ task_id
        → Keeps I (Handlers.on_execution_response res reply_to item)
    unfolding Handlers.on_execution_response
    on_execution_response-Keeps res reply_to item owned = Keeps-bind _ _ (search task_rules) λ _.
        Keeps-bind_yield _ _ _ (share_slices-Yields res res.initial_pinners _ owned)
          λ shared e. search task_rules

    pub process_task_execution_response-Keeps :
        (res : TaskExecutionResponse) (peer_id reply_to : String)
        → res.task_id ≡ task_id
        → Keeps I (Handlers.process_task_execution_response res peer_id reply_to)
    unfolding Handlers.process_task_execution_response Handlers.delegator_store_item_handler
    process_task_execution_response-Keeps res peer_id reply_to e =
        Keeps-on_result_yield _ _ _ _ (Yields-get_key_gen_item A res.task_id e)
          (on_execution_response-Keeps res reply_to) (λ x. search keeps_rules)

    after_answer-Keeps :
        (reply_to : String) (item : DelegatorKeyGenStoreItem)
        → item.task_info.task_id ≡ task_id
        → Keeps I (Handlers.after_answer reply_to item)
    unfolding Handlers.after_answer
    after_answer-Keeps reply_to item owned = search task_rules

    on_pinner_response-Keeps :
        (res : TaskPinnerKeySliceResponse) (peer_id reply_to : String)
        (item : DelegatorKeyGenStoreItem)
        → item.task_info.task_id ≡ task_id
        → Keeps I (Handlers.on_pinner_response res peer_id reply_to item)
    unfolding Handlers.on_pinner_response
    on_pinner_response-Keeps res peer_id reply_to item owned =
        Keeps-option (HashMap.get item.initial_pinner_responses peer_id) _ _ (Keeps-perform _)
          λ _ _. after_answer-Keeps reply_to _ owned

    pub process_task_pinner_key_slice_response-Keeps :
        (res : TaskPinnerKeySliceResponse) (peer_id reply_to : String)
        → res.task_id ≡ task_id
        → Keeps I (Handlers.process_task_pinner_key_slice_response res peer_id reply_to)
    unfolding Handlers.process_task_pinner_key_slice_response Handlers.delegator_store_item_handler
    process_task_pinner_key_slice_response-Keeps res peer_id reply_to e =
        Keeps-on_result_yield _ _ _ _ (Yields-get_key_gen_item A res.task_id e)
          (on_pinner_response-Keeps res peer_id reply_to) (λ x. search keeps_rules)

    pub on_delegator-Keeps :
        (res : KeyGenerationResponse) (nonce : Bytes)
        → H.base64_encode res.task_id ≡ task_id
        → Keeps I (Handlers.on_delegator res nonce)
    unfolding Handlers.on_delegator invite_candidate_executors
    on_delegator-Keeps res nonce e = Keeps-bind_lift _ _ λ item made.
        let owned : item.task_info.task_id ≡ task_id =
          response_task_id H.base64_encode res item made ∙ e in
        search task_rules

    on_executor_ra_success-Keeps :
        (id peer_id : String) (key : Bytes)
        → id ≡ task_id
        → Keeps I (Observers.on_executor_ra_success id peer_id key)
    unfolding Observers.on_executor_ra_success StoreItem.insert_executor
    on_executor_ra_success-Keeps id peer_id key e = search (task_rules, try_send_to_executor-Keeps)

    on_initial_pinner_ra_success-Keeps :
        (id peer_id : String) (key : Bytes)
        → id ≡ task_id
        → Keeps I (Observers.on_initial_pinner_ra_success id peer_id key)
    unfolding Observers.on_initial_pinner_ra_success StoreItem.insert_initial_pinner
    on_initial_pinner_ra_success-Keeps id peer_id key e =
        search (task_rules, try_send_to_executor-Keeps)

  -- The task is the one that the properties of the challenge name.
  pub operation_after_verify_handler-Keeps :
      (peer_id : String) (ephemeral_id : Bytes) (item : ChallangeStoreItem)
      → ((id : String)
          → find_property Ra.property_task_id item.properties ≡ some id
          → AllowsTask I id)
      → Keeps I (Observers.operation_after_verify_handler peer_id ephemeral_id item)
  unfolding Observers.operation_after_verify_handler
  operation_after_verify_handler-Keeps peer_id ephemeral_id item A = Keeps-bind_lift _ _ λ id e.
      let B : AllowsTask I id = A id (ok_or_inv _ _ id e) in
      search (keeps_rules, on_executor_ra_success-Keeps B, on_initial_pinner_ra_success-Keeps B)
        depth 12
