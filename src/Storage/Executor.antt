-- ===== src/Storage/Executor.antt =====
-- What the handlers of src/executor leave in the store.
use gluon_actor.Base.{suc, ◌≡◌, arith, ◌∙◌, Bool, String, List, [], ◌∷◌, ok}
use gluon_actor.Base.Bytes.{Bytes}
use gluon_actor.Proto.{
  KeyGenerationCandidateRequest, TaskExecutionRequest, TaskExecutionInitialPinnerData,
  SignCandidateRequest, TaskSignWithKeySlicesResponse,
}
use gluon_actor.Common.TaskInfo
use gluon_actor.Common.TaskInfo.{TaskInfo}
use gluon_actor.Common.KeyGeneration.{verify_to_candidate_signature, send_key_generation_request}
use gluon_actor.Host.{Host}
use gluon_actor.Host.Callbacks.{Role}
use gluon_actor.Executor.StoreItem
use gluon_actor.Executor.StoreItem.{ExecutorStoreItem}
use gluon_actor.Executor.KeyGen as KeyGen
use gluon_actor.Executor.Sign as Sign
use gluon_actor.InitialPinner.Store as InitialPinnerStore
use gluon_actor.Storage.Keeps.{
  Keeps, keeps_rules, Keeps-bind, Keeps-bind_lift, Keeps-on_result_yield,
}
use gluon_actor.Storage.Tasks.{AllowsTask, Yields-get_executor_item, task_rules}

-- A candidate's record is of the task that it is asked for.
executor_task_id :
    (req : KeyGenerationCandidateRequest) (item : ExecutorStoreItem)
    → StoreItem.of_candidate_request req ≡ ok item
    → item.task_info.task_id ≡ req.task_id
unfolding StoreItem.of_candidate_request TaskInfo.of_candidate_request TaskInfo.validate_task_info
executor_task_id req item made = ground arith

module _ ⦃H : Host⦄ {I : H.Kv → Type 0} where
  pub verify_to_candidate_signature-Keeps :
      (peer_id : String) (req : KeyGenerationCandidateRequest) (role : Role)
      → Keeps I (verify_to_candidate_signature peer_id req role)
  unfolding verify_to_candidate_signature
  verify_to_candidate_signature-Keeps peer_id req role = search keeps_rules

  pub contains_item-Keeps : (id : String) → Keeps I (InitialPinnerStore.contains_item id)
  unfolding InitialPinnerStore.contains_item
  contains_item-Keeps id = search keeps_rules

  pub apply_as_executor-Keeps :
      (peer_id : String) (req : KeyGenerationCandidateRequest)
      → Keeps I (KeyGen.task_key_generation_candidate_request_handler peer_id req)
  unfolding KeyGen.task_key_generation_candidate_request_handler
  apply_as_executor-Keeps peer_id req =
      search (keeps_rules, contains_item-Keeps, verify_to_candidate_signature-Keeps)

  encrypt_slices-Keeps :
      (key_slices : List Bytes) (index : _) (pinners : List TaskExecutionInitialPinnerData)
      → Keeps I (KeyGen.encrypt_slices key_slices index pinners)
  unfolding KeyGen.encrypt_slices
  encrypt_slices-Keeps key_slices index [] = search keeps_rules
  encrypt_slices-Keeps key_slices index (p ∷ ps) = Keeps-bind _ _ (search keeps_rules) λ key_slice.
      Keeps-bind _ _ (search keeps_rules) λ encrypted.
        Keeps-bind _ _ (encrypt_slices-Keeps key_slices (suc index) ps) λ others. search keeps_rules

  generate_task_execution_response-Keeps :
      (item : ExecutorStoreItem) (request : TaskExecutionRequest)
      → Keeps I (KeyGen.generate_task_execution_response item request)
  unfolding KeyGen.generate_task_execution_response
  generate_task_execution_response-Keeps item request =
      search (keeps_rules, encrypt_slices-Keeps) depth 12

  decrypt_key_slice-Keeps :
      (id : String) (slice : Bytes) → Keeps I (Sign.decrypt_key_slice id slice)
  unfolding Sign.decrypt_key_slice
  decrypt_key_slice-Keeps id slice = search keeps_rules

  decrypt_key_slices-Keeps :
      (id : String) (slices : List Bytes) → Keeps I (Sign.decrypt_key_slices id slices)
  unfolding Sign.decrypt_key_slices
  decrypt_key_slices-Keeps id [] = search keeps_rules
  decrypt_key_slices-Keeps id (slice ∷ slices) =
      Keeps-bind _ _ (decrypt_key_slice-Keeps id slice)
        λ key_slice. search (keeps_rules, decrypt_key_slices-Keeps id slices)

  module _ {task_id : String} (A : AllowsTask I task_id) where
    pub send_key_generation_request-Keeps :
        (peer_id : String) (info : TaskInfo) (executor : Bool)
        → info.task_id ≡ task_id
        → Keeps I (send_key_generation_request peer_id info executor)
    unfolding send_key_generation_request
    send_key_generation_request-Keeps peer_id info executor e = search task_rules

    execute_task-Keeps :
        (request : TaskExecutionRequest) (peer_id reply_to : String) (item : ExecutorStoreItem)
        → item.task_info.task_id ≡ task_id
        → Keeps I (KeyGen.execute_task request peer_id reply_to item)
    unfolding KeyGen.execute_task
    execute_task-Keeps request peer_id reply_to item e =
        search (task_rules, generate_task_execution_response-Keeps) depth 12

    pub task_execution_request_handler-Keeps :
        (request : TaskExecutionRequest) (peer_id reply_to : String)
        → request.task_id ≡ task_id
        → Keeps I (KeyGen.task_execution_request_handler request peer_id reply_to)
    unfolding KeyGen.task_execution_request_handler
    task_execution_request_handler-Keeps request peer_id reply_to e =
        Keeps-on_result_yield _ _ _ _ (Yields-get_executor_item A request.task_id e)
          (execute_task-Keeps request peer_id reply_to) (λ x. search keeps_rules)

    pub sign_with_key_slices-Keeps :
        (res : TaskSignWithKeySlicesResponse) (peer_id reply_to : String)
        → res.task_id ≡ task_id
        → Keeps I (Sign.task_sign_with_key_slices_response_handler res peer_id reply_to)
    unfolding Sign.task_sign_with_key_slices_response_handler
    sign_with_key_slices-Keeps res peer_id reply_to e =
        search (task_rules, decrypt_key_slices-Keeps) depth 16

    send_sign_request-Keeps :
        (peer_id id : String) → id ≡ task_id → Keeps I (Sign.send_sign_request peer_id id)
    unfolding Sign.send_sign_request
    send_sign_request-Keeps peer_id id e = search task_rules

    pub process_sign_with_key_slices-Keeps :
        (peer_id : String) (req : SignCandidateRequest)
        → req.task_id ≡ task_id
        → Keeps I (Sign.process_sign_with_key_slices_handler peer_id req)
    unfolding Sign.process_sign_with_key_slices_handler StoreItem.of_sign_candidate_request
        TaskInfo.of_sign_candidate_request
    process_sign_with_key_slices-Keeps peer_id req e = search (task_rules, send_sign_request-Keeps)

    pub begin_as_executor-Keeps :
        (peer_id : String) (req : KeyGenerationCandidateRequest)
        → req.task_id ≡ task_id
        → Keeps I (KeyGen.on_delegator_verified peer_id req)
    unfolding KeyGen.on_delegator_verified
    begin_as_executor-Keeps peer_id req e = Keeps-bind_lift _ _ λ item made.
        let owned : item.task_info.task_id ≡ task_id = executor_task_id req item made ∙ e in
        search (task_rules, send_key_generation_request-Keeps)
