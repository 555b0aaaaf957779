-- ===== src/Storage/InitialPinner.antt =====
-- What the handlers of src/initial_pinner leave in the store.
use gluon_actor.Base.{◌≡◌, ◌∙◌, arith, String, List, ok}
use gluon_actor.Base.Bytes.{Bytes}
use gluon_actor.Proto.{KeyGenerationCandidateRequest, TaskPinnerKeySliceRequest}
use gluon_actor.Common.TaskInfo
use gluon_actor.Common.KeyGeneration.{decrypt_key_slice}
use gluon_actor.Host.{Host}
use gluon_actor.Executor.Store as ExecutorStore
use gluon_actor.InitialPinner.StoreItem
use gluon_actor.InitialPinner.StoreItem.{InitialPinnerStoreItem}
use gluon_actor.InitialPinner.Handlers
use gluon_actor.Storage.Keeps.{
  Keeps, Yields, keeps_rules, Keeps-bind_lift, Keeps-on_result_yield, Yields-on_result, Yields-bind,
  Yields-pure,
}
use gluon_actor.Storage.Tasks.{
  AllowsTask, AllowsShared, Yields-get_executor_item, Yields-get_initial_pinner_item,
  Keeps-read_initial_pinner_item, task_rules, shared_rules,
}
use gluon_actor.Storage.Executor.{
  verify_to_candidate_signature-Keeps, send_key_generation_request-Keeps,
}

-- A candidate's record is of the task that it is asked for.
pinner_task_id :
    (req : KeyGenerationCandidateRequest) (item : InitialPinnerStoreItem)
    → StoreItem.of_candidate_request req ≡ ok item
    → item.task_info.task_id ≡ req.task_id
unfolding StoreItem.of_candidate_request TaskInfo.of_candidate_request TaskInfo.validate_task_info
pinner_task_id req item made = ground arith

module _ ⦃H : Host⦄ {I : H.Kv → Type 0} where
  contains_item-Keeps : (id : String) → Keeps I (ExecutorStore.contains_item id)
  unfolding ExecutorStore.contains_item
  contains_item-Keeps id = search keeps_rules

  pub apply_as_initial_pinner-Keeps :
      (peer_id : String) (req : KeyGenerationCandidateRequest)
      → Keeps I (Handlers.task_key_generation_candidate_request_handler peer_id req)
  unfolding Handlers.task_key_generation_candidate_request_handler
  apply_as_initial_pinner-Keeps peer_id req =
      search (keeps_rules, contains_item-Keeps, verify_to_candidate_signature-Keeps)

  deploy_key_slice-Keeps :
      (req : TaskPinnerKeySliceRequest) (item : InitialPinnerStoreItem) (peer_id reply_to : String)
      → Keeps I (Handlers.deploy_key_slice req item peer_id reply_to)
  unfolding Handlers.deploy_key_slice
  deploy_key_slice-Keeps req item peer_id reply_to = search keeps_rules

  commit_data_upload-Keeps :
      (account : Bytes) (item : InitialPinnerStoreItem)
      → Keeps I (Handlers.commit_data_upload account item)
  unfolding Handlers.commit_data_upload
  commit_data_upload-Keeps account item = search keeps_rules depth 8

  pub trying_commit_data_upload-Keeps :
      (id : String) (account : Bytes) → Keeps I (Handlers.trying_commit_data_upload id account)
  unfolding Handlers.trying_commit_data_upload
  trying_commit_data_upload-Keeps id account =
      search (Keeps-read_initial_pinner_item, commit_data_upload-Keeps, keeps_rules)

  pub update_conflict_list-Keeps :
      (account : Bytes) (ids : List String) → Keeps I (Handlers.update_conflict_list account ids)
  unfolding Handlers.update_conflict_list
  update_conflict_list-Keeps account ids = search keeps_rules

  decrypt_key_slice-Keeps : (id : String) (slice : Bytes) → Keeps I (decrypt_key_slice id slice)
  unfolding decrypt_key_slice
  decrypt_key_slice-Keeps id slice = search keeps_rules

  pub on_upload_key-Keeps :
      AllowsShared I
      → (session_id : String) (req : TaskPinnerKeySliceRequest) (item : InitialPinnerStoreItem)
      → (peer_id reply_to : String) (body : Bytes)
      → Keeps I (Handlers.on_upload_key session_id req item peer_id reply_to body)
  unfolding Handlers.on_upload_key
  on_upload_key-Keeps A session_id req item peer_id reply_to body =
      search (decrypt_key_slice-Keeps, shared_rules) depth 16

  module _ {task_id : String} (A : AllowsTask I task_id) where
    trying_get-Yields :
        (id : String)
        → id ≡ task_id
        → Yields I
            (λ (item : InitialPinnerStoreItem). item.task_info.task_id ≡ task_id)
            (Handlers.trying_get_initial_pinner_store_item id)
    unfolding Handlers.trying_get_initial_pinner_store_item StoreItem.of_executor_item
    trying_get-Yields id e =
        Yields-on_result _ _ _ _ _ (Yields-get_initial_pinner_item A id e)
          (λ item owned. Yields-pure item _ owned)
          λ x.
            Yields-bind _ _ _ _ (Yields-get_executor_item A id e)
              λ item owned. Yields-pure (StoreItem.of_executor_item item) _ owned

    store_and_deploy-Keeps :
        (req : TaskPinnerKeySliceRequest) (peer_id reply_to : String)
        (item : InitialPinnerStoreItem)
        → item.task_info.task_id ≡ task_id
        → Keeps I (Handlers.store_and_deploy req peer_id reply_to item)
    unfolding Handlers.store_and_deploy
    store_and_deploy-Keeps req peer_id reply_to item owned =
        search (deploy_key_slice-Keeps, task_rules)

    pub task_pinner_key_slice_request_handler-Keeps :
        (req : TaskPinnerKeySliceRequest) (peer_id reply_to : String)
        → req.task_id ≡ task_id
        → Keeps I (Handlers.task_pinner_key_slice_request_handler req peer_id reply_to)
    unfolding Handlers.task_pinner_key_slice_request_handler
    task_pinner_key_slice_request_handler-Keeps req peer_id reply_to e =
        Keeps-on_result_yield _ _ _ _ (trying_get-Yields req.task_id e)
          (store_and_deploy-Keeps req peer_id reply_to) (λ x. search keeps_rules)

    pub begin_as_initial_pinner-Keeps :
        (peer_id : String) (req : KeyGenerationCandidateRequest)
        → req.task_id ≡ task_id
        → Keeps I (Handlers.on_delegator_verified peer_id req)
    unfolding Handlers.on_delegator_verified
    begin_as_initial_pinner-Keeps peer_id req e = Keeps-bind_lift _ _ λ item made.
        let owned : item.task_info.task_id ≡ task_id = pinner_task_id req item made ∙ e in
        search (task_rules, send_key_generation_request-Keeps)

    pub on_data_upload-Keeps :
        AllowsShared I
        → (req : TaskPinnerKeySliceRequest) (item : InitialPinnerStoreItem)
        → (peer_id reply_to : String) (body : Bytes) → item.task_info.task_id ≡ task_id
        → Keeps I (Handlers.on_data_upload req item peer_id reply_to body)
    unfolding Handlers.on_data_upload
    on_data_upload-Keeps S req item peer_id reply_to body owned =
        search (shared_rules, task_rules) depth 12
