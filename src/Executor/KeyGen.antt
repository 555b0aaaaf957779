-- ===== src/Executor/KeyGen.antt =====
-- src/executor/key_gen.rs, and the guard of src/executor.rs. `willing_to_run` and `check_capabilities`
-- always allow the task.
pub mod Slices
use gluon_actor.Base.{
  ℕ, suc, Bool, true, not, String, Option, none, some, List, [], ◌∷◌, Result, ok, err, Error, ok_or,
  if◌then◌else◌, length, get_elem?,
}
use gluon_actor.Base.Bytes.{Bytes, as_bytes}
use gluon_actor.Proto.{
  GeneralMsg, KeyGenerationCandidateRequest, TaskExecutionRequest, TaskExecutionResponse,
  TaskExecutionInitialPinnerData, TaskResultInitialPinnerData,
}
use gluon_actor.Common.TaskInfo.{as_u8}
use gluon_actor.Common.KeyGeneration.{verify_to_candidate_signature, send_key_generation_request}
use gluon_actor.Host.{Host, M, Event, pure, lift, ask, perform, on_result, ◌>>=◌, ◌>>◌}
use gluon_actor.Host.Callbacks.{Role}
use gluon_actor.Executor.StoreItem.{ExecutorStoreItem, StoreItemState, of_candidate_request}
use gluon_actor.Executor.Store.{get, save}
use gluon_actor.InitialPinner.Store

abbrev willing_to_run : ExecutorStoreItem → Bool
willing_to_run _item = true

abbrev check_capabilities : ExecutorStoreItem → Result (Unit {0})
check_capabilities _item = ok tt

module _ ⦃H : Host⦄ where
  -- `executor::task_key_generation_candidate_request_handler`
  unfoldable pub task_key_generation_candidate_request_handler :
      String → KeyGenerationCandidateRequest → M (Unit {0})
  task_key_generation_candidate_request_handler peer_id req = do
    pinner ← Store.contains_item req.task_id
    if pinner then pure tt else verify_to_candidate_signature peer_id req Role.executor

  abbrev pub after_capabilities : String → ExecutorStoreItem → Result (Unit {0}) → M (Unit {0})
  after_capabilities peer_id store_item (err e) = pure tt
  after_capabilities peer_id store_item (ok _) = do
    save store_item
    send_key_generation_request peer_id store_item.task_info true
    save (record store_item { state = StoreItemState.requested })

  -- The closure, once the delegator's profile is confirmed.
  unfoldable pub on_delegator_verified : String → KeyGenerationCandidateRequest → M (Unit {0})
  on_delegator_verified peer_id req = do
    store_item ← lift (of_candidate_request req)
    if not (willing_to_run store_item)
        then pure tt
        else after_capabilities peer_id store_item (check_capabilities store_item)

  -- The loop that encrypts slice `index` for each pinner; indexing past the slices panics.
  unfoldable pub encrypt_slices :
      List Bytes → ℕ → List TaskExecutionInitialPinnerData → M (List TaskResultInitialPinnerData)
  encrypt_slices key_slices index [] = pure []
  encrypt_slices key_slices index (pinner_data ∷ rest) = do
    key_slice ← lift (ok_or (get_elem? key_slices index) Error.panic)
    encrypted_key_slice ← ask (H.rsa_encrypt pinner_data.rsa_pub_key key_slice)
    others ← encrypt_slices key_slices (suc index) rest
    pure (
        record { peer_id = pinner_data.peer_id; encrypted_key_slice = encrypted_key_slice }
        ∷ others)

  abbrev third_key : Option Bytes → List Bytes
  third_key none = []
  third_key (some p3) = p3 ∷ []

  unfoldable pub generate_multi_sig_account :
      Bytes → Bytes → Option Bytes → ℕ → String → Result Bytes
  generate_multi_sig_account p1 p2 p3 k task_type =
      elim (H.generate_multi_sig_asset k (p1 ∷ p2 ∷ third_key p3) task_type) [
        | ok account ↦ ok (as_bytes account)
        | err e ↦ err e
      ]

  unfoldable pub generate_task_execution_response :
      ExecutorStoreItem → TaskExecutionRequest → M TaskExecutionResponse
  unfolding encrypt_slices generate_multi_sig_account
  generate_task_execution_response item request = do
    keys ← ask (H.generate request.key_type)
    key_slices ← ask (
        H.shamir_share (as_u8 (length request.initial_pinners))
          (as_u8 request.minimum_recovery_number) keys.1)
    initial_pinners ← encrypt_slices key_slices 0 request.initial_pinners
    multi_sig_account ← lift (
        generate_multi_sig_account request.p1_public_key keys.0 none item.task_info.exec_info.k
          item.task_info.exec_info.task_type)
    pure (record {
      task_id = request.task_id;
      initial_pinners = initial_pinners;
      p2_public_key = keys.0;
      multi_sig_account = multi_sig_account;
    })

  unfoldable pub execute_task :
      TaskExecutionRequest → String → String → ExecutorStoreItem → M (Unit {0})
  execute_task request peer_id reply_to stored = do
    let item : ExecutorStoreItem = record stored { state = StoreItemState.responded }
    save item
    res ← generate_task_execution_response item request
    perform
        (Event.send_message peer_id item.task_info.task_id (GeneralMsg.task_execution_response res))
    save (record item { state = StoreItemState.executed })
    perform (Event.response_reply reply_to "response task execution request successfully")

  unfoldable pub task_execution_request_handler :
      TaskExecutionRequest → String → String → M (Unit {0})
  unfolding execute_task
  task_execution_request_handler request peer_id reply_to =
      on_result (get request.task_id) (execute_task request peer_id reply_to)
        (λ e. perform (Event.respond_error reply_to peer_id request.task_id e))
