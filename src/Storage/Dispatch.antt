-- ===== src/Storage/Dispatch.antt =====
-- What the messages that the actor is handed leave in the store, for src/lib.rs.
use gluon_actor.Base.{◌≡◌, refl, Option, none, some, String}
use gluon_actor.Proto.{GeneralMsg, TaskSignGetPinnerKeySliceRequest}
use gluon_actor.Host.{Host}
use gluon_actor.Pinner
use gluon_actor.Actor.{dispatch_p2p}
use gluon_actor.Storage.Keeps.{Keeps, Keeps-if, Keeps-perform}
use gluon_actor.Storage.Tasks.{AllowsTask}
use gluon_actor.Storage.Executor
use gluon_actor.Storage.InitialPinner
use gluon_actor.Storage.KeyGen
use gluon_actor.Storage.Sign

-- The task that a message of another node is about.
unfoldable pub task_of : GeneralMsg → Option String
task_of (GeneralMsg.task_key_generation_apply_request req) = some req.task_id
task_of (GeneralMsg.task_execution_request req) = some req.task_id
task_of (GeneralMsg.task_execution_response res) = some res.task_id
task_of (GeneralMsg.task_pinner_key_slice_request req) = some req.task_id
task_of (GeneralMsg.task_pinner_key_slice_response res) = some res.task_id
task_of (GeneralMsg.task_sign_with_key_slices_request req) = some req.task_id
task_of (GeneralMsg.task_sign_with_key_slices_response res) = some res.task_id
task_of (GeneralMsg.task_sign_get_pinner_key_slice_request req) = some req.task_id
task_of (GeneralMsg.task_sign_get_pinner_key_slice_response res) = some res.task_id
task_of (GeneralMsg.task_commit_sign_result_request req) = some req.task_id
task_of (GeneralMsg.key_generation_candidate_request req) = some req.task_id
task_of (GeneralMsg.sign_candidate_request req) = some req.task_id
task_of GeneralMsg.other = none

module _ ⦃H : Host⦄ {I : H.Kv → Type 0} where
  slice_request-Keeps :
      (req : TaskSignGetPinnerKeySliceRequest) (peer_id reply_to : String)
      → Keeps I (Pinner.task_sign_with_key_slices_request_handler req peer_id reply_to)
  unfolding Pinner.task_sign_with_key_slices_request_handler
  slice_request-Keeps req peer_id reply_to = Keeps-perform _

  -- A predicate that lets the task of a message be worked on outlives the message.
  pub dispatch_p2p-Keeps :
      (msg : GeneralMsg) (peer_id reply_to : String)
      → ((id : String) → task_of msg ≡ some id → AllowsTask I id)
      → Keeps I (dispatch_p2p msg peer_id reply_to)
  unfolding dispatch_p2p task_of
  dispatch_p2p-Keeps (GeneralMsg.task_key_generation_apply_request req) from reply_to A =
      KeyGen.apply_request-Keeps req from reply_to
  dispatch_p2p-Keeps (GeneralMsg.task_execution_request req) from reply_to A =
      Executor.task_execution_request_handler-Keeps (A _ refl) req from reply_to refl
  dispatch_p2p-Keeps (GeneralMsg.task_execution_response res) from reply_to A =
      KeyGen.process_task_execution_response-Keeps (A _ refl) res from reply_to refl
  dispatch_p2p-Keeps (GeneralMsg.task_pinner_key_slice_request req) from reply_to A =
      InitialPinner.task_pinner_key_slice_request_handler-Keeps (A _ refl) req from reply_to refl
  dispatch_p2p-Keeps (GeneralMsg.task_pinner_key_slice_response res) from reply_to A =
      KeyGen.process_task_pinner_key_slice_response-Keeps (A _ refl) res from reply_to refl
  dispatch_p2p-Keeps (GeneralMsg.task_sign_with_key_slices_request req) from reply_to A =
      Sign.process_executor_request-Keeps (A _ refl) req from reply_to
  dispatch_p2p-Keeps (GeneralMsg.task_sign_with_key_slices_response res) from reply_to A =
      Executor.sign_with_key_slices-Keeps (A _ refl) res from reply_to refl
  dispatch_p2p-Keeps (GeneralMsg.task_sign_get_pinner_key_slice_request req) from reply_to A =
      slice_request-Keeps req from reply_to
  dispatch_p2p-Keeps (GeneralMsg.task_sign_get_pinner_key_slice_response res) from reply_to A =
      Sign.process_pinner_key_slice_response-Keeps (A _ refl) res from reply_to refl
  dispatch_p2p-Keeps (GeneralMsg.task_commit_sign_result_request req) from reply_to A =
      Sign.process_commit_sign_result_request-Keeps (A _ refl) req from reply_to refl
  dispatch_p2p-Keeps (GeneralMsg.key_generation_candidate_request req) from reply_to A =
      Keeps-if req.executor _ _ (λ _. Executor.apply_as_executor-Keeps from req)
        (λ _. InitialPinner.apply_as_initial_pinner-Keeps from req)
  dispatch_p2p-Keeps (GeneralMsg.sign_candidate_request req) from reply_to A =
      Executor.process_sign_with_key_slices-Keeps (A _ refl) from req refl
  dispatch_p2p-Keeps GeneralMsg.other from reply_to A = Keeps-perform _
