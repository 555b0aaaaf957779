-- ===== src/Delegator/Handler.antt =====
-- src/delegator/handler.rs: the delegator's handlers as the dispatch calls them. The request to take a
-- role is in KeyGen/Ra.
use gluon_actor.Base.{String}
use gluon_actor.Proto.{
  TaskPinnerKeySliceResponse, TaskSignWithKeySlicesRequst, TaskSignGetPinnerKeySliceResponse,
  TaskCommitSignResultRequest, TaskExecutionResponse, KeyGenerationResponse,
  SignTransactionResponse,
}
use gluon_actor.Host.{Host, M}
use gluon_actor.Delegator.KeyGen.Handlers as KeyGen
use gluon_actor.Delegator.Sign.Handlers as Sign

module _ ⦃H : Host⦄ where
  abbrev pub task_pinner_key_slice_response_handler :
      TaskPinnerKeySliceResponse → String → String → M (Unit {0})
  task_pinner_key_slice_response_handler res peer_id reply_to =
      KeyGen.process_task_pinner_key_slice_response res peer_id reply_to

  abbrev pub task_sign_with_key_slices_request_handler :
      TaskSignWithKeySlicesRequst → String → String → M (Unit {0})
  task_sign_with_key_slices_request_handler res peer_id reply_to =
      Sign.process_executor_sign_with_key_slices_request res peer_id reply_to

  abbrev pub task_sign_get_pinner_key_slice_response_handler :
      TaskSignGetPinnerKeySliceResponse → String → String → M (Unit {0})
  task_sign_get_pinner_key_slice_response_handler res peer_id reply_to =
      Sign.process_pinner_key_slice_response res peer_id reply_to

  abbrev pub task_commit_sign_result_request_handler :
      TaskCommitSignResultRequest → String → String → M (Unit {0})
  task_commit_sign_result_request_handler req peer_id reply_to =
      Sign.process_commit_sign_result_request req peer_id reply_to

  abbrev pub task_execution_response_handler :
      TaskExecutionResponse → String → String → M (Unit {0})
  task_execution_response_handler res peer_id reply_to =
      KeyGen.process_task_execution_response res peer_id reply_to

  abbrev pub process_key_generation_event : KeyGenerationResponse → M (Unit {0})
  process_key_generation_event res = KeyGen.process_key_generation_event res

  abbrev pub process_sign_with_key_slices_event : SignTransactionResponse → M (Unit {0})
  process_sign_with_key_slices_event req = Sign.process_sign_with_key_slices_event req
