-- ===== src/Executor/StoreItem.antt =====
-- src/executor/store_item.rs
use gluon_actor.Base.{Result, ok}
use gluon_actor.Base.Errors.{◌>>=◌}
use gluon_actor.Proto.{KeyGenerationCandidateRequest, SignCandidateRequest}
use gluon_actor.Common.TaskInfo
use gluon_actor.Common.TaskInfo.{TaskInfo}

pub data StoreItemState : Type 0 where
  init requested responded executed : StoreItemState

pub record ExecutorStoreItem : Type 0 where
  pub task_info : TaskInfo
  pub state : StoreItemState

-- `TryFrom<KeyGenerationCandidateRequest>`
unfoldable pub of_candidate_request : KeyGenerationCandidateRequest → Result ExecutorStoreItem
of_candidate_request value = do
  task_info ← TaskInfo.of_candidate_request value
  ok (record { task_info = task_info; state = init })

-- `TryFrom<SignCandidateRequest>`, which never fails.
unfoldable pub of_sign_candidate_request : SignCandidateRequest → ExecutorStoreItem
of_sign_candidate_request value = record {
  task_info = TaskInfo.of_sign_candidate_request value;
  state = init;
}
