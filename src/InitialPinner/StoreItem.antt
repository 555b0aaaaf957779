-- ===== src/InitialPinner/StoreItem.antt =====
-- src/initial_pinner/store_item.rs
use gluon_actor.Base.{Result, ok}
use gluon_actor.Base.Errors.{◌>>=◌}
use gluon_actor.Proto.{KeyGenerationCandidateRequest}
use gluon_actor.Common.TaskInfo
use gluon_actor.Common.TaskInfo.{TaskInfo}
use gluon_actor.Executor.StoreItem.{ExecutorStoreItem}
use gluon_actor.Executor.StoreItem

pub data StoreItemState : Type 0 where
  init requested responded deployed : StoreItemState

pub record InitialPinnerStoreItem : Type 0 where
  pub task_info : TaskInfo
  pub state : StoreItemState

-- `TryFrom<KeyGenerationCandidateRequest>`
unfoldable pub of_candidate_request : KeyGenerationCandidateRequest → Result InitialPinnerStoreItem
of_candidate_request value = do
  task_info ← TaskInfo.of_candidate_request value
  ok (record { task_info = task_info; state = init })

unfoldable pub of_executor_state : StoreItem.StoreItemState → StoreItemState
of_executor_state StoreItem.init = init
of_executor_state StoreItem.requested = requested
of_executor_state StoreItem.responded = responded
of_executor_state StoreItem.executed = deployed

-- `From<ExecutorStoreItem>`
unfoldable pub of_executor_item : ExecutorStoreItem → InitialPinnerStoreItem
unfolding of_executor_state
of_executor_item item = record { task_info = item.task_info; state = of_executor_state item.state }
