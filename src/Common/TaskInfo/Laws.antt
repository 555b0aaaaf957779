-- ===== src/Common/TaskInfo/Laws.antt =====
-- What a validated `TaskInfo` satisfies, for common/task_info.rs.
use gluon_actor.Base.{◌<◌, ◌≤◌, ◌≡◌, ◌↔◌, ok, arith}
use gluon_actor.Proto.{KeyGenerationCandidateRequest}
use gluon_actor.Common.TaskInfo.{TaskInfo, as_u8, validate_task_info, of_candidate_request}

-- The numbers that validation lets through: at least one slice to recover, fewer than the slices.
pub record IsValid (info : TaskInfo) : Type 0 where
  pub positive : 0 < info.exec_info.k
  pub below : info.exec_info.k < info.exec_info.n

pub validate_task_info_iff :
    (info info' : TaskInfo) → (validate_task_info info ≡ ok info') ↔ (IsValid info × (info' ≡ info))
unfolding validate_task_info
validate_task_info_iff info info' = (λ h. ground arith, λ h. ground arith)

-- A candidate request is accepted exactly when its numbers, cut to eight bits, satisfy 0 < k < n; the
-- task then has these numbers, at most 255, and the request's task id.
pub of_candidate_request_iff :
    (req : KeyGenerationCandidateRequest) (info : TaskInfo)
    → (of_candidate_request req ≡ ok info) ↔ (
        IsValid info
        × (info.exec_info.n ≤ 255)
        × (info ≡ record {
          task_id = req.task_id;
          exec_info = record { n = as_u8 req.n; k = as_u8 req.k; task_type = req.key_type };
        }))
unfolding of_candidate_request
of_candidate_request_iff req info = (λ h. ground arith, λ h. ground arith)
