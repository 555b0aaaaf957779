-- ===== src/Common/TaskInfo.antt =====
-- src/common/execution_info.rs and src/common/task_info.rs. Casts `as u8` keep the value modulo 256.
pub mod Laws
use gluon_actor.Base.{ℕ, ◌%◌, Bool, ◌||◌, String, Result, ok, err, Error, ◌==◌, leb, if◌then◌else◌}
use gluon_actor.Base.Bytes.{Bytes}
use gluon_actor.Proto.{KeyGenerationCandidateRequest, SignCandidateRequest, KeyGenerationResponse}

pub record ExecutionInfo : Type 0 where
  pub n : ℕ
  pub k : ℕ
  pub task_type : String

abbrev pub default : ExecutionInfo
default = record { n = 0; k = 0; task_type = "" }

pub record TaskInfo : Type 0 where
  pub task_id : String
  pub exec_info : ExecutionInfo

abbrev pub as_u8 : ℕ → ℕ
as_u8 x = x % 256

unfoldable pub validate_task_info : TaskInfo → Result TaskInfo
validate_task_info info =
    if info.exec_info.n == 0
    then err Error.invalid_n
    else if (info.exec_info.k == 0) || leb info.exec_info.n info.exec_info.k
    then err Error.invalid_k
    else ok info

-- `TryFrom<KeyGenerationCandidateRequest> for TaskInfo`
unfoldable pub of_candidate_request : KeyGenerationCandidateRequest → Result TaskInfo
unfolding validate_task_info
of_candidate_request value = validate_task_info (record {
  task_id = value.task_id;
  exec_info = record { n = as_u8 value.n; k = as_u8 value.k; task_type = value.key_type };
})

-- `From<SignCandidateRequest> for TaskInfo`: no validation.
unfoldable pub of_sign_candidate_request : SignCandidateRequest → TaskInfo
of_sign_candidate_request value = record {
  task_id = value.task_id;
  exec_info = record { n = as_u8 value.n; k = as_u8 value.k; task_type = value.task_type };
}

-- `TryFrom<KeyGenerationResponse> for TaskInfo`, over `base64::encode`.
unfoldable pub of_key_generation_response :
    (Bytes → String) → KeyGenerationResponse → Result TaskInfo
unfolding validate_task_info
of_key_generation_response encode value = validate_task_info (record {
  task_id = encode value.task_id;
  exec_info = record {
    n = as_u8 value.data_adhoc.n;
    k = as_u8 value.data_adhoc.k;
    task_type = value.data_adhoc.key_type;
  };
})
