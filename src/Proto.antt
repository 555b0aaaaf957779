-- ===== src/Proto.antt =====
-- The protobuf messages and service types that the actor exchanges, with the fields that it reads or
-- writes. Their definitions are generated from .proto files outside the repository.
use gluon_actor.Base.{Option, ℕ, Bool, String, List}
use gluon_actor.Base.Bytes.{Bytes}

-- actor_delegate.proto
pub record KeyGenerationData : Type 0 where
  pub n : ℕ
  pub k : ℕ
  pub key_type : String
  pub delegator_tea_nonce_hash : Bytes
  pub delegator_tea_nonce_rsa_encryption : Bytes

pub record KeyGenerationResponse : Type 0 where
  pub task_id : Bytes
  pub data_adhoc : KeyGenerationData
  pub p1_public_key : Bytes

pub record SignTransactionData : Type 0 where
  pub transaction_data : Bytes
  pub delegator_tea_nonce_hash : Bytes
  pub delegator_tea_nonce_rsa_encryption : Bytes

pub record SignTransactionResponse : Type 0 where
  pub task_id : Bytes
  pub data_adhoc : SignTransactionData
  pub p1_signature : Bytes
  pub multi_sig_account : Bytes

pub record UpdateKeyGenerationResult : Type 0 where
  pub task_id : Bytes
  pub delegator_nonce : Bytes
  pub multi_sig_account : Bytes
  pub public_key : Bytes
  pub deployment_ids : List String

pub record Delegate : Type 0 where
  pub tea_id : Bytes
  pub peer_id : String

pub record AssetGeneratedResponse : Type 0 where
  pub task_id : Bytes
  pub multi_sig_account : Bytes
  pub p2_deployment_ids : List String

-- actor_pinner.proto
pub record PropertyKeyPair : Type 0 where
  pub key : String
  pub value : String

pub record ChallangeStoreItem : Type 0 where
  pub uuid : String
  pub properties : List PropertyKeyPair

pub record ServerCheckStrategyResult : Type 0 where
  pub verify : Bool
  pub message : String

pub record ClientOperationAfterVerify : Type 0 where
  pub peer_id : String
  pub pinner_ephemeral_id : Bytes
  pub item : Option ChallangeStoreItem

-- codec::messaging
pub record BrokerMessage : Type 0 where
  pub subject : String
  pub reply_to : String
  pub body : Bytes

-- What the actor encodes and sends to layer 1 and to the pinner actor.
pub data Request : Type 0 where
  get_delegates : ℕ → ℕ → Request
  get_deployment_ids : Bytes → Request
  update_key_generation_result : UpdateKeyGenerationResult → Request
  find_pinners : String → List PropertyKeyPair → ℕ → Bytes → Request
  peer_approve_ra : String → List PropertyKeyPair → Request
  commit_data_upload : String → String → Request
  update_conflict_list : Bytes → List String → List String → ℕ → Request
  data_upload_completed : String → String → Request
  server_check_strategy_result : ServerCheckStrategyResult → Request
  key_generation_response : KeyGenerationResponse → Request
  sign_transaction_response : SignTransactionResponse → Request

-- general_msg::Msg
pub record KeyGenerationCandidateRequest : Type 0 where
  pub task_id : String
  pub n : ℕ
  pub k : ℕ
  pub key_type : String
  pub delegator_ephemeral_id : Bytes
  pub executor : Bool
  pub signature : Bytes

pub record SignCandidateRequest : Type 0 where
  pub task_id : String
  pub multi_sig_account : Bytes
  pub n : ℕ
  pub k : ℕ
  pub task_type : String

pub record TaskKeyGenerationApplyRequst : Type 0 where
  pub task_id : String
  pub rsa_pub_key : Bytes
  pub apply_executor : Bool

pub record TaskExecutionInitialPinnerData : Type 0 where
  pub peer_id : String
  pub rsa_pub_key : Bytes

pub record TaskExecutionRequest : Type 0 where
  pub task_id : String
  pub initial_pinners : List TaskExecutionInitialPinnerData
  pub minimum_recovery_number : ℕ
  pub key_type : String
  pub p1_public_key : Bytes

pub record TaskResultInitialPinnerData : Type 0 where
  pub peer_id : String
  pub encrypted_key_slice : Bytes

pub record TaskExecutionResponse : Type 0 where
  pub task_id : String
  pub initial_pinners : List TaskResultInitialPinnerData
  pub p2_public_key : Bytes
  pub multi_sig_account : Bytes

pub record TaskPinnerKeySliceRequest : Type 0 where
  pub task_id : String
  pub public_key : Bytes
  pub encrypted_key_slice : Bytes
  pub multi_sig_account : Bytes

pub record TaskPinnerKeySliceResponse : Type 0 where
  pub task_id : String
  pub deployment_id : String

pub record TaskSignWithKeySlicesRequst : Type 0 where
  pub task_id : String
  pub rsa_pub_key : Bytes

pub record TaskSignWithKeySlicesResponse : Type 0 where
  pub task_id : String
  pub adhoc_data : Bytes
  pub p1_signature : Bytes
  pub key_type : String
  pub encrypted_key_slices : List Bytes

pub record TaskSignGetPinnerKeySliceRequest : Type 0 where
  pub task_id : String
  pub rsa_pub_key : Bytes
  pub deployment_id : String

pub record TaskSignGetPinnerKeySliceResponse : Type 0 where
  pub task_id : String
  pub encrypted_key_slice : Bytes
  pub deployment_id : String

pub record TaskCommitSignResultRequest : Type 0 where
  pub task_id : String
  pub witness : Bytes

pub data GeneralMsg : Type 0 where
  task_key_generation_apply_request : TaskKeyGenerationApplyRequst → GeneralMsg
  task_execution_request : TaskExecutionRequest → GeneralMsg
  task_execution_response : TaskExecutionResponse → GeneralMsg
  task_pinner_key_slice_request : TaskPinnerKeySliceRequest → GeneralMsg
  task_pinner_key_slice_response : TaskPinnerKeySliceResponse → GeneralMsg
  task_sign_with_key_slices_request : TaskSignWithKeySlicesRequst → GeneralMsg
  task_sign_with_key_slices_response : TaskSignWithKeySlicesResponse → GeneralMsg
  task_sign_get_pinner_key_slice_request : TaskSignGetPinnerKeySliceRequest → GeneralMsg
  task_sign_get_pinner_key_slice_response : TaskSignGetPinnerKeySliceResponse → GeneralMsg
  task_commit_sign_result_request : TaskCommitSignResultRequest → GeneralMsg
  key_generation_candidate_request : KeyGenerationCandidateRequest → GeneralMsg
  sign_candidate_request : SignCandidateRequest → GeneralMsg
  other : GeneralMsg
