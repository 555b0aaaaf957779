-- ===== src/Host/Callbacks.antt =====
-- The callbacks that the actor registers, one constructor for each closure, with what it captures.
use gluon_actor.Base.{Bool, String, List, Option}
use gluon_actor.Base.Bytes.{Bytes}
use gluon_actor.Base.HashMap.{HashMap}
use gluon_actor.Proto.{
  KeyGenerationResponse, SignTransactionResponse, KeyGenerationCandidateRequest,
  TaskPinnerKeySliceRequest, TaskSignGetPinnerKeySliceRequest,
}
use gluon_actor.Common.TaskInfo.{TaskInfo}
use gluon_actor.Delegator.Sign.StoreItem.{DelegatorSignStoreItem}
use gluon_actor.InitialPinner.StoreItem.{InitialPinnerStoreItem}

-- The `callback` of `try_to_be_delegator`.
pub data Duty : Type 0 where
  key_generation : KeyGenerationResponse → Duty
  signing : SignTransactionResponse → Duty

-- The `candidate_op` and `callback` of `invite_candidate_executors`.
pub data Invite : Type 0 where
  key_generation : Invite
  signing : DelegatorSignStoreItem → List String → HashMap String → Invite

-- The two roles of a key generation candidate.
pub data Role : Type 0 where
  executor initial_pinner : Role

-- The `operation` of `delegator_key_operation`.
pub data Operation : Type 0 where
  sign_message : String → Bytes → Operation
  key_gen_message : String → Operation

pub data Callback : Type 0 where
  ready_for_key_generation : Bytes → Callback
  ready_for_signing : Bytes → Callback
  got_delegator_key : Bytes → Bytes → Duty → Callback
  got_deployment_ids : Bytes → SignTransactionResponse → Callback
  got_delegates : TaskInfo → Invite → Callback
  got_delegate_profile : TaskInfo → Invite → Callback
  got_update_result : String → Callback
  got_delegator_profile : String → KeyGenerationCandidateRequest → Role → Callback
  registered_upload_key :
      String → TaskPinnerKeySliceRequest → InitialPinnerStoreItem → String → String → Callback
  processed_data_upload :
      TaskPinnerKeySliceRequest → InitialPinnerStoreItem → String → String → Callback
  got_deployment_info : TaskSignGetPinnerKeySliceRequest → String → String → Callback
  got_delegator_pub_key : String → Operation → Callback
  logged : Callback

-- What a callback is called with: a body, a profile's peer id, whether the node is ready, or a
-- deployment's CID and key.
abbrev pub Answer : Callback → Type 0
Answer (Callback.ready_for_key_generation _) = Bool
Answer (Callback.ready_for_signing _) = Bool
Answer (Callback.got_delegate_profile _ _) = String
Answer (Callback.got_delegator_profile _ _ _) = String
Answer (Callback.got_deployment_info _ _ _) = Option String × Option Bytes
Answer _ = Bytes
