-- ===== src/Delegator/Sign/StoreItem.antt =====
-- src/delegator/sign/store_item.rs: the delegator's record of a signing task.
pub mod Laws
pub mod Stored
use gluon_actor.Base.{
  ℕ, Bool, true, false, String, Option, none, some, List, [], ◌∷◌, ◌++◌, Result, ok, err, Error,
  leb, length, suc,
}
use gluon_actor.Base.Bytes.{Bytes}
use gluon_actor.Base.HashMap
use gluon_actor.Base.HashMap.{HashMap}
use gluon_actor.Proto.{SignTransactionResponse}
use gluon_actor.Common.TaskInfo
use gluon_actor.Common.TaskInfo.{TaskInfo}
use gluon_actor.Delegator.ExecutorInfo.{ExecutorInfo}

pub data StoreItemState : Type 0 where
  init initialized finding_deployments sent_to_executor commit_result : StoreItemState

pub record KeySliceInfo : Type 0 where
  pub peer_id : String
  pub encrypted_key_slice : Bytes

pub record DelegatorSignStoreItem : Type 0 where
  pub task_info : TaskInfo
  pub state : StoreItemState
  pub executor : Option ExecutorInfo
  pub multi_sig_account : Bytes
  pub p1_signature : Bytes
  pub transaction_data : Bytes
  pub nonce : Bytes
  pub key_slices : HashMap (Option KeySliceInfo)
  pub deployment_candidates : HashMap (List String)

-- `TryFrom<SignTransactionResponse>`, over `base64::encode`.
unfoldable pub of_response : (Bytes → String) → SignTransactionResponse → DelegatorSignStoreItem
of_response encode value = record {
  task_info = record { task_id = encode value.task_id; exec_info = TaskInfo.default };
  state = init;
  executor = none;
  multi_sig_account = value.multi_sig_account;
  p1_signature = value.p1_signature;
  transaction_data = value.data_adhoc.transaction_data;
  nonce = [];
  key_slices = [];
  deployment_candidates = [];
}

unfoldable pub init_deployment_resources :
    List String → DelegatorSignStoreItem → DelegatorSignStoreItem
init_deployment_resources [] item = item
init_deployment_resources (id ∷ ids) item = init_deployment_resources ids (record item {
  key_slices = HashMap.insert id none item.key_slices;
  deployment_candidates = HashMap.insert id [] item.deployment_candidates;
})

abbrev is_found : Option (Option KeySliceInfo) → Bool
is_found (some (some _)) = true
is_found (some none) = false
is_found none = false

unfoldable pub has_found_key_slice : DelegatorSignStoreItem → String → Bool
has_found_key_slice item deployment_id = is_found (HashMap.get item.key_slices deployment_id)

unfoldable pub insert_deployment :
    String → String → DelegatorSignStoreItem → Result DelegatorSignStoreItem
insert_deployment deployment_id peer_id item =
    elim (HashMap.get item.deployment_candidates deployment_id) [
      | none ↦ err (Error.deployment_not_exists deployment_id)
      | some peers ↦ ok (record item {
        deployment_candidates =
            HashMap.insert deployment_id (peers ++ (peer_id ∷ [])) item.deployment_candidates;
      })
    ]

unfoldable pub insert_key_slice_info :
    String → KeySliceInfo → DelegatorSignStoreItem → Result DelegatorSignStoreItem
insert_key_slice_info deployment_id info item = elim (HashMap.get item.key_slices deployment_id) [
  | none ↦ err (Error.deployment_not_exists deployment_id)
  | some _ ↦
      ok (record item { key_slices = HashMap.insert deployment_id (some info) item.key_slices })
]

-- The slices of the entries that have one.
unfoldable pub found_slices : HashMap (Option KeySliceInfo) → List KeySliceInfo
found_slices [] = []
found_slices ((_, none) ∷ m) = found_slices m
found_slices ((_, some info) ∷ m) = info ∷ found_slices m

unfoldable pub ready_send_to_executor : DelegatorSignStoreItem → Bool
ready_send_to_executor item = leb item.task_info.exec_info.k (length (found_slices item.key_slices))

-- The drained map, and the item without it.
unfoldable pub pop_all_candidates :
    DelegatorSignStoreItem → HashMap (List String) × DelegatorSignStoreItem
pop_all_candidates item = (item.deployment_candidates, record item { deployment_candidates = [] })

abbrev slices_of : List KeySliceInfo → List Bytes
slices_of [] = []
slices_of (info ∷ infos) = info.encrypted_key_slice ∷ slices_of infos

unfoldable pub get_encrypted_key_slices : DelegatorSignStoreItem → List Bytes
get_encrypted_key_slices item = slices_of (found_slices item.key_slices)
