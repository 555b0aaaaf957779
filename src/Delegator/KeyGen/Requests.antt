-- ===== src/Delegator/KeyGen/Requests.antt =====
-- What the executor of a key generation task is asked for, for `generate` of delegator/key_gen/store_item.rs.
use gluon_actor.Base.{◌≡◌, refl, List, [], ◌∷◌, map}
use gluon_actor.Proto.{TaskExecutionRequest, TaskExecutionInitialPinnerData}
use gluon_actor.Delegator.ExecutorInfo.{InitialPinnerInfo}
use gluon_actor.Delegator.KeyGen.StoreItem.{DelegatorKeyGenStoreItem, generate, pinner_data}

abbrev Item : Type 0
Item = DelegatorKeyGenStoreItem

-- The entries are for the pinners one by one, each with the pinner's peer id and RSA key.
abbrev pub ArePinners : List InitialPinnerInfo → List TaskExecutionInitialPinnerData → Type 0
ArePinners [] [] = Unit
ArePinners (p ∷ ps) (d ∷ ds) =
    (d.peer_id ≡ p.peer_id) × (d.rsa_pub_key ≡ p.rsa_pub_key) × ArePinners ps ds
ArePinners _ _ = ⊥

-- What the executor is to be asked for: the task's numbers and key, and the chosen pinners.
pub record IsRequest (item : Item) (request : TaskExecutionRequest) : Type 0 where
  pub task : request.task_id ≡ item.task_info.task_id
  pub pinners : ArePinners item.initial_pinners request.initial_pinners
  pub recovery : request.minimum_recovery_number ≡ item.task_info.exec_info.k
  pub key_type : request.key_type ≡ item.task_info.exec_info.task_type
  pub public_key : request.p1_public_key ≡ item.p1_public_key

map-ArePinners : (ps : List InitialPinnerInfo) → ArePinners ps (map pinner_data ps)
map-ArePinners [] = tt
map-ArePinners (p ∷ ps) = (refl, refl, map-ArePinners ps)

pub generate-IsRequest : (item : Item) → IsRequest item (generate item)
unfolding generate
generate-IsRequest item = record {
  task = refl;
  pinners = map-ArePinners item.initial_pinners;
  recovery = refl;
  key_type = refl;
  public_key = refl;
}
