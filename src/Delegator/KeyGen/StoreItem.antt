-- ===== src/Delegator/KeyGen/StoreItem.antt =====
-- src/delegator/key_gen/store_item.rs: the delegator's record of a key generation task, and the
-- election of the executor and the initial pinners. Builds are release builds, so `n + 1` on a `u8`
-- wraps. The `while` loop of the election takes fuel.
pub mod Elect
pub mod Election
pub mod Fuel
pub mod Origin
use gluon_actor.Base.{
  ℕ, zero, suc, ◌+◌, ◌%◌, Bool, true, false, ◌&&◌, ◌||◌, not, String, Option, none, some, List, [],
  ◌∷◌, ◌++◌, map, Result, ok, err, ok_or, Error, ◌==◌, ltb, leb, if◌then◌else◌, length, is_empty,
  pop_last,
}
use gluon_actor.Base.Errors.{◌>>=◌}
use gluon_actor.Base.Bytes.{Bytes}
use gluon_actor.Base.HashMap
use gluon_actor.Base.HashMap.{HashMap}
use gluon_actor.Proto.{
  KeyGenerationResponse, UpdateKeyGenerationResult, TaskExecutionRequest,
  TaskExecutionInitialPinnerData,
}
use gluon_actor.Common.TaskInfo
use gluon_actor.Common.TaskInfo.{TaskInfo}
use gluon_actor.Delegator.ExecutorInfo.{ExecutorInfo, InitialPinnerInfo, from_executor}

pub data StoreItemState : Type 0 where
  init invited_candidates ra_begun ra_completed sent_to_executor : StoreItemState
  received_execution_result sent_to_initial_pinner received_all_pinner_response : StoreItemState

pub record DelegatorKeyGenStoreItem : Type 0 where
  pub task_info : TaskInfo
  pub state : StoreItemState
  pub nonce : Bytes
  pub executor : Option ExecutorInfo
  pub initial_pinners : List InitialPinnerInfo
  pub p1_public_key : Bytes
  pub p2_public_key : Option Bytes
  pub multi_sig_account : Option Bytes
  pub initial_pinner_responses : HashMap (Option String)
  pub candidate_executors : List ExecutorInfo
  pub candidate_initial_pinners : List InitialPinnerInfo

abbrev Item : Type 0
Item = DelegatorKeyGenStoreItem

-- `TaskCandidates::ready`
unfoldable pub candidates_ready : DelegatorKeyGenStoreItem → Bool
candidates_ready item =
    not (is_empty item.candidate_executors)
    && leb ((item.task_info.exec_info.n + 1) % 256)
        (length item.candidate_executors + length item.candidate_initial_pinners)

unfoldable pub insert_executor : ExecutorInfo → DelegatorKeyGenStoreItem → DelegatorKeyGenStoreItem
insert_executor e item = record item { candidate_executors = item.candidate_executors ++ (e ∷ []) }

unfoldable pub insert_initial_pinner :
    InitialPinnerInfo → DelegatorKeyGenStoreItem → DelegatorKeyGenStoreItem
insert_initial_pinner p item = record item {
  candidate_initial_pinners = item.candidate_initial_pinners ++ (p ∷ []);
}

abbrev of_popped_executor : Item → Option (ExecutorInfo × List ExecutorInfo) → Result Item
of_popped_executor item none = err Error.candidates_empty
of_popped_executor item (some (e, rest)) =
    ok (record item { executor = some e; candidate_executors = rest })

unfoldable pub select_executor : DelegatorKeyGenStoreItem → Result DelegatorKeyGenStoreItem
select_executor item = of_popped_executor item (pop_last item.candidate_executors)

-- The condition of the `while` loop.
unfoldable pub wants_pinner : DelegatorKeyGenStoreItem → Bool
wants_pinner item =
    ltb (length item.initial_pinners) item.task_info.exec_info.n
    || (not (is_empty item.candidate_initial_pinners) && not (is_empty item.candidate_executors))

abbrev push_popped_executor : Item → Option (ExecutorInfo × List ExecutorInfo) → Item
push_popped_executor item none = item
push_popped_executor item (some (e, rest)) = record item {
  initial_pinners = item.initial_pinners ++ (from_executor e ∷ []);
  candidate_executors = rest;
}

abbrev push_popped_pinner : Item → Option (InitialPinnerInfo × List InitialPinnerInfo) → Item
push_popped_pinner item none = push_popped_executor item (pop_last item.candidate_executors)
push_popped_pinner item (some (p, rest)) = record item {
  initial_pinners = item.initial_pinners ++ (p ∷ []);
  candidate_initial_pinners = rest;
}

-- The body of the `while` loop.
unfoldable pub take_pinner : DelegatorKeyGenStoreItem → DelegatorKeyGenStoreItem
take_pinner item = push_popped_pinner item (pop_last item.candidate_initial_pinners)

unfoldable pub select_loop : ℕ → DelegatorKeyGenStoreItem → Result DelegatorKeyGenStoreItem
select_loop zero item = err Error.diverges
select_loop (suc fuel) item =
    let rest = select_loop fuel (take_pinner item) in if wants_pinner item then rest else ok item

-- One round for each candidate, and one to leave the loop.
unfoldable pub select_initial_pinners : DelegatorKeyGenStoreItem → Result DelegatorKeyGenStoreItem
select_initial_pinners item =
    select_loop (suc (length item.candidate_initial_pinners + length item.candidate_executors)) item

-- `TaskCandidates::elect`
unfoldable pub elect : DelegatorKeyGenStoreItem → Result DelegatorKeyGenStoreItem
elect item = do item' ← select_executor item; select_initial_pinners item'

-- `ExecutorRequestConstructor::ready`
unfoldable pub request_ready : DelegatorKeyGenStoreItem → Bool
request_ready item = elim item.executor [
  | none ↦ false
  | some _ ↦ length item.initial_pinners == item.task_info.exec_info.n
]

abbrev pub pinner_data : InitialPinnerInfo → TaskExecutionInitialPinnerData
pinner_data pinner = record { peer_id = pinner.peer_id; rsa_pub_key = pinner.rsa_pub_key }

unfoldable pub generate : DelegatorKeyGenStoreItem → TaskExecutionRequest
generate item = record {
  task_id = item.task_info.task_id;
  initial_pinners = map pinner_data item.initial_pinners;
  minimum_recovery_number = item.task_info.exec_info.k;
  key_type = item.task_info.exec_info.task_type;
  p1_public_key = item.p1_public_key;
}

unfoldable pub all_answered : HashMap (Option String) → Bool
all_answered [] = true
all_answered ((_, none) ∷ m) = false
all_answered ((_, some _) ∷ m) = all_answered m

unfoldable pub is_all_initial_pinners_ready : DelegatorKeyGenStoreItem → Bool
unfolding all_answered
is_all_initial_pinners_ready item = all_answered item.initial_pinner_responses

-- `.filter(|(_, v)| v.is_some()).map(|item| item.1.unwrap())`
unfoldable pub answers : HashMap (Option String) → List String
answers [] = []
answers ((_, none) ∷ m) = answers m
answers ((_, some v) ∷ m) = v ∷ answers m

-- `TryFrom<KeyGenerationResponse>`, over `base64::encode`.
unfoldable pub of_response :
    (Bytes → String) → KeyGenerationResponse → Result DelegatorKeyGenStoreItem
of_response encode value = do
  task_info ← TaskInfo.of_key_generation_response encode value
  ok (record {
    task_info = task_info;
    state = init;
    nonce = [];
    executor = none;
    initial_pinners = [];
    p1_public_key = value.p1_public_key;
    p2_public_key = none;
    multi_sig_account = none;
    initial_pinner_responses = [];
    candidate_executors = [];
    candidate_initial_pinners = [];
  })

-- `TryInto<UpdateKeyGenerationResult>`, over `base64::decode`.
unfoldable pub to_result :
    (String → Result Bytes) → DelegatorKeyGenStoreItem → Result UpdateKeyGenerationResult
unfolding answers
to_result decode item = do
  task_id ← decode item.task_info.task_id
  multi_sig_account ← ok_or item.multi_sig_account Error.account_empty
  public_key ← ok_or item.p2_public_key Error.public_key_empty
  ok (record {
    task_id = task_id;
    delegator_nonce = item.nonce;
    multi_sig_account = multi_sig_account;
    public_key = public_key;
    deployment_ids = answers item.initial_pinner_responses;
  })
