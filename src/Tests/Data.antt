-- ===== src/Tests/Data.antt =====
-- Tasks and candidates that the examples share.
use gluon_actor.Base.{none, [], ◌∷◌}
use gluon_actor.Common.TaskInfo.{TaskInfo}
use gluon_actor.Host.{World, Kind}
use gluon_actor.Delegator.ExecutorInfo.{ExecutorInfo, InitialPinnerInfo}
use gluon_actor.Delegator.KeyGen.StoreItem as KeyGenItem
use gluon_actor.Delegator.KeyGen.StoreItem.{
  DelegatorKeyGenStoreItem, candidates_ready, elect, request_ready,
}
use gluon_actor.Delegator.KeyGen.StoreItem.{all_answered}
use gluon_actor.Tests.Memory.{memory, world_with}

abbrev pub two_of_three : TaskInfo
two_of_three = record {
  task_id = "AQ==";
  exec_info = record { n = 3; k = 2; task_type = "bitcoin" };
}

abbrev pub executor_a : ExecutorInfo
executor_a = record { peer_id = "A"; rsa_pub_key = 1 ∷ [] }

abbrev pub executor_b : ExecutorInfo
executor_b = record { peer_id = "B"; rsa_pub_key = 2 ∷ [] }

abbrev pub pinner_c : InitialPinnerInfo
pinner_c = record { peer_id = "C"; rsa_pub_key = 3 ∷ [] }

abbrev pub pinner_d : InitialPinnerInfo
pinner_d = record { peer_id = "D"; rsa_pub_key = 4 ∷ [] }

abbrev pub invited : DelegatorKeyGenStoreItem
invited = record {
  task_info = two_of_three;
  state = KeyGenItem.StoreItemState.invited_candidates;
  nonce = 7 ∷ [];
  executor = none;
  initial_pinners = [];
  p1_public_key = 9 ∷ [];
  p2_public_key = none;
  multi_sig_account = none;
  initial_pinner_responses = [];
  candidate_executors = [];
  candidate_initial_pinners = [];
}

abbrev pub invited_world : World ⦃H = memory⦄
invited_world = world_with Kind.key_gen_item "delegator_task_key_gen_store_item_AQ==" invited
