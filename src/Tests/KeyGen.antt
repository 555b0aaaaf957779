-- ===== src/Tests/KeyGen.antt =====
-- The theorems on key generation at concrete tasks.
use gluon_actor.Base.{
  ◌+◌, map, ◌≡◌, ◌≢◌, inl, refl, true, false, String, none, some, List, [], ◌∷◌, ◌++◌, ok, err,
  Error, arith, length, eq_iff,
}
use gluon_actor.Base.Bytes.{Bytes}
use gluon_actor.Base.Tally.{tally}
use gluon_actor.Delegator.KeyGen.StoreItem.Elect.{choosable}
use gluon_actor.Base.HashMap
use gluon_actor.Common.Utils.{for_each}
use gluon_actor.Host.{World, Kind, Event}
use gluon_actor.Delegator.ExecutorInfo.{ExecutorInfo, from_executor}
use gluon_actor.Delegator.KeyGen.StoreItem as KeyGenItem
use gluon_actor.Delegator.KeyGen.StoreItem.{
  DelegatorKeyGenStoreItem, candidates_ready, elect, request_ready, select_executor, select_loop,
}
use gluon_actor.Delegator.KeyGen.StoreItem.Election.{elect_all, elect_ready, elect_diverges}
use gluon_actor.Delegator.KeyGen.Store as KeyGenStore
use gluon_actor.Delegator.KeyGen.Arrivals.{arrived, Holds, IsWaiting, Outcome, Arrival}
use gluon_actor.Delegator.KeyGen.Arrivals.Order.{arrive, arrive_all_total}
use gluon_actor.Delegator.KeyGen.Answers.{completed}
use gluon_actor.Delegator.KeyGen.Answers.Update.{
  answers_then, update_call, final, answers_then_total,
}
use gluon_actor.Delegator.KeyGen.StoreItem.{all_answered}
use gluon_actor.Executor.StoreItem as ExecutorItem
use gluon_actor.Executor.StoreItem.{ExecutorStoreItem}
use gluon_actor.Executor.KeyGen.{generate_task_execution_response}
use gluon_actor.Executor.KeyGen.Slices.{Accounts, IsAnswer, generate_task_execution_response_total}
use gluon_actor.Proto.{TaskExecutionRequest, TaskExecutionResponse}
use gluon_actor.Tests.Memory.{
  memory-Encrypts, memory-Shares, memory, memory-IsLawful, memory-IsReliable, world_with,
}
use gluon_actor.Tests.Data.{
  two_of_three, executor_a, executor_b, pinner_c, pinner_d, invited, invited_world,
}

abbrev with_four : DelegatorKeyGenStoreItem
with_four = record invited {
  candidate_executors = executor_a ∷ executor_b ∷ [];
  candidate_initial_pinners = pinner_c ∷ pinner_d ∷ [];
}

abbrev full : DelegatorKeyGenStoreItem
full = record invited {
  task_info = record {
    task_id = "AQ==";
    exec_info = record { n = 255; k = 2; task_type = "bitcoin" };
  };
  candidate_executors = executor_a ∷ [];
}

invited-IsWaiting : IsWaiting invited
invited-IsWaiting = record { inviting = refl; none_chosen = refl; too_few = inl refl }

abbrev arrivals : List Arrival
arrivals =
    Arrival.initial_pinner_arrives "C" (3 ∷ [])
    ∷ Arrival.executor_arrives "A" (1 ∷ [])
    ∷ Arrival.executor_arrives "B" (2 ∷ [])
    ∷ Arrival.initial_pinner_arrives "D" (4 ∷ [])
    ∷ []

invited-Holds : Holds ⦃H = memory⦄ "AQ==" invited invited_world
unfolding KeyGenStore.get_task_store_item_key HashMap.get
invited-Holds = record { id = refl; found = refl }

arrive_all_total_example :
    (w' : World ⦃H = memory⦄) × (for_each ⦃H = memory⦄
        (arrive ⦃H = memory⦄ "AQ==")
        arrivals
        invited_world
      ≡ (ok tt, w'))
    × Outcome ⦃H = memory⦄ two_of_three
        (λ f. choosable f invited + tally f (map arrived arrivals))
        invited_world
        w'
arrive_all_total_example =
    arrive_all_total ⦃H = memory⦄ memory-IsLawful arrivals invited invited_world memory-IsReliable
      invited-Holds (omega arith) invited-IsWaiting

with_four-ready : candidates_ready with_four ≡ true
unfolding candidates_ready
with_four-ready = refl

elect_ready_example :
    (item' : DelegatorKeyGenStoreItem) × (e : ExecutorInfo) × (es : List ExecutorInfo) × (elect
        with_four
      ≡ ok item')
    × (with_four.candidate_executors ≡ es ++ (e ∷ []))
    × (item'.executor ≡ some e)
    × (item'.task_info ≡ two_of_three)
    × (length item'.initial_pinners ≡ 3)
    × (request_ready item' ≡ true)
elect_ready_example = elect_ready with_four (omega arith) refl with_four-ready

elect_all_example :
    elect with_four
    ≡ ok (record with_four {
      executor = some executor_b;
      initial_pinners = pinner_d ∷ pinner_c ∷ from_executor executor_a ∷ [];
      candidate_initial_pinners = [];
      candidate_executors = [];
    })
elect_all_example = elect_all with_four (executor_a ∷ []) executor_b refl refl refl

abbrev chosen_four : DelegatorKeyGenStoreItem
chosen_four = record with_four {
  initial_pinners = pinner_d ∷ pinner_c ∷ from_executor executor_b ∷ [];
  candidate_initial_pinners = [];
  candidate_executors = executor_a ∷ [];
}

elect_diverges_example :
    (candidates_ready full ≡ true)
    × ((item' : DelegatorKeyGenStoreItem) × (select_executor full ≡ ok item')
        × (select_loop 1000 item' ≡ err Error.diverges))
    × (elect full ≡ err Error.diverges)
elect_diverges_example = elect_diverges full 1000 refl refl (omega arith) (omega arith)

abbrev swarm : List String
swarm = "A" ∷ "B" ∷ "C" ∷ "D" ∷ "E" ∷ []

-- A key generation task whose slices are shared, and whose pinners C and D have not answered.
abbrev shared : DelegatorKeyGenStoreItem
shared = record invited {
  state = KeyGenItem.StoreItemState.sent_to_initial_pinner;
  p2_public_key = some (4 ∷ []);
  multi_sig_account = some (6 ∷ []);
  initial_pinner_responses = ("C", none) ∷ ("D", none) ∷ [];
}

abbrev shared_world : World ⦃H = memory⦄
shared_world = world_with Kind.key_gen_item "delegator_task_key_gen_store_item_AQ==" shared

shared-Holds : Holds ⦃H = memory⦄ "AQ==" shared shared_world
unfolding KeyGenStore.get_task_store_item_key HashMap.get
shared-Holds = record { id = refl; found = refl }

abbrev peer_c : String
peer_c = "C"

abbrev peer_d : String
peer_d = "D"

false_is_no_true : false ≡ true → ⊥
false_is_no_true h = cc

not_same_peer : peer_d ≢ peer_c
not_same_peer e = false_is_no_true ((eq_iff peer_d peer_c).1 e)

answers_then_total_example :
    (w' : World ⦃H = memory⦄) × (answers_then ⦃H = memory⦄ "AQ==" "reply"
        (("D", "d") ∷ [])
        ("C", "c")
        shared_world
      ≡ (ok tt, w'))
    × Holds ⦃H = memory⦄ "AQ==" (completed (final shared (("D", "d") ∷ []) ("C", "c"))) w'
    × (w'.trace ≡ (
        Event.response_reply "reply" "received initial pinner key slice response"
        ∷ update_call ⦃H = memory⦄ "AQ==" "reply" []
        ∷ []))
unfolding HashMap.get HashMap.insert all_answered
answers_then_total_example =
    answers_then_total ⦃H = memory⦄ "AQ==" "reply" memory-IsLawful (("D", "d") ∷ []) ("C", "c")
      shared ("c" ∷ "d" ∷ []) (3 ∷ []) (6 ∷ []) (4 ∷ []) [] shared_world memory-IsReliable
      shared-Holds refl (refl, tt) (not_same_peer, tt) (refl, (refl, tt)) refl refl refl refl

abbrev executing : ExecutorStoreItem
executing = record { task_info = two_of_three; state = ExecutorItem.StoreItemState.requested }

abbrev execution_request : TaskExecutionRequest
execution_request = record {
  task_id = "AQ==";
  initial_pinners =
      record { peer_id = "C"; rsa_pub_key = 3 ∷ [] }
      ∷ record { peer_id = "D"; rsa_pub_key = 4 ∷ [] }
      ∷ record { peer_id = "A"; rsa_pub_key = 1 ∷ [] }
      ∷ [];
  minimum_recovery_number = 2;
  key_type = "bitcoin";
  p1_public_key = 9 ∷ [];
}

memory-Accounts : Accounts ⦃H = memory⦄ executing execution_request
memory-Accounts p2 = ("account", refl)

generate_task_execution_response_total_example :
    (res : TaskExecutionResponse) × (w' : World ⦃H = memory⦄) × (generate_task_execution_response
        ⦃H = memory⦄ executing execution_request invited_world
      ≡ (ok res, w'))
    × IsAnswer ⦃H = memory⦄ executing execution_request invited_world res
    × (w'.kv ≡ invited_world.kv)
    × (w'.trace ≡ [])
generate_task_execution_response_total_example =
    generate_task_execution_response_total ⦃H = memory⦄ executing execution_request invited_world
      memory-IsReliable memory-Encrypts memory-Shares memory-Accounts (omega arith) (omega arith)
      (omega arith)
