-- ===== src/Tests/Execution.antt =====
-- The theorems on results, invitations, nonces and signatures at concrete tasks.
use gluon_actor.Base.{
  ℕ, ◌≡◌, ◌≢◌, ◌⊎◌, refl, true, false, some, String, List, [], ◌∷◌, map, ok, arith, eq_iff,
}
use gluon_actor.Base.Bytes.{Bytes, as_bytes}
use gluon_actor.Base.HashMap
use gluon_actor.Proto.{Request, GeneralMsg, TaskExecutionResponse, TaskSignWithKeySlicesResponse}
use gluon_actor.Host.{World, Kind, Event, M, perform}
use gluon_actor.Delegator.KeyGen.Store as KeyGenStore
use gluon_actor.Delegator.KeyGen.Handlers.{
  process_task_execution_response, invite_candidate_initial_pinners,
}
use gluon_actor.Delegator.KeyGen.Arrivals.{Holds}
use gluon_actor.Delegator.KeyGen.Answers.{completed}
use gluon_actor.Delegator.KeyGen.Answers.Update.{AreDeployments, result_of, final, update_call}
use gluon_actor.Delegator.KeyGen.Execution.{Done, executed, slice_call, execution_response_total}
use gluon_actor.Delegator.KeyGen.Execution.Complete.{
  execution_then_answers, execution_then_answers_total,
}
use gluon_actor.Delegator.KeyGen.Invitations.{IsInvited, invitation, invitations_total}
use gluon_actor.Common.KeyGeneration.{to_candidate_signature_bytes}
use gluon_actor.Delegator.Verifier.{on_delegator_key}
use gluon_actor.Delegator.Verifier.Nonce.{Opens, on_delegator_key_lem}
use gluon_actor.Executor.StoreItem as ExecutorItem
use gluon_actor.Executor.StoreItem.{ExecutorStoreItem}
use gluon_actor.Executor.Store as ExecutorStore
use gluon_actor.Executor.Sign as ExecutorSign
use gluon_actor.Executor.Sign.Witness.{CanSign, signing_total}
use gluon_actor.Tests.Memory.{memory, memory-IsLawful, memory-IsReliable, value}
use gluon_actor.Tests.Data.{two_of_three, invited, invited_world}

abbrev result : TaskExecutionResponse
result = record {
  task_id = "AQ==";
  initial_pinners =
      record { peer_id = "C"; encrypted_key_slice = 3 ∷ [] }
      ∷ record { peer_id = "D"; encrypted_key_slice = 4 ∷ [] }
      ∷ [];
  p2_public_key = 4 ∷ [];
  multi_sig_account = 6 ∷ [];
}

invited-Holds : Holds ⦃H = memory⦄ "AQ==" invited invited_world
unfolding KeyGenStore.get_task_store_item_key HashMap.get
invited-Holds = record { id = refl; found = refl }

execution_response_total_example :
    (w' : World ⦃H = memory⦄) × (process_task_execution_response ⦃H = memory⦄ result "Z" "reply"
        invited_world
      ≡ (ok tt, w'))
    × Done ⦃H = memory⦄ result "reply" invited invited_world w'
execution_response_total_example =
    execution_response_total ⦃H = memory⦄ memory-IsLawful result "Z" "reply" invited invited_world
      memory-IsReliable invited-Holds

abbrev peer_c : String
peer_c = "C"

abbrev peer_d : String
peer_d = "D"

not_same_peer : peer_d ≢ peer_c
not_same_peer e = no ((eq_iff peer_d peer_c).1 e)
  where
    no : false ≡ true → ⊥
    no h = cc

memory-encodes : (r : Request) → (body : Bytes) × (memory.encode_protobuf r ≡ ok body)
memory-encodes r = ([], refl)

execution_then_answers_total_example :
    (w' : World ⦃H = memory⦄) × (ids : List String) × (body : Bytes) × (execution_then_answers
        ⦃H = memory⦄ "A" "reply" "received" result
        (("D", "d") ∷ [])
        ("C", "c")
        invited_world
      ≡ (ok tt, w'))
    × Holds ⦃H = memory⦄ "AQ=="
        (completed (final (executed result invited) (("D", "d") ∷ []) ("C", "c")))
        w'
    × AreDeployments
        (final (executed result invited) (("D", "d") ∷ []) ("C", "c")).initial_pinner_responses
        ids
    × (memory.encode_protobuf (
          Request.update_key_generation_result (
            result_of
              (3 ∷ [])
              (6 ∷ [])
              (4 ∷ [])
              ids
              (final (executed result invited) (("D", "d") ∷ []) ("C", "c"))))
        ≡ ok body)
    × (w'.trace ≡ (
        slice_call "AQ==" result (record { peer_id = "C"; encrypted_key_slice = 3 ∷ [] })
        ∷ slice_call "AQ==" result (record { peer_id = "D"; encrypted_key_slice = 4 ∷ [] })
        ∷ Event.response_reply "received" "received task response"
        ∷ Event.response_reply "reply" "received initial pinner key slice response"
        ∷ update_call ⦃H = memory⦄ "AQ==" "reply" body
        ∷ []))
execution_then_answers_total_example =
    execution_then_answers_total ⦃H = memory⦄ "A" "reply" "received" memory-IsLawful result
      (("D", "d") ∷ []) ("C", "c") invited (3 ∷ []) invited_world memory-IsReliable memory-encodes
      invited-Holds refl (refl, (refl, tt)) (not_same_peer, tt) (refl, (refl, tt)) refl

cons_ne_nil : (x : ℕ) (xs : Bytes) → (x ∷ xs) ≢ []
cons_ne_nil x xs e = cc

abbrev signature : Bytes
signature = to_candidate_signature_bytes "AQ==" 3 2 "bitcoin" (1 ∷ []) false

invitations_total_example :
    (w' : World ⦃H = memory⦄) × (asked : List String) × (invite_candidate_initial_pinners
        ⦃H = memory⦄ two_of_three
        ("B" ∷ [])
        invited_world
      ≡ (ok tt, w'))
    × IsInvited ("B" ∷ []) ("A" ∷ "B" ∷ "C" ∷ []) 3 asked
    × (w'.kv ≡ invited_world.kv)
    × (w'.trace ≡ map (invitation ⦃H = memory⦄ (1 ∷ []) signature two_of_three) asked)
unfolding as_bytes
invitations_total_example =
    invitations_total ⦃H = memory⦄ (1 ∷ []) signature two_of_three refl refl ("B" ∷ [])
      ("A" ∷ "B" ∷ "C" ∷ []) tt invited_world memory-IsReliable refl (omega arith) (omega arith)
      (cons_ne_nil _ _) (cons_ne_nil _ _, (cons_ne_nil _ _, (cons_ne_nil _ _, tt)))

-- A closure that tells that it ran.
abbrev tells : Bytes → M ⦃H = memory⦄ (Unit {0})
tells nonce = perform ⦃H = memory⦄ (Event.close_p2p "delegator")

on_delegator_key_lem_example :
    ((nonce : Bytes) × Opens ⦃H = memory⦄ (7 ∷ []) (7 ∷ []) (9 ∷ []) nonce
      × (on_delegator_key ⦃H = memory⦄ (7 ∷ []) (7 ∷ []) tells (9 ∷ []) invited_world
          ≡ tells nonce invited_world))
    ⊎ (¬ ((nonce : Bytes) × Opens ⦃H = memory⦄ (7 ∷ []) (7 ∷ []) (9 ∷ []) nonce)
        × ((on_delegator_key ⦃H = memory⦄ (7 ∷ []) (7 ∷ []) tells (9 ∷ []) invited_world).1
            ≡ invited_world))
on_delegator_key_lem_example =
    on_delegator_key_lem ⦃H = memory⦄ (7 ∷ []) (7 ∷ []) tells (9 ∷ []) invited_world

abbrev executing : ExecutorStoreItem
executing = record { task_info = two_of_three; state = ExecutorItem.StoreItemState.requested }

abbrev executing_world : World ⦃H = memory⦄
executing_world = record {
  kv =
      ("executor_task_store_item_AQ==", value Kind.executor_item executing)
      ∷ ("sign_rsa_key_AQ==", value Kind.text "private")
      ∷ [];
  env = tt;
  trace = [];
}

abbrev slices : TaskSignWithKeySlicesResponse
slices = record {
  task_id = "AQ==";
  adhoc_data = 9 ∷ [];
  p1_signature = 8 ∷ [];
  key_type = "bitcoin";
  encrypted_key_slices = (5 ∷ []) ∷ (6 ∷ []) ∷ [];
}

executing-CanSign : CanSign ⦃H = memory⦄ slices executing [] executing_world
unfolding ExecutorStore.get_task_store_item_key ExecutorSign.get_rsa_encrypt_key HashMap.get
executing-CanSign = record {
  id = refl;
  stored = refl;
  rsa = "private";
  rsa_stored = refl;
  key = as_bytes "private";
  key_read = refl;
  slices = (5 ∷ []) ∷ (6 ∷ []) ∷ [];
  opened = (refl, (refl, tt));
  p2_private_key = [];
  recovered = refl;
  p2_signature = 9 ∷ [];
  signed = refl;
  combined = refl;
}

signing_total_example :
    (w' : World ⦃H = memory⦄) × (ExecutorSign.task_sign_with_key_slices_response_handler
        ⦃H = memory⦄ slices "B" "reply" executing_world
      ≡ (ok tt, w'))
    × (memory.kvp_get Kind.executor_item "tea_gluon"
          (ExecutorStore.get_task_store_item_key "AQ==")
          w'.kv
        ≡ ok (some (record executing { state = ExecutorItem.StoreItemState.executed })))
    × (w'.trace ≡ (
        Event.send_message "B" "AQ=="
          (GeneralMsg.task_commit_sign_result_request (record { task_id = "AQ=="; witness = [] }))
        ∷ Event.response_reply "reply" "signed successfully"
        ∷ []))
signing_total_example =
    signing_total ⦃H = memory⦄ memory-IsLawful slices "B" "reply" executing [] executing_world
      memory-IsReliable executing-CanSign
