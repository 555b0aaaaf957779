-- ===== src/Tests/Storage.antt =====
-- The theorems on the store, the roles and the routing at concrete messages.
use gluon_actor.Base.{
  ◌≡◌, ◌↔◌, refl, sym, ◌∙◌, str_eq, eq_iff, true, false, some, String, ◌<>◌, [], ◌∷◌, ok,
}
use mathlib.Core.Option.{some-injective}
use gluon_actor.Base.Text.{split}
use gluon_actor.Base.Text.Laws.{occurs}
use gluon_actor.Base.HashMap
use gluon_actor.Base.Bytes.{as_bytes}
use gluon_actor.Proto.{GeneralMsg, BrokerMessage, KeyGenerationCandidateRequest}
use gluon_actor.Common.TaskInfo.{of_candidate_request}
use gluon_actor.Host.{World, Kind, binding_name, ◌>>=◌}
use gluon_actor.Host.Callbacks.{Role}
use gluon_actor.Executor.StoreItem as ExecutorItem
use gluon_actor.Executor.StoreItem.{ExecutorStoreItem}
use gluon_actor.Executor.Store as ExecutorStore
use gluon_actor.Actor.{dispatch_p2p, on_role}
use gluon_actor.Actor.Messages.{route, p2p_message, handle_message}
use gluon_actor.Actor.Messages.Routes.{route-p2p_iff}
use gluon_actor.Actor.Roles.{HasExecutor, HasPinner, other_role-dropped}
use gluon_actor.Actor.Roles.Overlap.{MakesKeys, both_roles_total}
use gluon_actor.Storage.Keys.{Family, key_of}
use gluon_actor.Storage.Dispatch.{task_of}
use gluon_actor.Storage.Filed.{Filed}
use gluon_actor.Storage.Runs.{Leads, Delivery, deliver, Leads-Filed, deliver-elsewhere}
use gluon_actor.Tests.Memory.{
  memory, memory-IsLawful, memory-IsReliable, memory-IsAtomic, sign_request, world_with,
}
use gluon_actor.Tests.Data.{two_of_three}

abbrev empty_world : World ⦃H = memory⦄
empty_world = record { kv = []; env = tt; trace = [] }

empty-Filed : Filed ⦃H = memory⦄ []
unfolding HashMap.get
empty-Filed id = record { owned = λ f task v found. absurd cc }

abbrev heard : BrokerMessage
heard = record { subject = "ipfs.p2p.listen.A"; reply_to = "reply"; body = [] }

abbrev heard_world : World ⦃H = memory⦄
heard_world = (handle_message ⦃H = memory⦄ heard empty_world).1

Leads-Filed_example : Filed ⦃H = memory⦄ heard_world.kv
Leads-Filed_example =
    Leads-Filed ⦃H = memory⦄ memory-IsLawful memory-IsAtomic {w = empty_world} {w' = heard_world}
      (Leads.handled heard tt Leads.here) empty-Filed

abbrev delivery : String → Delivery
delivery id = record {
  msg = GeneralMsg.sign_candidate_request (record sign_request { task_id = id });
  from_peer_id = "A";
  reply_to = "reply";
}

not_this_task : (id : String) → str_eq id "AQ==" ≡ false → some id ≡ some "AQ==" → ⊥
not_this_task id ne e = no (sym ne ∙ (eq_iff id "AQ==").1 (some-injective _ _ e))
  where
    no : false ≡ true → ⊥
    no h = cc

deliver-elsewhere_example :
    memory.kvp_get Kind.executor_item binding_name
      (key_of Family.executor_task "AQ==")
      (deliver ⦃H = memory⦄ (delivery "Ag==" ∷ delivery "Aw==" ∷ []) heard_world).kv
    ≡ memory.kvp_get Kind.executor_item binding_name
        (key_of Family.executor_task "AQ==")
        heard_world.kv
unfolding task_of
deliver-elsewhere_example =
    deliver-elsewhere ⦃H = memory⦄ memory-IsLawful memory-IsAtomic "AQ=="
      (delivery "Ag==" ∷ delivery "Aw==" ∷ []) heard_world
      (not_this_task "Ag==" refl, (not_this_task "Aw==" refl, tt)) Leads-Filed_example
      Kind.executor_item Family.executor_task tt

route-p2p_iff_example :
    (route false (split b'.' "ipfs.p2p.listen.QmA") ≡ p2p_message "QmA")
    ↔ (("ipfs.p2p.listen.QmA" ≡ "ipfs.p2p.listen." <> "QmA") × (occurs b'.' "QmA" ≡ false))
route-p2p_iff_example = route-p2p_iff false "ipfs.p2p.listen.QmA" "QmA"

abbrev as_pinner : KeyGenerationCandidateRequest
as_pinner = record {
  task_id = "AQ==";
  n = 3;
  k = 2;
  key_type = "bitcoin";
  delegator_ephemeral_id = 1 ∷ [];
  executor = false;
  signature = [];
}

abbrev executing : ExecutorStoreItem
executing = record { task_info = two_of_three; state = ExecutorItem.StoreItemState.requested }

abbrev executing_world : World ⦃H = memory⦄
executing_world = world_with Kind.executor_item "executor_task_store_item_AQ==" executing

executing-HasExecutor : HasExecutor ⦃H = memory⦄ "AQ==" executing_world.kv
unfolding ExecutorStore.get_task_store_item_key HashMap.get
executing-HasExecutor = (executing, refl)

other_role-dropped_example :
    dispatch_p2p ⦃H = memory⦄
      (GeneralMsg.key_generation_candidate_request as_pinner)
      "A"
      "reply"
      executing_world
    ≡ (ok tt, executing_world)
other_role-dropped_example =
    other_role-dropped ⦃H = memory⦄ as_pinner "A" "reply" executing_world executing-HasExecutor

memory-MakesKeys : MakesKeys ⦃H = memory⦄
memory-MakesKeys = record {
  generates = λ env. (record { public_key = "public"; private_key = "private" }, refl);
  reads = λ env keys e. (as_bytes keys.public_key, refl);
}

both_valid : (b : _) → of_candidate_request (record as_pinner { executor = b }) ≡ ok two_of_three
unfolding of_candidate_request
both_valid b = refl

both_roles_total_example :
    (w' : World ⦃H = memory⦄) × (◌>>=◌ ⦃H = memory⦄
        (on_role ⦃H = memory⦄ Role.executor "A" (record as_pinner { executor = true }))
        (λ _. on_role ⦃H = memory⦄ Role.initial_pinner "A" as_pinner)
        empty_world
      ≡ (ok tt, w'))
    × HasExecutor ⦃H = memory⦄ "AQ==" w'.kv
    × HasPinner ⦃H = memory⦄ "AQ==" w'.kv
both_roles_total_example =
    both_roles_total ⦃H = memory⦄ memory-IsLawful memory-MakesKeys "A" "A"
      (record as_pinner { executor = true }) as_pinner two_of_three two_of_three empty_world
      memory-IsReliable (both_valid true) (both_valid false) refl
