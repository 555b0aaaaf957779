-- ===== src/Actor/Roles.antt =====
-- The two roles that a node may be asked to take in a key generation task: `executor` and
-- `initial_pinner` of src/executor.rs, src/executor/key_gen.rs, src/initial_pinner.rs and
-- src/initial_pinner/handler.rs.
pub mod Overlap
use mathlib.Core.Path.{subst}
use gluon_actor.Base.{
  ◌≡◌, ◌≢◌, refl, sym, ap, ◌∙◌, Bool, true, false, not, String, some, [], ◌∷◌, ◌++◌, Result, ok,
  is_some, Bool-cases, inl, inr, if◌then◌else◌, Option,
}
use gluon_actor.Base.Errors.{◌>>=◌ as bind_result}
use gluon_actor.Base.Bytes.{Bytes}
use gluon_actor.Proto.{GeneralMsg, KeyGenerationCandidateRequest}
use gluon_actor.Common.TaskInfo
use gluon_actor.Common.TaskInfo.{TaskInfo}
use gluon_actor.Common.KeyGeneration.{send_key_generation_request, get_rsa_encrypt_key}
use gluon_actor.Host.{
  Host, World, M, Event, Kind, Expiry, pure, lift, ask, kvp_get, perform, ◌>>=◌, ◌>>◌, binding_name,
}
use gluon_actor.Host.Rules.{
  IsLawful, IsReliable, Ensures, Ensures-bind, Ensures-lift, Ensures-ask, Ensures-kvp_set,
  Ensures-perform, Ensures-mono, bind-run,
}
use gluon_actor.Executor.StoreItem as ExecutorItem
use gluon_actor.Executor.Store as ExecutorStore
use gluon_actor.Executor.KeyGen
use gluon_actor.InitialPinner.StoreItem as PinnerItem
use gluon_actor.InitialPinner.Store as PinnerStore
use gluon_actor.InitialPinner.Handlers
use gluon_actor.Actor.{dispatch_p2p}

module _ ⦃H : Host⦄ where
  abbrev pub HasExecutor : String → H.Kv → Type 0
  HasExecutor id kv =
      (item : ExecutorItem.ExecutorStoreItem) × (H.kvp_get Kind.executor_item binding_name
          (ExecutorStore.get_task_store_item_key id) kv
        ≡ ok (some item))

  abbrev pub HasPinner : String → H.Kv → Type 0
  HasPinner id kv =
      (item : PinnerItem.InitialPinnerStoreItem) × (H.kvp_get Kind.initial_pinner_item binding_name
          (PinnerStore.get_task_store_item_key id) kv
        ≡ ok (some item))

  kvp_get-run :
      (t : Kind) (k : String) (o : _) (w : World)
      → H.kvp_get t binding_name k w.kv ≡ ok o
      → kvp_get t binding_name k w ≡ (ok o, w)
  unfolding kvp_get
  kvp_get-run t k o w e = λ i. (e i, w)

  executor_contains :
      (id : String) (w : World)
      → HasExecutor id w.kv
      → ExecutorStore.contains_item id w ≡ (ok true, w)
  unfolding ExecutorStore.contains_item
  executor_contains id w (item, e) =
      bind-run _ (λ found. pure (is_some found)) (some item) w w _
        (kvp_get-run Kind.executor_item (ExecutorStore.get_task_store_item_key id) (some item) w e)
        refl

  pinner_contains :
      (id : String) (w : World) → HasPinner id w.kv → PinnerStore.contains_item id w ≡ (ok true, w)
  unfolding PinnerStore.contains_item
  pinner_contains id w (item, e) =
      bind-run _ (λ found. pure (is_some found)) (some item) w w _
        (kvp_get-run Kind.initial_pinner_item (PinnerStore.get_task_store_item_key id) (some item) w
          e)
        refl

  by_role :
      (b : Bool) (m n : M (Unit {0})) (w : World) (x : Result (Unit {0}) × World) (P Q : Type 0)
      → (P → m w ≡ x)
      → (Q → n w ≡ x)
      → (if b then P else Q)
      → (if b then m else n) w ≡ x
  by_role true m n w x P Q f g h = f h
  by_role false m n w x P Q f g h = g h

  -- A request to take a role in a task, at a node that has the record of the other role in that task, is
  -- dropped: nothing is stored, checked or called, and no error is returned.
  pub other_role-dropped :
      (req : KeyGenerationCandidateRequest) (peer_id reply_to : String) (w : World)
      → (if req.executor then HasPinner req.task_id w.kv else HasExecutor req.task_id w.kv)
      → dispatch_p2p (GeneralMsg.key_generation_candidate_request req) peer_id reply_to w
        ≡ (ok tt, w)
  unfolding dispatch_p2p KeyGen.task_key_generation_candidate_request_handler
      Handlers.task_key_generation_candidate_request_handler
  other_role-dropped req peer_id reply_to w taken =
      by_role req.executor _ _ w _ _ _
        (λ pinner.
          bind-run (PinnerStore.contains_item req.task_id) _ true w w _
            (pinner_contains req.task_id w pinner) refl)
        (λ executor.
          bind-run (ExecutorStore.contains_item req.task_id) _ true w w _
            (executor_contains req.task_id w executor) refl)
        taken
