-- ===== src/Actor/Roles/Overlap.antt =====
-- Requests for both roles of a task that overlap, for `on_delegator_verified` of executor/key_gen.rs and
-- initial_pinner/handler.rs: the check of the other role is made before the delegator's profile is asked
-- for, and the record is stored after it has arrived.
use mathlib.Core.Path.{subst}
use gluon_actor.Base.{◌≡◌, ◌≢◌, refl, ap, ◌∙◌, String, Bool, true, false, some, ok, Result}
use gluon_actor.Base.Bytes.{Bytes}
use gluon_actor.Proto.{KeyGenerationCandidateRequest}
use gluon_actor.Common.TaskInfo
use gluon_actor.Common.TaskInfo.{TaskInfo}
use gluon_actor.Common.KeyGeneration.{send_key_generation_request, get_rsa_encrypt_key}
use gluon_actor.Host.{Host, World, Kind, Expiry, lift, ◌>>=◌, binding_name}
use gluon_actor.Host.Rules.{
  IsLawful, IsReliable, Ensures, Ensures-bind, Ensures-lift, Ensures-ask, Ensures-kvp_set,
  Ensures-perform, Ensures-mono,
}
use gluon_actor.Executor.StoreItem as ExecutorItem
use gluon_actor.Executor.StoreItem.{ExecutorStoreItem}
use gluon_actor.Executor.Store as ExecutorStore
use gluon_actor.Executor.KeyGen
use gluon_actor.InitialPinner.StoreItem as PinnerItem
use gluon_actor.InitialPinner.StoreItem.{InitialPinnerStoreItem}
use gluon_actor.InitialPinner.Store as PinnerStore
use gluon_actor.InitialPinner.Handlers
use gluon_actor.Actor.{on_role}
use gluon_actor.Host.Callbacks.{Role}
use gluon_actor.Actor.Roles.{HasExecutor, HasPinner}
use gluon_actor.Storage.Keys.{Family, key_of, key_of-apart}

executor_made :
    (req : KeyGenerationCandidateRequest) (info : TaskInfo)
    → TaskInfo.of_candidate_request req ≡ ok info
    → ExecutorItem.of_candidate_request req
      ≡ ok (record { task_info = info; state = ExecutorItem.init })
unfolding ExecutorItem.of_candidate_request
executor_made req info e = rw e refl

pinner_made :
    (req : KeyGenerationCandidateRequest) (info : TaskInfo)
    → TaskInfo.of_candidate_request req ≡ ok info
    → PinnerItem.of_candidate_request req
      ≡ ok (record { task_info = info; state = PinnerItem.init })
unfolding PinnerItem.of_candidate_request
pinner_made req info e = rw e refl

module _ ⦃H : Host⦄ where
  -- Key pairs are made, and public keys can be read.
  pub record MakesKeys : Type 0 where
    pub generates :
        (env : H.Env)
        → (keys : record { public_key : String; private_key : String }) × ((H.generate_rsa_keypair
              env).0
            ≡ ok keys)
    pub reads :
        (env : H.Env) (keys : record { public_key : String; private_key : String })
        → (H.generate_rsa_keypair env).0 ≡ ok keys
        → (b : Bytes) × (H.rsa_key_to_bytes keys.public_key ≡ ok b)

  -- No key has changed but these two.
  Spares : String → String → World → World → Type 0
  Spares k k' w w' =
      (u : Kind) (j : String)
      → k ≢ j
      → k' ≢ j
      → H.kvp_get u binding_name j w'.kv ≡ H.kvp_get u binding_name j w.kv

  module _ (L : IsLawful) (K : MakesKeys) where
    send_request_lem :
        (peer_id : String) (info : TaskInfo) (executor : Bool) (w : World)
        → Ensures (send_key_generation_request peer_id info executor) w (λ _ w'.
          (u : Kind) (j : String)
          → get_rsa_encrypt_key info.task_id ≢ j
          → H.kvp_get u binding_name j w'.kv ≡ H.kvp_get u binding_name j w.kv)
    unfolding send_key_generation_request
    send_request_lem peer_id info executor w = Ensures-bind _ _ w _ (
        Ensures-ask H.generate_rsa_keypair w _ (λ _. K.generates w.env)
          λ keys env' made. Ensures-bind _ _ _ _ (
            Ensures-kvp_set L Kind.text _ keys.private_key _ _ _ λ kv' _ others.
              let (b, e) = K.reads w.env keys (ap (λ (p : Result _ × H.Env). p.0) made) in
              Ensures-bind (lift (H.rsa_key_to_bytes keys.public_key)) _ _ _
                (Ensures-lift _ b _ _ e (Ensures-perform _ _ _ λ env''. others))))

    becomes_executor :
        (peer_id : String) (item : ExecutorStoreItem) (w : World)
        → Ensures (KeyGen.after_capabilities peer_id item (ok tt)) w (λ _ w'.
          HasExecutor item.task_info.task_id w'.kv
          × Spares
              (ExecutorStore.get_task_store_item_key item.task_info.task_id)
              (get_rsa_encrypt_key item.task_info.task_id)
              w
              w')
    unfolding ExecutorStore.save Spares
    becomes_executor peer_id item w = Ensures-bind _ _ w _ (
        Ensures-kvp_set L Kind.executor_item _ item Expiry.forever w _ λ kv' _ others.
          Ensures-bind _ _ _ _ (
            Ensures-mono _ _ _ _
              (λ _ v kept.
                Ensures-kvp_set L Kind.executor_item _
                  (record item { state = ExecutorItem.requested }) Expiry.forever v _
                  λ kv'' found others'. (
                    (record item { state = ExecutorItem.requested }, found),
                    λ u j ne ne'. others' u j ne ∙ kept u j ne' ∙ others u j ne,
                  ))
              (send_request_lem peer_id item.task_info true _)))

    becomes_pinner :
        (peer_id : String) (item : InitialPinnerStoreItem) (w : World)
        → Ensures (Handlers.after_capabilities peer_id item (ok tt)) w (λ _ w'.
          HasPinner item.task_info.task_id w'.kv
          × Spares
              (PinnerStore.get_task_store_item_key item.task_info.task_id)
              (get_rsa_encrypt_key item.task_info.task_id)
              w
              w')
    unfolding PinnerStore.save Spares
    becomes_pinner peer_id item w = Ensures-bind _ _ w _ (
        Ensures-kvp_set L Kind.initial_pinner_item _ item Expiry.forever w _ λ kv' _ others.
          Ensures-bind _ _ _ _ (
            Ensures-mono _ _ _ _
              (λ _ v kept.
                Ensures-kvp_set L Kind.initial_pinner_item _
                  (record item { state = PinnerItem.requested }) Expiry.forever v _
                  λ kv'' found others'. (
                    (record item { state = PinnerItem.requested }, found),
                    λ u j ne ne'. others' u j ne ∙ kept u j ne' ∙ others u j ne,
                  ))
              (send_request_lem peer_id item.task_info false _)))

    both_roles_lem :
        (peer_id peer_id' : String) (req req' : KeyGenerationCandidateRequest)
        (info info' : TaskInfo) (w : World)
        → TaskInfo.of_candidate_request req ≡ ok info
        → TaskInfo.of_candidate_request req' ≡ ok info'
        → info.task_id ≡ info'.task_id
        → Ensures
            (on_role Role.executor peer_id req >>= λ _. on_role Role.initial_pinner peer_id' req')
            w
            (λ _ w'. HasExecutor info'.task_id w'.kv × HasPinner info'.task_id w'.kv)
    unfolding KeyGen.on_delegator_verified Handlers.on_delegator_verified Spares key_of
    both_roles_lem peer_id peer_id' req req' info info' w valid valid' same = Ensures-bind _ _ w _ (
        Ensures-bind (lift (ExecutorItem.of_candidate_request req)) _ w _ (
          Ensures-lift _ (record { task_info = info; state = ExecutorItem.init }) w _
            (executor_made req info valid)
            (Ensures-mono _ _ _ _
              (λ _ v ((item, found), _).
                Ensures-bind (lift (PinnerItem.of_candidate_request req')) _ v _ (
                  Ensures-lift _ (record { task_info = info'; state = PinnerItem.init }) v _
                    (pinner_made req' info' valid')
                    (Ensures-mono _ _ _ _
                      (λ _ u (pinner, kept). (
                        (
                          item,
                          kept Kind.executor_item _
                                (key_of-apart Family.initial_pinner_task Family.executor_task
                                  info'.task_id info'.task_id (λ e. cc e))
                                (key_of-apart Family.key_gen_rsa Family.executor_task info'.task_id
                                  info'.task_id (λ e. cc e))
                              ∙ subst
                                  (λ t.
                                    H.kvp_get Kind.executor_item binding_name
                                      (ExecutorStore.get_task_store_item_key t) v.kv
                                    ≡ ok (some item))
                                  same found,
                        ),
                        pinner,
                      ))
                      (becomes_pinner peer_id' _ v))))
              (becomes_executor peer_id _ w))))

    -- If outward calls and writes succeed and key pairs are made: when both requests for roles in a task
    -- passed the check of the other role, and the delegator's profile then arrives for the one and the other,
    -- the node stores the records of both roles, and no error is returned.
    pub both_roles_total :
        (peer_id peer_id' : String) (req req' : KeyGenerationCandidateRequest)
        (info info' : TaskInfo) (w : World)
        → IsReliable
        → TaskInfo.of_candidate_request req ≡ ok info
        → TaskInfo.of_candidate_request req' ≡ ok info'
        → info.task_id ≡ info'.task_id
        → (w' : World) × ((on_role Role.executor peer_id req >>= λ _.
                on_role Role.initial_pinner peer_id' req')
              w
            ≡ (ok tt, w'))
          × HasExecutor info'.task_id w'.kv
          × HasPinner info'.task_id w'.kv
    both_roles_total peer_id peer_id' req req' info info' w reliable valid valid' same =
        let run = both_roles_lem peer_id peer_id' req req' info info' w valid valid' same in
        let (_, w', e) = run.returns reliable in
        let (executor, pinner) = run.at tt w' e in (w', e, executor, pinner)
