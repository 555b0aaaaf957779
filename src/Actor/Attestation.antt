-- ===== src/Actor/Attestation.antt =====
-- The properties that a delegator attaches to a remote attestation request, and what it does when they
-- come back with a success; for the `ra.rs`, `observers.rs` and `client_observer.rs` of delegator/key_gen
-- and delegator/sign, and lib.rs.
use mathlib.Core.Path.{subst}
use gluon_actor.Base.{
  ◌≡◌, refl, sym, ap, Bool, true, false, Bool-cases, inl, inr, String, Option, some, Result, ok,
}
use gluon_actor.Base.Bytes.{Bytes}
use gluon_actor.Base.HashMap
use gluon_actor.Proto.{
  ChallangeStoreItem, TaskKeyGenerationApplyRequst, TaskSignWithKeySlicesRequst,
}
use gluon_actor.Common.Properties.{from_hash_map, has_property}
use gluon_actor.Host.{Host, M, Event, lift, perform, ◌>>=◌, ◌>>◌}
use gluon_actor.Common.Utils.{send_ra_request}
use gluon_actor.Host.Callbacks.{Role}
use gluon_actor.Delegator.KeyGen.Ra
use gluon_actor.Delegator.KeyGen.Observers
use gluon_actor.Delegator.Sign.Ra as SignRa
use gluon_actor.Delegator.Sign.Observers as SignObservers
use gluon_actor.Actor.{operation_after_verify, check_strategy}

module _ ⦃H : Host⦄ (uuid peer_id : String) (ephemeral_id : Bytes) where
  abbrev pub verified : HashMap.HashMap String → Option ChallangeStoreItem
  verified properties = some (record { uuid = uuid; properties = from_hash_map properties })

  -- The role that an application is for.
  abbrev pub applied_role : Bool → Role
  applied_role true = Role.executor
  applied_role false = Role.initial_pinner

  abbrev pub on_success : Role → String → Bytes → M (Unit {0})
  on_success Role.executor task_id key = Observers.on_executor_ra_success task_id peer_id key
  on_success Role.initial_pinner task_id key =
      Observers.on_initial_pinner_ra_success task_id peer_id key

  -- What it means that properties come back as a delegator's own, for a role: the strategy check passes them,
  -- and their success is handled as the success of this peer in this role, for this task and key.
  pub record ComesBack (role : Role) (request : TaskKeyGenerationApplyRequst)
      (properties : HashMap.HashMap String) : Type 0 where
    pub passes : check_strategy (verified properties) ≡ ok true
    pub handled :
        operation_after_verify peer_id ephemeral_id (verified properties)
        ≡ on_success role request.task_id request.rsa_pub_key

  executor_lem :
      (request : TaskKeyGenerationApplyRequst)
      → H.base64_decode (H.base64_encode request.rsa_pub_key) ≡ ok request.rsa_pub_key
      → ComesBack Role.executor request (Ra.executor_properties request)
  unfolding check_strategy operation_after_verify Ra.executor_properties Ra.is_key_gen_tag
      Ra.is_executor_ra_response Ra.is_initial_pinner_ra_response from_hash_map has_property
      Observers.operation_after_verify_handler ◌>>=◌
  executor_lem request h = record {
    passes = refl;
    handled =
        ap
          (λ (r : Result Bytes).
            lift r >>= Observers.on_executor_ra_success request.task_id peer_id)
          h;
  }

  initial_pinner_lem :
      (request : TaskKeyGenerationApplyRequst)
      → H.base64_decode (H.base64_encode request.rsa_pub_key) ≡ ok request.rsa_pub_key
      → ComesBack Role.initial_pinner request (Ra.initial_pinner_properties request)
  unfolding check_strategy operation_after_verify Ra.initial_pinner_properties Ra.is_key_gen_tag
      Ra.is_executor_ra_response Ra.is_initial_pinner_ra_response from_hash_map has_property
      Observers.operation_after_verify_handler ◌>>=◌
  initial_pinner_lem request h = record {
    passes = refl;
    handled =
        ap
          (λ (r : Result Bytes).
            lift r >>= Observers.on_initial_pinner_ra_success request.task_id peer_id)
          h;
  }

  -- When a candidate applies for a role, the delegator replies and requests its attestation with
  -- properties that come back as the delegator's own, for the role that was applied for: the strategy
  -- check passes them, and their success is handled as the success of this peer in that role, for the task
  -- and the RSA key of the application, provided that base64 decodes what it encoded.
  pub key_gen_roundtrip :
      (request : TaskKeyGenerationApplyRequst) (reply_to : String)
      → H.base64_decode (H.base64_encode request.rsa_pub_key) ≡ ok request.rsa_pub_key
      → (notice : String) × (properties : HashMap.HashMap String)
        × (Ra.task_key_generation_apply_request_handler request peer_id reply_to ≡ (
            perform (Event.response_reply reply_to notice) >> send_ra_request peer_id properties))
        × ComesBack (applied_role request.apply_executor) request properties
  unfolding Ra.task_key_generation_apply_request_handler Ra.remote_attestation_executor
      Ra.remote_attestation_initial_pinner
  key_gen_roundtrip request reply_to h = elim (Bool-cases request.apply_executor) [
    | inl t ↦ (
      "key generation to ra executor sent",
      Ra.executor_properties request,
      rw t refl,
      subst (λ (b : Bool). ComesBack (applied_role b) request (Ra.executor_properties request))
          (sym t) (executor_lem request h),
    )
    | inr f ↦ (
      "key generation to ra initial pinner sent",
      Ra.initial_pinner_properties request,
      rw f refl,
      subst
          (λ (b : Bool). ComesBack (applied_role b) request (Ra.initial_pinner_properties request))
          (sym f) (initial_pinner_lem request h),
    )
  ]

  -- The attestation that a signing delegator requests of an executor, and the properties that it hands to
  -- the search for pinners, with the deployment id that the pinner actor adds, are handled alike: each
  -- success reaches the signing handler of its role, never the key generation's.
  pub sign_roundtrip :
      (request : TaskSignWithKeySlicesRequst) (task_id deployment_id : String)
      → H.base64_decode (H.base64_encode request.rsa_pub_key) ≡ ok request.rsa_pub_key
      → let from_pinner =
          HashMap.insert SignObservers.property_key_deployment_id deployment_id
            (SignRa.generate_pinner_ra_properties task_id) in
        (check_strategy (verified (SignRa.executor_ra_properties request)) ≡ ok true)
        × (operation_after_verify peer_id ephemeral_id
              (verified (SignRa.executor_ra_properties request))
            ≡ SignObservers.on_executor_ra_success request.task_id peer_id request.rsa_pub_key)
        × (check_strategy (verified from_pinner) ≡ ok true)
        × (operation_after_verify peer_id ephemeral_id (verified from_pinner)
            ≡ SignObservers.on_pinner_ra_success task_id peer_id deployment_id)
  unfolding check_strategy operation_after_verify SignRa.executor_ra_properties
      SignRa.generate_pinner_ra_properties SignRa.is_sign_tag Ra.is_key_gen_tag HashMap.insert
      SignRa.is_executor_ra_response SignRa.is_pinner_ra_response from_hash_map has_property
      SignObservers.operation_after_verify_handler ◌>>=◌
  sign_roundtrip request task_id deployment_id h = (
    refl,
    ap
        (λ (r : Result Bytes).
          lift r >>= SignObservers.on_executor_ra_success request.task_id peer_id)
        h,
    refl,
    refl,
  )
