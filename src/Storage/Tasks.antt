-- ===== src/Storage/Tasks.antt =====
-- What the handlers of one task read and write in the stores of the four components, and rules for it.
use mathlib.Core.Path.{subst}
use gluon_actor.Base.{◌≡◌, sym, List, String, Option, none, some, ok, ok_or, Error}
use gluon_actor.Base.Bytes.{Bytes}
use gluon_actor.InitialPinner.Handlers.{get_temp_data_cid_key, get_temp_deployment_key}
use gluon_actor.Delegator.DumpMethods.{deployment_ids_key}
use gluon_actor.Host.{Host, M, Kind, Stored, Expiry, kvp_set, kvp_get_or, ◌>>=◌, binding_name}
use gluon_actor.Storage.Keys.{Family, key_of}
use gluon_actor.Storage.Keeps.{
  Keeps, Yields, Keeps-kvp_set, Keeps-kvp_get_or, Keeps-on_result_yield, Keeps-bind,
  Keeps-bind_yield, Yields-kvp_get_or, keeps_rules,
}
use gluon_actor.Common.KeyGeneration as KeyGeneration
use gluon_actor.Executor.Sign as ExecutorSign
use gluon_actor.Delegator.KeyGen.StoreItem.{DelegatorKeyGenStoreItem}
use gluon_actor.Delegator.KeyGen.Store as KeyGenStore
use gluon_actor.Delegator.Sign.StoreItem.{DelegatorSignStoreItem}
use gluon_actor.Delegator.Sign.Store as SignStore
use gluon_actor.Executor.StoreItem.{ExecutorStoreItem}
use gluon_actor.Executor.Store as ExecutorStore
use gluon_actor.InitialPinner.StoreItem.{InitialPinnerStoreItem}
use gluon_actor.InitialPinner.Store as InitialPinnerStore

-- The kind of value that a key of the family holds.
abbrev pub kind_of : Family → Kind
kind_of Family.key_gen_task = Kind.key_gen_item
kind_of Family.sign_task = Kind.sign_item
kind_of Family.executor_task = Kind.executor_item
kind_of Family.initial_pinner_task = Kind.initial_pinner_item
kind_of Family.mocked_ids = Kind.deployment_ids
kind_of _ = Kind.text

-- The families whose keys hold a task's id.
abbrev pub IsTaskFamily : Family → Type 0
IsTaskFamily Family.deployment = ⊥
IsTaskFamily Family.data_cid = ⊥
IsTaskFamily Family.mocked_ids = ⊥
IsTaskFamily _ = Unit

-- The value may stand under a key of the task: an item is the task's own.
abbrev pub IsOwnedBy : String → (t : Kind) → Stored t → Type 0
IsOwnedBy task_id Kind.key_gen_item item = item.task_info.task_id ≡ task_id
IsOwnedBy task_id Kind.sign_item item = item.task_info.task_id ≡ task_id
IsOwnedBy task_id Kind.executor_item item = item.task_info.task_id ≡ task_id
IsOwnedBy task_id Kind.initial_pinner_item item = item.task_info.task_id ≡ task_id
IsOwnedBy _ Kind.text _ = Unit
IsOwnedBy _ Kind.deployment_ids _ = Unit

-- The result of a property that is there.
pub ok_or_inv :
    (found : Option String) (e : Error) (x : String) → ok_or found e ≡ ok x → found ≡ some x
ok_or_inv (some z) e x p = cc
ok_or_inv none e x p = cc

module _ ⦃H : Host⦄ where
  -- The predicate of the store lets the task be worked on: what is read under its keys is its own, and
  -- the predicate is kept when what is its own is set under its keys, whether the call succeeds or not.
  pub record AllowsTask (I : H.Kv → Type 0) (task_id : String) : Type 0 where
    pub reads :
        (f : Family)
        → IsTaskFamily f
        → (kv : H.Kv) (v : Stored (kind_of f)) → I kv
        → H.kvp_get (kind_of f) binding_name (key_of f task_id) kv ≡ ok (some v)
        → IsOwnedBy task_id (kind_of f) v
    pub sets :
        (f : Family)
        → IsTaskFamily f
        → (kv : H.Kv) (v : Stored (kind_of f)) (x : Expiry) → IsOwnedBy task_id (kind_of f) v
        → I kv
        → I (H.kvp_set (kind_of f) binding_name (key_of f task_id) v x kv).1

  -- The predicate is kept when a value is set that belongs to no task: of an account, or a developer's.
  pub record AllowsShared (I : H.Kv → Type 0) : Type 0 where
    pub sets :
        (f : Family)
        → ¬ IsTaskFamily f
        → (name : String) (kv : H.Kv) (v : Stored (kind_of f)) (x : Expiry) → I kv
        → I (H.kvp_set (kind_of f) binding_name (key_of f name) v x kv).1

  module _ {I : H.Kv → Type 0} where
    pub Keeps-read_key_gen_item : (id : String) → Keeps I (KeyGenStore.get id)
    unfolding KeyGenStore.get
    Keeps-read_key_gen_item id =
        Keeps-kvp_get_or Kind.key_gen_item binding_name (KeyGenStore.get_task_store_item_key id)
          (Error.task_not_found id)

    pub Keeps-read_sign_item : (id : String) → Keeps I (SignStore.get id)
    unfolding SignStore.get
    Keeps-read_sign_item id =
        Keeps-kvp_get_or Kind.sign_item binding_name (SignStore.get_task_store_item_key id)
          (Error.task_not_found id)

    pub Keeps-read_initial_pinner_item : (id : String) → Keeps I (InitialPinnerStore.get id)
    unfolding InitialPinnerStore.get
    Keeps-read_initial_pinner_item id =
        Keeps-kvp_get_or Kind.initial_pinner_item binding_name
          (InitialPinnerStore.get_task_store_item_key id) (Error.task_not_found id)

  module _ {I : H.Kv → Type 0} {task_id : String} (A : AllowsTask I task_id) where
    Yields-stored :
        (f : Family)
        → IsTaskFamily f
        → (id : String) → id ≡ task_id
        → (x : Error)
        → Yields I
            (IsOwnedBy task_id (kind_of f))
            (kvp_get_or (kind_of f) binding_name (key_of f id) x)
    Yields-stored f h id e x =
        Yields-kvp_get_or (kind_of f) (key_of f id) x (IsOwnedBy task_id (kind_of f))
          λ kv v i found.
            A.reads f h kv v i (
              subst (λ j. H.kvp_get (kind_of f) binding_name (key_of f j) kv ≡ ok (some v)) e found)

    Keeps-set :
        (f : Family)
        → IsTaskFamily f
        → (id : String) → id ≡ task_id
        → (v : Stored (kind_of f)) (x : Expiry) → IsOwnedBy task_id (kind_of f) v
        → Keeps I (kvp_set (kind_of f) binding_name (key_of f id) v x)
    Keeps-set f h id e v x owned = Keeps-kvp_set (kind_of f) (key_of f id) v x λ kv i.
        subst (λ j. I (H.kvp_set (kind_of f) binding_name (key_of f j) v x kv).1) (sym e)
          (A.sets f h kv v x owned i)

    pub Yields-get_key_gen_item :
        (id : String)
        → id ≡ task_id
        → Yields I
            (λ (item : DelegatorKeyGenStoreItem). item.task_info.task_id ≡ task_id)
            (KeyGenStore.get id)
    unfolding KeyGenStore.get key_of
    Yields-get_key_gen_item id e =
        Yields-stored Family.key_gen_task tt id e (Error.task_not_found id)

    pub Keeps-get_key_gen_item :
        {B : Type 0} (id : String) (f : DelegatorKeyGenStoreItem → M B)
        → id ≡ task_id
        → ((item : DelegatorKeyGenStoreItem) → item.task_info.task_id ≡ task_id → Keeps I (f item))
        → Keeps I (KeyGenStore.get id >>= f)
    Keeps-get_key_gen_item id f e h = Keeps-bind_yield _ f _ (Yields-get_key_gen_item id e) h

    pub Keeps-save_key_gen_item :
        (item : DelegatorKeyGenStoreItem)
        → item.task_info.task_id ≡ task_id
        → Keeps I (KeyGenStore.save item)
    unfolding KeyGenStore.save key_of
    Keeps-save_key_gen_item item e = Keeps-set Family.key_gen_task tt _ e item Expiry.forever e

    pub Yields-get_sign_item :
        (id : String)
        → id ≡ task_id
        → Yields I
            (λ (item : DelegatorSignStoreItem). item.task_info.task_id ≡ task_id)
            (SignStore.get id)
    unfolding SignStore.get key_of
    Yields-get_sign_item id e = Yields-stored Family.sign_task tt id e (Error.task_not_found id)

    pub Keeps-get_sign_item :
        {B : Type 0} (id : String) (f : DelegatorSignStoreItem → M B)
        → id ≡ task_id
        → ((item : DelegatorSignStoreItem) → item.task_info.task_id ≡ task_id → Keeps I (f item))
        → Keeps I (SignStore.get id >>= f)
    Keeps-get_sign_item id f e h = Keeps-bind_yield _ f _ (Yields-get_sign_item id e) h

    pub Keeps-save_sign_item :
        (item : DelegatorSignStoreItem)
        → item.task_info.task_id ≡ task_id
        → Keeps I (SignStore.save item)
    unfolding SignStore.save key_of
    Keeps-save_sign_item item e = Keeps-set Family.sign_task tt _ e item Expiry.forever e

    pub Yields-get_executor_item :
        (id : String)
        → id ≡ task_id
        → Yields I
            (λ (item : ExecutorStoreItem). item.task_info.task_id ≡ task_id)
            (ExecutorStore.get id)
    unfolding ExecutorStore.get key_of
    Yields-get_executor_item id e =
        Yields-stored Family.executor_task tt id e (Error.task_not_found id)

    pub Keeps-get_executor_item :
        {B : Type 0} (id : String) (f : ExecutorStoreItem → M B)
        → id ≡ task_id
        → ((item : ExecutorStoreItem) → item.task_info.task_id ≡ task_id → Keeps I (f item))
        → Keeps I (ExecutorStore.get id >>= f)
    Keeps-get_executor_item id f e h = Keeps-bind_yield _ f _ (Yields-get_executor_item id e) h

    pub Keeps-save_executor_item :
        (item : ExecutorStoreItem)
        → item.task_info.task_id ≡ task_id
        → Keeps I (ExecutorStore.save item)
    unfolding ExecutorStore.save key_of
    Keeps-save_executor_item item e = Keeps-set Family.executor_task tt _ e item Expiry.forever e

    pub Yields-get_initial_pinner_item :
        (id : String)
        → id ≡ task_id
        → Yields I
            (λ (item : InitialPinnerStoreItem). item.task_info.task_id ≡ task_id)
            (InitialPinnerStore.get id)
    unfolding InitialPinnerStore.get key_of
    Yields-get_initial_pinner_item id e =
        Yields-stored Family.initial_pinner_task tt id e (Error.task_not_found id)

    pub Keeps-get_initial_pinner_item :
        {B : Type 0} (id : String) (f : InitialPinnerStoreItem → M B)
        → id ≡ task_id
        → ((item : InitialPinnerStoreItem) → item.task_info.task_id ≡ task_id → Keeps I (f item))
        → Keeps I (InitialPinnerStore.get id >>= f)
    Keeps-get_initial_pinner_item id f e h =
        Keeps-bind_yield _ f _ (Yields-get_initial_pinner_item id e) h

    pub Keeps-save_initial_pinner_item :
        (item : InitialPinnerStoreItem)
        → item.task_info.task_id ≡ task_id
        → Keeps I (InitialPinnerStore.save item)
    unfolding InitialPinnerStore.save key_of
    Keeps-save_initial_pinner_item item e =
        Keeps-set Family.initial_pinner_task tt _ e item Expiry.forever e

    pub Keeps-set_key_gen_rsa_key :
        (id : String)
        → id ≡ task_id
        → (v : String) (x : Expiry)
        → Keeps I (kvp_set Kind.text binding_name (KeyGeneration.get_rsa_encrypt_key id) v x)
    unfolding key_of
    Keeps-set_key_gen_rsa_key id e v x = Keeps-set Family.key_gen_rsa tt id e v x tt

    pub Keeps-set_sign_rsa_key :
        (id : String)
        → id ≡ task_id
        → (v : String) (x : Expiry)
        → Keeps I (kvp_set Kind.text binding_name (ExecutorSign.get_rsa_encrypt_key id) v x)
    unfolding key_of
    Keeps-set_sign_rsa_key id e v x = Keeps-set Family.sign_rsa tt id e v x tt

  module _ {I : H.Kv → Type 0} (A : AllowsShared I) where
    pub Keeps-set_data_cid :
        (account : Bytes) (v : String) (x : Expiry)
        → Keeps I (kvp_set Kind.text binding_name (get_temp_data_cid_key account) v x)
    unfolding get_temp_data_cid_key key_of
    Keeps-set_data_cid account v x =
        Keeps-kvp_set _ _ v x
          λ kv i. A.sets Family.data_cid (λ n. n) (H.base64_encode account) kv v x i

    pub Keeps-set_deployment :
        (account : Bytes) (v : String) (x : Expiry)
        → Keeps I (kvp_set Kind.text binding_name (get_temp_deployment_key account) v x)
    unfolding get_temp_deployment_key key_of
    Keeps-set_deployment account v x =
        Keeps-kvp_set _ _ v x
          λ kv i. A.sets Family.deployment (λ n. n) (H.base64_encode account) kv v x i

    pub Keeps-set_mocked_ids :
        (v : List String) (x : Expiry)
        → Keeps I (kvp_set Kind.deployment_ids binding_name deployment_ids_key v x)
    unfolding key_of
    Keeps-set_mocked_ids v x =
        Keeps-kvp_set _ _ v x λ kv i. A.sets Family.mocked_ids (λ n. n) "" kv v x i

pub ruleset shared_rules =
    (Keeps-set_data_cid, Keeps-set_deployment, Keeps-set_mocked_ids, keeps_rules)

pub ruleset task_rules = (
  Keeps-get_key_gen_item, Keeps-get_sign_item, Keeps-get_executor_item,
  Keeps-get_initial_pinner_item, Keeps-save_key_gen_item, Keeps-save_sign_item,
  Keeps-save_executor_item, Keeps-save_initial_pinner_item, Keeps-set_key_gen_rsa_key,
  Keeps-set_sign_rsa_key, keeps_rules,
)
