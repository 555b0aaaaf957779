-- ===== src/Delegator/KeyGen/Store.antt =====
-- `DelegatorKeyGenStoreItem::get` and `save` of src/delegator/key_gen/store_item.rs. The lock that they
-- hold during one call is not modelled: a get or a set is one step here.
use gluon_actor.Base.{String, ◌<>◌, Error}
use gluon_actor.Host.{Host, M, Kind, Expiry, kvp_set, kvp_get_or, binding_name}
use gluon_actor.Delegator.KeyGen.StoreItem.{DelegatorKeyGenStoreItem}

unfoldable pub get_task_store_item_key : String → String
get_task_store_item_key task_id = "delegator_task_key_gen_store_item" <> "_" <> task_id

module _ ⦃H : Host⦄ where
  unfoldable pub get : String → M DelegatorKeyGenStoreItem
  get task_id =
      kvp_get_or Kind.key_gen_item binding_name (get_task_store_item_key task_id)
        (Error.task_not_found task_id)

  unfoldable pub save : DelegatorKeyGenStoreItem → M (Unit {0})
  save item =
      kvp_set Kind.key_gen_item binding_name (get_task_store_item_key item.task_info.task_id) item
        Expiry.forever
