-- ===== src/Delegator/Sign/Store.antt =====
-- `DelegatorSignStoreItem::get` and `save` of src/delegator/sign/store_item.rs.
use gluon_actor.Base.{String, ◌<>◌, Error}
use gluon_actor.Host.{Host, M, Kind, Expiry, kvp_set, kvp_get_or, binding_name}
use gluon_actor.Delegator.Sign.StoreItem.{DelegatorSignStoreItem}

unfoldable pub get_task_store_item_key : String → String
get_task_store_item_key task_id = "delegator_task_sign_store_item" <> "_" <> task_id

module _ ⦃H : Host⦄ where
  unfoldable pub get : String → M DelegatorSignStoreItem
  get task_id =
      kvp_get_or Kind.sign_item binding_name (get_task_store_item_key task_id)
        (Error.task_not_found task_id)

  unfoldable pub save : DelegatorSignStoreItem → M (Unit {0})
  save item =
      kvp_set Kind.sign_item binding_name (get_task_store_item_key item.task_info.task_id) item
        Expiry.forever
