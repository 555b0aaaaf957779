-- ===== src/Executor/Store.antt =====
-- `ExecutorStoreItem::contains`, `get` and `save` of src/executor/store_item.rs.
use gluon_actor.Base.{Bool, String, ◌<>◌, Error, is_some}
use gluon_actor.Host.{
  Host, M, Kind, Expiry, pure, kvp_get, kvp_set, kvp_get_or, ◌>>=◌, binding_name,
}
use gluon_actor.Executor.StoreItem.{ExecutorStoreItem}

unfoldable pub get_task_store_item_key : String → String
get_task_store_item_key task_id = "executor_task_store_item" <> "_" <> task_id

module _ ⦃H : Host⦄ where
  unfoldable pub contains_item : String → M Bool
  contains_item task_id = do
    found ← kvp_get Kind.executor_item binding_name (get_task_store_item_key task_id)
    pure (is_some found)

  unfoldable pub get : String → M ExecutorStoreItem
  get task_id =
      kvp_get_or Kind.executor_item binding_name (get_task_store_item_key task_id)
        (Error.task_not_found task_id)

  unfoldable pub save : ExecutorStoreItem → M (Unit {0})
  save item =
      kvp_set Kind.executor_item binding_name (get_task_store_item_key item.task_info.task_id) item
        Expiry.forever
