-- ===== src/Delegator/KeyGen/StoreItem/Fuel.antt =====
-- Why the fuel of `select_initial_pinners` is enough, for the `while` loop of
-- delegator/key_gen/store_item.rs.
use gluon_actor.Delegator.KeyGen.StoreItem.{DelegatorKeyGenStoreItem}

abbrev Item : Type 0
Item = DelegatorKeyGenStoreItem
