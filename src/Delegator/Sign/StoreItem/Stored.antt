-- ===== src/Delegator/Sign/StoreItem/Stored.antt =====
-- The slices that a signing task holds, for `get_encrypted_key_slices` of delegator/sign/store_item.rs.
use gluon_actor.Base.{suc, ◌≡◌, refl, ap, Option, none, some, List, [], ◌∷◌, length}
use gluon_actor.Base.Bytes.{Bytes}
use gluon_actor.Base.HashMap
use gluon_actor.Delegator.Sign.StoreItem.{
  DelegatorSignStoreItem, KeySliceInfo, found_slices, get_encrypted_key_slices,
}

abbrev Item : Type 0
Item = DelegatorSignStoreItem

-- These are the slices of the entries that have one, each once and in the entries' order.
abbrev pub AreSlices : HashMap.HashMap (Option KeySliceInfo) → List Bytes → Type 0
AreSlices [] [] = Unit
AreSlices ((_, none) ∷ m) slices = AreSlices m slices
AreSlices ((_, some info) ∷ m) (slice ∷ slices) =
    (info.encrypted_key_slice ≡ slice) × AreSlices m slices
AreSlices _ _ = ⊥

pub AreSlices-of :
    (item : Item) (m : HashMap.HashMap (Option KeySliceInfo))
    → AreSlices m (get_encrypted_key_slices (record item { key_slices = m }))
unfolding get_encrypted_key_slices found_slices
AreSlices-of item [] = tt
AreSlices-of item ((_, none) ∷ m) = AreSlices-of item m
AreSlices-of item ((_, some info) ∷ m) = (refl, AreSlices-of item m)

pub AreSlices-length :
    (m : HashMap.HashMap (Option KeySliceInfo)) (slices : List Bytes)
    → AreSlices m slices
    → length (found_slices m) ≡ length slices
unfolding found_slices
AreSlices-length [] [] h = refl
AreSlices-length [] (slice ∷ slices) h = absurd h
AreSlices-length ((_, none) ∷ m) [] h = AreSlices-length m [] h
AreSlices-length ((_, none) ∷ m) (slice ∷ slices) h = AreSlices-length m (slice ∷ slices) h
AreSlices-length ((_, some info) ∷ m) [] h = absurd h
AreSlices-length ((_, some info) ∷ m) (slice ∷ slices) (_, h) = ap suc (AreSlices-length m slices h)
