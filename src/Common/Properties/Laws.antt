-- ===== src/Common/Properties/Laws.antt =====
-- Properties that were put into a map are found again.
use gluon_actor.Base.{String, ◌≡◌, refl, [], ◌∷◌, arith, eq_iff}
use gluon_actor.Base.HashMap
use gluon_actor.Base.HashMap.{HashMap}
use gluon_actor.Common.Properties.{find_property, from_hash_map}

pub find_property-from_hash_map :
    (key : String) (m : HashMap String) → find_property key (from_hash_map m) ≡ HashMap.get m key
unfolding find_property from_hash_map HashMap.get
find_property-from_hash_map key [] = refl
find_property-from_hash_map key ((j, v) ∷ m) =
    ground (arith, eq_iff key j, eq_iff j key, find_property-from_hash_map key m)
