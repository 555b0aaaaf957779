-- ===== src/Common/Properties.antt =====
-- The lookups of properties by key that the observers and src/delegator/*/ra.rs repeat, and
-- `from_hash_map` of src/common/utils.rs.
pub mod Laws
use gluon_actor.Base.{String, Option, none, some, List, [], ◌∷◌, Bool, str_eq, if◌then◌else◌}
use gluon_actor.Base.HashMap.{HashMap}
use gluon_actor.Proto.{PropertyKeyPair}

-- `properties.iter().find(|v| key.eq(&v.key))`, its value.
unfoldable pub find_property : String → List PropertyKeyPair → Option String
find_property key [] = none
find_property key (v ∷ vs) = if str_eq key v.key then some v.value else find_property key vs

abbrev or_default : Option String → String
or_default none = ""
or_default (some value) = value

-- `.unwrap_or(&PropertyKeyPair::default()).value == value`
unfoldable pub has_property : String → String → List PropertyKeyPair → Bool
unfolding find_property
has_property key value properties = str_eq (or_default (find_property key properties)) value

unfoldable pub from_hash_map : HashMap String → List PropertyKeyPair
from_hash_map [] = []
from_hash_map ((key, value) ∷ items) = record { key = key; value = value } ∷ from_hash_map items
