-- ===== src/Delegator/Sign/StoreItem/Laws.antt =====
-- The slices that a signing task collects, for delegator/sign/store_item.rs.
use gluon_actor.Base.{
  suc, ◌≡◌, refl, ap, ◌⊎◌, inl, inr, true, false, String, Option, none, some, [], ◌∷◌, ok, err,
  Error, arith, length, str_eq, if◌then◌else◌, Option-cases, Bool-cases,
}
use gluon_actor.Base.HashMap
use gluon_actor.Base.HashMap.{HashMap, get-insert}
use gluon_actor.Delegator.Sign.StoreItem.{
  DelegatorSignStoreItem, KeySliceInfo, has_found_key_slice, insert_key_slice_info, found_slices,
}

-- A slice that fills an empty entry counts once.
pub found_slices-insert :
    (d : String) (info : KeySliceInfo) (m : HashMap (Option KeySliceInfo))
    → HashMap.get m d ≡ some none
    → length (found_slices (HashMap.insert d (some info) m)) ≡ suc (length (found_slices m))
unfolding found_slices HashMap.insert HashMap.get
found_slices-insert d info [] h = cc
found_slices-insert d info ((j, none) ∷ m) h = elim (Bool-cases (str_eq j d)) [
  | inl t ↦ rw t refl
  | inr f ↦ rw f (found_slices-insert d info m (rw f at h))
]
found_slices-insert d info ((j, some x) ∷ m) h = elim (Bool-cases (str_eq j d)) [
  | inl t ↦ cc (t, h)
  | inr f ↦ rw f (ap suc (found_slices-insert d info m (rw f at h)))
]

-- For a deployment of the task whose slice is missing, the insertion succeeds, adds one slice, and
-- marks this deployment, and no other, as found. For an id that is no deployment of the task it fails.
pub insert_key_slice_info_lem :
    (d : String) (info : KeySliceInfo) (item : DelegatorSignStoreItem)
    → has_found_key_slice item d ≡ false
    → ((HashMap.get item.key_slices d ≡ none)
        × (insert_key_slice_info d info item ≡ err (Error.deployment_not_exists d)))
      ⊎ ((item' : DelegatorSignStoreItem) × (insert_key_slice_info d info item ≡ ok item')
          × (item' ≡ record item { key_slices = HashMap.insert d (some info) item.key_slices })
          × (length (found_slices item'.key_slices) ≡ suc (length (found_slices item.key_slices)))
          × ((j : String)
              → has_found_key_slice item' j
                ≡ (if str_eq d j then true else has_found_key_slice item j)))
unfolding insert_key_slice_info has_found_key_slice
insert_key_slice_info_lem d info item missing =
    elim (Option-cases (HashMap.get item.key_slices d)) [
      | inl e ↦ inl (e, rw (e, insert_key_slice_info) refl)
      | inr (none, e) ↦ inr (
        record item { key_slices = HashMap.insert d (some info) item.key_slices },
        rw (e, insert_key_slice_info) refl,
        refl,
        found_slices-insert d info item.key_slices e,
        λ j. rw get-insert (ground arith),
      )
      | inr (some x, e) ↦ absurd (ground arith)
    ]
