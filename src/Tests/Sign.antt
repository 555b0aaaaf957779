-- ===== src/Tests/Sign.antt =====
-- The theorems on the slices and pinners of a signing task at a concrete task.
use gluon_actor.Base.{
  ◌≡◌, ◌⊎◌, refl, true, false, String, none, some, List, [], ◌∷◌, ok, err, Error, arith, length,
  str_eq, if◌then◌else◌, suc,
}
use gluon_actor.Base.Bytes.{Bytes}
use gluon_actor.Base.HashMap
use gluon_actor.Proto.{TaskSignGetPinnerKeySliceResponse}
use gluon_actor.Host.{World, Kind, Event}
use gluon_actor.Delegator.Sign.StoreItem as SignItem
use gluon_actor.Delegator.Sign.StoreItem.{
  DelegatorSignStoreItem, KeySliceInfo, has_found_key_slice, insert_key_slice_info, found_slices,
}
use gluon_actor.Delegator.Sign.StoreItem.Laws.{insert_key_slice_info_lem}
use gluon_actor.Delegator.Sign.Store as SignStore
use gluon_actor.Delegator.Sign.Handlers.{process_pinner_key_slice_response}
use gluon_actor.Delegator.Sign.Slices as Slices
use gluon_actor.Delegator.Sign.StoreItem.Stored.{AreSlices}
use gluon_actor.Delegator.Sign.Candidates.{IsOpen, slice_request}
use gluon_actor.Delegator.Sign.Candidates.Order.{passing, with_executor, each_pinner_asked}
use mathlib.Core.List.{Perm}
use gluon_actor.Tests.Memory.{memory, memory-IsLawful, memory-IsReliable, world_with}
use gluon_actor.Tests.Data.{two_of_three, executor_a}

abbrev slice_c : KeySliceInfo
slice_c = record { peer_id = "C"; encrypted_key_slice = 5 ∷ [] }

abbrev signing : DelegatorSignStoreItem
signing = record {
  task_info = two_of_three;
  state = SignItem.StoreItemState.finding_deployments;
  executor = some executor_a;
  multi_sig_account = 6 ∷ [];
  p1_signature = 8 ∷ [];
  transaction_data = 9 ∷ [];
  nonce = 7 ∷ [];
  key_slices = ("c", some slice_c) ∷ ("d", none) ∷ ("e", none) ∷ [];
  deployment_candidates = ("c", []) ∷ ("d", []) ∷ ("e", []) ∷ [];
}

abbrev slice_response : TaskSignGetPinnerKeySliceResponse
slice_response = record { task_id = "AQ=="; encrypted_key_slice = 6 ∷ []; deployment_id = "d" }

abbrev signing_world : World ⦃H = memory⦄
signing_world = world_with Kind.sign_item "delegator_task_sign_store_item_AQ==" signing

signing-Holds : Slices.Holds ⦃H = memory⦄ "AQ==" signing signing_world
unfolding SignStore.get_task_store_item_key HashMap.get
signing-Holds = record { id = refl; found = refl }

new_slice_total_example :
    (w' : World ⦃H = memory⦄) × (slices : List Bytes) × (process_pinner_key_slice_response
        ⦃H = memory⦄ slice_response "D" "reply" signing_world
      ≡ (ok tt, w'))
    × Slices.Holds ⦃H = memory⦄ "AQ=="
        (record (Slices.with_slice slice_response "D" signing) {
          state = SignItem.StoreItemState.sent_to_executor;
        })
        w'
    × AreSlices (Slices.with_slice slice_response "D" signing).key_slices slices
    × (length slices ≡ 2)
    × (w'.trace ≡ (
        Event.close_p2p "D"
        ∷ Event.send_message "A" "AQ=="
            (Slices.slices_message (Slices.with_slice slice_response "D" signing) slices)
        ∷ []))
unfolding HashMap.get
new_slice_total_example =
    Slices.new_slice_total ⦃H = memory⦄ memory-IsLawful slice_response "D" "reply" signing
      executor_a ((5 ∷ []) ∷ []) signing_world memory-IsReliable signing-Holds refl refl (refl, tt)
      (omega arith)

signing-missing : has_found_key_slice signing "d" ≡ false
unfolding has_found_key_slice HashMap.get
signing-missing = refl

insert_key_slice_info_lem_example :
    ((HashMap.get signing.key_slices "d" ≡ none)
      × (insert_key_slice_info "d" slice_c signing ≡ err (Error.deployment_not_exists "d")))
    ⊎ ((item' : DelegatorSignStoreItem) × (insert_key_slice_info "d" slice_c signing ≡ ok item')
        × (item'
            ≡ record signing { key_slices = HashMap.insert "d" (some slice_c) signing.key_slices })
        × (length (found_slices item'.key_slices) ≡ suc (length (found_slices signing.key_slices)))
        × ((j : String)
            → has_found_key_slice item' j
              ≡ (if str_eq "d" j then true else has_found_key_slice signing j)))
insert_key_slice_info_lem_example = insert_key_slice_info_lem "d" slice_c signing signing-missing

-- A signing task that waits for its executor and for both slices.
abbrev seeking : DelegatorSignStoreItem
seeking = record signing {
  executor = none;
  key_slices = ("d", none) ∷ ("e", none) ∷ [];
  deployment_candidates = ("d", "D" ∷ []) ∷ ("e", []) ∷ [];
}

abbrev seeking_world : World ⦃H = memory⦄
seeking_world = world_with Kind.sign_item "delegator_task_sign_store_item_AQ==" seeking

seeking-Holds : Slices.Holds ⦃H = memory⦄ "AQ==" seeking seeking_world
unfolding SignStore.get_task_store_item_key HashMap.get
seeking-Holds = record { id = refl; found = refl }

seeking-IsOpen : IsOpen seeking ("e", "E")
unfolding HashMap.get has_found_key_slice
seeking-IsOpen = record { known = refl; missing = refl }

each_pinner_asked_example :
    (w' : World ⦃H = memory⦄) × (calls : List Event) × (passing ⦃H = memory⦄ "AQ=="
        (("e", "E") ∷ [])
        "A"
        (1 ∷ [])
        (("d", "F") ∷ [])
        seeking_world
      ≡ (ok tt, w'))
    × Slices.Holds ⦃H = memory⦄ "AQ==" (with_executor ⦃H = memory⦄ "AQ==" executor_a seeking) w'
    × (w'.trace ≡ calls)
    × Perm calls (
        slice_request "AQ==" (1 ∷ []) ("e", "E")
        ∷ slice_request "AQ==" (1 ∷ []) ("d", "D")
        ∷ slice_request "AQ==" (1 ∷ []) ("d", "F")
        ∷ [])
unfolding found_slices has_found_key_slice HashMap.get
each_pinner_asked_example =
    each_pinner_asked ⦃H = memory⦄ "AQ==" memory-IsLawful (("e", "E") ∷ []) (("d", "F") ∷ []) "A"
      (1 ∷ []) seeking seeking_world memory-IsReliable seeking-Holds refl (omega arith)
      (seeking-IsOpen, tt) (refl, tt)
