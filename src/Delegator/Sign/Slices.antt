-- ===== src/Delegator/Sign/Slices.antt =====
-- The collection of key slices and the request to the executor of a signing task, for
-- `process_pinner_key_slice_response` and `try_send_to_executor` of delegator/sign.rs.
use mathlib.Core.Path.{subst}
use gluon_actor.Base.{
  suc, ◌≤◌, ◌≡◌, refl, sym, ap, ◌∙◌, true, false, not, String, none, some, List, [], ◌∷◌, ◌++◌,
  append_assoc, ok, arith, length,
}
use gluon_actor.Base.Bytes.{Bytes}
use gluon_actor.Base.HashMap
use gluon_actor.Proto.{GeneralMsg, TaskSignGetPinnerKeySliceResponse}
use gluon_actor.Host.{Host, World, Event, Kind, lift, perform, binding_name}
use gluon_actor.Host.Rules.{
  IsLawful, IsReliable, Ensures, Ensures-bind, Ensures-lift, Ensures-mono, Ensures-if,
  Ensures-perform, Ensures-kvp_set, Ensures-kvp_get_or,
}
use gluon_actor.Delegator.ExecutorInfo.{ExecutorInfo}
use gluon_actor.Delegator.Sign.StoreItem.{
  DelegatorSignStoreItem, StoreItemState, KeySliceInfo, has_found_key_slice, found_slices,
  insert_key_slice_info, ready_send_to_executor, get_encrypted_key_slices,
}
use gluon_actor.Delegator.Sign.StoreItem.Laws.{found_slices-insert}
use gluon_actor.Delegator.Sign.Store.{get, save, get_task_store_item_key}
use gluon_actor.Delegator.Sign.Handlers.{
  executor_of, try_send_to_executor, process_pinner_key_slice_response,
}
use gluon_actor.Delegator.Sign.StoreItem.Stored.{AreSlices, AreSlices-of, AreSlices-length}

abbrev Item : Type 0
Item = DelegatorSignStoreItem

-- The message with which the slices of a task go to the executor.
abbrev pub slices_message : Item → List Bytes → GeneralMsg
slices_message item slices = GeneralMsg.task_sign_with_key_slices_response (record {
  task_id = item.task_info.task_id;
  adhoc_data = item.transaction_data;
  p1_signature = item.p1_signature;
  key_type = item.task_info.exec_info.task_type;
  encrypted_key_slices = slices;
})

-- The task with the slice of the response.
abbrev pub with_slice : TaskSignGetPinnerKeySliceResponse → String → Item → Item
with_slice res peer_id item = record item {
  key_slices =
      HashMap.insert res.deployment_id
        (some (record { peer_id = peer_id; encrypted_key_slice = res.encrypted_key_slice }))
        item.key_slices;
}

not_found :
    (item : Item) (d : String)
    → HashMap.get item.key_slices d ≡ some none
    → has_found_key_slice item d ≡ false
unfolding has_found_key_slice
not_found item d h = ground arith

inserts :
    (res : TaskSignGetPinnerKeySliceResponse) (peer_id : String) (item : Item)
    → HashMap.get item.key_slices res.deployment_id ≡ some none
    → insert_key_slice_info res.deployment_id
        (record { peer_id = peer_id; encrypted_key_slice = res.encrypted_key_slice })
        item
      ≡ ok (with_slice res peer_id item)
unfolding insert_key_slice_info
inserts res peer_id item h = rw (h, insert_key_slice_info) refl

ready_of_count :
    (item : Item)
    → item.task_info.exec_info.k ≤ length (found_slices item.key_slices)
    → not (ready_send_to_executor item) ≡ false
unfolding ready_send_to_executor
ready_of_count item h = ground arith

executor_of-some :
    (item : Item) (e : ExecutorInfo) → item.executor ≡ some e → executor_of item ≡ ok e
executor_of-some item e h = ground arith

enough_with_slice :
    (res : TaskSignGetPinnerKeySliceResponse) (peer_id : String) (item : Item)
    → HashMap.get item.key_slices res.deployment_id ≡ some none
    → item.task_info.exec_info.k ≤ suc (length (found_slices item.key_slices))
    → (with_slice res peer_id item).task_info.exec_info.k
      ≤ length (found_slices (with_slice res peer_id item).key_slices)
enough_with_slice res peer_id item missing enough =
    let info : KeySliceInfo = record {
      peer_id = peer_id;
      encrypted_key_slice = res.encrypted_key_slice;
    } in
    let count : length (found_slices (HashMap.insert res.deployment_id (some info) item.key_slices))
        ≡ suc (length (found_slices item.key_slices)) =
      found_slices-insert res.deployment_id info item.key_slices missing in
    omega arith

true_ne_false : false ≡ true → ⊥
true_ne_false e = cc

module _ ⦃H : Host⦄ where
  pub record Holds (task_id : String) (item : Item) (w : World) : Type 0 where
    pub id : item.task_info.task_id ≡ task_id
    pub found :
        H.kvp_get Kind.sign_item binding_name (get_task_store_item_key task_id) w.kv
        ≡ ok (some item)

  pub Ensures-get :
      (task_id : String) (item : Item) (w : World) (Q : Item → World → Type 0)
      → Holds task_id item w
      → Q item w
      → Ensures (get task_id) w Q
  unfolding get
  Ensures-get task_id item w Q h q = Ensures-kvp_get_or Kind.sign_item _ _ item w Q h.found q

  module _ (L : IsLawful) where
    pub Ensures-save :
        (item : Item) (w : World) (Q : Unit {0} → World → Type 0)
        → ((kv' : H.Kv)
            → Holds item.task_info.task_id item (record w { kv = kv' })
            → Q tt (record w { kv = kv' }))
        → Ensures (save item) w Q
    unfolding save
    Ensures-save item w Q h =
        Ensures-kvp_set L Kind.sign_item _ item _ w Q
          (λ kv' found _. h kv' (record { id = refl; found = found }))

    -- The task is stored as sent, and the calls were made.
    abbrev SentWith : String → Item → List Event → World → World → Type 0
    SentWith task_id item calls w w' =
        Holds task_id (record item { state = StoreItemState.sent_to_executor }) w'
        × (w'.trace ≡ w.trace ++ calls)

    pub try_send_to_executor_lem :
        (item : Item) (e : ExecutorInfo) (w : World)
        → item.executor ≡ some e
        → item.task_info.exec_info.k ≤ length (found_slices item.key_slices)
        → Ensures (try_send_to_executor item) w (λ _ w'.
          SentWith item.task_info.task_id item
            (Event.send_message e.peer_id item.task_info.task_id
                (slices_message item (get_encrypted_key_slices item))
              ∷ [])
            w
            w')
    unfolding try_send_to_executor
    try_send_to_executor_lem item e w chosen enough =
        Ensures-if (not (ready_send_to_executor item)) _ _ w _
          (λ bad. absurd (true_ne_false (sym (ready_of_count item enough) ∙ bad)))
          λ _. Ensures-bind (lift (executor_of item)) _ w _ (
            Ensures-lift (executor_of item) e w _ (executor_of-some item e chosen) (
              Ensures-bind _ _ w _
                (Ensures-perform _ w _ λ env'. Ensures-save _ _ _ λ kv' held. (held, refl))))

    sent_after_close :
        (item : Item) (e : ExecutorInfo) (peer_id task_id : String) (w v : World)
        → v.trace ≡ w.trace ++ (Event.close_p2p peer_id ∷ [])
        → item.executor ≡ some e
        → item.task_info.exec_info.k ≤ length (found_slices item.key_slices)
        → item.task_info.task_id ≡ task_id
        → Ensures (try_send_to_executor item) v (λ _ w'.
          SentWith task_id item
            (Event.close_p2p peer_id
              ∷ Event.send_message e.peer_id task_id
                  (slices_message item (get_encrypted_key_slices item))
              ∷ [])
            w
            w')
    sent_after_close item e peer_id task_id w v closed chosen enough same =
        let call =
          Event.send_message e.peer_id item.task_info.task_id
            (slices_message item (get_encrypted_key_slices item)) in
        subst
          (λ (t : String). Ensures (try_send_to_executor item) v (λ _ w'.
            SentWith t item
              (Event.close_p2p peer_id
                ∷ Event.send_message e.peer_id t
                    (slices_message item (get_encrypted_key_slices item))
                ∷ [])
              w w'))
          same
          (Ensures-mono (try_send_to_executor item) v _ _
            (λ _ w' sent. (
              sent.0,
              sent.1
                  ∙ ap (λ (t : List Event). t ++ (call ∷ [])) closed
                  ∙ append_assoc w.trace (Event.close_p2p peer_id ∷ []) (call ∷ []),
            ))
            (try_send_to_executor_lem item e v chosen enough))

    -- A slice for a deployment of the task, in any state of the task.
    new_slice_lem :
        (res : TaskSignGetPinnerKeySliceResponse) (peer_id reply_to : String) (item : Item)
        (e : ExecutorInfo) (w : World)
        → Holds res.task_id item w
        → HashMap.get item.key_slices res.deployment_id ≡ some none
        → item.executor ≡ some e
        → item.task_info.exec_info.k ≤ suc (length (found_slices item.key_slices))
        → Ensures (process_pinner_key_slice_response res peer_id reply_to) w (λ _ w'.
          SentWith res.task_id
            (with_slice res peer_id item)
            (Event.close_p2p peer_id
              ∷ Event.send_message e.peer_id res.task_id (
                  slices_message
                    (with_slice res peer_id item)
                    (get_encrypted_key_slices (with_slice res peer_id item)))
              ∷ [])
            w
            w')
    unfolding process_pinner_key_slice_response
    new_slice_lem res peer_id reply_to item e w held missing chosen enough =
        let inserted = with_slice res peer_id item in
        Ensures-bind (get res.task_id) _ w _ (
          Ensures-get res.task_id item w _ held (
            Ensures-if (has_found_key_slice item res.deployment_id) _ _ w _
              (λ bad. absurd (true_ne_false (sym (not_found item res.deployment_id missing) ∙ bad)))
              λ _. Ensures-bind (lift (insert_key_slice_info res.deployment_id _ item)) _ w _ (
                Ensures-lift _ inserted w _ (inserts res peer_id item missing) (
                  Ensures-bind (save inserted) _ w _ (
                    Ensures-save inserted w _ λ kv' _.
                      Ensures-bind (perform (Event.close_p2p peer_id)) _ _ _ (
                        Ensures-perform _ _ _ λ env'.
                          sent_after_close inserted e peer_id res.task_id w _ refl chosen
                            (enough_with_slice res peer_id item missing enough) held.id))))))

    -- If outward calls and writes succeed, a slice that arrives for a deployment of the task whose slice is
    -- missing, once the executor is known, and that completes k slices or comes after k, is stored; the
    -- connection to its peer is closed, and all slices, those stored before and the new one, are sent to the
    -- executor, each once, even if they were sent before. Whatever the state of the task was, it becomes
    -- "sent to the executor".
    pub new_slice_total :
        (res : TaskSignGetPinnerKeySliceResponse) (peer_id reply_to : String) (item : Item)
        (e : ExecutorInfo) (before : List Bytes) (w : World)
        → IsReliable
        → Holds res.task_id item w
        → HashMap.get item.key_slices res.deployment_id ≡ some none
        → item.executor ≡ some e
        → AreSlices item.key_slices before
        → item.task_info.exec_info.k ≤ suc (length before)
        → (w' : World) × (slices : List Bytes) × (process_pinner_key_slice_response res peer_id
              reply_to w
            ≡ (ok tt, w'))
          × Holds res.task_id
              (record (with_slice res peer_id item) { state = StoreItemState.sent_to_executor })
              w'
          × AreSlices (with_slice res peer_id item).key_slices slices
          × (length slices ≡ suc (length before))
          × (w'.trace
              ≡ w.trace
                ++ (Event.close_p2p peer_id
                    ∷ Event.send_message e.peer_id res.task_id
                        (slices_message (with_slice res peer_id item) slices)
                    ∷ []))
    new_slice_total res peer_id reply_to item e before w reliable held missing chosen stored_before
          enough =
        let next = with_slice res peer_id item in
        let slices = get_encrypted_key_slices next in
        let these = AreSlices-of next next.key_slices in
        let had = AreSlices-length item.key_slices before stored_before in
        let run = new_slice_lem res peer_id reply_to item e w held missing chosen (omega arith) in
        let (_, w', p) = run.returns reliable in
        let (stored, calls) = run.at tt w' p in
        (
          w',
          slices,
          p,
          stored,
          these,
          sym (AreSlices-length next.key_slices slices these)
              ∙ found_slices-insert res.deployment_id _ item.key_slices missing
              ∙ ap suc had,
          calls,
        )
