-- ===== src/Delegator/KeyGen/Execution.antt =====
-- The executor's result of a key generation task, for `process_task_execution_response` of
-- delegator/key_gen.rs.
pub mod Complete
use mathlib.Core.Path.{subst}
use gluon_actor.Base.{
  ◌≡◌, refl, sym, ap, ◌∙◌, String, none, some, List, [], ◌∷◌, ◌++◌, map, append_assoc, append-nil,
  ok,
}
use gluon_actor.Base.HashMap
use gluon_actor.Base.HashMap.{HashMap}
use gluon_actor.Base.Bytes.{Bytes}
use gluon_actor.Base.{Option}
use gluon_actor.Proto.{GeneralMsg, TaskExecutionResponse, TaskResultInitialPinnerData}
use gluon_actor.Host.{Host, World, Event, on_result, perform, ◌>>=◌, ◌>>◌}
use gluon_actor.Host.Rules.{
  IsLawful, IsReliable, Ensures, Ensures-bind, Ensures-pure, Ensures-mono, Ensures-perform,
  Ensures-on_result,
}
use gluon_actor.Delegator.KeyGen.StoreItem.{DelegatorKeyGenStoreItem, StoreItemState}
use gluon_actor.Delegator.KeyGen.Store.{get, save}
use gluon_actor.Delegator.KeyGen.Handlers.{
  delegator_store_item_handler, share_slices, share_slices_to_initial_pinner, on_execution_response,
  process_task_execution_response,
}
use gluon_actor.Delegator.KeyGen.Arrivals.{Holds, Ensures-save}
use gluon_actor.Delegator.KeyGen.Answers.{Item, Holds-named, Holds-kv, get_run}

-- The pinners of the slices have yet to answer.
abbrev pub with_pending :
    List TaskResultInitialPinnerData → HashMap (Option String) → HashMap (Option String)
with_pending [] m = m
with_pending (slice ∷ slices) m = with_pending slices (HashMap.insert slice.peer_id none m)

abbrev pub pending : Item → List TaskResultInitialPinnerData → Item
pending item slices = record item {
  initial_pinner_responses = with_pending slices item.initial_pinner_responses;
}

abbrev pub received_result : TaskExecutionResponse → Item → Item
received_result res item = record item {
  p2_public_key = some res.p2_public_key;
  multi_sig_account = some res.multi_sig_account;
  state = StoreItemState.received_execution_result;
}

-- The item as it is stored once the slices are sent.
abbrev pub executed : TaskExecutionResponse → Item → Item
executed res item = record (pending (received_result res item) res.initial_pinners) {
  state = StoreItemState.sent_to_initial_pinner;
}

abbrev pub slice_call : String → TaskExecutionResponse → TaskResultInitialPinnerData → Event
slice_call task_id res slice = Event.send_message slice.peer_id task_id (
    GeneralMsg.task_pinner_key_slice_request (record {
      task_id = task_id;
      public_key = res.p2_public_key;
      encrypted_key_slice = slice.encrypted_key_slice;
      multi_sig_account = res.multi_sig_account;
    }))

module _ ⦃H : Host⦄ where
  share_slices_lem :
      (res : TaskExecutionResponse) (slices : List TaskResultInitialPinnerData) (item : Item)
      (w : World)
      → Ensures (share_slices res slices item) w (λ shared w'.
        (shared ≡ pending item slices)
        × (w'.kv ≡ w.kv)
        × (w'.trace ≡ w.trace ++ map (slice_call item.task_info.task_id res) slices))
  unfolding share_slices share_slices_to_initial_pinner
  share_slices_lem res [] item w = Ensures-pure item w _ (refl, refl, sym (append-nil w.trace))
  share_slices_lem res (slice ∷ slices) item w = Ensures-bind _ _ w _ (
      Ensures-perform (slice_call item.task_info.task_id res slice) w _ λ env'.
        Ensures-mono _ _ _ _
          (λ shared v (e, same, made). (
            e,
            same,
            made
                ∙ append_assoc w.trace (slice_call item.task_info.task_id res slice ∷ [])
                    (map (slice_call item.task_info.task_id res) slices),
          ))
          (share_slices_lem res slices (pending item (slice ∷ [])) _))

  -- The slices are sent in order, the sender is replied to, and the task is stored with the result.
  abbrev pub Done : TaskExecutionResponse → String → Item → World → World → Type 0
  Done res reply_to item w w' =
      Holds res.task_id (executed res item) w'
      × (w'.trace
          ≡ w.trace
            ++ (map (slice_call res.task_id res) res.initial_pinners
                ++ (Event.response_reply reply_to "received task response" ∷ [])))

  module _ (L : IsLawful) where
    finish_lem :
        (res : TaskExecutionResponse) (reply_to : String) (item : Item) (w v : World)
        → item.task_info.task_id ≡ res.task_id
        → v.trace ≡ w.trace ++ map (slice_call item.task_info.task_id res) res.initial_pinners
        → Ensures
            (save (executed res item)
              >> perform (Event.response_reply reply_to "received task response"))
            v
            (λ _ w'. Done res reply_to item w w')
    finish_lem res reply_to item w v id made = Ensures-bind (save (executed res item)) _ v _ (
        Ensures-save L (executed res item) v _ λ kv' saved. Ensures-perform _ _ _ λ env'. (
          Holds-kv res.task_id reply_to (executed res item) (record v { kv = kv' }) _ refl
              (Holds-named res.task_id reply_to (executed res item) _ id saved),
          rw (made, id)
              (append_assoc w.trace (map (slice_call res.task_id res) res.initial_pinners)
                (Event.response_reply reply_to "received task response" ∷ [])),
        ))

    execution_response_lem :
        (res : TaskExecutionResponse) (peer_id reply_to : String) (item : Item) (w : World)
        → Holds res.task_id item w
        → Ensures
            (process_task_execution_response res peer_id reply_to)
            w
            (λ _ w'. Done res reply_to item w w')
    unfolding process_task_execution_response delegator_store_item_handler on_execution_response
    execution_response_lem res peer_id reply_to item w held =
        Ensures-on_result (get res.task_id) _ _ item w w _
          (get_run res.task_id reply_to item w held)
          (Ensures-bind (save (received_result res item)) _ w _ (
            Ensures-save L (received_result res item) w _ λ kv' saved.
              Ensures-bind (share_slices res res.initial_pinners (received_result res item)) _ _ _ (
                Ensures-mono _ _ _ _
                  (λ shared v (e, same, made).
                    subst
                      (λ (i : Item).
                        Ensures
                          (save (record i { state = StoreItemState.sent_to_initial_pinner })
                            >> perform (Event.response_reply reply_to "received task response"))
                          v (λ _ w'. Done res reply_to item w w'))
                      (sym e) (finish_lem res reply_to item w v held.id made))
                  (share_slices_lem res res.initial_pinners (received_result res item) _))))

    -- If outward calls and writes succeed: the result of a stored task, whichever peer it comes from and
    -- whatever the task's state, is handled without an error. Each slice of it is sent to the peer that it
    -- names, in order, and the sender is replied to; nothing else is called. The task is then stored with the
    -- account and the key of the result, and without an answer of any pinner that the result names.
    pub execution_response_total :
        (res : TaskExecutionResponse) (peer_id reply_to : String) (item : Item) (w : World)
        → IsReliable
        → Holds res.task_id item w
        → (w' : World) × (process_task_execution_response res peer_id reply_to w ≡ (ok tt, w'))
          × Done res reply_to item w w'
    execution_response_total res peer_id reply_to item w reliable held =
        let run = execution_response_lem res peer_id reply_to item w held in
        let (_, w', e) = run.returns reliable in (w', e, run.at tt w' e)
