-- ===== src/Delegator/Sign/Candidates/Order.antt =====
-- Every pinner of a signing task that passes its attestation is asked for its slice once, whether it
-- passes before the executor does or after; for delegator/sign/observers/client_observer.rs.
use mathlib.Core.List.{Perm, map-append}
use mathlib.Core.List.Perm
use gluon_actor.Base.{
  ◌<◌, ◌≡◌, refl, sym, ◌∙◌, false, String, none, some, List, [], ◌++◌, map, append_assoc, ok,
  length, is_some, All,
}
use gluon_actor.Base.Bytes.{Bytes}
use gluon_actor.Common.Utils.{for_each}
use gluon_actor.Common.Calls.{Sends, for_each-Sends}
use gluon_actor.Host.{Host, World, M, Event, ◌>>◌}
use gluon_actor.Host.Rules.{IsLawful, IsReliable, Ensures, Ensures-bind, Ensures-mono, Ensures-if}
use gluon_actor.Delegator.ExecutorInfo.{ExecutorInfo}
use gluon_actor.Delegator.Sign.StoreItem.{
  has_found_key_slice, found_slices, pop_all_candidates, ready_send_to_executor,
}
use gluon_actor.Delegator.Sign.Store.{get, save}
use gluon_actor.Delegator.Sign.Observers.{ask_candidates, on_executor_ra_success}
use gluon_actor.Delegator.Sign.Slices.{Holds, Ensures-get, Ensures-save}
use gluon_actor.Delegator.Sign.Candidates.{
  Item, Arrival, slice_request, waiting, IsOpen, with_waiting, late_pinner, no_executor, not_ready,
  ask_candidates_lem, late_pinner_lem, Holds-kv, Holds-named, false_ne_true,
}
use gluon_actor.Delegator.Sign.Candidates.Early.{early_pinners_lem}

module _ ⦃H : Host⦄ (task_id : String) where
  -- The task with its executor, when nobody waits any more.
  abbrev pub with_executor : ExecutorInfo → Item → Item
  with_executor e item = record item { executor = some e; deployment_candidates = [] }

  -- The two kinds of arrivals, with the executor between the pinners that come before and after it.
  abbrev pub passing : List Arrival → String → Bytes → List Arrival → M (Unit {0})
  passing early peer_id key late = do
    for_each (late_pinner task_id) early
    on_executor_ra_success task_id peer_id key
    for_each (late_pinner task_id) late

  -- The calls that were made, for the pinners that come early and those that come late.
  record Asks (key : Bytes) (asked : List Arrival) (w w' : World) : Type 0 where
    calls : List Event
    made : w'.trace ≡ w.trace ++ calls
    each : Perm calls (map (slice_request task_id key) asked)

  module _ (L : IsLawful) where
    -- The executor comes: all who wait are asked.
    executor_lem :
        (peer_id : String) (key : Bytes) (item : Item) (w : World)
        → Holds task_id item w
        → item.executor ≡ none
        → length (found_slices item.key_slices) < item.task_info.exec_info.k
        → Ensures (on_executor_ra_success task_id peer_id key) w (λ _ w'.
          Holds task_id (with_executor (record { peer_id = peer_id; rsa_pub_key = key }) item) w'
          × (w'.trace
              ≡ w.trace ++ map (slice_request task_id key) (waiting item.deployment_candidates)))
    unfolding on_executor_ra_success pop_all_candidates
    executor_lem peer_id key item w held none_yet few =
        let e : ExecutorInfo = record { peer_id = peer_id; rsa_pub_key = key } in
        let item' = with_executor e item in
        Ensures-bind (get task_id) _ w _ (
          Ensures-get task_id item w _ held (
            Ensures-if (is_some item.executor) _ _ w _
              (λ bad. absurd (false_ne_true (sym (no_executor item none_yet) ∙ bad)))
              λ _. Ensures-bind (save item') _ w _ (
                Ensures-save L item' w _ λ kv' saved.
                  Ensures-if (ready_send_to_executor item') _ _ _ _
                    (λ bad. absurd (false_ne_true (sym (not_ready item' few) ∙ bad)))
                    (λ _.
                      Ensures-mono (ask_candidates task_id item' item.deployment_candidates) _ _ _
                        (λ _ u s. (
                          Holds-kv task_id item' (record w { kv = kv' }) u s.same
                              (Holds-named task_id item' (record w { kv = kv' }) held.id saved),
                          s.made,
                        ))
                        (ask_candidates_lem task_id item.deployment_candidates item' e _ refl)))))

    late_pinners_lem :
        (late : List Arrival) (item : Item) (e : ExecutorInfo) (w : World)
        → Holds task_id item w
        → item.executor ≡ some e
        → All (λ (a : Arrival). has_found_key_slice item a.0 ≡ false) late
        → Ensures
            (for_each (late_pinner task_id) late)
            w
            (λ _ w'. Sends (map (slice_request task_id e.rsa_pub_key) late) w w')
    late_pinners_lem late item e w held chosen missing =
        for_each-Sends (late_pinner task_id) (slice_request task_id e.rsa_pub_key)
          (λ (a : Arrival). has_found_key_slice item a.0 ≡ false) w.kv
          (λ a v q same.
            late_pinner_lem task_id a item e v (Holds-kv task_id item w v same held) chosen q)
          late w missing refl

    passing_lem :
        (early late : List Arrival) (peer_id : String) (key : Bytes) (item : Item) (w : World)
        → Holds task_id item w
        → item.executor ≡ none
        → length (found_slices item.key_slices) < item.task_info.exec_info.k
        → All (IsOpen item) early
        → All (λ (a : Arrival). has_found_key_slice item a.0 ≡ false) late
        → Ensures (passing early peer_id key late) w (λ _ w'.
          Holds task_id (with_executor (record { peer_id = peer_id; rsa_pub_key = key }) item) w'
          × Asks key ((early ++ waiting item.deployment_candidates) ++ late) w w')
    unfolding has_found_key_slice
    passing_lem early late peer_id key item w held none_yet few open_ missing =
        let e : ExecutorInfo = record { peer_id = peer_id; rsa_pub_key = key } in
        let request : Arrival → Event = slice_request task_id key in
        Ensures-bind (for_each (late_pinner task_id) early) _ w _ (
          Ensures-mono (for_each (late_pinner task_id) early) w _ _
            (λ _ v s. Ensures-bind (on_executor_ra_success task_id peer_id key) _ v _ (
              Ensures-mono (on_executor_ra_success task_id peer_id key) v _ _
                (λ _ u (held', made).
                  Ensures-mono (for_each (late_pinner task_id) late) u _ _
                    (λ _ w' t. (
                      Holds-kv task_id (with_executor e item) u w' t.same held',
                      record {
                        calls = map request (waiting s.candidates) ++ map request late;
                        made =
                            t.made
                            ∙ rw (made, s.silent)
                                (append_assoc w.trace (map request (waiting s.candidates))
                                  (map request late));
                        each =
                            rw (sym (map-append request (waiting s.candidates) late))
                              (Perm.map request (Perm.append_right late s.perm));
                      },
                    ))
                    (late_pinners_lem late (with_executor e item) e u held' refl missing))
                (executor_lem peer_id key (with_waiting item s.candidates) v s.held none_yet few)))
            (early_pinners_lem task_id L early item w held none_yet open_))

    -- If outward calls and writes succeed, for a stored task without executor and with fewer than k slices:
    -- pinners of its deployments whose slices are missing may pass their attestation before the executor
    -- does, or after. All are handled without an error, the executor is stored and nobody waits any more,
    -- and the calls made are, up to their order, one request for a slice, with the executor's key, for
    -- each pinner that came early, that had waited before, or that came late.
    pub each_pinner_asked :
        (early late : List Arrival) (peer_id : String) (key : Bytes) (item : Item) (w : World)
        → IsReliable
        → Holds task_id item w
        → item.executor ≡ none
        → length (found_slices item.key_slices) < item.task_info.exec_info.k
        → All (IsOpen item) early
        → All (λ (a : Arrival). has_found_key_slice item a.0 ≡ false) late
        → (w' : World) × (calls : List Event) × (passing early peer_id key late w ≡ (ok tt, w'))
          × Holds task_id (with_executor (record { peer_id = peer_id; rsa_pub_key = key }) item) w'
          × (w'.trace ≡ w.trace ++ calls)
          × Perm calls (
              map
                (slice_request task_id key)
                ((early ++ waiting item.deployment_candidates) ++ late))
    each_pinner_asked early late peer_id key item w reliable held none_yet few open_ missing =
        let run = passing_lem early late peer_id key item w held none_yet few open_ missing in
        let (_, w', e) = run.returns reliable in
        let (held', asks) = run.at tt w' e in (w', asks.calls, e, held', asks.made, asks.each)
