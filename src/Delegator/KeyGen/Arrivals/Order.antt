-- ===== src/Delegator/KeyGen/Arrivals/Order.antt =====
-- Arrivals in any order, for `on_executor_ra_success` and `on_initial_pinner_ra_success` of
-- key_gen/observers/client_observer.rs.
use mathlib.Core.Path.{subst}
use gluon_actor.Base.{
  ◌+◌, Bool, map, ◌<◌, ◌≡◌, refl, sym, ◌∙◌, inl, inr, true, false, String, List, [], ◌∷◌, ok, arith,
}
use gluon_actor.Base.Tally.{tally}
use gluon_actor.Delegator.KeyGen.StoreItem.Elect.{choosable}
use gluon_actor.Common.TaskInfo.{TaskInfo}
use gluon_actor.Common.Utils.{for_each}
use gluon_actor.Host.{Host, World, M, ◌>>=◌}
use gluon_actor.Host.Rules.{
  IsLawful, IsReliable, Ensures, Ensures-bind, Ensures-pure, Ensures-mono, Ensures-if,
}
use gluon_actor.Delegator.ExecutorInfo.{ExecutorInfo, InitialPinnerInfo}
use gluon_actor.Delegator.KeyGen.StoreItem.{
  candidates_ready, insert_executor, insert_initial_pinner,
}
use gluon_actor.Delegator.KeyGen.StoreItem.Election.{elected_count}
use gluon_actor.Delegator.KeyGen.Store.{get, save}
use gluon_actor.Delegator.KeyGen.Handlers.{try_send_to_executor}
use gluon_actor.Delegator.KeyGen.Observers.{
  is_inviting, on_executor_ra_success, on_initial_pinner_ra_success,
}
use gluon_actor.Delegator.KeyGen.Arrivals.{
  Item, Pool, IsDrawn, arrived, with_candidate-choosable, IsWaiting, IsSent, Holds, Ensures-save,
  Ensures-get, Outcome, Arrival, executor_arrives, initial_pinner_arrives, with_candidate,
  try_send_to_executor_lem, with_candidate-waits, with_candidate-count, waiting_inviting,
  Outcome-trans, false_ne_true,
}

module _ ⦃H : Host⦄ where
  pub arrive : String → Arrival → M (Unit {0})
  arrive task_id (executor_arrives peer_id key) = on_executor_ra_success task_id peer_id key
  arrive task_id (initial_pinner_arrives peer_id key) =
      on_initial_pinner_ra_success task_id peer_id key

  module _ (L : IsLawful) where
    -- The part that the two kinds of arrival share, from the item that is saved first.
    accept :
        (info : TaskInfo) (item : Item) (w : World)
        → item.task_info ≡ info
        → item.task_info.exec_info.n < 255
        → item.initial_pinners ≡ []
        → (candidates_ready item ≡ false → IsWaiting item)
        → (candidates_ready item ≡ true → elected_count item ≡ item.task_info.exec_info.n)
        → Ensures
            (save item >>= λ _. try_send_to_executor item)
            w
            (λ _ w'. Outcome info (λ f. choosable f item) w w')
    unfolding Outcome
    accept info item w same small fresh waiting count =
        subst
          (λ (t : TaskInfo).
            Ensures (save item >>= λ _. try_send_to_executor item) w
              (λ _ w'. Outcome t (λ f. choosable f item) w w'))
          same
          (Ensures-bind (save item) _ w _ (
            Ensures-save L item w _
              λ kv' held. try_send_to_executor_lem L item _ small fresh waiting count held))

    arrive_waiting :
        (info : TaskInfo) (a : Arrival) (item : Item) (w : World)
        → Holds info.task_id item w
        → item.task_info ≡ info
        → item.task_info.exec_info.n < 255
        → IsWaiting item
        → Ensures
            (arrive info.task_id a)
            w
            (λ _ w'. Outcome info (λ f. choosable f (with_candidate a item)) w w')
    unfolding arrive on_executor_ra_success on_initial_pinner_ra_success with_candidate
        insert_executor insert_initial_pinner
    arrive_waiting info (executor_arrives p k) item w held same small h =
        let a = executor_arrives p k in
        Ensures-bind (get info.task_id) _ w _ (
          Ensures-get info.task_id item w _ held (
            Ensures-if (is_inviting item.state) _ _ w _
              (λ _.
                accept info (with_candidate a item) w same small h.none_chosen
                  (with_candidate-waits a item small h) (with_candidate-count a item small h))
              (λ bad. absurd (waiting_inviting item h bad))))
    arrive_waiting info (initial_pinner_arrives p k) item w held same small h =
        let a = initial_pinner_arrives p k in
        Ensures-bind (get info.task_id) _ w _ (
          Ensures-get info.task_id item w _ held (
            Ensures-if (is_inviting item.state) _ _ w _
              (λ _.
                accept info (with_candidate a item) w same small h.none_chosen
                  (with_candidate-waits a item small h) (with_candidate-count a item small h))
              (λ bad. absurd (waiting_inviting item h bad))))

    -- Once the task is sent, or in any other state, an arrival changes nothing and calls nothing.
    arrive_late :
        (task_id : String) (a : Arrival) (item : Item) (w : World)
        → Holds task_id item w
        → is_inviting item.state ≡ false
        → Ensures (arrive task_id a) w (λ _ w'. w' ≡ w)
    unfolding arrive on_executor_ra_success on_initial_pinner_ra_success
    arrive_late task_id (executor_arrives p k) item w held late = Ensures-bind (get task_id) _ w _ (
        Ensures-get task_id item w _ held (
          Ensures-if (is_inviting item.state) _ _ w _
            (λ bad. absurd (false_ne_true (sym late ∙ bad))) (λ _. Ensures-pure tt w _ refl)))
    arrive_late task_id (initial_pinner_arrives p k) item w held late =
        Ensures-bind (get task_id) _ w _ (
          Ensures-get task_id item w _ held (
            Ensures-if (is_inviting item.state) _ _ w _
              (λ bad. absurd (false_ne_true (sym late ∙ bad))) (λ _. Ensures-pure tt w _ refl)))

    sent_late : (item : Item) (e : ExecutorInfo) → IsSent item e → is_inviting item.state ≡ false
    sent_late item e h = ground (arith, h.sent)

    arrive_all_sent :
        (task_id : String) (arrivals : List Arrival) (item : Item) (e : ExecutorInfo) (w : World)
        → Holds task_id item w
        → IsSent item e
        → Ensures (for_each (arrive task_id) arrivals) w (λ _ w'. w' ≡ w)
    unfolding for_each
    arrive_all_sent task_id [] item e w held h = Ensures-pure tt w _ refl
    arrive_all_sent task_id (a ∷ arrivals) item e w held h = Ensures-bind (arrive task_id a) _ w _ (
        Ensures-mono (arrive task_id a) w _ _
          (λ _ w' same.
            subst (λ (v : World). Ensures (for_each (arrive task_id) arrivals) v (λ _ w''. w'' ≡ w))
              (sym same) (arrive_all_sent task_id arrivals item e w held h))
          (arrive_late task_id a item w held (sent_late item e h)))

    after_first :
        (info : TaskInfo) (arrivals : List Arrival) (pool pool' : Pool) (w w' : World)
        → ((f : InitialPinnerInfo → Bool) → pool f + tally f (map arrived arrivals) ≡ pool' f)
        → Outcome info pool w w'
        → ((item : Item)
            → Holds info.task_id item w'
            → item.task_info ≡ info
            → IsWaiting item
            → ((f : InitialPinnerInfo → Bool)
                → choosable f item + tally f (map arrived arrivals) ≡ pool' f)
            → Ensures
                (for_each (arrive info.task_id) arrivals)
                w'
                (λ _ w''. Outcome info pool' w' w''))
        → Ensures (for_each (arrive info.task_id) arrivals) w' (λ _ w''. Outcome info pool' w w'')
    unfolding Outcome
    after_first info arrivals pool pool' w w' sum (item, held, same_info, inl (waits, all_, same))
          rec =
        Ensures-mono _ w' _ _ (λ _ w''. Outcome-trans info pool' w w' w'' same)
          (rec item held same_info waits (λ f. rw (all_ f) (sum f)))
    after_first info arrivals pool pool' w w' sum
          (item, held, same_info, inr (e, request, sent, asks, from, called)) rec =
        let from' : IsDrawn pool' item e = record {
          drawn = λ f. omega (arith, from.drawn f, sum f);
        } in
        Ensures-mono _ w' _ _
          (λ _ w'' same.
            subst (λ (v : World). Outcome info pool' w v) (sym same)
              (item, held, same_info, inr (e, request, sent, asks, from', called)))
          (arrive_all_sent info.task_id arrivals item e w' held sent)

    arrive_all_lem :
        (info : TaskInfo) (arrivals : List Arrival) (item : Item) (pool : Pool) (w : World)
        → Holds info.task_id item w
        → item.task_info ≡ info
        → info.exec_info.n < 255
        → IsWaiting item
        → ((f : InitialPinnerInfo → Bool)
            → choosable f item + tally f (map arrived arrivals) ≡ pool f)
        → Ensures (for_each (arrive info.task_id) arrivals) w (λ _ w'. Outcome info pool w w')
    unfolding for_each Outcome
    arrive_all_lem info [] item pool w held same small h sum =
        Ensures-pure tt w _ (item, held, same, inl (h, (λ f. omega (arith, sum f)), refl))
    arrive_all_lem info (a ∷ arrivals) item pool w held same small h sum =
        Ensures-bind (arrive info.task_id a) _ w _ (
          Ensures-mono (arrive info.task_id a) w _ _
            (λ _ w' out.
              after_first info arrivals _ pool w w'
                (λ f. omega (arith, sum f, with_candidate-choosable a item f)) out
                (λ item' held' same' h' sum'.
                  arrive_all_lem info arrivals item' pool w' held' same' small h' sum'))
            (arrive_waiting info a item w held same
              (subst (λ (t : TaskInfo). t.exec_info.n < 255) (sym same) small) h))

    -- Whatever candidates arrive, in whatever order, for a stored task with n < 255 that waits, all arrivals
    -- are handled without an error if outward calls and writes succeed. After them the task still waits with
    -- all candidates, the stored and the arrived ones, and nothing was called, or exactly one call was made,
    -- the request to the elected executor, and the task is stored as sent to it, with exactly n initial
    -- pinners. The executor and the pinners are among these candidates, none more often than it stands there.
    -- The request has the task's id, k, type and first public key, and the peer id and RSA key of each of
    -- these pinners, in order.
    pub arrive_all_total :
        (arrivals : List Arrival) (item : Item) (w : World)
        → IsReliable
        → Holds item.task_info.task_id item w
        → item.task_info.exec_info.n < 255
        → IsWaiting item
        → (w' : World) × (for_each (arrive item.task_info.task_id) arrivals w ≡ (ok tt, w'))
          × Outcome item.task_info (λ f. choosable f item + tally f (map arrived arrivals)) w w'
    arrive_all_total arrivals item w reliable held small h =
        let run = arrive_all_lem item.task_info arrivals item _ w held refl small h (λ f. refl) in
        let (_, w', e) = run.returns reliable in (w', e, run.at tt w' e)
