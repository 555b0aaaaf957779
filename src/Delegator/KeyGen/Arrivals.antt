-- ===== src/Delegator/KeyGen/Arrivals.antt =====
-- The arrival of candidates whose remote attestation succeeded, up to the request to the executor; for
-- `on_executor_ra_success` and `on_initial_pinner_ra_success` of key_gen/observers/client_observer.rs
-- and `try_send_to_executor` of key_gen.rs.
pub mod Order
use mathlib.Core.Path.{subst}
use gluon_actor.Base.{
  ℕ, Bool, ◌+◌, ◌≤◌, ◌<◌, ◌≡◌, refl, sym, ap, ◌∙◌, ◌⊎◌, inl, inr, true, false, not, String, some,
  List, [], ◌∷◌, ◌++◌, ok, arith, length, length-append, map,
}
use gluon_actor.Base.Tally.{tally, tally-append, tally-map}
use gluon_actor.Base.Bytes.{Bytes}
use gluon_actor.Proto.{GeneralMsg, TaskExecutionRequest, TaskExecutionInitialPinnerData}
use gluon_actor.Common.TaskInfo.{TaskInfo}
use gluon_actor.Common.Utils.{for_each}
use gluon_actor.Host.{Host, World, M, Event, Kind, lift, ◌>>=◌, binding_name}
use gluon_actor.Host.Rules.{
  IsLawful, IsReliable, Ensures, Ensures-bind, Ensures-lift, Ensures-pure, Ensures-mono, Ensures-if,
  Ensures-perform, Ensures-kvp_set, Ensures-kvp_get_or,
}
use gluon_actor.Delegator.ExecutorInfo.{ExecutorInfo, InitialPinnerInfo, from_executor}
use gluon_actor.Delegator.KeyGen.StoreItem.{
  DelegatorKeyGenStoreItem, StoreItemState, candidates_ready, elect, request_ready, generate,
  insert_executor, insert_initial_pinner, pinner_data,
}
use gluon_actor.Delegator.KeyGen.StoreItem.Election.{
  candidates_ready_iff, elected_count, elect_ready, not_ready, request_ready-some,
}
use gluon_actor.Delegator.KeyGen.StoreItem.Elect.{choosable}
use gluon_actor.Delegator.KeyGen.StoreItem.Origin.{elect_drawn}
use gluon_actor.Delegator.KeyGen.Store.{get, save, get_task_store_item_key}
use gluon_actor.Delegator.KeyGen.Handlers.{executor_peer_id, send_to_elected, try_send_to_executor}
use gluon_actor.Delegator.KeyGen.Observers.{
  is_inviting, on_executor_ra_success, on_initial_pinner_ra_success,
}
use gluon_actor.Delegator.KeyGen.Requests.{IsRequest, generate-IsRequest}

abbrev pub Item : Type 0
Item = DelegatorKeyGenStoreItem

-- How many of some candidates pass a test, an executor standing for the pinner that it would be.
abbrev pub Pool : Type 0
Pool = (InitialPinnerInfo → Bool) → ℕ

-- The executor and the initial pinners are among the candidates, none more often than it stands there.
pub record IsDrawn (pool : Pool) (item : Item) (e : ExecutorInfo) : Type 0 where
  pub drawn :
      (f : InitialPinnerInfo → Bool) → tally f (from_executor e ∷ item.initial_pinners) ≤ pool f

-- A task that waits for candidates: it has no executor candidate, or fewer than n + 1 candidates. No initial
-- pinner is chosen.
pub record IsWaiting (item : Item) : Type 0 where
  pub inviting : item.state ≡ StoreItemState.invited_candidates
  pub none_chosen : item.initial_pinners ≡ []
  pub too_few :
      (length item.candidate_executors ≡ 0)
      ⊎ (length item.candidate_executors + length item.candidate_initial_pinners
          ≤ item.task_info.exec_info.n)

-- A task that was sent to the executor, with exactly n initial pinners.
pub record IsSent (item : Item) (e : ExecutorInfo) : Type 0 where
  pub sent : item.state ≡ StoreItemState.sent_to_executor
  pub executor : item.executor ≡ some e
  pub count : length item.initial_pinners ≡ item.task_info.exec_info.n

pub false_ne_true : false ≡ true → ⊥
false_ne_true e = cc

executor_peer_id-some :
    (item : Item) (e : ExecutorInfo) → item.executor ≡ some e → executor_peer_id item ≡ ok e.peer_id
executor_peer_id-some item e chosen = ground arith

elected_ready :
    (item : Item) (e : ExecutorInfo)
    → item.executor ≡ some e
    → length item.initial_pinners ≡ item.task_info.exec_info.n
    → not (request_ready item) ≡ false
elected_ready item e chosen count = ground (arith, request_ready-some item e chosen)

module _ ⦃H : Host⦄ where
  pub record Holds (task_id : String) (item : Item) (w : World) : Type 0 where
    pub id : item.task_info.task_id ≡ task_id
    pub found :
        H.kvp_get Kind.key_gen_item binding_name (get_task_store_item_key task_id) w.kv
        ≡ ok (some item)

  module _ (L : IsLawful) where
    pub Ensures-save :
        (item : Item) (w : World) (Q : Unit {0} → World → Type 0)
        → ((kv' : H.Kv)
            → Holds item.task_info.task_id item (record w { kv = kv' })
            → Q tt (record w { kv = kv' }))
        → Ensures (save item) w Q
    unfolding save
    Ensures-save item w Q h =
        Ensures-kvp_set L Kind.key_gen_item _ item _ w Q
          (λ kv' found _. h kv' (record { id = refl; found = found }))

  pub Ensures-get :
      (task_id : String) (item : Item) (w : World) (Q : Item → World → Type 0)
      → Holds task_id item w
      → Q item w
      → Ensures (get task_id) w Q
  unfolding get
  Ensures-get task_id item w Q h q = Ensures-kvp_get_or Kind.key_gen_item _ _ item w Q h.found q

  -- What arrivals lead to: the task waits on with all candidates and nothing is called, or it is sent to its
  -- executor, in the one call that is made, with n initial pinners, for whom the executor is asked for
  -- slices.
  unfoldable pub Outcome : TaskInfo → Pool → World → World → Type 0
  Outcome info pool w w' =
      (item : Item) × Holds info.task_id item w'
      × (item.task_info ≡ info)
      × ((IsWaiting item
            × ((f : InitialPinnerInfo → Bool) → choosable f item ≡ pool f)
            × (w'.trace ≡ w.trace))
          ⊎ ((e : ExecutorInfo) × (request : TaskExecutionRequest) × IsSent item e
              × IsRequest item request
              × IsDrawn pool item e
              × (w'.trace
                  ≡ w.trace
                    ++ (Event.send_message e.peer_id info.task_id
                          (GeneralMsg.task_execution_request request)
                        ∷ []))))

  pub Outcome-trans :
      (info : TaskInfo) (pool : Pool) (w w' w'' : World)
      → w'.trace ≡ w.trace
      → Outcome info pool w' w''
      → Outcome info pool w w''
  unfolding Outcome
  Outcome-trans info pool w w' w'' same (item, held, of, inl (waits, all_, t)) =
      (item, held, of, inl (waits, all_, t ∙ same))
  Outcome-trans info pool w w' w'' same (item, held, of, inr (e, request, sent, asks, from, t)) =
      (item, held, of, inr (e, request, sent, asks, from, t ∙ rw same refl))

  module _ (L : IsLawful) where
    send_to_elected_lem :
        (item : Item) (e : ExecutorInfo) (pool : Pool) (w : World)
        → item.executor ≡ some e
        → length item.initial_pinners ≡ item.task_info.exec_info.n
        → IsDrawn pool item e
        → Ensures (send_to_elected item) w (λ _ w'. Outcome item.task_info pool w w')
    unfolding send_to_elected Outcome generate
    send_to_elected_lem item e pool w chosen count from =
        Ensures-if (not (request_ready item)) _ _ w _
          (λ bad. absurd (false_ne_true (sym (elected_ready item e chosen count) ∙ bad)))
          λ _. Ensures-bind (lift (executor_peer_id item)) _ w _ (
            Ensures-lift (executor_peer_id item) e.peer_id w _ (executor_peer_id-some item e chosen)
              (Ensures-bind _ _ w _ (
                Ensures-perform _ w _ λ env'. Ensures-save L _ _ _ λ kv' held. (
                  record item { state = StoreItemState.sent_to_executor },
                  held,
                  refl,
                  inr (
                    e,
                    generate item,
                    record { sent = refl; executor = chosen; count = count },
                    generate-IsRequest (record item { state = StoreItemState.sent_to_executor }),
                    record { drawn = from.drawn },
                    refl,
                  ),
                ))))

    -- An item whose election, once its candidates are ready, chooses n initial pinners.
    pub try_send_to_executor_lem :
        (item : Item) (w : World)
        → item.task_info.exec_info.n < 255
        → item.initial_pinners ≡ []
        → (candidates_ready item ≡ false → IsWaiting item)
        → (candidates_ready item ≡ true → elected_count item ≡ item.task_info.exec_info.n)
        → Holds item.task_info.task_id item w
        → Ensures
            (try_send_to_executor item)
            w
            (λ _ w'. Outcome item.task_info (λ f. choosable f item) w w')
    unfolding try_send_to_executor Outcome
    try_send_to_executor_lem item w small fresh waiting count held =
        Ensures-if (candidates_ready item) _ _ w _
          (λ ready.
            let (item', e, es, run, _, chosen, same, size, _) =
              elect_ready item small fresh ready in
            let n_same : item.task_info.exec_info.n ≡ item'.task_info.exec_info.n =
              ap (λ (t : TaskInfo). t.exec_info.n) (sym same) in
            let from : IsDrawn (λ f. choosable f item) item' e = record {
              drawn = λ f. elect_drawn item item' e f small fresh ready run chosen;
            } in
            Ensures-bind (lift (elect item)) _ w _ (
              Ensures-lift (elect item) item' w _ run (
                subst
                  (λ (t : TaskInfo).
                    Ensures (send_to_elected item') w
                      (λ _ w'. Outcome t (λ f. choosable f item) w w'))
                  same
                  (send_to_elected_lem item' e _ w chosen (size ∙ count ready ∙ n_same) from))))
          (λ not_ready.
            Ensures-pure tt w _ (item, held, refl, inl (waiting not_ready, (λ f. refl), refl)))

-- A candidate of one of the two roles whose attestation succeeded, with its peer id and RSA key.
pub data Arrival : Type 0 where
  executor_arrives : String → Bytes → Arrival
  initial_pinner_arrives : String → Bytes → Arrival

unfoldable pub with_candidate : Arrival → Item → Item
with_candidate (executor_arrives peer_id key) item =
    insert_executor (record { peer_id = peer_id; rsa_pub_key = key }) item
with_candidate (initial_pinner_arrives peer_id key) item =
    insert_initial_pinner (record { peer_id = peer_id; rsa_pub_key = key }) item

-- The candidate, as the initial pinner that it would be.
abbrev pub arrived : Arrival → InitialPinnerInfo
arrived (executor_arrives peer_id key) = record { peer_id = peer_id; rsa_pub_key = key }
arrived (initial_pinner_arrives peer_id key) = record { peer_id = peer_id; rsa_pub_key = key }

pub with_candidate-choosable :
    (a : Arrival) (item : Item) (f : InitialPinnerInfo → Bool)
    → choosable f (with_candidate a item) ≡ choosable f item + tally f (arrived a ∷ [])
unfolding with_candidate insert_executor insert_initial_pinner
with_candidate-choosable (executor_arrives p k) item f = omega (
  arith,
  tally-map f from_executor item.candidate_executors (record { peer_id = p; rsa_pub_key = k } ∷ []),
)
with_candidate-choosable (initial_pinner_arrives p k) item f = omega (
  arith,
  tally-append f item.candidate_initial_pinners (record { peer_id = p; rsa_pub_key = k } ∷ []),
)

pub with_candidate-waits :
    (a : Arrival) (item : Item)
    → item.task_info.exec_info.n < 255
    → IsWaiting item
    → candidates_ready (with_candidate a item) ≡ false
    → IsWaiting (with_candidate a item)
unfolding with_candidate insert_executor insert_initial_pinner
with_candidate-waits (executor_arrives p k) item small h no_more = record {
  inviting = h.inviting;
  none_chosen = h.none_chosen;
  too_few = not_ready (with_candidate (executor_arrives p k) item) small no_more;
}
with_candidate-waits (initial_pinner_arrives p k) item small h no_more = record {
  inviting = h.inviting;
  none_chosen = h.none_chosen;
  too_few = not_ready (with_candidate (initial_pinner_arrives p k) item) small no_more;
}

pub with_candidate-count :
    (a : Arrival) (item : Item)
    → item.task_info.exec_info.n < 255
    → IsWaiting item
    → candidates_ready (with_candidate a item) ≡ true
    → elected_count (with_candidate a item) ≡ item.task_info.exec_info.n
unfolding with_candidate insert_executor insert_initial_pinner
with_candidate-count (executor_arrives p k) item small h ready = ground (
  arith,
  h.too_few,
  length-append item.candidate_executors (record { peer_id = p; rsa_pub_key = k } ∷ []),
)
with_candidate-count (initial_pinner_arrives p k) item small h ready = ground (
  arith,
  h.too_few,
  (candidates_ready_iff (with_candidate (initial_pinner_arrives p k) item)).0 ready,
  length-append item.candidate_initial_pinners (record { peer_id = p; rsa_pub_key = k } ∷ []),
)

pub waiting_inviting : (item : Item) → IsWaiting item → is_inviting item.state ≡ false → ⊥
waiting_inviting item h bad = ground (arith, h.inviting)
