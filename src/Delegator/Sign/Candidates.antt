-- ===== src/Delegator/Sign/Candidates.antt =====
-- The pinners of a signing task that pass their attestation before and after the executor does, for
-- `on_pinner_ra_success` and `on_executor_ra_success` of delegator/sign/observers/client_observer.rs.
pub mod Early
pub mod Order
use mathlib.Core.List.{Perm, perm_middle, map-append}
use mathlib.Core.List.Perm
use mathlib.Core.Path.{subst}
use gluon_actor.Base.{
  ℕ, suc, ◌≤◌, ◌<◌, ◌≡◌, refl, sym, ap, ◌∙◌, ◌⊎◌, inl, inr, Bool, true, false, String, Option, none,
  some, List, [], ◌∷◌, ◌++◌, map, append_assoc, Result, ok, err, Error, arith, length, leb, is_some,
  str_eq, eq_iff, if◌then◌else◌, All, Option-cases, Bool-cases,
}
use gluon_actor.Base.Bytes.{Bytes}
use gluon_actor.Base.HashMap
use gluon_actor.Base.HashMap.{HashMap, get-insert}
use gluon_actor.Proto.{GeneralMsg}
use gluon_actor.Common.Utils.{for_each}
use gluon_actor.Common.Calls.{Sends, Sends-nil, bind-Sends, for_each-Sends, perform-Sends}
use gluon_actor.Host.{Host, World, M, Event, pure, lift, perform, ◌>>=◌, ◌>>◌}
use gluon_actor.Host.Rules.{
  IsLawful, IsReliable, Ensures, Ensures-bind, Ensures-lift, Ensures-pure, Ensures-mono, Ensures-if,
}
use gluon_actor.Delegator.ExecutorInfo.{ExecutorInfo}
use gluon_actor.Delegator.Sign.StoreItem.{
  DelegatorSignStoreItem, has_found_key_slice, found_slices, insert_deployment, pop_all_candidates,
  ready_send_to_executor,
}
use gluon_actor.Delegator.Sign.Store.{get, save}
use gluon_actor.Delegator.Sign.Observers.{
  executor_key, send_get_pinner_key_slice_request, ask_candidates, on_executor_ra_success,
  on_pinner_ra_success,
}
use gluon_actor.Delegator.Sign.Slices.{Holds, Ensures-get, Ensures-save}

abbrev pub Item : Type 0
Item = DelegatorSignStoreItem

-- A pinner that passes its attestation: the deployment, and the peer.
abbrev pub Arrival : Type 0
Arrival = String × String

-- The request for a slice.
abbrev pub slice_request : String → Bytes → Arrival → Event
slice_request task_id key (deployment_id, peer_id) = Event.send_message peer_id task_id (
    GeneralMsg.task_sign_get_pinner_key_slice_request
      (record { task_id = task_id; rsa_pub_key = key; deployment_id = deployment_id }))

abbrev pub peers_of : String → List String → List Arrival
peers_of d [] = []
peers_of d (p ∷ ps) = (d, p) ∷ peers_of d ps

-- The pinners that wait for the executor.
abbrev pub waiting : HashMap (List String) → List Arrival
waiting [] = []
waiting ((d, ps) ∷ m) = peers_of d ps ++ waiting m

-- The pinner is of a deployment of the task, whose slice is missing.
pub record IsOpen (item : Item) (a : Arrival) : Type 0 where
  pub known : is_some (HashMap.get item.deployment_candidates a.0) ≡ true
  pub missing : has_found_key_slice item a.0 ≡ false

pub peers_of-append :
    (d p : String) (ps : List String) → peers_of d (ps ++ (p ∷ [])) ≡ peers_of d ps ++ ((d, p) ∷ [])
peers_of-append d p [] = refl
peers_of-append d p (q ∷ ps) = ap (λ (l : List Arrival). (d, q) ∷ l) (peers_of-append d p ps)

pub waiting-insert :
    (d p : String) (ps : List String) (m : HashMap (List String))
    → HashMap.get m d ≡ some ps
    → Perm (waiting (HashMap.insert d (ps ++ (p ∷ [])) m)) ((d, p) ∷ waiting m)
unfolding HashMap.get HashMap.insert
waiting-insert d p ps [] h = absurd cc
waiting-insert d p ps ((j, qs) ∷ m) h = elim (Bool-cases (str_eq j d)) [
  | inl t ↦
      let same : j ≡ d = (eq_iff j d).0 t in
      let e : qs ≡ ps = cc (rw t at h) in
      rw
        (
          t,
          sym same,
          e,
          peers_of-append j p ps,
          append_assoc (peers_of j ps) ((j, p) ∷ []) (waiting m),
        )
        (perm_middle (peers_of j ps) (waiting m))
  | inr f ↦ rw f (
      Perm.trans (Perm.append_left (peers_of j qs) (waiting-insert d p ps m (rw f at h)))
        (perm_middle (peers_of j qs) (waiting m)))
]

pub known-insert :
    (d j : String) (ps : List String) (m : HashMap (List String))
    → is_some (HashMap.get m j) ≡ true
    → is_some (HashMap.get (HashMap.insert d ps m) j) ≡ true
known-insert d j ps m h = rw (get-insert d ps m j) (ground arith)

pub executor_key-some :
    (item : Item) (e : ExecutorInfo) → item.executor ≡ some e → executor_key item ≡ ok e.rsa_pub_key
executor_key-some item e h = ground arith

pub no_executor : (item : Item) → item.executor ≡ none → is_some item.executor ≡ false
no_executor item h = ground arith

pub has_executor :
    (item : Item) (e : ExecutorInfo) → item.executor ≡ some e → is_some item.executor ≡ true
has_executor item e h = ground arith

pub not_ready :
    (item : Item)
    → length (found_slices item.key_slices) < item.task_info.exec_info.k
    → ready_send_to_executor item ≡ false
unfolding ready_send_to_executor
not_ready item h = ground arith

pub false_ne_true : false ≡ true → ⊥
false_ne_true e = cc

pub insert_deployment-known :
    (d p : String) (item : Item) (ps : List String)
    → HashMap.get item.deployment_candidates d ≡ some ps
    → insert_deployment d p item
      ≡ ok (record item {
        deployment_candidates = HashMap.insert d (ps ++ (p ∷ [])) item.deployment_candidates;
      })
unfolding insert_deployment
insert_deployment-known d p item ps h = rw (h, insert_deployment) refl

pub some_of_known :
    (o : Option (List String)) → is_some o ≡ true → (ps : List String) × (o ≡ some ps)
some_of_known none h = absurd (false_ne_true h)
some_of_known (some ps) h = (ps, refl)

-- The items that differ from a given one in the waiting pinners.
abbrev pub with_waiting : Item → HashMap (List String) → Item
with_waiting item m = record item { deployment_candidates = m }

module _ ⦃H : Host⦄ (task_id : String) where
  pub send_lem :
      (a : Arrival) (item : Item) (e : ExecutorInfo) (w : World)
      → item.executor ≡ some e
      → Ensures
          (send_get_pinner_key_slice_request task_id a.1 a.0 item)
          w
          (λ _ w'. Sends (slice_request task_id e.rsa_pub_key a ∷ []) w w')
  unfolding send_get_pinner_key_slice_request
  send_lem a item e w h = Ensures-bind (lift (executor_key item)) _ w _ (
      Ensures-lift (executor_key item) e.rsa_pub_key w _ (executor_key-some item e h)
        (perform-Sends (slice_request task_id e.rsa_pub_key a) w))

  pub ask_peers :
      (d : String) (ps : List String) (item : Item) (e : ExecutorInfo) (w : World)
      → item.executor ≡ some e
      → Ensures
          (for_each (λ p. send_get_pinner_key_slice_request task_id p d item) ps)
          w
          (λ _ w'. Sends (map (slice_request task_id e.rsa_pub_key) (peers_of d ps)) w w')
  unfolding for_each
  ask_peers d [] item e w h = Ensures-pure tt w _ (Sends-nil w)
  ask_peers d (p ∷ ps) item e w h =
      bind-Sends (slice_request task_id e.rsa_pub_key (d, p) ∷ []) _ _ _ w
        (send_lem (d, p) item e w h) (λ v _. ask_peers d ps item e v h)

  pub ask_candidates_lem :
      (m : HashMap (List String)) (item : Item) (e : ExecutorInfo) (w : World)
      → item.executor ≡ some e
      → Ensures
          (ask_candidates task_id item m)
          w
          (λ _ w'. Sends (map (slice_request task_id e.rsa_pub_key) (waiting m)) w w')
  unfolding ask_candidates
  ask_candidates_lem [] item e w h = Ensures-pure tt w _ (Sends-nil w)
  ask_candidates_lem ((d, ps) ∷ m) item e w h =
      let request : Arrival → Event = slice_request task_id e.rsa_pub_key in
      rw (map-append request (peers_of d ps) (waiting m)) (
        bind-Sends (map request (peers_of d ps)) (map request (waiting m)) _ _ w
          (ask_peers d ps item e w h) (λ v _. ask_candidates_lem m item e v h))

  abbrev pub late_pinner : Arrival → M (Unit {0})
  late_pinner a = on_pinner_ra_success task_id a.1 a.0

  -- A pinner that comes after the executor is asked at once.
  pub late_pinner_lem :
      (a : Arrival) (item : Item) (e : ExecutorInfo) (w : World)
      → Holds task_id item w
      → item.executor ≡ some e
      → has_found_key_slice item a.0 ≡ false
      → Ensures (late_pinner a) w (λ _ w'. Sends (slice_request task_id e.rsa_pub_key a ∷ []) w w')
  unfolding on_pinner_ra_success
  late_pinner_lem a item e w held h missing = Ensures-bind (get task_id) _ w _ (
      Ensures-get task_id item w _ held (
        Ensures-if (has_found_key_slice item a.0) _ _ w _
          (λ bad. absurd (false_ne_true (sym missing ∙ bad)))
          λ _.
            Ensures-if (is_some item.executor) _ _ w _ (λ _. send_lem a item e w h)
              (λ bad. absurd (false_ne_true (sym bad ∙ has_executor item e h)))))

  pub Holds-kv :
      (item : Item) (w v : World) → v.kv ≡ w.kv → Holds task_id item w → Holds task_id item v
  Holds-kv item w v same held = record { id = held.id; found = rw same held.found }

  pub Holds-named :
      (item : Item) (w : World)
      → item.task_info.task_id ≡ task_id
      → Holds item.task_info.task_id item w
      → Holds task_id item w
  Holds-named item w id held = subst (λ (t : String). Holds t item w) id held
