-- ===== src/Delegator/Sign/Candidates/Early.antt =====
-- Pinners of a signing task that pass their attestation before the executor does wait for it, for
-- `on_pinner_ra_success` of delegator/sign/observers/client_observer.rs.
use mathlib.Core.List.{Perm, perm_middle}
use mathlib.Core.List.Perm
use gluon_actor.Base.{◌≡◌, refl, sym, ◌∙◌, true, String, none, List, [], ◌∷◌, ◌++◌, is_some, All}
use gluon_actor.Base.HashMap
use gluon_actor.Base.HashMap.{HashMap, get-insert}
use gluon_actor.Common.Utils.{for_each}
use gluon_actor.Host.{Host, World, lift}
use gluon_actor.Host.Rules.{
  IsLawful, Ensures, Ensures-bind, Ensures-lift, Ensures-pure, Ensures-mono, Ensures-if,
}
use gluon_actor.Delegator.Sign.StoreItem.{has_found_key_slice, insert_deployment}
use gluon_actor.Delegator.Sign.Store.{get}
use gluon_actor.Delegator.Sign.Observers.{on_pinner_ra_success}
use gluon_actor.Delegator.Sign.Slices.{Holds, Ensures-get, Ensures-save}
use gluon_actor.Delegator.Sign.Candidates.{
  Item, Arrival, waiting, IsOpen, with_waiting, late_pinner, waiting-insert, known-insert,
  no_executor, insert_deployment-known, some_of_known, Holds-named, false_ne_true,
}

module _ ⦃H : Host⦄ (task_id : String) where
  -- What pinners that come before the executor leave: they wait, and nothing is called.
  pub record Waits (item : Item) (early : List Arrival) (w w' : World) : Type 0 where
    pub candidates : HashMap (List String)
    pub held : Holds task_id (with_waiting item candidates) w'
    pub perm : Perm (waiting candidates) (early ++ waiting item.deployment_candidates)
    pub silent : w'.trace ≡ w.trace
    pub known :
        (j : String)
        → is_some (HashMap.get item.deployment_candidates j) ≡ true
        → is_some (HashMap.get candidates j) ≡ true

  pub Waits-step :
      (item : Item) (a : Arrival) (early : List Arrival) (w v u : World)
      → (s : Waits item (a ∷ []) w v) → Waits (with_waiting item s.candidates) early v u
      → Waits item (a ∷ early) w u
  Waits-step item a early w v u s t = record {
    candidates = t.candidates;
    held = t.held;
    perm = Perm.trans t.perm (
        Perm.trans (Perm.append_left early s.perm)
          (perm_middle early (waiting item.deployment_candidates)));
    silent = t.silent ∙ s.silent;
    known = λ j k. t.known j (s.known j k);
  }

  module _ (L : IsLawful) where
    pub early_pinner_lem :
        (a : Arrival) (item : Item) (w : World)
        → Holds task_id item w
        → item.executor ≡ none
        → IsOpen item a
        → Ensures (late_pinner task_id a) w (λ _ w'. Waits item (a ∷ []) w w')
    unfolding on_pinner_ra_success
    early_pinner_lem a item w held none_yet open_ =
        let (ps, found) = some_of_known (HashMap.get item.deployment_candidates a.0) open_.known in
        let m = HashMap.insert a.0 (ps ++ (a.1 ∷ [])) item.deployment_candidates in
        Ensures-bind (get task_id) _ w _ (
          Ensures-get task_id item w _ held (
            Ensures-if (has_found_key_slice item a.0) _ _ w _
              (λ bad. absurd (false_ne_true (sym open_.missing ∙ bad)))
              λ _.
                Ensures-if (is_some item.executor) _ _ w _
                  (λ bad. absurd (false_ne_true (sym (no_executor item none_yet) ∙ bad)))
                  λ _. Ensures-bind (lift (insert_deployment a.0 a.1 item)) _ w _ (
                    Ensures-lift (insert_deployment a.0 a.1 item) (with_waiting item m) w _
                      (insert_deployment-known a.0 a.1 item ps found)
                      (Ensures-save L (with_waiting item m) w _ λ kv' saved. record {
                        candidates = m;
                        held =
                            Holds-named task_id (with_waiting item m) (record w { kv = kv' })
                              held.id saved;
                        perm = waiting-insert a.0 a.1 ps item.deployment_candidates found;
                        silent = refl;
                        known = λ j k. known-insert a.0 j _ item.deployment_candidates k;
                      }))))

    pub All-known :
        (item : Item) (m : HashMap (List String)) (early : List Arrival)
        → ((j : String)
            → is_some (HashMap.get item.deployment_candidates j) ≡ true
            → is_some (HashMap.get m j) ≡ true)
        → All (IsOpen item) early
        → All (IsOpen (with_waiting item m)) early
    unfolding has_found_key_slice
    All-known item m [] k os = tt
    All-known item m (a ∷ early) k (o, os) =
        (record { known = k a.0 o.known; missing = o.missing }, All-known item m early k os)

    pub early_pinners_lem :
        (early : List Arrival) (item : Item) (w : World)
        → Holds task_id item w
        → item.executor ≡ none
        → All (IsOpen item) early
        → Ensures (for_each (late_pinner task_id) early) w (λ _ w'. Waits item early w w')
    unfolding for_each
    early_pinners_lem [] item w held none_yet open_ = Ensures-pure tt w _ (record {
      candidates = item.deployment_candidates;
      held = held;
      perm = Perm.refl _;
      silent = refl;
      known = λ j k. k;
    })
    early_pinners_lem (a ∷ early) item w held none_yet (o, os) =
        Ensures-bind (late_pinner task_id a) _ w _ (
          Ensures-mono (late_pinner task_id a) w _ _
            (λ _ v s.
              Ensures-mono (for_each (late_pinner task_id) early) v _ _
                (λ _ u t. Waits-step item a early w v u s t)
                (early_pinners_lem early (with_waiting item s.candidates) v s.held none_yet
                  (All-known item s.candidates early s.known os)))
            (early_pinner_lem a item w held none_yet o))
