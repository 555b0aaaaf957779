-- ===== src/Delegator/KeyGen/Answers.antt =====
-- The answers of the initial pinners to a key generation task, in any order, up to the update of layer 1;
-- for `process_task_pinner_key_slice_response` of delegator/key_gen.rs.
pub mod Update
use mathlib.Core.Path.{subst}
use gluon_actor.Base.{
  ℕ, ◌≡◌, ◌≢◌, refl, sym, ap, ◌∙◌, ◌⊎◌, inl, inr, Bool, true, false, String, Option, none, some,
  List, [], ◌∷◌, ◌++◌, map, append_assoc, append-nil, Result, ok, err, Error, ok_or, arith,
  if◌then◌else◌, str_eq, eq_iff, is_some, All, Bool-cases,
}
use gluon_actor.Base.Errors.{◌>>=◌ as bind_result}
use gluon_actor.Base.Bytes.{Bytes, as_bytes}
use gluon_actor.Base.HashMap
use gluon_actor.Base.HashMap.{HashMap, get-insert}
use gluon_actor.Proto.{Request, UpdateKeyGenerationResult, TaskPinnerKeySliceResponse}
use gluon_actor.Common.Utils.{for_each}
use gluon_actor.Host.{Host, World, M, Event, Kind, pure, lift, perform, on_result, ◌>>=◌, ◌>>◌}
use gluon_actor.Host.Callbacks.{Callback, got_update_result}
use gluon_actor.Host.Rules.{
  IsLawful, IsReliable, Ensures, Ensures-bind, Ensures-lift, Ensures-pure, Ensures-mono, Ensures-if,
  Ensures-perform, Ensures-on_result, kvp_get_or-run,
}
use gluon_actor.Delegator.KeyGen.StoreItem.{
  DelegatorKeyGenStoreItem, StoreItemState, all_answered, is_all_initial_pinners_ready, answers,
  to_result,
}
use gluon_actor.Delegator.KeyGen.Store.{get, save}
use gluon_actor.Delegator.KeyGen.Handlers.{
  delegator_store_item_handler, after_answer, on_pinner_response,
  process_task_pinner_key_slice_response,
}
use gluon_actor.Delegator.KeyGen.Arrivals.{Holds, Ensures-save}

abbrev pub Item : Type 0
Item = DelegatorKeyGenStoreItem

-- The peer, and the id of the deployment with its slice.
abbrev pub Answer : Type 0
Answer = String × String

abbrev pub with_answers : HashMap (Option String) → List Answer → HashMap (Option String)
with_answers m [] = m
with_answers m ((p, d) ∷ rest) = with_answers (HashMap.insert p (some d) m) rest

abbrev pub answered : Item → List Answer → Item
answered item rest = record item {
  initial_pinner_responses = with_answers item.initial_pinner_responses rest;
}

-- The item as it is stored at the end.
abbrev pub completed : Item → Item
completed item = record item { state = StoreItemState.received_all_pinner_response }

pub none_missing :
    (m : HashMap (Option String)) (q : String)
    → HashMap.get m q ≡ some none
    → all_answered m ≡ false
unfolding all_answered HashMap.get
none_missing [] q h = absurd cc
none_missing ((j, none) ∷ m) q h = refl
none_missing ((j, some v) ∷ m) q h = elim (Bool-cases (str_eq j q)) [
  | inl t ↦ absurd (cc (rw t at h))
  | inr f ↦ none_missing m q (rw f at h)
]

pub missing-insert :
    (p q : String) (v : Option String) (m : HashMap (Option String))
    → p ≢ q
    → HashMap.get m q ≡ some none
    → HashMap.get (HashMap.insert p v m) q ≡ some none
missing-insert p q v m ne h = rw (get-insert p v m q) (ground (arith, eq_iff p q))

pub known-insert :
    (p j : String) (v : Option String) (m : HashMap (Option String))
    → is_some (HashMap.get m j) ≡ true
    → is_some (HashMap.get (HashMap.insert p v m) j) ≡ true
known-insert p j v m h = rw (get-insert p v m j) (ground arith)

pub All-known :
    (p : String) (v : Option String) (m : HashMap (Option String)) (rest : List Answer)
    → All (λ (a : Answer). is_some (HashMap.get m a.0) ≡ true) rest
    → All (λ (a : Answer). is_some (HashMap.get (HashMap.insert p v m) a.0) ≡ true) rest
All-known p v m [] h = tt
All-known p v m (a ∷ rest) (k, ks) = (known-insert p a.0 v m k, All-known p v m rest ks)

pub some_of_known :
    (o : Option (Option String)) → is_some o ≡ true → (v : Option String) × (o ≡ some v)
some_of_known none h = absurd (no h)
  where
    no : false ≡ true → ⊥
    no e = cc
some_of_known (some v) h = (v, refl)

module _ ⦃H : Host⦄ (task_id reply_to : String) where
  -- The answer of a pinner.
  abbrev pub answer : Answer → M (Unit {0})
  answer (p, d) =
      process_task_pinner_key_slice_response (record { task_id = task_id; deployment_id = d }) p
        reply_to

  abbrev pub received : Event
  received = Event.response_reply reply_to "received initial pinner key slice response"

  abbrev pub replies : List Answer → List Event
  replies rest = map (λ (a : Answer). received) rest

  pub Holds-named :
      (item : Item) (w : World)
      → item.task_info.task_id ≡ task_id
      → Holds item.task_info.task_id item w
      → Holds task_id item w
  Holds-named item w id held = subst (λ (t : String). Holds t item w) id held

  pub Holds-kv :
      (item : Item) (w v : World) → v.kv ≡ w.kv → Holds task_id item w → Holds task_id item v
  Holds-kv item w v same held = record { id = held.id; found = rw same held.found }

  pub get_run : (item : Item) (w : World) → Holds task_id item w → get task_id w ≡ (ok item, w)
  unfolding get
  get_run item w held = kvp_get_or-run Kind.key_gen_item _ _ item w held.found

  pub on_known :
      (a : Answer) (item : Item)
      → is_some (HashMap.get item.initial_pinner_responses a.0) ≡ true
      → on_pinner_response (record { task_id = task_id; deployment_id = a.1 }) a.0 reply_to item
        ≡ after_answer reply_to (answered item (a ∷ []))
  unfolding on_pinner_response
  on_known a item known =
      let (v, found) = some_of_known (HashMap.get item.initial_pinner_responses a.0) known in
      rw (found, on_pinner_response) refl

  pub answer_lem :
      (a : Answer) (item : Item) (w : World) (Q : Unit {0} → World → Type 0)
      → Holds task_id item w
      → is_some (HashMap.get item.initial_pinner_responses a.0) ≡ true
      → Ensures (after_answer reply_to (answered item (a ∷ []))) w Q
      → Ensures (answer a) w Q
  unfolding process_task_pinner_key_slice_response delegator_store_item_handler
  answer_lem a item w Q held known h =
      Ensures-on_result (get task_id) _ _ item w w Q (get_run item w held)
        (subst (λ (m : M (Unit {0})). Ensures m w Q) (sym (on_known a item known)) h)

  module _ (L : IsLawful) where
    -- While another pinner is missing.
    pub partial_lem :
        (item : Item) (w : World)
        → item.task_info.task_id ≡ task_id
        → all_answered item.initial_pinner_responses ≡ false
        → Ensures
            (after_answer reply_to item)
            w
            (λ _ w'. Holds task_id item w' × (w'.trace ≡ w.trace ++ (received ∷ [])))
    unfolding after_answer is_all_initial_pinners_ready
    partial_lem item w id more =
        Ensures-if (is_all_initial_pinners_ready item) _ _ w _ (λ bad. absurd (no (sym more ∙ bad)))
          λ _. Ensures-bind (save item) _ w _ (
            Ensures-save L item w _ λ kv' saved. Ensures-perform received _ _ λ env'.
              (Holds-kv item (record w { kv = kv' }) _ refl (Holds-named item _ id saved), refl))
      where
        no : false ≡ true → ⊥
        no e = cc

    pub partial_answers_lem :
        (rest : List Answer) (item : Item) (q : String) (w : World)
        → Holds task_id item w
        → HashMap.get item.initial_pinner_responses q ≡ some none
        → All (λ (a : Answer). is_some (HashMap.get item.initial_pinner_responses a.0) ≡ true) rest
        → All (λ (a : Answer). a.0 ≢ q) rest
        → Ensures (for_each answer rest) w (λ _ w'.
          Holds task_id (answered item rest) w'
          × (HashMap.get (answered item rest).initial_pinner_responses q ≡ some none)
          × (w'.trace ≡ w.trace ++ replies rest))
    unfolding for_each
    partial_answers_lem [] item q w held missing known others =
        Ensures-pure tt w _ (held, missing, sym (append-nil w.trace))
    partial_answers_lem (a ∷ rest) item q w held missing (k, ks) (ne, nes) =
        let next = answered item (a ∷ []) in
        let still = missing-insert a.0 q (some a.1) item.initial_pinner_responses ne missing in
        Ensures-bind (answer a) _ w _ (
          answer_lem a item w _ held k (
            Ensures-mono (after_answer reply_to next) w _ _
              (λ _ v (held', made).
                Ensures-mono (for_each answer rest) v _ _
                  (λ _ u (held'', left, made'). (
                    held'',
                    left,
                    made' ∙ rw made (append_assoc w.trace (received ∷ []) (replies rest)),
                  ))
                  (partial_answers_lem rest next q v held' still
                    (All-known a.0 (some a.1) item.initial_pinner_responses rest ks) nes))
              (partial_lem next w held.id (none_missing next.initial_pinner_responses q still))))
