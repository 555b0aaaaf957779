-- ===== src/Delegator/KeyGen/Execution/Complete.antt =====
-- From the executor's result of a key generation task to the update of layer 1, for
-- `process_task_execution_response` and `process_task_pinner_key_slice_response` of delegator/key_gen.rs.
use mathlib.Core.Path.{subst}
use gluon_actor.Base.{
  ◌≡◌, ◌≢◌, refl, sym, ap, ◌∙◌, arith, Bool, true, false, ◌||◌, Bool-cases, String, Option, none,
  some, List, [], ◌∷◌, ◌++◌, map, append_assoc, ok, inl, inr, All, contains, str_eq, eq_iff,
  is_some, if◌then◌else◌,
}
use gluon_actor.Base.Bytes.{Bytes}
use gluon_actor.Base.HashMap
use gluon_actor.Base.HashMap.{HashMap, get-insert}
use gluon_actor.Proto.{Request, TaskExecutionResponse, TaskResultInitialPinnerData}
use gluon_actor.Host.{Host, World, M, Event, ◌>>◌}
use gluon_actor.Host.Rules.{IsLawful, IsReliable, bind-run}
use gluon_actor.Delegator.KeyGen.StoreItem.{all_answered}
use gluon_actor.Delegator.KeyGen.Handlers.{process_task_execution_response}
use gluon_actor.Delegator.KeyGen.Arrivals.{Holds}
use gluon_actor.Delegator.KeyGen.Answers.{Item, Answer, with_answers, completed, replies}
use gluon_actor.Delegator.KeyGen.Answers.Update.{
  AreDeployments, deployments_of, result_of, final, update_call, answers_then, answers_then_total,
}
use gluon_actor.Delegator.KeyGen.Execution.{
  with_pending, executed, slice_call, execution_response_total,
}

abbrev pub peers_of : List TaskResultInitialPinnerData → List String
peers_of slices = map (λ (s : TaskResultInitialPinnerData). s.peer_id) slices

abbrev pub answering : List Answer → List String
answering rest = map (λ (a : Answer). a.0) rest

get-with_pending :
    (slices : List TaskResultInitialPinnerData) (m : HashMap (Option String)) (j : String)
    → HashMap.get (with_pending slices m) j
      ≡ (if contains (peers_of slices) j then some none else HashMap.get m j)
get-with_pending [] m j = refl
get-with_pending (s ∷ slices) m j = ground (
  arith,
  get-with_pending slices (HashMap.insert s.peer_id none m) j,
  get-insert s.peer_id none m j,
)

-- No key stands twice.
abbrev IsDistinct : HashMap (Option String) → Type 0
IsDistinct [] = Unit
IsDistinct ((j, v) ∷ m) = (HashMap.get m j ≡ none) × IsDistinct m

insert-IsDistinct :
    (k : String) (v : Option String) (m : HashMap (Option String))
    → IsDistinct m
    → IsDistinct (HashMap.insert k v m)
unfolding HashMap.insert HashMap.get
insert-IsDistinct k v [] h = (refl, tt)
insert-IsDistinct k v ((j, w) ∷ m) (fresh, h) = elim (Bool-cases (str_eq j k)) [
  | inl t ↦ rw t (ap (HashMap.get m) (sym ((eq_iff j k).0 t)) ∙ fresh, h)
  | inr f ↦ rw f (
    get-insert k v m j ∙ ground (arith, eq_iff j k, eq_iff k j, fresh),
    insert-IsDistinct k v m h,
  )
]

with_pending-IsDistinct :
    (slices : List TaskResultInitialPinnerData) (m : HashMap (Option String))
    → IsDistinct m
    → IsDistinct (with_pending slices m)
with_pending-IsDistinct [] m h = h
with_pending-IsDistinct (s ∷ slices) m h =
    with_pending-IsDistinct slices _ (insert-IsDistinct s.peer_id none m h)

with_answers-IsDistinct :
    (rest : List Answer) (m : HashMap (Option String))
    → IsDistinct m
    → IsDistinct (with_answers m rest)
with_answers-IsDistinct [] m h = h
with_answers-IsDistinct (a ∷ rest) m h =
    with_answers-IsDistinct rest _ (insert-IsDistinct a.0 (some a.1) m h)

-- If an answer is missing, it is that of some peer.
unanswered :
    (m : HashMap (Option String))
    → IsDistinct m
    → all_answered m ≡ false
    → (j : String) × (HashMap.get m j ≡ some none)
unfolding all_answered HashMap.get
unanswered [] h e = absurd cc
unanswered ((j, none) ∷ m) h e = (j, ground (arith, eq_iff j j))
unanswered ((j, some v) ∷ m) (fresh, h) e =
    let (k, found) = unanswered m h e in (k, ground (arith, eq_iff j k))

-- Who is missing after some answers was missing before, and has not answered.
get-with_answers :
    (rest : List Answer) (m : HashMap (Option String)) (j : String)
    → HashMap.get (with_answers m rest) j ≡ some none
    → (HashMap.get m j ≡ some none) × (contains (answering rest) j ≡ false)
get-with_answers [] m j e = (e, refl)
get-with_answers (a ∷ rest) m j e =
    let (before, others) = get-with_answers rest (HashMap.insert a.0 (some a.1) m) j e in
    elim (Bool-cases (str_eq a.0 j)) [
      | inl t ↦ absurd (no (sym (get-insert a.0 (some a.1) m j) ∙ before) t)
      | inr f ↦ (ground (arith, get-insert a.0 (some a.1) m j), ground arith)
    ]
  where
    no :
        (if str_eq a.0 j then some (some a.1) else HashMap.get m j) ≡ some none
        → str_eq a.0 j ≡ true
        → ⊥
    no p t = ground arith

contains-All :
    (P : String → Type 0) (xs : List String) (j : String) → All P xs → contains xs j ≡ true → P j
contains-All P [] j h e = absurd cc
contains-All P (x ∷ xs) j (p, ps) e = elim (Bool-cases (str_eq x j)) [
  | inl t ↦ subst P ((eq_iff x j).0 t) p
  | inr f ↦ contains-All P xs j ps (ground arith)
]

All-map :
    (P : String → Type 0) (slices : List TaskResultInitialPinnerData)
    → All (λ (s : TaskResultInitialPinnerData). P s.peer_id) slices
    → All P (peers_of slices)
All-map P [] h = tt
All-map P (s ∷ slices) (p, ps) = (p, All-map P slices ps)

-- Before any answer, the pinners of the result are the ones that are missing.
pending_named :
    (slices : List TaskResultInitialPinnerData) (j : String)
    → HashMap.get (with_pending slices []) j ≡ some none
    → contains (peers_of slices) j ≡ true
unfolding HashMap.get
pending_named slices j e = elim (Bool-cases (contains (peers_of slices) j)) [
  | inl t ↦ t
  | inr f ↦
      absurd (
        missing (HashMap.get (with_pending slices []) j) (rw f at (get-with_pending slices [] j)) e)
]
  where
    missing : (o : Option (Option String)) → o ≡ none → o ≡ some none → ⊥
    missing o p q = cc

clash : (b c : Bool) → b || false ≡ false → c ≡ false → b || c ≡ true → ⊥
clash b c p q r = ground arith

known_pending :
    (slices : List TaskResultInitialPinnerData) (m : HashMap (Option String)) (j : String)
    → contains (peers_of slices) j ≡ true
    → HashMap.get (with_pending slices m) j ≡ some none
known_pending slices m j h = rw (get-with_pending slices m j, h) refl

All-known_pending :
    (slices : List TaskResultInitialPinnerData) (m : HashMap (Option String)) (rest : List Answer)
    → All (λ (a : Answer). contains (peers_of slices) a.0 ≡ true) rest
    → All (λ (a : Answer). is_some (HashMap.get (with_pending slices m) a.0) ≡ true) rest
All-known_pending slices m [] h = tt
All-known_pending slices m (a ∷ rest) (k, ks) = (
  ap (is_some {A = Option String}) (known_pending slices m a.0 k),
  All-known_pending slices m rest ks,
)

-- Once every pinner of the result has answered, no answer is missing.
all_answered-final :
    (res : TaskExecutionResponse) (item : Item) (rest : List Answer) (last : Answer)
    → item.initial_pinner_responses ≡ []
    → All
        (λ (s : TaskResultInitialPinnerData). contains (answering (last ∷ rest)) s.peer_id ≡ true)
        res.initial_pinners
    → all_answered (final (executed res item) rest last).initial_pinner_responses ≡ true
all_answered-final res item rest last fresh covered =
    elim (Bool-cases
      (all_answered (final (executed res item) rest last).initial_pinner_responses)) [
        | inl t ↦ t
        | inr f ↦ absurd (unfinished (unanswered _ distinct f))
      ]
  where
    start : HashMap (Option String)
    start = with_pending res.initial_pinners item.initial_pinner_responses

    distinct : IsDistinct (with_answers (with_answers start rest) (last ∷ []))
    distinct = with_answers-IsDistinct (last ∷ []) _ (
        with_answers-IsDistinct rest _
          (with_pending-IsDistinct res.initial_pinners _ (subst IsDistinct (sym fresh) tt)))

    unfinished :
        (j : String) × (HashMap.get (with_answers (with_answers start rest) (last ∷ [])) j
            ≡ some none)
        → ⊥
    unfinished (j, missing) =
        let (before, not_last) = get-with_answers (last ∷ []) _ j missing in
        let (at_first, not_rest) = get-with_answers rest start j before in
        let named =
          pending_named res.initial_pinners j
            (sym (ap (λ m. HashMap.get (with_pending res.initial_pinners m) j) fresh) ∙ at_first) in
        let answers_j =
          contains-All (λ i. contains (answering (last ∷ rest)) i ≡ true)
            (peers_of res.initial_pinners) j (All-map _ res.initial_pinners covered) named in
        clash (str_eq last.0 j) (contains (answering rest) j) not_last not_rest answers_j

module _ ⦃H : Host⦄ (executor answers_reply_to reply_to : String) where
  -- The result of the executor, some answers of pinners, and one more.
  abbrev pub execution_then_answers : TaskExecutionResponse → List Answer → Answer → M (Unit {0})
  execution_then_answers res rest last = do
    process_task_execution_response res executor reply_to
    answers_then res.task_id answers_reply_to rest last

  -- If outward calls and writes succeed: a stored task without answers gets its result, and then pinners
  -- of that result answer, in any order and possibly more than once, one of them last and only once. If
  -- each pinner of the result has answered then, all are handled without an error. The slices are sent, and
  -- layer 1 is called once, at the end, with the account and the key of the result and one deployment for
  -- each pinner, the one that it answered; the task is stored as complete. The task's id decodes and calls
  -- can be encoded.
  pub execution_then_answers_total :
      (L : IsLawful)
      → (res : TaskExecutionResponse) (rest : List Answer) (last : Answer) (item : Item)
        (task : Bytes) (w : World)
      → IsReliable
      → ((r : Request) → (body : Bytes) × (H.encode_protobuf r ≡ ok body))
      → Holds res.task_id item w
      → item.initial_pinner_responses ≡ []
      → All (λ (a : Answer). contains (peers_of res.initial_pinners) a.0 ≡ true) (last ∷ rest)
      → All (λ (a : Answer). a.0 ≢ last.0) rest
      → All
          (λ (s : TaskResultInitialPinnerData). contains (answering (last ∷ rest)) s.peer_id ≡ true)
          res.initial_pinners
      → H.base64_decode item.task_info.task_id ≡ ok task
      → (w' : World) × (ids : List String) × (body : Bytes) × (execution_then_answers res rest last
            w
          ≡ (ok tt, w'))
        × Holds res.task_id (completed (final (executed res item) rest last)) w'
        × AreDeployments (final (executed res item) rest last).initial_pinner_responses ids
        × (H.encode_protobuf (
              Request.update_key_generation_result (
                result_of task res.multi_sig_account res.p2_public_key ids
                  (final (executed res item) rest last)))
            ≡ ok body)
        × (w'.trace
            ≡ w.trace
              ++ ((map (slice_call res.task_id res) res.initial_pinners
                    ++ (Event.response_reply reply_to "received task response" ∷ []))
                  ++ (replies res.task_id answers_reply_to rest
                      ++ (update_call res.task_id answers_reply_to body ∷ []))))
  execution_then_answers_total L res rest last item task w reliable encodes held fresh
        (named, nameds) others covered decoded =
      let (v, run, (stored, made)) =
        execution_response_total L res executor reply_to item w reliable held in
      let (ids, these) = deployments_of _ (all_answered-final res item rest last fresh covered) in
      let (body, encoded) = encodes (
        Request.update_key_generation_result (
          result_of task res.multi_sig_account res.p2_public_key ids
            (final (executed res item) rest last))) in
      let (u, run', stored', made') =
        answers_then_total res.task_id answers_reply_to L rest last (executed res item) ids task
          res.multi_sig_account res.p2_public_key body v reliable stored
          (known_pending res.initial_pinners item.initial_pinner_responses last.0 named)
          (All-known_pending res.initial_pinners item.initial_pinner_responses rest nameds) others
          these decoded refl refl encoded in
      (
        u,
        ids,
        body,
        bind-run _ _ tt w v _ run run',
        stored',
        these,
        encoded,
        made' ∙ rw made (append_assoc w.trace _ _),
      )
