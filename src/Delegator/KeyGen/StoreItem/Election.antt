-- ===== src/Delegator/KeyGen/StoreItem/Election.antt =====
-- The outcome of `TaskCandidates::ready`, `elect` and `ExecutorRequestConstructor::ready` together, for
-- delegator/key_gen/store_item.rs.
use mathlib.Core.List.{reverse, reverse-cons, reverse-reverse, map}
use gluon_actor.Base.{
  ℕ, zero, suc, max, ◌+◌, ◌%◌, ◌≤◌, ◌<◌, ◌≡◌, refl, sym, ap, ◌∙◌, ◌↔◌, ◌⊎◌, inl, inr, true, false,
  some, List, [], ◌∷◌, ◌++◌, append_assoc, append-nil, ok, err, Error, arith, ltb, ◌==◌,
  if◌then◌else◌, Bool-cases, length, length-append, is_empty,
}
use gluon_actor.Base.Lists.{pop_last_cases, pop_last_append}
use gluon_actor.Delegator.ExecutorInfo.{ExecutorInfo, InitialPinnerInfo, from_executor}
use gluon_actor.Delegator.KeyGen.StoreItem.{
  DelegatorKeyGenStoreItem, candidates_ready, select_executor, wants_pinner, take_pinner,
  select_loop, select_initial_pinners, elect, request_ready,
}
use gluon_actor.Delegator.KeyGen.StoreItem.Elect.{
  is_empty-true, is_empty-false, wants_pinner_cases, length-snoc, select_loop_diverges, Chooses,
  select_loop_total,
}

abbrev Item : Type 0
Item = DelegatorKeyGenStoreItem

length-reverse {ℓ} : {A : Type ℓ} (xs : List A) → length (reverse xs) ≡ length xs
length-reverse [] = refl
length-reverse (x ∷ xs) =
    rw (reverse-cons x xs) (omega (arith, length-append (reverse xs) (x ∷ []), length-reverse xs))

-- The item whose candidates are the given lists, the last of which the loop takes first.
abbrev with_candidates :
    Item → List InitialPinnerInfo → List InitialPinnerInfo → List ExecutorInfo → Item
with_candidates item chosen ps es = record item {
  initial_pinners = chosen;
  candidate_initial_pinners = reverse ps;
  candidate_executors = reverse es;
}

wants_pinner_lt :
    (item : Item)
    → length item.initial_pinners < item.task_info.exec_info.n
    → wants_pinner item ≡ true
wants_pinner_lt item h = elim (wants_pinner_cases item) [
  | inl (t, _) ↦ t
  | inr (_, le, _) ↦ absurd (omega arith)
]

select_loop_full :
    (fuel : ℕ) (item : Item) (chosen : List InitialPinnerInfo)
    → length chosen ≡ item.task_info.exec_info.n
    → select_loop (suc fuel) (with_candidates item chosen [] [])
      ≡ ok (with_candidates item (chosen ++ []) [] [])
unfolding select_loop wants_pinner
select_loop_full fuel item chosen h = rw append-nil (ground arith)

-- With as many candidates as are still wanted, the loop takes them all.
select_loop_all :
    (fuel : ℕ) (item : Item) (chosen ps : List InitialPinnerInfo) (es : List ExecutorInfo)
    → length ps + length es < fuel
    → length chosen + length ps + length es ≡ item.task_info.exec_info.n
    → select_loop fuel (with_candidates item chosen ps es)
      ≡ ok (with_candidates item (chosen ++ (ps ++ map from_executor es)) [] [])
unfolding select_loop take_pinner
select_loop_all zero item chosen ps es f h = absurd (omega arith)
select_loop_all (suc fuel) item chosen [] [] f h = select_loop_full fuel item chosen (omega arith)
select_loop_all (suc fuel) item chosen [] (e ∷ es) f h =
    rw
      (
        wants_pinner_lt (with_candidates item chosen [] (e ∷ es)) (omega arith),
        reverse-cons e es,
        pop_last_append (reverse es) e,
      )
      (select_loop_all fuel item (chosen ++ (from_executor e ∷ [])) [] es (omega arith)
          (omega (arith, length-append chosen (from_executor e ∷ [])))
        ∙ rw append_assoc)
select_loop_all (suc fuel) item chosen (p ∷ ps) es f h =
    rw
      (
        wants_pinner_lt (with_candidates item chosen (p ∷ ps) es) (omega arith),
        reverse-cons p ps,
        pop_last_append (reverse ps) p,
      )
      (select_loop_all fuel item (chosen ++ (p ∷ [])) ps es (omega arith)
          (omega (arith, length-append chosen (p ∷ [])))
        ∙ rw append_assoc)

-- The loop starts from the item's own lists.
from_own_lists :
    (fuel : ℕ) (item : Item)
    → item.initial_pinners ≡ []
    → select_loop fuel item
      ≡ select_loop fuel (
          with_candidates item []
            (reverse item.candidate_initial_pinners)
            (reverse item.candidate_executors))
from_own_lists fuel item fresh = λ i. select_loop fuel (record item {
  initial_pinners = fresh i;
  candidate_initial_pinners = sym (reverse-reverse item.candidate_initial_pinners) i;
  candidate_executors = sym (reverse-reverse item.candidate_executors) i;
})

select_initial_pinners_all :
    (item : Item)
    → item.initial_pinners ≡ []
    → length item.candidate_initial_pinners + length item.candidate_executors
      ≡ item.task_info.exec_info.n
    → select_initial_pinners item
      ≡ ok (record item {
        initial_pinners =
            reverse item.candidate_initial_pinners
            ++ map from_executor (reverse item.candidate_executors);
        candidate_initial_pinners = [];
        candidate_executors = [];
      })
unfolding select_initial_pinners
select_initial_pinners_all item fresh h =
    let p = length-reverse item.candidate_initial_pinners in
    let e = length-reverse item.candidate_executors in
    from_own_lists _ item fresh
    ∙ select_loop_all _ item [] (reverse item.candidate_initial_pinners)
        (reverse item.candidate_executors) (omega arith) (omega arith)

module _ (item : Item) (es : List ExecutorInfo) (e : ExecutorInfo) where
  module _ (split : item.candidate_executors ≡ es ++ (e ∷ [])) where
    pub select_executor_last :
        select_executor item ≡ ok (record item { executor = some e; candidate_executors = es })
    unfolding select_executor
    select_executor_last = rw (split, pop_last_append es e) refl

    -- With no initial pinner chosen before and exactly n candidates beside the last executor candidate,
    -- that one becomes the executor, and all others initial pinners: the pinner candidates from the last
    -- to the first, then the executor candidates from the last to the first.
    pub elect_all :
        item.initial_pinners ≡ []
        → length es + length item.candidate_initial_pinners ≡ item.task_info.exec_info.n
        → elect item
          ≡ ok (record item {
            executor = some e;
            initial_pinners =
                reverse item.candidate_initial_pinners ++ map from_executor (reverse es);
            candidate_initial_pinners = [];
            candidate_executors = [];
          })
    unfolding elect
    elect_all fresh h = rw select_executor_last (
        select_initial_pinners_all (record item { executor = some e; candidate_executors = es })
          fresh (omega arith))

    -- What `elect` does to any item with enough candidates.
    pub elect_total :
        item.initial_pinners ≡ []
        → item.task_info.exec_info.n ≤ length es + length item.candidate_initial_pinners
        → (item' : Item) × (elect item ≡ ok item')
          × Chooses (record item { executor = some e; candidate_executors = es }) item'
    unfolding elect select_initial_pinners
    elect_total fresh h = rw select_executor_last (
        select_loop_total _ (record item { executor = some e; candidate_executors = es })
          (omega arith) (omega arith))

-- The number of initial pinners that the election chooses.
abbrev pub elected_count : Item → ℕ
elected_count item =
    if ltb 1 (length item.candidate_executors)
    then max item.task_info.exec_info.n (length item.candidate_initial_pinners)
    else item.task_info.exec_info.n

pub candidates_ready_iff :
    (item : Item)
    → (candidates_ready item ≡ true) ↔ (
        (0 < length item.candidate_executors)
        × ((item.task_info.exec_info.n + 1) % 256
            ≤ length item.candidate_executors + length item.candidate_initial_pinners))
unfolding candidates_ready
candidates_ready_iff item =
    let xs = item.candidate_executors in
    (λ h. (is_empty-false xs (ground arith), ground arith), λ h. ground (arith, is_empty-true xs))

pub not_ready :
    (item : Item)
    → item.task_info.exec_info.n < 255
    → candidates_ready item ≡ false
    → (length item.candidate_executors ≡ 0)
      ⊎ (length item.candidate_executors + length item.candidate_initial_pinners
          ≤ item.task_info.exec_info.n)
unfolding candidates_ready
not_ready item small h =
    let xs = item.candidate_executors in
    elim (Bool-cases (is_empty xs)) [
      | inl t ↦ inl (is_empty-true xs t)
      | inr f ↦ inr (ground arith)
    ]

pub request_ready-some :
    (item : Item) (e : ExecutorInfo)
    → item.executor ≡ some e
    → request_ready item ≡ (length item.initial_pinners == item.task_info.exec_info.n)
unfolding request_ready
request_ready-some item e h = rw (h, request_ready) refl

-- Once the candidates are ready, with n < 255 and no initial pinner chosen before, the election ends and
-- chooses the last executor candidate as executor. It chooses n initial pinners if that was the only
-- executor candidate, and otherwise the larger of n and the number of pinner candidates; the request
-- to the executor is ready exactly if that is n.
pub elect_ready :
    (item : Item)
    → item.task_info.exec_info.n < 255
    → item.initial_pinners ≡ []
    → candidates_ready item ≡ true
    → (item' : Item) × (e : ExecutorInfo) × (es : List ExecutorInfo) × (elect item ≡ ok item')
      × (item.candidate_executors ≡ es ++ (e ∷ []))
      × (item'.executor ≡ some e)
      × (item'.task_info ≡ item.task_info)
      × (length item'.initial_pinners ≡ elected_count item)
      × (request_ready item' ≡ (elected_count item == item.task_info.exec_info.n))
elect_ready item small fresh ready = elim (pop_last_cases item.candidate_executors) [
  | inl (_, none_left) ↦
      let (some_left, _) = (candidates_ready_iff item).0 ready in
      absurd (omega (arith, ap (length {A = ExecutorInfo}) none_left))
  | inr (e, es, _, split) ↦
      let (_, many) = (candidates_ready_iff item).0 ready in
      let size = length-snoc item.candidate_executors es e split in
      let (item', run, c) = elect_total item es e split fresh (omega arith) in
      let none_chosen : length item.initial_pinners ≡ 0 =
        ap (length {A = InitialPinnerInfo}) fresh in
      let chosen : length item'.initial_pinners ≡ elected_count item = ground (arith, c.size) in
      (
        item',
        e,
        es,
        run,
        split,
        c.same_executor,
        c.same_task,
        chosen,
        request_ready-some item' e c.same_executor ∙ rw (chosen, c.same_n),
      )
]

-- With n = 255, where `n + 1` wraps to 0, no initial pinner chosen before, an executor candidate and fewer
-- than 256 candidates, the item is ready, and its election never ends: an executor is selected, and then the
-- loop has not ended after any number of rounds.
pub elect_diverges :
    (item : Item) (rounds : ℕ)
    → item.task_info.exec_info.n ≡ 255
    → item.initial_pinners ≡ []
    → 0 < length item.candidate_executors
    → length item.candidate_executors + length item.candidate_initial_pinners < 256
    → (candidates_ready item ≡ true)
      × ((item' : Item) × (select_executor item ≡ ok item')
          × (select_loop rounds item' ≡ err Error.diverges))
      × (elect item ≡ err Error.diverges)
unfolding elect select_initial_pinners
elect_diverges item rounds full fresh some_executor few =
    elim (pop_last_cases item.candidate_executors) [
      | inl (_, none_left) ↦ absurd (omega (arith, ap (length {A = ExecutorInfo}) none_left))
      | inr (e, es, _, split) ↦
          let none_chosen : length item.initial_pinners ≡ 0 =
            ap (length {A = InitialPinnerInfo}) fresh in
          let size = length-snoc item.candidate_executors es e split in
          let item' : Item = record item { executor = some e; candidate_executors = es } in
          (
            (candidates_ready_iff item).1 (some_executor, omega arith),
            (
              item',
              select_executor_last item es e split,
              select_loop_diverges rounds item' (omega arith),
            ),
            rw (select_executor_last item es e split) (select_loop_diverges _ _ (omega arith)),
          )
    ]
