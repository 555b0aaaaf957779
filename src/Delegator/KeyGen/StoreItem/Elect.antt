-- ===== src/Delegator/KeyGen/StoreItem/Elect.antt =====
-- How many initial pinners an election chooses, which they are, and when its loop ends; for `elect` of
-- delegator/key_gen/store_item.rs.
use gluon_actor.Base.{
  ℕ, zero, suc, max, ◌+◌, ◌≤◌, ◌<◌, ◌≡◌, refl, ap, ◌∙◌, ◌⊎◌, inl, inr, true, false, List, [], ◌∷◌,
  ◌++◌, ok, err, Error, arith, length, length-append, is_empty, map, Bool,
}
use gluon_actor.Base.Tally.{tally, tally-append, tally-map}
use gluon_actor.Base.Lists.{pop_last_cases}
use gluon_actor.Delegator.ExecutorInfo.{ExecutorInfo, InitialPinnerInfo, from_executor}
use gluon_actor.Delegator.KeyGen.StoreItem.{
  DelegatorKeyGenStoreItem, wants_pinner, take_pinner, select_loop,
}

abbrev pub Item : Type 0
Item = DelegatorKeyGenStoreItem

pub is_empty-true {ℓ} : {A : Type ℓ} (xs : List A) → is_empty xs ≡ true → length xs ≡ 0
is_empty-true [] h = refl
is_empty-true (x ∷ xs) h = cc

pub is_empty-false {ℓ} : {A : Type ℓ} (xs : List A) → is_empty xs ≡ false → 0 < length xs
is_empty-false [] h = cc
is_empty-false (x ∷ xs) h = omega arith

-- The condition of the loop, by the numbers of chosen pinners and candidates.
pub wants_pinner_cases :
    (item : Item)
    → let i = length item.initial_pinners in
      let p = length item.candidate_initial_pinners in
      let e = length item.candidate_executors in
      let n = item.task_info.exec_info.n in
      ((wants_pinner item ≡ true) × ((i < n) ⊎ ((0 < p) × (0 < e))))
      ⊎ ((wants_pinner item ≡ false) × (n ≤ i) × ((p ≡ 0) ⊎ (e ≡ 0)))
unfolding wants_pinner
wants_pinner_cases item = ground (
  arith,
  is_empty-true item.candidate_initial_pinners,
  is_empty-false item.candidate_initial_pinners,
  is_empty-true item.candidate_executors,
  is_empty-false item.candidate_executors,
)

-- How many of the chosen pinners and the candidates pass a test, an executor candidate standing for the
-- pinner that it would be.
abbrev pub choosable : (InitialPinnerInfo → Bool) → Item → ℕ
choosable f item =
    tally f item.initial_pinners
    + tally f item.candidate_initial_pinners
    + tally f (map from_executor item.candidate_executors)

-- What the body of the loop moves, when there is a candidate.
record Takes (item item' : Item) : Type 0 where
  chosen : length item'.initial_pinners ≡ suc (length item.initial_pinners)
  moved :
      ((suc (length item'.candidate_initial_pinners) ≡ length item.candidate_initial_pinners)
        × (length item'.candidate_executors ≡ length item.candidate_executors))
      ⊎ ((length item.candidate_initial_pinners ≡ 0)
          × (length item'.candidate_initial_pinners ≡ 0)
          × (suc (length item'.candidate_executors) ≡ length item.candidate_executors))
  same_n : item'.task_info.exec_info.n ≡ item.task_info.exec_info.n
  same_executor : item'.executor ≡ item.executor
  same_task : item'.task_info ≡ item.task_info
  kept : (f : InitialPinnerInfo → Bool) → choosable f item' ≡ choosable f item

pub length-snoc {ℓ} :
    {A : Type ℓ} (xs ys : List A) (x : A) → xs ≡ ys ++ (x ∷ []) → length xs ≡ suc (length ys)
length-snoc xs ys x e = rw e (omega (arith, length-append ys (x ∷ [])))

take_pinner_cases :
    (item : Item)
    → 0 < length item.candidate_initial_pinners + length item.candidate_executors
    → Takes item (take_pinner item)
unfolding take_pinner
take_pinner_cases item h = elim (pop_last_cases item.candidate_initial_pinners) [
  | inr (p, rest, e, split) ↦
      rw (e, take_pinner)
        (record {
          chosen = omega (arith, length-append item.initial_pinners (p ∷ []));
          moved = inl (omega (arith, length-snoc _ rest p split), refl);
          same_n = refl;
          same_executor = refl;
          same_task = refl;
          kept = λ f. omega (
            arith,
            tally-append f item.initial_pinners (p ∷ []),
            ap (tally f) split,
            tally-append f rest (p ∷ []),
          );
        })
  | inl (e, nil) ↦ elim (pop_last_cases item.candidate_executors) [
    | inl (e', nil') ↦ absurd (
        omega (arith, ap (length {A = InitialPinnerInfo}) nil, ap (length {A = ExecutorInfo}) nil'))
    | inr (x, rest, e', split) ↦
        rw (e, e', take_pinner)
          (record {
            chosen = omega (arith, length-append item.initial_pinners (from_executor x ∷ []));
            moved =
                let z : length item.candidate_initial_pinners ≡ 0 =
                  ap (length {A = InitialPinnerInfo}) nil in
                inr (z, z, omega (arith, length-snoc _ rest x split));
            same_n = refl;
            same_executor = refl;
            same_task = refl;
            kept = λ f. omega (
              arith,
              tally-append f item.initial_pinners (from_executor x ∷ []),
              ap (λ (xs : List ExecutorInfo). tally f (map from_executor xs)) split,
              tally-map f from_executor rest (x ∷ []),
            );
          })
  ]
]

take_pinner_none :
    (item : Item)
    → length item.candidate_initial_pinners + length item.candidate_executors ≡ 0
    → take_pinner item ≡ item
unfolding take_pinner
take_pinner_none item h = elim (pop_last_cases item.candidate_initial_pinners) [
  | inr (p, rest, e, split) ↦ absurd (omega (arith, length-snoc _ rest p split))
  | inl (e, _) ↦ elim (pop_last_cases item.candidate_executors) [
    | inr (x, rest, e', split) ↦ absurd (omega (arith, length-snoc _ rest x split))
    | inl (e', _) ↦ rw (e, e', take_pinner) refl
  ]
]

candidates_total :
    (item : Item)
    → (length item.candidate_initial_pinners + length item.candidate_executors ≡ 0)
      ⊎ (0 < length item.candidate_initial_pinners + length item.candidate_executors)
candidates_total item = omega arith

-- With fewer candidates than initial pinners wanted, the loop never ends, whatever the fuel.
pub select_loop_diverges :
    (fuel : ℕ) (item : Item)
    → length item.initial_pinners
        + length item.candidate_initial_pinners
        + length item.candidate_executors
      < item.task_info.exec_info.n
    → select_loop fuel item ≡ err Error.diverges
unfolding select_loop
select_loop_diverges zero item h = refl
select_loop_diverges (suc fuel) item h = elim (wants_pinner_cases item) [
  | inr (_, le, _) ↦ absurd (omega arith)
  | inl (t, _) ↦ rw t (elim (candidates_total item) [
    | inl z ↦ rw (take_pinner_none item z) (select_loop_diverges fuel item h)
    | inr pos ↦
        let moved = take_pinner_cases item pos in
        select_loop_diverges fuel (take_pinner item) (omega arith)
  ])
]

-- What the loop does to the numbers: no candidate is lost, and all initial pinner candidates are
-- taken while an executor candidate is left, even beyond `n`.
pub record Chooses (item item' : Item) : Type 0 where
  pub same_n : item'.task_info.exec_info.n ≡ item.task_info.exec_info.n
  pub same_executor : item'.executor ≡ item.executor
  pub same_task : item'.task_info ≡ item.task_info
  pub kept : (f : InitialPinnerInfo → Bool) → choosable f item' ≡ choosable f item
  pub conserved :
      length item'.initial_pinners
        + length item'.candidate_initial_pinners
        + length item'.candidate_executors
      ≡ length item.initial_pinners
        + length item.candidate_initial_pinners
        + length item.candidate_executors
  pub size :
      ((length item.candidate_executors ≡ 0)
        × (length item'.initial_pinners
            ≡ max item.task_info.exec_info.n (length item.initial_pinners)))
      ⊎ ((0 < length item.candidate_executors)
          × (length item'.initial_pinners
              ≡ max item.task_info.exec_info.n
                  (length item.initial_pinners + length item.candidate_initial_pinners)))

Chooses-step :
    {item item' item'' : Item}
    → (0 < length item.candidate_initial_pinners + length item.candidate_executors)
    → ((length item.initial_pinners < item.task_info.exec_info.n)
        ⊎ ((0 < length item.candidate_initial_pinners) × (0 < length item.candidate_executors)))
    → Takes item item'
    → Chooses item' item''
    → Chooses item item''
Chooses-step pos w t c = record {
  same_n = c.same_n ∙ t.same_n;
  same_executor = c.same_executor ∙ t.same_executor;
  same_task = c.same_task ∙ t.same_task;
  kept = λ f. c.kept f ∙ t.kept f;
  conserved = omega arith;
  size = omega arith;
}

-- With enough candidates, one round for each is enough fuel.
pub select_loop_total :
    (fuel : ℕ) (item : Item)
    → length item.candidate_initial_pinners + length item.candidate_executors < fuel
    → item.task_info.exec_info.n
      ≤ length item.initial_pinners
        + length item.candidate_initial_pinners
        + length item.candidate_executors
    → (item' : Item) × (select_loop fuel item ≡ ok item') × Chooses item item'
unfolding select_loop
select_loop_total zero item f h = absurd (omega arith)
select_loop_total (suc fuel) item f h = elim (wants_pinner_cases item) [
  | inr (t, le, stop) ↦ (
    item,
    rw t,
    record {
      same_n = refl;
      same_executor = refl;
      same_task = refl;
      kept = λ f. refl;
      conserved = refl;
      size = omega arith;
    },
  )
  | inl (t, want) ↦
      let pos : 0 < length item.candidate_initial_pinners + length item.candidate_executors =
        omega arith in
      let moved = take_pinner_cases item pos in
      let (item', run, c) = select_loop_total fuel (take_pinner item) (omega arith) (omega arith) in
      (item', rw t run, Chooses-step pos want moved c)
]
