-- ===== src/Delegator/KeyGen/StoreItem/Origin.antt =====
-- Whom an election chooses, for `elect` of delegator/key_gen/store_item.rs.
use gluon_actor.Base.{
  ◌≤◌, ◌<◌, ◌≡◌, sym, ap, ◌∙◌, inl, inr, true, Bool, some, List, [], ◌∷◌, map, ok, arith, length,
}
use gluon_actor.Base.Tally.{tally, tally-map}
use gluon_actor.Base.Lists.{pop_last_cases}
use gluon_actor.Delegator.ExecutorInfo.{ExecutorInfo, InitialPinnerInfo, from_executor}
use gluon_actor.Delegator.KeyGen.StoreItem.{DelegatorKeyGenStoreItem, candidates_ready, elect}
use gluon_actor.Delegator.KeyGen.StoreItem.Elect.{choosable, length-snoc}
use gluon_actor.Delegator.KeyGen.StoreItem.Election.{candidates_ready_iff, elect_total}

abbrev Item : Type 0
Item = DelegatorKeyGenStoreItem

-- The executor and the initial pinners are candidates, none chosen more often than it stands among them.
pub elect_drawn :
    (item item' : Item) (e : ExecutorInfo) (f : InitialPinnerInfo → Bool)
    → item.task_info.exec_info.n < 255
    → item.initial_pinners ≡ []
    → candidates_ready item ≡ true
    → elect item ≡ ok item'
    → item'.executor ≡ some e
    → tally f (from_executor e ∷ item'.initial_pinners) ≤ choosable f item
elect_drawn item item' e f small fresh ready run chosen =
    elim (pop_last_cases item.candidate_executors) [
      | inl (_, none_left) ↦
          let (some_left, _) = (candidates_ready_iff item).0 ready in
          absurd (omega (arith, ap (length {A = ExecutorInfo}) none_left))
      | inr (x, es, _, split) ↦
          let (_, many) = (candidates_ready_iff item).0 ready in
          let size = length-snoc item.candidate_executors es x split in
          let (item'', run', c) = elect_total item es x split fresh (omega arith) in
          let same_item : item' ≡ item'' = cc in
          let same_executor : some e ≡ some x =
            sym chosen ∙ ap (λ (i : Item). i.executor) same_item ∙ c.same_executor in
          let e_x : e ≡ x = cc in
          omega (
            arith,
            c.kept f,
            ap (λ (i : Item). tally f i.initial_pinners) same_item,
            ap (λ (y : ExecutorInfo). tally f (from_executor y ∷ [])) e_x,
            ap (λ (xs : List ExecutorInfo). tally f (map from_executor xs)) split,
            tally-map f from_executor es (x ∷ []),
          )
    ]
