-- ===== src/Delegator/KeyGen/Candidates/Laws.antt =====
-- The selection of peers ends without a panic, loses no peer, and prefers the nearest lucky numbers.
use mathlib.Core.List.{Perm}
use gluon_actor.Base.{
  ℕ, suc, ◌+◌, ◌*◌, ◌%◌, ◌≤◌, ◌<◌, ◌≡◌, refl, ap, ◌⊎◌, inl, inr, String, List, [], ◌∷◌, ◌++◌, ok,
  arith, ltb, ltb→ge, ltb→lt, Bool-cases, length, All,
}
use gluon_actor.Base.Bytes.{Bytes, as_bytes}
use gluon_actor.Delegator.KeyGen.Candidates.{
  last_byte_mod, calculate_lucky_number, lucky_distance, random_select_peers,
}
use gluon_actor.Delegator.KeyGen.Candidates.Loop.{
  IsUsable, calculate_lucky_number_ok, IsWithin, IsBeyond, All-IsBeyond, select_loop_lem, all_taken,
}

-- The lucky number of an id is its last byte modulo `n`.
abbrev pub IsLucky : ℕ → String → ℕ → Type 0
IsLucky n id l =
    (front : Bytes) × (last : ℕ) × (as_bytes id ≡ front ++ (last ∷ [])) × (l ≡ last % n)

last_byte_mod_inv :
    (n : ℕ) (bs : Bytes) (l : ℕ)
    → last_byte_mod n bs ≡ ok l
    → (front : Bytes) × (last : ℕ) × (bs ≡ front ++ (last ∷ [])) × (l ≡ last % n)
last_byte_mod_inv n [] l e = absurd cc
last_byte_mod_inv n (b ∷ []) l e = ([], b, refl, ground arith)
last_byte_mod_inv n (b ∷ c ∷ bs) l e =
    let (front, last, split, same) = last_byte_mod_inv n (c ∷ bs) l e in
    (b ∷ front, last, ap (λ (xs : Bytes). b ∷ xs) split, same)

calculate_lucky_number-IsLucky :
    (n : ℕ) (id : String) (l : ℕ) → calculate_lucky_number n id ≡ ok l → IsLucky n id l
unfolding calculate_lucky_number
calculate_lucky_number-IsLucky n id l e = last_byte_mod_inv n (as_bytes id) l e

module _ (n lucky_number : ℕ) where
  -- The two lucky numbers differ by less than `d`, or by `d` at least.
  abbrev pub IsNear : ℕ → String → Type 0
  IsNear d id = (l : ℕ) × IsLucky n id l × (l < n) × (l < lucky_number + d) × (lucky_number < l + d)

  abbrev pub IsFar : ℕ → String → Type 0
  IsFar d id =
      (l : ℕ) × IsLucky n id l × (l < n) × ((lucky_number + d ≤ l) ⊎ (l + d ≤ lucky_number))

  -- The peers that are chosen, and those left over.
  pub record Selected (ids out left : List String) : Type 0 where
    pub perm : Perm (out ++ left) ids
    pub cut : (d : ℕ) × All (IsNear d) out × All (IsFar d) left

  module _ (small : n ≤ 255) (lucky : lucky_number < n) where
    distance_near :
        (l d : ℕ)
        → l < n
        → lucky_distance l lucky_number < d
        → (l < lucky_number + d) × (lucky_number < l + d)
    distance_near l d b h = ground arith

    distance_far :
        (l d : ℕ)
        → l < n
        → d ≤ lucky_distance l lucky_number
        → (lucky_number + d ≤ l) ⊎ (l + d ≤ lucky_number)
    distance_far l d b h = ground arith

    All-IsNear :
        (d : ℕ) (ids : List String) → All (IsWithin n lucky_number d) ids → All (IsNear d) ids
    All-IsNear d [] h = tt
    All-IsNear d (id ∷ ids) ((l, e, below, near), h) =
        let (under, over) = distance_near l d below near in
        ((l, calculate_lucky_number-IsLucky n id l e, below, under, over), All-IsNear d ids h)

    All-IsFar :
        (d : ℕ) (ids : List String) → All (IsBeyond n lucky_number d) ids → All (IsFar d) ids
    All-IsFar d [] h = tt
    All-IsFar d (id ∷ ids) ((l, e, below, far), h) = (
      (l, calculate_lucky_number-IsLucky n id l e, below, distance_far l d below far),
      All-IsFar d ids h,
    )

pub random_select_peers_lem :
    (ids : List String) (n : ℕ) (task_id : String)
    → 0 < n
    → n ≤ 255
    → IsUsable task_id
    → All IsUsable ids
    → (out : List String) × (random_select_peers ids n task_id ≡ ok out)
      × (((length ids < n * 2) × (out ≡ ids))
          ⊎ ((lucky_number : ℕ) × (left : List String) × IsLucky n task_id lucky_number
              × (n * 2 ≤ length out)
              × Selected n lucky_number ids out left))
unfolding random_select_peers
random_select_peers_lem ids n task_id pos small u us =
    elim (Bool-cases (ltb (length ids) (n * 2))) [
      | inl few ↦ (ids, rw few, inl (ltb→lt _ _ few, refl))
      | inr many ↦
          let (l, e, b) = calculate_lucky_number_ok n task_id pos u in
          let (out, left, run, sel) =
            select_loop_lem n l small b (n * 2) (suc n) 0 ids [] (omega arith) (omega arith) tt
              (All-IsBeyond n l ids pos us) in
          let (d, near, far) = sel.cut in
          (
            out,
            rw (many, e) run,
            inr (
              l,
              left,
              calculate_lucky_number-IsLucky n task_id l e,
              all_taken out left sel.perm (ltb→ge _ _ many) sel.enough,
              record {
                perm = sel.perm;
                cut = (d, All-IsNear n l small b d out near, All-IsFar n l small b d left far);
              },
            ),
          )
    ]
