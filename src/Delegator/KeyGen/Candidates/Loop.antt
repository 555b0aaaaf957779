-- ===== src/Delegator/KeyGen/Candidates/Loop.antt =====
-- The loop of the selection of peers in src/delegator/key_gen/candidates.rs: when it ends, and what it takes.
use native.Mathlib.Nat.{mod-lt}
use mathlib.Core.Logic.{∥∥₁_elim}
use native.Mathlib.Nat.{ℕ_set}
use mathlib.Core.List.{Perm, Permᴰ, perm_middle}
use mathlib.Core.List.Perm
use gluon_actor.Base.{
  ℕ, zero, suc, ◌+◌, ◌%◌, ◌≤◌, ◌<◌, ◌≡◌, refl, ap, ◌∙◌, ◌≢◌, ◌⊎◌, inl, inr, true, false, String,
  List, [], ◌∷◌, ◌++◌, append_assoc, ok, arith, ltb, leb, leb→le, leb→gt, ltb→ge, Bool-cases,
  length, length-append, is_empty, All,
}
use gluon_actor.Base.Bytes.{Bytes, as_bytes}
use gluon_actor.Delegator.KeyGen.Candidates.{
  last_byte_mod, calculate_lucky_number, lucky_distance, split_near, select_loop,
}

-- An id that has a last byte.
abbrev pub IsUsable : String → Type 0
IsUsable id = as_bytes id ≢ []

last_byte_mod_ok :
    (n : ℕ) (bs : Bytes) → 0 < n → bs ≢ [] → (l : ℕ) × (last_byte_mod n bs ≡ ok l) × (l < n)
last_byte_mod_ok n [] h u = absurd (u refl)
last_byte_mod_ok n (b ∷ []) h u = (b % n, ground arith, mod-lt b h)
last_byte_mod_ok n (b ∷ c ∷ bs) h u = last_byte_mod_ok n (c ∷ bs) h cc

pub calculate_lucky_number_ok :
    (n : ℕ) (id : String)
    → 0 < n
    → IsUsable id
    → (l : ℕ) × (calculate_lucky_number n id ≡ ok l) × (l < n)
unfolding calculate_lucky_number
calculate_lucky_number_ok n id h u = last_byte_mod_ok n (as_bytes id) h u

module _ (n lucky_number : ℕ) where
  -- The peer's lucky number is nearer to the task's than `d`, or is not, by the code's distance.
  abbrev pub IsWithin : ℕ → String → Type 0
  IsWithin d id =
      (l : ℕ) × (calculate_lucky_number n id ≡ ok l) × (l < n) × (lucky_distance l lucky_number < d)

  abbrev pub IsBeyond : ℕ → String → Type 0
  IsBeyond d id =
      (l : ℕ) × (calculate_lucky_number n id ≡ ok l) × (l < n) × (d ≤ lucky_distance l lucky_number)

  pub All-IsBeyond : (ids : List String) → 0 < n → All IsUsable ids → All (IsBeyond 0) ids
  All-IsBeyond [] h u = tt
  All-IsBeyond (id ∷ ids) h (u, us) =
      let (l, e, b) = calculate_lucky_number_ok n id h u in
      ((l, e, b, omega arith), All-IsBeyond ids h us)

  record Split (d : ℕ) (ids pushed kept : List String) : Type 0 where
    found : split_near n lucky_number d ids ≡ ok (pushed, kept)
    perm : Perm (pushed ++ kept) ids
    near : All (IsWithin (suc d)) pushed
    far : All (IsBeyond (suc d)) kept

  Split-cons :
      (d : ℕ) (id : String) (ids : List String)
      → IsBeyond d id
      → ((pushed : List String) × (kept : List String) × Split d ids pushed kept)
      → (pushed : List String) × (kept : List String) × Split d (id ∷ ids) pushed kept
  unfolding split_near
  Split-cons d id ids (l, e, b, _) (pushed, kept, s) =
      elim (Bool-cases (leb (lucky_distance l lucky_number) d)) [
        | inl t ↦ (
          id ∷ pushed,
          kept,
          record {
            found = rw (e, s.found, t);
            perm = Perm.cons id s.perm;
            near = ((l, e, b, omega (arith, leb→le _ _ t)), s.near);
            far = s.far;
          },
        )
        | inr t ↦ (
          pushed,
          id ∷ kept,
          record {
            found = rw (e, s.found, t);
            perm = Perm.trans (perm_middle pushed kept) (Perm.cons id s.perm);
            near = s.near;
            far = ((l, e, b, omega (arith, leb→gt _ _ t)), s.far);
          },
        )
      ]

  split_near_lem :
      (d : ℕ) (ids : List String)
      → All (IsBeyond d) ids
      → (pushed : List String) × (kept : List String) × Split d ids pushed kept
  unfolding split_near
  split_near_lem d [] b =
      ([], [], record { found = refl; perm = Perm.refl []; near = tt; far = tt })
  split_near_lem d (id ∷ ids) (b, bs) = Split-cons d id ids b (split_near_lem d ids bs)

  -- What a run of the loop leaves: the peers taken, and those left over.
  pub record Taken (count : ℕ) (ids out left : List String) : Type 0 where
    pub perm : Perm (out ++ left) ids
    pub enough : (count ≤ length out) ⊎ (left ≡ [])
    pub cut : (d : ℕ) × All (IsWithin d) out × All (IsBeyond d) left

  IsWithin-suc : (d : ℕ) (ids : List String) → All (IsWithin d) ids → All (IsWithin (suc d)) ids
  IsWithin-suc d [] h = tt
  IsWithin-suc d (id ∷ ids) ((l, e, u, b), bs) = ((l, e, u, omega arith), IsWithin-suc d ids bs)

  IsWithin-append :
      (d : ℕ) (xs ys : List String)
      → All (IsWithin d) xs
      → All (IsWithin d) ys
      → All (IsWithin d) (xs ++ ys)
  IsWithin-append d [] ys h k = k
  IsWithin-append d (x ∷ xs) ys (h, hs) k = (h, IsWithin-append d xs ys hs k)

  -- No lucky number is `n` away from another.
  IsBeyond-n :
      lucky_number < n → (d : ℕ) (ids : List String) → n ≤ d → All (IsBeyond d) ids → ids ≡ []
  IsBeyond-n h d [] m b = refl
  IsBeyond-n h d (id ∷ ids) m ((l, e, b, far), bs) = absurd (ground arith)

  lucky_distance-lt :
      n ≤ 255 → lucky_number < n → (l : ℕ) → l < n → lucky_distance l lucky_number < n
  lucky_distance-lt small lucky l b = ground arith

  module _ (small : n ≤ 255) (lucky : lucky_number < n) (count : ℕ) where
    abbrev Ends : ℕ → ℕ → List String → List String → Type 0
    Ends fuel d ids out =
        (out' : List String) × (left : List String) × (select_loop fuel n lucky_number count ids d
            out
          ≡ ok out')
        × Taken count (out ++ ids) out' left

    Ends-next :
        (fuel d : ℕ) (ids out pushed kept : List String)
        → d < n
        → is_empty ids ≡ false
        → ltb (length out) count ≡ true
        → Split d ids pushed kept
        → Ends fuel (suc d) kept (out ++ pushed)
        → Ends (suc fuel) d ids out
    unfolding select_loop
    Ends-next fuel d ids out pushed kept below some_ids more s (out', left, e, sel) = (
      out',
      left,
      rw (more, some_ids, s.found) (let step : (d + 1) % 256 ≡ suc d = omega arith in rw step e),
      record {
        perm =
            Perm.trans sel.perm (rw (append_assoc out pushed kept) (Perm.append_left out s.perm));
        enough = sel.enough;
        cut = sel.cut;
      },
    )

    pub select_loop_lem :
        (fuel d : ℕ) (ids out : List String)
        → d ≤ n
        → n < fuel + d
        → All (IsWithin d) out
        → All (IsBeyond d) ids
        → Ends fuel d ids out
    select_loop_lem zero d ids out m f w b = absurd (omega arith)
    select_loop_lem (suc fuel) d [] out m f w b =
        unfold select_loop in
        (
          out,
          [],
          elim (Bool-cases (ltb (length out) count)) [ inl t ↦ rw t | inr t ↦ rw t ],
          record { perm = Perm.refl _; enough = inr refl; cut = (d, w, tt) },
        )
    select_loop_lem (suc fuel) d (id ∷ ids) out m f w b =
        elim (Bool-cases (ltb (length out) count)) [
          | inl more ↦
              let (pushed, kept, s) = split_near_lem d (id ∷ ids) b in
              let (l, _, below, far) = b.0 in
              let d<n : d < n = omega (arith, lucky_distance-lt small lucky l below) in
              Ends-next fuel d (id ∷ ids) out pushed kept d<n refl more s (
                select_loop_lem fuel (suc d) kept (out ++ pushed) d<n (omega arith)
                  (IsWithin-append (suc d) out pushed (IsWithin-suc d out w) s.near) s.far)
          | inr full ↦
              unfold select_loop in
              (
                out,
                id ∷ ids,
                rw full,
                record { perm = Perm.refl _; enough = inl (ltb→ge _ _ full); cut = (d, w, b) },
              )
        ]

Permᴰ-length : {xs ys : List String} → Permᴰ xs ys → length xs ≡ length ys
Permᴰ-length Permᴰ.nil = refl
Permᴰ-length (Permᴰ.cons e p) = ap suc (Permᴰ-length p)
Permᴰ-length (Permᴰ.swap e f) = refl
Permᴰ-length (Permᴰ.trans p q) = Permᴰ-length p ∙ Permᴰ-length q

pub Perm-length : {xs ys : List String} → Perm xs ys → length xs ≡ length ys
Perm-length p = ∥∥₁_elim p (ℕ_set _ _) Permᴰ-length

pub all_taken :
    {count : ℕ} {ids : List String} (out left : List String)
    → Perm (out ++ left) ids
    → count ≤ length ids
    → (count ≤ length out) ⊎ (left ≡ [])
    → count ≤ length out
all_taken out left p many (inl h) = h
all_taken out left p many (inr e) =
    omega (arith, Perm-length p, length-append out left, ap (length {A = String}) e)
