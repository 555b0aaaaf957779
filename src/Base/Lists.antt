-- ===== src/Base/Lists.antt =====
-- Lists measured and indexed by native numbers, under the library's names, and the operations of
-- Rust's `Vec` that the actor uses.
use Prim.Native.Nat.{ℕ, zero, suc, ◌+◌, min}
use Prim.Native.String.{String}
use text.Mathlib.Text.{◌==◌ as str_eq}
use mathlib.Core.Path.{◌≡◌, refl, ap}
use mathlib.Core.Bool.{Bool, true, false, ◌||◌}
use mathlib.Core.List.{List, [], ◌∷◌, ◌++◌}
use mathlib.Core.Option.{Option, none, some, some-injective}
use mathlib.Core.Logic.{◌⊎◌, inl, inr}
use native.Mathlib.Omega.{arith}

module _ {ℓ} {A : Type ℓ} where
  abbrev pub length : List A → ℕ
  length [] = 0
  length (x ∷ xs) = suc (length xs)

  abbrev pub is_empty : List A → Bool
  is_empty [] = true
  is_empty (x ∷ xs) = false

  abbrev pub get_elem? : List A → ℕ → Option A
  get_elem? [] i = none
  get_elem? (x ∷ xs) zero = some x
  get_elem? (x ∷ xs) (suc i) = get_elem? xs i

  abbrev pub take : ℕ → List A → List A
  take zero xs = []
  take (suc n) [] = []
  take (suc n) (x ∷ xs) = x ∷ take n xs

  abbrev pub All {κ} : (A → Type κ) → List A → Type κ
  All P [] = Unit
  All P (x ∷ xs) = P x × All P xs

  pub length-append : (xs ys : List A) → length (xs ++ ys) ≡ length xs + length ys
  length-append [] ys = omega arith
  length-append (x ∷ xs) ys = omega (arith, length-append xs ys)

  pub length-take : (n : ℕ) (xs : List A) → length (take n xs) ≡ min n (length xs)
  length-take zero xs = omega arith
  length-take (suc n) [] = omega arith
  length-take (suc n) (x ∷ xs) = omega (arith, length-take n xs)

  -- `Vec::pop`: the last element, and the vector without it.
  abbrev pop_last_of : A → List A → A × List A
  pop_last_of x [] = (x, [])
  pop_last_of x (y ∷ ys) = let (l, rest) = pop_last_of y ys in (l, x ∷ rest)

  abbrev pub pop_last : List A → Option (A × List A)
  pop_last [] = none
  pop_last (x ∷ xs) = some (pop_last_of x xs)

module _ {ℓ} {A : Type ℓ} where
  -- `pop_last` takes a list apart at its end.
  pub pop_last_append : (xs : List A) (x : A) → pop_last (xs ++ (x ∷ [])) ≡ some (x, xs)
  pop_last_append [] x = refl
  pop_last_append (y ∷ []) x = refl
  pop_last_append (y ∷ z ∷ xs) x = rw (some-injective _ _ (pop_last_append (z ∷ xs) x))

  pub pop_last_cases :
      (xs : List A)
      → ((pop_last xs ≡ none) × (xs ≡ []))
        ⊎ ((x : A) × (rest : List A) × (pop_last xs ≡ some (x, rest)) × (xs ≡ rest ++ (x ∷ [])))
  pop_last_cases [] = inl (refl, refl)
  pop_last_cases (x ∷ []) = inr (x, [], refl, refl)
  pop_last_cases (x ∷ y ∷ ys) = elim (pop_last_cases (y ∷ ys)) [
    | inl (e, _) ↦ cc
    | inr (l, rest, e, split) ↦ inr (l, x ∷ rest, rw (some-injective _ _ e), ap (λ t. x ∷ t) split)
  ]

-- `Vec<String>::contains`.
abbrev pub contains : List String → String → Bool
contains [] a = false
contains (x ∷ xs) a = str_eq x a || contains xs a
