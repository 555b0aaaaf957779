-- ===== src/Base/Tally.antt =====
-- Tests that all elements of a list of texts pass, and how many do.
use mathlib.Core.Logic.{∥∥₁_elim}
use native.Mathlib.Nat.{ℕ_set}
use mathlib.Core.Bool.{Bool-set}
use mathlib.Core.List.{Perm, Permᴰ}
use gluon_actor.Base.{
  ℕ, suc, zero, ◌≤◌, ◌≡◌, refl, ◌∙◌, arith, Bool, true, ◌&&◌, String, List, [], ◌∷◌, ◌++◌, map,
  take, contains, All, eq_iff, str_eq, ◌+◌, if◌then◌else◌,
}

unfoldable pub every : (String → Bool) → List String → Bool
every f [] = true
every f (x ∷ xs) = f x && every f xs

Permᴰ-every : (f : String → Bool) {xs ys : List String} → Permᴰ xs ys → every f xs ≡ every f ys
unfolding every
Permᴰ-every f Permᴰ.nil = refl
Permᴰ-every f (Permᴰ.cons e p) = rw (e, Permᴰ-every f p) refl
Permᴰ-every f (Permᴰ.swap e g) = ground arith
Permᴰ-every f (Permᴰ.trans p q) = Permᴰ-every f p ∙ Permᴰ-every f q

pub Perm-every : (f : String → Bool) {xs ys : List String} → Perm xs ys → every f xs ≡ every f ys
Perm-every f p = ∥∥₁_elim p (Bool-set _ _) (Permᴰ-every f)

pub every-append :
    (f : String → Bool) (xs ys : List String) → every f (xs ++ ys) ≡ true → every f xs ≡ true
unfolding every
every-append f [] ys h = refl
every-append f (x ∷ xs) ys h = ground (arith, every-append f xs ys)

pub every-take :
    (f : String → Bool) (n : ℕ) (xs : List String) → every f xs ≡ true → every f (take n xs) ≡ true
unfolding every
every-take f zero xs h = refl
every-take f (suc n) [] h = refl
every-take f (suc n) (x ∷ xs) h = ground (arith, every-take f n xs)

every-weaken :
    (f g : String → Bool) (xs : List String)
    → ((x : String) → f x ≡ true → g x ≡ true)
    → every f xs ≡ true
    → every g xs ≡ true
unfolding every
every-weaken f g [] w h = refl
every-weaken f g (x ∷ xs) w h = ground (arith, w x, every-weaken f g xs w)

pub contains_each : (xs : List String) → every (contains xs) xs ≡ true
unfolding every
contains_each [] = refl
contains_each (x ∷ xs) = ground (
  arith,
  eq_iff x x,
  every-weaken (contains xs) (contains (x ∷ xs)) xs (λ y h. ground arith) (contains_each xs),
)

-- How many elements pass the test.
abbrev pub tally {ℓ} : {A : Type ℓ} → (A → Bool) → List A → ℕ
tally f [] = 0
tally f (x ∷ xs) = (if f x then 1 else 0) + tally f xs

-- How often the element stands in the list.
abbrev pub occurrences : String → List String → ℕ
occurrences x xs = tally (str_eq x) xs

Permᴰ-tally : (f : String → Bool) {xs ys : List String} → Permᴰ xs ys → tally f xs ≡ tally f ys
Permᴰ-tally f Permᴰ.nil = refl
Permᴰ-tally f (Permᴰ.cons e p) = rw (e, Permᴰ-tally f p) refl
Permᴰ-tally f (Permᴰ.swap e g) = ground arith
Permᴰ-tally f (Permᴰ.trans p q) = Permᴰ-tally f p ∙ Permᴰ-tally f q

pub tally-append {ℓ} :
    {A : Type ℓ} (f : A → Bool) (xs ys : List A) → tally f (xs ++ ys) ≡ tally f xs + tally f ys
tally-append f [] ys = omega arith
tally-append f (x ∷ xs) ys = ground (arith, tally-append f xs ys)

pub Perm-tally : (f : String → Bool) {xs ys : List String} → Perm xs ys → tally f xs ≡ tally f ys
Perm-tally f p = ∥∥₁_elim p (ℕ_set _ _) (Permᴰ-tally f)

pub tally-take : (f : String → Bool) (n : ℕ) (xs : List String) → tally f (take n xs) ≤ tally f xs
tally-take f zero xs = omega arith
tally-take f (suc n) [] = omega arith
tally-take f (suc n) (x ∷ xs) = ground (arith, tally-take f n xs)

pub All-every :
    (f : String → Bool) (xs : List String) → every f xs ≡ true → All (λ id. f id ≡ true) xs
unfolding every
All-every f [] h = tt
All-every f (x ∷ xs) h = (ground arith, All-every f xs (ground arith))

pub tally-map {ℓ} :
    {A B : Type ℓ} (f : B → Bool) (g : A → B) (xs ys : List A)
    → tally f (map g (xs ++ ys)) ≡ tally f (map g xs) + tally f (map g ys)
tally-map f g [] ys = omega arith
tally-map f g (x ∷ xs) ys = ground (arith, tally-map f g xs ys)
