-- ===== src/Base/Text/Laws.antt =====
-- A text is split into parts without the separator, and joining them gives it back.
use Prim.Native.Char.{Char, code}
use text.Mathlib.TextEquality.{Char-path}
use text.Mathlib.TextLemmas.{cons-append, nil-append}
use Prim.Native.String.{String, ◌++◌ as ◌<>◌}
use mathlib.Core.Path.{◌≡◌, refl, sym, ap, ◌∙◌, subst}
use mathlib.Core.Bool.{Bool, true, false, ◌||◌}
use mathlib.Core.List.{List, [], ◌∷◌}
use mathlib.Core.Logic.{inl, inr}
use Prim.Native.Nat.{ℕ}
use gluon_actor.Base.Tests.{◌==◌, Bool-cases, ==_iff}
use gluon_actor.Base.Lists.{All}
use gluon_actor.Base.Text.{split}

true_no_false : true ≡ false → ⊥
true_no_false e = cc

-- The character with this code occurs.
unfoldable pub occurs : ℕ → String → Bool
occurs sep String.[] = false
occurs sep (String.◌∷◌ c s) = (code c == sep) || occurs sep s

unfoldable pub join : Char → List String → String
join c [] = ""
join c (part ∷ []) = part
join c (part ∷ next ∷ parts) = part <> String.◌∷◌ c (join c (next ∷ parts))

-- There is a first part.
split_first : (sep : ℕ) (s : String) → (p : String) × (ps : List String) × (split sep s ≡ p ∷ ps)
unfolding split
split_first sep String.[] = ("", [], refl)
split_first sep (String.◌∷◌ c s) = elim (Bool-cases (code c == sep)) [
  | inl t ↦ ("", split sep s, rw t refl)
  | inr f ↦ let (p, ps, e) = split_first sep s in (String.◌∷◌ c p, ps, rw (f, e) refl)
]

pub split-no_separator :
    (sep : ℕ) (s : String) → All (λ part. occurs sep part ≡ false) (split sep s)
unfolding split occurs
split-no_separator sep String.[] = (refl, tt)
split-no_separator sep (String.◌∷◌ c s) = elim (Bool-cases (code c == sep)) [
  | inl t ↦ rw t (refl, split-no_separator sep s)
  | inr f ↦
      let (p, ps, e) = split_first sep s in
      let (free, frees) =
        subst (All (λ part. occurs sep part ≡ false)) e (split-no_separator sep s) in
      rw (f, e) (rw f free, frees)
]

pub join-split : (c : Char) (s : String) → join c (split (code c) s) ≡ s
unfolding split join
join-split c String.[] = refl
join-split c (String.◌∷◌ d s) = elim (Bool-cases (code d == code c)) [
  | inl t ↦
      let (p, ps, e) = split_first (code c) s in
      let same : d ≡ c = Char-path d c ((==_iff (code d) (code c)).0 t) in
      rw (t, e)
        (nil-append (String.◌∷◌ c (join c (p ∷ ps)))
          ∙ ap (λ x. String.◌∷◌ c x) (ap (join c) (sym e) ∙ join-split c s)
          ∙ ap (λ x. String.◌∷◌ x s) (sym same))
  | inr f ↦
      let (p, ps, e) = split_first (code c) s in
      rw (f, e)
        (join_onto c d p ps ∙ ap (λ x. String.◌∷◌ d x) (ap (join c) (sym e) ∙ join-split c s))
]
  where
    join_onto :
        (c d : Char) (p : String) (ps : List String)
        → join c (String.◌∷◌ d p ∷ ps) ≡ String.◌∷◌ d (join c (p ∷ ps))
    join_onto c d p [] = refl
    join_onto c d p (q ∷ qs) = rw cons-append refl

-- A text without the separator is one part.
pub split-free : (sep : ℕ) (s : String) → occurs sep s ≡ false → split sep s ≡ s ∷ []
unfolding split occurs
split-free sep String.[] h = refl
split-free sep (String.◌∷◌ c s) h = elim (Bool-cases (code c == sep)) [
  | inl t ↦ absurd (true_no_false (ap (λ b. b || occurs sep s) (sym t) ∙ h))
  | inr f ↦ rw (f, split-free sep s (ap (λ b. b || occurs sep s) (sym f) ∙ h)) refl
]

-- A part ends at the first separator.
pub split-part :
    (c : Char) (part s : String)
    → occurs (code c) part ≡ false
    → split (code c) (part <> String.◌∷◌ c s) ≡ part ∷ split (code c) s
unfolding split occurs
split-part c String.[] s h = rw nil-append (rw ((==_iff (code c) (code c)).1 refl) refl)
split-part c (String.◌∷◌ d part) s h = elim (Bool-cases (code d == code c)) [
  | inl t ↦ absurd (true_no_false (ap (λ b. b || occurs (code c) part) (sym t) ∙ h))
  | inr f ↦
      rw cons-append
        (rw (f, split-part c part s (ap (λ b. b || occurs (code c) part) (sym f) ∙ h)) refl)
]
