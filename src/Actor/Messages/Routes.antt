-- ===== src/Actor/Messages/Routes.antt =====
-- Which subjects reach which arm of `handle_message` of src/lib.rs.
use Prim.Native.Char.{Char}
use text.Mathlib.TextLemmas.{append_assoc, cons-append, nil-append}
use mathlib.Core.Path.{subst}
use gluon_actor.Base.{
  ◌≡◌, refl, sym, ap, ◌∙◌, ◌↔◌, arith, Bool, true, false, ◌&&◌, String, ◌<>◌, List, [], ◌∷◌, str_eq,
  eq_iff, if◌then◌else◌, All,
}
use gluon_actor.Base.Text.{split}
use gluon_actor.Base.Text.Laws.{
  occurs, join, join-split, split-part, split-free, split-no_separator,
}
use gluon_actor.Actor.Messages.{Route, route, route_four, p2p_message}

unfoldable is_p2p : Route → Bool
is_p2p (p2p_message _) = true
is_p2p _ = false

true_no_false : true ≡ false → ⊥
true_no_false e = cc

false-if :
    (P : Route → Bool) (b : Bool) (r s : Route)
    → P r ≡ false
    → P s ≡ false
    → P (if b then r else s) ≡ false
false-if P true r s p q = p
false-if P false r s p q = q

and_inv : (b c : Bool) → b && c ≡ true → (b ≡ true) × (c ≡ true)
and_inv b c e = ground arith

-- The arm that an `if` takes, when the other arms are of another kind.
taken :
    (P : Route → Bool) (b : Bool) (r s x : Route)
    → P s ≡ false
    → P x ≡ true
    → (if b then r else s) ≡ x
    → (b ≡ true) × (r ≡ x)
taken P true r s x p q e = (refl, e)
taken P false r s x p q e = absurd (true_no_false (sym q ∙ ap P (sym e) ∙ p))

three_inv :
    (a b c x y z : String)
    → str_eq a x && (str_eq b y && str_eq c z) ≡ true
    → (a ≡ x) × (b ≡ y) × (c ≡ z)
three_inv a b c x y z e =
    let (ea, rest) = and_inv _ _ e in
    let (eb, ec) = and_inv _ _ rest in ((eq_iff a x).0 ea, (eq_iff b y).0 eb, (eq_iff c z).0 ec)

p2p_inv : (d p : String) → p2p_message d ≡ p2p_message p → d ≡ p
p2p_inv d p e = cc

route_four-p2p :
    (is_dev : Bool) (a b c d p : String)
    → (route_four is_dev a b c d ≡ p2p_message p)
      ↔ ((a ≡ "ipfs") × (b ≡ "p2p") × (c ≡ "listen") × (d ≡ p))
unfolding route_four is_p2p
route_four-p2p is_dev a b c d p = (
  (λ e.
      let (h, q) = taken is_p2p _ _ _ _ (search (false-if is_p2p) depth 12) refl e in
      let (ea, eb, ec) = three_inv a b c "ipfs" "p2p" "listen" h in (ea, eb, ec, p2p_inv d p q)),
  λ (ea, eb, ec, ed). rw (ea, eb, ec, ed) refl,
)

abbrev dot : Char
dot = "."

-- A subject of four parts.
four :
    (a b c p : String)
    → occurs b'.' a ≡ false
    → occurs b'.' b ≡ false
    → occurs b'.' c ≡ false
    → occurs b'.' p ≡ false
    → split b'.' (join dot (a ∷ b ∷ c ∷ p ∷ [])) ≡ a ∷ b ∷ c ∷ p ∷ []
unfolding join
four a b c p fa fb fc fp =
    split-part dot a _ fa
    ∙ ap (λ x. a ∷ x)
        (split-part dot b _ fb
          ∙ ap (λ x. b ∷ x) (split-part dot c p fc ∙ ap (λ x. c ∷ x) (split-free b'.' p fp)))

-- A part, a dot and the rest.
with_dot : (a s : String) → a <> String.◌∷◌ dot s ≡ (a <> ".") <> s
with_dot a s =
    ap (λ x. a <> x) (sym (cons-append dot "" s ∙ ap (λ x. String.◌∷◌ dot x) (nil-append s)))
    ∙ sym (append_assoc a "." s)

prefix_p2p : (p : String) → "ipfs.p2p.listen." <> p ≡ join dot ("ipfs" ∷ "p2p" ∷ "listen" ∷ p ∷ [])
unfolding join
prefix_p2p p = sym (
    with_dot "ipfs" _
    ∙ ap (λ x. "ipfs." <> x) (with_dot "p2p" _ ∙ ap (λ x. "p2p." <> x) (with_dot "listen" p))
    ∙ sym (append_assoc "ipfs." "p2p." ("listen." <> p))
    ∙ sym (append_assoc "ipfs.p2p." "listen." p))

two_dots :
    (is_dev : Bool) (parts : List String) (p : String)
    → route is_dev parts ≡ p2p_message p
    → parts ≡ "ipfs" ∷ "p2p" ∷ "listen" ∷ p ∷ []
unfolding route is_p2p
two_dots is_dev [] p e = absurd (true_no_false (sym (ap is_p2p e)))
two_dots is_dev (a ∷ []) p e = absurd (true_no_false (sym (ap is_p2p e)))
two_dots is_dev (a ∷ b ∷ []) p e = absurd (true_no_false (sym (ap is_p2p e)))
two_dots is_dev (a ∷ b ∷ c ∷ []) p e =
    absurd (true_no_false (sym (ap is_p2p e) ∙ search (false-if is_p2p)))
two_dots is_dev (a ∷ b ∷ c ∷ d ∷ []) p e =
    let (ea, eb, ec, ed) = (route_four-p2p is_dev a b c d p).0 e in rw (ea, eb, ec, ed) refl
two_dots is_dev (a ∷ b ∷ c ∷ d ∷ f ∷ rest) p e = absurd (true_no_false (sym (ap is_p2p e)))

-- A subject is taken for a message of the peer p exactly if it is "ipfs.p2p.listen." and p, and p has no
-- dot; this in every build.
pub route-p2p_iff :
    (is_dev : Bool) (subject p : String)
    → (route is_dev (split b'.' subject) ≡ p2p_message p)
      ↔ ((subject ≡ "ipfs.p2p.listen." <> p) × (occurs b'.' p ≡ false))
unfolding route occurs
route-p2p_iff is_dev subject p = (
  (λ e.
      let parts = two_dots is_dev (split b'.' subject) p e in
      let (_, (_, (_, (free, _)))) : All (λ part. occurs b'.' part ≡ false)
          ("ipfs" ∷ "p2p" ∷ "listen" ∷ p ∷ []) =
        subst (All (λ part. occurs b'.' part ≡ false)) parts (split-no_separator b'.' subject) in
      (sym (join-split dot subject) ∙ ap (join dot) parts ∙ sym (prefix_p2p p), free)),
  λ (e, free).
      ap (λ s. route is_dev (split b'.' s)) (e ∙ prefix_p2p p)
      ∙ ap (route is_dev) (four "ipfs" "p2p" "listen" p refl refl refl free)
      ∙ (route_four-p2p is_dev "ipfs" "p2p" "listen" p p).1 (refl, refl, refl, refl),
)
