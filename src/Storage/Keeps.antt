-- ===== src/Storage/Keeps.antt =====
-- Predicates of the store that handlers keep, whatever they return and wherever they stop: one rule for
-- each way to build a handler.
use mathlib.Core.Path.{subst}
use gluon_actor.Base.{
  ◌≡◌, refl, Bool, true, false, String, Option, none, some, List, [], ◌∷◌, Result, ok, err, Error,
  ok_or, if◌then◌else◌,
}
use gluon_actor.Common.Utils.{for_each}
use gluon_actor.Host.{
  Host, World, M, Event, Kind, Stored, Expiry, pure, lift, ask, perform, kvp_get, kvp_set,
  kvp_get_or, on_result, continue, choose, ◌>>=◌, binding_name,
}

-- In every world whose store satisfies the predicate, the run leaves such a store, also if it fails.
pub record Keeps ⦃H : Host⦄ {A : Type 0} (I : H.Kv → Type 0) (m : M A) : Type 0 where
  pub kept : (w : World) → I w.kv → I (m w).1.kv

-- Also, a result that the run returns is such.
pub record Yields ⦃H : Host⦄ {A : Type 0} (I : H.Kv → Type 0) (Q : A → Type 0) (m : M A)
    : Type 0 where
  pub kept : (w : World) → I w.kv → I (m w).1.kv
  pub gives : (w : World) (a : A) → I w.kv → (m w).0 ≡ ok a → Q a

module _ ⦃H : Host⦄ {A B : Type 0} (I : H.Kv → Type 0) where
  continue-kept :
      (r : Result A) (f : A → M B) (w : World)
      → ((a : A) → r ≡ ok a → I (f a w).1.kv)
      → I w.kv
      → I (continue r f w).1.kv
  continue-kept (ok a) f w h i = h a refl
  continue-kept (err e) f w h i = i

  choose-kept :
      (r : Result A) (f : A → M B) (g : Error → M B) (w : World)
      → ((a : A) → r ≡ ok a → I (f a w).1.kv)
      → ((e : Error) → I (g e w).1.kv)
      → I (choose r f g w).1.kv
  choose-kept (ok a) f g w h k = h a refl
  choose-kept (err e) f g w h k = k e

module _ ⦃H : Host⦄ {I : H.Kv → Type 0} where
  module _ {A B : Type 0} where
    pub Keeps-bind :
        (m : M A) (f : A → M B) → Keeps I m → ((a : A) → Keeps I (f a)) → Keeps I (m >>= f)
    unfolding ◌>>=◌
    Keeps-bind m f p q = record {
      kept = λ w i.
          let j = p.kept w i in continue-kept I (m w).0 f (m w).1 (λ a _. (q a).kept (m w).1 j) j;
    }

    -- What follows a pure computation may use its result.
    pub Keeps-bind_lift :
        (r : Result A) (f : A → M B) → ((a : A) → r ≡ ok a → Keeps I (f a)) → Keeps I (lift r >>= f)
    unfolding ◌>>=◌
    Keeps-bind_lift r f q = record {
      kept = λ w i. continue-kept I r f w (λ a e. (q a e).kept w i) i;
    }

    pub Keeps-on_result :
        (m : M A) (f : A → M B) (g : Error → M B)
        → Keeps I m
        → ((a : A) → Keeps I (f a))
        → ((e : Error) → Keeps I (g e))
        → Keeps I (on_result m f g)
    unfolding on_result
    Keeps-on_result m f g p q r = record {
      kept = λ w i.
          let j = p.kept w i in
          choose-kept I (m w).0 f g (m w).1 (λ a _. (q a).kept (m w).1 j)
            (λ e. (r e).kept (m w).1 j);
    }

    pub Keeps-bind_yield :
        (m : M A) (f : A → M B) (Q : A → Type 0)
        → Yields I Q m
        → ((a : A) → Q a → Keeps I (f a))
        → Keeps I (m >>= f)
    unfolding ◌>>=◌
    Keeps-bind_yield m f Q p q = record {
      kept = λ w i.
          let j = p.kept w i in
          continue-kept I (m w).0 f (m w).1 (λ a e. (q a (p.gives w a i e)).kept (m w).1 j) j;
    }

    pub Keeps-on_result_yield :
        (m : M A) (f : A → M B) (g : Error → M B) (Q : A → Type 0)
        → Yields I Q m
        → ((a : A) → Q a → Keeps I (f a))
        → ((e : Error) → Keeps I (g e))
        → Keeps I (on_result m f g)
    unfolding on_result
    Keeps-on_result_yield m f g Q p q r = record {
      kept = λ w i.
          let j = p.kept w i in
          choose-kept I (m w).0 f g (m w).1 (λ a e. (q a (p.gives w a i e)).kept (m w).1 j)
            (λ e. (r e).kept (m w).1 j);
    }

    pub Yields-bind :
        (m : M A) (f : A → M B) (P : A → Type 0) (Q : B → Type 0)
        → Yields I P m
        → ((a : A) → P a → Yields I Q (f a))
        → Yields I Q (m >>= f)
    unfolding ◌>>=◌
    Yields-bind m f P Q p q = record {
      kept = λ w i.
          let j = p.kept w i in
          continue-kept I (m w).0 f (m w).1 (λ a e. (q a (p.gives w a i e)).kept (m w).1 j) j;
      gives = λ w b i e. bind_gives (m w).0 (m w).1 b (λ a r. q a (p.gives w a i r)) (p.kept w i) e;
    }
      where
        bind_gives :
            (r : Result A) (w : World) (b : B)
            → ((a : A) → r ≡ ok a → Yields I Q (f a))
            → I w.kv
            → (continue r f w).0 ≡ ok b
            → Q b
        bind_gives (ok a) w b h i e = (h a refl).gives w b i e
        bind_gives (err x) w b h i e = cc e

    pub Yields-on_result :
        (m : M A) (f : A → M B) (g : Error → M B) (P : A → Type 0) (Q : B → Type 0)
        → Yields I P m
        → ((a : A) → P a → Yields I Q (f a))
        → ((e : Error) → Yields I Q (g e))
        → Yields I Q (on_result m f g)
    unfolding on_result
    Yields-on_result m f g P Q p q r = record {
      kept = λ w i.
          let j = p.kept w i in
          choose-kept I (m w).0 f g (m w).1 (λ a e. (q a (p.gives w a i e)).kept (m w).1 j)
            (λ e. (r e).kept (m w).1 j);
      gives =
          λ w b i e. choose_gives (m w).0 (m w).1 b (λ a x. q a (p.gives w a i x)) (p.kept w i) e;
    }
      where
        choose_gives :
            (x : Result A) (w : World) (b : B)
            → ((a : A) → x ≡ ok a → Yields I Q (f a))
            → I w.kv
            → (choose x f g w).0 ≡ ok b
            → Q b
        choose_gives (ok a) w b h i e = (h a refl).gives w b i e
        choose_gives (err x) w b h i e = (r x).gives w b i e

  module _ {A : Type 0} where
    pub Yields-pure : (a : A) (Q : A → Type 0) → Q a → Yields I Q (pure a)
    Yields-pure a Q q = record { kept = λ w i. i; gives = λ w b i e. subst Q (ok_inv a b e) q }
      where
        ok_inv : (x y : A) → ok x ≡ ok y → x ≡ y
        ok_inv x y e = cc

    pub Yields-any : (m : M A) → Keeps I m → Yields I (λ _. Unit {0}) m
    Yields-any m p = record { kept = p.kept; gives = λ w a i e. tt }

    pub Keeps-lift : (r : Result A) → Keeps I (lift r)
    Keeps-lift r = record { kept = λ w i. i }

    pub Keeps-ask : (f : H.Env → Result A × H.Env) → Keeps I (ask f)
    unfolding ask
    Keeps-ask f = record { kept = λ w i. i }

    pub Keeps-if :
        (b : Bool) (m n : M A)
        → (b ≡ true → Keeps I m)
        → (b ≡ false → Keeps I n)
        → Keeps I (if b then m else n)
    Keeps-if true m n p q = p refl
    Keeps-if false m n p q = q refl

  pub Keeps-option :
      {A B : Type 0} (o : Option A) (m : M B) (f : A → M B)
      → Keeps I m
      → ((a : A) → o ≡ some a → Keeps I (f a))
      → Keeps I (elim o [ none ↦ m | some a ↦ f a ])
  Keeps-option none m f p q = p
  Keeps-option (some a) m f p q = q a refl

  pub Keeps-for_each :
      {A : Type 0} (body : A → M (Unit {0})) (xs : List A)
      → ((a : A) → Keeps I (body a))
      → Keeps I (for_each body xs)
  unfolding for_each
  Keeps-for_each body [] h = Keeps-lift (ok tt)
  Keeps-for_each body (x ∷ xs) h =
      Keeps-bind (body x) (λ _. for_each body xs) (h x) (λ _. Keeps-for_each body xs h)

  pub Keeps-perform : (e : Event) → Keeps I (perform e)
  unfolding perform
  Keeps-perform e = record { kept = λ w i. i }

  pub Keeps-kvp_get : (t : Kind) (b k : String) → Keeps I (kvp_get t b k)
  unfolding kvp_get
  Keeps-kvp_get t b k = record { kept = λ w i. i }

  pub Keeps-kvp_get_or : (t : Kind) (b k : String) (e : Error) → Keeps I (kvp_get_or t b k e)
  unfolding kvp_get_or
  Keeps-kvp_get_or t b k e =
      Keeps-bind (kvp_get t b k) (λ found. lift (ok_or found e)) (Keeps-kvp_get t b k)
        (λ found. Keeps-lift (ok_or found e))

  pub Keeps-kvp_set :
      (t : Kind) (k : String) (v : Stored t) (x : Expiry)
      → ((kv : H.Kv) → I kv → I (H.kvp_set t binding_name k v x kv).1)
      → Keeps I (kvp_set t binding_name k v x)
  unfolding kvp_set
  Keeps-kvp_set t k v x h = record { kept = λ w i. h w.kv i }

  -- What is read under a key may have a property that follows from the store's.
  pub Yields-kvp_get_or :
      (t : Kind) (k : String) (x : Error) (Q : Stored t → Type 0)
      → ((kv : H.Kv) (v : Stored t) → I kv → H.kvp_get t binding_name k kv ≡ ok (some v) → Q v)
      → Yields I Q (kvp_get_or t binding_name k x)
  unfolding kvp_get_or kvp_get ◌>>=◌
  Yields-kvp_get_or t k x Q h = record {
    kept = (Keeps-kvp_get_or t binding_name k x).kept;
    gives = λ w v i e. h w.kv v i (found_inv (H.kvp_get t binding_name k w.kv) w v e);
  }
    where
      found_inv :
          (r : Result (Option (Stored t))) (w : World) (v : Stored t)
          → (continue r (λ found. lift (ok_or found x)) w).0 ≡ ok v
          → r ≡ ok (some v)
      found_inv (ok (some u)) w v e = cc e
      found_inv (ok none) w v e = cc e
      found_inv (err y) w v e = cc e

pub ruleset keeps_rules = (
  Keeps-lift, Keeps-ask, Keeps-if, Keeps-option, Keeps-perform, Keeps-kvp_get, Keeps-kvp_get_or,
  Keeps-for_each, Keeps-on_result, Keeps-bind,
)
