-- ===== src/Host/Rules.antt =====
-- Reasoning about runs of handlers, one rule for each way to build one, and what is assumed of the
-- key-value provider.
use mathlib.Core.Path.{subst}
use gluon_actor.Base.{
  ◌≡◌, ◌≢◌, refl, sym, ap, ◌∙◌, Bool, true, false, String, Option, some, ◌∷◌, [], ◌++◌, Result, ok,
  err, Error, ok_or, if◌then◌else◌,
}
use gluon_actor.Host.{
  Host, World, M, Event, Kind, Stored, Expiry, pure, lift, perform, ask, kvp_get, kvp_set,
  kvp_get_or, continue, choose, on_result, ◌>>=◌, binding_name,
}

module _ ⦃H : Host⦄ where
  -- The provider returns what was set last, and a set changes no other key.
  pub record IsLawful : Type 0 where
    pub get-set_self :
        (t : Kind) (b k : String) (v : Stored t) (x : Expiry) (kv : H.Kv)
        → (H.kvp_set t b k v x kv).0 ≡ ok tt
        → H.kvp_get t b k (H.kvp_set t b k v x kv).1 ≡ ok (some v)
    pub get-set_ne :
        (t u : Kind) (b k j : String) (v : Stored t) (x : Expiry) (kv : H.Kv)
        → k ≢ j
        → H.kvp_get u b j (H.kvp_set t b k v x kv).1 ≡ H.kvp_get u b j kv

  -- Outward calls and writes succeed.
  pub record IsReliable : Type 0 where
    pub performs : (e : Event) (env : H.Env) → (H.perform e env).0 ≡ ok tt
    pub sets :
        (t : Kind) (b k : String) (v : Stored t) (x : Expiry) (kv : H.Kv)
        → (H.kvp_set t b k v x kv).0 ≡ ok tt

  -- On every host, if the handler returns without an error, the result and the world that it leaves
  -- are such; and on a reliable host it does return so.
  pub record Ensures {A : Type 0} (m : M A) (w : World) (Q : A → World → Type 0) : Type 0 where
    pub at : (a : A) (w' : World) → m w ≡ (ok a, w') → Q a w'
    pub returns : IsReliable → (a : A) × (w' : World) × (m w ≡ (ok a, w'))

  module _ {A B : Type 0} where
    continue_inv :
        (r : Result A) (f : A → M B) (w : World) (b : B) (w' : World)
        → continue r f w ≡ (ok b, w')
        → (a : A) × (r ≡ ok a) × (f a w ≡ (ok b, w'))
    continue_inv (ok a) f w b w' e = (a, refl, e)
    continue_inv (err x) f w b w' e = absurd (not_ok (ap (λ (p : Result B × World). p.0) e))
      where
        not_ok : err x ≡ ok b → ⊥
        not_ok p = cc

    pub Ensures-bind :
        (m : M A) (f : A → M B) (w : World) (Q : B → World → Type 0)
        → Ensures m w (λ a w'. Ensures (f a) w' Q)
        → Ensures (m >>= f) w Q
    unfolding ◌>>=◌
    Ensures-bind m f w Q h = record {
      at = λ b w' e.
          let (a, p, q) = continue_inv (m w).0 f (m w).1 b w' e in
          (h.at a (m w).1 (λ i. (p i, (m w).1))).at b w' q;
      returns = λ reliable.
          let (a, w1, p) = h.returns reliable in
          let (b, w2, q) = (h.at a w1 p).returns reliable in
          let step : continue (m w).0 f (m w).1 ≡ f a w1 = λ i. continue (p i).0 f (p i).1 in
          (b, w2, step ∙ q);
    }

  module _ {A : Type 0} where
    ok_inv :
        (a b : A) (w w' : World) (Q : A → World → Type 0)
        → ◌≡◌ {A = Result A × World} (ok a, w) (ok b, w')
        → Q a w
        → Q b w'
    ok_inv a b w w' Q e q =
        let p : a ≡ b = cc (ap (λ (p : Result A × World). p.0) e) in
        let u : w ≡ w' = ap (λ (p : Result A × World). p.1) e in rw p at (rw u at q)

    pub Ensures-pure : (a : A) (w : World) (Q : A → World → Type 0) → Q a w → Ensures (pure a) w Q
    Ensures-pure a w Q q = record {
      at = λ b w' e. ok_inv a b w w' Q e q;
      returns = λ _. (a, w, refl);
    }

    pub Ensures-lift :
        (r : Result A) (a : A) (w : World) (Q : A → World → Type 0)
        → r ≡ ok a
        → Q a w
        → Ensures (lift r) w Q
    Ensures-lift r a w Q e q =
        subst (λ (x : Result A). Ensures (lift x) w Q) (sym e) (Ensures-pure a w Q q)

    pub Ensures-if :
        (b : Bool) (m n : M A) (w : World) (Q : A → World → Type 0)
        → (b ≡ true → Ensures m w Q)
        → (b ≡ false → Ensures n w Q)
        → Ensures (if b then m else n) w Q
    Ensures-if true m n w Q hm hn = hm refl
    Ensures-if false m n w Q hm hn = hn refl

    -- What a library call that reads the environment returns.
    pub Ensures-ask :
        (f : H.Env → Result A × H.Env) (w : World) (Q : A → World → Type 0)
        → (IsReliable → (a : A) × ((f w.env).0 ≡ ok a))
        → ((a : A) (env' : H.Env) → f w.env ≡ (ok a, env') → Q a (record w { env = env' }))
        → Ensures (ask f) w Q
    unfolding ask
    Ensures-ask f w Q answers h = record {
      at = λ a w' e.
          let r : (f w.env).0 ≡ ok a = ap (λ (p : Result A × World). p.0) e in
          rw (ap (λ (p : Result A × World). p.1) e) at (h a (f w.env).1 (λ i. (r i, (f w.env).1)));
      returns = λ reliable.
          let (a, e) = answers reliable in
          (a, record w { env = (f w.env).1 }, λ i. (e i, record w { env = (f w.env).1 }));
    }

    -- A weaker postcondition.
    pub Ensures-mono :
        (m : M A) (w : World) (P Q : A → World → Type 0)
        → ((a : A) (w' : World) → P a w' → Q a w')
        → Ensures m w P
        → Ensures m w Q
    Ensures-mono m w P Q h p = record { at = λ a w' e. h a w' (p.at a w' e); returns = p.returns }

  -- An outward call is recorded, and leaves the store alone.
  pub Ensures-perform :
      (e : Event) (w : World) (Q : Unit {0} → World → Type 0)
      → ((env' : H.Env) → Q tt (record w { env = env'; trace = w.trace ++ (e ∷ []) }))
      → Ensures (perform e) w Q
  unfolding perform
  Ensures-perform e w Q h = record {
    at = λ a w' p. rw (ap (λ (q : Result (Unit {0}) × World). q.1) p) at (h (H.perform e w.env).1);
    returns = λ reliable.
        let w' : World = record w { env = (H.perform e w.env).1; trace = w.trace ++ (e ∷ []) } in
        (tt, w', λ i. (reliable.performs e w.env i, w'));
  }

  pub Ensures-kvp_set :
      (L : IsLawful)
      → (t : Kind) (k : String) (v : Stored t) (x : Expiry) (w : World)
        (Q : Unit {0} → World → Type 0)
      → ((kv' : H.Kv)
          → H.kvp_get t binding_name k kv' ≡ ok (some v)
          → ((u : Kind) (j : String)
              → k ≢ j
              → H.kvp_get u binding_name j kv' ≡ H.kvp_get u binding_name j w.kv)
          → Q tt (record w { kv = kv' }))
      → Ensures (kvp_set t binding_name k v x) w Q
  unfolding kvp_set
  Ensures-kvp_set L t k v x w Q h = record {
    at = λ a w' p.
        let r : (H.kvp_set t binding_name k v x w.kv).0 ≡ ok tt =
          ap (λ (q : Result (Unit {0}) × World). q.0) p in
        rw (ap (λ (q : Result (Unit {0}) × World). q.1) p) at (
          h (H.kvp_set t binding_name k v x w.kv).1 (L.get-set_self t binding_name k v x w.kv r)
            (λ u j ne. L.get-set_ne t u binding_name k j v x w.kv ne));
    returns = λ reliable.
        let w' : World = record w { kv = (H.kvp_set t binding_name k v x w.kv).1 } in
        (tt, w', λ i. (reliable.sets t binding_name k v x w.kv i, w'));
  }

  pub Ensures-kvp_get :
      (t : Kind) (k : String) (o : Option (Stored t)) (w : World)
      (Q : Option (Stored t) → World → Type 0)
      → H.kvp_get t binding_name k w.kv ≡ ok o
      → Q o w
      → Ensures (kvp_get t binding_name k) w Q
  unfolding kvp_get
  Ensures-kvp_get t k o w Q e q =
      let r = Ensures-lift (H.kvp_get t binding_name k w.kv) o w Q e q in
      record { at = r.at; returns = r.returns }

  pub Ensures-kvp_get_or :
      (t : Kind) (k : String) (x : Error) (v : Stored t) (w : World) (Q : Stored t → World → Type 0)
      → H.kvp_get t binding_name k w.kv ≡ ok (some v)
      → Q v w
      → Ensures (kvp_get_or t binding_name k x) w Q
  unfolding kvp_get_or
  Ensures-kvp_get_or t k x v w Q found q =
      Ensures-bind (kvp_get t binding_name k) (λ o. lift (ok_or o x)) w Q
        (Ensures-kvp_get t k (some v) w _ found (Ensures-pure v w Q q))

  -- A `match` on a run that is known to succeed.
  pub Ensures-on_result :
      {A B : Type 0} (m : M A) (f : A → M B) (g : Error → M B) (a : A) (w v : World)
      (Q : B → World → Type 0)
      → m w ≡ (ok a, v)
      → Ensures (f a) v Q
      → Ensures (on_result m f g) w Q
  unfolding on_result
  Ensures-on_result m f g a w v Q run h =
      let step : on_result m f g w ≡ f a v = λ i. choose (run i).0 f g (run i).1 in
      record {
        at = λ b u e. h.at b u (sym step ∙ e);
        returns = λ reliable. let (b, u, e) = h.returns reliable in (b, u, step ∙ e);
      }

  pub kvp_get_or-run :
      (t : Kind) (k : String) (x : Error) (v : Stored t) (w : World)
      → H.kvp_get t binding_name k w.kv ≡ ok (some v)
      → kvp_get_or t binding_name k x w ≡ (ok v, w)
  unfolding kvp_get_or kvp_get ◌>>=◌
  kvp_get_or-run t k x v w found i = continue (found i) (λ o. lift (ok_or o x)) w

  -- A run that is known to succeed, and then another.
  pub bind-run :
      {A B : Type 0} (m : M A) (f : A → M B) (a : A) (w v : World) (x : Result B × World)
      → m w ≡ (ok a, v)
      → f a v ≡ x
      → (m >>= f) w ≡ x
  unfolding ◌>>=◌
  bind-run m f a w v x first second = (λ i. continue (first i).0 f (first i).1) ∙ second
