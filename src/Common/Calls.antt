-- ===== src/Common/Calls.antt =====
-- Runs that only make outward calls, and loops of such runs.
use gluon_actor.Base.{
  ◌≡◌, refl, sym, ap, ◌∙◌, List, [], ◌∷◌, ◌++◌, map, append-nil, append_assoc, All,
}
use gluon_actor.Common.Utils.{for_each}
use gluon_actor.Host.{Host, World, M, Event, perform, ◌>>=◌}
use gluon_actor.Host.Rules.{Ensures, Ensures-bind, Ensures-pure, Ensures-mono, Ensures-perform}

module _ ⦃H : Host⦄ where
  -- The store is left alone, and the calls are made in this order.
  pub record Sends (calls : List Event) (w w' : World) : Type 0 where
    pub same : w'.kv ≡ w.kv
    pub made : w'.trace ≡ w.trace ++ calls

  pub Sends-nil : (w : World) → Sends [] w w
  Sends-nil w = record { same = refl; made = sym (append-nil w.trace) }

  pub Sends-append :
      (xs ys : List Event) (w v u : World) → Sends xs w v → Sends ys v u → Sends (xs ++ ys) w u
  Sends-append xs ys w v u s t = record {
    same = t.same ∙ s.same;
    made = t.made ∙ ap (λ (l : List Event). l ++ ys) s.made ∙ append_assoc w.trace xs ys;
  }

  pub perform-Sends : (e : Event) (w : World) → Ensures (perform e) w (λ _ w'. Sends (e ∷ []) w w')
  perform-Sends e w = Ensures-perform e w _ λ env'. record { same = refl; made = refl }

  -- One run that makes calls, then another.
  pub bind-Sends :
      (xs ys : List Event) (m k : M (Unit {0})) (w : World)
      → Ensures m w (λ _ w'. Sends xs w w')
      → ((v : World) → Sends xs w v → Ensures k v (λ _ w'. Sends ys v w'))
      → Ensures (m >>= λ _. k) w (λ _ w'. Sends (xs ++ ys) w w')
  bind-Sends xs ys m k w first second =
      Ensures-bind m (λ _. k) w _
        (Ensures-mono m w _ _
          (λ _ v s. Ensures-mono k v _ _ (λ _ u t. Sends-append xs ys w v u s t) (second v s))
          first)

  -- A loop whose rounds each make one call, whatever the world is that has the store of the first.
  pub for_each-Sends :
      {A : Type 0} (body : A → M (Unit {0})) (call : A → Event) (Q : A → Type 0) (kv : H.Kv)
      → ((a : A) (w : World)
          → Q a
          → w.kv ≡ kv
          → Ensures (body a) w (λ _ w'. Sends (call a ∷ []) w w'))
      → (xs : List A) (w : World) → All Q xs
      → w.kv ≡ kv
      → Ensures (for_each body xs) w (λ _ w'. Sends (map call xs) w w')
  unfolding for_each
  for_each-Sends body call Q kv round [] w q same = Ensures-pure tt w _ (Sends-nil w)
  for_each-Sends body call Q kv round (x ∷ xs) w (q, qs) same =
      bind-Sends (call x ∷ []) (map call xs) (body x) (for_each body xs) w (round x w q same)
        λ v s. for_each-Sends body call Q kv round xs v qs (s.same ∙ same)
