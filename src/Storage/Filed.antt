-- ===== src/Storage/Filed.antt =====
-- The invariant of the store that all the components share, and what a message leaves alone.
use mathlib.Core.Path.{subst}
use gluon_actor.Base.{
  ◌≡◌, ◌≢◌, sym, ap, ◌∙◌, ◌⊎◌, inl, inr, Bool-cases, String, some, Result, ok, err, Error, str_eq,
  eq_iff, ℕ, ◌==◌, ==_iff, refl, if◌then◌else◌,
}
use gluon_actor.Proto.{GeneralMsg, BrokerMessage}
use gluon_actor.Host.{Host, World, Kind, Stored, Expiry, binding_name}
use gluon_actor.Host.Rules.{IsLawful}
use gluon_actor.Actor.{dispatch_p2p}
use gluon_actor.Actor.Messages.{handle_message}
use gluon_actor.Storage.Keys.{Family, number, key_of, key_of-apart, key_of-injective, IsNamed}
use gluon_actor.Storage.Tasks.{kind_of, IsTaskFamily, IsOwnedBy, AllowsTask, AllowsShared}
use gluon_actor.Storage.Dispatch.{task_of, dispatch_p2p-Keeps}
use gluon_actor.Storage.Messages.{handle_message-Keeps}

of_number : ℕ → Family
of_number n =
    if n == 1
    then Family.key_gen_task
    else if n == 2
    then Family.sign_task
    else if n == 3
    then Family.executor_task
    else if n == 4
    then Family.initial_pinner_task
    else if n == 5
    then Family.key_gen_rsa
    else if n == 6
    then Family.sign_rsa
    else if n == 7
    then Family.deployment
    else if n == 8
    then Family.data_cid
    else Family.mocked_ids

of_number-number : (f : Family) → of_number (number f) ≡ f
unfolding of_number
of_number-number Family.key_gen_task = refl
of_number-number Family.sign_task = refl
of_number-number Family.executor_task = refl
of_number-number Family.initial_pinner_task = refl
of_number-number Family.key_gen_rsa = refl
of_number-number Family.sign_rsa = refl
of_number-number Family.deployment = refl
of_number-number Family.data_cid = refl
of_number-number Family.mocked_ids = refl

number-injective : (f g : Family) → number f ≡ number g → f ≡ g
number-injective f g e = sym (of_number-number f) ∙ ap of_number e ∙ of_number-number g

IsNamed-task : (f : Family) → IsTaskFamily f → IsNamed f
IsNamed-task Family.key_gen_task h = tt
IsNamed-task Family.sign_task h = tt
IsNamed-task Family.executor_task h = tt
IsNamed-task Family.initial_pinner_task h = tt
IsNamed-task Family.key_gen_rsa h = tt
IsNamed-task Family.sign_rsa h = tt
IsNamed-task Family.deployment h = absurd h
IsNamed-task Family.data_cid h = absurd h
IsNamed-task Family.mocked_ids h = absurd h

some_inv : {B : Type 0} (a b : B) → ok (some a) ≡ ok (some b) → a ≡ b
some_inv a b e = cc

same_text : (x y : String) → (x ≡ y) ⊎ (x ≢ y)
same_text x y = elim (Bool-cases (str_eq x y)) [
  | inl t ↦ inl ((eq_iff x y).0 t)
  | inr f ↦ inr (λ e. cc ((eq_iff x y).1 e))
]

same_family : (f g : Family) → (f ≡ g) ⊎ (number f ≢ number g)
same_family f g = elim (Bool-cases (number f == number g)) [
  | inl t ↦ inl (number-injective f g ((==_iff (number f) (number g)).0 t))
  | inr e ↦ inr (λ q. cc ((==_iff (number f) (number g)).1 q))
]

-- A key of one task is no key of another.
pub key_of-other :
    (x y : String) → x ≢ y → (f g : Family) → IsTaskFamily f → key_of f x ≢ key_of g y
key_of-other x y ne f g task e = elim (same_family f g) [
  | inr apart ↦ key_of-apart f g x y apart e
  | inl q ↦ ne (key_of-injective f x y (IsNamed-task f task) (e ∙ ap (λ h. key_of h y) (sym q)))
]

module _ ⦃H : Host⦄ where
  -- A set that the provider refuses leaves the key as it was.
  pub record IsAtomic : Type 0 where
    pub get-set_refused :
        (t : Kind) (b k : String) (v : Stored t) (x : Expiry) (kv : H.Kv) (e : Error)
        → (H.kvp_set t b k v x kv).0 ≡ err e
        → H.kvp_get t b k (H.kvp_set t b k v x kv).1 ≡ H.kvp_get t b k kv

  -- What stands under a task's keys is the task's own: a task's item carries its id.
  pub record FiledAt (id : String) (kv : H.Kv) : Type 0 where
    pub owned :
        (f : Family)
        → IsTaskFamily f
        → (v : Stored (kind_of f))
        → H.kvp_get (kind_of f) binding_name (key_of f id) kv ≡ ok (some v)
        → IsOwnedBy id (kind_of f) v

  abbrev pub Filed : H.Kv → Type 0
  Filed kv = (id : String) → FiledAt id kv

  -- No key has changed but those of the message's task.
  pub record Isolated (msg : GeneralMsg) (kv kv' : H.Kv) : Type 0 where
    pub same :
        (t : Kind) (key : String)
        → ((id : String)
            → task_of msg ≡ some id
            → (f : Family) → IsTaskFamily f
            → key ≢ key_of f id)
        → H.kvp_get t binding_name key kv' ≡ H.kvp_get t binding_name key kv

  module _ (L : IsLawful) (A : IsAtomic) where
    set_cases :
        (t : Kind) (k : String) (v : Stored t) (x : Expiry) (kv : H.Kv)
        → (H.kvp_get t binding_name k (H.kvp_set t binding_name k v x kv).1 ≡ ok (some v))
          ⊎ (H.kvp_get t binding_name k (H.kvp_set t binding_name k v x kv).1
              ≡ H.kvp_get t binding_name k kv)
    set_cases t k v x kv = by_result (H.kvp_set t binding_name k v x kv).0 refl
      where
        by_result :
            (r : Result (Unit {0}))
            → (H.kvp_set t binding_name k v x kv).0 ≡ r
            → (H.kvp_get t binding_name k (H.kvp_set t binding_name k v x kv).1 ≡ ok (some v))
              ⊎ (H.kvp_get t binding_name k (H.kvp_set t binding_name k v x kv).1
                  ≡ H.kvp_get t binding_name k kv)
        by_result (ok _) e = inl (L.get-set_self t binding_name k v x kv e)
        by_result (err y) e = inr (A.get-set_refused t binding_name k v x kv y e)

    -- A value of the task, set under a key of the task, keeps every task's values its own.
    owned-set :
        (f : Family) (id : String) (v : Stored (kind_of f)) (x : Expiry) (kv : H.Kv)
        → IsTaskFamily f
        → IsOwnedBy id (kind_of f) v
        → (id' : String) → FiledAt id' kv
        → FiledAt id' (H.kvp_set (kind_of f) binding_name (key_of f id) v x kv).1
    owned-set f id v x kv task own id' filed = record {
      owned = λ g task' u found. elim (same_family f g) [
        | inr ne ↦ filed.owned g task' u (
            sym (
              L.get-set_ne (kind_of f) (kind_of g) binding_name _ _ v x kv
                (key_of-apart f g id id' ne))
            ∙ found)
        | inl q ↦ subst Owns q same_keys task' u found
      ];
    }
      where
        Owns : Family → Type 0
        Owns g =
            IsTaskFamily g
            → (u : Stored (kind_of g))
            → H.kvp_get (kind_of g) binding_name (key_of g id')
                (H.kvp_set (kind_of f) binding_name (key_of f id) v x kv).1
              ≡ ok (some u)
            → IsOwnedBy id' (kind_of g) u

        same_keys : Owns f
        same_keys task' u found = elim (same_text id id') [
          | inr ne ↦ filed.owned f task' u (
              sym (
                L.get-set_ne (kind_of f) (kind_of f) binding_name _ _ v x kv
                  (λ e. ne (key_of-injective f id id' (IsNamed-task f task) e)))
              ∙ found)
          | inl q ↦
              let moved =
                subst
                  (λ i.
                    H.kvp_get (kind_of f) binding_name (key_of f i)
                      (H.kvp_set (kind_of f) binding_name (key_of f id) v x kv).1
                    ≡ ok (some u))
                  (sym q) found in
              elim (set_cases (kind_of f) (key_of f id) v x kv) [
                | inl new ↦
                    subst (λ i. IsOwnedBy i (kind_of f) u) q
                      (subst (IsOwnedBy id (kind_of f)) (some_inv v u (sym new ∙ moved)) own)
                | inr old ↦ filed.owned f task' u (
                    subst (λ i. H.kvp_get (kind_of f) binding_name (key_of f i) kv ≡ ok (some u)) q
                      (sym old ∙ moved))
              ]
        ]

    task_writes-Filed : (id : String) → AllowsTask Filed id
    task_writes-Filed id = record {
      reads = λ f task kv v filed found. (filed id).owned f task v found;
      sets = λ f task kv v x own filed id'. owned-set f id v x kv task own id' (filed id');
    }

    shared_writes-Filed : AllowsShared Filed
    shared_writes-Filed = record {
      sets = λ f shared name kv v x filed id. record {
        owned = λ g task u found.
            let apart : number f ≢ number g =
              λ e. shared (subst IsTaskFamily (number-injective g f (sym e)) task) in
            (filed id).owned g task u (
              sym (
                L.get-set_ne (kind_of f) (kind_of g) binding_name _ _ v x kv
                  (key_of-apart f g name id apart))
              ∙ found);
      };
    }

    -- The world after a message, for any message and whatever the handling returns, has a filed store if
    -- the world before it has.
    pub handle_message-Filed :
        (msg : BrokerMessage) (w : World) → Filed w.kv → Filed (handle_message msg w).1.kv
    handle_message-Filed msg w filed =
        (handle_message-Keeps task_writes-Filed shared_writes-Filed msg).kept w filed

    pub dispatch_p2p-Filed :
        (msg : GeneralMsg) (peer_id reply_to : String) (w : World)
        → Filed w.kv
        → Filed (dispatch_p2p msg peer_id reply_to w).1.kv
    dispatch_p2p-Filed msg peer_id reply_to w filed =
        (dispatch_p2p-Keeps msg peer_id reply_to (λ id _. task_writes-Filed id)).kept w filed

    -- The filed stores in which no key has changed but those of the message's task.
    abbrev Stays : GeneralMsg → H.Kv → H.Kv → Type 0
    Stays msg kv kv' = Filed kv' × Isolated msg kv kv'

    task_writes-Stays :
        (msg : GeneralMsg) (kv : H.Kv) (id : String)
        → task_of msg ≡ some id
        → AllowsTask (Stays msg kv) id
    task_writes-Stays msg kv id named = record {
      reads = λ f task kv' v (filed, _) found. (filed id).owned f task v found;
      sets = λ f task kv' v x own (filed, isolated). (
        (λ id'. owned-set f id v x kv' task own id' (filed id')),
        record {
          same = λ t key apart.
              L.get-set_ne (kind_of f) t binding_name _ key v x kv'
                (λ e. apart id named f task (sym e))
              ∙ isolated.same t key apart;
        },
      );
    }

    -- A message of another node, whatever the handling returns, changes no key but the six that belong to
    -- the task that it names, when the store is filed.
    pub dispatch_p2p-Isolated :
        (msg : GeneralMsg) (peer_id reply_to : String) (w : World)
        → Filed w.kv
        → Isolated msg w.kv (dispatch_p2p msg peer_id reply_to w).1.kv
    dispatch_p2p-Isolated msg peer_id reply_to w filed =
        ((dispatch_p2p-Keeps msg peer_id reply_to (task_writes-Stays msg w.kv)).kept w
          (filed, record { same = λ t key apart. refl })).1
