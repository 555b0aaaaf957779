-- ===== src/Delegator/Verifier/Nonce.antt =====
-- Who becomes the delegator of a task, for `try_to_be_delegator` of src/delegator/verifier.rs.
use gluon_actor.Base.{
  ◌≡◌, refl, ◌⊎◌, inl, inr, true, false, not, Bool-cases, Option, none, some, Result, ok, err,
  Error, if◌then◌else◌,
}
use gluon_actor.Base.Bytes.{Bytes, eq_bytes}
use gluon_actor.Host.{Host, World, M, fail, lift, ◌>>=◌}
use gluon_actor.Delegator.Verifier.{check_nonce, with_key, on_delegator_key}

module _ ⦃H : Host⦄ (nonce_encrypted nonce_hash : Bytes) where
  -- The private key of the answer opens the nonce, and its hash is the one of the task.
  pub record Opens (body nonce : Bytes) : Type 0 where
    pub key : Bytes
    pub hash : Bytes
    pub deserialized : H.deserialize_key body ≡ ok (some key)
    pub decrypted : H.rsa_decrypt key nonce_encrypted ≡ ok nonce
    pub hashed : H.sha256 nonce ≡ ok hash
    pub same : eq_bytes nonce_hash hash ≡ true

  no_nonce :
      {body : Bytes} (key : Bytes) (e : Error)
      → H.deserialize_key body ≡ ok (some key)
      → H.rsa_decrypt key nonce_encrypted ≡ err e
      → ¬ ((nonce : Bytes) × Opens body nonce)
  no_nonce key e d o (nonce, x) = cc (d, o, x.deserialized, x.decrypted)

  no_hash :
      {body : Bytes} (key nonce : Bytes) (e : Error)
      → H.deserialize_key body ≡ ok (some key)
      → H.rsa_decrypt key nonce_encrypted ≡ ok nonce
      → H.sha256 nonce ≡ err e
      → ¬ ((nonce : Bytes) × Opens body nonce)
  no_hash key nonce e d o h (nonce', x) = cc (d, o, h, x.deserialized, x.decrypted, x.hashed)

  other_hash :
      {body : Bytes} (key nonce hash : Bytes)
      → H.deserialize_key body ≡ ok (some key)
      → H.rsa_decrypt key nonce_encrypted ≡ ok nonce
      → H.sha256 nonce ≡ ok hash
      → eq_bytes nonce_hash hash ≡ false
      → ¬ ((nonce : Bytes) × Opens body nonce)
  other_hash key nonce hash d o h f (nonce', x) =
      cc (d, o, h, f, x.deserialized, x.decrypted, x.hashed, x.same)

  module _ (callback : Bytes → M (Unit {0})) (body : Bytes) (w : World) where
    -- The run is that of the closure on a nonce that the key opens, or nothing has changed.
    Outcome : (M (Unit {0})) → Type 0
    Outcome m =
        ((nonce : Bytes) × Opens body nonce × (m w ≡ callback nonce w))
        ⊎ (¬ ((nonce : Bytes) × Opens body nonce) × ((m w).1 ≡ w))

    hash_cases :
        (key nonce : Bytes) (r : Result Bytes)
        → H.deserialize_key body ≡ ok (some key)
        → H.rsa_decrypt key nonce_encrypted ≡ ok nonce
        → H.sha256 nonce ≡ r
        → Outcome (
            lift r >>= λ hash.
            if not (eq_bytes nonce_hash hash) then fail Error.hash_mismatch else callback nonce)
    unfolding Outcome ◌>>=◌
    hash_cases key nonce (err e) d o h = inr (no_hash key nonce e d o h, refl)
    hash_cases key nonce (ok hash) d o h = elim (Bool-cases (eq_bytes nonce_hash hash)) [
      | inl t ↦ inl (
        nonce,
        record { key = key; hash = hash; deserialized = d; decrypted = o; hashed = h; same = t },
        rw t refl,
      )
      | inr f ↦ inr (other_hash key nonce hash d o h f, rw f refl)
    ]

    nonce_cases :
        (key : Bytes) (r : Result Bytes)
        → H.deserialize_key body ≡ ok (some key)
        → H.rsa_decrypt key nonce_encrypted ≡ r
        → Outcome (check_nonce nonce_hash callback r)
    unfolding Outcome check_nonce
    nonce_cases key (err e) d o = inr (no_nonce key e d o, refl)
    nonce_cases key (ok nonce) d o = hash_cases key nonce (H.sha256 nonce) d o refl

    key_cases :
        (r : Result (Option Bytes))
        → H.deserialize_key body ≡ r
        → Outcome (lift r >>= λ key. with_key nonce_encrypted nonce_hash callback key)
    unfolding Outcome with_key ◌>>=◌
    key_cases (err e) d = inr ((λ (nonce, x). cc (d, x.deserialized)), refl)
    key_cases (ok none) d = inr ((λ (nonce, x). cc (d, x.deserialized)), refl)
    key_cases (ok (some key)) d = nonce_cases key (H.rsa_decrypt key nonce_encrypted) d refl

    -- The closure runs, and on that nonce, if the pinner actor's answer holds a key that opens a nonce with
    -- the hash of the task. In every other case, errors included, the world is left as it was.
    pub on_delegator_key_lem :
        ((nonce : Bytes) × Opens body nonce
          × (on_delegator_key nonce_encrypted nonce_hash callback body w ≡ callback nonce w))
        ⊎ (¬ ((nonce : Bytes) × Opens body nonce)
            × ((on_delegator_key nonce_encrypted nonce_hash callback body w).1 ≡ w))
    unfolding Outcome on_delegator_key
    on_delegator_key_lem = key_cases (H.deserialize_key body) refl
