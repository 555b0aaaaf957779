-- ===== src/Delegator/Verifier.antt =====
-- src/delegator/verifier.rs
pub mod Nonce
use gluon_actor.Base.{not, Option, none, some, Result, ok, err, Error, if◌then◌else◌, []}
use gluon_actor.Base.Bytes.{Bytes, eq_bytes}
use gluon_actor.Host.{Host, M, Event, pure, fail, lift, perform, ◌>>=◌}
use gluon_actor.Host.Callbacks.{got_delegator_key, Duty}

module _ ⦃H : Host⦄ where
  unfoldable pub try_to_be_delegator : Bytes → Bytes → Duty → M (Unit {0})
  try_to_be_delegator nonce_encrypted nonce_hash duty = perform (
      Event.call_async_intercom "actor.pinner.intercom.get_delegator_key" []
        (got_delegator_key nonce_encrypted nonce_hash duty))

  unfoldable pub check_nonce : Bytes → (Bytes → M (Unit {0})) → Result Bytes → M (Unit {0})
  check_nonce nonce_hash callback (ok nonce) = do
    hash ← lift (H.sha256 nonce)
    if not (eq_bytes nonce_hash hash) then fail Error.hash_mismatch else callback nonce
  check_nonce nonce_hash callback (err e) = pure tt

  unfoldable pub with_key : Bytes → Bytes → (Bytes → M (Unit {0})) → Option Bytes → M (Unit {0})
  unfolding check_nonce
  with_key nonce_encrypted nonce_hash callback none = pure tt
  with_key nonce_encrypted nonce_hash callback (some key) =
      check_nonce nonce_hash callback (H.rsa_decrypt key nonce_encrypted)

  -- The answer of the pinner actor.
  unfoldable pub on_delegator_key : Bytes → Bytes → (Bytes → M (Unit {0})) → Bytes → M (Unit {0})
  unfolding with_key
  on_delegator_key nonce_encrypted nonce_hash callback body = do
    key ← lift (H.deserialize_key body)
    with_key nonce_encrypted nonce_hash callback key
