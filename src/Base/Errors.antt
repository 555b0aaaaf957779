-- ===== src/Base/Errors.antt =====
-- The errors of the actor, and `Result`. A message text of the source is a constructor; `external` is
-- an error that a library call returned, `panic` an abort, `diverges` a loop that does not end.
use Prim.Native.String.{String}
use mathlib.Core.Path.{◌≡◌, refl}
use mathlib.Core.Logic.{◌⊎◌, inl, inr}
use mathlib.Core.Bool.{Bool, true, false}
use mathlib.Core.Option.{Option, none, some}

pub data Error : Type 0 where
  external : String → Error
  panic : Error
  diverges : Error
  task_not_found : String → Error
  invalid_n : Error
  invalid_k : Error
  candidates_empty : Error
  not_elected : String → Error
  account_empty : Error
  public_key_empty : Error
  property_missing : String → Error
  deployment_not_exists : String → Error
  executor_missing : String → Error
  invalid_signature : Error
  peer_mismatch : String → String → Error
  hash_mismatch : Error
  rsa_key_missing : String → Error
  data_cid_missing : Error
  deployment_id_missing : Error
  key1_missing : String → Error
  challenge_item_missing : Error
  delegator_key_missing : Error

pub data Result {ℓ} (A : Type ℓ) : Type ℓ where
  ok : A → Result A
  err : Error → Result A

abbrev pub is_some {ℓ} : {A : Type ℓ} → Option A → Bool
is_some none = false
is_some (some _) = true

-- `Option::ok_or`
abbrev pub ok_or {ℓ} : {A : Type ℓ} → Option A → Error → Result A
ok_or none e = err e
ok_or (some a) e = ok a

infixl 5 ◌>>=◌
abbrev pub ◌>>=◌ {ℓ κ} : {A : Type ℓ} {B : Type κ} → Result A → (A → Result B) → Result B
ok a >>= f = f a
err e >>= f = err e

pub Result-cases {ℓ} :
    {A : Type ℓ} (r : Result A) → ((a : A) × (r ≡ ok a)) ⊎ ((e : Error) × (r ≡ err e))
Result-cases (ok a) = inl (a, refl)
Result-cases (err e) = inr (e, refl)
