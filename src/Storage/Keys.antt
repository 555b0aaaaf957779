-- ===== src/Storage/Keys.antt =====
-- The keys under which the components store their values: `get_task_store_item_key` of the four
-- store_item.rs, `get_rsa_encrypt_key` of common/key_generation.rs and executor/sign.rs,
-- `get_temp_deployment_key` and `get_temp_data_cid_key` of initial_pinner/handler.rs, and the key of
-- delegator/dump_methods.rs.
use Prim.Native.Char.{code}
use text.Mathlib.TextLemmas.{append_cancel_left, cons-append, length-cons}
use Prim.Native.String.{count}
use gluon_actor.Base.{
  ℕ, ◌<◌, zero, suc, ◌≡◌, ◌≢◌, refl, sym, ap, ◌∙◌, String, ◌<>◌, arith, ◌==◌, if◌then◌else◌,
}
use gluon_actor.Common.KeyGeneration as KeyGeneration
use gluon_actor.Delegator.KeyGen.Store as KeyGenStore
use gluon_actor.Delegator.Sign.Store as SignStore
use gluon_actor.Executor.Store as ExecutorStore
use gluon_actor.Executor.Sign as ExecutorSign
use gluon_actor.InitialPinner.Store as InitialPinnerStore
use gluon_actor.Delegator.DumpMethods.{deployment_ids_key}

-- The families of keys; a name is a task's id, or an encoded account.
pub data Family : Type 0 where
  key_gen_task sign_task executor_task initial_pinner_task key_gen_rsa sign_rsa : Family
  deployment data_cid mocked_ids : Family

unfoldable pub key_of : Family → String → String
key_of key_gen_task name = KeyGenStore.get_task_store_item_key name
key_of sign_task name = SignStore.get_task_store_item_key name
key_of executor_task name = ExecutorStore.get_task_store_item_key name
key_of initial_pinner_task name = InitialPinnerStore.get_task_store_item_key name
key_of key_gen_rsa name = KeyGeneration.get_rsa_encrypt_key name
key_of sign_rsa name = ExecutorSign.get_rsa_encrypt_key name
key_of deployment name = "depl-id" <> "-" <> name
key_of data_cid name = "data-cid" <> "-" <> name
key_of mocked_ids _ = deployment_ids_key

-- The code of a character, 0 past the end.
code_at : ℕ → String → ℕ
code_at n String.[] = 0
code_at zero (String.◌∷◌ c s) = code c
code_at (suc n) (String.◌∷◌ c s) = code_at n s

-- A number that tells the families apart by their prefixes.
rank : String → ℕ
rank s =
    if code_at 0 s == b'e'
    then 3
    else if code_at 0 s == b'k'
    then 5
    else if code_at 0 s == b's'
    then 6
    else if code_at 0 s == b'p'
    then if code_at 1 s == b'r' then 9 else 4
    else if code_at 1 s == b'a'
    then 8
    else if code_at 2 s == b'p'
    then 7
    else if code_at 15 s == b'k'
    then 1
    else 2

abbrev pub number : Family → ℕ
number key_gen_task = 1
number sign_task = 2
number executor_task = 3
number initial_pinner_task = 4
number key_gen_rsa = 5
number sign_rsa = 6
number deployment = 7
number data_cid = 8
number mocked_ids = 9

code_at-append : (n : ℕ) (s t : String) → n < count s → code_at n (s <> t) ≡ code_at n s
unfolding code_at
code_at-append n String.[] t h = absurd (omega arith)
code_at-append zero (String.◌∷◌ c s) t h = rw cons-append refl
code_at-append (suc n) (String.◌∷◌ c s) t h =
    rw cons-append (code_at-append n s t (omega (arith, length-cons c s)))

rank-append : (s t : String) → 15 < count s → rank (s <> t) ≡ rank s
unfolding rank
rank-append s t long =
    rw
      (
        code_at-append 0 s t (omega arith),
        code_at-append 1 s t (omega arith),
        code_at-append 2 s t (omega arith),
        code_at-append 15 s t (omega arith),
      )
      refl

rank-key_of : (f : Family) (x : String) → rank (key_of f x) ≡ number f
unfolding rank key_of code_at KeyGenStore.get_task_store_item_key SignStore.get_task_store_item_key
    ExecutorStore.get_task_store_item_key InitialPinnerStore.get_task_store_item_key
    KeyGeneration.get_rsa_encrypt_key ExecutorSign.get_rsa_encrypt_key
rank-key_of key_gen_task x =
    rank-append "delegator_task_key_gen_store_item" ("_" <> x) (omega arith)
rank-key_of sign_task x = rank-append "delegator_task_sign_store_item" ("_" <> x) (omega arith)
rank-key_of executor_task x = rank-append "executor_task_store_item" ("_" <> x) (omega arith)
rank-key_of initial_pinner_task x = rank-append "pinner_task_store_item" ("_" <> x) (omega arith)
rank-key_of key_gen_rsa x = rw (code_at-append 0 "key_gen_rsa_key" ("_" <> x) (omega arith)) refl
rank-key_of sign_rsa x = rw (code_at-append 0 "sign_rsa_key" ("_" <> x) (omega arith)) refl
rank-key_of deployment x =
    rw
      (
        code_at-append 0 "depl-id" ("-" <> x) (omega arith),
        code_at-append 1 "depl-id" ("-" <> x) (omega arith),
        code_at-append 2 "depl-id" ("-" <> x) (omega arith),
      )
      refl
rank-key_of data_cid x =
    rw
      (
        code_at-append 0 "data-cid" ("-" <> x) (omega arith),
        code_at-append 1 "data-cid" ("-" <> x) (omega arith),
      )
      refl
rank-key_of mocked_ids x = refl

-- Keys of two families differ, whatever the names.
pub key_of-apart : (f g : Family) (x y : String) → number f ≢ number g → key_of f x ≢ key_of g y
key_of-apart f g x y ne e = ne (sym (rank-key_of f x) ∙ ap rank e ∙ rank-key_of g y)

-- The families whose keys hold a name.
abbrev pub IsNamed : Family → Type 0
IsNamed mocked_ids = ⊥
IsNamed _ = Unit

pub key_of-injective : (f : Family) (x y : String) → IsNamed f → key_of f x ≡ key_of f y → x ≡ y
unfolding key_of KeyGenStore.get_task_store_item_key SignStore.get_task_store_item_key
    ExecutorStore.get_task_store_item_key InitialPinnerStore.get_task_store_item_key
    KeyGeneration.get_rsa_encrypt_key ExecutorSign.get_rsa_encrypt_key
key_of-injective key_gen_task x y _ e =
    append_cancel_left "_" x y (append_cancel_left "delegator_task_key_gen_store_item" _ _ e)
key_of-injective sign_task x y _ e =
    append_cancel_left "_" x y (append_cancel_left "delegator_task_sign_store_item" _ _ e)
key_of-injective executor_task x y _ e =
    append_cancel_left "_" x y (append_cancel_left "executor_task_store_item" _ _ e)
key_of-injective initial_pinner_task x y _ e =
    append_cancel_left "_" x y (append_cancel_left "pinner_task_store_item" _ _ e)
key_of-injective key_gen_rsa x y _ e =
    append_cancel_left "_" x y (append_cancel_left "key_gen_rsa_key" _ _ e)
key_of-injective sign_rsa x y _ e =
    append_cancel_left "_" x y (append_cancel_left "sign_rsa_key" _ _ e)
key_of-injective deployment x y _ e =
    append_cancel_left "-" x y (append_cancel_left "depl-id" _ _ e)
key_of-injective data_cid x y _ e = append_cancel_left "-" x y (append_cancel_left "data-cid" _ _ e)
key_of-injective mocked_ids x y h e = absurd h
