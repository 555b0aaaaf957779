-- ===== src/Executor/KeyGen/Slices.antt =====
-- The slices that an executor answers with, for `generate_task_execution_response` of executor/key_gen.rs.
use gluon_actor.Base.{
  ℕ, zero, suc, ◌+◌, ◌≤◌, ◌<◌, ◌≡◌, refl, ap, String, Option, none, some, List, [], ◌∷◌, Result, ok,
  Error, ok_or, arith, length, get_elem?,
}
use gluon_actor.Base.Bytes.{Bytes, as_bytes}
use gluon_actor.Proto.{
  TaskExecutionRequest, TaskExecutionResponse, TaskExecutionInitialPinnerData,
  TaskResultInitialPinnerData,
}
use gluon_actor.Common.TaskInfo.{as_u8}
use gluon_actor.Host.{Host, World, lift, ask}
use gluon_actor.Host.Rules.{
  IsReliable, Ensures, Ensures-bind, Ensures-lift, Ensures-pure, Ensures-mono, Ensures-ask,
}
use gluon_actor.Executor.StoreItem.{ExecutorStoreItem}
use gluon_actor.Executor.KeyGen.{
  encrypt_slices, generate_multi_sig_account, generate_task_execution_response,
}

get_elem-lt :
    {A : Type 0} (xs : List A) (i : ℕ) → i < length xs → (x : A) × (get_elem? xs i ≡ some x)
get_elem-lt [] i h = absurd (omega arith)
get_elem-lt (x ∷ xs) zero h = (x, refl)
get_elem-lt (x ∷ xs) (suc i) h = get_elem-lt xs i (omega arith)

module _ ⦃H : Host⦄ where
  -- The entry of the answer that is for this pinner, with this slice under the pinner's key.
  pub record IsSealed (pinner : TaskExecutionInitialPinnerData) (slice : Bytes)
      (entry : TaskResultInitialPinnerData) : Type 0 where
    pub peer : entry.peer_id ≡ pinner.peer_id
    pub env : H.Env
    pub cipher : (H.rsa_encrypt pinner.rsa_pub_key slice env).0 ≡ ok entry.encrypted_key_slice

  -- The entries are for the pinners one by one, with the slices from the given index on.
  abbrev pub AreSealed :
      List Bytes
      → ℕ
      → List TaskExecutionInitialPinnerData
      → List TaskResultInitialPinnerData
      → Type 0
  AreSealed slices i [] [] = Unit
  AreSealed slices i (p ∷ ps) (d ∷ ds) =
      ((slice : Bytes) × (get_elem? slices i ≡ some slice) × IsSealed p slice d)
      × AreSealed slices (suc i) ps ds
  AreSealed slices i _ _ = ⊥

  -- RSA encryption succeeds.
  unfoldable pub Encrypts : Type 0
  Encrypts = (key b : Bytes) (env : H.Env) → (c : Bytes) × ((H.rsa_encrypt key b env).0 ≡ ok c)

  encrypt_slices_lem :
      (slices : List Bytes) (i : ℕ) (pinners : List TaskExecutionInitialPinnerData) (w : World)
      → Encrypts
      → i + length pinners ≤ length slices
      → Ensures
          (encrypt_slices slices i pinners)
          w
          (λ out w'. AreSealed slices i pinners out × (w'.kv ≡ w.kv) × (w'.trace ≡ w.trace))
  unfolding encrypt_slices Encrypts
  encrypt_slices_lem slices i [] w rsa h = Ensures-pure [] w _ (tt, refl, refl)
  encrypt_slices_lem slices i (p ∷ ps) w rsa h =
      let (slice, found) = get_elem-lt slices i (omega arith) in
      Ensures-bind (lift (ok_or (get_elem? slices i) Error.panic)) _ w _ (
        Ensures-lift _ slice w _ (ap (λ (o : Option Bytes). ok_or o Error.panic) found) (
          Ensures-bind (ask (H.rsa_encrypt p.rsa_pub_key slice)) _ w _ (
            Ensures-ask (H.rsa_encrypt p.rsa_pub_key slice) w _ (λ _. rsa p.rsa_pub_key slice w.env)
              λ c env' e. Ensures-bind (encrypt_slices slices (suc i) ps) _ _ _ (
                Ensures-mono (encrypt_slices slices (suc i) ps) _ _ _
                  (λ ds v (rest, same, silent). Ensures-pure _ v _ (
                    (
                      (
                        slice,
                        found,
                        record {
                          peer = refl;
                          env = w.env;
                          cipher = ap (λ (r : Result Bytes × H.Env). r.0) e;
                        },
                      ),
                      rest,
                    ),
                    same,
                    silent,
                  ))
                  (encrypt_slices_lem slices (suc i) ps (record w { env = env' }) rsa
                    (omega arith))))))

  -- Key generation, and Shamir's sharing, which makes as many slices as it is asked for.
  pub record Shares : Type 0 where
    pub generates :
        (t : String) (env : H.Env) → (keys : Bytes × Bytes) × ((H.generate t env).0 ≡ ok keys)
    pub shares :
        (n k : ℕ) (b : Bytes) (env : H.Env)
        → 0 < k
        → k ≤ n
        → (slices : List Bytes) × ((H.shamir_share n k b env).0 ≡ ok slices)
    pub size :
        (n k : ℕ) (b : Bytes) (env : H.Env) (slices : List Bytes)
        → (H.shamir_share n k b env).0 ≡ ok slices
        → length slices ≡ n

  -- What an answer is: a fresh key, whose private half is shared among the pinners of the request.
  pub record IsAnswer (item : ExecutorStoreItem) (request : TaskExecutionRequest) (w : World)
      (res : TaskExecutionResponse) : Type 0 where
    pub task : res.task_id ≡ request.task_id
    pub private_key : Bytes
    pub fresh : (H.generate request.key_type w.env).0 ≡ ok (res.p2_public_key, private_key)
    pub env : H.Env
    pub slices : List Bytes
    pub shared :
        (H.shamir_share
          (length request.initial_pinners)
          (as_u8 request.minimum_recovery_number)
          private_key
          env).0
        ≡ ok slices
    pub entries : AreSealed slices 0 request.initial_pinners res.initial_pinners
    pub asset : String
    pub joint :
        H.generate_multi_sig_asset item.task_info.exec_info.k
          (request.p1_public_key ∷ res.p2_public_key ∷ [])
          item.task_info.exec_info.task_type
        ≡ ok asset
    pub account : res.multi_sig_account ≡ as_bytes asset

  -- An account can be made of the request's key and any second one.
  abbrev pub Accounts : ExecutorStoreItem → TaskExecutionRequest → Type 0
  Accounts item request =
      (p2 : Bytes)
      → (asset : String) × (H.generate_multi_sig_asset item.task_info.exec_info.k
            (request.p1_public_key ∷ p2 ∷ []) item.task_info.exec_info.task_type
          ≡ ok asset)

  account_of :
      (p1 p2 : Bytes) (k : ℕ) (t asset : String)
      → H.generate_multi_sig_asset k (p1 ∷ p2 ∷ []) t ≡ ok asset
      → generate_multi_sig_account p1 p2 none k t ≡ ok (as_bytes asset)
  unfolding generate_multi_sig_account
  account_of p1 p2 k t asset h = rw (generate_multi_sig_account, h) refl

  answer_lem :
      (item : ExecutorStoreItem) (request : TaskExecutionRequest) (w : World)
      → Encrypts
      → Shares
      → Accounts item request
      → 0 < as_u8 request.minimum_recovery_number
      → as_u8 request.minimum_recovery_number ≤ length request.initial_pinners
      → length request.initial_pinners < 256
      → Ensures
          (generate_task_execution_response item request)
          w
          (λ res w'. IsAnswer item request w res × (w'.kv ≡ w.kv) × (w'.trace ≡ w.trace))
  unfolding generate_task_execution_response
  answer_lem item request w rsa crypto accounts pos enough small =
      let n = length request.initial_pinners in
      let k = as_u8 request.minimum_recovery_number in
      let cast : as_u8 n ≡ n = omega arith in
      Ensures-bind (ask (H.generate request.key_type)) _ w _ (
        Ensures-ask (H.generate request.key_type) w _ (λ _. crypto.generates request.key_type w.env)
          λ keys env1 fresh. rw cast (
            Ensures-bind (ask (H.shamir_share n k keys.1)) _ _ _ (
              Ensures-ask (H.shamir_share n k keys.1) _ _
                (λ _. crypto.shares n k keys.1 env1 pos enough)
                λ slices env2 shared.
                  let all_ = ap (λ (r : Result (List Bytes) × H.Env). r.0) shared in
                  let size = crypto.size n k keys.1 env1 slices all_ in
                  let (asset, made) = accounts keys.0 in
                  Ensures-bind (encrypt_slices slices 0 request.initial_pinners) _ _ _ (
                    Ensures-mono (encrypt_slices slices 0 request.initial_pinners) _ _ _
                      (λ entries v (sealed, same, silent). Ensures-bind (lift _) _ v _ (
                        Ensures-lift _ (as_bytes asset) v _ (account_of _ _ _ _ asset made) (
                          Ensures-pure _ v _ (
                            record {
                              task = refl;
                              private_key = keys.1;
                              fresh = ap (λ (r : Result (Bytes × Bytes) × H.Env). r.0) fresh;
                              env = env1;
                              slices = slices;
                              shared = all_;
                              entries = sealed;
                              asset = asset;
                              joint = made;
                              account = refl;
                            },
                            same,
                            silent,
                          ))))
                      (encrypt_slices_lem slices 0 request.initial_pinners (record w { env = env2 })
                        rsa (omega arith))))))

  -- An executor that is asked for a task with between k and 255 pinners, where k is not 0, answers without
  -- an error, writing and calling nothing: for the task of the request, with the public half of a fresh
  -- key, one entry for each pinner in order, which is the pinner's own slice of the private half under the
  -- pinner's RSA key, and the account, as bytes, that layer 1's scheme makes of the request's key and
  -- the fresh one, in this order, for the k and type of the stored task. Encryption and key generation succeed,
  -- sharing succeeds for 0 < k ≤ n and makes n slices, and the account can be made.
  pub generate_task_execution_response_total :
      (item : ExecutorStoreItem) (request : TaskExecutionRequest) (w : World)
      → IsReliable
      → Encrypts
      → Shares
      → Accounts item request
      → 0 < as_u8 request.minimum_recovery_number
      → as_u8 request.minimum_recovery_number ≤ length request.initial_pinners
      → length request.initial_pinners < 256
      → (res : TaskExecutionResponse) × (w' : World) × (generate_task_execution_response item
            request w
          ≡ (ok res, w'))
        × IsAnswer item request w res
        × (w'.kv ≡ w.kv)
        × (w'.trace ≡ w.trace)
  generate_task_execution_response_total item request w reliable rsa crypto accounts pos enough
        small =
      let run = answer_lem item request w rsa crypto accounts pos enough small in
      let (res, w', e) = run.returns reliable in
      let (answer, same, silent) = run.at res w' e in (res, w', e, answer, same, silent)
