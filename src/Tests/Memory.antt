-- ===== src/Tests/Memory.antt =====
-- A host that runs in memory: a map for the key-value provider, transparent cryptography, and outward
-- calls that succeed. The test data and the examples run on it.
use gluon_actor.Base.{
  List, arith, ◌≡◌, ◌≢◌, refl, ap, ◌∙◌, Bool, true, false, String, Option, none, some, [], ◌∷◌,
  Result, ok, err, Error, if◌then◌else◌, Bool-cases, inl, inr, str_eq, eq_iff, length, zero, suc, ℕ,
  sym,
}
use gluon_actor.Base.Bytes.{Bytes, as_bytes, eq_bytes}
use gluon_actor.Base.HashMap
use gluon_actor.Base.HashMap.{HashMap, get-insert}
use gluon_actor.Host.{Host, World, Kind, Stored}
use gluon_actor.Proto.{GeneralMsg, SignCandidateRequest}
use gluon_actor.Storage.Filed.{IsAtomic}
use gluon_actor.Executor.KeyGen.Slices.{Encrypts, Shares}
use gluon_actor.Host.Rules.{IsLawful, IsReliable}

pub data Value : Type 0 where
  value : (t : Kind) → Stored t → Value

abbrev pub decode : (t : Kind) → Value → Result (Option (Stored t))
decode Kind.key_gen_item (value Kind.key_gen_item v) = ok (some v)
decode Kind.sign_item (value Kind.sign_item v) = ok (some v)
decode Kind.executor_item (value Kind.executor_item v) = ok (some v)
decode Kind.initial_pinner_item (value Kind.initial_pinner_item v) = ok (some v)
decode Kind.text (value Kind.text v) = ok (some v)
decode Kind.deployment_ids (value Kind.deployment_ids v) = ok (some v)
decode _ _ = err (Error.external "codec")

abbrev pub decode_found : (t : Kind) → Option Value → Result (Option (Stored t))
decode_found t none = ok none
decode_found t (some v) = decode t v

abbrev pub unsupported : {A : Type 0} → Result A
unsupported = err (Error.external "unsupported")

-- Sharing that gives everybody the whole.
abbrev pub copies : ℕ → Bytes → List Bytes
copies zero b = []
copies (suc n) b = b ∷ copies n b

-- The message that the host hears.
abbrev pub sign_request : SignCandidateRequest
sign_request = record {
  task_id = "Ag==";
  multi_sig_account = [];
  n = 2;
  k = 1;
  task_type = "bitcoin";
}

abbrev pub memory : Host
memory = record {
  Kv = HashMap Value;
  Env = Unit {0};
  is_dev = false;
  kvp_get = λ t b k kv. decode_found t (HashMap.get kv k);
  kvp_set = λ t b k v x kv. (ok tt, HashMap.insert k (value t v) kv);
  perform = λ e env. (ok tt, env);
  base64_encode = λ b. "Aw==";
  base64_decode = λ s. ok (3 ∷ []);
  from_utf8 = λ b. ok "text";
  encode_protobuf = λ r. ok [];
  decode_delegates = λ b. ok [];
  decode_deployment_ids = λ b. ok [];
  decode_key_generation = λ b. unsupported;
  decode_sign_transaction = λ b. unsupported;
  decode_asset_generated = λ b. unsupported;
  decode_server_check_strategy = λ b. ok none;
  decode_client_operation_after_verify = λ b. unsupported;
  deserialize_key = λ b. ok (some b);
  serialize_as_much_as_possible = ok [];
  get_my_ephemeral_id = ok (1 ∷ []);
  sign_ed25519_message = λ b. ok b;
  verify_ed25519_signature = λ k m s. ok (eq_bytes m s);
  sha256 = λ b. ok b;
  rsa_decrypt = λ k b. ok b;
  rsa_key_to_bytes = λ k. ok (as_bytes k);
  aes_encrypt = λ k b. ok b;
  aes_decrypt = λ k b. ok b;
  shamir_recovery = λ k slices. ok [];
  sign = λ t k b. ok b;
  generate_multi_sig_asset = λ k keys t. ok "account";
  combine_to_witness = λ k keys sigs t. ok [];
  ipfs_swarm_peers = λ env. (ok ("A" ∷ "B" ∷ "C" ∷ []), env);
  ipfs_block_put = λ b env. (ok "cid", env);
  ipfs_block_get = λ c env. (ok (3 ∷ []), env);
  listen_message = λ peer_id msg env.
      (ok (some (GeneralMsg.sign_candidate_request sign_request, peer_id, msg.reply_to)), env);
  result_handler = λ msg uuid env. (ok none, env);
  get_uuid = λ env. ("uuid", env);
  get_random = λ low high env. (ok 7, env);
  get_guid = λ env. (ok "guid", env);
  generate_rsa_keypair =
      λ env. (ok (record { public_key = "public"; private_key = "private" }), env);
  generate_aes_key = λ env. (ok [], env);
  rsa_encrypt = λ k b env. (ok b, env);
  generate = λ t env. (ok ([], []), env);
  shamir_share = λ n k b env. (ok (copies n b), env);
}

eq_true : (k : String) → str_eq k k ≡ true
eq_true k = (eq_iff k k).1 refl

eq_false : (k j : String) → k ≢ j → str_eq k j ≡ false
eq_false k j ne = elim (Bool-cases (str_eq k j)) [
  | inl t ↦ absurd (ne ((eq_iff k j).0 t))
  | inr f ↦ f
]

decode_value : (t : Kind) (v : Stored t) → decode t (value t v) ≡ ok (some v)
decode_value Kind.key_gen_item v = refl
decode_value Kind.sign_item v = refl
decode_value Kind.executor_item v = refl
decode_value Kind.initial_pinner_item v = refl
decode_value Kind.text v = refl
decode_value Kind.deployment_ids v = refl

pub memory-IsLawful : IsLawful ⦃H = memory⦄
memory-IsLawful = record {
  get-set_self = λ t b k v x kv _.
      ap (decode_found t) (
        get-insert k (value t v) kv k
        ∙ ap (λ (c : Bool). if c then some (value t v) else HashMap.get kv k) (eq_true k))
      ∙ decode_value t v;
  get-set_ne = λ t u b k j v x kv ne. ap (decode_found u) (
      get-insert k (value t v) kv j
      ∙ ap (λ (c : Bool). if c then some (value t v) else HashMap.get kv j) (eq_false k j ne));
}

pub memory-IsAtomic : IsAtomic ⦃H = memory⦄
memory-IsAtomic = record { get-set_refused = λ t b k v x kv e refused. absurd (accepted e refused) }
  where
    accepted : (e : Error) → ◌≡◌ {A = Result (Unit {0})} (ok tt) (err e) → ⊥
    accepted e p = cc

pub memory-IsReliable : IsReliable ⦃H = memory⦄
memory-IsReliable = record { performs = λ e env. refl; sets = λ t b k v x kv. refl }

-- The world that holds one value.
abbrev pub world_with : (t : Kind) → String → Stored t → World ⦃H = memory⦄
world_with t k v = record { kv = (k, value t v) ∷ []; env = tt; trace = [] }

eq_bytes_refl : (m : Bytes) → eq_bytes m m ≡ true
unfolding eq_bytes
eq_bytes_refl [] = refl
eq_bytes_refl (x ∷ m) = rw (eq_bytes_refl m) (ground arith)

-- What was signed verifies.
pub memory-verifies :
    (m s : Bytes)
    → ◌≡◌ {A = Result Bytes} (ok m) (ok s)
    → ◌≡◌ {A = Result Bool} (ok (eq_bytes m s)) (ok true)
memory-verifies m s e =
    let same : m ≡ s = cc e in rw same (ap (λ (b : Bool). ok b) (eq_bytes_refl s))

length-copies : (n : ℕ) (b : Bytes) → length (copies n b) ≡ n
length-copies zero b = refl
length-copies (suc n) b = omega (arith, length-copies n b)

pub memory-Encrypts : Encrypts ⦃H = memory⦄
unfolding Encrypts
memory-Encrypts key b env = (b, refl)

pub memory-Shares : Shares ⦃H = memory⦄
memory-Shares = record {
  generates = λ t env. (([], []), refl);
  shares = λ n k b env pos enough. (copies n b, refl);
  size = λ n k b env slices e.
      let same : copies n b ≡ slices = cc e in
      ap (length {A = Bytes}) (sym same) ∙ length-copies n b;
}
