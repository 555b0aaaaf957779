-- ===== src/Host.antt =====
-- What the actor calls outside the repository (the tea_actor_utility, wascc and base64 crates), as a
-- parameter, and the monad in which the handlers run. A handler reads and writes the key-value
-- provider, makes outward calls, which are recorded in the order in which they are made, and may fail;
-- what was done before a failure stays done. A callback that waits for an answer is a value that holds
-- what the closure of the source captures.
pub mod Callbacks
pub mod Rules
use gluon_actor.Base.{
  ℕ, Bool, String, Option, none, some, List, [], ◌∷◌, ◌++◌, Result, ok, err, Error, ok_or,
}
use gluon_actor.Base.Bytes.{Bytes}
use gluon_actor.Proto.{
  GeneralMsg, Request, ChallangeStoreItem, ClientOperationAfterVerify, BrokerMessage, Delegate,
  KeyGenerationResponse, SignTransactionResponse, AssetGeneratedResponse,
}
use gluon_actor.Delegator.KeyGen.StoreItem.{DelegatorKeyGenStoreItem}
use gluon_actor.Delegator.Sign.StoreItem.{DelegatorSignStoreItem}
use gluon_actor.Executor.StoreItem.{ExecutorStoreItem}
use gluon_actor.InitialPinner.StoreItem.{InitialPinnerStoreItem}
use Callbacks.{Callback, Answer}

-- The types of the values that the actor stores.
pub data Kind : Type 0 where
  key_gen_item sign_item executor_item initial_pinner_item text deployment_ids : Kind

abbrev pub Stored : Kind → Type 0
Stored key_gen_item = DelegatorKeyGenStoreItem
Stored sign_item = DelegatorSignStoreItem
Stored executor_item = ExecutorStoreItem
Stored initial_pinner_item = InitialPinnerStoreItem
Stored text = String
Stored deployment_ids = List String

-- `set_forever`, or `set` with a number of seconds.
pub data Expiry : Type 0 where
  forever : Expiry
  seconds : ℕ → Expiry

pub data P2pReplyType : Type 0 where
  rejected : P2pReplyType

-- The outward calls. `respond_error` is `log_and_response_with_error`, whose text names the error.
pub data Event : Type 0 where
  send_message : String → String → GeneralMsg → Event
  response_reply : String → String → Event
  response_reply_body : String → Bytes → Event
  response_reply_to : String → String → Event
  response_p2p : String → String → String → String → P2pReplyType → Event
  respond_error : String → String → String → Error → Event
  close_p2p : String → Event
  call : String → Bytes → Callback → Event
  call_async_intercom : String → Bytes → Callback → Event
  lookup_node_profile : Bytes → Callback → Event
  lookup_node_profile_by_tea_id : Bytes → Callback → Event
  get_deployment_info : String → Callback → Event
  is_node_ready : Callback → Event

pub record Host : Type 1 where
  pub Kv : Type 0
  pub Env : Type 0
  -- the build has the feature "dev"
  pub is_dev : Bool
  -- actor_kvp, by the binding's name and the key
  pub kvp_get : (t : Kind) → String → String → Kv → Result (Option (Stored t))
  pub kvp_set : (t : Kind) → String → String → Stored t → Expiry → Kv → Result (Unit {0}) × Kv
  -- the outcome of an outward call
  pub perform : Event → Env → Result (Unit {0}) × Env
  -- base64, UTF-8, protobuf and tea_codec
  pub base64_encode : Bytes → String
  pub base64_decode : String → Result Bytes
  pub from_utf8 : Bytes → Result String
  pub encode_protobuf : Request → Result Bytes
  pub decode_delegates : Bytes → Result (List Delegate)
  pub decode_deployment_ids : Bytes → Result (List String)
  pub decode_key_generation : Bytes → Result KeyGenerationResponse
  pub decode_sign_transaction : Bytes → Result SignTransactionResponse
  pub decode_asset_generated : Bytes → Result AssetGeneratedResponse
  pub decode_server_check_strategy : Bytes → Result (Option ChallangeStoreItem)
  pub decode_client_operation_after_verify : Bytes → Result ClientOperationAfterVerify
  pub deserialize_key : Bytes → Result (Option Bytes)
  pub serialize_as_much_as_possible : Result Bytes
  -- actor_env, actor_util and actor_crypto
  pub get_my_ephemeral_id : Result Bytes
  pub sign_ed25519_message : Bytes → Result Bytes
  pub verify_ed25519_signature : Bytes → Bytes → Bytes → Result Bool
  pub sha256 : Bytes → Result Bytes
  pub rsa_decrypt : Bytes → Bytes → Result Bytes
  pub rsa_key_to_bytes : String → Result Bytes
  pub aes_encrypt : Bytes → Bytes → Result Bytes
  pub aes_decrypt : Bytes → Bytes → Result Bytes
  pub shamir_recovery : ℕ → List Bytes → Result Bytes
  pub sign : String → Bytes → Bytes → Result Bytes
  pub generate_multi_sig_asset : ℕ → List Bytes → String → Result String
  pub combine_to_witness : ℕ → List Bytes → List Bytes → String → Result Bytes
  -- the calls whose result is not a function of their arguments
  pub ipfs_swarm_peers : Env → Result (List String) × Env
  pub ipfs_block_put : Bytes → Env → Result String × Env
  pub ipfs_block_get : String → Env → Result Bytes × Env
  -- `ipfs_p2p::listen_message` and `action::result_handler`: the call of the closure, or of the
  -- registered callback, that they make, if any
  pub listen_message :
      String → BrokerMessage → Env → Result (Option (GeneralMsg × String × String)) × Env
  pub result_handler :
      BrokerMessage → String → Env → Result (Option ((c : Callback) × Answer c)) × Env
  pub get_uuid : Env → String × Env
  pub get_random : ℕ → ℕ → Env → Result ℕ × Env
  pub get_guid : Env → Result String × Env
  pub generate_rsa_keypair :
      Env → Result (record { public_key : String; private_key : String }) × Env
  pub generate_aes_key : Env → Result Bytes × Env
  pub rsa_encrypt : Bytes → Bytes → Env → Result Bytes × Env
  pub generate : String → Env → Result (Bytes × Bytes) × Env
  pub shamir_share : ℕ → ℕ → Bytes → Env → Result (List Bytes) × Env

module _ ⦃H : Host⦄ where
  pub record World : Type 0 where
    pub kv : H.Kv
    pub env : H.Env
    pub trace : List Event

  abbrev pub M : Type 0 → Type 0
  M A = World → Result A × World

  abbrev pub pure : {A : Type 0} → A → M A
  pure a w = (ok a, w)

  abbrev pub fail : {A : Type 0} → Error → M A
  fail e w = (err e, w)

  abbrev pub lift : {A : Type 0} → Result A → M A
  lift r w = (r, w)

  abbrev pub continue : {A B : Type 0} → Result A → (A → M B) → M B
  continue (ok a) f w = f a w
  continue (err e) f w = (err e, w)

  infixl 5 ◌>>=◌ ◌>>◌
  unfoldable pub ◌>>=◌ : {A B : Type 0} → M A → (A → M B) → M B
  ◌>>=◌ m f w = let (r, w') = m w in continue r f w'

  abbrev pub ◌>>◌ : {B : Type 0} → M (Unit {0}) → M B → M B
  m >> k = m >>= λ _. k

  -- `match` on the outcome of a call.
  abbrev pub choose : {A B : Type 0} → Result A → (A → M B) → (Error → M B) → M B
  choose (ok a) f g w = f a w
  choose (err e) f g w = g e w

  unfoldable pub on_result : {A B : Type 0} → M A → (A → M B) → (Error → M B) → M B
  on_result m f g w = let (r, w') = m w in choose r f g w'

  -- An outward call.
  unfoldable pub perform : Event → M (Unit {0})
  perform e w =
      let (r, env') = H.perform e w.env in (r, record w { env = env'; trace = w.trace ++ (e ∷ []) })

  -- A library call whose result depends on the environment.
  unfoldable pub ask : {A : Type 0} → (H.Env → Result A × H.Env) → M A
  ask f w = let (r, env') = f w.env in (r, record w { env = env' })

  unfoldable pub kvp_get : (t : Kind) → String → String → M (Option (Stored t))
  kvp_get t binding key w = (H.kvp_get t binding key w.kv, w)

  unfoldable pub kvp_set : (t : Kind) → String → String → Stored t → Expiry → M (Unit {0})
  kvp_set t binding key v expiry w =
      let (r, kv') = H.kvp_set t binding key v expiry w.kv in (r, record w { kv = kv' })

  -- `actor_kvp::get(..)?.ok_or(e)`
  unfoldable pub kvp_get_or : (t : Kind) → String → String → Error → M (Stored t)
  kvp_get_or t binding key e = do found ← kvp_get t binding key; lift (ok_or found e)

abbrev pub binding_name : String
binding_name = "tea_gluon"
