-- ===== src/Delegator/DumpMethods.antt =====
-- src/delegator/dump_methods.rs: the messages of layer 1 that a build with the feature "dev" makes up for
-- a developer.
use gluon_actor.Base.{String, Option, List, [], ◌∷◌, Result, ok, err, Error, ok_or}
use gluon_actor.Base.Bytes.{Bytes, as_bytes, to_le_bytes}
use gluon_actor.Base.Text.{split}
use gluon_actor.Proto.{BrokerMessage, Request}
use gluon_actor.Host.{
  Host, M, Event, Kind, Expiry, lift, ask, perform, kvp_get, kvp_set, ◌>>=◌, ◌>>◌, binding_name,
}
use gluon_actor.Host.Callbacks.{Operation, got_delegator_pub_key}

abbrev pub deployment_ids_key : String
deployment_ids_key = "predefined deployments ids"

-- `params[0]`, `params[1]` and the rest; an index out of range panics.
abbrev params_of : List String → Result (String × String × List String)
params_of (key_type ∷ multi_sig_account ∷ deployment_ids) =
    ok (key_type, multi_sig_account, deployment_ids)
params_of _ = err Error.panic

module _ ⦃H : Host⦄ where
  -- A library call that cannot fail.
  abbrev draw : {A : Type 0} → (H.Env → A × H.Env) → H.Env → Result A × H.Env
  draw f env = let (a, env') = f env in (ok a, env')

  unfoldable pub get_deployment_ids : M (Option (List String))
  get_deployment_ids = kvp_get Kind.deployment_ids binding_name deployment_ids_key

  unfoldable pub delegator_key_operation : String → Operation → M (Unit {0})
  delegator_key_operation reply_to operation = perform (
      Event.call_async_intercom "actor.pinner.intercom.get_delegator_pub_key" []
        (got_delegator_pub_key reply_to operation))

  unfoldable pub generate_sign_response_message : BrokerMessage → M (Unit {0})
  unfolding delegator_key_operation
  generate_sign_response_message msg = do
    message ← lift (H.from_utf8 msg.body)
    (key_type, multi_sig_account, deployment_ids) ← lift (params_of (split b',' message))
    kvp_set Kind.deployment_ids binding_name deployment_ids_key deployment_ids (Expiry.seconds 6000)
    delegator_key_operation msg.reply_to
        (Operation.sign_message key_type (as_bytes multi_sig_account))

  unfoldable pub generate_key_gen_response_message : BrokerMessage → M (Unit {0})
  unfolding delegator_key_operation
  generate_key_gen_response_message msg = do
    key_type ← lift (H.from_utf8 msg.body)
    delegator_key_operation msg.reply_to (Operation.key_gen_message key_type)

  -- The two closures that are handed to `delegator_key_operation`.
  unfoldable pub operate : Operation → Bytes → Bytes → M String
  operate (Operation.sign_message key_type multi_sig_account) nonce_hash nonce_encryption = do
    keys ← ask (H.generate key_type)
    p1_signature ← lift (H.sign key_type keys.1 (as_bytes "hello world!"))
    task_id ← ask (draw H.get_uuid)
    body ← lift (
        H.encode_protobuf (
          Request.sign_transaction_response (record {
            task_id = as_bytes task_id;
            data_adhoc = record {
              transaction_data = as_bytes "hello world!";
              delegator_tea_nonce_hash = nonce_hash;
              delegator_tea_nonce_rsa_encryption = nonce_encryption;
            };
            p1_signature = p1_signature;
            multi_sig_account = multi_sig_account;
          })))
    lift (ok (H.base64_encode body))
  operate (Operation.key_gen_message key_type) nonce_hash nonce_encryption = do
    keys ← ask (H.generate key_type)
    task_id ← ask (draw H.get_uuid)
    body ← lift (
        H.encode_protobuf (
          Request.key_generation_response (record {
            task_id = as_bytes task_id;
            data_adhoc = record {
              n = 2;
              k = 1;
              key_type = key_type;
              delegator_tea_nonce_hash = nonce_hash;
              delegator_tea_nonce_rsa_encryption = nonce_encryption;
            };
            p1_public_key = keys.0;
          })))
    lift (ok (H.base64_encode body))

  -- The callback of `delegator_key_operation`, with the pinner actor's answer.
  unfoldable pub on_delegator_pub_key : String → Operation → Bytes → M (Unit {0})
  unfolding operate
  on_delegator_pub_key reply_to operation body = do
    found ← lift (H.deserialize_key body)
    pub_key ← lift (ok_or found Error.delegator_key_missing)
    nonce ← ask (H.get_random 0 4294967295)
    nonce_hash ← lift (H.sha256 (to_le_bytes nonce))
    nonce_encryption ← ask (H.rsa_encrypt pub_key (to_le_bytes nonce))
    content ← operate operation nonce_hash nonce_encryption
    perform (Event.response_reply_to reply_to content)
