-- ===== src/Common/KeyGeneration.antt =====
-- src/common/key_generation.rs
pub mod Signature
use gluon_actor.Base.{
  ℕ, Bool, true, false, not, String, ◌<>◌, [], ◌∷◌, ◌++◌, Error, str_eq, if◌then◌else◌,
}
use gluon_actor.Base.Bytes.{Bytes, as_bytes, to_le_bytes}
use gluon_actor.Proto.{KeyGenerationCandidateRequest, GeneralMsg}
use gluon_actor.Common.TaskInfo.{TaskInfo}
use gluon_actor.Host.{
  Host, M, Event, Kind, Expiry, fail, lift, ask, perform, kvp_set, kvp_get_or, ◌>>=◌, ◌>>◌,
  binding_name,
}
use gluon_actor.Host.Callbacks.{got_delegator_profile, Role}

abbrev pub prefix_key_gen_rsa_key : String
prefix_key_gen_rsa_key = "key_gen_rsa_key"

unfoldable pub get_rsa_encrypt_key : String → String
get_rsa_encrypt_key task_id = prefix_key_gen_rsa_key <> "_" <> task_id

abbrev pub flag_byte : Bool → ℕ
flag_byte true = 1
flag_byte false = 0

unfoldable pub to_candidate_signature_bytes : String → ℕ → ℕ → String → Bytes → Bool → Bytes
to_candidate_signature_bytes task_id n k key_type delegator_ephemeral_id executor =
    as_bytes task_id
    ++ (to_le_bytes n
        ++ (to_le_bytes k
            ++ (as_bytes key_type ++ (delegator_ephemeral_id ++ (flag_byte executor ∷ [])))))

module _ ⦃H : Host⦄ where
  unfoldable pub send_key_candidate_request : String → TaskInfo → Bool → M (Unit {0})
  send_key_candidate_request peer_id task_info executor = do
    delegator_ephemeral_id ← lift H.get_my_ephemeral_id
    signature ← lift (
        H.sign_ed25519_message (
          to_candidate_signature_bytes task_info.task_id task_info.exec_info.n task_info.exec_info.k
            task_info.exec_info.task_type delegator_ephemeral_id executor))
    perform (
        Event.send_message peer_id task_info.task_id (
          GeneralMsg.key_generation_candidate_request (record {
            task_id = task_info.task_id;
            n = task_info.exec_info.n;
            k = task_info.exec_info.k;
            key_type = task_info.exec_info.task_type;
            delegator_ephemeral_id = delegator_ephemeral_id;
            executor = executor;
            signature = signature;
          })))

  unfoldable pub verify_to_candidate_signature :
      String → KeyGenerationCandidateRequest → Role → M (Unit {0})
  verify_to_candidate_signature peer_id req role = do
    valid ← lift (
        H.verify_ed25519_signature req.delegator_ephemeral_id
          (to_candidate_signature_bytes req.task_id req.n req.k req.key_type
            req.delegator_ephemeral_id req.executor)
          req.signature)
    if not valid
        then fail Error.invalid_signature
        else perform (
            Event.lookup_node_profile req.delegator_ephemeral_id
              (got_delegator_profile peer_id req role))

  -- The profile of the claimed delegator has arrived; `callback` is the closure of the caller.
  unfoldable pub on_delegator_profile : String → M (Unit {0}) → String → M (Unit {0})
  on_delegator_profile peer_id callback profile_peer_id =
      if not (str_eq peer_id profile_peer_id)
      then fail (Error.peer_mismatch profile_peer_id peer_id)
      else callback

  unfoldable pub send_key_generation_request : String → TaskInfo → Bool → M (Unit {0})
  send_key_generation_request peer_id task_info apply_executor = do
    rsa_key_pkcs1 ← ask H.generate_rsa_keypair
    kvp_set Kind.text binding_name (get_rsa_encrypt_key task_info.task_id) rsa_key_pkcs1.private_key
        (Expiry.seconds 6000)
    rsa_pub_key ← lift (H.rsa_key_to_bytes rsa_key_pkcs1.public_key)
    perform (
        Event.send_message peer_id task_info.task_id (
          GeneralMsg.task_key_generation_apply_request (record {
            task_id = task_info.task_id;
            rsa_pub_key = rsa_pub_key;
            apply_executor = apply_executor;
          })))

  unfoldable pub decrypt_key_slice : String → Bytes → M Bytes
  decrypt_key_slice task_id key_slice_encrypted = do
    rsa_priv_key ←
        kvp_get_or Kind.text binding_name (get_rsa_encrypt_key task_id)
          (Error.rsa_key_missing task_id)
    key ← lift (H.rsa_key_to_bytes rsa_priv_key)
    lift (H.rsa_decrypt key key_slice_encrypted)
