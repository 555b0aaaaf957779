-- ===== src/Executor/Sign.antt =====
-- src/executor/sign.rs. `willing_to_run` and `check_capabilities` always allow the task.
pub mod Witness
use gluon_actor.Base.{
  Bool, true, not, String, ◌<>◌, List, [], ◌∷◌, Result, ok, err, Error, if◌then◌else◌,
}
use gluon_actor.Base.Bytes.{Bytes}
use gluon_actor.Proto.{GeneralMsg, SignCandidateRequest, TaskSignWithKeySlicesResponse}
use gluon_actor.Host.{
  Host, M, Event, Kind, Expiry, pure, lift, ask, perform, kvp_set, kvp_get_or, ◌>>=◌, ◌>>◌,
  binding_name,
}
use gluon_actor.Executor.StoreItem.{ExecutorStoreItem, StoreItemState, of_sign_candidate_request}
use gluon_actor.Executor.Store.{get, save}

abbrev pub prefix_sign_rsa_key : String
prefix_sign_rsa_key = "sign_rsa_key"

unfoldable pub get_rsa_encrypt_key : String → String
get_rsa_encrypt_key task_id = prefix_sign_rsa_key <> "_" <> task_id

abbrev willing_to_run : ExecutorStoreItem → Bool
willing_to_run _item = true

abbrev check_capabilities : ExecutorStoreItem → Result (Unit {0})
check_capabilities _item = ok tt

module _ ⦃H : Host⦄ where
  unfoldable pub decrypt_key_slice : String → Bytes → M Bytes
  decrypt_key_slice task_id key_slice_encrypted = do
    rsa_priv_key ←
        kvp_get_or Kind.text binding_name (get_rsa_encrypt_key task_id)
          (Error.rsa_key_missing task_id)
    key ← lift (H.rsa_key_to_bytes rsa_priv_key)
    lift (H.rsa_decrypt key key_slice_encrypted)

  unfoldable pub decrypt_key_slices : String → List Bytes → M (List Bytes)
  unfolding decrypt_key_slice
  decrypt_key_slices task_id [] = pure []
  decrypt_key_slices task_id (encrypted_key_slice ∷ rest) = do
    key_slice ← decrypt_key_slice task_id encrypted_key_slice
    key_slices ← decrypt_key_slices task_id rest
    pure (key_slice ∷ key_slices)

  unfoldable pub task_sign_with_key_slices_response_handler :
      TaskSignWithKeySlicesResponse → String → String → M (Unit {0})
  task_sign_with_key_slices_response_handler request peer_id reply_to = do
    stored ← get request.task_id
    let item : ExecutorStoreItem = record stored { state = StoreItemState.responded }
    save item
    key_slices ← decrypt_key_slices request.task_id request.encrypted_key_slices
    p2_private_key ← lift (H.shamir_recovery item.task_info.exec_info.k key_slices)
    p2_signature ← lift (H.sign request.key_type p2_private_key request.adhoc_data)
    witness ← lift (
        H.combine_to_witness item.task_info.exec_info.k [] (p2_signature ∷ [])
          item.task_info.exec_info.task_type)
    perform (
        Event.send_message peer_id request.task_id (
          GeneralMsg.task_commit_sign_result_request
            (record { task_id = request.task_id; witness = witness })))
    save (record item { state = StoreItemState.executed })
    perform (Event.response_reply reply_to "signed successfully")

  unfoldable pub send_sign_request : String → String → M (Unit {0})
  send_sign_request peer_id task_id = do
    rsa_key_pkcs1 ← ask H.generate_rsa_keypair
    kvp_set Kind.text binding_name (get_rsa_encrypt_key task_id) rsa_key_pkcs1.private_key
        (Expiry.seconds 6000)
    rsa_pub_key ← lift (H.rsa_key_to_bytes rsa_key_pkcs1.public_key)
    perform (
        Event.send_message peer_id task_id (
          GeneralMsg.task_sign_with_key_slices_request
            (record { task_id = task_id; rsa_pub_key = rsa_pub_key })))

  abbrev after_capabilities : String → ExecutorStoreItem → Result (Unit {0}) → M (Unit {0})
  after_capabilities peer_id store_item (err e) = pure tt
  after_capabilities peer_id store_item (ok _) = do
    save store_item
    send_sign_request peer_id store_item.task_info.task_id
    save (record store_item { state = StoreItemState.requested })

  unfoldable pub process_sign_with_key_slices_handler : String → SignCandidateRequest → M (Unit {0})
  process_sign_with_key_slices_handler peer_id req =
      let store_item : ExecutorStoreItem = of_sign_candidate_request req in
      if not (willing_to_run store_item)
      then pure tt
      else after_capabilities peer_id store_item (check_capabilities store_item)
