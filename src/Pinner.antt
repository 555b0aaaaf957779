-- ===== src/Pinner.antt =====
-- src/pinner/handler.rs
use gluon_actor.Base.{String, Option, Error, ok_or}
use gluon_actor.Base.Bytes.{Bytes}
use gluon_actor.Proto.{GeneralMsg, TaskSignGetPinnerKeySliceRequest}
use gluon_actor.Host.{Host, M, Event, lift, ask, perform, ◌>>=◌, ◌>>◌}
use gluon_actor.Host.Callbacks.{got_deployment_info}

module _ ⦃H : Host⦄ where
  unfoldable pub task_sign_with_key_slices_request_handler :
      TaskSignGetPinnerKeySliceRequest → String → String → M (Unit {0})
  task_sign_with_key_slices_request_handler req peer_id reply_to =
      perform
        (Event.get_deployment_info req.deployment_id (got_deployment_info req peer_id reply_to))

  -- The callback, with the CID of the data and the AES key of the deployment.
  unfoldable pub on_deployment_info :
      TaskSignGetPinnerKeySliceRequest
      → String
      → String
      → Option String
      → Option Bytes
      → M (Unit {0})
  on_deployment_info req peer_id reply_to data_cid key1 = do
    key ← lift (ok_or key1 (Error.key1_missing req.deployment_id))
    cid ← lift (ok_or data_cid (Error.key1_missing req.deployment_id))
    stored_slice ← ask (H.ipfs_block_get cid)
    key_slice ← lift (H.aes_decrypt key stored_slice)
    encrypted_key_slice ← ask (H.rsa_encrypt req.rsa_pub_key key_slice)
    perform (
        Event.send_message peer_id req.task_id (
          GeneralMsg.task_sign_get_pinner_key_slice_response (record {
            task_id = req.task_id;
            encrypted_key_slice = encrypted_key_slice;
            deployment_id = req.deployment_id;
          })))
    perform (Event.response_reply reply_to "key slice returned")
