-- ===== src/Portal.antt =====
-- src/portal/layer1_events.rs
use gluon_actor.Base.{Bool, not, if◌then◌else◌}
use gluon_actor.Base.Bytes.{Bytes}
use gluon_actor.Host.{Host, M, Event, pure, lift, perform, ◌>>=◌, ◌>>◌}
use gluon_actor.Host.Callbacks.{ready_for_key_generation, ready_for_signing}
use gluon_actor.InitialPinner.Handlers.{update_conflict_list, trying_commit_data_upload}
use gluon_actor.Delegator.Handler.{process_key_generation_event, process_sign_with_key_slices_event}

module _ ⦃H : Host⦄ where
  -- `base64::decode(String::from_utf8(msg.body.clone())?)?`
  unfoldable pub decode_body : Bytes → M Bytes
  decode_body body = do text ← lift (H.from_utf8 body); lift (H.base64_decode text)

  unfoldable pub key_generation_request_handler : Bytes → M (Unit {0})
  unfolding decode_body
  key_generation_request_handler body = do
    decoded ← decode_body body
    perform (Event.is_node_ready (ready_for_key_generation decoded))

  unfoldable pub on_ready_for_key_generation : Bytes → Bool → M (Unit {0})
  on_ready_for_key_generation decoded ready =
      if not ready
      then pure tt
      else do res ← lift (H.decode_key_generation decoded); process_key_generation_event res

  unfoldable pub sign_with_key_slices_handler : Bytes → M (Unit {0})
  unfolding decode_body
  sign_with_key_slices_handler body = do
    decoded ← decode_body body
    perform (Event.is_node_ready (ready_for_signing decoded))

  unfoldable pub on_ready_for_signing : Bytes → Bool → M (Unit {0})
  on_ready_for_signing decoded ready =
      if not ready
      then pure tt
      else do res ← lift (H.decode_sign_transaction decoded); process_sign_with_key_slices_event res

  unfoldable pub asset_generated_event_handler : Bytes → M (Unit {0})
  unfolding decode_body
  asset_generated_event_handler body = do
    decoded ← decode_body body
    res ← lift (H.decode_asset_generated decoded)
    update_conflict_list res.multi_sig_account res.p2_deployment_ids
    trying_commit_data_upload (H.base64_encode res.task_id) res.multi_sig_account
