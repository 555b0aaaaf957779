-- ===== src/Common/Utils.antt =====
-- src/common/utils.rs. The callback of `invite_candidate_executors` is split off as `on_delegates`; the
-- closures that it captures are the `Invite`, which the modules that run callbacks read.
use gluon_actor.Base.{String, List, [], ◌∷◌, map}
use gluon_actor.Base.Bytes.{Bytes, as_bytes}
use gluon_actor.Base.HashMap.{HashMap}
use gluon_actor.Proto.{Request, Delegate}
use gluon_actor.Common.TaskInfo.{TaskInfo}
use gluon_actor.Common.Properties.{from_hash_map}
use gluon_actor.Host.{Host, M, Event, pure, lift, perform, ◌>>=◌, ◌>>◌}
use gluon_actor.Host.Callbacks.{logged, got_delegates, got_delegate_profile, Invite}

module _ ⦃H : Host⦄ where
  -- A `for` loop whose body may fail.
  unfoldable pub for_each : {A : Type 0} → (A → M (Unit {0})) → List A → M (Unit {0})
  for_each body [] = pure tt
  for_each body (x ∷ xs) = do body x; for_each body xs

  unfoldable pub send_ra_request : String → HashMap String → M (Unit {0})
  send_ra_request peer_id properties = do
    body ← lift (H.encode_protobuf (Request.peer_approve_ra peer_id (from_hash_map properties)))
    perform (Event.call_async_intercom "actor.pinner.intercom.request_peer_approve_ra" body logged)

  unfoldable pub invite_candidate_executors : TaskInfo → Invite → M (Unit {0})
  invite_candidate_executors task_info invite = do
    request ← lift (H.encode_protobuf (Request.get_delegates 0 task_info.exec_info.n))
    perform (
        Event.call "layer1.async.reply.get_delegates" (as_bytes (H.base64_encode request))
          (got_delegates task_info invite))

  -- Layer 1 has answered with the body; `callback` is the second closure.
  unfoldable pub on_delegates :
      TaskInfo → Invite → (TaskInfo → List String → M (Unit {0})) → Bytes → M (Unit {0})
  unfolding for_each
  on_delegates task_info invite callback body = do
    text ← lift (H.from_utf8 body)
    decoded ← lift (H.base64_decode text)
    delegates ← lift (H.decode_delegates decoded)
    for_each
        (λ (v : Delegate).
          perform
            (Event.lookup_node_profile_by_tea_id v.tea_id (got_delegate_profile task_info invite)))
        delegates
    callback task_info (map (λ (v : Delegate). v.peer_id) delegates)
