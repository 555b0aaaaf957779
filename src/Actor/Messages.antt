-- ===== src/Actor/Messages.antt =====
-- The broker messages that the actor is handed, for src/lib.rs: the routing by subject, and the decoding
-- before the dispatch.
pub mod Routes
use gluon_actor.Base.{
  Bool, true, false, ◌&&◌, ◌||◌, String, ◌<>◌, Option, none, some, List, [], ◌∷◌, Result, ok, err,
  Error, ok_or, if◌then◌else◌, str_eq,
}
use gluon_actor.Base.Bytes.{Bytes}
use gluon_actor.Base.Text.{split}
use gluon_actor.Proto.{
  BrokerMessage, GeneralMsg, Request, ChallangeStoreItem, ServerCheckStrategyResult,
}
use gluon_actor.Host.{Host, World, M, Event, pure, lift, ask, perform, ◌>>=◌, ◌>>◌}
use gluon_actor.Host.Callbacks.{Callback, Answer}
use gluon_actor.Delegator.DumpMethods
use gluon_actor.Portal
use gluon_actor.Actor.{dispatch_p2p, operation_after_verify, check_strategy, resume}

abbrev pub my_actor_name : String
my_actor_name = "gluon"

abbrev pub pinner_actor_name : String
pinner_actor_name = "pinner"

-- The arms of the match on a subject.
pub data Route : Type 0 where
  p2p_message : String → Route
  operation_verified strategy_check : Route
  key_generation_requested signature_requested asset_generated : Route
  callback_result : String → Route
  debug_key_gen debug_sign ignored : Route

-- The arms with four parts, in order; the last two are there in a build with the feature "dev".
unfoldable pub route_four : Bool → String → String → String → String → Route
route_four is_dev a b c d =
    if str_eq a "ipfs" && (str_eq b "p2p" && str_eq c "listen")
    then p2p_message d
    else if str_eq a "actor"
        && (str_eq b pinner_actor_name
            && (str_eq c "event" && str_eq d "client_operation_after_verify"))
    then operation_verified
    else if str_eq a "actor"
        && (str_eq b pinner_actor_name && (str_eq c "event" && str_eq d "server_check_strategy"))
    then strategy_check
    else if str_eq a "layer1" && (str_eq b "event" && str_eq d "AccountGenerationRequested")
    then key_generation_requested
    else if str_eq a "layer1" && (str_eq b "event" && str_eq d "SignTransactionRequested")
    then signature_requested
    else if str_eq a "layer1" && (str_eq b "event" && str_eq d "AssetGenerated")
    then asset_generated
    else if str_eq a "actor" && (str_eq b my_actor_name && str_eq c "inbox")
    then callback_result d
    else if is_dev
        && (str_eq a "internal"
            && (str_eq b "op" && (str_eq c "debug" && str_eq d "key_gen_response_message")))
    then debug_key_gen
    else if is_dev
        && (str_eq a "internal"
            && (str_eq b "op" && (str_eq c "debug" && str_eq d "generate_sign_response")))
    then debug_sign
    else ignored

unfoldable pub route : Bool → List String → Route
unfolding route_four
route is_dev (a ∷ b ∷ c ∷ d ∷ []) = route_four is_dev a b c d
route is_dev (a ∷ b ∷ c ∷ []) =
    if str_eq a "reply" && str_eq b my_actor_name then callback_result c else ignored
route is_dev _ = ignored

-- The text beside the verdict.
abbrev verdict_text : Bool → String
verdict_text true = "passed"
verdict_text false = "88:src/lib.rs item not found in delegator"

module _ ⦃H : Host⦄ where
  unfoldable pub pinner_server_check_strategy : BrokerMessage → M (Unit {0})
  pinner_server_check_strategy msg = do
    item ← lift (H.decode_server_check_strategy msg.body)
    verify ← lift (check_strategy item)
    body ← lift (
        H.encode_protobuf (
          Request.server_check_strategy_result
            (record { verify = verify; message = verdict_text verify })))
    perform (Event.response_reply_body msg.reply_to body)

  unfoldable pub pinner_client_operation_after_verify : BrokerMessage → M (Unit {0})
  pinner_client_operation_after_verify msg = do
    res ← lift (H.decode_client_operation_after_verify msg.body)
    operation_after_verify res.peer_id res.pinner_ephemeral_id res.item

  abbrev pub run_closure : Option (GeneralMsg × String × String) → M (Unit {0})
  run_closure none = pure tt
  run_closure (some (g_msg, from_peer_id, reply_to)) = dispatch_p2p g_msg from_peer_id reply_to

  unfoldable pub listen_p2p_message : String → BrokerMessage → M (Unit {0})
  listen_p2p_message from_peer_id msg = do
    call ← ask (H.listen_message from_peer_id msg)
    run_closure call

  abbrev pub run_callback : Option ((c : Callback) × Answer c) → M (Unit {0})
  run_callback none = pure tt
  run_callback (some (c, answer)) = resume c answer

  -- `action::result_handler`, with the callback that it runs.
  unfoldable pub result_handler : BrokerMessage → String → M (Unit {0})
  result_handler msg uuid = do call ← ask (H.result_handler msg uuid); run_callback call

  unfoldable pub handle : Route → BrokerMessage → M (Unit {0})
  unfolding listen_p2p_message pinner_client_operation_after_verify pinner_server_check_strategy
      result_handler
  handle (p2p_message from_peer_id) msg = listen_p2p_message from_peer_id msg
  handle operation_verified msg = pinner_client_operation_after_verify msg
  handle strategy_check msg = pinner_server_check_strategy msg
  handle key_generation_requested msg = Portal.key_generation_request_handler msg.body
  handle signature_requested msg = Portal.sign_with_key_slices_handler msg.body
  handle asset_generated msg = Portal.asset_generated_event_handler msg.body
  handle (callback_result uuid) msg = result_handler msg uuid
  handle debug_key_gen msg = DumpMethods.generate_key_gen_response_message msg
  handle debug_sign msg = DumpMethods.generate_sign_response_message msg
  handle ignored msg = pure tt

  unfoldable pub handle_message : BrokerMessage → M (Unit {0})
  unfolding handle
  handle_message msg = handle (route H.is_dev (split b'.' msg.subject)) msg

  abbrev pub health : M (Unit {0})
  health = pure tt
