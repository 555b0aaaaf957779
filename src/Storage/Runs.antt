-- ===== src/Storage/Runs.antt =====
-- Runs of the actor of src/lib.rs: broker messages one after the other, whatever each returns, and what
-- happens outside in between.
use gluon_actor.Base.{◌≡◌, ◌∙◌, sym, ap, refl, String, some, List, [], ◌∷◌, All}
use gluon_actor.Proto.{GeneralMsg, BrokerMessage}
use gluon_actor.Host.{Host, World, Kind, binding_name}
use gluon_actor.Host.Rules.{IsLawful}
use gluon_actor.Actor.{dispatch_p2p}
use gluon_actor.Actor.Messages.{handle_message}
use gluon_actor.Storage.Keys.{Family, key_of}
use gluon_actor.Storage.Tasks.{IsTaskFamily}
use gluon_actor.Storage.Dispatch.{task_of}
use gluon_actor.Storage.Filed.{
  Filed, IsAtomic, handle_message-Filed, dispatch_p2p-Filed, dispatch_p2p-Isolated, key_of-other,
}

-- A message of another node, with its sender and the address of the reply.
pub record Delivery : Type 0 where
  pub msg : GeneralMsg
  pub from_peer_id : String
  pub reply_to : String

module _ ⦃H : Host⦄ where
  -- The worlds that a run leads to. Between two messages the environment may change in any way.
  pub data Leads : World → World → Type 0 where
    here : {w : World} → Leads w w
    handled :
        {w w' : World} (msg : BrokerMessage) (env : H.Env)
        → Leads (handle_message msg (record w { env = env })).1 w'
        → Leads w w'

  -- The world after the deliveries, in order.
  unfoldable pub deliver : List Delivery → World → World
  deliver [] w = w
  deliver (d ∷ ds) w = deliver ds (dispatch_p2p d.msg d.from_peer_id d.reply_to w).1

  abbrev pub IsAbout : String → Delivery → Type 0
  IsAbout id d = task_of d.msg ≡ some id

  -- It is about another task, or about none.
  abbrev pub IsElsewhere : String → Delivery → Type 0
  IsElsewhere id d = ¬ IsAbout id d

  module _ (L : IsLawful) (A : IsAtomic) where
    -- In every world that a run leads to, from a world with a filed store, whatever the messages, their
    -- order and their outcomes, each task's item in each of the four components carries that task's id.
    pub Leads-Filed : {w w' : World} → Leads w w' → Filed w.kv → Filed w'.kv
    Leads-Filed here filed = filed
    Leads-Filed {w} (handled msg env rest) filed =
        Leads-Filed rest (handle_message-Filed L A msg (record w { env = env }) filed)

    delivery_cases :
        (id : String) (d : Delivery) (w : World)
        → IsElsewhere id d
        → Filed w.kv
        → (t : Kind) (f : Family) → IsTaskFamily f
        → H.kvp_get t binding_name
            (key_of f id)
            (dispatch_p2p d.msg d.from_peer_id d.reply_to w).1.kv
          ≡ H.kvp_get t binding_name (key_of f id) w.kv
    delivery_cases id d w elsewhere filed t f task =
        (dispatch_p2p-Isolated L A d.msg d.from_peer_id d.reply_to w filed).same t (key_of f id)
          λ id' named g task' e.
            key_of-other id id' (λ q. elsewhere (named ∙ ap (λ i. some i) (sym q))) f g task e

    -- Messages of other tasks, however many, in any order and whatever each of them returns, leave every
    -- key of the task as it was, when the store is filed at first.
    pub deliver-elsewhere :
        (id : String) (ds : List Delivery) (w : World)
        → All (IsElsewhere id) ds
        → Filed w.kv
        → (t : Kind) (f : Family) → IsTaskFamily f
        → H.kvp_get t binding_name (key_of f id) (deliver ds w).kv
          ≡ H.kvp_get t binding_name (key_of f id) w.kv
    unfolding deliver
    deliver-elsewhere id [] w others filed t f task = refl
    deliver-elsewhere id (d ∷ ds) w (other, others) filed t f task =
        deliver-elsewhere id ds _ others
          (dispatch_p2p-Filed L A d.msg d.from_peer_id d.reply_to w filed) t f task
        ∙ delivery_cases id d w other filed t f task
