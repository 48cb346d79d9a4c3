-- ===== src/Session/Publishing.antt =====
-- `publish` and `forwards` of rmqtt/src/broker/session.rs: a message from the client on its way through the
-- hooks, the retained messages, the sessions of the node and the storage of messages. Where messages are
-- retained is an argument; what is given to the storage is recorded.
pub mod Refused
pub mod Accounted
mod Tests
use Prim.Native.String.{String}
use rmqtt.Common.{
  ℕ, Bool, true, false, not, ◌&&◌, ◌||◌, Option, none, some, List, [], ◌∷◌, ◌++◌, map,
  if◌then◌else◌, Key,
}
use rmqtt.Types.{Publish, From, Retain}
use rmqtt.TopicTree.Levels.{Levels}
use rmqtt.Router.Names.{TopicNames}
use rmqtt.Fitter.{Listener, message_expiry_interval}
use rmqtt.Hooks.{Client, Handlers, PublishAclResult, rejected, publish_acl}
use rmqtt.Shared.{Node, Undelivered, Forwarded, arrived, failed}
use rmqtt.Shared as Shared
use rmqtt.Session.{Reason, publish_refused, or_same}

-- What `publish` returns: `Ok(true)`, `Ok(false)`, or an error.
pub data Outcome : Type 0 where
  published refused error : Outcome

-- A message for the storage: its id, the message, when it expires, and who had it.
pub record ForStorage : Type 0 where
  pub msg_id : ℕ
  pub from : From
  pub publish : Publish
  pub expiry_interval : ℕ
  pub sub_client_ids : Option (List (String × Option (String × String)))

-- A message that the hook is told as dropped: for whom, where that is known.
abbrev pub Dropped : Type 0
Dropped = Option String × From × Publish × Reason

abbrev pub to_dropped : Undelivered → Dropped
to_dropped (client_id, from, p, reason) = (some client_id, from, p, reason)

module _ {L : Type 0} ⦃l : Key L⦄ (lv : Levels L) (tn : TopicNames L) (R : Type 0) where
  pub record Broker : Type 0 where
    pub node : Node lv tn
    pub retained : R
    pub stored : List ForStorage
    pub dropped : List Dropped
    pub nonsubscribed : List From

  -- The settings and what is outside: the numbers drawn for a topic filter in a shared group, who is online, the handlers of the
  -- hooks, the retained messages, whether the storage is enabled, and its next id.
  pub record World : Type 0 where
    pub listener : Listener
    pub random : String → String → ℕ → ℕ
    pub is_online : ℕ → String → Bool
    pub hooked : From → Publish → Option Publish
    pub handlers : Handlers
    pub retain_set : String → Retain → Option ℕ → R → Bool × R
    pub storage_available : Bool
    pub next_msg_id : ℕ

  module _ (w : World) where
    abbrev pub own_msg_id : Option ℕ
    own_msg_id = if w.storage_available then some w.next_msg_id else none

    -- The message as a retained one; `false` is the error of the retained messages.
    unfoldable pub retain_message : From → Publish → Option ℕ → Broker → Bool × Broker
    retain_message from p expiry b =
        let (ok, retained') =
          w.retain_set p.topic (record { msg_id = own_msg_id; from = from; publish = p }) expiry
            b.retained in
        if w.listener.retain_available && p.retain
        then (ok, record b { retained = retained' })
        else (true, b)

    -- The answer of `Shared::forwards`.
    abbrev pub report :
        From → Forwarded → Broker → Option (List (String × Option (String × String))) × Broker
    report from (arrived none) b = (none, record b { nonsubscribed = b.nonsubscribed ++ from ∷ [] })
    report from (arrived (some sub_cids)) b = (some sub_cids, b)
    report from (failed errs) b = (none, record b { dropped = b.dropped ++ map to_dropped errs })

    abbrev pub store_message :
        From
        → Publish
        → Option ℕ
        → Option (List (String × Option (String × String)))
        → Broker
        → Broker
    store_message from p none sub_cids b = b
    store_message from p (some expiry) sub_cids b =
        if w.storage_available
        then record b {
          stored =
              b.stored
              ++ record {
                msg_id = w.next_msg_id;
                from = from;
                publish = p;
                expiry_interval = expiry;
                sub_client_ids = sub_cids;
              }
                ∷ [];
        }
        else b

    -- `SessionState::forwards`; `false` is an error.
    unfoldable pub forward_all : From → Publish → Option ℕ → Broker → Bool × Broker
    forward_all from p expiry b =
        let (ok, b1) = retain_message from p expiry b in
        let (res, node') = Shared.forwards lv tn w.random w.is_online from p b1.node in
        let (sub_cids, b2) = report from res (record b1 { node = node' }) in
        if not ok then (false, b1) else (true, store_message from p expiry sub_cids b2)

    abbrev pub expiry_of : Publish → Option ℕ
    expiry_of p =
        if w.storage_available || (w.listener.retain_available && p.retain)
        then some (message_expiry_interval w.listener p)
        else none

    -- `SessionState::publish`.
    unfoldable pub publish : From → Client → Publish → Broker → Outcome × Broker
    publish from c p b =
        let p' = or_same p (w.hooked from p) in
        let (ok, b') = forward_all from p' (expiry_of p') b in
        elim (publish_acl w.handlers c p') [
          | rejected disconnect ↦ (
            if disconnect then error else refused,
            record b { dropped = b.dropped ++ (none, from, p', publish_refused) ∷ [] },
          )
          | PublishAclResult.allow ↦ (if ok then published else error, b')
        ]
