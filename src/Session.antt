-- ===== src/Session.antt =====
-- rmqtt/src/broker/session.rs: the sending side of a session. Its window is that of Inflight; what goes
-- to the client, what is put on the session's own channel `tx`, and what is given to the hook for dropped
-- messages is recorded in the order in which it happens.
pub mod Tracked
pub mod Delivery
pub mod Reforward
pub mod Redelivery
pub mod Sent
pub mod Acknowledged
pub mod Handover
pub mod Ending
pub mod Publishing
pub mod Subscribing
mod Tests
use Prim.Native.String.{String}
use rmqtt.Common.{
  ℕ, zero, suc, Bool, true, false, not, ◌&&◌, ◌||◌, Option, none, some, List, [], ◌∷◌, ◌++◌,
  if◌then◌else◌,
}
use rmqtt.Types.{
  QoS, at_most_once, at_least_once, exactly_once, Publish, From, set_dup, set_packet_id,
  packet_id_is_none,
}
use rmqtt.Inflight.Deque.{DequeMap}
use rmqtt.Inflight.{
  Inflight, InflightMessage, MomentStatus, un_ack, un_received, un_complete, new_message, push_back,
  pop_front_timeout, remove, update_status, next_id,
}
use rmqtt.Fitter.{
  Listener, MessageExpiryCheckResult, expiry, remaining, is_expiry, message_expiry_check,
}

-- `Reason` of rmqtt/src/broker/types.rs.
mutual
  pub data Reason : Type 0 where
    connect_disconnect : Option String → Reason
    connect_read_write_timeout connect_read_write_error connect_remote_close : Reason
    connect_keepalive_timeout : Reason
    connect_kicked : Bool → Reason
    session_expiration : Reason
    subscribe_failed unsubscribe_failed : Option String → Reason
    subscribe_refused publish_refused message_expiration message_queue_full : Reason
    publish_failed protocol_error error : String → Reason
    reasons : Reasons → Reason
    unknown : Reason

  pub data Reasons : Type 0 where
    nil : Reasons
    cons : Reason → Reasons → Reasons

-- What is sent: a message with the seconds until it expires, and a release.
pub data Packet : Type 0 where
  message : Publish → Option ℕ → Packet
  release : ℕ → Packet

-- What a packet from the client acknowledges.
pub data Ack : Type 0 where
  publish_ack publish_received publish_complete : ℕ → Ack

-- `tx`: none, or a channel whose receiver is gone, or one that takes a message.
pub data Tx : Type 0 where
  absent closed working : Tx

-- What the session meets: the clock, the listener, what the handlers of two hooks answer, and what the
-- connection takes.
pub record Env : Type 0 where
  pub now : ℕ
  pub listener : Listener
  pub expired : From → Publish → Bool
  pub delivered : From → Publish → Option Publish
  pub publish_ok : Publish → Bool
  pub release_ok : ℕ → Bool

abbrev pub or_same : {A : Type 0} → A → Option A → A
or_same a none = a
or_same a (some b) = b

-- `matches!(publish.qos(), QoS::AtLeastOnce | QoS::ExactlyOnce)`.
abbrev pub is_confirmed : QoS → Bool
is_confirmed at_most_once = false
is_confirmed at_least_once = true
is_confirmed exactly_once = true

abbrev pub moment_status : QoS → Option MomentStatus
moment_status at_least_once = some un_ack
moment_status exactly_once = some un_received
moment_status at_most_once = none

-- How a call ends: with a result, where `false` is an error, or not at all, where it awaits a lock that
-- its own task holds.
pub data Ended : Type 0 where
  returned : Bool → Ended
  waits : Ended

module _ (dm : DequeMap InflightMessage) where
  pub record State : Type 0 where
    pub win : Inflight dm
    pub sink : Bool
    pub tx : Tx
    pub sent : List Packet
    pub forwarded : List (From × Publish)
    pub dropped : List (From × Publish × Reason)
    pub acked : List (From × Publish)

  abbrev pub drop : From → Publish → Reason → State → State
  drop from p reason s = record s { dropped = s.dropped ++ (from, p, reason) ∷ [] }

  -- `SessionState::forward`.
  unfoldable pub forward : From → Publish → State → State
  forward from p s = elim (s.tx) [
    | working ↦ record s { forwarded = s.forwarded ++ (from, p) ∷ [] }
    | closed ↦ drop from p (error "Send Publish message error, Tx is closed") s
    | absent ↦ drop from p (error "Send Publish message error, Tx is None") s
  ]

  -- The packet id of `deliver`; `none` is the error of `next_id`.
  unfoldable pub number : Publish → State → Option Publish × State
  number p s =
      if is_confirmed p.qos && (not p.dup || packet_id_is_none p)
      then (let (id, win') = next_id dm s.win in
          (elim id [ some n ↦ some (set_packet_id n p) | none ↦ none ], record s { win = win' }))
      else (some p, s)

  module _ (env : Env) where
    -- Sending, and the entry in the window.
    unfoldable pub transmit : From → Option ℕ → Publish → State → Bool × State
    transmit from left p s =
        let p' = or_same p (env.delivered from p) in
        let s' = record s { sent = s.sent ++ message p' left ∷ [] } in
        if env.publish_ok p'
        then elim (moment_status p'.qos) [
          | some status ↦
              (true, record s' { win = push_back dm (new_message env.now status from p') s'.win })
          | none ↦ (true, s')
        ]
        else (false, s)

    -- `SessionState::deliver`; `false` is an error.
    unfoldable pub deliver : From → Publish → State → Bool × State
    deliver from p s =
        if not s.sink
        then (false, s)
        else elim (message_expiry_check env.now env.listener (env.expired from p) p) [
          | expiry ↦ (true, drop from p message_expiration s)
          | remaining left ↦
              let (numbered, s') = number p s in
              elim numbered [ some p' ↦ transmit from left p' s' | none ↦ (false, s') ]
        ]

    -- `MomentStatus::UnComplete` of `reforward`: the release is sent again. `held` says whether the caller
    -- holds the write lock of the window, which is taken once more before the message goes back.
    unfoldable pub rerelease : Bool → InflightMessage → State → Ended × State
    rerelease held m s =
        if is_expiry
          (message_expiry_check env.now env.listener (env.expired m.from m.publish) m.publish)
        then (returned true, s)
        else if not s.sink
        then (returned false, s)
        else elim (m.publish.packet_id) [
          | some id ↦
              let s' = record s { sent = s.sent ++ release id ∷ [] } in
              if not (env.release_ok id)
              then (returned false, s)
              else if held
              then (waits, s')
              else (
                returned true,
                record s' {
                  win = push_back dm (new_message env.now un_complete m.from m.publish) s'.win;
                },
              )
          | none ↦ (returned true, s)
        ]

    -- `SessionState::reforward`.
    unfoldable pub reforward : Bool → InflightMessage → State → Ended × State
    reforward held m s = elim (m.status) [
      | un_ack ↦ (returned true, forward m.from (set_dup true m.publish) s)
      | un_received ↦ (returned true, forward m.from (set_dup true m.publish) s)
      | un_complete ↦ rerelease held m s
    ]

    -- The loop on `deliver_timeout_delay` of `start`, on fuel. The lock of the window, a temporary of the
    -- scrutinee of `while let`, is held while the body runs. `true`: the body awaits that lock, for ever.
    unfoldable pub redeliver : ℕ → State → Bool × State
    redeliver zero s = (false, s)
    redeliver (suc n) s =
        let (due, win') = pop_front_timeout dm env.now s.win in
        elim due [
          | some m ↦
              let (ended, s') = reforward true m (record s { win = win' }) in
              elim ended [ returned ok ↦ redeliver n s' | waits ↦ (true, s') ]
          | none ↦ (false, record s { win = win' })
        ]

    -- The acknowledgements, in `publish` of rmqtt/src/broker/v3.rs and v5.rs.
    unfoldable pub acknowledge : Ack → State → State
    acknowledge (publish_ack id) s =
        let (found, win') = remove dm id s.win in
        let s' = record s { win = win' } in
        elim found [
          | some m ↦ record s' { acked = s'.acked ++ (m.from, m.publish) ∷ [] }
          | none ↦ s'
        ]
    acknowledge (publish_received id) s = record s {
      win = update_status dm env.now id un_complete s.win;
    }
    acknowledge (publish_complete id) s =
        let (found, win') = remove dm id s.win in
        let s' = record s { win = win' } in
        elim found [
          | some m ↦ record s' { acked = s'.acked ++ (m.from, m.publish) ∷ [] }
          | none ↦ s'
        ]
