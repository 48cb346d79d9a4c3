-- ===== src/Session/Subscribing.antt =====
-- `subscribe` and `unsubscribe` of rmqtt/src/broker/session.rs: the limits of the listener, the hooks, the
-- router and the table of sessions, and the retained and stored messages that a new subscription gets. The
-- session stands in the table; the retained messages, the storage and the clock are arguments.
pub mod Limits
pub mod Granted
mod Tests
use Prim.Native.String.{String}
use rmqtt.Common.{
  ℕ, Bool, true, false, not, ◌&&◌, ◌||◌, Option, none, some, List, [], ◌∷◌, ◌++◌, if◌then◌else◌,
  Key, get, length, leb, ltb, is_some, nat_key,
}
use rmqtt.Types.{QoS, less_value, Publish, From, Identity, Retain, string_key}
use rmqtt.TopicTree.Levels.{Levels}
use rmqtt.Router.Names.{TopicNames}
use rmqtt.Fitter.{Listener}
use rmqtt.Subscriptions.{
  SubscriptionOptions, Subscribe, Unsubscribe, qos, set_qos, shared_group, retain_handling,
  RetainHandling, at_subscribe, at_subscribe_new, no_at_subscribe,
}
use rmqtt.Subscriptions.Answers.{SubscribeReturn, success}
use rmqtt.SessionSubs.{len}
use rmqtt.Hooks.{Client, Handlers, subscribe_acl}
use rmqtt.Shared.{Node, Undelivered}
use rmqtt.Shared as Shared
use rmqtt.Session.{or_same}
use rmqtt.Session.Handover.{StoredMessage, excludes}
use rmqtt.Session.Publishing.{Dropped, to_dropped}

pub data SubscribeError : Type 0 where
  too_many_subscriptions too_many_topic_levels other : SubscribeError

-- What `_subscribe` returns.
pub data Answer : Type 0 where
  ok : SubscribeReturn → Answer
  err : SubscribeError → Answer

-- What the hooks make of a subscription.
pub data Admission : Type 0 where
  let_in : Subscribe → Admission
  turned_away : SubscribeReturn → Admission

abbrev pub lower_qos : QoS → Subscribe → Subscribe
lower_qos q sub = record sub { opts = set_qos (less_value (qos sub.opts) q) sub.opts }

-- Whether retained messages are sent, by the options and whether the subscription is new.
abbrev pub send_retain_enable : Option RetainHandling → Bool → Bool
send_retain_enable (some at_subscribe) is_new = true
send_retain_enable (some at_subscribe_new) is_new = is_new
send_retain_enable (some no_at_subscribe) is_new = false
send_retain_enable none is_new = true

-- The messages of `send_retain_messages`.
abbrev pub retain_copies : ℕ → QoS → List (String × Retain) → List (From × Publish)
retain_copies now q [] = []
retain_copies now q ((topic, r) ∷ retains) =
    (
      r.from,
      record (r.publish) {
        dup = false;
        retain = true;
        qos = less_value r.publish.qos q;
        topic = topic;
        packet_id = none;
        create_time = now;
      },
    )
    ∷ retain_copies now q retains

-- The stored messages that were among the retained ones.
abbrev pub excluded_ids : List (String × Retain) → List (ℕ × ℕ)
excluded_ids [] = []
excluded_ids ((topic, r) ∷ retains) = elim (r.msg_id) [
  | some msg_id ↦ (r.from.id.node_id, msg_id) ∷ excluded_ids retains
  | none ↦ excluded_ids retains
]

-- The messages of `_send_storaged_messages`.
abbrev pub stored_copies : QoS → List (ℕ × ℕ) → List StoredMessage → List (From × Publish)
stored_copies q excludeds [] = []
stored_copies q excludeds ((msg_id, from, p) ∷ ms) =
    let rest = stored_copies q excludeds ms in
    if excludes excludeds from.id.node_id msg_id
    then rest
    else (
      from,
      record p { dup = false; retain = false; qos = less_value p.qos q; packet_id = none },
    )
      ∷ rest

-- The settings and what is outside.
pub record Sources : Type 0 where
  pub listener : Listener
  pub handlers : Handlers
  pub hooked : Subscribe → Option String
  pub unhooked : Unsubscribe → Option String
  pub retain_get : String → Option (List (String × Retain))
  pub storage_available : Bool
  pub load : String → Option String → Option (List StoredMessage)
  pub now : ℕ

module _ {L : Type 0} ⦃l : Key L⦄ (lv : Levels L) (tn : TopicNames L) where
  pub record Desk : Type 0 where
    pub node : Node lv tn
    pub dropped : List Dropped

  -- How many subscriptions the client's session has.
  abbrev pub subscriptions_of : Client → Desk → ℕ
  subscriptions_of c d = elim (get c.id.client_id d.node.peers) [
    | some peer ↦ len peer.subscriptions
    | none ↦ 0
  ]

  -- Publishing to the session itself; what does not arrive is dropped.
  unfoldable pub send_all : Identity → List (From × Publish) → Desk → Desk
  send_all id [] d = d
  send_all id ((from, p) ∷ ms) d =
      let (lost, node') = Shared.publish lv tn id from p d.node in
      send_all id ms (record {
        node = node';
        dropped = elim lost [ some u ↦ d.dropped ++ to_dropped u ∷ [] | none ↦ d.dropped ];
      })

  module _ (s : Sources) where
    -- The retained messages for a subscription, and which of the stored ones they are; `none` is an error.
    unfoldable pub send_retained :
        Identity → Subscribe → SubscribeReturn → QoS → Desk → Option (List (ℕ × ℕ)) × Desk
    send_retained id sub ret q d =
        if s.listener.retain_available
          && send_retain_enable (retain_handling sub.opts) (not (is_some ret.prev_opts))
        then elim (s.retain_get sub.topic_filter) [
          | some retains ↦
              (some (excluded_ids retains), send_all id (retain_copies s.now q retains) d)
          | none ↦ (none, d)
        ]
        else (some [], d)

    unfoldable pub send_storaged : Identity → Subscribe → QoS → List (ℕ × ℕ) → Desk → Bool × Desk
    send_storaged id sub q excludeds d =
        if s.storage_available
        then elim (s.load sub.topic_filter (shared_group sub.opts)) [
          | some ms ↦ (true, send_all id (stored_copies q excludeds ms) d)
          | none ↦ (false, d)
        ]
        else (true, d)

    -- What follows a subscription of the table.
    unfoldable pub welcome : Identity → Subscribe → SubscribeReturn → Desk → Answer × Desk
    welcome id sub ret d = elim (success ret) [
      | none ↦ (ok ret, d)
      | some q ↦
          let (excludeds, d1) = send_retained id sub ret q d in
          elim excludeds [
            | none ↦ (err other, d1)
            | some es ↦
                let (loaded, d2) = send_storaged id sub q es d1 in
                (if loaded then ok ret else err other, d2)
          ]
    ]

    unfoldable pub admit : Client → Subscribe → Admission
    admit c sub = elim (subscribe_acl s.handlers c sub) [
      | none ↦ let_in sub
      | some r ↦ elim (success r) [ some q ↦ let_in (lower_qos q sub) | none ↦ turned_away r ]
    ]

    -- The subscription of the table.
    unfoldable pub enter : Client → Subscribe → Desk → Answer × Desk
    enter c sub d =
        let (ret, node') = Shared.subscribe lv tn c.id sub d.node in
        let d' = record d { node = node' } in
        elim ret [ none ↦ (err other, d') | some r ↦ welcome c.id sub r d' ]

    -- The two limits of the listener.
    unfoldable pub over_limit : Client → Subscribe → Desk → Option SubscribeError
    over_limit c sub d =
        if ltb 0 s.listener.max_subscriptions
          && leb s.listener.max_subscriptions (subscriptions_of c d)
        then some too_many_subscriptions
        else if ltb 0 s.listener.max_topic_levels
        then elim (tn.from_str sub.topic_filter) [
          | none ↦ some other
          | some topic ↦
              if ltb s.listener.max_topic_levels (length topic)
              then some too_many_topic_levels
              else none
        ]
        else none

    -- The subscription that the hooks for access are asked about.
    unfoldable pub asked : Subscribe → Subscribe
    asked sub =
        let sub1 = lower_qos s.listener.max_qos_allowed sub in
        record sub1 { topic_filter = or_same sub1.topic_filter (s.hooked sub1) }

    -- `_subscribe`.
    unfoldable pub subscribe : Client → Subscribe → Desk → Answer × Desk
    subscribe c sub d = elim (over_limit c sub d) [
      | some e ↦ (err e, d)
      | none ↦ elim (admit c (asked sub)) [
        | turned_away r ↦ (ok r, d)
        | let_in sub' ↦ enter c sub' d
      ]
    ]

    -- `unsubscribe`: whether there was a subscription; `none` is an error.
    unfoldable pub unsubscribe : Identity → Unsubscribe → Desk → Option Bool × Desk
    unsubscribe id unsub d =
        let unsub' = record unsub {
          topic_filter = or_same unsub.topic_filter (s.unhooked unsub);
        } in
        let (removed, node') = Shared.unsubscribe lv tn id unsub' d.node in
        (removed, record d { node = node' })
