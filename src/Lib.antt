-- ===== src/Lib.antt =====
-- rmqtt, an MQTT broker in Rust: a model of the core of its library crate, rmqtt/src/broker, and
-- theorems on it.
--
-- A client's session has a queue of messages that wait to be delivered and a window of those that were
-- sent and are not yet acknowledged. What clients are subscribed to stands in the session, in the
-- router of the node, and, for the router's search, in a tree of topic filters. A message that is
-- published is looked up in the router, which gives the clients of each node that it goes to; each of
-- them puts it into its queue, and from there it goes through the window to the client.
--
-- The files:
--   Common: lists, texts, maps as lists of entries, and signed numbers over the native numbers.
--   Types: quality of service, messages and identities of rmqtt/src/broker/types.rs.
--   Stats: `Counter` of rmqtt/src/broker/stats.rs, and the merging of the counters of several nodes.
--   Subscriptions: `SubscriptionOptions`, `parse_topic_filter`, `SubscribeReturn` and
--     `SubscriptioRelationsCollector` of rmqtt/src/broker/types.rs.
--   SessionSubs: `SessionSubs` of the same file; its `_add`, `_remove`, `_drain`, `_extend` and `_clear`
--     are `add`, `remove`, `drain`, `extend` and `clear`.
--   Inflight: `Inflight` of rmqtt/src/broker/inflight.rs. The ordered map of rust_box is the interface
--     Inflight.Deque; the clock is an argument.
--   Queue: `Queue`, `Sender` and `ReceiverStream` of rmqtt/src/broker/queue.rs. The queue of crossbeam is
--     the interface Queue.Fifo; the channel of units is their number.
--   TopicTree: the tree of rmqtt/src/broker/topic.rs (`_insert` is `insert`, `_remove` is `remove`) and its
--     iterator `MatchedIter`. The levels of ntex_mqtt are the interface TopicTree.Levels.
--   Router: `DefaultRouter` of rmqtt/src/broker/default.rs and the choice of a member of a shared group of
--     rmqtt/src/broker/mod.rs. The topics of ntex_mqtt are the interface Router.Names; the random
--     numbers, by topic filter and group, and the online state of a client are arguments.
--   Retain: the tree of rmqtt/src/broker/retain.rs, `DefaultRetainStorage` of rmqtt/src/broker/default.rs
--     and `RamRetainer` of rmqtt-plugins/rmqtt-retainer/src/ram.rs, whose `set` and `get` are `ram_set` and
--     `ram_get`.
--   Aliases: `ServerTopicAliases` and `ClientTopicAliases` of rmqtt/src/broker/types.rs; `get_alias` is the
--     `get` of the first.
--   Fitter: `DefaultFitter` and the expiry check of `DefaultHook` of rmqtt/src/broker/default.rs.
--   Session: `SessionState` of rmqtt/src/broker/session.rs: `deliver`, `forward`, `reforward` and the loop over
--     the messages that are due (`redeliver`), with the acknowledgements of v3.rs. Session.Handover has
--     `to_offline_info` and `transfer_session_state`, Session.Ending what follows the online loop: the will,
--     the offline loop and `clean`.
--   Shared: `DefaultShared` and `LockEntry` of rmqtt/src/broker/default.rs: how a message that is published
--     gets from the router to the channels of the sessions.
--   Hooks: `DefaultHookManager` and `DefaultHook` of rmqtt/src/broker/default.rs, as far as they decide.
--   Acl: the rules and the handler of rmqtt-plugins/rmqtt-acl; `is_match_topic` is `Topics::is_match`.
--   Session.Publishing: `publish` and `forwards` of rmqtt/src/broker/session.rs; the latter is `forward_all`.
--   Session.Subscribing: `_subscribe` and `unsubscribe` of the same file, with the messages that follow a
--     subscription.
--
-- Locks and `await` are left out, but for the lock of the window in the loop over the messages that are due,
-- which can come to wait for itself: an operation is a function from the state to the state, and what runs at
-- the same time is a sequence of operations. A `HashMap` or `DashMap` is a list of entries, whose order
-- is the unspecified order of iteration, and a `BTreeSet` a list without repetition. An error is `none`.
-- The enumerations of the protocol library that the source matches on (`QoS`, `RetainHandling`,
-- `SubscribeAckReason`) are data types with the constructors that it names.
--
-- Fuel and bounds: `next_id` has as many rounds as the source, 65535; `to_inflight_messages` and the
-- iterator of the tree take fuel, and the theorems say how much is enough; the choice in a shared group
-- has fuel for each member; `redeliver` and the loop that empties a session's queue take fuel above the
-- number of messages. Packet ids and aliases wrap at 2 ^ 16, the milliseconds of a message's interval at
-- 2 ^ 32 and `has_credit` at 2 ^ 64; other numbers are unbounded, and times are not negative.
--
-- Not modelled: the protocol library and the handlers that call it (v3.rs, v5.rs, less the acknowledgements),
-- the online loop of a session, whose arms are steps in any order here, hooks that only inform, gRPC, the
-- reading of the broker's settings, logging, JSON but for the rules of the ACL plugin, the other plugins, and
-- the rate limiter of the queue, which only delays a poll.
pub mod Common
pub mod Types
pub mod Stats
pub mod Subscriptions
pub mod SessionSubs
pub mod Inflight
pub mod Queue
pub mod TopicTree
pub mod Router
pub mod Retain
pub mod Aliases
pub mod Fitter
pub mod Session
pub mod Shared
pub mod Hooks
pub mod Acl
