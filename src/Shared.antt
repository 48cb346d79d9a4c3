-- ===== src/Shared.antt =====
-- `DefaultShared` and its `LockEntry` of rmqtt/src/broker/default.rs: the table of the sessions of a node,
-- and how a message that is published gets to them. The channel `tx` of a session is the messages that were
-- put on it, and whether its receiver is gone. The locks of `try_lock` are left out.
pub mod Delivered
pub mod Inboxes
pub mod Published
mod Tests
use Prim.Native.String.{String}
use rmqtt.Common.{
  ℕ, ◌==◌, Bool, true, false, not, Option, none, some, List, [], ◌∷◌, ◌++◌, map, if◌then◌else◌, Key,
  get, put, del, same, is_some, nat_key,
}
use rmqtt.Types.{Identity, id_same, Publish, From, less_value, string_key}
use rmqtt.Subscriptions.{SubscriptionOptions, Subscribe, Unsubscribe, qos, retain_as_published}
use rmqtt.Subscriptions.Answers.{SubscribeReturn, new_success}
use rmqtt.Subscriptions.Collector.{SubRelation, SharedGroupType}
use rmqtt.SessionSubs.{SessionSubs, to_topic_filters}
use rmqtt.SessionSubs as SessionSubs
use rmqtt.Router.{Router}
use rmqtt.Router as Router
use rmqtt.Router.Names.{TopicNames}
use rmqtt.Router.Delivery.{router_matches}
use rmqtt.TopicTree.Levels.{Levels}
use rmqtt.Session.{Reason, error}

-- `EntryItem`.
pub record Peer : Type 0 where
  pub id : Identity
  pub closed : Bool
  pub inbox : List (From × Publish)
  pub subscriptions : SessionSubs

abbrev pub Peers : Type 0
Peers = List (String × Peer)

-- A message that did not arrive: for whom, from whom, and why.
abbrev pub Undelivered : Type 0
Undelivered = String × From × Publish × Reason

abbrev pub push_inbox : From × Publish → Peer → Peer
push_inbox m peer = record peer { inbox = peer.inbox ++ m ∷ [] }

-- The message as a subscription gets it: `Retain As Publish` is an option of version 5.
abbrev pub kept_retain : Option Bool → Bool → Bool
kept_retain none retain = false
kept_retain (some retain_as_published) retain = if retain_as_published then retain else false

unfoldable pub adapt : Publish → SubRelation → Publish
adapt p rel = record p {
  dup = false;
  retain = kept_retain (retain_as_published rel.opts) p.retain;
  qos = less_value p.qos (qos rel.opts);
  packet_id = none;
  properties = record (p.properties) { subscription_ids = rel.sub_ids };
}

-- One relation of `forwards_to`.
unfoldable pub forward_one : From → Publish → SubRelation → Peers → List Undelivered × Peers
forward_one from p rel peers = elim (get rel.client_id peers) [
  | none ↦ ((rel.client_id, from, adapt p rel, error "Tx is None") ∷ [], peers)
  | some peer ↦
      if peer.closed
      then ((peer.id.client_id, from, adapt p rel, error "Connection Tx is closed") ∷ [], peers)
      else ([], put rel.client_id (push_inbox (from, adapt p rel) peer) peers)
]

-- `forwards_to`: the errors, and the table after it.
unfoldable pub forwards_to : From → Publish → List SubRelation → Peers → List Undelivered × Peers
forwards_to from p [] peers = ([], peers)
forwards_to from p (rel ∷ relations) peers =
    let (errs, peers') = forward_one from p rel peers in
    let (more, end) = forwards_to from p relations peers' in (errs ++ more, end)

-- The clients of a relation, with the topic filter and group of the one that a shared group chose.
abbrev pub group_ids :
    String → String → String → List String → List (String × Option (String × String))
group_ids tf cid group [] = []
group_ids tf cid group (g_cid ∷ cids) =
    (g_cid, (if same g_cid cid then some (tf, group) else none)) ∷ group_ids tf cid group cids

abbrev pub relation_ids : SubRelation → List (String × Option (String × String))
relation_ids rel = elim (rel.group) [
  | some (group, online, cids) ↦ group_ids rel.topic_filter rel.client_id group cids
  | none ↦ (rel.client_id, none) ∷ []
]

abbrev pub relations_ids : List SubRelation → List (String × Option (String × String))
relations_ids [] = []
relations_ids (rel ∷ rels) = relation_ids rel ++ relations_ids rels

abbrev pub map_ids : List (ℕ × List SubRelation) → List (String × Option (String × String))
map_ids [] = []
map_ids ((node_id, rels) ∷ relations_map) = relations_ids rels ++ map_ids relations_map

-- `_collect_subscription_client_ids`.
unfoldable pub collect_subscription_client_ids :
    List (ℕ × List SubRelation) → Option (List (String × Option (String × String)))
collect_subscription_client_ids relations_map = elim (map_ids relations_map) [
  | [] ↦ none
  | x ∷ xs ↦ some (x ∷ xs)
]

abbrev pub or_no_relations : {A : Type 0} → Option (List A) → List A
or_no_relations none = []
or_no_relations (some rels) = rels

-- What `forwards` gives.
pub data Forwarded : Type 0 where
  arrived : Option (List (String × Option (String × String))) → Forwarded
  failed : List Undelivered → Forwarded

module _ {L : Type 0} ⦃l : Key L⦄ (lv : Levels L) (tn : TopicNames L) where
  pub record Node : Type 0 where
    pub node_id : ℕ
    pub peers : Peers
    pub router : Router L

  -- The relations of the node itself for a message; an illegal topic name is logged.
  abbrev pub relations_map :
      (String → String → ℕ → ℕ)
      → (ℕ → String → Bool)
      → From
      → Publish
      → Node
      → List (ℕ × List SubRelation)
  relations_map random is_online from p b =
      or_no_relations (router_matches lv tn random is_online from.id p.topic b.router)

  -- `Shared::forwards`; relations of other nodes are only logged.
  unfoldable pub forwards :
      (String → String → ℕ → ℕ) → (ℕ → String → Bool) → From → Publish → Node → Forwarded × Node
  forwards random is_online from p b =
      let found = relations_map random is_online from p b in
      let (errs, peers') = forwards_to from p (or_no_relations (get b.node_id found)) b.peers in
      (
        elim errs [
          | [] ↦ arrived (collect_subscription_client_ids found)
          | e ∷ es ↦ failed (e ∷ es)
        ],
        record b { peers = peers' },
      )

  -- `LockEntry::set`.
  unfoldable pub set : Identity → Peer → Node → Node
  set id peer b = record b { peers = put id.client_id peer b.peers }

  -- `LockEntry::subscribe`; `none` is an error, or the assertion on the session's node.
  unfoldable pub subscribe : Identity → Subscribe → Node → Option SubscribeReturn × Node
  subscribe id sub b = elim (get id.client_id b.peers) [
    | none ↦ (none, b)
    | some peer ↦
        let (added, router') = Router.add tn sub.topic_filter id sub.opts b.router in
        let b' = record b { router = router' } in
        let (prev_opts, subs') = SessionSubs.add sub.topic_filter sub.opts peer.subscriptions in
        if not (peer.id.node_id == b.node_id) then (none, b) else elim added [
          | none ↦ (none, b')
          | some _ ↦ (
            some (new_success (qos sub.opts) prev_opts),
            record b' { peers = put id.client_id (record peer { subscriptions = subs' }) b'.peers },
          )
        ]
  ]

  -- `LockEntry::unsubscribe`: whether there was a subscription; the router's error is only logged.
  unfoldable pub unsubscribe : Identity → Unsubscribe → Node → Option Bool × Node
  unsubscribe id unsub b = elim (get id.client_id b.peers) [
    | none ↦ (none, b)
    | some peer ↦
        let router' = (Router.remove tn unsub.topic_filter id b.router).1 in
        let (removed, subs') = SessionSubs.remove unsub.topic_filter peer.subscriptions in
        (
          some (is_some removed),
          record b {
            peers = put id.client_id (record peer { subscriptions = subs' }) b.peers;
            router = router';
          },
        )
  ]

  -- The loop of `_remove` over the topic filters of the session that left the table: `_unsubscribe`, which
  -- finds no session there any more.
  unfoldable pub unsubscribe_all : Identity → List String → Router L → Router L
  unsubscribe_all id [] r = r
  unsubscribe_all id (tf ∷ tfs) r = unsubscribe_all id tfs (Router.remove tn tf id r).1

  unfoldable pub leave : Bool → Peer → Node → Node
  leave clear_subscriptions peer b =
      if clear_subscriptions
      then record b {
        router = unsubscribe_all peer.id (to_topic_filters peer.subscriptions) b.router;
      }
      else b

  -- `LockEntry::_remove`.
  unfoldable pub remove : Identity → Bool → Node → Option Peer × Node
  remove id clear_subscriptions b = elim (get id.client_id b.peers) [
    | none ↦ (none, b)
    | some peer ↦
        (some peer, leave clear_subscriptions peer (record b { peers = del id.client_id b.peers }))
  ]

  -- `LockEntry::_remove_with`: only the session of that identity.
  unfoldable pub remove_with : Identity → Bool → Identity → Node → Option Peer × Node
  remove_with id clear_subscriptions with_id b = elim (get id.client_id b.peers) [
    | none ↦ (none, b)
    | some peer ↦
        if id_same peer.id with_id
        then (
          some peer,
          leave clear_subscriptions peer (record b { peers = del id.client_id b.peers }),
        )
        else (none, b)
  ]

  -- `LockEntry::publish`.
  unfoldable pub publish : Identity → From → Publish → Node → Option Undelivered × Node
  publish id from p b = elim (get id.client_id b.peers) [
    | none ↦ (some (id.client_id, from, p, error "Tx is None"), b)
    | some peer ↦
        if peer.closed
        then (some (id.client_id, from, p, error "Tx is closed"), b)
        else (none, record b { peers = put id.client_id (push_inbox (from, p) peer) b.peers })
  ]
