-- ===== src/Router.antt =====
-- `DefaultRouter` of rmqtt/src/broker/default.rs: who is subscribed to what on the node. The relations
-- of each topic filter with its clients stand beside a tree of the topic filters.
pub mod Names
pub mod Choice
pub mod Lists
pub mod Delivery
pub mod Reached
pub mod Delivered
pub mod Queries
pub mod Found
pub mod Agreement
pub mod Relations
pub mod Sample
mod Tests
use Prim.Native.String.{String}
use rmqtt.Common.{
  ℕ, suc, Bool, true, false, Option, none, some, List, [], ◌∷◌, if◌then◌else◌, Key, get, put, del,
  is_some, unit_key,
}
use rmqtt.Types.{Identity, id_same, string_key}
use rmqtt.Subscriptions.{SubscriptionOptions}
use rmqtt.Stats.{Counter, inc, dec}
use rmqtt.Stats as Stats
use rmqtt.TopicTree.{Node}
use rmqtt.TopicTree as TopicTree
use Names.{TopicNames}

-- The clients of a topic filter.
abbrev pub Clients : Type 0
Clients = List (String × (Identity × SubscriptionOptions))

pub record Router (L : Type 0) : Type 0 where
  pub topics : Node L (Unit {0})
  pub topics_count : Counter
  pub relations : List (String × Clients)
  pub relations_count : Counter

abbrev pub or_empty : Option Clients → Clients
or_empty none = []
or_empty (some rels) = rels

abbrev pub no_clients : Clients → Bool
no_clients [] = true
no_clients (c ∷ rels) = false

-- Whether the client is subscribed under this very identity.
abbrev pub remove_enable : Identity → Clients → Bool
remove_enable id rels = elim (get id.client_id rels) [
  | some (s_id, opts) ↦ id_same s_id id
  | none ↦ false
]

module _ {L : Type 0} ⦃l : Key L⦄ (tn : TopicNames L) where
  abbrev pub new : Router L
  new = record {
    topics = TopicTree.default;
    topics_count = Stats.new;
    relations = [];
    relations_count = Stats.new;
  }

  abbrev add_topic : String → List L → Identity → SubscriptionOptions → Router L → Router L
  add_topic topic_filter topic id opts r =
      let rels = get topic_filter r.relations in
      let old = get id.client_id (or_empty rels) in
      record r {
        topics = (TopicTree.insert topic tt r.topics).1;
        topics_count = if is_some rels then r.topics_count else inc r.topics_count;
        relations = put topic_filter (put id.client_id (id, opts) (or_empty rels)) r.relations;
        relations_count = if is_some old then r.relations_count else inc r.relations_count;
      }

  -- The first component is `none` for the error of an illegal topic filter.
  unfoldable pub add :
      String → Identity → SubscriptionOptions → Router L → Option (Unit {0}) × Router L
  add topic_filter id opts r = elim (tn.from_str topic_filter) [
    | none ↦ (none, r)
    | some topic ↦ (some tt, add_topic topic_filter topic id opts r)
  ]

  -- A topic filter with no client left.
  abbrev pub drop_filter : String → Router L → Option Bool × Router L
  drop_filter topic_filter r =
      let r' = record r {
        relations = del topic_filter r.relations;
        topics_count =
            if is_some (get topic_filter r.relations) then dec r.topics_count else r.topics_count;
      } in
      elim (tn.from_str topic_filter) [
        | none ↦ (none, r')
        | some topic ↦ (some true, record r' { topics = (TopicTree.remove topic tt r'.topics).1 })
      ]

  abbrev remove_client : String → Identity → Clients → Router L → Option Bool × Router L
  remove_client topic_filter id rels r =
      let rels' = del id.client_id rels in
      let r' = record r {
        relations = put topic_filter rels' r.relations;
        relations_count = dec r.relations_count;
      } in
      if no_clients rels' then drop_filter topic_filter r' else (some true, r')

  -- Whether a subscription was removed; `none` for the error of an illegal topic filter.
  unfoldable pub remove : String → Identity → Router L → Option Bool × Router L
  remove topic_filter id r = elim (get topic_filter r.relations) [
    | none ↦ (some false, r)
    | some rels ↦
        if remove_enable id rels then remove_client topic_filter id rels r else (some false, r)
  ]
