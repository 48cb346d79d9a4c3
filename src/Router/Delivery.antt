-- ===== src/Router/Delivery.antt =====
-- `_matches` of rmqtt/src/broker/default.rs: who gets a message on a topic, for each node. Shared groups
-- give one member each.
use Prim.Native.String.{String}
use rmqtt.Common.{
  ℕ, suc, Bool, false, ◌&&◌, Option, none, some, List, [], ◌∷◌, ◌++◌, map, if◌then◌else◌, Key, get,
  put, length, nat_key, unit_key,
}
use rmqtt.Types.{Identity, id_same, string_key}
use rmqtt.Subscriptions.{SubscriptionOptions, no_local, shared_group}
use rmqtt.Subscriptions.Collector.{
  SubscriptioRelationsCollector, SharedGroupType, SubRelation, no_rels, add, into_rels,
}
use rmqtt.TopicTree.Levels.{Levels}
use rmqtt.TopicTree.{Node}
use rmqtt.TopicTree.Matcher.{Item, matches, collect_iter}
use rmqtt.TopicTree.Lazy.{collect}
use rmqtt.Router.Names.{TopicNames}
use rmqtt.Router.Choice.{Member, choice, remove_at}
use rmqtt.Router.{Router, Clients, or_empty}

abbrev pub Collectors : Type 0
Collectors = List (ℕ × SubscriptioRelationsCollector)

abbrev pub Groups : Type 0
Groups = List (String × List Member)

abbrev pub or_no_rels : Option SubscriptioRelationsCollector → SubscriptioRelationsCollector
or_no_rels none = no_rels
or_no_rels (some c) = c

-- `collector_map.entry(node_id).or_default().add(..)`.
unfoldable pub add_for_node :
    ℕ → String → String → SubscriptionOptions → Option SharedGroupType → Collectors → Collectors
add_for_node node_id topic_filter client_id opts group collectors =
    put node_id (add topic_filter client_id opts group (or_no_rels (get node_id collectors)))
      collectors

abbrev pub or_no_members : Option (List Member) → List Member
or_no_members none = []
or_no_members (some ms) = ms

-- `groups.entry(group).or_default().push(..)`.
unfoldable pub push_member : String → Member → Groups → Groups
push_member group m groups = put group (or_no_members (get group groups) ++ m ∷ []) groups

-- MQTT 5: a client that asks for it does not get its own messages.
abbrev pub is_own : Identity → Identity → SubscriptionOptions → Bool
is_own this_id id opts = elim (no_local opts) [
  | some no_local ↦ no_local && id_same this_id id
  | none ↦ false
]

-- The numbers that are drawn for a topic filter in a group, and the router's answer on whether a client is online.
module _ (random : String → String → ℕ → ℕ) (is_online : ℕ → String → Bool) where
  unfoldable pub add_client :
      Identity
      → String
      → String
      → Identity × SubscriptionOptions
      → Groups × Collectors
      → Groups × Collectors
  add_client this_id topic_filter client_id (id, opts) (groups, collectors) =
      if is_own this_id id opts then (groups, collectors) else elim (shared_group opts) [
        | some group ↦ (
          push_member group
              (record {
                node_id = id.node_id;
                client_id = client_id;
                opts = opts;
                is_online = some (is_online id.node_id client_id);
              })
              groups,
          collectors,
        )
        | none ↦ (groups, add_for_node id.node_id topic_filter client_id opts none collectors)
      ]

  -- The clients of one topic filter.
  unfoldable pub add_clients :
      Identity → String → Clients → Groups × Collectors → Groups × Collectors
  add_clients this_id topic_filter [] found = found
  add_clients this_id topic_filter ((client_id, rel) ∷ rels) found =
      add_clients this_id topic_filter rels (add_client this_id topic_filter client_id rel found)

  unfoldable pub add_chosen :
      String → String → List String → Option (ℕ × Bool) → List Member → Collectors → Collectors
  add_chosen topic_filter group group_cids none s_subs collectors = collectors
  add_chosen topic_filter group group_cids (some (idx, online)) [] collectors = collectors
  add_chosen topic_filter group group_cids (some (idx, online)) (m ∷ s_subs) collectors =
      let chosen = (remove_at idx m s_subs).0 in
      add_for_node chosen.node_id topic_filter chosen.client_id chosen.opts
        (some (group, online, group_cids)) collectors

  -- One member of each shared group.
  unfoldable pub add_groups : String → Groups → Collectors → Collectors
  add_groups topic_filter [] collectors = collectors
  add_groups topic_filter ((group, s_subs) ∷ groups) collectors =
      let group_cids = map (λ m. m.client_id) s_subs in
      let picked = choice (random topic_filter group) is_online s_subs in
      add_groups topic_filter groups
        (add_chosen topic_filter group group_cids picked s_subs collectors)

  unfoldable pub add_filter : Identity → List (String × Clients) → String → Collectors → Collectors
  add_filter this_id relations topic_filter collectors =
      let (groups, collectors') =
        add_clients this_id topic_filter (or_empty (get topic_filter relations)) ([], collectors) in
      add_groups topic_filter groups collectors'

  unfoldable pub add_filters :
      Identity → List (String × Clients) → List String → Collectors → Collectors
  add_filters this_id relations [] collectors = collectors
  add_filters this_id relations (tf ∷ topic_filters) collectors =
      add_filters this_id relations topic_filters (add_filter this_id relations tf collectors)

module _ {L : Type 0} ⦃l : Key L⦄ (lv : Levels L) (tn : TopicNames L) where
  -- `topics.matches(&topic).iter()` to its end, on fuel above the number of items.
  abbrev pub matched : Node L (Unit {0}) → List L → List (Item L (Unit {0}))
  matched topics topic =
      collect_iter lv (suc (length (collect lv topic topics []))) (suc (length topic))
        (matches topics topic)

  abbrev pub matched_filters : Node L (Unit {0}) → List L → List String
  matched_filters topics topic = map (λ i. tn.to_topic_filter i.0) (matched topics topic)

  -- The collectors that the loop over the matched filters leaves.
  abbrev pub collected :
      (String → String → ℕ → ℕ) → (ℕ → String → Bool) → Identity → List L → Router L → Collectors
  collected random is_online this_id topic r =
      add_filters random is_online this_id r.relations (matched_filters r.topics topic) []

  -- `none` is the error of an illegal topic name.
  unfoldable pub router_matches :
      (String → String → ℕ → ℕ)
      → (ℕ → String → Bool)
      → Identity
      → String
      → Router L
      → Option (List (ℕ × List SubRelation))
  router_matches random is_online this_id topic_name r = elim (tn.from_str topic_name) [
    | none ↦ none
    | some topic ↦
        some (
          map (λ (node_id, c). (node_id, into_rels c)) (collected random is_online this_id topic r))
  ]
