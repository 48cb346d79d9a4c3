-- ===== src/Router/Queries.antt =====
-- The queries of rmqtt/src/broker/default.rs: the routes of a topic, and searches of the subscriptions
-- with a limit.
use Prim.Native.String.{String}
use rmqtt.Common.{
  ℕ, suc, Bool, true, false, not, Option, none, some, List, [], ◌∷◌, ◌++◌, map, if◌then◌else◌, Key,
  same, get, nat_key, unit_key, list_key, length, keep,
}
use rmqtt.Types.{Identity, string_key}
use rmqtt.Subscriptions.{SubscriptionOptions, qos_value, shared_group}
use rmqtt.TopicTree.Levels.{Levels}
use rmqtt.TopicTree.{values_size}
use rmqtt.TopicTree.Matcher.{is_match}
use rmqtt.Router.Lists.{unique, pick, pick_each, pair_key}
use rmqtt.Router.Names.{TopicNames}
use rmqtt.Router.{Router, Clients, or_empty}
use rmqtt.Router.Delivery.{matched}

pub record Route : Type 0 where
  pub node_id : ℕ
  pub topic : String

pub record SubsSearchParams : Type 0 where
  pub limit : ℕ
  pub clientid : Option String
  pub topic : Option String
  pub qos : Option ℕ
  pub share : Option String
  pub match_topic : Option String

pub record SubsSearchResult : Type 0 where
  pub node_id : ℕ
  pub clientid : String
  pub client_addr : Option ℕ
  pub topic : String
  pub opts : SubscriptionOptions

abbrev option_is : {A : Type 0} ⦃k : Key A⦄ → Option A → A → Bool
option_is none a = true
option_is (some q) a = same q a

-- `_query_subscriptions_filter`.
unfoldable pub query_filter : SubsSearchParams → String → SubscriptionOptions → Bool
query_filter q client_id opts =
    if not (option_is q.clientid client_id)
    then false
    else if not (option_is q.qos (qos_value opts))
    then false
    else elim q.share [
      | none ↦ true
      | some q_group ↦ elim (shared_group opts) [ some group ↦ same q_group group | none ↦ false ]
    ]

unfoldable pub search_result : String → String × (Identity × SubscriptionOptions) → SubsSearchResult
search_result topic_filter (client_id, (id, opts)) = record {
  node_id = id.node_id;
  clientid = client_id;
  client_addr = id.remote_addr;
  topic = topic_filter;
  opts = opts;
}

-- The clients of a filter that pass the query.
unfoldable pub found_in : SubsSearchParams → String → Clients → List SubsSearchResult
found_in q topic_filter rels =
    map (search_result topic_filter) (keep (λ e. query_filter q e.0 e.1.1) rels)

module _ {L : Type 0} ⦃l : Key L⦄ (lv : Levels L) (tn : TopicNames L) where
  unfoldable pub has_matches : String → Router L → Option Bool
  has_matches topic r = elim (tn.from_str topic) [
    | none ↦ none
    | some t ↦ some (is_match lv (suc (length t)) r.topics t)
  ]

  -- The matched filters, each once.
  abbrev pub unique_filters : List L → Router L → List String
  unique_filters t r =
      map (λ levels. tn.to_topic_filter levels) (map (λ i. i.0) (unique (matched lv tn r.topics t)))

  unfoldable pub get_routes : ℕ → String → Router L → Option (List Route)
  get_routes this_node topic r = elim (tn.from_str topic) [
    | none ↦ none
    | some t ↦ some (map (λ tf. record { node_id = this_node; topic = tf }) (unique_filters t r))
  ]

  -- The nodes of a filter's clients, each once.
  abbrev pub routes_of : String → Clients → List Route
  routes_of tf rels =
      map (λ node_id. record { node_id = node_id; topic = tf })
        (unique (map (λ e. e.1.0.node_id) rels))

  unfoldable pub concat_routes : List String → Router L → List Route
  concat_routes [] r = []
  concat_routes (tf ∷ tfs) r = routes_of tf (or_empty (get tf r.relations)) ++ concat_routes tfs r

  unfoldable pub get_matched_routes : String → Router L → Option (List Route)
  get_matched_routes topic r = elim (tn.from_str topic) [
    | none ↦ none
    | some t ↦ some (concat_routes (unique_filters t r) r)
  ]

  unfoldable pub gets : ℕ → Router L → List Route
  gets limit r = pick_each limit 0 (map (λ (tf, rels). routes_of tf rels) r.relations)

  unfoldable pub query_for_topic : SubsSearchParams → String → Router L → List SubsSearchResult
  query_for_topic q topic r =
      (pick q.limit 0 (found_in q topic (or_empty (get topic r.relations)))).0

  unfoldable pub query_for_matches : SubsSearchParams → String → Router L → List SubsSearchResult
  query_for_matches q match_topic r = elim (tn.from_str match_topic) [
    | none ↦ []
    | some t ↦
        pick_each q.limit 0
          (map (λ tf. found_in q tf (or_empty (get tf r.relations))) (unique_filters t r))
  ]

  unfoldable pub query_for_other : SubsSearchParams → Router L → List SubsSearchResult
  query_for_other q r = pick_each q.limit 0 (map (λ (tf, rels). found_in q tf rels) r.relations)

  unfoldable pub query_subscriptions : SubsSearchParams → Router L → List SubsSearchResult
  query_subscriptions q r = elim q.topic [
    | some topic ↦ query_for_topic q topic r
    | none ↦ elim q.match_topic [
      | some match_topic ↦ query_for_matches q match_topic r
      | none ↦ query_for_other q r
    ]
  ]

  unfoldable pub topics_tree : Router L → ℕ
  topics_tree r = values_size r.topics
