-- ===== src/Router/Found.antt =====
-- What the queries of rmqtt/src/broker/default.rs find, in terms of the relations and the rules of
-- MQTT.
use Prim.Native.String.{String}
use mathlib.Core.Logic.{◌↔◌}
use rmqtt.Common.{
  ℕ, suc, ◌≡◌, ◌≢◌, refl, ap, sym, ◌∙◌, subst, some, List, [], ◌∷◌, map, Key, get, In, In-append,
  In-append_left, In-append_right, length, arith, inl, inr, unit_key, list_key, nat_key,
}
use rmqtt.Types.{Identity, string_key}
use rmqtt.Subscriptions.{SubscriptionOptions}
use rmqtt.TopicTree.Levels.{Levels}
use rmqtt.TopicTree.Values.{values_at}
use rmqtt.TopicTree.Lazy.{collect}
use rmqtt.TopicTree.Filters.{Matches, matches_lem}
use rmqtt.Router.Names.{TopicNames}
use rmqtt.Router.Lists.{
  unique, take, concat, pair_key, In-unique, In-map, pick-first, pick_each-first,
}
use rmqtt.Router.{Router, Clients, or_empty}
use rmqtt.Router.Delivery.{matched}
use rmqtt.Router.Queries.{
  Route, SubsSearchParams, routes_of, concat_routes, unique_filters, get_matched_routes, gets,
  found_in, query_for_topic, query_for_other,
}

module _ {L : Type 0} ⦃l : Key L⦄ (lv : Levels L) (tn : TopicNames L) where
  -- The limited queries give the first elements of what there is without a limit, as many as the
  -- limit says: of the routes of all filters, of the clients of one filter that pass the query, and of
  -- those of all filters.
  queries_limit :
      (q : SubsSearchParams) (limit : ℕ) (topic : String) (r : Router L)
      → (gets lv tn limit r
          ≡ take limit (concat (map (λ (tf, rels). routes_of lv tn tf rels) r.relations)))
        × (query_for_topic lv tn q topic r
            ≡ take q.limit (found_in q topic (or_empty (get topic r.relations))))
        × (query_for_other lv tn q r
            ≡ take q.limit (concat (map (λ (tf, rels). found_in q tf rels) r.relations)))
  unfolding gets query_for_topic query_for_other
  queries_limit q limit topic r = (
    pick_each-first limit (map (λ (tf, rels). routes_of lv tn tf rels) r.relations),
    pick-first q.limit (found_in q topic (or_empty (get topic r.relations))),
    pick_each-first q.limit (map (λ (tf, rels). found_in q tf rels) r.relations),
  )

  -- A client of a filter, on a node.
  abbrev pub HasClient : ℕ → Clients → Type 0
  HasClient node_id rels =
      (client_id : String) × (id : Identity) × (opts : SubscriptionOptions) × In
        (client_id, (id, opts)) rels
      × (node_id ≡ id.node_id)

  In-routes_of :
      (tf : String) (rels : Clients) (ρ : Route)
      → In ρ (routes_of lv tn tf rels) ↔ ((ρ.topic ≡ tf) × HasClient ρ.node_id rels)
  In-routes_of tf rels ρ = (sound, complete)
    where
      nodes : List ℕ
      nodes = map (λ e. e.1.0.node_id) rels

      sound : In ρ (routes_of lv tn tf rels) → (ρ.topic ≡ tf) × HasClient ρ.node_id rels
      sound i =
          let (node_id, j, e) =
            (In-map (λ n. record { node_id = n; topic = tf }) ρ (unique nodes)).0 i in
          let (client, k, e') =
            (In-map (λ e. e.1.0.node_id) node_id rels).0 ((In-unique node_id nodes).0 j) in
          (ap (λ z. z.topic) e, (client.0, client.1.0, client.1.1, k, ap (λ z. z.node_id) e ∙ e'))

      complete : (ρ.topic ≡ tf) × HasClient ρ.node_id rels → In ρ (routes_of lv tn tf rels)
      complete (h, (client_id, id, opts, k, e)) =
          (In-map (λ n. record { node_id = n; topic = tf }) ρ (unique nodes)).1 (
            ρ.node_id,
            (In-unique ρ.node_id nodes).1
                ((In-map (λ e. e.1.0.node_id) ρ.node_id rels).1 ((client_id, (id, opts)), k, e)),
            (ap (λ z. record ρ { topic = z }) h),
          )

  In-concat_routes :
      (ρ : Route) (tfs : List String) (r : Router L)
      → In ρ (concat_routes lv tn tfs r)
        ↔ (In ρ.topic tfs × HasClient ρ.node_id (or_empty (get ρ.topic r.relations)))
  unfolding concat_routes
  In-concat_routes ρ [] r = (λ i. elim i [ ], λ (i, h). i)
  In-concat_routes ρ (tf ∷ tfs) r =
      (sound (In-concat_routes ρ tfs r).0, complete (In-concat_routes ρ tfs r).1)
    where
      Client : String → Type 0
      Client q = HasClient ρ.node_id (or_empty (get q r.relations))

      sound :
          (In ρ (concat_routes lv tn tfs r) → In ρ.topic tfs × Client ρ.topic)
          → In ρ (concat_routes lv tn (tf ∷ tfs) r)
          → In ρ.topic (tf ∷ tfs) × Client ρ.topic
      sound further i =
          elim (In-append ρ (routes_of lv tn tf (or_empty (get tf r.relations))) _ i) [
            | inl j ↦
                let (e, client) = (In-routes_of tf (or_empty (get tf r.relations)) ρ).0 j in
                (inl e, subst Client (sym e) client)
            | inr j ↦ let (k, client) = further j in (inr k, client)
          ]

      complete :
          (In ρ.topic tfs × Client ρ.topic → In ρ (concat_routes lv tn tfs r))
          → In ρ.topic (tf ∷ tfs) × Client ρ.topic
          → In ρ (concat_routes lv tn (tf ∷ tfs) r)
      complete further (inl e, client) =
          In-append_left ρ (routes_of lv tn tf (or_empty (get tf r.relations))) _
            ((In-routes_of tf (or_empty (get tf r.relations)) ρ).1 (e, subst Client e client))
      complete further (inr k, client) =
          In-append_right ρ (routes_of lv tn tf (or_empty (get tf r.relations))) _
            (further (k, client))

  -- A filter of the tree that matches the topic by the rules of MQTT.
  abbrev pub MatchedFilter : Router L → List L → String → Type 0
  MatchedFilter r topic tf =
      (f : List L) × (tf ≡ tn.to_topic_filter f) × Matches lv f topic × (values_at f r.topics ≢ [])

  In-unique_filters :
      (r : Router L) (topic : List L) (tf : String)
      → In tf (unique_filters lv tn topic r) ↔ MatchedFilter r topic tf
  In-unique_filters r topic tf = (sound, complete)
    where
      items : List (List L × List (Unit {0}))
      items = matched lv tn r.topics topic

      found :
          (f : List L) (ws : List (Unit {0}))
          → In (f, ws) items ↔ (Matches lv f topic × ((ws ≡ values_at f r.topics) × (ws ≢ [])))
      found f ws =
          matches_lem lv (suc (length (collect lv topic r.topics []))) r.topics topic f ws
            (omega arith)

      sound : In tf (unique_filters lv tn topic r) → MatchedFilter r topic tf
      sound i =
          let (f, j, e) = (In-map tn.to_topic_filter tf (map (λ x. x.0) (unique items))).0 i in
          let (x, k, e') = (In-map (λ x. x.0) f (unique items)).0 j in
          let (fits, (at, ne)) = (found x.0 x.1).0 ((In-unique x items).0 k) in
          (x.0, e ∙ ap tn.to_topic_filter e', fits, λ z. ne (at ∙ z))

      complete : MatchedFilter r topic tf → In tf (unique_filters lv tn topic r)
      complete (f, e, fits, ne) =
          let ws = values_at f r.topics in
          (In-map tn.to_topic_filter tf (map (λ x. x.0) (unique items))).1 (
            f,
            (In-map (λ x. x.0) f (unique items)).1
                ((f, ws), (In-unique (f, ws) items).1 ((found f ws).1 (fits, (refl, ne))), refl),
            e,
          )

  -- The routes of a legal topic are the pairs of a topic filter of the tree that matches the topic by
  -- the rules of MQTT and a node on which some client is subscribed to that filter.
  pub get_matched_routes_lem :
      (topic : String) (t : List L) (r : Router L) (routes : List Route) (ρ : Route)
      → tn.from_str topic ≡ some t
      → get_matched_routes lv tn topic r ≡ some routes
      → In ρ routes
        ↔ (MatchedFilter r t ρ.topic × HasClient ρ.node_id (or_empty (get ρ.topic r.relations)))
  unfolding get_matched_routes
  get_matched_routes_lem topic t r routes ρ e h =
      let h' : some (concat_routes lv tn (unique_filters lv tn t r) r) ≡ some routes =
        rw (e, get_matched_routes) at h in
      let same : concat_routes lv tn (unique_filters lv tn t r) r ≡ routes = cc h' in
      let (sound, complete) = In-concat_routes ρ (unique_filters lv tn t r) r in
      let (filters_sound, filters_complete) = In-unique_filters r t ρ.topic in
      (
        λ i. let (j, client) = sound (subst (In ρ) (sym same) i) in (filters_sound j, client),
        λ (m, client). subst (In ρ) same (complete (filters_complete m, client)),
      )
