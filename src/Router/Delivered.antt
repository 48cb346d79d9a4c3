-- ===== src/Router/Delivered.antt =====
-- Who gets a message by `_matches` of rmqtt/src/broker/default.rs.
use Prim.Native.String.{String}
use mathlib.Core.Logic.{◌↔◌}
use rmqtt.Common.{
  ℕ, suc, ==_iff, ◌≡◌, ◌≢◌, refl, ◌∙◌, subst, Bool, true, false, Option, none, some, List, [], ◌∷◌,
  map, Key, get, In, arith, length, Bool-cases, Option-cases, inl, inr, nat_key, unit_key,
  same_refl,
}
use rmqtt.Types.{Identity, string_key}
use rmqtt.Subscriptions.{SubscriptionOptions, shared_group}
use rmqtt.TopicTree.Levels.{Levels}
use rmqtt.Router.Names.{TopicNames}
use rmqtt.Router.Lists.{In-map}
use rmqtt.TopicTree.Values.{values_at}
use rmqtt.TopicTree.Lazy.{collect}
use rmqtt.TopicTree.Filters.{Matches, matches_lem}
use rmqtt.Subscriptions.Collector.{SharedGroupType}
use rmqtt.Router.Choice.{Member, choice}
use rmqtt.Router.{Router, Clients, or_empty}
use rmqtt.Router.Delivery.{
  Collectors, Groups, add_for_node, is_own, add_client, add_clients, add_chosen, add_groups,
  add_filter, add_filters, matched, matched_filters, collected,
}
use rmqtt.Router.Reached.{reaches, reaches-add_for_node, add_filters-OnlyReaches}
use rmqtt.Router.Found.{MatchedFilter}

module _ (random : String → String → ℕ → ℕ) (is_online : ℕ → String → Bool) (n : ℕ)
    (c : String) where
  stays_add_for_node :
      (m : ℕ) (tf d : String) (opts : SubscriptionOptions) (g : Option SharedGroupType)
      (cs : Collectors)
      → reaches n c cs ≡ true
      → reaches n c (add_for_node m tf d opts g cs) ≡ true
  stays_add_for_node m tf d opts g cs h = rw (reaches-add_for_node n m c tf d opts g cs, h) refl

  stays_add_client :
      (this_id : Identity) (tf d : String) (id : Identity) (opts : SubscriptionOptions)
      (gs : Groups) (cs : Collectors)
      → reaches n c cs ≡ true
      → reaches n c (add_client random is_online this_id tf d (id, opts) (gs, cs)).1 ≡ true
  unfolding add_client
  stays_add_client this_id tf d id opts gs cs h = elim (Bool-cases (is_own this_id id opts)) [
    | inl own ↦ rw (own, add_client) h
    | inr other ↦ elim (Option-cases (shared_group opts)) [
      | inl plain ↦
          rw (other, add_client, plain) (stays_add_for_node id.node_id tf d opts none cs h)
      | inr (group, shared) ↦ rw (other, add_client, shared) h
    ]
  ]

  stays_add_clients :
      (this_id : Identity) (tf : String) (rels : Clients) (gs : Groups) (cs : Collectors)
      → reaches n c cs ≡ true
      → reaches n c (add_clients random is_online this_id tf rels (gs, cs)).1 ≡ true
  unfolding add_clients
  stays_add_clients this_id tf [] gs cs h = h
  stays_add_clients this_id tf ((d, (id, opts)) ∷ rels) gs cs h =
      let next = add_client random is_online this_id tf d (id, opts) (gs, cs) in
      stays_add_clients this_id tf rels next.0 next.1
        (stays_add_client this_id tf d id opts gs cs h)

  stays_add_groups :
      (tf : String) (gs : Groups) (cs : Collectors)
      → reaches n c cs ≡ true
      → reaches n c (add_groups random is_online tf gs cs) ≡ true
  unfolding add_groups add_chosen
  stays_add_groups tf [] cs h = h
  stays_add_groups tf ((group, ms) ∷ gs) cs h =
      stays_add_groups tf gs _ (chosen (choice (random tf group) is_online ms) ms)
    where
      chosen :
          (picked : Option (ℕ × Bool)) (xs : List Member)
          → reaches n c
              (add_chosen random is_online tf group (map (λ m. m.client_id) ms) picked xs cs)
            ≡ true
      chosen none xs = h
      chosen (some (idx, online)) [] = h
      chosen (some (idx, online)) (m ∷ xs) = stays_add_for_node _ tf _ _ _ cs h

  stays_add_filters :
      (this_id : Identity) (relations : List (String × Clients)) (tfs : List String)
      (cs : Collectors)
      → reaches n c cs ≡ true
      → reaches n c (add_filters random is_online this_id relations tfs cs) ≡ true
  unfolding add_filters add_filter
  stays_add_filters this_id relations [] cs h = h
  stays_add_filters this_id relations (tf ∷ tfs) cs h =
      stays_add_filters this_id relations tfs _ (
        stays_add_groups tf _ _
          (stays_add_clients this_id tf (or_empty (get tf relations)) [] cs h))

  reached_here :
      (this_id : Identity) (tf : String) (id : Identity) (opts : SubscriptionOptions) (gs : Groups)
      (cs : Collectors)
      → id.node_id ≡ n
      → is_own this_id id opts ≡ false
      → shared_group opts ≡ none
      → reaches n c (add_client random is_online this_id tf c (id, opts) (gs, cs)).1 ≡ true
  unfolding add_client
  reached_here this_id tf id opts gs cs e own plain =
      let node = (==_iff id.node_id n).1 e in
      rw
        (
          own,
          add_client,
          plain,
          reaches-add_for_node n id.node_id c tf c opts none cs,
          node,
          same_refl c,
        )
        (ground arith)

  -- A client that is not in a shared group is reached by its own filter.
  reached_by_client :
      (this_id : Identity) (tf : String) (id : Identity) (opts : SubscriptionOptions)
      (rels : Clients) (gs : Groups) (cs : Collectors)
      → In (c, (id, opts)) rels
      → id.node_id ≡ n
      → is_own this_id id opts ≡ false
      → shared_group opts ≡ none
      → reaches n c (add_clients random is_online this_id tf rels (gs, cs)).1 ≡ true
  unfolding add_clients add_client
  reached_by_client this_id tf id opts [] gs cs i e own plain = elim i [ ]
  reached_by_client this_id tf id opts ((d, (id', opts')) ∷ rels) gs cs (inr i) e own plain =
      let next = add_client random is_online this_id tf d (id', opts') (gs, cs) in
      reached_by_client this_id tf id opts rels next.0 next.1 i e own plain
  reached_by_client this_id tf id opts ((d, (id', opts')) ∷ rels) gs cs (inl h) e own plain =
      let next = add_client random is_online this_id tf d (id', opts') (gs, cs) in
      stays_add_clients this_id tf rels next.0 next.1 (
        subst (λ x. reaches n c (add_client random is_online this_id tf x.0 x.1 (gs, cs)).1 ≡ true)
          h (reached_here this_id tf id opts gs cs e own plain))

  reached_by_filter :
      (this_id : Identity) (relations : List (String × Clients)) (tfs : List String) (tf : String)
      (id : Identity) (opts : SubscriptionOptions) (cs : Collectors)
      → In tf tfs
      → In (c, (id, opts)) (or_empty (get tf relations))
      → id.node_id ≡ n
      → is_own this_id id opts ≡ false
      → shared_group opts ≡ none
      → reaches n c (add_filters random is_online this_id relations tfs cs) ≡ true
  unfolding add_filters add_filter
  reached_by_filter this_id relations [] tf id opts cs i k e own plain = elim i [ ]
  reached_by_filter this_id relations (q ∷ tfs) tf id opts cs (inr i) k e own plain =
      reached_by_filter this_id relations tfs tf id opts
        (add_filter random is_online this_id relations q cs) i k e own plain
  reached_by_filter this_id relations (q ∷ tfs) tf id opts cs (inl h) k e own plain =
      let k' = subst (λ z. In (c, (id, opts)) (or_empty (get z relations))) h k in
      stays_add_filters this_id relations tfs _ (
        stays_add_groups q _ _
          (reached_by_client this_id q id opts (or_empty (get q relations)) [] cs k' e own plain))

module _ {L : Type 0} ⦃l : Key L⦄ (lv : Levels L) (tn : TopicNames L) where
  In-matched_filters :
      (r : Router L) (topic : List L) (tf : String)
      → In tf (matched_filters lv tn r.topics topic) ↔ MatchedFilter lv tn r topic tf
  In-matched_filters r topic tf = (sound, complete)
    where
      found :
          (f : List L) (ws : List (Unit {0}))
          → In (f, ws) (matched lv tn r.topics topic)
            ↔ (Matches lv f topic × ((ws ≡ values_at f r.topics) × (ws ≢ [])))
      found f ws =
          matches_lem lv (suc (length (collect lv topic r.topics []))) r.topics topic f ws
            (omega arith)

      name : List L × List (Unit {0}) → String
      name i = tn.to_topic_filter i.0

      sound : In tf (matched_filters lv tn r.topics topic) → MatchedFilter lv tn r topic tf
      sound i =
          let (x, k, e) = (In-map name tf (matched lv tn r.topics topic)).0 i in
          let (fits, (at, ne)) = (found x.0 x.1).0 k in (x.0, e, fits, λ z. ne (at ∙ z))

      complete : MatchedFilter lv tn r topic tf → In tf (matched_filters lv tn r.topics topic)
      complete (f, e, fits, ne) =
          (In-map name tf (matched lv tn r.topics topic)).1
            ((f, values_at f r.topics), (found f (values_at f r.topics)).1 (fits, (refl, ne)), e)

  -- A client may get a message on the topic by a filter: the filter stands in the tree and matches the
  -- topic, the client is subscribed to it on the node, and it is not the sender under "no local".
  abbrev pub MayGet : Identity → List L → Router L → ℕ → String → SubscriptionOptions → Type 0
  MayGet this_id topic r n c opts =
      (tf : String) × (id : Identity) × MatchedFilter lv tn r topic tf
      × In (c, (id, opts)) (or_empty (get tf r.relations))
      × (id.node_id ≡ n)
      × (is_own this_id id opts ≡ false)

  -- Of a message on a legal topic: every client that gets it may get it by some filter, and every
  -- client that may get it by a filter without a shared group does, whatever is drawn in the groups.
  pub collected-MayGet :
      (random : String → String → ℕ → ℕ) (is_online : ℕ → String → Bool) (this_id : Identity)
      (topic : List L) (r : Router L) (n : ℕ) (c : String)
      → (reaches n c (collected lv tn random is_online this_id topic r) ≡ true
          → (opts : SubscriptionOptions) × MayGet this_id topic r n c opts)
        × ((opts : SubscriptionOptions)
            → MayGet this_id topic r n c opts
            → shared_group opts ≡ none
            → reaches n c (collected lv tn random is_online this_id topic r) ≡ true)
  unfolding reaches
  collected-MayGet random is_online this_id topic r n c = (sound, complete)
    where
      filters : List String
      filters = matched_filters lv tn r.topics topic

      sound :
          reaches n c (add_filters random is_online this_id r.relations filters []) ≡ true
          → (opts : SubscriptionOptions) × MayGet this_id topic r n c opts
      sound =
          add_filters-OnlyReaches random is_online
            (λ m d. (opts : SubscriptionOptions) × MayGet this_id topic r m d opts) this_id
            r.relations filters []
            (λ tf d id opts i k own.
              (opts, (tf, id, (In-matched_filters r topic tf).0 i, k, refl, own)))
            (λ m d h. absurd (cc h)) n c

      complete :
          (opts : SubscriptionOptions)
          → MayGet this_id topic r n c opts
          → shared_group opts ≡ none
          → reaches n c (add_filters random is_online this_id r.relations filters []) ≡ true
      complete opts (tf, id, m, k, e, own) plain =
          reached_by_filter random is_online n c this_id r.relations filters tf id opts []
            ((In-matched_filters r topic tf).1 m) k e own plain
