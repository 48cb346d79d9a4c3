-- ===== src/Shared/Delivered.antt =====
-- `forwards` of rmqtt/src/broker/default.rs from end to end: the topic tree, the relations, the shared
-- groups, the collector and the channels of the sessions.
use Prim.Native.String.{String}
use rmqtt.Common.{
  ℕ, ◌≡◌, ◌≢◌, refl, sym, ap, ◌∙◌, Bool, true, false, none, some, Option, List, [], ◌∷◌, ◌++◌, get,
  Key, nat_key, arith, Bool-cases, inl, inr, ◌⊎◌,
}
use rmqtt.Types.{Publish, From, string_key}
use rmqtt.Subscriptions.{SubscriptionOptions, shared_group}
use rmqtt.Subscriptions.Collector.{SubRelation, into_rels}
use rmqtt.TopicTree.Levels.{Levels}
use rmqtt.Router.Names.{TopicNames}
use rmqtt.Router.Delivery.{or_no_rels, collected, matched_filters, router_matches}
use rmqtt.Router.Reached.{All, any_client, reaches}
use rmqtt.Router.Delivered.{MayGet, collected-MayGet}
use rmqtt.Shared.{
  forwards_to, Undelivered, arrived, failed, collect_subscription_client_ids, Peer, Node, forwards,
  or_no_relations, relations_map,
}
use rmqtt.Shared.Inboxes.{lost, forwards_to_lem, addressed, after, inbox-forwards_to}
use rmqtt.Shared.Published.{
  AllKeyed, add_filters-AllKeyed, of_node, any_client-into_rels, addressed-none, addressed-some,
  IsCopy, addressed-IsCopy,
}

module _ {L : Type 0} ⦃l : Key L⦄ (lv : Levels L) (tn : TopicNames L) where
  -- The relations of the node itself for a message.
  pub own_relations :
      (String → String → ℕ → ℕ)
      → (ℕ → String → Bool)
      → From
      → List L
      → Node lv tn
      → List SubRelation
  own_relations random is_online from topic b =
      into_rels
        (or_no_rels (get b.node_id (collected lv tn random is_online from.id topic b.router)))

  module _ (random : String → String → ℕ → ℕ) (is_online : ℕ → String → Bool) (from : From)
      (p : Publish) (topic : List L) (b : Node lv tn) (c : String) where
    node_relations :
        tn.from_str p.topic ≡ some topic
        → or_no_relations (get b.node_id (relations_map lv tn random is_online from p b))
          ≡ own_relations random is_online from topic b
    unfolding own_relations router_matches
    node_relations e =
        rw (router_matches, e)
          (of_node b.node_id (collected lv tn random is_online from.id topic b.router))

    any_client-own_relations :
        any_client c (own_relations random is_online from topic b)
        ≡ reaches b.node_id c (collected lv tn random is_online from.id topic b.router)
    unfolding own_relations reaches
    any_client-own_relations =
        let cs = collected lv tn random is_online from.id topic b.router in
        let keyed : AllKeyed cs =
          add_filters-AllKeyed random is_online from.id b.router.relations
            (matched_filters lv tn b.router.topics topic) [] (λ n. tt) in
        any_client-into_rels c (or_no_rels (get b.node_id cs)) (keyed b.node_id)

    pub inbox-forwards :
        tn.from_str p.topic ≡ some topic
        → get c (forwards lv tn random is_online from p b).1.peers
          ≡ after (addressed from p c (own_relations random is_online from topic b)) (get c b.peers)
    unfolding forwards
    inbox-forwards e =
        rw
          (
            inbox-forwards_to from p
                (or_no_relations (get b.node_id (relations_map lv tn random is_online from p b)))
                b.peers c,
            node_relations e,
          )
          refl

    -- What `forwards` answers: the messages that did not arrive, if there are any.
    pub forwards_lem :
        tn.from_str p.topic ≡ some topic
        → let errs = lost from p b.peers (own_relations random is_online from topic b) in
          let answer = (forwards lv tn random is_online from p b).0 in
          ((errs ≡ [])
            × ((ids : Option (List (String × Option (String × String)))) × (answer ≡ arrived ids)))
          ⊎ ((errs ≢ []) × (answer ≡ failed errs))
    unfolding forwards
    forwards_lem e =
        by_errors (lost from p b.peers (own_relations random is_online from topic b)) refl
      where
        errors :
            (forwards_to from p
              (or_no_relations (get b.node_id (relations_map lv tn random is_online from p b)))
              b.peers).0
            ≡ lost from p b.peers (own_relations random is_online from topic b)
        errors =
            forwards_to_lem from p
              (or_no_relations (get b.node_id (relations_map lv tn random is_online from p b)))
              b.peers
            ∙ ap (lost from p b.peers) (node_relations e)

        by_errors :
            (errs : List Undelivered)
            → lost from p b.peers (own_relations random is_online from topic b) ≡ errs
            → ((errs ≡ [])
                × ((ids : Option (List (String × Option (String × String)))) × ((forwards lv tn
                        random is_online from p b).0
                      ≡ arrived ids)))
              ⊎ ((errs ≢ []) × ((forwards lv tn random is_online from p b).0 ≡ failed errs))
        by_errors [] none_lost = inl (
          refl,
          (
            collect_subscription_client_ids (relations_map lv tn random is_online from p b),
            rw (forwards, errors ∙ none_lost) refl,
          ),
        )
        by_errors (x ∷ xs) some_lost = inr (λ z. cc, rw (forwards, errors ∙ some_lost) refl)

    -- The messages of the client for its relations, of a client with a channel that works.
    got :
        (peer : Peer)
        → tn.from_str p.topic ≡ some topic
        → get c b.peers ≡ some peer
        → peer.closed ≡ false
        → get c (forwards lv tn random is_online from p b).1.peers
          ≡ some (record peer {
            inbox = peer.inbox ++ addressed from p c (own_relations random is_online from topic b);
          })
    got peer legal here works = ground (arith, inbox-forwards legal)

    -- Of a message on a legal topic, a client that has a session on the node with a channel that works:
    -- its channel gets messages behind those it had, which are copies of the message, of no higher quality, and
    -- marked as retained only if it was; it gets one only
    -- if it may get the message by some filter of the router, and does get one if it may by a filter
    -- without a shared group, whatever is drawn in the groups.
    pub forwards-MayGet :
        (peer : Peer)
        → tn.from_str p.topic ≡ some topic
        → get c b.peers ≡ some peer
        → peer.closed ≡ false
        → (ms : List (From × Publish)) × (get c (forwards lv tn random is_online from p b).1.peers
            ≡ some (record peer { inbox = peer.inbox ++ ms }))
          × All (IsCopy from p) ms
          × (ms ≢ []
              → (opts : SubscriptionOptions) × MayGet lv tn from.id topic b.router b.node_id c opts)
          × ((opts : SubscriptionOptions)
              → MayGet lv tn from.id topic b.router b.node_id c opts
              → shared_group opts ≡ none
              → ms ≢ [])
    forwards-MayGet peer legal here works = (
      addressed from p c rels,
      got peer legal here works,
      addressed-IsCopy from p c rels,
      sound,
      complete,
    )
      where
        rels : List SubRelation
        rels = own_relations random is_online from topic b

        both :
            (reaches b.node_id c (collected lv tn random is_online from.id topic b.router) ≡ true
              → (opts : SubscriptionOptions) × MayGet lv tn from.id topic b.router b.node_id c opts)
            × ((opts : SubscriptionOptions)
                → MayGet lv tn from.id topic b.router b.node_id c opts
                → shared_group opts ≡ none
                → reaches b.node_id c (collected lv tn random is_online from.id topic b.router)
                  ≡ true)
        both = collected-MayGet lv tn random is_online from.id topic b.router b.node_id c

        sound :
            addressed from p c rels ≢ []
            → (opts : SubscriptionOptions) × MayGet lv tn from.id topic b.router b.node_id c opts
        sound some_sent = elim (Bool-cases (any_client c rels)) [
          | inl e ↦ both.0 (sym any_client-own_relations ∙ e)
          | inr e ↦ absurd (some_sent (addressed-none from p c rels e))
        ]

        complete :
            (opts : SubscriptionOptions)
            → MayGet lv tn from.id topic b.router b.node_id c opts
            → shared_group opts ≡ none
            → addressed from p c rels ≢ []
        complete opts may plain =
            addressed-some from p c rels (any_client-own_relations ∙ both.1 opts may plain)
