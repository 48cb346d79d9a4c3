-- ===== src/Router/Relations.antt =====
-- The relations, the tree and the two counters of rmqtt/src/broker/default.rs agree: every topic filter
-- with a client stands in the tree, no other does, and the counters count filters and subscriptions.
use Prim.Native.String.{String}
use rmqtt.Common.{
  ◌+◌, ◌≡◌, refl, ap, sym, ◌∙◌, true, false, Option, none, some, List, [], ◌∷◌, Key, same, get, put,
  del, get-put, get-del, Distinct, put-Distinct, del-Distinct, length, length-put, length-del,
  is_some, arith, Option-cases, Bool-cases, inl, inr, unit_key, same→eq, same_refl,
}
use rmqtt.Types.{Identity, string_key}
use rmqtt.Subscriptions.{SubscriptionOptions}
use rmqtt.Stats.{dec}
use rmqtt.TopicTree.{Node, contains, set_insert, set_remove}
use rmqtt.TopicTree as TopicTree
use rmqtt.TopicTree.Values.{values_at, values_at-insert, values_at-remove, values_at-default}
use rmqtt.Router.Names.{TopicNames}
use rmqtt.Router.{
  Router, Clients, or_empty, no_clients, remove_enable, new, add, remove, drop_filter,
}
use rmqtt.Router.Agreement.{
  clients_total, total-put, total-del, inc_unless-IsAt, dec-IsAt, no_clients-length, no_clients-put,
  contains-set_insert, contains-set_remove, FilterSound, InTree, IsRouted, same_levels,
  put-FilterSound,
}

module _ {L : Type 0} ⦃l : Key L⦄ (tn : TopicNames L) where
  -- What `add` makes of a router, given the clients that the filter has.
  add-IsRouted :
      (tf : String) (id : Identity) (opts : SubscriptionOptions) (r : Router L)
      → IsRouted tn r
      → IsRouted tn (add tn tf id opts r).1
  unfolding add
  add-IsRouted tf id opts r w = elim (Option-cases (tn.from_str tf)) [
    | inl e ↦ rw (e, add) w
    | inr (topic, e) ↦
        let rels = or_empty (get tf r.relations) in
        let rels' = put id.client_id (id, opts) rels in
        let more = length-put id.client_id (id, opts) rels in
        rw (e, add)
          (record {
            distinct = put-Distinct tf rels' r.relations w.distinct;
            filters =
                put-FilterSound tn tf rels' r.relations topic
                  (put-Distinct id.client_id (id, opts) rels (or_empty-Distinct tf r w))
                  (no_clients-put id.client_id (id, opts) rels) e w.filters;
            in_tree = insert-InTree tf rels' r topic e w;
            filters_counted =
                inc_unless-IsAt (is_some (get tf r.relations)) r.topics_count _ _ w.filters_counted
                  (length-put tf rels' r.relations);
            subscriptions_counted =
                inc_unless-IsAt (is_some (get id.client_id rels)) r.relations_count _ _
                  w.subscriptions_counted
                  (omega (
                    arith,
                    more,
                    total-put tf rels' r.relations,
                    or_empty-length (get tf r.relations),
                  ));
          })
  ]
    where
      or_empty-length : (o : Option Clients) → length (or_empty o) ≡ clients_total o
      or_empty-length none = refl
      or_empty-length (some rels) = refl

      or_empty-Distinct :
          (tf : String) (r : Router L) → IsRouted tn r → Distinct (or_empty (get tf r.relations))
      or_empty-Distinct tf r w = elim (Option-cases (get tf r.relations)) [
        | inl e ↦ rw e tt
        | inr (rels, e) ↦ rw e (w.filters tf rels e).0
      ]

      insert-InTree :
          (tf : String) (rels : Clients) (r : Router L) (topic : List L)
          → tn.from_str tf ≡ some topic
          → IsRouted tn r
          → InTree tn (TopicTree.insert topic tt r.topics).1 (put tf rels r.relations)
      insert-InTree tf rels r topic e w q topic' e' =
          let at = (values_at-insert topic topic' tt r.topics).1 in
          let now = get-put tf q rels r.relations in
          let both = same_levels tn tf q topic topic' e e' in
          elim (Bool-cases (same tf q)) [
            | inl s ↦ rw (at, both, now, s) (contains-set_insert (values_at topic r.topics))
            | inr s ↦ rw (at, both, now, s) (w.in_tree q topic' e')
          ]

  -- The client that is removed has an entry.
  remove_enable-entry :
      (id : Identity) (rels : Clients)
      → remove_enable id rels ≡ true
      → is_some (get id.client_id rels) ≡ true
  remove_enable-entry id rels h = elim (Option-cases (get id.client_id rels)) [
    | inl e ↦ let clash : false ≡ true = rw (e, remove_enable) at h in absurd (cc clash)
    | inr (v, e) ↦ ap is_some e
  ]

  -- A client is taken from a filter that keeps others.
  keep_filter-IsRouted :
      (tf : String) (rels rels' : Clients) (r : Router L)
      → IsRouted tn r
      → get tf r.relations ≡ some rels
      → Distinct rels'
      → no_clients rels' ≡ false
      → length rels' + 1 ≡ length rels
      → IsRouted tn (record r {
        relations = put tf rels' r.relations;
        relations_count = dec r.relations_count;
      })
  keep_filter-IsRouted tf rels rels' r w e d ne fewer =
      let (topic, parsed) = (w.filters tf rels e).2 in
      record {
        distinct = put-Distinct tf rels' r.relations w.distinct;
        filters = put-FilterSound tn tf rels' r.relations topic d ne parsed w.filters;
        in_tree = λ q topic' e'. elim (Bool-cases (same tf q)) [
          | inl s ↦
              rw (get-put tf q rels' r.relations, s)
                (w.in_tree q topic' e'
                  ∙ ap (λ z. is_some (get z r.relations)) (sym (same→eq tf q s))
                  ∙ ap is_some e)
          | inr s ↦ rw (get-put tf q rels' r.relations, s) (w.in_tree q topic' e')
        ];
        filters_counted =
            omega (arith, w.filters_counted, rw e at (length-put tf rels' r.relations));
        subscriptions_counted =
            dec-IsAt r.relations_count _ _ w.subscriptions_counted
              (omega (arith, fewer, rw e at (total-put tf rels' r.relations)));
      }

  -- The last client is taken from a filter, which leaves the relations and the tree.
  drop_filter-IsRouted :
      (tf : String) (rels rels' : Clients) (topic : List L) (r : Router L)
      → IsRouted tn r
      → get tf r.relations ≡ some rels
      → tn.from_str tf ≡ some topic
      → no_clients rels' ≡ true
      → length rels' + 1 ≡ length rels
      → IsRouted tn (record {
        topics = (TopicTree.remove topic tt r.topics).1;
        topics_count = dec r.topics_count;
        relations = del tf (put tf rels' r.relations);
        relations_count = dec r.relations_count;
      })
  drop_filter-IsRouted tf rels rels' topic r w e parsed none_left fewer =
      let m = put tf rels' r.relations in
      let d = put-Distinct tf rels' r.relations w.distinct in
      let here : get tf m ≡ some rels' = get-put tf tf rels' r.relations ∙ rw (same_refl tf) refl in
      record {
        distinct = del-Distinct tf m d;
        filters = λ q. del_put-FilterSound q;
        in_tree = λ q topic' e'.
            let at = (values_at-remove topic topic' tt r.topics).1 in
            let both = same_levels tn tf q topic topic' parsed e' in
            elim (Bool-cases (same tf q)) [
              | inl s ↦
                  rw (at, both, get-del tf q m, s) (contains-set_remove (values_at topic r.topics))
              | inr s ↦
                  rw (at, both, get-del tf q m, s, get-put tf q rels' r.relations, s)
                    (w.in_tree q topic' e')
            ];
        filters_counted = dec-IsAt r.topics_count _ _ w.filters_counted (
            omega
              (arith, rw here at (length-del tf m d), rw e at (length-put tf rels' r.relations)));
        subscriptions_counted = dec-IsAt r.relations_count _ _ w.subscriptions_counted (
            omega (
              arith,
              fewer,
              no_clients-length rels' none_left,
              rw here at (total-del tf m d),
              rw e at (total-put tf rels' r.relations),
            ));
      }
    where
      del_put-FilterSound : (q : String) → FilterSound tn (del tf (put tf rels' r.relations)) q
      del_put-FilterSound q found h = elim (Bool-cases (same tf q)) [
        | inl s ↦
            let clash : none ≡ some found =
              sym (get-del tf q (put tf rels' r.relations) ∙ rw s refl) ∙ h in
            absurd (cc clash)
        | inr s ↦ w.filters q found (
            sym (
              get-del tf q (put tf rels' r.relations)
              ∙ rw (s, get-put tf q rels' r.relations, s) refl)
            ∙ h)
      ]

  remove-IsRouted :
      (tf : String) (id : Identity) (r : Router L)
      → IsRouted tn r
      → IsRouted tn (remove tn tf id r).1
  unfolding remove
  remove-IsRouted tf id r w = elim (Option-cases (get tf r.relations)) [
    | inl e ↦ rw (e, remove) w
    | inr (rels, e) ↦ elim (Bool-cases (remove_enable id rels)) [
      | inr other ↦ rw (e, remove, other) w
      | inl owner ↦
          let rels' = del id.client_id rels in
          let (d, _, (topic, parsed)) = w.filters tf rels e in
          let fewer : length rels' + 1 ≡ length rels =
            rw (remove_enable-entry id rels owner) at (length-del id.client_id rels d) in
          elim (Bool-cases (no_clients rels')) [
            | inr more ↦
                rw (e, remove, owner, more)
                  (keep_filter-IsRouted tf rels rels' r w e (del-Distinct id.client_id rels d) more
                    fewer)
            | inl last ↦
                let here : get tf (put tf rels' r.relations) ≡ some rels' =
                  get-put tf tf rels' r.relations ∙ rw (same_refl tf) refl in
                rw (e, remove, owner, last, parsed, drop_filter, here)
                  (drop_filter-IsRouted tf rels rels' topic r w e parsed last fewer)
          ]
    ]
  ]

pub data Change : Type 0 where
  subscribe : String → Identity → SubscriptionOptions → Change
  unsubscribe : String → Identity → Change

module _ {L : Type 0} ⦃l : Key L⦄ (tn : TopicNames L) where
  unfoldable pub run : List Change → Router L → Router L
  run [] r = r
  run (subscribe tf id opts ∷ changes) r = run changes (add tn tf id opts r).1
  run (unsubscribe tf id ∷ changes) r = run changes (remove tn tf id r).1

  new-IsRouted : IsRouted tn (new tn)
  new-IsRouted = record {
    distinct = tt;
    filters = λ tf rels h. absurd (cc h);
    in_tree = λ tf topic e. ap (contains tt) (values_at-default topic);
    filters_counted = refl;
    subscriptions_counted = refl;
  }

  run-IsRouted :
      (changes : List Change) (r : Router L) → IsRouted tn r → IsRouted tn (run changes r)
  unfolding run
  run-IsRouted [] r w = w
  run-IsRouted (subscribe tf id opts ∷ changes) r w =
      run-IsRouted changes (add tn tf id opts r).1 (add-IsRouted tn tf id opts r w)
  run-IsRouted (unsubscribe tf id ∷ changes) r w =
      run-IsRouted changes (remove tn tf id r).1 (remove-IsRouted tn tf id r w)

  -- After any subscriptions and removals on an empty router: every filter of the relations is a legal
  -- topic filter and has a client, each client once; a legal filter stands in the tree exactly if it
  -- has a client; and the two counters stand at the number of filters and of subscriptions.
  pub run-new-IsRouted : (changes : List Change) → IsRouted tn (run changes (new tn))
  run-new-IsRouted changes = run-IsRouted changes (new tn) new-IsRouted
