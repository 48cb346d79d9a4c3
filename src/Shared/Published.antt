-- ===== src/Shared/Published.antt =====
-- Who gets a message that is published on a node, through the router and the table of sessions of
-- rmqtt/src/broker/default.rs.
use Prim.Native.String.{String}
use text.Mathlib.TextEquality.{eq_iff}
use rmqtt.Common.{
  not, ◌&&◌, ◌≤◌, ℕ, ◌==◌, ◌≡◌, ◌≢◌, refl, ◌∙◌, ap, Bool, true, false, ◌||◌, Option, none, some,
  List, [], ◌∷◌, ◌++◌, map, get, put, get-put, same, nat_key, is_some, arith, Bool-cases,
  Option-cases, inl, inr,
}
use rmqtt.Types.{Identity, Publish, From, string_key, value}
use rmqtt.Subscriptions.{SubscriptionOptions, shared_group, is_v3, subscription_identifier}
use rmqtt.Subscriptions.Collector.{
  SubRelation, SharedGroupType, SubscriptioRelationsCollector, add, into_rels, v5_entry,
}
use rmqtt.Router.{Clients, or_empty}
use rmqtt.Router.Choice.{Member, choice, remove_at}
use rmqtt.Router.Delivery.{
  Collectors, Groups, or_no_rels, add_for_node, is_own, add_client, add_clients, add_chosen,
  add_groups, add_filter, add_filters,
}
use rmqtt.Router.Reached.{All, any_client, collects}
use rmqtt.Shared.{adapt, or_no_relations}
use rmqtt.Shared.Inboxes.{addressed}

-- The entries of version 5 stand under their own clients.
abbrev pub IsKeyed : List (String × SubRelation) → Type 0
IsKeyed [] = Unit
IsKeyed ((c, r) ∷ rels) = (r.client_id ≡ c) × IsKeyed rels

get-IsKeyed :
    (c : String) (r : SubRelation) (rels : List (String × SubRelation))
    → IsKeyed rels
    → get c rels ≡ some r
    → r.client_id ≡ c
get-IsKeyed c r [] k e = cc
get-IsKeyed c r ((d, q) ∷ rels) k e = ground (arith, eq_iff d c, get-IsKeyed c r rels k.1)

put-IsKeyed :
    (c : String) (r : SubRelation) (rels : List (String × SubRelation))
    → r.client_id ≡ c
    → IsKeyed rels
    → IsKeyed (put c r rels)
put-IsKeyed c r [] e k = (e, tt)
put-IsKeyed c r ((d, q) ∷ rels) e k = ground (arith, eq_iff d c, put-IsKeyed c r rels e k.1)

any_client-IsKeyed :
    (c : String) (rels : List (String × SubRelation))
    → IsKeyed rels
    → any_client c (map (λ e. e.1) rels) ≡ is_some (get c rels)
any_client-IsKeyed c [] k = refl
any_client-IsKeyed c ((d, q) ∷ rels) k = ground (arith, any_client-IsKeyed c rels k.1)

v5_entry-client :
    (tf c : String) (opts : SubscriptionOptions) (g : Option SharedGroupType)
    (rels : List (String × SubRelation))
    → IsKeyed rels
    → (v5_entry tf c opts g (get c rels)).client_id ≡ c
v5_entry-client tf c opts g rels k = elim (Option-cases (get c rels)) [
  | inl e ↦ rw e refl
  | inr (r, e) ↦ elim (Option-cases (subscription_identifier opts)) [
    | inl f ↦ ground (arith, get-IsKeyed c r rels k e)
    | inr (id, f) ↦ ground (arith, get-IsKeyed c r rels k e)
  ]
]

any_client-append :
    (c : String) (xs ys : List SubRelation)
    → any_client c (xs ++ ys) ≡ (any_client c xs || any_client c ys)
any_client-append c [] ys = refl
any_client-append c (x ∷ xs) ys = ground (arith, any_client-append c xs ys)

-- Every collector is keyed.
abbrev pub AllKeyed : Collectors → Type 0
AllKeyed cs = (n : ℕ) → IsKeyed (or_no_rels (get n cs)).v5_rels

pub any_client-into_rels :
    (c : String) (k : SubscriptioRelationsCollector)
    → IsKeyed k.v5_rels
    → any_client c (into_rels k) ≡ collects c k
unfolding into_rels
any_client-into_rels c k h =
    any_client-append c k.v3_rels (map (λ e. e.1) k.v5_rels)
    ∙ ap (λ b. any_client c k.v3_rels || b) (any_client-IsKeyed c k.v5_rels h)

add-IsKeyed :
    (tf c : String) (opts : SubscriptionOptions) (g : Option SharedGroupType)
    (k : SubscriptioRelationsCollector)
    → IsKeyed k.v5_rels
    → IsKeyed (add tf c opts g k).v5_rels
unfolding add
add-IsKeyed tf c opts g k h = elim (Bool-cases (is_v3 opts)) [
  | inl e ↦ rw (e, add) h
  | inr e ↦
      rw (e, add)
        (put-IsKeyed c (v5_entry tf c opts g (get c k.v5_rels)) k.v5_rels
          (v5_entry-client tf c opts g k.v5_rels h) h)
]

add_for_node-AllKeyed :
    (m : ℕ) (tf c : String) (opts : SubscriptionOptions) (g : Option SharedGroupType)
    (cs : Collectors)
    → AllKeyed cs
    → AllKeyed (add_for_node m tf c opts g cs)
unfolding add_for_node
add_for_node-AllKeyed m tf c opts g cs h n =
    let new = add tf c opts g (or_no_rels (get m cs)) in
    elim (Bool-cases (m == n)) [
      | inl e ↦ rw (get-put m n new cs, e) (add-IsKeyed tf c opts g (or_no_rels (get m cs)) (h m))
      | inr e ↦ rw (get-put m n new cs, e) (h n)
    ]

module _ (random : String → String → ℕ → ℕ) (is_online : ℕ → String → Bool)
    (this_id : Identity) where
  add_client-AllKeyed :
      (tf c : String) (id : Identity) (opts : SubscriptionOptions) (gs : Groups) (cs : Collectors)
      → AllKeyed cs
      → AllKeyed (add_client random is_online this_id tf c (id, opts) (gs, cs)).1
  unfolding add_client
  add_client-AllKeyed tf c id opts gs cs h = elim (Bool-cases (is_own this_id id opts)) [
    | inl own ↦ rw (own, add_client) h
    | inr other ↦ elim (Option-cases (shared_group opts)) [
      | inl plain ↦
          rw (other, add_client, plain) (add_for_node-AllKeyed id.node_id tf c opts none cs h)
      | inr (group, shared) ↦ rw (other, add_client, shared) h
    ]
  ]

  add_clients-AllKeyed :
      (tf : String) (rels : Clients) (gs : Groups) (cs : Collectors)
      → AllKeyed cs
      → AllKeyed (add_clients random is_online this_id tf rels (gs, cs)).1
  unfolding add_clients
  add_clients-AllKeyed tf [] gs cs h = h
  add_clients-AllKeyed tf ((c, (id, opts)) ∷ rels) gs cs h =
      let next = add_client random is_online this_id tf c (id, opts) (gs, cs) in
      add_clients-AllKeyed tf rels next.0 next.1 (add_client-AllKeyed tf c id opts gs cs h)

  add_groups-AllKeyed :
      (tf : String) (gs : Groups) (cs : Collectors)
      → AllKeyed cs
      → AllKeyed (add_groups random is_online tf gs cs)
  unfolding add_groups add_chosen
  add_groups-AllKeyed tf [] cs h = h
  add_groups-AllKeyed tf ((group, ms) ∷ gs) cs h =
      add_groups-AllKeyed tf gs _ (chosen (choice (random tf group) is_online ms) ms)
    where
      chosen :
          (picked : Option (ℕ × Bool)) (xs : List Member)
          → AllKeyed (add_chosen random is_online tf group (map (λ m. m.client_id) ms) picked xs cs)
      chosen none xs = h
      chosen (some (idx, online)) [] = h
      chosen (some (idx, online)) (m ∷ xs) =
          let got = (remove_at idx m xs).0 in
          add_for_node-AllKeyed got.node_id tf got.client_id got.opts _ cs h

  pub add_filters-AllKeyed :
      (relations : List (String × Clients)) (tfs : List String) (cs : Collectors)
      → AllKeyed cs
      → AllKeyed (add_filters random is_online this_id relations tfs cs)
  unfolding add_filters add_filter
  add_filters-AllKeyed relations [] cs h = h
  add_filters-AllKeyed relations (tf ∷ tfs) cs h =
      add_filters-AllKeyed relations tfs _
        (add_groups-AllKeyed tf _ _ (add_clients-AllKeyed tf (or_empty (get tf relations)) [] cs h))

-- The relations of one node in the map that `_matches` gives.
pub of_node :
    (n : ℕ) (cs : Collectors)
    → or_no_relations (get n (map (λ (node_id, k). (node_id, into_rels k)) cs))
      ≡ into_rels (or_no_rels (get n cs))
unfolding into_rels
of_node n [] = refl
of_node n ((m, k) ∷ cs) = elim (Bool-cases (m == n)) [
  | inl e ↦ rw e refl
  | inr e ↦ rw e (of_node n cs)
]

-- Each message is the one that was published, with no higher quality, marked as retained only if it was, and
-- without a packet id.
abbrev pub IsCopy : From → Publish → From × Publish → Type 0
IsCopy from p m =
    (m.0 ≡ from)
    × (m.1.topic ≡ p.topic)
    × (m.1.payload ≡ p.payload)
    × (m.1.dup ≡ false)
    × (m.1.packet_id ≡ none)
    × (value m.1.qos ≤ value p.qos)
    × ((m.1.retain && not p.retain) ≡ false)

adapt-IsCopy : (from : From) (p : Publish) (rel : SubRelation) → IsCopy from p (from, adapt p rel)
unfolding adapt
adapt-IsCopy from p rel = (refl, refl, refl, refl, refl, ground arith, ground arith)

module _ (from : From) (p : Publish) (c : String) where
  pub addressed-none :
      (rels : List SubRelation) → any_client c rels ≡ false → addressed from p c rels ≡ []
  addressed-none [] e = refl
  addressed-none (r ∷ rels) e = ground (arith, addressed-none rels)

  pub addressed-some :
      (rels : List SubRelation) → any_client c rels ≡ true → addressed from p c rels ≢ []
  addressed-some [] e n = cc
  addressed-some (r ∷ rels) e n = ground (arith, addressed-some rels)

  pub addressed-IsCopy : (rels : List SubRelation) → All (IsCopy from p) (addressed from p c rels)
  addressed-IsCopy [] = tt
  addressed-IsCopy (r ∷ rels) = elim (Bool-cases (same r.client_id c)) [
    | inl e ↦ rw e (adapt-IsCopy from p r, addressed-IsCopy rels)
    | inr e ↦ rw e (addressed-IsCopy rels)
  ]
