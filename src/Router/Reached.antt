-- ===== src/Router/Reached.antt =====
-- Whom `_matches` of rmqtt/src/broker/default.rs reaches: a predicate of nodes and clients that holds of
-- the clients of the filters holds of all that are reached, and who is reached once stays reached.
use Prim.Native.String.{String}
use rmqtt.Common.{
  ℕ, ◌==◌, ==_iff, ◌≡◌, refl, ap, sym, ◌∙◌, subst, Bool, true, false, ◌&&◌, ◌||◌, Option, none,
  some, List, [], ◌∷◌, ◌++◌, map, same, get, put, get-put, In, is_some, arith, Bool-cases,
  Option-cases, inl, inr, nat_key,
}
use rmqtt.Types.{Identity, string_key}
use rmqtt.Subscriptions.{SubscriptionOptions, is_v3, shared_group}
use rmqtt.Subscriptions.Collector.{
  SubscriptioRelationsCollector, SharedGroupType, SubRelation, add, v5_entry, new_relation,
}
use rmqtt.Router.Choice.{Member, choice, remove_at, In-remove_at}
use rmqtt.Router.{Clients, or_empty}
use rmqtt.Router.Delivery.{
  Collectors, Groups, or_no_rels, or_no_members, add_for_node, push_member, is_own, add_client,
  add_clients, add_chosen, add_groups, add_filter, add_filters,
}

abbrev pub any_client : String → List SubRelation → Bool
any_client c [] = false
any_client c (r ∷ rels) = same r.client_id c || any_client c rels

abbrev pub collects : String → SubscriptioRelationsCollector → Bool
collects c k = any_client c k.v3_rels || is_some (get c k.v5_rels)

-- Whether the message goes to a client on a node.
unfoldable pub reaches : ℕ → String → Collectors → Bool
reaches n c collectors = collects c (or_no_rels (get n collectors))

any_client-append :
    (c : String) (r : SubRelation) (rels : List SubRelation)
    → any_client c (rels ++ r ∷ []) ≡ (any_client c rels || same r.client_id c)
any_client-append c r [] = ground arith
any_client-append c r (x ∷ rels) = ground (arith, any_client-append c r rels)

collects-add :
    (tf d c : String) (opts : SubscriptionOptions) (g : Option SharedGroupType)
    (k : SubscriptioRelationsCollector)
    → collects c (add tf d opts g k) ≡ (collects c k || same d c)
unfolding add
collects-add tf d c opts g k = elim (Bool-cases (is_v3 opts)) [
  | inl e ↦
      rw (e, add) (ground (arith, any_client-append c (new_relation tf d opts none g) k.v3_rels))
  | inr e ↦
      rw (e, add, get-put d c (v5_entry tf d opts g (get d k.v5_rels)) k.v5_rels) (ground arith)
]

pub reaches-add_for_node :
    (n m : ℕ) (c tf d : String) (opts : SubscriptionOptions) (g : Option SharedGroupType)
    (cs : Collectors)
    → reaches n c (add_for_node m tf d opts g cs) ≡ (reaches n c cs || (m == n && same d c))
unfolding reaches add_for_node
reaches-add_for_node n m c tf d opts g cs =
    let new = add tf d opts g (or_no_rels (get m cs)) in
    elim (Bool-cases (m == n)) [
      | inl e ↦
          let here : get n (put m new cs) ≡ some new = get-put m n new cs ∙ rw e refl in
          let same_node = (==_iff m n).0 e in
          rw (here, e)
            (collects-add tf d c opts g (or_no_rels (get m cs))
              ∙ ap (λ k. collects c (or_no_rels (get k cs)) || same d c) same_node)
      | inr e ↦
          let there : get n (put m new cs) ≡ get n cs = get-put m n new cs ∙ rw e refl in
          rw (there, e) (ground arith)
    ]

-- A predicate of the elements of a list.
abbrev pub All : {A : Type 0} → (A → Type 0) → List A → Type 0
All p [] = Unit
All p (x ∷ xs) = p x × All p xs

All-In : {A : Type 0} (p : A → Type 0) (a : A) (xs : List A) → In a xs → All p xs → p a
All-In p a [] i h = elim i [ ]
All-In p a (x ∷ xs) (inl e) h = subst p (sym e) h.0
All-In p a (x ∷ xs) (inr i) h = All-In p a xs i h.1

All-append_one :
    {A : Type 0} (p : A → Type 0) (a : A) (xs : List A) → All p xs → p a → All p (xs ++ a ∷ [])
All-append_one p a [] h q = (q, tt)
All-append_one p a (x ∷ xs) h q = (h.0, All-append_one p a xs h.1 q)

-- `p` is meant to hold of a node and a client that may be reached.
module _ (random : String → String → ℕ → ℕ) (is_online : ℕ → String → Bool)
    (p : ℕ → String → Type 0) where
  abbrev Members : List Member → Type 0
  Members ms = All (λ m. p m.node_id m.client_id) ms

  abbrev AllGroups : Groups → Type 0
  AllGroups gs = All (λ g. Members g.1) gs

  abbrev OnlyReaches : Collectors → Type 0
  OnlyReaches cs = (n : ℕ) (c : String) → reaches n c cs ≡ true → p n c

  or_no_members-Members :
      (g : String) (gs : Groups) → AllGroups gs → Members (or_no_members (get g gs))
  or_no_members-Members g [] h = tt
  or_no_members-Members g ((j, ms) ∷ gs) h = elim (Bool-cases (same j g)) [
    | inl e ↦ rw e h.0
    | inr e ↦ rw e (or_no_members-Members g gs h.1)
  ]

  put-AllGroups :
      (g : String) (ms : List Member) (gs : Groups)
      → Members ms
      → AllGroups gs
      → AllGroups (put g ms gs)
  put-AllGroups g ms [] q h = (q, tt)
  put-AllGroups g ms ((j, old) ∷ gs) q h = elim (Bool-cases (same j g)) [
    | inl e ↦ rw e (q, h.1)
    | inr e ↦ rw e (h.0, put-AllGroups g ms gs q h.1)
  ]

  add_for_node-OnlyReaches :
      (m : ℕ) (tf d : String) (opts : SubscriptionOptions) (g : Option SharedGroupType)
      (cs : Collectors)
      → p m d
      → OnlyReaches cs
      → OnlyReaches (add_for_node m tf d opts g cs)
  add_for_node-OnlyReaches m tf d opts g cs q h n c e =
      let e' = sym (reaches-add_for_node n m c tf d opts g cs) ∙ e in
      elim (Bool-cases (reaches n c cs)) [
        | inl old ↦ h n c old
        | inr fresh ↦
            let both : (m == n && same d c) ≡ true = rw fresh at e' in
            let node : m ≡ n = ground (arith, both) in
            let client : d ≡ c = (string_key.same_iff d c).0 (ground (arith, both)) in
            rw (← node, ← client) q
      ]

  abbrev Sound : Groups × Collectors → Type 0
  Sound found = AllGroups found.0 × OnlyReaches found.1

  add_client-Sound :
      (this_id : Identity) (tf c : String) (id : Identity) (opts : SubscriptionOptions)
      (gs : Groups) (cs : Collectors)
      → (is_own this_id id opts ≡ false → p id.node_id c)
      → Sound (gs, cs)
      → Sound (add_client random is_online this_id tf c (id, opts) (gs, cs))
  unfolding add_client push_member
  add_client-Sound this_id tf c id opts gs cs may (h, only) =
      elim (Bool-cases (is_own this_id id opts)) [
        | inl own ↦ rw (own, add_client) (h, only)
        | inr other ↦ elim (Option-cases (shared_group opts)) [
          | inl plain ↦
              rw (other, add_client, plain)
                (h, add_for_node-OnlyReaches id.node_id tf c opts none cs (may other) only)
          | inr (group, shared) ↦
              rw (other, add_client, shared)
                (
                  put-AllGroups group _ gs
                      (All-append_one (λ m. p m.node_id m.client_id) _
                        (or_no_members (get group gs)) (or_no_members-Members group gs h)
                        (may other))
                      h,
                  only,
                )
        ]
      ]

  add_clients-Sound :
      (this_id : Identity) (tf : String) (rels : Clients) (gs : Groups) (cs : Collectors)
      → ((c : String) (id : Identity) (opts : SubscriptionOptions)
          → In (c, (id, opts)) rels
          → is_own this_id id opts ≡ false
          → p id.node_id c)
      → Sound (gs, cs)
      → Sound (add_clients random is_online this_id tf rels (gs, cs))
  unfolding add_clients
  add_clients-Sound this_id tf [] gs cs may s = s
  add_clients-Sound this_id tf ((c, (id, opts)) ∷ rels) gs cs may s =
      let next = add_client random is_online this_id tf c (id, opts) (gs, cs) in
      add_clients-Sound this_id tf rels next.0 next.1 (λ d i o k. may d i o (inr k))
        (add_client-Sound this_id tf c id opts gs cs (may c id opts (inl refl)) s)

  add_groups-OnlyReaches :
      (tf : String) (gs : Groups) (cs : Collectors)
      → AllGroups gs
      → OnlyReaches cs
      → OnlyReaches (add_groups random is_online tf gs cs)
  unfolding add_groups add_chosen
  add_groups-OnlyReaches tf [] cs h only = only
  add_groups-OnlyReaches tf ((group, ms) ∷ gs) cs h only =
      add_groups-OnlyReaches tf gs _ h.1 (chosen (choice (random tf group) is_online ms) ms h.0)
    where
      chosen :
          (picked : Option (ℕ × Bool)) (xs : List Member)
          → Members xs
          → OnlyReaches
              (add_chosen random is_online tf group (map (λ m. m.client_id) ms) picked xs cs)
      chosen none xs q = only
      chosen (some (idx, online)) [] q = only
      chosen (some (idx, online)) (m ∷ xs) q =
          let got = (remove_at idx m xs).0 in
          add_for_node-OnlyReaches got.node_id tf got.client_id got.opts _ cs
            (All-In (λ m. p m.node_id m.client_id) got (m ∷ xs)
              (In-remove_at idx m got xs (inl refl)) q)
            only

  -- Nobody is reached but those of whom `p` holds, where it holds of every client of the filters that
  -- may have the message.
  pub add_filters-OnlyReaches :
      (this_id : Identity) (relations : List (String × Clients)) (tfs : List String)
      (cs : Collectors)
      → ((tf c : String) (id : Identity) (opts : SubscriptionOptions)
          → In tf tfs
          → In (c, (id, opts)) (or_empty (get tf relations))
          → is_own this_id id opts ≡ false
          → p id.node_id c)
      → OnlyReaches cs
      → OnlyReaches (add_filters random is_online this_id relations tfs cs)
  unfolding add_filters add_filter
  add_filters-OnlyReaches this_id relations [] cs may only = only
  add_filters-OnlyReaches this_id relations (tf ∷ tfs) cs may only =
      let (h, next) =
        add_clients-Sound this_id tf (or_empty (get tf relations)) [] cs
          (λ c id opts. may tf c id opts (inl refl)) (tt, only) in
      add_filters-OnlyReaches this_id relations tfs _ (λ f c id opts i. may f c id opts (inr i))
        (add_groups-OnlyReaches tf _ _ h next)
