-- ===== src/TopicTree/Filters.antt =====
-- The matching rules of MQTT, stated on one filter and one topic, and that the search of
-- rmqtt/src/broker/topic.rs finds exactly the filters of the tree that satisfy them.
use mathlib.Core.Logic.{◌↔◌}
use rmqtt.Common.{
  ℕ, suc, ◌<◌, ◌≡◌, ◌≢◌, refl, sym, ap, ◌∙◌, Bool, true, false, ◌&&◌, ◌||◌, not, none, some, List,
  [], ◌∷◌, ◌++◌, append-nil, append_assoc, length, Key, same, In, In-append, In-append_left,
  In-append_right, is_some, arith, Option-cases, Bool-cases, inl, inr, ◌⊎◌,
}
use rmqtt.TopicTree.Levels.{Levels}
use rmqtt.TopicTree.{Node, node, Branches, get_branch}
use rmqtt.TopicTree.Matcher.{
  Item, add_to_items, values_of, multi_item, is_blocked, is_nil, collect_iter, matches,
}
use rmqtt.TopicTree.Values.{values_at}
use rmqtt.TopicTree.Lazy.{collect, below, collect_iter-matches}

module _ {L : Type 0} ⦃l : Key L⦄ (lv : Levels L) where
  open lv use {blank, multi_wildcard, single_wildcard, is_metadata}

  -- A filter fits a topic level by level: `+` fits any one level, and a final `#` any rest, also
  -- none.
  abbrev pub Fits : List L → List L → Type 0
  Fits [] [] = Unit
  Fits [] (t ∷ ts) = ⊥
  Fits (f ∷ fs) [] = (f ≡ multi_wildcard) × (fs ≡ [])
  Fits (f ∷ fs) (t ∷ ts) =
      ((f ≡ multi_wildcard) × (fs ≡ []))
      ⊎ (((f ≡ single_wildcard) × Fits fs ts) ⊎ ((f ≡ t) × Fits fs ts))

  abbrev pub starts_wild : List L → Bool
  starts_wild [] = false
  starts_wild (f ∷ fs) = same f multi_wildcard || same f single_wildcard

  abbrev pub is_closed : List L → Bool
  is_closed [] = false
  is_closed (t ∷ ts) = not (same t blank) && is_metadata t

  -- A filter matches a topic if it fits it, unless it starts with a wildcard and the topic with `$`.
  abbrev pub Matches : List L → List L → Type 0
  Matches f topic = Fits f topic × ((starts_wild f && is_closed topic) ≡ false)

  -- The same below the root, where `sp` is the part of the filter above.
  abbrev pub Allowed : List L → List L → List L → Type 0
  Allowed sp f topic = (is_nil sp && (starts_wild f && is_closed topic)) ≡ false

  abbrev Found : {V : Type 0} → List L → List L → Node L V → List L → List V → Type 0
  Found sp path n g ws =
      (f : List L) × (g ≡ sp ++ f)
      × Fits f path
      × Allowed sp f path
      × (ws ≡ values_at f n)
      × (ws ≢ [])

  pub is_nil-append : (sp : List L) (t : L) → is_nil (sp ++ t ∷ []) ≡ false
  is_nil-append [] t = refl
  is_nil-append (x ∷ xs) t = refl

  In-add_to_items :
      {V : Type 0} (g h : List L) (ws vs : List V) (items : List (Item L V))
      → In (g, ws) (add_to_items h vs items)
      → ((g ≡ h) × (ws ≡ vs) × (vs ≢ [])) ⊎ In (g, ws) items
  In-add_to_items g h ws [] items i = inr i
  In-add_to_items g h ws (x ∷ xs) items (inl e) = inl (ap (λ p. p.0) e, ap (λ p. p.1) e, λ q. cc)
  In-add_to_items g h ws (x ∷ xs) items (inr i) = inr i

  In-add_to_items_here :
      {V : Type 0} (h : List L) (vs : List V) (items : List (Item L V))
      → vs ≢ []
      → In (h, vs) (add_to_items h vs items)
  In-add_to_items_here h [] items ne = absurd (ne refl)
  In-add_to_items_here h (x ∷ xs) items ne = inl refl

  In-add_to_items_later :
      {V : Type 0} (i : Item L V) (h : List L) (vs : List V) (items : List (Item L V))
      → In i items
      → In i (add_to_items h vs items)
  In-add_to_items_later i h [] items m = m
  In-add_to_items_later i h (x ∷ xs) items m = inr m

  values_at-one : {V : Type 0} (n : Node L V) → values_at [] n ≡ values_of n
  unfolding values_at
  values_at-one (node vs bs) = refl

  values_at-child :
      {V : Type 0} (t : L) (f : List L) (vs : List V) (bs : Branches L V) (b : Node L V)
      → get_branch t bs ≡ some b
      → values_at (t ∷ f) (node vs bs) ≡ values_at f b
  unfolding values_at
  values_at-child t f vs bs b e = rw (e, values_at)

  values_at-no_child :
      {V : Type 0} (t : L) (f : List L) (vs : List V) (bs : Branches L V)
      → get_branch t bs ≡ none
      → values_at (t ∷ f) (node vs bs) ≡ []
  unfolding values_at
  values_at-no_child t f vs bs e = rw (e, values_at)

  In-multi_item :
      {V : Type 0} (g sp : List L) (ws vs : List V) (bs : Branches L V)
      → In (g, ws) (multi_item lv sp bs [])
      → (g ≡ sp ++ multi_wildcard ∷ [])
        × (ws ≡ values_at (multi_wildcard ∷ []) (node vs bs))
        × (ws ≢ [])
        × (is_some (get_branch multi_wildcard bs) ≡ true)
  In-multi_item g sp ws vs bs i = elim (Option-cases (get_branch multi_wildcard bs)) [
    | inl e ↦ absurd (rw (e, multi_item) at i)
    | inr (b, e) ↦
        elim (In-add_to_items g (sp ++ multi_wildcard ∷ []) ws (values_of b) []
          (rw (e, multi_item) at i)) [
            | inl (p, q, ne) ↦ (
              p,
              q ∙ sym (values_at-child multi_wildcard [] vs bs b e ∙ values_at-one b),
              λ z. ne (sym q ∙ z),
              ap is_some e,
            )
            | inr impossible ↦ absurd impossible
          ]
  ]

  In-below :
      {V : Type 0} (g path sp : List L) (t : L) (ws : List V) (bs : Branches L V)
      → In (g, ws) (below lv t path sp bs)
      → (b : Node L V) × (get_branch t bs ≡ some b) × In (g, ws) (collect lv path b (sp ++ t ∷ []))
  In-below g path sp t ws bs i = elim (Option-cases (get_branch t bs)) [
    | inl e ↦ absurd (rw (e, below) at i)
    | inr (b, e) ↦ (b, e, rw (e, below) at i)
  ]

  -- A level that a wildcard or the topic itself gives stands before what was found below it.
  Found-below :
      {V : Type 0} (sp path : List L) (t u : L) (vs : List V) (bs : Branches L V) (b : Node L V)
      (g : List L) (ws : List V)
      → get_branch t bs ≡ some b
      → ((t ≡ single_wildcard) ⊎ (t ≡ u))
      → (is_nil sp && ((same t multi_wildcard || same t single_wildcard) && is_closed (u ∷ path)))
        ≡ false
      → Found (sp ++ t ∷ []) path b g ws
      → Found sp (u ∷ path) (node vs bs) g ws
  Found-below sp path t u vs bs b g ws e way free (f, p, fits, _, q, ne) = (
    t ∷ f,
    p ∙ append_assoc sp (t ∷ []) f,
    step way,
    free,
    q ∙ sym (values_at-child t f vs bs b e),
    ne,
  )
    where
      step :
          (t ≡ single_wildcard) ⊎ (t ≡ u)
          → ((t ≡ multi_wildcard) × (f ≡ []))
            ⊎ (((t ≡ single_wildcard) × Fits f path) ⊎ ((t ≡ u) × Fits f path))
      step (inl w) = inr (inl (w, fits))
      step (inr w) = inr (inr (w, fits))

  -- The topic's own level is not a wildcard that the rule on `$` forbids.
  exact_allowed :
      (sp path : List L) (t : L)
      → (is_nil sp && ((same t multi_wildcard || same t single_wildcard) && is_closed (t ∷ path)))
        ≡ false
  exact_allowed sp path t = elim (Bool-cases (is_metadata t)) [
    | inl meta ↦
        let not_multi : ¬ (t ≡ multi_wildcard) = λ e. cc (lv.multi_plain, ap is_metadata e) in
        let not_single : ¬ (t ≡ single_wildcard) = λ e. cc (lv.single_plain, ap is_metadata e) in
        ground
          (arith, not_multi, not_single, l.same_iff t multi_wildcard, l.same_iff t single_wildcard)
    | inr plain ↦ ground arith
  ]

  Found-exact :
      {V : Type 0} (path : List L) (t : L) (vs : List V) (bs : Branches L V) (sp g : List L)
      (ws : List V)
      → ((b : Node L V)
          → In (g, ws) (collect lv path b (sp ++ t ∷ []))
          → Found (sp ++ t ∷ []) path b g ws)
      → In (g, ws) (below lv t path sp bs)
      → Found sp (t ∷ path) (node vs bs) g ws
  Found-exact path t vs bs sp g ws further m =
      let (b, at_b, rest) = In-below g path sp t ws bs m in
      Found-below sp path t t vs bs b g ws at_b (inr refl) (exact_allowed sp path t)
        (further b rest)

  collect_sound :
      {V : Type 0} (path : List L) (n : Node L V) (sp g : List L) (ws : List V)
      → In (g, ws) (collect lv path n sp)
      → Found sp path n g ws
  unfolding collect
  collect_sound [] (node vs bs) sp g ws i =
      elim (In-add_to_items g sp ws vs (multi_item lv sp bs []) i) [
        | inl (p, q, ne) ↦ (
          [],
          p ∙ sym (append-nil sp),
          tt,
          ground arith,
          q ∙ sym (values_at-one (node vs bs)),
          λ z. ne (sym q ∙ z),
        )
        | inr m ↦
            let (p, q, ne, _) = In-multi_item g sp ws vs bs m in
            (multi_wildcard ∷ [], p, (refl, refl), ground arith, q, ne)
      ]
  collect_sound (t ∷ path) (node vs bs) sp g ws i = elim (Bool-cases (is_blocked lv t sp bs)) [
    | inl e ↦
        Found-exact path t vs bs sp g ws (λ b. collect_sound path b (sp ++ t ∷ []) g ws)
          (rw (e, collect) at i)
    | inr e ↦ elim (In-append (g, ws) (multi_item lv sp bs []) _ (rw (e, collect) at i)) [
      | inl m ↦
          let (p, q, ne, there) = In-multi_item g sp ws vs bs m in
          (multi_wildcard ∷ [], p, inl (refl, refl), ground arith, q, ne)
      | inr m ↦ elim (In-append (g, ws) (below lv single_wildcard path sp bs) _ m) [
        | inl single ↦
            let (b, at_b, rest) = In-below g path sp single_wildcard ws bs single in
            let there = ap is_some at_b in
            Found-below sp path single_wildcard t vs bs b g ws at_b (inl refl) (ground arith)
              (collect_sound path b (sp ++ single_wildcard ∷ []) g ws rest)
        | inr ex ↦
            Found-exact path t vs bs sp g ws (λ b. collect_sound path b (sp ++ t ∷ []) g ws) ex
      ]
    ]
  ]

  In-multi_item_here :
      {V : Type 0} (sp : List L) (vs : List V) (bs : Branches L V)
      → values_at (multi_wildcard ∷ []) (node vs bs) ≢ []
      → In
          (sp ++ multi_wildcard ∷ [], values_at (multi_wildcard ∷ []) (node vs bs))
          (multi_item lv sp bs [])
        × (is_some (get_branch multi_wildcard bs) ≡ true)
  In-multi_item_here sp vs bs ne = elim (Option-cases (get_branch multi_wildcard bs)) [
    | inl e ↦ absurd (ne (values_at-no_child multi_wildcard [] vs bs e))
    | inr (b, e) ↦
        let here = values_at-child multi_wildcard [] vs bs b e ∙ values_at-one b in
        (
          rw (e, multi_item)
              (rw here (
                In-add_to_items_here (sp ++ multi_wildcard ∷ []) (values_of b) []
                  (λ z. ne (here ∙ z)))),
          ap is_some e,
        )
  ]

  In-below_here :
      {V : Type 0} (path sp f : List L) (t : L) (vs : List V) (bs : Branches L V)
      → values_at (t ∷ f) (node vs bs) ≢ []
      → ((b : Node L V)
          → values_at f b ≢ []
          → In ((sp ++ t ∷ []) ++ f, values_at f b) (collect lv path b (sp ++ t ∷ [])))
      → In (sp ++ t ∷ f, values_at (t ∷ f) (node vs bs)) (below lv t path sp bs)
        × (is_some (get_branch t bs) ≡ true)
  In-below_here path sp f t vs bs ne further = elim (Option-cases (get_branch t bs)) [
    | inl e ↦ absurd (ne (values_at-no_child t f vs bs e))
    | inr (b, e) ↦
        let here = values_at-child t f vs bs b e in
        (
          rw (e, below) (rw (here, ← append_assoc sp (t ∷ []) f) (further b (λ z. ne (here ∙ z)))),
          ap is_some e,
        )
  ]

  In-collect_exact :
      {V : Type 0} (t : L) (path : List L) (vs : List V) (bs : Branches L V) (sp : List L)
      (x : Item L V)
      → In x (below lv t path sp bs)
      → In x (collect lv (t ∷ path) (node vs bs) sp)
  unfolding collect
  In-collect_exact t path vs bs sp x m = elim (Bool-cases (is_blocked lv t sp bs)) [
    | inl e ↦ rw (e, collect) m
    | inr e ↦
        rw (e, collect)
          (In-append_right x (multi_item lv sp bs []) _
            (In-append_right x (below lv single_wildcard path sp bs) _ m))
  ]

  In-collect_open :
      {V : Type 0} (t : L) (path : List L) (vs : List V) (bs : Branches L V) (sp : List L)
      (x : Item L V)
      → is_blocked lv t sp bs ≡ false
      → In x
          (multi_item lv sp bs [] ++ (below lv single_wildcard path sp bs ++ below lv t path sp bs))
      → In x (collect lv (t ∷ path) (node vs bs) sp)
  unfolding collect
  In-collect_open t path vs bs sp x e m = rw (e, collect) m

  wild_open :
      {V : Type 0} (f t : L) (path fs sp : List L) (bs : Branches L V)
      → (f ≡ multi_wildcard) ⊎ (f ≡ single_wildcard)
      → Allowed sp (f ∷ fs) (t ∷ path)
      → is_blocked lv t sp bs ≡ false
  wild_open f t path fs sp bs w free =
      ground (arith, l.same_iff f multi_wildcard, l.same_iff f single_wildcard)

  pub deeper : (sp : List L) (t : L) (f path : List L) → Allowed (sp ++ t ∷ []) f path
  deeper sp t f path = rw (is_nil-append sp t)

  collect_complete :
      {V : Type 0} (f path : List L) (n : Node L V) (sp : List L)
      → Fits f path
      → Allowed sp f path
      → values_at f n ≢ []
      → In (sp ++ f, values_at f n) (collect lv path n sp)
  unfolding collect
  collect_complete [] [] (node vs bs) sp fits free ne =
      rw (append-nil sp, values_at-one (node vs bs))
        (In-add_to_items_here sp vs _ (λ z. ne (values_at-one (node vs bs) ∙ z)))
  collect_complete [] (t ∷ path) n sp fits free ne = elim fits [ ]
  collect_complete (f ∷ fs) [] (node vs bs) sp (e, e') free ne =
      rw (e, e')
        (In-add_to_items_later _ sp vs _ (In-multi_item_here sp vs bs (rw (e, e') at ne)).0)
  collect_complete (f ∷ fs) (t ∷ path) (node vs bs) sp (inl (e, e')) free ne =
      let ne' : values_at (multi_wildcard ∷ []) (node vs bs) ≢ [] = rw (e, e') at ne in
      rw (e, e')
        (In-collect_open (t) path vs bs sp _ (wild_open f t path fs sp bs (inl e) free)
          (In-append_left _ _ _ (In-multi_item_here sp vs bs ne').0))
  collect_complete (f ∷ fs) (t ∷ path) (node vs bs) sp (inr (inl (e, fits))) free ne =
      let ne' : values_at (single_wildcard ∷ fs) (node vs bs) ≢ [] = rw e at ne in
      rw e (
        In-collect_open t path vs bs sp _ (wild_open f t path fs sp bs (inr e) free) (
          In-append_right _ (multi_item lv sp bs []) _ (
            In-append_left _ _ _
              (In-below_here path sp fs single_wildcard vs bs ne' (λ b.
                collect_complete fs path b (sp ++ single_wildcard ∷ []) fits
                  (deeper sp single_wildcard fs path))).0)))
  collect_complete (f ∷ fs) (t ∷ path) (node vs bs) sp (inr (inr (e, fits))) free ne =
      let ne' : values_at (t ∷ fs) (node vs bs) ≢ [] = rw e at ne in
      rw e (
        In-collect_exact t path vs bs sp _
          (In-below_here path sp fs t vs bs ne'
            (λ b. collect_complete fs path b (sp ++ t ∷ []) fits (deeper sp t fs path))).0)

  -- Iterating over `matches(topic)` gives a filter with a value set exactly if the filter matches
  -- the topic by the rules of MQTT and the set is the tree's at that filter, and not empty. The fuel
  -- is one more than the levels of the topic for the depth, and more than the items.
  pub matches_lem :
      {V : Type 0} (k : ℕ) (n : Node L V) (topic f : List L) (ws : List V)
      → length (collect lv topic n []) < k
      → In (f, ws) (collect_iter lv k (suc (length topic)) (matches n topic))
        ↔ (Matches f topic × ((ws ≡ values_at f n) × (ws ≢ [])))
  matches_lem {V} k n topic f ws h = (sound, complete)
    where
      found : Found [] topic n f ws → Matches f topic × ((ws ≡ values_at f n) × (ws ≢ []))
      found (g, p, fits, free, q, ne) = rw p ((fits, free), (q, ne))

      sound :
          In (f, ws) (collect_iter lv k (suc (length topic)) (matches n topic))
          → Matches f topic × ((ws ≡ values_at f n) × (ws ≢ []))
      sound i =
          found (collect_sound topic n [] f ws (rw (collect_iter-matches lv k n topic h) at i))

      complete :
          Matches f topic × ((ws ≡ values_at f n) × (ws ≢ []))
          → In (f, ws) (collect_iter lv k (suc (length topic)) (matches n topic))
      complete ((fits, free), (q, ne)) =
          rw (collect_iter-matches lv k n topic h)
            (rw q (collect_complete f topic n [] fits free (λ z. ne (q ∙ z))))
