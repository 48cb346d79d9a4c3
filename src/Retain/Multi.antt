-- ===== src/Retain/Multi.antt =====
-- What the search of rmqtt/src/broker/retain.rs finds for a final `#`.
use rmqtt.Common.{
  ◌≡◌, refl, ap, sym, ◌∙◌, false, Option, none, some, List, [], ◌∷◌, ◌++◌, append_assoc, Key, same,
  same→eq, same_refl, In, In-append, In-append_left, In-append_right, Bool-cases, Option-cases, inl,
  inr,
}
use rmqtt.TopicTree.Levels.{Levels}
use rmqtt.TopicTree.Filters.{is_nil-append}
use rmqtt.Retain.{Node, node, Branches, nil, cons, get_branch}
use rmqtt.Retain.Search.{value_found, no_branches, is_hidden, matches_from, multi_below}
use rmqtt.Retain.Values.{value_at}
use rmqtt.Retain.Below.{IsTopics, AreTopics, later_branch, first_branch, no_wildcard}

module _ {L : Type 0} ⦃l : Key L⦄ (lv : Levels L) where
  pub not_hidden : (sp : List L) (u t : L) → is_hidden lv (sp ++ u ∷ []) t ≡ false
  not_hidden sp u t = rw (is_nil-append lv sp u) refl

  pub wildcards_apart : same lv.multi_wildcard lv.single_wildcard ≡ false
  wildcards_apart = elim (Bool-cases (same lv.multi_wildcard lv.single_wildcard)) [
    | inl e ↦ absurd (lv.wildcards_differ (same→eq lv.multi_wildcard lv.single_wildcard e))
    | inr e ↦ e
  ]

module _ {L V : Type 0} ⦃l : Key L⦄ (lv : Levels L) where
  open lv use {multi_wildcard, single_wildcard}

  -- A topic below the node whose first level is not hidden from a wildcard, with its value.
  abbrev pub Shown : List L → Branches L V → List L → V → Type 0
  Shown sp bs g v =
      (t : L) × (f : List L) × (b : Node L V) × (g ≡ sp ++ t ∷ f)
      × (is_hidden lv sp t ≡ false)
      × (get_branch t bs ≡ some b)
      × (value_at f b ≡ some v)

  branches_of : Node L V → Branches L V
  branches_of (node v bs) = bs

  pub In-value_found :
      (g sp : List L) (v : V) (n : Node L V)
      → In (g, v) (value_found sp n)
      → (g ≡ sp) × (value_at [] n ≡ some v)
  unfolding value_at
  In-value_found g sp v (node none bs) i = elim i [ ]
  In-value_found g sp v (node (some w) bs) (inl e) =
      (ap (λ p. p.0) e, ap some (sym (ap (λ p. p.1) e)))
  In-value_found g sp v (node (some w) bs) (inr i) = elim i [ ]

  pub value_found_here :
      (sp : List L) (v : V) (n : Node L V) → value_at [] n ≡ some v → In (sp, v) (value_found sp n)
  unfolding value_at
  value_found_here sp v (node none bs) e = cc
  value_found_here sp v (node (some w) bs) e = let one : w ≡ v = cc e in rw one (inl refl)

  -- A final `#` at a node goes to its branches.
  pub multi_step :
      (sp : List L) (w : Option V) (bs : Branches L V)
      → AreTopics lv bs
      → matches_from lv (node w bs) (multi_wildcard ∷ []) sp
        ≡ multi_below lv bs multi_wildcard [] sp
  unfolding matches_from
  multi_step sp w bs a =
      rw
        (
          matches_from,
          no_wildcard lv multi_wildcard bs a (inl refl),
          wildcards_apart lv,
          same_refl multi_wildcard,
        )
        refl

  mutual
    unfolding matches_from value_at

    pub below_sound :
        (sp g : List L) (v : V) (bs : Branches L V)
        → AreTopics lv bs
        → In (g, v) (multi_below lv bs multi_wildcard [] sp)
        → Shown sp bs g v
    below_sound sp g v nil a i = elim i [ ]
    below_sound sp g v (cons u n bs) a i =
        let later : Shown sp bs g v → Shown sp (cons u n bs) g v =
          λ (t, f, b, e, h, at, val). (t, f, b, e, h, later_branch lv u t n b bs a.2 at, val) in
        let rest = below_sound sp g v bs a.4 in
        let here : In (g, v) (value_found (sp ++ u ∷ []) n)
            → is_hidden lv sp u ≡ false
            → Shown sp (cons u n bs) g v =
          λ j h.
            let (e, val) = In-value_found g (sp ++ u ∷ []) v n j in
            (u, [], n, e, h, first_branch lv u n bs, val) in
        let below = node_sound (sp ++ u ∷ []) g v n a.3 in
        elim (Bool-cases (is_hidden lv sp u)) [
          | inl h ↦ later (rest (rw (h, multi_below) at i))
          | inr h ↦ elim (Bool-cases (no_branches n)) [
            | inl k ↦
                elim (In-append (g, v) (value_found (sp ++ u ∷ []) n)
                  (multi_below lv bs multi_wildcard [] sp) (rw (h, k, multi_below) at i)) [
                    | inl j ↦ here j h
                    | inr j ↦ later (rest j)
                  ]
            | inr k ↦
                elim (In-append (g, v)
                  (value_found (sp ++ u ∷ []) n
                    ++ matches_from lv n (multi_wildcard ∷ []) (sp ++ u ∷ []))
                  (multi_below lv bs multi_wildcard [] sp) (rw (h, k, multi_below) at i)) [
                    | inl j ↦
                        elim (In-append (g, v) (value_found (sp ++ u ∷ []) n)
                          (matches_from lv n (multi_wildcard ∷ []) (sp ++ u ∷ [])) j) [
                            | inl j' ↦ here j' h
                            | inr j' ↦
                                let (f, e, val) = below j' in
                                (
                                  u,
                                  f,
                                  n,
                                  e ∙ append_assoc sp (u ∷ []) f,
                                  h,
                                  first_branch lv u n bs,
                                  val,
                                )
                          ]
                    | inr j ↦ later (rest j)
                  ]
          ]
        ]

    pub node_sound :
        (sp g : List L) (v : V) (n : Node L V)
        → IsTopics lv n
        → In (g, v) (matches_from lv n (multi_wildcard ∷ []) sp)
        → (f : List L) × (g ≡ sp ++ f) × (value_at f n ≡ some v)
    node_sound sp g v (node w bs) a i =
        let (t, f, b, e, _, at, val) = below_sound sp g v bs a (rw (multi_step sp w bs a) at i) in
        (t ∷ f, e, rw (at, value_at) val)

  -- A value at a topic below a node stands in one of the branches.
  pub value_branch :
      (t : L) (f : List L) (v : V) (w : Option V) (bs : Branches L V)
      → value_at (t ∷ f) (node w bs) ≡ some v
      → (b : Node L V) × (get_branch t bs ≡ some b) × (value_at f b ≡ some v)
  unfolding value_at
  value_branch t f v w bs e = elim (Option-cases (get_branch t bs)) [
    | inl h ↦
        let clash : ◌≡◌ {A = Option V} none (some v) = rw (h, value_at) at e in absurd (cc clash)
    | inr (b, h) ↦ (b, h, rw (h, value_at) at e)
  ]

  has_branches :
      (t : L) (f : List L) (v : V) (n : Node L V)
      → value_at (t ∷ f) n ≡ some v
      → no_branches n ≡ false
  unfolding value_at
  has_branches t f v (node w nil) e = cc
  has_branches t f v (node w (cons u n bs)) e = refl

  -- What the branch of a level gives, its own value and those below it.
  here_complete :
      (sp : List L) (v : V) (u : L) (f : List L) (n : Node L V) (bs : Branches L V)
      → is_hidden lv sp u ≡ false
      → value_at f n ≡ some v
      → ((t : L) (f' : List L)
          → value_at (t ∷ f') n ≡ some v
          → is_hidden lv (sp ++ u ∷ []) t ≡ false
          → In
              ((sp ++ u ∷ []) ++ t ∷ f', v)
              (matches_from lv n (multi_wildcard ∷ []) (sp ++ u ∷ [])))
      → In (sp ++ u ∷ f, v) (multi_below lv (cons u n bs) multi_wildcard [] sp)
  unfolding matches_from
  here_complete sp v u [] n bs h val below =
      let found = value_found (sp ++ u ∷ []) n in
      let i = value_found_here (sp ++ u ∷ []) v n val in
      let rest = multi_below lv bs multi_wildcard [] sp in
      elim (Bool-cases (no_branches n)) [
        | inl k ↦ rw (h, k, multi_below) (In-append_left (sp ++ u ∷ [], v) found rest i)
        | inr k ↦
            rw (h, k, multi_below)
              (In-append_left (sp ++ u ∷ [], v) _ rest (In-append_left (sp ++ u ∷ [], v) found _ i))
      ]
  here_complete sp v u (t ∷ f') n bs h val below =
      let found = value_found (sp ++ u ∷ []) n in
      let i = below t f' val (not_hidden lv sp u t) in
      let deeper = matches_from lv n (multi_wildcard ∷ []) (sp ++ u ∷ []) in
      let rest = multi_below lv bs multi_wildcard [] sp in
      let j : In (sp ++ u ∷ t ∷ f', v) deeper = rw (← append_assoc sp (u ∷ []) (t ∷ f')) i in
      rw (h, has_branches t f' v n val, multi_below)
        (In-append_left (sp ++ u ∷ t ∷ f', v) (found ++ deeper) rest
          (In-append_right (sp ++ u ∷ t ∷ f', v) found deeper j))

  mutual
    unfolding matches_from value_at

    pub below_complete :
        (sp : List L) (v : V) (bs : Branches L V) (t : L) (f : List L) (b : Node L V)
        → AreTopics lv bs
        → get_branch t bs ≡ some b
        → is_hidden lv sp t ≡ false
        → value_at f b ≡ some v
        → In (sp ++ t ∷ f, v) (multi_below lv bs multi_wildcard [] sp)
    below_complete sp v nil t f b a e h val = cc
    below_complete sp v (cons u n bs) t f b a e h val =
        let rest = multi_below lv bs multi_wildcard [] sp in
        let found = value_found (sp ++ u ∷ []) n in
        let deeper = matches_from lv n (multi_wildcard ∷ []) (sp ++ u ∷ []) in
        elim (Bool-cases (same u t)) [
          | inr other ↦
              let later = below_complete sp v bs t f b a.4 (rw other at e) h val in
              elim (Bool-cases (is_hidden lv sp u)) [
                | inl k ↦ rw (k, multi_below) later
                | inr k ↦ elim (Bool-cases (no_branches n)) [
                  | inl k' ↦
                      rw (k, k', multi_below) (In-append_right (sp ++ t ∷ f, v) found rest later)
                  | inr k' ↦
                      rw (k, k', multi_below)
                        (In-append_right (sp ++ t ∷ f, v) (found ++ deeper) rest later)
                ]
              ]
          | inl this ↦
              let same_node : some n ≡ some b = rw this at e in
              let one : n ≡ b = cc same_node in
              let level = same→eq u t this in
              let shown : is_hidden lv sp u ≡ false = ap (is_hidden lv sp) level ∙ h in
              let val' : value_at f n ≡ some v = ap (value_at f) one ∙ val in
              rw (← level) (
                here_complete sp v u f n bs shown val'
                  (λ t' f' e'. node_complete (sp ++ u ∷ []) v n t' f' a.3 e'))
        ]

    pub node_complete :
        (sp : List L) (v : V) (n : Node L V) (t : L) (f : List L)
        → IsTopics lv n
        → value_at (t ∷ f) n ≡ some v
        → is_hidden lv sp t ≡ false
        → In (sp ++ t ∷ f, v) (matches_from lv n (multi_wildcard ∷ []) sp)
    node_complete sp v (node w bs) t f a e h =
        let (b, at, val) = value_branch t f v w bs e in
        rw (multi_step sp w bs a) (below_complete sp v bs t f b a at h val)
