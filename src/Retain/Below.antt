-- ===== src/Retain/Below.antt =====
-- What the search of rmqtt/src/broker/retain.rs finds in the subtrees of one node.
use rmqtt.Common.{
  ◌≡◌, refl, ap, sym, ◌∙◌, subst, true, false, Option, none, some, List, [], ◌∷◌, ◌++◌, Key, same,
  same→eq, same_refl, In, In-append, In-append_left, In-append_right, Bool-cases, inl, inr, ◌⊎◌,
}
use rmqtt.TopicTree.Levels.{Levels}
use rmqtt.Retain.{Node, node, Branches, nil, cons, get_branch}
use rmqtt.Retain.Search.{parent_found, is_hidden, matches_from, exact_below, single_below}

module _ {L V : Type 0} ⦃l : Key L⦄ (lv : Levels L) where
  open lv use {multi_wildcard, single_wildcard}

  -- Every level below the node is a level of a topic: no wildcard, and no level twice.
  abbrev mutual
    pub IsTopics : Node L V → Type 0
    IsTopics (node v bs) = AreTopics bs

    pub AreTopics : Branches L V → Type 0
    AreTopics nil = Unit
    AreTopics (cons t n bs) =
        (same t multi_wildcard ≡ false)
        × (same t single_wildcard ≡ false)
        × (get_branch t bs ≡ none)
        × IsTopics n
        × AreTopics bs

  -- What stands for a branch further on stands for it in the whole.
  pub later_branch :
      (u t : L) (n b : Node L V) (bs : Branches L V)
      → get_branch u bs ≡ none
      → get_branch t bs ≡ some b
      → get_branch t (cons u n bs) ≡ some b
  later_branch u t n b bs absent e = elim (Bool-cases (same u t)) [
    | inl h ↦
        let clash : ◌≡◌ {A = Option (Node L V)} none (some b) =
          sym absent ∙ (ap (λ q. get_branch q bs) (same→eq u t h) ∙ e) in
        absurd (cc clash)
    | inr h ↦ rw h e
  ]

  pub first_branch :
      (u : L) (n : Node L V) (bs : Branches L V) → get_branch u (cons u n bs) ≡ some n
  first_branch u n bs = rw (same_refl u) refl

  pub no_wildcard :
      (t : L) (bs : Branches L V)
      → AreTopics bs
      → (t ≡ multi_wildcard) ⊎ (t ≡ single_wildcard)
      → get_branch t bs ≡ none
  no_wildcard t nil w wild = refl
  no_wildcard t (cons u n bs) w wild = elim (Bool-cases (same u t)) [
    | inl h ↦ absurd (elim wild [
      | inl e ↦ let clash : false ≡ true = sym w.0 ∙ (sym (ap (same u) e) ∙ h) in cc clash
      | inr e ↦ let clash : false ≡ true = sym w.1 ∙ (sym (ap (same u) e) ∙ h) in cc clash
    ])
    | inr h ↦ rw h (no_wildcard t bs w.4 wild)
  ]

  pub branch_IsTopics :
      (t : L) (bs : Branches L V) (b : Node L V)
      → AreTopics bs
      → get_branch t bs ≡ some b
      → IsTopics b
  branch_IsTopics t nil b w e = cc
  branch_IsTopics t (cons u n bs) b w e = elim (Bool-cases (same u t)) [
    | inl h ↦
        let same_node : some n ≡ some b = rw h at e in
        let one : n ≡ b = cc same_node in subst IsTopics one w.3
    | inr h ↦ branch_IsTopics t bs b w.4 (rw h at e)
  ]

  pub exact_branch :
      (t : L) (path sp : List L) (bs : Branches L V) (b : Node L V)
      → get_branch t bs ≡ some b
      → exact_below lv bs t path sp
        ≡ parent_found lv path (sp ++ t ∷ []) b ++ matches_from lv b path (sp ++ t ∷ [])
  unfolding matches_from
  exact_branch t path sp nil b e = cc
  exact_branch t path sp (cons u n bs) b e = elim (Bool-cases (same u t)) [
    | inl h ↦
        let same_node : some n ≡ some b = rw h at e in
        let one : n ≡ b = cc same_node in
        rw h (
          ap (λ z. parent_found lv path (sp ++ t ∷ []) z ++ matches_from lv z path (sp ++ t ∷ []))
            one)
    | inr h ↦ rw h (exact_branch t path sp bs b (rw h at e))
  ]

  -- Below one of the levels that a wildcard stands for.
  abbrev pub Below : List L → List L → Branches L V → List L → V → Type 0
  Below path sp bs g v =
      (u : L) × (b : Node L V) × (get_branch u bs ≡ some b)
      × (is_hidden lv sp u ≡ false)
      × In (g, v) (parent_found lv path (sp ++ u ∷ []) b ++ matches_from lv b path (sp ++ u ∷ []))

  pub single_sound :
      (path sp g : List L) (v : V) (bs : Branches L V)
      → AreTopics bs
      → In (g, v) (single_below lv bs path sp)
      → Below path sp bs g v
  unfolding matches_from
  single_sound path sp g v nil w i = elim i [ ]
  single_sound path sp g v (cons u n bs) w i =
      let later : Below path sp bs g v → Below path sp (cons u n bs) g v =
        λ (t, b, e, open_, j). (t, b, later_branch u t n b bs w.2 e, open_, j) in
      elim (Bool-cases (is_hidden lv sp u)) [
        | inl h ↦ later (single_sound path sp g v bs w.4 (rw (h, single_below) at i))
        | inr h ↦
            elim (In-append (g, v)
              (parent_found lv path (sp ++ u ∷ []) n ++ matches_from lv n path (sp ++ u ∷ []))
              (single_below lv bs path sp) (rw (h, single_below) at i)) [
                | inl j ↦ (u, n, first_branch u n bs, h, j)
                | inr j ↦ later (single_sound path sp g v bs w.4 j)
              ]
      ]

  pub single_complete :
      (path sp g : List L) (v : V) (bs : Branches L V) (t : L) (b : Node L V)
      → get_branch t bs ≡ some b
      → is_hidden lv sp t ≡ false
      → In (g, v) (parent_found lv path (sp ++ t ∷ []) b ++ matches_from lv b path (sp ++ t ∷ []))
      → In (g, v) (single_below lv bs path sp)
  unfolding matches_from
  single_complete path sp g v nil t b e open_ i = cc
  single_complete path sp g v (cons u n bs) t b e open_ i = elim (Bool-cases (same u t)) [
    | inl h ↦
        let level = same→eq u t h in
        let same_node : some n ≡ some b = rw h at e in
        let one : n ≡ b = cc same_node in
        let shown : is_hidden lv sp u ≡ false = ap (is_hidden lv sp) level ∙ open_ in
        rw (shown, level, one) (In-append_left (g, v) _ (single_below lv bs path sp) i)
    | inr h ↦
        let rest = single_complete path sp g v bs t b (rw h at e) open_ i in
        elim (Bool-cases (is_hidden lv sp u)) [
          | inl k ↦ rw k rest
          | inr k ↦ rw k (In-append_right (g, v) _ (single_below lv bs path sp) rest)
        ]
  ]
