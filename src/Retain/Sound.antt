-- ===== src/Retain/Sound.antt =====
-- The search of rmqtt/src/broker/retain.rs finds retained messages whose topics fit the filter.
use rmqtt.Common.{
  ◌≡◌, refl, sym, ◌∙◌, subst, false, ◌||◌, Option, none, some, List, [], ◌∷◌, ◌++◌, append-nil,
  append_assoc, Key, same, same→eq, same_refl, In, In-append, arith, Bool-cases, Option-cases, inl,
  inr,
}
use rmqtt.TopicTree.Levels.{Levels}
use rmqtt.TopicTree.Filters.{Fits, Allowed}
use rmqtt.Retain.{Node, node, Branches, get_branch}
use rmqtt.Retain.Search.{parent_found, matches_from, single_below, multi_below}
use rmqtt.Retain.Values.{value_at}
use rmqtt.Retain.Below.{
  IsTopics, AreTopics, no_wildcard, branch_IsTopics, exact_branch, single_sound,
}
use rmqtt.Retain.Multi.{In-value_found, multi_step, below_sound}

module _ {L : Type 0} ⦃l : Key L⦄ (lv : Levels L) where
  -- A `#` stands only at the end of a filter.
  abbrev pub HashLast : List L → Type 0
  HashLast [] = Unit
  HashLast (t ∷ path) = (t ≡ lv.multi_wildcard → path ≡ []) × HashLast path

module _ {L V : Type 0} ⦃l : Key L⦄ (lv : Levels L) where
  open lv use {multi_wildcard, single_wildcard}

  abbrev pub Hit : List L → List L → Node L V → List L → V → Type 0
  Hit sp path n g v =
      (f : List L) × (g ≡ sp ++ f) × Fits lv path f × Allowed lv sp path f × (value_at f n ≡ some v)

  -- The same without the rule on `$`, which is on the first level alone.
  abbrev Inside : List L → List L → Node L V → List L → V → Type 0
  Inside sp path n g v = (f : List L) × (g ≡ sp ++ f) × Fits lv path f × (value_at f n ≡ some v)

  pub exact_step :
      (t : L) (path sp : List L) (w : Option V) (bs : Branches L V) (b : Node L V)
      → get_branch t bs ≡ some b
      → matches_from lv (node w bs) (t ∷ path) sp
        ≡ parent_found lv path (sp ++ t ∷ []) b ++ matches_from lv b path (sp ++ t ∷ [])
  unfolding matches_from
  exact_step t path sp w bs b e = rw (e, matches_from) (exact_branch lv t path sp bs b e)

  pub single_step :
      (path sp : List L) (w : Option V) (bs : Branches L V)
      → AreTopics lv bs
      → matches_from lv (node w bs) (single_wildcard ∷ path) sp ≡ single_below lv bs path sp
  unfolding matches_from
  single_step path sp w bs a =
      rw (matches_from, no_wildcard lv single_wildcard bs a (inr refl), same_refl single_wildcard)
        refl

  nothing_step :
      (t : L) (path sp : List L) (w : Option V) (bs : Branches L V)
      → get_branch t bs ≡ none
      → same t single_wildcard ≡ false
      → same t multi_wildcard ≡ false
      → matches_from lv (node w bs) (t ∷ path) sp ≡ []
  unfolding matches_from
  nothing_step t path sp w bs e h k = rw (matches_from, e, h, k) refl

  parent_sound :
      (path sp g : List L) (v : V) (n : Node L V)
      → HashLast lv path
      → In (g, v) (parent_found lv path sp n)
      → Inside sp path n g v
  parent_sound [] sp g v n last i = elim i [ ]
  parent_sound (t ∷ path) sp g v n last i = elim (Bool-cases (same t multi_wildcard)) [
    | inl h ↦
        let (e, val) = In-value_found lv g sp v n (rw h at i) in
        let hash = same→eq t multi_wildcard h in
        ([], e ∙ sym (append-nil sp), (hash, last.0 hash), val)
    | inr h ↦ let none_found : In {A = List L × V} (g, v) [] = rw h at i in absurd none_found
  ]

  child_sound :
      (path sp g : List L) (v : V) (b : Node L V)
      → HashLast lv path
      → (In (g, v) (matches_from lv b path sp) → Hit sp path b g v)
      → In (g, v) (parent_found lv path sp b ++ matches_from lv b path sp)
      → Inside sp path b g v
  child_sound path sp g v b last further i =
      elim (In-append (g, v) (parent_found lv path sp b) (matches_from lv b path sp) i) [
        | inl j ↦ parent_sound path sp g v b last j
        | inr j ↦ let (f, e, fits, _, val) = further j in (f, e, fits, val)
      ]

  -- A level of a topic is no wildcard.
  plain_level :
      (t : L) (bs : Branches L V) (b : Node L V)
      → AreTopics lv bs
      → get_branch t bs ≡ some b
      → (same t multi_wildcard || same t single_wildcard) ≡ false
  plain_level t bs b a e = elim (Bool-cases (same t multi_wildcard)) [
    | inl h ↦
        let clash : ◌≡◌ {A = Option (Node L V)} none (some b) =
          sym (no_wildcard lv t bs a (inl (same→eq t multi_wildcard h))) ∙ e in
        absurd (cc clash)
    | inr h ↦ elim (Bool-cases (same t single_wildcard)) [
      | inl k ↦
          let clash : ◌≡◌ {A = Option (Node L V)} none (some b) =
            sym (no_wildcard lv t bs a (inr (same→eq t single_wildcard k))) ∙ e in
          absurd (cc clash)
      | inr k ↦ rw (h, k) refl
    ]
  ]

  under :
      (t : L) (f : List L) (v : V) (w : Option V) (bs : Branches L V) (b : Node L V)
      → get_branch t bs ≡ some b
      → value_at f b ≡ some v
      → value_at (t ∷ f) (node w bs) ≡ some v
  unfolding value_at
  under t f v w bs b e val = rw (e, value_at) val

  pub search_sound :
      (path : List L) (n : Node L V) (sp g : List L) (v : V)
      → IsTopics lv n
      → HashLast lv path
      → In (g, v) (matches_from lv n path sp)
      → Hit sp path n g v
  unfolding matches_from
  search_sound [] (node w bs) sp g v a last i =
      let (e, val) = In-value_found lv g sp v (node w bs) i in
      ([], e ∙ sym (append-nil sp), tt, ground arith, val)
  search_sound (t ∷ path) (node w bs) sp g v a last i = elim (Option-cases (get_branch t bs)) [
    | inr (b, e) ↦
        let (f, p, fits, val) =
          child_sound path (sp ++ t ∷ []) g v b last.1
            (search_sound path b (sp ++ t ∷ []) g v (branch_IsTopics lv t bs b a e) last.1)
            (rw (exact_step t path sp w bs b e) at i) in
        let plain = plain_level t bs b a e in
        (
          t ∷ f,
          p ∙ append_assoc sp (t ∷ []) f,
          inr (inr (refl, fits)),
          ground (arith, plain),
          under t f v w bs b e val,
        )
    | inl e ↦ elim (Bool-cases (same t single_wildcard)) [
      | inl h ↦
          let wild = same→eq t single_wildcard h in
          let j : In (g, v) (single_below lv bs path sp) =
            rw (single_step path sp w bs a) at
              (subst (λ z. In (g, v) (matches_from lv (node w bs) (z ∷ path) sp)) wild i) in
          let (u, b, at, shown, k) = single_sound lv path sp g v bs a j in
          let (f, p, fits, val) =
            child_sound path (sp ++ u ∷ []) g v b last.1
              (search_sound path b (sp ++ u ∷ []) g v (branch_IsTopics lv u bs b a at) last.1) k in
          (
            u ∷ f,
            p ∙ append_assoc sp (u ∷ []) f,
            inr (inl (wild, fits)),
            ground (arith, shown),
            under u f v w bs b at val,
          )
      | inr h ↦ elim (Bool-cases (same t multi_wildcard)) [
        | inl k ↦
            let wild = same→eq t multi_wildcard k in
            let ends = last.0 wild in
            let j : In (g, v) (multi_below lv bs multi_wildcard [] sp) =
              rw (multi_step lv sp w bs a) at (
                subst (λ z. In (g, v) (matches_from lv (node w bs) (multi_wildcard ∷ z) sp)) ends
                  (subst (λ z. In (g, v) (matches_from lv (node w bs) (z ∷ path) sp)) wild i)) in
            let (u, f, b, p, shown, at, val) = below_sound lv sp g v bs a j in
            (u ∷ f, p, inl (wild, ends), ground (arith, shown), under u f v w bs b at val)
        | inr k ↦
            let none_found : In {A = List L × V} (g, v) [] =
              rw (nothing_step t path sp w bs e h k) at i in
            absurd none_found
      ]
    ]
  ]
