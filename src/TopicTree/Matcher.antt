-- ===== src/TopicTree/Matcher.antt =====
-- `Matcher` and `MatchedIter` of rmqtt/src/broker/topic.rs: the filters of the tree that match a
-- topic, found one at a time.
use rmqtt.Common.{
  ℕ, zero, suc, Bool, true, false, ◌&&◌, ◌||◌, not, Option, none, some, List, [], ◌∷◌, ◌++◌, Key,
  same, if◌then◌else◌, is_some,
}
use rmqtt.TopicTree.Levels.{Levels}
use rmqtt.TopicTree.{Node, node, Branches, get_branch}

-- A matched filter with the values that stand at it.
abbrev pub Item : Type 0 → Type 0 → Type 0
Item L V = List L × List V

-- The items and the sub-iterators that are still to be given; the last item pushed comes first.
mutual
  pub data MatchedIter (L V : Type 0) : Type 0 where
    iter :
        Node L V
        → List L
        → Option (List L)
        → List (List L × List V)
        → SubIters L V
        → MatchedIter L V

  pub data SubIters (L V : Type 0) : Type 0 where
    nil : SubIters L V
    cons : MatchedIter L V → SubIters L V → SubIters L V

abbrev pub is_nil {ℓ} : {A : Type ℓ} → List A → Bool
is_nil [] = true
is_nil (x ∷ xs) = false

abbrev pub Next : Type 0 → Type 0 → Type 0
Next L V = MatchedIter L V → Option (Item L V) × MatchedIter L V

module _ {L V : Type 0} where
  abbrev pub push_sub : MatchedIter L V → SubIters L V → SubIters L V
  push_sub i nil = cons i nil
  push_sub i (cons j r) = cons j (push_sub i r)

  abbrev pub new_iter : Node L V → List L → List L → MatchedIter L V
  new_iter n path sub_path = iter n path (some sub_path) [] nil

  -- `matches(topic).iter()`.
  abbrev pub matches : Node L V → List L → MatchedIter L V
  matches n topic = new_iter n topic []

  -- `add_to_items`: an empty value set gives no item.
  abbrev pub add_to_items : List L → List V → List (Item L V) → List (Item L V)
  add_to_items levels [] items = items
  add_to_items levels (x ∷ xs) items = (levels, x ∷ xs) ∷ items

  abbrev pub branches_of : Node L V → Branches L V
  branches_of (node vs bs) = bs

  abbrev pub values_of : Node L V → List V
  values_of (node vs bs) = vs

  -- `while !self.sub_iters.is_empty()`: the first sub-iterator that gives an item; those before it
  -- are removed.
  unfoldable pub scan : Next L V → SubIters L V → Option (Item L V) × SubIters L V
  scan next nil = (none, nil)
  scan next (cons i subs) =
      let (item, i') = next i in
      let rest = scan next subs in elim item [ some x ↦ (some x, cons i' subs) | none ↦ rest ]

  unfoldable pub next_item : Next L V → Next L V
  next_item next (iter n path sp (x ∷ items) subs) = (some x, iter n path sp items subs)
  next_item next (iter n path sp [] subs) =
      let (item, subs') = scan next subs in (item, iter n path sp [] subs')

module _ {L V : Type 0} ⦃l : Key L⦄ (lv : Levels L) where
  open lv use {blank, multi_wildcard, single_wildcard, is_metadata}

  -- The item of the `#` below a node.
  abbrev pub multi_item : List L → Branches L V → List (Item L V) → List (Item L V)
  multi_item sp bs items = elim (get_branch multi_wildcard bs) [
    | some b ↦ add_to_items (sp ++ multi_wildcard ∷ []) (values_of b) items
    | none ↦ items
  ]

  abbrev pub sub_of : L → List L → List L → Branches L V → SubIters L V → SubIters L V
  sub_of t path sp bs subs = elim (get_branch t bs) [
    | some b ↦ push_sub (new_iter b path (sp ++ t ∷ [])) subs
    | none ↦ subs
  ]

  -- Topic names that start with `$` are not matched by filters that start with a wildcard.
  abbrev pub is_blocked : L → List L → Branches L V → Bool
  is_blocked t sp bs =
      is_nil sp
      && (not (same t blank)
          && (is_metadata t
              && (is_some (get_branch multi_wildcard bs)
                  || is_some (get_branch single_wildcard bs))))

  -- `prepare`, given the `sub_path` that it takes.
  unfoldable pub prepare :
      List L → Node L V → List L → List (Item L V) → SubIters L V → MatchedIter L V
  prepare sp (node vs bs) [] items subs =
      iter (node vs bs) [] none (add_to_items sp vs (multi_item sp bs items)) subs
  prepare sp (node vs bs) (t ∷ path) items subs =
      if is_blocked t sp bs
      then iter (node vs bs) (t ∷ path) none items (sub_of t path sp bs subs)
      else iter (node vs bs) (t ∷ path) none (multi_item sp bs items)
          (sub_of t path sp bs (sub_of single_wildcard path sp bs subs))

  abbrev prepare_next : Next L V → MatchedIter L V → Option (Item L V) × MatchedIter L V
  prepare_next next (iter n path (some sp) items subs) =
      next_item next (prepare sp n path items subs)
  prepare_next next (iter n path none items subs) = (none, iter n path none items subs)

  -- `Iterator::next`, on fuel for the depth of the sub-iterators.
  unfoldable pub next : ℕ → Next L V
  next zero i = (none, i)
  next (suc n) i =
      let (item, i') = next_item (next n) i in
      elim item [ some x ↦ (some x, i') | none ↦ prepare_next (next n) i' ]

  -- `Matcher::iter().collect()`: `next` until it gives nothing, on fuel for the items.
  unfoldable pub collect_iter : ℕ → ℕ → MatchedIter L V → List (Item L V)
  collect_iter zero depth i = []
  collect_iter (suc n) depth i =
      let (item, i') = next depth i in
      let rest = collect_iter n depth i' in elim item [ some x ↦ x ∷ rest | none ↦ [] ]

  -- `is_match`: whether the iterator gives an item.
  unfoldable pub is_match : ℕ → Node L V → List L → Bool
  is_match depth n topic = is_some (next depth (matches n topic)).0
