-- ===== src/TopicTree/Values.antt =====
-- The tree of rmqtt/src/broker/topic.rs read as a map from filters to value sets: `insert` and
-- `remove` change the set of one filter, and leave no bare subtree behind.
use rmqtt.Common.{
  ◌≡◌, refl, true, not, none, some, List, [], ◌∷◌, Key, same, list_same, if◌then◌else◌, arith,
}
use rmqtt.TopicTree.{
  Node, node, Branches, nil, cons, contains, set_insert, set_remove, get_branch, put_branch,
  del_branch, or_default, is_bare, insert, remove, default,
}

module _ {L V : Type 0} ⦃l : Key L⦄ where
  -- The value set that stands at a filter.
  unfoldable pub values_at : List L → Node L V → List V
  values_at [] (node vs bs) = vs
  values_at (t ∷ path) (node vs bs) = elim (get_branch t bs) [
    | none ↦ []
    | some x ↦ values_at path x
  ]

  pub get-put_branch :
      (t u : L) (n : Node L V) (bs : Branches L V)
      → get_branch u (put_branch t n bs) ≡ (if same t u then some n else get_branch u bs)
  get-put_branch t u n nil = refl
  get-put_branch t u n (cons w m bs) =
      ground (arith, l.same_iff w t, l.same_iff w u, l.same_iff t u, get-put_branch t u n bs)

  pub get-del_branch :
      (t u : L) (bs : Branches L V)
      → get_branch u (del_branch t bs) ≡ (if same t u then none else get_branch u bs)
  get-del_branch t u nil = ground arith
  get-del_branch t u (cons w m bs) =
      ground (arith, l.same_iff w t, l.same_iff w u, l.same_iff t u, get-del_branch t u bs)

  pub values_at-default : (path : List L) → values_at path (default {L = L} {V = V}) ≡ []
  unfolding values_at
  values_at-default [] = refl
  values_at-default (t ∷ path) = refl

  pub values_at-bare : (path : List L) (n : Node L V) → is_bare n ≡ true → values_at path n ≡ []
  unfolding values_at
  values_at-bare [] (node [] bs) h = refl
  values_at-bare [] (node (x ∷ xs) bs) h = cc
  values_at-bare (t ∷ path) (node [] nil) h = refl
  values_at-bare (t ∷ path) (node [] (cons u n bs)) h = cc
  values_at-bare (t ∷ path) (node (x ∷ xs) bs) h = cc

module _ {L V : Type 0} ⦃l : Key L⦄ ⦃v : Key V⦄ where
  -- The first component says whether the value is new; the value is added at the filter, and the
  -- values at every other filter stay as they were.
  pub values_at-insert :
      (q p : List L) (a : V) (n : Node L V)
      → ((insert q a n).0 ≡ not (contains a (values_at q n)))
        × (values_at p (insert q a n).1
            ≡ (if list_same q p then set_insert a (values_at q n) else values_at p n))
  unfolding insert values_at
  values_at-insert [] [] a (node vs bs) = (refl, refl)
  values_at-insert [] (u ∷ p) a (node vs bs) = (refl, refl)
  values_at-insert (t ∷ q) [] a (node vs bs) = ground (
    arith,
    values_at-default {L = L} {V = V} q,
    values_at-insert q [] a (or_default (get_branch t bs)),
  )
  values_at-insert (t ∷ q) (u ∷ p) a (node vs bs) = ground (
    arith,
    l.same_iff t u,
    get-put_branch t u (insert q a (or_default (get_branch t bs))).1 bs,
    values_at-default {L = L} {V = V} q,
    values_at-default {L = L} {V = V} p,
    values_at-insert q p a (or_default (get_branch t bs)),
  )

  -- The first component says whether the value was there; it is taken out of the set at the filter,
  -- and the values at every other filter stay as they were.
  pub values_at-remove :
      (q p : List L) (a : V) (n : Node L V)
      → ((remove q a n).0 ≡ contains a (values_at q n))
        × (values_at p (remove q a n).1
            ≡ (if list_same q p then set_remove a (values_at q n) else values_at p n))
  unfolding remove values_at
  values_at-remove [] [] a (node vs bs) = (refl, refl)
  values_at-remove [] (u ∷ p) a (node vs bs) = (refl, refl)
  values_at-remove (t ∷ q) [] a (node vs bs) =
      ground (arith, values_at-remove q [] a (or_default (get_branch t bs)))
  values_at-remove (t ∷ q) (u ∷ p) a (node vs bs) =
      let x = or_default (get_branch t bs) in
      ground (
        arith,
        l.same_iff t u,
        get-put_branch t u (remove q a x).1 bs,
        get-del_branch t u bs,
        values_at-bare p (remove q a x).1,
        values_at-remove q p a x,
      )
