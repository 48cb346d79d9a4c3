-- ===== src/Retain/Values.antt =====
-- The tree of rmqtt/src/broker/retain.rs read as a map from topics to values.
use rmqtt.Common.{
  ◌≡◌, refl, true, Option, none, some, List, [], ◌∷◌, Key, same, list_same, if◌then◌else◌, arith,
}
use rmqtt.Retain.{
  Node, node, Branches, nil, cons, get_branch, put_branch, del_branch, default, or_default, is_bare,
  insert, remove,
}

module _ {L V : Type 0} ⦃l : Key L⦄ where
  -- The value that stands at a topic.
  unfoldable pub value_at : List L → Node L V → Option V
  value_at [] (node v bs) = v
  value_at (t ∷ path) (node v bs) = elim (get_branch t bs) [
    | none ↦ none
    | some x ↦ value_at path x
  ]

  pub get-put_branch :
      (t u : L) (n : Node L V) (bs : Branches L V)
      → get_branch u (put_branch t n bs) ≡ (if same t u then some n else get_branch u bs)
  get-put_branch t u n nil = refl
  get-put_branch t u n (cons w m bs) =
      ground (arith, l.same_iff w t, l.same_iff w u, l.same_iff t u, get-put_branch t u n bs)

  pub get-del_branch :
      (t u : L) (bs : Branches L V)
      → get_branch u (del_branch t bs) ≡ (if same t u then none else get_branch u bs)
  get-del_branch t u nil = ground arith
  get-del_branch t u (cons w m bs) =
      ground (arith, l.same_iff w t, l.same_iff w u, l.same_iff t u, get-del_branch t u bs)

  pub value_at-default : (path : List L) → value_at path (default {L = L} {V = V}) ≡ none
  unfolding value_at
  value_at-default [] = refl
  value_at-default (t ∷ path) = refl

  pub value_at-bare : (path : List L) (n : Node L V) → is_bare n ≡ true → value_at path n ≡ none
  unfolding value_at
  value_at-bare [] (node none bs) h = refl
  value_at-bare [] (node (some v) bs) h = cc
  value_at-bare (t ∷ path) (node none nil) h = refl
  value_at-bare (t ∷ path) (node none (cons u n bs)) h = cc
  value_at-bare (t ∷ path) (node (some v) bs) h = cc

  -- An insertion sets the value at its topic and leaves every other topic's.
  pub value_at-insert :
      (q p : List L) (a : V) (n : Node L V)
      → value_at p (insert q a n) ≡ (if list_same q p then some a else value_at p n)
  unfolding insert value_at
  value_at-insert [] [] a (node v bs) = refl
  value_at-insert [] (u ∷ p) a (node v bs) = refl
  value_at-insert (t ∷ q) [] a (node v bs) = refl
  value_at-insert (t ∷ q) (u ∷ p) a (node v bs) = ground (
    arith,
    l.same_iff t u,
    get-put_branch t u (insert q a (or_default (get_branch t bs))) bs,
    value_at-default p,
    value_at-insert q p a (or_default (get_branch t bs)),
  )

  -- A removal gives the value that stood at its topic, leaves none there, and leaves every other
  -- topic's.
  pub value_at-remove :
      (q p : List L) (n : Node L V)
      → ((remove q n).0 ≡ value_at q n)
        × (value_at p (remove q n).1 ≡ (if list_same q p then none else value_at p n))
  unfolding remove value_at
  value_at-remove [] [] (node v bs) = (refl, refl)
  value_at-remove [] (u ∷ p) (node v bs) = (refl, refl)
  value_at-remove (t ∷ q) [] (node v bs) =
      ground (arith, value_at-remove q [] (or_default (get_branch t bs)))
  value_at-remove (t ∷ q) (u ∷ p) (node v bs) =
      let x = or_default (get_branch t bs) in
      ground (
        arith,
        l.same_iff t u,
        get-put_branch t u (remove q x).1 bs,
        get-del_branch t u bs,
        value_at-bare p (remove q x).1,
        value_at-remove q p x,
      )
