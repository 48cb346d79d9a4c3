-- ===== src/TopicTree.antt =====
-- rmqtt/src/broker/topic.rs: the tree of topic filters. A level is a type of `ntex_mqtt`; a topic or
-- a filter is its list of levels. A branch map is an association of levels with subtrees, and a
-- value set a list with no value twice; the order in which these are iterated is left open.
pub mod Levels
pub mod Matcher
pub mod Values
pub mod Valid
pub mod Sizes
pub mod Lazy
pub mod Filters
mod Tests
use rmqtt.Common.{
  ℕ, zero, suc, ◌+◌, Bool, true, false, ◌&&◌, ◌||◌, not, Option, none, some, List, [], ◌∷◌, ◌++◌,
  Key, same, if◌then◌else◌, is_some, length,
}

mutual
  pub data Node (L V : Type 0) : Type 0 where
    node : List V → Branches L V → Node L V

  pub data Branches (L V : Type 0) : Type 0 where
    nil : Branches L V
    cons : L → Node L V → Branches L V → Branches L V

-- A `BTreeSet` of values.
module _ {V : Type 0} ⦃v : Key V⦄ where
  abbrev pub contains : V → List V → Bool
  contains a [] = false
  contains a (x ∷ xs) = same x a || contains a xs

  abbrev pub set_insert : V → List V → List V
  set_insert a xs = if contains a xs then xs else xs ++ a ∷ []

  abbrev pub set_remove : V → List V → List V
  set_remove a [] = []
  set_remove a (x ∷ xs) = if same x a then set_remove a xs else x ∷ set_remove a xs

module _ {L V : Type 0} ⦃l : Key L⦄ where
  abbrev pub get_branch : L → Branches L V → Option (Node L V)
  get_branch t nil = none
  get_branch t (cons u n bs) = if same u t then some n else get_branch t bs

  abbrev pub put_branch : L → Node L V → Branches L V → Branches L V
  put_branch t m nil = cons t m nil
  put_branch t m (cons u n bs) = if same u t then cons u m bs else cons u n (put_branch t m bs)

  abbrev pub del_branch : L → Branches L V → Branches L V
  del_branch t nil = nil
  del_branch t (cons u n bs) = if same u t then del_branch t bs else cons u n (del_branch t bs)

abbrev pub default : {L V : Type 0} → Node L V
default = node [] nil

-- `branches.entry(first).or_default()`.
abbrev pub or_default : {L V : Type 0} → Option (Node L V) → Node L V
or_default none = default
or_default (some n) = n

-- `x.values.is_empty() && x.branches.is_empty()`.
abbrev pub is_bare : {L V : Type 0} → Node L V → Bool
is_bare (node [] nil) = true
is_bare (node [] (cons t n bs)) = false
is_bare (node (x ∷ xs) bs) = false

module _ {L V : Type 0} ⦃l : Key L⦄ ⦃v : Key V⦄ where
  -- Whether the value is new, and the tree after it. The path of the source is reversed and popped
  -- from its end.
  unfoldable pub insert : List L → V → Node L V → Bool × Node L V
  insert [] value (node vs bs) = (not (contains value vs), node (set_insert value vs) bs)
  insert (first ∷ path) value (node vs bs) =
      let (res, child) = insert path value (or_default (get_branch first bs)) in
      (res, node vs (put_branch first child bs))

  unfoldable pub remove : List L → V → Node L V → Bool × Node L V
  remove [] value (node vs bs) = (contains value vs, node (set_remove value vs) bs)
  remove (t ∷ path) value (node vs bs) = elim (get_branch t bs) [
    | none ↦ (false, node vs bs)
    | some x ↦
        let (res, x') = remove path value x in
        (res, node vs (if is_bare x' then del_branch t bs else put_branch t x' bs))
  ]

unfoldable mutual
  pub values_size : {L V : Type 0} → Node L V → ℕ
  values_size (node vs bs) = length vs + branches_values bs

  pub branches_values : {L V : Type 0} → Branches L V → ℕ
  branches_values nil = 0
  branches_values (cons t n bs) = values_size n + branches_values bs

unfoldable mutual
  pub nodes_size : {L V : Type 0} → Node L V → ℕ
  nodes_size (node vs bs) = branches_nodes bs

  pub branches_nodes : {L V : Type 0} → Branches L V → ℕ
  branches_nodes nil = 0
  branches_nodes (cons t n bs) = suc (nodes_size n + branches_nodes bs)
