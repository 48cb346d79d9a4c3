-- ===== src/Retain.antt =====
-- rmqtt/src/broker/retain.rs: the tree of retained messages. A node has at most one value; its branches are
-- an association of levels with subtrees, in the order in which they are iterated.
pub mod Search
pub mod Values
pub mod Below
pub mod Multi
pub mod Reach
pub mod Sound
pub mod Filters
pub mod Storage
pub mod Stored
mod Tests
use rmqtt.Common.{
  ℕ, suc, ◌+◌, Bool, true, false, not, Option, none, some, List, [], ◌∷◌, Key, same, if◌then◌else◌,
  leb,
}

mutual
  pub data Node (L V : Type 0) : Type 0 where
    node : Option V → Branches L V → Node L V

  pub data Branches (L V : Type 0) : Type 0 where
    nil : Branches L V
    cons : L → Node L V → Branches L V → Branches L V

module _ {L V : Type 0} ⦃l : Key L⦄ where
  abbrev pub get_branch : L → Branches L V → Option (Node L V)
  get_branch t nil = none
  get_branch t (cons u n bs) = if same u t then some n else get_branch t bs

  abbrev pub put_branch : L → Node L V → Branches L V → Branches L V
  put_branch t m nil = cons t m nil
  put_branch t m (cons u n bs) = if same u t then cons u m bs else cons u n (put_branch t m bs)

  abbrev pub del_branch : L → Branches L V → Branches L V
  del_branch t nil = nil
  del_branch t (cons u n bs) = if same u t then del_branch t bs else cons u n (del_branch t bs)

abbrev pub default : {L V : Type 0} → Node L V
default = node none nil

abbrev pub or_default : {L V : Type 0} → Option (Node L V) → Node L V
or_default none = default
or_default (some n) = n

-- `x.value.is_none() && x.branches.is_empty()`.
abbrev pub is_bare : {L V : Type 0} → Node L V → Bool
is_bare (node none nil) = true
is_bare (node none (cons t n bs)) = false
is_bare (node (some v) bs) = false

module _ {L V : Type 0} ⦃l : Key L⦄ where
  unfoldable pub insert : List L → V → Node L V → Node L V
  insert [] value (node old bs) = node (some value) bs
  insert (first ∷ path) value (node v bs) =
      node v (put_branch first (insert path value (or_default (get_branch first bs))) bs)

  unfoldable pub remove : List L → Node L V → Option V × Node L V
  remove [] (node v bs) = (v, node none bs)
  remove (t ∷ path) (node v bs) = elim (get_branch t bs) [
    | none ↦ (none, node v bs)
    | some x ↦
        let (res, x') = remove path x in
        (res, node v (if is_bare x' then del_branch t bs else put_branch t x' bs))
  ]

unfoldable mutual
  pub values_size : {L V : Type 0} → Node L V → ℕ
  values_size (node none bs) = branches_values bs
  values_size (node (some v) bs) = branches_values bs + 1

  pub branches_values : {L V : Type 0} → Branches L V → ℕ
  branches_values nil = 0
  branches_values (cons t n bs) = values_size n + branches_values bs

unfoldable mutual
  pub nodes_size : {L V : Type 0} → Node L V → ℕ
  nodes_size (node v bs) = branches_nodes bs

  pub branches_nodes : {L V : Type 0} → Branches L V → ℕ
  branches_nodes nil = 0
  branches_nodes (cons t n bs) = suc (nodes_size n + branches_nodes bs)

-- `retain`: `f` says whether a value is kept, and may change it and a state of its own.
module _ {L V S : Type 0} (f : V → S → Bool × V × S) (max_limit : ℕ) where
  -- The value of a child, with the number of values removed so far.
  unfoldable pub retain_value : ℕ × S → Node L V → (ℕ × S) × Node L V
  retain_value (removeds, s) (node none bs) = ((removeds, s), node none bs)
  retain_value (removeds, s) (node (some v) bs) =
      let (kept, v', s') = f v s in
      if kept then ((removeds, s'), node (some v') bs) else ((suc removeds, s'), node none bs)

  unfoldable mutual
    pub retain_node : ℕ × S → Node L V → (ℕ × S) × Node L V
    retain_node state (node v bs) =
        let (state', bs') = retain_branches state bs in
        if leb max_limit state.0 then (state, node v bs) else (state', node v bs')

    pub retain_branches : ℕ × S → Branches L V → (ℕ × S) × Branches L V
    retain_branches state nil = (state, nil)
    retain_branches state (cons t n bs) =
        let (below, n') = retain_node state n in
        let (here, n'') = retain_value below n' in
        let (end, bs') = retain_branches here bs in
        (end, if is_bare n'' then bs' else cons t n'' bs')

  -- The number of values removed, and the state and the tree after.
  unfoldable pub retain : S → Node L V → (ℕ × S) × Node L V
  retain s n = retain_node (0, s) n
