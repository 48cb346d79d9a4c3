-- ===== src/Retain/Search.antt =====
-- `matches` of rmqtt/src/broker/retain.rs: the retained messages whose topics match a filter.
use rmqtt.Common.{
  Bool, true, false, ◌&&◌, not, none, some, List, [], ◌∷◌, ◌++◌, Key, same, if◌then◌else◌, is_some,
}
use rmqtt.TopicTree.Levels.{Levels}
use rmqtt.TopicTree.Matcher.{is_nil}
use rmqtt.Retain.{Node, node, Branches, nil, cons, get_branch}

abbrev pub Found : Type 0 → Type 0 → Type 0
Found L V = List (List L × V)

-- `add_to_out` of a node's value, where it has one.
abbrev pub value_found : {L V : Type 0} → List L → Node L V → Found L V
value_found sp (node none bs) = []
value_found sp (node (some v) bs) = (sp, v) ∷ []

abbrev pub no_branches : {L V : Type 0} → Node L V → Bool
no_branches (node v nil) = true
no_branches (node v (cons t n bs)) = false

module _ {L : Type 0} ⦃l : Key L⦄ (lv : Levels L) where
  open lv use {blank, is_metadata}

  -- A topic that starts with `$` is not matched by a filter that starts with a wildcard.
  abbrev pub is_hidden : List L → L → Bool
  is_hidden sp u = is_nil sp && (not (same u blank) && is_metadata u)

module _ {L V : Type 0} ⦃l : Key L⦄ (lv : Levels L) where
  open lv use {multi_wildcard, single_wildcard}

  -- `path.len() > 1 && path[1] == Level::MultiWildcard`, given the levels after the first: `#` also
  -- matches the parent.
  abbrev pub parent_found : List L → List L → Node L V → Found L V
  parent_found [] sp n = []
  parent_found (t ∷ path) sp n = if same t multi_wildcard then value_found sp n else []

  unfoldable mutual
    pub matches_from : Node L V → List L → List L → Found L V
    matches_from (node v bs) [] sp = value_found sp (node v bs)
    matches_from (node v bs) (t ∷ path) sp =
        if is_some (get_branch t bs)
        then exact_below bs t path sp
        else if same t single_wildcard
        then single_below bs path sp
        else if same t multi_wildcard
        then multi_below bs t path sp
        else []

    -- `self.branches.get(&path[0])`.
    pub exact_below : Branches L V → L → List L → List L → Found L V
    exact_below nil t path sp = []
    exact_below (cons u n bs) t path sp =
        if same u t
        then parent_found path (sp ++ t ∷ []) n ++ matches_from n path (sp ++ t ∷ [])
        else exact_below bs t path sp

    pub single_below : Branches L V → List L → List L → Found L V
    single_below nil path sp = []
    single_below (cons u n bs) path sp =
        if is_hidden lv sp u
        then single_below bs path sp
        else (parent_found path (sp ++ u ∷ []) n ++ matches_from n path (sp ++ u ∷ []))
          ++ single_below bs path sp

    pub multi_below : Branches L V → L → List L → List L → Found L V
    multi_below nil t path sp = []
    multi_below (cons u n bs) t path sp =
        if is_hidden lv sp u
        then multi_below bs t path sp
        else if no_branches n
        then value_found (sp ++ u ∷ []) n ++ multi_below bs t path sp
        else (value_found (sp ++ u ∷ []) n ++ matches_from n (t ∷ path) (sp ++ u ∷ []))
          ++ multi_below bs t path sp

  unfoldable pub matches : List L → Node L V → Found L V
  matches topic n = matches_from n topic []
