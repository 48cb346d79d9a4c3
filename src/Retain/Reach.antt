-- ===== src/Retain/Reach.antt =====
-- What insertions and removals of rmqtt/src/broker/retain.rs leave of the tree's levels.
use rmqtt.Common.{
  ◌≡◌, refl, ◌∙◌, false, Option, none, some, List, [], ◌∷◌, Key, same, arith, Bool-cases,
  Option-cases, inl, inr,
}
use rmqtt.TopicTree.Levels.{Levels}
use rmqtt.TopicTree.Matcher.{is_nil}
use rmqtt.Retain.{
  Node, node, Branches, nil, cons, get_branch, put_branch, del_branch, or_default, is_bare, insert,
  remove,
}
use rmqtt.Retain.Values.{value_at, value_at-insert, value_at-remove, get-put_branch, get-del_branch}
use rmqtt.Retain.Below.{IsTopics, AreTopics, branch_IsTopics}

-- A message that is stored on a topic, or none for one that is cleared.
abbrev pub Change : Type 0 → Type 0 → Type 0
Change L V = List L × Option V

module _ {L : Type 0} ⦃l : Key L⦄ (lv : Levels L) where
  -- A topic has no wildcard level.
  abbrev pub IsPlain : List L → Type 0
  IsPlain [] = Unit
  IsPlain (t ∷ path) =
      (same t lv.multi_wildcard ≡ false) × (same t lv.single_wildcard ≡ false) × IsPlain path

module _ {L V : Type 0} ⦃l : Key L⦄ (lv : Levels L) where
  put_branch-AreTopics :
      (t : L) (n : Node L V) (bs : Branches L V)
      → same t lv.multi_wildcard ≡ false
      → same t lv.single_wildcard ≡ false
      → IsTopics lv n
      → AreTopics lv bs
      → AreTopics lv (put_branch t n bs)
  put_branch-AreTopics t n nil h k w a = (h, k, refl, w, tt)
  put_branch-AreTopics t n (cons u m bs) h k w a = elim (Bool-cases (same u t)) [
    | inl e ↦ rw e (a.0, a.1, a.2, w, a.4)
    | inr e ↦
        let other : same t u ≡ false = ground (arith, l.same_iff u t, l.same_iff t u) in
        let absent : get_branch u (put_branch t n bs) ≡ none =
          get-put_branch t u n bs ∙ rw other a.2 in
        rw e (a.0, a.1, absent, a.3, put_branch-AreTopics t n bs h k w a.4)
  ]

  del_branch-AreTopics :
      (t : L) (bs : Branches L V) → AreTopics lv bs → AreTopics lv (del_branch t bs)
  del_branch-AreTopics t nil a = tt
  del_branch-AreTopics t (cons u m bs) a = elim (Bool-cases (same u t)) [
    | inl e ↦ rw e (del_branch-AreTopics t bs a.4)
    | inr e ↦
        let other : same t u ≡ false = ground (arith, l.same_iff u t, l.same_iff t u) in
        let absent : get_branch u (del_branch t bs) ≡ none = get-del_branch t u bs ∙ rw other a.2 in
        rw e (a.0, a.1, absent, a.3, del_branch-AreTopics t bs a.4)
  ]

  or_default-IsTopics :
      (t : L) (bs : Branches L V) → AreTopics lv bs → IsTopics lv (or_default (get_branch t bs))
  or_default-IsTopics t bs a = elim (Option-cases (get_branch t bs)) [
    | inl e ↦ rw e tt
    | inr (b, e) ↦ rw e (branch_IsTopics lv t bs b a e)
  ]

  -- Inserting on a topic without wildcards leaves a tree without wildcard levels.
  pub insert-IsTopics :
      (path : List L) (v : V) (n : Node L V)
      → IsPlain lv path
      → IsTopics lv n
      → IsTopics lv (insert path v n)
  unfolding insert
  insert-IsTopics [] v (node w bs) p a = a
  insert-IsTopics (t ∷ path) v (node w bs) p a =
      put_branch-AreTopics t (insert path v (or_default (get_branch t bs))) bs p.0 p.1
        (insert-IsTopics path v (or_default (get_branch t bs)) p.2 (or_default-IsTopics t bs a)) a

  -- So does removing.
  pub remove-IsTopics :
      (path : List L) (n : Node L V)
      → IsPlain lv path
      → IsTopics lv n
      → IsTopics lv (remove path n).1
  unfolding remove
  remove-IsTopics [] (node w bs) p a = a
  remove-IsTopics (t ∷ path) (node w bs) p a = elim (Option-cases (get_branch t bs)) [
    | inl e ↦ rw (e, remove) a
    | inr (x, e) ↦
        let below = remove-IsTopics path x p.2 (branch_IsTopics lv t bs x a e) in
        elim (Bool-cases (is_bare (remove path x).1)) [
          | inl k ↦ rw (e, k, remove) (del_branch-AreTopics t bs a)
          | inr k ↦ rw (e, k, remove) (put_branch-AreTopics t (remove path x).1 bs p.0 p.1 below a)
        ]
  ]

  abbrev pub change : Change L V → Node L V → Node L V
  change (path, some v) n = insert path v n
  change (path, none) n = (remove path n).1

  unfoldable pub run : List (Change L V) → Node L V → Node L V
  run [] n = n
  run (c ∷ cs) n = run cs (change c n)

  -- The changes are on topics of at least one level, and none of their levels is a wildcard.
  abbrev pub ArePlain : List (Change L V) → Type 0
  ArePlain [] = Unit
  ArePlain (c ∷ cs) = (is_nil c.0 ≡ false) × IsPlain lv c.0 × ArePlain cs

  -- The state of a tree that `search_lem` asks for.
  abbrev pub IsSearchable : Node L V → Type 0
  IsSearchable n = IsTopics lv n × (value_at [] n ≡ none)

  change-IsSearchable :
      (path : List L) (w : Option V) (n : Node L V)
      → is_nil path ≡ false
      → IsPlain lv path
      → IsSearchable n
      → IsSearchable (change (path, w) n)
  change-IsSearchable [] w n ne p h = cc
  change-IsSearchable (t ∷ path) (some v) n ne p (a, root) =
      (insert-IsTopics (t ∷ path) v n p a, value_at-insert (t ∷ path) [] v n ∙ root)
  change-IsSearchable (t ∷ path) none n ne p (a, root) =
      (remove-IsTopics (t ∷ path) n p a, (value_at-remove (t ∷ path) [] n).1 ∙ root)

  -- Whatever is stored and cleared on topics of at least one level without wildcards, a tree without
  -- wildcard levels, without a level twice at a node, and without a value at the root stays one.
  pub run-IsSearchable :
      (cs : List (Change L V)) (n : Node L V)
      → ArePlain cs
      → IsSearchable n
      → IsSearchable (run cs n)
  unfolding run
  run-IsSearchable [] n p h = h
  run-IsSearchable ((path, w) ∷ cs) n (ne, p, ps) h =
      run-IsSearchable cs (change (path, w) n) ps (change-IsSearchable path w n ne p h)
