-- ===== src/Retain/Filters.antt =====
-- The search of rmqtt/src/broker/retain.rs finds exactly the retained messages whose topics match the
-- filter by the rules of MQTT.
use mathlib.Core.Logic.{◌↔◌}
use rmqtt.Common.{
  ◌≡◌, sym, ◌∙◌, false, Option, none, some, List, [], ◌∷◌, ◌++◌, append-nil, append_assoc, Key,
  same_refl, In, In-append_left, In-append_right, arith, inl, inr, ◌⊎◌,
}
use rmqtt.TopicTree.Levels.{Levels}
use rmqtt.TopicTree.Filters.{Fits, Matches, Allowed, deeper}
use rmqtt.Retain.{Node, node}
use rmqtt.Retain.Search.{parent_found, is_hidden, matches_from, matches}
use rmqtt.Retain.Values.{value_at}
use rmqtt.Retain.Below.{IsTopics, branch_IsTopics, single_complete}
use rmqtt.Retain.Multi.{value_found_here, node_complete, value_branch}
use rmqtt.Retain.Sound.{HashLast, exact_step, single_step, search_sound}

module _ {L : Type 0} ⦃l : Key L⦄ (lv : Levels L) where
  -- The filter and the topic end together, or the topic goes on: no `#` at its end for the node itself.
  abbrev IsInner : List L → List L → Type 0
  IsInner [] f = Unit
  IsInner (t ∷ path) [] = ⊥
  IsInner (t ∷ path) (u ∷ f) = Unit

  shown_level :
      (t u : L) (path f sp : List L)
      → (t ≡ lv.multi_wildcard) ⊎ (t ≡ lv.single_wildcard)
      → Allowed lv sp (t ∷ path) (u ∷ f)
      → is_hidden lv sp u ≡ false
  shown_level t u path f sp wild free =
      ground (arith, l.same_iff t lv.multi_wildcard, l.same_iff t lv.single_wildcard)

module _ {L V : Type 0} ⦃l : Key L⦄ (lv : Levels L) where
  open lv use {multi_wildcard, single_wildcard}

  child_complete :
      (path f sp : List L) (v : V) (b : Node L V)
      → Fits lv path f
      → value_at f b ≡ some v
      → (IsInner lv path f → In (sp ++ f, v) (matches_from lv b path sp))
      → In (sp ++ f, v) (parent_found lv path sp b ++ matches_from lv b path sp)
  child_complete [] f sp v b fits val further = further tt
  child_complete (t ∷ path) [] sp v b fits val further =
      let found : In (sp ++ [], v) (parent_found lv (t ∷ path) sp b) =
        rw (fits.0, same_refl multi_wildcard, append-nil sp) (value_found_here lv sp v b val) in
      In-append_left (sp ++ [], v) _ (matches_from lv b (t ∷ path) sp) found
  child_complete (t ∷ path) (u ∷ f) sp v b fits val further =
      In-append_right (sp ++ u ∷ f, v) (parent_found lv (t ∷ path) sp b) _ (further tt)

  search_complete :
      (path f : List L) (n : Node L V) (sp : List L) (v : V)
      → IsTopics lv n
      → Fits lv path f
      → Allowed lv sp path f
      → IsInner lv path f
      → value_at f n ≡ some v
      → In (sp ++ f, v) (matches_from lv n path sp)
  unfolding matches_from
  search_complete [] [] (node w bs) sp v a fits free inner val =
      rw (append-nil sp) (value_found_here lv sp v (node w bs) val)
  search_complete [] (u ∷ f) n sp v a fits free inner val = elim fits [ ]
  search_complete (t ∷ path) [] n sp v a fits free inner val = elim inner [ ]
  search_complete (t ∷ path) (u ∷ f) (node w bs) sp v a (inl (e, e')) free inner val =
      rw (e, e')
        (node_complete lv sp v (node w bs) u f a val (shown_level lv t u path f sp (inl e) free))
  search_complete (t ∷ path) (u ∷ f) (node w bs) sp v a (inr (inl (e, fits))) free inner val =
      let (b, at, val') = value_branch lv u f v w bs val in
      let shown = shown_level lv t u path f sp (inr e) free in
      let i = child_complete path f (sp ++ u ∷ []) v b fits val' (λ inner'.
        search_complete path f b (sp ++ u ∷ []) v (branch_IsTopics lv u bs b a at) fits
          (deeper lv sp u path f) inner' val') in
      rw (e, single_step lv path sp w bs a)
        (single_complete lv path sp (sp ++ u ∷ f) v bs u b at shown
          (rw (← append_assoc sp (u ∷ []) f) i))
  search_complete (t ∷ path) (u ∷ f) (node w bs) sp v a (inr (inr (e, fits))) free inner val =
      let (b, at, val') = value_branch lv u f v w bs val in
      let i = child_complete path f (sp ++ u ∷ []) v b fits val' (λ inner'.
        search_complete path f b (sp ++ u ∷ []) v (branch_IsTopics lv u bs b a at) fits
          (deeper lv sp u path f) inner' val') in
      rw (e, exact_step lv u path sp w bs b at) (rw (← append_assoc sp (u ∷ []) f) i)

  -- In a tree whose levels are no wildcards, without a value at the root, searching for a filter whose `#`
  -- is at its end gives a topic with a message exactly if the filter matches the topic by the rules of
  -- MQTT and the message is the one that the tree has at the topic.
  pub search_lem :
      (n : Node L V) (path g : List L) (v : V)
      → IsTopics lv n
      → HashLast lv path
      → value_at [] n ≡ none
      → In (g, v) (matches lv path n) ↔ (Matches lv path g × (value_at g n ≡ some v))
  unfolding matches
  search_lem n path g v a last root = (sound, complete path g)
    where
      sound : In (g, v) (matches lv path n) → Matches lv path g × (value_at g n ≡ some v)
      sound i =
          let (f, e, fits, free, val) = search_sound lv path n [] g v a last i in
          rw e ((fits, free), val)

      complete :
          (path g : List L)
          → Matches lv path g × (value_at g n ≡ some v)
          → In (g, v) (matches lv path n)
      complete [] g ((fits, free), val) = search_complete [] g n [] v a fits free tt val
      complete (t ∷ path) [] ((fits, free), val) =
          let clash : ◌≡◌ {A = Option V} none (some v) = sym root ∙ val in absurd (cc clash)
      complete (t ∷ path) (u ∷ g) ((fits, free), val) =
          search_complete (t ∷ path) (u ∷ g) n [] v a fits free tt val
