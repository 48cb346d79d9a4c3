-- ===== src/TopicTree/Lazy.antt =====
-- The iterator of rmqtt/src/broker/topic.rs gives, one at a time, the items of a plain recursion over
-- the tree.
use rmqtt.Common.{
  ℕ, zero, suc, ◌≤◌, ◌<◌, ◌≡◌, refl, sym, ap, ◌∙◌, true, false, Option, none, some, List, [], ◌∷◌,
  ◌++◌, append-nil, append_assoc, length, Key, if◌then◌else◌, is_some, arith, Option-cases,
  Bool-cases, inl, inr, ◌⊎◌, ◌↔◌,
}
use Prim.Native.Nat.{max}
use rmqtt.TopicTree.Levels.{Levels}
use rmqtt.TopicTree.{Node, node, Branches, get_branch}
use rmqtt.TopicTree.Matcher.{
  Item, MatchedIter, iter, SubIters, nil, cons, push_sub, new_iter, add_to_items, multi_item,
  sub_of, is_blocked, prepare, Next, scan, next_item, next, collect_iter, matches, is_match,
}

abbrev mutual
  -- How deep the sub-iterators nest, with those that are still to be made.
  pub height : {L V : Type 0} → MatchedIter L V → ℕ
  height (iter n path none items subs) = suc (heights subs)
  height (iter n path (some sp) items subs) = suc (max (length path) (heights subs))

  pub heights : {L V : Type 0} → SubIters L V → ℕ
  heights nil = 0
  heights (cons i subs) = max (height i) (heights subs)

module _ {L V : Type 0} ⦃l : Key L⦄ (lv : Levels L) where
  open lv use {multi_wildcard, single_wildcard}

  -- The matching filters below a node, by recursion on the topic: the reference.
  unfoldable pub collect : List L → Node L V → List L → List (Item L V)
  collect [] (node vs bs) sp = add_to_items sp vs (multi_item lv sp bs [])
  collect (t ∷ path) (node vs bs) sp =
      let exact : List (Item L V) = elim (get_branch t bs) [
        | none ↦ []
        | some b ↦ collect path b (sp ++ t ∷ [])
      ] in
      let single : List (Item L V) = elim (get_branch single_wildcard bs) [
        | none ↦ []
        | some b ↦ collect path b (sp ++ single_wildcard ∷ [])
      ] in
      if is_blocked lv t sp bs then exact else multi_item lv sp bs [] ++ (single ++ exact)

  abbrev mutual
    -- What an iterator is still to give.
    pub rest_of : MatchedIter L V → List (Item L V)
    rest_of (iter n path none items subs) = items ++ rests_of subs
    rest_of (iter n path (some sp) items subs) = (items ++ rests_of subs) ++ collect path n sp

    pub rests_of : SubIters L V → List (Item L V)
    rests_of nil = []
    rests_of (cons i subs) = rest_of i ++ rests_of subs

  rests_of-push_sub :
      (i : MatchedIter L V) (subs : SubIters L V)
      → rests_of (push_sub i subs) ≡ rests_of subs ++ rest_of i
  rests_of-push_sub i nil = append-nil (rest_of i)
  rests_of-push_sub i (cons j subs) =
      rw (rests_of-push_sub i subs) (sym (append_assoc (rest_of j) (rests_of subs) (rest_of i)))

  abbrev pub below : L → List L → List L → Branches L V → List (Item L V)
  below t path sp bs = elim (get_branch t bs) [ none ↦ [] | some b ↦ collect path b (sp ++ t ∷ []) ]

  rests_of-sub_of :
      (t : L) (path sp : List L) (bs : Branches L V) (subs : SubIters L V)
      → rests_of (sub_of lv t path sp bs subs) ≡ rests_of subs ++ below t path sp bs
  rests_of-sub_of t path sp bs subs = elim (Option-cases (get_branch t bs)) [
    | inl e ↦ rw (e, sub_of, below) (sym (append-nil (rests_of subs)))
    | inr (b, e) ↦ rw (e, sub_of, below) (rests_of-push_sub (new_iter b path (sp ++ t ∷ [])) subs)
  ]

  rest_of-prepare :
      (sp : List L) (n : Node L V) (path : List L)
      → rest_of (prepare lv sp n path [] nil) ≡ collect path n sp
  unfolding prepare collect
  rest_of-prepare sp (node vs bs) [] = append-nil _
  rest_of-prepare sp (node vs bs) (t ∷ path) = elim (Bool-cases (is_blocked lv t sp bs)) [
    | inl e ↦ rw e (rests_of-sub_of t path sp bs nil)
    | inr e ↦ rw e (
        ap (λ r. multi_item lv sp bs [] ++ r)
          (rests_of-sub_of t path sp bs (sub_of lv single_wildcard path sp bs nil)
            ∙ ap (λ r. r ++ below t path sp bs) (rests_of-sub_of single_wildcard path sp bs nil)))
  ]

  heights-push_sub :
      (i : MatchedIter L V) (subs : SubIters L V)
      → heights (push_sub i subs) ≡ max (heights subs) (height i)
  heights-push_sub i nil = omega arith
  heights-push_sub i (cons j subs) = omega (arith, heights-push_sub i subs)

  heights-sub_of :
      (t : L) (path sp : List L) (bs : Branches L V) (subs : SubIters L V)
      → heights (sub_of lv t path sp bs subs) ≤ max (heights subs) (suc (length path))
  heights-sub_of t path sp bs subs = elim (Option-cases (get_branch t bs)) [
    | inl e ↦ rw (e, sub_of) (omega arith)
    | inr (b, e) ↦
        rw (e, sub_of) (omega (arith, heights-push_sub (new_iter b path (sp ++ t ∷ [])) subs))
  ]

  height-prepare :
      (sp : List L) (n : Node L V) (path : List L)
      → height (prepare lv sp n path [] nil) ≤ suc (length path)
  unfolding prepare
  height-prepare sp (node vs bs) [] = omega arith
  height-prepare sp (node vs bs) (t ∷ path) =
      let exact = heights-sub_of t path sp bs nil in
      let single = heights-sub_of single_wildcard path sp bs nil in
      let both = heights-sub_of t path sp bs (sub_of lv single_wildcard path sp bs nil) in
      elim (Bool-cases (is_blocked lv t sp bs)) [
        | inl e ↦ rw e (omega arith)
        | inr e ↦ rw e (omega arith)
      ]

  -- One step: the iterator is at its end and stays there, or it gives the first of what it has to
  -- give and keeps the others.
  abbrev pub Steps : MatchedIter L V → Option (Item L V) × MatchedIter L V → Type 0
  Steps i (item, i') =
      ((item ≡ none) × (rest_of i ≡ []) × (rest_of i' ≡ []))
      ⊎ ((x : Item L V) × (item ≡ some x) × (rest_of i ≡ x ∷ rest_of i') × (height i' ≤ height i))

  abbrev ScanSteps : SubIters L V → Option (Item L V) × SubIters L V → Type 0
  ScanSteps subs (item, subs') =
      ((item ≡ none) × (rests_of subs ≡ []) × (subs' ≡ nil))
      ⊎ ((x : Item L V) × (item ≡ some x)
          × (rests_of subs ≡ x ∷ rests_of subs')
          × (heights subs' ≤ heights subs))

  -- After its items and sub-iterators an iterator has what it has not prepared yet.
  abbrev pending : MatchedIter L V → List (Item L V)
  pending (iter n path none items subs) = []
  pending (iter n path (some sp) items subs) = collect path n sp

  abbrev spent : MatchedIter L V → MatchedIter L V
  spent (iter n path sp items subs) = iter n path sp [] nil

  abbrev below_top : MatchedIter L V → ℕ
  below_top (iter n path sp items subs) = heights subs

  abbrev ItemSteps : MatchedIter L V → Option (Item L V) × MatchedIter L V → Type 0
  ItemSteps i (item, i') =
      ((item ≡ none) × (rest_of i ≡ pending i) × (i' ≡ spent i))
      ⊎ ((x : Item L V) × (item ≡ some x) × (rest_of i ≡ x ∷ rest_of i') × (height i' ≤ height i))

  module _ (f : Next L V) (m : ℕ) (ok : (i : MatchedIter L V) → height i ≤ m → Steps i (f i)) where
    scan_lem : (subs : SubIters L V) → heights subs ≤ m → ScanSteps subs (scan f subs)
    unfolding scan
    scan_lem nil h = inl (refl, refl, refl)
    scan_lem (cons i subs) h = elim (ok i (omega arith)) [
      | inl (e, nothing, _) ↦ elim (scan_lem subs (omega arith)) [
        | inl (e', nothing', gone) ↦ inl (rw (e, scan) e', rw nothing nothing', rw (e, scan) gone)
        | inr (x, e', given, le) ↦
            inr (x, rw (e, scan) e', rw nothing (rw (e, scan) given), rw (e, scan) (omega arith))
      ]
      | inr (x, e, given, le) ↦ inr (
        x,
        rw (e, scan),
        rw (e, scan) (ap (λ r. r ++ rests_of subs) given),
        rw (e, scan) (omega arith),
      )
    ]

    next_item_lem : (i : MatchedIter L V) → below_top i ≤ m → ItemSteps i (next_item f i)
    unfolding next_item
    next_item_lem (iter n path none (x ∷ items) subs) h = inr (x, refl, refl, omega arith)
    next_item_lem (iter n path (some sp) (x ∷ items) subs) h = inr (x, refl, refl, omega arith)
    next_item_lem (iter n path none [] subs) h = elim (scan_lem subs h) [
      | inl (e, nothing, gone) ↦ inl (e, nothing, ap (iter n path none []) gone)
      | inr (x, e, given, le) ↦ inr (x, e, given, omega arith)
    ]
    next_item_lem (iter n path (some sp) [] subs) h = elim (scan_lem subs h) [
      | inl (e, nothing, gone) ↦
          inl (e, ap (λ r. r ++ collect path n sp) nothing, ap (iter n path (some sp) []) gone)
      | inr (x, e, given, le) ↦ inr (x, e, ap (λ r. r ++ collect path n sp) given, omega arith)
    ]

  -- `prepare` gives an iterator that has nothing left to prepare.
  prepared :
      (P : MatchedIter L V → Type 0)
      → ((n : Node L V) (path : List L) (items : List (Item L V)) (subs : SubIters L V)
          → P (iter n path none items subs))
      → (sp : List L) (n : Node L V) (path : List L) → P (prepare lv sp n path [] nil)
  unfolding prepare
  prepared P h sp (node vs bs) [] = h _ _ _ _
  prepared P h sp (node vs bs) (t ∷ path) = elim (Bool-cases (is_blocked lv t sp bs)) [
    | inl e ↦ rw e (h _ _ _ _)
    | inr e ↦ rw e (h _ _ _ _)
  ]

  below_top-height : (i : MatchedIter L V) → suc (below_top i) ≤ height i
  below_top-height (iter n path none items subs) = omega arith
  below_top-height (iter n path (some sp) items subs) = omega arith

  Steps-shift :
      (i j : MatchedIter L V) (r : Option (Item L V) × MatchedIter L V)
      → rest_of i ≡ rest_of j
      → height j ≤ height i
      → Steps j r
      → Steps i r
  Steps-shift i j (item, i') e h (inl (none_left, nothing, end)) = inl (none_left, e ∙ nothing, end)
  Steps-shift i j (item, i') e h (inr (x, got, given, le)) = inr (x, got, e ∙ given, omega arith)

  Steps-ended :
      (i : MatchedIter L V) (r : Option (Item L V) × MatchedIter L V)
      → pending i ≡ []
      → rest_of (spent i) ≡ []
      → ItemSteps i r
      → Steps i r
  Steps-ended i (item, i') p s (inl (none_left, nothing, end)) =
      inl (none_left, nothing ∙ p, ap rest_of end ∙ s)
  Steps-ended i (item, i') p s (inr found) = inr found

  next_item-prepare :
      (f : Next L V) (m : ℕ)
      → ((i : MatchedIter L V) → height i ≤ m → Steps i (f i))
      → (sp : List L) (n : Node L V) (path : List L) (items : List (Item L V)) (subs : SubIters L V)
      → height (iter n path (some sp) items subs) ≤ suc m
      → rest_of (iter n path (some sp) items subs) ≡ collect path n sp
      → Steps (iter n path (some sp) items subs) (next_item f (prepare lv sp n path [] nil))
  next_item-prepare f m ok sp n path items subs h e =
      let j = prepare lv sp n path [] nil in
      let fits = height-prepare sp n path in
      Steps-shift (iter n path (some sp) items subs) j (next_item f j)
        (e ∙ sym (rest_of-prepare sp n path)) (omega arith)
        (Steps-ended j (next_item f j) (prepared (λ k. pending k ≡ []) (λ _ _ _ _. refl) sp n path)
          (prepared (λ k. rest_of (spent k) ≡ []) (λ _ _ _ _. refl) sp n path)
          (next_item_lem f m ok j (omega (arith, below_top-height j))))

  -- `next`, on fuel no less than the depth, gives what the iterator has still to give, one item at a
  -- time, and at the end nothing.
  pub next-Steps : (m : ℕ) (i : MatchedIter L V) → height i ≤ m → Steps i (next lv m i)
  unfolding next
  next-Steps zero (iter n path none items subs) h = absurd (omega arith)
  next-Steps zero (iter n path (some sp) items subs) h = absurd (omega arith)
  next-Steps (suc m) (iter n path none items subs) h =
      let i = iter n path none items subs in
      elim (next_item_lem (next lv m) m (next-Steps m) i (omega arith)) [
        | inl (e, nothing, end) ↦ rw (e, next) (rw end (inl (refl, nothing, refl)))
        | inr (x, e, given, le) ↦ rw (e, next) (inr (x, refl, given, le))
      ]
  next-Steps (suc m) (iter n path (some sp) items subs) h =
      let i = iter n path (some sp) items subs in
      elim (next_item_lem (next lv m) m (next-Steps m) i (omega arith)) [
        | inl (e, nothing, end) ↦
            rw (e, next)
              (rw end
                (next_item-prepare (next lv m) m (next-Steps m) sp n path items subs h nothing))
        | inr (x, e, given, le) ↦ rw (e, next) (inr (x, refl, given, le))
      ]

  collect_iter_rest :
      (k depth : ℕ) (i : MatchedIter L V)
      → length (rest_of i) < k
      → height i ≤ depth
      → collect_iter lv k depth i ≡ rest_of i
  unfolding collect_iter
  collect_iter_rest zero depth i h d = absurd (omega arith)
  collect_iter_rest (suc k) depth i h d = elim (next-Steps depth i d) [
    | inl (e, nothing, _) ↦ rw (e, collect_iter) (sym nothing)
    | inr (x, e, given, le) ↦
        let short = ap length given in
        rw (e, collect_iter, given)
          (ap (λ r. x ∷ r)
            (collect_iter_rest k depth (next lv depth i).1 (omega arith) (omega arith)))
  ]

  -- On fuel for the depth, one more than the levels of the topic, and for the items, iterating over
  -- `matches(topic)` gives the items of the reference in its order.
  pub collect_iter-matches :
      (k : ℕ) (n : Node L V) (topic : List L)
      → length (collect topic n []) < k
      → collect_iter lv k (suc (length topic)) (matches n topic) ≡ collect topic n []
  collect_iter-matches k n topic h =
      collect_iter_rest k (suc (length topic)) (matches n topic) h (omega arith)

  -- `is_match` says whether the reference has an item.
  pub is_match_lem :
      (n : Node L V) (topic : List L)
      → (is_match lv (suc (length topic)) n topic ≡ false) ↔ (collect topic n [] ≡ [])
  unfolding is_match
  is_match_lem n topic = elim (next-Steps (suc (length topic)) (matches n topic) (omega arith)) [
    | inl (e, nothing, _) ↦ (λ _. nothing, λ _. rw (e, is_match))
    | inr (x, e, given, _) ↦
        (λ h. absurd (true≢false (ap is_some (sym e) ∙ h)), λ h. absurd (cons≢nil (sym given ∙ h)))
  ]
    where
      true≢false : ¬ (true ≡ false)
      true≢false e = cc

      cons≢nil : {A : Type 0} {x : A} {xs : List A} → ¬ (x ∷ xs ≡ [])
      cons≢nil e = cc
