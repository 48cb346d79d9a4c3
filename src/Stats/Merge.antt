-- ===== src/Stats/Merge.antt =====
-- The merging of the counters of several nodes: `merge_topics` and `merge_routes` of
-- rmqtt/src/broker/default.rs, and what a counter keeps of its largest number.
use rmqtt.Common.{
  ℕ, ◌≡◌, List, [], ◌∷◌, arith, ℤ, pos, ◌+ℤ◌, ◌≤ℤ◌, min_ℤ, max_ℤ, ap, In, inl, inr, integers,
}
use rmqtt.Stats.{Counter, new, set, count_min, max_max, inc, dec, incs, decs, sets}

-- The counters after the first.
abbrev pub merge_rest : List (ℕ × Counter) → Counter → Counter
merge_rest [] topics = topics
merge_rest ((node, counter) ∷ rest) topics =
    merge_rest rest (max_max counter.max (count_min counter.current topics))

-- `merge_topics`; the map of the counters is the list in which it is iterated.
unfoldable pub merge_topics : List (ℕ × Counter) → Counter
merge_topics [] = new
merge_topics ((node, counter) ∷ rest) = merge_rest rest (set counter new)

unfoldable pub merge_routes : List (ℕ × Counter) → Counter
merge_routes [] = new
merge_routes ((node, counter) ∷ rest) = merge_rest rest (set counter new)

min_below : (a b : ℤ) → (min_ℤ a b ≤ℤ a) × (min_ℤ a b ≤ℤ b)
min_below a b = ground arith

max_above : (a b : ℤ) → (a ≤ℤ max_ℤ a b) × (b ≤ℤ max_ℤ a b)
max_above a b = ground arith

≤ℤ_refl : (a : ℤ) → a ≤ℤ a
≤ℤ_refl a = omega arith

rest_below :
    (rest : List (ℕ × Counter)) (c : Counter)
    → ((merge_rest rest c).current ≤ℤ c.current) × (c.max ≤ℤ (merge_rest rest c).max)
rest_below [] c = (≤ℤ_refl c.current, ≤ℤ_refl c.max)
rest_below ((node, k) ∷ rest) c =
    let next = max_max k.max (count_min k.current c) in
    ground (arith, rest_below rest next, min_below c.current k.current, max_above c.max k.max)

rest_covers :
    (rest : List (ℕ × Counter)) (c : Counter) (node : ℕ) (k : Counter)
    → In (node, k) rest
    → ((merge_rest rest c).current ≤ℤ k.current) × (k.max ≤ℤ (merge_rest rest c).max)
rest_covers [] c node k i = elim i [ ]
rest_covers ((node', k') ∷ rest) c node k (inr i) = rest_covers rest _ node k i
rest_covers ((node', k') ∷ rest) c node k (inl e) =
    let same : k ≡ k' = ap (λ p. p.1) e in
    let next = max_max k'.max (count_min k'.current c) in
    rw same
      (ground (arith, rest_below rest next, min_below c.current k'.current, max_above c.max k'.max))

-- The merged counter of the topics counts no more than any node's, and its largest number is no less
-- than any node's.
merge_topics_lem :
    (counters : List (ℕ × Counter)) (node : ℕ) (k : Counter)
    → In (node, k) counters
    → ((merge_topics counters).current ≤ℤ k.current) × (k.max ≤ℤ (merge_topics counters).max)
unfolding merge_topics
merge_topics_lem [] node k i = elim i [ ]
merge_topics_lem ((node', k') ∷ rest) node k (inr i) = rest_covers rest _ node k i
merge_topics_lem ((node', k') ∷ rest) node k (inl e) =
    let same : k ≡ k' = ap (λ p. p.1) e in rw same (rest_below rest (set k' new))

-- A change of the current number that keeps the largest one in step.
pub data Change : Type 0 where
  add_one : Change
  take_one : Change
  add_some : ℕ → Change
  take_some : ℕ → Change
  set_to : ℤ → Change

abbrev pub change : Change → Counter → Counter
change add_one c = inc c
change take_one c = dec c
change (add_some n) c = incs (pos n) c
change (take_some n) c = decs (pos n) c
change (set_to n) c = sets n c

abbrev pub changes : List Change → Counter → Counter
changes [] c = c
changes (x ∷ xs) c = changes xs (change x c)

change_kept :
    (x : Change) (c : Counter) → c.current ≤ℤ c.max → (change x c).current ≤ℤ (change x c).max
change_kept add_one c h = (max_above c.max (c.current +ℤ pos 1)).1
change_kept take_one c h = omega (integers)
change_kept (add_some n) c h = (max_above c.max (c.current +ℤ pos n)).1
change_kept (take_some n) c h = omega (integers)
change_kept (set_to n) c h = (max_above c.max n).1

-- The largest number stays above the current one whatever is added, taken away or set.
max-changes :
    (xs : List Change) (c : Counter)
    → c.current ≤ℤ c.max
    → (changes xs c).current ≤ℤ (changes xs c).max
max-changes [] c h = h
max-changes (x ∷ xs) c h = max-changes xs (change x c) (change_kept x c h)
