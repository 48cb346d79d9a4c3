-- ===== src/TopicTree/Tests.antt =====
-- The tree of rmqtt/src/broker/topic.rs with levels that are numbers: 0 is the empty level, 1 is
-- `#`, 2 is `+`, and those from 100 on start with `$`.
use mathlib.Core.Logic.{◌↔◌}
use rmqtt.Common.{
  ℕ, ◌≡◌, ◌≢◌, refl, false, List, [], ◌∷◌, In, leb, nat_key, list_same, if◌then◌else◌, arith,
}
use rmqtt.TopicTree.Levels.{Levels}
use rmqtt.TopicTree.{Node, contains, set_remove, default, insert, remove}
use rmqtt.TopicTree.Matcher.{matches, collect_iter, next, next_item, scan, prepare, is_match}
use rmqtt.TopicTree.Values.{values_at, values_at-remove}
use rmqtt.TopicTree.Valid.{IsValid, remove-IsValid}
use rmqtt.TopicTree.Lazy.{collect, collect_iter-matches}
use rmqtt.TopicTree.Filters.{Matches, matches_lem}

abbrev numbered : Levels ℕ
numbered = record {
  blank = 0;
  multi_wildcard = 1;
  single_wildcard = 2;
  is_metadata = leb 100;
  multi_plain = refl;
  single_plain = refl;
  wildcards_differ = λ e. omega (arith, e);
}

-- 5/6, 5/+, 5/# and +/# with the values 1 to 4.
sample : Node ℕ ℕ
unfolding insert
sample =
    (insert (2 ∷ 1 ∷ []) 4
      (insert (5 ∷ 1 ∷ []) 3 (insert (5 ∷ 2 ∷ []) 2 (insert (5 ∷ 6 ∷ []) 1 default).1).1).1).1

found :
    collect_iter numbered 9 3 (matches sample (5 ∷ 6 ∷ []))
    ≡ (2 ∷ 1 ∷ [], 4 ∷ []) ∷ (5 ∷ 1 ∷ [], 3 ∷ []) ∷ (5 ∷ 2 ∷ [], 2 ∷ []) ∷ (5 ∷ 6 ∷ [], 1 ∷ []) ∷ []
unfolding sample collect_iter next next_item scan prepare
found = refl

hidden : is_match numbered 3 sample (100 ∷ 6 ∷ []) ≡ false
unfolding sample is_match next next_item scan prepare
hidden = refl

abbrev two : List ℕ
two = 2 ∷ []

matches_example : In (5 ∷ 2 ∷ [], two) (collect_iter numbered 9 3 (matches sample (5 ∷ 6 ∷ []))) ↔ (
    Matches numbered (5 ∷ 2 ∷ []) (5 ∷ 6 ∷ [])
    × ((two ≡ values_at (5 ∷ 2 ∷ []) sample) × (two ≢ [])))
unfolding sample collect
matches_example = matches_lem numbered 9 sample (5 ∷ 6 ∷ []) (5 ∷ 2 ∷ []) two (omega arith)

collect_iter-matches_example :
    collect_iter numbered 9 3 (matches sample (5 ∷ 6 ∷ []))
    ≡ collect numbered (5 ∷ 6 ∷ []) sample []
unfolding sample collect
collect_iter-matches_example = collect_iter-matches numbered 9 sample (5 ∷ 6 ∷ []) (omega arith)

values_at-remove_example :
    ((remove (5 ∷ 2 ∷ []) 2 sample).0 ≡ contains 2 (values_at (5 ∷ 2 ∷ []) sample))
    × (values_at (5 ∷ 6 ∷ []) (remove (5 ∷ 2 ∷ []) 2 sample).1 ≡ (
        if list_same {A = ℕ} (5 ∷ 2 ∷ []) (5 ∷ 6 ∷ [])
        then set_remove 2 (values_at (5 ∷ 2 ∷ []) sample)
        else values_at (5 ∷ 6 ∷ []) sample))
values_at-remove_example = values_at-remove (5 ∷ 2 ∷ []) (5 ∷ 6 ∷ []) 2 sample

sample-IsValid : IsValid sample
unfolding sample
sample-IsValid = ground arith

remove-IsValid_example : IsValid (remove (5 ∷ 2 ∷ []) 2 sample).1
remove-IsValid_example = remove-IsValid (5 ∷ 2 ∷ []) 2 sample sample-IsValid
