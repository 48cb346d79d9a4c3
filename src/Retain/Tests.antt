-- ===== src/Retain/Tests.antt =====
-- Retained messages of rmqtt/src/broker/retain.rs and default.rs, with topics of numbered levels.
use Prim.Native.String.{String}
use mathlib.Core.Logic.{◌↔◌}
use rmqtt.TopicTree.Filters.{Matches}
use rmqtt.Common.{
  In, arith, ℕ, ◌+◌, ◌≡◌, refl, ◌==◌, true, false, Option, none, some, List, [], ◌∷◌, nat_key,
  if◌then◌else◌, is_some, sym, Bool-cases, inl, inr,
}
use text.Mathlib.Text.{◌==◌ as str_eq}
use text.Mathlib.TextEquality.{eq_iff}
use rmqtt.Types.{Retain, custom, at_most_once}
use rmqtt.Stats as Stats
use rmqtt.TopicTree.Levels.{Levels}
use rmqtt.Router.Names.{TopicNames}
use rmqtt.Retain.{Node, insert, default, retain, retain_node, retain_value}
use rmqtt.Retain.Search.{matches, matches_from}
use rmqtt.Retain.Values.{value_at}
use rmqtt.Retain.Below.{IsTopics}
use rmqtt.Retain.Reach.{run, IsSearchable, run-IsSearchable}
use rmqtt.Retain.Filters.{search_lem}
use rmqtt.Retain.Storage.{RetainStorage, set_with_timeout}
use rmqtt.Retain.Stored.{stored, Moves, bit, set_with_timeout_lem}

-- `#` is 1, `+` is 2, the empty level 0, and 3 starts with `$`.
abbrev levels : Levels ℕ
levels = record {
  blank = 0;
  multi_wildcard = 1;
  single_wildcard = 2;
  is_metadata = λ t. t == 3;
  multi_plain = refl;
  single_plain = refl;
  wildcards_differ = λ e. omega (arith, e);
}

-- Messages 10 on 5/6, 11 on 5 and 12 on 3/6.
abbrev sample : Node ℕ ℕ
sample = insert (3 ∷ 6 ∷ []) 12 (insert (5 ∷ []) 11 (insert (5 ∷ 6 ∷ []) 10 default))

found_by_multi : matches levels (1 ∷ []) sample ≡ (5 ∷ [], 11) ∷ (5 ∷ 6 ∷ [], 10) ∷ []
unfolding matches matches_from insert
found_by_multi = refl

found_below_parent : matches levels (5 ∷ 1 ∷ []) sample ≡ (5 ∷ [], 11) ∷ (5 ∷ 6 ∷ [], 10) ∷ []
unfolding matches matches_from insert
found_below_parent = refl

kept_even : (retain {S = ℕ} (λ v s. (v == 11, v, s + 1)) 9 0 sample).0 ≡ (2, 3)
unfolding retain retain_node retain_value insert
kept_even = refl

sample-IsTopics : IsTopics levels sample
unfolding insert
sample-IsTopics = (
  refl,
  refl,
  refl,
  (refl, refl, refl, tt, tt),
  (refl, refl, refl, (refl, refl, refl, tt, tt), tt),
)

no_root : value_at [] sample ≡ none
unfolding insert value_at
no_root = refl

run-IsSearchable_example :
    IsSearchable levels (run levels ((5 ∷ 7 ∷ [], some 13) ∷ (5 ∷ 6 ∷ [], none) ∷ []) sample)
run-IsSearchable_example =
    run-IsSearchable levels ((5 ∷ 7 ∷ [], some 13) ∷ (5 ∷ 6 ∷ [], none) ∷ []) sample
      (refl, (refl, refl, (refl, refl, tt)), (refl, (refl, refl, (refl, refl, tt)), tt))
      (sample-IsTopics, no_root)

search_example :
    In (5 ∷ 6 ∷ [], 10) (matches levels (5 ∷ 1 ∷ []) sample)
    ↔ (Matches levels (5 ∷ 1 ∷ []) (5 ∷ 6 ∷ []) × (value_at (5 ∷ 6 ∷ []) sample ≡ some 10))
unfolding insert value_at
search_example =
    search_lem levels sample (5 ∷ 1 ∷ []) (5 ∷ 6 ∷ []) 10 sample-IsTopics
      ((λ e. let clash : ⊥ = omega (arith, e) in absurd clash), ((λ e. refl), tt)) refl

-- The one topic that is read is "a".
abbrev read : String → Option (List ℕ)
read s = if str_eq s "a" then some (5 ∷ []) else none

write-read : (s : String) (topic : List ℕ) → read s ≡ some topic → "a" ≡ s
write-read s topic e = elim (Bool-cases (str_eq s "a")) [
  | inl h ↦ sym ((eq_iff s "a").0 h)
  | inr h ↦ let e' : ◌≡◌ {A = Option (List ℕ)} none (some topic) = rw h at e in absurd (cc e')
]

abbrev names : TopicNames ℕ
names = record { from_str = read; to_topic_filter = λ topic. "a"; written = write-read }

abbrev message : Retain
message = record {
  msg_id = none;
  from = record {
    typ = custom;
    id = record {
      node_id = 1;
      local_addr = none;
      remote_addr = none;
      client_id = "c";
      username = none;
      create_time = 0;
    };
  };
  publish = record {
    dup = false;
    retain = true;
    qos = at_most_once;
    topic = "a";
    packet_id = none;
    payload = 7 ∷ [];
    properties = record {
      topic_alias = none;
      message_expiry_interval = none;
      subscription_ids = none;
    };
    create_time = 0;
  };
}

abbrev empty_storage : RetainStorage ℕ
empty_storage = record { messages = default; retaineds = Stats.new }

set_with_timeout_example :
    ((set_with_timeout levels names 3 "a" message (some 9) empty_storage).0 ≡ true)
    × (value_at
          (5 ∷ [])
          (set_with_timeout levels names 3 "a" message (some 9) empty_storage).1.messages
        ≡ stored 3 message (some 9))
    × Moves empty_storage.retaineds
        (set_with_timeout levels names 3 "a" message (some 9) empty_storage).1.retaineds
        (bit (is_some (value_at (5 ∷ []) empty_storage.messages)))
        1
set_with_timeout_example =
    set_with_timeout_lem levels names 3 "a" (5 ∷ []) (5 ∷ []) message (some 9) empty_storage refl
