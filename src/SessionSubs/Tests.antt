-- ===== src/SessionSubs/Tests.antt =====
-- The subscriptions of rmqtt/src/broker/types.rs on a session with two of them.
use rmqtt.Common.{◌≡◌, refl, none, some, [], ◌∷◌, pos}
use rmqtt.Types.{at_most_once, at_least_once}
use rmqtt.Subscriptions.{SubscriptionOptions, v3}
use rmqtt.Stats.{new_with, no_merge}
use rmqtt.SessionSubs.{SessionSubs, add, remove, len, shared_len}
use rmqtt.SessionSubs.Balance.{IsBalanced, add_one, remove_one, run, step, run-IsBalanced}

abbrev plain : SubscriptionOptions
plain = v3 (record { qos = at_most_once; shared_group = none })

abbrev in_group : SubscriptionOptions
in_group = v3 (record { qos = at_least_once; shared_group = some "g" })

-- Seven subscriptions in all, five of them of other sessions; one of the seven is shared.
abbrev two : SessionSubs
two = record {
  subs = ("a/b", plain) ∷ ("c", in_group) ∷ [];
  subscriptions = new_with (pos 7) (pos 9) no_merge;
  subscriptions_shared = new_with (pos 1) (pos 1) no_merge;
}

two-IsBalanced : IsBalanced (pos 5) (pos 0) two
unfolding len shared_len
two-IsBalanced = record { distinct = (refl, (refl, tt)); all_counted = refl; shared_counted = refl }

run-IsBalanced_example :
    IsBalanced
      (pos 5)
      (pos 0)
      (run (add_one "a/b" in_group ∷ remove_one "c" ∷ add_one "d" plain ∷ []) two)
run-IsBalanced_example =
    run-IsBalanced (pos 5) (pos 0)
      (add_one "a/b" in_group ∷ remove_one "c" ∷ add_one "d" plain ∷ []) two two-IsBalanced

replaced_and_removed :
    (run (add_one "a/b" in_group ∷ remove_one "c" ∷ []) two).subs ≡ ("a/b", in_group) ∷ []
unfolding run step add remove
replaced_and_removed = refl
