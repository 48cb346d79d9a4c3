-- ===== src/Subscriptions/Tests.antt =====
-- The subscriptions of rmqtt/src/broker/types.rs on small examples.
use Prim.Native.String.{String}
use rmqtt.Common.{ℕ, ◌≡◌, ◌↔◌, ◌≢◌, refl, true, false, some, none, List, [], ◌∷◌, has_slash, get}
use rmqtt.Types.{at_most_once, string_key}
use rmqtt.Subscriptions.{v3, v5, at_subscribe, parse_topic_filter, SubscriptionOptions}
use rmqtt.Subscriptions.Filters.{shared_text, parse_topic_filter-shared}
use rmqtt.Subscriptions.Collector.{
  Added, add_all, add_all-no_rels, merged, of_client, no_rels, v3_relations,
}

parse_topic_filter-shared_example :
    (parse_topic_filter "$share/g/a/b" true ≡ some ("a/b", some "g")) ↔ (
      ("$share/g/a/b" ≡ shared_text "g" "a/b")
      × (has_slash "g" ≡ false)
      × (◌≢◌ {A = String} "a/b" ""))
parse_topic_filter-shared_example = parse_topic_filter-shared "$share/g/a/b" "a/b" "g"

parsed_shared : parse_topic_filter "$share/g/a/b" true ≡ some ("a/b", some "g")
unfolding parse_topic_filter
parsed_shared = refl

parsed_without_topic : parse_topic_filter "$share/g" true ≡ none
unfolding parse_topic_filter
parsed_without_topic = refl

abbrev with_id : ℕ → SubscriptionOptions
with_id n = v5 (record {
  qos = at_most_once;
  shared_group = none;
  no_local = false;
  retain_as_published = false;
  retain_handling = at_subscribe;
  id = some n;
})

abbrev three : List Added
three =
    record { topic_filter = "a/+"; client_id = "c"; opts = with_id 4; group = none }
    ∷ record {
      topic_filter = "a/b";
      client_id = "d";
      opts = v3 (record { qos = at_most_once; shared_group = none });
      group = none;
    }
    ∷ record { topic_filter = "a/#"; client_id = "c"; opts = with_id 5; group = none }
    ∷ []

add_all-no_rels_example :
    (get "c" (add_all three no_rels).v5_rels ≡ merged none (of_client "c" three))
    × ((add_all three no_rels).v3_rels ≡ v3_relations three)
add_all-no_rels_example = add_all-no_rels three "c"

merged_ids :
    merged none (of_client "c" three)
    ≡ some (record {
      topic_filter = "a/+";
      client_id = "c";
      opts = with_id 4;
      sub_ids = some (4 ∷ 5 ∷ []);
      group = none;
    })
merged_ids = refl
