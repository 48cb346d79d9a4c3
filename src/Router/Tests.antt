-- ===== src/Router/Tests.antt =====
-- The router of rmqtt/src/broker/default.rs with three topic filters, whose levels are numbers.
use rmqtt.Common.{ℕ, ◌≡◌, ◌↔◌, refl, Bool, true, false, none, some, List, [], ◌∷◌, nat_key, In, get}
use rmqtt.Types.{string_key}
use rmqtt.TopicTree.{insert}
use rmqtt.TopicTree as TopicTree
use rmqtt.TopicTree.Lazy.{collect}
use rmqtt.TopicTree.Matcher.{collect_iter, next, next_item, scan, prepare}
use rmqtt.Router.Choice.{Member, choice, enumerate, online, any_online, choice_lem}
use rmqtt.Router.Sample.{levels, names, client, plain}
use rmqtt.Router.{Router, new, add, remove, or_empty}
use rmqtt.Router.Agreement.{IsRouted}
use rmqtt.Router.Relations.{Change, subscribe, unsubscribe, run, run-new-IsRouted}
use rmqtt.Router.Queries.{Route, SubsSearchParams, gets, get_matched_routes, concat_routes}
use rmqtt.Router.Found.{MatchedFilter, HasClient, get_matched_routes_lem}

abbrev changes : List Change
changes =
    subscribe "a/b" (client 1 "c") plain
    ∷ subscribe "a/+" (client 2 "d") plain
    ∷ subscribe "#" (client 2 "d") plain
    ∷ subscribe "a/b" (client 2 "d") plain
    ∷ unsubscribe "a/b" (client 1 "c")
    ∷ []

run-new-IsRouted_example : IsRouted names (run names changes (new names))
run-new-IsRouted_example = run-new-IsRouted names changes

-- The relations that the changes leave.
relations_left :
    (run names changes (new names)).relations
    ≡ ("a/b", ("d", (client 2 "d", plain)) ∷ []) ∷ ("a/+", ("d", (client 2 "d", plain)) ∷ []) ∷ []
unfolding run add remove
relations_left = refl

abbrev pair_of_members : List Member
pair_of_members =
    record { node_id = 1; client_id = "c"; opts = plain; is_online = some false }
    ∷ record { node_id = 2; client_id = "d"; opts = plain; is_online = some true }
    ∷ []

choice_example :
    (r : ℕ × Bool) × (choice (λ n. 0) (λ n c. false) pair_of_members ≡ some r)
    × ((m : Member) × In (r.0, m) (enumerate 0 pair_of_members)
        × (online (λ n. 0) (λ n c. false) m ≡ r.1)
        × (r.1 ≡ any_online (λ n. 0) (λ n c. false) (enumerate 0 pair_of_members)))
choice_example =
    choice_lem (λ n. 0) (λ n c. false)
      (record { node_id = 1; client_id = "c"; opts = plain; is_online = some false })
      (record { node_id = 2; client_id = "d"; opts = plain; is_online = some true } ∷ [])

abbrev routed : Router ℕ
routed = record (new names) {
  relations = ("a/b", ("c", (client 1 "c", plain)) ∷ ("d", (client 2 "d", plain)) ∷ []) ∷ [];
}

abbrev query : SubsSearchParams
query = record {
  limit = 1;
  clientid = none;
  topic = none;
  qos = none;
  share = none;
  match_topic = none;
}

one_route : gets levels names 1 routed ≡ record { node_id = 1; topic = "a/b" } ∷ []
unfolding gets
one_route = refl

abbrev built : Router ℕ
built = run names changes (new names)

abbrev routes : List Route
routes = record { node_id = 2; topic = "a/+" } ∷ record { node_id = 2; topic = "a/b" } ∷ []

found_routes : get_matched_routes levels names "a/b" built ≡ some routes
unfolding get_matched_routes concat_routes run add remove insert TopicTree.remove collect
    collect_iter next next_item scan prepare
found_routes = refl

get_matched_routes_example : In (record { node_id = 2; topic = "a/+" }) routes ↔ (
    MatchedFilter levels names built (5 ∷ 6 ∷ []) "a/+"
    × HasClient levels names 2 (or_empty (get "a/+" built.relations)))
get_matched_routes_example =
    get_matched_routes_lem levels names "a/b" (5 ∷ 6 ∷ []) built routes
      (record { node_id = 2; topic = "a/+" }) refl found_routes
