-- ===== src/Shared/Tests.antt =====
-- The table of sessions of rmqtt/src/broker/default.rs with two clients.
use Prim.Native.String.{String}
use rmqtt.Common.{◌≡◌, ◌≢◌, refl, Bool, true, false, none, some, List, [], ◌∷◌, get, nat_key}
use rmqtt.Types.{Publish, From, string_key}
use rmqtt.Subscriptions.{SubscriptionOptions, shared_group}
use rmqtt.Subscriptions.Collector.{SubRelation}
use rmqtt.SessionSubs.Sample.{no_subs}
use rmqtt.Inflight.Listed.{ann, message}
use rmqtt.Router.{new}
use rmqtt.Router.Sample.{levels, names, client, plain}
use rmqtt.Router.Relations.{subscribe, run}
use rmqtt.Router.Reached.{All}
use rmqtt.Router.Delivered.{MayGet}
use rmqtt.Shared.{Peer, Peers, Node, forwards}
use rmqtt.Shared.Published.{IsCopy}
use rmqtt.Shared.Delivered.{forwards-MayGet}

abbrev peer : String → Bool → Peer
peer name closed = record {
  id = client 1 name;
  closed = closed;
  inbox = [];
  subscriptions = no_subs;
}

abbrev peers : Peers
peers = ("c", peer "c" false) ∷ ("d", peer "d" true) ∷ []

abbrev relation : String → SubRelation
relation name = record {
  topic_filter = "a/+";
  client_id = name;
  opts = plain;
  sub_ids = none;
  group = none;
}

abbrev relations : List SubRelation
relations = relation "c" ∷ relation "d" ∷ relation "e" ∷ relation "c" ∷ []

abbrev published : Publish
published = (message 1).publish

abbrev node : Node levels names
node = record {
  node_id = 1;
  peers = peers;
  router = run names (subscribe "a/+" (client 1 "c") plain ∷ []) (new names);
}

forwards-MayGet_example :
    (ms : List (From × Publish)) × (get "c"
        (forwards levels names (λ tf g n. 0) (λ n c. true) ann published node).1.peers
      ≡ some (record (peer "c" false) { inbox = ms }))
    × All (IsCopy ann published) ms
    × (ms ≢ []
        → (opts : SubscriptionOptions) × MayGet levels names ann.id
            (5 ∷ 6 ∷ [])
            node.router
            1
            "c"
            opts)
    × ((opts : SubscriptionOptions)
        → MayGet levels names ann.id (5 ∷ 6 ∷ []) node.router 1 "c" opts
        → shared_group opts ≡ none
        → ms ≢ [])
forwards-MayGet_example =
    forwards-MayGet levels names (λ tf g n. 0) (λ n c. true) ann published (5 ∷ 6 ∷ []) node "c"
      (peer "c" false) refl refl refl
