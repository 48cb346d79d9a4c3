-- ===== src/Session/Ending/Tests.antt =====
-- The end of a session of rmqtt/src/broker/session.rs with two messages that wait.
use rmqtt.Common.{◌≡◌, false, true, some, [], ◌∷◌, ◌++◌, map, get, nat_key, arith}
use rmqtt.Types.{id_same, string_key}
use rmqtt.SessionSubs.Sample.{no_subs}
use rmqtt.Inflight.Listed.{listed, ann, message, one}
use rmqtt.Inflight.Window.{window}
use rmqtt.Inflight.Flow.{messages}
use rmqtt.Queue.Listed as QueueListed
use rmqtt.Router.{new}
use rmqtt.Router.Sample.{levels, names, client}
use rmqtt.Shared.{Peer}
use rmqtt.Session.{session_expiration}
use rmqtt.Session.Ending.Clean.{Leaving, clean, clean_lem, drop_for, of_window}

abbrev leaving : Leaving levels names listed QueueListed.listed
leaving = record {
  session = record {
    id = client 1 "c";
    subscriptions = no_subs;
    deliver_queue = record {
      cap = 8;
      inner = (ann, (message 2).publish) ∷ [];
      on_push_fn = true;
      on_pop_fn = true;
      pushed = 1;
      popped = 0;
    };
    inflight_win = one;
  };
  node = record {
    node_id = 1;
    peers =
        ("c", record { id = client 1 "c"; closed = true; inbox = []; subscriptions = no_subs })
        ∷ [];
    router = new names;
  };
  dropped = [];
}

clean_example :
    (window listed
        (clean levels names listed QueueListed.listed 2 2 session_expiration
          leaving).session.inflight_win
      ≡ [])
    × ((clean levels names listed QueueListed.listed 2 2 session_expiration leaving).dropped
        ≡ map (drop_for session_expiration (λ m. m)) ((ann, (message 2).publish) ∷ [])
          ++ map (drop_for session_expiration of_window) (messages (window listed one)))
    × ((peer : Peer)
        → get "c"
            (clean levels names listed QueueListed.listed 2 2 session_expiration leaving).node.peers
          ≡ some peer
        → id_same peer.id (client 1 "c") ≡ false)
clean_example =
    clean_lem levels names listed QueueListed.listed 2 2 session_expiration leaving (omega arith)
      (omega arith)
