-- ===== src/Inflight/Listed.antt =====
-- The map with an order of its keys that rmqtt/src/broker/inflight.rs uses, as a list of entries.
use rmqtt.Common.{
  ℕ, ◌≡◌, refl, true, false, none, some, List, [], ◌∷◌, ◌++◌, length, get, put, del, Distinct,
  head?, tail, get-put, length-put, put-Distinct, del-Distinct, nat_key, is_some, arith,
}
use rmqtt.Types.{From, exactly_once, custom}
use rmqtt.Inflight.Deque.{DequeMap, modify_entries}
use rmqtt.Inflight.{Inflight, InflightMessage, un_received}

module _ {M : Type 0} where
  pub put_absent :
      (k : ℕ) (m : M) (es : List (ℕ × M)) → get k es ≡ none → put k m es ≡ es ++ (k, m) ∷ []
  put_absent k m [] h = refl
  put_absent k m ((j, v) ∷ es) h = ground (arith, put_absent k m es)

  get-modify_none :
      (j k : ℕ) (f : M → M) (es : List (ℕ × M))
      → get j es ≡ none
      → get j (modify_entries k f es) ≡ none
  get-modify_none j k f [] h = h
  get-modify_none j k f ((i, v) ∷ es) h = ground (arith, get-modify_none j k f es)

  pub modify-Distinct :
      (k : ℕ) (f : M → M) (es : List (ℕ × M)) → Distinct es → Distinct (modify_entries k f es)
  modify-Distinct k f [] d = tt
  modify-Distinct k f ((i, v) ∷ es) d =
      ground (arith, get-modify_none i k f es d.0, modify-Distinct k f es d.1)

  pub tail-Distinct : (es : List (ℕ × M)) → Distinct es → Distinct (tail es)
  tail-Distinct [] d = tt
  tail-Distinct (e ∷ es) d = d.1

  -- Lists of entries with distinct keys satisfy the interface; an overwritten entry keeps its place.
  abbrev pub listed : DequeMap M
  listed = record {
    Queues = (es : List (ℕ × M)) × Distinct es;
    entries = λ q. q.0;
    empty = ([], tt);
    front = λ q. head? q.0;
    pop_front = λ q. (head? q.0, (tail q.0, tail-Distinct q.0 q.1));
    insert = λ k m q. (get k q.0, (put k m q.0, put-Distinct k m q.0 q.1));
    remove = λ k q. (get k q.0, (del k q.0, del-Distinct k q.0 q.1));
    modify = λ k f q. (modify_entries k f q.0, modify-Distinct k f q.0 q.1);
    contains_key = λ q k. is_some (get k q.0);
    len = λ q. length q.0;
    distinct = λ q. q.1;
    entries-empty = refl;
    front_lem = λ q. refl;
    pop_front_lem = λ q. refl;
    entries-pop_front = λ q. refl;
    insert_lem = λ k m q. refl;
    get-insert = λ j k m q. get-put k j m q.0;
    length-insert = λ k m q. length-put k m q.0;
    insert_new = λ k m q h. put_absent k m q.0 h;
    remove_lem = λ k q. refl;
    entries-remove = λ k q. refl;
    entries-modify = λ k f q. refl;
    contains_key_lem = λ q k. refl;
    len_lem = λ q. refl;
  }

abbrev pub ann : From
ann = record {
  typ = custom;
  id = record {
    node_id = 1;
    local_addr = none;
    remote_addr = none;
    client_id = "ann";
    username = none;
    create_time = 0;
  };
}

abbrev pub message : ℕ → InflightMessage
message id = record {
  publish = record {
    dup = false;
    retain = false;
    qos = exactly_once;
    topic = "a/b";
    packet_id = some id;
    payload = [];
    properties = record {
      topic_alias = none;
      message_expiry_interval = none;
      subscription_ids = none;
    };
    create_time = 5;
  };
  from = ann;
  status = un_received;
  update_time = 100;
}

-- A window of four with a retry interval of 30, and message 1 in it.
abbrev pub one : Inflight listed
one = record {
  cap = 4;
  interval = 30;
  next = 1;
  queues = ((1, message 1) ∷ [], (refl, tt));
  on_push_fn = true;
  on_pop_fn = true;
  pushed = 1;
  popped = 0;
}
