-- ===== src/Queue/Listed.antt =====
-- The queue of values of rmqtt/src/broker/queue.rs as a list.
use rmqtt.Common.{refl, List, [], ◌∷◌, ◌++◌, length, head?, tail}
use rmqtt.Queue.Fifo.{SegQueue}

abbrev pub listed : {T : Type 0} → SegQueue T
listed {T} = record {
  Inner = List T;
  items = λ q. q;
  empty = [];
  push = λ v q. q ++ v ∷ [];
  pop = λ q. (head? q, tail q);
  len = λ q. length q;
  items-empty = refl;
  items-push = λ v q. refl;
  pop_lem = λ q. refl;
  items-pop = λ q. refl;
  len_lem = λ q. refl;
}
