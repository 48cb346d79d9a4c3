-- ===== src/Queue/Fifo.antt =====
-- What queue.rs uses of `crossbeam::queue::SegQueue`: a first-in first-out queue. Each law reads an
-- operation off the list of items, oldest first.
use rmqtt.Common.{ℕ, ◌≡◌, Option, List, [], ◌∷◌, ◌++◌, length, head?, tail}

pub record SegQueue (T : Type 0) : Type 1 where
  pub Inner : Type 0
  pub items : Inner → List T
  pub empty : Inner
  pub push : T → Inner → Inner
  pub pop : Inner → Option T × Inner
  pub len : Inner → ℕ
  pub items-empty : items empty ≡ []
  pub items-push : (v : T) (q : Inner) → items (push v q) ≡ items q ++ v ∷ []
  pub pop_lem : (q : Inner) → (pop q).0 ≡ head? (items q)
  pub items-pop : (q : Inner) → items (pop q).1 ≡ tail (items q)
  pub len_lem : (q : Inner) → len q ≡ length (items q)
