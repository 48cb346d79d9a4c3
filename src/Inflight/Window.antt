-- ===== src/Inflight/Window.antt =====
-- The operations of `Inflight` (rmqtt/src/broker/inflight.rs) against the list of entries.
use mathlib.Core.Option
use rmqtt.Common.{
  ℕ, ◌+◌, ◌^◌, ◌≤◌, ◌<◌, ◌≡◌, ◌↔◌, refl, ap, ◌∙◌, true, false, ◌||◌, none, some, List, [], ◌∷◌,
  length, get, head?, tail, arith, ◌==◌, ltb, if◌then◌else◌, nat_key, Bool-cases, inl, inr, ◌⊎◌,
}
use rmqtt.Inflight.Deque.{DequeMap, modify_entries}
use rmqtt.Inflight.{
  Inflight, InflightMessage, timeout, get_timeout, front_timeout, pop_front, pop_front_timeout,
  has_credit,
}

pub get-modify_entries :
    {M : Type 0} (j k : ℕ) (f : M → M) (m : List (ℕ × M))
    → get j (modify_entries k f m) ≡ (if k == j then Option.map f (get j m) else get j m)
get-modify_entries j k f [] = ground arith
get-modify_entries j k f ((i, v) ∷ m) = ground (arith, get-modify_entries j k f m)

pub length-modify_entries :
    {M : Type 0} (k : ℕ) (f : M → M) (m : List (ℕ × M)) → length (modify_entries k f m) ≡ length m
length-modify_entries k f [] = refl
length-modify_entries k f ((i, v) ∷ m) = ground (arith, length-modify_entries k f m)

module _ (dm : DequeMap InflightMessage) where
  abbrev pub window : Inflight dm → List (ℕ × InflightMessage)
  window q = dm.entries q.queues

  abbrev pub size : Inflight dm → ℕ
  size q = length (window q)

  pub pop_front_first :
      (q : Inflight dm) (k : ℕ) (m : InflightMessage) (es : List (ℕ × InflightMessage))
      → window q ≡ (k, m) ∷ es
      → ((pop_front dm q).0 ≡ some m) × (window (pop_front dm q).1 ≡ es)
  unfolding pop_front
  pop_front_first q k m es e =
      let front : (dm.pop_front q.queues).0 ≡ some (k, m) =
        dm.pop_front_lem q.queues ∙ ap head? e in
      let rest : dm.entries (dm.pop_front q.queues).1 ≡ es =
        dm.entries-pop_front q.queues ∙ ap tail e in
      ground (arith, front, rest)

  pub pop_front_nothing :
      (q : Inflight dm)
      → window q ≡ []
      → ((pop_front dm q).0 ≡ none) × (window (pop_front dm q).1 ≡ [])
  unfolding pop_front
  pop_front_nothing q e =
      let front : (dm.pop_front q.queues).0 ≡ none = dm.pop_front_lem q.queues ∙ ap head? e in
      let rest : dm.entries (dm.pop_front q.queues).1 ≡ [] =
        dm.entries-pop_front q.queues ∙ ap tail e in
      ground (arith, front, rest)

  -- An entry is due at `now`: retries are on, and its time plus the interval has come.
  abbrev pub IsDue : ℕ → Inflight dm → InflightMessage → Type 0
  IsDue now q m = (0 < q.interval) × (m.update_time + q.interval ≤ now)

  front-IsDue :
      (now : ℕ) (q : Inflight dm) (k : ℕ) (m : InflightMessage) (es : List (ℕ × InflightMessage))
      → window q ≡ (k, m) ∷ es
      → (front_timeout dm now q ≡ true) ↔ IsDue now q m
  unfolding front_timeout timeout
  front-IsDue now q k m es e = rw (dm.front_lem q.queues, e) (ground arith)

  -- `pop_front_timeout` takes the first entry exactly if that is due, and otherwise leaves the
  -- window as it was.
  pop_front_timeout_lem :
      (now : ℕ) (q : Inflight dm) (k : ℕ) (m : InflightMessage) (es : List (ℕ × InflightMessage))
      → window q ≡ (k, m) ∷ es
      → (IsDue now q m
          × ((pop_front_timeout dm now q).0 ≡ some m)
          × (window (pop_front_timeout dm now q).1 ≡ es))
        ⊎ ((¬ IsDue now q m) × (pop_front_timeout dm now q ≡ (none, q)))
  unfolding pop_front_timeout
  pop_front_timeout_lem now q k m es e = elim (Bool-cases (front_timeout dm now q)) [
    | inl t ↦
        let (got, left) = pop_front_first q k m es e in
        inl ((front-IsDue now q k m es e).0 t, rw t got, rw t left)
    | inr f ↦ inr (λ d. let t = (front-IsDue now q k m es e).1 d in cc, rw f)
  ]

  -- Sleeping for `get_timeout` is enough: the first entry is due afterwards, and before that only
  -- where it was due already.
  get_timeout_due :
      (now t : ℕ) (q : Inflight dm)
      → get_timeout dm now q ≡ some t
      → (0 < t)
        × (front_timeout dm (now + t) q ≡ true)
        × ((s : ℕ) → s < t → 1 < t → front_timeout dm (now + s) q ≡ false)
  unfolding get_timeout front_timeout timeout
  get_timeout_due now t q e = (ground arith, ground arith, λ s lt one. ground arith)

  -- With the window within its bound there is credit exactly if there is room for one message;
  -- past the bound the unsigned difference wraps and there is credit always.
  has_credit_lem :
      (q : Inflight dm)
      → q.cap < 2 ^ 64
      → size q < 2 ^ 64
      → has_credit dm q ≡ (ltb (size q) q.cap || ltb q.cap (size q))
  unfolding has_credit
  has_credit_lem q h s = rw (dm.len_lem q.queues) (ground arith)
