-- ===== src/Queue/Push.antt =====
-- `Queue::push`, `Queue::pop` and `Sender::send` of rmqtt/src/broker/queue.rs on every branch.
use rmqtt.Common.{
  ℕ, suc, ◌+◌, ◌≤◌, ◌<◌, ◌≡◌, refl, ap, ◌∙◌, Bool, some, List, [], ◌∷◌, ◌++◌, length, head?, tail,
  ltb, arith, if◌then◌else◌, Bool-cases, inl, inr, ◌⊎◌,
}
use rmqtt.Queue.Fifo.{SegQueue}
use rmqtt.Queue.{
  Queue, Policy, current, early, Sent, ok, err, push, pop, Channel, send, try_send, make_room,
}

module _ {T : Type 0} (sq : SegQueue T) where
  abbrev pub items : Queue sq → List T
  items q = sq.items q.inner

  -- `push` takes a value exactly while the queue holds no more than `cap` of them, so that a queue
  -- of capacity `cap` comes to hold one more than its capacity; a refused value changes nothing.
  pub push_lem :
      (v : T) (q : Queue sq)
      → ((length (items q) ≤ q.cap)
          × ((push sq v q).0 ≡ ok)
          × (items (push sq v q).1 ≡ items q ++ v ∷ []))
        ⊎ ((q.cap < length (items q)) × (push sq v q ≡ (err v, q)))
  unfolding push
  push_lem v q = elim (Bool-cases (ltb q.cap (sq.len q.inner))) [
    | inl full ↦ inr (ground (arith, sq.len_lem q.inner), rw full)
    | inr room ↦
        inl (ground (arith, sq.len_lem q.inner), rw room, rw room (sq.items-push v q.inner))
  ]

  pub pop_lem :
      (q : Queue sq) → ((pop sq q).0 ≡ head? (items q)) × (items (pop sq q).1 ≡ tail (items q))
  unfolding pop
  pop_lem q = ground (arith, sq.pop_lem q.inner, sq.items-pop q.inner)

  pub cap-pop : (q : Queue sq) → (pop sq q).1.cap ≡ q.cap
  unfolding pop
  cap-pop q = ground arith

  pub cap-push : (v : T) (q : Queue sq) → (push sq v q).1.cap ≡ q.cap
  unfolding push
  cap-push v q = ground arith

  pub make_room_lem :
      (v x : T) (xs : List T) (c : Channel sq)
      → items c.queue ≡ x ∷ xs
      → length xs ≡ c.queue.cap
      → let (sent, c') = make_room sq v c in
        (sent ≡ err x) × (items c'.queue ≡ xs ++ v ∷ []) × (c'.signals ≡ c.signals)
  unfolding make_room push
  make_room_lem v x xs c e h =
      let popped = pop_lem c.queue in
      let got : (pop sq c.queue).0 ≡ some x = popped.0 ∙ ap head? e in
      let left : items (pop sq c.queue).1 ≡ xs = popped.1 ∙ ap tail e in
      ground (
        arith,
        got,
        left,
        ap length left,
        cap-pop c.queue,
        sq.len_lem (pop sq c.queue).1.inner,
        sq.items-push v (pop sq c.queue).1.inner,
      )

  module _ (room : ℕ → Bool) (policy_fn : T → Policy) where
    abbrev pub after : T → Channel sq → Sent T × Channel sq
    after v c = send sq room policy_fn v c

    -- There is room: the value goes to the end of the queue, and a unit is sent for it.
    pub send_room :
        (v : T) (c : Channel sq)
        → length (items c.queue) ≤ c.queue.cap
        → ((after v c).0 ≡ ok)
          × (items (after v c).1.queue ≡ items c.queue ++ v ∷ [])
          × ((after v c).1.signals ≡ (if room c.signals then c.signals + 1 else c.signals))
    unfolding send try_send push
    send_room v c h = ground (arith, sq.len_lem c.queue.inner, sq.items-push v c.queue.inner)

    -- The queue is full and the policy discards the new value: it comes back, and nothing changes.
    pub send_current :
        (v : T) (c : Channel sq)
        → c.queue.cap < length (items c.queue)
        → policy_fn v ≡ current
        → after v c ≡ (err v, c)
    unfolding send push
    send_current v c h e = ground (arith, sq.len_lem c.queue.inner)

    -- The queue is full and the policy discards the oldest value: that comes back, and the new
    -- value takes its place at the end. No unit is sent, since the oldest value's is still there.
    pub send_early :
        (v x : T) (xs : List T) (c : Channel sq)
        → items c.queue ≡ x ∷ xs
        → length xs ≡ c.queue.cap
        → policy_fn v ≡ early
        → ((after v c).0 ≡ err x)
          × (items (after v c).1.queue ≡ xs ++ v ∷ [])
          × ((after v c).1.signals ≡ c.signals)
    unfolding send push
    send_early v x xs c e h p =
        ground (arith, sq.len_lem c.queue.inner, ap length e, make_room_lem v x xs c e h)

    pub cap-send : (v : T) (c : Channel sq) → (after v c).1.queue.cap ≡ c.queue.cap
    unfolding send make_room push pop
    cap-send v c = ground arith

    policy-cases : (p : Policy) → (p ≡ current) ⊎ (p ≡ early)
    policy-cases current = inl refl
    policy-cases early = inr refl

    abbrev pub Takes : T → Channel sq → Type 0
    Takes v c =
        (length (items c.queue) ≤ c.queue.cap)
        × ((after v c).0 ≡ ok)
        × (items (after v c).1.queue ≡ items c.queue ++ v ∷ [])
        × ((after v c).1.signals ≡ (if room c.signals then c.signals + 1 else c.signals))

    abbrev pub Refuses : T → Channel sq → Type 0
    Refuses v c =
        (c.queue.cap < length (items c.queue)) × (policy_fn v ≡ current) × (after v c ≡ (err v, c))

    abbrev pub Replaces : T → Channel sq → Type 0
    Replaces v c =
        (x : T) × (xs : List T) × (items c.queue ≡ x ∷ xs)
        × (length xs ≡ c.queue.cap)
        × (policy_fn v ≡ early)
        × ((after v c).0 ≡ err x)
        × (items (after v c).1.queue ≡ xs ++ v ∷ [])
        × ((after v c).1.signals ≡ c.signals)

    full-cases :
        (v : T) (c : Channel sq) (es : List T)
        → items c.queue ≡ es
        → length es ≡ c.queue.cap + 1
        → Refuses v c ⊎ Replaces v c
    full-cases v c [] e h = absurd (omega arith)
    full-cases v c (x ∷ xs) e h =
        let full : length (items c.queue) ≡ suc (length xs) = ap length e in
        elim (policy-cases (policy_fn v)) [
          | inl p ↦ inl (omega arith, p, send_current v c (omega arith) p)
          | inr p ↦
              let (got, left, same) = send_early v x xs c e (omega arith) p in
              inr (x, xs, e, omega arith, p, got, left, same)
        ]

    -- What `send` does, on a queue with at most one message above its capacity: with room the value
    -- goes to the end and a unit is sent; on a full queue the policy says whether the new value
    -- comes back and nothing changes, or the oldest comes back and the new value goes to the end.
    pub send_lem :
        (v : T) (c : Channel sq)
        → length (items c.queue) ≤ c.queue.cap + 1
        → Takes v c ⊎ (Refuses v c ⊎ Replaces v c)
    send_lem v c h = elim (Bool-cases (ltb c.queue.cap (length (items c.queue)))) [
      | inl full ↦ inr (full-cases v c (items c.queue) refl (ground arith))
      | inr free ↦
          let fits : length (items c.queue) ≤ c.queue.cap = ground arith in
          let (got, left, units) = send_room v c fits in inl (fits, got, left, units)
    ]
