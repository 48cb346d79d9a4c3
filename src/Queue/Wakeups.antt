-- ===== src/Queue/Wakeups.antt =====
-- Sequences of sends and polls on the channel of rmqtt/src/broker/queue.rs: the units in the channel
-- pair with the messages in the queue, and no message is lost or made up.
use rmqtt.Common.{
  ℕ, zero, suc, ◌+◌, ◌≤◌, ◌≡◌, refl, subst, sym, ap, ◌∙◌, Bool, true, none, some, List, [], ◌∷◌,
  length, length-append, count, count-append, head?, tail, arith, if◌then◌else◌, inl, inr, ◌⊎◌,
}
use rmqtt.Queue.Fifo.{SegQueue}
use rmqtt.Queue.{Policy, Sent, ok, err, Poll, pending, ready, Channel, send, poll_next, poll_signal}
use rmqtt.Queue.Push.{items, pop_lem, cap-pop, cap-send, send_lem}

pub data Call (T : Type 0) : Type 0 where
  sends : T → Call T
  polls : Call T

abbrev pub sent_values : {T : Type 0} → List (Call T) → List T
sent_values [] = []
sent_values (sends v ∷ ks) = v ∷ sent_values ks
sent_values (polls ∷ ks) = sent_values ks

module _ {T : Type 0} (sq : SegQueue T) where
  pub record Ledger : Type 0 where
    pub delivered : List T
    pub dropped : List T
    pub chan : Channel sq

  abbrev note_sent : Ledger → Sent T × Channel sq → Ledger
  note_sent l (ok, c) = record l { chan = c }
  note_sent l (err v, c) = record l { dropped = v ∷ l.dropped; chan = c }

  abbrev note_polled : Ledger → Poll T × Channel sq → Ledger
  note_polled l (ready (some (some v)), c) = record l { delivered = v ∷ l.delivered; chan = c }
  note_polled l (ready (some none), c) = record l { chan = c }
  note_polled l (ready none, c) = record l { chan = c }
  note_polled l (pending, c) = record l { chan = c }

  -- Every message of the ledger: delivered, dropped or still queued.
  abbrev pub held : (T → Bool) → Ledger → ℕ
  held p l = count p l.delivered + count p l.dropped + count p (items sq l.chan.queue)

  -- As many units as messages, and at most one message above the capacity.
  pub record IsPaired (limit : ℕ) (c : Channel sq) : Type 0 where
    pub fixed : c.queue.cap ≡ limit
    pub paired : c.signals ≡ length (items sq c.queue)
    pub bounded : length (items sq c.queue) ≤ limit + 1

  module _ (room : ℕ → Bool) (policy_fn : T → Policy) where
    pub step : Call T → Ledger → Ledger
    step (sends v) l = note_sent l (send sq room policy_fn v l.chan)
    step polls l = note_polled l (poll_next sq l.chan)

    pub run : List (Call T) → Ledger → Ledger
    run [] l = l
    run (k ∷ ks) l = run ks (step k l)

    bound :
        {limit : ℕ} {c : Channel sq}
        → IsPaired limit c
        → length (items sq c.queue) ≤ c.queue.cap + 1
    bound p = ground arith

    module _ {limit : ℕ} (roomy : (s : ℕ) → s ≤ limit → room s ≡ true) where
      send-IsPaired :
          (v : T) (c : Channel sq)
          → IsPaired limit c
          → IsPaired limit (send sq room policy_fn v c).1
      send-IsPaired v c p = elim (send_lem sq room policy_fn v c (bound p)) [
        | inl (fits, _, left, units) ↦
            let grown = ap length left ∙ length-append (items sq c.queue) (v ∷ []) in
            ground (arith, grown, units, roomy c.signals, cap-send sq room policy_fn v c)
        | inr (inl (_, _, e)) ↦ rw e p
        | inr (inr (x, xs, e, n, _, _, left, units)) ↦
            let grown = ap length left ∙ length-append xs (v ∷ []) in
            ground (arith, grown, ap length e, units, cap-send sq room policy_fn v c)
      ]

    poll_signal-IsPaired :
        {limit : ℕ} (c : Channel sq) (n : ℕ) (es : List T)
        → c.signals ≡ n
        → items sq c.queue ≡ es
        → IsPaired limit c
        → IsPaired limit (poll_signal sq n c).1
    unfolding poll_signal
    poll_signal-IsPaired c zero es e i p = p
    poll_signal-IsPaired c (suc n) [] e i p = absurd (omega (arith, ap length i, p.paired))
    poll_signal-IsPaired c (suc n) (x ∷ xs) e i p =
        let left = (pop_lem sq c.queue).1 ∙ ap tail i in
        ground (arith, ap length left, ap length i, cap-pop sq c.queue)

    -- What a poll gives while units and messages pair: the oldest message, or nothing yet from an
    -- empty queue, and never a wake-up with no message.
    poll_signal_lem :
        {limit : ℕ} (c : Channel sq) (n : ℕ) (es : List T)
        → c.signals ≡ n
        → items sq c.queue ≡ es
        → IsPaired limit c
        → ((es ≡ []) × (poll_signal sq n c ≡ (if c.closed then ready none else pending, c)))
          ⊎ ((x : T) × (xs : List T) × (es ≡ x ∷ xs)
              × ((poll_signal sq n c).0 ≡ ready (some (some x)))
              × (items sq (poll_signal sq n c).1.queue ≡ xs))
    unfolding poll_signal
    poll_signal_lem c zero [] e i p = inl (refl, refl)
    poll_signal_lem c zero (x ∷ xs) e i p = absurd (omega (arith, ap length i, p.paired))
    poll_signal_lem c (suc n) [] e i p = absurd (omega (arith, ap length i, p.paired))
    poll_signal_lem c (suc n) (x ∷ xs) e i p =
        let (got, left) = pop_lem sq c.queue in
        let got' = got ∙ ap head? i in inr (x, xs, refl, ground (arith, got'), left ∙ ap tail i)

    -- While units and messages pair, a poll gives the oldest message, or, from an empty queue,
    -- nothing yet (the end, if the sender is closed); it never wakes up to find no message.
    poll_next_lem :
        {limit : ℕ} (c : Channel sq)
        → IsPaired limit c
        → ((items sq c.queue ≡ [])
            × (poll_next sq c ≡ (if c.closed then ready none else pending, c)))
          ⊎ ((x : T) × (xs : List T) × (items sq c.queue ≡ x ∷ xs)
              × ((poll_next sq c).0 ≡ ready (some (some x)))
              × (items sq (poll_next sq c).1.queue ≡ xs))
    unfolding poll_next
    poll_next_lem c p = poll_signal_lem c c.signals (items sq c.queue) refl refl p

    chan-note_sent : (l : Ledger) (r : Sent T × Channel sq) → (note_sent l r).chan ≡ r.1
    chan-note_sent l (ok, c) = refl
    chan-note_sent l (err v, c) = refl

    chan-note_polled : (l : Ledger) (r : Poll T × Channel sq) → (note_polled l r).chan ≡ r.1
    chan-note_polled l (pending, c) = refl
    chan-note_polled l (ready none, c) = refl
    chan-note_polled l (ready (some none), c) = refl
    chan-note_polled l (ready (some (some v)), c) = refl

    -- From a channel whose units and messages pair, whatever is sent and polled: they still pair,
    -- and the queue holds at most one message above its capacity. Its channel of units must take a
    -- unit whenever it holds no more units than the capacity of the queue.
    pub run-IsPaired :
        {limit : ℕ}
        → ((s : ℕ) → s ≤ limit → room s ≡ true)
        → (ks : List (Call T)) (l : Ledger) → IsPaired limit l.chan
        → IsPaired limit (run ks l).chan
    unfolding run step poll_next
    run-IsPaired {limit} roomy [] l p = p
    run-IsPaired {limit} roomy (sends v ∷ ks) l p = run-IsPaired roomy ks _ (
        subst (IsPaired limit) (sym (chan-note_sent l (send sq room policy_fn v l.chan)))
          (send-IsPaired roomy v l.chan p))
    run-IsPaired {limit} roomy (polls ∷ ks) l p = run-IsPaired roomy ks _ (
        subst (IsPaired limit) (sym (chan-note_polled l (poll_next sq l.chan)))
          (poll_signal-IsPaired l.chan l.chan.signals (items sq l.chan.queue) refl refl p))

    held-send :
        (p : T → Bool) (v : T) (l : Ledger)
        → length (items sq l.chan.queue) ≤ l.chan.queue.cap + 1
        → held p (step (sends v) l) ≡ (if p v then 1 else 0) + held p l
    unfolding step
    held-send p v l h = elim (send_lem sq room policy_fn v l.chan h) [
      | inl (_, got, left, _) ↦
          let grown = ap (count p) left ∙ count-append p (items sq l.chan.queue) (v ∷ []) in
          ground (arith, got, grown)
      | inr (inl (_, _, e)) ↦ ground (arith, e)
      | inr (inr (x, xs, e, _, _, got, left, _)) ↦
          let grown = ap (count p) left ∙ count-append p xs (v ∷ []) in
          ground (arith, got, grown, ap (count p) e)
    ]

    held-poll :
        {limit : ℕ} (p : T → Bool) (l : Ledger)
        → IsPaired limit l.chan
        → held p (step polls l) ≡ held p l
    unfolding step
    held-poll p l h = elim (poll_next_lem l.chan h) [
      | inl (_, e) ↦ ground (arith, e)
      | inr (x, xs, e, got, left) ↦ ground (arith, got, ap (count p) left, ap (count p) e)
    ]

    -- No message is lost, doubled or made up: for any test, the messages that pass it and were
    -- delivered, dropped or are queued after the calls are those before and those sent meanwhile.
    pub held-run :
        {limit : ℕ}
        → ((s : ℕ) → s ≤ limit → room s ≡ true)
        → (p : T → Bool) (ks : List (Call T)) (l : Ledger) → IsPaired limit l.chan
        → held p (run ks l) ≡ count p (sent_values ks) + held p l
    unfolding run
    held-run roomy p [] l h = omega arith
    held-run roomy p (sends v ∷ ks) l h = omega (
      arith,
      held-send p v l (bound h),
      held-run roomy p ks (step (sends v) l) (run-IsPaired roomy (sends v ∷ []) l h),
    )
    held-run roomy p (polls ∷ ks) l h = omega (
      arith,
      held-poll p l h,
      held-run roomy p ks (step polls l) (run-IsPaired roomy (polls ∷ []) l h),
    )
