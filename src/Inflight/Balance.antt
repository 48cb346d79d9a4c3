-- ===== src/Inflight/Balance.antt =====
-- The callbacks of rmqtt/src/broker/inflight.rs, which keep the statistics of the node: over any
-- sequence of operations they count the messages in the window, and a message stands under its own
-- packet id.
use rmqtt.Common.{
  ℕ, zero, suc, ◌+◌, ◌≡◌, refl, ap, true, List, [], ◌∷◌, length, length-del, arith, nat_key,
  Option-cases, inl, inr,
}
use rmqtt.Inflight.Deque.{DequeMap}
use rmqtt.Inflight.{
  Inflight, InflightMessage, MomentStatus, set_status, new, on_push, on_pop, pop_front,
  pop_front_timeout, push_back, remove, update_status, next_id, to_inflight_messages,
}
use rmqtt.Inflight.Window.{window, size, length-modify_entries, pop_front_first, pop_front_nothing}

pub data Op : Type 0 where
  push : InflightMessage → Op
  pop : Op
  pop_due : ℕ → Op
  ack : ℕ → Op
  received : ℕ → ℕ → MomentStatus → Op
  take_id : Op
  drain : ℕ → Op

module _ (dm : DequeMap InflightMessage) where
  pub step : Op → Inflight dm → Inflight dm
  step (push m) q = push_back dm m q
  step pop q = (pop_front dm q).1
  step (pop_due now) q = (pop_front_timeout dm now q).1
  step (ack id) q = (remove dm id q).1
  step (received now id s) q = update_status dm now id s q
  step take_id q = (next_id dm q).1
  step (drain n) q = (to_inflight_messages dm n q).1

  pub run : List Op → Inflight dm → Inflight dm
  run [] q = q
  run (o ∷ os) q = run os (step o q)

  -- The calls of the two callbacks differ by the messages in the window.
  pub record IsCounted (q : Inflight dm) : Type 0 where
    pub push_set : q.on_push_fn ≡ true
    pub pop_set : q.on_pop_fn ≡ true
    pub balance : q.pushed ≡ q.popped + size dm q

  push_back-IsCounted :
      (m : InflightMessage) (q : Inflight dm) → IsCounted q → IsCounted (push_back dm m q)
  unfolding push_back
  push_back-IsCounted m q c = elim (Option-cases m.publish.packet_id) [
    | inl e ↦ rw (e, push_back) c
    | inr (k, e) ↦
        rw (e, push_back)
          (ground (arith, dm.insert_lem k m q.queues, dm.length-insert k m q.queues))
  ]

  pop_front-IsCounted :
      (q : Inflight dm) (es : List _)
      → window dm q ≡ es
      → IsCounted q
      → IsCounted (pop_front dm q).1
  unfolding pop_front
  pop_front-IsCounted q [] e c =
      ground (arith, ap length e, pop_front_nothing dm q e, ap length (pop_front_nothing dm q e).1)
  pop_front-IsCounted q ((k, m) ∷ es) e c = ground (
    arith,
    ap length e,
    pop_front_first dm q k m es e,
    ap length (pop_front_first dm q k m es e).1,
  )

  remove-IsCounted : (k : ℕ) (q : Inflight dm) → IsCounted q → IsCounted (remove dm k q).1
  unfolding remove
  remove-IsCounted k q c = ground (
    arith,
    dm.remove_lem k q.queues,
    ap length (dm.entries-remove k q.queues),
    length-del k (window dm q) (dm.distinct q.queues),
  )

  drain-IsCounted :
      (n : ℕ) (q : Inflight dm) → IsCounted q → IsCounted (to_inflight_messages dm n q).1
  unfolding to_inflight_messages
  drain-IsCounted zero q c = c
  drain-IsCounted (suc n) q c =
      let popped = pop_front-IsCounted q (window dm q) refl c in
      ground (arith, popped, drain-IsCounted n (pop_front dm q).1 popped)

  step-IsCounted : (o : Op) (q : Inflight dm) → IsCounted q → IsCounted (step o q)
  unfolding step pop_front_timeout update_status next_id
  step-IsCounted (push m) q c = push_back-IsCounted m q c
  step-IsCounted pop q c = pop_front-IsCounted q (window dm q) refl c
  step-IsCounted (pop_due now) q c = ground (arith, pop_front-IsCounted q (window dm q) refl c)
  step-IsCounted (ack id) q c = remove-IsCounted id q c
  step-IsCounted (received now id s) q c = ground (
    arith,
    ap length (dm.entries-modify id (set_status now s) q.queues),
    length-modify_entries id (set_status now s) (window dm q),
  )
  step-IsCounted take_id q c = ground arith
  step-IsCounted (drain n) q c = drain-IsCounted n q c

  run-IsCounted : (os : List Op) (q : Inflight dm) → IsCounted q → IsCounted (run os q)
  unfolding run
  run-IsCounted [] q c = c
  run-IsCounted (o ∷ os) q c = run-IsCounted os (step o q) (step-IsCounted o q c)

  new-IsCounted :
      (cap retry expiry : ℕ) → IsCounted (on_pop dm (on_push dm (new dm cap retry expiry)))
  unfolding new on_push on_pop
  new-IsCounted cap retry expiry = ground (arith, ap length dm.entries-empty)

  -- From a new window with both callbacks set, whatever is done to it: the push callback has been
  -- called once more for each message in the window than the pop callback.
  pub run-new-balance :
      (os : List Op) (cap retry expiry : ℕ)
      → let q = run os (on_pop dm (on_push dm (new dm cap retry expiry))) in
        q.pushed ≡ q.popped + size dm q
  run-new-balance os cap retry expiry =
      (run-IsCounted os _ (new-IsCounted cap retry expiry)).balance
