-- ===== src/Queue.antt =====
-- rmqtt/src/broker/queue.rs: the deliver queue of a session, and the channel of wake-ups that tells
-- its receiver of each queued message.
pub mod Fifo
pub mod Push
pub mod Wakeups
pub mod Listed
mod Tests
use rmqtt.Common.{
  ℕ, zero, suc, ◌+◌, ◌-◌, ◌/◌, ◌≡◌, Bool, true, false, Option, none, some, List, [], ◌∷◌, ltb,
  if◌then◌else◌,
}
use Fifo.{SegQueue}

pub data Policy : Type 0 where
  -- discard the new value
  current : Policy
  -- discard the oldest value
  early : Policy

-- `Result<(), T>`: the error is the value that was discarded.
pub data Sent (T : Type 0) : Type 0 where
  ok : Sent T
  err : T → Sent T

-- What a poll of the receiver gives: `ready none` ends the stream, and `ready (some none)` is a
-- wake-up that found the queue empty.
pub data Poll (T : Type 0) : Type 0 where
  pending : Poll T
  ready : Option (Option T) → Poll T

-- `Limiter::new`: the time between two messages in nanoseconds, from a period for `burst` of them.
unfoldable pub limiter_period : ℕ → ℕ → ℕ
limiter_period burst replenish_nanos =
    let period : ℕ = replenish_nanos / burst in if ltb 0 period then period else 1

module _ {T : Type 0} (sq : SegQueue T) where
  open sq use {Inner}

  -- The callbacks are recorded by the number of their calls, where they are registered.
  pub record Queue : Type 0 where
    pub cap : ℕ
    pub inner : Inner
    pub on_push_fn : Bool
    pub on_pop_fn : Bool
    pub pushed : ℕ
    pub popped : ℕ

  unfoldable pub new : ℕ → Queue
  new cap = record {
    cap = cap;
    inner = sq.empty;
    on_push_fn = false;
    on_pop_fn = false;
    pushed = 0;
    popped = 0;
  }

  unfoldable pub on_push : Queue → Queue
  on_push q = record q { on_push_fn = true }

  unfoldable pub on_pop : Queue → Queue
  on_pop q = record q { on_pop_fn = true }

  unfoldable pub push : T → Queue → Sent T × Queue
  push v q = if ltb q.cap (sq.len q.inner) then (err v, q) else (
    ok,
    record q {
      pushed = if q.on_push_fn then q.pushed + 1 else q.pushed;
      inner = sq.push v q.inner;
    },
  )

  unfoldable pub pop : Queue → Option T × Queue
  pop q =
      let (got, rest) = sq.pop q.inner in
      elim got [
        | some v ↦ (
          some v,
          record q { popped = if q.on_pop_fn then q.popped + 1 else q.popped; inner = rest },
        )
        | none ↦ (none, record q { inner = rest })
      ]

  -- The queue with the channel of units `tx`/`rx`: the units sent and not yet received.
  pub record Channel : Type 0 where
    pub queue : Queue
    pub signals : ℕ
    pub closed : Bool

  -- `Policy::Early` on a full queue.
  unfoldable pub make_room : T → Channel → Sent T × Channel
  make_room v c =
      let (removed, q) = pop c.queue in
      let (again, q') = push v q in
      elim again [
        | err w ↦ (err w, record c { queue = q' })
        | ok ↦ (elim removed [ some r ↦ err r | none ↦ ok ], record c { queue = q' })
      ]

  -- `room s`: whether `try_send` takes one more unit while `s` are in the channel.
  module _ (room : ℕ → Bool) where
    unfoldable pub try_send : ℕ → ℕ
    try_send signals = if room signals then signals + 1 else signals

    unfoldable pub try_sends : ℕ → ℕ → ℕ
    try_sends zero signals = signals
    try_sends (suc n) signals = try_sends n (try_send signals)

    -- `Limiter::channel`: one unit for each message that waits already.
    unfoldable pub channel : Queue → Channel
    channel q = record { queue = q; signals = try_sends (sq.len q.inner) 0; closed = false }

    unfoldable pub send : (T → Policy) → T → Channel → Sent T × Channel
    send policy_fn v c =
        let (sent, q) = push v c.queue in
        elim sent [
          | err w ↦ elim (policy_fn w) [
            | current ↦ (err w, record c { queue = q })
            | early ↦ make_room w (record c { queue = q })
          ]
          | ok ↦ (ok, record c { queue = q; signals = try_send c.signals })
        ]

  -- `Sender::pop`, which takes no unit.
  unfoldable pub sender_pop : Channel → Option T × Channel
  sender_pop c = let (got, q) = pop c.queue in (got, record c { queue = q })

  unfoldable pub close : Channel → Channel
  close c = record c { closed = true }

  poll_signal : ℕ → Channel → Poll T × Channel
  poll_signal zero c = (if c.closed then ready none else pending, c)
  poll_signal (suc s) c =
      let (got, q) = pop c.queue in (ready (some got), record c { queue = q; signals = s })

  -- `ReceiverStream::poll_next`.
  unfoldable pub poll_next : Channel → Poll T × Channel
  unfolding poll_signal
  poll_next c = poll_signal c.signals c
