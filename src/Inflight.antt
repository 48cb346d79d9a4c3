-- ===== src/Inflight.antt =====
-- rmqtt/src/broker/inflight.rs: the window of messages that were sent and are not yet acknowledged.
-- Time is an argument, `now`, in milliseconds; intervals and times are not negative.
pub mod Deque
pub mod Ids
pub mod Window
pub mod Balance
pub mod Flow
pub mod Listed
mod Tests
use rmqtt.Common.{
  ℕ, zero, suc, ◌+◌, ◌-◌, ◌*◌, ◌%◌, ◌^◌, ◌≡◌, refl, Bool, true, false, not, ◌&&◌, Option, none,
  some, List, [], ◌∷◌, ltb, leb, ◌==◌, if◌then◌else◌, min, is_some,
}
use rmqtt.Types.{Publish, From}
use Deque.{DequeMap}

pub data MomentStatus : Type 0 where
  un_ack un_received un_complete : MomentStatus

pub record InflightMessage : Type 0 where
  pub publish : Publish
  pub from : From
  pub status : MomentStatus
  pub update_time : ℕ

-- `InflightMessage::new`.
unfoldable pub new_message : ℕ → MomentStatus → From → Publish → InflightMessage
new_message now status from publish = record {
  publish = publish;
  from = from;
  status = status;
  update_time = now;
}

-- `InflightMessage::update_status`.
unfoldable pub set_status : ℕ → MomentStatus → InflightMessage → InflightMessage
set_status now status m = record m { update_time = now; status = status }

-- `now - update_time >= interval` under `interval > 0`: where the clock went back the source's
-- difference is negative, and the truncated one is 0.
unfoldable pub timeout : ℕ → ℕ → InflightMessage → Bool
timeout now interval_millis m = ltb 0 interval_millis && leb interval_millis (now - m.update_time)

unfoldable pub interval_of : ℕ → ℕ → ℕ
interval_of retry_interval expiry_interval =
    if retry_interval == 0
    then expiry_interval
    else if expiry_interval == 0
    then retry_interval
    else min retry_interval expiry_interval

abbrev pub u16_max : ℕ
u16_max = 65535

-- `next.fetch_add(1)` on a 16-bit counter, for `n` rounds.
unfoldable pub next_id_loop : ℕ → (ℕ → Bool) → ℕ → Option ℕ × ℕ
next_id_loop zero used next = (none, next)
next_id_loop (suc n) used next =
    let rest = next_id_loop n used ((next + 1) % 2 ^ 16) in
    if next == 0 then rest else if not (used next) then (some next, (next + 1) % 2 ^ 16) else rest

module _ (dm : DequeMap InflightMessage) where
  open dm use {Queues}

  -- A callback is recorded by the number of its calls, where one is registered.
  pub record Inflight : Type 0 where
    pub cap : ℕ
    pub interval : ℕ
    pub next : ℕ
    pub queues : Queues
    pub on_push_fn : Bool
    pub on_pop_fn : Bool
    pub pushed : ℕ
    pub popped : ℕ

  unfoldable pub new : ℕ → ℕ → ℕ → Inflight
  new cap retry_interval expiry_interval = record {
    cap = cap;
    interval = interval_of retry_interval expiry_interval;
    next = 1;
    queues = dm.empty;
    on_push_fn = false;
    on_pop_fn = false;
    pushed = 0;
    popped = 0;
  }

  unfoldable pub on_push : Inflight → Inflight
  on_push q = record q { on_push_fn = true }

  unfoldable pub on_pop : Inflight → Inflight
  on_pop q = record q { on_pop_fn = true }

  abbrev pub call_push : Inflight → Inflight
  call_push q = record q { pushed = if q.on_push_fn then q.pushed + 1 else q.pushed }

  abbrev pub call_pop : Inflight → Inflight
  call_pop q = record q { popped = if q.on_pop_fn then q.popped + 1 else q.popped }

  -- In milliseconds. `interval + update_time - now` is 0 where the source's difference is below 1.
  unfoldable pub get_timeout : ℕ → Inflight → Option ℕ
  get_timeout now q = if q.interval == 0 then none else elim (dm.front q.queues) [
    | some (_, m) ↦ let t : ℕ = q.interval + m.update_time - now in some (if ltb t 1 then 1 else t)
    | none ↦ none
  ]

  unfoldable pub front_timeout : ℕ → Inflight → Bool
  front_timeout now q =
      if q.interval == 0
      then false
      else elim (dm.front q.queues) [ some (_, m) ↦ timeout now q.interval m | none ↦ false ]

  unfoldable pub pop_front : Inflight → Option InflightMessage × Inflight
  pop_front q =
      let (popped, rest) = dm.pop_front q.queues in
      elim popped [
        | some (_, m) ↦ (some m, call_pop (record q { queues = rest }))
        | none ↦ (none, record q { queues = rest })
      ]

  unfoldable pub pop_front_timeout : ℕ → Inflight → Option InflightMessage × Inflight
  pop_front_timeout now q = if front_timeout now q then pop_front q else (none, q)

  unfoldable pub push_back : InflightMessage → Inflight → Inflight
  push_back m q = elim (m.publish.packet_id) [
    | some packet_id ↦
        let q' = call_push q in
        let (old, queues') = dm.insert packet_id m q'.queues in
        let q'' = record q' { queues = queues' } in if is_some old then call_pop q'' else q''
    | none ↦ q
  ]

  unfoldable pub remove : ℕ → Inflight → Option InflightMessage × Inflight
  remove packet_id q =
      let (old, queues') = dm.remove packet_id q.queues in
      elim old [
        | some msg ↦ (some msg, call_pop (record q { queues = queues' }))
        | none ↦ (none, record q { queues = queues' })
      ]

  unfoldable pub update_status : ℕ → ℕ → MomentStatus → Inflight → Inflight
  update_status now packet_id s q = record q {
    queues = dm.modify packet_id (set_status now s) q.queues;
  }

  -- `(self.cap - self.queues.len()) > 0` on a 64-bit `usize`, as a release build wraps it.
  unfoldable pub has_credit : Inflight → Bool
  has_credit q = ltb 0 ((q.cap + 2 ^ 64 - dm.len q.queues) % 2 ^ 64)

  -- `none` is the error "no packet_id available".
  unfoldable pub next_id : Inflight → Option ℕ × Inflight
  next_id q =
      let (id, next') = next_id_loop u16_max (dm.contains_key q.queues) q.next in
      (id, record q { next = next' })

  -- `while let Some(msg) = self.pop_front()` with fuel.
  unfoldable pub to_inflight_messages : ℕ → Inflight → List InflightMessage × Inflight
  to_inflight_messages zero q = ([], q)
  to_inflight_messages (suc n) q =
      let (msg, q') = pop_front q in
      let (rest, end) = to_inflight_messages n q' in
      elim msg [ some m ↦ (m ∷ rest, end) | none ↦ ([], q') ]
