-- ===== src/Queue/Tests.antt =====
-- The queue of rmqtt/src/broker/queue.rs over a list, on concrete values.
use rmqtt.Common.{
  ℕ, ◌+◌, ◌≤◌, ◌<◌, ◌≡◌, refl, Bool, true, false, List, [], ◌∷◌, ◌++◌, length, count, leb, ◌==◌,
  if◌then◌else◌, arith, ◌⊎◌,
}
use rmqtt.Queue.Listed.{listed}
use rmqtt.Queue.{
  Policy, current, early, ok, err, push, Channel, send, make_room, pop, limiter_period,
}
use rmqtt.Queue.Push.{items, push_lem, send_lem, Takes, Refuses, Replaces}
use rmqtt.Queue.Wakeups.{
  Call, sends, polls, Ledger, IsPaired, run, held, sent_values, run-IsPaired, held-run,
}

-- A queue of capacity 1 that is full: it holds two values.
abbrev full : Channel {T = ℕ} listed
full = record {
  queue = record {
    cap = 1;
    inner = 10 ∷ 11 ∷ [];
    on_push_fn = true;
    on_pop_fn = true;
    pushed = 2;
    popped = 0;
  };
  signals = 2;
  closed = false;
}

-- Even values give way to older ones, odd ones push these out.
abbrev by_parity : ℕ → Policy
by_parity v = if v == 12 then current else early

abbrev room : ℕ → Bool
room s = leb s 1

overfull :
    (push {T = ℕ} listed 11 (record {
      cap = 1;
      inner = 10 ∷ [];
      on_push_fn = false;
      on_pop_fn = false;
      pushed = 0;
      popped = 0;
    })).0
    ≡ ok
unfolding push
overfull = refl

drops_oldest : (send listed room by_parity 13 full).0 ≡ err 10
unfolding send make_room push pop
drops_oldest = refl

one_per_ten_ms : limiter_period 10 100_000_000 ≡ 10_000_000
unfolding limiter_period
one_per_ten_ms = refl

push_example :
    ((length (items listed full.queue) ≤ 1)
      × ((push listed 12 full.queue).0 ≡ ok)
      × (items listed (push listed 12 full.queue).1 ≡ items listed full.queue ++ 12 ∷ []))
    ⊎ ((1 < length (items listed full.queue)) × (push listed 12 full.queue ≡ (err 12, full.queue)))
push_example = push_lem listed 12 full.queue

send_example :
    Takes listed room by_parity 13 full
    ⊎ (Refuses listed room by_parity 13 full ⊎ Replaces listed room by_parity 13 full)
send_example = send_lem listed room by_parity 13 full (omega arith)

full-IsPaired : IsPaired listed 1 full
full-IsPaired = record { fixed = refl; paired = refl; bounded = omega arith }

roomy : (s : ℕ) → s ≤ 1 → room s ≡ true
roomy s h = ground arith

abbrev calls : List (Call ℕ)
calls = sends 12 ∷ sends 13 ∷ polls ∷ sends 14 ∷ []

abbrev start : Ledger {T = ℕ} listed
start = record { delivered = []; dropped = []; chan = full }

run-IsPaired_example : IsPaired listed 1 (run listed room by_parity calls start).chan
run-IsPaired_example = run-IsPaired listed room by_parity roomy calls start full-IsPaired

held-run_example :
    held listed (λ v. v == 13) (run listed room by_parity calls start)
    ≡ count (λ v. v == 13) (sent_values calls) + held listed (λ v. v == 13) start
held-run_example = held-run listed room by_parity roomy (λ v. v == 13) calls start full-IsPaired
