-- ===== src/Inflight/Tests.antt =====
-- The window of rmqtt/src/broker/inflight.rs over a list of entries, on concrete messages.
use rmqtt.Common.{ℕ, ◌+◌, ◌≡◌, refl, some, [], ◌∷◌, nat_key, arith}
use rmqtt.Inflight.Listed.{listed, message, one}
use rmqtt.Inflight.{new, on_push, on_pop, get_timeout, next_id, next_id_loop}
use rmqtt.Inflight.Ids.{next_id_total}
use rmqtt.Inflight.Window.{size}
use rmqtt.Inflight.Balance.{push, ack, run, run-new-balance}

next_id_skips : (next_id listed one).0 ≡ some 2
unfolding next_id next_id_loop
next_id_skips = refl

next_id_total_example : (id : ℕ) × ((next_id listed one).0 ≡ some id)
next_id_total_example = next_id_total listed one (omega arith) (omega arith)

waits : get_timeout listed 110 one ≡ some 20
unfolding get_timeout
waits = refl

run-new-balance_example :
    let q =
      run listed
        (push (message 1) ∷ push (message 1) ∷ push (message 2) ∷ ack 1 ∷ [])
        (on_pop listed (on_push listed (new listed 4 30 0))) in
    q.pushed ≡ q.popped + size listed q
run-new-balance_example =
    run-new-balance listed (push (message 1) ∷ push (message 1) ∷ push (message 2) ∷ ack 1 ∷ []) 4
      30 0
