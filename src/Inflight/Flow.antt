-- ===== src/Inflight/Flow.antt =====
-- A message's way through the window of rmqtt/src/broker/inflight.rs.
use mathlib.Core.Option
use rmqtt.Common.{
  ℕ, zero, suc, ◌<◌, ◌≡◌, refl, ap, ◌∙◌, Option, none, some, List, [], ◌∷◌, ◌++◌, map, length, get,
  get-del, arith, ◌==◌, if◌then◌else◌, nat_key, Option-cases, inl, inr, ◌⊎◌,
}
use rmqtt.Inflight.Deque.{DequeMap}
use rmqtt.Inflight.{
  Inflight, InflightMessage, MomentStatus, set_status, pop_front, push_back, remove, update_status,
  to_inflight_messages,
}
use rmqtt.Inflight.Window.{window, size, get-modify_entries, pop_front_first, pop_front_nothing}

abbrev pub messages : List (ℕ × InflightMessage) → List InflightMessage
messages = map (λ e. e.1)

module _ (dm : DequeMap InflightMessage) where
  abbrev pub find : ℕ → Inflight dm → Option InflightMessage
  find k q = get k (window dm q)

  pub find-update_status :
      (now k j : ℕ) (s : MomentStatus) (q : Inflight dm)
      → find j (update_status dm now k s q)
        ≡ (if k == j then Option.map (set_status now s) (find j q) else find j q)
  unfolding update_status
  find-update_status now k j s q =
      ap (get j) (dm.entries-modify k (set_status now s) q.queues)
      ∙ get-modify_entries j k (set_status now s) (window dm q)

  pub remove_lem :
      (k j : ℕ) (q : Inflight dm)
      → ((remove dm k q).0 ≡ find k q)
        × (find j (remove dm k q).1 ≡ (if k == j then none else find j q))
  unfolding remove
  remove_lem k j q = ground (
    arith,
    dm.remove_lem k q.queues,
    ap (get j) (dm.entries-remove k q.queues),
    get-del k j (window dm q),
  )

  -- A message pushed under a new packet id goes to the end of the window; one without a packet id
  -- is not taken.
  push_back_lem :
      (m : InflightMessage) (q : Inflight dm)
      → ((m.publish.packet_id ≡ none) × (push_back dm m q ≡ q))
        ⊎ ((k : ℕ) × (m.publish.packet_id ≡ some k)
            × (find k q ≡ none → window dm (push_back dm m q) ≡ window dm q ++ (k, m) ∷ []))
  unfolding push_back
  push_back_lem m q = elim (Option-cases m.publish.packet_id) [
    | inl e ↦ inl (e, rw (e, push_back))
    | inr (k, e) ↦ inr (
      k,
      e,
      λ absent.
          rw (e, push_back)
            (ground (arith, dm.insert_lem k m q.queues, dm.insert_new k m q.queues absent)),
    )
  ]

  drain_entries :
      (n : ℕ) (q : Inflight dm) (es : List (ℕ × InflightMessage))
      → window dm q ≡ es
      → length es < n
      → ((to_inflight_messages dm n q).0 ≡ messages es)
        × (window dm (to_inflight_messages dm n q).1 ≡ [])
  unfolding to_inflight_messages
  drain_entries zero q es e h = absurd (omega arith)
  drain_entries (suc n) q [] e h = ground (arith, pop_front_nothing dm q e)
  drain_entries (suc n) q ((k, m) ∷ es) e h =
      let (got, left) = pop_front_first dm q k m es e in
      let (rest, empty) = drain_entries n (pop_front dm q).1 es left (omega arith) in
      ground (arith, got, rest, empty)

  -- With fuel above the number of messages, `to_inflight_messages` returns every message in the
  -- order of the window and leaves the window empty.
  pub to_inflight_messages_lem :
      (n : ℕ) (q : Inflight dm)
      → size dm q < n
      → ((to_inflight_messages dm n q).0 ≡ messages (window dm q))
        × (window dm (to_inflight_messages dm n q).1 ≡ [])
  to_inflight_messages_lem n q h = drain_entries n q (window dm q) refl h
