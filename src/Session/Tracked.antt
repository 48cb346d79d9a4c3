-- ===== src/Session/Tracked.antt =====
-- What the window of a session holds, in rmqtt/src/broker/session.rs: only messages of quality 1 and 2,
-- each under its own packet id, with a status that its quality allows.
use rmqtt.Common.{
  ℕ, ◌==◌, ◌≡◌, refl, sym, ◌∙◌, ap, Option, none, some, List, [], ◌∷◌, get, get-del, Distinct,
  nat_key, if◌then◌else◌, arith, Bool-cases, Option-cases, inl, inr, ==_iff, subst,
}
use mathlib.Core.Option
use rmqtt.Types.{QoS, at_most_once, at_least_once, exactly_once}
use rmqtt.Inflight.Deque.{DequeMap}
use rmqtt.Inflight.{
  Inflight, InflightMessage, MomentStatus, un_ack, un_received, un_complete, set_status, push_back,
  pop_front, remove, update_status,
}
use rmqtt.Inflight.Window.{window, get-modify_entries, pop_front_first, pop_front_nothing}

-- A status that a message of this quality may have.
abbrev pub Allows : QoS → MomentStatus → Type 0
Allows at_most_once s = ⊥
Allows at_least_once un_ack = Unit
Allows at_least_once un_received = ⊥
Allows at_least_once un_complete = Unit
Allows exactly_once un_ack = ⊥
Allows exactly_once un_received = Unit
Allows exactly_once un_complete = Unit

abbrev pub Fits : ℕ → InflightMessage → Type 0
Fits k m = (m.publish.packet_id ≡ some k) × Allows m.publish.qos m.status

Allows-complete : (q : QoS) (s : MomentStatus) → Allows q s → Allows q un_complete
Allows-complete at_most_once s h = h
Allows-complete at_least_once s h = tt
Allows-complete exactly_once s h = tt

module _ (dm : DequeMap InflightMessage) where
  abbrev pub IsTracked : Inflight dm → Type 0
  IsTracked q = (k : ℕ) (m : InflightMessage) → get k (window dm q) ≡ some m → Fits k m

  pub window-push_back :
      (m : InflightMessage) (k : ℕ) (q : Inflight dm)
      → m.publish.packet_id ≡ some k
      → window dm (push_back dm m q) ≡ dm.entries (dm.insert k m q.queues).1
  unfolding push_back
  window-push_back m k q e = elim (Option-cases (dm.insert k m q.queues).0) [
    | inl old ↦ ground arith
    | inr (n, old) ↦ ground arith
  ]

  push_back_unnumbered :
      (m : InflightMessage) (q : Inflight dm) → m.publish.packet_id ≡ none → push_back dm m q ≡ q
  unfolding push_back
  push_back_unnumbered m q e = rw (e, push_back) refl

  pub push_back-IsTracked :
      (m : InflightMessage) (q : Inflight dm)
      → Allows m.publish.qos m.status
      → IsTracked q
      → IsTracked (push_back dm m q)
  push_back-IsTracked m q a w j n e = elim (Option-cases m.publish.packet_id) [
    | inl h ↦ w j n (rw (push_back_unnumbered m q h) at e)
    | inr (k, h) ↦
        let found : (if k == j then some m else get j (window dm q)) ≡ some n =
          sym (dm.get-insert j k m q.queues) ∙ (rw (window-push_back m k q h) at e) in
        elim (Bool-cases (k == j)) [
          | inl this ↦
              let one : some m ≡ some n = rw this at found in
              let same_key = (==_iff k j).0 this in
              let here : Fits j m = (h ∙ ap some same_key, a) in
              let equal : m ≡ n = cc one in subst (Fits j) equal here
          | inr other ↦ w j n (rw other at found)
        ]
  ]

  tail-IsTracked :
      (k : ℕ) (m : InflightMessage) (es : List (ℕ × InflightMessage)) (j : ℕ) (n : InflightMessage)
      → get k es ≡ none
      → get j es ≡ some n
      → get j ((k, m) ∷ es) ≡ some n
  tail-IsTracked k m es j n absent e = ground (arith, ==_iff k j)

  pub pop_front-IsTracked : (q : Inflight dm) → IsTracked q → IsTracked (pop_front dm q).1
  pop_front-IsTracked q w = by_window (window dm q) refl
    where
      by_window :
          (es : List (ℕ × InflightMessage)) → window dm q ≡ es → IsTracked (pop_front dm q).1
      by_window [] e j n f =
          let clash : ◌≡◌ {A = Option InflightMessage} none (some n) =
            rw (pop_front_nothing dm q e).1 at f in
          absurd (cc clash)
      by_window ((k, m) ∷ es) e j n f =
          let distinct : Distinct ((k, m) ∷ es) = subst Distinct e (dm.distinct q.queues) in
          let later : get j es ≡ some n = rw (pop_front_first dm q k m es e).1 at f in
          w j n (ap (get j) e ∙ tail-IsTracked k m es j n distinct.0 later)

  window-remove :
      (id : ℕ) (q : Inflight dm)
      → window dm (remove dm id q).1 ≡ dm.entries (dm.remove id q.queues).1
  unfolding remove
  window-remove id q = elim (Option-cases (dm.remove id q.queues).0) [
    | inl e ↦ rw (e, remove) refl
    | inr (m, e) ↦ rw (e, remove) refl
  ]

  pub remove-IsTracked : (id : ℕ) (q : Inflight dm) → IsTracked q → IsTracked (remove dm id q).1
  remove-IsTracked id q w j n e =
      let found : (if id == j then none else get j (window dm q)) ≡ some n =
        sym (ap (get j) (dm.entries-remove id q.queues) ∙ get-del id j (window dm q))
        ∙ (rw (window-remove id q) at e) in
      w j n (ground arith)

  pub update_status-IsTracked :
      (now id : ℕ) (q : Inflight dm)
      → IsTracked q
      → IsTracked (update_status dm now id un_complete q)
  unfolding update_status set_status
  update_status-IsTracked now id q w j n e =
      let found : (if id == j
            then Option.map (set_status now un_complete) (get j (window dm q))
            else get j (window dm q))
          ≡ some n =
        sym (
          ap (get j) (dm.entries-modify id (set_status now un_complete) q.queues)
          ∙ get-modify_entries j id (set_status now un_complete) (window dm q))
        ∙ e in
      elim (Bool-cases (id == j)) [
        | inr other ↦ w j n (rw other at found)
        | inl this ↦ elim (Option-cases (get j (window dm q))) [
          | inl absent ↦
              let clash : ◌≡◌ {A = Option InflightMessage} none (some n) =
                rw (this, absent) at found in
              absurd (cc clash)
          | inr (m, there) ↦
              let one : some (set_status now un_complete m) ≡ some n = rw (this, there) at found in
              let (key, allowed) = w j m there in
              let fits : Fits j (set_status now un_complete m) =
                (key, Allows-complete m.publish.qos m.status allowed) in
              let equal : set_status now un_complete m ≡ n = cc one in subst (Fits j) equal fits
        ]
      ]
