-- ===== src/Session/Delivery.antt =====
-- `deliver` of rmqtt/src/broker/session.rs, and what its window holds after any steps of a session.
use rmqtt.Common.{
  ℕ, zero, suc, ◌≡◌, refl, Bool, true, false, if◌then◌else◌, sym, ◌∙◌, ap, Option, some, List, [],
  ◌∷◌, get, nat_key, arith, Bool-cases, Option-cases, inl, inr, ◌⊎◌, subst,
}
use rmqtt.Types.{QoS, at_most_once, at_least_once, exactly_once, Publish, From}
use rmqtt.Inflight.Deque.{DequeMap}
use rmqtt.Inflight.{
  InflightMessage, MomentStatus, un_ack, un_received, new_message, push_back, pop_front_timeout,
  remove, next_id,
}
use rmqtt.Inflight.Window.{window}
use rmqtt.Fitter.{MessageExpiryCheckResult, expiry, remaining, message_expiry_check}
use rmqtt.Session.{
  State, Env, Ack, publish_ack, publish_received, publish_complete, number, transmit, deliver,
  reforward, redeliver, acknowledge, or_same, moment_status,
}
use rmqtt.Session.Tracked.{
  Allows, IsTracked, push_back-IsTracked, remove-IsTracked, update_status-IsTracked,
}
use rmqtt.Session.Reforward.{ended_cases, reforward-Kept}
use rmqtt.Session.Redelivery.{pop_cases, pop_front_timeout-IsTracked}

-- A step of a session: a message to deliver, the loop over what is due with its fuel, or a packet that
-- acknowledges.
pub data Event : Type 0 where
  deliver_packet : From → Publish → Event
  deliver_timeout : ℕ → Event
  ack : Ack → Event

Allows-moment : (q : QoS) (status : MomentStatus) → moment_status q ≡ some status → Allows q status
Allows-moment at_most_once status e = cc
Allows-moment at_least_once status e =
    let one : un_ack ≡ status = cc e in subst (Allows at_least_once) one tt
Allows-moment exactly_once status e =
    let one : un_received ≡ status = cc e in subst (Allows exactly_once) one tt

pub check_cases :
    (c : MessageExpiryCheckResult) → (c ≡ expiry) ⊎ ((left : Option ℕ) × (c ≡ remaining left))
check_cases expiry = inl refl
check_cases (remaining left) = inr (left, refl)

module _ (dm : DequeMap InflightMessage) where
  -- `true`: the session waits for ever.
  unfoldable pub step : Env → Event → State dm → Bool × State dm
  step env (deliver_packet from p) s = (false, (deliver dm env from p s).1)
  step env (deliver_timeout n) s = redeliver dm env n s
  step env (ack a) s = (false, acknowledge dm env a s)

  -- Nothing more happens once the session waits for ever; the lock that it holds keeps off every other task.
  unfoldable pub run : List (Env × Event) → State dm → State dm
  run [] s = s
  run ((env, e) ∷ es) s =
      let (for_ever, s') = step env e s in let rest = run es s' in if for_ever then s' else rest

  -- A new packet id leaves the window.
  pub window-number :
      (p : Publish) (s : State dm) → window dm (number dm p s).1.win ≡ window dm s.win
  unfolding number next_id
  window-number p s = ground arith

  -- What is sent goes into the window, if its quality asks for an answer.
  transmit_win :
      (env : Env) (from : From) (left : Option ℕ) (p : Publish) (s : State dm)
      → ((transmit dm env from left p s).1.win ≡ s.win)
        ⊎ ((status : MomentStatus) × (moment_status (or_same p (env.delivered from p)).qos
              ≡ some status)
            × ((transmit dm env from left p s).1.win
                ≡ push_back dm
                    (new_message env.now status from (or_same p (env.delivered from p)))
                    s.win))
  unfolding transmit
  transmit_win env from left p s =
      let p' = or_same p (env.delivered from p) in
      elim (Bool-cases (env.publish_ok p')) [
        | inr e ↦ inl (rw (e, transmit) refl)
        | inl e ↦ elim (Option-cases (moment_status p'.qos)) [
          | inl f ↦ inl (rw (e, f, transmit) refl)
          | inr (status, f) ↦ inr (status, f, rw (e, f, transmit) refl)
        ]
      ]

  transmit-IsTracked :
      (env : Env) (from : From) (left : Option ℕ) (p : Publish) (s : State dm)
      → IsTracked dm s.win
      → IsTracked dm (transmit dm env from left p s).1.win
  unfolding new_message
  transmit-IsTracked env from left p s w = elim (transmit_win env from left p s) [
    | inl e ↦ subst (IsTracked dm) (sym e) w
    | inr (status, f, e) ↦
        let p' = or_same p (env.delivered from p) in
        subst (IsTracked dm) (sym e) (
          push_back-IsTracked dm (new_message env.now status from p') s.win
            (Allows-moment p'.qos status f) w)
  ]

  number-IsTracked :
      (p : Publish) (s : State dm) → IsTracked dm s.win → IsTracked dm (number dm p s).1.win
  number-IsTracked p s w k m e = w k m (ap (get k) (sym (window-number p s)) ∙ e)

  deliver-IsTracked :
      (env : Env) (from : From) (p : Publish) (s : State dm)
      → IsTracked dm s.win
      → IsTracked dm (deliver dm env from p s).1.win
  unfolding deliver
  deliver-IsTracked env from p s w = elim (Bool-cases s.sink) [
    | inr e ↦ rw (e, deliver) w
    | inl e ↦
        elim (check_cases (message_expiry_check env.now env.listener (env.expired from p) p)) [
          | inl f ↦ rw (e, f, deliver) w
          | inr (left, f) ↦ elim (Option-cases (number dm p s).0) [
            | inl g ↦ rw (e, f, g, deliver) (number-IsTracked p s w)
            | inr (p', g) ↦
                rw (e, f, g, deliver)
                  (transmit-IsTracked env from left p' (number dm p s).1 (number-IsTracked p s w))
          ]
        ]
  ]

  redeliver-IsTracked :
      (n : ℕ) (env : Env) (s : State dm)
      → IsTracked dm s.win
      → IsTracked dm (redeliver dm env n s).1.win
  unfolding redeliver
  redeliver-IsTracked zero env s w = w
  redeliver-IsTracked (suc n) env s w = elim (pop_cases dm env.now s.win) [
    | inl (idle, nothing) ↦ rw (idle, redeliver, idle) w
    | inr (k, m, es, first, got, left, is_due) ↦
        let q = (pop_front_timeout dm env.now s.win).1 in
        let s' = record s { win = q } in
        let after = reforward dm env true m s' in
        let w' : IsTracked dm after.1.win =
          subst (IsTracked dm) (sym (reforward-Kept dm env m s').0)
            (pop_front_timeout-IsTracked dm env.now s.win w) in
        elim (ended_cases after.0) [
          | inl e ↦ rw (got, redeliver, e) w'
          | inr (ok, e) ↦ rw (got, redeliver, e) (redeliver-IsTracked n env after.1 w')
        ]
  ]

  remove_acked-IsTracked :
      (env : Env) (id : ℕ) (s : State dm)
      → IsTracked dm s.win
      → IsTracked dm (acknowledge dm env (publish_ack id) s).win
  unfolding acknowledge
  remove_acked-IsTracked env id s w = elim (Option-cases (remove dm id s.win).0) [
    | inl e ↦ rw (e, acknowledge) (remove-IsTracked dm id s.win w)
    | inr (m, e) ↦ rw (e, acknowledge) (remove-IsTracked dm id s.win w)
  ]

  acknowledge-IsTracked :
      (env : Env) (a : Ack) (s : State dm)
      → IsTracked dm s.win
      → IsTracked dm (acknowledge dm env a s).win
  unfolding acknowledge
  acknowledge-IsTracked env (publish_ack id) s w = remove_acked-IsTracked env id s w
  acknowledge-IsTracked env (publish_received id) s w =
      update_status-IsTracked dm env.now id s.win w
  acknowledge-IsTracked env (publish_complete id) s w = remove_acked-IsTracked env id s w

  step-IsTracked :
      (env : Env) (e : Event) (s : State dm)
      → IsTracked dm s.win
      → IsTracked dm (step env e s).1.win
  unfolding step
  step-IsTracked env (deliver_packet from p) s w = deliver-IsTracked env from p s w
  step-IsTracked env (deliver_timeout n) s w = redeliver-IsTracked n env s w
  step-IsTracked env (ack a) s w = acknowledge-IsTracked env a s w

  -- Whatever is delivered, delivered again and acknowledged, until the session waits for ever, a window that
  -- holds only messages of quality 1 and 2, each under its own packet id and with a status that its quality allows, stays so.
  pub run-IsTracked :
      (es : List (Env × Event)) (s : State dm) → IsTracked dm s.win → IsTracked dm (run es s).win
  unfolding run
  run-IsTracked [] s w = w
  run-IsTracked ((env, e) ∷ es) s w =
      let w' = step-IsTracked env e s w in
      elim (Bool-cases (step env e s).0) [
        | inl f ↦ rw (f, run) w'
        | inr f ↦ rw (f, run) (run-IsTracked es (step env e s).1 w')
      ]
