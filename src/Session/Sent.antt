-- ===== src/Session/Sent.antt =====
-- What `deliver` of rmqtt/src/broker/session.rs sends, and what it leaves where it fails.
use rmqtt.Common.{
  ℕ, ◌<◌, ◌≡◌, refl, sym, ◌∙◌, ap, true, false, Option, none, some, [], ◌∷◌, ◌++◌, get, nat_key,
  arith, Bool-cases, Option-cases, inl, inr,
}
use rmqtt.Types.{QoS, at_most_once, at_least_once, exactly_once, Publish, From, set_packet_id}
use rmqtt.Inflight.Deque.{DequeMap}
use rmqtt.Inflight.{Inflight, InflightMessage, MomentStatus, new_message, push_back, next_id}
use rmqtt.Inflight.Window.{window, size}
use rmqtt.Inflight.Ids.{next_id_fresh, next_id_total}
use rmqtt.Fitter.{remaining, message_expiry_check}
use rmqtt.Session.{
  State, Env, message, number, transmit, deliver, or_same, moment_status, is_confirmed,
}
use rmqtt.Session.Tracked.{window-push_back}
use rmqtt.Session.Delivery.{window-number, check_cases}

confirmed :
    (q : QoS) (status : MomentStatus) → moment_status q ≡ some status → is_confirmed q ≡ true
confirmed at_most_once status e = cc
confirmed at_least_once status e = refl
confirmed exactly_once status e = refl

own_id :
    (now id : ℕ) (status : MomentStatus) (from : From) (p : Publish)
    → 0 < id
    → (new_message now status from (set_packet_id id p)).publish.packet_id ≡ some id
unfolding new_message
own_id now id status from p h = ground arith

module _ (dm : DequeMap InflightMessage) where
  -- What an error of `deliver` leaves: all but the counter of packet ids.
  pub record Untouched (s s' : State dm) : Type 0 where
    pub same_window : window dm s'.win ≡ window dm s.win
    pub same_sent : s'.sent ≡ s.sent
    pub same_forwarded : s'.forwarded ≡ s.forwarded
    pub same_dropped : s'.dropped ≡ s.dropped

  number-Untouched : (p : Publish) (s : State dm) → Untouched s (number dm p s).1
  unfolding number
  number-Untouched p s = record {
    same_window = window-number dm p s;
    same_sent = ground arith;
    same_forwarded = ground arith;
    same_dropped = ground arith;
  }

  transmit_failed :
      (env : Env) (from : From) (left : Option ℕ) (p : Publish) (s : State dm)
      → (transmit dm env from left p s).0 ≡ false
      → (transmit dm env from left p s).1 ≡ s
  unfolding transmit
  transmit_failed env from left p s h =
      let p' = or_same p (env.delivered from p) in
      elim (Bool-cases (env.publish_ok p')) [
        | inr e ↦ rw (e, transmit) refl
        | inl e ↦ elim (Option-cases (moment_status p'.qos)) [
          | inl f ↦ absurd (ground arith)
          | inr (status, f) ↦ absurd (ground arith)
        ]
      ]

  deliver_numbered :
      (env : Env) (from : From) (p p' : Publish) (s : State dm) (left : Option ℕ)
      → s.sink ≡ true
      → message_expiry_check env.now env.listener (env.expired from p) p ≡ remaining left
      → (number dm p s).0 ≡ some p'
      → deliver dm env from p s ≡ transmit dm env from left p' (number dm p s).1
  unfolding deliver
  deliver_numbered env from p p' s left e f g = ground arith

  deliver_unnumbered :
      (env : Env) (from : From) (p : Publish) (s : State dm) (left : Option ℕ)
      → s.sink ≡ true
      → message_expiry_check env.now env.listener (env.expired from p) p ≡ remaining left
      → (number dm p s).0 ≡ none
      → (deliver dm env from p s).1 ≡ (number dm p s).1
  unfolding deliver
  deliver_unnumbered env from p s left e f g = ground arith

  -- Where `deliver` fails, which is without a connection, without a free packet id, or where the
  -- connection does not take the message, the window, what was sent, what is on the session's channel and
  -- what was dropped are as before: the message is in none of them.
  pub deliver_failed :
      (env : Env) (from : From) (p : Publish) (s : State dm)
      → (deliver dm env from p s).0 ≡ false
      → Untouched s (deliver dm env from p s).1
  unfolding deliver
  deliver_failed env from p s h = elim (Bool-cases s.sink) [
    | inr e ↦
        let same_state : (deliver dm env from p s).1 ≡ s = ground arith in
        rw same_state (record {
          same_window = refl;
          same_sent = refl;
          same_forwarded = refl;
          same_dropped = refl;
        })
    | inl e ↦
        elim (check_cases (message_expiry_check env.now env.listener (env.expired from p) p)) [
          | inl f ↦ absurd (ground arith)
          | inr (left, f) ↦ elim (Option-cases (number dm p s).0) [
            | inl g ↦ rw (deliver_unnumbered env from p s left e f g) (number-Untouched p s)
            | inr (p', g) ↦
                let same_run = deliver_numbered env from p p' s left e f g in
                let failed : (transmit dm env from left p' (number dm p s).1).0 ≡ false =
                  ap (λ r. r.0) (sym same_run) ∙ h in
                rw (same_run, transmit_failed env from left p' (number dm p s).1 failed)
                  (number-Untouched p s)
          ]
        ]
  ]

  -- The connection takes what it is given, and no handler changes or expires a message.
  pub record IsCalm (env : Env) (from : From) : Type 0 where
    pub unchanged : (p : Publish) → env.delivered from p ≡ none
    pub taken : (p : Publish) → env.publish_ok p ≡ true

  transmit_calm :
      (env : Env) (from : From) (left : Option ℕ) (p : Publish) (status : MomentStatus)
      (s : State dm)
      → env.delivered from p ≡ none
      → env.publish_ok p ≡ true
      → moment_status p.qos ≡ some status
      → transmit dm env from left p s ≡ (
        true,
        record s {
          sent = s.sent ++ message p left ∷ [];
          win = push_back dm (new_message env.now status from p) s.win;
        },
      )
  unfolding transmit
  transmit_calm env from left p status s e f g = ground arith

  number_first :
      (p : Publish) (s : State dm) (status : MomentStatus) (id : ℕ)
      → moment_status p.qos ≡ some status
      → p.dup ≡ false
      → (next_id dm s.win).0 ≡ some id
      → number dm p s ≡ (some (set_packet_id id p), record s { win = (next_id dm s.win).1 })
  unfolding number
  number_first p s status id e f g = let asked = confirmed p.qos status e in ground arith

  window-next_id : (q : Inflight dm) → window dm (next_id dm q).1 ≡ window dm q
  unfolding next_id
  window-next_id q = ground arith

  push_back_new :
      (m : InflightMessage) (id : ℕ) (q : Inflight dm)
      → m.publish.packet_id ≡ some id
      → get id (window dm q) ≡ none
      → window dm (push_back dm m q) ≡ window dm q ++ (id, m) ∷ []
  push_back_new m id q own new = window-push_back dm m id q own ∙ dm.insert_new id m q.queues new

  -- A message of quality 1 or 2 that is sent for the first time, with the seconds it has left: it goes out
  -- under a nonzero 16-bit packet id that no message in the window has, and the window has it at its end
  -- under that id, waiting for the answer that its quality asks for; nothing is dropped. It is not
  -- expired, the window has fewer than 65534 messages, and the connection takes it.
  pub deliver_lem :
      (env : Env) (from : From) (p : Publish) (s : State dm) (left : Option ℕ)
      (status : MomentStatus)
      → IsCalm env from
      → s.sink ≡ true
      → message_expiry_check env.now env.listener (env.expired from p) p ≡ remaining left
      → moment_status p.qos ≡ some status
      → p.dup ≡ false
      → s.win.next < 65536
      → size dm s.win < 65534
      → (id : ℕ) × (0 < id)
        × (id < 65536)
        × (get id (window dm s.win) ≡ none)
        × ((deliver dm env from p s).0 ≡ true)
        × ((deliver dm env from p s).1.sent ≡ s.sent ++ message (set_packet_id id p) left ∷ [])
        × ((deliver dm env from p s).1.dropped ≡ s.dropped)
        × (window dm (deliver dm env from p s).1.win
            ≡ window dm s.win ++ (id, new_message env.now status from (set_packet_id id p)) ∷ [])
  deliver_lem env from p s left status calm on fresh quality first bound room =
      let (id, found) = next_id_total dm s.win bound room in
      let (positive, small, new) = next_id_fresh dm s.win id bound found in
      let p' = set_packet_id id p in
      let m = new_message env.now status from p' in
      let numbered = number_first p s status id quality first found in
      let s' = record s { win = (next_id dm s.win).1 } in
      let sent_all : deliver dm env from p s ≡ (
        true,
        record s' { sent = s.sent ++ message p' left ∷ []; win = push_back dm m s'.win },
      ) =
        deliver_numbered env from p p' s left on fresh (ap (λ r. r.0) numbered)
        ∙ (ap (λ r. transmit dm env from left p' r.1) numbered
            ∙ transmit_calm env from left p' status s' (calm.unchanged p') (calm.taken p')
                quality) in
      (
        id,
        positive,
        small,
        new,
        ap (λ r. r.0) sent_all,
        ap (λ r. r.1.sent) sent_all,
        ap (λ r. r.1.dropped) sent_all,
        ap (λ r. window dm r.1.win) sent_all
            ∙ (push_back_new m id s'.win (own_id env.now id status from p positive)
                  (ap (get id) (window-next_id s.win) ∙ new)
                ∙ ap (λ w. w ++ (id, m) ∷ []) (window-next_id s.win)),
      )
