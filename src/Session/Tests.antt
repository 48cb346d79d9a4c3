-- ===== src/Session/Tests.antt =====
-- The session of rmqtt/src/broker/session.rs over lists, on concrete messages.
use Prim.Native.String.{String}
use rmqtt.Common.{
  ℕ, ◌==◌, ◌<◌, ◌≤◌, ◌≡◌, refl, Bool, true, false, not, ◌&&◌, Option, none, some, List, [], ◌∷◌,
  length, get, nat_key, arith, if◌then◌else◌, is_some, Bool-cases, inl, inr, subst,
}
use rmqtt.Types.{Publish, at_least_once, set_packet_id}
use rmqtt.Fitter.Sample.{listener}
use rmqtt.Fitter.{v5, ConnectInfo, remaining, message_expiry_check, will_delay}
use rmqtt.Inflight.Listed.{listed, ann, message, one}
use rmqtt.Queue.Listed as QueueListed
use rmqtt.Inflight.{
  InflightMessage, next_id, next_id_loop, un_ack, un_complete, new_message, front_timeout, timeout,
  pop_front_timeout, pop_front, update_status, set_status,
}
use rmqtt.Inflight.Window.{window}
use rmqtt.Router.{new}
use rmqtt.Router.Sample.{names, client}
use rmqtt.Session.{
  State, Env, Packet, Tx, working, publish_ack, publish_received, publish_complete, deliver,
  redeliver, acknowledge,
}
use rmqtt.Session as Session
use rmqtt.Session.Tracked.{IsTracked, Fits}
use rmqtt.Session.Delivery.{Event, deliver_packet, deliver_timeout, ack, run, run-IsTracked}
use rmqtt.Session.Redelivery.{Redelivered, redeliver_lem}
use rmqtt.Session.Sent.{Untouched, IsCalm, deliver_failed, deliver_lem}
use rmqtt.SessionSubs.Sample.{no_subs}
use rmqtt.Inflight.Flow.{find}
use rmqtt.Session.Acknowledged.{exactly_once_lem}
use rmqtt.Session.Handover as Handover
use rmqtt.Session.Handover.{StoredMessage, SessionOfflineInfo, Owner}
use rmqtt.Session.Ending.{
  StateFlags, last_will_enable, process_last_will, finish, forward, will_delay_interval_delay,
  session_expiry_delay,
}
use rmqtt.Session.Ending as Ending
use rmqtt.Session.Ending.Wills.{asks_for_will, finish_once, finish_will}

-- The connection takes packets if `ok`.
abbrev env : Bool → ℕ → Env
env ok now = record {
  now = now;
  listener = listener;
  expired = λ from p. false;
  delivered = λ from p. none;
  publish_ok = λ p. ok;
  release_ok = λ id. ok;
}

-- A session with message 1 in its window.
abbrev session : State listed
session = record {
  win = one;
  sink = true;
  tx = working;
  sent = [];
  forwarded = [];
  dropped = [];
  acked = [];
}

one-IsTracked : IsTracked listed one
one-IsTracked k m e = elim (Bool-cases (1 == k)) [
  | inl h ↦
      let k_one : k ≡ 1 = ground arith in
      let entry : ◌≡◌ {A = Option InflightMessage} (some (message 1)) (some m) = rw h at e in
      let m_one : message 1 ≡ m = cc entry in
      subst (λ (x : InflightMessage). Fits k x) m_one (rw k_one (refl, tt))
  | inr h ↦
      let entry : ◌≡◌ {A = Option InflightMessage} none (some m) = rw h at e in absurd (cc entry)
]

abbrev news : Publish
news = record ((message 1).publish) { qos = at_least_once; packet_id = none }

abbrev events : List (Env × Event)
events =
    (env true 110, deliver_packet ann news)
    ∷ (env true 135, deliver_timeout 3)
    ∷ (env true 140, ack (publish_received 2))
    ∷ (env true 210, ack (publish_complete 2))
    ∷ []

run-IsTracked_example : IsTracked listed (run listed events session).win
run-IsTracked_example = run-IsTracked listed events session one-IsTracked

redeliver_example :
    Redelivered listed (env true 130) session (redeliver listed (env true 130) 2 session)
redeliver_example = redeliver_lem listed 2 (env true 130) session (omega arith)

-- The release of message 1 was sent, and its completion is late.
abbrev released : State listed
released = acknowledge listed (env true 110) (publish_received 1) session

waits_for_itself : (redeliver listed (env true 150) 2 released).0 ≡ true
unfolding redeliver Session.reforward Session.rerelease acknowledge message_expiry_check
    pop_front_timeout update_status set_status pop_front front_timeout timeout
waits_for_itself = refl

not_taken : (deliver listed (env false 110) ann news session).0 ≡ false
unfolding deliver message_expiry_check Session.number next_id next_id_loop Session.transmit
not_taken = refl

deliver_failed_example :
    Untouched listed session (deliver listed (env false 110) ann news session).1
deliver_failed_example = deliver_failed listed (env false 110) ann news session not_taken

calm : IsCalm listed (env true 110) ann
calm = record { unchanged = λ p. refl; taken = λ p. refl }

some_left : message_expiry_check 110 listener false news ≡ remaining (some 299)
unfolding message_expiry_check
some_left = refl

deliver_example :
    (id : ℕ) × (0 < id)
    × (id < 65536)
    × (get id (window listed one) ≡ none)
    × ((deliver listed (env true 110) ann news session).0 ≡ true)
    × ((deliver listed (env true 110) ann news session).1.sent
        ≡ Session.message (set_packet_id id news) (some 299) ∷ [])
    × ((deliver listed (env true 110) ann news session).1.dropped ≡ [])
    × (window listed (deliver listed (env true 110) ann news session).1.win
        ≡ (1, message 1) ∷ (id, new_message 110 un_ack ann (set_packet_id id news)) ∷ [])
deliver_example =
    deliver_lem listed (env true 110) ann news session (some 299) un_ack calm refl some_left refl
      refl (omega arith) (omega arith)

abbrev old_session : Handover.Session listed QueueListed.listed
old_session = record {
  id = client 1 "c";
  subscriptions = no_subs;
  deliver_queue = record {
    cap = 8;
    inner = (ann, news) ∷ (ann, record news { topic = "a/+" }) ∷ [];
    on_push_fn = true;
    on_pop_fn = true;
    pushed = 2;
    popped = 0;
  };
  inflight_win = one;
}

abbrev new_session : Owner names listed
new_session = record {
  id = client 1 "c";
  state = session;
  subscriptions = no_subs;
  router = new names;
}

abbrev nothing_stored : String → Option String → Option (List StoredMessage)
nothing_stored tf group = none

abbrev with_will : ConnectInfo
with_will = v5 (record {
  clean_start = false;
  will = some (record { publish = news; will_delay_interval = some 30 });
  receive_max = none;
  session_expiry_interval_secs = some 60;
  topic_alias_max = 0;
})

abbrev flags : Bool → StateFlags
flags kicked = record {
  kicked = kicked;
  by_admin_kick = false;
  disconnect_received = false;
  clean_start = kicked;
}

finish_once_example :
    length
      (finish
        (λ p. p)
        with_will
        false
        (flags false)
        (will_delay_interval_delay ∷ session_expiry_delay ∷ [])).0.wills
    ≤ 1
finish_once_example =
    finish_once (λ p. p) with_will false (flags false)
      (will_delay_interval_delay ∷ session_expiry_delay ∷ [])

finish_will_example :
    (finish
      (λ p. p)
      with_will
      false
      (flags false)
      (Ending.forward ∷ session_expiry_delay ∷ [])).0.wills
    ≡ (if asks_for_will (flags false) false
          && not (false && (not false && is_some (will_delay with_will)))
        then process_last_will (λ p. p) with_will []
        else [])
finish_will_example =
    finish_will (λ p. p) with_will false (flags false) (Ending.forward ∷ []) [] refl

-- A client whose session is taken over with a clean start.
no_will_after_kick : (finish (λ p. p) with_will false (flags true) []).0.wills ≡ []
unfolding finish Ending.end_will last_will_enable
no_will_after_kick = refl

exactly_once_example :
    let received = acknowledge listed (env true 120) (publish_received 1) session in
    let done = acknowledge listed (env true 130) (publish_complete 1) received in
    let once_more = acknowledge listed (env true 140) (publish_complete 1) done in
    (find listed 1 received.win
      ≡ some (record (message 1) { status = un_complete; update_time = 120 }))
    × (received.acked ≡ [])
    × (find listed 1 done.win ≡ none)
    × (done.acked ≡ ((message 1).from, (message 1).publish) ∷ [])
    × (once_more.acked ≡ done.acked)
    × (find listed 2 received.win ≡ find listed 2 one)
    × (find listed 2 once_more.win ≡ find listed 2 one)
exactly_once_example =
    exactly_once_lem listed (env true 120) (env true 130) (env true 140) session 1 2 (message 1)
      refl (omega arith)
