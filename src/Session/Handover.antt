-- ===== src/Session/Handover.antt =====
-- What a new session takes over from the one before it: `to_offline_info` and `transfer_session_state` of
-- rmqtt/src/broker/session.rs. The messages that the storage of messages has for a topic filter and the
-- group of a shared subscription are an argument, `none` where it fails.
pub mod Order
use Prim.Native.String.{String}
use rmqtt.Common.{
  ℕ, zero, suc, ◌==◌, ◌&&◌, ◌||◌, not, Bool, true, false, Option, none, some, List, [], ◌∷◌, ◌++◌,
  if◌then◌else◌, Key,
}
use rmqtt.Types.{
  QoS, at_most_once, at_least_once, exactly_once, less_value, Publish, From, Identity,
}
use rmqtt.Inflight.Deque.{DequeMap}
use rmqtt.Inflight.{
  Inflight, InflightMessage, MomentStatus, un_ack, un_received, un_complete, to_inflight_messages,
}
use rmqtt.Queue.Fifo.{SegQueue}
use rmqtt.Queue.{Queue}
use rmqtt.Queue as Queue
use rmqtt.Subscriptions.{SubscriptionOptions, qos, shared_group}
use rmqtt.SessionSubs.{SessionSubs, drain, extend}
use rmqtt.Router.{Router}
use rmqtt.Router as Router
use rmqtt.Router.Names.{TopicNames}
use rmqtt.Session.{State, Env, Tx, absent, closed, working, Reason, error, drop, forward, reforward}

-- The id of a stored message on its node, where it is from, and the message.
abbrev pub StoredMessage : Type 0
StoredMessage = ℕ × From × Publish

pub record SessionOfflineInfo : Type 0 where
  pub id : Identity
  pub subscriptions : List (String × SubscriptionOptions)
  pub offline_messages : List (From × Publish)
  pub inflight_messages : List InflightMessage

-- `excludeds.contains(&(from.node_id, msg_id))`.
abbrev pub excludes : List (ℕ × ℕ) → ℕ → ℕ → Bool
excludes [] node_id msg_id = false
excludes ((n, m) ∷ es) node_id msg_id = (n == node_id && m == msg_id) || excludes es node_id msg_id

-- `while let Some(x) = v.pop() { f(x) }` on a `Vec`: the last element comes first.
abbrev pub pop_each : {A S : Type 0} → (A → S → S) → List A → S → S
pop_each f [] s = s
pop_each f (x ∷ xs) s = f x (pop_each f xs s)

abbrev pub is_complete : MomentStatus → Bool
is_complete un_ack = false
is_complete un_received = false
is_complete un_complete = true

module _ (dm : DequeMap InflightMessage) (sq : SegQueue (From × Publish)) where
  -- What a session holds beside its connection.
  pub record Session : Type 0 where
    pub id : Identity
    pub subscriptions : SessionSubs
    pub deliver_queue : Queue sq
    pub inflight_win : Inflight dm

  -- `while let Some(item) = self.deliver_queue().pop()`, on fuel.
  unfoldable pub pop_all : ℕ → Queue sq → List (From × Publish) × Queue sq
  pop_all zero q = ([], q)
  pop_all (suc n) q =
      let (item, q') = Queue.pop sq q in
      let (rest, end) = pop_all n q' in elim item [ some x ↦ (x ∷ rest, end) | none ↦ ([], q') ]

  -- `Session::to_offline_info`; `n` and `k` are the fuel for the queue and the window.
  unfoldable pub to_offline_info : ℕ → ℕ → Session → SessionOfflineInfo × Session
  to_offline_info n k s =
      let (subs, subscriptions') = drain s.subscriptions in
      let (offline, queue') = pop_all n s.deliver_queue in
      let (inflight, win') = to_inflight_messages dm k s.inflight_win in
      (
        record {
          id = s.id;
          subscriptions = subs;
          offline_messages = offline;
          inflight_messages = inflight;
        },
        record s { subscriptions = subscriptions'; deliver_queue = queue'; inflight_win = win' },
      )

module _ (dm : DequeMap InflightMessage) where
  -- `publish` of the session's own entry in the shared table, `LockEntry` of default.rs.
  unfoldable pub entry_publish : From → Publish → State dm → State dm
  entry_publish from p s = elim (s.tx) [
    | working ↦ record s { forwarded = s.forwarded ++ (from, p) ∷ [] }
    | closed ↦ drop dm from p (error "Tx is closed") s
    | absent ↦ drop dm from p (error "Tx is None") s
  ]

  -- `_send_storaged_messages`.
  unfoldable pub send_stored : List StoredMessage → QoS → List (ℕ × ℕ) → State dm → State dm
  send_stored [] q excludeds s = s
  send_stored ((msg_id, from, p) ∷ ms) q excludeds s =
      let p' = record p {
        dup = false;
        retain = false;
        qos = less_value p.qos q;
        packet_id = none;
      } in
      send_stored ms q excludeds
        (if excludes excludeds from.id.node_id msg_id then s else entry_publish from p' s)

  -- The loop over the messages that were not acknowledged, less those whose release was sent.
  unfoldable pub resend : Env → List InflightMessage → State dm → State dm
  resend env =
      pop_each (λ m s. if not (is_complete m.status) then (reforward dm env false m s).1 else s)

  unfoldable pub resend_offline : List (From × Publish) → State dm → State dm
  resend_offline = pop_each (λ m s. forward dm m.0 m.1 s)

module _ {L : Type 0} ⦃l : Key L⦄ (tn : TopicNames L) (dm : DequeMap InflightMessage) where
  -- The new session, with the router of its node.
  pub record Owner : Type 0 where
    pub id : Identity
    pub state : State dm
    pub subscriptions : SessionSubs
    pub router : Router L

  module _ (load : String → Option String → Option (List StoredMessage)) where
    -- The router's error and the storage's are only logged.
    unfoldable pub transfer_subscriptions : List (String × SubscriptionOptions) → Owner → Owner
    transfer_subscriptions [] o = o
    transfer_subscriptions ((tf, opts) ∷ subs) o =
        let o' = record o { router = (Router.add tn tf o.id opts o.router).1 } in
        transfer_subscriptions subs (elim (load tf (shared_group opts)) [
          | some ms ↦ record o' { state = send_stored dm ms (qos opts) [] o'.state }
          | none ↦ o'
        ])

    -- `transfer_session_state`.
    unfoldable pub transfer_session_state : Env → Bool → SessionOfflineInfo → Owner → Owner
    transfer_session_state env clear_subscriptions info o =
        let o1 = if clear_subscriptions then o else transfer_subscriptions info.subscriptions o in
        let o2 =
          if clear_subscriptions
          then o1
          else record o1 { subscriptions = extend info.subscriptions o1.subscriptions } in
        record o2 {
          state =
              resend_offline dm info.offline_messages
                (resend dm env info.inflight_messages o2.state);
        }
