-- ===== src/Session/Ending/Clean.antt =====
-- `clean` of rmqtt/src/broker/session.rs: what waits in a session that ends is dropped, and the session leaves
-- the table.
use rmqtt.Common.{
  ℕ, ◌<◌, ◌≡◌, refl, sym, ◌∙◌, ap, true, false, Option, none, some, List, [], ◌++◌, map,
  if◌then◌else◌, Key, get, del, get-del, same_refl, subst, length, arith, Bool-cases, Option-cases,
  inl, inr,
}
use rmqtt.Types.{From, Publish, Identity, id_same, string_key}
use rmqtt.TopicTree.Levels.{Levels}
use rmqtt.Router.Names.{TopicNames}
use rmqtt.Inflight.Deque.{DequeMap}
use rmqtt.Inflight.{InflightMessage, to_inflight_messages}
use rmqtt.Inflight.Window.{window, size}
use rmqtt.Inflight.Flow.{messages, to_inflight_messages_lem}
use rmqtt.Queue.Fifo.{SegQueue}
use rmqtt.Shared.{Node, Peer, remove_with, leave}
use rmqtt.Session.{Reason}
use rmqtt.Session.Handover.{Session, pop_all}
use rmqtt.Session.Handover.Order.{pop_all_lem}

-- A message that the hook is told as dropped for a session.
abbrev pub drop_for : {A : Type 0} → Reason → (A → From × Publish) → A → From × Publish × Reason
drop_for reason message x = ((message x).0, (message x).1, reason)

abbrev pub of_window : InflightMessage → From × Publish
of_window m = (m.from, m.publish)

module _ {L : Type 0} ⦃l : Key L⦄ (lv : Levels L) (tn : TopicNames L)
    (dm : DequeMap InflightMessage) (sq : SegQueue (From × Publish)) where
  pub record Leaving : Type 0 where
    pub session : Session dm sq
    pub node : Node lv tn
    pub dropped : List (From × Publish × Reason)

  -- The session leaves the table if it is the one that stands there for its client.
  unfoldable pub leave_table : Identity → Node lv tn → Node lv tn
  leave_table id b = elim (get id.client_id b.peers) [
    | some peer ↦ if id_same peer.id id then (remove_with lv tn id true id b).1 else b
    | none ↦ b
  ]

  -- `SessionState::clean` of a session with a queue; `n` and `k` are the fuel for the queue and the window.
  unfoldable pub clean : ℕ → ℕ → Reason → Leaving → Leaving
  clean n k reason x =
      let (queued, queue') = pop_all dm sq n x.session.deliver_queue in
      let (inflight, win') = to_inflight_messages dm k x.session.inflight_win in
      record {
        session = record (x.session) { deliver_queue = queue'; inflight_win = win' };
        node = leave_table x.session.id x.node;
        dropped =
            x.dropped
            ++ (map (drop_for reason (λ m. m)) queued ++ map (drop_for reason of_window) inflight);
      }

  gone :
      (id : Identity) (b : Node lv tn)
      → (q : Peer) → get id.client_id b.peers ≡ some q
      → id_same q.id id ≡ true
      → get id.client_id (leave_table id b).peers ≡ none
  unfolding leave_table remove_with leave
  gone id b q f g =
      let left : (leave_table id b).peers ≡ del id.client_id b.peers = ground arith in
      rw (left, get-del id.client_id id.client_id b.peers, same_refl id.client_id) refl

  not_this :
      (id : Identity) (b : Node lv tn) (peer : Peer)
      → get id.client_id (leave_table id b).peers ≡ some peer
      → id_same peer.id id ≡ false
  unfolding leave_table
  not_this id b peer e = elim (Option-cases (get id.client_id b.peers)) [
    | inl f ↦
        let same_node : leave_table id b ≡ b = rw (f, leave_table) refl in
        let clash : ◌≡◌ {A = Option Peer} none (some peer) =
          sym f ∙ (sym (ap (λ (z : Node lv tn). get id.client_id z.peers) same_node) ∙ e) in
        absurd (cc clash)
    | inr (q, f) ↦ elim (Bool-cases (id_same q.id id)) [
      | inl g ↦
          let clash : ◌≡◌ {A = Option Peer} none (some peer) = sym (gone id b q f g) ∙ e in
          absurd (cc clash)
      | inr g ↦
          let same_node : leave_table id b ≡ b = rw (f, leave_table, g) refl in
          let same_peer : some q ≡ some peer =
            sym f ∙ (sym (ap (λ (z : Node lv tn). get id.client_id z.peers) same_node) ∙ e) in
          let level : q ≡ peer = cc same_peer in
          subst (λ (z : Peer). id_same z.id id ≡ false) level g
    ]
  ]

  -- When a session ends, every message that waits in its queue, in order, and then every message of its
  -- window is reported once as dropped with the reason, and nothing else is; the window is empty; and
  -- the table has no session of that identity for the client. The fuel is more than the messages.
  pub clean_lem :
      (n k : ℕ) (reason : Reason) (x : Leaving)
      → length (sq.items x.session.deliver_queue.inner) < n
      → size dm x.session.inflight_win < k
      → (window dm (clean n k reason x).session.inflight_win ≡ [])
        × ((clean n k reason x).dropped
            ≡ x.dropped
              ++ (map (drop_for reason (λ m. m)) (sq.items x.session.deliver_queue.inner)
                  ++ map (drop_for reason of_window) (messages (window dm x.session.inflight_win))))
        × ((peer : Peer)
            → get x.session.id.client_id (clean n k reason x).node.peers ≡ some peer
            → id_same peer.id x.session.id ≡ false)
  unfolding clean
  clean_lem n k reason x hn hk =
      let queue = x.session.deliver_queue in
      let (all_sent, emptied) = to_inflight_messages_lem dm k x.session.inflight_win hk in
      (
        emptied,
        rw (pop_all_lem dm sq n queue (sq.items queue.inner) refl hn, all_sent) refl,
        λ peer e. not_this x.session.id x.node peer e,
      )
