-- ===== src/Session/Handover/Order.antt =====
-- The order in which rmqtt/src/broker/session.rs hands a session's messages over: none is lost or doubled,
-- and each of the two groups comes last first.
use Prim.Native.String.{String}
use rmqtt.Common.{
  ℕ, zero, suc, ◌<◌, ◌≡◌, refl, ◌∙◌, ap, Bool, true, not, Option, none, some, List, [], ◌∷◌, length,
  head?, tail, Key, if◌then◌else◌, arith,
}
use rmqtt.Types.{Publish, From, set_dup}
use rmqtt.Inflight.Deque.{DequeMap}
use rmqtt.Inflight.{InflightMessage}
use rmqtt.Queue.Push.{pop_lem}
use rmqtt.Queue.Fifo.{SegQueue}
use rmqtt.Queue.{Queue}
use rmqtt.Queue as Queue
use rmqtt.Router.Names.{TopicNames}
use rmqtt.Session.{State, working}
use rmqtt.Session.Handover.{
  StoredMessage, SessionOfflineInfo, Session, is_complete, pop_all, Owner, transfer_subscriptions,
}

-- The messages that are sent again, marked as such.
abbrev pub again : List InflightMessage → List (From × Publish)
again [] = []
again (m ∷ ms) =
    if not (is_complete m.status) then (m.from, set_dup true m.publish) ∷ again ms else again ms

module _ (dm : DequeMap InflightMessage) where
  -- The channel works, and holds these messages.
  abbrev Holds : State dm → List (From × Publish) → Type 0
  Holds s ms = (s.tx ≡ working) × (s.forwarded ≡ ms)

  module _ (sq : SegQueue (From × Publish)) where
    pub pop_all_lem :
        (n : ℕ) (q : Queue sq) (xs : List (From × Publish))
        → sq.items q.inner ≡ xs
        → length xs < n
        → (pop_all dm sq n q).0 ≡ xs
    unfolding pop_all
    pop_all_lem zero q xs e h = absurd (omega arith)
    pop_all_lem (suc n) q [] e h =
        let (got, left) = pop_lem sq q in
        let nothing : (Queue.pop sq q).0 ≡ none = got ∙ ap head? e in rw (nothing, pop_all) refl
    pop_all_lem (suc n) q (x ∷ xs) e h =
        let (got, left) = pop_lem sq q in
        let first : (Queue.pop sq q).0 ≡ some x = got ∙ ap head? e in
        rw (first, pop_all)
          (ap (λ z. x ∷ z) (pop_all_lem n (Queue.pop sq q).1 xs (left ∙ ap tail e) (omega arith)))

module _ {L : Type 0} ⦃l : Key L⦄ (tn : TopicNames L) (dm : DequeMap InflightMessage)
    (sq : SegQueue (From × Publish))
    (load : String → Option String → Option (List StoredMessage)) where
  -- What the new session has on its channel before the messages of the one before it.
  abbrev pub before : Bool → SessionOfflineInfo → Owner tn dm → List (From × Publish)
  before clear info o =
      if clear
      then o.state.forwarded
      else (transfer_subscriptions tn dm load info.subscriptions o).state.forwarded
