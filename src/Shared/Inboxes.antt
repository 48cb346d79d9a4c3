-- ===== src/Shared/Inboxes.antt =====
-- What `forwards_to` of rmqtt/src/broker/default.rs puts on the channels of the clients.
use Prim.Native.String.{String}
use rmqtt.Common.{
  ◌≡◌, refl, sym, ◌∙◌, ap, true, false, Option, none, some, List, [], ◌∷◌, ◌++◌, append_assoc,
  append-nil, if◌then◌else◌, get, get-put, same, same→eq, arith, Bool-cases, Option-cases, inl, inr,
}
use rmqtt.Types.{Publish, From, string_key}
use rmqtt.Subscriptions.Collector.{SubRelation}
use rmqtt.Session.{error}
use rmqtt.Shared.{Peer, Peers, Undelivered, push_inbox, adapt, forward_one, forwards_to}

-- The messages for one client, in the order of its relations.
abbrev pub addressed : From → Publish → String → List SubRelation → List (From × Publish)
addressed from p c [] = []
addressed from p c (rel ∷ rels) =
    if same rel.client_id c
    then (from, adapt p rel) ∷ addressed from p c rels
    else addressed from p c rels

-- The session of a client after it got messages; where its channel is closed it gets none.
abbrev pub after : List (From × Publish) → Option Peer → Option Peer
after ms none = none
after ms (some peer) = some (if peer.closed then peer else record peer { inbox = peer.inbox ++ ms })

-- The message of a relation, if it does not arrive; then the messages that do not arrive.
abbrev pub lost_one : From → Publish → SubRelation → Option Peer → List Undelivered
lost_one from p rel none = (rel.client_id, from, adapt p rel, error "Tx is None") ∷ []
lost_one from p rel (some peer) =
    if peer.closed
    then (peer.id.client_id, from, adapt p rel, error "Connection Tx is closed") ∷ []
    else []

abbrev pub lost : From → Publish → Peers → List SubRelation → List Undelivered
lost from p peers [] = []
lost from p peers (rel ∷ rels) =
    lost_one from p rel (get rel.client_id peers) ++ lost from p peers rels

lost_one-after :
    (from : From) (p : Publish) (rel : SubRelation) (ms : List (From × Publish)) (o : Option Peer)
    → lost_one from p rel (after ms o) ≡ lost_one from p rel o
lost_one-after from p rel ms none = refl
lost_one-after from p rel ms (some peer) = ground arith

after_nothing : (o : Option Peer) → after [] o ≡ o
after_nothing none = refl
after_nothing (some peer) = ground (arith, append-nil peer.inbox)

after_more :
    (ms ns : List (From × Publish)) (o : Option Peer) → after ns (after ms o) ≡ after (ms ++ ns) o
after_more ms ns none = refl
after_more ms ns (some peer) = elim (Bool-cases peer.closed) [
  | inl e ↦ ground arith
  | inr e ↦ ground (arith, append_assoc peer.inbox ms ns)
]

module _ (from : From) (p : Publish) where
  forward_one-after :
      (c : String) (rel : SubRelation) (peers : Peers)
      → get c (forward_one from p rel peers).1 ≡ after (addressed from p c (rel ∷ [])) (get c peers)
  unfolding forward_one
  forward_one-after c rel peers = elim (Bool-cases (same rel.client_id c)) [
    | inl this ↦
        let level = same→eq rel.client_id c this in
        by_peer (get rel.client_id peers) refl (ap (λ z. get z peers) (sym level)) this
    | inr other ↦ unaddressed (get rel.client_id peers) refl other
  ]
    where
      by_peer :
          (o : Option Peer)
          → get rel.client_id peers ≡ o
          → get c peers ≡ get rel.client_id peers
          → same rel.client_id c ≡ true
          → get c (forward_one from p rel peers).1
            ≡ after (addressed from p c (rel ∷ [])) (get c peers)
      by_peer none e same_entry this = ground arith
      by_peer (some peer) e same_entry this =
          ground (arith, get-put rel.client_id c (push_inbox (from, adapt p rel) peer) peers)

      unaddressed :
          (o : Option Peer)
          → get rel.client_id peers ≡ o
          → same rel.client_id c ≡ false
          → get c (forward_one from p rel peers).1
            ≡ after (addressed from p c (rel ∷ [])) (get c peers)
      unaddressed none e other = ground (arith, after_nothing (get c peers))
      unaddressed (some peer) e other = ground (
        arith,
        after_nothing (get c peers),
        get-put rel.client_id c (push_inbox (from, adapt p rel) peer) peers,
      )

  addressed-cons :
      (c : String) (rel : SubRelation) (rels : List SubRelation)
      → addressed from p c (rel ∷ []) ++ addressed from p c rels ≡ addressed from p c (rel ∷ rels)
  addressed-cons c rel rels = ground arith

  -- After `forwards_to` the channel of every client has what it had and then, if it works, the message
  -- once for each of the client's relations, as that subscription gets it and in the order of the
  -- relations; a client that has no session, or whose channel is closed, is left as it was.
  pub inbox-forwards_to :
      (rels : List SubRelation) (peers : Peers) (c : String)
      → get c (forwards_to from p rels peers).1 ≡ after (addressed from p c rels) (get c peers)
  unfolding forwards_to
  inbox-forwards_to [] peers c = sym (after_nothing (get c peers))
  inbox-forwards_to (rel ∷ rels) peers c =
      inbox-forwards_to rels (forward_one from p rel peers).1 c
      ∙ (ap (after (addressed from p c rels)) (forward_one-after c rel peers)
          ∙ (after_more (addressed from p c (rel ∷ [])) (addressed from p c rels) (get c peers)
              ∙ ap (λ ms. after ms (get c peers)) (addressed-cons c rel rels)))

  -- An entry is as much lost after messages as before.
  lost_after :
      (rels : List SubRelation) (rel : SubRelation) (peers : Peers)
      → lost from p (forward_one from p rel peers).1 rels ≡ lost from p peers rels
  lost_after [] rel peers = refl
  lost_after (q ∷ rels) rel peers =
      let ms = addressed from p q.client_id (rel ∷ []) in
      let first =
        ap (lost_one from p q) (forward_one-after q.client_id rel peers)
        ∙ lost_one-after from p q ms (get q.client_id peers) in
      rw (first, lost_after rels rel peers) refl

  forward_one_lost :
      (rel : SubRelation) (peers : Peers)
      → (forward_one from p rel peers).0 ≡ lost_one from p rel (get rel.client_id peers)
  unfolding forward_one
  forward_one_lost rel peers = elim (Option-cases (get rel.client_id peers)) [
    | inl e ↦ ground arith
    | inr (peer, e) ↦ elim (Bool-cases peer.closed) [ inl f ↦ ground arith | inr f ↦ ground arith ]
  ]

  -- The errors of `forwards_to` are the messages of the relations whose clients have no session or a closed
  -- channel, in their order, and no others.
  pub forwards_to_lem :
      (rels : List SubRelation) (peers : Peers)
      → (forwards_to from p rels peers).0 ≡ lost from p peers rels
  unfolding forwards_to
  forwards_to_lem [] peers = refl
  forwards_to_lem (rel ∷ rels) peers =
      rw
        (
          forwards_to_lem rels (forward_one from p rel peers).1,
          lost_after rels rel peers,
          forward_one_lost rel peers,
        )
        refl
