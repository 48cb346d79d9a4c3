-- ===== src/Session/Publishing/Accounted.antt =====
-- What becomes of a message that is allowed, in `publish` of rmqtt/src/broker/session.rs.
use Prim.Native.String.{String}
use rmqtt.Common.{
  ℕ, ◌≡◌, ◌≢◌, refl, sym, ◌∙◌, ap, subst, true, ◌&&◌, Option, none, some, List, [], ◌∷◌, ◌++◌, map,
  append-nil, if◌then◌else◌, get, Key, arith, Bool-cases, inl, inr, ◌⊎◌,
}
use rmqtt.Types.{Publish, From, string_key}
use rmqtt.Fitter.{message_expiry_interval}
use rmqtt.TopicTree.Levels.{Levels}
use rmqtt.Router.Names.{TopicNames}
use rmqtt.Hooks.{Client, PublishAclResult, publish_acl}
use rmqtt.Shared.{Node, Forwarded, arrived, failed, forwards, Undelivered}
use rmqtt.Shared.Inboxes.{addressed, after, lost}
use rmqtt.Shared.Delivered.{own_relations, inbox-forwards, forwards_lem}
use rmqtt.Session.{or_same}
use rmqtt.Session.Publishing.{
  published, ForStorage, to_dropped, Broker, World, own_msg_id, retain_message, report,
  store_message, forward_all, expiry_of, publish,
}

module _ {L : Type 0} ⦃l : Key L⦄ (lv : Levels L) (tn : TopicNames L) (R : Type 0)
    (w : World lv tn R) where
  -- The retained messages take the message, if it is to be retained: if it says so and the listener lets it.
  abbrev pub Retains : From → Publish → Broker lv tn R → Type 0
  Retains from p b =
      (w.listener.retain_available && p.retain) ≡ true
      → (w.retain_set p.topic (record { msg_id = own_msg_id lv tn R w; from = from; publish = p })
          (expiry_of lv tn R w p) b.retained).0
        ≡ true

  retain_kept :
      (from : From) (p : Publish) (e : Option ℕ) (b : Broker lv tn R)
      → let b' = (retain_message lv tn R w from p e b).1 in
        (b'.node ≡ b.node) × (b'.stored ≡ b.stored) × (b'.dropped ≡ b.dropped)
  unfolding retain_message
  retain_kept from p e b = (ground arith, ground arith, ground arith)

  retain_ok :
      (from : From) (p : Publish) (e : Option ℕ) (b : Broker lv tn R)
      → ((w.listener.retain_available && p.retain) ≡ true
          → (w.retain_set p.topic
              (record { msg_id = own_msg_id lv tn R w; from = from; publish = p })
              e
              b.retained).0
            ≡ true)
      → (retain_message lv tn R w from p e b).0 ≡ true
  unfolding retain_message
  retain_ok from p e b h = elim (Bool-cases (w.listener.retain_available && p.retain)) [
    | inl f ↦ rw (f, retain_message) (h f)
    | inr f ↦ rw (f, retain_message) refl
  ]

  publish_allowed :
      (from : From) (c : Client) (p : Publish) (b : Broker lv tn R)
      → let p' = or_same p (w.hooked from p) in
        publish_acl w.handlers c p' ≡ PublishAclResult.allow
        → (forward_all lv tn R w from p' (expiry_of lv tn R w p') b).0 ≡ true
        → publish lv tn R w from c p b
          ≡ (published, (forward_all lv tn R w from p' (expiry_of lv tn R w p') b).1)
  unfolding publish
  publish_allowed from c p b a ok = rw (a, publish, ok) refl

  -- What reporting and storing leave.
  report_kept :
      (from : From) (res : Forwarded) (b : Broker lv tn R)
      → ((report lv tn R w from res b).1.node ≡ b.node)
        × ((report lv tn R w from res b).1.stored ≡ b.stored)
  report_kept from (arrived none) b = (refl, refl)
  report_kept from (arrived (some ids)) b = (refl, refl)
  report_kept from (failed errs) b = (refl, refl)

  report_dropped :
      (from : From) (res : Forwarded) (errs : List Undelivered) (b : Broker lv tn R)
      → ((errs ≡ [])
          × ((ids : Option (List (String × Option (String × String)))) × (res ≡ arrived ids)))
        ⊎ ((errs ≢ []) × (res ≡ failed errs))
      → (report lv tn R w from res b).1.dropped ≡ b.dropped ++ map to_dropped errs
  report_dropped from (arrived none) errs b (inl (e, rest)) = rw e (sym (append-nil b.dropped))
  report_dropped from (arrived (some ids)) errs b (inl (e, rest)) =
      rw e (sym (append-nil b.dropped))
  report_dropped from (failed es) errs b (inl (e, (ids, clash))) = cc
  report_dropped from (arrived ids) errs b (inr (e, clash)) = cc
  report_dropped from (failed es) errs b (inr (e, level)) =
      let all_errors : es ≡ errs = cc level in ap (λ z. b.dropped ++ map to_dropped z) all_errors

  store_kept :
      (from : From) (p : Publish) (e : Option ℕ)
      (ids : Option (List (String × Option (String × String)))) (b : Broker lv tn R)
      → let b' = store_message lv tn R w from p e ids b in
        (b'.node ≡ b.node) × (b'.dropped ≡ b.dropped)
  store_kept from p none ids b = (refl, refl)
  store_kept from p (some e) ids b = (ground arith, ground arith)

  -- What the storage gets of a message.
  abbrev pub for_storage :
      From → Publish → Option (List (String × Option (String × String))) → List ForStorage
  for_storage from p ids =
      if w.storage_available
      then record {
        msg_id = w.next_msg_id;
        from = from;
        publish = p;
        expiry_interval = message_expiry_interval w.listener p;
        sub_client_ids = ids;
      }
        ∷ []
      else []

  stored_once :
      (from : From) (p : Publish) (ids : Option (List (String × Option (String × String))))
      (b : Broker lv tn R)
      → (store_message lv tn R w from p (expiry_of lv tn R w p) ids b).stored
        ≡ b.stored ++ for_storage from p ids
  stored_once from p ids b = elim (Bool-cases w.storage_available) [
    | inl e ↦ ground arith
    | inr e ↦ elim (Bool-cases (w.listener.retain_available && p.retain)) [
      | inl f ↦ ground (arith, append-nil b.stored)
      | inr f ↦ ground (arith, append-nil b.stored)
    ]
  ]

  -- A message on a legal topic that the hooks let through, where the retained messages take it if it is to
  -- be retained and the listener keeps retained messages: it is published; every client of the node has it once for each of its relations, behind
  -- what it had; whatever did not arrive is reported as dropped with its reason, and nothing else is; and
  -- the storage of messages gets it once, if it is enabled.
  pub publish_lem :
      (from : From) (c : Client) (p : Publish) (b : Broker lv tn R) (topic : List L) (d : String)
      → publish_acl w.handlers c (or_same p (w.hooked from p)) ≡ PublishAclResult.allow
      → tn.from_str (or_same p (w.hooked from p)).topic ≡ some topic
      → Retains from (or_same p (w.hooked from p)) b
      → let p' = or_same p (w.hooked from p) in
        let rels = own_relations lv tn w.random w.is_online from topic b.node in
        let (outcome, b') = publish lv tn R w from c p b in
        (outcome ≡ published)
        × (get d b'.node.peers ≡ after (addressed from p' d rels) (get d b.node.peers))
        × (b'.dropped ≡ b.dropped ++ map to_dropped (lost from p' b.node.peers rels))
        × ((ids : Option (List (String × Option (String × String)))) × (b'.stored
              ≡ b.stored ++ for_storage from p' ids))
  unfolding forward_all
  publish_lem from c p b topic d a legal kept =
      let p' = or_same p (w.hooked from p) in
      let e = expiry_of lv tn R w p' in
      let b1 = (retain_message lv tn R w from p' e b).1 in
      let (same_node, same_stored, same_dropped) = retain_kept from p' e b in
      let ok = retain_ok from p' e b kept in
      let sent = forwards lv tn w.random w.is_online from p' b1.node in
      let b2 : Broker lv tn R = record b1 { node = sent.1 } in
      let told = report lv tn R w from sent.0 b2 in
      let end = store_message lv tn R w from p' e told.0 told.1 in
      let all : forward_all lv tn R w from p' e b ≡ (true, end) = rw (ok, forward_all) refl in
      let done = publish_allowed from c p b a (ap (λ z. z.0) all) in
      let at_end : (publish lv tn R w from c p b).1 ≡ end =
        ap (λ z. z.1) done ∙ ap (λ z. z.1) all in
      let run = λ (n : Node lv tn). forwards lv tn w.random w.is_online from p' n in
      let node_end : end.node ≡ (run b.node).1 =
        (store_kept from p' e told.0 told.1).0
        ∙ ((report_kept from sent.0 b2).0 ∙ ap (λ n. (run n).1) same_node) in
      let rels = own_relations lv tn w.random w.is_online from topic b.node in
      let errs = lost from p' b.node.peers rels in
      let answer =
        subst
          (λ (r : Forwarded).
            ((errs ≡ [])
              × ((ids : Option (List (String × Option (String × String)))) × (r ≡ arrived ids)))
            ⊎ ((errs ≢ []) × (r ≡ failed errs)))
          (sym (ap (λ n. (run n).0) same_node))
          (forwards_lem lv tn w.random w.is_online from p' topic b.node d legal) in
      (
        ap (λ z. z.0) done,
        ap (λ (z : Broker lv tn R). get d z.node.peers) at_end
            ∙ (ap (λ (n : Node lv tn). get d n.peers) node_end
                ∙ inbox-forwards lv tn w.random w.is_online from p' topic b.node d legal),
        ap (λ (z : Broker lv tn R). z.dropped) at_end
            ∙ ((store_kept from p' e told.0 told.1).1
                ∙ (report_dropped from sent.0 errs b2 answer
                    ∙ ap (λ z. z ++ map to_dropped errs) same_dropped)),
        (
          told.0,
          ap (λ (z : Broker lv tn R). z.stored) at_end
              ∙ (stored_once from p' told.0 told.1
                  ∙ ap (λ z. z ++ for_storage from p' told.0)
                      ((report_kept from sent.0 b2).1 ∙ same_stored)),
        ),
      )
