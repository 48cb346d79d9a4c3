-- ===== src/Session/Subscribing/Granted.antt =====
-- What `subscribe` of rmqtt/src/broker/session.rs grants, and what it leaves where it does not.
use rmqtt.Common.{
  ◌==◌, ◌≤◌, ◌≡◌, refl, sym, ◌∙◌, ap, subst, Option, none, some, Key, get, arith, Bool-cases,
  Option-cases, inl, inr, ◌⊎◌,
}
use rmqtt.Types.{
  QoS, at_most_once, at_least_once, exactly_once, value, less_value, string_key, Identity,
}
use rmqtt.TopicTree.Levels.{Levels}
use rmqtt.Router.Names.{TopicNames}
use rmqtt.Router as Router
use rmqtt.Subscriptions.{Subscribe, SubscriptionOptions, v3, v5, qos, set_qos}
use rmqtt.Subscriptions.Answers.{SubscribeReturn, success, success_of, new_success, granted}
use rmqtt.SessionSubs as SessionSubs
use rmqtt.Hooks.{Client, subscribe_acl}
use rmqtt.Shared as Shared
use rmqtt.Session.Subscribing.{
  ok, err, other, too_many_subscriptions, too_many_topic_levels, Answer, let_in, turned_away,
  lower_qos, Desk, Sources, send_retained, send_storaged, welcome, admit, enter, asked, subscribe,
}
use rmqtt.Session.Subscribing.Limits.{WithinLimits, Answered, limits_cases}

qos-set_qos : (q : QoS) (opts : SubscriptionOptions) → qos (set_qos q opts) ≡ q
qos-set_qos q (v3 opts) = refl
qos-set_qos q (v5 opts) = refl

less_value_both :
    (a b : QoS) → (value (less_value a b) ≤ value a) × (value (less_value a b) ≤ value b)
less_value_both a b = ground arith

lower_qos_both :
    (q : QoS) (sub : Subscribe)
    → (value (qos (lower_qos q sub).opts) ≤ value (qos sub.opts))
      × (value (qos (lower_qos q sub).opts) ≤ value q)
lower_qos_both q sub =
    rw (qos-set_qos (less_value (qos sub.opts) q) sub.opts) (less_value_both (qos sub.opts) q)

success-new_success :
    (q : QoS) (prev : Option SubscriptionOptions) → success (new_success q prev) ≡ some q
unfolding success success_of new_success granted
success-new_success at_most_once prev = refl
success-new_success at_least_once prev = refl
success-new_success exactly_once prev = refl

-- No answer says that a limit of the listener is passed.
abbrev NoLimit : Answer → Type 0
NoLimit (ok r) = Unit
NoLimit (err too_many_subscriptions) = ⊥
NoLimit (err too_many_topic_levels) = ⊥
NoLimit (err other) = Unit

module _ {L : Type 0} ⦃l : Key L⦄ (lv : Levels L) (tn : TopicNames L) (s : Sources) where
  -- A granted answer is that of the table.
  welcome_result :
      (id : Identity) (sub : Subscribe) (ret r : SubscribeReturn) (d : Desk lv tn)
      → (welcome lv tn s id sub ret d).0 ≡ ok r
      → r ≡ ret
  unfolding welcome
  welcome_result id sub ret r d e = elim (Option-cases (success ret)) [
    | inl f ↦
        let same : ok ret ≡ ok r = sym (rw (f, welcome) refl) ∙ e in
        let level : ret ≡ r = cc same in sym level
    | inr (q, f) ↦ elim (Option-cases (send_retained lv tn s id sub ret q d).0) [
      | inl g ↦
          let clash : err other ≡ ok r = sym (rw (f, welcome, g) refl) ∙ e in absurd (cc clash)
      | inr (es, g) ↦
          elim (Bool-cases
            (send_storaged lv tn s id sub q es (send_retained lv tn s id sub ret q d).1).0) [
              | inl h ↦
                  let same : ok ret ≡ ok r = sym (rw (f, welcome, g, h) refl) ∙ e in
                  let level : ret ≡ r = cc same in sym level
              | inr h ↦
                  let clash : err other ≡ ok r = sym (rw (f, welcome, g, h) refl) ∙ e in
                  absurd (cc clash)
            ]
    ]
  ]

  shared_result :
      (id : Identity) (sub : Subscribe) (b : Shared.Node lv tn) (r : SubscribeReturn)
      → (Shared.subscribe lv tn id sub b).0 ≡ some r
      → success r ≡ some (qos sub.opts)
  unfolding Shared.subscribe
  shared_result id sub b r e = elim (Option-cases (get id.client_id b.peers)) [
    | inl f ↦
        let clash : ◌≡◌ {A = Option SubscribeReturn} none (some r) =
          sym (rw (f, Shared.subscribe) refl) ∙ e in
        absurd (cc clash)
    | inr (peer, f) ↦ elim (Bool-cases (peer.id.node_id == b.node_id)) [
      | inr g ↦
          let clash : ◌≡◌ {A = Option SubscribeReturn} none (some r) =
            sym (rw (f, Shared.subscribe, g) refl) ∙ e in
          absurd (cc clash)
      | inl g ↦ elim (Option-cases (Router.add tn sub.topic_filter id sub.opts b.router).0) [
        | inl h ↦
            let clash : ◌≡◌ {A = Option SubscribeReturn} none (some r) =
              sym (rw (f, Shared.subscribe, g, h) refl) ∙ e in
            absurd (cc clash)
        | inr (u, h) ↦
            let prev = (SessionSubs.add sub.topic_filter sub.opts peer.subscriptions).0 in
            let same : some (new_success (qos sub.opts) prev) ≡ some r =
              sym (rw (f, Shared.subscribe, g, h) refl) ∙ e in
            let level : new_success (qos sub.opts) prev ≡ r = cc same in
            ap success (sym level) ∙ success-new_success (qos sub.opts) prev
      ]
    ]
  ]

  enter_result :
      (c : Client) (sub : Subscribe) (d : Desk lv tn) (r : SubscribeReturn)
      → (enter lv tn s c sub d).0 ≡ ok r
      → success r ≡ some (qos sub.opts)
  unfolding enter
  enter_result c sub d r e = elim (Option-cases (Shared.subscribe lv tn c.id sub d.node).0) [
    | inl f ↦ let clash : err other ≡ ok r = sym (rw (f, enter) refl) ∙ e in absurd (cc clash)
    | inr (ret, f) ↦
        let d' : Desk lv tn = record d { node = (Shared.subscribe lv tn c.id sub d.node).1 } in
        let level = welcome_result c.id sub ret r d' (sym (rw (f, enter) refl) ∙ e) in
        rw level (shared_result c.id sub d.node ret f)
  ]

  -- What the hooks let in has no higher quality, and what they turn away is no grant.
  admit_cases :
      (c : Client) (sub : Subscribe)
      → ((sub' : Subscribe) × (admit lv tn s c sub ≡ let_in sub')
          × (value (qos sub'.opts) ≤ value (qos sub.opts)))
        ⊎ ((r : SubscribeReturn) × (admit lv tn s c sub ≡ turned_away r) × (success r ≡ none))
  unfolding admit
  admit_cases c sub = elim (Option-cases (subscribe_acl s.handlers c sub)) [
    | inl f ↦ inl (sub, rw (f, admit) refl, omega arith)
    | inr (r, f) ↦ elim (Option-cases (success r)) [
      | inl g ↦ inr (r, rw (f, admit, g) refl, g)
      | inr (q, g) ↦ inl (lower_qos q sub, rw (f, admit, g) refl, (lower_qos_both q sub).0)
    ]
  ]

  asked_bounds :
      (sub : Subscribe)
      → (value (qos (asked lv tn s sub).opts) ≤ value (qos sub.opts))
        × (value (qos (asked lv tn s sub).opts) ≤ value s.listener.max_qos_allowed)
  unfolding asked
  asked_bounds sub = lower_qos_both s.listener.max_qos_allowed sub

  welcome_error :
      (id : Identity) (sub : Subscribe) (ret : SubscribeReturn) (d : Desk lv tn)
      → NoLimit (welcome lv tn s id sub ret d).0
  unfolding welcome
  welcome_error id sub ret d = elim (Option-cases (success ret)) [
    | inl f ↦ rw (f, welcome) tt
    | inr (q, f) ↦ elim (Option-cases (send_retained lv tn s id sub ret q d).0) [
      | inl g ↦ rw (f, welcome, g) tt
      | inr (es, g) ↦
          elim (Bool-cases
            (send_storaged lv tn s id sub q es (send_retained lv tn s id sub ret q d).1).0) [
              | inl h ↦ rw (f, welcome, g, h) tt
              | inr h ↦ rw (f, welcome, g, h) tt
            ]
    ]
  ]

  enter_error : (c : Client) (sub : Subscribe) (d : Desk lv tn) → NoLimit (enter lv tn s c sub d).0
  unfolding enter
  enter_error c sub d = elim (Option-cases (Shared.subscribe lv tn c.id sub d.node).0) [
    | inl f ↦ rw (f, enter) tt
    | inr (ret, f) ↦
        rw (f, enter)
          (welcome_error c.id sub ret
            (record d { node = (Shared.subscribe lv tn c.id sub d.node).1 }))
  ]

  entered :
      (c : Client) (sub sub' : Subscribe) (d : Desk lv tn) (a : Answer) (d' : Desk lv tn)
      → (enter lv tn s c sub' d).0 ≡ a
      → WithinLimits lv tn s c sub d
      → value (qos sub'.opts) ≤ value (qos (asked lv tn s sub).opts)
      → Answered lv tn s c sub d a d'
  entered c sub sub' d (ok r) d' e within lower =
      let given = enter_result c sub' d r e in
      let (low, high) = asked_bounds sub in
      (within, inr (qos sub'.opts, given, omega (arith, lower, low), omega (arith, lower, high)))
  entered c sub sub' d (err too_many_subscriptions) d' e within lower =
      let never : NoLimit (err too_many_subscriptions) = subst NoLimit e (enter_error c sub' d) in
      absurd never
  entered c sub sub' d (err too_many_topic_levels) d' e within lower =
      let never : NoLimit (err too_many_topic_levels) = subst NoLimit e (enter_error c sub' d) in
      absurd never
  entered c sub sub' d (err other) d' e within lower = inr within

  -- What `_subscribe` answers, and what it leaves. An answer of the table or of the hooks comes only within
  -- the listener's limits, if it has any: with fewer subscriptions than it allows, and a topic filter of no
  -- more levels. If
  -- it is no grant, nothing was changed; and if it is one, its quality is neither above the one that was asked
  -- for nor above the one that the listener allows. The error of too many subscriptions comes only if there
  -- are as many as are allowed, and that of too many levels only if there are more, and both change nothing.
  -- Any other error comes within the limits, or from a topic filter that is no legal one and then changes
  -- nothing.
  pub subscribe_lem :
      (c : Client) (sub : Subscribe) (d : Desk lv tn)
      → let (a, d') = subscribe lv tn s c sub d in Answered lv tn s c sub d a d'
  unfolding subscribe
  subscribe_lem c sub d = elim (limits_cases lv tn s c sub d) [
    | inr (x, f, why) ↦ rw (f, subscribe) why
    | inl (f, within) ↦ elim (admit_cases c (asked lv tn s sub)) [
      | inr (a, g, no_grant) ↦ rw (f, subscribe, g) (within, inl (no_grant, refl))
      | inl (sub', g, lower) ↦
          rw (f, subscribe, g)
            (entered c sub sub' d (enter lv tn s c sub' d).0 (enter lv tn s c sub' d).1 refl within
              lower)
    ]
  ]
