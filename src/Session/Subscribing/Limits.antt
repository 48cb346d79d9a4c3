-- ===== src/Session/Subscribing/Limits.antt =====
-- The limits of the listener in `_subscribe` of rmqtt/src/broker/session.rs, and what its answers say.
use rmqtt.Common.{
  ltb, leb, ◌&&◌, ◌<◌, length, List, ◌≤◌, ◌≡◌, refl, none, some, Key, arith, Bool-cases,
  Option-cases, inl, inr, ◌⊎◌,
}
use rmqtt.Types.{QoS, value, string_key}
use rmqtt.TopicTree.Levels.{Levels}
use rmqtt.Router.Names.{TopicNames}
use rmqtt.Subscriptions.{Subscribe, qos}
use rmqtt.Subscriptions.Answers.{success}
use rmqtt.Hooks.{Client}
use rmqtt.Session.Subscribing.{
  ok, err, other, too_many_subscriptions, too_many_topic_levels, SubscribeError, Answer,
  subscriptions_of, Desk, Sources, over_limit,
}

module _ {L : Type 0} ⦃l : Key L⦄ (lv : Levels L) (tn : TopicNames L) (s : Sources) where
  -- The limits of the listener, where 0 is none: the subscriptions that the client has, and the levels of
  -- the topic filter.
  abbrev pub WithinLimits : Client → Subscribe → Desk lv tn → Type 0
  WithinLimits c sub d =
      ((s.listener.max_subscriptions ≡ 0)
        ⊎ (subscriptions_of lv tn c d < s.listener.max_subscriptions))
      × ((s.listener.max_topic_levels ≡ 0)
          ⊎ ((topic : List L) × (tn.from_str sub.topic_filter ≡ some topic)
              × (length topic ≤ s.listener.max_topic_levels)))

  -- What each answer to a subscription says, and what it leaves.
  abbrev pub Answered : Client → Subscribe → Desk lv tn → Answer → Desk lv tn → Type 0
  Answered c sub d (ok r) d' =
      WithinLimits c sub d
      × (((success r ≡ none) × (d' ≡ d))
          ⊎ ((q : QoS) × (success r ≡ some q)
              × (value q ≤ value (qos sub.opts))
              × (value q ≤ value s.listener.max_qos_allowed)))
  Answered c sub d (err too_many_subscriptions) d' =
      (0 < s.listener.max_subscriptions)
      × (s.listener.max_subscriptions ≤ subscriptions_of lv tn c d)
      × (d' ≡ d)
  Answered c sub d (err too_many_topic_levels) d' =
      (0 < s.listener.max_topic_levels)
      × ((topic : List L) × (tn.from_str sub.topic_filter ≡ some topic)
          × (s.listener.max_topic_levels < length topic))
      × (d' ≡ d)
  Answered c sub d (err other) d' =
      ((0 < s.listener.max_topic_levels) × (tn.from_str sub.topic_filter ≡ none) × (d' ≡ d))
      ⊎ WithinLimits c sub d

  pub limits_cases :
      (c : Client) (sub : Subscribe) (d : Desk lv tn)
      → ((over_limit lv tn s c sub d ≡ none) × WithinLimits c sub d)
        ⊎ ((e : SubscribeError) × (over_limit lv tn s c sub d ≡ some e)
            × Answered c sub d (err e) d)
  unfolding over_limit
  limits_cases c sub d =
      let many =
        ltb 0 s.listener.max_subscriptions
        && leb s.listener.max_subscriptions (subscriptions_of lv tn c d) in
      elim (Bool-cases many) [
        | inl e ↦
            inr
              (too_many_subscriptions, rw (e, over_limit) refl, (ground arith, ground arith, refl))
        | inr e ↦
            let few : (s.listener.max_subscriptions ≡ 0)
                ⊎ (subscriptions_of lv tn c d < s.listener.max_subscriptions) =
              ground arith in
            elim (Bool-cases (ltb 0 s.listener.max_topic_levels)) [
              | inr f ↦ inl (rw (e, over_limit, f) refl, (few, inl (ground arith)))
              | inl f ↦
                  let some_limit : 0 < s.listener.max_topic_levels = ground arith in
                  elim (Option-cases (tn.from_str sub.topic_filter)) [
                    | inl g ↦ inr (other, rw (e, over_limit, f, g) refl, inl (some_limit, g, refl))
                    | inr (topic, g) ↦
                        elim (Bool-cases (ltb s.listener.max_topic_levels (length topic))) [
                          | inl h ↦ inr (
                            too_many_topic_levels,
                            rw (e, over_limit, f, g, h) refl,
                            (some_limit, (topic, g, ground arith), refl),
                          )
                          | inr h ↦ inl (
                            rw (e, over_limit, f, g, h) refl,
                            (few, inr (topic, g, ground arith)),
                          )
                        ]
                  ]
            ]
      ]
