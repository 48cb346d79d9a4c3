-- ===== src/Acl/Decides.antt =====
-- By which rules rmqtt-plugins/rmqtt-acl lets a client publish and subscribe.
use Prim.Native.String.{String}
use mathlib.Core.Logic.{◌↔◌}
use rmqtt.Common.{
  ℕ, ◌≡◌, ◌≢◌, refl, Bool, true, false, ◌&&◌, none, List, [], ◌∷◌, Key, unit_key, arith, Bool-cases,
  inl, inr, ◌⊎◌,
}
use rmqtt.Types.{string_key, Publish, QoS, at_most_once, at_least_once, exactly_once}
use rmqtt.Subscriptions.{Subscribe, qos}
use rmqtt.Subscriptions.Answers.{SubscribeReturn, new_success, new_failure, granted, failed}
use rmqtt.TopicTree.Levels.{Levels}
use rmqtt.Router.Names.{TopicNames}
use rmqtt.Hooks.{Client, PublishAclResult, rejected, publish_acl_result, subscribe_acl_result}
use rmqtt.Acl.{
  Access, allow, deny, Control, is_allow, hit, controls_publish, controls_subscribe, published,
  subscribed, Rule, is_match_topic, check_publish, check_subscribe,
}
use rmqtt.Acl.Covers.{Covers, is_match_topic-Covers}

-- The first rule that a client meets decides, and without one nothing is allowed.
module _ {R : Type 0} (access : R → Access) (P : R → Type 0) where
  abbrev pub FirstAllows : List R → Type 0
  FirstAllows [] = ⊥
  FirstAllows (r ∷ rs) = (P r × (access r ≡ allow)) ⊎ ((¬ P r) × FirstAllows rs)

  skip_rule :
      (X : Type 0) (r : R) (rs : List R) → ¬ P r → X ↔ FirstAllows rs → X ↔ FirstAllows (r ∷ rs)
  skip_rule X r rs n h =
      (λ x. inr (n, h.0 x), λ f. elim f [ inl (q, e) ↦ absurd (n q) | inr (m, g) ↦ h.1 g ])

  take_rule :
      (X : Type 0) (r : R) (rs : List R) → P r → X ↔ (access r ≡ allow) → X ↔ FirstAllows (r ∷ rs)
  take_rule X r rs q h =
      (λ x. inl (q, h.0 x), λ f. elim f [ inl (q', e) ↦ h.1 e | inr (m, g) ↦ absurd (m q) ])

published_iff :
    (a : Access) (d : Bool)
    → (published a d ≡ publish_acl_result PublishAclResult.allow) ↔ (a ≡ allow)
published_iff allow d = (λ _. refl, λ _. refl)
published_iff deny d = (λ e. absurd (cc e), λ e. absurd (cc e))

refused_answer :
    (q : QoS)
    → subscribe_acl_result (new_failure (failed 135)) ≢ subscribe_acl_result (new_success q none)
unfolding new_success new_failure granted
refused_answer at_most_once e = cc
refused_answer at_least_once e = cc
refused_answer exactly_once e = cc

subscribed_iff :
    (a : Access) (sub : Subscribe)
    → (subscribed a sub ≡ subscribe_acl_result (new_success (qos sub.opts) none)) ↔ (a ≡ allow)
unfolding new_success new_failure granted
subscribed_iff allow sub = (λ _. refl, λ _. refl)
subscribed_iff deny sub = (λ e. absurd (refused_answer (qos sub.opts) e), λ e. absurd (cc e))

module _ {L : Type 0} ⦃l : Key L⦄ (lv : Levels L) (tn : TopicNames L) (ip : ℕ → String) where
  -- A rule that a client meets when it publishes on a topic, or subscribes to a topic filter.
  abbrev pub MeetsRule : (Control → Bool) → Client → String → Rule lv tn → Type 0
  MeetsRule controls c s rule =
      (controls rule.control ≡ true)
      × ((hit ip rule.user c (is_allow rule.access)).0 ≡ true)
      × Covers lv tn rule.topics s

  meets_rule : (Control → Bool) → Client → String → Rule lv tn → Bool
  meets_rule controls c s rule =
      controls rule.control
      && ((hit ip rule.user c (is_allow rule.access)).0 && is_match_topic lv tn rule.topics s)

  meets_rule_lem :
      (controls : Control → Bool) (c : Client) (s : String) (rule : Rule lv tn)
      → (meets_rule controls c s rule ≡ true) ↔ MeetsRule controls c s rule
  unfolding meets_rule
  meets_rule_lem controls c s rule =
      let covered = is_match_topic-Covers lv tn rule.topics s in
      (
        λ h. (ground (arith, h), ground (arith, h), covered.0 (ground (arith, h))),
        λ (e, f, g). let matched = covered.1 g in ground arith,
      )

  -- One rule of either loop.
  rule_step :
      (controls : Control → Bool) (c : Client) (s : String) (rule : Rule lv tn)
      (rules : List (Rule lv tn)) (X : Type 0)
      → (meets_rule controls c s rule ≡ false
          → X ↔ FirstAllows (λ r. r.access) (MeetsRule controls c s) rules)
      → (meets_rule controls c s rule ≡ true → X ↔ (rule.access ≡ allow))
      → X ↔ FirstAllows (λ r. r.access) (MeetsRule controls c s) (rule ∷ rules)
  rule_step controls c s rule rules X skip take =
      let meets = MeetsRule controls c s in
      let met = meets_rule_lem controls c s rule in
      elim (Bool-cases (meets_rule controls c s rule)) [
        | inl e ↦ take_rule (λ (r : Rule lv tn). r.access) meets X rule rules (met.0 e) (take e)
        | inr e ↦
            skip_rule (λ (r : Rule lv tn). r.access) meets X rule rules
              (λ m. let e' = met.1 m in absurd (ground arith)) (skip e)
      ]

  pub check_publish-FirstAllows :
      (d : Bool) (rules : List (Rule lv tn)) (c : Client) (p : Publish)
      → (check_publish lv tn ip d rules c p ≡ publish_acl_result PublishAclResult.allow)
        ↔ FirstAllows (λ r. r.access) (MeetsRule controls_publish c p.topic) rules
  unfolding check_publish meets_rule
  check_publish-FirstAllows d [] c p = (λ e. absurd (cc e), λ f. elim f [ ])
  check_publish-FirstAllows d (rule ∷ rules) c p =
      rule_step controls_publish c p.topic rule rules
        (check_publish lv tn ip d (rule ∷ rules) c p ≡ publish_acl_result PublishAclResult.allow)
        (λ e.
          let skipped : check_publish lv tn ip d (rule ∷ rules) c p
              ≡ check_publish lv tn ip d rules c p =
            ground arith in
          rw skipped (check_publish-FirstAllows d rules c p))
        (λ e.
          let taken : check_publish lv tn ip d (rule ∷ rules) c p ≡ published rule.access d =
            ground arith in
          rw taken (published_iff rule.access d))

  pub check_subscribe-FirstAllows :
      (rules : List (Rule lv tn)) (c : Client) (sub : Subscribe)
      → (check_subscribe lv tn ip rules c sub
          ≡ subscribe_acl_result (new_success (qos sub.opts) none))
        ↔ FirstAllows (λ r. r.access) (MeetsRule controls_subscribe c sub.topic_filter) rules
  unfolding check_subscribe meets_rule
  check_subscribe-FirstAllows [] c sub =
      (λ e. absurd (refused_answer (qos sub.opts) e), λ f. elim f [ ])
  check_subscribe-FirstAllows (rule ∷ rules) c sub =
      rule_step controls_subscribe c sub.topic_filter rule rules
        (check_subscribe lv tn ip (rule ∷ rules) c sub
          ≡ subscribe_acl_result (new_success (qos sub.opts) none))
        (λ e.
          let skipped : check_subscribe lv tn ip (rule ∷ rules) c sub
              ≡ check_subscribe lv tn ip rules c sub =
            ground arith in
          rw skipped (check_subscribe-FirstAllows rules c sub))
        (λ e.
          let taken : check_subscribe lv tn ip (rule ∷ rules) c sub ≡ subscribed rule.access sub =
            ground arith in
          rw taken (subscribed_iff rule.access sub))

  -- The loops answer in the form of their hook.
  pub check_publish_result :
      (d : Bool) (rules : List (Rule lv tn)) (c : Client) (p : Publish)
      → (r : PublishAclResult) × (check_publish lv tn ip d rules c p ≡ publish_acl_result r)
  unfolding check_publish meets_rule
  check_publish_result d [] c p = (rejected d, refl)
  check_publish_result d (rule ∷ rules) c p =
      let (r, later) = check_publish_result d rules c p in
      elim (Bool-cases (meets_rule controls_publish c p.topic rule)) [
        | inr e ↦ (r, ground (arith, later))
        | inl e ↦ elim (Bool-cases (is_allow rule.access)) [
          | inl a ↦ (PublishAclResult.allow, ground arith)
          | inr a ↦ (rejected d, ground arith)
        ]
      ]

  pub check_subscribe_result :
      (rules : List (Rule lv tn)) (c : Client) (sub : Subscribe)
      → (r : SubscribeReturn) × (check_subscribe lv tn ip rules c sub ≡ subscribe_acl_result r)
  unfolding check_subscribe meets_rule
  check_subscribe_result [] c sub = (new_failure (failed 135), refl)
  check_subscribe_result (rule ∷ rules) c sub =
      let (r, later) = check_subscribe_result rules c sub in
      elim (Bool-cases (meets_rule controls_subscribe c sub.topic_filter rule)) [
        | inr e ↦ (r, ground (arith, later))
        | inl e ↦ elim (Bool-cases (is_allow rule.access)) [
          | inl a ↦ (new_success (qos sub.opts) none, ground arith)
          | inr a ↦ (new_failure (failed 135), ground arith)
        ]
      ]
