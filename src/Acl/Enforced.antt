-- ===== src/Acl/Enforced.antt =====
-- The rules of rmqtt-plugins/rmqtt-acl through the hooks of rmqtt/src/broker/default.rs: what a client gets to do.
use Prim.Native.String.{String}
use mathlib.Core.Logic.{◌↔◌}
use rmqtt.Common.{
  ℕ, ◌≡◌, refl, sym, ◌∙◌, ap, Bool, true, false, not, ◌&&◌, Option, none, some, [], ◌∷◌, ◌++◌, Key,
  arith,
}
use rmqtt.Types.{Publish}
use rmqtt.Subscriptions.{Subscribe, qos}
use rmqtt.Subscriptions.Answers.{SubscribeReturn, new_success}
use rmqtt.TopicTree.Levels.{Levels}
use rmqtt.Router.Names.{TopicNames}
use rmqtt.Hooks.{
  Client, Parameter, HookResult, Handlers, PublishAclResult, publish_acl_result,
  subscribe_acl_result, exec, exec_from, publish_acl, subscribe_acl, message_publish_check_acl,
  client_subscribe_check_acl,
}
use rmqtt.Acl.{
  PluginConfig, controls_publish, controls_subscribe, check_publish, check_subscribe, hook,
}
use rmqtt.Acl.Decides.{
  FirstAllows, MeetsRule, check_publish-FirstAllows, check_subscribe-FirstAllows,
  check_publish_result, check_subscribe_result,
}

abbrev pub all_off : Handlers → Bool
all_off [] = true
all_off ((key, entry) ∷ handlers) = not entry.enabled && all_off handlers

exec_from_off :
    (p : Parameter) (acc : Option HookResult) (off on : Handlers)
    → all_off off ≡ true
    → exec_from p acc (off ++ on) ≡ exec_from p acc on
unfolding exec_from
exec_from_off p acc [] on h = refl
exec_from_off p acc ((key, entry) ∷ off) on h = ground (arith, exec_from_off p acc off on)

publish_answer :
    (handlers : Handlers) (c : Client) (p : Publish) (r : PublishAclResult)
    → exec (message_publish_check_acl c p) handlers ≡ some (publish_acl_result r)
    → c.superuser ≡ false
    → publish_acl handlers c p ≡ r
unfolding publish_acl
publish_answer handlers c p r e h = ground arith

subscribe_answer :
    (handlers : Handlers) (c : Client) (sub : Subscribe) (r : SubscribeReturn)
    → exec (client_subscribe_check_acl c sub) handlers ≡ some (subscribe_acl_result r)
    → c.superuser ≡ false
    → subscribe_acl handlers c sub ≡ some r
unfolding subscribe_acl
subscribe_answer handlers c sub r e h = ground arith

module _ {L : Type 0} ⦃l : Key L⦄ (lv : Levels L) (tn : TopicNames L) (ip : ℕ → String) where
  -- The handler of the plugin, behind those that are not enabled.
  abbrev pub with_acl : Handlers → ℕ × String → PluginConfig lv tn → Handlers → Handlers
  with_acl off key cfg rest =
      off ++ (key, record { handler = hook lv tn ip cfg; enabled = true }) ∷ rest

  pub publish_acl-FirstAllows :
      (off rest : Handlers) (key : ℕ × String) (cfg : PluginConfig lv tn) (c : Client) (p : Publish)
      → all_off off ≡ true
      → c.superuser ≡ false
      → (publish_acl (with_acl off key cfg rest) c p ≡ PublishAclResult.allow)
        ↔ FirstAllows (λ r. r.access) (MeetsRule lv tn ip controls_publish c p.topic) cfg.rules
  unfolding exec exec_from hook
  publish_acl-FirstAllows off rest key cfg c p h no_super =
      let d = cfg.disconnect_if_pub_rejected in
      let handlers = with_acl off key cfg rest in
      let asked : exec (message_publish_check_acl c p) handlers
          ≡ some (check_publish lv tn ip d cfg.rules c p) =
        exec_from_off (message_publish_check_acl c p) none off _ h in
      let (r, e) = check_publish_result lv tn ip d cfg.rules c p in
      let answered : publish_acl handlers c p ≡ r =
        publish_answer handlers c p r (asked ∙ ap some e) no_super in
      let decides = check_publish-FirstAllows lv tn ip d cfg.rules c p in
      (
        λ a. decides.0 (e ∙ ap publish_acl_result (sym answered ∙ a)),
        λ f.
            let level : publish_acl_result r ≡ publish_acl_result PublishAclResult.allow =
              sym e ∙ decides.1 f in
            answered ∙ (cc level),
      )

  -- With the plugin's handler first among the enabled ones, a subscription of a client that is no superuser
  -- is granted, with the quality that it asks for, exactly if the first rule that the client meets allows it:
  -- one that controls subscribing, fits the client, and covers the topic filter. Without such a rule, as where
  -- there are no rules, it is not.
  pub subscribe_acl-FirstAllows :
      (off rest : Handlers) (key : ℕ × String) (cfg : PluginConfig lv tn) (c : Client)
      (sub : Subscribe)
      → all_off off ≡ true
      → c.superuser ≡ false
      → (subscribe_acl (with_acl off key cfg rest) c sub ≡ some (new_success (qos sub.opts) none))
        ↔ FirstAllows
            (λ r. r.access)
            (MeetsRule lv tn ip controls_subscribe c sub.topic_filter)
            cfg.rules
  unfolding exec exec_from hook
  subscribe_acl-FirstAllows off rest key cfg c sub h no_super =
      let handlers = with_acl off key cfg rest in
      let asked : exec (client_subscribe_check_acl c sub) handlers
          ≡ some (check_subscribe lv tn ip cfg.rules c sub) =
        exec_from_off (client_subscribe_check_acl c sub) none off _ h in
      let (r, e) = check_subscribe_result lv tn ip cfg.rules c sub in
      let answered : subscribe_acl handlers c sub ≡ some r =
        subscribe_answer handlers c sub r (asked ∙ ap some e) no_super in
      let decides = check_subscribe-FirstAllows lv tn ip cfg.rules c sub in
      let allowed = new_success (qos sub.opts) none in
      (
        λ a.
            let level : some r ≡ some allowed = sym answered ∙ a in
            let same_answer : r ≡ allowed = cc level in
            decides.0 (e ∙ ap subscribe_acl_result same_answer),
        λ f.
            let level : subscribe_acl_result r ≡ subscribe_acl_result allowed =
              sym e ∙ decides.1 f in
            let same_answer : r ≡ allowed = cc level in answered ∙ ap some same_answer,
      )
