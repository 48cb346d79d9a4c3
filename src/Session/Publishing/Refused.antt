-- ===== src/Session/Publishing/Refused.antt =====
-- A message that the rules of rmqtt-plugins/rmqtt-acl do not allow, in `publish` of rmqtt/src/broker/session.rs.
use Prim.Native.String.{String}
use rmqtt.Common.{ℕ, ◌≡◌, ◌≢◌, refl, sym, ◌∙◌, ap, true, false, none, [], ◌∷◌, ◌++◌, Key}
use rmqtt.Types.{Publish, From}
use rmqtt.TopicTree.Levels.{Levels}
use rmqtt.Router.Names.{TopicNames}
use rmqtt.Hooks.{Client, Handlers, PublishAclResult, rejected, publish_acl}
use rmqtt.Acl.{PluginConfig, controls_publish}
use rmqtt.Acl.Decides.{FirstAllows, MeetsRule}
use rmqtt.Acl.Enforced.{with_acl, all_off, publish_acl-FirstAllows}
use rmqtt.Session.{or_same, publish_refused as refused_reason}
use rmqtt.Session.Publishing.{published, Broker, World, publish}

module _ {L : Type 0} ⦃l : Key L⦄ (lv : Levels L) (tn : TopicNames L) (R : Type 0) where
  -- What a refused message leaves: it is dropped, and that is all.
  pub record OnlyDropped (from : From) (p : Publish) (b b' : Broker lv tn R) : Type 0 where
    pub same_node : b'.node ≡ b.node
    pub same_retained : b'.retained ≡ b.retained
    pub same_stored : b'.stored ≡ b.stored
    pub one_dropped : b'.dropped ≡ b.dropped ++ (none, from, p, refused_reason) ∷ []

  publish_not_allowed :
      (w : World lv tn R) (from : From) (c : Client) (p : Publish) (b : Broker lv tn R)
      → publish_acl w.handlers c (or_same p (w.hooked from p)) ≢ PublishAclResult.allow
      → ((publish lv tn R w from c p b).0 ≢ published)
        × OnlyDropped from (or_same p (w.hooked from p)) b (publish lv tn R w from c p b).1
  unfolding publish
  publish_not_allowed w from c p b never =
      by_answer (publish_acl w.handlers c (or_same p (w.hooked from p))) refl
    where
      by_answer :
          (r : PublishAclResult)
          → publish_acl w.handlers c (or_same p (w.hooked from p)) ≡ r
          → ((publish lv tn R w from c p b).0 ≢ published)
            × OnlyDropped from (or_same p (w.hooked from p)) b (publish lv tn R w from c p b).1
      by_answer PublishAclResult.allow e = absurd (never e)
      by_answer (rejected true) e =
          rw (e, publish)
            (
              λ z. cc,
              record {
                same_node = refl;
                same_retained = refl;
                same_stored = refl;
                one_dropped = refl;
              },
            )
      by_answer (rejected false) e =
          rw (e, publish)
            (
              λ z. cc,
              record {
                same_node = refl;
                same_retained = refl;
                same_stored = refl;
                one_dropped = refl;
              },
            )

  -- With the plugin's handler first among the enabled ones, a message of a client that is no superuser, for
  -- which the first rule that the client meets does not allow it, or that meets no rule, as where there are no
  -- rules: it is not published, no session gets anything, nothing is retained or stored, and it is reported once as dropped.
  pub publish_refused :
      (ip : ℕ → String) (off rest : Handlers) (key : ℕ × String) (cfg : PluginConfig lv tn)
      (w : World lv tn R) (from : From) (c : Client) (p : Publish) (b : Broker lv tn R)
      → w.handlers ≡ with_acl lv tn ip off key cfg rest
      → all_off off ≡ true
      → c.superuser ≡ false
      → ¬ FirstAllows
          (λ r. r.access)
          (MeetsRule lv tn ip controls_publish c (or_same p (w.hooked from p)).topic)
          cfg.rules
      → ((publish lv tn R w from c p b).0 ≢ published)
        × OnlyDropped from (or_same p (w.hooked from p)) b (publish lv tn R w from c p b).1
  publish_refused ip off rest key cfg w from c p b e h no_super never =
      let p' = or_same p (w.hooked from p) in
      publish_not_allowed w from c p b (λ a. never (
        (publish_acl-FirstAllows lv tn ip off rest key cfg c p' h no_super).0
          (ap (λ hs. publish_acl hs c p') (sym e) ∙ a)))
