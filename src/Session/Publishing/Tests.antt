-- ===== src/Session/Publishing/Tests.antt =====
-- `publish` of rmqtt/src/broker/session.rs on a node with one client.
use Prim.Native.String.{String}
use rmqtt.Common.{
  ℕ, ◌≡◌, ◌≢◌, refl, true, false, Option, none, List, [], ◌∷◌, ◌++◌, map, get, nat_key, unit_key,
  inl, inr,
}
use rmqtt.Types.{Publish, Retain, string_key}
use rmqtt.Fitter.Sample.{listener}
use rmqtt.SessionSubs.Sample.{no_subs}
use rmqtt.Inflight.Listed.{ann, message}
use rmqtt.Router.{new}
use rmqtt.Router.Sample.{levels, names, client, plain}
use rmqtt.Router.Relations.{subscribe, run}
use rmqtt.Hooks.{Client, Handlers, PublishAclResult, publish_acl, exec, exec_from}
use rmqtt.Acl.{PluginConfig, Rule, Access, User, Control}
use rmqtt.TopicTree.{default}
use rmqtt.Acl.Enforced.{with_acl}
use rmqtt.Shared.{Node}
use rmqtt.Shared.Inboxes.{addressed, after, lost}
use rmqtt.Shared.Delivered.{own_relations}
use rmqtt.Session.Publishing.{published, to_dropped, Broker, World, publish}
use rmqtt.Session.Publishing.Refused.{OnlyDropped, publish_refused}
use rmqtt.Session.Publishing.Accounted.{for_storage, publish_lem}

abbrev sender : Client
sender = record { id = client 1 "b"; password = none; superuser = false }

abbrev news : Publish
news = record ((message 1).publish) { retain = true }

abbrev node : Node levels names
node = record {
  node_id = 1;
  peers =
      ("c", record { id = client 1 "c"; closed = false; inbox = []; subscriptions = no_subs }) ∷ [];
  router = run names (subscribe "a/+" (client 1 "c") plain ∷ []) (new names);
}

abbrev broker : Broker levels names (List Retain)
broker = record { node = node; retained = []; stored = []; dropped = []; nonsubscribed = [] }

abbrev world : Handlers → World levels names (List Retain)
world handlers = record {
  listener = listener;
  random = λ tf g n. 0;
  is_online = λ n c. true;
  hooked = λ from p. none;
  handlers = handlers;
  retain_set = λ topic retain expiry rs. (true, rs ++ retain ∷ []);
  storage_available = true;
  next_msg_id = 7;
}

abbrev nobody : Rule levels names
nobody = record {
  access = Access.deny;
  user = User.all;
  control = Control.pubsub;
  topics = record {
    all_topics = true;
    eqs = [];
    eq_placeholders = [];
    tree = default;
    placeholders = [];
  };
}

abbrev no_access : PluginConfig levels names
no_access = record { disconnect_if_pub_rejected = true; priority = 10; rules = nobody ∷ [] }

abbrev address : ℕ → String
address n = "127.0.0.1"

abbrev guarded : World levels names (List Retain)
guarded = world (with_acl levels names address [] (10, "id") no_access [])

publish_refused_example :
    ((publish levels names (List Retain) guarded ann sender news broker).0 ≢ published)
    × OnlyDropped levels names
        (List Retain)
        ann
        news
        broker
        (publish levels names (List Retain) guarded ann sender news broker).1
publish_refused_example =
    publish_refused levels names (List Retain) address [] [] (10, "id") no_access guarded ann sender
      news broker refl refl refl (λ f. elim f [ inl (met, e) ↦ cc e | inr (met, g) ↦ g ])

let_through : publish_acl [] sender news ≡ PublishAclResult.allow
unfolding publish_acl exec exec_from
let_through = refl

publish_example :
    let rels = own_relations levels names (λ tf g n. 0) (λ n c. true) ann (5 ∷ 6 ∷ []) node in
    let (outcome, b') = publish levels names (List Retain) (world []) ann sender news broker in
    (outcome ≡ published)
    × (get "c" b'.node.peers ≡ after (addressed ann news "c" rels) (get "c" node.peers))
    × (b'.dropped ≡ map to_dropped (lost ann news node.peers rels))
    × ((ids : Option (List (String × Option (String × String)))) × (b'.stored
          ≡ for_storage levels names (List Retain) (world []) ann news ids))
publish_example =
    publish_lem levels names (List Retain) (world []) ann sender news broker (5 ∷ 6 ∷ []) "c"
      let_through refl (λ h. refl)
