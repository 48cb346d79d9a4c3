-- ===== src/Acl/Tests.antt =====
-- The rules of rmqtt-plugins/rmqtt-acl on two clients.
use Prim.Native.String.{String}
use mathlib.Core.Logic.{◌↔◌}
use rmqtt.Common.{In, ℕ, ◌≡◌, refl, true, false, none, some, [], ◌∷◌, nat_key, unit_key, ◌⊎◌}
use rmqtt.Types.{string_key}
use rmqtt.Subscriptions.{Subscribe, qos}
use rmqtt.Subscriptions.Answers.{new_success}
use rmqtt.TopicTree.{default, insert}
use rmqtt.Router.Sample.{levels, names, client, plain}
use rmqtt.Hooks.{AuthResult, auth_result, Client, subscribe_acl}
use rmqtt.Acl.{
  by_username, controls_connect, check_connect, hit, Rule, PluginConfig, Access, User, Control,
  controls_subscribe, build_placeholders, expand, replace,
}
use rmqtt.Acl.Covers.{Covers}
use rmqtt.Acl.Decides.{FirstAllows, MeetsRule}
use rmqtt.Acl.Config.{
  Value, Values, array, string, object, bool, entry, blank, rule_from, access_from, user_from,
  user_of, control_from, topics_from, no_topics,
}
use rmqtt.Acl.Superusers.{Named, check_connect-Named}
use rmqtt.Acl.Enforced.{with_acl, subscribe_acl-FirstAllows}
use rmqtt.Acl.Placeholders.{ByTexts, ByFilters, build_placeholders-Covers}

abbrev address : ℕ → String
address n = "127.0.0.1"

abbrev asker : Client
asker = record { id = client 1 "b"; password = none; superuser = false }

abbrev own_topic : Rule levels names
own_topic = record {
  access = Access.allow;
  user = User.all;
  control = Control.pubsub;
  topics = record {
    all_topics = false;
    eqs = [];
    eq_placeholders = "a/%c" ∷ [];
    tree = (insert (5 ∷ 2 ∷ []) tt default).1;
    placeholders = "a/%c" ∷ [];
  };
}

abbrev config : PluginConfig levels names
config = record { disconnect_if_pub_rejected = true; priority = 10; rules = own_topic ∷ [] }

abbrev sub : Subscribe
sub = record { topic_filter = "a/b"; opts = plain }

subscribe_acl-FirstAllows_example :
    (subscribe_acl (with_acl levels names address [] (10, "id") config []) asker sub
      ≡ some (new_success (qos plain) none))
    ↔ FirstAllows
        (λ r. r.access)
        (MeetsRule levels names address controls_subscribe asker "a/b")
        config.rules
subscribe_acl-FirstAllows_example =
    subscribe_acl-FirstAllows levels names address [] [] (10, "id") config asker sub refl refl

build_placeholders-Covers_example :
    Covers levels names (build_placeholders levels names (client 1 "b") own_topic).topics "a/b" ↔ (
      Covers levels names own_topic.topics "a/b"
      ⊎ (ByTexts (client 1 "b") ("a/%c" ∷ []) "a/b"
          ⊎ ByFilters levels names (client 1 "b") ("a/%c" ∷ []) "a/b"))
build_placeholders-Covers_example =
    build_placeholders-Covers levels names (client 1 "b") own_topic "a/b"

-- The client with id `b` adds its topic to the rule of all clients.
expanded : expand (client 1 "b") "a/%c" ≡ "a/b"
unfolding expand replace
expanded = refl

-- `["allow", {"user": "dashboard", "superuser": true}, "connect"]`.
abbrev dashboard : Value
dashboard = array (
    Values.cons (string "allow") (
      Values.cons (object (entry "user" (string "dashboard") (entry "superuser" (bool true) blank)))
        (Values.cons (string "connect") Values.nil)))

abbrev dashboard_rule : Rule levels names
dashboard_rule = record {
  access = Access.allow;
  user = by_username "dashboard" none true;
  control = Control.connect;
  topics = no_topics levels names true;
}

dashboard_read : rule_from levels names (λ s. s) dashboard ≡ some dashboard_rule
unfolding rule_from access_from user_from user_of control_from topics_from
dashboard_read = refl

abbrev admin : Client
admin = record {
  id = record (client 1 "b") { username = some "dashboard" };
  password = none;
  superuser = false;
}

admitted :
    check_connect levels names address (dashboard_rule ∷ []) admin
    ≡ auth_result (AuthResult.allow true)
unfolding check_connect hit
admitted = refl

check_connect-Named_example :
    (rule : Rule levels names) × In rule (dashboard_rule ∷ [])
    × (rule.access ≡ Access.allow)
    × (controls_connect rule.control ≡ true)
    × Named rule.user admin
check_connect-Named_example =
    check_connect-Named levels names address (dashboard_rule ∷ []) admin admitted
