-- ===== src/Session/Subscribing/Tests.antt =====
-- A subscription of rmqtt/src/broker/session.rs that is granted a lower quality.
use rmqtt.Common.{◌≡◌, refl, false, none, some, [], ◌∷◌, nat_key}
use rmqtt.Types.{exactly_once, at_least_once, string_key}
use rmqtt.Fitter.Sample.{listener}
use rmqtt.SessionSubs.Sample.{no_subs}
use rmqtt.SessionSubs as SessionSubs
use rmqtt.Router.{new}
use rmqtt.Router as Router
use rmqtt.Router.Sample.{levels, names, client}
use rmqtt.TopicTree.{insert}
use rmqtt.Subscriptions.{Subscribe, v3}
use rmqtt.Subscriptions.Answers.{new_success, granted, success, success_of}
use rmqtt.Hooks.{Client, subscribe_acl, exec, exec_from}
use rmqtt.Shared as Shared
use rmqtt.Session.Subscribing.{
  ok, err, too_many_topic_levels, Desk, Sources, subscribe, over_limit, admit, asked, enter,
  welcome, send_retained, send_storaged, send_all,
}
use rmqtt.Session.Subscribing.Limits.{Answered}
use rmqtt.Session.Subscribing.Granted.{subscribe_lem}

abbrev asker : Client
asker = record { id = client 1 "c"; password = none; superuser = false }

abbrev desk : Desk levels names
desk = record {
  node = record {
    node_id = 1;
    peers =
        ("c", record { id = client 1 "c"; closed = false; inbox = []; subscriptions = no_subs })
        ∷ [];
    router = new names;
  };
  dropped = [];
}

abbrev sources : Sources
sources = record {
  listener = record listener { max_qos_allowed = at_least_once; max_topic_levels = 2 };
  handlers = [];
  hooked = λ sub. none;
  unhooked = λ unsub. none;
  retain_get = λ tf. some [];
  storage_available = false;
  load = λ tf group. none;
  now = 0;
}

abbrev sub : Subscribe
sub = record {
  topic_filter = "a/b";
  opts = v3 (record { qos = exactly_once; shared_group = none });
}

lowered : (subscribe levels names sources asker sub desk).0 ≡ ok (new_success at_least_once none)
unfolding subscribe over_limit admit asked enter welcome send_retained send_storaged send_all
    subscribe_acl exec exec_from Shared.subscribe Router.add insert SessionSubs.add new_success
    granted success success_of
lowered = refl

subscribe_example :
    let (a, d') = subscribe levels names sources asker sub desk in
    Answered levels names sources asker sub desk a d'
subscribe_example = subscribe_lem levels names sources asker sub desk

-- With no more than one level allowed.
refused :
    (subscribe levels names
      (record sources { listener = record listener { max_topic_levels = 1 } })
      asker
      sub
      desk).0
    ≡ err too_many_topic_levels
unfolding subscribe over_limit
refused = refl
