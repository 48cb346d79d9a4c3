-- ===== src/SessionSubs/Sample.antt =====
-- A session of rmqtt/src/broker/types.rs without subscriptions.
use rmqtt.Common.{[], pos}
use rmqtt.Stats.{new_with, no_merge}
use rmqtt.SessionSubs.{SessionSubs}

abbrev pub no_subs : SessionSubs
no_subs = record {
  subs = [];
  subscriptions = new_with (pos 0) (pos 0) no_merge;
  subscriptions_shared = new_with (pos 0) (pos 0) no_merge;
}
