-- ===== src/Fitter/Sample.antt =====
-- The settings of a listener of rmqtt/src/settings/listener.rs.
use rmqtt.Common.{true}
use rmqtt.Types.{exactly_once}
use rmqtt.Fitter.{Listener}

abbrev pub listener : Listener
listener = record {
  min_keepalive = 10;
  max_keepalive = 100;
  allow_zero_keepalive = true;
  max_inflight = 16;
  max_qos_allowed = exactly_once;
  max_topic_levels = 0;
  retain_available = true;
  session_expiry_interval = 60000;
  message_expiry_interval = 300000;
  max_subscriptions = 0;
  max_topic_aliases = 32;
}
