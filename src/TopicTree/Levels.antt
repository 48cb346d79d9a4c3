-- ===== src/TopicTree/Levels.antt =====
-- What the broker uses of `ntex_mqtt::TopicLevel`.
use rmqtt.Common.{Bool, false, ◌≡◌, ◌≢◌}

-- The empty level, the two wildcards `#` and `+`, and the levels that start with `$`.
pub record Levels (L : Type 0) : Type 0 where
  pub blank : L
  pub multi_wildcard : L
  pub single_wildcard : L
  pub is_metadata : L → Bool
  pub multi_plain : is_metadata multi_wildcard ≡ false
  pub single_plain : is_metadata single_wildcard ≡ false
  pub wildcards_differ : multi_wildcard ≢ single_wildcard
