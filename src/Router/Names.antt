-- ===== src/Router/Names.antt =====
-- What the broker uses of `ntex_mqtt::Topic`.
use Prim.Native.String.{String}
use rmqtt.Common.{◌≡◌, Option, some, List}

-- A topic or filter is read from its text, and a list of levels is written with slashes; what was
-- read is written as it was.
pub record TopicNames (L : Type 0) : Type 0 where
  pub from_str : String → Option (List L)
  pub to_topic_filter : List L → String
  pub written : (s : String) (topic : List L) → from_str s ≡ some topic → to_topic_filter topic ≡ s
