-- ===== src/Subscriptions.antt =====
-- The subscriptions of rmqtt/src/broker/types.rs: the options of a subscription in the two versions
-- of the protocol, the parsing of a shared subscription, and what a subscription is answered.
pub mod Filters
pub mod Collector
pub mod Answers
mod Tests
use Prim.Native.String.{String, String as Text}
use text.Mathlib.Text.{◌==◌ as str_eq}
use rmqtt.Common.{
  ℕ, zero, suc, Bool, true, false, not, ◌&&◌, Option, none, some, List, [], ◌∷◌, if◌then◌else◌,
  ◌==◌, split_once, is_some,
}
use rmqtt.Types.{QoS, at_most_once, at_least_once, exactly_once, value, string_key}

pub data RetainHandling : Type 0 where
  at_subscribe at_subscribe_new no_at_subscribe : RetainHandling

pub record SubOptionsV3 : Type 0 where
  pub qos : QoS
  pub shared_group : Option String

pub record SubOptionsV5 : Type 0 where
  pub qos : QoS
  pub shared_group : Option String
  pub no_local : Bool
  pub retain_as_published : Bool
  pub retain_handling : RetainHandling
  pub id : Option ℕ

pub data SubscriptionOptions : Type 0 where
  v3 : SubOptionsV3 → SubscriptionOptions
  v5 : SubOptionsV5 → SubscriptionOptions

abbrev pub default : SubscriptionOptions
default = v3 (record { qos = at_most_once; shared_group = none })

abbrev pub no_local : SubscriptionOptions → Option Bool
no_local (v3 opts) = none
no_local (v5 opts) = some opts.no_local

abbrev pub retain_as_published : SubscriptionOptions → Option Bool
retain_as_published (v3 opts) = none
retain_as_published (v5 opts) = some opts.retain_as_published

abbrev pub retain_handling : SubscriptionOptions → Option RetainHandling
retain_handling (v3 opts) = none
retain_handling (v5 opts) = some opts.retain_handling

abbrev pub subscription_identifier : SubscriptionOptions → Option ℕ
subscription_identifier (v3 opts) = none
subscription_identifier (v5 opts) = opts.id

abbrev pub qos : SubscriptionOptions → QoS
qos (v3 opts) = opts.qos
qos (v5 opts) = opts.qos

abbrev pub qos_value : SubscriptionOptions → ℕ
qos_value (v3 opts) = value opts.qos
qos_value (v5 opts) = value opts.qos

abbrev pub set_qos : QoS → SubscriptionOptions → SubscriptionOptions
set_qos q (v3 opts) = v3 (record opts { qos = q })
set_qos q (v5 opts) = v5 (record opts { qos = q })

abbrev pub shared_group : SubscriptionOptions → Option String
shared_group (v3 opts) = opts.shared_group
shared_group (v5 opts) = opts.shared_group

abbrev pub has_shared_group : SubscriptionOptions → Bool
has_shared_group (v3 opts) = is_some opts.shared_group
has_shared_group (v5 opts) = is_some opts.shared_group

abbrev pub is_v3 : SubscriptionOptions → Bool
is_v3 (v3 opts) = true
is_v3 (v5 opts) = false

abbrev pub is_v5 : SubscriptionOptions → Bool
is_v5 (v3 opts) = false
is_v5 (v5 opts) = true

-- The number of a byte that is read; `none` is the error on any other.
unfoldable pub deserialize_qos : ℕ → Option QoS
deserialize_qos v =
    if v == 0
    then some at_most_once
    else if v == 1
    then some at_least_once
    else if v == 2
    then some exactly_once
    else none

unfoldable pub serialize_qos : QoS → ℕ
serialize_qos qos = value qos

unfoldable pub deserialize_retain_handling : ℕ → Option RetainHandling
deserialize_retain_handling v =
    if v == 0
    then some at_subscribe
    else if v == 1
    then some at_subscribe_new
    else if v == 2
    then some no_at_subscribe
    else none

unfoldable pub serialize_retain_handling : RetainHandling → ℕ
serialize_retain_handling at_subscribe = 0
serialize_retain_handling at_subscribe_new = 1
serialize_retain_handling no_at_subscribe = 2

-- `splitn(n, '/')`.
abbrev pub splitn : ℕ → String → List String
splitn zero s = []
splitn (suc zero) s = s ∷ []
splitn (suc (suc n)) s =
    let (level, after) = split_once s in
    elim after [ some rest ↦ level ∷ splitn (suc n) rest | none ↦ level ∷ [] ]

abbrev pub first_is_share : List String → Bool
first_is_share [] = false
first_is_share (f ∷ levels) = str_eq f "$share"

abbrev non_empty : String → Option String → Option (String × Option String)
non_empty Text.[] group = none
non_empty (Text.◌∷◌ c topic) group = some (Text.◌∷◌ c topic, group)

-- The levels after `$share`: the group and the rest.
abbrev pub shared_topic : List String → Option (String × Option String)
shared_topic (share ∷ group ∷ topic ∷ levels) = non_empty topic (some group)
shared_topic _ = none

-- The topic filter and the shared group; `none` is the error "Illegal topic filter".
unfoldable pub parse_topic_filter : String → Bool → Option (String × Option String)
parse_topic_filter topic_filter shared_subscription_supported =
    if shared_subscription_supported && first_is_share (splitn 3 topic_filter)
    then shared_topic (splitn 3 topic_filter)
    else non_empty topic_filter none

-- The options of a subscription packet of version 5.
pub record SubscriptionOptionsV5 : Type 0 where
  pub qos : QoS
  pub no_local : Bool
  pub retain_as_published : Bool
  pub retain_handling : RetainHandling

abbrev pub from_qos : QoS → Option String → SubscriptionOptions
from_qos qos group = v3 (record { qos = qos; shared_group = group })

abbrev pub from_options : SubscriptionOptionsV5 → Option String → Option ℕ → SubscriptionOptions
from_options opts group id = v5 (record {
  qos = opts.qos;
  shared_group = group;
  no_local = opts.no_local;
  retain_as_published = opts.retain_as_published;
  retain_handling = opts.retain_handling;
  id = id;
})

pub record Subscribe : Type 0 where
  pub topic_filter : String
  pub opts : SubscriptionOptions

unfoldable pub from_v3 : String → QoS → Bool → Option Subscribe
from_v3 topic_filter qos supported = elim (parse_topic_filter topic_filter supported) [
  | some (filter, group) ↦ some (record { topic_filter = filter; opts = from_qos qos group })
  | none ↦ none
]

unfoldable pub from_v5 : String → SubscriptionOptionsV5 → Bool → Option ℕ → Option Subscribe
from_v5 topic_filter opts supported sub_id = elim (parse_topic_filter topic_filter supported) [
  | some (filter, group) ↦
      some (record { topic_filter = filter; opts = from_options opts group sub_id })
  | none ↦ none
]

abbrev pub is_shared : Subscribe → Bool
is_shared s = has_shared_group s.opts

pub record Unsubscribe : Type 0 where
  pub topic_filter : String
  pub shared_group : Option String

unfoldable pub unsubscribe_from : String → Bool → Option Unsubscribe
unsubscribe_from topic_filter supported = elim (parse_topic_filter topic_filter supported) [
  | some (filter, group) ↦ some (record { topic_filter = filter; shared_group = group })
  | none ↦ none
]
