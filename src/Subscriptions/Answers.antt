-- ===== src/Subscriptions/Answers.antt =====
-- The answers to a subscription, and the bytes of its options, in rmqtt/src/broker/types.rs.
use rmqtt.Common.{ℕ, ◌≡◌, ◌↔◌, refl, Bool, true, false, not, Option, none, some, is_some, arith}
use rmqtt.Types.{QoS, at_most_once, at_least_once, exactly_once}
use rmqtt.Subscriptions.{
  RetainHandling, at_subscribe, at_subscribe_new, no_at_subscribe, SubscriptionOptions,
  deserialize_retain_handling, serialize_retain_handling,
}

-- The reason codes that an answer gives. The codes of failure are numbers.
pub data SubscribeAckReason : Type 0 where
  granted_qos0 granted_qos1 granted_qos2 : SubscribeAckReason
  failed : ℕ → SubscribeAckReason

pub record SubscribeReturn : Type 0 where
  pub ack_reason : SubscribeAckReason
  pub prev_opts : Option SubscriptionOptions

unfoldable pub granted : QoS → SubscribeAckReason
granted at_most_once = granted_qos0
granted at_least_once = granted_qos1
granted exactly_once = granted_qos2

unfoldable pub new_success : QoS → Option SubscriptionOptions → SubscribeReturn
new_success qos prev_opts = record { ack_reason = granted qos; prev_opts = prev_opts }

unfoldable pub new_failure : SubscribeAckReason → SubscribeReturn
new_failure ack_reason = record { ack_reason = ack_reason; prev_opts = none }

unfoldable pub success_of : SubscribeAckReason → Option QoS
success_of granted_qos0 = some at_most_once
success_of granted_qos1 = some at_least_once
success_of granted_qos2 = some exactly_once
success_of (failed code) = none

unfoldable pub success : SubscribeReturn → Option QoS
success r = success_of r.ack_reason

unfoldable pub failure_of : SubscribeAckReason → Bool
failure_of granted_qos0 = false
failure_of granted_qos1 = false
failure_of granted_qos2 = false
failure_of (failed code) = true

unfoldable pub failure : SubscribeReturn → Bool
failure r = failure_of r.ack_reason

-- A byte is read as a handling of retained messages exactly if the handling is written as that byte.
pub deserialize_retain_handling_lem :
    (v : ℕ) (h : RetainHandling)
    → (deserialize_retain_handling v ≡ some h) ↔ (v ≡ serialize_retain_handling h)
unfolding deserialize_retain_handling serialize_retain_handling
deserialize_retain_handling_lem v at_subscribe = ground arith
deserialize_retain_handling_lem v at_subscribe_new = ground arith
deserialize_retain_handling_lem v no_at_subscribe = ground arith

failure_of-success_of : (r : SubscribeAckReason) → failure_of r ≡ not (is_some (success_of r))
unfolding failure_of success_of
failure_of-success_of granted_qos0 = refl
failure_of-success_of granted_qos1 = refl
failure_of-success_of granted_qos2 = refl
failure_of-success_of (failed code) = refl

success_of-granted : (q : QoS) → success_of (granted q) ≡ some q
unfolding success_of granted
success_of-granted at_most_once = refl
success_of-granted at_least_once = refl
success_of-granted exactly_once = refl

-- A successful answer gives back its quality of service, and any answer is a failure exactly if it
-- gives none.
success-new_success :
    (q : QoS) (prev : Option SubscriptionOptions) (r : SubscribeReturn)
    → (success (new_success q prev) ≡ some q)
      × ((new_success q prev).prev_opts ≡ prev)
      × (failure r ≡ not (is_some (success r)))
unfolding success failure new_success
success-new_success q prev r = (success_of-granted q, refl, failure_of-success_of r.ack_reason)
