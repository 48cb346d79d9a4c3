-- ===== src/Fitter.antt =====
-- What a session takes from the settings of its listener and from the connect packet: `DefaultFitter` of
-- rmqtt/src/broker/default.rs and the expiry check of its `DefaultHook`. The connect packets are those of
-- ntex_mqtt, with the fields that are read here; times in settings are milliseconds.
pub mod Bounds
pub mod Expiry
pub mod Sample
mod Tests
use rmqtt.Common.{
  ℕ, ◌+◌, ◌-◌, ◌*◌, ◌/◌, ◌%◌, ◌^◌, Bool, true, false, Option, none, some, ◌==◌, ltb, if◌then◌else◌,
  min,
}
use rmqtt.Types.{QoS, Publish}

-- The part of `ListenerInner` of rmqtt/src/settings/listener.rs that sessions read.
pub record Listener : Type 0 where
  pub min_keepalive : ℕ
  pub max_keepalive : ℕ
  pub allow_zero_keepalive : Bool
  pub max_inflight : ℕ
  pub max_qos_allowed : QoS
  pub max_topic_levels : ℕ
  pub retain_available : Bool
  pub session_expiry_interval : ℕ
  pub message_expiry_interval : ℕ
  pub max_subscriptions : ℕ
  pub max_topic_aliases : ℕ

-- A will as the message that it becomes, with its delay in seconds, which version 3 does not have.
pub record LastWill : Type 0 where
  pub publish : Publish
  pub will_delay_interval : Option ℕ

pub record ConnectV3 : Type 0 where
  pub clean_session : Bool
  pub will : Option LastWill

pub record ConnectV5 : Type 0 where
  pub clean_start : Bool
  pub will : Option LastWill
  pub receive_max : Option ℕ
  pub session_expiry_interval_secs : Option ℕ
  pub topic_alias_max : ℕ

pub data ConnectInfo : Type 0 where
  v3 : ConnectV3 → ConnectInfo
  v5 : ConnectV5 → ConnectInfo

abbrev pub last_will : ConnectInfo → Option LastWill
last_will (v3 c) = c.will
last_will (v5 c) = c.will

-- `LastWill::will_delay_interval` of the will, where there is one.
abbrev pub will_delay : ConnectInfo → Option ℕ
will_delay (v3 c) = none
will_delay (v5 c) = elim (c.will) [ none ↦ none | some w ↦ w.will_delay_interval ]

-- A disconnect packet; version 5 may give a new expiry interval in seconds.
pub data Disconnect : Type 0 where
  v3 : Disconnect
  v5 : Option ℕ → Disconnect

abbrev pub clean_start : ConnectInfo → Bool
clean_start (v3 c) = c.clean_session
clean_start (v5 c) = c.clean_start

-- `backoff k` is `((k as f32 * keepalive_backoff) * 2.0) as u16`; a 16-bit sum stays below its bound.
with_backoff : (ℕ → ℕ) → ℕ → ℕ
with_backoff backoff k = if ltb k 6 then k + 3 else backoff k

-- `keep_alive`: the value that the client is told, and the one the session counts by. `none` is an error.
unfoldable pub keep_alive : (ℕ → ℕ) → Listener → ConnectInfo → ℕ → Option (ℕ × ℕ)
unfolding with_backoff
keep_alive backoff l (v5 c) k =
    if k == 0
    then if l.allow_zero_keepalive then some (k, 0) else none
    else if ltb k l.min_keepalive
    then some (l.min_keepalive, with_backoff backoff l.min_keepalive)
    else if ltb l.max_keepalive k
    then some (l.max_keepalive, with_backoff backoff l.max_keepalive)
    else some (k, with_backoff backoff k)
keep_alive backoff l (v3 c) k =
    if k == 0
    then if l.allow_zero_keepalive then some (k, 0) else none
    else if ltb k l.min_keepalive
    then none
    else if ltb l.max_keepalive k
    then none
    else some (k, with_backoff backoff k)

unfoldable pub max_inflight : Listener → ConnectInfo → ℕ
max_inflight l (v3 c) = l.max_inflight
max_inflight l (v5 c) = elim (c.receive_max) [
  | some receive_max ↦ min l.max_inflight receive_max
  | none ↦ l.max_inflight
]

abbrev pub or_zero : Option ℕ → ℕ
or_zero none = 0
or_zero (some n) = n

-- The closure `expiry_interval`.
abbrev pub expiry_interval : Listener → ConnectInfo → ℕ
expiry_interval l (v5 c) = or_zero c.session_expiry_interval_secs * 1000
expiry_interval l (v3 c) = l.session_expiry_interval

unfoldable pub session_expiry_interval : Listener → ConnectInfo → Option Disconnect → ℕ
session_expiry_interval l c none = expiry_interval l c
session_expiry_interval l c (some v3) = expiry_interval l c
session_expiry_interval l c (some (v5 none)) = expiry_interval l c
session_expiry_interval l c (some (v5 (some secs))) = secs * 1000

unfoldable pub message_expiry_interval : Listener → Publish → ℕ
message_expiry_interval l p = elim (p.properties.message_expiry_interval) [
  | some i ↦ i * 1000
  | none ↦ l.message_expiry_interval
]

unfoldable pub max_client_topic_aliases : Listener → ConnectInfo → ℕ
max_client_topic_aliases l (v5 c) = l.max_topic_aliases
max_client_topic_aliases l (v3 c) = 0

unfoldable pub max_server_topic_aliases : Listener → ConnectInfo → ℕ
max_server_topic_aliases l (v5 c) = min c.topic_alias_max l.max_topic_aliases
max_server_topic_aliases l (v3 c) = 0

-- `MessageExpiryCheckResult`; `remaining` has seconds.
pub data MessageExpiryCheckResult : Type 0 where
  expiry : MessageExpiryCheckResult
  remaining : Option ℕ → MessageExpiryCheckResult

abbrev pub is_expiry : MessageExpiryCheckResult → Bool
is_expiry expiry = true
is_expiry (remaining i) = false

-- `(i.get() * 1000) as i64`, on 32 bits as a release build wraps it.
abbrev pub interval_millis : Listener → Publish → ℕ
interval_millis l p = elim (p.properties.message_expiry_interval) [
  | some i ↦ i * 1000 % 2 ^ 32
  | none ↦ l.message_expiry_interval
]

abbrev pub nonzero : ℕ → Option ℕ
nonzero n = if n == 0 then none else some n

-- `DefaultHook::message_expiry_check`; `hooked` says whether a handler reports the message as expired. The
-- source compares `now - create_time` with the interval.
unfoldable pub message_expiry_check : ℕ → Listener → Bool → Publish → MessageExpiryCheckResult
message_expiry_check now l hooked p =
    if hooked
    then expiry
    else if interval_millis l p == 0
    then remaining none
    else if ltb now (interval_millis l p + p.create_time)
    then remaining (nonzero ((interval_millis l p + p.create_time - now) / 1000 % 2 ^ 32))
    else expiry
