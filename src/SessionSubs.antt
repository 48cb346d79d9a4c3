-- ===== src/SessionSubs.antt =====
-- `SessionSubs` of rmqtt/src/broker/types.rs: the subscriptions of one session, and the two counters
-- of the node that every session changes.
pub mod Balance
pub mod Drain
pub mod Sample
mod Tests
use Prim.Native.String.{String}
use rmqtt.Common.{
  ℕ, Bool, true, false, Option, none, some, List, [], ◌∷◌, map, if◌then◌else◌, get, put, del,
  length, keep,
}
use rmqtt.Types.{string_key}
use rmqtt.Subscriptions.{SubscriptionOptions, has_shared_group}
use rmqtt.Stats.{Counter, inc, dec}

pub record SessionSubs : Type 0 where
  pub subs : List (String × SubscriptionOptions)
  pub subscriptions : Counter
  pub subscriptions_shared : Counter

-- `inc` or `dec` on the counter of shared subscriptions.
abbrev pub inc_shared : SessionSubs → SessionSubs
inc_shared s = record s { subscriptions_shared = inc s.subscriptions_shared }

abbrev pub dec_shared : SessionSubs → SessionSubs
dec_shared s = record s { subscriptions_shared = dec s.subscriptions_shared }

abbrev pub inc_all : SessionSubs → SessionSubs
inc_all s = record s { subscriptions = inc s.subscriptions }

abbrev pub dec_all : SessionSubs → SessionSubs
dec_all s = record s { subscriptions = dec s.subscriptions }

-- The change of the shared counter where a subscription is replaced, by whether the old and the new
-- one are shared.
abbrev pub replace_shared : Bool → Bool → SessionSubs → SessionSubs
replace_shared true false s = dec_shared s
replace_shared false true s = inc_shared s
replace_shared false false s = s
replace_shared true true s = s

unfoldable pub add :
    String → SubscriptionOptions → SessionSubs → Option SubscriptionOptions × SessionSubs
add topic_filter opts s =
    let is_shared = has_shared_group opts in
    let prev = get topic_filter s.subs in
    let s' = record s { subs = put topic_filter opts s.subs } in
    (
      prev,
      elim prev [
        | some prev_opts ↦ replace_shared (has_shared_group prev_opts) is_shared s'
        | none ↦ if is_shared then inc_shared (inc_all s') else inc_all s'
      ],
    )

unfoldable pub remove : String → SessionSubs → Option (String × SubscriptionOptions) × SessionSubs
remove topic_filter s =
    let removed = get topic_filter s.subs in
    let s' = record s { subs = del topic_filter s.subs } in
    elim removed [
      | some opts ↦ (
        some (topic_filter, opts),
        if has_shared_group opts then dec_shared (dec_all s') else dec_all s',
      )
      | none ↦ (none, s')
    ]

-- The loop of `drain` over the topic filters that it read first.
unfoldable pub drain_filters :
    List String → SessionSubs → List (String × SubscriptionOptions) × SessionSubs
drain_filters [] s = ([], s)
drain_filters (tf ∷ topic_filters) s =
    let (removed, s') = remove tf s in
    let (subs, end) = drain_filters topic_filters s' in
    (elim removed [ some sub ↦ sub ∷ subs | none ↦ subs ], end)

unfoldable pub to_topic_filters : SessionSubs → List String
to_topic_filters s = map (λ e. e.0) s.subs

unfoldable pub drain : SessionSubs → List (String × SubscriptionOptions) × SessionSubs
drain s = drain_filters (to_topic_filters s) s

unfoldable pub extend : List (String × SubscriptionOptions) → SessionSubs → SessionSubs
extend [] s = s
extend ((topic_filter, opts) ∷ subs) s = extend subs (add topic_filter opts s).1

-- The loop of `clear` over the counters.
unfoldable pub count_down : List (String × SubscriptionOptions) → SessionSubs → SessionSubs
count_down [] s = s
count_down ((topic_filter, opts) ∷ subs) s =
    count_down subs (if has_shared_group opts then dec_shared (dec_all s) else dec_all s)

unfoldable pub clear : SessionSubs → SessionSubs
clear s = let s' = count_down s.subs s in record s' { subs = [] }

unfoldable pub len : SessionSubs → ℕ
len s = length s.subs

unfoldable pub shared_len : SessionSubs → ℕ
shared_len s = length (keep (λ e. has_shared_group e.1) s.subs)
