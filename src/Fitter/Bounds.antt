-- ===== src/Fitter/Bounds.antt =====
-- The limits that rmqtt/src/broker/default.rs grants to a client.
use rmqtt.Common.{
  ltb, if◌then◌else◌, ◌&&◌, not, ◌==◌, ◌≢◌, Bool-cases, ℕ, ◌≤◌, ◌≡◌, ◌⊎◌, Bool, true, false, some,
  arith, inl, inr,
}
use rmqtt.Fitter.{
  Listener, ConnectInfo, v3, v5, keep_alive, max_inflight, max_server_topic_aliases,
  max_client_topic_aliases,
}

abbrev pub clamp : ℕ → ℕ → ℕ → ℕ
clamp lo hi k = if ltb k lo then lo else if ltb hi k then hi else k

abbrev pub is_v3 : ConnectInfo → Bool
is_v3 (v3 c) = true
is_v3 (v5 c) = false

-- What a client is told: 0 for 0, where the listener allows it, and otherwise the value nearest to the
-- requested one in the listener's range; for version 3 it is the requested one.
abbrev pub InRange : Listener → ConnectInfo → ℕ → ℕ → ℕ → Type 0
InRange l c k told counted =
    ((k ≡ 0) × (told ≡ 0) × (counted ≡ 0) × (l.allow_zero_keepalive ≡ true))
    ⊎ ((k ≢ 0)
        × (l.min_keepalive ≤ told)
        × (told ≤ l.max_keepalive)
        × (told ≡ clamp l.min_keepalive l.max_keepalive k)
        × ((is_v3 c && not (told == k)) ≡ false))

-- A client that is granted a keep-alive time and asked for 0 is told 0, which the listener then allows; one
-- that asked for another value is told the value of the listener's range nearest to it, which for version 3
-- is that value itself. Here the range is not empty; it may hold 0.
pub keep_alive_lem :
    (backoff : ℕ → ℕ) (l : Listener) (c : ConnectInfo) (k told counted : ℕ)
    → l.min_keepalive ≤ l.max_keepalive
    → keep_alive backoff l c k ≡ some (told, counted)
    → InRange l c k told counted
unfolding keep_alive
keep_alive_lem backoff l (v3 c) k told counted h e = elim (Bool-cases (k == 0)) [
  | inl z ↦ inl (ground arith)
  | inr z ↦ inr (ground arith)
]
keep_alive_lem backoff l (v5 c) k told counted h e = elim (Bool-cases (k == 0)) [
  | inl z ↦ inl (ground arith)
  | inr z ↦ inr (ground arith)
]

-- No client is granted more than the listener's limits: the window, the two numbers of aliases, which are
-- 0 for version 3, and for version 5 also no more than its own.
pub limits_lem :
    (l : Listener) (c : ConnectInfo)
    → (max_inflight l c ≤ l.max_inflight)
      × (max_client_topic_aliases l c ≤ l.max_topic_aliases)
      × (max_server_topic_aliases l c ≤ l.max_topic_aliases)
unfolding max_inflight max_client_topic_aliases max_server_topic_aliases
limits_lem l (v3 c) = ground arith
limits_lem l (v5 c) = ground arith
