-- ===== src/Fitter/Tests.antt =====
-- The limits and the expiry check of rmqtt/src/broker/default.rs on concrete clients and messages.
use rmqtt.Common.{◌<◌, ◌+◌, ℕ, ◌+◌, ◌-◌, ◌*◌, ◌≤◌, ◌≡◌, refl, leb, false, none, some, arith}
use rmqtt.Types.{Publish}
use rmqtt.Inflight.Listed.{message}
use rmqtt.Fitter.Sample.{listener}
use rmqtt.Fitter.{ConnectInfo, v5, keep_alive, message_expiry_check, is_expiry, expiry}
use rmqtt.Fitter.Bounds.{InRange, keep_alive_lem}
use rmqtt.Fitter.Expiry.{seconds, message_expiry_check_lem, expired_early}

abbrev client : ConnectInfo
client = v5 (record {
  clean_start = false;
  will = none;
  receive_max = none;
  session_expiry_interval_secs = some 60;
  topic_alias_max = 0;
})

granted_most : keep_alive (λ k. k + k) listener client 200 ≡ some (100, 200)
unfolding keep_alive
granted_most = refl

keep_alive_example : InRange listener client 200 100 200
keep_alive_example =
    keep_alive_lem (λ k. k + k) listener client 200 100 200 (omega arith) granted_most

abbrev expiring : ℕ → Publish
expiring i = record ((message 1).publish) {
  properties = record {
    topic_alias = none;
    message_expiry_interval = some i;
    subscription_ids = none;
  };
}

message_expiry_check_example :
    (is_expiry (message_expiry_check 3000 listener false (expiring 10)) ≡ leb 10005 3000)
    × (seconds (message_expiry_check 3000 listener false (expiring 10)) ≤ 10)
    × (seconds (message_expiry_check 3000 listener false (expiring 10)) * 1000 ≤ 10005 - 3000)
    × (10005 - 3000
        < seconds (message_expiry_check 3000 listener false (expiring 10)) * 1000 + 1000)
message_expiry_check_example =
    message_expiry_check_lem 3000 10 listener (expiring 10) refl (omega arith) (omega arith)
      (omega arith)

expired_early_example : message_expiry_check 3000 listener false (expiring 4294968) ≡ expiry
expired_early_example =
    expired_early 3000 4294968 listener (expiring 4294968) refl (omega arith) (omega arith)
      (omega arith)
