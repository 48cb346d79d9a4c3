-- ===== src/Fitter/Expiry.antt =====
-- When a message that waits counts as expired, in rmqtt/src/broker/default.rs.
use rmqtt.Common.{ℕ, ◌+◌, ◌-◌, ◌*◌, ◌^◌, ◌≤◌, ◌<◌, ◌≡◌, leb, false, some, arith}
use rmqtt.Types.{Publish}
use rmqtt.Fitter.{
  Listener, is_expiry, or_zero, MessageExpiryCheckResult, expiry, remaining, message_expiry_check,
}

-- The seconds that are passed on, 0 where there are none.
abbrev pub seconds : MessageExpiryCheckResult → ℕ
seconds expiry = 0
seconds (remaining i) = or_zero i

module _ (now i : ℕ) (l : Listener) (p : Publish) where
  -- Where no handler says otherwise and the interval of a message, in seconds, is nonzero and fits 32
  -- bits in milliseconds, the message is expired exactly if that much time has passed; and the seconds
  -- that are passed on, of a message from no later than now, are no more than its interval, and are
  -- the whole seconds of the time that is left.
  pub message_expiry_check_lem :
      p.properties.message_expiry_interval ≡ some i
      → 0 < i
      → i * 1000 < 2 ^ 32
      → p.create_time ≤ now
      → (is_expiry (message_expiry_check now l false p) ≡ leb (p.create_time + i * 1000) now)
        × (seconds (message_expiry_check now l false p) ≤ i)
        × (seconds (message_expiry_check now l false p) * 1000 ≤ p.create_time + i * 1000 - now)
        × (p.create_time + i * 1000 - now
            < seconds (message_expiry_check now l false p) * 1000 + 1000)
  unfolding message_expiry_check
  message_expiry_check_lem e pos fits created =
      (ground arith, ground arith, ground arith, ground arith)

  -- An interval whose milliseconds pass 32 bits once, from 4294968 seconds on, counts as the rest: the
  -- message is expired that much too early.
  pub expired_early :
      p.properties.message_expiry_interval ≡ some i
      → 2 ^ 32 < i * 1000
      → i * 1000 < 2 ^ 33
      → p.create_time + (i * 1000 - 2 ^ 32) ≤ now
      → message_expiry_check now l false p ≡ expiry
  unfolding message_expiry_check
  expired_early e over once late = ground arith
