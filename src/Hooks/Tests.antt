-- ===== src/Hooks/Tests.antt =====
-- The answers of rmqtt/src/broker/default.rs where no handler is asked or none decides.
use rmqtt.Common.{◌≡◌, refl, true, false, none, []}
use rmqtt.Router.Sample.{client}
use rmqtt.Hooks.{Client, ConnectAckReason, ConnectAckReasonV5, authenticate, exec, exec_from}

abbrev someone : Client
someone = record { id = client 1 "c"; password = none; superuser = false }

anonymous_allowed :
    authenticate [] 5 true someone ≡ (ConnectAckReason.v5 ConnectAckReasonV5.success, false)
unfolding authenticate
anonymous_allowed = refl

anonymous_refused :
    authenticate [] 5 false someone ≡ (ConnectAckReason.v5 ConnectAckReasonV5.not_authorized, false)
unfolding authenticate exec exec_from
anonymous_refused = refl
