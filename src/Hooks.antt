-- ===== src/Hooks.antt =====
-- `DefaultHookManager` and `DefaultHook` of rmqtt/src/broker/default.rs: the handlers of one kind of hook in
-- the order of their keys, and what the broker makes of their answers. The numbers of the protocol
-- versions are those of ntex_mqtt.
mod Tests
use Prim.Native.String.{String}
use rmqtt.Common.{
  ℕ, ◌==◌, Bool, true, false, ◌&&◌, ◌||◌, not, Option, none, some, List, [], ◌∷◌, ◌++◌,
  if◌then◌else◌, ltb, is_some,
}
use rmqtt.Types.{Identity, Publish}
use rmqtt.Subscriptions.{Subscribe, qos}
use rmqtt.Subscriptions.Answers.{SubscribeReturn, new_success}

pub data PublishAclResult : Type 0 where
  allow : PublishAclResult
  rejected : Bool → PublishAclResult

pub data AuthResult : Type 0 where
  allow : Bool → AuthResult
  not_found bad_username_or_password not_authorized : AuthResult

-- `HookResult`; the results that are not read here are one constructor.
pub data HookResult : Type 0 where
  auth_result : AuthResult → HookResult
  subscribe_acl_result : SubscribeReturn → HookResult
  publish_acl_result : PublishAclResult → HookResult
  other : HookResult

-- A session as the handlers see it.
pub record Client : Type 0 where
  pub id : Identity
  pub password : Option String
  pub superuser : Bool

-- `Parameter`, likewise.
pub data Parameter : Type 0 where
  client_connected : Client → Parameter
  client_authenticate : Client → Parameter
  client_subscribe_check_acl : Client → Subscribe → Parameter
  message_publish_check_acl : Client → Publish → Parameter
  other : Parameter

-- `Handler::hook`: whether the next handler is asked, and the result so far.
abbrev pub Handler : Type 0
Handler = Parameter → Option HookResult → Bool × Option HookResult

pub record HookEntry : Type 0 where
  pub handler : Handler
  pub enabled : Bool

-- The handlers with their priorities and ids, the highest first, which is the order of `iter().rev()`.
abbrev pub Handlers : Type 0
Handlers = List ((ℕ × String) × HookEntry)

-- The loop of `exec`.
unfoldable pub exec_from : Parameter → Option HookResult → Handlers → Option HookResult
exec_from p acc [] = acc
exec_from p acc ((key, entry) ∷ handlers) =
    let (proceed, new_acc) = entry.handler p acc in
    let rest = exec_from p new_acc handlers in
    let skip = exec_from p acc handlers in
    if entry.enabled then (if not proceed then new_acc else rest) else skip

unfoldable pub exec : Parameter → Handlers → Option HookResult
exec p handlers = exec_from p none handlers

-- `DefaultHook::client_subscribe_check_acl`.
unfoldable pub subscribe_acl : Handlers → Client → Subscribe → Option SubscribeReturn
subscribe_acl handlers c sub =
    if c.superuser
    then some (new_success (qos sub.opts) none)
    else elim (exec (client_subscribe_check_acl c sub) handlers) [
      | some (subscribe_acl_result r) ↦ some r
      | some (auth_result r) ↦ none
      | some (publish_acl_result r) ↦ none
      | some other ↦ none
      | none ↦ none
    ]

-- `DefaultHook::message_publish_check_acl`.
unfoldable pub publish_acl : Handlers → Client → Publish → PublishAclResult
publish_acl handlers c p =
    if c.superuser then allow else elim (exec (message_publish_check_acl c p) handlers) [
      | some (publish_acl_result r) ↦ r
      | some (auth_result r) ↦ allow
      | some (subscribe_acl_result r) ↦ allow
      | some other ↦ allow
      | none ↦ allow
    ]

pub data ConnectAckReasonV3 : Type 0 where
  connection_accepted bad_user_name_or_password not_authorized : ConnectAckReasonV3

pub data ConnectAckReasonV5 : Type 0 where
  success bad_user_name_or_password not_authorized : ConnectAckReasonV5

pub data ConnectAckReason : Type 0 where
  v3 : ConnectAckReasonV3 → ConnectAckReason
  v5 : ConnectAckReasonV5 → ConnectAckReason

abbrev pub by_version : ℕ → ConnectAckReasonV3 → ConnectAckReasonV5 → ConnectAckReason
by_version proto_ver r3 r5 = if proto_ver == 5 then v5 r5 else v3 r3

-- Whether the result is bad credentials, or no authorisation, or neither with whether a superuser.
pub data Verdict : Type 0 where
  bad_user_or_pass not_auth : Verdict
  accepted : Bool → Verdict

abbrev pub verdict : Bool → Option HookResult → Verdict
verdict allow_anonymous (some (auth_result bad_username_or_password)) = bad_user_or_pass
verdict allow_anonymous (some (auth_result AuthResult.not_authorized)) = not_auth
verdict allow_anonymous (some (auth_result (AuthResult.allow superuser))) = accepted superuser
verdict allow_anonymous (some (auth_result not_found)) =
    if allow_anonymous then accepted false else not_auth
verdict allow_anonymous (some (subscribe_acl_result r)) =
    if allow_anonymous then accepted false else not_auth
verdict allow_anonymous (some (publish_acl_result r)) =
    if allow_anonymous then accepted false else not_auth
verdict allow_anonymous (some HookResult.other) =
    if allow_anonymous then accepted false else not_auth
verdict allow_anonymous none = if allow_anonymous then accepted false else not_auth

abbrev pub answer : ℕ → Verdict → ConnectAckReason × Bool
answer proto_ver bad_user_or_pass = (
  by_version proto_ver ConnectAckReasonV3.bad_user_name_or_password
      ConnectAckReasonV5.bad_user_name_or_password,
  false,
)
answer proto_ver not_auth = (
  by_version proto_ver ConnectAckReasonV3.not_authorized ConnectAckReasonV5.not_authorized,
  false,
)
answer proto_ver (accepted superuser) =
    (by_version proto_ver connection_accepted ConnectAckReasonV5.success, superuser)

-- `client_authenticate`: the answer, and whether the client is a superuser.
unfoldable pub authenticate : Handlers → ℕ → Bool → Client → ConnectAckReason × Bool
authenticate handlers proto_ver allow_anonymous c =
    if not (is_some c.id.username) && allow_anonymous
    then answer proto_ver (accepted false)
    else answer proto_ver (verdict allow_anonymous (exec (client_authenticate c) handlers))
