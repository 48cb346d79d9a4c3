-- ===== src/Acl.antt =====
-- rmqtt-plugins/rmqtt-acl/src: the rules of config.rs and the handler of lib.rs that decides by them. A text
-- in lower case and the text of an address are arguments.
pub mod Config
pub mod Covers
pub mod Decides
pub mod Enforced
pub mod Placeholders
pub mod Superusers
mod Tests
use Prim.Native.String.{String, ◌∷◌ as char_cons}
use Prim.Native.Char.{Char, code}
use rmqtt.Common.{
  ℕ, suc, ◌==◌, Bool, true, false, ◌&&◌, ◌||◌, not, Option, none, some, List, [], ◌∷◌, ◌++◌, map,
  if◌then◌else◌, Key, same, length, join, unit_key,
}
use rmqtt.Types.{Identity, Publish, string_key}
use rmqtt.Subscriptions.{Subscribe, qos}
use rmqtt.Subscriptions.Answers.{SubscribeReturn, new_success, new_failure, failed, failure}
use rmqtt.TopicTree.Levels.{Levels}
use rmqtt.TopicTree.{Node, insert, default, contains, set_insert}
use rmqtt.TopicTree.Matcher.{is_match}
use rmqtt.Router.Names.{TopicNames}
use rmqtt.Hooks.{
  Client, Parameter, client_connected, client_authenticate, client_subscribe_check_acl,
  message_publish_check_acl, other, HookResult, auth_result, subscribe_acl_result,
  publish_acl_result, AuthResult, PublishAclResult, rejected, bad_username_or_password,
}

pub data Access : Type 0 where
  allow deny : Access

pub data User : Type 0 where
  by_username : String → Option String → Bool → User
  by_clientid by_ipaddr : String → User
  all : User

pub data Control : Type 0 where
  all connect publish subscribe pubsub : Control

-- `User::hit` for a name, by the client's name and password, the rule's password, and the access.
abbrev pub hit_name :
    String → Bool → Option String → Option String → Option String → Bool → Bool × Bool
hit_name name1 superuser none password password1 access = (false, false)
hit_name name1 superuser (some name2) (some password2) (some password1) true =
    (same name1 name2 && same password1 password2, superuser)
hit_name name1 superuser (some name2) (some password2) (some password1) false =
    (same name1 name2, false)
hit_name name1 superuser (some name2) none (some password1) access = (false, false)
hit_name name1 superuser (some name2) password none true = (same name1 name2, superuser)
hit_name name1 superuser (some name2) password none false = (same name1 name2, false)

-- `User::hit`; `ip` is the text of an address.
unfoldable pub hit : (ℕ → String) → User → Client → Bool → Bool × Bool
hit ip all c access = (true, false)
hit ip (by_username name password superuser) c access =
    hit_name name superuser c.id.username c.password password access
hit ip (by_clientid clientid) c access = (same c.id.client_id clientid, false)
hit ip (by_ipaddr ipaddr) c access = elim (c.id.remote_addr) [
  | some remote_addr ↦ (same ipaddr (ip remote_addr), false)
  | none ↦ (false, false)
]

abbrev pub is_allow : Access → Bool
is_allow allow = true
is_allow deny = false

abbrev pub controls_connect : Control → Bool
controls_connect connect = true
controls_connect all = true
controls_connect publish = false
controls_connect subscribe = false
controls_connect pubsub = false

abbrev pub controls_subscribe : Control → Bool
controls_subscribe subscribe = true
controls_subscribe pubsub = true
controls_subscribe all = true
controls_subscribe connect = false
controls_subscribe publish = false

abbrev pub controls_publish : Control → Bool
controls_publish publish = true
controls_publish pubsub = true
controls_publish all = true
controls_publish connect = false
controls_publish subscribe = false

-- `str::replace` of a percent sign and a letter.
abbrev pub is_char : Char → Char → Bool
is_char a b = code a == code b

unfoldable pub replace : Char → String → String → String
replace k to String.[] = String.[]
replace k to (char_cons c String.[]) = char_cons c String.[]
replace k to (char_cons c (char_cons d s)) =
    let after = replace k to s in
    let rest = replace k to (char_cons d s) in
    if is_char c "%" && is_char d k then join to after else char_cons c rest

abbrev pub or_blank : Option String → String
or_blank none = String.[]
or_blank (some s) = s

-- A text with `%c` and `%u` for a client.
unfoldable pub expand : Identity → String → String
expand id s = replace "u" (or_blank id.username) (replace "c" id.client_id s)

-- `AuthResult` of a rule that hits.
abbrev pub authenticated : Access → Bool → HookResult
authenticated allow superuser = auth_result (AuthResult.allow superuser)
authenticated deny superuser = auth_result AuthResult.not_authorized

-- `SubscribeAckReason::NotAuthorized` is 135.
abbrev pub subscribed : Access → Subscribe → HookResult
subscribed allow sub = subscribe_acl_result (new_success (qos sub.opts) none)
subscribed deny sub = subscribe_acl_result (new_failure (failed 135))

abbrev pub published : Access → Bool → HookResult
published allow disconnect = publish_acl_result PublishAclResult.allow
published deny disconnect = publish_acl_result (rejected disconnect)

-- `BadUsernameOrPassword` and `NotAuthorized` of the handlers before.
abbrev pub is_refused : Option HookResult → Bool
is_refused (some (auth_result bad_username_or_password)) = true
is_refused (some (auth_result AuthResult.not_authorized)) = true
is_refused (some (auth_result (AuthResult.allow superuser))) = false
is_refused (some (auth_result AuthResult.not_found)) = false
is_refused (some (subscribe_acl_result r)) = false
is_refused (some (publish_acl_result r)) = false
is_refused (some HookResult.other) = false
is_refused none = false

abbrev pub is_failed : Option HookResult → Bool
is_failed (some (subscribe_acl_result r)) = failure r
is_failed (some (auth_result r)) = false
is_failed (some (publish_acl_result r)) = false
is_failed (some HookResult.other) = false
is_failed none = false

abbrev pub is_rejected : Option HookResult → Bool
is_rejected (some (publish_acl_result (rejected disconnect))) = true
is_rejected (some (publish_acl_result PublishAclResult.allow)) = false
is_rejected (some (auth_result r)) = false
is_rejected (some (subscribe_acl_result r)) = false
is_rejected (some HookResult.other) = false
is_rejected none = false

module _ {L : Type 0} ⦃l : Key L⦄ (lv : Levels L) (tn : TopicNames L) where
  pub record Topics : Type 0 where
    pub all_topics : Bool
    pub eqs : List String
    pub eq_placeholders : List String
    pub tree : Node L (Unit {0})
    pub placeholders : List String

  pub record Rule : Type 0 where
    pub access : Access
    pub user : User
    pub control : Control
    pub topics : Topics

  pub record PluginConfig : Type 0 where
    pub disconnect_if_pub_rejected : Bool
    pub priority : ℕ
    pub rules : List Rule

  -- An illegal topic name is the empty topic.
  abbrev pub topic_of : String → List L
  topic_of s = elim (tn.from_str s) [ some topic ↦ topic | none ↦ [] ]

  -- `Topics::is_match`; the fuel of the tree is one more than the levels of the topic.
  unfoldable pub is_match_topic : Topics → String → Bool
  is_match_topic t s =
      if t.all_topics
      then true
      else if contains s t.eqs
      then true
      else is_match lv (suc (length (topic_of s))) t.tree (topic_of s)

  module _ (ip : ℕ → String) where
    -- The loop over the rules for a connection.
    unfoldable pub check_connect : List Rule → Client → HookResult
    check_connect [] c = authenticated deny false
    check_connect (rule ∷ rules) c =
        let rest = check_connect rules c in
        if not (controls_connect rule.control)
        then rest
        else (let (hits, superuser) = hit ip rule.user c (is_allow rule.access) in
            if hits then authenticated rule.access superuser else rest)

    unfoldable pub check_subscribe : List Rule → Client → Subscribe → HookResult
    check_subscribe [] c sub = subscribed deny sub
    check_subscribe (rule ∷ rules) c sub =
        let rest = check_subscribe rules c sub in
        if not (controls_subscribe rule.control)
        then rest
        else if not (hit ip rule.user c (is_allow rule.access)).0
        then rest
        else if not (is_match_topic rule.topics sub.topic_filter)
        then rest
        else subscribed rule.access sub

    unfoldable pub check_publish : Bool → List Rule → Client → Publish → HookResult
    check_publish disconnect [] c p = published deny disconnect
    check_publish disconnect (rule ∷ rules) c p =
        let rest = check_publish disconnect rules c p in
        if not (controls_publish rule.control)
        then rest
        else if not (hit ip rule.user c (is_allow rule.access)).0
        then rest
        else if not (is_match_topic rule.topics p.topic)
        then rest
        else published rule.access disconnect

    -- `AclHandler::hook`. For a client that has connected it starts `connected`.
    unfoldable pub hook : PluginConfig → Parameter → Option HookResult → Bool × Option HookResult
    hook cfg (client_connected c) acc = (true, acc)
    hook cfg (client_authenticate c) acc =
        if is_refused acc then (false, acc) else (false, some (check_connect cfg.rules c))
    hook cfg (client_subscribe_check_acl c sub) acc =
        if is_failed acc then (false, acc) else (false, some (check_subscribe cfg.rules c sub))
    hook cfg (message_publish_check_acl c p) acc =
        if is_rejected acc
        then (false, acc)
        else (false, some (check_publish cfg.disconnect_if_pub_rejected cfg.rules c p))
    hook cfg Parameter.other acc = (true, acc)

  -- `Rule::add_topic_filter`; an illegal filter is logged.
  unfoldable pub add_topic_filter : String → Topics → Topics
  add_topic_filter s t = elim (tn.from_str s) [
    | some f ↦ record t { tree = (insert f tt t.tree).1 }
    | none ↦ t
  ]

  unfoldable pub add_topic_filters : Identity → List String → Topics → Topics
  add_topic_filters id [] t = t
  add_topic_filters id (p ∷ ps) t = add_topic_filters id ps (add_topic_filter (expand id p) t)

  unfoldable pub add_topics_to_eqs : Identity → List String → Topics → Topics
  add_topics_to_eqs id [] t = t
  add_topics_to_eqs id (p ∷ ps) t =
      add_topics_to_eqs id ps (record t { eqs = set_insert (expand id p) t.eqs })

  -- `build_placeholders` for a rule.
  unfoldable pub build_placeholders : Identity → Rule → Rule
  build_placeholders id rule = record rule {
    topics =
        add_topics_to_eqs id rule.topics.eq_placeholders
          (add_topic_filters id rule.topics.placeholders rule.topics);
  }

  -- What a client that has connected adds to the rules.
  unfoldable pub connected : Identity → PluginConfig → PluginConfig
  connected id cfg = record cfg { rules = map (build_placeholders id) cfg.rules }
