-- ===== src/Acl/Config.antt =====
-- The reading of rules from their settings, in rmqtt-plugins/rmqtt-acl/src/config.rs. An error is `none`; the
-- argument `lower` is `to_lowercase`.
use Prim.Native.String.{String, ◌∷◌ as char_cons}
use Prim.Native.Char.{Char}
use text.Mathlib.Text.{◌==◌ as str_eq}
use rmqtt.Common.{
  ℕ, zero, suc, Bool, true, false, ◌&&◌, ◌||◌, Option, none, some, List, [], ◌∷◌, ◌++◌,
  if◌then◌else◌, Key, unit_key,
}
use rmqtt.Types.{string_key}
use rmqtt.TopicTree.Levels.{Levels}
use rmqtt.TopicTree.{insert, default, set_insert}
use rmqtt.Router.Names.{TopicNames}
use rmqtt.Acl.{
  Access, allow, deny, User, by_username, by_clientid, by_ipaddr, Control, Topics, Rule, is_char,
}

-- `serde_json::Value`, with the values of a list and the entries of an object.
mutual
  pub data Value : Type 0 where
    null : Value
    bool : Bool → Value
    number : ℕ → Value
    string : String → Value
    array : Values → Value
    object : Entries → Value

  pub data Values : Type 0 where
    nil : Values
    cons : Value → Values → Values

  pub data Entries : Type 0 where
    blank : Entries
    entry : String → Value → Entries → Entries

abbrev pub get_key : String → Entries → Option Value
get_key k blank = none
get_key k (entry j v es) = if str_eq j k then some v else get_key k es

abbrev pub nth : ℕ → Values → Option Value
nth n nil = none
nth zero (cons v vs) = some v
nth (suc n) (cons v vs) = nth n vs

abbrev pub is_empty : String → Bool
is_empty String.[] = true
is_empty (char_cons c s) = false

-- `str::contains` of a percent sign and a letter.
abbrev pub has_placeholder : Char → String → Bool
has_placeholder k String.[] = false
has_placeholder k (char_cons c String.[]) = false
has_placeholder k (char_cons c (char_cons d s)) =
    (is_char c "%" && is_char d k) || has_placeholder k (char_cons d s)

unfoldable pub access_from : (String → String) → Value → Option Access
access_from lower (string s) =
    if str_eq (lower s) "allow"
    then some allow
    else if str_eq (lower s) "deny"
    then some deny
    else none
access_from lower null = none
access_from lower (bool b) = none
access_from lower (number n) = none
access_from lower (array vs) = none
access_from lower (object es) = none

-- `Some(Value::String(..))`, and then a nonempty one.
abbrev pub as_text : Option Value → Option String
as_text none = none
as_text (some (string s)) = some s
as_text (some null) = none
as_text (some (bool b)) = none
as_text (some (number n)) = none
as_text (some (array vs)) = none
as_text (some (object es)) = none

abbrev pub as_bool : Option Value → Bool
as_bool none = false
as_bool (some (bool b)) = b
as_bool (some null) = false
as_bool (some (string s)) = false
as_bool (some (number n)) = false
as_bool (some (array vs)) = false
as_bool (some (object es)) = false

abbrev pub nonempty : (String → User) → String → Option User
nonempty make s = if is_empty s then none else some (make s)

-- The cases after that of a name.
abbrev pub by_id_or_addr : Option Value → Option Value → Option User
by_id_or_addr clientid ipaddr = elim (as_text clientid) [
  | some id ↦ nonempty by_clientid id
  | none ↦ elim (as_text ipaddr) [ some ip ↦ nonempty by_ipaddr ip | none ↦ none ]
]

-- A name with the password and the flag of an allowing rule.
abbrev pub named : String → Option Value → Option Value → Option User
named name none superuser = nonempty (λ s. by_username s none (as_bool superuser)) name
named name (some (string p)) superuser =
    nonempty (λ s. by_username s (some p) (as_bool superuser)) name
named name (some null) superuser = none
named name (some (bool b)) superuser = none
named name (some (number n)) superuser = none
named name (some (array vs)) superuser = none
named name (some (object es)) superuser = none

-- The `match` on an object.
unfoldable pub user_of :
    Access → Option Value → Option Value → Option Value → Option Value → Option Value → Option User
user_of allow name password superuser clientid ipaddr = elim (as_text name) [
  | some s ↦ named s password superuser
  | none ↦ by_id_or_addr clientid ipaddr
]
user_of deny name none none clientid ipaddr = elim (as_text name) [
  | some s ↦ nonempty (λ t. by_username t none false) s
  | none ↦ by_id_or_addr clientid ipaddr
]
user_of deny name (some p) superuser clientid ipaddr = by_id_or_addr clientid ipaddr
user_of deny name none (some b) clientid ipaddr = by_id_or_addr clientid ipaddr

unfoldable pub user_from : (String → String) → Value → Access → Option User
user_from lower (string s) access = if str_eq (lower s) "all" then some User.all else none
user_from lower (object es) access =
    user_of access (get_key "user" es) (get_key "password" es) (get_key "superuser" es)
      (get_key "clientid" es) (get_key "ipaddr" es)
user_from lower null access = none
user_from lower (bool b) access = none
user_from lower (number n) access = none
user_from lower (array vs) access = none

unfoldable pub control_from : (String → String) → Option Value → Option Control
control_from lower none = some Control.all
control_from lower (some (string s)) =
    if str_eq (lower s) "connect"
    then some Control.connect
    else if str_eq (lower s) "publish"
    then some Control.publish
    else if str_eq (lower s) "subscribe"
    then some Control.subscribe
    else if str_eq (lower s) "pubsub"
    then some Control.pubsub
    else if str_eq (lower s) "all"
    then some Control.all
    else none
control_from lower (some null) = none
control_from lower (some (bool b)) = none
control_from lower (some (number n)) = none
control_from lower (some (array vs)) = none
control_from lower (some (object es)) = none

module _ {L : Type 0} ⦃l : Key L⦄ (lv : Levels L) (tn : TopicNames L) where
  abbrev pub no_topics : Bool → Topics lv tn
  no_topics all_topics = record {
    all_topics = all_topics;
    eqs = [];
    eq_placeholders = [];
    tree = default;
    placeholders = [];
  }

  -- One topic of a rule: a text is a filter, an object has a text to be equal to.
  unfoldable pub topic_from : Value → Topics lv tn → Option (Topics lv tn)
  topic_from (string s) t =
      if has_placeholder "u" s || has_placeholder "c" s
      then some (record t { placeholders = t.placeholders ++ s ∷ [] })
      else elim (tn.from_str s) [
        | some f ↦ some (record t { tree = (insert f tt t.tree).1 })
        | none ↦ none
      ]
  topic_from (object es) t = elim (as_text (get_key "eq" es)) [
    | some s ↦
        if has_placeholder "u" s || has_placeholder "c" s
        then some (record t { eq_placeholders = t.eq_placeholders ++ s ∷ [] })
        else some (record t { eqs = set_insert s t.eqs })
    | none ↦ none
  ]
  topic_from null t = none
  topic_from (bool b) t = none
  topic_from (number n) t = none
  topic_from (array vs) t = none

  unfoldable pub topics_in : Values → Topics lv tn → Option (Topics lv tn)
  topics_in nil t = some t
  topics_in (cons v vs) t = elim (topic_from v t) [ some t' ↦ topics_in vs t' | none ↦ none ]

  unfoldable pub topics_from : Option Value → Option (Topics lv tn)
  topics_from none = some (no_topics true)
  topics_from (some (array vs)) = topics_in vs (no_topics false)
  topics_from (some null) = none
  topics_from (some (bool b)) = none
  topics_from (some (number n)) = none
  topics_from (some (string s)) = none
  topics_from (some (object es)) = none

  abbrev pub rule_of :
      Option Access → Option User → Option Control → Option (Topics lv tn) → Option (Rule lv tn)
  rule_of (some access) (some user) (some control) (some topics) =
      some (record { access = access; user = user; control = control; topics = topics })
  rule_of none user control topics = none
  rule_of (some access) none control topics = none
  rule_of (some access) (some user) none topics = none
  rule_of (some access) (some user) (some control) none = none

  unfoldable pub rule_from : (String → String) → Value → Option (Rule lv tn)
  rule_from lower (array (cons access_cfg (cons user_cfg vs))) =
      elim (access_from lower access_cfg) [
        | some access ↦
            rule_of (some access) (user_from lower user_cfg access) (control_from lower (nth 0 vs))
              (topics_from (nth 1 vs))
        | none ↦ none
      ]
  rule_from lower (array (cons access_cfg nil)) = none
  rule_from lower (array nil) = none
  rule_from lower null = none
  rule_from lower (bool b) = none
  rule_from lower (number n) = none
  rule_from lower (string s) = none
  rule_from lower (object es) = none

  unfoldable pub rules_in : (String → String) → Values → Option (List (Rule lv tn))
  rules_in lower nil = some []
  rules_in lower (cons v vs) =
      let rest = rules_in lower vs in
      elim (rule_from lower v) [
        | some rule ↦ elim rest [ some rules ↦ some (rule ∷ rules) | none ↦ none ]
        | none ↦ none
      ]

  -- `deserialize_rules`: what is no list has no rules.
  unfoldable pub deserialize_rules : (String → String) → Value → Option (List (Rule lv tn))
  deserialize_rules lower (array vs) = rules_in lower vs
  deserialize_rules lower null = some []
  deserialize_rules lower (bool b) = some []
  deserialize_rules lower (number n) = some []
  deserialize_rules lower (string s) = some []
  deserialize_rules lower (object es) = some []
