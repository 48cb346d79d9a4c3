-- ===== src/Aliases.antt =====
-- rmqtt/src/broker/types.rs: topic aliases, `ServerTopicAliases` for what the broker sends and
-- `ClientTopicAliases` for what it receives. A topic is a text, an alias a nonzero 16-bit number.
pub mod Recover
mod Tests
use Prim.Native.String.{String}
use rmqtt.Common.{
  ℕ, ◌+◌, ◌%◌, ◌^◌, Bool, true, false, Option, none, some, List, ◌==◌, leb, length, get, put,
  nat_key, if◌then◌else◌,
}
use rmqtt.Types.{string_key}

pub record ServerTopicAliases : Type 0 where
  pub max_topic_aliases : ℕ
  pub aliases : List (String × ℕ)

pub record ClientTopicAliases : Type 0 where
  pub max_topic_aliases : ℕ
  pub aliases : List (ℕ × String)

abbrev pub new_server : ℕ → ServerTopicAliases
new_server max = record { max_topic_aliases = max; aliases = List.[] }

abbrev pub new_client : ℕ → ClientTopicAliases
new_client max = record { max_topic_aliases = max; aliases = List.[] }

abbrev pub is_blank : String → Bool
is_blank String.[] = true
is_blank (String.◌∷◌ c s) = false

-- `ServerTopicAliases::get`: the topic and the alias that are sent. `none` is `unreachable!()`, an alias
-- of 0.
unfoldable pub get_alias :
    String → ServerTopicAliases → Option ((Option String × Option ℕ) × ServerTopicAliases)
get_alias topic s =
    if s.max_topic_aliases == 0 then some ((some topic, none), s) else elim (get topic s.aliases) [
      | some alias ↦ some ((none, some alias), s)
      | none ↦
          let len = length s.aliases in
          let alias : ℕ = (len + 1) % 2 ^ 16 in
          if leb s.max_topic_aliases len
          then some ((some topic, none), s)
          else if alias == 0
          then none
          else some ((some topic, some alias), record s { aliases = put topic alias s.aliases })
    ]

-- `ClientTopicAliases::set_and_get`; `none` is an error.
unfoldable pub set_and_get :
    Option ℕ → String → ClientTopicAliases → Option String × ClientTopicAliases
set_and_get (some alias) topic c =
    if is_blank topic then (get alias c.aliases, c) else elim (get alias c.aliases) [
      | some _ ↦ (some topic, record c { aliases = put alias topic c.aliases })
      | none ↦
          if leb c.max_topic_aliases (length c.aliases)
          then (none, c)
          else (some topic, record c { aliases = put alias topic c.aliases })
    ]
set_and_get none topic c = if is_blank topic then (none, c) else (some topic, c)
