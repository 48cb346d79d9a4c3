-- ===== src/Retain/Storage.antt =====
-- `DefaultRetainStorage` of rmqtt/src/broker/default.rs, which keeps the retained messages of the node in
-- memory, and `RamRetainer` of rmqtt-plugins/rmqtt-retainer/src/ram.rs, which limits it. Time is an
-- argument, `now`.
use Prim.Native.String.{String}
use rmqtt.Common.{
  ℕ, ◌+◌, Bool, true, false, not, ◌&&◌, Option, none, some, List, [], ◌∷◌, Key, if◌then◌else◌,
  is_some, ltb, leb, leb_ℤ, ltb, length, pos,
}
use rmqtt.Types.{Retain, is_empty}
use rmqtt.Stats.{Counter, inc, dec}
use rmqtt.TopicTree.Levels.{Levels}
use rmqtt.Router.Names.{TopicNames}
use rmqtt.Retain.{Node, insert, remove, retain}
use rmqtt.Retain.Search.{Found, matches}

-- `TimedValue`: a value with the time at which it expires.
pub record TimedValue (V : Type 0) : Type 0 where
  pub value : V
  pub expiry : Option ℕ

abbrev pub new_timed : {V : Type 0} → ℕ → V → Option ℕ → TimedValue V
new_timed now value timeout_duration = record {
  value = value;
  expiry = elim timeout_duration [ some t ↦ some (now + t) | none ↦ none ];
}

abbrev pub is_expired : {V : Type 0} → ℕ → TimedValue V → Bool
is_expired now tv = elim tv.expiry [ some e ↦ leb e now | none ↦ false ]

pub record RetainStorage (L : Type 0) : Type 0 where
  pub messages : Node L (TimedValue Retain)
  pub retaineds : Counter

module _ {L : Type 0} ⦃l : Key L⦄ (lv : Levels L) (tn : TopicNames L) where
  -- An expired message is counted down and not kept.
  abbrev pub keep_message : ℕ → TimedValue Retain → Counter → Bool × TimedValue Retain × Counter
  keep_message now tv retaineds =
      if is_expired now tv then (false, tv, dec retaineds) else (true, tv, retaineds)

  -- `max_limit` is `usize::MAX` in the source.
  unfoldable pub remove_expired_messages : ℕ → ℕ → RetainStorage L → ℕ × RetainStorage L
  remove_expired_messages max_limit now s =
      let ((removeds, retaineds), messages) =
        retain (keep_message now) max_limit s.retaineds s.messages in
      (removeds, record { messages = messages; retaineds = retaineds })

  -- Storing on a legal topic, given what was removed from it.
  abbrev pub store :
      List L
      → ℕ
      → Retain
      → Option ℕ
      → Option (TimedValue Retain)
      → RetainStorage L
      → RetainStorage L
  store topic now retain timeout old s =
      if not (is_empty retain.publish)
      then record {
        messages = insert topic (new_timed now retain timeout) s.messages;
        retaineds = if is_some old then s.retaineds else inc s.retaineds;
      }
      else record s { retaineds = if is_some old then dec s.retaineds else s.retaineds }

  -- The first component is `false` for the error of an illegal topic.
  unfoldable pub set_with_timeout :
      ℕ → String → Retain → Option ℕ → RetainStorage L → Bool × RetainStorage L
  set_with_timeout now topic retain timeout s = elim (tn.from_str topic) [
    | none ↦ (false, s)
    | some t ↦
        let (old, messages) = remove t s.messages in
        (true, store t now retain timeout old (record s { messages = messages }))
  ]

  abbrev pub unexpired : ℕ → Found L (TimedValue Retain) → List (String × Retain)
  unexpired now [] = []
  unexpired now ((t, r) ∷ found) =
      if is_expired now r
      then unexpired now found
      else (tn.to_topic_filter t, r.value) ∷ unexpired now found

  unfoldable pub get_message : ℕ → String → RetainStorage L → Option (List (String × Retain))
  get_message now topic_filter s = elim (tn.from_str topic_filter) [
    | none ↦ none
    | some t ↦ some (unexpired now (matches lv t s.messages))
  ]

  -- The limits of the plugin; a limit of 0 messages is none.
  pub record PluginConfig : Type 0 where
    pub max_retained_messages : ℕ
    pub max_payload_size : ℕ

  -- `RamRetainer::set`.
  unfoldable pub ram_set :
      Bool
      → PluginConfig
      → ℕ
      → String
      → Retain
      → Option ℕ
      → RetainStorage L
      → Bool × RetainStorage L
  ram_set retain_enable cfg now topic retain expiry_interval s =
      if not retain_enable
      then (true, s)
      else if ltb cfg.max_payload_size (length retain.publish.payload)
      then (true, s)
      else if ltb 0 cfg.max_retained_messages
          && leb_ℤ (pos cfg.max_retained_messages) s.retaineds.current
      then (true, s)
      else set_with_timeout now topic retain expiry_interval s

  -- `RamRetainer::get`.
  unfoldable pub ram_get : Bool → ℕ → String → RetainStorage L → Option (List (String × Retain))
  ram_get retain_enable now topic_filter s =
      if not retain_enable then some [] else get_message now topic_filter s
