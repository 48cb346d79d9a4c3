-- ===== src/Router/Sample.antt =====
-- Topics whose levels are numbers, with two texts that stand for topics, for tests of the router of
-- rmqtt/src/broker/default.rs.
use Prim.Native.String.{String}
use text.Mathlib.Text.{◌==◌ as str_eq}
use text.Mathlib.TextEquality.{eq_iff}
use rmqtt.Common.{
  arith, ℕ, ◌==◌, ◌≡◌, refl, sym, ◌∙◌, ap, Option, none, some, List, [], ◌∷◌, if◌then◌else◌,
  nat_key, list_same, Bool-cases, inl, inr,
}
use rmqtt.Types.{Identity, at_least_once, string_key}
use rmqtt.Subscriptions.{SubscriptionOptions, v3}
use rmqtt.TopicTree.Levels.{Levels}
use rmqtt.Router.Names.{TopicNames}

-- `#` is 1, `+` is 2, the empty level 0, and 3 starts with `$`.
abbrev pub levels : Levels ℕ
levels = record {
  blank = 0;
  multi_wildcard = 1;
  single_wildcard = 2;
  is_metadata = λ t. t == 3;
  multi_plain = refl;
  single_plain = refl;
  wildcards_differ = λ e. omega (arith, e);
}

abbrev pub read : String → Option (List ℕ)
read s =
    if str_eq s "a/b" then some (5 ∷ 6 ∷ []) else if str_eq s "a/+" then some (5 ∷ 2 ∷ []) else none

abbrev pub write : List ℕ → String
write topic = if list_same topic (5 ∷ 6 ∷ []) then "a/b" else "a/+"

pub write-read : (s : String) (topic : List ℕ) → read s ≡ some topic → write topic ≡ s
write-read s topic e = elim (Bool-cases (str_eq s "a/b")) [
  | inl h ↦
      let e' : ◌≡◌ {A = Option (List ℕ)} (some (5 ∷ 6 ∷ [])) (some topic) = rw h at e in
      let same : ◌≡◌ {A = List ℕ} (5 ∷ 6 ∷ []) topic = cc e' in
      ap write (sym same) ∙ sym ((eq_iff s "a/b").0 h)
  | inr h ↦ elim (Bool-cases (str_eq s "a/+")) [
    | inl h' ↦
        let e' : ◌≡◌ {A = Option (List ℕ)} (some (5 ∷ 2 ∷ [])) (some topic) = rw (h, h') at e in
        let same : ◌≡◌ {A = List ℕ} (5 ∷ 2 ∷ []) topic = cc e' in
        ap write (sym same) ∙ sym ((eq_iff s "a/+").0 h')
    | inr h' ↦
        let e' : ◌≡◌ {A = Option (List ℕ)} none (some topic) = rw (h, h') at e in absurd (cc e')
  ]
]

abbrev pub names : TopicNames ℕ
names = record { from_str = read; to_topic_filter = write; written = write-read }

abbrev pub client : ℕ → String → Identity
client node name = record {
  node_id = node;
  local_addr = none;
  remote_addr = some 80;
  client_id = name;
  username = none;
  create_time = 0;
}

abbrev pub plain : SubscriptionOptions
plain = v3 (record { qos = at_least_once; shared_group = none })
