-- ===== src/Aliases/Recover.antt =====
-- A receiver with `ClientTopicAliases` of rmqtt/src/broker/types.rs recovers the topics that a sender with
-- `ServerTopicAliases` abbreviates.
use Prim.Native.String.{String}
use rmqtt.Common.{
  ℕ, ◌+◌, ◌%◌, ◌^◌, ◌≤◌, ◌<◌, ◌==◌, ◌≡◌, refl, false, Option, none, some, List, [], ◌∷◌, map, leb,
  length, get, put, get-put, length-put, nat_key, arith, Option-cases, Bool-cases, inl, inr,
}
use text.Mathlib.TextEquality.{eq_iff}
use rmqtt.Types.{string_key}
use rmqtt.Aliases.{
  ServerTopicAliases, ClientTopicAliases, is_blank, new_server, new_client, get_alias, set_and_get,
}

-- What is on the wire where there is no topic is the empty one.
abbrev topic_sent : Option String → String
topic_sent none = ""
topic_sent (some t) = t

-- One message: what the receiver reads, and both tables after it.
pub pass :
    String
    → ServerTopicAliases
    → ClientTopicAliases
    → Option String × ServerTopicAliases × ClientTopicAliases
pass t s c = elim (get_alias t s) [
  | none ↦ (none, s, c)
  | some ((topic, alias), s') ↦
      let (got, c') = set_and_get alias (topic_sent topic) c in (got, s', c')
]

pub received : List String → ServerTopicAliases → ClientTopicAliases → List (Option String)
received [] s c = []
received (t ∷ ts) s c = let (got, s', c') = pass t s c in got ∷ received ts s' c'

abbrev pub NotBlank : List String → Type 0
NotBlank [] = Unit
NotBlank (t ∷ ts) = (is_blank t ≡ false) × NotBlank ts

-- The tables agree.
pub record Agree (s : ServerTopicAliases) (c : ClientTopicAliases) : Type 0 where
  pub limits : s.max_topic_aliases ≤ c.max_topic_aliases
  pub within : s.max_topic_aliases < 2 ^ 16
  pub sizes : length c.aliases ≤ length s.aliases
  pub known :
      (t : String) (a : ℕ)
      → get t s.aliases ≡ some a
      → (get a c.aliases ≡ some t) × (a ≤ length s.aliases)
  pub used : (a : ℕ) (t : String) → get a c.aliases ≡ some t → a ≤ length s.aliases

-- The tables after a new alias, one more than those in use.
next_alias-Agree :
    (t : String) (s : ServerTopicAliases) (c : ClientTopicAliases)
    → Agree s c
    → get t s.aliases ≡ none
    → length s.aliases < s.max_topic_aliases
    → Agree
        (record s { aliases = put t (length s.aliases + 1) s.aliases })
        (record c { aliases = put (length s.aliases + 1) t c.aliases })
next_alias-Agree t s c h new room =
    let a : ℕ = length s.aliases + 1 in
    let ls = length-put t a s.aliases in
    let lc = length-put a t c.aliases in
    record {
      limits = h.limits;
      within = h.within;
      sizes = ground (arith, ls, lc, h.sizes);
      known = λ u b e.
          ground
            (arith, ls, get-put t u a s.aliases, get-put a b t c.aliases, eq_iff t u, h.known u b);
      used = λ b u e. ground (arith, ls, get-put a b t c.aliases, h.used b u);
    }

module _ (t : String) (s : ServerTopicAliases) (c : ClientTopicAliases) (h : Agree s c) where
  fresh : get (length s.aliases + 1) c.aliases ≡ none
  fresh = elim (Option-cases (get (length s.aliases + 1) c.aliases)) [
    | inl e ↦ e
    | inr (u, e) ↦ absurd (omega (arith, h.used (length s.aliases + 1) u e))
  ]

  pass_lem : is_blank t ≡ false → ((pass t s c).0 ≡ some t) × Agree (pass t s c).1 (pass t s c).2
  unfolding pass get_alias set_and_get
  pass_lem b = elim (Bool-cases (s.max_topic_aliases == 0)) [
    | inl e ↦ rw (e, pass, get_alias, b) (refl, h)
    | inr e ↦ elim (Option-cases (get t s.aliases)) [
      | inr (a, k) ↦ rw (e, k, pass, get_alias) ((h.known t a k).0, h)
      | inl k ↦ elim (Bool-cases (leb s.max_topic_aliases (length s.aliases))) [
        | inl full ↦ rw (e, k, full, pass, get_alias, b) (refl, h)
        | inr room ↦
            let exact : (length s.aliases + 1) % 2 ^ 16 ≡ length s.aliases + 1 =
              ground (arith, h.within) in
            let nonzero : (length s.aliases + 1 == 0) ≡ false = ground arith in
            let space : leb c.max_topic_aliases (length c.aliases) ≡ false =
              ground (arith, h.limits, h.sizes) in
            rw (e, k, room, exact, nonzero, b, fresh, space, pass, get_alias)
              (refl, next_alias-Agree t s c h k (ground arith))
      ]
    ]
  ]

-- A receiver whose limit is no lower recovers every topic in its order from what the sender
-- abbreviates, whatever topics are sent, if the tables agree at the start and no topic is empty.
pub received_lem :
    (ts : List String) (s : ServerTopicAliases) (c : ClientTopicAliases)
    → NotBlank ts
    → Agree s c
    → received ts s c ≡ map some ts
unfolding received
received_lem [] s c b h = refl
received_lem (t ∷ ts) s c (b, bs) h =
    let (first, after) = pass_lem t s c h b in
    rw (first, received_lem ts (pass t s c).1 (pass t s c).2 bs after) refl

-- New tables agree.
pub new-Agree :
    (max_server max_client : ℕ)
    → max_server ≤ max_client
    → max_server < 2 ^ 16
    → Agree (new_server max_server) (new_client max_client)
new-Agree ms mc limits within = record {
  limits = limits;
  within = within;
  sizes = omega arith;
  known = λ t a e. cc;
  used = λ a t e. cc;
}
