-- ===== src/Acl/Superusers.antt =====
-- Who becomes a superuser by the rules of rmqtt-plugins/rmqtt-acl.
use Prim.Native.String.{String}
use rmqtt.Common.{
  ℕ, ◌≡◌, refl, sym, ◌∙◌, ap, Bool, true, false, ◌&&◌, Option, none, some, List, [], ◌∷◌, Key, In,
  arith, Bool-cases, Option-cases, inl, inr, ◌⊎◌, same, same→eq,
}
use rmqtt.Types.{string_key}
use rmqtt.TopicTree.Levels.{Levels}
use rmqtt.Router.Names.{TopicNames}
use rmqtt.Hooks.{Client, auth_result, AuthResult}
use rmqtt.Acl.{
  Access, allow, deny, User, by_username, by_clientid, by_ipaddr, hit_name, hit, is_allow,
  controls_connect, authenticated, Rule, check_connect,
}

-- What a rule for a superuser asks of a client: the name, and the password if the rule has one.
abbrev pub Gives : String → Option String → Client → Type 0
Gives name pw c = (c.id.username ≡ some name) × ((pw ≡ none) ⊎ (c.password ≡ pw))

hit_name-Gives :
    (name : String) (superuser : Bool) (pw username password : Option String) (access : Bool)
    → (hit_name name superuser username password pw access).0 ≡ true
    → (hit_name name superuser username password pw access).1 ≡ true
    → (superuser ≡ true)
      × (access ≡ true)
      × (username ≡ some name)
      × ((pw ≡ none) ⊎ (password ≡ pw))
hit_name-Gives name superuser pw none password access e f = absurd (ground arith)
hit_name-Gives name superuser (some q) (some n) none access e f = absurd (ground arith)
hit_name-Gives name superuser (some q) (some n) (some p) true e f =
    let both : (same name n && same q p) ≡ true = e in
    let level : name ≡ n = same→eq name n (ground (arith, both)) in
    let word : q ≡ p = same→eq q p (ground (arith, both)) in
    (f, refl, ap some (sym level), inr (ap some (sym word)))
hit_name-Gives name superuser (some q) (some n) (some p) false e f = absurd (ground arith)
hit_name-Gives name superuser none (some n) none true e f =
    (f, refl, ap some (sym (same→eq name n e)), inl refl)
hit_name-Gives name superuser none (some n) (some p) true e f =
    (f, refl, ap some (sym (same→eq name n e)), inl refl)
hit_name-Gives name superuser none (some n) none false e f = absurd (ground arith)
hit_name-Gives name superuser none (some n) (some p) false e f = absurd (ground arith)

-- A user of a rule for a superuser that this client is.
abbrev pub Named : User → Client → Type 0
Named user c =
    (name : String) × (pw : Option String) × (user ≡ by_username name pw true) × Gives name pw c

hit-Named :
    (ip : ℕ → String) (user : User) (c : Client) (access : Bool)
    → (hit ip user c access).0 ≡ true
    → (hit ip user c access).1 ≡ true
    → (access ≡ true) × Named user c
unfolding hit
hit-Named ip User.all c access e f = absurd (cc f)
hit-Named ip (by_username name pw superuser) c access e f =
    let (on, allowed, gave, word) =
      hit_name-Gives name superuser pw c.id.username c.password access e f in
    (allowed, (name, pw, ap (λ b. by_username name pw b) on, (gave, word)))
hit-Named ip (by_clientid id) c access e f = absurd (cc f)
hit-Named ip (by_ipaddr addr) c access e f = elim (Option-cases c.id.remote_addr) [
  | inl n ↦ absurd (ground arith)
  | inr (a, g) ↦ absurd (ground arith)
]

module _ {L : Type 0} ⦃l : Key L⦄ (lv : Levels L) (tn : TopicNames L) where
  -- The rules make a client a superuser only if one of them that controls connecting allows a superuser by
  -- name, and the client gave that name, and the rule's password if it has one.
  pub check_connect-Named :
      (ip : ℕ → String) (rules : List (Rule lv tn)) (c : Client)
      → check_connect lv tn ip rules c ≡ auth_result (AuthResult.allow true)
      → (rule : Rule lv tn) × In rule rules
        × (rule.access ≡ allow)
        × (controls_connect rule.control ≡ true)
        × Named rule.user c
  unfolding check_connect
  check_connect-Named ip [] c e = absurd (cc e)
  check_connect-Named ip (rule ∷ rules) c e = elim (Bool-cases (controls_connect rule.control)) [
    | inr f ↦ later (check_connect-Named ip rules c) (rw (f, check_connect) refl)
    | inl f ↦ elim (Bool-cases (hit ip rule.user c (is_allow rule.access)).0) [
      | inr g ↦ later (check_connect-Named ip rules c) (rw (f, check_connect, g) refl)
      | inl g ↦
          let here : authenticated rule.access (hit ip rule.user c (is_allow rule.access)).1
              ≡ auth_result (AuthResult.allow true) =
            sym (rw (f, check_connect, g) refl) ∙ e in
          let super : (hit ip rule.user c (is_allow rule.access)).1 ≡ true =
            by_access rule.access _ here in
          let (allowed, who) = hit-Named ip rule.user c (is_allow rule.access) g super in
          (rule, inl refl, is_allow_lem rule.access allowed, f, who)
    ]
  ]
    where
      by_access :
          (a : Access) (b : Bool)
          → authenticated a b ≡ auth_result (AuthResult.allow true)
          → b ≡ true
      by_access allow b h = cc
      by_access deny b h = absurd (cc h)

      is_allow_lem : (a : Access) → is_allow a ≡ true → a ≡ allow
      is_allow_lem allow h = refl
      is_allow_lem deny h = cc

      later :
          (check_connect lv tn ip rules c ≡ auth_result (AuthResult.allow true)
            → (q : Rule lv tn) × In q rules
              × (q.access ≡ allow)
              × (controls_connect q.control ≡ true)
              × Named q.user c)
          → check_connect lv tn ip (rule ∷ rules) c ≡ check_connect lv tn ip rules c
          → (q : Rule lv tn) × In q (rule ∷ rules)
            × (q.access ≡ allow)
            × (controls_connect q.control ≡ true)
            × Named q.user c
      later ih s = let (q, i, a, b, d) = ih (sym s ∙ e) in (q, inr i, a, b, d)
