-- ===== src/Router/Agreement.antt =====
-- What the router of rmqtt/src/broker/default.rs keeps true of its relations, its tree and its two
-- counters, and the lemmas on each of them.
use Prim.Native.String.{String}
use rmqtt.Common.{
  ℕ, suc, ◌+◌, ◌≡◌, refl, ap, sym, ◌∙◌, subst, Bool, true, false, Option, none, some, List, [], ◌∷◌,
  if◌then◌else◌, Key, same, get, put, del, get-put, Distinct, length, del_absent, is_some, integers,
  arith, Bool-cases, inl, inr, list_same, list_same_iff, unit_key, same→eq, above, under,
}
use rmqtt.Types.{Identity, string_key}
use rmqtt.Subscriptions.{SubscriptionOptions}
use rmqtt.Stats.{Counter, inc, dec}
use rmqtt.TopicTree.{Node, contains, set_insert, set_remove}
use rmqtt.TopicTree.Values.{values_at}
use rmqtt.Router.Names.{TopicNames}
use rmqtt.Router.{Router, Clients, no_clients}

-- The subscriptions of all filters.
abbrev pub total : List (String × Clients) → ℕ
total [] = 0
total ((tf, rels) ∷ relations) = length rels + total relations

abbrev pub clients_total : Option Clients → ℕ
clients_total none = 0
clients_total (some rels) = length rels

pub total-put :
    (tf : String) (rels : Clients) (m : List (String × Clients))
    → total (put tf rels m) + clients_total (get tf m) ≡ total m + length rels
total-put tf rels [] = omega arith
total-put tf rels ((j, w) ∷ m) = ground (arith, total-put tf rels m)

pub total-del :
    (tf : String) (m : List (String × Clients))
    → Distinct m
    → total (del tf m) + clients_total (get tf m) ≡ total m
total-del tf [] d = refl
total-del tf ((j, w) ∷ m) d = elim (Bool-cases (same j tf)) [
  | inl e ↦
      let gone = del_absent tf m (subst (λ q. get q m ≡ none) (same→eq j tf e) d.0) in
      rw (e, gone) (omega arith)
  | inr e ↦ rw e (omega (arith, total-del tf m d.1))
]

-- A counter stands at `n`.
abbrev pub IsAt : Counter → ℕ → Type 0
IsAt c n = above c.current ≡ n + under c.current

inc-IsAt : (c : Counter) (n m : ℕ) → IsAt c n → m ≡ suc n → IsAt (inc c) m
inc-IsAt c n m h e = omega (integers, h, e)

pub dec-IsAt : (c : Counter) (n m : ℕ) → IsAt c n → suc m ≡ n → IsAt (dec c) m
dec-IsAt c n m h e = omega (integers, h, e)

pub inc_unless-IsAt :
    (b : Bool) (c : Counter) (n m : ℕ)
    → IsAt c n
    → m ≡ n + (if b then 0 else 1)
    → IsAt (if b then c else inc c) m
inc_unless-IsAt true c n m h e = omega (arith, h, e)
inc_unless-IsAt false c n m h e = inc-IsAt c n m h (omega (arith, e))

pub no_clients-length : (rels : Clients) → no_clients rels ≡ true → length rels ≡ 0
no_clients-length [] h = refl
no_clients-length (c ∷ rels) h = cc

pub no_clients-put :
    (c : String) (v : Identity × SubscriptionOptions) (rels : Clients)
    → no_clients (put c v rels) ≡ false
no_clients-put c v [] = refl
no_clients-put c v ((j, w) ∷ rels) = ground arith

pub contains-set_insert : (xs : List (Unit {0})) → contains tt (set_insert tt xs) ≡ true
contains-set_insert [] = refl
contains-set_insert (x ∷ xs) = refl

pub contains-set_remove : (xs : List (Unit {0})) → contains tt (set_remove tt xs) ≡ false
contains-set_remove [] = refl
contains-set_remove (x ∷ xs) = contains-set_remove xs

module _ {L : Type 0} ⦃l : Key L⦄ (tn : TopicNames L) where
  -- What the relations say of one topic filter.
  abbrev pub FilterSound : List (String × Clients) → String → Type 0
  FilterSound m tf =
      (rels : Clients)
      → get tf m ≡ some rels
      → Distinct rels
        × (no_clients rels ≡ false)
        × ((topic : List L) × (tn.from_str tf ≡ some topic))

  abbrev pub InTree : Node L (Unit {0}) → List (String × Clients) → Type 0
  InTree topics m =
      (tf : String) (topic : List L)
      → tn.from_str tf ≡ some topic
      → contains tt (values_at topic topics) ≡ is_some (get tf m)

  pub record IsRouted (r : Router L) : Type 0 where
    pub distinct : Distinct r.relations
    pub filters : (tf : String) → FilterSound r.relations tf
    pub in_tree : InTree r.topics r.relations
    pub filters_counted : IsAt r.topics_count (length r.relations)
    pub subscriptions_counted : IsAt r.relations_count (total r.relations)

  -- Two filters with the same levels are the same text.
  pub same_levels :
      (tf q : String) (topic topic' : List L)
      → tn.from_str tf ≡ some topic
      → tn.from_str q ≡ some topic'
      → list_same topic topic' ≡ same tf q
  same_levels tf q topic topic' e e' = elim (Bool-cases (same tf q)) [
    | inl h ↦
        let levels : some topic ≡ some topic' = sym e ∙ (ap tn.from_str (same→eq tf q h) ∙ e') in
        let one : topic ≡ topic' = cc levels in (list_same_iff topic topic').1 one ∙ sym h
    | inr h ↦ elim (Bool-cases (list_same topic topic')) [
      | inl h' ↦
          let one = (list_same_iff topic topic').0 h' in
          let text =
            sym (tn.written tf topic e) ∙ (ap tn.to_topic_filter one ∙ tn.written q topic' e') in
          let clash : true ≡ false = sym ((string_key.same_iff tf q).1 text) ∙ h in
          absurd (cc clash)
      | inr h' ↦ h' ∙ sym h
    ]
  ]

  pub put-FilterSound :
      (tf : String) (rels : Clients) (m : List (String × Clients)) (topic : List L)
      → Distinct rels
      → no_clients rels ≡ false
      → tn.from_str tf ≡ some topic
      → ((q : String) → FilterSound m q)
      → (q : String) → FilterSound (put tf rels m) q
  put-FilterSound tf rels m topic d ne e old q found h = elim (Bool-cases (same tf q)) [
    | inl s ↦
        let this : some rels ≡ some found = sym (get-put tf q rels m ∙ rw s refl) ∙ h in
        let one : rels ≡ found = cc this in rw (← one, ← same→eq tf q s) (d, ne, (topic, e))
    | inr s ↦ old q found (sym (get-put tf q rels m ∙ rw s refl) ∙ h)
  ]
