-- ===== src/Acl/Covers.antt =====
-- Which topics a rule of rmqtt-plugins/rmqtt-acl covers.
use Prim.Native.String.{String}
use text.Mathlib.Text.{◌==◌ as str_eq}
use text.Mathlib.TextEquality.{eq_iff}
use mathlib.Core.Logic.{◌↔◌}
use rmqtt.Common.{
  ℕ, suc, ◌≡◌, ◌≢◌, refl, sym, ◌∙◌, subst, true, List, [], ◌∷◌, Key, length, In, unit_key, arith,
  Bool-cases, inl, inr, ◌⊎◌,
}
use rmqtt.Types.{string_key}
use rmqtt.TopicTree.Levels.{Levels}
use rmqtt.TopicTree.{Node, contains}
use rmqtt.TopicTree.Matcher.{Item, is_match, collect_iter, matches}
use rmqtt.TopicTree.Values.{values_at}
use rmqtt.TopicTree.Lazy.{collect, is_match_lem, collect_iter-matches}
use rmqtt.TopicTree.Filters.{Matches, matches_lem}
use rmqtt.Router.Names.{TopicNames}
use rmqtt.Acl.{Topics, topic_of, is_match_topic}

pub contains_iff : (s : String) (xs : List String) → (contains s xs ≡ true) ↔ In s xs
contains_iff s [] = (λ e. absurd (cc e), λ i. elim i [ ])
contains_iff s (x ∷ xs) = elim (Bool-cases (str_eq x s)) [
  | inl e ↦ let level = (eq_iff x s).0 e in (λ _. inl (sym level), λ _. rw e refl)
  | inr e ↦ (
    λ h. inr ((contains_iff s xs).0 (rw e at h)),
    λ i. elim i [ inl level ↦ ground (arith, eq_iff x s) | inr j ↦ rw e ((contains_iff s xs).1 j) ],
  )
]

nonempty : {A : Type 0} (a : A) (xs : List A) → In a xs → xs ≢ []
nonempty a [] i e = elim i [ ]
nonempty a (x ∷ xs) i e = cc

module _ {L : Type 0} ⦃l : Key L⦄ (lv : Levels L) where
  -- The tree has a match exactly if one of its filters matches.
  pub is_match-Matches :
      (n : Node L (Unit {0})) (topic : List L)
      → (is_match lv (suc (length topic)) n topic ≡ true)
        ↔ ((f : List L) × Matches lv f topic × (values_at f n ≢ []))
  is_match-Matches n topic = (sound, complete)
    where
      items : ℕ
      items = suc (length (collect lv topic n []))

      all_items :
          collect_iter lv items (suc (length topic)) (matches n topic) ≡ collect lv topic n []
      all_items = collect_iter-matches lv items n topic (omega arith)

      found :
          (f : List L) (ws : List (Unit {0}))
          → In (f, ws) (collect lv topic n [])
            ↔ (Matches lv f topic × ((ws ≡ values_at f n) × (ws ≢ [])))
      found f ws =
          subst (λ xs. In (f, ws) xs ↔ (Matches lv f topic × ((ws ≡ values_at f n) × (ws ≢ []))))
            all_items (matches_lem lv items n topic f ws (omega arith))

      some_item :
          (xs : List (Item L (Unit {0})))
          → collect lv topic n [] ≡ xs
          → xs ≢ []
          → (f : List L) × Matches lv f topic × (values_at f n ≢ [])
      some_item [] e ne = absurd (ne refl)
      some_item ((f, ws) ∷ xs) e ne =
          let (fits, (at, full)) = (found f ws).0 (subst (λ z. In (f, ws) z) (sym e) (inl refl)) in
          (f, fits, λ z. full (at ∙ z))

      sound :
          is_match lv (suc (length topic)) n topic ≡ true
          → (f : List L) × Matches lv f topic × (values_at f n ≢ [])
      sound h =
          some_item (collect lv topic n []) refl
            (λ z. let no_match = (is_match_lem lv n topic).1 z in absurd (ground arith))

      complete :
          ((f : List L) × Matches lv f topic × (values_at f n ≢ []))
          → is_match lv (suc (length topic)) n topic ≡ true
      complete (f, fits, full) = elim (Bool-cases (is_match lv (suc (length topic)) n topic)) [
        | inl e ↦ e
        | inr e ↦ absurd (
            nonempty (f, values_at f n) (collect lv topic n [])
              ((found f (values_at f n)).1 (fits, (refl, full))) ((is_match_lem lv n topic).0 e))
      ]

module _ {L : Type 0} ⦃l : Key L⦄ (lv : Levels L) (tn : TopicNames L) where
  -- The topic is one of the texts, or matched by one of the filters, or all topics are meant.
  abbrev pub Covers : Topics lv tn → String → Type 0
  Covers t s =
      (t.all_topics ≡ true)
      ⊎ (In s t.eqs ⊎ ((f : List L) × Matches lv f (topic_of lv tn s) × (values_at f t.tree ≢ [])))

  -- `Topics::is_match` says exactly whether the topics cover the text.
  pub is_match_topic-Covers :
      (t : Topics lv tn) (s : String) → (is_match_topic lv tn t s ≡ true) ↔ Covers t s
  unfolding is_match_topic
  is_match_topic-Covers t s = elim (Bool-cases t.all_topics) [
    | inl e ↦ (λ _. inl e, λ _. rw (e, is_match_topic) refl)
    | inr e ↦ elim (Bool-cases (contains s t.eqs)) [
      | inl f ↦ (λ _. inr (inl ((contains_iff s t.eqs).0 f)), λ _. rw (e, is_match_topic, f) refl)
      | inr f ↦
          let by_tree = is_match-Matches lv t.tree (topic_of lv tn s) in
          (
            λ h. inr (inr (by_tree.0 (rw (e, is_match_topic, f) at h))),
            λ c. elim c [
              | inl all ↦ absurd (ground arith)
              | inr (inl i) ↦ absurd (let there = (contains_iff s t.eqs).1 i in ground arith)
              | inr (inr m) ↦ rw (e, is_match_topic, f) (by_tree.1 m)
            ],
          )
    ]
  ]
