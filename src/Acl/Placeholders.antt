-- ===== src/Acl/Placeholders.antt =====
-- What the placeholders of the rules of rmqtt-plugins/rmqtt-acl cover once a client has connected.
use Prim.Native.String.{String}
use mathlib.Core.Logic.{◌↔◌}
use rmqtt.Common.{
  ◌≡◌, ◌≢◌, refl, sym, ◌∙◌, ap, subst, some, List, [], ◌∷◌, Key, In, In-append, In-append_left,
  In-append_right, unit_key, list_same, list_same_iff, Bool-cases, Option-cases, inl, inr, ◌⊎◌,
}
use rmqtt.Types.{string_key, Identity}
use rmqtt.TopicTree.Levels.{Levels}
use rmqtt.TopicTree.{Node, contains, set_insert, insert}
use rmqtt.TopicTree.Values.{values_at, values_at-insert}
use rmqtt.TopicTree.Filters.{Matches}
use rmqtt.Router.Names.{TopicNames}
use rmqtt.Acl.{
  Topics, Rule, expand, topic_of, add_topic_filter, add_topic_filters, add_topics_to_eqs,
  build_placeholders,
}
use rmqtt.Acl.Covers.{Covers, contains_iff}

In-set_insert : (s a : String) (xs : List String) → In s (set_insert a xs) ↔ ((s ≡ a) ⊎ In s xs)
In-set_insert s a xs = elim (Bool-cases (contains a xs)) [
  | inl e ↦
      let old = (contains_iff a xs).0 e in
      rw e
        (λ i. inr i, λ c. elim c [ inl level ↦ subst (λ z. In z xs) (sym level) old | inr i ↦ i ])
  | inr e ↦ rw e (
    λ i. elim (In-append s xs (a ∷ []) i) [
      | inl j ↦ inr j
      | inr (inl level) ↦ inl level
      | inr (inr j) ↦ elim j [ ]
    ],
    λ c. elim c [
      | inl level ↦ In-append_right s xs (a ∷ []) (inl level)
      | inr i ↦ In-append_left s xs (a ∷ []) i
    ],
  )
]

set_insert_some : (vs : List (Unit {0})) → set_insert {V = Unit {0}} tt vs ≢ []
set_insert_some [] e = cc
set_insert_some (v ∷ vs) e = cc

-- A placeholder that, written for the client, is the topic; or, below, matches it as a filter.
abbrev pub ByTexts : Identity → List String → String → Type 0
ByTexts id ps s = (p : String) × In p ps × (s ≡ expand id p)

module _ {L : Type 0} ⦃l : Key L⦄ (lv : Levels L) (tn : TopicNames L) where
  abbrev ByTree : Node L (Unit {0}) → String → Type 0
  ByTree n s = (f : List L) × Matches lv f (topic_of lv tn s) × (values_at f n ≢ [])

  ByTree-insert :
      (g : List L) (n : Node L (Unit {0})) (s : String)
      → ByTree (insert g tt n).1 s ↔ (Matches lv g (topic_of lv tn s) ⊎ ByTree n s)
  ByTree-insert g n s = (sound, complete)
    where
      sound : ByTree (insert g tt n).1 s → Matches lv g (topic_of lv tn s) ⊎ ByTree n s
      sound (f, fits, full) = elim (Bool-cases (list_same g f)) [
        | inl e ↦
            inl (subst (λ z. Matches lv z (topic_of lv tn s)) (sym ((list_same_iff g f).0 e)) fits)
        | inr e ↦
            let kept : values_at f (insert g tt n).1 ≡ values_at f n =
              (values_at-insert g f tt n).1 ∙ rw e refl in
            inr (f, fits, λ z. full (kept ∙ z))
      ]

      complete : Matches lv g (topic_of lv tn s) ⊎ ByTree n s → ByTree (insert g tt n).1 s
      complete (inl fits) =
          let new : values_at g (insert g tt n).1 ≡ set_insert tt (values_at g n) =
            (values_at-insert g g tt n).1 ∙ rw ((list_same_iff g g).1 refl) refl in
          (g, fits, λ z. set_insert_some (values_at g n) (sym new ∙ z))
      complete (inr (f, fits, full)) = elim (Bool-cases (list_same g f)) [
        | inl e ↦
            let new : values_at f (insert g tt n).1 ≡ set_insert tt (values_at g n) =
              (values_at-insert g f tt n).1 ∙ rw e refl in
            (f, fits, λ z. set_insert_some (values_at g n) (sym new ∙ z))
        | inr e ↦
            let kept : values_at f (insert g tt n).1 ≡ values_at f n =
              (values_at-insert g f tt n).1 ∙ rw e refl in
            (f, fits, λ z. full (sym kept ∙ z))
      ]

  abbrev pub ByFilters : Identity → List String → String → Type 0
  ByFilters id ps s =
      (p : String) × (f : List L) × In p ps
      × (tn.from_str (expand id p) ≡ some f)
      × Matches lv f (topic_of lv tn s)

  -- Adding filters changes the tree only.
  abbrev SameTexts : Topics lv tn → Topics lv tn → Type 0
  SameTexts t t' = (t'.all_topics ≡ t.all_topics) × (t'.eqs ≡ t.eqs)

  add_topic_filters_kept :
      (id : Identity) (ps : List String) (t : Topics lv tn)
      → SameTexts t (add_topic_filters lv tn id ps t)
  unfolding add_topic_filters add_topic_filter
  add_topic_filters_kept id [] t = (refl, refl)
  add_topic_filters_kept id (p ∷ ps) t =
      let t' = add_topic_filter lv tn (expand id p) t in
      let (a, e) = add_topic_filters_kept id ps t' in
      elim (Option-cases (tn.from_str (expand id p))) [
        | inl none_read ↦
            (a ∙ rw (none_read, add_topic_filter) refl, e ∙ rw (none_read, add_topic_filter) refl)
        | inr (f, read) ↦
            (a ∙ rw (read, add_topic_filter) refl, e ∙ rw (read, add_topic_filter) refl)
      ]

  ByTree-add_topic_filter :
      (x s : String) (t : Topics lv tn)
      → ByTree (add_topic_filter lv tn x t).tree s ↔ (
          ((f : List L) × (tn.from_str x ≡ some f) × Matches lv f (topic_of lv tn s))
          ⊎ ByTree t.tree s)
  unfolding add_topic_filter
  ByTree-add_topic_filter x s t = elim (Option-cases (tn.from_str x)) [
    | inl none_read ↦
        rw (none_read, add_topic_filter)
          (λ h. inr h, λ c. elim c [ inl (f, e, m) ↦ absurd (cc e) | inr h ↦ h ])
    | inr (g, read) ↦
        let inserted = ByTree-insert g t.tree s in
        rw (read, add_topic_filter)
          (
            λ h. elim (inserted.0 h) [ inl m ↦ inl (g, refl, m) | inr k ↦ inr k ],
            λ c. elim c [
              | inl (f, e, m) ↦
                  let level : g ≡ f = cc e in
                  inserted.1 (inl (subst (λ z. Matches lv z (topic_of lv tn s)) (sym level) m))
              | inr k ↦ inserted.1 (inr k)
            ],
          )
  ]

  ByTree-add_topic_filters :
      (id : Identity) (ps : List String) (t : Topics lv tn) (s : String)
      → ByTree (add_topic_filters lv tn id ps t).tree s ↔ (ByFilters id ps s ⊎ ByTree t.tree s)
  unfolding add_topic_filters
  ByTree-add_topic_filters id [] t s =
      (λ h. inr h, λ c. elim c [ inl (p, f, i, e, m) ↦ elim i [ ] | inr h ↦ h ])
  ByTree-add_topic_filters id (p ∷ ps) t s =
      let rest = ByTree-add_topic_filters id ps (add_topic_filter lv tn (expand id p) t) s in
      let first = ByTree-add_topic_filter (expand id p) s t in
      (
        λ h. elim (rest.0 h) [
          | inl (q, f, i, e, m) ↦ inl (q, f, inr i, e, m)
          | inr k ↦ elim (first.0 k) [ inl (f, e, m) ↦ inl (p, f, inl refl, e, m) | inr j ↦ inr j ]
        ],
        λ c. elim c [
          | inl (q, f, inr i, e, m) ↦ rest.1 (inl (q, f, i, e, m))
          | inl (q, f, inl level, e, m) ↦
              rest.1 (
                inr (first.1 (inl (f, subst (λ z. tn.from_str (expand id z) ≡ some f) level e, m))))
          | inr j ↦ rest.1 (inr (first.1 (inr j)))
        ],
      )

  -- Adding texts changes the texts only.
  abbrev SameFilters : Topics lv tn → Topics lv tn → Type 0
  SameFilters t t' = (t'.all_topics ≡ t.all_topics) × (t'.tree ≡ t.tree)

  add_topics_to_eqs_kept :
      (id : Identity) (ps : List String) (t : Topics lv tn)
      → SameFilters t (add_topics_to_eqs lv tn id ps t)
  unfolding add_topics_to_eqs
  add_topics_to_eqs_kept id [] t = (refl, refl)
  add_topics_to_eqs_kept id (p ∷ ps) t =
      add_topics_to_eqs_kept id ps (record t { eqs = set_insert (expand id p) t.eqs })

  In-add_topics_to_eqs :
      (id : Identity) (ps : List String) (t : Topics lv tn) (s : String)
      → In s (add_topics_to_eqs lv tn id ps t).eqs ↔ (ByTexts id ps s ⊎ In s t.eqs)
  unfolding add_topics_to_eqs
  In-add_topics_to_eqs id [] t s =
      (λ h. inr h, λ c. elim c [ inl (p, i, e) ↦ elim i [ ] | inr h ↦ h ])
  In-add_topics_to_eqs id (p ∷ ps) t s =
      let rest = In-add_topics_to_eqs id ps (record t { eqs = set_insert (expand id p) t.eqs }) s in
      let first = In-set_insert s (expand id p) t.eqs in
      (
        λ h. elim (rest.0 h) [
          | inl (q, i, e) ↦ inl (q, inr i, e)
          | inr k ↦ elim (first.0 k) [ inl e ↦ inl (p, inl refl, e) | inr j ↦ inr j ]
        ],
        λ c. elim c [
          | inl (q, inr i, e) ↦ rest.1 (inl (q, i, e))
          | inl (q, inl level, e) ↦ rest.1 (inr (first.1 (inl (e ∙ ap (expand id) level))))
          | inr j ↦ rest.1 (inr (first.1 (inr j)))
        ],
      )

  -- After a client has connected, a rule covers what it covered before and the topics that its placeholders,
  -- written for that client, are or match, and no others. Which client asks is not part of it: what one
  -- client's connection adds, the rule covers for every client that it fits.
  pub build_placeholders-Covers :
      (id : Identity) (rule : Rule lv tn) (s : String)
      → Covers lv tn (build_placeholders lv tn id rule).topics s ↔ (
          Covers lv tn rule.topics s
          ⊎ (ByTexts id rule.topics.eq_placeholders s ⊎ ByFilters id rule.topics.placeholders s))
  unfolding build_placeholders
  build_placeholders-Covers id rule s = (sound, complete)
    where
      t : Topics lv tn
      t = rule.topics

      t' : Topics lv tn
      t' = add_topic_filters lv tn id t.placeholders t

      kept : SameTexts t t'
      kept = add_topic_filters_kept id t.placeholders t

      kept' : SameFilters t' (add_topics_to_eqs lv tn id t.eq_placeholders t')
      kept' = add_topics_to_eqs_kept id t.eq_placeholders t'

      texts :
          In s (add_topics_to_eqs lv tn id t.eq_placeholders t').eqs
          ↔ (ByTexts id t.eq_placeholders s ⊎ In s t.eqs)
      texts =
          subst
            (λ xs.
              In s (add_topics_to_eqs lv tn id t.eq_placeholders t').eqs
              ↔ (ByTexts id t.eq_placeholders s ⊎ In s xs))
            kept.1 (In-add_topics_to_eqs id t.eq_placeholders t' s)

      filters :
          ByTree (add_topics_to_eqs lv tn id t.eq_placeholders t').tree s
          ↔ (ByFilters id t.placeholders s ⊎ ByTree t.tree s)
      filters =
          subst (λ n. ByTree n s ↔ (ByFilters id t.placeholders s ⊎ ByTree t.tree s)) (sym kept'.1)
            (ByTree-add_topic_filters id t.placeholders t s)

      everything : (add_topics_to_eqs lv tn id t.eq_placeholders t').all_topics ≡ t.all_topics
      everything = kept'.0 ∙ kept.0

      sound :
          Covers lv tn (build_placeholders lv tn id rule).topics s
          → Covers lv tn t s ⊎ (ByTexts id t.eq_placeholders s ⊎ ByFilters id t.placeholders s)
      sound (inl e) = inl (inl (sym everything ∙ e))
      sound (inr (inl i)) = elim (texts.0 i) [ inl b ↦ inr (inl b) | inr j ↦ inl (inr (inl j)) ]
      sound (inr (inr m)) = elim (filters.0 m) [ inl b ↦ inr (inr b) | inr j ↦ inl (inr (inr j)) ]

      complete :
          Covers lv tn t s ⊎ (ByTexts id t.eq_placeholders s ⊎ ByFilters id t.placeholders s)
          → Covers lv tn (build_placeholders lv tn id rule).topics s
      complete (inl (inl e)) = inl (everything ∙ e)
      complete (inl (inr (inl i))) = inr (inl (texts.1 (inr i)))
      complete (inl (inr (inr m))) = inr (inr (filters.1 (inr m)))
      complete (inr (inl b)) = inr (inl (texts.1 (inl b)))
      complete (inr (inr b)) = inr (inr (filters.1 (inl b)))
