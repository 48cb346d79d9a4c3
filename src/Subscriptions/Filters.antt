-- ===== src/Subscriptions/Filters.antt =====
-- The parsing of shared topic filters in rmqtt/src/broker/types.rs against their written form.
use Prim.Native.String.{String, String as Text}
use text.Mathlib.Text.{◌==◌ as str_eq}
use text.Mathlib.TextEquality.{eq_iff}
use rmqtt.Common.{
  ◌≡◌, ◌≢◌, refl, sym, ap, ◌∙◌, Bool, true, false, ◌&&◌, ◌↔◌, Option, none, some, List, [], ◌∷◌,
  split_once, split_once-join, split_once_cut, join, slash, has_slash, Bool-cases, Option-cases,
  inl, inr,
}
use rmqtt.Subscriptions.{splitn, first_is_share, non_empty, shared_topic, parse_topic_filter}

-- `$share/<group>/<topic>`.
abbrev pub shared_text : String → String → String
shared_text g t = join "$share" (Text.◌∷◌ slash (join g (Text.◌∷◌ slash t)))

-- What `splitn(3, '/')` gives, by the number of slashes.
splitn_whole : (f : String) → (split_once f).1 ≡ none → splitn 3 f ≡ (split_once f).0 ∷ []
splitn_whole f e = rw (e, splitn)

splitn_one :
    (f rest : String)
    → (split_once f).1 ≡ some rest
    → (split_once rest).1 ≡ none
    → splitn 3 f ≡ (split_once f).0 ∷ (split_once rest).0 ∷ []
splitn_one f rest e h = rw (e, h, splitn)

splitn_two :
    (f rest t : String)
    → (split_once f).1 ≡ some rest
    → (split_once rest).1 ≡ some t
    → splitn 3 f ≡ (split_once f).0 ∷ (split_once rest).0 ∷ t ∷ []
splitn_two f rest t e h = rw (e, h, splitn)

non_empty_lem :
    (topic t : String) (group : Option String) (g : Option String)
    → (non_empty topic group ≡ some (t, g)) ↔ ((topic ≡ t) × (group ≡ g) × (t ≢ Text.[]))
non_empty_lem Text.[] t group g = (λ e. cc, λ (e, _, ne). absurd (ne (sym e)))
non_empty_lem (Text.◌∷◌ c topic) t group g = (λ e. (cc, cc, λ z. cc), λ (e, h, _). rw (e, h))

cut_lem : (s b : String) → (split_once s).1 ≡ some b → split_once s ≡ ((split_once s).0, some b)
cut_lem s b e = ap (λ o. ((split_once s).0, o)) e

splitn_shared :
    (g t : String) → has_slash g ≡ false → splitn 3 (shared_text g t) ≡ "$share" ∷ g ∷ t ∷ []
splitn_shared g t free =
    let rest = join g (Text.◌∷◌ slash t) in
    let first = split_once-join "$share" rest refl in
    let second = split_once-join g t free in
    splitn_two (shared_text g t) rest t (ap (λ p. p.1) first) (ap (λ p. p.1) second)
    ∙ rw (ap (λ p. p.0) second) refl

-- What a text that is read as shared is made of.
shared_form :
    (f t g : String)
    → first_is_share (splitn 3 f) ≡ true
    → shared_topic (splitn 3 f) ≡ some (t, some g)
    → (f ≡ shared_text g t) × (has_slash g ≡ false) × (t ≢ Text.[])
shared_form f t g share h = elim (Option-cases (split_once f).1) [
  | inl e ↦
      let h' : ◌≡◌ {A = Option (String × Option String)} none (some (t, some g)) =
        rw (splitn_whole f e) at h in
      cc
  | inr (rest, e) ↦ elim (Option-cases (split_once rest).1) [
    | inl e' ↦
        let h' : ◌≡◌ {A = Option (String × Option String)} none (some (t, some g)) =
          rw (splitn_one f rest e e') at h in
        cc
    | inr (topic, e') ↦
        let (same_topic, same_group, ne) =
          (non_empty_lem topic t (some (split_once rest).0) (some g)).0
            (rw (splitn_two f rest topic e e') at h) in
        let share' : str_eq (split_once f).0 "$share" ≡ true =
          rw (splitn_two f rest topic e e') at share in
        let (cut, _) = split_once_cut f (split_once f).0 rest (cut_lem f rest e) in
        let (cut', free) = split_once_cut rest (split_once rest).0 topic (cut_lem rest topic e') in
        let level = (eq_iff (split_once f).0 "$share").0 share' in
        let group : (split_once rest).0 ≡ g = cc same_group in
        let tail =
          cut'
          ∙ (ap (λ z. join z (Text.◌∷◌ slash topic)) group
              ∙ ap (λ z. join g (Text.◌∷◌ slash z)) same_topic) in
        let whole =
          cut
          ∙ (ap (λ z. join z (Text.◌∷◌ slash rest)) level
              ∙ ap (λ z. join "$share" (Text.◌∷◌ slash z)) tail) in
        (whole, ap has_slash (sym group) ∙ free, ne)
  ]
]

-- With shared subscriptions supported, a text is read as the topic filter `t` shared by the group
-- `g` exactly if it is `$share/g/t` with no slash in `g` and a nonempty `t`.
pub parse_topic_filter-shared :
    (f t g : String)
    → (parse_topic_filter f true ≡ some (t, some g))
      ↔ ((f ≡ shared_text g t) × (has_slash g ≡ false) × (t ≢ Text.[]))
unfolding parse_topic_filter
parse_topic_filter-shared f t g = (sound, complete)
  where
    sound :
        parse_topic_filter f true ≡ some (t, some g)
        → (f ≡ shared_text g t) × (has_slash g ≡ false) × (t ≢ Text.[])
    sound h = elim (Bool-cases (first_is_share (splitn 3 f))) [
      | inl e ↦ shared_form f t g e (rw e at h)
      | inr e ↦ let (_, q, _) = (non_empty_lem f t none (some g)).0 (rw e at h) in absurd (cc q)
    ]

    complete :
        (f ≡ shared_text g t) × (has_slash g ≡ false) × (t ≢ Text.[])
        → parse_topic_filter f true ≡ some (t, some g)
    complete (e, free, ne) =
        rw (e, splitn_shared g t free) ((non_empty_lem t t (some g) (some g)).1 (refl, refl, ne))

-- Any other text that is accepted is the topic filter itself: a nonempty text that does not start
-- with the level `$share`, or any nonempty text where shared subscriptions are not supported.
parse_topic_filter-plain :
    (f t : String) (supported : Bool)
    → (parse_topic_filter f supported ≡ some (t, none))
      ↔ ((f ≡ t) × (t ≢ Text.[]) × ((supported && first_is_share (splitn 3 f)) ≡ false))
unfolding parse_topic_filter
parse_topic_filter-plain f t supported = (sound, complete)
  where
    shared_some : (levels : List String) → ¬ (shared_topic levels ≡ some (t, none))
    shared_some [] h = cc
    shared_some (a ∷ []) h = cc
    shared_some (a ∷ b ∷ []) h = cc
    shared_some (a ∷ b ∷ c ∷ levels) h = let (_, q, _) = (non_empty_lem c t (some b) none).0 h in cc

    sound :
        parse_topic_filter f supported ≡ some (t, none)
        → (f ≡ t) × (t ≢ Text.[]) × ((supported && first_is_share (splitn 3 f)) ≡ false)
    sound h = elim (Bool-cases (supported && first_is_share (splitn 3 f))) [
      | inl e ↦ absurd (shared_some (splitn 3 f) (rw e at h))
      | inr e ↦ let (p, _, ne) = (non_empty_lem f t none none).0 (rw e at h) in (p, ne, e)
    ]

    complete :
        (f ≡ t) × (t ≢ Text.[]) × ((supported && first_is_share (splitn 3 f)) ≡ false)
        → parse_topic_filter f supported ≡ some (t, none)
    complete (p, ne, e) = rw e ((non_empty_lem f t none none).1 (p, refl, ne))
