-- ===== src/SessionSubs/Drain.antt =====
-- Draining and moving the subscriptions of a session in rmqtt/src/broker/types.rs.
use Prim.Native.String.{String}
use rmqtt.Common.{
  ◌≡◌, refl, ap, ◌∙◌, Bool, true, false, Option, none, some, List, [], ◌∷◌, map, if◌then◌else◌, get,
  del, Distinct, Option-cases, inl, inr, del_absent, same_refl,
}
use rmqtt.Types.{string_key}
use rmqtt.Subscriptions.{SubscriptionOptions, has_shared_group}
use rmqtt.SessionSubs.{
  SessionSubs, remove, drain_filters, to_topic_filters, drain, dec_all, dec_shared,
}

taken_subs :
    (b : Bool) (s : SessionSubs) → (if b then dec_shared (dec_all s) else dec_all s).subs ≡ s.subs
taken_subs true s = refl
taken_subs false s = refl

remove_lem :
    (tf : String) (s : SessionSubs)
    → ((remove tf s).1.subs ≡ del tf s.subs)
      × ((remove tf s).0 ≡ elim (get tf s.subs) as (λ _. Option (String × SubscriptionOptions)) [
        | some o ↦ some (tf, o)
        | none ↦ none
      ])
unfolding remove
remove_lem tf s = elim (Option-cases (get tf s.subs)) [
  | inl e ↦ rw (e, remove) (refl, refl)
  | inr (o, e) ↦
      rw (e, remove) (taken_subs (has_shared_group o) (record s { subs = del tf s.subs }), refl)
]

drain_filters_lem :
    (m : List (String × SubscriptionOptions)) (s : SessionSubs)
    → s.subs ≡ m
    → Distinct m
    → ((drain_filters (map (λ e. e.0) m) s).0 ≡ m)
      × ((drain_filters (map (λ e. e.0) m) s).1.subs ≡ [])
unfolding drain_filters
drain_filters_lem [] s e d = (refl, e)
drain_filters_lem ((tf, o) ∷ m) s e (absent, d) =
    let here : get tf s.subs ≡ some o = rw (e, same_refl tf) refl in
    let rest : del tf s.subs ≡ m = rw (e, same_refl tf) (del_absent tf m absent) in
    let (subs_after, given) = remove_lem tf s in
    let (all, end) = drain_filters_lem m (remove tf s).1 (subs_after ∙ rest) d in
    let first : (remove tf s).0 ≡ some (tf, o) = given ∙ rw here refl in
    (rw (first, drain_filters) (ap (λ z. (tf, o) ∷ z) all), end)

-- Draining gives every subscription, in the order of the map, and leaves none.
drain_lem : (s : SessionSubs) → Distinct s.subs → ((drain s).0 ≡ s.subs) × ((drain s).1.subs ≡ [])
unfolding drain to_topic_filters
drain_lem s d = drain_filters_lem s.subs s refl d
