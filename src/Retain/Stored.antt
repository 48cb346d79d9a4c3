-- ===== src/Retain/Stored.antt =====
-- What storing a retained message in rmqtt/src/broker/default.rs does to the messages and their counter.
use Prim.Native.String.{String}
use rmqtt.Common.{
  ℕ, ◌+◌, ◌≡◌, refl, ap, sym, ◌∙◌, Bool, true, false, not, Option, none, some, List, Key,
  if◌then◌else◌, is_some, list_same, list_same_iff, subst, arith, integers, above, under,
  Bool-cases, inl, inr,
}
use rmqtt.Types.{Retain, is_empty}
use rmqtt.Stats.{Counter, inc, dec}
use rmqtt.TopicTree.Levels.{Levels}
use rmqtt.Router.Names.{TopicNames}
use rmqtt.Retain.{remove}
use rmqtt.Retain.Values.{value_at, value_at-insert, value_at-remove}
use rmqtt.Retain.Storage.{TimedValue, new_timed, RetainStorage, store, set_with_timeout}

abbrev pub bit : Bool → ℕ
bit b = if b then 1 else 0

-- What stands at the topic of a message that is stored.
abbrev pub stored : ℕ → Retain → Option ℕ → Option (TimedValue Retain)
stored now retain timeout =
    if is_empty retain.publish then none else some (new_timed now retain timeout)

-- From `c` to `d` the current number changes by `up - down`.
abbrev pub Moves : Counter → Counter → ℕ → ℕ → Type 0
Moves c d down up =
    above d.current + under c.current + down ≡ under d.current + above c.current + up

inc_count : (old : Bool) (c : Counter) → Moves c (if old then c else inc c) (bit old) 1
inc_count true c = omega arith
inc_count false c = omega integers

dec_count : (old : Bool) (c : Counter) → Moves c (if old then dec c else c) (bit old) 0
dec_count true c = omega integers
dec_count false c = omega arith

module _ {L : Type 0} ⦃l : Key L⦄ (lv : Levels L) (tn : TopicNames L) where
  store_lem :
      (t p : List L) (now : ℕ) (retain : Retain) (timeout : Option ℕ)
      (old : Option (TimedValue Retain)) (s : RetainStorage L)
      → value_at t s.messages ≡ none
      → (value_at p (store lv tn t now retain timeout old s).messages
          ≡ (if list_same t p then stored now retain timeout else value_at p s.messages))
        × Moves s.retaineds
            (store lv tn t now retain timeout old s).retaineds
            (bit (is_some old))
            (bit (not (is_empty retain.publish)))
  store_lem t p now retain timeout old s gone = elim (Bool-cases (is_empty retain.publish)) [
    | inl e ↦ rw e (nothing_stored, dec_count (is_some old) s.retaineds)
    | inr e ↦ rw e (
      value_at-insert t p (new_timed now retain timeout) s.messages,
      inc_count (is_some old) s.retaineds,
    )
  ]
    where
      nothing_stored :
          value_at p s.messages ≡ (if list_same t p then none else value_at p s.messages)
      nothing_stored = elim (Bool-cases (list_same t p)) [
        | inl h ↦ rw h (ap (λ q. value_at q s.messages) (sym ((list_same_iff t p).0 h)) ∙ gone)
        | inr h ↦ rw h refl
      ]

  -- A message on a legal topic takes the place of the one that stands there, or clears it if its payload
  -- is empty, and leaves every other topic; and the counter moves by the message that is then stored
  -- and the one that was.
  pub set_with_timeout_lem :
      (now : ℕ) (topic : String) (t p : List L) (retain : Retain) (timeout : Option ℕ)
      (s : RetainStorage L)
      → tn.from_str topic ≡ some t
      → ((set_with_timeout lv tn now topic retain timeout s).0 ≡ true)
        × (value_at p (set_with_timeout lv tn now topic retain timeout s).1.messages
            ≡ (if list_same t p then stored now retain timeout else value_at p s.messages))
        × Moves s.retaineds
            (set_with_timeout lv tn now topic retain timeout s).1.retaineds
            (bit (is_some (value_at t s.messages)))
            (bit (not (is_empty retain.publish)))
  unfolding set_with_timeout
  set_with_timeout_lem now topic t p retain timeout s e =
      let old = (remove t s.messages).0 in
      let s' = record s { messages = (remove t s.messages).1 } in
      let (was, _) = value_at-remove t t s.messages in
      let gone : value_at t s'.messages ≡ none =
        (value_at-remove t t s.messages).1 ∙ rw ((list_same_iff t t).1 refl) refl in
      let (at, count) = store_lem t p now retain timeout old s' gone in
      let others : (if list_same t p then stored now retain timeout else value_at p s'.messages)
          ≡ (if list_same t p then stored now retain timeout else value_at p s.messages) =
        elim (Bool-cases (list_same t p)) [
          | inl h ↦ rw h refl
          | inr h ↦ rw (h, (value_at-remove t p s.messages).1, h) refl
        ] in
      rw (e, set_with_timeout)
        (
          refl,
          at ∙ others,
          subst
              (λ o.
                Moves s.retaineds (store lv tn t now retain timeout old s').retaineds
                  (bit (is_some o)) (bit (not (is_empty retain.publish))))
              was count,
        )
