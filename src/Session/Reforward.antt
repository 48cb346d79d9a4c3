-- ===== src/Session/Reforward.antt =====
-- `reforward` of rmqtt/src/broker/session.rs as the loop over the messages that are due calls it: the caller
-- holds the lock of the window.
use rmqtt.Common.{
  append-nil, append_assoc, Bool, ◌&&◌, not, Option, ℕ, ◌≡◌, refl, sym, ◌∙◌, ap, true, false, none,
  some, List, [], ◌∷◌, ◌++◌, nat_key, arith, Bool-cases, Option-cases, inl, inr, ◌⊎◌,
}
use rmqtt.Types.{Publish, From, set_dup}
use rmqtt.Inflight.Deque.{DequeMap}
use rmqtt.Inflight.{InflightMessage, MomentStatus, un_ack, un_received, un_complete}
use rmqtt.Fitter.{is_expiry, message_expiry_check}
use rmqtt.Session.{
  Tx, absent, closed, working, Ended, returned, waits, State, Env, rerelease, reforward, forward,
}
use rmqtt.Session.Handover.{is_complete}
use rmqtt.Session.Handover.Order.{again}

-- Whether a release goes out under this packet id.
abbrev pub goes_out : Env → Option ℕ → Bool
goes_out env none = false
goes_out env (some id) = env.release_ok id

-- Whether a message has its release sent again: it is not expired, and the connection takes the release.
abbrev pub releases : Env → Bool → InflightMessage → Bool
releases env connected m =
    let check =
      message_expiry_check env.now env.listener (env.expired m.from m.publish) m.publish in
    is_complete m.status
    && (not (is_expiry check) && (connected && goes_out env m.publish.packet_id))

abbrev pub is_waiting : Ended → Bool
is_waiting (returned ok) = false
is_waiting waits = true

pub ended_cases : (e : Ended) → (e ≡ waits) ⊎ ((ok : Bool) × (e ≡ returned ok))
ended_cases waits = inl refl
ended_cases (returned ok) = inr (ok, refl)

-- What the session's own channel gets of the messages.
abbrev pub taken : Tx → List (From × Publish) → List (From × Publish)
taken working ms = ms
taken closed ms = []
taken absent ms = []

pub taken_nothing : (t : Tx) (ms : List (From × Publish)) → ms ++ taken t [] ≡ ms
taken_nothing absent ms = append-nil ms
taken_nothing closed ms = append-nil ms
taken_nothing working ms = append-nil ms

pub taken_both :
    (t : Tx) (old : List (From × Publish)) (m : InflightMessage) (ms : List InflightMessage)
    → (old ++ taken t (again (m ∷ []))) ++ taken t (again ms) ≡ old ++ taken t (again (m ∷ ms))
taken_both absent old m ms = ap (λ z. z ++ []) (append-nil old)
taken_both closed old m ms = ap (λ z. z ++ []) (append-nil old)
taken_both working old m ms =
    append_assoc old (again (m ∷ [])) (again ms)
    ∙ ap (λ z. old ++ z) (one_more (is_complete m.status) refl)
  where
    one_more : (b : Bool) → is_complete m.status ≡ b → again (m ∷ []) ++ again ms ≡ again (m ∷ ms)
    one_more true e = rw e refl
    one_more false e = rw e refl

module _ (dm : DequeMap InflightMessage) where
  forward_kept :
      (from : From) (p : Publish) (s : State dm)
      → let s' = forward dm from p s in (s'.win ≡ s.win) × (s'.sink ≡ s.sink) × (s'.tx ≡ s.tx)
  unfolding forward
  forward_kept from p s = by_tx s.tx refl
    where
      by_tx :
          (t : Tx)
          → s.tx ≡ t
          → let s' = forward dm from p s in (s'.win ≡ s.win) × (s'.sink ≡ s.sink) × (s'.tx ≡ s.tx)
      by_tx absent e = rw (e, forward) (refl, refl, e)
      by_tx closed e = rw (e, forward) (refl, refl, e)
      by_tx working e = rw (e, forward) (refl, refl, e)

  -- What a release that is sent again, under the lock of the window, leaves as it was.
  abbrev pub Kept : State dm → State dm → Type 0
  Kept s s' = (s'.win ≡ s.win) × (s'.sink ≡ s.sink) × (s'.tx ≡ s.tx)

  rerelease_held :
      (env : Env) (m : InflightMessage) (s : State dm)
      → m.status ≡ un_complete
      → let (ended, s') = rerelease dm env true m s in
        (is_waiting ended ≡ releases env s.sink m) × Kept s s' × (s'.forwarded ≡ s.forwarded)
  unfolding rerelease
  rerelease_held env m s c =
      let check =
        is_expiry
          (message_expiry_check env.now env.listener (env.expired m.from m.publish) m.publish) in
      elim (Bool-cases check) [
        | inl e ↦ ground arith
        | inr e ↦ elim (Bool-cases s.sink) [
          | inr f ↦ ground arith
          | inl f ↦ elim (Option-cases m.publish.packet_id) [
            | inl g ↦ ground arith
            | inr (id, g) ↦ elim (Bool-cases (env.release_ok id)) [
              | inl h ↦ ground arith
              | inr h ↦ ground arith
            ]
          ]
        ]
      ]

  pub reforward-Kept :
      (env : Env) (m : InflightMessage) (s : State dm) → Kept s (reforward dm env true m s).1
  unfolding reforward
  reforward-Kept env m s = by_status m.status refl
    where
      by_status : (t : MomentStatus) → m.status ≡ t → Kept s (reforward dm env true m s).1
      by_status un_ack e = rw (e, reforward) (forward_kept m.from (set_dup true m.publish) s)
      by_status un_received e = rw (e, reforward) (forward_kept m.from (set_dup true m.publish) s)
      by_status un_complete e =
          let (stops, kept, same) = rerelease_held env m s e in rw (e, reforward) kept

  forward_taken :
      (from : From) (p : Publish) (s : State dm)
      → (forward dm from p s).forwarded ≡ s.forwarded ++ taken s.tx ((from, p) ∷ [])
  unfolding forward
  forward_taken from p s = by_tx s.tx refl
    where
      by_tx :
          (t : Tx)
          → s.tx ≡ t
          → (forward dm from p s).forwarded ≡ s.forwarded ++ taken t ((from, p) ∷ [])
      by_tx absent e = rw (e, forward) (sym (append-nil s.forwarded))
      by_tx closed e = rw (e, forward) (sym (append-nil s.forwarded))
      by_tx working e = rw (e, forward) refl

  pub reforward_lem :
      (env : Env) (m : InflightMessage) (s : State dm)
      → let (ended, s') = reforward dm env true m s in
        (is_waiting ended ≡ releases env s.sink m)
        × (s'.forwarded ≡ s.forwarded ++ taken s.tx (again (m ∷ [])))
  unfolding reforward rerelease
  reforward_lem env m s = by_status m.status refl
    where
      by_status :
          (t : MomentStatus)
          → m.status ≡ t
          → let (ended, s') = reforward dm env true m s in
            (is_waiting ended ≡ releases env s.sink m)
            × (s'.forwarded ≡ s.forwarded ++ taken s.tx (again (m ∷ [])))
      by_status un_ack e = rw (e, reforward) (refl, forward_taken m.from (set_dup true m.publish) s)
      by_status un_received e =
          rw (e, reforward) (refl, forward_taken m.from (set_dup true m.publish) s)
      by_status un_complete e =
          let (stops, kept, same) = rerelease_held env m s e in
          rw (e, reforward) (rw e at stops, same ∙ sym (taken_nothing s.tx s.forwarded))
