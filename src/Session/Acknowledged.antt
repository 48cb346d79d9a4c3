-- ===== src/Session/Acknowledged.antt =====
-- The two acknowledgements of a message of quality 2, in rmqtt/src/broker/v3.rs and v5.rs.
use rmqtt.Common.{
  ℕ, ◌≡◌, ◌≢◌, refl, ◌∙◌, ap, none, some, [], ◌∷◌, ◌++◌, nat_key, arith, ◌==◌, if◌then◌else◌, true,
  false, Option-cases, inl, inr,
}
use mathlib.Core.Option
use rmqtt.Inflight.Deque.{DequeMap}
use rmqtt.Inflight.{InflightMessage, un_complete, set_status, remove}
use rmqtt.Inflight.Flow.{find, find-update_status, remove_lem}
use rmqtt.Session.{State, Env, publish_received, publish_complete, acknowledge}

module _ (dm : DequeMap InflightMessage) where
  received_lem :
      (env : Env) (s : State dm) (k j : ℕ)
      → let s' = acknowledge dm env (publish_received k) s in
        (find dm j s'.win ≡ (
          if k == j
          then Option.map (set_status env.now un_complete) (find dm j s.win)
          else find dm j s.win))
        × (s'.acked ≡ s.acked)
  unfolding acknowledge
  received_lem env s k j = (find-update_status dm env.now k j un_complete s.win, refl)

  complete_win :
      (env : Env) (s : State dm) (k j : ℕ)
      → find dm j (acknowledge dm env (publish_complete k) s).win
        ≡ (if k == j then none else find dm j s.win)
  unfolding acknowledge
  complete_win env s k j = elim (Option-cases (remove dm k s.win).0) [
    | inl e ↦ rw (e, acknowledge) (remove_lem dm k j s.win).1
    | inr (m, e) ↦ rw (e, acknowledge) (remove_lem dm k j s.win).1
  ]

  complete_found :
      (env : Env) (s : State dm) (k : ℕ) (m : InflightMessage)
      → find dm k s.win ≡ some m
      → (acknowledge dm env (publish_complete k) s).acked ≡ s.acked ++ (m.from, m.publish) ∷ []
  unfolding acknowledge
  complete_found env s k m e =
      let found : (remove dm k s.win).0 ≡ some m = (remove_lem dm k k s.win).0 ∙ e in
      rw (found, acknowledge) refl

  complete_nothing :
      (env : Env) (s : State dm) (k : ℕ)
      → find dm k s.win ≡ none
      → (acknowledge dm env (publish_complete k) s).acked ≡ s.acked
  unfolding acknowledge
  complete_nothing env s k e =
      let nothing : (remove dm k s.win).0 ≡ none = (remove_lem dm k k s.win).0 ∙ e in
      rw (nothing, acknowledge) refl

  -- A message that is in the window and then received is marked with that status and the time, and nobody
  -- is told. When it is completed, it leaves the window, and is given once to the hook for acknowledged
  -- messages; completing it again tells nobody. The other messages of the window stay as they were.
  pub exactly_once_lem :
      (e1 e2 e3 : Env) (s : State dm) (k j : ℕ) (m : InflightMessage)
      → find dm k s.win ≡ some m
      → k ≢ j
      → let received = acknowledge dm e1 (publish_received k) s in
        let done = acknowledge dm e2 (publish_complete k) received in
        let once_more = acknowledge dm e3 (publish_complete k) done in
        (find dm k received.win ≡ some (record m { status = un_complete; update_time = e1.now }))
        × (received.acked ≡ s.acked)
        × (find dm k done.win ≡ none)
        × (done.acked ≡ s.acked ++ (m.from, m.publish) ∷ [])
        × (once_more.acked ≡ done.acked)
        × (find dm j received.win ≡ find dm j s.win)
        × (find dm j once_more.win ≡ find dm j s.win)
  unfolding set_status
  exactly_once_lem e1 e2 e3 s k j m here other =
      let received = acknowledge dm e1 (publish_received k) s in
      let done = acknowledge dm e2 (publish_complete k) received in
      let marked = record m { status = un_complete; update_time = e1.now } in
      let same_key : (k == k) ≡ true = ground arith in
      let other_key : (k == j) ≡ false = ground arith in
      let (own, quiet) = received_lem e1 s k k in
      let found : find dm k received.win ≡ some marked = rw (same_key, here) at own in
      let kept : find dm j received.win ≡ find dm j s.win =
        rw other_key at (received_lem e1 s k j).0 in
      let gone : find dm k done.win ≡ none = rw same_key at (complete_win e2 received k k) in
      let left : find dm j done.win ≡ find dm j received.win =
        rw other_key at (complete_win e2 received k j) in
      let end = rw other_key at (complete_win e3 done k j) in
      (
        found,
        quiet,
        gone,
        complete_found e2 received k marked found ∙ ap (λ z. z ++ (m.from, m.publish) ∷ []) quiet,
        complete_nothing e3 done k gone,
        kept,
        end ∙ (left ∙ kept),
      )
