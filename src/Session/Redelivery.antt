-- ===== src/Session/Redelivery.antt =====
-- The loop of rmqtt/src/broker/session.rs over the messages of the window that are due, which holds the lock of
-- the window while it sends them again.
use rmqtt.Common.{
  length, Bool, ◌||◌, if◌then◌else◌, ℕ, zero, suc, ◌<◌, ◌≡◌, refl, sym, ◌∙◌, ap, true, false, none,
  some, List, [], ◌∷◌, ◌++◌, nat_key, arith, Bool-cases, inl, inr, ◌⊎◌, subst, head?,
}
use rmqtt.Inflight.Deque.{DequeMap}
use rmqtt.Inflight.{Inflight, InflightMessage, timeout, pop_front, pop_front_timeout, front_timeout}
use rmqtt.Inflight.Window.{window, size, pop_front_first}
use rmqtt.Session.{State, Env, reforward, redeliver}
use rmqtt.Session.Handover.Order.{again}
use rmqtt.Session.Tracked.{IsTracked, pop_front-IsTracked}
use rmqtt.Session.Reforward.{
  releases, is_waiting, ended_cases, taken, taken_nothing, taken_both, reforward-Kept,
  reforward_lem,
}

abbrev pub any_releases : Env → Bool → List InflightMessage → Bool
any_releases env connected [] = false
any_releases env connected (m ∷ ms) = releases env connected m || any_releases env connected ms

-- The messages at the front of the window up to the first that is not due, and the entries from there on.
abbrev pub due_first : ℕ → ℕ → List (ℕ × InflightMessage) → List InflightMessage
due_first now interval [] = []
due_first now interval ((k, m) ∷ es) =
    if timeout now interval m then m ∷ due_first now interval es else []

abbrev pub not_due : ℕ → ℕ → List (ℕ × InflightMessage) → List (ℕ × InflightMessage)
not_due now interval [] = []
not_due now interval ((k, m) ∷ es) =
    if timeout now interval m then not_due now interval es else (k, m) ∷ es

module _ (dm : DequeMap InflightMessage) where
  -- What a call of `pop_front_timeout` does.
  abbrev pub IsIdle : ℕ → Inflight dm → Type 0
  IsIdle now q = (pop_front_timeout dm now q ≡ (none, q)) × (front_timeout dm now q ≡ false)

  abbrev pub Popped : ℕ → Inflight dm → Type 0
  Popped now q =
      (k : ℕ) × (m : InflightMessage) × (es : List (ℕ × InflightMessage)) × (window dm q
        ≡ (k, m) ∷ es)
      × ((pop_front_timeout dm now q).0 ≡ some m)
      × (window dm (pop_front_timeout dm now q).1 ≡ es)
      × (timeout now q.interval m ≡ true)

  pub pop_cases : (now : ℕ) (q : Inflight dm) → IsIdle now q ⊎ Popped now q
  unfolding pop_front_timeout front_timeout
  pop_cases now q = elim (Bool-cases (front_timeout dm now q)) [
    | inr e ↦ inl (rw (e, pop_front_timeout) refl, e)
    | inl e ↦ inr (by_window (window dm q) refl e)
  ]
    where
      by_window :
          (es : List (ℕ × InflightMessage))
          → window dm q ≡ es
          → front_timeout dm now q ≡ true
          → Popped now q
      by_window [] w e =
          let nothing : dm.front q.queues ≡ none = dm.front_lem q.queues ∙ ap head? w in
          absurd (ground arith)
      by_window ((k, m) ∷ es) w e =
          let first : dm.front q.queues ≡ some (k, m) = dm.front_lem q.queues ∙ ap head? w in
          let (got, left) = pop_front_first dm q k m es w in
          (k, m, es, w, rw (e, pop_front_timeout) got, rw (e, pop_front_timeout) left, ground arith)

  pop_front_timeout_interval :
      (now : ℕ) (q : Inflight dm) → (pop_front_timeout dm now q).1.interval ≡ q.interval
  unfolding pop_front_timeout pop_front
  pop_front_timeout_interval now q = ground arith

  pub pop_front_timeout-IsTracked :
      (now : ℕ) (q : Inflight dm) → IsTracked dm q → IsTracked dm (pop_front_timeout dm now q).1
  unfolding pop_front_timeout
  pop_front_timeout-IsTracked now q w = elim (Bool-cases (front_timeout dm now q)) [
    | inl e ↦ rw (e, pop_front_timeout) (pop_front-IsTracked dm q w)
    | inr e ↦ rw (e, pop_front_timeout) w
  ]

  -- Where the loop is idle, no message at the front of the window is due.
  idle_lem :
      (now : ℕ) (q : Inflight dm) (es : List (ℕ × InflightMessage))
      → window dm q ≡ es
      → front_timeout dm now q ≡ false
      → (due_first now q.interval es ≡ []) × (not_due now q.interval es ≡ es)
  unfolding front_timeout timeout
  idle_lem now q [] e h = (refl, refl)
  idle_lem now q ((k, m) ∷ es) e h =
      let first : dm.front q.queues ≡ some (k, m) = dm.front_lem q.queues ∙ ap head? e in
      let later : timeout now q.interval m ≡ false = ground arith in rw later (refl, refl)

  abbrev Looped : Env → State dm → List (ℕ × InflightMessage) → Bool × State dm → Type 0
  Looped env s es (for_ever, s') =
      let ms = due_first env.now s.win.interval es in
      (for_ever ≡ any_releases env s.sink ms)
      × (any_releases env s.sink ms ≡ false
          → (window dm s'.win ≡ not_due env.now s.win.interval es)
            × (s'.forwarded ≡ s.forwarded ++ taken s.tx (again ms)))

  redelivered_next :
      (env : Env) (s s1 : State dm) (k : ℕ) (m : InflightMessage) (es : List (ℕ × InflightMessage))
      (r : Bool × State dm)
      → timeout env.now s.win.interval m ≡ true
      → s1.win.interval ≡ s.win.interval
      → s1.sink ≡ s.sink
      → s1.tx ≡ s.tx
      → releases env s.sink m ≡ false
      → s1.forwarded ≡ s.forwarded ++ taken s.tx (again (m ∷ []))
      → Looped env s1 es r
      → Looped env s ((k, m) ∷ es) r
  redelivered_next env s s1 k m es (for_ever, s') d i c t stays f h =
      let ms = due_first env.now s.win.interval es in
      let (ended, left) : Looped env s1 es (for_ever, s') = h in
      let ended' : for_ever ≡ any_releases env s.sink ms = rw (i, c) at ended in
      rw d (
        rw stays ended',
        λ g.
            let g' : any_releases env s.sink ms ≡ false = rw stays at g in
            let (w, out) = left (rw (i, c) g') in
            let w' : window dm s'.win ≡ not_due env.now s.win.interval es = rw i at w in
            let out' : s'.forwarded ≡ s1.forwarded ++ taken s.tx (again ms) = rw (i, t) at out in
            (
              w',
              out' ∙ (ap (λ z. z ++ taken s.tx (again ms)) f ∙ taken_both s.tx s.forwarded m ms),
            ),
      )

  redeliver_entries :
      (n : ℕ) (env : Env) (s : State dm) (es : List (ℕ × InflightMessage))
      → window dm s.win ≡ es
      → length es < n
      → Looped env s es (redeliver dm env n s)
  unfolding redeliver
  redeliver_entries zero env s es e h = absurd (omega arith)
  redeliver_entries (suc n) env s es e h = elim (pop_cases env.now s.win) [
    | inl (idle, nothing) ↦
        let (no_due, all_left) = idle_lem env.now s.win es e nothing in
        rw (idle, redeliver, idle, no_due)
          (refl, λ g. (e ∙ sym all_left, sym (taken_nothing s.tx s.forwarded)))
    | inr (k, m, rest, first, got, left, is_due) ↦
        let q = (pop_front_timeout dm env.now s.win).1 in
        let s1 = record s { win = q } in
        let after = reforward dm env true m s1 in
        let (win_kept, sink_kept, tx_kept) = reforward-Kept dm env m s1 in
        let (stops, out) = reforward_lem dm env m s1 in
        let whole : (k, m) ∷ rest ≡ es = sym first ∙ e in
        let same_interval : after.1.win.interval ≡ s.win.interval =
          ap (λ (z : Inflight dm). z.interval) win_kept
          ∙ pop_front_timeout_interval env.now s.win in
        let enough : length rest < n = omega (arith, ap length whole) in
        subst (λ z. Looped env s z (redeliver dm env (suc n) s)) whole
          (elim (ended_cases after.0) [
            | inl waiting ↦
                let sent : releases env s.sink m ≡ true = sym stops ∙ ap is_waiting waiting in
                rw (got, redeliver, waiting, is_due, sent) (refl, λ g. cc)
            | inr (ok, done) ↦
                let stays : releases env s.sink m ≡ false = sym stops ∙ ap is_waiting done in
                let further =
                  redeliver_entries n env after.1 rest (ap (window dm) win_kept ∙ left) enough in
                rw (got, redeliver, done)
                  (redelivered_next env s after.1 k m rest (redeliver dm env n after.1) is_due
                    same_interval sink_kept tx_kept stays out further)
          ])
  ]

  -- What the loop comes to: it waits for ever, or it ends.
  abbrev pub Redelivered : Env → State dm → Bool × State dm → Type 0
  Redelivered env s (for_ever, s') =
      let ms = due_first env.now s.win.interval (window dm s.win) in
      ((any_releases env s.sink ms ≡ true) × (for_ever ≡ true))
      ⊎ ((any_releases env s.sink ms ≡ false)
          × (for_ever ≡ false)
          × (window dm s'.win ≡ not_due env.now s.win.interval (window dm s.win))
          × (s'.forwarded ≡ s.forwarded ++ taken s.tx (again ms)))

  -- With more fuel than the window has messages, the loop over the messages that are due comes to wait for
  -- ever, for the lock of the window that it holds itself, exactly if one of the messages at the front that
  -- are due has its release sent again: one whose completion is outstanding, that is not expired, over a
  -- connection that takes the release. Otherwise it ends; just those messages have left the window, and the
  -- session's channel, if it works, has got those of them that are not yet released, marked as sent again.
  pub redeliver_lem :
      (n : ℕ) (env : Env) (s : State dm)
      → size dm s.win < n
      → Redelivered env s (redeliver dm env n s)
  redeliver_lem n env s h =
      let (ended, left) = redeliver_entries n env s (window dm s.win) refl h in
      let ms = due_first env.now s.win.interval (window dm s.win) in
      elim (Bool-cases (any_releases env s.sink ms)) [
        | inl e ↦ inl (e, ended ∙ e)
        | inr e ↦ let (gone, out) = left e in inr (e, ended ∙ e, gone, out)
      ]
