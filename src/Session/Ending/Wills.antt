-- ===== src/Session/Ending/Wills.antt =====
-- When the will of a session of rmqtt/src/broker/session.rs is published.
use rmqtt.Common.{
  ℕ, suc, ◌+◌, ◌≤◌, ◌≡◌, subst, ◌⊎◌, refl, sym, ◌∙◌, ap, Bool, true, false, not, ◌&&◌, ◌||◌, Option,
  none, some, List, [], ◌∷◌, ◌++◌, length, length-append, if◌then◌else◌, is_some, arith, Bool-cases,
  Option-cases, inl, inr,
}
use rmqtt.Types.{Publish}
use rmqtt.Fitter.{ConnectInfo, last_will, will_delay}
use rmqtt.Session.Ending.{
  StateFlags, Offline, Event, forward, kick, other, hung_up, session_expiry_delay,
  will_delay_interval_delay, last_will_enable, process_last_will, offline_step, offline_start,
  end_will, finish,
}

abbrev pending : Option ℕ → ℕ
pending none = 0
pending (some d) = 1

-- A will was published, or is to come while the loop runs, or neither.
abbrev IsOnce : Offline → Type 0
IsOnce o = length o.wills + (if o.running then pending o.will_delay_interval else 0) ≤ 1

-- An event after which the offline loop goes on.
abbrev pub goes_on : Event → Bool
goes_on forward = true
goes_on (kick waiting clean_start is_admin) = not waiting
goes_on other = true
goes_on hung_up = false
goes_on session_expiry_delay = false
goes_on will_delay_interval_delay = true

abbrev pub all_go_on : List Event → Bool
all_go_on [] = true
all_go_on (e ∷ es) = goes_on e && all_go_on es

-- The client did not disconnect by itself, and nobody goes on with its session.
abbrev pub asks_for_will : StateFlags → Bool → Bool
asks_for_will flags clean_session =
    not flags.disconnect_received && (not flags.kicked || (flags.clean_start || clean_session))

asks_for_will_lem :
    (flags : StateFlags) (clean_session : Bool)
    → last_will_enable flags clean_session ≡ asks_for_will flags clean_session
unfolding last_will_enable
asks_for_will_lem flags clean_session = ground arith

module _ (published : Publish → Publish) (c : ConnectInfo) where
  pub process_length :
      (wills : List Publish) → length (process_last_will published c wills) ≤ suc (length wills)
  unfolding process_last_will
  process_length wills = elim (Option-cases (last_will c)) [
    | inl e ↦ rw (e, process_last_will, length) (omega arith)
    | inr (lw, e) ↦
        rw (e, process_last_will) (omega (arith, length-append wills (published lw.publish ∷ [])))
  ]

  step-IsOnce :
      (e : Event) (o : Offline)
      → o.running ≡ true
      → IsOnce o
      → IsOnce (offline_step published c e o)
  unfolding offline_step
  step-IsOnce forward o r h = h
  step-IsOnce (kick true clean_start is_admin) o r h = ground arith
  step-IsOnce (kick false clean_start is_admin) o r h = h
  step-IsOnce other o r h = h
  step-IsOnce hung_up o r h = ground arith
  step-IsOnce session_expiry_delay o r h = elim (Option-cases o.will_delay_interval) [
    | inl e ↦ ground arith
    | inr (d, e) ↦ ground (arith, process_length o.wills)
  ]
  step-IsOnce will_delay_interval_delay o r h = elim (Option-cases o.will_delay_interval) [
    | inl e ↦ ground arith
    | inr (d, e) ↦ ground (arith, process_length o.wills)
  ]

  start_runs :
      (e : Event) (es : List Event) (o : Offline)
      → o.running ≡ true
      → offline_start published c (e ∷ es) o
        ≡ offline_start published c es (offline_step published c e o)
  unfolding offline_start
  start_runs e es o r = ground arith

  start_stopped :
      (es : List Event) (o : Offline) → o.running ≡ false → offline_start published c es o ≡ o
  unfolding offline_start
  start_stopped [] o r = refl
  start_stopped (e ∷ es) o r = ground arith

  start-IsOnce :
      (es : List Event) (o : Offline) → IsOnce o → IsOnce (offline_start published c es o)
  unfolding offline_start
  start-IsOnce [] o h = h
  start-IsOnce (e ∷ es) o h = elim (Bool-cases o.running) [
    | inl r ↦
        subst IsOnce (sym (start_runs e es o r))
          (start-IsOnce es (offline_step published c e o) (step-IsOnce e o r h))
    | inr r ↦ subst IsOnce (sym (start_stopped (e ∷ es) o r)) h
  ]

  end_will-IsOnce : (clean : Bool) (flags : StateFlags) → IsOnce (end_will published c clean flags)
  unfolding end_will
  end_will-IsOnce clean flags = elim (Bool-cases (last_will_enable flags clean)) [
    | inl e ↦ elim (Bool-cases (clean || not (is_some (will_delay c)))) [
      | inl f ↦ ground (arith, process_length [])
      | inr f ↦ elim (Option-cases (will_delay c)) [
        | inl g ↦ ground arith
        | inr (d, g) ↦ ground arith
      ]
    ]
    | inr e ↦ ground arith
  ]

  -- However a session ends, and whatever happens while its client is away: its will is published at most
  -- once.
  pub finish_once :
      (clean : Bool) (flags : StateFlags) (es : List Event)
      → length (finish published c clean flags es).0.wills ≤ 1
  unfolding finish
  finish_once clean flags es =
      let at_end = end_will-IsOnce clean flags in
      let later = start-IsOnce es (end_will published c clean flags) at_end in ground arith

  -- Without a pending will the offline loop publishes none.
  step_settled :
      (e : Event) (o : Offline)
      → o.will_delay_interval ≡ none
      → ((offline_step published c e o).will_delay_interval ≡ none)
        × ((offline_step published c e o).wills ≡ o.wills)
  unfolding offline_step
  step_settled forward o h = (h, refl)
  step_settled (kick true clean_start is_admin) o h = (h, refl)
  step_settled (kick false clean_start is_admin) o h = (h, refl)
  step_settled other o h = (h, refl)
  step_settled hung_up o h = (h, refl)
  step_settled session_expiry_delay o h = (h, ground arith)
  step_settled will_delay_interval_delay o h = (ground arith, ground arith)

  start_settled :
      (es : List Event) (o : Offline)
      → o.will_delay_interval ≡ none
      → (offline_start published c es o).wills ≡ o.wills
  unfolding offline_start
  start_settled [] o h = refl
  start_settled (e ∷ es) o h = elim (Bool-cases o.running) [
    | inl r ↦
        let (settled, same_wills) = step_settled e o h in
        ap (λ (z : Offline). z.wills) (start_runs e es o r)
        ∙ (start_settled es (offline_step published c e o) settled ∙ same_wills)
    | inr r ↦ ap (λ (z : Offline). z.wills) (start_stopped (e ∷ es) o r)
  ]

  due : List Publish
  due = process_last_will published c []

  -- The will is pending, or was published.
  abbrev IsDue : Offline → Type 0
  IsDue o =
      (o.running ≡ true)
      × (((o.wills ≡ []) × (is_some o.will_delay_interval ≡ true))
          ⊎ ((o.wills ≡ due) × (o.will_delay_interval ≡ none)))

  step-IsDue :
      (e : Event) (o : Offline) → goes_on e ≡ true → IsDue o → IsDue (offline_step published c e o)
  unfolding offline_step due
  step-IsDue forward o g h = h
  step-IsDue (kick true clean_start is_admin) o g h = cc
  step-IsDue (kick false clean_start is_admin) o g h = h
  step-IsDue other o g h = h
  step-IsDue hung_up o g h = cc
  step-IsDue session_expiry_delay o g h = cc
  step-IsDue will_delay_interval_delay o g (r, inl (w, d)) =
      (ground arith, inr (ground arith, ground arith))
  step-IsDue will_delay_interval_delay o g (r, inr (w, d)) =
      (ground arith, inr (ground arith, ground arith))

  expiry_due :
      (rest : List Event) (o : Offline)
      → IsDue o
      → (offline_start published c (session_expiry_delay ∷ rest) o).wills ≡ due
  unfolding offline_step due
  expiry_due rest o (r, h) =
      let after = offline_step published c session_expiry_delay o in
      let stopped : after.running ≡ false = refl in
      ap (λ (z : Offline). z.wills)
        (start_runs session_expiry_delay rest o r ∙ start_stopped rest after stopped)
      ∙ settle h
    where
      settle :
          ((o.wills ≡ []) × (is_some o.will_delay_interval ≡ true))
            ⊎ ((o.wills ≡ due) × (o.will_delay_interval ≡ none))
          → (offline_step published c session_expiry_delay o).wills ≡ due
      settle (inl (w, d)) = ground arith
      settle (inr (w, d)) = ground arith

  start_due :
      (es rest : List Event) (o : Offline)
      → all_go_on es ≡ true
      → IsDue o
      → (offline_start published c (es ++ session_expiry_delay ∷ rest) o).wills ≡ due
  start_due [] rest o g h = expiry_due rest o h
  start_due (e ∷ es) rest o g h =
      let first : goes_on e ≡ true = ground arith in
      let others : all_go_on es ≡ true = ground arith in
      ap (λ (z : Offline). z.wills) (start_runs e (es ++ session_expiry_delay ∷ rest) o h.0)
      ∙ start_due es rest (offline_step published c e o) others (step-IsDue e o first h)

  end_will_cases :
      (clean : Bool) (flags : StateFlags)
      → let o = end_will published c clean flags in
        ((last_will_enable flags clean ≡ false) × (o.will_delay_interval ≡ none) × (o.wills ≡ []))
        ⊎ (((last_will_enable flags clean ≡ true)
              × ((not clean && is_some (will_delay c)) ≡ false)
              × (o.will_delay_interval ≡ none)
              × (o.wills ≡ due))
            ⊎ ((last_will_enable flags clean ≡ true)
                × (clean ≡ false)
                × (is_some o.will_delay_interval ≡ true)
                × (o.running ≡ true)
                × (o.wills ≡ [])
                × (is_some (will_delay c) ≡ true)))
  unfolding end_will due
  end_will_cases clean flags = elim (Bool-cases (last_will_enable flags clean)) [
    | inr e ↦ inl (ground arith)
    | inl e ↦ elim (Bool-cases (clean || not (is_some (will_delay c)))) [
      | inl f ↦ inr (inl (ground arith))
      | inr f ↦ inr (inr (ground arith))
    ]
  ]

  -- When a session ends or, after any events that leave it offline, expires, its will was published exactly
  -- if the client did not disconnect by itself, and was not kicked by a connection that goes on with its
  -- session; unless the client was kicked, its session is not clean, and the will has a delay: then it is not
  -- published at all.
  pub finish_will :
      (clean : Bool) (flags : StateFlags) (es rest : List Event)
      → all_go_on es ≡ true
      → (finish published c clean flags (es ++ session_expiry_delay ∷ rest)).0.wills ≡ (
          if asks_for_will flags clean
            && not (flags.kicked && (not clean && is_some (will_delay c)))
          then process_last_will published c []
          else [])
  unfolding finish due
  finish_will clean flags es rest g =
      let same_test = asks_for_will_lem flags clean in
      let o = end_will published c clean flags in
      let es' = es ++ session_expiry_delay ∷ rest in
      elim (end_will_cases clean flags) [
        | inl (off, d, w) ↦ let later = start_settled es' o d in rw (← same_test) (ground arith)
        | inr (inl (on, settled, d, w)) ↦
            let later = start_settled es' o d in rw (← same_test) (ground arith)
        | inr (inr (on, dirty, d, r, w, there)) ↦
            let later = start_due es rest o g (r, inl (w, d)) in rw (← same_test) (ground arith)
      ]
