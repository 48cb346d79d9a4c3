-- ===== src/Router/Choice.antt =====
-- `SharedSubscription::choice` of rmqtt/src/broker/mod.rs: which member of a shared group gets a
-- message.
use Prim.Native.String.{String}
use rmqtt.Common.{
  ℕ, zero, suc, ◌<◌, ◌%◌, ◌≡◌, refl, Bool, true, false, Option, none, some, List, [], ◌∷◌,
  if◌then◌else◌, length, ◌==◌, arith, Bool-cases, inl, inr, ◌⊎◌, ◌||◌, In, sym, subst, ◌∙◌,
}
use rmqtt.Subscriptions.{SubscriptionOptions}

-- A member of a shared group; the source's tuple has `None` for the identifiers besides.
pub record Member : Type 0 where
  pub node_id : ℕ
  pub client_id : String
  pub opts : SubscriptionOptions
  pub is_online : Option Bool

abbrev pub enumerate {ℓ} : {A : Type ℓ} → ℕ → List A → List (ℕ × A)
enumerate n [] = []
enumerate n (x ∷ xs) = (n, x) ∷ enumerate (suc n) xs

-- `Vec::remove` on a nonempty list `x ∷ xs`, at an index within it.
abbrev pub remove_at {ℓ} : {A : Type ℓ} → ℕ → A → List A → A × List A
remove_at zero x xs = (x, xs)
remove_at (suc n) x [] = (x, [])
remove_at (suc n) x (y ∷ xs) = let (got, rest) = remove_at n y xs in (got, x ∷ rest)

-- `random n` is the number drawn while `n` members are left; `is_online` is the router's answer.
module _ (random : ℕ → ℕ) (is_online : ℕ → String → Bool) where
  abbrev pub online : Member → Bool
  online m = elim m.is_online [ some b ↦ b | none ↦ is_online m.node_id m.client_id ]

  abbrev pub draw : ℕ → ℕ
  draw zero = 0
  draw (suc n) = if suc n == 1 then 0 else random (suc n) % suc n

  -- What one round does with the member that it drew and those that are left then.
  abbrev pub settle :
      (ℕ × Member → List (ℕ × Member) → ℕ × Bool) → ℕ × Member → List (ℕ × Member) → ℕ × Bool
  settle again (idx, m) rest =
      if online m then (idx, true) else elim rest [ [] ↦ (idx, online m) | y ∷ ys ↦ again y ys ]

  -- The loop over the members that are left, which are `x ∷ xs`; the fuel is their number.
  unfoldable pub choice_loop : ℕ → ℕ × Member → List (ℕ × Member) → ℕ × Bool
  choice_loop zero x xs = (x.0, online x.1)
  choice_loop (suc n) x xs =
      let (got, rest) = remove_at (draw (suc (length xs))) x xs in settle (choice_loop n) got rest

  unfoldable pub choice : List Member → Option (ℕ × Bool)
  choice [] = none
  choice (m ∷ ncs) = some (choice_loop (suc (length ncs)) (0, m) (enumerate 1 ncs))

module _ {A : Type 0} where
  length-remove_at : (n : ℕ) (x : A) (xs : List A) → length (remove_at n x xs).1 ≡ length xs
  length-remove_at zero x xs = refl
  length-remove_at (suc n) x [] = refl
  length-remove_at (suc n) x (y ∷ xs) = omega (arith, length-remove_at n y xs)

  pub In-remove_at :
      (n : ℕ) (x z : A) (xs : List A)
      → (z ≡ (remove_at n x xs).0) ⊎ In z (remove_at n x xs).1
      → In z (x ∷ xs)
  In-remove_at zero x z xs h = h
  In-remove_at (suc n) x z [] h = h
  In-remove_at (suc n) x z (y ∷ xs) (inl e) = inr (In-remove_at n y z xs (inl e))
  In-remove_at (suc n) x z (y ∷ xs) (inr (inl e)) = inl e
  In-remove_at (suc n) x z (y ∷ xs) (inr (inr h)) = inr (In-remove_at n y z xs (inr h))

module _ (random : ℕ → ℕ) (is_online : ℕ → String → Bool) where
  -- Whether some member is online.
  abbrev pub any_online : List (ℕ × Member) → Bool
  any_online [] = false
  any_online ((idx, m) ∷ ncs) = online random is_online m || any_online ncs

  any_online-remove_at :
      (n : ℕ) (x : ℕ × Member) (xs : List (ℕ × Member))
      → any_online (x ∷ xs)
        ≡ (online random is_online (remove_at n x xs).0.1 || any_online (remove_at n x xs).1)
  any_online-remove_at zero x xs = refl
  any_online-remove_at (suc n) x [] = refl
  any_online-remove_at (suc n) x (y ∷ xs) = ground (arith, any_online-remove_at n y xs)

  abbrev Chosen : List (ℕ × Member) → ℕ × Bool → Type 0
  Chosen ncs r =
      (m : Member) × In (r.0, m) ncs × (online random is_online m ≡ r.1) × (r.1 ≡ any_online ncs)

  settle_lem :
      (again : ℕ × Member → List (ℕ × Member) → ℕ × Bool) (got : ℕ × Member)
      (rest : List (ℕ × Member))
      → ((y : ℕ × Member) (ys : List (ℕ × Member))
          → length ys < length rest
          → Chosen (y ∷ ys) (again y ys))
      → Chosen (got ∷ rest) (settle random is_online again got rest)
  settle_lem again (idx, m) rest further = elim (Bool-cases (online random is_online m)) [
    | inl e ↦ rw e (m, inl refl, e, refl)
    | inr e ↦ go rest e further
  ]
    where
      go :
          (rest : List (ℕ × Member))
          → online random is_online m ≡ false
          → ((y : ℕ × Member) (ys : List (ℕ × Member))
              → length ys < length rest
              → Chosen (y ∷ ys) (again y ys))
          → Chosen ((idx, m) ∷ rest) (settle random is_online again (idx, m) rest)
      go [] e further = rw e (m, inl refl, e, refl)
      go (y ∷ ys) e further =
          let (k, place, on, any) = further y ys (omega arith) in
          let same : settle random is_online again (idx, m) (y ∷ ys) ≡ again y ys = rw e refl in
          let rest_any : any_online (y ∷ ys) ≡ any_online ((idx, m) ∷ y ∷ ys) = rw e refl in
          subst (Chosen ((idx, m) ∷ y ∷ ys)) (sym same) (k, inr place, on, any ∙ rest_any)

  choice_loop_lem :
      (n : ℕ) (x : ℕ × Member) (xs : List (ℕ × Member))
      → length xs < n
      → Chosen (x ∷ xs) (choice_loop random is_online n x xs)
  unfolding choice_loop
  choice_loop_lem zero x xs h = absurd (omega arith)
  choice_loop_lem (suc n) x xs h =
      let i = draw random is_online (suc (length xs)) in
      let (got, rest) = remove_at i x xs in
      let (m, place, on, any) =
        settle_lem (choice_loop random is_online n) got rest
          (λ y ys less. choice_loop_lem n y ys (omega (arith, length-remove_at i x xs))) in
      (m, In-remove_at i x _ xs place, on, any ∙ sym (any_online-remove_at i x xs))

  -- From a group with members, one of them is chosen whatever is drawn: its index and whether it is
  -- online are given, and it is online whenever some member is.
  pub choice_lem :
      (m : Member) (ncs : List Member)
      → (r : ℕ × Bool) × (choice random is_online (m ∷ ncs) ≡ some r)
        × Chosen (enumerate 0 (m ∷ ncs)) r
  unfolding choice
  choice_lem m ncs = (
    choice_loop random is_online (suc (length ncs)) (0, m) (enumerate 1 ncs),
    refl,
    choice_loop_lem (suc (length ncs)) (0, m) (enumerate 1 ncs)
        (omega (arith, length-enumerate 1 ncs)),
  )
    where
      length-enumerate : (k : ℕ) (xs : List Member) → length (enumerate k xs) ≡ length xs
      length-enumerate k [] = refl
      length-enumerate k (x ∷ xs) = omega (arith, length-enumerate (suc k) xs)
