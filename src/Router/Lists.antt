-- ===== src/Router/Lists.antt =====
-- The iterators that the queries of rmqtt/src/broker/default.rs are made of.
use rmqtt.Common.{
  ℕ, zero, suc, ◌-◌, ◌≡◌, ◌↔◌, refl, ap, sym, ◌∙◌, Bool, true, false, ◌&&◌, List, [], ◌∷◌, ◌++◌,
  map, if◌then◌else◌, Key, same, same→eq, ltb, In, arith, Bool-cases, inl, inr, ◌⊎◌,
}

instance abbrev pub pair_key : {A B : Type 0} ⦃a : Key A⦄ ⦃b : Key B⦄ → Key (A × B)
pair_key ⦃a⦄ ⦃b⦄ = record {
  same = λ x y. a.same x.0 y.0 && b.same x.1 y.1;
  same_iff = λ x y. ground (arith, a.same_iff x.0 y.0, b.same_iff x.1 y.1);
}

-- `unique()`: the first of equal elements.
abbrev pub is_in : {A : Type 0} ⦃k : Key A⦄ → A → List A → Bool
is_in a [] = false
is_in a (x ∷ xs) = if same x a then true else is_in a xs

abbrev pub unique_after : {A : Type 0} ⦃k : Key A⦄ → List A → List A → List A
unique_after seen [] = []
unique_after seen (x ∷ xs) =
    if is_in x seen then unique_after seen xs else x ∷ unique_after (x ∷ seen) xs

abbrev pub unique : {A : Type 0} ⦃k : Key A⦄ → List A → List A
unique xs = unique_after [] xs

-- `filter_map` with the count `curr`, which it carries on.
abbrev pub pick : {A : Type 0} → ℕ → ℕ → List A → List A × ℕ
pick limit curr [] = ([], curr)
pick limit curr (x ∷ xs) =
    let (more, end) = pick limit (suc curr) xs in
    let (others, end') = pick limit curr xs in
    if ltb curr limit then (x ∷ more, end) else (others, end')

-- `flat_map` of such lists.
abbrev pub pick_each : {A : Type 0} → ℕ → ℕ → List (List A) → List A
pick_each limit curr [] = []
pick_each limit curr (xs ∷ xss) =
    let (picked, curr') = pick limit curr xs in picked ++ pick_each limit curr' xss

abbrev pub take : {A : Type 0} → ℕ → List A → List A
take zero xs = []
take (suc n) [] = []
take (suc n) (x ∷ xs) = x ∷ take n xs

abbrev pub concat : {A : Type 0} → List (List A) → List A
concat [] = []
concat (xs ∷ xss) = xs ++ concat xss

module _ {A : Type 0} ⦃k : Key A⦄ where
  is_in-In : (a : A) (xs : List A) → is_in a xs ≡ true → In a xs
  is_in-In a [] h = cc
  is_in-In a (x ∷ xs) h = elim (Bool-cases (same x a)) [
    | inl e ↦ inl (sym (same→eq x a e))
    | inr e ↦ inr (is_in-In a xs (rw e at h))
  ]

  In-unique_after : (a : A) (seen xs : List A) → In a xs → In a seen ⊎ In a (unique_after seen xs)
  In-unique_after a seen [] i = elim i [ ]
  In-unique_after a seen (x ∷ xs) (inl e) = elim (Bool-cases (is_in x seen)) [
    | inl h ↦ inl (rw e (is_in-In x seen h))
    | inr h ↦ inr (rw h (inl e))
  ]
  In-unique_after a seen (x ∷ xs) (inr i) = elim (Bool-cases (is_in x seen)) [
    | inl h ↦ elim (In-unique_after a seen xs i) [ inl s ↦ inl s | inr u ↦ inr (rw h u) ]
    | inr h ↦ elim (In-unique_after a (x ∷ seen) xs i) [
      | inl (inl e) ↦ inr (rw h (inl e))
      | inl (inr s) ↦ inl s
      | inr u ↦ inr (rw h (inr u))
    ]
  ]

  unique_after-In : (a : A) (seen xs : List A) → In a (unique_after seen xs) → In a xs
  unique_after-In a seen [] i = elim i [ ]
  unique_after-In a seen (x ∷ xs) i = elim (Bool-cases (is_in x seen)) [
    | inl h ↦ inr (unique_after-In a seen xs (rw h at i))
    | inr h ↦
        let i' : (a ≡ x) ⊎ In a (unique_after (x ∷ seen) xs) = rw h at i in
        elim i' [ inl e ↦ inl e | inr u ↦ inr (unique_after-In a (x ∷ seen) xs u) ]
  ]

  -- `unique` keeps the elements, whatever their order.
  pub In-unique : (a : A) (xs : List A) → In a (unique xs) ↔ In a xs
  In-unique a xs = (
    unique_after-In a [] xs,
    λ i. elim (In-unique_after a [] xs i) [ inl s ↦ elim s [ ] | inr u ↦ u ],
  )

module _ {A B : Type 0} where
  pub In-map : (f : A → B) (b : B) (xs : List A) → In b (map f xs) ↔ ((a : A) × In a xs × (b ≡ f a))
  In-map f b [] = (λ i. elim i [ ], λ (a, i, e). i)
  In-map f b (x ∷ xs) = (sound (In-map f b xs).0, complete (In-map f b xs).1)
    where
      sound :
          (In b (map f xs) → (a : A) × In a xs × (b ≡ f a))
          → In b (map f (x ∷ xs))
          → (a : A) × In a (x ∷ xs) × (b ≡ f a)
      sound further (inl e) = (x, inl refl, e)
      sound further (inr i) = let (a, j, e) = further i in (a, inr j, e)

      complete :
          (((a : A) × In a xs × (b ≡ f a)) → In b (map f xs))
          → ((a : A) × In a (x ∷ xs) × (b ≡ f a))
          → In b (map f (x ∷ xs))
      complete further (a, inl e, h) = inl (h ∙ ap f e)
      complete further (a, inr i, h) = inr (further (a, i, h))

minus_zero : (n : ℕ) → n - 0 ≡ n
minus_zero n = omega arith

more_left : (curr limit : ℕ) → ltb curr limit ≡ true → limit - curr ≡ suc (limit - suc curr)
more_left curr limit h = ground arith

none_left : (curr limit : ℕ) → ltb curr limit ≡ false → limit - curr ≡ 0
none_left curr limit h = ground arith

module _ {A : Type 0} where
  pick-take : (limit curr : ℕ) (xs : List A) → (pick limit curr xs).0 ≡ take (limit - curr) xs
  pick-take limit curr [] = take_nothing (limit - curr)
    where
      take_nothing : (n : ℕ) → [] ≡ take {A = A} n []
      take_nothing zero = refl
      take_nothing (suc n) = refl
  pick-take limit curr (x ∷ xs) = elim (Bool-cases (ltb curr limit)) [
    | inl e ↦ rw (e, more_left curr limit e) (ap (λ z. x ∷ z) (pick-take limit (suc curr) xs))
    | inr e ↦
        let zero_left = none_left curr limit e in
        rw (e, zero_left) (pick-take limit curr xs ∙ ap (λ n. take n xs) zero_left)
  ]

  pick-append :
      (limit curr : ℕ) (xs ys : List A)
      → (pick limit curr xs).0 ++ take (limit - (pick limit curr xs).1) ys
        ≡ take (limit - curr) (xs ++ ys)
  pick-append limit curr [] ys = refl
  pick-append limit curr (x ∷ xs) ys = elim (Bool-cases (ltb curr limit)) [
    | inl e ↦ rw (e, more_left curr limit e) (ap (λ z. x ∷ z) (pick-append limit (suc curr) xs ys))
    | inr e ↦
        let zero_left = none_left curr limit e in
        rw (e, zero_left) (pick-append limit curr xs ys ∙ ap (λ n. take n (xs ++ ys)) zero_left)
  ]

  -- The count that goes from list to list gives the first elements of all of them.
  pick_each-take :
      (limit curr : ℕ) (xss : List (List A))
      → pick_each limit curr xss ≡ take (limit - curr) (concat xss)
  pick_each-take limit curr [] = pick-take limit curr []
  pick_each-take limit curr (xs ∷ xss) =
      ap (λ z. (pick limit curr xs).0 ++ z) (pick_each-take limit (pick limit curr xs).1 xss)
      ∙ pick-append limit curr xs (concat xss)

  pub pick-first : (limit : ℕ) (xs : List A) → (pick limit 0 xs).0 ≡ take limit xs
  pick-first limit xs = pick-take limit 0 xs ∙ ap (λ n. take n xs) (minus_zero limit)

  pub pick_each-first :
      (limit : ℕ) (xss : List (List A)) → pick_each limit 0 xss ≡ take limit (concat xss)
  pick_each-first limit xss =
      pick_each-take limit 0 xss ∙ ap (λ n. take n (concat xss)) (minus_zero limit)
