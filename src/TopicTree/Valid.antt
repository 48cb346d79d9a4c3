-- ===== src/TopicTree/Valid.antt =====
-- What every tree of rmqtt/src/broker/topic.rs keeps: distinct values, distinct levels, and no
-- subtree without a value.
use rmqtt.Common.{
  ◌≡◌, refl, subst, ◌∙◌, Bool, false, Option, none, List, [], ◌∷◌, ◌++◌, Key, same, if◌then◌else◌,
  arith, Option-cases, Bool-cases, inl, inr, ◌||◌,
}
use rmqtt.TopicTree.{
  Node, node, Branches, nil, cons, contains, set_insert, set_remove, get_branch, put_branch,
  del_branch, or_default, is_bare, insert, remove,
}
use rmqtt.TopicTree.Values.{get-put_branch, get-del_branch}

module _ {V : Type 0} ⦃v : Key V⦄ where
  -- No value stands twice in a value set.
  abbrev pub IsUnique : List V → Type 0
  IsUnique [] = Unit
  IsUnique (x ∷ xs) = (contains x xs ≡ false) × IsUnique xs

  contains-append :
      (a b : V) (xs : List V) → contains a (xs ++ b ∷ []) ≡ (contains a xs || same b a)
  contains-append a b [] = ground arith
  contains-append a b (x ∷ xs) = ground (arith, contains-append a b xs)

  append-IsUnique :
      (a : V) (xs : List V) → contains a xs ≡ false → IsUnique xs → IsUnique (xs ++ a ∷ [])
  append-IsUnique a [] h u = (refl, tt)
  append-IsUnique a (x ∷ xs) h u =
      ground (arith, contains-append x a xs, v.same_iff a x, v.same_iff x a, append-IsUnique a xs)

  pub set_insert-IsUnique : (a : V) (xs : List V) → IsUnique xs → IsUnique (set_insert a xs)
  set_insert-IsUnique a xs u = elim (Bool-cases (contains a xs)) [
    | inl e ↦ rw e u
    | inr e ↦ rw e (append-IsUnique a xs e u)
  ]

  contains-set_remove :
      (a b : V) (xs : List V) → contains b xs ≡ false → contains b (set_remove a xs) ≡ false
  contains-set_remove a b [] h = h
  contains-set_remove a b (x ∷ xs) h = ground (arith, contains-set_remove a b xs)

  pub set_remove-IsUnique : (a : V) (xs : List V) → IsUnique xs → IsUnique (set_remove a xs)
  set_remove-IsUnique a [] u = u
  set_remove-IsUnique a (x ∷ xs) u =
      ground (arith, contains-set_remove a x xs, set_remove-IsUnique a xs)

pick_none :
    {A : Type 0} (b : Bool) (x o : Option A) → b ≡ false → o ≡ none → (if b then x else o) ≡ none
pick_none b x o e h = ground arith

same_sym : {L : Type 0} ⦃l : Key L⦄ (t u : L) → same t u ≡ false → same u t ≡ false
same_sym ⦃l⦄ t u e = ground (arith, l.same_iff t u, l.same_iff u t)

module _ {L V : Type 0} ⦃l : Key L⦄ ⦃v : Key V⦄ where
  abbrev mutual
    pub IsValid : Node L V → Type 0
    IsValid (node vs bs) = IsUnique vs × AreValid bs

    pub AreValid : Branches L V → Type 0
    AreValid nil = Unit
    AreValid (cons t n bs) =
        (is_bare n ≡ false) × (get_branch t bs ≡ none) × IsValid n × AreValid bs

  put_branch-AreValid :
      (t : L) (n : Node L V) (bs : Branches L V)
      → is_bare n ≡ false
      → IsValid n
      → AreValid bs
      → AreValid (put_branch t n bs)
  put_branch-AreValid t n nil h w bw = (h, refl, w, tt)
  put_branch-AreValid t n (cons u m bs) h w bw = elim (Bool-cases (same u t)) [
    | inl e ↦ rw e (h, bw.1, w, bw.3)
    | inr e ↦
        let absent = get-put_branch t u n bs ∙ pick_none _ _ _ (same_sym u t e) bw.1 in
        rw e (bw.0, absent, bw.2, put_branch-AreValid t n bs h w bw.3)
  ]

  del_branch-AreValid : (t : L) (bs : Branches L V) → AreValid bs → AreValid (del_branch t bs)
  del_branch-AreValid t nil bw = bw
  del_branch-AreValid t (cons u m bs) bw = elim (Bool-cases (same u t)) [
    | inl e ↦ rw e (del_branch-AreValid t bs bw.3)
    | inr e ↦
        let absent = get-del_branch t u bs ∙ pick_none _ _ _ (same_sym u t e) bw.1 in
        rw e (bw.0, absent, bw.2, del_branch-AreValid t bs bw.3)
  ]

  pub get_branch-IsValid :
      (t : L) (bs : Branches L V) → AreValid bs → IsValid (or_default (get_branch t bs))
  get_branch-IsValid t nil bw = (tt, tt)
  get_branch-IsValid t (cons u m bs) bw = elim (Bool-cases (same u t)) [
    | inl e ↦ rw e bw.2
    | inr e ↦ rw e (get_branch-IsValid t bs bw.3)
  ]

  put_branch-not_bare :
      (t : L) (n : Node L V) (bs : Branches L V) (vs : List V)
      → is_bare (node vs (put_branch t n bs)) ≡ false
  put_branch-not_bare t n nil [] = refl
  put_branch-not_bare t n nil (x ∷ xs) = refl
  put_branch-not_bare t n (cons u k bs) [] = elim (Bool-cases (same u t)) [
    | inl e ↦ rw e
    | inr e ↦ rw e
  ]
  put_branch-not_bare t n (cons u k bs) (x ∷ xs) = refl

  set_insert-not_bare :
      (a : V) (xs : List V) (bs : Branches L V) → is_bare (node (set_insert a xs) bs) ≡ false
  set_insert-not_bare a [] bs = refl
  set_insert-not_bare a (x ∷ xs) bs = elim (Bool-cases (contains a (x ∷ xs))) [
    | inl e ↦ rw e
    | inr e ↦ rw e
  ]

  insert-not_bare : (q : List L) (a : V) (n : Node L V) → is_bare (insert q a n).1 ≡ false
  unfolding insert
  insert-not_bare [] a (node vs bs) = set_insert-not_bare a vs bs
  insert-not_bare (t ∷ q) a (node vs bs) =
      put_branch-not_bare t (insert q a (or_default (get_branch t bs))).1 bs vs

  -- `insert` keeps the tree valid.
  insert-IsValid : (q : List L) (a : V) (n : Node L V) → IsValid n → IsValid (insert q a n).1
  unfolding insert
  insert-IsValid [] a (node vs bs) w = (set_insert-IsUnique a vs w.0, w.1)
  insert-IsValid (t ∷ q) a (node vs bs) w =
      let x = or_default (get_branch t bs) in
      (
        w.0,
        put_branch-AreValid t (insert q a x).1 bs (insert-not_bare q a x)
            (insert-IsValid q a x (get_branch-IsValid t bs w.1)) w.1,
      )

  -- `remove` keeps the tree valid: a subtree that has become bare is cut off.
  pub remove-IsValid : (q : List L) (a : V) (n : Node L V) → IsValid n → IsValid (remove q a n).1
  unfolding remove
  remove-IsValid [] a (node vs bs) w = (set_remove-IsUnique a vs w.0, w.1)
  remove-IsValid (t ∷ q) a (node vs bs) w = elim (Option-cases (get_branch t bs)) [
    | inl e ↦ rw (e, remove) w
    | inr (x, e) ↦
        let child =
          remove-IsValid q a x
            (subst (λ o. IsValid (or_default o)) e (get_branch-IsValid t bs w.1)) in
        elim (Bool-cases (is_bare (remove q a x).1)) [
          | inl bare ↦ rw (e, remove) (rw bare (w.0, del_branch-AreValid t bs w.1))
          | inr kept ↦
              rw (e, remove)
                (rw kept (w.0, put_branch-AreValid t (remove q a x).1 bs kept child w.1))
        ]
  ]
