-- ===== src/TopicTree/Sizes.antt =====
-- `values_size` of rmqtt/src/broker/topic.rs counts the values: an insertion adds one exactly if it
-- says that the value is new, and a removal takes one away exactly if it says that it was there.
use rmqtt.Common.{
  ◌+◌, ◌≡◌, refl, ap, subst, true, false, not, none, some, List, [], ◌∷◌, Key, same, length,
  length-append, if◌then◌else◌, arith, Option-cases, Bool-cases, inl, inr,
}
use rmqtt.TopicTree.{
  Node, node, Branches, nil, cons, contains, set_insert, set_remove, get_branch, put_branch,
  del_branch, or_default, is_bare, insert, remove, values_size, branches_values,
}
use rmqtt.TopicTree.Valid.{IsValid, AreValid, IsUnique, get_branch-IsValid}

module _ {V : Type 0} ⦃v : Key V⦄ where
  length-set_insert :
      (a : V) (xs : List V)
      → length (set_insert a xs) ≡ length xs + (if not (contains a xs) then 1 else 0)
  length-set_insert a xs = ground (arith, length-append xs (a ∷ []))

  set_remove_absent : (a : V) (xs : List V) → contains a xs ≡ false → set_remove a xs ≡ xs
  set_remove_absent a [] h = refl
  set_remove_absent a (x ∷ xs) h = ground (arith, set_remove_absent a xs)

  length-set_remove :
      (a : V) (xs : List V)
      → IsUnique xs
      → length (set_remove a xs) + (if contains a xs then 1 else 0) ≡ length xs
  length-set_remove a [] u = refl
  length-set_remove a (x ∷ xs) u =
      ground (arith, v.same_iff x a, set_remove_absent a xs, length-set_remove a xs u.1)

module _ {L V : Type 0} ⦃l : Key L⦄ where
  size-put_branch :
      (t : L) (m : Node L V) (bs : Branches L V)
      → branches_values (put_branch t m bs) + values_size (or_default (get_branch t bs))
        ≡ branches_values bs + values_size m
  unfolding values_size
  size-put_branch t m nil = omega arith
  size-put_branch t m (cons u n bs) = elim (Bool-cases (same u t)) [
    | inl e ↦ rw e (omega arith)
    | inr e ↦ rw e (omega (arith, size-put_branch t m bs))
  ]

  del_branch_absent : (t : L) (bs : Branches L V) → get_branch t bs ≡ none → del_branch t bs ≡ bs
  del_branch_absent t nil h = refl
  del_branch_absent t (cons u n bs) h = elim (Bool-cases (same u t)) [
    | inl e ↦ absurd (none≢some (subst (λ b. (if b then some n else get_branch t bs) ≡ none) e h))
    | inr e ↦ rw e (
        ap (cons u n) (
          del_branch_absent t bs (subst (λ b. (if b then some n else get_branch t bs) ≡ none) e h)))
  ]
    where
      none≢some : ¬ (some n ≡ none)
      none≢some q = cc

  size-bare : (n : Node L V) → is_bare n ≡ true → values_size n ≡ 0
  unfolding values_size
  size-bare (node [] nil) h = refl
  size-bare (node [] (cons t n bs)) h = cc
  size-bare (node (x ∷ xs) bs) h = cc

module _ {L V : Type 0} ⦃l : Key L⦄ ⦃v : Key V⦄ where
  size-del_branch :
      (t : L) (bs : Branches L V)
      → AreValid bs
      → branches_values (del_branch t bs) + values_size (or_default (get_branch t bs))
        ≡ branches_values bs
  unfolding values_size
  size-del_branch t nil w = refl
  size-del_branch t (cons u n bs) w = elim (Bool-cases (same u t)) [
    | inl e ↦
        let gone =
          del_branch_absent t bs (subst (λ k. get_branch k bs ≡ none) ((l.same_iff u t).0 e) w.1) in
        rw e (rw gone (omega arith))
    | inr e ↦ rw e (omega (arith, size-del_branch t bs w.3))
  ]

  -- An insertion adds one value exactly if it reports the value as new.
  values_size-insert :
      (q : List L) (a : V) (n : Node L V)
      → values_size (insert q a n).1 ≡ values_size n + (if (insert q a n).0 then 1 else 0)
  unfolding insert values_size
  values_size-insert [] a (node vs bs) = omega (arith, length-set_insert a vs)
  values_size-insert (t ∷ q) a (node vs bs) =
      let x = or_default (get_branch t bs) in
      omega (arith, values_size-insert q a x, size-put_branch t (insert q a x).1 bs)

  -- In a valid tree a removal takes one value away exactly if it reports that the value was there.
  values_size-remove :
      (q : List L) (a : V) (n : Node L V)
      → IsValid n
      → values_size (remove q a n).1 + (if (remove q a n).0 then 1 else 0) ≡ values_size n
  unfolding remove values_size
  values_size-remove [] a (node vs bs) w = omega (arith, length-set_remove a vs w.0)
  values_size-remove (t ∷ q) a (node vs bs) w = elim (Option-cases (get_branch t bs)) [
    | inl e ↦ rw (e, remove) (omega arith)
    | inr (x, e) ↦
        let valid = subst (λ o. IsValid (or_default o)) e (get_branch-IsValid t bs w.1) in
        let child = values_size-remove q a x valid in
        let old =
          subst
            (λ o.
              branches_values (del_branch t bs) + values_size (or_default o) ≡ branches_values bs)
            e (size-del_branch t bs w.1) in
        let new =
          subst
            (λ o.
              branches_values (put_branch t (remove q a x).1 bs) + values_size (or_default o)
              ≡ branches_values bs + values_size (remove q a x).1)
            e (size-put_branch t (remove q a x).1 bs) in
        elim (Bool-cases (is_bare (remove q a x).1)) [
          | inl bare ↦
              rw (e, remove) (rw bare (omega (arith, child, old, size-bare (remove q a x).1 bare)))
          | inr kept ↦ rw (e, remove) (rw kept (omega (arith, child, new)))
        ]
  ]
