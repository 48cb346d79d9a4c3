-- ===== src/Inflight/Ids.antt =====
-- `next_id` of rmqtt/src/broker/inflight.rs: an id that is not in the window is found.
use rmqtt.Common.{
  ℕ, zero, suc, ◌+◌, ◌%◌, ◌≤◌, ◌<◌, ◌≡◌, ◌≢◌, refl, subst, Bool, true, false, not, ◌||◌, none, some,
  List, [], ◌∷◌, map, length, get, keep, length-keep, arith, ◌==◌, is_some, nat_key, Option-cases,
  inl, inr,
}
use rmqtt.Inflight.Deque.{DequeMap}
use rmqtt.Inflight.{Inflight, InflightMessage, next_id, next_id_loop, u16_max}

abbrev memb : ℕ → List ℕ → Bool
memb a [] = false
memb a (x ∷ xs) = x == a || memb a xs

abbrev without : ℕ → List ℕ → List ℕ
without a = keep (λ x. not (x == a))

memb-without : (a b : ℕ) (xs : List ℕ) → a ≢ b → memb b xs ≡ true → memb b (without a xs) ≡ true
memb-without a b [] n h = h
memb-without a b (x ∷ xs) n h = ground (arith, memb-without a b xs n)

length-without : (a : ℕ) (xs : List ℕ) → memb a xs ≡ true → length (without a xs) < length xs
length-without a [] h = cc
length-without a (x ∷ xs) h =
    ground (arith, length-without a xs, length-keep (λ y. not (y == a)) xs)

-- `n` consecutive values of a 16-bit counter are distinct, so that a list holding them is as long.
window-le-length :
    (n c : ℕ) (xs : List ℕ)
    → n ≤ 65536
    → c < 65536
    → ((i : ℕ) → i < n → memb ((c + i) % 65536) xs ≡ true)
    → n ≤ length xs
window-le-length zero c xs h hc all = omega arith
window-le-length (suc n) c xs h hc all = omega (
  arith,
  length-without c xs first,
  window-le-length n ((c + 1) % 65536) (without c xs) (omega arith) (omega arith) rest,
)
  where
    first : memb c xs ≡ true
    first = subst (λ x. memb x xs ≡ true) (omega arith) (all 0 (omega arith))

    rest : (i : ℕ) → i < n → memb (((c + 1) % 65536 + i) % 65536) (without c xs) ≡ true
    rest i hi =
        memb-without c _ xs (omega arith)
          (subst (λ x. memb x xs ≡ true) (omega arith) (all (suc i) (omega arith)))

-- The loop gives up only after it saw `n` ids that are 0 or in use.
loop_none :
    (n c : ℕ) (used : ℕ → Bool)
    → c < 65536
    → (next_id_loop n used c).0 ≡ none
    → (i : ℕ) → i < n
    → ((c + i) % 65536 == 0 || used ((c + i) % 65536)) ≡ true
unfolding next_id_loop
loop_none zero c used hc e i hi = elim hi [ ]
loop_none (suc n) c used hc e zero hi =
    let z : (c + 0) % 65536 ≡ c = omega arith in rw z (ground arith)
loop_none (suc n) c used hc e (suc i) hi =
    let z : (c + suc i) % 65536 ≡ ((c + 1) % 65536 + i) % 65536 = omega arith in
    rw z (loop_none n ((c + 1) % 65536) used (omega arith) (ground arith) i (omega arith))

loop_some :
    (n c : ℕ) (used : ℕ → Bool) (id : ℕ)
    → c < 65536
    → (next_id_loop n used c).0 ≡ some id
    → (0 < id) × (id < 65536) × (used id ≡ false)
unfolding next_id_loop
loop_some zero c used id hc e = cc
loop_some (suc n) c used id hc e =
    ground (arith, loop_some n ((c + 1) % 65536) used id (omega arith))

abbrev keys : {M : Type 0} → List (ℕ × M) → List ℕ
keys = map (λ e. e.0)

memb-keys :
    {M : Type 0} (k : ℕ) (m : List (ℕ × M)) → is_some (get k m) ≡ true → memb k (keys m) ≡ true
memb-keys k [] h = h
memb-keys k ((j, v) ∷ m) h = ground (arith, memb-keys k m)

length-keys : {M : Type 0} (m : List (ℕ × M)) → length (keys m) ≡ length m
length-keys [] = refl
length-keys (x ∷ m) = omega (arith, length-keys m)

module _ (dm : DequeMap InflightMessage) where
  abbrev size : Inflight dm → ℕ
  size q = length (dm.entries q.queues)

  -- An id that `next_id` returns is a nonzero 16-bit number that the window does not hold.
  pub next_id_fresh :
      (q : Inflight dm) (id : ℕ)
      → q.next < 65536
      → (next_id dm q).0 ≡ some id
      → (0 < id) × (id < 65536) × (get id (dm.entries q.queues) ≡ none)
  unfolding next_id
  next_id_fresh q id h e = ground (
    arith,
    loop_some u16_max q.next (dm.contains_key q.queues) id,
    dm.contains_key_lem q.queues id,
  )

  -- With fewer than 65534 messages in the window `next_id` returns an id.
  pub next_id_total :
      (q : Inflight dm) → q.next < 65536 → size q < 65534 → (id : ℕ) × ((next_id dm q).0 ≡ some id)
  unfolding next_id
  next_id_total q h small = elim (Option-cases (next_id dm q).0) [
    | inl e ↦ absurd (omega (arith, counted e, length-keys (dm.entries q.queues)))
    | inr found ↦ found
  ]
    where
      seen :
          (next_id dm q).0 ≡ none
          → (i : ℕ) → i < 65535
          → memb ((q.next + i) % 65536) (0 ∷ keys (dm.entries q.queues)) ≡ true
      seen e i hi = ground (
        arith,
        loop_none u16_max q.next (dm.contains_key q.queues) h e i hi,
        dm.contains_key_lem q.queues ((q.next + i) % 65536),
        memb-keys ((q.next + i) % 65536) (dm.entries q.queues),
      )

      counted : (next_id dm q).0 ≡ none → 65535 ≤ suc (length (keys (dm.entries q.queues)))
      counted e =
          window-le-length 65535 q.next (0 ∷ keys (dm.entries q.queues)) (omega arith) h (seen e)
