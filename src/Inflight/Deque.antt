-- ===== src/Inflight/Deque.antt =====
-- What inflight.rs uses of `rust_box::dequemap::DequeBTreeMap`, keyed by packet ids: a map that can
-- also be taken from the front, the entry added first. Each law reads an operation off the list of
-- entries, front first. Where a key is overwritten, the place of its entry is left open.
use rmqtt.Common.{
  ℕ, ◌+◌, ◌≡◌, Bool, Option, none, some, List, [], ◌∷◌, ◌++◌, length, head?, tail, get, del,
  Distinct, nat_key, is_some, if◌then◌else◌, ◌==◌,
}

abbrev pub modify_entries : {M : Type 0} → ℕ → (M → M) → List (ℕ × M) → List (ℕ × M)
modify_entries k f [] = []
modify_entries k f ((j, m) ∷ r) = if j == k then (j, f m) ∷ r else (j, m) ∷ modify_entries k f r

pub record DequeMap (M : Type 0) : Type 1 where
  pub Queues : Type 0
  pub entries : Queues → List (ℕ × M)
  pub empty : Queues
  pub front : Queues → Option (ℕ × M)
  pub pop_front : Queues → Option (ℕ × M) × Queues
  pub insert : ℕ → M → Queues → Option M × Queues
  pub remove : ℕ → Queues → Option M × Queues
  pub modify : ℕ → (M → M) → Queues → Queues
  pub contains_key : Queues → ℕ → Bool
  pub len : Queues → ℕ
  pub distinct : (q : Queues) → Distinct (entries q)
  pub entries-empty : entries empty ≡ []
  pub front_lem : (q : Queues) → front q ≡ head? (entries q)
  pub pop_front_lem : (q : Queues) → (pop_front q).0 ≡ head? (entries q)
  pub entries-pop_front : (q : Queues) → entries (pop_front q).1 ≡ tail (entries q)
  pub insert_lem : (k : ℕ) (m : M) (q : Queues) → (insert k m q).0 ≡ get k (entries q)
  pub get-insert :
      (j k : ℕ) (m : M) (q : Queues)
      → get j (entries (insert k m q).1) ≡ (if k == j then some m else get j (entries q))
  pub length-insert :
      (k : ℕ) (m : M) (q : Queues)
      → length (entries (insert k m q).1)
        ≡ length (entries q) + (if is_some (get k (entries q)) then 0 else 1)
  pub insert_new :
      (k : ℕ) (m : M) (q : Queues)
      → get k (entries q) ≡ none
      → entries (insert k m q).1 ≡ entries q ++ (k, m) ∷ []
  pub remove_lem : (k : ℕ) (q : Queues) → (remove k q).0 ≡ get k (entries q)
  pub entries-remove : (k : ℕ) (q : Queues) → entries (remove k q).1 ≡ del k (entries q)
  pub entries-modify :
      (k : ℕ) (f : M → M) (q : Queues) → entries (modify k f q) ≡ modify_entries k f (entries q)
  pub contains_key_lem : (q : Queues) (k : ℕ) → contains_key q k ≡ is_some (get k (entries q))
  pub len_lem : (q : Queues) → len q ≡ length (entries q)
