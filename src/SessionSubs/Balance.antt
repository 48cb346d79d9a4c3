-- ===== src/SessionSubs/Balance.antt =====
-- The counters of rmqtt/src/broker/types.rs: whatever is done to the subscriptions of a session, the
-- counters of the node move with their number and with the number of shared ones.
use Prim.Native.String.{String}
use rmqtt.Common.{
  ℕ, ◌+◌, ◌≡◌, refl, ap, sym, ◌∙◌, subst, Bool, true, false, Option, none, some, List, [], ◌∷◌,
  if◌then◌else◌, Key, get, put, del, length, keep, Distinct, put-Distinct, del-Distinct, length-put,
  length-del, arith, ℤ, above, under, integers, Option-cases, inl, inr, del_absent,
}
use rmqtt.Types.{string_key}
use rmqtt.Subscriptions.{SubscriptionOptions, has_shared_group}
use rmqtt.SessionSubs.{
  SessionSubs, add, remove, drain_filters, to_topic_filters, drain, extend, count_down, clear, len,
  shared_len, replace_shared, inc_shared, dec_shared, inc_all, dec_all,
}

abbrev bit : Bool → ℕ
bit b = if b then 1 else 0

-- 1 for an entry that passes the test.
abbrev found : {V : Type 0} → (V → Bool) → Option V → ℕ
found p none = 0
found p (some v) = bit (p v)

module _ {K V : Type 0} ⦃k : Key K⦄ (p : V → Bool) where
  keep-put :
      (q : K) (v : V) (m : List (K × V))
      → length (keep (λ e. p e.1) (put q v m)) + found p (get q m)
        ≡ length (keep (λ e. p e.1) m) + bit (p v)
  keep-put q v [] = ground arith
  keep-put q v ((j, w) ∷ m) = ground (arith, keep-put q v m)

  keep-del :
      (q : K) (m : List (K × V))
      → Distinct m
      → length (keep (λ e. p e.1) (del q m)) + found p (get q m) ≡ length (keep (λ e. p e.1) m)
  keep-del q [] d = refl
  keep-del q ((j, w) ∷ m) d = ground (arith, k.same_iff j q, del_absent q m, keep-del q m d.1)

-- `c` is `o + n`, written on the parts of the two signed numbers.
abbrev pub IsSum : ℤ → ℤ → ℕ → Type 0
IsSum c o n = above c + under o ≡ under c + above o + n

-- The counters stand above `others`, what the other sessions count, by the subscriptions of this one.
pub record IsBalanced (others others_shared : ℤ) (s : SessionSubs) : Type 0 where
  pub distinct : Distinct s.subs
  pub all_counted : IsSum s.subscriptions.current others (len s)
  pub shared_counted : IsSum s.subscriptions_shared.current others_shared (shared_len s)

-- From `s` to `t` the counters move by what is counted up and down, and the subscriptions stay.
abbrev Moved : SessionSubs → SessionSubs → ℕ → ℕ → ℕ → ℕ → Type 0
Moved s t down up down_shared up_shared =
    (t.subs ≡ s.subs)
    × (above t.subscriptions.current + under s.subscriptions.current + down
        ≡ under t.subscriptions.current + above s.subscriptions.current + up)
    × (above t.subscriptions_shared.current + under s.subscriptions_shared.current + down_shared
        ≡ under t.subscriptions_shared.current + above s.subscriptions_shared.current + up_shared)

replaced : (a b : Bool) (s : SessionSubs) → Moved s (replace_shared a b s) 0 0 (bit a) (bit b)
replaced true true s = (refl, omega arith, omega arith)
replaced false false s = (refl, omega arith, omega arith)
replaced true false s = (refl, omega arith, omega integers)
replaced false true s = (refl, omega arith, omega integers)

added :
    (b : Bool) (s : SessionSubs)
    → Moved s (if b then inc_shared (inc_all s) else inc_all s) 0 1 0 (bit b)
added true s = (refl, omega integers, omega integers)
added false s = (refl, omega integers, omega arith)

taken :
    (b : Bool) (s : SessionSubs)
    → Moved s (if b then dec_shared (dec_all s) else dec_all s) 1 0 (bit b) 0
taken true s = (refl, omega integers, omega integers)
taken false s = (refl, omega integers, omega arith)

module _ (o os : ℤ) where
  -- What a move of the counters along with a change of the subscriptions leaves balanced.
  move :
      (s : SessionSubs) (subs : List (String × SubscriptionOptions)) (t : SessionSubs)
      (d u ds us : ℕ)
      → IsBalanced o os s
      → Moved (record s { subs = subs }) t d u ds us
      → Distinct subs
      → length subs + d ≡ len s + u
      → length (keep (λ e. has_shared_group e.1) subs) + ds ≡ shared_len s + us
      → IsBalanced o os t
  unfolding len shared_len
  move s subs t d u ds us w (same_subs, all, shared) distinct h hs = record {
    distinct = subst Distinct (sym same_subs) distinct;
    all_counted = omega (arith, all, h, w.all_counted, ap length same_subs);
    shared_counted = omega (
      arith,
      shared,
      hs,
      w.shared_counted,
      ap (λ m. length (keep (λ e. has_shared_group e.1) m)) same_subs,
    );
  }

  add-IsBalanced :
      (tf : String) (opts : SubscriptionOptions) (s : SessionSubs)
      → IsBalanced o os s
      → IsBalanced o os (add tf opts s).1
  unfolding add len shared_len
  add-IsBalanced tf opts s w =
      let subs = put tf opts s.subs in
      let new = put-Distinct tf opts s.subs w.distinct in
      let total = length-put tf opts s.subs in
      let shared = keep-put has_shared_group tf opts s.subs in
      elim (Option-cases (get tf s.subs)) [
        | inl e ↦
            rw (e, add)
              (move s subs _ 0 1 0 (bit (has_shared_group opts)) w
                (added (has_shared_group opts) (record s { subs = subs })) new
                (omega (arith, rw e at total)) (omega (arith, rw e at shared)))
        | inr (prev, e) ↦
            rw (e, add)
              (move s subs _ 0 0 (bit (has_shared_group prev)) (bit (has_shared_group opts)) w
                (replaced (has_shared_group prev) (has_shared_group opts)
                  (record s { subs = subs }))
                new (omega (arith, rw e at total)) (rw e at shared))
      ]

  remove-IsBalanced :
      (tf : String) (s : SessionSubs) → IsBalanced o os s → IsBalanced o os (remove tf s).1
  unfolding remove len shared_len
  remove-IsBalanced tf s w =
      let subs = del tf s.subs in
      let fewer = del-Distinct tf s.subs w.distinct in
      let total = length-del tf s.subs w.distinct in
      let shared = keep-del has_shared_group tf s.subs w.distinct in
      elim (Option-cases (get tf s.subs)) [
        | inl e ↦
            rw (e, remove)
              (move s subs _ 0 0 0 0 w (refl, omega arith, omega arith) fewer
                (omega (arith, rw e at total)) (omega (arith, rw e at shared)))
        | inr (opts, e) ↦
            rw (e, remove)
              (move s subs _ 1 0 (bit (has_shared_group opts)) 0 w
                (taken (has_shared_group opts) (record s { subs = subs })) fewer
                (omega (arith, rw e at total)) (omega (arith, rw e at shared)))
      ]

  extend-IsBalanced :
      (subs : List (String × SubscriptionOptions)) (s : SessionSubs)
      → IsBalanced o os s
      → IsBalanced o os (extend subs s)
  unfolding extend
  extend-IsBalanced [] s w = w
  extend-IsBalanced ((tf, opts) ∷ subs) s w =
      extend-IsBalanced subs (add tf opts s).1 (add-IsBalanced tf opts s w)

  drain_filters-IsBalanced :
      (filters : List String) (s : SessionSubs)
      → IsBalanced o os s
      → IsBalanced o os (drain_filters filters s).1
  unfolding drain_filters
  drain_filters-IsBalanced [] s w = w
  drain_filters-IsBalanced (tf ∷ filters) s w =
      drain_filters-IsBalanced filters (remove tf s).1 (remove-IsBalanced tf s w)

count_down_lem :
    (m : List (String × SubscriptionOptions)) (s : SessionSubs)
    → Moved s (count_down m s) (length m) 0 (length (keep (λ e. has_shared_group e.1) m)) 0
unfolding count_down
count_down_lem [] s = (refl, omega arith, omega arith)
count_down_lem ((tf, opts) ∷ m) s =
    let b = has_shared_group opts in
    let (same_first, all, shared) = taken b s in
    let (same_rest, all', shared') =
      count_down_lem m (if b then dec_shared (dec_all s) else dec_all s) in
    (same_rest ∙ same_first, omega (arith, all, all'), ground (arith, shared, shared'))

module _ (o os : ℤ) where
  clear-IsBalanced : (s : SessionSubs) → IsBalanced o os s → IsBalanced o os (clear s)
  unfolding clear len shared_len
  clear-IsBalanced s w =
      let (same_subs, all, shared) = count_down_lem s.subs s in
      record {
        distinct = tt;
        all_counted = omega (arith, all, w.all_counted);
        shared_counted = omega (arith, shared, w.shared_counted);
      }

pub data Op : Type 0 where
  add_one : String → SubscriptionOptions → Op
  remove_one : String → Op
  drain_all clear_all : Op
  extend_by : List (String × SubscriptionOptions) → Op

unfoldable pub step : Op → SessionSubs → SessionSubs
step (add_one tf opts) s = (add tf opts s).1
step (remove_one tf) s = (remove tf s).1
step drain_all s = (drain s).1
step clear_all s = clear s
step (extend_by subs) s = extend subs s

unfoldable pub run : List Op → SessionSubs → SessionSubs
run [] s = s
run (x ∷ xs) s = run xs (step x s)

step-IsBalanced :
    (o os : ℤ) (x : Op) (s : SessionSubs) → IsBalanced o os s → IsBalanced o os (step x s)
unfolding step drain
step-IsBalanced o os (add_one tf opts) s w = add-IsBalanced o os tf opts s w
step-IsBalanced o os (remove_one tf) s w = remove-IsBalanced o os tf s w
step-IsBalanced o os drain_all s w = drain_filters-IsBalanced o os (to_topic_filters s) s w
step-IsBalanced o os clear_all s w = clear-IsBalanced o os s w
step-IsBalanced o os (extend_by subs) s w = extend-IsBalanced o os subs s w

-- The node's counters of subscriptions and of shared subscriptions stand above what the other
-- sessions count by exactly the subscriptions of this one, whatever is done to it.
pub run-IsBalanced :
    (o os : ℤ) (xs : List Op) (s : SessionSubs) → IsBalanced o os s → IsBalanced o os (run xs s)
unfolding run
run-IsBalanced o os [] s w = w
run-IsBalanced o os (x ∷ xs) s w = run-IsBalanced o os xs (step x s) (step-IsBalanced o os x s w)
