-- ===== src/Common/Assoc.antt =====
-- A map of the standard library (HashMap, DashMap) as a list of entries. The order of the entries
-- stands for the unspecified order in which the map is iterated.
use Prim.Native.Nat.{◌+◌}
use mathlib.Core.Path.{◌≡◌, refl}
use mathlib.Core.List.{List, [], ◌∷◌}
use mathlib.Core.Option.{Option, none, some}
use native.Mathlib.Omega.{arith}
use rmqtt.Common.Tests.{if◌then◌else◌, Key, same, is_some}
use rmqtt.Common.Lists.{length}

module _ {ℓ κ} {K : Type ℓ} {V : Type κ} ⦃k : Key K⦄ where
  abbrev pub get : K → List (K × V) → Option V
  get q [] = none
  get q ((j, v) ∷ m) = if same j q then some v else get q m

  abbrev pub put : K → V → List (K × V) → List (K × V)
  put q v [] = (q, v) ∷ []
  put q v ((j, w) ∷ m) = if same j q then (j, v) ∷ m else (j, w) ∷ put q v m

  abbrev pub del : K → List (K × V) → List (K × V)
  del q [] = []
  del q ((j, v) ∷ m) = if same j q then del q m else (j, v) ∷ del q m

  pub get-put :
      (q j : K) (v : V) (m : List (K × V))
      → get j (put q v m) ≡ (if same q j then some v else get j m)
  get-put q j v [] = refl
  get-put q j v ((i, w) ∷ m) =
      ground (arith, k.same_iff i q, k.same_iff i j, k.same_iff q j, get-put q j v m)

  pub get-del :
      (q j : K) (m : List (K × V)) → get j (del q m) ≡ (if same q j then none else get j m)
  get-del q j [] = ground arith
  get-del q j ((i, w) ∷ m) =
      ground (arith, k.same_iff i q, k.same_iff i j, k.same_iff q j, get-del q j m)

  -- No key stands twice.
  abbrev pub Distinct : List (K × V) → Type κ
  Distinct [] = Unit
  Distinct ((j, v) ∷ m) = (get j m ≡ none) × Distinct m

  pub put-Distinct : (q : K) (v : V) (m : List (K × V)) → Distinct m → Distinct (put q v m)
  put-Distinct q v [] d = (refl, tt)
  put-Distinct q v ((j, w) ∷ m) d =
      ground (arith, k.same_iff j q, k.same_iff q j, get-put q j v m, put-Distinct q v m d.1)

  pub del-Distinct : (q : K) (m : List (K × V)) → Distinct m → Distinct (del q m)
  del-Distinct q [] d = tt
  del-Distinct q ((j, v) ∷ m) d =
      ground (arith, k.same_iff j q, k.same_iff q j, get-del q j m, del-Distinct q m d.1)

  pub del_absent : (q : K) (m : List (K × V)) → get q m ≡ none → del q m ≡ m
  del_absent q [] h = refl
  del_absent q ((j, v) ∷ m) h = ground (arith, del_absent q m)

  pub length-del :
      (q : K) (m : List (K × V))
      → Distinct m
      → length (del q m) + (if is_some (get q m) then 1 else 0) ≡ length m
  length-del q [] d = refl
  length-del q ((j, v) ∷ m) d = ground (arith, k.same_iff j q, del_absent q m, length-del q m d.1)

  pub length-put :
      (q : K) (v : V) (m : List (K × V))
      → length (put q v m) ≡ length m + (if is_some (get q m) then 0 else 1)
  length-put q v [] = refl
  length-put q v ((j, w) ∷ m) = ground (arith, length-put q v m)
