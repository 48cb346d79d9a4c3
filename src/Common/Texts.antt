-- ===== src/Common/Texts.antt =====
-- Texts cut at slashes.

use Prim.Native.String.{String, [], ◌∷◌}
use Prim.Native.Char.{Char, code}
use mathlib.Core.Path.{◌≡◌, refl, ap}
use mathlib.Core.Logic.{◌↔◌}
use mathlib.Core.Bool.{Bool, true, false}
use mathlib.Core.Option.{Option, none, some}
use native.Mathlib.Omega.{arith}
use text.Mathlib.TextEquality.{Char-path}
use rmqtt.Common.Tests.{if◌then◌else◌, ◌==◌, Bool-cases}
use mathlib.Core.Logic.{inl, inr}

abbrev pub slash : Char
slash = "/"

abbrev pub is_slash : Char → Bool
is_slash c = code c == code slash

pub is_slash_iff : (c : Char) → (is_slash c ≡ true) ↔ (c ≡ slash)
is_slash_iff c = (λ e. Char-path c slash (ground arith), λ e. rw e (ground arith))

abbrev pub join : String → String → String
join [] t = t
join (c ∷ s) t = c ∷ join s t

abbrev pub has_slash : String → Bool
has_slash [] = false
has_slash (c ∷ s) = if is_slash c then true else has_slash s

-- The text before the first slash, and the text after it.
abbrev pub split_once : String → String × Option String
split_once [] = ([], none)
split_once (c ∷ s) =
    let (before, after) = split_once s in if is_slash c then ([], some s) else (c ∷ before, after)

pub split_once-join :
    (a b : String) → has_slash a ≡ false → split_once (join a (slash ∷ b)) ≡ (a, some b)
split_once-join [] b h = ground arith
split_once-join (c ∷ a) b h = ground (arith, split_once-join a b)

pub split_once_cut :
    (s a b : String) → split_once s ≡ (a, some b) → (s ≡ join a (slash ∷ b)) × (has_slash a ≡ false)
split_once_cut [] a b h = cc
split_once_cut (c ∷ s) a b h = elim (Bool-cases (is_slash c)) [
  | inl e ↦
      let h' : ([], some s) ≡ (a, some b) = rw e at h in
      let at_start = ap (λ p. p.0) h' in rw (← at_start, ← (is_slash_iff c).0 e) (cc, refl)
  | inr e ↦
      let h' : (c ∷ (split_once s).0, (split_once s).1) ≡ (a, some b) = rw e at h in
      let (cut, free) =
        split_once_cut s (split_once s).0 b (ap (λ o. ((split_once s).0, o)) (ap (λ p. p.1) h')) in
      rw (← ap (λ p. p.0) h') (ap (λ z. c ∷ z) cut, rw e free)
]
