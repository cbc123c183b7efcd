-- ===== src/Common/Counting.antt =====
-- How often a number stands in a list.
use Prim.Native.Nat.{ℕ, ◌+◌, ◌≤◌}
use mathlib.Core.Path.{◌≡◌}
use mathlib.Core.List.{List, [], ◌∷◌}
use mathlib.Core.Bool.{true}
use native.Mathlib.Omega.{arith}
use relstate.Common.Tests.{◌==◌, if◌then◌else◌}
use relstate.Common.Dict.{has}

abbrev pub count : ℕ → List ℕ → ℕ
count w [] = 0
count w (v ∷ vs) = (if v == w then 1 else 0) + count w vs

-- One occurrence is taken out.
abbrev pub remove_one : ℕ → List ℕ → List ℕ
remove_one w [] = []
remove_one w (v ∷ vs) = let rest = remove_one w vs in if v == w then vs else v ∷ rest

pub count-remove_one :
    (w v : ℕ) (vs : List ℕ)
    → (count w vs ≡ count w (remove_one v vs) + (if v == w then (if has v vs then 1 else 0) else 0))
count-remove_one w v [] = ground arith
count-remove_one w v (u ∷ us) = ground (arith, count-remove_one w v us)

pub has-count : (w : ℕ) (vs : List ℕ) → has w vs ≡ true → 1 ≤ count w vs
has-count w [] h = ground arith
has-count w (v ∷ vs) h = ground (arith, has-count w vs)
