-- ===== src/Common/Dict.antt =====
-- JavaScript's `Map` and `Set` with numbers for keys, in insertion order.
use Prim.Native.Nat.{ℕ, suc, ◌≤◌}
use mathlib.Core.Path.{◌≡◌, refl}
use mathlib.Core.Bool.{Bool, false, not, ◌&&◌, ◌||◌}
use mathlib.Core.Option.{Option, none, some}
use mathlib.Core.List.{List, [], ◌∷◌, ◌++◌}
use native.Mathlib.Omega.{arith}
use relstate.Common.Tests.{◌==◌, if◌then◌else◌}
use relstate.Common.Lists.{length}

module _ {ℓ} {V : Type ℓ} where
  -- `m.get(k)`.
  abbrev pub get : ℕ → List (ℕ × V) → Option V
  get k [] = none
  get k ((j, v) ∷ m) = if j == k then some v else get k m

  -- `m.set(k, v)`: in place, or at the end.
  abbrev pub set : ℕ → V → List (ℕ × V) → List (ℕ × V)
  set k v [] = (k, v) ∷ []
  set k v ((j, u) ∷ m) = if j == k then (k, v) ∷ m else (j, u) ∷ set k v m

  -- `m.delete(k)`.
  abbrev pub delete : ℕ → List (ℕ × V) → List (ℕ × V)
  delete k [] = []
  delete k ((j, v) ∷ m) = if j == k then delete k m else (j, v) ∷ delete k m

  pub get-set :
      (k j : ℕ) (v : V) (m : List (ℕ × V))
      → get j (set k v m) ≡ (if k == j then some v else get j m)
  get-set k j v [] = refl
  get-set k j v ((i, u) ∷ m) = ground (arith, get-set k j v m)

  pub get-delete :
      (k j : ℕ) (m : List (ℕ × V)) → get j (delete k m) ≡ (if k == j then none else get j m)
  get-delete k j [] = ground arith
  get-delete k j ((i, u) ∷ m) = ground (arith, get-delete k j m)

  pub length-delete-le : (k : ℕ) (m : List (ℕ × V)) → length (delete k m) ≤ length m
  length-delete-le k [] = omega arith
  length-delete-le k ((j, v) ∷ m) = ground (arith, length-delete-le k m)

  pub length-set-le : (k : ℕ) (v : V) (m : List (ℕ × V)) → length (set k v m) ≤ suc (length m)
  length-set-le k v [] = omega arith
  length-set-le k v ((j, u) ∷ m) = ground (arith, length-set-le k v m)

  pub length-set-some :
      (k : ℕ) (v u : V) (m : List (ℕ × V)) → get k m ≡ some u → length (set k v m) ≡ length m
  length-set-some k v u [] e = cc
  length-set-some k v u ((j, w) ∷ m) e = ground (arith, length-set-some k v u m)

-- `s.has(c)`.
abbrev pub has : ℕ → List ℕ → Bool
has c [] = false
has c (d ∷ s) = d == c || has c s

-- `s.add(c)`.
abbrev pub add : ℕ → List ℕ → List ℕ
add c s = if has c s then s else s ++ c ∷ []

-- What is left by `s.delete(c)`; its result is `has c s`.
abbrev pub without : ℕ → List ℕ → List ℕ
without c [] = []
without c (d ∷ s) = if d == c then without c s else d ∷ without c s

has-append : (c : ℕ) (s t : List ℕ) → has c (s ++ t) ≡ (has c s || has c t)
has-append c [] t = refl
has-append c (d ∷ s) t = ground (arith, has-append c s t)

pub has-add : (c d : ℕ) (s : List ℕ) → has c (add d s) ≡ (d == c || has c s)
has-add c d s = ground (arith, has-append c s (d ∷ []))

pub has-without : (c d : ℕ) (s : List ℕ) → has c (without d s) ≡ (not (d == c) && has c s)
has-without c d [] = ground arith
has-without c d (e ∷ s) = ground (arith, has-without c d s)
