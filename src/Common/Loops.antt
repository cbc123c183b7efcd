-- ===== src/Common/Loops.antt =====
-- `for (const x of xs) { … throw … }`.
use mathlib.Core.Path.{◌≡◌, refl}
use mathlib.Core.Logic.{◌↔◌}
use mathlib.Core.Bool.{Bool, true, false}
use mathlib.Core.List.{List, [], ◌∷◌}
use native.Mathlib.Omega.{arith}
use relstate.Common.Lists.{All, any, all}
use relstate.Common.Results.{Result, ok, ◌>>◌}

-- The body runs on each element, until it throws.
unfoldable pub for_each : {E A : Type 0} → (A → Result E Unit) → List A → Result E Unit
for_each body [] = ok tt
for_each body (x ∷ xs) = do body x; for_each body xs

pub for_each_iff :
    {E A : Type 0} (body : A → Result E Unit) (xs : List A)
    → (for_each body xs ≡ ok tt) ↔ All (λ x. body x ≡ ok tt) xs
unfolding for_each
for_each_iff body [] = (λ _. tt, λ _. refl)
for_each_iff body (x ∷ xs) = ground (arith, for_each_iff body xs)

pub All-weaken :
    {A : Type 0} (P Q : A → Type 0) (xs : List A) → ((x : A) → P x → Q x) → All P xs → All Q xs
All-weaken P Q [] f h = tt
All-weaken P Q (x ∷ xs) f (p, h) = (f x p, All-weaken P Q xs f h)

pub All-both :
    {A : Type 0} (P Q R : A → Type 0) (xs : List A)
    → ((x : A) → P x → Q x → R x)
    → All P xs
    → All Q xs
    → All R xs
All-both P Q R [] f g h = tt
All-both P Q R (x ∷ xs) f (p, g) (q, h) = (f x p q, All-both P Q R xs f g h)

pub any-eq-false :
    {A : Type 0} (p : A → Bool) (xs : List A) → (any p xs ≡ false) ↔ All (λ x. p x ≡ false) xs
any-eq-false p [] = (λ _. tt, λ _. refl)
any-eq-false p (x ∷ xs) = ground (arith, any-eq-false p xs)

pub all-eq-true :
    {A : Type 0} (p : A → Bool) (xs : List A) → (all p xs ≡ true) ↔ All (λ x. p x ≡ true) xs
all-eq-true p [] = (λ _. tt, λ _. refl)
all-eq-true p (x ∷ xs) = ground (arith, all-eq-true p xs)
