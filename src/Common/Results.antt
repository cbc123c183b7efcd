-- ===== src/Common/Results.antt =====
-- The outcome of code that may throw: `err` carries what is thrown.
use mathlib.Core.Path.{◌≡◌, refl}
use mathlib.Core.Logic.{◌⊎◌, inl, inr}
use mathlib.Core.Bool.{Bool, true, false}

pub data Result (E A : Type 0) : Type 0 where
  err : E → Result E A
  ok : A → Result E A

pub Result-cases : {E : Type 0} (r : Result E Unit) → (r ≡ ok tt) ⊎ ((e : E) × (r ≡ err e))
Result-cases (err e) = inr (e, refl)
Result-cases (ok tt) = inl refl

-- What runs next sees the value; what is thrown passes by.
infixl 5 ◌>>=◌ ◌>>◌
abbrev pub ◌>>=◌ : {E A B : Type 0} → Result E A → (A → Result E B) → Result E B
(err e) >>= next = err e
(ok a) >>= next = next a

abbrev pub ◌>>◌ : {E B : Type 0} → Result E (Unit {0}) → Result E B → Result E B
first >> second = first >>= λ _. second

-- Inversion of a bind that did not throw.
pub >>=-eq-ok :
    {E A B : Type 0} (r : Result E A) (next : A → Result E B) {out : B}
    → (r >>= next) ≡ ok out
    → (a : A) × (r ≡ ok a) × (next a ≡ ok out)
>>=-eq-ok (err e) next same = cc
>>=-eq-ok (ok a) next same = (a, refl, same)

-- `if (bad) throw e`.
abbrev pub refuse_if : {E : Type 0} → Bool → E → Result E (Unit {0})
refuse_if false e = ok tt
refuse_if true e = err e

pub refuse_if-eq-ok :
    {E : Type 0} (bad : Bool) (e : E) {u : Unit {0}} → refuse_if bad e ≡ ok u → bad ≡ false
refuse_if-eq-ok false e same = refl
refuse_if-eq-ok true e same = cc

pub Any-cases : {E A : Type 0} (r : Result E A) → ((a : A) × (r ≡ ok a)) ⊎ ((e : E) × (r ≡ err e))
Any-cases (ok a) = inl (a, refl)
Any-cases (err e) = inr (e, refl)
