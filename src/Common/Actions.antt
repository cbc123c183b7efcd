-- ===== src/Common/Actions.antt =====
-- Code with state that may throw: what was written stays written after a throw.
use mathlib.Core.Path.{◌≡◌, refl, ap, ◌∙◌, sym}
use mathlib.Core.Logic.{◌⊎◌, inl, inr}
use mathlib.Core.Bool.{Bool}
use mathlib.Core.Option.{Option, none, some}
use relstate.Common.Results.{Result, ok, err, refuse_if}

abbrev pub Action : Type 0 → Type 0 → Type 0 → Type 0
Action S E A = S → S × Result E A

-- The rest of the block, after one call has ended.
abbrev pub after : {S E A B : Type 0} → (A → Action S E B) → S → Result E A → S × Result E B
after next s (err e) = (s, err e)
after next s (ok a) = next a s

infixl 5 ◌>>=◌ ◌>>◌
abbrev pub ◌>>=◌ : {S E A B : Type 0} → Action S E A → (A → Action S E B) → Action S E B
◌>>=◌ m next s = after next (m s).0 (m s).1

abbrev pub ◌>>◌ : {S E B : Type 0} → Action S E (Unit {0}) → Action S E B → Action S E B
m >> k = m >>= λ _. k

module _ {S E : Type 0} where
  abbrev pub return : {A : Type 0} → A → Action S E A
  return a s = (s, ok a)

  abbrev pub throw : {A : Type 0} → E → Action S E A
  throw e s = (s, err e)

  -- `if (bad) throw e`.
  abbrev pub throw_if : Bool → E → Action S E (Unit {0})
  throw_if bad e s = (s, refuse_if bad e)

  abbrev pub or_throw : {A : Type 0} → Option A → E → Action S E A
  or_throw none e = throw e
  or_throw (some a) e = return a

  abbrev pub modify : (S → S) → Action S E (Unit {0})
  modify f s = (f s, ok tt)

abbrev pub pair : {E A B : Type 0} → Result E A → Result E B → Result E (A × B)
pair (err e) r = err e
pair (ok a) (err e) = err e
pair (ok a) (ok b) = ok (a, b)

-- `Promise.all` of two calls, the first of which gives up the thread at its end: both run.
abbrev pub both : {S E A B : Type 0} → Action S E A → Action S E B → Action S E (A × B)
both m n s = ((n (m s).0).0, pair (m s).1 (n (m s).0).1)

-- How a call ended: `I` holds of the state if it threw, `Q` of value and state if it returned.
abbrev pub Ends : {S E A : Type 0} → (S → Type 0) → (A → S → Type 0) → S × Result E A → Type 0
Ends I Q (s, err e) = I s
Ends I Q (s, ok a) = Q a s

pub after-Ends :
    {S E A B : Type 0} (I : S → Type 0) (Q : A → S → Type 0) (R : B → S → Type 0)
    (p : S × Result E A) (next : A → Action S E B)
    → Ends I Q p
    → ((a : A) (s : S) → Q a s → Ends I R (next a s))
    → Ends I R (after next p.0 p.1)
after-Ends I Q R (s, err e) next h k = h
after-Ends I Q R (s, ok a) next h k = k a s h

pub Ends-state :
    {S E A : Type 0} (I : S → Type 0) (Q : A → S → Type 0) (p : S × Result E A)
    → Ends I Q p
    → ((a : A) (s : S) → Q a s → I s)
    → I p.0
Ends-state I Q (s, err e) h k = h
Ends-state I Q (s, ok a) h k = k a s h

-- A call threw or returned.
pub Ended-cases :
    {S E A : Type 0} (p : S × Result E A)
    → ((s : S) × (a : A) × (p ≡ (s, ok a))) ⊎ ((s : S) × (e : E) × (p ≡ (s, err e)))
Ended-cases (s, ok a) = inl (s, a, refl)
Ended-cases (s, err e) = inr (s, e, refl)

pub pair-eq :
    {A B : Type 0} {p : A × B} {a a' : A} {b b' : B}
    → p ≡ (a, b)
    → p ≡ (a', b')
    → (a ≡ a') × (b ≡ b')
pair-eq e f = (sym (ap (λ q. q.0) e) ∙ ap (λ q. q.0) f, sym (ap (λ q. q.1) e) ∙ ap (λ q. q.1) f)
