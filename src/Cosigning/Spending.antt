-- ===== src/Cosigning/Spending.antt =====
-- How `cosignAndSend` ends, and what is booked then.
use relstate.Common.{
  ℕ, ◌≤◌, ◌≡◌, refl, sym, ◌∙◌, ap, ◌⊎◌, inl, inr, ℤ, pos, negsuc, minus, at_least_zero, Bool, true,
  false, Option, none, some, Result, ok, err, arith, >>=-eq-ok, refuse_if, ◌>>=◌, not, ◌&&◌,
  Bool-cases, ltb, subst,
}
use relstate.Limits.{Limiter, Reservation, commit, cancel}
use relstate.Limits.TwoPhase.{closes_once}
use relstate.Treasury.{Mode, mock, live}
use relstate.Transaction.{
  Rejection, simulation_failed, simulation_incomplete, rent_too_high, unexpected_credit,
}
use relstate.Cosigning.{
  CosignError, refused, rpc_failed, signing_failed, not_landed, outcome_unknown, Sending, sent,
  known_not_landed, unknown, Answers, SpendBounds, Cosigned, required, is_over, is_negative,
  check_spend, bound_spent, booked_for, send, sign_and_send, cosign_and_send, cancel_on_error, max,
}

-- The request returned, or threw `SendOutcomeUnknown`: what it reserved is committed at its cost.
-- In mock mode the answer is returned and booked too, though nothing is sent.
abbrev pub is_booked : Result CosignError Cosigned → Bool
is_booked (ok result) = true
is_booked (err (outcome_unknown signature)) = true
is_booked (err (refused e)) = false
is_booked (err rpc_failed) = false
is_booked (err signing_failed) = false
is_booked (err not_landed) = false

-- Not `SendOutcomeUnknown`.
abbrev pub known : {A : Type 0} → Result CosignError A → Bool
known (ok a) = true
known (err (outcome_unknown signature)) = false
known (err (refused e)) = true
known (err rpc_failed) = true
known (err signing_failed) = true
known (err not_landed) = true

pub known_err : (e : CosignError) → known {A = ℤ} (err e) ≡ true → is_booked (err e) ≡ false
known_err (outcome_unknown signature) h = cc
known_err (refused e) h = refl
known_err rpc_failed h = refl
known_err signing_failed h = refl
known_err not_landed h = refl

pub known_bind :
    {A B : Type 0} (m : Result CosignError A) (f : A → Result CosignError B)
    → known m ≡ true
    → ((a : A) → known (f a) ≡ true)
    → known (m >>= f) ≡ true
known_bind (ok a) f h k = k a
known_bind (err (outcome_unknown signature)) f h k = cc
known_bind (err (refused e)) f h k = refl
known_bind (err rpc_failed) f h k = refl
known_bind (err signing_failed) f h k = refl
known_bind (err not_landed) f h k = refl

pub known_refuse : (b : Bool) (e : Rejection) → known (refuse_if b (refused e)) ≡ true
known_refuse true e = refl
known_refuse false e = refl

known-required_rpc : {A : Type 0} (o : Option A) → known (required o rpc_failed) ≡ true
known-required_rpc none = refl
known-required_rpc (some a) = refl

known-required_refused :
    {A : Type 0} (o : Option A) (e : Rejection) → known (required o (refused e)) ≡ true
known-required_refused none e = refl
known-required_refused (some a) e = refl

bound_spent-known : (bounds : SpendBounds) (spent : ℤ) → known (bound_spent bounds spent) ≡ true
unfolding bound_spent
bound_spent-known bounds spent =
    known_bind (refuse_if (is_over spent bounds.max_spend) (refused rent_too_high)) _
      (known_refuse (is_over spent bounds.max_spend) rent_too_high)
      (λ _.
        known_bind
          (refuse_if (is_negative spent && not bounds.allow_credit) (refused unexpected_credit)) _
          (known_refuse (is_negative spent && not bounds.allow_credit) unexpected_credit)
          (λ _. refl))

check_spend-known :
    (bounds : SpendBounds) (answers : Answers) → known (check_spend bounds answers) ≡ true
unfolding check_spend
check_spend-known bounds answers =
    known_bind (required answers.balance_before rpc_failed) _
      (known-required_rpc answers.balance_before)
      (λ before.
        known_bind (required answers.simulation rpc_failed) _
          (known-required_rpc answers.simulation)
          (λ simulation.
            known_bind (refuse_if simulation.is_failed (refused simulation_failed)) _
              (known_refuse simulation.is_failed simulation_failed)
              (λ _.
                known_bind (required simulation.treasury_lamports (refused simulation_incomplete)) _
                  (known-required_refused simulation.treasury_lamports simulation_incomplete)
                  (λ lamports.
                    known_bind (required answers.balance_after rpc_failed) _
                      (known-required_rpc answers.balance_after)
                      (λ later. bound_spent-known bounds (minus (max before later) lamports))))))

-- The treasury is debited at most the cap, and credited only where that is allowed.
abbrev pub Bounded : SpendBounds → ℤ → Type 0
Bounded bounds spent =
    (at_least_zero spent ≤ bounds.max_spend)
    × (bounds.allow_credit ≡ false → is_negative spent ≡ false)

bound_spent-Bounded :
    (bounds : SpendBounds) (spent out : ℤ)
    → bound_spent bounds spent ≡ ok out
    → (spent ≡ out) × Bounded bounds spent
unfolding bound_spent
bound_spent-Bounded bounds (pos n) out e = elim (Bool-cases (ltb bounds.max_spend n)) [
  | inl h ↦ let f = rw h at e in cc
  | inr h ↦ let f = rw h at e in (cc, (ground arith, λ _. refl))
]
bound_spent-Bounded bounds (negsuc n) out e = elim (Bool-cases bounds.allow_credit) [
  | inl h ↦ let f = rw h at e in (cc, (omega arith, λ g. cc))
  | inr h ↦ let f = rw h at e in cc
]

pub check_spend-Bounded :
    (bounds : SpendBounds) (answers : Answers) (spent : ℤ)
    → check_spend bounds answers ≡ ok spent
    → Bounded bounds spent
unfolding check_spend
check_spend-Bounded bounds answers spent e =
    let (before, _, e1) = >>=-eq-ok (required answers.balance_before rpc_failed) _ e in
    let (simulation, _, e2) = >>=-eq-ok (required answers.simulation rpc_failed) _ e1 in
    let (_, _, e3) = >>=-eq-ok (refuse_if simulation.is_failed (refused simulation_failed)) _ e2 in
    let (lamports, _, e4) =
      >>=-eq-ok (required simulation.treasury_lamports (refused simulation_incomplete)) _ e3 in
    let (later, _, e5) = >>=-eq-ok (required answers.balance_after rpc_failed) _ e4 in
    let (same, bounded) = bound_spent-Bounded bounds (minus (max before later) lamports) spent e5 in
    subst (Bounded bounds) same bounded

module _ (mode : Mode) (bounds : SpendBounds) (answers : Answers) (fee : ℕ) (s : Limiter)
    (r : Reservation) where
  -- The cost of the transaction is booked, or nothing has changed.
  abbrev pub CosignEnd : Limiter × Result CosignError Cosigned → Type 0
  CosignEnd (s', res) =
      ((spent : ℤ) × (check_spend bounds answers ≡ ok spent)
        × (s' ≡ commit s r (booked_for spent fee))
        × (is_booked res ≡ true))
      ⊎ ((s' ≡ s) × (is_booked res ≡ false))

  send-CosignEnd :
      (spent : ℤ) (signature : ℕ)
      → check_spend bounds answers ≡ ok spent
      → (m : Mode) (x : Sending) → CosignEnd (send m s r spent fee signature x)
  send-CosignEnd spent signature e mock x = inl (spent, e, refl, refl)
  send-CosignEnd spent signature e live sent = inl (spent, e, refl, refl)
  send-CosignEnd spent signature e live known_not_landed = inr (refl, refl)
  send-CosignEnd spent signature e live unknown = inl (spent, e, refl, refl)

  sign-CosignEnd :
      (o : Option ℕ) (x : Result CosignError ℤ)
      → check_spend bounds answers ≡ x
      → CosignEnd (sign_and_send mode answers s r fee o x)
  sign-CosignEnd o (err e) h =
      inr (refl, known_err e (ap known (sym h) ∙ check_spend-known bounds answers))
  sign-CosignEnd none (ok spent) h = inr (refl, refl)
  sign-CosignEnd (some signature) (ok spent) h =
      send-CosignEnd spent signature h mode answers.sending

  pub cosign_and_send-CosignEnd : CosignEnd (cosign_and_send mode bounds answers fee s r)
  unfolding cosign_and_send
  cosign_and_send-CosignEnd = sign-CosignEnd answers.signature (check_spend bounds answers) refl

  -- What the route's `catch` leaves: the reservation is closed either way.
  abbrev pub CaughtEnd : Limiter × Result CosignError Cosigned → Type 0
  CaughtEnd (s', res) =
      ((spent : ℤ) × (check_spend bounds answers ≡ ok spent)
        × (s' ≡ commit s r (booked_for spent fee))
        × (is_booked res ≡ true))
      ⊎ ((s' ≡ cancel s r) × (is_booked res ≡ false))

  pub cancel_on_error-CaughtEnd :
      CaughtEnd (cancel_on_error r (cosign_and_send mode bounds answers fee s r))
  cancel_on_error-CaughtEnd =
      go (cosign_and_send mode bounds answers fee s r) cosign_and_send-CosignEnd
    where
      go :
          (p : Limiter × Result CosignError Cosigned)
          → CosignEnd p
          → CaughtEnd (cancel_on_error r p)
      go (s', ok result) (inl (spent, e, same, l)) = inl (spent, e, same, l)
      go (s', ok result) (inr (same, l)) = cc
      go (s', err e) (inl (spent, f, same, l)) =
          inl
            (spent, f, ap (λ x. cancel x r) same ∙ (closes_once s r (booked_for spent fee) 0).1, l)
      go (s', err e) (inr (same, l)) = inr (ap (λ x. cancel x r) same, l)
