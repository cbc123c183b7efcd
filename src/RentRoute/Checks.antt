-- ===== src/RentRoute/Checks.antt =====
-- Which errors the checks of a rent payment throw, and what they return.
use relstate.Common.{
  ℕ, ◌≡◌, refl, sym, ap, >>=-eq-ok, Bool, true, false, not, ◌||◌, Option, none, some, Result, ok,
  err, ltb, length,
}
use relstate.Transaction.{Rejection, InspectedTransaction, wallet_mismatch}
use relstate.Transaction.Budget.{assert_compute_budget_within_policy}
use relstate.RentPlan.{context_use}
use relstate.RentShape.{rent_payment_allowlist, assert_rent_payment_shape}
use relstate.Cosigning.{setup_policy}
use relstate.Cosigning.Spending.{known, known_bind, known_refuse}
use relstate.RentRoute.{RentDeps, Payment, refusing, rules_for, signs, check_token, check_payment}

refusing-known : {A : Type 0} (r : Result Rejection A) → known (refusing r) ≡ true
refusing-known (err e) = refl
refusing-known (ok a) = refl

module _ {Wire : Type 0} (deps : RentDeps Wire) where
  check_token-known :
      (needed : Bool) (answer : Option Bool) → known (check_token deps needed answer) ≡ true
  check_token-known false answer = refl
  check_token-known true none = refl
  check_token-known true (some has_token) = known_refuse (not has_token) wallet_mismatch

  pub check_payment-known :
      (tx : InspectedTransaction) (wallet lamports : ℕ) (has_token : Option Bool)
      → known (check_payment deps tx wallet lamports has_token) ≡ true
  unfolding check_payment
  check_payment-known tx wallet lamports has_token =
      known_bind
        (refusing (assert_rent_payment_shape deps.pay_rent tx (rules_for deps wallet lamports))) _
        (refusing-known
          (assert_rent_payment_shape deps.pay_rent tx (rules_for deps wallet lamports)))
        (λ _.
          known_bind
            (check_token deps
              (not (signs deps tx wallet) || ltb 0 (length (context_use tx).created)) has_token)
            _
            (check_token-known
              (not (signs deps tx wallet) || ltb 0 (length (context_use tx).created)) has_token)
            (λ _.
              known_bind
                (refusing (
                  assert_compute_budget_within_policy tx
                    (setup_policy deps.setup rent_payment_allowlist)))
                _
                (refusing-known (
                  assert_compute_budget_within_policy tx
                    (setup_policy deps.setup rent_payment_allowlist)))
                (λ fee. refl)))

  -- What the checks return is about the transaction they were given.
  pub check_payment-tx :
      (tx : InspectedTransaction) (wallet lamports : ℕ) (has_token : Option Bool) (p : Payment)
      → check_payment deps tx wallet lamports has_token ≡ ok p
      → p.tx ≡ tx
  unfolding check_payment
  check_payment-tx tx wallet lamports has_token p e =
      let (_, _, e1) =
        >>=-eq-ok
          (refusing (assert_rent_payment_shape deps.pay_rent tx (rules_for deps wallet lamports))) _
          e in
      let (_, _, e2) =
        >>=-eq-ok
          (check_token deps (not (signs deps tx wallet) || ltb 0 (length (context_use tx).created))
            has_token)
          _ e1 in
      let (fee, _, e3) =
        >>=-eq-ok
          (refusing (
            assert_compute_budget_within_policy tx
              (setup_policy deps.setup rent_payment_allowlist)))
          _ e2 in
      let same : record {
        tx = tx;
        use_of = context_use tx;
        wallet_signs = signs deps tx wallet;
        fee = fee;
      }
          ≡ p =
        cc in
      ap (λ q. q.tx) (sym same)
