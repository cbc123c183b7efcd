-- ===== src/Cosigning/Setup.antt =====
-- What a setup request leaves in the limiter.
use relstate.Common.{
  ℕ, ◌+◌, ◌-◌, ◌≤◌, ◌≡◌, refl, sym, ◌∙◌, ap, ◌⊎◌, inl, inr, ℤ, true, false, Result, ok, err,
}
use relstate.Limits.{Scope, Limiter, Reservation, usage, reserve}
use relstate.Limits.Caps.{IsFresh}
use relstate.Limits.Bookings.{with_one}
use relstate.Limits.TwoPhase.{reserve_iff, usage-cancel-reserve, usage-commit-reserve}
use relstate.Transaction.{Rejection}
use relstate.Cosigning.{
  CosignError, Answers, Cosigned, booked_for, check_spend, cosign_and_send, cancel_on_error,
  SetupDeps, approve_setup, setup_bounds, setup_reserved, setup_approved,
  sponsor_confidential_account_setup,
}
use relstate.Cosigning.Spending.{
  is_booked, Bounded, check_spend-Bounded, CaughtEnd, cancel_on_error-CaughtEnd,
}

module _ {Wire : Type 0} (deps : SetupDeps Wire) (s : Limiter) (answers : Answers) (wire : Wire)
    (wallet now : ℕ) (fresh : IsFresh s) where
  -- What the end of a request says of the limiter it leaves.
  abbrev pub SetupEnd : Limiter × Result CosignError Cosigned → Type 0
  SetupEnd (s', res) =
      ((is_booked res ≡ false) × ((j t : ℕ) → now ≤ t → usage s' j t ≡ usage s j t))
      ⊎ ((is_booked res ≡ true)
          × ((fee : ℕ) × (spent : ℤ) × (approve_setup deps wire wallet ≡ ok fee)
              × (check_spend (setup_bounds deps) answers ≡ ok spent)
              × Bounded (setup_bounds deps) spent
              × ((t : ℕ)
                  → now ≤ t
                  → usage s' wallet t
                    ≡ with_one (t - now) (booked_for spent fee) (usage s wallet t))))

  reserved-SetupEnd :
      (fee : ℕ)
      → approve_setup deps wire wallet ≡ ok fee
      → (p : Limiter × Result Scope Reservation)
      → reserve deps.limits s wallet (deps.max_rent_lamports + fee) now ≡ p
      → SetupEnd (setup_reserved deps answers fee p)
  reserved-SetupEnd fee approved (s1, err scope) full = inl (
    refl,
    λ j t le.
        ap (λ p. usage p.0 j t) (sym full)
        ∙ (reserve_iff deps.limits s wallet (deps.max_rent_lamports + fee) now).1 scope
            (ap (λ p. p.1) full) j t le,
  )
  reserved-SetupEnd fee approved (s1, ok r) granted =
      go (cancel_on_error r (cosign_and_send deps.mode (setup_bounds deps) answers fee s1 r))
        (cancel_on_error-CaughtEnd deps.mode (setup_bounds deps) answers fee s1 r)
    where
      go :
          (p : Limiter × Result CosignError Cosigned)
          → CaughtEnd deps.mode (setup_bounds deps) answers fee s1 r p
          → SetupEnd p
      go p (inr (same, l)) = inl (
        l,
        λ j t le.
            ap (λ x. usage x j t) same
            ∙ usage-cancel-reserve deps.limits s s1 wallet (deps.max_rent_lamports + fee) now r
                fresh granted j t le,
      )
      go p (inl (spent, f, same, l)) = inr (
        l,
        (
          fee,
          spent,
          approved,
          f,
          check_spend-Bounded (setup_bounds deps) answers spent f,
          λ t le.
              ap (λ x. usage x wallet t) same
              ∙ usage-commit-reserve deps.limits s s1 wallet (deps.max_rent_lamports + fee) now r
                  fresh granted (booked_for spent fee) t le,
        ),
      )

  approved-SetupEnd :
      (x : Result Rejection ℕ)
      → approve_setup deps wire wallet ≡ x
      → SetupEnd (setup_approved deps s answers wallet now x)
  approved-SetupEnd (err e) h = inl (refl, λ j t le. refl)
  approved-SetupEnd (ok fee) h =
      reserved-SetupEnd fee h (reserve deps.limits s wallet (deps.max_rent_lamports + fee) now) refl

module _ {Wire : Type 0} (deps : SetupDeps Wire) (s : Limiter) (answers : Answers) (wire : Wire)
    (wallet now : ℕ) (fresh : IsFresh s) where
  -- From a fresh limiter, a setup request that throws, but not with an unknown outcome of its send,
  -- leaves the usage of every wallet as it was. One that returns, or throws with an unknown outcome,
  -- was approved, debits the treasury within the rent cap and credits it nothing, and is booked at
  -- exactly that debit and the worst-case fee.
  pub setup_ends :
      SetupEnd deps s answers wire wallet now fresh
        (sponsor_confidential_account_setup deps s answers wire wallet now)
  unfolding sponsor_confidential_account_setup
  setup_ends =
      approved-SetupEnd deps s answers wire wallet now fresh (approve_setup deps wire wallet) refl
