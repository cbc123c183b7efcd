-- ===== src/RentRoute/Outcome.antt =====
-- What a whole rent payment request leaves, on every path.
use relstate.Common.{
  ℕ, ◌+◌, ◌≡◌, refl, sym, ◌∙◌, ap, inl, inr, false, List, Option, none, some, Result, ok, err,
  Bool-cases,
}
use relstate.Limits.{Limiter, Scope, Reservation, usage, reserve}
use relstate.Limits.Caps.{IsFresh}
use relstate.Limits.TwoPhase.{reserve_iff, usage-cancel-reserve}
use relstate.Transaction.{Rejection, InspectedTransaction}
use relstate.RentPlan.{Registry, Undo, admit}
use relstate.RentPlan.Ownership.{Inv, admit-eq-err}
use relstate.Cosigning.{CosignError, refused, rpc_failed, Cosigned, cosign_and_send}
use relstate.Cosigning.Spending.{is_booked, known, known_err, cosign_and_send-CosignEnd}
use relstate.RentRoute.{
  RentDeps, RentState, RentAnswers, Payment, sweep_seen, is_seen, fresh_rent, fetched_rent,
  cached_rent, range_context_rent, check_signers, check_payment, rent_bounds, cosign_admitted,
  cosign_reserved, cosign_checked, cosign_rented, cosign_signed, sponsor_rent_payment,
}
use relstate.RentRoute.Ending.{sweep_seen-NothingNew, Checked, PaymentEnd, roll_back-PaymentEnd}
use relstate.RentRoute.Checks.{check_payment-known}

module _ {Wire : Type 0} (deps : RentDeps Wire) (s : RentState) (answers : RentAnswers)
    (wire : Wire) (wallet now : ℕ) (fresh : IsFresh s.limiter) (plans-Inv : Inv s.plans) where
  abbrev Ended : Type 0
  Ended = RentState × Result CosignError Cosigned

  abbrev End : Ended → Type 0
  End = PaymentEnd deps s answers wire wallet now fresh plans-Inv

  module _ (p : Payment) (checked : Checked deps s answers wire wallet now fresh plans-Inv p)
      (range_rent : Option (ℕ × ℕ)) where
    abbrev key : ℕ
    key = deps.hash p.tx.transaction.message_bytes

    abbrev swept : List (ℕ × ℕ)
    swept = sweep_seen now s.seen

    abbrev worst_case : ℕ
    worst_case = deps.max_spend_lamports + p.fee

    admitted-PaymentEnd :
        (s1 : Limiter) (r : Reservation)
        → reserve deps.rent_limits s.limiter wallet worst_case now ≡ (s1, ok r)
        → (q : Registry × Result Rejection Undo)
        → admit s.plans now wallet p.use_of p.wallet_signs ≡ q
        → End (
            cosign_admitted deps
              (record { limiter = s1; plans = s.plans; seen = swept; range_rent = range_rent })
              answers
              p
              key
              now
              r
              q)
    admitted-PaymentEnd s1 r granted (plans, err e) h = inl (
      refl,
      (
        λ j t le.
            usage-cancel-reserve deps.rent_limits s.limiter s1 wallet worst_case now r fresh granted
              j t le,
        inr (λ j.
            rw (admit-eq-err s.plans plans now wallet p.use_of p.wallet_signs e h)
              (λ c. refl, refl)),
        sweep_seen-NothingNew now s.seen,
      ),
    )
    admitted-PaymentEnd s1 r granted (plans, ok d) h =
        roll_back-PaymentEnd deps s answers wire wallet now fresh plans-Inv p checked s1 r granted
          plans d h range_rent
          (cosign_and_send deps.setup.mode (rent_bounds deps) answers.cosigning p.fee s1 r)
          (cosign_and_send-CosignEnd deps.setup.mode (rent_bounds deps) answers.cosigning p.fee s1
            r)

    reserved-PaymentEnd :
        (q : Limiter × Result Scope Reservation)
        → reserve deps.rent_limits s.limiter wallet worst_case now ≡ q
        → End (
            cosign_reserved deps
              (record {
                limiter = s.limiter;
                plans = s.plans;
                seen = swept;
                range_rent = range_rent;
              })
              answers
              p
              wallet
              key
              now
              q)
    reserved-PaymentEnd (s1, err scope) full = inl (
      refl,
      (
        λ j t le.
            ap (λ q. usage q.0 j t) (sym full)
            ∙ (reserve_iff deps.rent_limits s.limiter wallet worst_case now).1 scope
                (ap (λ q. q.1) full) j t le,
        inl refl,
        sweep_seen-NothingNew now s.seen,
      ),
    )
    reserved-PaymentEnd (s1, ok r) granted =
        admitted-PaymentEnd s1 r granted (admit s.plans now wallet p.use_of p.wallet_signs) refl

  checked-PaymentEnd :
      (tx : InspectedTransaction) (lamports : ℕ) (range_rent : Option (ℕ × ℕ))
      (x : Result CosignError Payment)
      → check_signers deps wire wallet ≡ ok tx
      → check_payment deps tx wallet lamports answers.has_token ≡ x
      → End (
          cosign_checked deps
            (record {
              limiter = s.limiter;
              plans = s.plans;
              seen = s.seen;
              range_rent = range_rent;
            })
            answers
            wallet
            now
            x)
  checked-PaymentEnd tx lamports range_rent (err e) g h = inl (
    known_err e (ap known (sym h) ∙ check_payment-known deps tx wallet lamports answers.has_token),
    (λ j t le. refl, inl refl, λ k seen. seen),
  )
  checked-PaymentEnd tx lamports range_rent (ok p) g h =
      elim (Bool-cases
        (is_seen (deps.hash p.tx.transaction.message_bytes) (sweep_seen now s.seen))) [
          | inl e ↦ rw e (inl (refl, (λ j t le. refl, inl refl, sweep_seen-NothingNew now s.seen)))
          | inr e ↦ rw e (
              reserved-PaymentEnd p (tx, lamports, g, h) range_rent
                (reserve deps.rent_limits s.limiter wallet (deps.max_spend_lamports + p.fee) now)
                refl)
        ]

  unchanged-PaymentEnd :
      (range_rent : Option (ℕ × ℕ)) (e : CosignError)
      → is_booked (err e) ≡ false
      → End (
        record { limiter = s.limiter; plans = s.plans; seen = s.seen; range_rent = range_rent },
        err e,
      )
  unchanged-PaymentEnd range_rent e l = inl (l, (λ j t le. refl, inl refl, λ k g. g))

  fetched-PaymentEnd :
      (tx : InspectedTransaction) (fetched : Option ℕ)
      → check_signers deps wire wallet ≡ ok tx
      → End (cosign_rented deps answers tx wallet now (fetched_rent s now fetched))
  fetched-PaymentEnd tx none g = unchanged-PaymentEnd s.range_rent rpc_failed refl
  fetched-PaymentEnd tx (some lamports) g =
      checked-PaymentEnd tx lamports (some (now, lamports))
        (check_payment deps tx wallet lamports answers.has_token) g refl

  cached-PaymentEnd :
      (tx : InspectedTransaction) (cached : Option ℕ)
      → check_signers deps wire wallet ≡ ok tx
      → End (cosign_rented deps answers tx wallet now (cached_rent s now answers.rent cached))
  cached-PaymentEnd tx none g = fetched-PaymentEnd tx answers.rent g
  cached-PaymentEnd tx (some lamports) g =
      checked-PaymentEnd tx lamports s.range_rent
        (check_payment deps tx wallet lamports answers.has_token) g refl

  signed-PaymentEnd :
      (x : Result Rejection InspectedTransaction)
      → check_signers deps wire wallet ≡ x
      → End (cosign_signed deps s answers wallet now x)
  unfolding range_context_rent
  signed-PaymentEnd (err e) g = unchanged-PaymentEnd s.range_rent (refused e) refl
  signed-PaymentEnd (ok tx) g = cached-PaymentEnd tx (fresh_rent s.range_rent now) g

  -- From a fresh limiter and a registry that keeps its invariant, a rent payment that throws, but
  -- not with an unknown outcome of its send, leaves every wallet's usage as it was and remembers no
  -- message; its plans are as they were, or each wallet has the contexts and the count of
  -- preparations that the sweep of the expired plans leaves. One that returns, or throws with an
  -- unknown outcome, passed the checks, debits the treasury within the cap on the spend, is booked
  -- at that debit and the worst-case fee, is remembered from now on, and leaves the plans as its
  -- admission made them.
  pub rent_payment_ends :
      PaymentEnd deps s answers wire wallet now fresh plans-Inv
        (sponsor_rent_payment deps s answers wire wallet now)
  unfolding sponsor_rent_payment
  rent_payment_ends = signed-PaymentEnd (check_signers deps wire wallet) refl
