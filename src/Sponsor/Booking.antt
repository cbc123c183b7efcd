-- ===== src/Sponsor/Booking.antt =====
-- What a sponsored or refused request leaves in the spend limiter.
use relstate.Common.{
  Any-cases, ℕ, ◌-◌, ◌≤◌, ◌≡◌, Result, ok, err, arith, inl, inr, ap, ◌∙◌, sym, Option-cases,
  >>=-eq-ok,
}
use relstate.Common.Actions.{Ended-cases, pair-eq}
use relstate.Limits.{Limiter, Scope, Reservation, usage, reserve}
use relstate.Limits.Caps.{IsFresh}
use relstate.Limits.Bookings.{with_one, reserve-eq-ok}
use relstate.Limits.TwoPhase.{
  Fits, check_caps_iff, reserve_iff, usage-cancel-reserve, usage-commit-reserve,
}
use relstate.Transaction.{Rejection}
use relstate.Sponsor.{
  SponsorDeps, Outcomes, SponsorError, SponsorResult, Approval, approve, check_simulation, cosign,
  settle, sponsor_reserved, sponsor_approved, sponsor, rejected, limited,
}

module _ {Wire : Type 0} (deps : SponsorDeps Wire) (s : Limiter) (outcomes : Outcomes) (wire : Wire)
    (wallet now : ℕ) where
  sponsor-not_approved :
      (e : Rejection)
      → approve deps wire wallet ≡ err e
      → sponsor deps s outcomes wire wallet now ≡ (s, err (rejected e))
  unfolding sponsor
  sponsor-not_approved e refused = ap (sponsor_approved deps s outcomes wallet now) refused

  module _ (a : Approval) (approved : approve deps wire wallet ≡ ok a) where
    sponsor-limited :
        (s1 : Limiter) (scope : Scope)
        → reserve deps.limits s wallet a.booked_lamports now ≡ (s1, err scope)
        → sponsor deps s outcomes wire wallet now ≡ (s1, err (limited scope))
    unfolding sponsor
    sponsor-limited s1 scope full =
        ap (sponsor_approved deps s outcomes wallet now) approved
        ∙ ap (sponsor_reserved deps outcomes a) full

    sponsor-settled :
        (s1 : Limiter) (r : Reservation) (out : Result SponsorError SponsorResult)
        → reserve deps.limits s wallet a.booked_lamports now ≡ (s1, ok r)
        → cosign deps outcomes a ≡ out
        → sponsor deps s outcomes wire wallet now ≡ settle deps s1 r a.booked_lamports out
    unfolding sponsor
    sponsor-settled s1 r out granted end =
        ap (sponsor_approved deps s outcomes wallet now) approved
        ∙ ap (sponsor_reserved deps outcomes a) granted
        ∙ ap (settle deps s1 r a.booked_lamports) end

  cosign-fee :
      (a : Approval) (result : SponsorResult)
      → cosign deps outcomes a ≡ ok result
      → result.fee_lamports ≡ a.worst_case_fee
  unfolding cosign
  cosign-fee a result e =
      let (units, _, rest) = >>=-eq-ok (check_simulation deps outcomes) _ e in
      elim (Option-cases outcomes.signature) [
        | inl h ↦ ground arith
        | inr (signature, h) ↦ ground arith
      ]

  -- A request that fails, at whichever check, cap, simulation, signature or send, leaves the usage
  -- of every wallet as it was, then and later.
  pub sponsor_refusal-usage :
      IsFresh s
      → (s' : Limiter) (e : SponsorError) → sponsor deps s outcomes wire wallet now ≡ (s', err e)
      → (j t : ℕ) → now ≤ t
      → usage s' j t ≡ usage s j t
  unfolding settle
  sponsor_refusal-usage fresh s' e failed j t le = elim (Any-cases (approve deps wire wallet)) [
    | inr (r, refused) ↦ ap (λ l. usage l j t) (pair-eq failed (sponsor-not_approved r refused)).0
    | inl (a, approved) ↦ elim (Ended-cases (reserve deps.limits s wallet a.booked_lamports now)) [
      | inr (s1, scope, full) ↦
          ap (λ l. usage l j t) (pair-eq failed (sponsor-limited a approved s1 scope full)).0
          ∙ ap (λ p. usage p.0 j t) (sym full)
          ∙ (reserve_iff deps.limits s wallet a.booked_lamports now).1 scope (ap (λ p. p.1) full) j
              t le
      | inl (s1, r, granted) ↦ elim (Any-cases (cosign deps outcomes a)) [
        | inl (result, done) ↦
            let ends =
              (pair-eq failed (sponsor-settled a approved s1 r (ok result) granted done)).1 in
            cc
        | inr (e', undone) ↦
            ap (λ l. usage l j t)
              (pair-eq failed (sponsor-settled a approved s1 r (err e') granted undone)).0
            ∙ usage-cancel-reserve deps.limits s s1 wallet a.booked_lamports now r fresh granted j t
                le
      ]
    ]
  ]

  -- A request that succeeds was approved, its cost fitted under the four caps, and it counts, for
  -- its wallet and globally, as one transaction of the booked lamports while it lies in the window.
  pub sponsor_books :
      IsFresh s
      → (s' : Limiter) (result : SponsorResult)
      → sponsor deps s outcomes wire wallet now ≡ (s', ok result)
      → (a : Approval) × (approve deps wire wallet ≡ ok a)
        × Fits deps.limits (usage s wallet now) a.booked_lamports
        × (result.fee_lamports ≡ a.worst_case_fee)
        × ((t : ℕ)
            → now ≤ t
            → usage s' wallet t ≡ with_one (t - now) a.booked_lamports (usage s wallet t))
  unfolding settle
  sponsor_books fresh s' result succeeded = elim (Any-cases (approve deps wire wallet)) [
    | inr (r, refused) ↦ let ends = (pair-eq succeeded (sponsor-not_approved r refused)).1 in cc
    | inl (a, approved) ↦ elim (Ended-cases (reserve deps.limits s wallet a.booked_lamports now)) [
      | inr (s1, scope, full) ↦
          let ends = (pair-eq succeeded (sponsor-limited a approved s1 scope full)).1 in cc
      | inl (s1, r, granted) ↦ elim (Any-cases (cosign deps outcomes a)) [
        | inr (e', undone) ↦
            let ends =
              (pair-eq succeeded (sponsor-settled a approved s1 r (err e') granted undone)).1 in
            cc
        | inl (result', done) ↦
            let (ends, same) =
              pair-eq succeeded (sponsor-settled a approved s1 r (ok result') granted done) in
            let fee = cosign-fee a result' done in
            (
              a,
              approved,
              (check_caps_iff deps.limits _ a.booked_lamports).0
                  (reserve-eq-ok deps.limits s s1 wallet a.booked_lamports now r granted).0,
              ground (arith, same, fee),
              λ t le.
                  ap (λ l. usage l wallet t) ends
                  ∙ usage-commit-reserve deps.limits s s1 wallet a.booked_lamports now r fresh
                      granted a.booked_lamports t le,
            )
      ]
    ]
  ]
