-- ===== src/Onramp/Crediting.antt =====
-- What the rest of a delivery credits the reserve, whether it returns or throws.
use relstate.Common.{
  ℕ, ◌+◌, ◌≤◌, ◌≡◌, refl, ap, ◌∙◌, pos, Bool, true, false, Option, none, some, Result, ok, err,
  arith, ◌==◌, if◌then◌else◌,
}
use relstate.Common.Actions.{Ends-state}
use relstate.Treasury.{
  Cluster, Mode, Treasury, TreasuryError, InvariantReport, credit_reserve, wrap, Wrapped,
  wrap_and_make_confidential,
}
use relstate.Treasury.Ledger.{
  times_credited, Times, wrap-StaysTimes, wrap_and_make_confidential-StaysTimes,
  credit_reserve-times,
}
use relstate.Onramp.DailyCap.{record_credit}
use relstate.Onramp.{
  OnrampError, credited, OnrampCredit, OnrampConfig, Onramp, Pending, credit_of, recorded,
}
use relstate.Onramp.Service.{
  after_wrap, after_confidential, landed, finish_wrapped, finish_resolved, finish_credited, finish,
}

after_wrap-treasury :
    {S : Type 0} (q : Treasury S × Result TreasuryError (InvariantReport × InvariantReport))
    → (after_wrap q).0 ≡ q.0
after_wrap-treasury (t, err e) = refl
after_wrap-treasury (t, ok (before, later)) = refl

after_confidential-treasury :
    {S : Type 0} (q : Treasury S × Result TreasuryError Wrapped) → (after_confidential q).0 ≡ q.0
after_confidential-treasury (t, err e) = refl
after_confidential-treasury (t, ok w) = refl

module _ {S : Type 0} (c : Cluster S) (mode : Mode) (account : Bool) (config : OnrampConfig)
    (s : Onramp S) (p : Pending) (now r : ℕ) where
  abbrev times : Treasury S → ℕ
  times t = times_credited r t.ledger

  recorded-treasury :
      (o : Onramp S) (x : Result OnrampError OnrampCredit) → (recorded o x).0.treasury ≡ o.treasury
  recorded-treasury o (err e) = refl
  recorded-treasury o (ok k) = refl

  wrapped-treasury :
      (pending : Bool) (q : Treasury S × Result TreasuryError InvariantReport)
      → (finish_wrapped c mode account config s p now pending q).0.treasury ≡ q.0
  wrapped-treasury pending (t, err e) = refl
  wrapped-treasury pending (t, ok report) =
      recorded-treasury
        (record (landed c mode account config s p t) {
          cap = record_credit s.cap p.wallet p.amount now;
        })
        (credit_of config p credited pending (some report) now)

  resolved-times :
      (t : Treasury S) (o : Option Bool)
      → times (finish_resolved c mode account config s p now o t).0.treasury ≡ times t
  resolved-times t none = refl
  resolved-times t (some true) =
      let q =
        wrap_and_make_confidential c mode account p.wallet (pos p.amount) p.holdback p.ref t in
      ap times (wrapped-treasury false (after_confidential q) ∙ after_confidential-treasury q)
      ∙ Ends-state (Times c mode account r (times t)) (λ _. Times c mode account r (times t)) q
          (wrap_and_make_confidential-StaysTimes c mode account r (times t) p.wallet (pos p.amount)
            p.holdback p.ref t refl)
          (λ _ _ h. h)
  resolved-times t (some false) =
      let q = wrap c mode account p.wallet (pos p.amount) p.ref t in
      ap times (wrapped-treasury true (after_wrap q) ∙ after_wrap-treasury q)
      ∙ Ends-state (Times c mode account r (times t)) (λ _. Times c mode account r (times t)) q
          (wrap-StaysTimes c mode account r (times t) p.wallet (pos p.amount) p.ref t refl)
          (λ _ _ h. h)

  credited-times :
      (o : Option Bool) (q : Treasury S × Result TreasuryError ℕ)
      → times (finish_credited c mode account config s p now o q).0.treasury ≡ times q.0
  credited-times o (t, err e) = refl
  credited-times o (t, ok n) = resolved-times t o

  pub finish-times :
      (ready : Bool) (o : Option Bool)
      → times (finish c mode account config s p now ready o).0.treasury
        ≤ times s.treasury + (if p.ref == r then 1 else 0)
  finish-times false o = omega arith
  finish-times true o =
      let q = credit_reserve c mode account (pos p.amount) p.ref s.treasury in
      omega (
        arith,
        credited-times o q,
        credit_reserve-times c mode account (pos p.amount) p.ref r s.treasury,
      )
