-- ===== src/Onramp/CapHistory.antt =====
-- Histories of checkouts and deliveries that run one at a time: the daily cap.
use relstate.Common.{
  ℕ, ◌+◌, ◌≤◌, ◌≡◌, refl, inl, inr, ℤ, pos, Bool, true, false, List, [], Option, none, some, Result,
  ok, err, arith,
}
use relstate.Treasury.{
  Cluster, Mode, Treasury, TreasuryError, InvariantReport, credit_reserve, wrap,
  wrap_and_make_confidential,
}
use relstate.Onramp.DailyCap.{Cap, no_credits, total, record_credit}
use relstate.Onramp.{
  OnrampError, credited, OnrampCredit, OnrampConfig, ProviderEvent, Onramp, Pending, credit_of,
  recorded, Begun, replayed, joins, throws, refused, goes_on,
}
use relstate.Onramp.Service.{
  checkout, begin, after_wrap, after_confidential, landed, finish_wrapped, finish_resolved,
  finish_credited, finish,
}
use relstate.Onramp.Spent.{
  spent, WithinCap, SameFrom, record_credit-WithinCap, later-WithinCap, same-WithinCap,
}
use relstate.Onramp.Capped.{CapEnd, begin-CapEnd, checkout-SameFrom, checkout-credits}
use relstate.Onramp.Credits.{
  credited_in, credited_in-set, Listed, Listed-set, Listed-record_credit, counts-rejected,
}
use relstate.Onramp.Ends.{credit_of-eq-ok, BeginEnd, begin-BeginEnd}

module _ {S : Type 0} (c : Cluster S) (mode : Mode) (account : Bool) (config : OnrampConfig) where
  abbrev limit : ℕ
  limit = config.max_usdc_per_wallet_per_day

  -- What a whole delivery leaves, with nothing in between.
  abbrev pub delivered : ℕ → Bool → Option Bool → Onramp S × Begun → Onramp S
  delivered now ready resolved (s, goes_on p) =
      (finish c mode account config s p now ready resolved).0
  delivered now ready resolved (s, replayed k) = s
  delivered now ready resolved (s, joins ref) = s
  delivered now ready resolved (s, throws e) = s
  delivered now ready resolved (s, refused k) = s

  abbrev pub deliver :
      Onramp S → ℕ → Result OnrampError ProviderEvent → Bool → Option Bool → Onramp S
  deliver s now answer ready resolved = delivered now ready resolved (begin config s now answer)

  -- The service and its clock, after requests at times that do not go back.
  pub data Reach : Onramp S → ℕ → Onramp S → ℕ → Type 0 where
    here : {s : Onramp S} {now : ℕ} → Reach s now s now
    delivers :
        {s t : Onramp S} {then now : ℕ} (at : ℕ) (answer : Result OnrampError ProviderEvent)
        (ready : Bool) (resolved : Option Bool)
        → Reach s then t now
        → now ≤ at
        → Reach s then (deliver t at answer ready resolved) at
    checks_out :
        {s t : Onramp S} {then now : ℕ} (at wallet : ℕ) (amount_pln holdback : ℤ) (id : ℕ)
        (url : Option Bool)
        → Reach s then t now
        → now ≤ at
        → Reach s then (checkout config t wallet amount_pln holdback id at url).0 at

  -- Nobody is past the cap, and what is on record has been counted against it.
  abbrev Kept : Onramp S → ℕ → Type 0
  Kept s now = WithinCap limit s.cap now × Listed s.credits s.cap now

  later-Kept : (s : Onramp S) (now t : ℕ) → now ≤ t → Kept s now → Kept s t
  later-Kept s now t le (within, listed) =
      (later-WithinCap limit s.cap now t le within, λ w u h. listed w u (omega arith))

  same-Kept :
      (now : ℕ) (s : Onramp S) (cap : Cap) (credits : List (ℕ × OnrampCredit))
      → SameFrom limit now s.cap cap
      → ((w t : ℕ) → credited_in w t credits ≤ credited_in w t s.credits)
      → Kept s now
      → WithinCap limit cap now × Listed credits cap now
  same-Kept now s cap credits same fewer (within, listed) = (
    same-WithinCap limit now s.cap cap same within,
    λ w t le. omega (arith, same w t le, fewer w t, listed w t le),
  )

  module _ (s : Onramp S) (p : Pending) (now : ℕ) (kept : Kept s now)
      (fits : spent s.cap p.wallet now + p.amount ≤ limit) where
    recorded-Kept :
        (t : Treasury S) (pending : Bool) (report : InvariantReport)
        (x : Result OnrampError OnrampCredit)
        → credit_of config p credited pending (some report) now ≡ x
        → Kept
            (recorded
              (record (landed c mode account config s p t) {
                cap = record_credit s.cap p.wallet p.amount now;
              })
              x).0
            now
    recorded-Kept t pending report (err e) h = (
      record_credit-WithinCap limit s.cap p.wallet p.amount now kept.0 fits,
      Listed-record_credit s.credits s.cap now p.wallet p.amount kept.1,
    )
    recorded-Kept t pending report (ok k) h =
        let made = credit_of-eq-ok config p credited pending (some report) now k h in
        (
          record_credit-WithinCap limit s.cap p.wallet p.amount now kept.0 fits,
          Listed-set s.credits s.cap now p.wallet p.amount k.ref k kept.1 made.1 made.2 made.6,
        )

    wrapped-Kept :
        (pending : Bool) (q : Treasury S × Result TreasuryError InvariantReport)
        → Kept (finish_wrapped c mode account config s p now pending q).0 now
    wrapped-Kept pending (t, err e) = kept
    wrapped-Kept pending (t, ok report) =
        recorded-Kept t pending report (credit_of config p credited pending (some report) now) refl

    resolved-Kept :
        (t : Treasury S) (o : Option Bool)
        → Kept (finish_resolved c mode account config s p now o t).0 now
    resolved-Kept t none = kept
    resolved-Kept t (some true) = wrapped-Kept false (
        after_confidential
          (wrap_and_make_confidential c mode account p.wallet (pos p.amount) p.holdback p.ref t))
    resolved-Kept t (some false) =
        wrapped-Kept true (after_wrap (wrap c mode account p.wallet (pos p.amount) p.ref t))

    credited-Kept :
        (o : Option Bool) (q : Treasury S × Result TreasuryError ℕ)
        → Kept (finish_credited c mode account config s p now o q).0 now
    credited-Kept o (t, err e) = kept
    credited-Kept o (t, ok n) = resolved-Kept t o

    finish-Kept :
        (ready : Bool) (o : Option Bool) → Kept (finish c mode account config s p now ready o).0 now
    finish-Kept false o = kept
    finish-Kept true o =
        credited-Kept o (credit_reserve c mode account (pos p.amount) p.ref s.treasury)

  -- What `begin` puts on record is a rejection.
  begun-Kept :
      (s : Onramp S) (now : ℕ) (q : Onramp S × Begun)
      → Kept s now
      → CapEnd config s now q
      → BeginEnd config s q
      → Kept q.0 now
  begun-Kept s now (s', b) kept (same, _) (_, inl (credits, _, _)) =
      same-Kept now s s'.cap s'.credits same (λ w t. rw credits (omega arith)) kept
  begun-Kept s now (s', b) kept (same, _) (_, inr (inl (ref, k, _, _, credits, _, _, status))) =
      same-Kept now s s'.cap s'.credits same
        (λ w t.
          rw credits
            (omega (arith, credited_in-set w t ref k s.credits, counts-rejected w t k status)))
        kept
  begun-Kept s now (s', b) kept (same, _) (_, inr (inr (p, _, _, credits, _, _))) =
      same-Kept now s s'.cap s'.credits same (λ w t. rw credits (omega arith)) kept

  delivered-Kept :
      (s : Onramp S) (now : ℕ) (ready : Bool) (resolved : Option Bool) (q : Onramp S × Begun)
      → Kept q.0 now
      → CapEnd config s now q
      → Kept (delivered now ready resolved q) now
  delivered-Kept s now ready resolved (s', goes_on p) kept (_, fits) =
      finish-Kept s' p now kept fits ready resolved
  delivered-Kept s now ready resolved (s', replayed k) kept end = kept
  delivered-Kept s now ready resolved (s', joins ref) kept end = kept
  delivered-Kept s now ready resolved (s', throws e) kept end = kept
  delivered-Kept s now ready resolved (s', refused k) kept end = kept

  Reach-Kept :
      {s t : Onramp S} {then now : ℕ}
      → Reach s then t now
      → s.cap ≡ no_credits
      → s.credits ≡ []
      → Kept t now
  unfolding total
  Reach-Kept here empty unlisted =
      (λ w. rw empty (omega arith), λ w t le. rw unlisted (omega arith))
  Reach-Kept (delivers {t = u} {now = before} at answer ready resolved r le) empty unlisted =
      let kept = later-Kept u before at le (Reach-Kept r empty unlisted) in
      delivered-Kept u at ready resolved (begin config u at answer)
        (begun-Kept u at (begin config u at answer) kept (begin-CapEnd config u at answer)
          (begin-BeginEnd config u at answer))
        (begin-CapEnd config u at answer)
  Reach-Kept (checks_out {t = u} {now = before} at wallet amount_pln holdback id url r le) empty
        unlisted =
      let done = checkout config u wallet amount_pln holdback id at url in
      same-Kept at u done.0.cap done.0.credits
        (checkout-SameFrom config u at wallet amount_pln holdback id url)
        (λ w t. rw (checkout-credits config u at wallet amount_pln holdback id url) (omega arith))
        (later-Kept u before at le (Reach-Kept r empty unlisted))

  -- Where deliveries and checkouts run one at a time, at times that do not go back, the credits
  -- that a service has on record for a wallet in any day that ends with a request, rejections left
  -- out, add up to no more than the daily cap, if the service starts with no credits. A mint that
  -- lands though its call throws is not on record.
  pub Reach-WithinCap :
      {s t : Onramp S} {then now : ℕ}
      → Reach s then t now
      → s.cap ≡ no_credits
      → s.credits ≡ []
      → (wallet : ℕ) → credited_in wallet now t.credits ≤ limit
  Reach-WithinCap {s} {t} {then} {now} q empty unlisted wallet =
      let (within, listed) = Reach-Kept q empty unlisted in
      omega (arith, within wallet, listed wallet now (omega arith))
