-- ===== src/Onramp/Capped.antt =====
-- What checkouts and the first parts of deliveries do to the daily cap.
use relstate.Common.{
  ℕ, ◌+◌, ◌≤◌, ◌≡◌, refl, ℤ, pos, Bool, true, false, Option, none, some, Result, ok, err, arith,
  get, has, positive,
}
use relstate.Onramp.DailyCap.{Cap, check}
use relstate.Onramp.Spent.{spent, SameFrom, check-SameFrom, check-passes}
use relstate.Onramp.{
  OnrampError, OnrampIntent, rejected, OnrampCredit, OnrampConfig, ProviderEvent, Onramp, or_else,
  lookup, intent_id_of, Pending, credit_of, recorded, Begun, replayed, joins, throws, refused,
  goes_on, begun_by,
}
use relstate.Onramp.Service.{
  check_checkout, start_checkout, checkout_capped, checkout_checked, checkout, begin_capped,
  begin_priced, begin_credit, begin_new, begin_ref, begin_completed, begin,
}

module _ {S : Type 0} (config : OnrampConfig) (s : Onramp S) (now : ℕ) where
  abbrev limit : ℕ
  limit = config.max_usdc_per_wallet_per_day

  -- The amount of a delivery that goes on fits under the cap.
  abbrev pub Fits : Onramp S → Begun → Type 0
  Fits s' (goes_on p) = spent s'.cap p.wallet now + p.amount ≤ limit
  Fits s' (replayed k) = Unit {0}
  Fits s' (joins ref) = Unit {0}
  Fits s' (throws e) = Unit {0}
  Fits s' (refused k) = Unit {0}

  abbrev pub CapEnd : Onramp S × Begun → Type 0
  CapEnd (s', b) = SameFrom limit now s.cap s'.cap × Fits s' b

  recorded-CapEnd :
      (cap : Cap)
      → SameFrom limit now s.cap cap
      → (x : Result OnrampError OnrampCredit)
      → CapEnd (begun_by (recorded (record s { cap = cap }) x))
  recorded-CapEnd cap same (err e) = (same, tt)
  recorded-CapEnd cap same (ok k) = (same, tt)

  capped-CapEnd :
      (p : Pending) (q : Cap × Bool)
      → SameFrom limit now s.cap q.0
      → (q.1 ≡ false → spent s.cap p.wallet now + p.amount ≤ limit)
      → CapEnd (begin_capped config s p now q)
  capped-CapEnd p (cap, true) same fits =
      recorded-CapEnd cap same (credit_of config p rejected true none now)
  capped-CapEnd p (cap, false) same fits =
      (same, omega (arith, fits refl, same p.wallet now (omega arith)))

  priced-CapEnd : (p : Pending) (b : Bool) → CapEnd (begin_priced config s p now b)
  priced-CapEnd p false =
      recorded-CapEnd s.cap (λ w t le. refl) (credit_of config p rejected true none now)
  priced-CapEnd p true =
      capped-CapEnd p (check limit s.cap p.wallet p.amount now)
        (check-SameFrom limit s.cap p.wallet p.amount now)
        (check-passes limit s.cap p.wallet p.amount now)

  credit-CapEnd :
      (event : ProviderEvent) (ref : ℕ) (intent : Option OnrampIntent) (o : Option ℕ)
      → CapEnd (begin_credit config s event ref now intent o)
  credit-CapEnd event ref intent none = (λ w t le. refl, tt)
  credit-CapEnd event ref intent (some amount) = priced-CapEnd _ (config.is_address event.wallet)

  new-CapEnd :
      (event : ProviderEvent) (ref : ℕ) (b : Bool) → CapEnd (begin_new config s event ref now b)
  new-CapEnd event ref true = (λ w t le. refl, tt)
  new-CapEnd event ref false =
      credit-CapEnd event ref (lookup s.intents (intent_id_of event))
        (positive (or_else event.amount_usdc (pos 0)))

  ref-CapEnd :
      (event : ProviderEvent) (ref : ℕ) (o : Option OnrampCredit)
      → CapEnd (begin_ref config s event ref now o)
  ref-CapEnd event ref (some existing) = (λ w t le. refl, tt)
  ref-CapEnd event ref none = new-CapEnd event ref (has ref s.in_flight)

  completed-CapEnd :
      (event : ProviderEvent) (b : Bool) (o : Option ℕ)
      → CapEnd (begin_completed config s event now b o)
  completed-CapEnd event false o = (λ w t le. refl, tt)
  completed-CapEnd event true none = (λ w t le. refl, tt)
  completed-CapEnd event true (some ref) = ref-CapEnd event ref (get ref s.credits)

  pub begin-CapEnd :
      (answer : Result OnrampError ProviderEvent) → CapEnd (begin config s now answer)
  begin-CapEnd (err e) = (λ w t le. refl, tt)
  begin-CapEnd (ok event) = completed-CapEnd event event.is_completed event.ref

  start-SameFrom :
      (cap : Cap)
      → SameFrom limit now s.cap cap
      → (intent : OnrampIntent) (url : Option Bool)
      → SameFrom limit now s.cap (start_checkout config (record s { cap = cap }) intent url).0.cap
  start-SameFrom cap same intent none = same
  start-SameFrom cap same intent (some false) = same
  start-SameFrom cap same intent (some true) = same

  checkout_capped-SameFrom :
      (intent : OnrampIntent) (url : Option Bool) (q : Cap × Bool)
      → SameFrom limit now s.cap q.0
      → SameFrom limit now s.cap (checkout_capped config s intent url q).0.cap
  checkout_capped-SameFrom intent url (cap, true) same = same
  checkout_capped-SameFrom intent url (cap, false) same = start-SameFrom cap same intent url

  checkout_checked-SameFrom :
      (wallet : ℕ) (amount_pln holdback : ℤ) (id : ℕ) (url : Option Bool) (x : Result OnrampError ℕ)
      → SameFrom limit now s.cap
          (checkout_checked config s wallet amount_pln holdback id now url x).0.cap
  checkout_checked-SameFrom wallet amount_pln holdback id url (err e) = λ w t le. refl
  checkout_checked-SameFrom wallet amount_pln holdback id url (ok amount) =
      checkout_capped-SameFrom _ url (check limit s.cap wallet amount now)
        (check-SameFrom limit s.cap wallet amount now)

  pub checkout-SameFrom :
      (wallet : ℕ) (amount_pln holdback : ℤ) (id : ℕ) (url : Option Bool)
      → SameFrom limit now s.cap (checkout config s wallet amount_pln holdback id now url).0.cap
  unfolding checkout
  checkout-SameFrom wallet amount_pln holdback id url =
      checkout_checked-SameFrom wallet amount_pln holdback id url
        (check_checkout config wallet amount_pln holdback)

  start-credits :
      (intent : OnrampIntent) (url : Option Bool)
      → (cap : Cap)
      → (start_checkout config (record s { cap = cap }) intent url).0.credits ≡ s.credits
  start-credits intent none cap = refl
  start-credits intent (some false) cap = refl
  start-credits intent (some true) cap = refl

  checkout_capped-credits :
      (intent : OnrampIntent) (url : Option Bool) (q : Cap × Bool)
      → (checkout_capped config s intent url q).0.credits ≡ s.credits
  checkout_capped-credits intent url (cap, true) = refl
  checkout_capped-credits intent url (cap, false) = start-credits intent url cap

  checkout_checked-credits :
      (wallet : ℕ) (amount_pln holdback : ℤ) (id : ℕ) (url : Option Bool) (x : Result OnrampError ℕ)
      → (checkout_checked config s wallet amount_pln holdback id now url x).0.credits ≡ s.credits
  checkout_checked-credits wallet amount_pln holdback id url (err e) = refl
  checkout_checked-credits wallet amount_pln holdback id url (ok amount) =
      checkout_capped-credits _ url (check limit s.cap wallet amount now)

  -- A checkout puts no credit on record.
  pub checkout-credits :
      (wallet : ℕ) (amount_pln holdback : ℤ) (id : ℕ) (url : Option Bool)
      → (checkout config s wallet amount_pln holdback id now url).0.credits ≡ s.credits
  unfolding checkout
  checkout-credits wallet amount_pln holdback id url =
      checkout_checked-credits wallet amount_pln holdback id url
        (check_checkout config wallet amount_pln holdback)
