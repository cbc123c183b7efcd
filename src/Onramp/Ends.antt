-- ===== src/Onramp/Ends.antt =====
-- How the two parts of a delivery end: what they do to the credits and to what is in flight.
use relstate.Common.{
  ℕ, ◌≡◌, refl, sym, ap, ◌∙◌, ◌⊎◌, inl, inr, ℤ, pos, Bool, true, false, ◌∷◌, Option, none, some,
  Result, ok, err, >>=-eq-ok, get, set, has, without, positive,
}
use relstate.Treasury.{
  Cluster, Mode, Treasury, TreasuryError, InvariantReport, credit_reserve, wrap,
  wrap_and_make_confidential, confidential_move_amount,
}
use relstate.Onramp.DailyCap.{Cap, check, record_credit}
use relstate.Onramp.{
  OnrampError, OnrampIntent, CreditStatus, credited, rejected, OnrampCredit, OnrampConfig,
  ProviderEvent, Onramp, or_else, lookup, holdback_of, intent_id_of, of_treasury, price, Pending,
  credit_of, recorded, Begun, replayed, joins, throws, refused, goes_on, begun_by,
}
use relstate.Onramp.Service.{
  begin_capped, begin_priced, begin_credit, begin_new, begin_ref, begin_completed, begin,
  after_wrap, after_confidential, landed, finish_wrapped, finish_resolved, finish_credited, finish,
}

abbrev pub is_credit : Result OnrampError OnrampCredit → Bool
is_credit (err e) = false
is_credit (ok credit) = true

abbrev pub is_refusal : Begun → Bool
is_refusal (replayed credit) = true
is_refusal (joins ref) = true
is_refusal (throws e) = true
is_refusal (refused credit) = true
is_refusal (goes_on p) = false

-- A credit names the event, its wallet and its amount, and the two parts of it add up.
pub credit_of-eq-ok :
    (config : OnrampConfig) (p : Pending) (status : CreditStatus) (pending : Bool)
    (invariant : Option InvariantReport) (now : ℕ) (k : OnrampCredit)
    → credit_of config p status pending invariant now ≡ ok k
    → (k.ref ≡ p.ref)
      × (k.wallet ≡ p.wallet)
      × (k.amount_usdc ≡ p.amount)
      × (k.status ≡ status)
      × (k.public_holdback ≡ p.holdback)
      × (confidential_move_amount (pos p.amount) p.holdback ≡ ok k.confidential_amount)
      × (k.at ≡ now)
unfolding credit_of
credit_of-eq-ok config p status pending invariant now k e =
    let (pln, _, e1) = >>=-eq-ok (price config p p.intent) _ e in
    let (confidential, h, e2) =
      >>=-eq-ok (of_treasury (confidential_move_amount (pos p.amount) p.holdback)) _ e1 in
    let made : OnrampCredit = record {
      ref = p.ref;
      intent = p.intent_id;
      wallet = p.wallet;
      amount_usdc = p.amount;
      amount_pln = pln;
      public_holdback = p.holdback;
      confidential_amount = confidential;
      confidential_pending = pending;
      status = status;
      invariant = invariant;
      at = now;
    } in
    let same : made ≡ k = cc in
    (
      ap (λ q. q.ref) (sym same),
      ap (λ q. q.wallet) (sym same),
      ap (λ q. q.amount_usdc) (sym same),
      ap (λ q. q.status) (sym same),
      ap (λ q. q.public_holdback) (sym same),
      go (confidential_move_amount (pos p.amount) p.holdback) confidential h
          ∙ ap (λ q. ok q.confidential_amount) same,
      ap (λ q. q.at) (sym same),
    )
  where
    go : (r : Result TreasuryError ℤ) (n : ℤ) → of_treasury r ≡ ok n → r ≡ ok n
    go (err x) n f = cc
    go (ok m) n f = let g : m ≡ n = cc in ap (λ z. ok z) g

module _ {S : Type 0} (config : OnrampConfig) (s : Onramp S) where
  abbrev pub Fresh : ℕ → Type 0
  Fresh ref = (get ref s.credits ≡ none) × (has ref s.in_flight ≡ false)

  -- The part up to the first await: nothing new, a rejection on record, or a delivery in flight.
  abbrev pub BeginEnd : Onramp S × Begun → Type 0
  BeginEnd (s', b) =
      (s'.treasury ≡ s.treasury)
      × (((s'.credits ≡ s.credits) × (s'.in_flight ≡ s.in_flight) × (is_refusal b ≡ true))
          ⊎ (((ref : ℕ) × (k : OnrampCredit) × (get ref s.credits ≡ none)
                × (has ref s.in_flight ≡ false)
                × (s'.credits ≡ set ref k s.credits)
                × (s'.in_flight ≡ s.in_flight)
                × (b ≡ refused k)
                × (k.status ≡ rejected))
              ⊎ ((p : Pending) × (get p.ref s.credits ≡ none)
                  × (has p.ref s.in_flight ≡ false)
                  × (s'.credits ≡ s.credits)
                  × (s'.in_flight ≡ p.ref ∷ s.in_flight)
                  × (b ≡ goes_on p))))

  quiet : (b : Begun) → is_refusal b ≡ true → BeginEnd (s, b)
  quiet b h = (refl, inl (refl, refl, h))

  module _ (now : ℕ) where
    recorded-BeginEnd :
        (p : Pending)
        → get p.ref s.credits ≡ none
        → has p.ref s.in_flight ≡ false
        → (cap : Cap) (x : Result OnrampError OnrampCredit)
        → credit_of config p rejected true none now ≡ x
        → BeginEnd (begun_by (recorded (record s { cap = cap }) x))
    recorded-BeginEnd p new idle cap (err e) h = (refl, inl (refl, refl, refl))
    recorded-BeginEnd p new idle cap (ok k) h =
        let made = credit_of-eq-ok config p rejected true none now k h in
        (
          refl,
          inr (inl (p.ref, k, new, idle, ap (λ r. set r k s.credits) made.0, refl, refl, made.3)),
        )

    capped-BeginEnd :
        (p : Pending)
        → get p.ref s.credits ≡ none
        → has p.ref s.in_flight ≡ false
        → (q : Cap × Bool) → BeginEnd (begin_capped config s p now q)
    capped-BeginEnd p new idle (cap, true) =
        recorded-BeginEnd p new idle cap (credit_of config p rejected true none now) refl
    capped-BeginEnd p new idle (cap, false) = (refl, inr (inr (p, new, idle, refl, refl, refl)))

    priced-BeginEnd :
        (p : Pending)
        → get p.ref s.credits ≡ none
        → has p.ref s.in_flight ≡ false
        → (b : Bool) → BeginEnd (begin_priced config s p now b)
    priced-BeginEnd p new idle false =
        recorded-BeginEnd p new idle s.cap (credit_of config p rejected true none now) refl
    priced-BeginEnd p new idle true =
        capped-BeginEnd p new idle
          (check config.max_usdc_per_wallet_per_day s.cap p.wallet p.amount now)

    credit-BeginEnd :
        (event : ProviderEvent) (ref : ℕ)
        → get ref s.credits ≡ none
        → has ref s.in_flight ≡ false
        → (intent : Option OnrampIntent) (o : Option ℕ)
        → BeginEnd (begin_credit config s event ref now intent o)
    credit-BeginEnd event ref new idle intent none = quiet _ refl
    credit-BeginEnd event ref new idle intent (some amount) =
        priced-BeginEnd
          (record {
            ref = ref;
            wallet = event.wallet;
            intent_id = intent_id_of event;
            intent = intent;
            amount = amount;
            holdback = holdback_of event intent amount;
          })
          new idle (config.is_address event.wallet)

    new-BeginEnd :
        (event : ProviderEvent) (ref : ℕ)
        → get ref s.credits ≡ none
        → (b : Bool) → has ref s.in_flight ≡ b
        → BeginEnd (begin_new config s event ref now b)
    new-BeginEnd event ref new true idle = quiet _ refl
    new-BeginEnd event ref new false idle =
        credit-BeginEnd event ref new idle (lookup s.intents (intent_id_of event))
          (positive (or_else event.amount_usdc (pos 0)))

    ref-BeginEnd :
        (event : ProviderEvent) (ref : ℕ) (o : Option OnrampCredit)
        → get ref s.credits ≡ o
        → BeginEnd (begin_ref config s event ref now o)
    ref-BeginEnd event ref (some existing) h = quiet _ refl
    ref-BeginEnd event ref none h = new-BeginEnd event ref h (has ref s.in_flight) refl

    completed-BeginEnd :
        (event : ProviderEvent) (b : Bool) (o : Option ℕ)
        → BeginEnd (begin_completed config s event now b o)
    completed-BeginEnd event false o = quiet _ refl
    completed-BeginEnd event true none = quiet _ refl
    completed-BeginEnd event true (some ref) = ref-BeginEnd event ref (get ref s.credits) refl

    pub begin-BeginEnd :
        (answer : Result OnrampError ProviderEvent) → BeginEnd (begin config s now answer)
    begin-BeginEnd (err e) = quiet _ refl
    begin-BeginEnd (ok event) = completed-BeginEnd event event.is_completed event.ref

module _ {S : Type 0} (c : Cluster S) (mode : Mode) (account : Bool) (config : OnrampConfig)
    (s : Onramp S) (p : Pending) (now : ℕ) where
  -- The rest takes the delivery out of flight, and puts a credit on record or throws.
  abbrev pub FinishEnd : Onramp S × Result OnrampError OnrampCredit → Type 0
  FinishEnd (s', res) =
      (s'.in_flight ≡ without p.ref s.in_flight)
      × (((s'.credits ≡ s.credits) × (is_credit res ≡ false))
          ⊎ ((k : OnrampCredit) × (s'.credits ≡ set p.ref k s.credits)
              × (res ≡ ok k)
              × (k.status ≡ credited)))

  recorded-FinishEnd :
      (t : Treasury S) (pending : Bool) (report : InvariantReport)
      (x : Result OnrampError OnrampCredit)
      → credit_of config p credited pending (some report) now ≡ x
      → FinishEnd (
          recorded
            (record (landed c mode account config s p t) {
              cap = record_credit s.cap p.wallet p.amount now;
            })
            x)
  recorded-FinishEnd t pending report (err e) h = (refl, inl (refl, refl))
  recorded-FinishEnd t pending report (ok k) h =
      let made = credit_of-eq-ok config p credited pending (some report) now k h in
      (refl, inr (k, ap (λ r. set r k s.credits) made.0, refl, made.3))

  wrapped-FinishEnd :
      (pending : Bool) (q : Treasury S × Result TreasuryError InvariantReport)
      → FinishEnd (finish_wrapped c mode account config s p now pending q)
  wrapped-FinishEnd pending (t, err e) = (refl, inl (refl, refl))
  wrapped-FinishEnd pending (t, ok report) =
      recorded-FinishEnd t pending report (credit_of config p credited pending (some report) now)
        refl

  resolved-FinishEnd :
      (t : Treasury S) (o : Option Bool)
      → FinishEnd (finish_resolved c mode account config s p now o t)
  resolved-FinishEnd t none = (refl, inl (refl, refl))
  resolved-FinishEnd t (some true) = wrapped-FinishEnd false (
      after_confidential
        (wrap_and_make_confidential c mode account p.wallet (pos p.amount) p.holdback p.ref t))
  resolved-FinishEnd t (some false) =
      wrapped-FinishEnd true (after_wrap (wrap c mode account p.wallet (pos p.amount) p.ref t))

  credited-FinishEnd :
      (o : Option Bool) (q : Treasury S × Result TreasuryError ℕ)
      → FinishEnd (finish_credited c mode account config s p now o q)
  credited-FinishEnd o (t, err e) = (refl, inl (refl, refl))
  credited-FinishEnd o (t, ok n) = resolved-FinishEnd t o

  pub finish-FinishEnd :
      (ready : Bool) (o : Option Bool) → FinishEnd (finish c mode account config s p now ready o)
  finish-FinishEnd false o = (refl, inl (refl, refl))
  finish-FinishEnd true o =
      credited-FinishEnd o (credit_reserve c mode account (pos p.amount) p.ref s.treasury)
