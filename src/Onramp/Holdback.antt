-- ===== src/Onramp/Holdback.antt =====
-- The holdback of a credit.
use relstate.Common.{
  ℕ, ◌+◌, ◌-◌, ◌≤◌, ◌≡◌, refl, sym, ap, ◌∙◌, subst, suc, inl, inr, ℤ, pos, negsuc, at_least_zero,
  Bool, true, Option, none, some, ok, arith, leb, ltb, Bool-cases,
}
use relstate.Money.{usdc_to_pln, check_conversion}
use relstate.Treasury.{InvariantReport, confidential_move_amount}
use relstate.Onramp.{
  OnrampIntent, CreditStatus, OnrampCredit, OnrampConfig, ProviderEvent, or_else, intent_holdback,
  at_most, holdback_of, Pending, price, credit_of,
}
use relstate.Onramp.Ends.{credit_of-eq-ok}

-- The two parts of an amount.
abbrev pub AddUp : ℕ → ℤ → ℤ → Type 0
AddUp amount confidential public =
    (at_least_zero confidential + at_least_zero public ≡ amount) × (at_most public amount ≡ true)

confidential_move_amount-AddUp :
    (amount : ℕ) (holdback out : ℤ)
    → confidential_move_amount (pos amount) holdback ≡ ok out
    → AddUp amount out holdback
unfolding confidential_move_amount
confidential_move_amount-AddUp amount (negsuc h) out e = cc
confidential_move_amount-AddUp amount (pos h) out e = elim (Bool-cases (ltb amount h)) [
  | inl f ↦ let g = rw f at e in cc
  | inr f ↦
      let g = rw f at e in
      let same : pos (amount - h) ≡ out = cc in
      (ap (λ z. at_least_zero z + h) (sym same) ∙ ground arith, ground arith)
]

holdback_of-at_most :
    (event : ProviderEvent) (intent : Option OnrampIntent) (amount : ℕ)
    → at_most (holdback_of event intent amount) amount ≡ true
unfolding holdback_of
holdback_of-at_most event intent amount =
    elim (Bool-cases
      (at_most (or_else event.holdback (or_else (intent_holdback intent) (pos 0))) amount)) [
        | inl e ↦ rw (e, e) refl
        | inr e ↦ rw e (ground arith)
      ]

price-ok :
    (config : OnrampConfig) (p : Pending) (r : ℕ)
    → config.rate_scaled ≡ pos (suc r)
    → (o : Option OnrampIntent) → (n : ℤ) × (price config p o ≡ ok n)
unfolding usdc_to_pln check_conversion
price-ok config p r rate none = rw rate (_, refl)
price-ok config p r rate (some i) = (i.pln_minor, refl)

holdback_of-pos :
    (event : ProviderEvent) (intent : Option OnrampIntent) (amount h : ℕ)
    → or_else event.holdback (or_else (intent_holdback intent) (pos 0)) ≡ pos h
    → (m : ℕ) × (holdback_of event intent amount ≡ pos m) × (m ≤ amount)
unfolding holdback_of
holdback_of-pos event intent amount h e = elim (Bool-cases (leb h amount)) [
  | inl f ↦ rw (e, f) (h, refl, ground arith)
  | inr f ↦ rw (e, f) (amount, refl, omega arith)
]

moved-ok :
    (amount m : ℕ)
    → m ≤ amount
    → confidential_move_amount (pos amount) (pos m) ≡ ok (pos (amount - m))
unfolding confidential_move_amount
moved-ok amount m le = elim (Bool-cases (ltb amount m)) [
  | inl f ↦ ground (arith, f)
  | inr f ↦ rw f refl
]

credit_of-ok :
    (config : OnrampConfig) (p : Pending) (status : CreditStatus) (pending : Bool)
    (invariant : Option InvariantReport) (now : ℕ) (pln out : ℤ)
    → price config p p.intent ≡ ok pln
    → confidential_move_amount (pos p.amount) p.holdback ≡ ok out
    → (k : OnrampCredit) × (credit_of config p status pending invariant now ≡ ok k)
unfolding credit_of
credit_of-ok config p status pending invariant now pln out e f = rw (e, f) (_, refl)

-- A paid event can always be put on record: where the rate is positive and the requested holdback is
-- not negative, the credit is made, for the event's reference, wallet and amount, with a holdback
-- and a confidential part that add up to the amount.
pub credit_made :
    (config : OnrampConfig) (event : ProviderEvent) (p : Pending) (status : CreditStatus)
    (pending : Bool) (invariant : Option InvariantReport) (now r h : ℕ)
    → config.rate_scaled ≡ pos (suc r)
    → or_else event.holdback (or_else (intent_holdback p.intent) (pos 0)) ≡ pos h
    → p.holdback ≡ holdback_of event p.intent p.amount
    → (k : OnrampCredit) × (credit_of config p status pending invariant now ≡ ok k)
      × (k.ref ≡ p.ref)
      × (k.wallet ≡ p.wallet)
      × (k.amount_usdc ≡ p.amount)
      × (k.status ≡ status)
      × AddUp p.amount k.confidential_amount k.public_holdback
credit_made config event p status pending invariant now r h rate requested held =
    let (pln, priced) = price-ok config p r rate p.intent in
    let (m, clamped, le) = holdback_of-pos event p.intent p.amount h requested in
    let moved =
      ap (confidential_move_amount (pos p.amount)) (held ∙ clamped) ∙ moved-ok p.amount m le in
    let (k, made) =
      credit_of-ok config p status pending invariant now pln (pos (p.amount - m)) priced moved in
    let f = credit_of-eq-ok config p status pending invariant now k made in
    (
      k,
      made,
      f.0,
      f.1,
      f.2,
      f.3,
      subst (AddUp p.amount k.confidential_amount) (sym f.4)
          (confidential_move_amount-AddUp p.amount p.holdback k.confidential_amount f.5),
    )
