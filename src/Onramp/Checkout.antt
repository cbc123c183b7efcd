-- ===== src/Onramp/Checkout.antt =====
-- What a checkout leaves, on every path.
use relstate.Common.{
  ℕ, ◌+◌, ◌≤◌, ◌<◌, ◌≡◌, refl, subst, ◌⊎◌, inl, inr, ℤ, Bool, true, false, not, Option, none, some,
  Result, ok, err, >>=-eq-ok, refuse_if, refuse_if-eq-ok, arith, set, ◌==◌,
}
use relstate.Money.{pln_to_usdc}
use relstate.Onramp.DailyCap.{Cap, check}
use relstate.Onramp.{
  OnrampError, malformed_wallet, amount_out_of_range, amount_too_small, holdback_too_large,
  OnrampIntent, OnrampConfig, Onramp, at_most, of_money,
}
use relstate.Onramp.Service.{
  out_of_range, check_checkout, start_checkout, checkout_capped, checkout_checked, checkout,
}
use relstate.Onramp.Spent.{spent, check-passes}

-- What the checks of a checkout ask.
abbrev pub Priced : OnrampConfig → ℕ → ℤ → ℤ → ℕ → Type 0
Priced config wallet amount_pln holdback amount =
    (config.is_address wallet ≡ true)
    × (out_of_range config amount_pln ≡ false)
    × (of_money (pln_to_usdc amount_pln config.rate_scaled) ≡ ok amount)
    × (0 < amount)
    × (at_most holdback amount ≡ true)

check_checkout-Priced :
    (config : OnrampConfig) (wallet : ℕ) (amount_pln holdback : ℤ) (amount : ℕ)
    → check_checkout config wallet amount_pln holdback ≡ ok amount
    → Priced config wallet amount_pln holdback amount
unfolding check_checkout
check_checkout-Priced config wallet amount_pln holdback amount e =
    let (_, f1, e1) = >>=-eq-ok (refuse_if (not (config.is_address wallet)) malformed_wallet) _ e in
    let (_, f2, e2) =
      >>=-eq-ok (refuse_if (out_of_range config amount_pln) amount_out_of_range) _ e1 in
    let (bought, f3, e3) = >>=-eq-ok (of_money (pln_to_usdc amount_pln config.rate_scaled)) _ e2 in
    let (_, f4, e4) = >>=-eq-ok (refuse_if (bought == 0) amount_too_small) _ e3 in
    let (_, f5, e5) =
      >>=-eq-ok (refuse_if (not (at_most holdback bought)) holdback_too_large) _ e4 in
    let same : bought ≡ amount = cc in
    subst (Priced config wallet amount_pln holdback) same (
      positive_of (config.is_address wallet) (refuse_if-eq-ok _ _ f1),
      refuse_if-eq-ok _ _ f2,
      f3,
      at_least_one bought (refuse_if-eq-ok _ _ f4),
      positive_of (at_most holdback bought) (refuse_if-eq-ok _ _ f5),
    )
  where
    positive_of : (b : Bool) → not b ≡ false → b ≡ true
    positive_of true h = refl
    positive_of false h = cc

    at_least_one : (n : ℕ) → (n == 0) ≡ false → 0 < n
    at_least_one n h = ground arith

module _ {S : Type 0} (config : OnrampConfig) (s : Onramp S) (wallet : ℕ) (amount_pln holdback : ℤ)
    (id now : ℕ) where
  -- An intent that the checks and the cap allow is stored, or no intent is.
  abbrev pub CheckoutEnd : Onramp S × Result OnrampError OnrampIntent → Type 0
  CheckoutEnd (s', res) =
      ((intent : OnrampIntent) × (res ≡ ok intent)
        × (s'.intents ≡ set id intent s.intents)
        × (intent.id ≡ id)
        × (intent.wallet ≡ wallet)
        × (intent.pln_minor ≡ amount_pln)
        × (intent.holdback ≡ holdback)
        × Priced config wallet amount_pln holdback intent.amount_usdc
        × (spent s.cap wallet now + intent.amount_usdc ≤ config.max_usdc_per_wallet_per_day))
      ⊎ ((e : OnrampError) × (res ≡ err e) × (s'.intents ≡ s.intents))

  abbrev made : ℕ → OnrampIntent
  made amount = record {
    id = id;
    wallet = wallet;
    pln_minor = amount_pln;
    amount_usdc = amount;
    holdback = holdback;
    rate_scaled = config.rate_scaled;
    created_at = now;
  }

  start-CheckoutEnd :
      (amount : ℕ) (cap : Cap)
      → Priced config wallet amount_pln holdback amount
      → spent s.cap wallet now + amount ≤ config.max_usdc_per_wallet_per_day
      → (url : Option Bool)
      → CheckoutEnd (start_checkout config (record s { cap = cap }) (made amount) url)
  start-CheckoutEnd amount cap priced fits none = inr (_, refl, refl)
  start-CheckoutEnd amount cap priced fits (some false) = inr (_, refl, refl)
  start-CheckoutEnd amount cap priced fits (some true) =
      inl (made amount, refl, refl, refl, refl, refl, refl, priced, fits)

  capped-CheckoutEnd :
      (amount : ℕ)
      → Priced config wallet amount_pln holdback amount
      → (url : Option Bool) (q : Cap × Bool)
      → (q.1 ≡ false → spent s.cap wallet now + amount ≤ config.max_usdc_per_wallet_per_day)
      → CheckoutEnd (checkout_capped config s (made amount) url q)
  capped-CheckoutEnd amount priced url (cap, true) fits = inr (_, refl, refl)
  capped-CheckoutEnd amount priced url (cap, false) fits =
      start-CheckoutEnd amount cap priced (fits refl) url

  checked-CheckoutEnd :
      (url : Option Bool) (x : Result OnrampError ℕ)
      → check_checkout config wallet amount_pln holdback ≡ x
      → CheckoutEnd (checkout_checked config s wallet amount_pln holdback id now url x)
  checked-CheckoutEnd url (err e) h = inr (e, refl, refl)
  checked-CheckoutEnd url (ok amount) h =
      capped-CheckoutEnd amount (check_checkout-Priced config wallet amount_pln holdback amount h)
        url (check config.max_usdc_per_wallet_per_day s.cap wallet amount now)
        (check-passes config.max_usdc_per_wallet_per_day s.cap wallet amount now)

module _ {S : Type 0} (config : OnrampConfig) (s : Onramp S) (wallet : ℕ) (amount_pln holdback : ℤ)
    (id now : ℕ) where
  -- A checkout that throws stores no intent. One that returns stores the intent that it returns
  -- under its id: for the session's wallet, which is an address, an amount in range that buys
  -- something at the rate, a holdback of at most what it buys, and no more than the wallet's daily
  -- cap leaves.
  pub checkout_ends :
      (url : Option Bool)
      → CheckoutEnd config s wallet amount_pln holdback id now
          (checkout config s wallet amount_pln holdback id now url)
  unfolding checkout
  checkout_ends url =
      checked-CheckoutEnd config s wallet amount_pln holdback id now url
        (check_checkout config wallet amount_pln holdback) refl
