-- ===== src/Onramp/Service.antt =====
-- backend/src/providers/onramp.ts, createOnramp: checkout and the two parts of a delivery.
use relstate.Common.{
  ℕ, ℤ, pos, negsuc, positive, Bool, true, false, not, ◌||◌, ◌∷◌, Option, none, some, Result, ok,
  err, ◌>>=◌, ◌>>◌, refuse_if, ltb, ◌==◌, get, set, has, without,
}
use relstate.Money.{pln_to_usdc}
use relstate.Treasury.{
  Cluster, Mode, Treasury, TreasuryError, InvariantReport, Wrapped, credit_reserve, wrap,
  wrap_and_make_confidential,
}
use relstate.Onramp.DailyCap.{Cap, check, record_credit, remaining}
use relstate.Onramp.{
  OnrampError, malformed_wallet, amount_out_of_range, amount_too_small, holdback_too_large,
  wallet_cap, provider_failed, provider_no_url, event_ignored, ref_missing, amount_missing,
  unavailable, treasury, OnrampIntent, credited, rejected, OnrampCredit, OnrampConfig,
  ProviderEvent, Onramp, or_else, lookup, at_most, holdback_of, intent_id_of, of_money, Pending,
  credit_of, recorded, Begun, replayed, joins, throws, goes_on, begun_by,
}

-- `amountPln < config.minPln || amountPln > config.maxPln`.
abbrev pub out_of_range : OnrampConfig → ℤ → Bool
out_of_range config (negsuc n) = true
out_of_range config (pos n) = ltb n config.min_pln || ltb config.max_pln n

-- The checks in front of the cap; the value is what the top-up buys.
unfoldable pub check_checkout : OnrampConfig → ℕ → ℤ → ℤ → Result OnrampError ℕ
check_checkout config wallet amount_pln holdback = do
  refuse_if (not (config.is_address wallet)) malformed_wallet
  refuse_if (out_of_range config amount_pln) amount_out_of_range
  amount ← of_money (pln_to_usdc amount_pln config.rate_scaled)
  refuse_if (amount == 0) amount_too_small
  refuse_if (not (at_most holdback amount)) holdback_too_large
  ok amount

module _ {S : Type 0} (config : OnrampConfig) where
  -- `provider.start` throws, or returns a URL or none.
  abbrev pub start_checkout :
      Onramp S → OnrampIntent → Option Bool → Onramp S × Result OnrampError OnrampIntent
  start_checkout s intent none = (s, err provider_failed)
  start_checkout s intent (some false) = (s, err provider_no_url)
  start_checkout s intent (some true) =
      (record s { intents = set intent.id intent s.intents }, ok intent)

  abbrev pub checkout_capped :
      Onramp S
      → OnrampIntent
      → Option Bool
      → Cap × Bool
      → Onramp S × Result OnrampError OnrampIntent
  checkout_capped s intent url (cap, true) = (record s { cap = cap }, err wallet_cap)
  checkout_capped s intent url (cap, false) = start_checkout (record s { cap = cap }) intent url

  abbrev pub checkout_checked :
      Onramp S
      → ℕ
      → ℤ
      → ℤ
      → ℕ
      → ℕ
      → Option Bool
      → Result OnrampError ℕ
      → Onramp S × Result OnrampError OnrampIntent
  checkout_checked s wallet amount_pln holdback id now url (err e) = (s, err e)
  checkout_checked s wallet amount_pln holdback id now url (ok amount) =
      checkout_capped s
        (record {
          id = id;
          wallet = wallet;
          pln_minor = amount_pln;
          amount_usdc = amount;
          holdback = holdback;
          rate_scaled = config.rate_scaled;
          created_at = now;
        })
        url (check config.max_usdc_per_wallet_per_day s.cap wallet amount now)

  -- `id` is the random id of the intent.
  unfoldable pub checkout :
      Onramp S → ℕ → ℤ → ℤ → ℕ → ℕ → Option Bool → Onramp S × Result OnrampError OnrampIntent
  checkout s wallet amount_pln holdback id now url =
      checkout_checked s wallet amount_pln holdback id now url
        (check_checkout config wallet amount_pln holdback)

  abbrev pub reject : Onramp S → Pending → ℕ → Onramp S × Begun
  reject s p now = begun_by (recorded s (credit_of config p rejected true none now))

  abbrev pub begin_capped : Onramp S → Pending → ℕ → Cap × Bool → Onramp S × Begun
  begin_capped s p now (cap, true) = reject (record s { cap = cap }) p now
  begin_capped s p now (cap, false) =
      (record s { cap = cap; in_flight = p.ref ∷ s.in_flight }, goes_on p)

  abbrev pub begin_priced : Onramp S → Pending → ℕ → Bool → Onramp S × Begun
  begin_priced s p now false = reject s p now
  begin_priced s p now true =
      begin_capped s p now (check config.max_usdc_per_wallet_per_day s.cap p.wallet p.amount now)

  -- `creditEvent` up to its first await.
  abbrev pub begin_credit :
      Onramp S → ProviderEvent → ℕ → ℕ → Option OnrampIntent → Option ℕ → Onramp S × Begun
  begin_credit s event ref now intent none = (s, throws amount_missing)
  begin_credit s event ref now intent (some amount) =
      begin_priced s
        (record {
          ref = ref;
          wallet = event.wallet;
          intent_id = intent_id_of event;
          intent = intent;
          amount = amount;
          holdback = holdback_of event intent amount;
        })
        now (config.is_address event.wallet)

  abbrev pub begin_new : Onramp S → ProviderEvent → ℕ → ℕ → Bool → Onramp S × Begun
  begin_new s event ref now true = (s, joins ref)
  begin_new s event ref now false =
      begin_credit s event ref now (lookup s.intents (intent_id_of event))
        (positive (or_else event.amount_usdc (pos 0)))

  abbrev pub begin_ref : Onramp S → ProviderEvent → ℕ → ℕ → Option OnrampCredit → Onramp S × Begun
  begin_ref s event ref now (some existing) = (s, replayed existing)
  begin_ref s event ref now none = begin_new s event ref now (has ref s.in_flight)

  abbrev pub begin_completed : Onramp S → ProviderEvent → ℕ → Bool → Option ℕ → Onramp S × Begun
  begin_completed s event now false ref = (s, throws event_ignored)
  begin_completed s event now true none = (s, throws ref_missing)
  begin_completed s event now true (some ref) = begin_ref s event ref now (get ref s.credits)

  -- A delivery up to its first await: the answer of `provider.webhook` is given.
  abbrev pub begin : Onramp S → ℕ → Result OnrampError ProviderEvent → Onramp S × Begun
  begin s now (err e) = (s, throws e)
  begin s now (ok event) = begin_completed s event now event.is_completed event.ref

abbrev pub after_wrap :
    {S : Type 0}
    → Treasury S × Result TreasuryError (InvariantReport × InvariantReport)
    → Treasury S × Result TreasuryError InvariantReport
after_wrap (t, err e) = (t, err e)
after_wrap (t, ok (before, later)) = (t, ok later)

abbrev pub after_confidential :
    {S : Type 0}
    → Treasury S × Result TreasuryError Wrapped
    → Treasury S × Result TreasuryError InvariantReport
after_confidential (t, err e) = (t, err e)
after_confidential (t, ok w) = (t, ok w.invariant_after)

module _ {S : Type 0} (c : Cluster S) (mode : Mode) (account : Bool) (config : OnrampConfig) where
  -- `.finally(() => inFlight.delete(event.ref))`.
  abbrev pub landed : Onramp S → Pending → Treasury S → Onramp S
  landed s p t = record s { treasury = t; in_flight = without p.ref s.in_flight }

  abbrev pub finish_wrapped :
      Onramp S
      → Pending
      → ℕ
      → Bool
      → Treasury S × Result TreasuryError InvariantReport
      → Onramp S × Result OnrampError OnrampCredit
  finish_wrapped s p now pending (t, err e) = (landed s p t, err (treasury e))
  finish_wrapped s p now pending (t, ok report) =
      recorded (record (landed s p t) { cap = record_credit s.cap p.wallet p.amount now })
        (credit_of config p credited pending (some report) now)

  -- With the owner's keys the confidential move is made too.
  abbrev pub finish_resolved :
      Onramp S → Pending → ℕ → Option Bool → Treasury S → Onramp S × Result OnrampError OnrampCredit
  finish_resolved s p now none t = (landed s p t, err unavailable)
  finish_resolved s p now (some true) t = finish_wrapped s p now false (
      after_confidential
        (wrap_and_make_confidential c mode account p.wallet (pos p.amount) p.holdback p.ref t))
  finish_resolved s p now (some false) t =
      finish_wrapped s p now true (after_wrap (wrap c mode account p.wallet (pos p.amount) p.ref t))

  abbrev pub finish_credited :
      Onramp S
      → Pending
      → ℕ
      → Option Bool
      → Treasury S × Result TreasuryError ℕ
      → Onramp S × Result OnrampError OnrampCredit
  finish_credited s p now resolved (t, err e) = (landed s p t, err (treasury e))
  finish_credited s p now resolved (t, ok _) = finish_resolved s p now resolved t

  -- The rest of `creditEvent`: whether the treasury is there, and what `resolveOwner` answers.
  abbrev pub finish :
      Onramp S → Pending → ℕ → Bool → Option Bool → Onramp S × Result OnrampError OnrampCredit
  finish s p now false resolved = (landed s p s.treasury, err unavailable)
  finish s p now true resolved =
      finish_credited s p now resolved
        (credit_reserve c mode account (pos p.amount) p.ref s.treasury)

-- What the app polls, and what is left of the day.
abbrev pub credit_for_intent : {S : Type 0} → Onramp S → ℕ → Option OnrampCredit
credit_for_intent s id = lookup s.credits (get id s.credits_by_intent)

abbrev pub remaining_today : {S : Type 0} → OnrampConfig → Onramp S → ℕ → ℕ → Cap × ℕ
remaining_today config s wallet now = remaining config.max_usdc_per_wallet_per_day s.cap wallet now
