-- ===== src/Onramp.antt =====
-- backend/src/providers/onramp.ts: from a paid top-up to rUSDC in the wallet. What the provider
-- reads out of a delivery, the test of an address, and what is awaited are parameters. A delivery
-- is cut where it first gives up the thread: `begin` runs up to there, `finish` is the rest, and
-- other deliveries may run in between. The rest runs at once here, though it awaits the treasury,
-- `resolveOwner` and the wrap: deliveries that interleave there are not covered. Texts that are only compared are numbers; the reason of a
-- rejection, the signatures and the log are left out.
pub mod DailyCap
pub mod Service
pub mod Ends
pub mod Crediting
pub mod Once
pub mod Replay
pub mod Spent
pub mod Capped
pub mod Credits
pub mod CapHistory
pub mod Backed
pub mod Holdback
pub mod Checkout
mod Examples
use relstate.Common.{
  ℕ, suc, ◌+◌, ◌-◌, ℤ, pos, negsuc, positive, Bool, true, false, not, ◌&&◌, ◌||◌, List, [], ◌∷◌,
  Option, none, some, Result, ok, err, ◌>>=◌, ◌>>◌, refuse_if, ltb, leb, ◌==◌, if◌then◌else◌, get,
  set, delete, has, add, without,
}
use relstate.Money.{MoneyError, pln_to_usdc, usdc_to_pln}
use relstate.Treasury.{
  Cluster, Mode, Treasury, TreasuryError, InvariantReport, Wrapped, confidential_move_amount,
  credit_reserve, wrap, wrap_and_make_confidential,
}
use relstate.Onramp.DailyCap.{Cap, check, record_credit, remaining}

pub data OnrampError : Type 0 where
  malformed_wallet amount_out_of_range amount_too_small holdback_too_large : OnrampError
  wallet_cap provider_failed provider_no_url body_malformed intent_unknown : OnrampError
  event_ignored ref_missing amount_missing unavailable : OnrampError
  money : MoneyError → OnrampError
  treasury : TreasuryError → OnrampError

pub record OnrampIntent : Type 0 where
  pub id : ℕ
  pub wallet : ℕ
  pub pln_minor : ℤ
  pub amount_usdc : ℕ
  pub holdback : ℤ
  pub rate_scaled : ℤ
  pub created_at : ℕ

pub data CreditStatus : Type 0 where
  credited rejected : CreditStatus

pub record OnrampCredit : Type 0 where
  pub ref : ℕ
  pub intent : Option ℕ
  pub wallet : ℕ
  pub amount_usdc : ℕ
  pub amount_pln : ℤ
  pub public_holdback : ℤ
  pub confidential_amount : ℤ
  pub confidential_pending : Bool
  pub status : CreditStatus
  pub invariant : Option InvariantReport
  pub at : ℕ

pub record OnrampConfig : Type 0 where
  pub rate_scaled : ℤ
  pub min_pln : ℕ
  pub max_pln : ℕ
  pub max_usdc_per_wallet_per_day : ℕ
  pub is_address : ℕ → Bool

-- A verified event. `ref_intent` is what `/^mock-(.+)$/` finds in the reference, `body_intent` the
-- text at `data.object.metadata.intent` of the body, if it parses and the text is not empty.
pub record ProviderEvent : Type 0 where
  pub is_completed : Bool
  pub ref : Option ℕ
  pub ref_intent : Option ℕ
  pub body_intent : Option ℕ
  pub wallet : ℕ
  pub amount_usdc : Option ℤ
  pub holdback : Option ℤ

pub record Onramp (S : Type 0) : Type 0 where
  pub cap : Cap
  pub intents : List (ℕ × OnrampIntent)
  pub credits : List (ℕ × OnrampCredit)
  pub credits_by_intent : List (ℕ × ℕ)
  pub in_flight : List ℕ
  pub treasury : Treasury S

-- `a ?? b`.
abbrev pub or_else {ℓ} : {A : Type ℓ} → Option A → A → A
or_else none b = b
or_else (some a) b = a

abbrev pub lookup : {A : Type 0} → List (ℕ × A) → Option ℕ → Option A
lookup m none = none
lookup m (some k) = get k m

abbrev pub intent_holdback : Option OnrampIntent → Option ℤ
intent_holdback none = none
intent_holdback (some i) = some i.holdback

-- `requested <= amount`.
abbrev pub at_most : ℤ → ℕ → Bool
at_most (negsuc n) amount = true
at_most (pos n) amount = leb n amount

unfoldable pub holdback_of : ProviderEvent → Option OnrampIntent → ℕ → ℤ
holdback_of event intent amount =
    let requested = or_else event.holdback (or_else (intent_holdback intent) (pos 0)) in
    if at_most requested amount then requested else pos amount

abbrev pub intent_id_of : ProviderEvent → Option ℕ
intent_id_of event = elim event.ref_intent [ none ↦ event.body_intent | some id ↦ some id ]

-- The webhook of the mock provider; the body is an intent id, if it parses as one.
abbrev pub mock_event : Option OnrampIntent → ℕ → Result OnrampError ProviderEvent
mock_event none ref = err intent_unknown
mock_event (some intent) ref = ok (record {
  is_completed = true;
  ref = some ref;
  ref_intent = some intent.id;
  body_intent = none;
  wallet = intent.wallet;
  amount_usdc = some (pos intent.amount_usdc);
  holdback = none;
})

-- `refOf` spells `mock-<id>`.
unfoldable pub mock_webhook :
    {S : Type 0} → Onramp S → (ℕ → ℕ) → Option ℕ → Result OnrampError ProviderEvent
mock_webhook s ref_of none = err body_malformed
mock_webhook s ref_of (some id) = mock_event (get id s.intents) (ref_of id)

abbrev pub of_money : {A : Type 0} → Result MoneyError A → Result OnrampError A
of_money (err e) = err (money e)
of_money (ok a) = ok a

abbrev pub of_treasury : {A : Type 0} → Result TreasuryError A → Result OnrampError A
of_treasury (err e) = err (treasury e)
of_treasury (ok a) = ok a

-- A delivery on which `creditEvent` works: what `record` captures.
pub record Pending : Type 0 where
  pub ref : ℕ
  pub wallet : ℕ
  pub intent_id : Option ℕ
  pub intent : Option OnrampIntent
  pub amount : ℕ
  pub holdback : ℤ

-- `intent?.plnMinor ?? usdcToPln(amount, intent?.rateScaled ?? config.rateScaled)`.
abbrev pub price : OnrampConfig → Pending → Option OnrampIntent → Result OnrampError ℤ
price config p none = do n ← of_money (usdc_to_pln (pos p.amount) config.rate_scaled); ok (pos n)
price config p (some i) = ok i.pln_minor

-- The credit that `record` makes.
unfoldable pub credit_of :
    OnrampConfig
    → Pending
    → CreditStatus
    → Bool
    → Option InvariantReport
    → ℕ
    → Result OnrampError OnrampCredit
credit_of config p status pending invariant now = do
  pln ← price config p p.intent
  confidential ← of_treasury (confidential_move_amount (pos p.amount) p.holdback)
  ok (record {
    ref = p.ref;
    intent = p.intent_id;
    wallet = p.wallet;
    amount_usdc = p.amount;
    amount_pln = pln;
    public_holdback = p.holdback;
    confidential_amount = confidential;
    confidential_pending = pending;
    status = status;
    invariant = invariant;
    at = now;
  })

-- `credits.set` and `creditsByIntent.set`.
abbrev pub by_intent : Option ℕ → ℕ → List (ℕ × ℕ) → List (ℕ × ℕ)
by_intent none ref m = m
by_intent (some id) ref m = set id ref m

abbrev pub recorded :
    {S : Type 0}
    → Onramp S
    → Result OnrampError OnrampCredit
    → Onramp S × Result OnrampError OnrampCredit
recorded s (err e) = (s, err e)
recorded s (ok credit) = (
  record s {
    credits = set credit.ref credit s.credits;
    credits_by_intent = by_intent credit.intent credit.ref s.credits_by_intent;
  },
  ok credit,
)

-- How the part of a delivery up to its first await ends.
pub data Begun : Type 0 where
  replayed : OnrampCredit → Begun
  joins : ℕ → Begun
  throws : OnrampError → Begun
  refused : OnrampCredit → Begun
  goes_on : Pending → Begun

abbrev pub begun_by : {S : Type 0} → Onramp S × Result OnrampError OnrampCredit → Onramp S × Begun
begun_by (s, err e) = (s, throws e)
begun_by (s, ok credit) = (s, refused credit)
