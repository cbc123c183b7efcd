-- ===== src/RentRoute.antt =====
-- backend/src/treasury.ts, sponsorRentPayment: the route that co-signs a wallet's rent payment.
-- The address of the wallet's token account and the hash of a message are parameters, as is what
-- the cluster answers; the limits come from the environment.
pub mod Ending
pub mod Outcome
pub mod Memory
pub mod Replay
pub mod Checks
mod Examples
use relstate.Common.{
  ℕ, zero, suc, ◌+◌, ◌-◌, Bool, true, false, not, ◌&&◌, ◌||◌, List, [], ◌∷◌, Option, none, some,
  Result, ok, err, ◌>>=◌, ◌>>◌, refuse_if, ltb, leb, ◌==◌, if◌then◌else◌, length, any, get, set,
  delete,
}
use relstate.Limits.{LimitConfig, Limiter, Scope, Reservation, reserve, cancel}
use relstate.Transaction.{
  Rejection, InspectedTransaction, inspect_transaction, wallet_mismatch, rate_limited, replay,
}
use relstate.Transaction.Budget.{assert_compute_budget_within_policy}
use relstate.Transaction.Policy.{
  assert_programs_allowed, assert_only_sponsor_signature_missing, assert_present_signatures_valid,
}
use relstate.RentPlan.{Registry, ContextUse, Undo, context_use, admit, undo}
use relstate.RentShape.{RentPaymentRules, rent_payment_allowlist, assert_rent_payment_shape}
use relstate.Cosigning.{
  CosignError, refused, rpc_failed, outcome_unknown, Answers, SpendBounds, Cosigned, required,
  cosign_and_send, SetupDeps, setup_policy,
}

abbrev pub replay_window_ms : ℕ
replay_window_ms = 300_000

abbrev pub range_rent_ttl_ms : ℕ
range_rent_ttl_ms = 300_000

pub record RentDeps (Wire : Type 0) : Type 0 where
  pub setup : SetupDeps Wire
  pub pay_rent : List ℕ
  pub mint : ℕ
  pub token_of : ℕ → ℕ
  pub hash : List ℕ → ℕ
  pub rent_limits : LimitConfig
  pub max_context_lamports : ℕ
  pub max_context_space : ℕ
  pub max_create_accounts : ℕ
  pub max_spend_lamports : ℕ

-- What the route captures: the limiter, the plans, `seenMessages`, and `rangeRent`.
pub record RentState : Type 0 where
  pub limiter : Limiter
  pub plans : Registry
  pub seen : List (ℕ × ℕ)
  pub range_rent : Option (ℕ × ℕ)

-- The answers besides those of `cosignAndSend`: the rent-exempt minimum, and whether the wallet's
-- token account is there.
pub record RentAnswers : Type 0 where
  pub rent : Option ℕ
  pub has_token : Option Bool
  pub cosigning : Answers

-- The cached rent, if it is fresh.
abbrev pub fresh_rent : Option (ℕ × ℕ) → ℕ → Option ℕ
fresh_rent none now = none
fresh_rent (some (at, lamports)) now =
    if ltb (now - at) range_rent_ttl_ms then some lamports else none

-- A read is cached; one that throws is not.
abbrev pub fetched_rent : RentState → ℕ → Option ℕ → RentState × Result CosignError ℕ
fetched_rent s now none = (s, err rpc_failed)
fetched_rent s now (some lamports) = (record s { range_rent = some (now, lamports) }, ok lamports)

abbrev pub cached_rent : RentState → ℕ → Option ℕ → Option ℕ → RentState × Result CosignError ℕ
cached_rent s now fetched (some lamports) = (s, ok lamports)
cached_rent s now fetched none = fetched_rent s now fetched

unfoldable pub range_context_rent : RentState → ℕ → Option ℕ → RentState × Result CosignError ℕ
range_context_rent s now fetched = cached_rent s now fetched (fresh_rent s.range_rent now)

-- `for (const [k, at] of seenMessages) if (now - at > REPLAY_WINDOW_MS) seenMessages.delete(k)`.
unfoldable pub sweep_seen : ℕ → List (ℕ × ℕ) → List (ℕ × ℕ)
sweep_seen now [] = []
sweep_seen now ((key, at) ∷ rest) =
    if ltb replay_window_ms (now - at) then sweep_seen now rest else (key, at) ∷ sweep_seen now rest

abbrev pub is_seen : ℕ → List (ℕ × ℕ) → Bool
is_seen key seen = elim (get key seen) [ none ↦ false | some at ↦ true ]

-- `e => refused e` on what the checks of a transaction throw.
abbrev pub refusing : {A : Type 0} → Result Rejection A → Result CosignError A
refusing (err e) = err (refused e)
refusing (ok a) = ok a

-- What is known of a payment after its checks.
pub record Payment : Type 0 where
  pub tx : InspectedTransaction
  pub use_of : ContextUse
  pub wallet_signs : Bool
  pub fee : ℕ

module _ {Wire : Type 0} (deps : RentDeps Wire) where
  abbrev pub rules_for : ℕ → ℕ → RentPaymentRules
  rules_for wallet lamports = record {
    treasury = deps.setup.treasury;
    wallet = wallet;
    mint = deps.mint;
    wallet_token = deps.token_of wallet;
    max_context_lamports = deps.max_context_lamports;
    max_context_space = deps.max_context_space;
    max_create_accounts = deps.max_create_accounts;
    range_context_lamports = lamports;
  }

  -- The checks up to the read of the rent.
  unfoldable pub check_signers : Wire → ℕ → Result Rejection InspectedTransaction
  check_signers wire wallet = do
    tx ←
        inspect_transaction deps.setup.encode deps.setup.decode wire deps.setup.max_tx_bytes
          deps.setup.max_instructions
    assert_programs_allowed tx rent_payment_allowlist
    assert_only_sponsor_signature_missing tx deps.setup.treasury
    assert_present_signatures_valid deps.setup.verify tx
    refuse_if (wallet == deps.setup.treasury) wallet_mismatch
    ok tx

  abbrev pub signs : InspectedTransaction → ℕ → Bool
  signs tx wallet = any (λ a. a.is_signer && a.address == wallet) tx.accounts

  -- A preparation, or anything that creates a context, needs the wallet's token account.
  abbrev pub check_token : Bool → Option Bool → Result CosignError (Unit {0})
  check_token false answer = ok tt
  check_token true none = err rpc_failed
  check_token true (some has_token) = refuse_if (not has_token) (refused wallet_mismatch)

  -- The checks from the shape to the fee.
  unfoldable pub check_payment :
      InspectedTransaction → ℕ → ℕ → Option Bool → Result CosignError Payment
  check_payment tx wallet lamports has_token = do
    refusing (assert_rent_payment_shape deps.pay_rent tx (rules_for wallet lamports))
    let wallet_signs = signs tx wallet
    let use_of = context_use tx
    check_token (not wallet_signs || ltb 0 (length use_of.created)) has_token
    fee ←
        refusing
          (assert_compute_budget_within_policy tx (setup_policy deps.setup rent_payment_allowlist))
    ok (record { tx = tx; use_of = use_of; wallet_signs = wallet_signs; fee = fee })

  abbrev pub rent_bounds : SpendBounds
  rent_bounds = record { max_spend = deps.max_spend_lamports; allow_credit = true }

  -- The last `catch`: an unknown outcome keeps the replay entry, the booked spend and the plan.
  abbrev pub roll_back :
      RentState
      → ℕ
      → Undo
      → Reservation
      → Limiter × Result CosignError Cosigned
      → RentState × Result CosignError Cosigned
  roll_back s key d r (limiter, ok result) = (record s { limiter = limiter }, ok result)
  roll_back s key d r (limiter, err (outcome_unknown signature)) =
      (record s { limiter = limiter }, err (outcome_unknown signature))
  roll_back s key d r (limiter, err e) = (
    record s { limiter = cancel limiter r; plans = (undo s.plans d).0; seen = delete key s.seen },
    err e,
  )

  -- From the admission on.
  abbrev pub cosign_admitted :
      RentState
      → RentAnswers
      → Payment
      → ℕ
      → ℕ
      → Reservation
      → Registry × Result Rejection Undo
      → RentState × Result CosignError Cosigned
  cosign_admitted s answers p key now r (plans, err e) =
      (record s { limiter = cancel s.limiter r; plans = plans }, err (refused e))
  cosign_admitted s answers p key now r (plans, ok d) =
      roll_back (record s { plans = plans; seen = set key now s.seen }) key d r
        (cosign_and_send deps.setup.mode rent_bounds answers.cosigning p.fee s.limiter r)

  abbrev pub cosign_reserved :
      RentState
      → RentAnswers
      → Payment
      → ℕ
      → ℕ
      → ℕ
      → Limiter × Result Scope Reservation
      → RentState × Result CosignError Cosigned
  cosign_reserved s answers p wallet key now (limiter, err scope) =
      (record s { limiter = limiter }, err (refused rate_limited))
  cosign_reserved s answers p wallet key now (limiter, ok r) =
      cosign_admitted (record s { limiter = limiter }) answers p key now r
        (admit s.plans now wallet p.use_of p.wallet_signs)

  -- From the replay check on.
  abbrev pub cosign_checked :
      RentState
      → RentAnswers
      → ℕ
      → ℕ
      → Result CosignError Payment
      → RentState × Result CosignError Cosigned
  cosign_checked s answers wallet now (err e) = (s, err e)
  cosign_checked s answers wallet now (ok p) =
      let key = deps.hash p.tx.transaction.message_bytes in
      let swept = record s { seen = sweep_seen now s.seen } in
      let rest =
        cosign_reserved swept answers p wallet key now
          (reserve deps.rent_limits s.limiter wallet (deps.max_spend_lamports + p.fee) now) in
      if is_seen key swept.seen then (swept, err (refused replay)) else rest

  abbrev pub cosign_rented :
      RentAnswers
      → InspectedTransaction
      → ℕ
      → ℕ
      → RentState × Result CosignError ℕ
      → RentState × Result CosignError Cosigned
  cosign_rented answers tx wallet now (s, err e) = (s, err e)
  cosign_rented answers tx wallet now (s, ok lamports) =
      cosign_checked s answers wallet now (check_payment tx wallet lamports answers.has_token)

  abbrev pub cosign_signed :
      RentState
      → RentAnswers
      → ℕ
      → ℕ
      → Result Rejection InspectedTransaction
      → RentState × Result CosignError Cosigned
  cosign_signed s answers wallet now (err e) = (s, err (refused e))
  cosign_signed s answers wallet now (ok tx) =
      cosign_rented answers tx wallet now (range_context_rent s now answers.rent)

  unfoldable pub sponsor_rent_payment :
      RentState → RentAnswers → Wire → ℕ → ℕ → RentState × Result CosignError Cosigned
  sponsor_rent_payment s answers wire wallet now =
      cosign_signed s answers wallet now (check_signers wire wallet)
