-- ===== src/Cosigning.antt =====
-- backend/src/treasury.ts: the routes that co-sign with the treasury key, and the rent dust.
-- The answers of the cluster and of signing are parameters of each request; `none` stands for a
-- call that throws. Requests run one at a time, and one request reads the clock once.
pub mod Spending
pub mod Setup
mod Examples
use relstate.Common.{
  ℕ, zero, suc, ◌+◌, ◌-◌, ◌*◌, ℤ, pos, negsuc, minus, at_least_zero, Bool, true, false, not, ◌&&◌,
  ◌||◌, List, [], ◌∷◌, Option, none, some, Result, ok, err, ◌>>=◌, ◌>>◌, refuse_if, ltb, leb, ◌==◌,
  if◌then◌else◌,
}
use relstate.Programs.{
  token_2022_program, associated_token_program, zk_elgamal_proof_program, compute_budget_program,
}
use relstate.Limits.{LimitConfig, Limiter, Scope, Reservation, reserve, commit, cancel}
use relstate.Treasury.{Mode, mock, live}
use relstate.Transaction.{
  Rejection, DecodedTransaction, InspectedTransaction, inspect_transaction, wallet_mismatch,
  simulation_failed, simulation_incomplete, rent_too_high, unexpected_credit, rate_limited,
}
use relstate.Transaction.Budget.{SponsorPolicy, assert_compute_budget_within_policy}
use relstate.Transaction.Policy.{
  assert_programs_allowed, assert_only_sponsor_signature_missing, assert_present_signatures_valid,
}
use relstate.Sponsor.{signs_itself}
use relstate.ConfidentialSetup.{assert_confidential_setup_shape}

abbrev pub confidential_setup_allowlist : List ℕ
confidential_setup_allowlist =
    associated_token_program ∷ token_2022_program ∷ zk_elgamal_proof_program
    ∷ compute_budget_program ∷ []

-- What a route throws. `outcome_unknown` is `SendOutcomeUnknown`, with the signature.
pub data CosignError : Type 0 where
  refused : Rejection → CosignError
  rpc_failed signing_failed not_landed : CosignError
  outcome_unknown : ℕ → CosignError

-- How `sendTransaction` ends: `isKnownNotLanded` tells the last two apart.
pub data Sending : Type 0 where
  sent known_not_landed unknown : Sending

pub record Simulated : Type 0 where
  pub is_failed : Bool
  pub treasury_lamports : Option ℕ

pub record Answers : Type 0 where
  pub balance_before : Option ℕ
  pub simulation : Option Simulated
  pub balance_after : Option ℕ
  pub signature : Option ℕ
  pub sending : Sending

pub record SpendBounds : Type 0 where
  pub max_spend : ℕ
  pub allow_credit : Bool

pub record Cosigned : Type 0 where
  pub signature : ℕ
  pub broadcast : Bool
  pub rent_lamports : ℤ

-- A value that a call gives, or what it throws.
abbrev pub required : {A : Type 0} → Option A → CosignError → Result CosignError A
required none e = err e
required (some a) e = ok a

abbrev pub max : ℕ → ℕ → ℕ
max a b = if ltb b a then a else b

-- `spent > bounds.maxSpend` and `spent < 0n`.
abbrev pub is_over : ℤ → ℕ → Bool
is_over (negsuc n) cap = false
is_over (pos n) cap = ltb cap n

abbrev pub is_negative : ℤ → Bool
is_negative (negsuc n) = true
is_negative (pos n) = false

unfoldable pub bound_spent : SpendBounds → ℤ → Result CosignError ℤ
bound_spent bounds spent = do
  refuse_if (is_over spent bounds.max_spend) (refused rent_too_high)
  refuse_if (is_negative spent && not bounds.allow_credit) (refused unexpected_credit)
  ok spent

-- What the simulated transaction takes out of the treasury.
unfoldable pub check_spend : SpendBounds → Answers → Result CosignError ℤ
check_spend bounds answers = do
  before ← required answers.balance_before rpc_failed
  simulation ← required answers.simulation rpc_failed
  refuse_if simulation.is_failed (refused simulation_failed)
  lamports ← required simulation.treasury_lamports (refused simulation_incomplete)
  later ← required answers.balance_after rpc_failed
  bound_spent bounds (minus (max before later) lamports)

abbrev pub booked_for : ℤ → ℕ → ℕ
booked_for spent fee = at_least_zero spent + fee

-- The end of `cosignAndSend`: what is booked, and whether it throws.
abbrev pub send :
    Mode → Limiter → Reservation → ℤ → ℕ → ℕ → Sending → Limiter × Result CosignError Cosigned
send mock s r spent fee signature sending = (
  commit s r (booked_for spent fee),
  ok (record { signature = signature; broadcast = false; rent_lamports = spent }),
)
send live s r spent fee signature sent = (
  commit s r (booked_for spent fee),
  ok (record { signature = signature; broadcast = true; rent_lamports = spent }),
)
send live s r spent fee signature known_not_landed = (s, err not_landed)
send live s r spent fee signature unknown =
    (commit s r (booked_for spent fee), err (outcome_unknown signature))

abbrev pub sign_and_send :
    Mode
    → Answers
    → Limiter
    → Reservation
    → ℕ
    → Option ℕ
    → Result CosignError ℤ
    → Limiter × Result CosignError Cosigned
sign_and_send mode answers s r fee signature (err e) = (s, err e)
sign_and_send mode answers s r fee none (ok spent) = (s, err signing_failed)
sign_and_send mode answers s r fee (some signature) (ok spent) =
    send mode s r spent fee signature answers.sending

unfoldable pub cosign_and_send :
    Mode → SpendBounds → Answers → ℕ → Limiter → Reservation → Limiter × Result CosignError Cosigned
cosign_and_send mode bounds answers fee s r =
    sign_and_send mode answers s r fee answers.signature (check_spend bounds answers)

-- `catch (e) { reservation.cancel(); throw e; }`.
abbrev pub cancel_on_error :
    Reservation → Limiter × Result CosignError Cosigned → Limiter × Result CosignError Cosigned
cancel_on_error r (s, ok result) = (s, ok result)
cancel_on_error r (s, err e) = (cancel s r, err e)

pub record SetupDeps (Wire : Type 0) : Type 0 where
  pub encode : Wire → Option (List ℕ)
  pub decode : List ℕ → Option DecodedTransaction
  pub verify : ℕ → ℕ → List ℕ → Bool
  pub treasury : ℕ
  pub mode : Mode
  pub limits : LimitConfig
  pub max_compute_units : ℕ
  pub max_cu_price_micro_lamports : ℕ
  pub max_fee_lamports : ℕ
  pub max_tx_bytes : ℕ
  pub max_instructions : ℕ
  pub max_rent_lamports : ℕ

module _ {Wire : Type 0} (deps : SetupDeps Wire) where
  abbrev pub setup_policy : List ℕ → SponsorPolicy
  setup_policy allowlist = record {
    allowlist = allowlist;
    max_compute_units = deps.max_compute_units;
    max_cu_price_micro_lamports = deps.max_cu_price_micro_lamports;
    max_fee_lamports = deps.max_fee_lamports;
  }

  unfoldable pub check_setup : InspectedTransaction → ℕ → Result Rejection ℕ
  check_setup tx wallet = do
    assert_programs_allowed tx confidential_setup_allowlist
    assert_only_sponsor_signature_missing tx deps.treasury
    assert_present_signatures_valid deps.verify tx
    assert_confidential_setup_shape tx deps.treasury
    fee ← assert_compute_budget_within_policy tx (setup_policy confidential_setup_allowlist)
    refuse_if (wallet == deps.treasury || not (signs_itself tx wallet deps.treasury))
        wallet_mismatch
    ok fee

  -- The checks in front of the reservation; the value is the worst-case fee.
  unfoldable pub approve_setup : Wire → ℕ → Result Rejection ℕ
  approve_setup wire wallet = do
    tx ← inspect_transaction deps.encode deps.decode wire deps.max_tx_bytes deps.max_instructions
    check_setup tx wallet

  abbrev pub setup_bounds : SpendBounds
  setup_bounds = record { max_spend = deps.max_rent_lamports; allow_credit = false }

  abbrev pub setup_reserved :
      Answers → ℕ → Limiter × Result Scope Reservation → Limiter × Result CosignError Cosigned
  setup_reserved answers fee (s, err scope) = (s, err (refused rate_limited))
  setup_reserved answers fee (s, ok r) =
      cancel_on_error r (cosign_and_send deps.mode setup_bounds answers fee s r)

  abbrev pub setup_approved :
      Limiter → Answers → ℕ → ℕ → Result Rejection ℕ → Limiter × Result CosignError Cosigned
  setup_approved s answers wallet now (err e) = (s, err (refused e))
  setup_approved s answers wallet now (ok fee) =
      setup_reserved answers fee (reserve deps.limits s wallet (deps.max_rent_lamports + fee) now)

  unfoldable pub sponsor_confidential_account_setup :
      Limiter → Answers → Wire → ℕ → ℕ → Limiter × Result CosignError Cosigned
  sponsor_confidential_account_setup s answers wire wallet now =
      setup_approved s answers wallet now (approve_setup wire wallet)
