-- ===== src/Sponsor.antt =====
-- backend/src/sponsor.ts: the service that co-signs a client's transaction as its fee payer.
-- Decoding, signature checks and the two discriminators come with the dependencies, and so do the
-- outcomes of the calls to the cluster and of signing. One request runs at a time here.
pub mod Approving
pub mod Booking
mod Examples
use relstate.Common.{
  ℕ, zero, suc, ◌+◌, Bool, true, false, not, ◌&&◌, List, Option, none, some, Result, ok, err, ◌>>=◌,
  ◌>>◌, refuse_if, ltb, ◌==◌, if◌then◌else◌, length, any,
}
use relstate.Limits.{LimitConfig, Limiter, Scope, Reservation, reserve, commit, cancel}
use relstate.Transaction.{
  Rejection, DecodedTransaction, InspectedTransaction, inspect_transaction, wallet_is_sponsor,
  wallet_mismatch, simulation_failed, compute_limit,
}
use relstate.Transaction.Budget.{SponsorPolicy, exceeds, assert_compute_budget_within_policy}
use relstate.Transaction.Policy.{
  assert_programs_allowed, assert_relstate_instructions_allowed,
  assert_only_sponsor_signature_missing, assert_present_signatures_valid,
}
use relstate.Transaction.FeePayer.{
  sponsor_funded_ata_instructions, assert_sponsor_not_used_by_instructions,
}

abbrev pub ata_rent_lamports : ℕ
ata_rent_lamports = 2_100_000

pub record SponsorDeps (Wire : Type 0) : Type 0 where
  pub encode : Wire → Option (List ℕ)
  pub decode : List ℕ → Option DecodedTransaction
  pub verify : ℕ → ℕ → List ℕ → Bool
  pub sponsorable : List (List ℕ)
  pub verdict : List ℕ
  pub fee_payer : ℕ
  pub limits : LimitConfig
  pub policy : SponsorPolicy
  pub max_tx_bytes : ℕ
  pub max_instructions : ℕ
  pub broadcast : Bool
  pub simulate : Bool

pub data SimulationError : Type 0 where
  blockhash_not_found other_failure : SimulationError

pub record Simulation : Type 0 where
  pub failure : Option SimulationError
  pub units_consumed : Option ℕ

-- What the calls give: the simulation of each attempt, the signature, and whether the cluster takes
-- the transaction. `none` and `false` stand for calls that throw.
pub record Outcomes : Type 0 where
  pub simulations : ℕ → Option Simulation
  pub signature : Option ℕ
  pub is_sent : Bool

pub data SponsorError : Type 0 where
  rejected : Rejection → SponsorError
  limited : Scope → SponsorError
  rpc_failed signing_failed send_failed : SponsorError

pub record SponsorResult : Type 0 where
  pub signature : ℕ
  pub broadcast : Bool
  pub fee_lamports : ℕ
  pub units_consumed : Option ℕ

-- A transaction that passed the checks, its worst-case fee, and what is booked for it.
pub record Approval : Type 0 where
  pub tx : InspectedTransaction
  pub worst_case_fee : ℕ
  pub booked_lamports : ℕ

unfoldable pub signs_itself : InspectedTransaction → ℕ → ℕ → Bool
signs_itself tx wallet fee_payer =
    any (λ a. a.is_signer && (a.address == wallet && not (a.address == fee_payer))) tx.accounts

module _ {Wire : Type 0} (deps : SponsorDeps Wire) where
  -- The end of the checks: the session wallet, and what is booked.
  unfoldable pub approve_wallet : InspectedTransaction → ℕ → ℕ → Result Rejection Approval
  approve_wallet tx wallet fee = do
    refuse_if (wallet == deps.fee_payer) wallet_is_sponsor
    refuse_if (not (signs_itself tx wallet deps.fee_payer)) wallet_mismatch
    let exempt = sponsor_funded_ata_instructions deps.verdict tx deps.fee_payer
    ok (record {
      tx = tx;
      worst_case_fee = fee;
      booked_lamports = fee + (if ltb 0 (length exempt) then ata_rent_lamports else 0);
    })

  unfoldable pub approve_inspected : InspectedTransaction → ℕ → Result Rejection Approval
  approve_inspected tx wallet = do
    assert_programs_allowed tx deps.policy.allowlist
    assert_relstate_instructions_allowed deps.sponsorable tx
    let exempt = sponsor_funded_ata_instructions deps.verdict tx deps.fee_payer
    assert_sponsor_not_used_by_instructions tx deps.fee_payer exempt
    assert_only_sponsor_signature_missing tx deps.fee_payer
    assert_present_signatures_valid deps.verify tx
    fee ← assert_compute_budget_within_policy tx deps.policy
    approve_wallet tx wallet fee

  -- The checks in front of the reservation.
  unfoldable pub approve : Wire → ℕ → Result Rejection Approval
  approve wire wallet = do
    tx ← inspect_transaction deps.encode deps.decode wire deps.max_tx_bytes deps.max_instructions
    approve_inspected tx wallet

  -- The retry loop, with `left` attempts after this one.
  unfoldable pub simulate_from : Outcomes → ℕ → ℕ → Option Simulation
  simulate_from outcomes zero attempt = outcomes.simulations attempt
  simulate_from outcomes (suc left) attempt = elim (outcomes.simulations attempt) [
    | none ↦ none
    | some s ↦ elim s.failure [
      | some blockhash_not_found ↦ simulate_from outcomes left (suc attempt)
      | _ ↦ some s
    ]
  ]

  -- The simulation gate; its value is `unitsConsumed`.
  unfoldable pub check_simulation : Outcomes → Result SponsorError (Option ℕ)
  unfolding simulate_from
  check_simulation outcomes =
      if deps.simulate
      then elim (simulate_from outcomes 4 0) [
        | none ↦ err rpc_failed
        | some s ↦ elim s.failure [
          | some _ ↦ err (rejected simulation_failed)
          | none ↦
              refuse_if (exceeds s.units_consumed deps.policy.max_compute_units)
                (rejected compute_limit)
              >> ok s.units_consumed
        ]
      ]
      else ok none

  -- The `try` block.
  unfoldable pub cosign : Outcomes → Approval → Result SponsorError SponsorResult
  cosign outcomes approval = do
    units ← check_simulation outcomes
    elim outcomes.signature [
      | none ↦ err signing_failed
      | some signature ↦
          refuse_if (deps.broadcast && not outcomes.is_sent) send_failed
          >> ok (record {
            signature = signature;
            broadcast = deps.broadcast;
            fee_lamports = approval.worst_case_fee;
            units_consumed = units;
          })
    ]

  -- Both successful ends commit what was booked; the `catch` cancels.
  unfoldable pub settle :
      Limiter
      → Reservation
      → ℕ
      → Result SponsorError SponsorResult
      → Limiter × Result SponsorError SponsorResult
  settle s r booked (ok result) = (commit s r booked, ok result)
  settle s r booked (err e) = (cancel s r, err e)

  abbrev pub sponsor_reserved :
      Outcomes
      → Approval
      → Limiter × Result Scope Reservation
      → Limiter × Result SponsorError SponsorResult
  sponsor_reserved outcomes approval (s, err scope) = (s, err (limited scope))
  sponsor_reserved outcomes approval (s, ok r) =
      settle s r approval.booked_lamports (cosign outcomes approval)

  abbrev pub sponsor_approved :
      Limiter
      → Outcomes
      → ℕ
      → ℕ
      → Result Rejection Approval
      → Limiter × Result SponsorError SponsorResult
  sponsor_approved s outcomes wallet now (err e) = (s, err (rejected e))
  sponsor_approved s outcomes wallet now (ok approval) =
      sponsor_reserved outcomes approval (reserve deps.limits s wallet approval.booked_lamports now)

  unfoldable pub sponsor :
      Limiter → Outcomes → Wire → ℕ → ℕ → Limiter × Result SponsorError SponsorResult
  sponsor s outcomes wire wallet now = sponsor_approved s outcomes wallet now (approve wire wallet)
