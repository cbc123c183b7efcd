-- ===== src/Sponsor/Examples.antt =====
-- A memo that wallet 2 signed, sponsored by fee payer 1.
use relstate.Common.{
  ℕ, ◌≡◌, refl, [], ◌∷◌, Bool, true, false, none, some, Option, ok, err, arith, ◌==◌, if◌then◌else◌,
  for_each,
}
use relstate.Programs.{memo_program, sponsor_allowlist}
use relstate.Limits.{Limiter, create_rate_limiter, usage, reserve}
use relstate.Limits.Caps.{IsFresh, create_rate_limiter-IsSound}
use relstate.Transaction
use relstate.Transaction.{
  legacy, DecodedTransaction, wallet_is_sponsor, simulation_failed, inspect_transaction,
  inspect_decoded,
}
use relstate.Transaction.Budget.{
  assert_compute_budget_within_policy, read_compute_budget, worst_case_fee_lamports,
}
use relstate.Transaction.Policy.{
  assert_programs_allowed, assert_relstate_instructions_allowed,
  assert_only_sponsor_signature_missing, assert_present_signatures_valid,
}
use relstate.Transaction.FeePayer.{
  sponsor_funded_ata_instructions, assert_sponsor_not_used_by_instructions, exempt_for,
  assert_sponsor_not_used_by,
}
use relstate.Sponsor.{
  SponsorDeps, Outcomes, SponsorResult, Simulation, blockhash_not_found, other_failure, rejected,
  send_failed, Approval, approve, approve_inspected, approve_wallet, signs_itself, simulate_from,
  check_simulation, cosign, settle, sponsor,
}
use relstate.Sponsor.Booking.{sponsor_refusal-usage, sponsor_books}

abbrev memo : DecodedTransaction
memo = record {
  message_bytes = 9 ∷ [];
  message = record {
    version = legacy;
    num_signer_accounts = 2;
    num_readonly_signer_accounts = 0;
    num_readonly_non_signer_accounts = 1;
    static_accounts = 1 ∷ 2 ∷ memo_program ∷ [];
    address_table_lookups = [];
    instructions =
        record {
          program_address_index = 2;
          account_indices = some (1 ∷ []);
          payload = some (104 ∷ 105 ∷ []);
        }
        ∷ [];
  };
  signatures = λ a. if a == 2 then some 77 else none;
}

abbrev deps : SponsorDeps ℕ
deps = record {
  encode = λ w. some (w ∷ []);
  decode = λ _. some memo;
  verify = λ address signature _. signature == 77;
  sponsorable = [];
  verdict = 8 ∷ [];
  fee_payer = 1;
  limits = record {
    max_per_wallet_per_hour = 2;
    max_global_per_hour = 3;
    max_lamports_per_wallet_per_day = 50_000;
    max_lamports_global_per_day = 70_000;
  };
  policy = record {
    allowlist = sponsor_allowlist;
    max_compute_units = 400_000;
    max_cu_price_micro_lamports = 10;
    max_fee_lamports = 20_000;
  };
  max_tx_bytes = 1_232;
  max_instructions = 16;
  broadcast = true;
  simulate = true;
}

abbrev passing : Option Simulation
passing = some (record { failure = none; units_consumed = some 1_000 })

-- The blockhash is unknown to the node for two attempts.
abbrev outcomes : Bool → Outcomes
outcomes is_sent = record {
  simulations = λ i.
      if i == 2
      then passing
      else some (record { failure = some blockhash_not_found; units_consumed = none });
  signature = some 5;
  is_sent = is_sent;
}

abbrev start : Limiter
start = create_rate_limiter

start-IsFresh : IsFresh start
start-IsFresh = (create_rate_limiter-IsSound deps.limits 0).fresh

abbrev booked : Limiter
booked = (reserve deps.limits start 2 10_000 1_000).0

tests : Unit {0}
unfolding sponsor settle cosign check_simulation simulate_from approve approve_inspected
    approve_wallet signs_itself inspect_transaction inspect_decoded Transaction.assemble
    Transaction.account_roles Transaction.resolve_from assert_programs_allowed
    assert_relstate_instructions_allowed assert_only_sponsor_signature_missing
    assert_present_signatures_valid sponsor_funded_ata_instructions
    assert_sponsor_not_used_by_instructions exempt_for assert_sponsor_not_used_by
    assert_compute_budget_within_policy read_compute_budget worst_case_fee_lamports reserve
    create_rate_limiter for_each
tests = tt

abbrev result : SponsorResult
result = record {
  signature = 5;
  broadcast = true;
  fee_lamports = 10_000;
  units_consumed = some 1_000;
}

sponsor_tests :
    ((sponsor deps start (outcomes true) 0 2 1_000).1 ≡ ok result)
    × ((sponsor deps start (outcomes false) 0 2 1_000).1 ≡ err send_failed)
    × ((sponsor deps start (outcomes true) 0 1 1_000).1 ≡ err (rejected wallet_is_sponsor))
    × ((sponsor deps start
          (record (outcomes true) {
            simulations =
                λ _. some (record { failure = some other_failure; units_consumed = none });
          })
          0
          2
          1_000).1
        ≡ err (rejected simulation_failed))
unfolding tests
sponsor_tests = (refl, refl, refl, refl)

sponsor_refusal-usage_example :
    usage (sponsor deps start (outcomes false) 0 2 1_000).0 2 5_000 ≡ usage start 2 5_000
unfolding tests
sponsor_refusal-usage_example =
    sponsor_refusal-usage deps start (outcomes false) 0 2 1_000 start-IsFresh _ send_failed refl 2
      5_000 (omega arith)

sponsor_books_example : (a : Approval) × (approve deps 0 2 ≡ ok a)
unfolding tests
sponsor_books_example =
    let (a, ok_a, _, _, _) =
      sponsor_books deps start (outcomes true) 0 2 1_000 start-IsFresh _ result refl in
    (a, ok_a)
