-- ===== src/Cosigning/Examples.antt =====
-- Treasury 1 pays for the confidential account 3 of wallet 2.
use relstate.Common.{
  ℕ, ◌≡◌, refl, List, [], ◌∷◌, true, false, none, some, ok, err, pos, ◌==◌, if◌then◌else◌, for_each,
}
use relstate.Programs.{token_2022_program, associated_token_program}
use relstate.Limits.{
  Limiter, create_rate_limiter, usage, snapshot, pruned, check_caps, book, reserve, commit, cancel,
}
use relstate.Limits.Caps.{IsFresh, create_rate_limiter-IsSound}
use relstate.Transaction
use relstate.Transaction.{
  legacy, CompiledInstruction, DecodedTransaction, wallet_mismatch, rent_too_high,
  inspect_transaction, inspect_decoded,
}
use relstate.Transaction.Budget.{
  assert_compute_budget_within_policy, read_compute_budget, worst_case_fee_lamports,
}
use relstate.Transaction.Policy.{
  assert_programs_allowed, assert_only_sponsor_signature_missing, assert_present_signatures_valid,
}
use relstate.Sponsor.{signs_itself}
use relstate.Treasury.{live}
use relstate.ConfidentialSetup.{
  find_index, count_named, check_setup_instruction, assert_confidential_setup_shape,
}
use relstate.Cosigning.{
  SetupDeps, Answers, Sending, sent, known_not_landed, unknown, refused, not_landed,
  outcome_unknown, bound_spent, check_spend, cosign_and_send, check_setup, approve_setup,
  sponsor_confidential_account_setup,
}
use relstate.Cosigning.Setup.{SetupEnd, setup_ends}

abbrev compiled : ℕ → List ℕ → List ℕ → CompiledInstruction
compiled program accounts payload = record {
  program_address_index = program;
  account_indices = some accounts;
  payload = some payload;
}

-- The create, the reallocation and the configuration of the account.
abbrev setup : DecodedTransaction
setup = record {
  message_bytes = 9 ∷ [];
  message = record {
    version = legacy;
    num_signer_accounts = 2;
    num_readonly_signer_accounts = 0;
    num_readonly_non_signer_accounts = 3;
    static_accounts = 1 ∷ 2 ∷ 3 ∷ 4 ∷ 0 ∷ associated_token_program ∷ token_2022_program ∷ [];
    address_table_lookups = [];
    instructions =
        compiled 5 (0 ∷ 2 ∷ 1 ∷ []) []
        ∷ compiled 6 (2 ∷ 0 ∷ 4 ∷ 1 ∷ []) (29 ∷ [])
        ∷ compiled 6 (2 ∷ 3 ∷ 1 ∷ []) (27 ∷ 2 ∷ [])
        ∷ [];
  };
  signatures = λ a. if a == 2 then some 77 else none;
}

abbrev deps : SetupDeps ℕ
deps = record {
  encode = λ w. some (w ∷ []);
  decode = λ _. some setup;
  verify = λ address signature _. signature == 77;
  treasury = 1;
  mode = live;
  limits = record {
    max_per_wallet_per_hour = 2;
    max_global_per_hour = 3;
    max_lamports_per_wallet_per_day = 500_000;
    max_lamports_global_per_day = 700_000;
  };
  max_compute_units = 1_400_000;
  max_cu_price_micro_lamports = 10;
  max_fee_lamports = 20_000;
  max_tx_bytes = 1_232;
  max_instructions = 16;
  max_rent_lamports = 300_000;
}

abbrev start : Limiter
start = create_rate_limiter

start-IsFresh : IsFresh start
start-IsFresh = (create_rate_limiter-IsSound deps.limits 0).fresh

-- The simulation takes `cost` out of the treasury.
abbrev answers : ℕ → Sending → Answers
answers left sending = record {
  balance_before = some 1_000_000;
  simulation = some (record { is_failed = false; treasury_lamports = some left });
  balance_after = some 1_000_000;
  signature = some 5;
  sending = sending;
}

tests : Unit {0}
unfolding sponsor_confidential_account_setup approve_setup check_setup cosign_and_send check_spend
    bound_spent inspect_transaction inspect_decoded Transaction.assemble Transaction.account_roles
    Transaction.resolve_from assert_programs_allowed assert_only_sponsor_signature_missing
    assert_present_signatures_valid assert_compute_budget_within_policy read_compute_budget
    worst_case_fee_lamports find_index count_named check_setup_instruction
    assert_confidential_setup_shape for_each create_rate_limiter reserve commit cancel usage
    snapshot pruned check_caps book signs_itself
tests = tt

setup_tests :
    ((sponsor_confidential_account_setup deps start (answers 800_000 sent) 0 2 1_000).1
      ≡ ok (record { signature = 5; broadcast = true; rent_lamports = pos 200_000 }))
    × ((usage
          (sponsor_confidential_account_setup deps start (answers 800_000 sent) 0 2 1_000).0
          2
          2_000).wallet_lamports_last_day
        ≡ 210_000)
    × ((usage
          (sponsor_confidential_account_setup deps start
            (answers 800_000 known_not_landed)
            0
            2
            1_000).0
          2
          2_000).wallet_lamports_last_day
        ≡ 0)
    × ((usage
          (sponsor_confidential_account_setup deps start (answers 800_000 unknown) 0 2 1_000).0
          2
          2_000).wallet_lamports_last_day
        ≡ 210_000)
    × ((sponsor_confidential_account_setup deps start
          (answers 800_000 known_not_landed)
          0
          2
          1_000).1
        ≡ err not_landed)
    × ((sponsor_confidential_account_setup deps start (answers 800_000 unknown) 0 2 1_000).1
        ≡ err (outcome_unknown 5))
    × ((sponsor_confidential_account_setup deps start (answers 699_999 sent) 0 2 1_000).1
        ≡ err (refused rent_too_high))
    × ((sponsor_confidential_account_setup deps start (answers 800_000 sent) 0 1 1_000).1
        ≡ err (refused wallet_mismatch))
unfolding tests
setup_tests = (refl, refl, refl, refl, refl, refl, refl, refl)

setup_ends_example :
    SetupEnd deps start
      (answers 800_000 unknown)
      0
      2
      1_000
      start-IsFresh
      (sponsor_confidential_account_setup deps start (answers 800_000 unknown) 0 2 1_000)
setup_ends_example = setup_ends deps start (answers 800_000 unknown) 0 2 1_000 start-IsFresh
