-- ===== src/RentRoute/Examples.antt =====
-- Tenant 2 pays the rent; treasury 1 pays for the range-proof context 9.
use relstate.Common.{
  ℕ, suc, ◌≡◌, refl, List, [], ◌∷◌, true, false, none, some, ok, err, arith, ◌==◌, if◌then◌else◌,
  for_each,
}
use relstate.Programs.{relstate_program, token_2022_program, system_program}
use relstate.Limits.{
  create_rate_limiter, usage, snapshot, pruned, check_caps, book, reserve, commit, cancel,
}
use relstate.Limits.Caps.{IsFresh, create_rate_limiter-IsSound}
use relstate.Transaction
use relstate.Transaction.{
  legacy, CompiledInstruction, DecodedTransaction, InspectedTransaction, wallet_mismatch, replay,
  inspect_transaction, inspect_decoded,
}
use relstate.Transaction.Budget.{
  little_endian, assert_compute_budget_within_policy, read_compute_budget, worst_case_fee_lamports,
}
use relstate.Transaction.Policy.{
  same_bytes, assert_programs_allowed, assert_only_sponsor_signature_missing,
  assert_present_signatures_valid,
}
use relstate.RentPlan.{context_use, create_rent_plan_registry, sweep, admit, undo}
use relstate.RentPlan.Ownership.{Inv, create_rent_plan_registry-Inv}
use relstate.RentShape.{
  big_endian, create_tag, create_lamports, create_space, create_owner, is_transfer, last_account,
  is_initialised_by, check_create, check_proof, check_transfer, check_pay_rent, check_instruction,
  check_instructions, assert_rent_payment_shape,
}
use relstate.Treasury.{live}
use relstate.Cosigning.{
  Sending, sent, known_not_landed, unknown, refused, not_landed, bound_spent, check_spend,
  cosign_and_send,
}
use relstate.Cosigning.Spending.{is_booked}
use relstate.RentRoute.{
  RentDeps, RentState, RentAnswers, range_context_rent, sweep_seen, check_signers, check_payment,
  sponsor_rent_payment,
}
use relstate.RentRoute.Ending.{PaymentEnd}
use relstate.RentRoute.Outcome.{rent_payment_ends}
use relstate.RentRoute.Memory.{Request, AllBy}
use relstate.RentRoute.Replay.{request, run, co_signed_once}

abbrev compiled : ℕ → List ℕ → List ℕ → CompiledInstruction
compiled program accounts payload = record {
  program_address_index = program;
  account_indices = some accounts;
  payload = some payload;
}

abbrev create_payload : List ℕ
create_payload =
    0 ∷ 0 ∷ 0 ∷ 0 ∷ 152 ∷ 241 ∷ 32 ∷ 0 ∷ 0 ∷ 0 ∷ 0 ∷ 0 ∷ 41 ∷ 1 ∷ 0 ∷ 0 ∷ 0 ∷ 0 ∷ 0 ∷ 0 ∷ 8 ∷ 99
    ∷ 117 ∷ 172 ∷ 226 ∷ 174 ∷ 234 ∷ 40 ∷ 26 ∷ 107 ∷ 55 ∷ 77 ∷ 104 ∷ 27 ∷ 167 ∷ 106 ∷ 83 ∷ 204 ∷ 246
    ∷ 56 ∷ 192 ∷ 116 ∷ 85 ∷ 147 ∷ 108 ∷ 5 ∷ 208 ∷ 101 ∷ 64 ∷ 0 ∷ 0 ∷ 0 ∷ []

abbrev pay_rent : List ℕ
pay_rent = 1 ∷ 2 ∷ 3 ∷ 4 ∷ 5 ∷ 6 ∷ 7 ∷ 8 ∷ []

-- The create of the context, the transfer, the payment, and the close of context 8.
abbrev payment : DecodedTransaction
payment = record {
  message_bytes = 9 ∷ [];
  message = record {
    version = legacy;
    num_signer_accounts = 2;
    num_readonly_signer_accounts = 0;
    num_readonly_non_signer_accounts = 4;
    static_accounts =
        1 ∷ 2 ∷ 3 ∷ 4 ∷ 5 ∷ 6 ∷ 9 ∷ system_program ∷ token_2022_program ∷ relstate_program ∷ [];
    address_table_lookups = [];
    instructions =
        compiled 7 (0 ∷ 6 ∷ []) create_payload
        ∷ compiled 8 (2 ∷ 3 ∷ 4 ∷ 1 ∷ []) (27 ∷ 7 ∷ [])
        ∷ compiled 9 (1 ∷ 5 ∷ 3 ∷ 2 ∷ []) pay_rent
        ∷ [];
  };
  signatures = λ a. if a == 2 then some 77 else none;
}

abbrev deps : RentDeps ℕ
deps = record {
  setup = record {
    encode = λ w. some (w ∷ []);
    decode = λ _. some payment;
    verify = λ address signature _. signature == 77;
    treasury = 1;
    mode = live;
    limits = record {
      max_per_wallet_per_hour = 2;
      max_global_per_hour = 3;
      max_lamports_per_wallet_per_day = 500_000;
      max_lamports_global_per_day = 700_000;
    };
    max_compute_units = 1_400_000;
    max_cu_price_micro_lamports = 10;
    max_fee_lamports = 20_000;
    max_tx_bytes = 1_232;
    max_instructions = 16;
    max_rent_lamports = 300_000;
  };
  pay_rent = pay_rent;
  mint = 4;
  token_of = λ w. suc w;
  hash = λ bytes. big_endian 0 bytes;
  rent_limits = record {
    max_per_wallet_per_hour = 10;
    max_global_per_hour = 30;
    max_lamports_per_wallet_per_day = 20_000_000;
    max_lamports_global_per_day = 90_000_000;
  };
  max_context_lamports = 5_000_000;
  max_context_space = 1_000;
  max_create_accounts = 1;
  max_spend_lamports = 6_000_000;
}

abbrev start : RentState
start = record {
  limiter = create_rate_limiter;
  plans = create_rent_plan_registry;
  seen = [];
  range_rent = none;
}

start-IsFresh : IsFresh start.limiter
start-IsFresh = (create_rate_limiter-IsSound deps.rent_limits 0).fresh

start-Inv : Inv start.plans
start-Inv = create_rent_plan_registry-Inv

abbrev answers : Sending → RentAnswers
answers sending = record {
  rent = some 2_159_000;
  has_token = some true;
  cosigning = record {
    balance_before = some 10_000_000;
    simulation = some (record { is_failed = false; treasury_lamports = some 7_800_000 });
    balance_after = some 10_000_000;
    signature = some 5;
    sending = sending;
  };
}

abbrev at_once : Request ℕ
at_once = record { answers = answers sent; wire = 0; wallet = 2; now = 1_000 }

abbrev later : Request ℕ
later = record { answers = answers sent; wire = 1; wallet = 2; now = 200_000 }

tests : Unit {0}
unfolding sponsor_rent_payment check_payment check_signers sweep_seen range_context_rent
    cosign_and_send check_spend bound_spent inspect_transaction inspect_decoded Transaction.assemble
    Transaction.account_roles Transaction.resolve_from assert_programs_allowed
    assert_only_sponsor_signature_missing assert_present_signatures_valid
    assert_compute_budget_within_policy read_compute_budget worst_case_fee_lamports
    assert_rent_payment_shape check_instructions check_instruction check_create check_proof
    check_transfer check_pay_rent create_tag create_lamports create_space create_owner is_transfer
    last_account is_initialised_by big_endian little_endian same_bytes context_use
    create_rent_plan_registry sweep admit undo for_each create_rate_limiter reserve commit cancel
    usage snapshot pruned check_caps book run AllBy
tests = tt

payment_tests :
    (is_booked (request deps start at_once).1 ≡ true)
    × ((usage (request deps start at_once).0.limiter 2 2_000).wallet_lamports_last_day ≡ 2_210_000)
    × ((request deps (request deps start at_once).0 later).1 ≡ err (refused replay))
    × ((request deps start (record at_once { answers = answers known_not_landed })).1
        ≡ err not_landed)
    × ((request deps start (record at_once { answers = answers known_not_landed })).0.seen ≡ [])
    × ((request deps start (record at_once { wallet = 1 })).1 ≡ err (refused wallet_mismatch))
unfolding tests
payment_tests = (refl, refl, refl, refl, refl, refl)

rent_payment_ends_example :
    PaymentEnd deps start
      (answers unknown)
      0
      2
      1_000
      start-IsFresh
      start-Inv
      (sponsor_rent_payment deps start (answers unknown) 0 2 1_000)
rent_payment_ends_example =
    rent_payment_ends deps start (answers unknown) 0 2 1_000 start-IsFresh start-Inv

signed :
    (tx : InspectedTransaction) × (check_signers deps 0 2 ≡ ok tx)
    × (check_signers deps 1 2 ≡ ok (record tx { bytes = 1 ∷ [] }))
unfolding tests
signed = (_, refl, refl)

may : is_booked (request deps start at_once).1 ≡ true
unfolding tests
may = refl

soon : AllBy 301_000 (later ∷ [])
unfolding tests
soon = (omega arith, tt)

co_signed_once_example :
    is_booked (request deps (run deps (request deps start at_once).0 (later ∷ [])) later).1 ≡ false
co_signed_once_example =
    co_signed_once deps start at_once later (later ∷ []) signed.0
      (record signed.0 { bytes = 1 ∷ [] }) start-IsFresh start-Inv signed.1 signed.2 refl soon
      (omega arith) may
