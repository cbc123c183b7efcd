-- ===== src/RentShape/Examples.antt =====
-- The last transaction of a rent payment, with the create of a range-proof context in front of it.
use relstate.Common.{ℕ, ◌≡◌, refl, ◌≤◌, List, [], ◌∷◌, Bool, true, false, Option, ok, err, All}
use relstate.Programs.{
  relstate_program, token_2022_program, zk_elgamal_proof_program, system_program,
}
use relstate.Transaction.{
  legacy, AccountRole, InspectedInstruction, InspectedTransaction, unverified_context,
  missing_transfer,
}
use relstate.Transaction.Budget.{little_endian}
use relstate.Transaction.Policy.{same_bytes}
use relstate.RentShape.{
  RentPaymentRules, big_endian, create_tag, create_lamports, create_space, create_owner,
  is_transfer, last_account, is_initialised_by, check_create, check_proof, check_transfer,
  check_pay_rent, check_instruction, check_instructions, assert_rent_payment_shape,
}
use relstate.RentShape.Confined.{Confined, assert_rent_payment_shape_confines}
use relstate.RentShape.Budgeted.{count_of, funded, assert_rent_payment_shape_binds}

-- The treasury is 1, the tenant 2, the tenant's token account 3, the mint 4 and the context 9.
abbrev rules : RentPaymentRules
rules = record {
  treasury = 1;
  wallet = 2;
  mint = 4;
  wallet_token = 3;
  max_context_lamports = 5_000_000;
  max_context_space = 1_000;
  max_create_accounts = 1;
  range_context_lamports = 2_159_000;
}

abbrev role : ℕ → Bool → AccountRole
role address signs = record { index = 0; address = address; is_signer = signs; is_writable = true }

abbrev instruction : ℕ → ℕ → List AccountRole → List ℕ → InspectedInstruction
instruction index program accounts payload = record {
  index = index;
  program_address = program;
  accounts = accounts;
  payload = payload;
}

abbrev create_payload : List ℕ
create_payload =
    0 ∷ 0 ∷ 0 ∷ 0 ∷ 152 ∷ 241 ∷ 32 ∷ 0 ∷ 0 ∷ 0 ∷ 0 ∷ 0 ∷ 41 ∷ 1 ∷ 0 ∷ 0 ∷ 0 ∷ 0 ∷ 0 ∷ 0 ∷ 8 ∷ 99
    ∷ 117 ∷ 172 ∷ 226 ∷ 174 ∷ 234 ∷ 40 ∷ 26 ∷ 107 ∷ 55 ∷ 77 ∷ 104 ∷ 27 ∷ 167 ∷ 106 ∷ 83 ∷ 204 ∷ 246
    ∷ 56 ∷ 192 ∷ 116 ∷ 85 ∷ 147 ∷ 108 ∷ 5 ∷ 208 ∷ 101 ∷ 64 ∷ 0 ∷ 0 ∷ 0 ∷ []

abbrev pay_rent : List ℕ
pay_rent = 1 ∷ 2 ∷ 3 ∷ 4 ∷ 5 ∷ 6 ∷ 7 ∷ 8 ∷ []

abbrev create : InspectedInstruction
create = instruction 0 system_program (role 1 true ∷ role 9 false ∷ []) create_payload

abbrev transfer : ℕ → InspectedInstruction
transfer i =
    instruction i token_2022_program (role 3 false ∷ role 4 false ∷ role 5 false ∷ role 2 true ∷ [])
      (27 ∷ 7 ∷ [])

abbrev payment : ℕ → InspectedInstruction
payment i =
    instruction i relstate_program (role 2 true ∷ role 6 false ∷ role 4 false ∷ role 3 false ∷ [])
      pay_rent

abbrev close : ℕ → InspectedInstruction
close i =
    instruction i zk_elgamal_proof_program (role 8 false ∷ role 1 false ∷ role 1 true ∷ []) (0 ∷ [])

abbrev transaction : List InspectedInstruction → InspectedTransaction
transaction ixs = record {
  transaction = record {
    message_bytes = [];
    message = record {
      version = legacy;
      num_signer_accounts = 2;
      num_readonly_signer_accounts = 0;
      num_readonly_non_signer_accounts = 0;
      static_accounts = [];
      address_table_lookups = [];
      instructions = [];
    };
    signatures = λ _. Option.none;
  };
  bytes = [];
  accounts = [];
  instructions = ixs;
  fee_payer = 2;
  num_required_signatures = 2;
  missing_signers = [];
}

abbrev rent : InspectedTransaction
rent = transaction (create ∷ transfer 1 ∷ payment 2 ∷ close 3 ∷ [])

tests : Unit {0}
unfolding assert_rent_payment_shape check_instructions check_instruction check_create check_proof
    check_transfer check_pay_rent create_tag create_lamports create_space create_owner is_transfer
    last_account is_initialised_by big_endian little_endian same_bytes funded count_of
tests = tt

rent_tests :
    (assert_rent_payment_shape pay_rent rent rules ≡ ok tt)
    × (assert_rent_payment_shape pay_rent
          (transaction (transfer 0 ∷ close 1 ∷ payment 2 ∷ []))
          rules
        ≡ err missing_transfer)
    × (assert_rent_payment_shape pay_rent
          (transaction (create ∷ []))
          (record rules { range_context_lamports = 2_159_001 })
        ≡ err unverified_context)
    × (funded rent.instructions ≡ 2_159_000)
unfolding tests
rent_tests = (refl, refl, refl, refl)

assert_rent_payment_shape_confines_example : All (Confined rules) rent.instructions
unfolding tests
assert_rent_payment_shape_confines_example =
    assert_rent_payment_shape_confines pay_rent rent rules refl

assert_rent_payment_shape_binds_example : 2_159_000 ≤ 5_000_000
unfolding tests
assert_rent_payment_shape_binds_example =
    (assert_rent_payment_shape_binds pay_rent rent rules refl).0
