-- ===== src/ConfidentialSetup/Examples.antt =====
-- A setup that treasury 1 pays for, for wallet 2.
use relstate.Common.{ℕ, ◌≡◌, refl, List, [], ◌∷◌, true, Option, ok, err, All, for_each}
use relstate.Programs.{token_2022_program, associated_token_program, zk_elgamal_proof_program}
use relstate.Transaction.{
  legacy, AccountRole, InspectedInstruction, InspectedTransaction, instruction_not_allowed,
}
use relstate.ConfidentialSetup.{
  find_index, count_named, check_setup_instruction, assert_confidential_setup_shape,
}
use relstate.ConfidentialSetup.Funding.{
  IsPermitted, PaysTokens, assert_confidential_setup_shape_sound,
}

abbrev role : ℕ → AccountRole
role address = record { index = 0; address = address; is_signer = true; is_writable = true }

abbrev instruction : ℕ → ℕ → List AccountRole → List ℕ → InspectedInstruction
instruction index program accounts payload = record {
  index = index;
  program_address = program;
  accounts = accounts;
  payload = payload;
}

abbrev transaction : List InspectedInstruction → InspectedTransaction
transaction ixs = record {
  transaction = record {
    message_bytes = [];
    message = record {
      version = legacy;
      num_signer_accounts = 2;
      num_readonly_signer_accounts = 0;
      num_readonly_non_signer_accounts = 0;
      static_accounts = [];
      address_table_lookups = [];
      instructions = [];
    };
    signatures = λ _. Option.none;
  };
  bytes = [];
  accounts = [];
  instructions = ixs;
  fee_payer = 1;
  num_required_signatures = 2;
  missing_signers = [];
}

abbrev create : InspectedInstruction
create = instruction 0 associated_token_program (role 1 ∷ role 3 ∷ role 2 ∷ []) []

abbrev reallocate : InspectedInstruction
reallocate = instruction 1 token_2022_program (role 3 ∷ role 1 ∷ role 0 ∷ role 2 ∷ []) (29 ∷ [])

abbrev configure : InspectedInstruction
configure = instruction 2 token_2022_program (role 3 ∷ role 4 ∷ role 2 ∷ []) (27 ∷ 2 ∷ [])

abbrev setup : InspectedTransaction
setup = transaction (create ∷ reallocate ∷ configure ∷ [])

-- CloseContextState of the proof program, with the treasury as the authority of the context.
abbrev close_context : InspectedInstruction
close_context = instruction 0 zk_elgamal_proof_program (role 5 ∷ role 3 ∷ role 1 ∷ []) (0 ∷ [])

tests : Unit {0}
unfolding find_index count_named check_setup_instruction assert_confidential_setup_shape for_each
tests = tt

setup_tests :
    (assert_confidential_setup_shape setup 1 ≡ ok tt)
    × (assert_confidential_setup_shape setup 2 ≡ err instruction_not_allowed)
    × (assert_confidential_setup_shape
          (transaction
            (instruction 0 token_2022_program (role 3 ∷ role 4 ∷ role 1 ∷ []) (27 ∷ 2 ∷ []) ∷ []))
          1
        ≡ err instruction_not_allowed)
    × (assert_confidential_setup_shape (transaction (close_context ∷ [])) 1 ≡ ok tt)
unfolding tests
setup_tests = (refl, refl, refl, refl)

assert_confidential_setup_shape_sound_example :
    All (λ ix. IsPermitted ix × PaysTokens 1 ix) setup.instructions
unfolding tests
assert_confidential_setup_shape_sound_example = assert_confidential_setup_shape_sound setup 1 refl
