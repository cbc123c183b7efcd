-- ===== src/Transaction/Examples.antt =====
-- A verdict with the create of the appraiser's token account in front of it.
use relstate.Common.{
  ℕ, ◌≡◌, refl, none, some, List, [], ◌∷◌, ok, err, arith, length, keep, ◌==◌, if◌then◌else◌,
  for_each,
}
use relstate.Programs.{
  relstate_program, token_2022_program, associated_token_program, system_program,
  compute_budget_program, sponsor_allowlist,
}
use relstate.Transaction
use relstate.Transaction.{
  legacy, CompiledInstruction, CompiledMessage, DecodedTransaction, InspectedTransaction,
  account_roles, inspect_decoded, too_many_instructions, sponsor_in_instruction,
  malformed_compute_budget, compute_price,
}
use relstate.Transaction.Budget.{
  SponsorPolicy, assert_compute_budget_within_policy, read_compute_budget, worst_case_fee_lamports,
}
use relstate.Transaction.Policy.{
  same_bytes, assert_programs_allowed, assert_only_sponsor_signature_missing,
}
use relstate.Transaction.FeePayer.{
  sponsor_funded_ata_instructions, assert_sponsor_not_used_by_instructions, exempt_for, exempt_from,
  is_exempt, assert_sponsor_not_used_by,
}
use relstate.Transaction.Confinement.{Numbered}
use relstate.Transaction.Roles.{inspect_decoded_sound, account_roles_counts}

abbrev verdict : List ℕ
verdict = 1 ∷ 2 ∷ 3 ∷ 4 ∷ 5 ∷ 6 ∷ 7 ∷ 8 ∷ []

abbrev ix : ℕ → List ℕ → List ℕ → CompiledInstruction
ix program accounts payload = record {
  program_address_index = program;
  account_indices = some accounts;
  payload = some payload;
}

-- The sponsor is 1, the appraiser 2, the token account 3 and the mint 4.
abbrev message : CompiledMessage
message = record {
  version = legacy;
  num_signer_accounts = 2;
  num_readonly_signer_accounts = 0;
  num_readonly_non_signer_accounts = 6;
  static_accounts =
      1 ∷ 2 ∷ 3 ∷ 4 ∷ system_program ∷ token_2022_program ∷ associated_token_program
      ∷ relstate_program ∷ compute_budget_program ∷ [];
  address_table_lookups = [];
  instructions =
      ix 8 [] (2 ∷ 64 ∷ 13 ∷ 3 ∷ 0 ∷ [])
      ∷ ix 6 (0 ∷ 2 ∷ 1 ∷ 3 ∷ 4 ∷ 5 ∷ []) (1 ∷ [])
      ∷ ix 7 (1 ∷ 5 ∷ 5 ∷ 3 ∷ 5 ∷ 5 ∷ 5 ∷ 5 ∷ 2 ∷ 5 ∷ 5 ∷ 5 ∷ []) verdict
      ∷ [];
}

abbrev decoded : DecodedTransaction
decoded = record {
  message_bytes = 0 ∷ [];
  message = message;
  signatures = λ a. if a == 2 then some 99 else none;
}

abbrev or_blank : DecodedTransaction → InspectedTransaction
or_blank t = elim (inspect_decoded (0 ∷ []) 16 t) [
  | ok tx ↦ tx
  | err _ ↦ record {
    transaction = t;
    bytes = [];
    accounts = [];
    instructions = [];
    fee_payer = 0;
    num_required_signatures = 0;
    missing_signers = [];
  }
]

abbrev tx : InspectedTransaction
tx = or_blank decoded

abbrev policy : SponsorPolicy
policy = record {
  allowlist = sponsor_allowlist;
  max_compute_units = 400_000;
  max_cu_price_micro_lamports = 10;
  max_fee_lamports = 20_000;
}

tests : Unit {0}
unfolding inspect_decoded Transaction.assemble Transaction.account_roles Transaction.resolve_from
    assert_compute_budget_within_policy read_compute_budget worst_case_fee_lamports
    assert_programs_allowed assert_only_sponsor_signature_missing sponsor_funded_ata_instructions
    exempt_for exempt_from is_exempt assert_sponsor_not_used_by_instructions
    assert_sponsor_not_used_by for_each same_bytes
tests = tt

sponsor_tests :
    (inspect_decoded (0 ∷ []) 16 decoded ≡ ok tx)
    × (inspect_decoded (0 ∷ []) 2 decoded ≡ err too_many_instructions)
    × (assert_programs_allowed tx sponsor_allowlist ≡ ok tt)
    × (assert_only_sponsor_signature_missing tx 1 ≡ ok tt)
    × (sponsor_funded_ata_instructions verdict tx 1 ≡ 1 ∷ [])
    × (assert_sponsor_not_used_by_instructions tx 1 (1 ∷ []) ≡ ok tt)
    × (assert_sponsor_not_used_by_instructions tx 1 [] ≡ err sponsor_in_instruction)
    × (assert_compute_budget_within_policy tx policy ≡ ok 10_000)
unfolding tests
sponsor_tests = (refl, refl, refl, refl, refl, refl, refl, refl)

inspect_decoded_sound_example : Numbered 0 tx.instructions
unfolding tests
inspect_decoded_sound_example = (inspect_decoded_sound (0 ∷ []) 16 decoded tx refl).2

account_roles_counts_example :
    (length (keep (λ a. a.is_signer) (account_roles message)) ≡ 2)
    × (length (keep (λ a. a.is_writable) (account_roles message)) ≡ 3)
account_roles_counts_example = account_roles_counts message (omega arith) (omega arith)
