-- ===== src/ConfidentialSetup.antt =====
-- backend/src/treasury.ts, assertConfidentialSetupShape: where the treasury may stand in the setup
-- of a confidential account that it pays for.
pub mod Funding
mod Examples
use relstate.Common.{
  ℕ, suc, ◌+◌, Bool, true, false, not, ◌&&◌, ◌||◌, List, [], ◌∷◌, Option, none, some, Result, ok,
  err, ◌>>◌, refuse_if, ltb, ◌==◌, if◌then◌else◌, length, get_elem?, keep, for_each,
}
use relstate.Programs.{
  token_2022_program, associated_token_program, zk_elgamal_proof_program, compute_budget_program,
}
use relstate.Transaction.{
  Rejection, AccountRole, InspectedInstruction, InspectedTransaction, instruction_not_allowed,
}
use relstate.Transaction.FeePayer.{same_option}

abbrev pub token_2022_reallocate : ℕ
token_2022_reallocate = 29

abbrev pub token_2022_confidential_transfer : ℕ
token_2022_confidential_transfer = 27

abbrev pub ct_configure_account : ℕ
ct_configure_account = 2

abbrev pub ata_create : ℕ
ata_create = 0

abbrev pub ata_create_idempotent_tag : ℕ
ata_create_idempotent_tag = 1

abbrev pub next_index : Option ℕ → Option ℕ
next_index none = none
next_index (some i) = some (suc i)

-- `findIndex`; -1 is none.
unfoldable pub find_index : ℕ → List AccountRole → Option ℕ
find_index treasury [] = none
find_index treasury (a ∷ rest) =
    let later = find_index treasury rest in
    if a.address == treasury then some 0 else next_index later

unfoldable pub count_named : ℕ → List AccountRole → ℕ
count_named treasury accounts = length (keep (λ a. a.address == treasury) accounts)

-- `treasuryAt !== -1`.
abbrev pub is_found : Option ℕ → Bool
is_found none = false
is_found (some i) = true

abbrev pub is_reallocate : InspectedInstruction → Bool
is_reallocate ix = same_option (get_elem? ix.payload 0) (some token_2022_reallocate)

abbrev pub is_configure : InspectedInstruction → Bool
is_configure ix =
    same_option (get_elem? ix.payload 0) (some token_2022_confidential_transfer)
    && same_option (get_elem? ix.payload 1) (some ct_configure_account)

-- `ix.data.length === 0 ? ATA_CREATE : ix.data[0]`.
abbrev pub ata_tag : List ℕ → ℕ
ata_tag [] = ata_create
ata_tag (tag ∷ rest) = tag

unfoldable pub check_setup_instruction : ℕ → InspectedInstruction → Result Rejection Unit
check_setup_instruction treasury ix =
    let treasury_at = find_index treasury ix.accounts in
    let count = count_named treasury ix.accounts in
    if ix.program_address == token_2022_program
    then (refuse_if (not (is_reallocate ix) && not (is_configure ix)) instruction_not_allowed
        >> refuse_if
            (is_found treasury_at
              && not (is_reallocate ix && (count == 1 && same_option treasury_at (some 1))))
            instruction_not_allowed)
    else if ix.program_address == associated_token_program
    then (refuse_if
          (not (ata_tag ix.payload == ata_create)
            && not (ata_tag ix.payload == ata_create_idempotent_tag))
          instruction_not_allowed
        >> refuse_if
            (ltb 1 count || (is_found treasury_at && not (same_option treasury_at (some 0))))
            instruction_not_allowed)
    else if ix.program_address == zk_elgamal_proof_program
    then ok tt
    else refuse_if (not (ix.program_address == compute_budget_program)) instruction_not_allowed

unfoldable pub assert_confidential_setup_shape : InspectedTransaction → ℕ → Result Rejection Unit
assert_confidential_setup_shape tx treasury =
    for_each (check_setup_instruction treasury) tx.instructions
