-- ===== src/RentShape.antt =====
-- backend/src/rentshape.ts: what a rent-payment transaction that the treasury co-signs may contain.
-- Addresses are numbers, so an owner is the number that 32 bytes spell, big end first. The SHA-256
-- prefix of `pay_rent` is a parameter.
pub mod Inversion
pub mod Confined
pub mod Budgeted
mod Examples
use relstate.Common.{
  ℕ, zero, suc, ◌+◌, ◌*◌, Bool, true, false, not, ◌&&◌, ◌||◌, List, [], ◌∷◌, Option, none, some,
  Result, ok, err, ◌>>=◌, ◌>>◌, refuse_if, ltb, ◌==◌, if◌then◌else◌, length, get_elem?, take, drop,
  any,
}
use relstate.Programs.{
  relstate_program, token_2022_program, zk_elgamal_proof_program, system_program,
  compute_budget_program,
}
use relstate.Transaction.{
  Rejection, AccountRole, InspectedInstruction, InspectedTransaction, address_at,
  program_not_allowed, instruction_not_allowed, context_too_expensive, context_too_large,
  too_many_accounts, unverified_context, close_destination, wrong_context_authority,
  treasury_in_token_instruction, wrong_source, wrong_mint, wrong_authority,
  treasury_in_program_instruction, missing_transfer, compute_budget_accounts,
}
use relstate.Transaction.Budget.{little_endian}
use relstate.Transaction.Policy.{same_bytes}
use relstate.Transaction.FeePayer.{same_option}

abbrev pub rent_payment_allowlist : List ℕ
rent_payment_allowlist =
    system_program ∷ token_2022_program ∷ zk_elgamal_proof_program ∷ relstate_program
    ∷ compute_budget_program ∷ []

abbrev pub create_account_data_length : ℕ
create_account_data_length = 52

abbrev pub ct_extension : ℕ
ct_extension = 27

abbrev pub ct_transfer : ℕ
ct_transfer = 7

abbrev pub zk_close : ℕ
zk_close = 0

abbrev pub zk_max_verify_tag : ℕ
zk_max_verify_tag = 12

abbrev pub max_transfer_data : ℕ
max_transfer_data = 512

abbrev pub range_proof_context_space : ℕ
range_proof_context_space = 297

pub record RentPaymentRules : Type 0 where
  pub treasury : ℕ
  pub wallet : ℕ
  pub mint : ℕ
  pub wallet_token : ℕ
  pub max_context_lamports : ℕ
  pub max_context_space : ℕ
  pub max_create_accounts : ℕ
  pub range_context_lamports : ℕ

-- The counters of the loop.
pub record Tally : Type 0 where
  pub creates : ℕ
  pub transfers : ℕ
  pub pay_rents : ℕ

unfoldable pub big_endian : ℕ → List ℕ → ℕ
big_endian acc [] = acc
big_endian acc (b ∷ bs) = big_endian (256 * acc + b) bs

-- The fields of createAccount: `getUint32(0)`, `getBigUint64(4)`, `getBigUint64(12)`, `subarray(20, 52)`.
unfoldable pub create_tag : InspectedInstruction → ℕ
create_tag ix = little_endian (take 4 ix.payload)

unfoldable pub create_lamports : InspectedInstruction → ℕ
create_lamports ix = little_endian (take 8 (drop 4 ix.payload))

unfoldable pub create_space : InspectedInstruction → ℕ
create_space ix = little_endian (take 8 (drop 12 ix.payload))

unfoldable pub create_owner : InspectedInstruction → ℕ
create_owner ix = big_endian 0 (take 32 (drop 20 ix.payload))

-- `data[i] === b`.
abbrev pub is_byte : InspectedInstruction → ℕ → ℕ → Bool
is_byte ix i b = same_option (get_elem? ix.payload i) (some b)

abbrev pub is_at : InspectedInstruction → ℕ → ℕ → Bool
is_at ix position address = same_option (address_at ix position) (some address)

unfoldable pub is_transfer : InspectedInstruction → Bool
is_transfer ix =
    ix.program_address == token_2022_program
    && (is_byte ix 0 ct_extension && is_byte ix 1 ct_transfer)

-- `treasuryAt.length > 0`.
abbrev pub names : ℕ → InspectedInstruction → Bool
names address ix = any (λ a. a.address == address) ix.accounts

-- `role?.address === address && role.isSigner`.
abbrev pub signs_as : Option AccountRole → ℕ → Bool
signs_as none address = false
signs_as (some a) address = a.address == address && a.is_signer

unfoldable pub last_account : List AccountRole → Option AccountRole
last_account [] = none
last_account (a ∷ []) = some a
last_account (a ∷ b ∷ rest) = last_account (b ∷ rest)

-- `initialisedHere`: a later proof instruction of the transaction writes into the new account.
unfoldable pub is_initialised_by : InspectedInstruction → InspectedInstruction → Bool
is_initialised_by ix other =
    ltb ix.index other.index
    && (other.program_address == zk_elgamal_proof_program
        && (not (is_byte other 0 zk_close) && same_option (address_at other 0) (address_at ix 1)))

-- `tx.instructions[ix.index - 1]`.
abbrev pub instruction_before : List InspectedInstruction → ℕ → Option InspectedInstruction
instruction_before ixs zero = none
instruction_before ixs (suc i) = get_elem? ixs i

abbrev pub is_transfer_before : Option InspectedInstruction → Bool
is_transfer_before none = false
is_transfer_before (some ix) = is_transfer ix

module _ (rules : RentPaymentRules) (ixs : List InspectedInstruction) where
  unfoldable pub check_create : InspectedInstruction → ℕ → Result Rejection Unit
  check_create ix creates = do
    refuse_if (not (length ix.payload == create_account_data_length)) instruction_not_allowed
    refuse_if (not (create_tag ix == 0)) instruction_not_allowed
    refuse_if
        (not (length ix.accounts == 2)
          || (not (is_at ix 0 rules.treasury) || is_at ix 1 rules.treasury))
        instruction_not_allowed
    refuse_if (not (create_owner ix == zk_elgamal_proof_program)) instruction_not_allowed
    refuse_if (ltb rules.max_context_lamports (create_lamports ix)) context_too_expensive
    refuse_if (create_space ix == 0 || ltb rules.max_context_space (create_space ix))
        context_too_large
    refuse_if (ltb rules.max_create_accounts (suc creates)) too_many_accounts
    refuse_if
        (not (any (is_initialised_by ix) ixs)
          && (not (create_space ix == range_proof_context_space)
              || not (create_lamports ix == rules.range_context_lamports)))
        unverified_context

  unfoldable pub check_proof : InspectedInstruction → Result Rejection Unit
  check_proof ix = elim (get_elem? ix.payload 0) [
    | none ↦ err instruction_not_allowed
    | some tag ↦ do
      refuse_if (ltb zk_max_verify_tag tag) instruction_not_allowed
      refuse_if (is_at ix 0 rules.treasury) instruction_not_allowed
      if tag == zk_close
          then refuse_if
              (not (length ix.accounts == 3)
                || (not (is_at ix 1 rules.treasury) || not (is_at ix 2 rules.treasury)))
              close_destination
          else refuse_if (not (length ix.accounts == 2) || not (is_at ix 1 rules.treasury))
              wrong_context_authority
  ]

  unfoldable pub check_transfer : InspectedInstruction → ℕ → Result Rejection Unit
  check_transfer ix transfers = do
    refuse_if (not (is_transfer ix)) instruction_not_allowed
    refuse_if (names rules.treasury ix) treasury_in_token_instruction
    refuse_if (ltb max_transfer_data (length ix.payload)) instruction_not_allowed
    refuse_if (not (is_at ix 0 rules.wallet_token)) wrong_source
    refuse_if (not (is_at ix 1 rules.mint)) wrong_mint
    refuse_if (not (signs_as (last_account ix.accounts) rules.wallet)) wrong_authority
    refuse_if (ltb 1 (suc transfers)) instruction_not_allowed

  unfoldable pub check_pay_rent : List ℕ → InspectedInstruction → ℕ → Result Rejection Unit
  check_pay_rent pay_rent ix pay_rents = do
    refuse_if (not (same_bytes ix.payload pay_rent)) instruction_not_allowed
    refuse_if (names rules.treasury ix) treasury_in_program_instruction
    refuse_if (not (signs_as (get_elem? ix.accounts 0) rules.wallet)) wrong_authority
    refuse_if (not (is_at ix 2 rules.mint) || not (is_at ix 3 rules.wallet_token)) wrong_mint
    refuse_if (not (is_transfer_before (instruction_before ixs ix.index))) missing_transfer
    refuse_if (ltb 1 (suc pay_rents)) instruction_not_allowed

  -- One round of the loop: the checks of the instruction's program, and the counters after it.
  unfoldable pub check_instruction : List ℕ → InspectedInstruction → Tally → Result Rejection Tally
  check_instruction pay_rent ix n =
      if ix.program_address == system_program
      then check_create ix n.creates >> ok (record n { creates = suc n.creates })
      else if ix.program_address == zk_elgamal_proof_program
      then check_proof ix >> ok n
      else if ix.program_address == token_2022_program
      then check_transfer ix n.transfers >> ok (record n { transfers = suc n.transfers })
      else if ix.program_address == relstate_program
      then check_pay_rent pay_rent ix n.pay_rents >> ok (record n { pay_rents = suc n.pay_rents })
      else if ix.program_address == compute_budget_program
      then refuse_if (ltb 0 (length ix.accounts)) compute_budget_accounts >> ok n
      else err program_not_allowed

  unfoldable pub check_instructions :
      List ℕ → List InspectedInstruction → Tally → Result Rejection Tally
  check_instructions pay_rent [] n = ok n
  check_instructions pay_rent (ix ∷ rest) n = do
    n' ← check_instruction pay_rent ix n
    check_instructions pay_rent rest n'

unfoldable pub assert_rent_payment_shape :
    List ℕ → InspectedTransaction → RentPaymentRules → Result Rejection Unit
unfolding check_instructions
assert_rent_payment_shape pay_rent tx rules =
    check_instructions rules tx.instructions pay_rent tx.instructions
      (record { creates = 0; transfers = 0; pay_rents = 0 })
    >>= λ _. ok tt
