-- ===== src/Transaction.antt =====
-- backend/src/txinspect.ts: what a client's wire transaction holds.
-- An address is the number that its 32 bytes spell, big end first; a byte is a number. Decoding of
-- base64 and of the wire format is @solana/kit's and a parameter here, as is signature checking.
pub mod Budget
pub mod Policy
pub mod FeePayer
pub mod Fees
pub mod Confinement
pub mod Resolving
pub mod Roles
mod Examples
use relstate.Common.{
  ℕ, suc, ◌+◌, ◌-◌, Bool, true, false, not, ◌&&◌, ◌||◌, List, [], ◌∷◌, map, Option, none, some,
  Result, ok, err, ◌>>=◌, ◌>>◌, refuse_if, ltb, leb, ◌==◌, if◌then◌else◌, length, get_elem?, keep,
}

-- The codes of `RejectedTransaction`, as the modules of the backend throw them.
pub data Rejection : Type 0 where
  malformed too_large unsupported_version lookup_tables empty too_many_instructions : Rejection
  malformed_compute_budget compute_limit compute_price fee_too_high : Rejection
  program_not_allowed malformed_program_instruction instruction_not_allowed : Rejection
  sponsor_as_program sponsor_in_instruction : Rejection
  wrong_fee_payer incomplete_signatures already_signed bad_signature : Rejection
  context_too_expensive context_too_large too_many_accounts unverified_context : Rejection
  close_destination wrong_context_authority treasury_in_token_instruction wrong_source : Rejection
  wrong_mint wrong_authority treasury_in_program_instruction missing_transfer : Rejection
  compute_budget_accounts : Rejection
  no_wallet_relation context_reused foreign_context plan_full registry_full : Rejection
  wallet_is_sponsor wallet_mismatch simulation_failed simulation_incomplete rate_limited : Rejection
  rent_too_high unexpected_credit replay send_outcome_unknown wallet_is_treasury : Rejection

pub data Version : Type 0 where
  legacy : Version
  versioned : ℕ → Version

pub record CompiledInstruction : Type 0 where
  pub program_address_index : ℕ
  pub account_indices : Option (List ℕ)
  pub payload : Option (List ℕ)

pub record CompiledMessage : Type 0 where
  pub version : Version
  pub num_signer_accounts : ℕ
  pub num_readonly_signer_accounts : ℕ
  pub num_readonly_non_signer_accounts : ℕ
  pub static_accounts : List ℕ
  pub address_table_lookups : List ℕ
  pub instructions : List CompiledInstruction

-- What the decoder gives: the message, its bytes, and the signature slots by address.
pub record DecodedTransaction : Type 0 where
  pub message_bytes : List ℕ
  pub message : CompiledMessage
  pub signatures : ℕ → Option ℕ

pub record AccountRole : Type 0 where
  pub index : ℕ
  pub address : ℕ
  pub is_signer : Bool
  pub is_writable : Bool

pub record InspectedInstruction : Type 0 where
  pub index : ℕ
  pub program_address : ℕ
  pub accounts : List AccountRole
  pub payload : List ℕ

pub record InspectedTransaction : Type 0 where
  pub transaction : DecodedTransaction
  pub bytes : List ℕ
  pub accounts : List AccountRole
  pub instructions : List InspectedInstruction
  pub fee_payer : ℕ
  pub num_required_signatures : ℕ
  pub missing_signers : List ℕ

-- `ix.accounts[i]?.address`.
abbrev pub address_at : InspectedInstruction → ℕ → Option ℕ
address_at ix i = elim (get_elem? ix.accounts i) [ none ↦ none | some a ↦ some a.address ]

-- The callback of `accountRoles`. A difference that is negative in the source is 0 here, and no
-- index lies below either.
unfoldable pub account_role : CompiledMessage → ℕ → ℕ → AccountRole
account_role c address index = record {
  index = index;
  address = address;
  is_signer = ltb index c.num_signer_accounts;
  is_writable =
      ltb index (c.num_signer_accounts - c.num_readonly_signer_accounts)
      || (leb c.num_signer_accounts index
          && ltb index (length c.static_accounts - c.num_readonly_non_signer_accounts));
}

unfoldable pub account_roles_from : CompiledMessage → ℕ → List ℕ → List AccountRole
account_roles_from c index [] = []
account_roles_from c index (address ∷ rest) =
    account_role c address index ∷ account_roles_from c (suc index) rest

unfoldable pub account_roles : CompiledMessage → List AccountRole
unfolding account_role account_roles_from
account_roles c = account_roles_from c 0 c.static_accounts

-- The closure `at` of `inspectTransaction`.
unfoldable pub role_at : List AccountRole → ℕ → Result Rejection AccountRole
role_at accounts index = elim (get_elem? accounts index) [ none ↦ err malformed | some r ↦ ok r ]

unfoldable pub roles_at : List AccountRole → List ℕ → Result Rejection (List AccountRole)
unfolding role_at
roles_at accounts [] = ok []
roles_at accounts (i ∷ is) = do
  role ← role_at accounts i
  rest ← roles_at accounts is
  ok (role ∷ rest)

abbrev pub or_empty : Option (List ℕ) → List ℕ
or_empty none = []
or_empty (some xs) = xs

-- The callback over `compiled.instructions`, from the instruction numbered `index` on.
unfoldable pub resolve_from :
    List AccountRole → ℕ → List CompiledInstruction → Result Rejection (List InspectedInstruction)
unfolding role_at roles_at
resolve_from accounts index [] = ok []
resolve_from accounts index (ix ∷ rest) = do
  program ← role_at accounts ix.program_address_index
  roles ← roles_at accounts (or_empty ix.account_indices)
  later ← resolve_from accounts (suc index) rest
  ok (
      record {
        index = index;
        program_address = program.address;
        accounts = roles;
        payload = or_empty ix.payload;
      }
      ∷ later)

abbrev pub is_supported : Version → Bool
is_supported legacy = true
is_supported (versioned n) = n == 0

abbrev pub is_missing : DecodedTransaction → AccountRole → Bool
is_missing t a = a.is_signer && elim (t.signatures a.address) [ none ↦ true | some _ ↦ false ]

-- The end of `inspectTransaction`: instructions, fee payer and missing signers.
unfoldable pub assemble : List ℕ → DecodedTransaction → Result Rejection InspectedTransaction
assemble bytes t =
    let accounts = account_roles t.message in
    resolve_from accounts 0 t.message.instructions >>= λ instructions.
    role_at accounts 0 >>= λ payer. ok (record {
      transaction = t;
      bytes = bytes;
      accounts = accounts;
      instructions = instructions;
      fee_payer = payer.address;
      num_required_signatures = t.message.num_signer_accounts;
      missing_signers = map (λ a. a.address) (keep (is_missing t) accounts);
    })

-- The part of `inspectTransaction` after decoding.
unfoldable pub inspect_decoded :
    List ℕ → ℕ → DecodedTransaction → Result Rejection InspectedTransaction
inspect_decoded bytes max_instructions t = do
  refuse_if (not (is_supported t.message.version)) unsupported_version
  refuse_if (ltb 0 (length t.message.address_table_lookups)) lookup_tables
  refuse_if (length t.message.instructions == 0) empty
  refuse_if (ltb max_instructions (length t.message.instructions)) too_many_instructions
  assemble bytes t

-- `getBase64Encoder().encode` and the two decoders, which may throw.
module _ {Wire : Type 0} (encode : Wire → Option (List ℕ))
    (decode : List ℕ → Option DecodedTransaction) where
  unfoldable pub inspect_transaction : Wire → ℕ → ℕ → Result Rejection InspectedTransaction
  inspect_transaction wire max_bytes max_instructions = elim (encode wire) [
    | none ↦ err malformed
    | some bytes ↦ do
      refuse_if (length bytes == 0) malformed
      refuse_if (ltb max_bytes (length bytes)) too_large
      elim (decode bytes) [
        | none ↦ err malformed
        | some t ↦ inspect_decoded bytes max_instructions t
      ]
  ]
