-- ===== src/Transaction/Policy.antt =====
-- backend/src/txinspect.ts: which programs and which relstate instructions are co-signed, and whose
-- signatures have to be there.
use relstate.Common.{
  ℕ, Bool, true, false, not, ◌&&◌, List, [], ◌∷◌, ◌++◌, none, some, Result, ok, ◌>>◌, refuse_if,
  ltb, ◌==◌, if◌then◌else◌, length, take, any, keep, for_each,
}
use relstate.Programs.{relstate_program, compute_budget_program}
use relstate.Transaction.{
  Rejection, AccountRole, InspectedInstruction, InspectedTransaction, program_not_allowed,
  malformed_program_instruction, instruction_not_allowed, wrong_fee_payer, incomplete_signatures,
  already_signed, bad_signature,
}

-- `xs.includes(a)` and `new Set(xs).has(a)`.
abbrev pub includes : ℕ → List ℕ → Bool
includes a = any (λ b. b == a)

unfoldable pub assert_programs_allowed : InspectedTransaction → List ℕ → Result Rejection Unit
assert_programs_allowed tx allowlist =
    for_each
      (λ ix.
        refuse_if (not (includes ix.program_address (allowlist ++ compute_budget_program ∷ [])))
          program_not_allowed)
      tx.instructions

-- Equality of byte strings, which their hex texts decide.
unfoldable pub same_bytes : List ℕ → List ℕ → Bool
same_bytes [] [] = true
same_bytes (a ∷ rest) (b ∷ more) = a == b && same_bytes rest more
same_bytes _ _ = false

-- `sponsorable` holds the discriminators of the sponsorable names: SHA-256 prefixes, which
-- node:crypto computes. The list of admin instructions only words the refusal.
unfoldable pub assert_relstate_instruction :
    List (List ℕ) → InspectedInstruction → Result Rejection Unit
unfolding same_bytes
assert_relstate_instruction sponsorable ix =
    if ix.program_address == relstate_program
    then (refuse_if (ltb (length ix.payload) 8) malformed_program_instruction
        >> refuse_if (not (any (λ d. same_bytes d (take 8 ix.payload)) sponsorable))
            instruction_not_allowed)
    else ok tt

unfoldable pub assert_relstate_instructions_allowed :
    List (List ℕ) → InspectedTransaction → Result Rejection Unit
unfolding assert_relstate_instruction
assert_relstate_instructions_allowed sponsorable tx =
    for_each (assert_relstate_instruction sponsorable) tx.instructions

unfoldable pub assert_only_sponsor_signature_missing :
    InspectedTransaction → ℕ → Result Rejection Unit
assert_only_sponsor_signature_missing tx sponsor = do
  refuse_if (not (tx.fee_payer == sponsor)) wrong_fee_payer
  refuse_if (ltb 0 (length (keep (λ a. not (a == sponsor)) tx.missing_signers)))
      incomplete_signatures
  refuse_if (not (includes sponsor tx.missing_signers)) already_signed

-- `verify` stands for the key import and `verifySignature` of the platform: false where either
-- throws.
module _ (verify : ℕ → ℕ → List ℕ → Bool) where
  unfoldable pub assert_signature_valid : InspectedTransaction → AccountRole → Result Rejection Unit
  assert_signature_valid tx account =
      if account.is_signer
      then elim (tx.transaction.signatures account.address) [
        | none ↦ ok tt
        | some signature ↦
            refuse_if (not (verify account.address signature tx.transaction.message_bytes))
              bad_signature
      ]
      else ok tt

  unfoldable pub assert_present_signatures_valid : InspectedTransaction → Result Rejection Unit
  unfolding assert_signature_valid
  assert_present_signatures_valid tx = for_each (assert_signature_valid tx) tx.accounts
