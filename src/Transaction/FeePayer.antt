-- ===== src/Transaction/FeePayer.antt =====
-- backend/src/txinspect.ts: the fee payer may only pay fees, but for one create of the appraiser's
-- token account in front of the verdict that pays into it.
use relstate.Common.{
  ℕ, suc, Bool, true, false, not, ◌&&◌, ◌||◌, List, [], ◌∷◌, Option, none, some, Result, ok, ◌>>◌,
  refuse_if, ltb, leb, ◌==◌, if◌then◌else◌, length, get_elem?, take, keep, for_each, has, add,
}
use relstate.Programs.{relstate_program, associated_token_program, system_program}
use relstate.Transaction.{
  address_at, Rejection, AccountRole, InspectedInstruction, InspectedTransaction,
  sponsor_as_program, sponsor_in_instruction,
}
use relstate.Transaction.Policy.{same_bytes}

-- `SUBMIT_VERDICT_ACCOUNTS` and `ATA_ACCOUNTS`.
abbrev pub verdict_appraiser : ℕ
verdict_appraiser = 0

abbrev pub verdict_mint : ℕ
verdict_mint = 3

abbrev pub verdict_appraiser_ata : ℕ
verdict_appraiser_ata = 8

abbrev pub verdict_token_program : ℕ
verdict_token_program = 11

abbrev pub ata_create_idempotent : ℕ
ata_create_idempotent = 1

abbrev pub ata_payer : ℕ
ata_payer = 0

abbrev pub ata_ata : ℕ
ata_ata = 1

abbrev pub ata_owner : ℕ
ata_owner = 2

abbrev pub ata_mint : ℕ
ata_mint = 3

abbrev pub ata_system_program : ℕ
ata_system_program = 4

abbrev pub ata_token_program : ℕ
ata_token_program = 5

abbrev pub ata_account_count : ℕ
ata_account_count = 6

-- `x === y` where either may be undefined.
abbrev pub same_option : Option ℕ → Option ℕ → Bool
same_option none none = true
same_option (some a) (some b) = a == b
same_option _ _ = false

abbrev pub is_signer_at : InspectedInstruction → ℕ → Bool
is_signer_at ix i = elim (get_elem? ix.accounts i) [ none ↦ false | some a ↦ a.is_signer ]

abbrev pub is_writable_at : InspectedInstruction → ℕ → Bool
is_writable_at ix i = elim (get_elem? ix.accounts i) [ none ↦ false | some a ↦ a.is_writable ]

-- `accounts.some((a, i) => i !== at && a.address === sponsor)`, from position `i` on.
unfoldable pub used_elsewhere : ℕ → ℕ → ℕ → List AccountRole → Bool
used_elsewhere sponsor at i [] = false
used_elsewhere sponsor at i (a ∷ rest) =
    (not (i == at) && a.address == sponsor) || used_elsewhere sponsor at (suc i) rest

-- The tests on one create-ATA, against the verdict `paying`.
unfoldable pub is_exempt : ℕ → InspectedInstruction → InspectedInstruction → Bool
unfolding used_elsewhere
is_exempt sponsor paying ix =
    ix.program_address == associated_token_program
    && (ltb ix.index paying.index
        && (same_bytes ix.payload (ata_create_idempotent ∷ [])
            && (length ix.accounts == ata_account_count
                && (same_option (address_at ix ata_payer) (some sponsor)
                    && (is_signer_at ix ata_payer
                        && (is_writable_at ix ata_payer
                            && (not (used_elsewhere sponsor ata_payer 0 ix.accounts)
                                && (same_option (address_at ix ata_ata)
                                      (address_at paying verdict_appraiser_ata)
                                    && (same_option (address_at ix ata_owner)
                                          (address_at paying verdict_appraiser)
                                        && (same_option (address_at ix ata_mint)
                                              (address_at paying verdict_mint)
                                            && (same_option (address_at ix ata_system_program)
                                                  (some system_program)
                                                && same_option (address_at ix ata_token_program) (
                                                    address_at paying
                                                      verdict_token_program))))))))))))

unfoldable pub exempt_from : ℕ → InspectedInstruction → List InspectedInstruction → List ℕ → List ℕ
exempt_from sponsor paying [] exempt = exempt
exempt_from sponsor paying (ix ∷ rest) exempt =
    exempt_from sponsor paying rest
      (if is_exempt sponsor paying ix then add ix.index exempt else exempt)

-- `verdict` is the discriminator of submit_verdict.
abbrev pub is_verdict : List ℕ → InspectedInstruction → Bool
is_verdict verdict ix =
    ix.program_address == relstate_program
    && (leb 8 (length ix.payload) && same_bytes (take 8 ix.payload) verdict)

-- The exemptions of a transaction whose verdicts are these.
unfoldable pub exempt_for : ℕ → List InspectedInstruction → List InspectedInstruction → List ℕ
exempt_for sponsor instructions [] = []
exempt_for sponsor instructions (paying ∷ []) =
    if is_signer_at paying verdict_appraiser
    then (let exempt = exempt_from sponsor paying instructions [] in
        if ltb 1 (length exempt) then [] else exempt)
    else []
exempt_for sponsor instructions (_ ∷ _ ∷ _) = []

unfoldable pub sponsor_funded_ata_instructions : List ℕ → InspectedTransaction → ℕ → List ℕ
sponsor_funded_ata_instructions verdict tx sponsor =
    exempt_for sponsor tx.instructions (keep (is_verdict verdict) tx.instructions)

-- The checks on one instruction.
unfoldable pub assert_sponsor_not_used_by :
    ℕ → List ℕ → InspectedInstruction → Result Rejection Unit
assert_sponsor_not_used_by sponsor exempt ix =
    refuse_if (ix.program_address == sponsor) sponsor_as_program
    >> (if has ix.index exempt
        then ok tt
        else for_each (λ a. refuse_if (a.address == sponsor) sponsor_in_instruction) ix.accounts)

unfoldable pub assert_sponsor_not_used_by_instructions :
    InspectedTransaction → ℕ → List ℕ → Result Rejection Unit
assert_sponsor_not_used_by_instructions tx sponsor exempt =
    for_each (assert_sponsor_not_used_by sponsor exempt) tx.instructions
