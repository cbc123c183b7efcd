-- ===== src/ConfidentialSetup/Funding.antt =====
-- What an accepted setup of a confidential account has in it, and where the treasury stands there.
use relstate.Common.{
  ℕ, zero, suc, ◌≤◌, ◌≡◌, ◌⊎◌, inl, inr, true, List, [], ◌∷◌, some, ok, arith, get_elem?, All,
  All-weaken, for_each_iff, Option-cases,
}
use relstate.Programs.{
  token_2022_program, associated_token_program, zk_elgamal_proof_program, compute_budget_program,
}
use relstate.Transaction.{AccountRole, InspectedInstruction, InspectedTransaction}
use relstate.ConfidentialSetup.{
  find_index, count_named, is_found, is_reallocate, is_configure, ata_tag, check_setup_instruction,
  assert_confidential_setup_shape,
}

named_found :
    (t : ℕ) (xs : List AccountRole) (i : ℕ) (a : AccountRole)
    → get_elem? xs i ≡ some a
    → a.address ≡ t
    → (1 ≤ count_named t xs) × (is_found (find_index t xs) ≡ true)
unfolding find_index count_named
named_found t [] i a g e = cc
named_found t (x ∷ xs) zero a g e = ground arith
named_found t (x ∷ xs) (suc i) a g e =
    ground (arith, named_found t xs i a g e, Option-cases (find_index t xs))

-- Where an address stands once, its first position is its only one.
named_once :
    (t : ℕ) (xs : List AccountRole) (i k : ℕ) (a : AccountRole)
    → get_elem? xs i ≡ some a
    → a.address ≡ t
    → count_named t xs ≤ 1
    → find_index t xs ≡ some k
    → i ≡ k
unfolding find_index count_named
named_once t [] i k a g e c f = cc
named_once t (x ∷ xs) zero k a g e c f = ground arith
named_once t (x ∷ xs) (suc i) k a g e c f = elim (Option-cases (find_index t xs)) [
  | inl h ↦ ground (arith, named_found t xs i a g e)
  | inr (j, h) ↦ ground (arith, named_found t xs i a g e, named_once t xs i j a g e)
]

-- In a token instruction the treasury stands only where it pays; in proof and ComputeBudget
-- instructions it may stand anywhere, also where an authority stands.
abbrev pub PaysTokens : ℕ → InspectedInstruction → Type 0
PaysTokens treasury ix =
    (i : ℕ) (a : AccountRole)
    → get_elem? ix.accounts i ≡ some a
    → a.address ≡ treasury
    → ((ix.program_address ≡ token_2022_program) × (is_reallocate ix ≡ true) × (i ≡ 1))
      ⊎ ((ix.program_address ≡ associated_token_program) × (i ≡ 0))
      ⊎ (ix.program_address ≡ zk_elgamal_proof_program)
      ⊎ (ix.program_address ≡ compute_budget_program)

-- The instructions that a setup may have.
abbrev pub IsPermitted : InspectedInstruction → Type 0
IsPermitted ix =
    (ix.program_address ≡ token_2022_program × (is_reallocate ix ≡ true ⊎ is_configure ix ≡ true))
    ⊎ (ix.program_address ≡ associated_token_program × ata_tag ix.payload ≤ 1)
    ⊎ (ix.program_address ≡ zk_elgamal_proof_program)
    ⊎ (ix.program_address ≡ compute_budget_program)

module _ (treasury : ℕ) (ix : InspectedInstruction)
    (e : check_setup_instruction treasury ix ≡ ok tt) where
  check_setup_instruction-IsPermitted : IsPermitted ix
  unfolding check_setup_instruction
  check_setup_instruction-IsPermitted = ground arith

  check_setup_instruction-PaysTokens : PaysTokens treasury ix
  unfolding check_setup_instruction
  check_setup_instruction-PaysTokens i a g t =
      elim (Option-cases (find_index treasury ix.accounts)) [
        | inl h ↦ ground (arith, named_found treasury ix.accounts i a g t)
        | inr (k, h) ↦ ground (
          arith,
          named_found treasury ix.accounts i a g t,
          named_once treasury ix.accounts i k a g t,
        )
      ]

-- An accepted setup has only Reallocate, ConfigureAccount, creates of associated token accounts,
-- proof and ComputeBudget instructions. In the first three the treasury stands only as the payer of
-- a Reallocate or the funder of a create; where it stands in a proof or ComputeBudget instruction is
-- not bounded.
pub assert_confidential_setup_shape_sound :
    (tx : InspectedTransaction) (treasury : ℕ)
    → assert_confidential_setup_shape tx treasury ≡ ok tt
    → All (λ ix. IsPermitted ix × PaysTokens treasury ix) tx.instructions
unfolding assert_confidential_setup_shape
assert_confidential_setup_shape_sound tx treasury e =
    All-weaken (λ ix. check_setup_instruction treasury ix ≡ ok tt) _ tx.instructions
      (λ ix f. (
        check_setup_instruction-IsPermitted treasury ix f,
        check_setup_instruction-PaysTokens treasury ix f,
      ))
      ((for_each_iff (check_setup_instruction treasury) tx.instructions).0 e)
