-- ===== src/RentShape/Confined.antt =====
-- Where the treasury may stand in a rent payment.
use relstate.Common.{
  ℕ, zero, suc, ◌≡◌, ◌≢◌, ◌<◌, refl, ◌⊎◌, inl, inr, false, List, [], ◌∷◌, some, ok, arith, ◌==◌,
  length, any, get_elem?, >>=-eq-ok, All,
}
use relstate.Programs.{system_program, zk_elgamal_proof_program}
use relstate.Transaction.{AccountRole, InspectedInstruction, InspectedTransaction}
use relstate.RentShape.{
  RentPaymentRules, Tally, check_proof, check_instruction, check_instructions, is_at, names,
  assert_rent_payment_shape,
}
use relstate.RentShape.Inversion.{
  IsContextCreate, check_create-IsContextCreate, check_proof-shape, check_transfer-names,
  check_pay_rent-follows, check_instruction-Step, creating, proving, transferring, paying,
  budgeting,
}

-- The instruction names the treasury only as the funder of a context account that the proof program
-- owns, or as the destination and authority of a proof instruction.
abbrev pub Harmless : RentPaymentRules → InspectedInstruction → ℕ → Type 0
Harmless rules ix i =
    ((ix.program_address ≡ system_program) × IsContextCreate rules ix × (i ≡ 0))
    ⊎ ((ix.program_address ≡ zk_elgamal_proof_program) × ((i ≡ 1) ⊎ (i ≡ 2)))

abbrev pub Confined : RentPaymentRules → InspectedInstruction → Type 0
Confined rules ix =
    (i : ℕ) (a : AccountRole)
    → get_elem? ix.accounts i ≡ some a
    → a.address ≡ rules.treasury
    → Harmless rules ix i

not_named :
    (t : ℕ) (xs : List AccountRole) (i : ℕ) (a : AccountRole)
    → any (λ b. b.address == t) xs ≡ false
    → get_elem? xs i ≡ some a
    → a.address ≢ t
not_named t [] i a h g = cc
not_named t (x ∷ xs) zero a h g = ground arith
not_named t (x ∷ xs) (suc i) a h g = not_named t xs i a (ground arith) g

in_range : {A : Type 0} (xs : List A) (i : ℕ) {a : A} → get_elem? xs i ≡ some a → i < length xs
in_range [] i g = cc
in_range (x ∷ xs) zero g = omega arith
in_range (x ∷ xs) (suc i) g = omega (arith, in_range xs i g)

not_at :
    (ix : InspectedInstruction) (t i : ℕ) (a : AccountRole)
    → is_at ix i t ≡ false
    → get_elem? ix.accounts i ≡ some a
    → a.address ≢ t
not_at ix t i a h g = ground arith

module _ (rules : RentPaymentRules) (ixs : List InspectedInstruction) (pay_rent : List ℕ) where
  create-Confined :
      (ix : InspectedInstruction)
      → ix.program_address ≡ system_program
      → IsContextCreate rules ix
      → Confined rules ix
  create-Confined ix p h zero a g t = inl (p, h, refl)
  create-Confined ix p h (suc zero) a g t = absurd (not_at ix rules.treasury 1 a h.other g t)
  create-Confined ix p h (suc (suc i)) a g t =
      absurd (omega (arith, in_range ix.accounts (suc (suc i)) g, h.count))

  proof-Confined :
      (ix : InspectedInstruction)
      → ix.program_address ≡ zk_elgamal_proof_program
      → check_proof rules ixs ix ≡ ok tt
      → Confined rules ix
  proof-Confined ix p h zero a g t =
      absurd (not_at ix rules.treasury 0 a (check_proof-shape rules ixs ix h).0 g t)
  proof-Confined ix p h (suc zero) a g t = inr (p, inl refl)
  proof-Confined ix p h (suc (suc zero)) a g t = inr (p, inr refl)
  proof-Confined ix p h (suc (suc (suc i))) a g t =
      absurd (
        ground
          (arith, in_range ix.accounts (suc (suc (suc i))) g, check_proof-shape rules ixs ix h))

  unnamed-Confined :
      (ix : InspectedInstruction) → names rules.treasury ix ≡ false → Confined rules ix
  unnamed-Confined ix h i a g t = absurd (not_named rules.treasury ix.accounts i a h g t)

  check_instruction-Confined :
      (ix : InspectedInstruction) (n n' : Tally)
      → check_instruction rules ixs pay_rent ix n ≡ ok n'
      → Confined rules ix
  check_instruction-Confined ix n n' e =
      elim (check_instruction-Step rules ixs ix pay_rent n n' e) [
        | creating p h q ↦
            create-Confined ix p (check_create-IsContextCreate rules ixs ix n.creates h)
        | proving p h q ↦ proof-Confined ix p h
        | transferring p h q ↦
            unnamed-Confined ix (check_transfer-names rules ixs ix n.transfers h).0
        | paying p h q ↦
            unnamed-Confined ix (check_pay_rent-follows rules ixs ix pay_rent n.pay_rents h).0
        | budgeting p none q ↦ unnamed-Confined ix (rw none refl)
      ]

  check_instructions-Confined :
      (rest : List InspectedInstruction) (n n' : Tally)
      → check_instructions rules ixs pay_rent rest n ≡ ok n'
      → All (Confined rules) rest
  unfolding check_instructions
  check_instructions-Confined [] n n' e = tt
  check_instructions-Confined (ix ∷ rest) n n' e =
      let (m, first, later) = >>=-eq-ok (check_instruction rules ixs pay_rent ix n) _ e in
      (check_instruction-Confined ix n m first, check_instructions-Confined rest m n' later)

-- In an accepted rent payment the treasury stands only as the funder of an account of the proof
-- program, at most the lamport cap for it, and at the destination and authority of proof
-- instructions; it is no account of any other instruction.
pub assert_rent_payment_shape_confines :
    (pay_rent : List ℕ) (tx : InspectedTransaction) (rules : RentPaymentRules)
    → assert_rent_payment_shape pay_rent tx rules ≡ ok tt
    → All (Confined rules) tx.instructions
unfolding assert_rent_payment_shape
assert_rent_payment_shape_confines pay_rent tx rules e =
    let (n, checked, _) =
      >>=-eq-ok
        (check_instructions rules tx.instructions pay_rent tx.instructions
          (record { creates = 0; transfers = 0; pay_rents = 0 }))
        _ e in
    check_instructions-Confined rules tx.instructions pay_rent tx.instructions _ n checked
