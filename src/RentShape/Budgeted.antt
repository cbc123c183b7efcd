-- ===== src/RentShape/Budgeted.antt =====
-- What the treasury can spend on one rent payment, and what its proofs and transfers are bound to.
use relstate.Common.{
  ℕ, ◌+◌, ◌*◌, ◌≤◌, ◌≡◌, ◌⊎◌, true, false, List, [], ◌∷◌, ok, arith, ◌==◌, if◌then◌else◌, length,
  any, >>=-eq-ok, All,
}
use relstate.Programs.{
  system_program, zk_elgamal_proof_program, token_2022_program, relstate_program,
}
use relstate.Transaction.{InspectedInstruction, InspectedTransaction}
use relstate.RentShape.{
  RentPaymentRules, Tally, check_instruction, check_instructions, create_lamports, create_space,
  is_at, is_byte, is_initialised_by, is_transfer_before, instruction_before,
  assert_rent_payment_shape,
}
use relstate.RentShape.Inversion.{
  check_create-IsContextCreate, check_create-le, check_create-initialised, check_proof-shape,
  check_transfer-names, check_pay_rent-follows, check_instruction-Step, Step, creating, proving,
  transferring, paying, budgeting,
}

-- `n` where the instruction is of the program, otherwise 0.
abbrev pub if_of : ℕ → InspectedInstruction → ℕ → ℕ
if_of program ix n = if ix.program_address == program then n else 0

-- The number of instructions of one program.
unfoldable pub count_of : ℕ → List InspectedInstruction → ℕ
count_of program [] = 0
count_of program (ix ∷ rest) = if_of program ix 1 + count_of program rest

-- The lamports that the System instructions of a transaction move.
unfoldable pub funded : List InspectedInstruction → ℕ
funded [] = 0
funded (ix ∷ rest) = if_of system_program ix (create_lamports ix) + funded rest

-- What each kind of instruction is bound to.
abbrev pub Bound : RentPaymentRules → List InspectedInstruction → InspectedInstruction → Type 0
Bound rules ixs ix =
    (ix.program_address ≡ system_program
      → (any (is_initialised_by ix) ixs ≡ true)
        ⊎ ((create_space ix ≡ 297) × (create_lamports ix ≡ rules.range_context_lamports)))
    × (ix.program_address ≡ zk_elgamal_proof_program
        → (is_at ix 0 rules.treasury ≡ false)
          × (is_at ix 1 rules.treasury ≡ true)
          × ((is_byte ix 0 0 ≡ false × length ix.accounts ≡ 2)
              ⊎ (is_byte ix 0 0 ≡ true
                  × length ix.accounts ≡ 3
                  × (is_at ix 2 rules.treasury ≡ true))))
    × (ix.program_address ≡ relstate_program
        → is_transfer_before (instruction_before ixs ix.index) ≡ true)

module _ (rules : RentPaymentRules) (ixs : List InspectedInstruction) (pay_rent : List ℕ) where
  Step-Bound :
      (ix : InspectedInstruction) (n n' : Tally)
      → Step rules ixs ix pay_rent n n'
      → Bound rules ixs ix
  Step-Bound ix n n' (creating p h q) =
      (λ _. check_create-initialised rules ixs ix n.creates h, ground arith, ground arith)
  Step-Bound ix n n' (proving p h q) =
      (ground arith, λ _. check_proof-shape rules ixs ix h, ground arith)
  Step-Bound ix n n' (transferring p h q) = (ground arith, ground arith, ground arith)
  Step-Bound ix n n' (paying p h q) = (
    ground arith,
    ground arith,
    λ _. (check_pay_rent-follows rules ixs ix pay_rent n.pay_rents h).2,
  )
  Step-Bound ix n n' (budgeting p h q) = (ground arith, ground arith, ground arith)

  -- How far one round moves the counters.
  abbrev Moved : List InspectedInstruction → Tally → Tally → Type 0
  Moved rest n n' =
      (n'.creates ≡ n.creates + count_of system_program rest)
      × (n'.transfers ≡ n.transfers + count_of token_2022_program rest)
      × (n'.pay_rents ≡ n.pay_rents + count_of relstate_program rest)
      × (funded rest ≤ count_of system_program rest * rules.max_context_lamports)

  abbrev Within : Tally → Type 0
  Within n = (n.creates ≤ rules.max_create_accounts) × (n.transfers ≤ 1) × (n.pay_rents ≤ 1)

  Step-Within :
      (ix : InspectedInstruction) (n n' : Tally)
      → Step rules ixs ix pay_rent n n'
      → Within n
      → Within n'
  Step-Within ix n n' (creating p h q) w = ground (arith, check_create-le rules ixs ix n.creates h)
  Step-Within ix n n' (proving p h q) w = ground arith
  Step-Within ix n n' (transferring p h q) w =
      ground (arith, check_transfer-names rules ixs ix n.transfers h)
  Step-Within ix n n' (paying p h q) w =
      ground (arith, check_pay_rent-follows rules ixs ix pay_rent n.pay_rents h)
  Step-Within ix n n' (budgeting p h q) w = ground arith

  Step-Moved :
      (ix : InspectedInstruction) (n n' : Tally)
      → Step rules ixs ix pay_rent n n'
      → Moved (ix ∷ []) n n'
  unfolding funded count_of
  Step-Moved ix n n' (creating p h q) =
      ground (arith, (check_create-IsContextCreate rules ixs ix n.creates h).cheap)
  Step-Moved ix n n' (proving p h q) = ground arith
  Step-Moved ix n n' (transferring p h q) = ground arith
  Step-Moved ix n n' (paying p h q) = ground arith
  Step-Moved ix n n' (budgeting p h q) = ground arith

  add-Moved :
      (ix : InspectedInstruction) (rest : List InspectedInstruction) (n m n' : Tally)
      → Moved (ix ∷ []) n m
      → Moved rest m n'
      → Moved (ix ∷ rest) n n'
  unfolding funded count_of
  add-Moved ix rest n m n' a b = ground arith

  check_instructions_sound :
      (rest : List InspectedInstruction) (n n' : Tally)
      → check_instructions rules ixs pay_rent rest n ≡ ok n'
      → Within n
      → Within n' × Moved rest n n' × All (Bound rules ixs) rest
  unfolding check_instructions count_of funded
  check_instructions_sound [] n n' e w =
      (ground arith, (ground arith, ground arith, ground arith, ground arith), tt)
  check_instructions_sound (ix ∷ rest) n n' e w =
      let (m, first, later) = >>=-eq-ok (check_instruction rules ixs pay_rent ix n) _ e in
      let step = check_instruction-Step rules ixs ix pay_rent n m first in
      let (within, moved, bound) =
        check_instructions_sound rest m n' later (Step-Within ix n m step w) in
      (
        within,
        add-Moved ix rest n m n' (Step-Moved ix n m step) moved,
        (Step-Bound ix n m step, bound),
      )

-- An accepted rent payment moves at most the cap of lamports per context times the cap of contexts
-- out of the treasury, with at most one confidential transfer and one pay_rent, which directly
-- follows a confidential transfer. Each context it creates is verified later in the transaction or
-- is the range-proof context at its exact rent, each proof records the treasury as the authority of
-- an account other than itself, and each close returns the rent to the treasury.
pub assert_rent_payment_shape_binds :
    (pay_rent : List ℕ) (tx : InspectedTransaction) (rules : RentPaymentRules)
    → assert_rent_payment_shape pay_rent tx rules ≡ ok tt
    → (funded tx.instructions ≤ rules.max_create_accounts * rules.max_context_lamports)
      × (count_of token_2022_program tx.instructions ≤ 1)
      × (count_of relstate_program tx.instructions ≤ 1)
      × All (Bound rules tx.instructions) tx.instructions
unfolding assert_rent_payment_shape
assert_rent_payment_shape_binds pay_rent tx rules e =
    let start : Tally = record { creates = 0; transfers = 0; pay_rents = 0 } in
    let (n, checked, _) =
      >>=-eq-ok (check_instructions rules tx.instructions pay_rent tx.instructions start) _ e in
    let (within, moved, bound) =
      check_instructions_sound rules tx.instructions pay_rent tx.instructions start n checked
        (omega arith, omega arith, omega arith) in
    (grind arith, omega arith, omega arith, bound)
