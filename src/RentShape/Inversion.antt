-- ===== src/RentShape/Inversion.antt =====
-- What the checks on one instruction of a rent payment leave true.
use relstate.Common.{
  ℕ, suc, ◌≤◌, ◌≡◌, refl, err, ltb, ◌>>◌, ◌⊎◌, inl, inr, true, false, List, [], ◌∷◌, Option-cases,
  Result, ok, arith, ◌==◌, length, any, Bool-cases, ==_iff, get_elem?,
}
use relstate.Programs.{
  system_program, zk_elgamal_proof_program, token_2022_program, relstate_program,
  compute_budget_program,
}
use relstate.Transaction.{Rejection, AccountRole, InspectedInstruction}
use relstate.RentShape.{
  RentPaymentRules, check_create, check_proof, create_tag, create_owner, create_lamports,
  create_space, is_at, names, is_byte, create_account_data_length, is_initialised_by,
  check_transfer, check_pay_rent, is_transfer, is_transfer_before, instruction_before, Tally,
  check_instruction,
}

module _ (rules : RentPaymentRules) (ix : InspectedInstruction) where
  -- An accepted createAccount moves lamports of the treasury into a context.
  pub record IsContextCreate : Type 0 where
    pub size : length ix.payload ≡ create_account_data_length
    pub tag : create_tag ix ≡ 0
    pub count : length ix.accounts ≡ 2
    pub funder : is_at ix 0 rules.treasury ≡ true
    pub other : is_at ix 1 rules.treasury ≡ false
    pub owner : create_owner ix ≡ zk_elgamal_proof_program
    pub cheap : create_lamports ix ≤ rules.max_context_lamports

module _ (rules : RentPaymentRules) (ixs : List InspectedInstruction)
    (ix : InspectedInstruction) where
  pub check_create-IsContextCreate :
      (n : ℕ) → check_create rules ixs ix n ≡ ok tt → IsContextCreate rules ix
  unfolding check_create
  check_create-IsContextCreate n e = record {
    size = ground arith;
    tag = ground arith;
    count = ground arith;
    funder = ground arith;
    other = ground arith;
    owner = ground arith;
    cheap = ground arith;
  }

  pub check_create-le :
      (n : ℕ) → check_create rules ixs ix n ≡ ok tt → suc n ≤ rules.max_create_accounts
  unfolding check_create
  check_create-le n e = ground arith

  pub check_create-initialised :
      (n : ℕ)
      → check_create rules ixs ix n ≡ ok tt
      → (any (is_initialised_by ix) ixs ≡ true)
        ⊎ ((create_space ix ≡ 297) × (create_lamports ix ≡ rules.range_context_lamports))
  unfolding check_create
  check_create-initialised n e = elim (Bool-cases (any (is_initialised_by ix) ixs)) [
    | inl h ↦ inl h
    | inr h ↦ inr (ground arith)
  ]

  pub check_proof-shape :
      check_proof rules ixs ix ≡ ok tt
      → (is_at ix 0 rules.treasury ≡ false)
        × (is_at ix 1 rules.treasury ≡ true)
        × ((is_byte ix 0 0 ≡ false × length ix.accounts ≡ 2)
            ⊎ (is_byte ix 0 0 ≡ true × length ix.accounts ≡ 3 × (is_at ix 2 rules.treasury ≡ true)))
  unfolding check_proof
  check_proof-shape e = elim (Option-cases (get_elem? ix.payload 0)) [
    | inl h ↦ ground arith
    | inr (tag, h) ↦ (ground arith, ground arith, ground arith)
  ]

  pub check_transfer-names :
      (n : ℕ)
      → check_transfer rules ixs ix n ≡ ok tt
      → (names rules.treasury ix ≡ false)
        × (is_transfer ix ≡ true)
        × (suc n ≤ 1)
        × (is_at ix 0 rules.wallet_token ≡ true)
  unfolding check_transfer
  check_transfer-names n e = (ground arith, ground arith, ground arith, ground arith)

  pub check_pay_rent-follows :
      (pay_rent : List ℕ) (n : ℕ)
      → check_pay_rent rules ixs pay_rent ix n ≡ ok tt
      → (names rules.treasury ix ≡ false)
        × (suc n ≤ 1)
        × (is_transfer_before (instruction_before ixs ix.index) ≡ true)
  unfolding check_pay_rent
  check_pay_rent-follows pay_rent n e = (ground arith, ground arith, ground arith)

  -- What one round of the loop did.
  pub data Step (pay_rent : List ℕ) (n n' : Tally) : Type 0 where
    creating :
        ix.program_address ≡ system_program
        → check_create rules ixs ix n.creates ≡ ok tt
        → n' ≡ record n { creates = suc n.creates }
        → Step pay_rent n n'
    proving :
        ix.program_address ≡ zk_elgamal_proof_program
        → check_proof rules ixs ix ≡ ok tt
        → n' ≡ n
        → Step pay_rent n n'
    transferring :
        ix.program_address ≡ token_2022_program
        → check_transfer rules ixs ix n.transfers ≡ ok tt
        → n' ≡ record n { transfers = suc n.transfers }
        → Step pay_rent n n'
    paying :
        ix.program_address ≡ relstate_program
        → check_pay_rent rules ixs pay_rent ix n.pay_rents ≡ ok tt
        → n' ≡ record n { pay_rents = suc n.pay_rents }
        → Step pay_rent n n'
    budgeting :
        ix.program_address ≡ compute_budget_program → ix.accounts ≡ [] → n' ≡ n → Step pay_rent n n'

  none_left : (xs : List AccountRole) → ltb 0 (length xs) ≡ false → xs ≡ []
  none_left [] h = refl
  none_left (x ∷ xs) h = absurd (ground arith)

  finish :
      {A : Type 0} (r : Result Rejection Unit) (out : A) {n : A}
      → (r >> ok out) ≡ ok n
      → (r ≡ ok tt) × (n ≡ out)
  finish (ok tt) out e = (refl, cc)
  finish (err c) out e = cc

  pub check_instruction-Step :
      (pay_rent : List ℕ) (n n' : Tally)
      → check_instruction rules ixs pay_rent ix n ≡ ok n'
      → Step pay_rent n n'
  unfolding check_instruction
  check_instruction-Step pay_rent n n' e =
      elim (Bool-cases (ix.program_address == system_program)) [
        | inl h ↦
            let (a, b) =
              finish (check_create rules ixs ix n.creates) (record n { creates = suc n.creates })
                (ground arith) in
            creating ((==_iff _ _).0 h) a b
        | inr h1 ↦ elim (Bool-cases (ix.program_address == zk_elgamal_proof_program)) [
          | inl h ↦
              let (a, b) = finish (check_proof rules ixs ix) n (ground arith) in
              proving ((==_iff _ _).0 h) a b
          | inr h2 ↦ elim (Bool-cases (ix.program_address == token_2022_program)) [
            | inl h ↦
                let (a, b) =
                  finish (check_transfer rules ixs ix n.transfers)
                    (record n { transfers = suc n.transfers }) (ground arith) in
                transferring ((==_iff _ _).0 h) a b
            | inr h3 ↦ elim (Bool-cases (ix.program_address == relstate_program)) [
              | inl h ↦
                  let (a, b) =
                    finish (check_pay_rent rules ixs pay_rent ix n.pay_rents)
                      (record n { pay_rents = suc n.pay_rents }) (ground arith) in
                  paying ((==_iff _ _).0 h) a b
              | inr h4 ↦
                  budgeting (ground arith) (none_left ix.accounts (ground arith)) (ground arith)
            ]
          ]
        ]
      ]
