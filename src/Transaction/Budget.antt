-- ===== src/Transaction/Budget.antt =====
-- backend/src/txinspect.ts: the ComputeBudget instructions and the fee that they allow.
use relstate.Common.{
  ℕ, ◌+◌, ◌*◌, ◌/◌, Bool, List, [], ◌∷◌, Option, none, some, Result, ok, ◌>>=◌, ◌>>◌, refuse_if,
  ltb, ◌==◌, if◌then◌else◌, length, take,
}
use relstate.Programs.{compute_budget_program}
use relstate.Transaction.{
  Rejection, InspectedInstruction, InspectedTransaction, malformed_compute_budget, compute_limit,
  compute_price, fee_too_high,
}

abbrev pub lamports_per_signature : ℕ
lamports_per_signature = 5_000

abbrev pub default_cu_per_instruction : ℕ
default_cu_per_instruction = 200_000

abbrev pub max_cu_per_transaction : ℕ
max_cu_per_transaction = 1_400_000

pub record ComputeBudget : Type 0 where
  pub unit_limit : Option ℕ
  pub unit_price_micro_lamports : Option ℕ

-- A number from its bytes, little end first: `getUint32` and `getBigUint64`.
unfoldable pub little_endian : List ℕ → ℕ
little_endian [] = 0
little_endian (b ∷ bs) = b + 256 * little_endian bs

-- One instruction of the ComputeBudget program.
unfoldable pub read_budget_instruction : ComputeBudget → List ℕ → Result Rejection ComputeBudget
unfolding little_endian
read_budget_instruction budget [] = ok budget
read_budget_instruction budget (tag ∷ rest) =
    if tag == 2
    then refuse_if (ltb (length (tag ∷ rest)) 5) malformed_compute_budget
      >> ok (record budget { unit_limit = some (little_endian (take 4 rest)) })
    else if tag == 3
    then refuse_if (ltb (length (tag ∷ rest)) 9) malformed_compute_budget
      >> ok (record budget { unit_price_micro_lamports = some (little_endian (take 8 rest)) })
    else ok budget

unfoldable pub read_compute_budget_from :
    ComputeBudget → List InspectedInstruction → Result Rejection ComputeBudget
unfolding read_budget_instruction
read_compute_budget_from budget [] = ok budget
read_compute_budget_from budget (ix ∷ rest) = do
  next ←
      if ix.program_address == compute_budget_program
      then read_budget_instruction budget ix.payload
      else ok budget
  read_compute_budget_from next rest

unfoldable pub read_compute_budget : InspectedTransaction → Result Rejection ComputeBudget
unfolding read_compute_budget_from
read_compute_budget tx =
    read_compute_budget_from (record { unit_limit = none; unit_price_micro_lamports = none })
      tx.instructions

abbrev pub value_or : Option ℕ → ℕ → ℕ
value_or none d = d
value_or (some a) d = a

-- The units that a transaction with no limit of its own is bounded by.
abbrev pub default_units : ℕ → ℕ
default_units n =
    if ltb max_cu_per_transaction (default_cu_per_instruction * n)
    then max_cu_per_transaction
    else default_cu_per_instruction * n

unfoldable pub worst_case_fee_lamports : InspectedTransaction → ComputeBudget → ℕ
worst_case_fee_lamports tx budget =
    let base_fee = lamports_per_signature * tx.num_required_signatures in
    let price = value_or budget.unit_price_micro_lamports 0 in
    let units = value_or budget.unit_limit (default_units (length tx.instructions)) in
    if price == 0 then base_fee else base_fee + (units * price + 999_999) / 1_000_000

pub record SponsorPolicy : Type 0 where
  pub allowlist : List ℕ
  pub max_compute_units : ℕ
  pub max_cu_price_micro_lamports : ℕ
  pub max_fee_lamports : ℕ

-- `x !== undefined && x > cap`.
abbrev pub exceeds : Option ℕ → ℕ → Bool
exceeds none cap = Bool.false
exceeds (some a) cap = ltb cap a

unfoldable pub assert_compute_budget_within_policy :
    InspectedTransaction → SponsorPolicy → Result Rejection ℕ
assert_compute_budget_within_policy tx policy = do
  budget ← read_compute_budget tx
  refuse_if (exceeds budget.unit_limit policy.max_compute_units) compute_limit
  refuse_if (exceeds budget.unit_price_micro_lamports policy.max_cu_price_micro_lamports)
      compute_price
  let fee = worst_case_fee_lamports tx budget
  refuse_if (ltb policy.max_fee_lamports fee) fee_too_high
  ok fee
