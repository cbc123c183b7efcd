-- ===== src/Transaction/Fees.antt =====
-- What an accepted compute budget bounds.
use relstate.Common.{ℕ, ◌-◌, ◌*◌, ◌≤◌, ◌≡◌, Option, none, some, length, get_elem?}
use relstate.Programs.{compute_budget_program}
use relstate.Transaction.{InspectedInstruction, InspectedTransaction}
use relstate.Transaction.Budget.{ComputeBudget, lamports_per_signature, value_or, default_units}

abbrev pub AtMost : Option ℕ → ℕ → Type 0
AtMost none cap = Unit
AtMost (some a) cap = a ≤ cap

-- The fee covers the base fee and the priority fee, in micro-lamports, of all units allowed.
abbrev pub Covers : ℕ → InspectedTransaction → ComputeBudget → Type 0
Covers fee tx budget =
    (lamports_per_signature * tx.num_required_signatures ≤ fee)
    × (value_or budget.unit_limit (default_units (length tx.instructions))
          * value_or budget.unit_price_micro_lamports 0
        ≤ (fee - lamports_per_signature * tx.num_required_signatures) * 1_000_000)

-- A ComputeBudget instruction that sets a limit or a price is long enough to carry it.
abbrev pub IsWhole : InspectedInstruction → Type 0
IsWhole ix =
    ix.program_address ≡ compute_budget_program
    → (get_elem? ix.payload 0 ≡ some 2 → 5 ≤ length ix.payload)
      × (get_elem? ix.payload 0 ≡ some 3 → 9 ≤ length ix.payload)
