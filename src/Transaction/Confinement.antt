-- ===== src/Transaction/Confinement.antt =====
-- The fee payer stays out of the instructions.
use relstate.Common.{
  ℕ, suc, ◌<◌, ◌≡◌, ◌≢◌, Bool, true, false, ◌&&◌, List, [], ◌∷◌, some, ◌==◌, keep, All,
}
use relstate.Programs.{associated_token_program}
use relstate.Transaction.{InspectedInstruction, address_at}
use relstate.Transaction.FeePayer.{ata_create_idempotent, is_signer_at, used_elsewhere, is_verdict}

-- Instructions are numbered in order.
abbrev pub Numbered : ℕ → List InspectedInstruction → Type 0
Numbered n [] = Unit
Numbered n (ix ∷ rest) = (ix.index ≡ n) × Numbered (suc n) rest

module _ (p : InspectedInstruction → Bool) where
  abbrev hit : ℕ → InspectedInstruction → Bool
  hit k y = p y && y.index == k

-- The one shape in which the fee payer may stand in an instruction: the idempotent create of a
-- token account, which it only funds, for the signing appraiser of the one verdict of the
-- transaction, in front of that verdict and on its accounts.
pub record IsVerdictCreate (verdict : List ℕ) (sponsor : ℕ) (ixs : List InspectedInstruction)
    (ix : InspectedInstruction) : Type 0 where
  pub paying : InspectedInstruction
  pub only : keep (is_verdict verdict) ixs ≡ paying ∷ []
  pub signed : is_signer_at paying 0 ≡ true
  pub before : ix.index < paying.index
  pub program : ix.program_address ≡ associated_token_program
  pub tag : ix.payload ≡ ata_create_idempotent ∷ []
  pub payer : address_at ix 0 ≡ some sponsor
  pub once : used_elsewhere sponsor 0 0 ix.accounts ≡ false
  pub account : address_at ix 1 ≡ address_at paying 8
  pub owner : address_at ix 2 ≡ address_at paying 0
  pub mint : address_at ix 3 ≡ address_at paying 3

abbrev pub Untouched : ℕ → InspectedInstruction → Type 0
Untouched sponsor ix = All (λ a. a.address ≢ sponsor) ix.accounts
