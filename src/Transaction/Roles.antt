-- ===== src/Transaction/Roles.antt =====
-- What inspection guarantees of an accepted transaction.
use Prim.Native.Nat.{max}
use relstate.Common.{
  ℕ, suc, ◌+◌, ◌-◌, ◌≤◌, ◌≡◌, refl, true, List, [], ◌∷◌, some, ok, arith, length, get_elem?, keep,
  All, All-weaken, >>=-eq-ok, subst, map, ap, zero, none, false, ◌⊎◌, inl, inr, Bool-cases,
  Option-cases,
}
use relstate.Transaction.{
  AccountRole, CompiledMessage, DecodedTransaction, InspectedTransaction, account_role,
  account_roles_from, account_roles, role_at, resolve_from, inspect_decoded, assemble, is_supported,
  is_missing,
}
use relstate.Transaction.Policy.{includes}
use relstate.Transaction.Confinement.{Numbered}
use relstate.Transaction.Resolving.{
  ok-injective, role_at-eq-ok, IsListed, AllResolve, resolve_from-Sound,
}

-- The accounts from the `n`-th on that sign, and those that may be written.
module _ (c : CompiledMessage) (signers : c.num_readonly_signer_accounts ≤ c.num_signer_accounts)
    (others : c.num_signer_accounts + c.num_readonly_non_signer_accounts
      ≤ length c.static_accounts) where
  length-signers :
      (xs : List ℕ) (n : ℕ)
      → n + length xs ≡ length c.static_accounts
      → length (keep (λ a. a.is_signer) (account_roles_from c n xs)) ≡ c.num_signer_accounts - n
  unfolding account_roles_from account_role
  length-signers [] n e = omega arith
  length-signers (x ∷ xs) n e = ground (arith, length-signers xs (suc n))

  length-writable :
      (xs : List ℕ) (n : ℕ)
      → n + length xs ≡ length c.static_accounts
      → length (keep (λ a. a.is_writable) (account_roles_from c n xs))
        ≡ (c.num_signer_accounts - c.num_readonly_signer_accounts - n)
          + (length c.static_accounts
              - c.num_readonly_non_signer_accounts
              - max n c.num_signer_accounts)
  unfolding account_roles_from account_role
  length-writable [] n e = omega arith
  length-writable (x ∷ xs) n e = ground (arith, length-writable xs (suc n))

  -- Where the header fits the account list, exactly as many accounts sign as it says, and all are
  -- writable but as many as it calls read-only.
  pub account_roles_counts :
      (length (keep (λ a. a.is_signer) (account_roles c)) ≡ c.num_signer_accounts)
      × (length (keep (λ a. a.is_writable) (account_roles c))
          ≡ length c.static_accounts
            - (c.num_readonly_signer_accounts + c.num_readonly_non_signer_accounts))
  unfolding account_roles
  account_roles_counts = (
    omega (arith, length-signers c.static_accounts 0 (omega arith)),
    omega (arith, length-writable c.static_accounts 0 (omega arith)),
  )

address-account_roles_from :
    (c : CompiledMessage) (xs : List ℕ) (n i : ℕ) (r : AccountRole)
    → get_elem? (account_roles_from c n xs) i ≡ some r
    → get_elem? xs i ≡ some r.address
unfolding account_roles_from account_role
address-account_roles_from c [] n i r e = cc
address-account_roles_from c (x ∷ xs) n zero r e = ground arith
address-account_roles_from c (x ∷ xs) n (suc i) r e = address-account_roles_from c xs (suc n) i r e

map-account_roles_from :
    (c : CompiledMessage) (xs : List ℕ) (n : ℕ)
    → map (λ a. a.address) (account_roles_from c n xs) ≡ xs
unfolding account_roles_from account_role
map-account_roles_from c [] n = refl
map-account_roles_from c (x ∷ xs) n = ap (λ l. x ∷ l) (map-account_roles_from c xs (suc n))

-- The slot of an address is empty.
abbrev pub IsUnsigned : DecodedTransaction → ℕ → Type 0
IsUnsigned t m = t.signatures m ≡ none

is_missing-IsUnsigned :
    (t : DecodedTransaction) (a : AccountRole) → is_missing t a ≡ true → IsUnsigned t a.address
is_missing-IsUnsigned t a e = elim (Option-cases (t.signatures a.address)) [
  | inl h ↦ h
  | inr (x, h) ↦ ground (arith, h)
]

missing-IsUnsigned :
    (t : DecodedTransaction) (xs : List AccountRole)
    → All (IsUnsigned t) (map (λ a. a.address) (keep (is_missing t) xs))
missing-IsUnsigned t [] = tt
missing-IsUnsigned t (a ∷ xs) = elim (Bool-cases (is_missing t a)) [
  | inl e ↦ rw e (is_missing-IsUnsigned t a e, missing-IsUnsigned t xs)
  | inr e ↦ rw e (missing-IsUnsigned t xs)
]

-- Nobody that signs with an empty slot is left out.
missing_complete :
    (t : DecodedTransaction) (xs : List AccountRole)
    → All
        (λ a.
          (is_missing t a ≡ false)
          ⊎ (includes a.address (map (λ b. b.address) (keep (is_missing t) xs)) ≡ true))
        xs
missing_complete t [] = tt
missing_complete t (a ∷ xs) = elim (Bool-cases (is_missing t a)) [
  | inl e ↦ (
    inr (ground (arith, e)),
    All-weaken _ _ xs (λ b o. elim o [ inl h ↦ inl h | inr h ↦ inr (ground (arith, e, h)) ])
        (missing_complete t xs),
  )
  | inr e ↦ (
    inl e,
    All-weaken _ _ xs (λ b o. elim o [ inl h ↦ inl h | inr h ↦ inr (ground (arith, e, h)) ])
        (missing_complete t xs),
  )
]

abbrev Assembled : DecodedTransaction → InspectedTransaction → Type 0
Assembled t tx =
    (Numbered 0 tx.instructions × (length tx.instructions ≡ length t.message.instructions))
    × All (λ ix. All (IsListed tx.accounts) ix.accounts) tx.instructions
    × (get_elem? t.message.static_accounts 0 ≡ some tx.fee_payer)
    × (map (λ a. a.address) tx.accounts ≡ t.message.static_accounts)
    × AllResolve tx.accounts t.message.instructions tx.instructions
    × All (IsUnsigned t) tx.missing_signers
    × All (λ a. (is_missing t a ≡ false) ⊎ (includes a.address tx.missing_signers ≡ true))
        tx.accounts
    × (tx.transaction ≡ t)

assemble_sound :
    (bytes : List ℕ) (t : DecodedTransaction) (tx : InspectedTransaction)
    → assemble bytes t ≡ ok tx
    → Assembled t tx
unfolding assemble account_roles
assemble_sound bytes t tx e =
    let accounts = account_roles t.message in
    let (instructions, resolved, e₁) =
      >>=-eq-ok (resolve_from accounts 0 t.message.instructions) _ e in
    let (payer, first, e₂) = >>=-eq-ok (role_at accounts 0) _ e₁ in
    let (numbered, count, listed, each) =
      resolve_from-Sound t.message t.message.instructions 0 instructions resolved in
    subst (Assembled t) (ok-injective e₂) (
      (numbered, count),
      listed,
      address-account_roles_from t.message t.message.static_accounts 0 0 payer
          (role_at-eq-ok accounts 0 payer first),
      map-account_roles_from t.message t.message.static_accounts 0,
      each,
      missing-IsUnsigned t accounts,
      missing_complete t accounts,
      refl,
    )

length-eq-zero : (xs : List ℕ) → length xs ≡ 0 → xs ≡ []
length-eq-zero [] e = refl
length-eq-zero (x ∷ xs) e = absurd (omega arith)

-- An accepted transaction has between one instruction and the cap, numbered in order and as many as
-- the message has, each with the program, the bytes and, at each place, the account of its compiled
-- one; its accounts are the addresses of the message in order, each account of an instruction under
-- its own index; it has no address lookup table and a supported version; the fee payer is the first
-- account; every missing signer has an empty slot, and every signer with an empty slot is missing.
pub inspect_decoded_sound :
    (bytes : List ℕ) (max_instructions : ℕ) (t : DecodedTransaction) (tx : InspectedTransaction)
    → inspect_decoded bytes max_instructions t ≡ ok tx
    → (1 ≤ length tx.instructions)
      × (length tx.instructions ≤ max_instructions)
      × Numbered 0 tx.instructions
      × (length tx.instructions ≡ length t.message.instructions)
      × AllResolve tx.accounts t.message.instructions tx.instructions
      × (map (λ a. a.address) tx.accounts ≡ t.message.static_accounts)
      × (t.message.address_table_lookups ≡ [])
      × (is_supported t.message.version ≡ true)
      × All (λ ix. All (IsListed tx.accounts) ix.accounts) tx.instructions
      × (get_elem? t.message.static_accounts 0 ≡ some tx.fee_payer)
      × All (IsUnsigned t) tx.missing_signers
      × All
          (λ a. (is_missing t a ≡ false) ⊎ (includes a.address tx.missing_signers ≡ true))
          tx.accounts
      × (tx.transaction ≡ t)
unfolding inspect_decoded
inspect_decoded_sound bytes max_instructions t tx e =
    let ((numbered, count), listed, payer, addresses, each, unsigned, complete, same) =
      assemble_sound bytes t tx (ground arith) in
    (
      ground arith,
      ground arith,
      numbered,
      count,
      each,
      addresses,
      length-eq-zero t.message.address_table_lookups (ground arith),
      ground arith,
      listed,
      payer,
      unsigned,
      complete,
      same,
    )
