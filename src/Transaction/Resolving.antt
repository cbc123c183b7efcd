-- ===== src/Transaction/Resolving.antt =====
-- The accounts and instructions of an inspected transaction, against the compiled ones.

use relstate.Common.{
  ℕ, suc, ◌+◌, ◌≡◌, refl, List, [], ◌∷◌, some, ok, arith, length, get_elem?, All, >>=-eq-ok, subst,
  sym, map, ap, zero, Result,
}
use relstate.Transaction.{
  AccountRole, CompiledInstruction, CompiledMessage, InspectedInstruction, account_role,
  account_roles_from, account_roles, role_at, roles_at, resolve_from, or_empty,
}
use relstate.Transaction.Confinement.{Numbered}

pub ok-injective : {E A : Type 0} {a b : A} → ◌≡◌ {A = Result E A} (ok a) (ok b) → a ≡ b
ok-injective e = cc

pub role_at-eq-ok :
    (accounts : List AccountRole) (i : ℕ) (r : AccountRole)
    → role_at accounts i ≡ ok r
    → get_elem? accounts i ≡ some r
unfolding role_at
role_at-eq-ok accounts i r e = ground arith

index-account_roles_from :
    (c : CompiledMessage) (xs : List ℕ) (n i : ℕ) (r : AccountRole)
    → get_elem? (account_roles_from c n xs) i ≡ some r
    → (r.index ≡ n + i) × (r ≡ account_role c r.address (n + i))
unfolding account_roles_from account_role
index-account_roles_from c [] n i r e = cc
index-account_roles_from c (x ∷ xs) n zero r e = ground arith
index-account_roles_from c (x ∷ xs) n (suc i) r e =
    ground (arith, index-account_roles_from c xs (suc n) i r)

-- A resolved account is an account of the message, under its own index.
abbrev pub IsListed : List AccountRole → AccountRole → Type 0
IsListed accounts a = get_elem? accounts a.index ≡ some a

-- An instruction is its compiled one: the program, the bytes, and at each place the account of the
-- message that the index there names.
abbrev pub Resolves : List AccountRole → CompiledInstruction → InspectedInstruction → Type 0
Resolves accounts c ix =
    ((program : AccountRole) × (get_elem? accounts c.program_address_index ≡ some program)
      × (ix.program_address ≡ program.address))
    × (ix.payload ≡ or_empty c.payload)
    × (map (get_elem? accounts) (or_empty c.account_indices) ≡ map some ix.accounts)

-- Each one of the first list at its place in the second, as far as both go.
abbrev pub AllResolve :
    List AccountRole → List CompiledInstruction → List InspectedInstruction → Type 0
AllResolve accounts [] ixs = Unit {0}
AllResolve accounts (c ∷ cs) [] = Unit {0}
AllResolve accounts (c ∷ cs) (ix ∷ ixs) = Resolves accounts c ix × AllResolve accounts cs ixs

roles_at-map :
    (accounts : List AccountRole) (is : List ℕ) (rs : List AccountRole)
    → roles_at accounts is ≡ ok rs
    → map (get_elem? accounts) is ≡ map some rs
unfolding roles_at
roles_at-map accounts [] rs e = ap (map some) (ok-injective e)
roles_at-map accounts (i ∷ is) rs e =
    let (role, here, e') = >>=-eq-ok (role_at accounts i) _ e in
    let (rest, later, same) = >>=-eq-ok (roles_at accounts is) _ e' in
    rw (role_at-eq-ok accounts i role here, roles_at-map accounts is rest later)
      (ap (map some) (ok-injective same))

module _ (c : CompiledMessage) where
  role_at-IsListed :
      (i : ℕ) (r : AccountRole) → role_at (account_roles c) i ≡ ok r → IsListed (account_roles c) r
  unfolding account_roles
  role_at-IsListed i r e =
      let at = role_at-eq-ok (account_roles c) i r e in
      let same = (index-account_roles_from c c.static_accounts 0 i r at).0 in
      let index : r.index ≡ i = omega (arith, same) in
      subst (λ k. get_elem? (account_roles c) k ≡ some r) (sym index) at

  roles_at-IsListed :
      (is : List ℕ) (rs : List AccountRole)
      → roles_at (account_roles c) is ≡ ok rs
      → All (IsListed (account_roles c)) rs
  unfolding roles_at
  roles_at-IsListed [] rs e = ground arith
  roles_at-IsListed (i ∷ is) rs e =
      let (role, here, e') = >>=-eq-ok (role_at (account_roles c) i) _ e in
      let (rest, later, same) = >>=-eq-ok (roles_at (account_roles c) is) _ e' in
      subst (All (IsListed (account_roles c))) (ok-injective same)
        (role_at-IsListed i role here, roles_at-IsListed is rest later)

  abbrev Sound : ℕ → List CompiledInstruction → List InspectedInstruction → Type 0
  Sound n ixs out =
      Numbered n out
      × (length out ≡ length ixs)
      × All (λ ix. All (IsListed (account_roles c)) ix.accounts) out
      × AllResolve (account_roles c) ixs out

  pub resolve_from-Sound :
      (ixs : List CompiledInstruction) (n : ℕ) (out : List InspectedInstruction)
      → resolve_from (account_roles c) n ixs ≡ ok out
      → Sound n ixs out
  unfolding resolve_from
  resolve_from-Sound [] n out e = subst (Sound n []) (ok-injective e) (tt, refl, tt, tt)
  resolve_from-Sound (ix ∷ rest) n out e =
      let (program, named, e₁) =
        >>=-eq-ok (role_at (account_roles c) ix.program_address_index) _ e in
      let (roles, found, e₂) =
        >>=-eq-ok (roles_at (account_roles c) (or_empty ix.account_indices)) _ e₁ in
      let (later, more, same) = >>=-eq-ok (resolve_from (account_roles c) (suc n) rest) _ e₂ in
      let (numbered, count, listed, resolved) = resolve_from-Sound rest (suc n) later more in
      subst (Sound n (ix ∷ rest)) (ok-injective same) (
        (refl, numbered),
        ap suc count,
        (roles_at-IsListed (or_empty ix.account_indices) roles found, listed),
        (
          (
            (program, role_at-eq-ok (account_roles c) ix.program_address_index program named, refl),
            refl,
            roles_at-map (account_roles c) (or_empty ix.account_indices) roles found,
          ),
          resolved,
        ),
      )
