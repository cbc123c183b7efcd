-- ===== src/Invites/Claiming.antt =====
-- What a claim leaves, and whose it is.
use relstate.Common.{
  ℕ, ◌/◌, ◌≡◌, refl, sym, ap, subst, ◌∙◌, inl, inr, Bool, true, false, ◌||◌, Option, none, some,
  Result, ok, err, arith, get, get-set, ◌==◌,
}
use relstate.Invites.{
  InviteError, InviteRecord, Invites, Claims, ClaimedInvite, lookup, resolve, claim_unclaimed,
  claim_again, claim_invite, claim_resolved,
}
use relstate.Invites.Holding.{
  Keyed, Shrinks, sweep-Shrinks, sweep-Keyed, resolve-lookup, lookup-id, Held, Shrinks-Held,
  Shrinks-Keyed, set-Keyed, get-set_apart, unclaimed-Claiming,
}
use relstate.Invites.Holding

resolve-found :
    (s : Invites) (now : ℕ) (token : Result InviteError Claims) (r : InviteRecord)
    → Keyed s
    → resolve s now token ≡ ok r
    → get r.id s.by_id ≡ some r
unfolding resolve
resolve-found s now (err x) r keyed e = cc
resolve-found s now (ok claims) r keyed e =
    let (k, _, found) = lookup-id s claims.i r (resolve-lookup s now claims r e) in
    ap (λ j. get j s.by_id) (keyed k r found) ∙ found

module _ (s : Invites) (wallet now : ℕ) (keyed : Keyed s) where
  abbrev Claiming : Invites × Result InviteError ClaimedInvite → Type 0
  Claiming = Holding.Claiming s wallet now

  again-Claiming :
      (invite : InviteRecord) (holder : ℕ) (b : Bool) → Claiming (claim_again s invite holder b)
  again-Claiming invite holder true = (keyed, λ id w h. h)
  again-Claiming invite holder false = (keyed, λ id w h. h)

  invite-Claiming :
      (invite : InviteRecord)
      → get invite.id s.by_id ≡ some invite
      → (o : Option ℕ) → invite.wallet ≡ o
      → Claiming (claim_invite s invite wallet now o)
  invite-Claiming invite found (some holder) h = again-Claiming invite holder (holder == wallet)
  invite-Claiming invite found none h =
      unclaimed-Claiming s wallet now invite found keyed h
        (wallet == invite.lease_landlord || wallet == invite.lease_tenant)

  pub resolved-Claiming :
      (token : Result InviteError Claims) (x : Result InviteError InviteRecord)
      → resolve s now token ≡ x
      → Claiming (claim_resolved s wallet now x)
  resolved-Claiming token (err e) h = (keyed, λ id w g. g)
  resolved-Claiming token (ok invite) h =
      invite-Claiming invite (resolve-found s now token invite keyed h) invite.wallet refl

  -- A claim that returns leaves the wallet as the holder.
  unclaimed-holds :
      (invite : InviteRecord) (b : Bool) (c : ClaimedInvite)
      → (claim_unclaimed s invite wallet now b).1 ≡ ok c
      → Held invite.id wallet (claim_unclaimed s invite wallet now b).0
  unclaimed-holds invite true c e = cc
  unclaimed-holds invite false c e = inr (
    record invite { wallet = some wallet; claimed_at = some (now / 1000) },
    get-set invite.id invite.id
          (record invite { wallet = some wallet; claimed_at = some (now / 1000) }) s.by_id
        ∙ ground arith,
    refl,
  )

  again-holds :
      (invite : InviteRecord) (holder : ℕ) (b : Bool) (c : ClaimedInvite)
      → get invite.id s.by_id ≡ some invite
      → invite.wallet ≡ some holder
      → (holder == wallet) ≡ b
      → (claim_again s invite holder b).1 ≡ ok c
      → Held invite.id wallet (claim_again s invite holder b).0
  again-holds invite holder false c found h f e = cc
  again-holds invite holder true c found h f e =
      let same : holder ≡ wallet = ground (arith, f) in
      inr (invite, found, h ∙ ap (λ w. some w) same)

  invite-holds :
      (invite : InviteRecord) (o : Option ℕ) (c : ClaimedInvite)
      → get invite.id s.by_id ≡ some invite
      → invite.wallet ≡ o
      → (claim_invite s invite wallet now o).1 ≡ ok c
      → Held invite.id wallet (claim_invite s invite wallet now o).0
  invite-holds invite (some holder) c found h e =
      again-holds invite holder (holder == wallet) c found h refl e
  invite-holds invite none c found h e =
      unclaimed-holds invite (wallet == invite.lease_landlord || wallet == invite.lease_tenant) c e

  pub resolved-holds :
      (claims : Claims) (id : ℕ)
      → claims.i ≡ some id
      → (x : Result InviteError InviteRecord) → resolve s now (ok claims) ≡ x
      → (c : ClaimedInvite) → (claim_resolved s wallet now x).1 ≡ ok c
      → Held id wallet (claim_resolved s wallet now x).0
  resolved-holds claims id named (err x) h c e = cc
  resolved-holds claims id named (ok invite) h c e =
      let found = resolve-lookup s now claims invite h in
      let at_id : get id s.by_id ≡ some invite = ap (λ o. lookup s o) (sym named) ∙ found in
      let key = keyed id invite at_id in
      subst (λ j. Held j wallet (claim_invite s invite wallet now invite.wallet).0) key
        (invite-holds invite invite.wallet c (ap (λ j. get j s.by_id) key ∙ at_id) refl e)

  -- Another wallet's claim does not return.
  again-same :
      (invite : InviteRecord) (holder : ℕ) (b : Bool) (c : ClaimedInvite)
      → (holder == wallet) ≡ b
      → (claim_again s invite holder b).1 ≡ ok c
      → wallet ≡ holder
  again-same invite holder false c f e = cc
  again-same invite holder true c f e = ground (arith, f)

  invite-same :
      (invite : InviteRecord) (w : ℕ) (c : ClaimedInvite) (o : Option ℕ)
      → o ≡ some w
      → (claim_invite s invite wallet now o).1 ≡ ok c
      → wallet ≡ w
  invite-same invite w c none h e = cc
  invite-same invite w c (some holder) h e =
      let same : holder ≡ w = cc in again-same invite holder (holder == wallet) c refl e ∙ same

  pub resolved-same :
      (claims : Claims) (id w : ℕ)
      → claims.i ≡ some id
      → Held id w s
      → (x : Result InviteError InviteRecord) → resolve s now (ok claims) ≡ x
      → (c : ClaimedInvite) → (claim_resolved s wallet now x).1 ≡ ok c
      → wallet ≡ w
  resolved-same claims id w named held (err x) h c e = cc
  resolved-same claims id w named held (ok invite) h c e =
      let at_id : get id s.by_id ≡ some invite =
        ap (λ o. lookup s o) (sym named) ∙ resolve-lookup s now claims invite h in
      go held at_id
    where
      go : Held id w s → get id s.by_id ≡ some invite → wallet ≡ w
      go (inl gone) at_id = cc
      go (inr (r, there, g)) at_id =
          let same : r ≡ invite = cc in
          invite-same invite w c invite.wallet (ap (λ q. q.wallet) (sym same) ∙ g) e
