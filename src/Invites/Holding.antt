-- ===== src/Invites/Holding.antt =====
-- Whose an invitation is once a wallet has claimed it.
use relstate.Common.{
  ℕ, ◌/◌, ◌*◌, ◌≡◌, refl, sym, ap, ◌∙◌, ◌⊎◌, inl, inr, Bool, true, false, not, ◌||◌, List, [], ◌∷◌,
  Option, none, some, Result, ok, >>=-eq-ok, refuse_if, arith, get, set, delete, get-set,
  get-delete, ltb, leb, ◌==◌, Bool-cases,
}
use relstate.Invites.{
  InviteError, invite_invalid, invite_expired, InviteRecord, Invites, Claims, ClaimedInvite,
  drop_invite, sweep_from, sweep, or_fail, lookup, resolve, claim_unclaimed,
}

-- Every invitation stands under its own id.
abbrev pub Keyed : Invites → Type 0
Keyed s = (k : ℕ) (r : InviteRecord) → get k s.by_id ≡ some r → r.id ≡ k

-- Nothing but removals.
abbrev pub Shrinks : Invites → Invites → Type 0
Shrinks s s' = (k : ℕ) → (get k s'.by_id ≡ none) ⊎ (get k s'.by_id ≡ get k s.by_id)

sweep_from-Shrinks :
    (cutoff : ℕ) (es : List (ℕ × InviteRecord)) (s : Invites) → Shrinks s (sweep_from cutoff es s)
unfolding sweep_from
sweep_from-Shrinks cutoff [] s k = inr refl
sweep_from-Shrinks cutoff ((id, invite) ∷ rest) s k =
    elim (Bool-cases (ltb cutoff invite.expires_at)) [
      | inl e ↦ rw e (sweep_from-Shrinks cutoff rest s k)
      | inr e ↦ rw e (go (sweep_from-Shrinks cutoff rest (drop_invite id invite s) k))
    ]
  where
    go :
        (get k (sweep_from cutoff rest (drop_invite id invite s)).by_id ≡ none)
          ⊎ (get k (sweep_from cutoff rest (drop_invite id invite s)).by_id
              ≡ get k (delete id s.by_id))
        → (get k (sweep_from cutoff rest (drop_invite id invite s)).by_id ≡ none)
          ⊎ (get k (sweep_from cutoff rest (drop_invite id invite s)).by_id ≡ get k s.by_id)
    go (inl h) = inl h
    go (inr h) = elim (Bool-cases (id == k)) [
      | inl e ↦ inl (h ∙ get-delete id k s.by_id ∙ rw e refl)
      | inr e ↦ inr (h ∙ get-delete id k s.by_id ∙ rw e refl)
    ]

pub sweep-Shrinks : (s : Invites) (now : ℕ) → Shrinks s (sweep s now)
unfolding sweep
sweep-Shrinks s now = sweep_from-Shrinks (now / 1000) s.by_id s

pub Shrinks-Keyed : (s s' : Invites) → Shrinks s s' → Keyed s → Keyed s'
Shrinks-Keyed s s' less keyed k r h = elim (less k) [ inl e ↦ cc | inr e ↦ keyed k r (sym e ∙ h) ]

-- A token resolves to the invitation of its id.
pub resolve-lookup :
    (s : Invites) (now : ℕ) (claims : Claims) (r : InviteRecord)
    → resolve s now (ok claims) ≡ ok r
    → lookup s claims.i ≡ some r
unfolding resolve
resolve-lookup s now claims r e =
    let (found, f, e1) = >>=-eq-ok (or_fail (lookup s claims.i) invite_invalid) _ e in
    let (_, _, e2) =
      >>=-eq-ok
        (refuse_if (not (found.lease == claims.l) || not (found.name_hash == claims.n))
          invite_invalid)
        _ e1 in
    let (_, _, e3) =
      >>=-eq-ok (refuse_if (leb (found.expires_at * 1000) now) invite_expired) _ e2 in
    let same : found ≡ r = cc in go (lookup s claims.i) found f ∙ ap (λ q. some q) same
  where
    go : (o : Option InviteRecord) (a : InviteRecord) → or_fail o invite_invalid ≡ ok a → o ≡ some a
    go none a h = cc
    go (some b) a h = let g : b ≡ a = cc in ap (λ q. some q) g

pub lookup-id :
    (s : Invites) (o : Option ℕ) (r : InviteRecord)
    → lookup s o ≡ some r
    → (k : ℕ) × (o ≡ some k) × (get k s.by_id ≡ some r)
lookup-id s none r h = cc
lookup-id s (some k) r h = (k, refl, h)

-- A wallet's claim on an id: the invitation is gone, or the wallet holds it.
abbrev pub Held : ℕ → ℕ → Invites → Type 0
Held id w s =
    (get id s.by_id ≡ none) ⊎ ((r : InviteRecord) × (get id s.by_id ≡ some r) × (r.wallet ≡ some w))

pub Shrinks-Held : (s s' : Invites) (id w : ℕ) → Shrinks s s' → Held id w s → Held id w s'
Shrinks-Held s s' id w less (inl h) = elim (less id) [ inl e ↦ inl e | inr e ↦ inl (e ∙ h) ]
Shrinks-Held s s' id w less (inr (r, h, g)) = elim (less id) [
  | inl e ↦ inl e
  | inr e ↦ inr (r, e ∙ h, g)
]

pub sweep-Keyed : (s : Invites) (now : ℕ) → Keyed s → Keyed (sweep s now)
sweep-Keyed s now = Shrinks-Keyed s (sweep s now) (sweep-Shrinks s now)

-- An entry that is set under its own id.
pub set-Keyed :
    (s : Invites) (new : InviteRecord) (m : List (ℕ × ℕ))
    → Keyed s
    → Keyed (record { by_id = set new.id new s.by_id; id_by_lease = m })
set-Keyed s new m keyed k r h = elim (Bool-cases (new.id == k)) [
  | inl e ↦
      let g : some new ≡ some r = sym (get-set new.id k new s.by_id ∙ rw e refl) ∙ h in
      let same : new ≡ r = cc in
      let key : new.id ≡ k = ground (arith, e) in ap (λ q. q.id) (sym same) ∙ key
  | inr e ↦ keyed k r (sym (get-set new.id k new s.by_id ∙ rw e refl) ∙ h)
]

pub get-set_apart :
    (m : List (ℕ × InviteRecord)) (new : InviteRecord) (k : ℕ)
    → (new.id == k) ≡ false
    → get k (set new.id new m) ≡ get k m
get-set_apart m new k e = get-set new.id k new m ∙ rw e refl

module _ (s : Invites) (wallet now : ℕ) where
  abbrev pub Claiming : Invites × Result InviteError ClaimedInvite → Type 0
  Claiming (s', res) = Keyed s' × ((id w : ℕ) → Held id w s → Held id w s')

  module _ (invite : InviteRecord) (found : get invite.id s.by_id ≡ some invite)
      (keyed : Keyed s) where
    pub unclaimed-Claiming :
        invite.wallet ≡ none → (b : Bool) → Claiming (claim_unclaimed s invite wallet now b)
    unclaimed-Claiming free true = (keyed, λ id w h. h)
    unclaimed-Claiming free false = (set-Keyed s taken s.id_by_lease keyed, held)
      where
        taken : InviteRecord
        taken = record invite { wallet = some wallet; claimed_at = some (now / 1000) }

        held :
            (id w : ℕ) → Held id w s → Held id w (record s { by_id = set invite.id taken s.by_id })
        held id w (inl h) = elim (Bool-cases (invite.id == id)) [
          | inl e ↦ let key : invite.id ≡ id = ground (arith, e) in let f = rw key at found in cc
          | inr e ↦ inl (get-set_apart s.by_id taken id e ∙ h)
        ]
        held id w (inr (r, h, g)) = elim (Bool-cases (invite.id == id)) [
          | inl e ↦
              let key : invite.id ≡ id = ground (arith, e) in
              let both : get id s.by_id ≡ some invite = ap (λ k. get k s.by_id) (sym key) ∙ found in
              let same : invite ≡ r = cc in let f = sym (ap (λ q. q.wallet) same) in cc
          | inr e ↦ inr (r, get-set_apart s.by_id taken id e ∙ h, g)
        ]
