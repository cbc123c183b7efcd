-- ===== src/RentDust/Grant.antt =====
-- What one request for rent dust leaves, on every path.
use relstate.Common.{
  ℕ, ◌-◌, ◌≤◌, ◌<◌, ◌≡◌, refl, sym, ◌∙◌, ap, ◌⊎◌, inl, inr, Bool, true, false, Option, none, some,
  Result, ok, err, arith, has, add, has-add, has-without, leb, ◌==◌, if◌then◌else◌, Bool-cases,
  subst,
}
use relstate.Limits.{Limiter, Scope, Reservation, usage, reserve}
use relstate.Limits.Caps.{IsFresh}
use relstate.Limits.Bookings.{with_one}
use relstate.Limits.TwoPhase.{reserve_iff, usage-cancel-reserve, usage-commit-reserve}
use relstate.RentDust.{
  DustDeps, DustState, DustAnswers, DustError, Dust, granted, begin, finish, transfer,
  grant_reserved, grant_compared, grant_priced, rent_dust_amount, begun, grant_rent_dust,
}
use relstate.RentDust.Once.{is_grant, FinishEnd, finish-FinishEnd}

first_of :
    {A : Type 0} (x y z : A) {b c : Bool}
    → b ≡ false
    → c ≡ false
    → (if b then x else if c then y else z) ≡ z
first_of x y z e f = rw (e, f) refl

module _ (deps : DustDeps) (s : DustState) (answers : DustAnswers) (wallet now : ℕ)
    (fresh : IsFresh s.limiter) where
  abbrev pub SameUsage : Limiter → Type 0
  SameUsage limiter = (j t : ℕ) → now ≤ t → usage limiter j t ≡ usage s.limiter j t

  -- The grant: its amount is what the accounts cost and more than the balance, and it is booked.
  abbrev pub Booked : DustState × Result DustError Dust → Type 0
  Booked (s', res) =
      (amount : ℕ) × (signature : ℕ) × (balance : ℕ) × (res ≡ ok (granted amount signature))
      × (rent_dust_amount deps answers.rent ≡ ok amount)
      × (answers.balance ≡ some balance)
      × (balance < amount)
      × ((t : ℕ)
          → now ≤ t
          → usage s'.limiter wallet t ≡ with_one (t - now) amount (usage s.limiter wallet t))

  abbrev LimiterEnd : DustState × Result DustError Dust → Type 0
  LimiterEnd (s', res) = Booked (s', res) ⊎ ((is_grant res ≡ false) × SameUsage s'.limiter)

  module _ (marked : DustState) (same : marked.limiter ≡ s.limiter) where
    module _ (amount balance : ℕ) (priced : rent_dust_amount deps answers.rent ≡ ok amount)
        (read : answers.balance ≡ some balance) where
      transfer-LimiterEnd :
          balance < amount
          → (s1 : Limiter) (r : Reservation)
          → reserve deps.limits s.limiter wallet amount now ≡ (s1, ok r)
          → (t : DustState) → t.limiter ≡ s1
          → (o : Option ℕ) (landed : Bool) → LimiterEnd (transfer t wallet amount r o landed)
      transfer-LimiterEnd low s1 r g t e none landed = inr (
        refl,
        λ j u le.
            rw e (usage-cancel-reserve deps.limits s.limiter s1 wallet amount now r fresh g j u le),
      )
      transfer-LimiterEnd low s1 r g t e (some signature) landed = inl (
        amount,
        signature,
        balance,
        refl,
        priced,
        read,
        low,
        λ u le.
            rw e (
              usage-commit-reserve deps.limits s.limiter s1 wallet amount now r fresh g amount u
                le),
      )

      reserved-LimiterEnd :
          balance < amount
          → (q : Limiter × Result Scope Reservation)
          → reserve deps.limits s.limiter wallet amount now ≡ q
          → LimiterEnd (grant_reserved marked answers wallet amount q)
      reserved-LimiterEnd low (s1, err scope) full = inr (
        refl,
        λ j t le.
            ap (λ q. usage q.0 j t) (sym full)
            ∙ (reserve_iff deps.limits s.limiter wallet amount now).1 scope (ap (λ q. q.1) full) j t
                le,
      )
      reserved-LimiterEnd low (s1, ok r) g =
          transfer-LimiterEnd low s1 r g (record marked { limiter = s1 }) refl answers.signature
            answers.landed

      compared-LimiterEnd :
          (b : Bool)
          → leb amount balance ≡ b
          → LimiterEnd (grant_compared deps marked answers wallet now amount b)
      compared-LimiterEnd true e = inr (refl, λ j t le. ap (λ x. usage x j t) same)
      compared-LimiterEnd false e =
          reserved-LimiterEnd (ground arith) (reserve deps.limits marked.limiter wallet amount now)
            (ap (λ x. reserve deps.limits x wallet amount now) (sym same))

    priced-LimiterEnd :
        (balance : Option ℕ) (x : Result DustError ℕ)
        → answers.balance ≡ balance
        → rent_dust_amount deps answers.rent ≡ x
        → LimiterEnd (grant_priced deps marked answers wallet now balance x)
    priced-LimiterEnd balance (err e) g h = inr (refl, λ j t le. ap (λ x. usage x j t) same)
    priced-LimiterEnd none (ok amount) g h = inr (refl, λ j t le. ap (λ x. usage x j t) same)
    priced-LimiterEnd (some balance) (ok amount) g h =
        compared-LimiterEnd amount balance h g (leb amount balance) refl

    finish-LimiterEnd : LimiterEnd (finish deps marked answers wallet now)
    unfolding finish
    finish-LimiterEnd =
        priced-LimiterEnd answers.balance (rent_dust_amount deps answers.rent) refl refl

  -- How a whole request ends.
  abbrev pub GrantEnd : DustState × Result DustError Dust → Type 0
  GrantEnd (s', res) =
      (Booked (s', res)
        × ((wallet == deps.treasury) ≡ false)
        × (has wallet s.marked ≡ false)
        × (has wallet s'.marked ≡ true))
      ⊎ ((is_grant res ≡ false)
          × SameUsage s'.limiter
          × ((w : ℕ) → has w s'.marked ≡ has w s.marked))

  marked-GrantEnd :
      (wallet == deps.treasury) ≡ false
      → has wallet s.marked ≡ false
      → (p : DustState × Result DustError Dust) → LimiterEnd p
      → FinishEnd deps (add wallet s.marked) wallet p
      → GrantEnd p
  marked-GrantEnd other new (s', res) (inl b) e =
      let g : is_grant res ≡ true = rw b.3 refl in
      inl (b, other, new, ground (arith, e, g, has-add wallet wallet s.marked))
  marked-GrantEnd other new (s', res) (inr (g, same)) e = inr (
    g,
    same,
    λ w.
        ground
          (arith, e, g, new, has-without w wallet (add wallet s.marked), has-add w wallet s.marked),
  )

module _ (deps : DustDeps) (s : DustState) (answers : DustAnswers) (wallet now : ℕ)
    (fresh : IsFresh s.limiter) where
  -- A request that is not granted leaves the usage of every wallet and the marks as they were. One
  -- that is granted comes from a wallet that is not the treasury and had no mark, is for the
  -- computed amount, which is more than the wallet holds, is booked at that amount, and leaves the wallet marked.
  pub grant_rent_dust_ends :
      GrantEnd deps s answers wallet now fresh (grant_rent_dust deps s answers wallet now)
  unfolding grant_rent_dust begin
  grant_rent_dust_ends = elim (Bool-cases (wallet == deps.treasury)) [
    | inl e ↦ rw e (inr (refl, λ j t le. refl, λ w. refl))
    | inr e ↦ elim (Bool-cases (has wallet s.marked)) [
      | inl f ↦ rw (e, f) (inr (refl, λ j t le. refl, λ w. refl))
      | inr f ↦
          subst (λ b. GrantEnd deps s answers wallet now fresh (begun deps answers wallet now b))
            (sym (first_of _ _ _ e f))
            (marked-GrantEnd deps s answers wallet now fresh e f
              (finish deps (record s { marked = add wallet s.marked }) answers wallet now)
              (finish-LimiterEnd deps s answers wallet now fresh
                (record s { marked = add wallet s.marked }) refl)
              (finish-FinishEnd deps (record s { marked = add wallet s.marked }) answers wallet
                now))
    ]
  ]
