-- ===== src/Treasury/History.antt =====
-- Histories of reserve credits, wraps, unwraps and reads in mock mode.
use relstate.Common.{
  ℕ, ◌+◌, ◌≤◌, ◌≡◌, inl, inr, ℤ, positive, Bool, Option, some, Result, ok, err, arith, Option-cases,
  Any-cases, at_least_zero, ltb, Bool-cases, sym, ◌∙◌,
}
use relstate.Common.Actions.{
  Ends, after-Ends, Ends-state, Action, ◌>>◌, ◌>>=◌, return, modify, throw_if,
}
use relstate.Treasury.{
  Cluster, ClusterLaws, mock, Treasury, TreasuryError, unseeded, seeded, InvariantReport,
  unwrap_exceeds_reserve, reserve, invariant, assert_invariant, credit_reserve, release_reserve,
  run, wrap, unwrap, wrap_and_make_confidential, Wrapped, confidential_move_amount, push, wrapped,
  unwrapped,
}
use relstate.Treasury.Backing.{
  Backed, Covered, Report, reserve-Ends, invariant-Ends, assert_invariant-Ends,
  credit_reserve-Backed, run-Ends,
}

some_injective : {a b : ℕ} → ◌≡◌ {A = Option ℕ} (some a) (some b) → a ≡ b
some_injective e = cc

module _ {S : Type 0} (c : Cluster S) (laws : ClusterLaws c) (account : Bool) where
  abbrev B : Treasury S → Type 0
  B = Backed c laws account

  abbrev StaysBacked : {A : Type 0} → Treasury S × Result TreasuryError A → Type 0
  StaysBacked = Ends B (λ _. B)

  report-StaysBacked : (s : Treasury S) → B s → StaysBacked (invariant c mock account s)
  report-StaysBacked s b = go (invariant c mock account s) (invariant-Ends c laws account s b)
    where
      go :
          (p : Treasury S × Result TreasuryError InvariantReport)
          → Ends B (Report c laws account 0) p
          → StaysBacked p
      go (s', err e) h = h
      go (s', ok a) h = λ g. omega (arith, h.3)

  -- The rests of `wrap` after the mint and after the check.
  abbrev wrap_minted :
      ℕ
      → ℕ
      → InvariantReport
      → Unit {0}
      → Action (Treasury S) TreasuryError (InvariantReport × InvariantReport)
  wrap_minted a ref before _ = do
    modify (push c mock account wrapped a ref)
    after_wrap ← invariant c mock account
    return (before, after_wrap)

  abbrev wrap_checked :
      ℕ
      → ℕ
      → ℕ
      → InvariantReport
      → Action (Treasury S) TreasuryError (InvariantReport × InvariantReport)
  wrap_checked wallet a ref before =
      run c mock account (c.mint_to wallet a) >>= wrap_minted a ref before

  wrap-StaysBacked :
      (wallet : ℕ) (amount : ℤ) (ref : ℕ) (s : Treasury S)
      → B s
      → StaysBacked (wrap c mock account wallet amount ref s)
  unfolding wrap
  wrap-StaysBacked wallet amount ref s b = elim (Option-cases (positive amount)) [
    | inl e ↦ rw e b
    | inr (a, e) ↦ rw e (
        after-Ends B (Report c laws account a) (λ _. B) (assert_invariant c mock account a s)
          (wrap_checked wallet a ref) (assert_invariant-Ends c laws account a s b)
          (λ before s1 h.
            after-Ends B (λ _. B) (λ _. B) (run c mock account (c.mint_to wallet a) s1)
              (wrap_minted a ref before)
              (run-Ends c laws account (c.mint_to wallet a) B (λ _. B) s1
                (λ f g. omega (arith, h.3, laws.mint_to_le wallet a s1.cluster))
                (λ f g. omega (arith, h.3, laws.mint_to_le wallet a s1.cluster)))
              (λ _ s2 b2.
                after-Ends B (λ _. B) (λ _. B)
                  (invariant c mock account (push c mock account wrapped a ref s2))
                  (λ r. return (before, r))
                  (report-StaysBacked (push c mock account wrapped a ref s2) b2) (λ r s3 b3. b3))))
  ]

  release-StaysBacked :
      (amount : ℤ) (ref : ℕ) (s : Treasury S)
      → ((a : ℕ)
          → positive amount ≡ some a
          → s.seeding ≡ seeded
          → c.supply_of s.cluster + a ≤ s.mock_reserve)
      → B s
      → StaysBacked (release_reserve c mock account amount ref s)
  unfolding release_reserve
  release-StaysBacked amount ref s room b = elim (Option-cases (positive amount)) [
    | inl e ↦ rw e b
    | inr (a, e) ↦ rw e (elim (Bool-cases (ltb s.mock_reserve a)) [
      | inl f ↦ rw f b
      | inr f ↦ rw f (λ g. omega (arith, room a e g))
    ])
  ]

  -- The rests of `unwrap` after the burn, after the read of the reserve, and from that read on.
  abbrev unwrap_burned : ℤ → ℕ → ℕ → Unit {0} → Action (Treasury S) TreasuryError InvariantReport
  unwrap_burned amount a ref _ = do
    modify (push c mock account unwrapped a ref)
    _ ← release_reserve c mock account amount ref
    invariant c mock account

  abbrev unwrap_read : ℕ → ℤ → ℕ → ℕ → ℕ → Action (Treasury S) TreasuryError InvariantReport
  unwrap_read owner amount a ref available = do
    throw_if (ltb available a) unwrap_exceeds_reserve
    run c mock account (c.burn owner a) >>= unwrap_burned amount a ref

  abbrev unwrap_open : ℕ → ℤ → ℕ → ℕ → Action (Treasury S) TreasuryError InvariantReport
  unwrap_open owner amount a ref = reserve c mock account >>= unwrap_read owner amount a ref

  abbrev Burned : ℕ → Treasury S → Type 0
  Burned a s = B s × (s.seeding ≡ seeded → c.supply_of s.cluster + a ≤ s.mock_reserve)

  unwrap_open-StaysBacked :
      (owner : ℕ) (amount : ℤ) (a ref : ℕ) (s : Treasury S)
      → positive amount ≡ some a
      → B s
      → StaysBacked (unwrap_open owner amount a ref s)
  unwrap_open-StaysBacked owner amount a ref s e b =
      after-Ends B (Covered c laws account 0) (λ _. B) (reserve c mock account s)
        (unwrap_read owner amount a ref) (reserve-Ends c laws account s b)
        (λ available s1 h. elim (Bool-cases (ltb available a)) [
          | inl f ↦ rw f (λ g. omega (arith, h.2))
          | inr f ↦ rw f (
              after-Ends B (λ _. Burned a) (λ _. B) (run c mock account (c.burn owner a) s1)
                (unwrap_burned amount a ref)
                (run-Ends c laws account (c.burn owner a) B (λ _. Burned a) s1
                  (λ n g. omega (arith, h.2, laws.burn_le owner a s1.cluster))
                  (λ d. (
                    λ g. omega (arith, h.2, laws.burn_le owner a s1.cluster),
                    λ g. omega (arith, h.2, laws.burn_lands owner a s1.cluster d),
                  )))
                (λ _ s2 q.
                  after-Ends B (λ _. B) (λ _. B)
                    (release_reserve c mock account amount ref
                      (push c mock account unwrapped a ref s2))
                    (λ _. invariant c mock account)
                    (release-StaysBacked amount ref (push c mock account unwrapped a ref s2)
                      (λ a' e' g.
                        let same : a' ≡ a = some_injective (sym e' ∙ e) in rw same (q.1 g))
                      q.0)
                    (λ _ s3 b3. report-StaysBacked s3 b3)))
        ])

  unwrap-StaysBacked :
      (owner : ℕ) (amount : ℤ) (ref : ℕ) (s : Treasury S)
      → B s
      → StaysBacked (unwrap c mock account owner amount ref s)
  unfolding unwrap
  unwrap-StaysBacked owner amount ref s b = elim (Option-cases (positive amount)) [
    | inl e ↦ rw e b
    | inr (a, e) ↦ rw e (elim (Option-cases (c.fetch_exists owner s.cluster)) [
      | inl f ↦ rw f b
      | inr (exists, f) ↦ rw f (elim (Bool-cases exists) [
        | inr none_there ↦ rw none_there b
        | inl there ↦ rw there (unwrap_open-StaysBacked owner amount a ref s e b)
      ])
    ])
  ]

  -- One request in mock mode, or a change of the cluster that others make: without the treasury's
  -- key none raises the supply.
  pub data Step : Treasury S → Treasury S → Type 0 where
    credits :
        (s : Treasury S) (amount : ℤ) (ref : ℕ)
        → Step s (credit_reserve c mock account amount ref s).0
    wraps :
        (s : Treasury S) (wallet : ℕ) (amount : ℤ) (ref : ℕ)
        → Step s (wrap c mock account wallet amount ref s).0
    wraps_confidential :
        (s : Treasury S) (owner : ℕ) (amount holdback : ℤ) (ref : ℕ)
        → Step s (wrap_and_make_confidential c mock account owner amount holdback ref s).0
    unwraps :
        (s : Treasury S) (owner : ℕ) (amount : ℤ) (ref : ℕ)
        → Step s (unwrap c mock account owner amount ref s).0
    reads : (s : Treasury S) → Step s (invariant c mock account s).0
    others :
        (s : Treasury S) (cluster : S)
        → c.supply_of cluster ≤ c.supply_of s.cluster
        → Step s (record s { cluster = cluster })

  pub data Reach (s : Treasury S) : Treasury S → Type 0 where
    here : Reach s s
    next : {t u : Treasury S} → Reach s t → Step t u → Reach s u

  abbrev moved_report :
      ℤ → ℤ → InvariantReport × InvariantReport → Action (Treasury S) TreasuryError Wrapped
  moved_report moved holdback reports = return (record {
    confidential_amount = moved;
    public_remaining = holdback;
    invariant_after = reports.1;
  })

  abbrev move_wrapped :
      ℕ → ℤ → ℤ → InvariantReport × InvariantReport → Action (Treasury S) TreasuryError Wrapped
  move_wrapped owner moved holdback reports = do
    run c mock account (c.move_confidential owner (at_least_zero moved))
    moved_report moved holdback reports

  wrap_and_make_confidential-StaysBacked :
      (owner : ℕ) (amount holdback : ℤ) (ref : ℕ) (s : Treasury S)
      → B s
      → StaysBacked (wrap_and_make_confidential c mock account owner amount holdback ref s)
  unfolding wrap_and_make_confidential
  wrap_and_make_confidential-StaysBacked owner amount holdback ref s b =
      elim (Any-cases (confidential_move_amount amount holdback)) [
        | inr (x, e) ↦ rw e b
        | inl (moved, e) ↦ rw e (
            after-Ends B (λ _. B) (λ _. B) (wrap c mock account owner amount ref s)
              (move_wrapped owner moved holdback) (wrap-StaysBacked owner amount ref s b)
              (λ reports s1 b1.
                after-Ends B (λ _. B) (λ _. B)
                  (run c mock account (c.move_confidential owner (at_least_zero moved)) s1)
                  (λ _. moved_report moved holdback reports)
                  (run-Ends c laws account (c.move_confidential owner (at_least_zero moved)) B
                    (λ _. B) s1
                    (λ _ g.
                      omega (arith, b1 g, laws.move_keeps owner (at_least_zero moved) s1.cluster))
                    (λ _ g.
                      omega (arith, b1 g, laws.move_keeps owner (at_least_zero moved) s1.cluster)))
                  (λ _ s2 b2. b2)))
      ]

  Step-Backed : {s t : Treasury S} → Step s t → B s → B t
  Step-Backed (credits s amount ref) b = credit_reserve-Backed c laws account amount ref s b
  Step-Backed (wraps s wallet amount ref) b =
      Ends-state B (λ _. B) (wrap c mock account wallet amount ref s)
        (wrap-StaysBacked wallet amount ref s b) (λ _ _ q. q)
  Step-Backed (wraps_confidential s owner amount holdback ref) b =
      Ends-state B (λ _. B) (wrap_and_make_confidential c mock account owner amount holdback ref s)
        (wrap_and_make_confidential-StaysBacked owner amount holdback ref s b) (λ _ _ q. q)
  Step-Backed (unwraps s owner amount ref) b =
      Ends-state B (λ _. B) (unwrap c mock account owner amount ref s)
        (unwrap-StaysBacked owner amount ref s b) (λ _ _ q. q)
  Step-Backed (reads s) b =
      Ends-state B (λ _. B) (invariant c mock account s) (report-StaysBacked s b) (λ _ _ q. q)
  Step-Backed (others s cluster le) b = λ g. omega (arith, le, b g)

  -- In mock mode, once the reserve has been seeded from the supply, no history of credits, wraps,
  -- unwraps and reads, whose calls may return or throw, landed or not, lets the supply of rUSDC pass
  -- the reserve.
  pub Reach-Backed :
      {s t : Treasury S}
      → Reach s t
      → s.seeding ≡ unseeded
      → t.seeding ≡ seeded
      → c.supply_of t.cluster ≤ t.mock_reserve
  Reach-Backed {s} r fresh = go r (λ g. cc)
    where
      go : {t : Treasury S} → Reach s t → B s → B t
      go here b = b
      go (next q st) b = Step-Backed st (go q b)
