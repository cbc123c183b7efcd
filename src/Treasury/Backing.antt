-- ===== src/Treasury/Backing.antt =====
-- The backing of rUSDC: what each call of the treasury does to the supply and the reserve.
use relstate.Common.{
  ℕ, ◌+◌, ◌≤◌, ◌≡◌, refl, ◌⊎◌, inl, inr, ℤ, positive, Bool, true, false, Result, ok, err, arith,
  Option-cases, ltb, leb, Bool-cases, ap, sym, ◌∙◌, minus,
}
use relstate.Common.Actions.{
  Ends, after, after-Ends, Ends-state, Action, return, throw_if, pair, ◌>>◌,
}
use relstate.Treasury.{
  Cluster, ClusterLaws, mock, Treasury, TreasuryError, Seeding, unseeded, seeded, failed,
  InvariantReport, supply, seed, reserve, invariant, await_seeding, source_of, invariant_violation,
  assert_invariant, credit_reserve, run,
}

Seeding-cases : (x : Seeding) → (x ≡ unseeded) ⊎ ((x ≡ seeded) ⊎ (x ≡ failed))
Seeding-cases unseeded = inl refl
Seeding-cases seeded = inr (inl refl)
Seeding-cases failed = inr (inr refl)

module _ {S : Type 0} (c : Cluster S) (laws : ClusterLaws c) (account : Bool) where
  -- Once the reserve has been seeded, it covers the supply.
  abbrev pub Backed : Treasury S → Type 0
  Backed s = s.seeding ≡ seeded → c.supply_of s.cluster ≤ s.mock_reserve

  abbrev pub Covered : ℕ → ℕ → Treasury S → Type 0
  Covered slack available s =
      (s.seeding ≡ seeded)
      × (available ≡ s.mock_reserve)
      × (c.supply_of s.cluster + slack ≤ s.mock_reserve)

  seed-Covered :
      (s : Treasury S)
      → Backed s
      → ((seed c mock account s).seeding ≡ failed)
        ⊎ Covered 0 (seed c mock account s).mock_reserve (seed c mock account s)
  unfolding seed
  seed-Covered s b = elim (Seeding-cases s.seeding) [
    | inl e ↦ elim (Option-cases (c.fetch_supply s.cluster)) [
      | inl none_read ↦ rw (e, none_read) (inl refl)
      | inr (n, read) ↦
          rw (e, read) (inr (refl, refl, omega (arith, laws.fetch_supply_reads s.cluster n read)))
    ]
    | inr (inl e) ↦ rw e (inr (refl, refl, omega (arith, b e)))
    | inr (inr e) ↦ rw e (inl refl)
  ]

  pub reserve-Ends :
      (s : Treasury S) → Backed s → Ends Backed (Covered 0) (reserve c mock account s)
  unfolding reserve
  reserve-Ends s b = elim (seed-Covered s b) [ inl e ↦ rw e (λ g. cc) | inr h ↦ rw h.0 h ]

  seed-cluster : (s : Treasury S) → (seed c mock account s).cluster ≡ s.cluster
  unfolding seed
  seed-cluster s = elim (Seeding-cases s.seeding) [
    | inl e ↦ elim (Option-cases (c.fetch_supply s.cluster)) [
      | inl none_read ↦ rw (e, none_read) refl
      | inr (n, read) ↦ rw (e, read) refl
    ]
    | inr (inl e) ↦ rw e refl
    | inr (inr e) ↦ rw e refl
  ]

  await-cluster :
      (x : Seeding) (s : Treasury S)
      → (after {B = ℕ}
          (λ _ s'. (s', ok s'.mock_reserve))
          (await_seeding c mock account x s).0
          (await_seeding c mock account x s).1).0.cluster
        ≡ s.cluster
  await-cluster unseeded s = refl
  await-cluster seeded s = refl
  await-cluster failed s = refl

  -- `reserve` leaves the cluster as it is.
  reserve-cluster : (s : Treasury S) → (reserve c mock account s).0.cluster ≡ s.cluster
  unfolding reserve seed
  reserve-cluster s =
      await-cluster (seed c mock account s).seeding (seed c mock account s) ∙ seed-cluster s

  abbrev pub Report : ℕ → InvariantReport → Treasury S → Type 0
  Report slack report s =
      (s.seeding ≡ seeded)
      × (report.reserve ≡ s.mock_reserve)
      × (report.supply ≡ c.supply_of s.cluster)
      × (c.supply_of s.cluster + slack ≤ s.mock_reserve)

  abbrev report : ℕ × ℕ → Action (Treasury S) TreasuryError InvariantReport
  report read = return (record {
    supply = read.0;
    reserve = read.1;
    is_ok = leb read.0 read.1;
    headroom = minus read.1 read.0;
    source = source_of mock;
  })

  report-Ends :
      (n : ℕ) (p : Treasury S × Result TreasuryError ℕ)
      → Ends Backed (Covered 0) p
      → n ≡ c.supply_of p.0.cluster
      → Ends Backed (Report 0) (after report p.0 (pair (ok n) p.1))
  report-Ends n (s, err e) h read = h
  report-Ends n (s, ok a) h read = (h.0, h.1, read, h.2)

  pub invariant-Ends :
      (s : Treasury S) → Backed s → Ends Backed (Report 0) (invariant c mock account s)
  unfolding invariant supply
  invariant-Ends s b = elim (Option-cases (c.fetch_supply s.cluster)) [
    | inl e ↦ rw e (
        Ends-state Backed (Covered 0) (reserve c mock account s) (reserve-Ends s b)
          (λ a s' h g. omega (arith, h.2)))
    | inr (n, e) ↦ rw e (
        report-Ends n (reserve c mock account s) (reserve-Ends s b)
          (laws.fetch_supply_reads s.cluster n e ∙ ap c.supply_of (sym (reserve-cluster s))))
  ]

  pub assert_invariant-Ends :
      (a : ℕ) (s : Treasury S)
      → Backed s
      → Ends Backed (Report a) (assert_invariant c mock account a s)
  unfolding assert_invariant
  assert_invariant-Ends a s b =
      after-Ends Backed (Report 0) (Report a) (invariant c mock account s)
        (λ r. throw_if (ltb r.reserve (r.supply + a)) invariant_violation >> return r)
        (invariant-Ends s b)
        (λ r s' h. elim (Bool-cases (ltb r.reserve (r.supply + a))) [
          | inl e ↦ rw e (λ g. omega (arith, h.3))
          | inr e ↦ rw e (h.0, h.1, h.2, ground arith)
        ])

  pub credit_reserve-Backed :
      (amount : ℤ) (ref : ℕ) (s : Treasury S)
      → Backed s
      → Backed (credit_reserve c mock account amount ref s).0
  unfolding credit_reserve
  credit_reserve-Backed amount ref s b = elim (Option-cases (positive amount)) [
    | inl e ↦ rw e b
    | inr (a, e) ↦ rw e (λ g. omega (arith, b g))
  ]

  -- A plan that leaves the supply within `bound` of what it was.
  pub run-Ends :
      (plan : S → S × Bool) (I : Treasury S → Type 0) (Q : Unit {0} → Treasury S → Type 0)
      (s : Treasury S)
      → ((plan s.cluster).1 ≡ false → I (record s { cluster = (plan s.cluster).0 }))
      → ((plan s.cluster).1 ≡ true → Q tt (record s { cluster = (plan s.cluster).0 }))
      → Ends I Q (run c mock account plan s)
  run-Ends plan I Q s f t = elim (Bool-cases (plan s.cluster).1) [
    | inl e ↦ rw e (t e)
    | inr e ↦ rw e (f e)
  ]
