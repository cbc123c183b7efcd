-- ===== src/Treasury/Ledger.antt =====
-- How often the reserve is credited for a reference, as the ledger of the treasury has it.
use relstate.Common.{
  ℕ, ◌+◌, ◌≤◌, ◌≡◌, inl, inr, ℤ, positive, Bool, true, false, List, [], ◌∷◌, ◌++◌, Option, none,
  some, Result, ok, err, arith, Option-cases, ltb, ◌==◌, ◌&&◌, if◌then◌else◌, not, at_least_zero,
}
use relstate.Common.Actions.{
  Ends, after, after-Ends, Action, return, throw_if, or_throw, modify, pair, ◌>>◌, ◌>>=◌,
}
use relstate.Treasury.{
  Cluster, Mode, mock, live, Treasury, TreasuryError, rpc_failed, Kind, credit, debit, wrapped,
  unwrapped, Movement, Seeding, unseeded, seeded, failed, InvariantReport, Wrapped, supply, seed,
  seed_from, reserve, invariant, await_seeding, invariant_violation, assert_invariant,
  credit_reserve, run, push, run_failed, no_reserve_account, reserve_in, wrap,
  wrap_and_make_confidential, confidential_move_amount,
}

abbrev is_credit : Kind → Bool
is_credit credit = true
is_credit debit = false
is_credit wrapped = false
is_credit unwrapped = false

abbrev pub times_credited : ℕ → List Movement → ℕ
times_credited r [] = 0
times_credited r (m ∷ ms) = (if is_credit m.kind && m.ref == r then 1 else 0) + times_credited r ms

times_credited-append :
    (r : ℕ) (ms ns : List Movement)
    → times_credited r (ms ++ ns) ≡ times_credited r ms + times_credited r ns
times_credited-append r [] ns = omega arith
times_credited-append r (m ∷ ms) ns = omega (arith, times_credited-append r ms ns)

module _ {S : Type 0} (c : Cluster S) (mode : Mode) (account : Bool) (r n : ℕ) where
  -- The reserve has been credited for `r` that often.
  abbrev pub Times : Treasury S → Type 0
  Times s = times_credited r s.ledger ≡ n

  abbrev pub StaysTimes : {A : Type 0} → Treasury S × Result TreasuryError A → Type 0
  StaysTimes = Ends Times (λ _. Times)

  seed_from-Times : (x : Seeding) (s : Treasury S) → Times s → Times (seed_from c mode account x s)
  seed_from-Times unseeded s h = elim (Option-cases (c.fetch_supply s.cluster)) [
    | inl e ↦ rw e h
    | inr (m, e) ↦ rw e h
  ]
  seed_from-Times seeded s h = h
  seed_from-Times failed s h = h

  await-StaysTimes :
      (x : Seeding) (s : Treasury S) → Times s → StaysTimes (await_seeding c mode account x s)
  await-StaysTimes unseeded s h = h
  await-StaysTimes seeded s h = h
  await-StaysTimes failed s h = h

  pub finishes :
      {A B : Type 0} (p : Treasury S × Result TreasuryError A)
      (rest : A → Action (Treasury S) TreasuryError B)
      → StaysTimes p
      → ((a : A) (s : Treasury S) → Times s → StaysTimes (rest a s))
      → StaysTimes (after rest p.0 p.1)
  finishes p rest h k = after-Ends Times (λ _. Times) (λ _. Times) p rest h k

  or_throw-StaysTimes :
      {A : Type 0} (o : Option A) (e : TreasuryError) (s : Treasury S)
      → Times s
      → StaysTimes (or_throw o e s)
  or_throw-StaysTimes none e s h = h
  or_throw-StaysTimes (some a) e s h = h

  throw_if-StaysTimes :
      (b : Bool) (e : TreasuryError) (s : Treasury S) → Times s → StaysTimes (throw_if b e s)
  throw_if-StaysTimes true e s h = h
  throw_if-StaysTimes false e s h = h

  reserve_in-StaysTimes :
      (m : Mode) (s : Treasury S) → Times s → StaysTimes (reserve_in c mode account m s)
  unfolding seed
  reserve_in-StaysTimes mock s h =
      let seeded_state = seed_from c mode account s.seeding s in
      finishes (await_seeding c mode account seeded_state.seeding seeded_state)
        (λ _ t. (t, ok t.mock_reserve))
        (await-StaysTimes seeded_state.seeding seeded_state (seed_from-Times s.seeding s h))
        (λ _ t g. g)
  reserve_in-StaysTimes live s h =
      finishes (throw_if (not account) no_reserve_account s)
        (λ _ t. or_throw (c.fetch_reserve t.cluster) rpc_failed t)
        (throw_if-StaysTimes (not account) no_reserve_account s h)
        (λ _ t g. or_throw-StaysTimes (c.fetch_reserve t.cluster) rpc_failed t g)

  reserve-StaysTimes : (s : Treasury S) → Times s → StaysTimes (reserve c mode account s)
  unfolding reserve
  reserve-StaysTimes s h = reserve_in-StaysTimes mode s h

  paired :
      (x : Result TreasuryError ℕ) (p : Treasury S × Result TreasuryError ℕ)
      (rest : ℕ × ℕ → InvariantReport)
      → StaysTimes p
      → StaysTimes (after {E = TreasuryError} (λ read. return (rest read)) p.0 (pair x p.1))
  paired (err e) (s, err e') rest h = h
  paired (err e) (s, ok a) rest h = h
  paired (ok a) (s, err e) rest h = h
  paired (ok a) (s, ok b) rest h = h

  supplied :
      (o : Option ℕ) (s : Treasury S)
      → Times s
      → Times (or_throw {E = TreasuryError} o rpc_failed s).0
  supplied none s h = h
  supplied (some n) s h = h

  invariant-StaysTimes : (s : Treasury S) → Times s → StaysTimes (invariant c mode account s)
  unfolding invariant supply
  invariant-StaysTimes s h =
      let read = or_throw {E = TreasuryError} (c.fetch_supply s.cluster) rpc_failed s in
      paired read.1 (reserve c mode account read.0) _
        (reserve-StaysTimes read.0 (supplied (c.fetch_supply s.cluster) s h))

  assert_invariant-StaysTimes :
      (a : ℕ) (s : Treasury S) → Times s → StaysTimes (assert_invariant c mode account a s)
  unfolding assert_invariant
  assert_invariant-StaysTimes a s h =
      finishes (invariant c mode account s)
        (λ r. throw_if (ltb r.reserve (r.supply + a)) invariant_violation >> return r)
        (invariant-StaysTimes s h)
        (λ r t g.
          finishes (throw_if (ltb r.reserve (r.supply + a)) invariant_violation t) (λ _. return r)
            (throw_if-StaysTimes (ltb r.reserve (r.supply + a)) invariant_violation t g)
            (λ _ u k. k))

  run-StaysTimes :
      (plan : S → S × Bool) (s : Treasury S) → Times s → StaysTimes (run c mode account plan s)
  run-StaysTimes plan s h =
      throw_if-StaysTimes (not (plan s.cluster).1) run_failed
        (record s { cluster = (plan s.cluster).0 }) h

  wrapped-Times :
      (a ref : ℕ) (s : Treasury S) → Times s → Times (push c mode account wrapped a ref s)
  wrapped-Times a ref s h = omega (
    arith,
    h,
    times_credited-append r s.ledger (record { kind = wrapped; amount = a; ref = ref } ∷ []),
  )

  -- The rests of `wrap` after the check and after the mint.
  abbrev minted :
      ℕ
      → ℕ
      → InvariantReport
      → Unit {0}
      → Action (Treasury S) TreasuryError (InvariantReport × InvariantReport)
  minted a ref before _ = do
    modify (push c mode account wrapped a ref)
    later ← invariant c mode account
    return (before, later)

  abbrev checked :
      ℕ
      → ℕ
      → ℕ
      → InvariantReport
      → Action (Treasury S) TreasuryError (InvariantReport × InvariantReport)
  checked wallet a ref before = run c mode account (c.mint_to wallet a) >>= minted a ref before

  -- `wrap` mints, and credits the reserve nothing.
  pub wrap-StaysTimes :
      (wallet : ℕ) (amount : ℤ) (ref : ℕ) (s : Treasury S)
      → Times s
      → StaysTimes (wrap c mode account wallet amount ref s)
  unfolding wrap
  wrap-StaysTimes wallet amount ref s h = elim (Option-cases (positive amount)) [
    | inl e ↦ rw e h
    | inr (a, e) ↦ rw e (
        finishes (assert_invariant c mode account a s) (checked wallet a ref)
          (assert_invariant-StaysTimes a s h)
          (λ before t g.
            finishes (run c mode account (c.mint_to wallet a) t) (minted a ref before)
              (run-StaysTimes (c.mint_to wallet a) t g)
              (λ _ u k.
                finishes (invariant c mode account (push c mode account wrapped a ref u))
                  (λ later. return (before, later))
                  (invariant-StaysTimes (push c mode account wrapped a ref u)
                    (wrapped-Times a ref u k))
                  (λ later v l. l))))
  ]

  abbrev moving :
      ℕ → ℤ → ℤ → InvariantReport × InvariantReport → Action (Treasury S) TreasuryError Wrapped
  moving wallet holdback moved reports = do
    run c mode account (c.move_confidential wallet (at_least_zero moved))
    return (record {
      confidential_amount = moved;
      public_remaining = holdback;
      invariant_after = reports.1;
    })

  abbrev moving_from : ℕ → ℤ → ℤ → ℕ → ℤ → Action (Treasury S) TreasuryError Wrapped
  moving_from wallet amount holdback ref moved =
      wrap c mode account wallet amount ref >>= moving wallet holdback moved

  moving_from-StaysTimes :
      (wallet : ℕ) (amount holdback : ℤ) (ref : ℕ) (s : Treasury S)
      → Times s
      → (x : Result TreasuryError ℤ)
      → StaysTimes (after (moving_from wallet amount holdback ref) s x)
  moving_from-StaysTimes wallet amount holdback ref s h (err e) = h
  moving_from-StaysTimes wallet amount holdback ref s h (ok moved) =
      finishes (wrap c mode account wallet amount ref s) (moving wallet holdback moved)
        (wrap-StaysTimes wallet amount ref s h)
        (λ reports t g.
          finishes (run c mode account (c.move_confidential wallet (at_least_zero moved)) t)
            (λ _. return (record {
              confidential_amount = moved;
              public_remaining = holdback;
              invariant_after = reports.1;
            }))
            (run-StaysTimes (c.move_confidential wallet (at_least_zero moved)) t g) (λ _ u k. k))

  pub wrap_and_make_confidential-StaysTimes :
      (wallet : ℕ) (amount holdback : ℤ) (ref : ℕ) (s : Treasury S)
      → Times s
      → StaysTimes (wrap_and_make_confidential c mode account wallet amount holdback ref s)
  unfolding wrap_and_make_confidential
  wrap_and_make_confidential-StaysTimes wallet amount holdback ref s h =
      moving_from-StaysTimes wallet amount holdback ref s h
        (confidential_move_amount amount holdback)

-- A credit to the reserve is for its own reference, and is one.
pub credit_reserve-times :
    {S : Type 0} (c : Cluster S) (mode : Mode) (account : Bool) (amount : ℤ) (ref r : ℕ)
    (s : Treasury S)
    → times_credited r (credit_reserve c mode account amount ref s).0.ledger
      ≤ times_credited r s.ledger + (if ref == r then 1 else 0)
unfolding credit_reserve
credit_reserve-times c mock account amount ref r s = elim (Option-cases (positive amount)) [
  | inl e ↦ rw e (omega arith)
  | inr (a, e) ↦ rw e (
      ground (
        arith,
        times_credited-append r s.ledger (record { kind = credit; amount = a; ref = ref } ∷ []),
      ))
]
credit_reserve-times c live account amount ref r s = elim (Option-cases (positive amount)) [
  | inl e ↦ rw e (omega arith)
  | inr (a, e) ↦ rw e (
      ground (
        arith,
        times_credited-append r s.ledger (record { kind = credit; amount = a; ref = ref } ∷ []),
      ))
]
