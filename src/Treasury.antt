-- ===== src/Treasury.antt =====
-- backend/src/treasury.ts: the reserve that backs rUSDC, and the calls that mint and burn it.
-- The cluster is a parameter: its state, the reads of it, and the two instruction plans, each with
-- whether the call returns. A call that throws may still have landed; if it has
-- not by then, it never does. Requests run one at a time, so the check and the mint of `wrap` are
-- one step though an await stands between them.
-- The ledger's time stamps are left out; a reference is a number.
pub mod Backing
pub mod History
pub mod Ledger
mod Examples
use relstate.Common.{
  ℕ, zero, suc, ◌+◌, ◌-◌, ◌≤◌, ◌≡◌, ℤ, pos, negsuc, minus, positive, at_least_zero, Bool, true,
  false, not, ◌&&◌, List, [], ◌∷◌, ◌++◌, Option, none, some, Result, ok, err, ltb, leb, ◌==◌,
  if◌then◌else◌,
}
use relstate.Common.Actions.{Action, ◌>>=◌, ◌>>◌, return, throw, throw_if, or_throw, modify, both}

-- What the treasury uses of the cluster. `none` and `false` stand for calls that throw.
pub record Cluster (S : Type 0) : Type 0 where
  pub supply_of : S → ℕ
  pub fetch_supply : S → Option ℕ
  pub fetch_reserve : S → Option ℕ
  pub fetch_exists : ℕ → S → Option Bool
  pub mint_to : ℕ → ℕ → S → S × Bool
  pub burn : ℕ → ℕ → S → S × Bool
  pub move_confidential : ℕ → ℕ → S → S × Bool

-- What Token-2022 documents: a mint adds its amount to the supply and a burn takes it off, if they
-- land; a call that returns has landed; a confidential deposit leaves the supply.
pub record ClusterLaws {S : Type 0} (c : Cluster S) : Type 0 where
  pub fetch_supply_reads : (s : S) (n : ℕ) → c.fetch_supply s ≡ some n → n ≡ c.supply_of s
  pub mint_to_le : (w a : ℕ) (s : S) → c.supply_of (c.mint_to w a s).0 ≤ c.supply_of s + a
  pub mint_to_lands :
      (w a : ℕ) (s : S)
      → (c.mint_to w a s).1 ≡ true
      → c.supply_of (c.mint_to w a s).0 ≡ c.supply_of s + a
  pub burn_le : (w a : ℕ) (s : S) → c.supply_of (c.burn w a s).0 ≤ c.supply_of s
  pub burn_lands :
      (w a : ℕ) (s : S) → (c.burn w a s).1 ≡ true → c.supply_of (c.burn w a s).0 + a ≡ c.supply_of s
  pub move_keeps : (w a : ℕ) (s : S) → c.supply_of (c.move_confidential w a s).0 ≡ c.supply_of s

pub data Mode : Type 0 where
  mock live : Mode

pub data TreasuryError : Type 0 where
  not_positive invariant_violation no_reserve_account rpc_failed run_failed : TreasuryError
  release_exceeds_reserve unwrap_exceeds_reserve no_token_account : TreasuryError
  negative_holdback holdback_exceeds_amount : TreasuryError

pub data Kind : Type 0 where
  credit debit wrapped unwrapped : Kind

pub record Movement : Type 0 where
  pub kind : Kind
  pub amount : ℕ
  pub ref : ℕ

-- The promise `mockReserveSeeding`: undefined, resolved, or rejected.
pub data Seeding : Type 0 where
  unseeded seeded failed : Seeding

pub record Treasury (S : Type 0) : Type 0 where
  pub cluster : S
  pub mock_reserve : ℕ
  pub seeding : Seeding
  pub ledger : List Movement

pub data ReserveSource : Type 0 where
  onchain mock_ledger : ReserveSource

pub record InvariantReport : Type 0 where
  pub supply : ℕ
  pub reserve : ℕ
  pub is_ok : Bool
  pub headroom : ℤ
  pub source : ReserveSource

-- What `wrapAndMakeConfidential` returns.
pub record Wrapped : Type 0 where
  pub confidential_amount : ℤ
  pub public_remaining : ℤ
  pub invariant_after : InvariantReport

abbrev pub source_of : Mode → ReserveSource
source_of mock = mock_ledger
source_of live = onchain

-- The two checks and the difference.
unfoldable pub confidential_move_amount : ℤ → ℤ → Result TreasuryError ℤ
confidential_move_amount total (negsuc h) = err negative_holdback
confidential_move_amount (negsuc t) (pos h) = err holdback_exceeds_amount
confidential_move_amount (pos t) (pos h) =
    if ltb t h then err holdback_exceeds_amount else ok (pos (t - h))

module _ {S : Type 0} (c : Cluster S) (mode : Mode) (has_reserve_account : Bool) where
  abbrev Call : Type 0 → Type 0
  Call A = Action (Treasury S) TreasuryError A

  unfoldable pub supply : Action (Treasury S) TreasuryError ℕ
  supply s = or_throw (c.fetch_supply s.cluster) rpc_failed s

  -- `mockReserveSeeding ??= supply().then(...)`: a rejected promise stays.
  abbrev pub seed_with : Option ℕ → Treasury S → Treasury S
  seed_with none s = record s { seeding = failed }
  seed_with (some n) s = record s { seeding = seeded; mock_reserve = s.mock_reserve + n }

  abbrev pub seed_from : Seeding → Treasury S → Treasury S
  seed_from unseeded s = seed_with (c.fetch_supply s.cluster) s
  seed_from seeded s = s
  seed_from failed s = s

  unfoldable pub seed : Treasury S → Treasury S
  seed s = seed_from s.seeding s

  -- `await mockReserveSeeding`.
  abbrev pub await_seeding : Seeding → Action (Treasury S) TreasuryError (Unit {0})
  await_seeding failed = throw rpc_failed
  await_seeding seeded = return tt
  await_seeding unseeded = throw rpc_failed

  abbrev pub reserve_in : Mode → Action (Treasury S) TreasuryError ℕ
  reserve_in mock = do modify seed; λ s. await_seeding s.seeding s; λ s. (s, ok s.mock_reserve)
  reserve_in live = do
    throw_if (not has_reserve_account) no_reserve_account
    λ s. or_throw (c.fetch_reserve s.cluster) rpc_failed s

  unfoldable pub reserve : Action (Treasury S) TreasuryError ℕ
  unfolding seed
  reserve = reserve_in mode

  unfoldable pub invariant : Action (Treasury S) TreasuryError InvariantReport
  invariant = do
    read ← both supply reserve
    return (record {
      supply = read.0;
      reserve = read.1;
      is_ok = leb read.0 read.1;
      headroom = minus read.1 read.0;
      source = source_of mode;
    })

  unfoldable pub assert_invariant : ℕ → Action (Treasury S) TreasuryError InvariantReport
  assert_invariant additional = do
    report ← invariant
    throw_if (ltb report.reserve (report.supply + additional)) invariant_violation
    return report

  abbrev pub push : Kind → ℕ → ℕ → Treasury S → Treasury S
  push kind amount ref s = record s {
    ledger = s.ledger ++ record { kind = kind; amount = amount; ref = ref } ∷ [];
  }

  -- What `creditReserve` and `releaseReserve` return.
  abbrev pub returned : Mode → ℕ → Treasury S → Treasury S × Result TreasuryError ℕ
  returned mock amount s = (s, ok s.mock_reserve)
  returned live amount s = (s, ok amount)

  abbrev pub add_to_reserve : Mode → ℕ → Treasury S → Treasury S
  add_to_reserve mock amount s = record s { mock_reserve = s.mock_reserve + amount }
  add_to_reserve live amount s = s

  unfoldable pub credit_reserve : ℤ → ℕ → Action (Treasury S) TreasuryError ℕ
  credit_reserve amount ref = do
    a ← or_throw (positive amount) not_positive
    modify (add_to_reserve mode a)
    modify (push credit a ref)
    returned mode a

  -- In live mode only the ledger records the obligation.
  abbrev pub take_from_reserve : Mode → ℕ → Action (Treasury S) TreasuryError (Unit {0})
  take_from_reserve live amount = return tt
  take_from_reserve mock amount = do
    λ s. throw_if (ltb s.mock_reserve amount) release_exceeds_reserve s
    modify (λ s. record s { mock_reserve = s.mock_reserve - amount })

  unfoldable pub release_reserve : ℤ → ℕ → Action (Treasury S) TreasuryError ℕ
  release_reserve amount ref = do
    a ← or_throw (positive amount) not_positive
    take_from_reserve mode a
    modify (push debit a ref)
    returned mode a

  -- `deps.run` of a plan.
  abbrev pub run : (S → S × Bool) → Action (Treasury S) TreasuryError (Unit {0})
  run plan s =
      let (landed, is_done) = plan s.cluster in
      throw_if (not is_done) run_failed (record s { cluster = landed })

  unfoldable pub wrap :
      ℕ → ℤ → ℕ → Action (Treasury S) TreasuryError (InvariantReport × InvariantReport)
  wrap wallet amount ref = do
    a ← or_throw (positive amount) not_positive
    before ← assert_invariant a
    run (c.mint_to wallet a)
    modify (push wrapped a ref)
    after_wrap ← invariant
    return (before, after_wrap)

  unfoldable pub unwrap : ℕ → ℤ → ℕ → Action (Treasury S) TreasuryError InvariantReport
  unwrap owner amount ref = do
    a ← or_throw (positive amount) not_positive
    exists ← λ s. or_throw (c.fetch_exists owner s.cluster) rpc_failed s
    throw_if (not exists) no_token_account
    available ← reserve
    throw_if (ltb available a) unwrap_exceeds_reserve
    run (c.burn owner a)
    modify (push unwrapped a ref)
    _ ← release_reserve amount ref
    invariant

  -- `move_confidential` stands for `ensureAccount` and, for a positive amount, `depositAndApply`.
  unfoldable pub wrap_and_make_confidential :
      ℕ → ℤ → ℤ → ℕ → Action (Treasury S) TreasuryError Wrapped
  wrap_and_make_confidential owner amount holdback ref = do
    moved ← λ s. (s, confidential_move_amount amount holdback)
    reports ← wrap owner amount ref
    run (c.move_confidential owner (at_least_zero moved))
    return (record {
      confidential_amount = moved;
      public_remaining = holdback;
      invariant_after = reports.1;
    })
