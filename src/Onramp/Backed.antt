-- ===== src/Onramp/Backed.antt =====
-- What the deliveries do to the treasury: histories of its own operations.
use relstate.Common.{
  ℕ, ◌≤◌, ◌≡◌, refl, sym, subst, pos, Bool, true, false, Option, none, some, Result, ok, err,
}
use relstate.Treasury.{
  Cluster, ClusterLaws, mock, Treasury, TreasuryError, InvariantReport, Wrapped, unseeded, seeded,
  credit_reserve, wrap, wrap_and_make_confidential,
}
use relstate.Treasury.History
use relstate.Treasury.History.{credits, wraps, wraps_confidential, Reach-Backed}
use relstate.Onramp.DailyCap.{record_credit}
use relstate.Onramp.{
  OnrampError, credited, OnrampCredit, OnrampConfig, Onramp, Pending, credit_of, recorded, Begun,
  replayed, joins, throws, refused, goes_on,
}
use relstate.Onramp.Service.{
  begin, after_wrap, after_confidential, landed, finish_wrapped, finish_resolved, finish_credited,
  finish,
}
use relstate.Onramp.Ends.{begin-BeginEnd}
use relstate.Onramp.Once.{Service, started, finished, Reach, here, next, Step, starts, ends}

after_wrap-treasury :
    {S : Type 0} (q : Treasury S × Result TreasuryError (InvariantReport × InvariantReport))
    → (after_wrap q).0 ≡ q.0
after_wrap-treasury (t, err e) = refl
after_wrap-treasury (t, ok (before, later)) = refl

after_confidential-treasury :
    {S : Type 0} (q : Treasury S × Result TreasuryError Wrapped) → (after_confidential q).0 ≡ q.0
after_confidential-treasury (t, err e) = refl
after_confidential-treasury (t, ok w) = refl

module _ {S : Type 0} (c : Cluster S) (laws : ClusterLaws c) (account : Bool)
    (config : OnrampConfig) where
  -- A history of the treasury's operations.
  abbrev pub Runs : Treasury S → Treasury S → Type 0
  Runs = History.Reach c laws account

  module _ (s : Onramp S) (p : Pending) (now : ℕ) where
    recorded-treasury :
        (o : Onramp S) (x : Result OnrampError OnrampCredit)
        → (recorded o x).0.treasury ≡ o.treasury
    recorded-treasury o (err e) = refl
    recorded-treasury o (ok k) = refl

    wrapped-treasury :
        (pending : Bool) (q : Treasury S × Result TreasuryError InvariantReport)
        → (finish_wrapped c mock account config s p now pending q).0.treasury ≡ q.0
    wrapped-treasury pending (t, err e) = refl
    wrapped-treasury pending (t, ok report) =
        recorded-treasury
          (record (landed c mock account config s p t) {
            cap = record_credit s.cap p.wallet p.amount now;
          })
          (credit_of config p credited pending (some report) now)

    resolved-Runs :
        (t : Treasury S)
        → Runs s.treasury t
        → (o : Option Bool)
        → Runs s.treasury (finish_resolved c mock account config s p now o t).0.treasury
    resolved-Runs t h none = h
    resolved-Runs t h (some true) =
        let q =
          wrap_and_make_confidential c mock account p.wallet (pos p.amount) p.holdback p.ref t in
        subst (Runs s.treasury) (sym (wrapped-treasury false (after_confidential q))) (
          subst (Runs s.treasury) (sym (after_confidential-treasury q))
            (History.next h (wraps_confidential t p.wallet (pos p.amount) p.holdback p.ref)))
    resolved-Runs t h (some false) =
        let q = wrap c mock account p.wallet (pos p.amount) p.ref t in
        subst (Runs s.treasury) (sym (wrapped-treasury true (after_wrap q))) (
          subst (Runs s.treasury) (sym (after_wrap-treasury q))
            (History.next h (wraps t p.wallet (pos p.amount) p.ref)))

    credited-Runs :
        (o : Option Bool) (q : Treasury S × Result TreasuryError ℕ)
        → Runs s.treasury q.0
        → Runs s.treasury (finish_credited c mock account config s p now o q).0.treasury
    credited-Runs o (t, err e) h = h
    credited-Runs o (t, ok n) h = resolved-Runs t h o

    finish-Runs :
        (ready : Bool) (o : Option Bool)
        → Runs s.treasury (finish c mock account config s p now ready o).0.treasury
    finish-Runs false o = History.here
    finish-Runs true o =
        credited-Runs o (credit_reserve c mock account (pos p.amount) p.ref s.treasury)
          (History.next History.here (credits s.treasury (pos p.amount) p.ref))

  started-treasury :
      (s : Service S) (q : Onramp S × Begun)
      → (started c mock account config s q).onramp.treasury ≡ q.0.treasury
  started-treasury s (o, replayed k) = refl
  started-treasury s (o, joins ref) = refl
  started-treasury s (o, throws e) = refl
  started-treasury s (o, refused k) = refl
  started-treasury s (o, goes_on p) = refl

  finished-treasury :
      (s : Service S) (ref : ℕ) (q : Onramp S × Result OnrampError OnrampCredit)
      → (finished c mock account config s ref q).onramp.treasury ≡ q.0.treasury
  finished-treasury s ref (o, err e) = refl
  finished-treasury s ref (o, ok k) = refl

  Runs-trans : {a b d : Treasury S} → Runs a b → Runs b d → Runs a d
  Runs-trans h History.here = h
  Runs-trans h (History.next q step) = History.next (Runs-trans h q) step

  Step-Runs :
      {s t : Service S} → Step c mock account config s t → Runs s.onramp.treasury t.onramp.treasury
  Step-Runs (starts s now answer) =
      let q = begin config s.onramp now answer in
      subst (Runs s.onramp.treasury) (sym (started-treasury s q)) (
        subst (Runs s.onramp.treasury) (sym (begin-BeginEnd config s.onramp now answer).0)
          History.here)
  Step-Runs (ends s p now ready resolved under_way) =
      subst (Runs s.onramp.treasury)
        (sym
          (finished-treasury s p.ref (finish c mock account config s.onramp p now ready resolved)))
        (finish-Runs s.onramp p now ready resolved)

  -- In mock mode, whatever the deliveries do to the treasury, its own operations do: every history
  -- of deliveries is a history of reserve credits and wraps of the treasury.
  pub deliveries_run :
      {s t : Service S} → Reach c mock account config s t → Runs s.onramp.treasury t.onramp.treasury
  deliveries_run here = History.here
  deliveries_run (next q step) = Runs-trans (deliveries_run q) (Step-Runs step)

  -- In mock mode, once the reserve has been seeded from the supply, no history of deliveries lets
  -- the supply of rUSDC pass the reserve, whether their calls return or throw.
  pub deliveries_backed :
      {s t : Service S}
      → Reach c mock account config s t
      → s.onramp.treasury.seeding ≡ unseeded
      → t.onramp.treasury.seeding ≡ seeded
      → c.supply_of t.onramp.treasury.cluster ≤ t.onramp.treasury.mock_reserve
  deliveries_backed q fresh later = Reach-Backed c laws account (deliveries_run q) fresh later
