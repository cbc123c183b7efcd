-- ===== src/Treasury/Examples.antt =====
-- A cluster whose state is the supply, and on which every call lands.
use relstate.Common.{
  ℕ, ◌+◌, ◌-◌, ◌≤◌, ◌≡◌, refl, arith, pos, negsuc, true, false, [], some, err, leb, if◌then◌else◌,
}
use relstate.Treasury.{
  Cluster, ClusterLaws, mock, Treasury, unseeded, seeded, not_positive, invariant_violation,
  unwrap_exceeds_reserve, holdback_exceeds_amount, supply, seed, reserve, invariant,
  assert_invariant, credit_reserve, release_reserve, wrap, unwrap, wrap_and_make_confidential,
  confidential_move_amount,
}
use relstate.Treasury.History.{here, next, credits, wraps, unwraps, Reach-Backed}

abbrev cluster : Cluster ℕ
cluster = record {
  supply_of = λ s. s;
  fetch_supply = λ s. some s;
  fetch_reserve = λ s. some 0;
  fetch_exists = λ _ _. some true;
  mint_to = λ _ a s. (s + a, true);
  burn = λ _ a s. if leb a s then (s - a, true) else (s, false);
  move_confidential = λ _ _ s. (s, true);
}

cluster-ClusterLaws : ClusterLaws cluster
cluster-ClusterLaws = record {
  fetch_supply_reads = λ s n e. cc;
  mint_to_le = λ w a s. omega arith;
  mint_to_lands = λ w a s e. refl;
  burn_le = λ w a s. ground arith;
  burn_lands = λ w a s e. ground arith;
  move_keeps = λ w a s. refl;
}

abbrev start : Treasury ℕ
start = record { cluster = 40; mock_reserve = 0; seeding = unseeded; ledger = [] }

abbrev credited : Treasury ℕ
credited = (credit_reserve cluster mock false (pos 100) 5 start).0

abbrev minted : Treasury ℕ
minted = (wrap cluster mock false 7 (pos 100) 5 credited).0

abbrev burnt : Treasury ℕ
burnt = (unwrap cluster mock false 7 (pos 30) 6 minted).0

tests : Unit {0}
unfolding supply seed reserve invariant assert_invariant credit_reserve release_reserve wrap unwrap
    wrap_and_make_confidential confidential_move_amount
tests = tt

wrap_tests :
    ((wrap cluster mock false 7 (pos 1) 5 start).1 ≡ err invariant_violation)
    × ((credit_reserve cluster mock false (negsuc 0) 5 start).1 ≡ err not_positive)
    × (minted.cluster ≡ 140)
    × (minted.mock_reserve ≡ 140)
    × (burnt.cluster ≡ 110)
    × (burnt.mock_reserve ≡ 110)
    × ((unwrap cluster mock false 7 (pos 141) 6 minted).1 ≡ err unwrap_exceeds_reserve)
    × ((wrap_and_make_confidential cluster mock false 7 (pos 5) (pos 6) 5 credited).1
        ≡ err holdback_exceeds_amount)
unfolding tests
wrap_tests = (refl, refl, refl, refl, refl, refl, refl, refl)

burnt_seeded : burnt.seeding ≡ seeded
unfolding tests
burnt_seeded = refl

Reach-Backed_example : burnt.cluster ≤ burnt.mock_reserve
Reach-Backed_example =
    Reach-Backed cluster cluster-ClusterLaws false
      (next (next (next here (credits start (pos 100) 5)) (wraps credited 7 (pos 100) 5))
        (unwraps minted 7 (pos 30) 6))
      refl burnt_seeded
