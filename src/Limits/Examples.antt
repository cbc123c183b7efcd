-- ===== src/Limits/Examples.antt =====
-- The limiter on concrete requests.
use relstate.Common.{◌≡◌, ◌↔◌, refl, ok, err, arith}
use relstate.Limits.{
  LimitConfig, Limiter, wallet, create_rate_limiter, usage, reserve, commit, cancel,
}
use relstate.Limits.Caps.{IsFresh, WithinCaps, create_rate_limiter-IsSound}
use relstate.Limits.History.{Step, Reach, Reach-WithinCaps}
use relstate.Limits.Bookings.{booked, with_one}
use relstate.Limits.TwoPhase.{
  Fits, reserve_iff, usage-cancel-reserve, usage-commit-reserve, closes_once,
}

-- Two transactions an hour, fifty lamports a day.
abbrev config : LimitConfig
config = record {
  max_per_wallet_per_hour = 2;
  max_global_per_hour = 3;
  max_lamports_per_wallet_per_day = 50;
  max_lamports_global_per_day = 70;
}

abbrev start : Limiter
start = create_rate_limiter

abbrev once : Limiter
once = (reserve config start 7 30 1_000).0

reserve_tests :
    ((reserve config start 7 30 1_000).1 ≡ ok (booked 0 7))
    × ((reserve config once 7 30 2_000).1 ≡ err wallet)
    × ((reserve config once 7 20 2_000).1 ≡ ok (booked 1 7))
    × ((reserve config once 7 50 86_402_000).1 ≡ ok (booked 1 7))
    × ((reserve config (commit once (booked 0 7) 10) 7 40 2_000).1 ≡ ok (booked 1 7))
unfolding reserve create_rate_limiter commit
reserve_tests = (refl, refl, refl, refl, refl)

start-IsFresh : IsFresh start
start-IsFresh = (create_rate_limiter-IsSound config 0).fresh

Reach-WithinCaps_example : WithinCaps config (commit once (booked 0 7) 10) 5_000
unfolding reserve create_rate_limiter
Reach-WithinCaps_example = Reach-WithinCaps config 0 5_000 _ (
    Reach.next (Reach.next Reach.here (Step.reserves 7 30 1_000 (omega arith)))
      (Step.commits (booked 0 7) 10 5_000 (omega arith) (λ _. omega arith)))

reserve_iff_example :
    ((reserve config once 7 30 2_000).1 ≡ ok (booked once.next 7))
    ↔ Fits config (usage once 7 2_000) 30
reserve_iff_example = (reserve_iff config once 7 30 2_000).0

usage-cancel-reserve_example : usage (cancel once (booked 0 7)) 7 2_000 ≡ usage start 7 2_000
unfolding reserve create_rate_limiter
usage-cancel-reserve_example =
    usage-cancel-reserve config start once 7 30 1_000 (booked 0 7) start-IsFresh refl 7 2_000
      (omega arith)

usage-commit-reserve_example :
    usage (commit once (booked 0 7) 10) 7 2_000 ≡ with_one 1_000 10 (usage start 7 2_000)
unfolding reserve create_rate_limiter
usage-commit-reserve_example =
    usage-commit-reserve config start once 7 30 1_000 (booked 0 7) start-IsFresh refl 10 2_000
      (omega arith)

closes_once_example :
    (commit (commit once (booked 0 7) 10) (booked 0 7) 20 ≡ commit once (booked 0 7) 10)
    × (cancel (commit once (booked 0 7) 10) (booked 0 7) ≡ commit once (booked 0 7) 10)
    × (commit (cancel once (booked 0 7)) (booked 0 7) 20 ≡ cancel once (booked 0 7))
    × (cancel (cancel once (booked 0 7)) (booked 0 7) ≡ cancel once (booked 0 7))
closes_once_example = closes_once once (booked 0 7) 10 20
