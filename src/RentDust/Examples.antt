-- ===== src/RentDust/Examples.antt =====
-- Wallet 7 asks for its rent, twice.
use relstate.Common.{ℕ, ◌+◌, ◌≤◌, ◌≡◌, refl, true, [], ◌∷◌, Option, none, some, ok, err, has}
use relstate.Limits.{create_rate_limiter, usage, reserve, commit, cancel}
use relstate.Limits.Caps.{IsFresh, create_rate_limiter-IsSound}
use relstate.RentDust.{
  DustDeps, DustState, DustAnswers, wallet_is_treasury, run_failed, granted, already_granted,
  already_funded, begin, finish, rent_dust_amount, grant_rent_dust,
}
use relstate.Common.Counting.{count}
use relstate.RentDust.Once.{Service, started, finished, starts, ends, Reach, here, next, grant_once}
use relstate.RentDust.Grant.{GrantEnd, grant_rent_dust_ends}

abbrev deps : DustDeps
deps = record {
  treasury = 1;
  limits = record {
    max_per_wallet_per_hour = 1;
    max_global_per_hour = 3;
    max_lamports_per_wallet_per_day = 1_000_000_000;
    max_lamports_global_per_day = 2_000_000_000;
  };
  application_size = 100;
  profile_size = 200;
  dispute_size = 891;
}

abbrev start : DustState
start = record { marked = []; limiter = create_rate_limiter; paid = [] }

start-IsFresh : IsFresh start.limiter
start-IsFresh = (create_rate_limiter-IsSound deps.limits 0).fresh

abbrev answers : Option ℕ → DustAnswers
answers signature = record {
  rent = λ size. some (size + 128);
  balance = some 5;
  signature = signature;
  landed = true;
}

tests : Unit {0}
unfolding begin finish rent_dust_amount grant_rent_dust reserve commit cancel usage
    create_rate_limiter
tests = tt

grant_rent_dust_tests :
    ((grant_rent_dust deps start (answers (some 9)) 7 1_000).1 ≡ ok (granted 2_354 9))
    × ((grant_rent_dust deps start (answers none) 7 1_000).1 ≡ err run_failed)
    × ((grant_rent_dust deps start (answers none) 7 1_000).0.marked ≡ [])
    × ((grant_rent_dust deps start (answers none) 1 1_000).1 ≡ err wallet_is_treasury)
    × ((grant_rent_dust deps
          (grant_rent_dust deps start (answers (some 9)) 7 1_000).0
          (answers (some 9))
          7
          9_000_000).1
        ≡ ok already_granted)
    × ((grant_rent_dust deps start (record (answers none) { balance = some 2_354 }) 7 1_000).1
        ≡ ok already_funded)
unfolding tests
grant_rent_dust_tests = (refl, refl, refl, refl, refl, refl)

grant_rent_dust_ends_example :
    GrantEnd deps start
      (answers (some 9))
      7
      1_000
      start-IsFresh
      (grant_rent_dust deps start (answers (some 9)) 7 1_000)
grant_rent_dust_ends_example =
    grant_rent_dust_ends deps start (answers (some 9)) 7 1_000 start-IsFresh

abbrev idle : Service
idle = record { dust = start; running = []; grants = []; thrown = [] }

abbrev asked : Service
asked = started deps idle 7 (begin deps start 7)

-- The second request starts while the first is under way.
abbrev asked_again : Service
asked_again = started deps asked 7 (begin deps asked.dust 7)

abbrev answered : Service
answered = finished deps asked_again 7 (finish deps asked_again.dust (answers (some 9)) 7 1_000)

under_way : has 7 asked_again.running ≡ true
unfolding tests
under_way = refl

history : Reach deps idle answered
history =
    next (next (next here (starts idle 7)) (starts asked 7))
      (ends asked_again 7 1_000 (answers (some 9)) under_way)

answered_tests : (answered.grants ≡ 7 ∷ []) × (answered.dust.paid ≡ 7 ∷ [])
unfolding tests
answered_tests = (refl, refl)

-- A transfer that throws after it has landed: the wallet is paid again.
abbrev failed : Service
failed = finished deps asked 7 (finish deps asked.dust (answers none) 7 1_000)

abbrev paid_again : Service
paid_again =
    let again = started deps failed 7 (begin deps failed.dust 7) in
    finished deps again 7 (finish deps again.dust (answers (some 9)) 7 2_000)

paid_again_tests : (paid_again.grants ≡ 7 ∷ []) × (paid_again.dust.paid ≡ 7 ∷ 7 ∷ [])
unfolding tests
paid_again_tests = (refl, refl)

grant_once_example :
    (count 7 answered.grants ≤ 1)
    × (count 7 answered.dust.paid ≤ count 7 start.paid + 1 + count 7 answered.thrown)
grant_once_example = grant_once deps history refl refl refl 7
