-- ===== src/Onramp/Examples.antt =====
-- Wallet 7 tops up 400 zł at 4.30, and the provider delivers the event twice.
use relstate.Common.{
  ℕ, ◌+◌, ◌-◌, ◌≤◌, ◌≡◌, refl, arith, pos, true, false, [], ◌∷◌, none, some, Result, ok, err, leb,
  if◌then◌else◌, has, get,
}
use relstate.Common.Counting.{count}
use relstate.Money.{pln_to_usdc, usdc_to_pln, check_conversion}
use relstate.Treasury.{
  Cluster, ClusterLaws, mock, unseeded, seeded, supply, seed, reserve, invariant, assert_invariant,
  credit_reserve, release_reserve, wrap, unwrap, wrap_and_make_confidential,
  confidential_move_amount,
}
use relstate.Onramp.DailyCap.{no_credits, live, total, used, remaining, check, record_credit}
use relstate.Onramp.{
  OnrampError, wallet_cap, amount_out_of_range, holdback_too_large, credited, OnrampIntent,
  OnrampCredit, OnrampConfig, ProviderEvent, Onramp, Pending, holdback_of, mock_webhook, credit_of,
  replayed, joins, goes_on,
}
use relstate.Onramp.Service.{check_checkout, checkout, begin, finish, remaining_today}
use relstate.Treasury.Ledger.{times_credited}
use relstate.Onramp.Once.{
  Service, started, finished, starts, ends, Reach, here, next, credited_once,
}
use relstate.Onramp.Replay.{replay-same}
use relstate.Onramp.Credits.{credited_in}
use relstate.Onramp.CapHistory
use relstate.Onramp.CapHistory.{deliver, delivers, checks_out, Reach-WithinCap}
use relstate.Onramp.Backed.{deliveries_backed}
use relstate.Onramp.Holdback.{AddUp, credit_made}
use relstate.Onramp.Checkout.{CheckoutEnd, checkout_ends}

abbrev cluster : Cluster ℕ
cluster = record {
  supply_of = λ s. s;
  fetch_supply = λ s. some s;
  fetch_reserve = λ s. some 0;
  fetch_exists = λ _ _. some true;
  mint_to = λ _ a s. (s + a, true);
  burn = λ _ a s. if leb a s then (s - a, true) else (s, false);
  move_confidential = λ _ _ s. (s, true);
}

cluster-ClusterLaws : ClusterLaws cluster
cluster-ClusterLaws = record {
  fetch_supply_reads = λ s n e. cc;
  mint_to_le = λ w a s. omega arith;
  mint_to_lands = λ w a s e. refl;
  burn_le = λ w a s. ground arith;
  burn_lands = λ w a s e. ground arith;
  move_keeps = λ w a s. refl;
}

abbrev config : OnrampConfig
config = record {
  rate_scaled = pos 4_300_000;
  min_pln = 100;
  max_pln = 1_000_000;
  max_usdc_per_wallet_per_day = 150_000_000;
  is_address = λ w. leb 5 w;
}

abbrev empty : Onramp ℕ
empty = record {
  cap = no_credits;
  intents = [];
  credits = [];
  credits_by_intent = [];
  in_flight = [];
  treasury = record { cluster = 40; mock_reserve = 0; seeding = unseeded; ledger = [] };
}

abbrev priced : Onramp ℕ
priced = (checkout config empty 7 (pos 40_000) (pos 1_000_000) 31 1_000 (some true)).0

abbrev delivery : Result OnrampError ProviderEvent
delivery = mock_webhook priced (λ i. 1_000 + i) (some 31)

abbrev event : ProviderEvent
event = record {
  is_completed = true;
  ref = some 1_031;
  ref_intent = some 31;
  body_intent = none;
  wallet = 7;
  amount_usdc = some (pos 93_023_255);
  holdback = none;
}

abbrev intent : OnrampIntent
intent = record {
  id = 31;
  wallet = 7;
  pln_minor = pos 40_000;
  amount_usdc = 93_023_255;
  holdback = pos 1_000_000;
  rate_scaled = pos 4_300_000;
  created_at = 1_000;
}

abbrev pending : Pending
pending = record {
  ref = 1_031;
  wallet = 7;
  intent_id = some 31;
  intent = some intent;
  amount = 93_023_255;
  holdback = pos 1_000_000;
}

abbrev idle : Service ℕ
idle = record { onramp = priced; running = []; paid = []; thrown = [] }

abbrev asked : Service ℕ
asked = started cluster mock false config idle (begin config priced 2_000 (ok event))

-- The provider delivers the event again while the first delivery is under way.
abbrev asked_again : Service ℕ
asked_again = started cluster mock false config asked (begin config asked.onramp 2_500 (ok event))

abbrev answered : Service ℕ
answered =
    finished cluster mock false config asked_again 1_031
      (finish cluster mock false config asked_again.onramp pending 3_000 true (some false))

tests : Unit {0}
unfolding checkout check_checkout pln_to_usdc usdc_to_pln check_conversion check used live total
    remaining record_credit mock_webhook holdback_of credit_of supply seed reserve invariant
    assert_invariant credit_reserve release_reserve wrap unwrap wrap_and_make_confidential
    confidential_move_amount
tests = tt

onramp_tests :
    (delivery ≡ ok event)
    × ((begin config priced 2_000 (ok event)).1 ≡ goes_on pending)
    × ((begin config asked.onramp 2_500 (ok event)).1 ≡ joins 1_031)
    × (answered.paid ≡ 1_031 ∷ [])
    × (answered.onramp.treasury.cluster ≡ 93_023_295)
    × (answered.onramp.treasury.mock_reserve ≡ 93_023_295)
    × ((remaining_today config answered.onramp 7 4_000).1 ≡ 56_976_745)
    × ((checkout config answered.onramp 7 (pos 40_000) (pos 0) 32 5_000 (some true)).1
        ≡ err wallet_cap)
    × ((checkout config priced 7 (pos 99) (pos 0) 32 5_000 (some true)).1 ≡ err amount_out_of_range)
    × ((checkout config priced 7 (pos 40_000) (pos 93_023_256) 32 5_000 (some true)).1
        ≡ err holdback_too_large)
unfolding tests
onramp_tests = (refl, refl, refl, refl, refl, refl, refl, refl, refl, refl)

-- The owner is not resolved after the reserve was credited, and the provider tries again.
abbrev unresolved : Service ℕ
unresolved =
    finished cluster mock false config asked 1_031
      (finish cluster mock false config asked.onramp pending 3_000 true none)

abbrev retried : Service ℕ
retried =
    let again =
      started cluster mock false config unresolved
        (begin config unresolved.onramp 4_000 (ok event)) in
    finished cluster mock false config again 1_031
      (finish cluster mock false config again.onramp pending 5_000 true (some false))

retried_tests :
    (retried.paid ≡ 1_031 ∷ [])
    × (retried.thrown ≡ 1_031 ∷ [])
    × (times_credited 1_031 retried.onramp.treasury.ledger ≡ 2)
unfolding tests
retried_tests = (refl, refl, refl)

under_way : has 1_031 asked_again.running ≡ true
unfolding tests
under_way = refl

nothing_yet :
    (priced.credits ≡ [])
    × (priced.in_flight ≡ [])
    × (priced.treasury.seeding ≡ unseeded)
    × (answered.onramp.treasury.seeding ≡ seeded)
unfolding tests
nothing_yet = (refl, refl, refl, refl)

history : Reach cluster mock false config idle answered
history =
    next (next (next here (starts idle 2_000 (ok event))) (starts asked 2_500 (ok event)))
      (ends asked_again pending 3_000 true (some false) under_way)

credited_once_example :
    (count 1_031 answered.paid ≤ 1)
    × (times_credited 1_031 answered.onramp.treasury.ledger
        ≤ times_credited 1_031 priced.treasury.ledger + 1 + count 1_031 answered.thrown)
credited_once_example =
    credited_once cluster mock false config history (refl, refl, nothing_yet.0, nothing_yet.1, refl)
      1_031

on_record : (k : OnrampCredit) × (get 1_031 answered.onramp.credits ≡ some k)
unfolding tests
on_record = (_, refl)

replay-same_example :
    begin config answered.onramp 9_000 (ok event) ≡ (answered.onramp, replayed on_record.0)
replay-same_example =
    replay-same cluster mock false config 1_031 on_record.0 history
      (refl, refl, nothing_yet.0, nothing_yet.1, refl) on_record.1 here event 9_000 refl refl

deliveries_backed_example : answered.onramp.treasury.cluster ≤ answered.onramp.treasury.mock_reserve
deliveries_backed_example =
    deliveries_backed cluster cluster-ClusterLaws false config history nothing_yet.2 nothing_yet.3

abbrev topped_up : Onramp ℕ
topped_up = deliver cluster mock false config priced 2_000 (ok event) true (some false)

Reach-WithinCap_example : credited_in 7 2_000 topped_up.credits ≤ 150_000_000
Reach-WithinCap_example =
    Reach-WithinCap cluster mock false config
      (delivers 2_000 (ok event) true (some false)
        (checks_out 1_000 7 (pos 40_000) (pos 1_000_000) 31 (some true)
          (CapHistory.here {s = empty} {now = 0}) (omega arith))
        (omega arith))
      refl refl 7

topped_up_tests : credited_in 7 2_000 topped_up.credits ≡ 93_023_255
unfolding tests
topped_up_tests = refl

credit_made_example :
    (k : OnrampCredit) × (credit_of config pending credited true none 3_000 ≡ ok k)
    × (k.ref ≡ 1_031)
    × (k.wallet ≡ 7)
    × (k.amount_usdc ≡ 93_023_255)
    × (k.status ≡ credited)
    × AddUp 93_023_255 k.confidential_amount k.public_holdback
unfolding tests
credit_made_example =
    credit_made config event pending credited true none 3_000 4_299_999 1_000_000 refl refl refl

checkout_ends_example :
    CheckoutEnd config empty 7
      (pos 40_000)
      (pos 1_000_000)
      31
      1_000
      (checkout config empty 7 (pos 40_000) (pos 1_000_000) 31 1_000 (some true))
checkout_ends_example =
    checkout_ends config empty 7 (pos 40_000) (pos 1_000_000) 31 1_000 (some true)
