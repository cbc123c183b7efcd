-- ===== src/Invites/Examples.antt =====
-- The tenant 3 of lease 10 invites company 40, and wallet 8 claims.
use relstate.Common.{ℕ, ◌+◌, ◌≡◌, refl, arith, true, [], none, some, ok, err}
use relstate.Invites.{
  already_claimed, wallet_is_party, not_a_party, name_mismatch, invite_invalid, Claims,
  ClaimedInvite, Invites, IssueInput, sweep_from, sweep, resolve, read, claim, check_issue, issue,
  pending, size,
}
use relstate.Invites.Holding.{Keyed}
use relstate.Invites.History.{here, next, reads, claimed_by_one}

abbrev empty : Invites
empty = record { by_id = []; id_by_lease = [] }

abbrev input : IssueInput
input = record {
  lease = some 10;
  email = some 50;
  wallet = 3;
  read_lease = some (record {
    lease_landlord = 2;
    lease_tenant = 3;
    mint = 4;
    deposit_amount = 900;
    is_mediation = true;
  });
  read_dispute = some (
      some (record {
        appraiser = none;
        agreed_name_hash = some 41;
        agreed_fee = 20;
        selection_deadline = 5_000;
      }));
  display = some 40;
  hash = λ n. n + 1;
  ttl_seconds = 600;
  id = 77;
}

abbrev issued : Invites
issued = (issue empty 1_000_000 input).0

abbrev token : Claims
token = record { i = some 77; l = 10; n = 41 }

abbrev claimed : Invites
claimed = (claim issued 8 1_100_000 (ok token)).0

abbrev receipt : ClaimedInvite
receipt = record { lease = 10; company_name = 40; wallet = 8; claimed_at = 1_100 }

tests : Unit {0}
unfolding sweep_from sweep resolve read claim check_issue issue pending size
tests = tt

claim_tests :
    ((claim issued 8 1_100_000 (ok token)).1 ≡ ok receipt)
    × ((claim claimed 8 1_200_000 (ok token)).1 ≡ ok receipt)
    × ((claim claimed 9 1_200_000 (ok token)).1 ≡ err already_claimed)
    × ((claim issued 2 1_100_000 (ok token)).1 ≡ err wallet_is_party)
    × ((claim issued 8 1_600_000 (ok token)).1 ≡ err invite_invalid)
    × ((issue empty 1_000_000 (record input { wallet = 8 })).1 ≡ err not_a_party)
    × ((issue empty 1_000_000 (record input { display = some 39 })).1 ≡ err name_mismatch)
    × ((size claimed 1_300_000).1 ≡ 1)
unfolding tests
claim_tests = (refl, refl, refl, refl, refl, refl, refl, refl)

issued-Keyed : Keyed issued
unfolding tests
issued-Keyed k r h = ground (arith, h)

again :
    (c : ClaimedInvite) × ((claim (read claimed 1_150_000 (ok token)).0 8 1_200_000 (ok token)).1
      ≡ ok c)
unfolding tests
again = (receipt, refl)

first : (claim issued 8 1_100_000 (ok token)).1 ≡ ok receipt
unfolding tests
first = refl

claimed_by_one_example : ◌≡◌ {A = ℕ} 8 8
claimed_by_one_example =
    claimed_by_one issued (read claimed 1_150_000 (ok token)).0 token token 77 8 8 1_100_000
      1_200_000 receipt again.0 issued-Keyed refl first
      (next here (reads claimed 1_150_000 (ok token))) refl again.1
