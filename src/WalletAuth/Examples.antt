-- ===== src/WalletAuth/Examples.antt =====
-- Wallet 7 answers its challenge.
use relstate.Common.{ℕ, ◌≡◌, refl, ◌≤◌, ◌==◌, Bool, [], get, none, ok, err, arith, length}
use relstate.WalletAuth.{
  WalletAuthOptions, WalletAuth, login_failed, Login, create_wallet_auth, drop, sweep, sweep_from,
  evict_oldest, evict_newest, issue, challenge, verify_login,
}
use relstate.WalletAuth.SingleUse.{here, next, challenges, verify_login_once}
use relstate.WalletAuth.Bounds.{challenge_issues}

abbrev options : WalletAuthOptions
options = record {
  challenge_ttl_ms = 300_000;
  session_ttl_seconds = 3_600;
  max_attempts = 2;
  max_pending = 2;
  max_pending_per_wallet = 1;
}

abbrev message : ℕ → ℕ → ℕ → ℕ → ℕ
message wallet nonce issued expires = nonce

-- The signature of a message is the message.
abbrev verify : ℕ → ℕ → ℕ → Bool
verify wallet message signature = message == signature

abbrev asked : WalletAuth
asked = challenge options message verify create_wallet_auth 7 40 1_000

abbrev guessed : WalletAuth
guessed = (verify_login options message verify asked 7 40 1 2_000).0

abbrev login : Login
login = record { wallet = 7; expires_at = 3_602 }

tests : Unit {0}
unfolding create_wallet_auth drop sweep sweep_from evict_oldest evict_newest issue challenge
    verify_login
tests = tt

login_tests :
    ((verify_login options message verify asked 7 40 40 2_000).1 ≡ ok login)
    × ((verify_login options message verify asked 8 40 40 2_000).1 ≡ err login_failed)
    × ((verify_login options message verify asked 7 40 40 301_000).1 ≡ err login_failed)
    × ((verify_login options message verify guessed 7 40 40 2_000).1 ≡ ok login)
    × ((verify_login options message verify guessed 7 40 1 2_000).0.pending ≡ [])
    × (get 40 (challenge options message verify asked 7 41 2_000).pending ≡ none)
    × (length
          (challenge options message verify
            (challenge options message verify asked 8 41 2_000)
            9
            42
            3_000).pending
        ≡ 2)
unfolding tests
login_tests = (refl, refl, refl, refl, refl, refl, refl)

abbrev logged_in : WalletAuth
logged_in = (verify_login options message verify asked 7 40 40 2_000).0

succeeds : verify_login options message verify asked 7 40 40 2_000 ≡ (logged_in, ok login)
unfolding tests
succeeds = refl

-- The wallet asks for another challenge, and replays its answer to the first.
verify_login_once_example :
    verify_login options message verify
      (challenge options message verify logged_in 7 41 2_500)
      7
      40
      40
      3_000
    ≡ (challenge options message verify logged_in 7 41 2_500, err login_failed)
verify_login_once_example =
    (verify_login_once options message verify asked logged_in
        (challenge options message verify logged_in 7 41 2_500) 7 40 40 2_000 login succeeds
        (next here (challenges logged_in 7 41 2_500 refl))).1
      7 40 3_000

challenge_issues_example : length (challenge options message verify asked 8 41 2_000).pending ≤ 2
challenge_issues_example =
    (challenge_issues options message verify asked 8 41 2_000 (omega arith)).0
