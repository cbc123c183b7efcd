-- ===== src/WalletAuth.antt =====
-- backend/src/wallet-auth.ts: challenges for signing in with a wallet.
-- Wallets, nonces and messages are numbers. The nonce of a challenge is drawn by node:crypto, its
-- message is a text of the wallet, the nonce and the two times, and `verify` is `verifyEd25519`:
-- all three are parameters. Inputs are of the types that the guards ask for. A pending challenge is
-- reached through `pending` only, so counting an attempt is a write to the map.
pub mod SingleUse
pub mod Bounds
mod Examples
use relstate.Common.{
  ℕ, zero, suc, ◌+◌, ◌/◌, Bool, true, false, not, ◌&&◌, ◌||◌, List, [], ◌∷◌, ◌++◌, Option, none,
  some, Result, ok, err, ltb, leb, ◌==◌, if◌then◌else◌, length, get, set, delete, without,
}

pub record Pending : Type 0 where
  pub wallet : ℕ
  pub message : ℕ
  pub expires_at : ℕ
  pub attempts : ℕ

pub record WalletAuthOptions : Type 0 where
  pub challenge_ttl_ms : ℕ
  pub session_ttl_seconds : ℕ
  pub max_attempts : ℕ
  pub max_pending : ℕ
  pub max_pending_per_wallet : ℕ

pub record WalletAuth : Type 0 where
  pub pending : List (ℕ × Pending)
  pub by_wallet : List (ℕ × List ℕ)

pub data AuthError : Type 0 where
  login_failed : AuthError

pub record Login : Type 0 where
  pub wallet : ℕ
  pub expires_at : ℕ

unfoldable pub create_wallet_auth : WalletAuth
create_wallet_auth = record { pending = []; by_wallet = [] }

-- `byWallet.get(wallet) ?? []`.
abbrev pub nonces_of : WalletAuth → ℕ → List ℕ
nonces_of s wallet = elim (get wallet s.by_wallet) [ none ↦ [] | some ns ↦ ns ]

-- `delete` on an empty rest, `set` otherwise.
abbrev pub keep_nonces : ℕ → List ℕ → List (ℕ × List ℕ) → List (ℕ × List ℕ)
keep_nonces wallet [] m = delete wallet m
keep_nonces wallet (n ∷ ns) m = set wallet (n ∷ ns) m

abbrev pub drop_found : WalletAuth → ℕ → Option Pending → WalletAuth
drop_found s nonce none = s
drop_found s nonce (some p) = record {
  pending = delete nonce s.pending;
  by_wallet = keep_nonces p.wallet (without nonce (nonces_of s p.wallet)) s.by_wallet;
}

unfoldable pub drop : WalletAuth → ℕ → WalletAuth
drop s nonce = drop_found s nonce (get nonce s.pending)

-- The loop of `sweep`.
unfoldable pub sweep_from : ℕ → List (ℕ × Pending) → WalletAuth → WalletAuth
sweep_from now [] s = s
sweep_from now ((nonce, p) ∷ rest) s =
    sweep_from now rest (if leb p.expires_at now then drop s nonce else s)

unfoldable pub sweep : WalletAuth → ℕ → WalletAuth
sweep s now = sweep_from now s.pending s

abbrev pub first_nonce : List (ℕ × Pending) → Option ℕ
first_nonce [] = none
first_nonce ((nonce, _) ∷ _) = some nonce

abbrev pub drop_some : WalletAuth → Option ℕ → WalletAuth
drop_some s none = s
drop_some s (some nonce) = drop s nonce

-- The first eviction loop. Each round removes the first entry, so the number of entries is fuel
-- enough.
unfoldable pub evict_oldest : ℕ → ℕ → WalletAuth → WalletAuth
evict_oldest zero max_pending s = s
evict_oldest (suc fuel) max_pending s =
    let rest = evict_oldest fuel max_pending (drop_some s (first_nonce s.pending)) in
    if ltb 0 (length s.pending) && leb max_pending (length s.pending) then rest else s

abbrev pub last_of : List ℕ → Option ℕ
last_of [] = none
last_of (n ∷ []) = some n
last_of (n ∷ m ∷ ns) = last_of (m ∷ ns)

-- The second eviction loop, over the wallet's own nonces from the newest.
unfoldable pub evict_newest : ℕ → ℕ → ℕ → WalletAuth → WalletAuth
evict_newest zero wallet quota s = s
evict_newest (suc fuel) wallet quota s =
    let mine = nonces_of s wallet in
    let rest = evict_newest fuel wallet quota (drop_some s (last_of mine)) in
    if ltb 0 (length mine) && leb quota (length mine) then rest else s

module _ (options : WalletAuthOptions) (message : ℕ → ℕ → ℕ → ℕ → ℕ)
    (verify : ℕ → ℕ → ℕ → Bool) where
  -- The registration at the end of `challenge`.
  unfoldable pub issue : WalletAuth → ℕ → ℕ → ℕ → WalletAuth
  issue s wallet nonce issued =
      let expires_at = issued + options.challenge_ttl_ms in
      record {
        pending =
            set nonce
              (record {
                wallet = wallet;
                message = message wallet nonce issued expires_at;
                expires_at = expires_at;
                attempts = 0;
              })
              s.pending;
        by_wallet = set wallet (nonces_of s wallet ++ nonce ∷ []) s.by_wallet;
      }

  unfoldable pub challenge : WalletAuth → ℕ → ℕ → ℕ → WalletAuth
  challenge s wallet nonce now =
      let swept = sweep s now in
      let oldest = evict_oldest (length swept.pending) options.max_pending swept in
      let newest =
        evict_newest (length (nonces_of oldest wallet)) wallet options.max_pending_per_wallet
          oldest in
      issue newest wallet nonce now

  abbrev pub wrong_guess : WalletAuth → ℕ → Pending → WalletAuth
  wrong_guess s nonce p =
      let counted = record s {
        pending = set nonce (record p { attempts = suc p.attempts }) s.pending;
      } in
      if leb options.max_attempts (suc p.attempts) then drop counted nonce else counted

  abbrev pub login_with :
      WalletAuth → ℕ → ℕ → ℕ → ℕ → Option Pending → WalletAuth × Result AuthError Login
  login_with s wallet nonce signature now none = (s, err login_failed)
  login_with s wallet nonce signature now (some p) =
      if not (p.wallet == wallet)
      then (s, err login_failed)
      else if leb p.expires_at now
      then (drop s nonce, err login_failed)
      else if not (verify wallet p.message signature)
      then (wrong_guess s nonce p, err login_failed)
      else (
        drop s nonce,
        ok (record { wallet = wallet; expires_at = now / 1_000 + options.session_ttl_seconds }),
      )

  unfoldable pub verify_login : WalletAuth → ℕ → ℕ → ℕ → ℕ → WalletAuth × Result AuthError Login
  verify_login s wallet nonce signature now =
      login_with s wallet nonce signature now (get nonce s.pending)
