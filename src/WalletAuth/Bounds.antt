-- ===== src/WalletAuth/Bounds.antt =====
-- The store of challenges stays within its bound, and a challenge that is issued can be answered.
use relstate.Common.{
  ℕ, zero, suc, ◌+◌, ◌≤◌, ◌<◌, ◌≡◌, inl, inr, Bool, List, [], ◌∷◌, Option, none, some, arith,
  length, get, delete, get-set, length-delete-le, length-set-le, Option-cases, ◌∙◌,
}
use relstate.WalletAuth.{
  Pending, WalletAuthOptions, WalletAuth, drop, drop_some, first_nonce, last_of, nonces_of, sweep,
  evict_oldest, evict_newest, issue, challenge,
}

length-drop-le : (s : WalletAuth) (nonce : ℕ) → length (drop s nonce).pending ≤ length s.pending
unfolding drop
length-drop-le s nonce = elim (Option-cases (get nonce s.pending)) [
  | inl h ↦ rw h (omega arith)
  | inr (p, h) ↦ rw h (length-delete-le nonce s.pending)
]

length-delete-head :
    (n : ℕ) (p : Pending) (m : List (ℕ × Pending)) → length (delete n ((n, p) ∷ m)) ≤ length m
length-delete-head n p m = ground (arith, length-delete-le n m)

length-drop_some-le :
    (s : WalletAuth) (o : Option ℕ) → length (drop_some s o).pending ≤ length s.pending
length-drop_some-le s none = omega arith
length-drop_some-le s (some n) = length-drop-le s n

get-head : (n : ℕ) (p : Pending) (m : List (ℕ × Pending)) → get n ((n, p) ∷ m) ≡ some p
get-head n p m = ground arith

drop_first_lt :
    (m : List (ℕ × Pending)) (by_wallet : List (ℕ × List ℕ))
    → 0 < length m
    → length (drop_some (record { pending = m; by_wallet = by_wallet }) (first_nonce m)).pending
      < length m
unfolding drop
drop_first_lt [] by_wallet l = absurd (omega arith)
drop_first_lt ((n, p) ∷ m) by_wallet l =
    rw (get-head n p m) (omega (arith, length-delete-head n p m))

evict_oldest_lt :
    (fuel max_pending : ℕ) (s : WalletAuth)
    → length s.pending ≤ fuel
    → 1 ≤ max_pending
    → length (evict_oldest fuel max_pending s).pending < max_pending
unfolding evict_oldest
evict_oldest_lt zero max_pending s le pos = omega arith
evict_oldest_lt (suc fuel) max_pending s le pos = ground (
  arith,
  drop_first_lt s.pending s.by_wallet,
  evict_oldest_lt fuel max_pending (drop_some s (first_nonce s.pending)),
)

evict_newest_le :
    (fuel wallet quota : ℕ) (s : WalletAuth)
    → length (evict_newest fuel wallet quota s).pending ≤ length s.pending
unfolding evict_newest
evict_newest_le zero wallet quota s = omega arith
evict_newest_le (suc fuel) wallet quota s =
    let last = last_of (nonces_of s wallet) in
    ground (arith, length-drop_some-le s last, evict_newest_le fuel wallet quota (drop_some s last))

module _ (options : WalletAuthOptions) (message : ℕ → ℕ → ℕ → ℕ → ℕ)
    (verify : ℕ → ℕ → ℕ → Bool) where
  -- With room for at least one challenge, issuing one leaves at most the maximal number pending,
  -- and the new one is among them, for its wallet, with no attempt made and the full time to live.
  pub challenge_issues :
      (s : WalletAuth) (wallet nonce now : ℕ)
      → 1 ≤ options.max_pending
      → (length (challenge options message verify s wallet nonce now).pending ≤ options.max_pending)
        × (get nonce (challenge options message verify s wallet nonce now).pending
            ≡ some (record {
              wallet = wallet;
              message = message wallet nonce now (now + options.challenge_ttl_ms);
              expires_at = now + options.challenge_ttl_ms;
              attempts = 0;
            }))
  unfolding challenge issue
  challenge_issues s wallet nonce now pos =
      let swept = sweep s now in
      let oldest = evict_oldest (length swept.pending) options.max_pending swept in
      let newest =
        evict_newest (length (nonces_of oldest wallet)) wallet options.max_pending_per_wallet
          oldest in
      (
        omega (
          arith,
          length-set-le nonce _ newest.pending,
          evict_newest_le (length (nonces_of oldest wallet)) wallet options.max_pending_per_wallet
              oldest,
          evict_oldest_lt (length swept.pending) options.max_pending swept (omega arith) pos,
        ),
        get-set nonce nonce _ newest.pending ∙ ground arith,
      )
