-- ===== src/Limits/Closing.antt =====
-- `commit` and `cancel` of a reservation keep the caps.
use relstate.Common.{ℕ, ◌≤◌, ◌≡◌, refl, arith, Bool-cases, inl, inr, true}
use relstate.Limits.{
  LimitConfig, Limiter, Entry, Reservation, put, commit, remove_from, cancel, hour_ms, day_ms,
}
use relstate.Limits.Window.{
  remove_from-Below, lamports_since_mono, count_since_mono, lamports_since-remove_from-le,
  count_since-remove_from-le,
}
use relstate.Limits.Caps.{IsSound}

module _ (config : LimitConfig) where
  -- The heap changes, raising no amount and moving no entry in time; lists do not grow.
  pub lowered-IsSound :
      (s : Limiter) (cell' : ℕ → Entry) (now later : ℕ)
      → now ≤ later
      → ((j : ℕ) → (cell' j).at ≡ (s.cell j).at)
      → ((j : ℕ) → (cell' j).lamports ≤ (s.cell j).lamports)
      → IsSound config s now
      → IsSound config (record s { cell = cell' }) later
  lowered-IsSound s cell' now later le kept lower v = record {
    fresh = record { wallets = v.fresh.wallets; everyone = v.fresh.everyone };
    within = record {
      wallet_count = λ j. omega (
        arith,
        v.within.wallet_count j,
        count_since_mono s.cell cell' now later hour_ms le kept lower (s.by_wallet j),
      );
      wallet_lamports = λ j. omega (
        arith,
        v.within.wallet_lamports j,
        lamports_since_mono s.cell cell' now later day_ms le kept lower (s.by_wallet j),
      );
      global_count = omega (
        arith,
        v.within.global_count,
        count_since_mono s.cell cell' now later hour_ms le kept lower s.global,
      );
      global_lamports = omega (
        arith,
        v.within.global_lamports,
        lamports_since_mono s.cell cell' now later day_ms le kept lower s.global,
      );
    };
  }

  -- A commit of at most what was reserved.
  pub commit-IsSound :
      (s : Limiter) (r : Reservation) (actual now later : ℕ)
      → now ≤ later
      → ((s.cell r.entry).opened ≡ true → actual ≤ (s.cell r.entry).lamports)
      → IsSound config s now
      → IsSound config (commit s r actual) later
  unfolding commit
  commit-IsSound s r actual now later le small v = elim (Bool-cases (s.cell r.entry).opened) [
    | inl e ↦ rw e (lowered-IsSound s _ now later le (λ j. ground arith) (λ j. ground arith) v)
    | inr e ↦ rw e (lowered-IsSound s s.cell now later le (λ j. refl) (λ j. omega arith) v)
  ]

  remove-IsSound :
      (s : Limiter) (r : Reservation) (now : ℕ)
      → IsSound config s now
      → IsSound config
          (record s {
            by_wallet = put r.owner (remove_from r.entry (s.by_wallet r.owner)) s.by_wallet;
            global = remove_from r.entry s.global;
          })
          now
  remove-IsSound s r now v =
      let mine = s.by_wallet r.owner in
      record {
        fresh = record {
          wallets = λ j. ground (
            arith,
            v.fresh.wallets j,
            remove_from-Below r.entry s.next mine (v.fresh.wallets r.owner),
          );
          everyone = remove_from-Below r.entry s.next s.global v.fresh.everyone;
        };
        within = record {
          wallet_count = λ j. ground (
            arith,
            v.within.wallet_count j,
            v.within.wallet_count r.owner,
            count_since-remove_from-le s.cell now hour_ms r.entry mine,
          );
          wallet_lamports = λ j. ground (
            arith,
            v.within.wallet_lamports j,
            v.within.wallet_lamports r.owner,
            lamports_since-remove_from-le s.cell now day_ms r.entry mine,
          );
          global_count = omega (
            arith,
            v.within.global_count,
            count_since-remove_from-le s.cell now hour_ms r.entry s.global,
          );
          global_lamports = omega (
            arith,
            v.within.global_lamports,
            lamports_since-remove_from-le s.cell now day_ms r.entry s.global,
          );
        };
      }

  pub cancel-IsSound :
      (s : Limiter) (r : Reservation) (now later : ℕ)
      → now ≤ later
      → IsSound config s now
      → IsSound config (cancel s r) later
  unfolding cancel
  cancel-IsSound s r now later le v = elim (Bool-cases (s.cell r.entry).opened) [
    | inl e ↦ rw e (
        lowered-IsSound _ _ now later le (λ j. ground arith) (λ j. ground arith)
          (remove-IsSound s r now v))
    | inr e ↦ rw e (lowered-IsSound s s.cell now later le (λ j. refl) (λ j. omega arith) v)
  ]
