-- ===== src/Limits/Caps.antt =====
-- The caps hold at every moment of every history of the limiter.
use relstate.Common.{
  Result-cases, ℕ, ◌≤◌, ◌≡◌, refl, suc, true, List, [], ◌∷◌, ◌++◌, ok, arith, inl, inr,
}
use relstate.Limits.{
  LimitConfig, Limiter, Entry, create_rate_limiter, count_since, lamports_since, pruned, usage,
  snapshot, check_caps, book, reserve, hour_ms, day_ms,
}
use relstate.Limits.Window.{
  Below, Below-mono, prune-Below, lamports_since-prune-le, count_since-prune-le,
  lamports_since_mono, count_since_mono, lamports_since-put, count_since-put, lamports_since-push,
  count_since-push,
}

-- References in use lie below the next free one.
pub record IsFresh (s : Limiter) : Type 0 where
  pub wallets : (w : ℕ) → Below s.next (s.by_wallet w)
  pub everyone : Below s.next s.global

-- The four caps of the configuration, on the windows that end now.
pub record WithinCaps (config : LimitConfig) (s : Limiter) (now : ℕ) : Type 0 where
  pub wallet_count :
      (w : ℕ) → count_since s.cell now hour_ms (s.by_wallet w) ≤ config.max_per_wallet_per_hour
  pub wallet_lamports :
      (w : ℕ)
      → lamports_since s.cell now day_ms (s.by_wallet w) ≤ config.max_lamports_per_wallet_per_day
  pub global_count : count_since s.cell now hour_ms s.global ≤ config.max_global_per_hour
  pub global_lamports :
      lamports_since s.cell now day_ms s.global ≤ config.max_lamports_global_per_day

pub record IsSound (config : LimitConfig) (s : Limiter) (now : ℕ) : Type 0 where
  pub fresh : IsFresh s
  pub within : WithinCaps config s now

push-Below : (n : ℕ) (is : List ℕ) → Below n is → Below (suc n) (is ++ n ∷ [])
push-Below n [] b = (omega arith, tt)
push-Below n (i ∷ is) b = (omega arith, push-Below n is b.1)

module _ (config : LimitConfig) where
  pub create_rate_limiter-IsSound : (now : ℕ) → IsSound config create_rate_limiter now
  unfolding create_rate_limiter count_since lamports_since
  create_rate_limiter-IsSound now = record {
    fresh = record { wallets = λ w. tt; everyone = tt };
    within = record {
      wallet_count = λ w. omega arith;
      wallet_lamports = λ w. omega arith;
      global_count = omega arith;
      global_lamports = omega arith;
    };
  }

  -- Time passes, and one wallet's list and the global one are pruned.
  pub pruned-IsSound :
      (s : Limiter) (w now later : ℕ)
      → now ≤ later
      → IsSound config s now
      → IsSound config (pruned s w later) later
  unfolding pruned
  pruned-IsSound s w now later le v = record {
    fresh = record {
      wallets = λ j. ground (
        arith,
        v.fresh.wallets j,
        prune-Below s.cell later s.next (s.by_wallet w) (v.fresh.wallets w),
      );
      everyone = prune-Below s.cell later s.next s.global v.fresh.everyone;
    };
    within = record {
      wallet_count = λ j. ground (
        arith,
        v.within.wallet_count j,
        v.within.wallet_count w,
        count_since-prune-le s.cell now later le (s.by_wallet w),
        count_since_mono s.cell s.cell now later hour_ms le (λ _. refl) (λ _. omega arith)
            (s.by_wallet j),
      );
      wallet_lamports = λ j. ground (
        arith,
        v.within.wallet_lamports j,
        v.within.wallet_lamports w,
        lamports_since-prune-le s.cell now later le (s.by_wallet w),
        lamports_since_mono s.cell s.cell now later day_ms le (λ _. refl) (λ _. omega arith)
            (s.by_wallet j),
      );
      global_count =
          omega (arith, v.within.global_count, count_since-prune-le s.cell now later le s.global);
      global_lamports =
          omega
            (arith, v.within.global_lamports, lamports_since-prune-le s.cell now later le s.global);
    };
  }

  -- A booking whose usage passed the four checks.
  pub book-IsSound :
      (s : Limiter) (w worst_case now : ℕ)
      → IsSound config s now
      → check_caps config (usage s w now) worst_case ≡ ok tt
      → IsSound config (book s w worst_case now) now
  unfolding book check_caps usage
  book-IsSound s w worst_case now v checked =
      let entry : Entry = record { at = now; lamports = worst_case; opened = true } in
      record {
        fresh = record {
          wallets = λ j. ground (
            arith,
            push-Below s.next (s.by_wallet w) (v.fresh.wallets w),
            Below-mono {m = s.next} {n = suc s.next} (s.by_wallet j) (omega arith)
                (v.fresh.wallets j),
          );
          everyone = push-Below s.next s.global v.fresh.everyone;
        };
        within = record {
          wallet_count = λ j. ground (
            arith,
            v.within.wallet_count j,
            count_since-push s.cell now hour_ms s.next entry (s.by_wallet w) (v.fresh.wallets w),
            count_since-put s.cell now hour_ms s.next entry (s.by_wallet j) (v.fresh.wallets j),
          );
          wallet_lamports = λ j. ground (
            arith,
            v.within.wallet_lamports j,
            lamports_since-push s.cell now day_ms s.next entry (s.by_wallet w) (v.fresh.wallets w),
            lamports_since-put s.cell now day_ms s.next entry (s.by_wallet j) (v.fresh.wallets j),
          );
          global_count =
              ground
                (arith, count_since-push s.cell now hour_ms s.next entry s.global v.fresh.everyone);
          global_lamports =
              ground (
                arith,
                lamports_since-push s.cell now day_ms s.next entry s.global v.fresh.everyone,
              );
        };
      }

  pub reserve-IsSound :
      (s : Limiter) (w worst_case now later : ℕ)
      → now ≤ later
      → IsSound config s now
      → IsSound config (reserve config s w worst_case later).0 later
  unfolding reserve snapshot
  reserve-IsSound s w worst_case now later le v =
      let p = pruned-IsSound s w now later le v in
      let s' = pruned s w later in
      elim (Result-cases (check_caps config (usage s' w later) worst_case)) [
        | inl e ↦ rw (e, reserve) (book-IsSound s' w worst_case later p e)
        | inr (scope, e) ↦ rw (e, reserve) p
      ]
