-- ===== src/Limits/Bookings.antt =====
-- A booking, and what `cancel` and `commit` make of it while it is fresh.
use relstate.Common.{
  Result-cases, ℕ, suc, ◌+◌, ◌≤◌, ◌≡◌, ok, arith, true, false, List, [], ◌∷◌, ◌++◌, leb,
  if◌then◌else◌, ◌==◌, ◌-◌, fun_ext, ap, inl, inr,
}
use relstate.Limits.{
  LimitConfig, Limiter, Entry, Reservation, UsageSnapshot, put, count_since, lamports_since, grant,
  pruned, usage, check_caps, book, reserve, commit, cancel, hour_ms, day_ms,
}
use relstate.Limits.Window.{
  Below, prune-Below, lamports_since-prune, count_since-prune, lamports_since-put, count_since-put,
  lamports_since-push, count_since-push, remove_from-push,
}
use relstate.Limits.Caps.{IsFresh}

abbrev pub booked : ℕ → ℕ → Reservation
booked e w = record { entry = e; owner = w }

-- The heap after an entry was written twice at a fresh reference.
module _ (cell : ℕ → Entry) (n now window : ℕ) (first then_this : Entry) (is : List ℕ)
    (b : Below n is) where
  count_since-put_twice :
      count_since (put n then_this (put n first cell)) now window is
      ≡ count_since cell now window is
  count_since-put_twice = omega (
    arith,
    count_since-put (put n first cell) now window n then_this is b,
    count_since-put cell now window n first is b,
  )

  lamports_since-put_twice :
      lamports_since (put n then_this (put n first cell)) now window is
      ≡ lamports_since cell now window is
  lamports_since-put_twice = omega (
    arith,
    lamports_since-put (put n first cell) now window n then_this is b,
    lamports_since-put cell now window n first is b,
  )

  count_since-push_twice :
      count_since (put n then_this (put n first cell)) now window (is ++ n ∷ [])
      ≡ count_since cell now window is + (if leb (now - then_this.at) window then 1 else 0)
  count_since-push_twice = omega (
    arith,
    count_since-push (put n first cell) now window n then_this is b,
    count_since-put cell now window n first is b,
  )

  lamports_since-push_twice :
      lamports_since (put n then_this (put n first cell)) now window (is ++ n ∷ [])
      ≡ lamports_since cell now window is
        + (if leb (now - then_this.at) window then then_this.lamports else 0)
  lamports_since-push_twice = omega (
    arith,
    lamports_since-push (put n first cell) now window n then_this is b,
    lamports_since-put cell now window n first is b,
  )

pub ==_refl : (n : ℕ) → (n == n) ≡ true
==_refl n = ground arith

pub put-put_self : (w : ℕ) (v : List ℕ) (f : ℕ → List ℕ) → put w (f w) (put w v f) ≡ f
put-put_self w v f = fun_ext (λ j. ground arith)

-- `commit` for `actual` and the usage `u` that stood before the booking, as seen at `t`.
abbrev pub with_one : ℕ → ℕ → UsageSnapshot → UsageSnapshot
with_one age actual u = record {
  wallet_last_hour = u.wallet_last_hour + (if leb age hour_ms then 1 else 0);
  wallet_lamports_last_day = u.wallet_lamports_last_day + (if leb age day_ms then actual else 0);
  global_last_hour = u.global_last_hour + (if leb age hour_ms then 1 else 0);
  global_lamports_last_day = u.global_lamports_last_day + (if leb age day_ms then actual else 0);
}

module _ (s : Limiter) (fresh : IsFresh s) (w worst_case now : ℕ) where
  abbrev pub as_booked : Entry
  as_booked = record { at = now; lamports = worst_case; opened = true }

  abbrev pub as_closed : ℕ → Entry
  as_closed actual = record { at = now; lamports = actual; opened = false }

  -- The state after `book` and `cancel`: the lists are the old ones.
  pub cancel-book : cancel (book s w worst_case now) (booked s.next w) ≡ record s {
    cell = put s.next (as_closed worst_case) (put s.next as_booked s.cell);
    next = suc s.next;
  }
  unfolding cancel book
  cancel-book = rw (
    ==_refl s.next,
    ==_refl w,
    remove_from-push s.next s.global fresh.everyone,
    remove_from-push s.next (s.by_wallet w) (fresh.wallets w),
    put-put_self w (s.by_wallet w ++ s.next ∷ []) s.by_wallet,
  )

  pub usage-cancel-book :
      (j t : ℕ) → usage (cancel (book s w worst_case now) (booked s.next w)) j t ≡ usage s j t
  unfolding usage
  usage-cancel-book j t =
      let closed = as_closed worst_case in
      let b = fresh.wallets j in
      rw cancel-book (
        ground (
          arith,
          count_since-put_twice s.cell s.next t hour_ms as_booked closed (s.by_wallet j) b,
          count_since-put_twice s.cell s.next t hour_ms as_booked closed s.global fresh.everyone,
          lamports_since-put_twice s.cell s.next t day_ms as_booked closed (s.by_wallet j) b,
          lamports_since-put_twice s.cell s.next t day_ms as_booked closed s.global fresh.everyone,
        ))

  pub usage-commit-book :
      (actual t : ℕ)
      → usage (commit (book s w worst_case now) (booked s.next w) actual) w t
        ≡ with_one (t - now) actual (usage s w t)
  unfolding usage commit book
  usage-commit-book actual t =
      let closed = as_closed actual in
      let b = fresh.wallets w in
      rw (==_refl s.next, ==_refl w)
        (ground (
          arith,
          count_since-push_twice s.cell s.next t hour_ms as_booked closed (s.by_wallet w) b,
          count_since-push_twice s.cell s.next t hour_ms as_booked closed s.global fresh.everyone,
          lamports_since-push_twice s.cell s.next t day_ms as_booked closed (s.by_wallet w) b,
          lamports_since-push_twice s.cell s.next t day_ms as_booked closed s.global fresh.everyone,
        ))

-- Pruning is not seen in the usage, then or later.
pub usage-pruned :
    (s : Limiter) (w now j t : ℕ) → now ≤ t → usage (pruned s w now) j t ≡ usage s j t
unfolding usage pruned
usage-pruned s w now j t le = ground (
  arith,
  count_since-prune s.cell now t hour_ms le (omega arith) (s.by_wallet w),
  count_since-prune s.cell now t hour_ms le (omega arith) s.global,
  lamports_since-prune s.cell now t day_ms le (omega arith) (s.by_wallet w),
  lamports_since-prune s.cell now t day_ms le (omega arith) s.global,
)

pub pruned-IsFresh : (s : Limiter) (w now : ℕ) → IsFresh s → IsFresh (pruned s w now)
unfolding pruned
pruned-IsFresh s w now f = record {
  wallets =
      λ j. ground (arith, f.wallets j, prune-Below s.cell now s.next (s.by_wallet w) (f.wallets w));
  everyone = prune-Below s.cell now s.next s.global f.everyone;
}

pub reserve_lem :
    (config : LimitConfig) (s : Limiter) (w worst_case now : ℕ)
    → reserve config s w worst_case now
      ≡ grant (pruned s w now) w worst_case now (check_caps config (usage s w now) worst_case)
unfolding reserve
reserve_lem config s w worst_case now =
    ap (λ u. grant (pruned s w now) w worst_case now (check_caps config u worst_case))
      (usage-pruned s w now w now (omega arith))

-- A reservation that is granted: the usage passed the caps, and the worst case is booked.
pub reserve-eq-ok :
    (config : LimitConfig) (s s' : Limiter) (w worst_case now : ℕ) (r : Reservation)
    → reserve config s w worst_case now ≡ (s', ok r)
    → (check_caps config (usage s w now) worst_case ≡ ok tt)
      × (s' ≡ book (pruned s w now) w worst_case now)
      × (r ≡ booked s.next w)
unfolding pruned
reserve-eq-ok config s s' w worst_case now r e =
    elim (Result-cases (check_caps config (usage s w now) worst_case)) [
      | inl c ↦ let g = rw (reserve_lem config s w worst_case now, c) at e in (c, cc, cc)
      | inr (scope, c) ↦ let g = rw (reserve_lem config s w worst_case now, c) at e in cc
    ]
