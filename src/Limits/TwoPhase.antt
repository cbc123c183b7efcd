-- ===== src/Limits/TwoPhase.antt =====
-- Reservations in two phases: what a cancel and a commit leave of a reservation.
use relstate.Common.{
  Result-cases, ℕ, ◌+◌, ◌≤◌, ◌≡◌, refl, ok, err, arith, ◌-◌, ap, ◌↔◌, ◌<◌, ◌∙◌, Bool-cases, inl,
  inr,
}
use relstate.Limits.{
  LimitConfig, Limiter, Scope, Reservation, UsageSnapshot, pruned, usage, check_caps, reserve,
  commit, cancel,
}
use relstate.Limits.Caps.{IsFresh}
use relstate.Limits.Bookings.{
  booked, ==_refl, with_one, usage-cancel-book, usage-commit-book, usage-pruned, pruned-IsFresh,
  reserve_lem, reserve-eq-ok,
}

-- What the four caps ask of a usage and a cost.
abbrev pub Fits : LimitConfig → UsageSnapshot → ℕ → Type 0
Fits config u cost =
    (u.wallet_last_hour < config.max_per_wallet_per_hour)
    × (u.global_last_hour < config.max_global_per_hour)
    × (u.wallet_lamports_last_day + cost ≤ config.max_lamports_per_wallet_per_day)
    × (u.global_lamports_last_day + cost ≤ config.max_lamports_global_per_day)

pub check_caps_iff :
    (config : LimitConfig) (u : UsageSnapshot) (cost : ℕ)
    → (check_caps config u cost ≡ ok tt) ↔ Fits config u cost
unfolding check_caps
check_caps_iff config u cost = ground arith

-- `reserve` grants a reservation exactly when the caller's and the global counts of the last hour
-- lie below their caps and the worst case fits under both daily lamport caps; a refusal changes
-- no wallet's usage, now or later.
pub reserve_iff :
    (config : LimitConfig) (s : Limiter) (w worst_case now : ℕ)
    → (((reserve config s w worst_case now).1 ≡ ok (booked s.next w))
        ↔ Fits config (usage s w now) worst_case)
      × ((scope : Scope)
          → (reserve config s w worst_case now).1 ≡ err scope
          → (j t : ℕ) → now ≤ t
          → usage (reserve config s w worst_case now).0 j t ≡ usage s j t)
unfolding pruned
reserve_iff config s w worst_case now =
    rw (reserve_lem config s w worst_case now)
      (elim (Result-cases (check_caps config (usage s w now) worst_case)) [
        | inl c ↦ rw c ((λ _. (check_caps_iff config _ worst_case).0 c, λ _. refl), λ scope e. cc)
        | inr (scope, c) ↦ rw c (
          (λ e. cc, λ f. let c' = (check_caps_iff config _ worst_case).1 f in cc),
          λ _ _ j t le. usage-pruned s w now j t le,
        )
      ])

module _ (config : LimitConfig) (s s' : Limiter) (w worst_case now : ℕ) (r : Reservation)
    (fresh : IsFresh s) (granted : reserve config s w worst_case now ≡ (s', ok r)) where
  -- A reservation that is cancelled at once leaves no trace in the usage of any wallet, then or
  -- later.
  pub usage-cancel-reserve : (j t : ℕ) → now ≤ t → usage (cancel s' r) j t ≡ usage s j t
  unfolding pruned
  usage-cancel-reserve j t le =
      let (_, es, er) = reserve-eq-ok config s s' w worst_case now r granted in
      rw (es, er)
        (usage-cancel-book (pruned s w now) (pruned-IsFresh s w now fresh) w worst_case now j t
          ∙ usage-pruned s w now j t le)

  -- A reservation that is committed at once counts, for its wallet and globally, as one transaction
  -- of the actual cost, whatever was reserved, as long as it lies in the window.
  pub usage-commit-reserve :
      (actual t : ℕ)
      → now ≤ t
      → usage (commit s' r actual) w t ≡ with_one (t - now) actual (usage s w t)
  unfolding pruned
  usage-commit-reserve actual t le =
      let (_, es, er) = reserve-eq-ok config s s' w worst_case now r granted in
      rw (es, er)
        (usage-commit-book (pruned s w now) (pruned-IsFresh s w now fresh) w worst_case now actual t
          ∙ ap (with_one (t - now) actual) (usage-pruned s w now w t le))

-- A reservation is closed once: after a commit or a cancel, a further commit or cancel changes
-- nothing.
pub closes_once :
    (s : Limiter) (r : Reservation) (a b : ℕ)
    → (commit (commit s r a) r b ≡ commit s r a)
      × (cancel (commit s r a) r ≡ commit s r a)
      × (commit (cancel s r) r b ≡ cancel s r)
      × (cancel (cancel s r) r ≡ cancel s r)
unfolding commit cancel
closes_once s r a b = elim (Bool-cases (s.cell r.entry).opened) [
  | inl e ↦ rw (e, ==_refl r.entry) (refl, refl, refl, refl)
  | inr e ↦ rw (e, e) (refl, refl, refl, refl)
]
