-- ===== src/Limits/History.antt =====
-- Histories of the limiter: requests, closings and readings at moments that never go back.
use relstate.Common.{ℕ, ◌≤◌, ◌≡◌, true}
use relstate.Limits.{
  LimitConfig, Limiter, Reservation, create_rate_limiter, snapshot, reserve, commit, cancel,
}
use relstate.Limits.Caps.{
  WithinCaps, IsSound, create_rate_limiter-IsSound, pruned-IsSound, reserve-IsSound,
}
use relstate.Limits.Closing.{commit-IsSound, cancel-IsSound}

module _ (config : LimitConfig) where
  -- One call at a later moment. A commit of an open entry is for no more than it reserved.
  pub data Step (s : Limiter) (now : ℕ) : Limiter → ℕ → Type 0 where
    reserves :
        (w worst_case later : ℕ)
        → now ≤ later
        → Step s now (reserve config s w worst_case later).0 later
    reads : (w later : ℕ) → now ≤ later → Step s now (snapshot s w later).0 later
    commits :
        (r : Reservation) (actual later : ℕ)
        → now ≤ later
        → ((s.cell r.entry).opened ≡ true → actual ≤ (s.cell r.entry).lamports)
        → Step s now (commit s r actual) later
    cancels : (r : Reservation) (later : ℕ) → now ≤ later → Step s now (cancel s r) later

  pub data Reach (start : ℕ) : Limiter → ℕ → Type 0 where
    here : Reach start create_rate_limiter start
    next :
        {s t : Limiter} {now later : ℕ}
        → Reach start s now
        → Step s now t later
        → Reach start t later

  Step-IsSound :
      {s t : Limiter} {now later : ℕ}
      → Step s now t later
      → IsSound config s now
      → IsSound config t later
  unfolding snapshot
  Step-IsSound {s} {now} (reserves w c later le) v = reserve-IsSound config s w c now later le v
  Step-IsSound {s} {now} (reads w later le) v = pruned-IsSound config s w now later le v
  Step-IsSound {s} {now} (commits r a later le small) v =
      commit-IsSound config s r a now later le small v
  Step-IsSound {s} {now} (cancels r later le) v = cancel-IsSound config s r now later le v

  Reach-IsSound : {start now : ℕ} {s : Limiter} → Reach start s now → IsSound config s now
  Reach-IsSound {start} here = create_rate_limiter-IsSound config start
  Reach-IsSound (next r st) = Step-IsSound st (Reach-IsSound r)

  -- After any history of reservations, readings, cancellations and commits of open entries
  -- for at most the reserved amount, at non-decreasing times, every wallet and the backend as a whole are within the hourly
  -- count caps and the daily lamport caps, for the windows that end now.
  pub Reach-WithinCaps : (start now : ℕ) (s : Limiter) → Reach start s now → WithinCaps config s now
  Reach-WithinCaps start now s r = (Reach-IsSound r).within
