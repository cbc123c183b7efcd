-- ===== src/Limits.antt =====
-- backend/src/limits.ts: the spend caps of the sponsor and the treasury.
-- An `Entry` is an object that the wallet's list and the global list share, so both lists hold
-- references into a heap. `byWallet` is read only as `byWallet.get(w) ?? []`: a missing key is [].
-- Times are in milliseconds; `now - e.at` is compared with a window only from above, so the
-- truncated subtraction agrees with the source also where `e.at` lies after `now`.
pub mod Window
pub mod Caps
pub mod Closing
pub mod History
pub mod Bookings
pub mod TwoPhase
mod Examples
use relstate.Common.{
  ℕ, suc, ◌+◌, ◌-◌, Bool, true, false, List, [], ◌∷◌, ◌++◌, Result, ok, err, ◌>>◌, refuse_if, ltb,
  leb, ◌==◌, if◌then◌else◌,
}

pub data Scope : Type 0 where
  wallet global : Scope

pub record LimitConfig : Type 0 where
  pub max_per_wallet_per_hour : ℕ
  pub max_global_per_hour : ℕ
  pub max_lamports_per_wallet_per_day : ℕ
  pub max_lamports_global_per_day : ℕ

abbrev pub hour_ms : ℕ
hour_ms = 3_600_000

abbrev pub day_ms : ℕ
day_ms = 86_400_000

pub record Entry : Type 0 where
  pub at : ℕ
  pub lamports : ℕ
  pub opened : Bool

-- The captured `byWallet` and `global`, and the heap of entries: `next` is the next free reference.
pub record Limiter : Type 0 where
  pub cell : ℕ → Entry
  pub next : ℕ
  pub by_wallet : ℕ → List ℕ
  pub global : List ℕ

abbrev no_entry : Entry
no_entry = record { at = 0; lamports = 0; opened = false }

unfoldable pub create_rate_limiter : Limiter
create_rate_limiter = record { cell = λ _. no_entry; next = 0; by_wallet = λ _. []; global = [] }

-- A write to one key of a function.
abbrev pub put {ℓ} : {A : Type ℓ} → ℕ → A → (ℕ → A) → ℕ → A
put k v f j = if j == k then v else f j

module _ (cell : ℕ → Entry) (now : ℕ) where
  -- The loop of `prune` and the splice: the leading entries older than a day go.
  unfoldable pub prune : List ℕ → List ℕ
  prune [] = []
  prune (i ∷ is) = if ltb day_ms (now - (cell i).at) then prune is else i ∷ is

  unfoldable pub count_since : ℕ → List ℕ → ℕ
  count_since window [] = 0
  count_since window (i ∷ is) =
      if leb (now - (cell i).at) window then suc (count_since window is) else count_since window is

  unfoldable pub lamports_since : ℕ → List ℕ → ℕ
  lamports_since window [] = 0
  lamports_since window (i ∷ is) =
      if leb (now - (cell i).at) window
      then (cell i).lamports + lamports_since window is
      else lamports_since window is

pub record UsageSnapshot : Type 0 where
  pub wallet_last_hour : ℕ
  pub wallet_lamports_last_day : ℕ
  pub global_last_hour : ℕ
  pub global_lamports_last_day : ℕ

-- The two calls of `prune`, in place.
unfoldable pub pruned : Limiter → ℕ → ℕ → Limiter
unfolding prune
pruned s w now = record s {
  by_wallet = put w (prune s.cell now (s.by_wallet w)) s.by_wallet;
  global = prune s.cell now s.global;
}

-- What `snapshot` reads off the pruned lists.
unfoldable pub usage : Limiter → ℕ → ℕ → UsageSnapshot
unfolding count_since lamports_since
usage s w now = record {
  wallet_last_hour = count_since s.cell now hour_ms (s.by_wallet w);
  wallet_lamports_last_day = lamports_since s.cell now day_ms (s.by_wallet w);
  global_last_hour = count_since s.cell now hour_ms s.global;
  global_lamports_last_day = lamports_since s.cell now day_ms s.global;
}

unfoldable pub snapshot : Limiter → ℕ → ℕ → Limiter × UsageSnapshot
unfolding pruned usage
snapshot s w now = (pruned s w now, usage (pruned s w now) w now)

-- The caps of `reserve`, in the order of the source.
unfoldable pub check_caps : LimitConfig → UsageSnapshot → ℕ → Result Scope Unit
check_caps config u worst_case = do
  refuse_if (leb config.max_per_wallet_per_hour u.wallet_last_hour) wallet
  refuse_if (leb config.max_global_per_hour u.global_last_hour) global
  refuse_if (ltb config.max_lamports_per_wallet_per_day (u.wallet_lamports_last_day + worst_case))
      wallet
  refuse_if (ltb config.max_lamports_global_per_day (u.global_lamports_last_day + worst_case))
      global

-- The closures `commit` and `cancel` capture the entry and the wallet.
pub record Reservation : Type 0 where
  pub entry : ℕ
  pub owner : ℕ

-- A new entry, pushed on both lists.
unfoldable pub book : Limiter → ℕ → ℕ → ℕ → Limiter
book s w worst_case now = record {
  cell = put s.next (record { at = now; lamports = worst_case; opened = true }) s.cell;
  next = suc s.next;
  by_wallet = put w (s.by_wallet w ++ s.next ∷ []) s.by_wallet;
  global = s.global ++ s.next ∷ [];
}

abbrev pub grant : Limiter → ℕ → ℕ → ℕ → Result Scope Unit → Limiter × Result Scope Reservation
grant s w worst_case now (ok _) =
    (book s w worst_case now, ok (record { entry = s.next; owner = w }))
grant s w worst_case now (err scope) = (s, err scope)

-- The lists stay pruned also where a cap is hit.
unfoldable pub reserve : LimitConfig → Limiter → ℕ → ℕ → ℕ → Limiter × Result Scope Reservation
unfolding snapshot check_caps book
reserve config s w worst_case now =
    let (s', u) = snapshot s w now in grant s' w worst_case now (check_caps config u worst_case)

unfoldable pub commit : Limiter → Reservation → ℕ → Limiter
commit s r actual =
    if (s.cell r.entry).opened
    then record s {
      cell = put r.entry (record (s.cell r.entry) { lamports = actual; opened = false }) s.cell;
    }
    else s

-- `indexOf` and `splice`.
unfoldable pub remove_from : ℕ → List ℕ → List ℕ
remove_from e [] = []
remove_from e (i ∷ is) = if i == e then is else i ∷ remove_from e is

unfoldable pub cancel : Limiter → Reservation → Limiter
unfolding remove_from
cancel s r =
    if (s.cell r.entry).opened
    then record s {
      cell = put r.entry (record (s.cell r.entry) { opened = false }) s.cell;
      by_wallet = put r.owner (remove_from r.entry (s.by_wallet r.owner)) s.by_wallet;
      global = remove_from r.entry s.global;
    }
    else s
