-- ===== src/Onramp/DailyCap.antt =====
-- backend/src/providers/onramp.ts, createDailyCap: what each wallet was credited in the last day.
use relstate.Common.{ℕ, ◌+◌, ◌-◌, Bool, List, [], ◌∷◌, ◌++◌, ltb, leb, ◌==◌, if◌then◌else◌, keep}

abbrev pub day_ms : ℕ
day_ms = 86_400_000

-- `byWallet`, with the time and the amount of each entry; a wallet without entries has none.
abbrev pub Cap : Type 0
Cap = ℕ → List (ℕ × ℕ)

abbrev pub no_credits : Cap
no_credits wallet = []

abbrev pub is_live : ℕ → ℕ × ℕ → Bool
is_live now (at, amount) = leb (now - at) day_ms

abbrev pub put : Cap → ℕ → List (ℕ × ℕ) → Cap
put cap wallet kept w = if wallet == w then kept else cap w

unfoldable pub live : Cap → ℕ → ℕ → Cap × List (ℕ × ℕ)
live cap wallet now = let kept = keep (is_live now) (cap wallet) in (put cap wallet kept, kept)

unfoldable pub total : List (ℕ × ℕ) → ℕ
total [] = 0
total ((at, amount) ∷ rest) = amount + total rest

unfoldable pub used : Cap → ℕ → ℕ → Cap × ℕ
unfolding live
used cap wallet now = ((live cap wallet now).0, total (live cap wallet now).1)

-- `left < 0n ? 0n : left`.
unfoldable pub remaining : ℕ → Cap → ℕ → ℕ → Cap × ℕ
unfolding used
remaining limit cap wallet now = ((used cap wallet now).0, limit - (used cap wallet now).1)

-- Whether it throws, and the map after the sweep.
unfoldable pub check : ℕ → Cap → ℕ → ℕ → ℕ → Cap × Bool
unfolding used
check limit cap wallet amount now =
    ((used cap wallet now).0, ltb limit ((used cap wallet now).1 + amount))

unfoldable pub record_credit : Cap → ℕ → ℕ → ℕ → Cap
unfolding live
record_credit cap wallet amount now =
    put (live cap wallet now).0 wallet ((live cap wallet now).1 ++ (now, amount) ∷ [])
