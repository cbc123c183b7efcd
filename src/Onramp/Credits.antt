-- ===== src/Onramp/Credits.antt =====
-- The credits on record: what a wallet was credited in the day up to a time.
use relstate.Common.{
  ℕ, ◌+◌, ◌≤◌, ◌≡◌, Bool, true, false, ◌&&◌, List, [], ◌∷◌, arith, set, ◌==◌, if◌then◌else◌,
}
use relstate.Onramp.DailyCap.{Cap, is_live, record_credit}
use relstate.Onramp.{CreditStatus, credited, rejected, OnrampCredit}
use relstate.Onramp.Spent.{spent, spent-record_credit}

abbrev is_credited : CreditStatus → Bool
is_credited credited = true
is_credited rejected = false

-- What one credit counts for, and all that are on record.
abbrev pub counts : ℕ → ℕ → OnrampCredit → ℕ
counts w t k =
    if (k.wallet == w) && (is_credited k.status && is_live t (k.at, k.amount_usdc))
    then k.amount_usdc
    else 0

abbrev pub credited_in : ℕ → ℕ → List (ℕ × OnrampCredit) → ℕ
credited_in w t [] = 0
credited_in w t ((ref, k) ∷ m) = counts w t k + credited_in w t m

pub credited_in-set :
    (w t ref : ℕ) (k : OnrampCredit) (m : List (ℕ × OnrampCredit))
    → credited_in w t (set ref k m) ≤ credited_in w t m + counts w t k
credited_in-set w t ref k [] = omega arith
credited_in-set w t ref k ((r, k') ∷ m) = ground (arith, credited_in-set w t ref k m)

-- What is on record has been counted against the cap.
abbrev pub Listed : List (ℕ × OnrampCredit) → Cap → ℕ → Type 0
Listed credits cap now = (w t : ℕ) → now ≤ t → credited_in w t credits ≤ spent cap w t

pub counts-rejected : (w t : ℕ) (k : OnrampCredit) → k.status ≡ rejected → counts w t k ≡ 0
counts-rejected w t k h = rw h (ground arith)

-- A credit that is recorded in the cap and put on record.
pub Listed-set :
    (credits : List (ℕ × OnrampCredit)) (cap : Cap) (now wallet amount ref : ℕ) (k : OnrampCredit)
    → Listed credits cap now
    → k.wallet ≡ wallet
    → k.amount_usdc ≡ amount
    → k.at ≡ now
    → Listed (set ref k credits) (record_credit cap wallet amount now) now
Listed-set credits cap now wallet amount ref k listed hw ha ht w t le = ground (
  arith,
  listed w t le,
  spent-record_credit cap wallet amount now w t le,
  credited_in-set w t ref k credits,
  hw,
  ha,
  ht,
)

pub Listed-record_credit :
    (credits : List (ℕ × OnrampCredit)) (cap : Cap) (now wallet amount : ℕ)
    → Listed credits cap now
    → Listed credits (record_credit cap wallet amount now) now
Listed-record_credit credits cap now wallet amount listed w t le =
    omega (arith, listed w t le, spent-record_credit cap wallet amount now w t le)
