-- ===== src/RentDust.antt =====
-- backend/src/treasury.ts, rentDustAmount and grantRentDust: the rent of a wallet's first accounts.
-- What the cluster answers is a parameter of each request; the account sizes come from the IDL.
-- The request is cut where it first gives up the thread: `begin` marks the wallet, `finish` is the
-- rest, and requests may run between the two. The rest runs at once here, though it awaits the
-- cluster more than once. A transfer that throws may have landed.
pub mod Once
pub mod Grant
mod Examples
use relstate.Common.{
  ℕ, ◌+◌, ◌*◌, Bool, true, false, List, [], ◌∷◌, Option, none, some, Result, ok, err, ◌>>=◌, leb,
  ◌==◌, if◌then◌else◌, has, add, without,
}
use relstate.Limits.{LimitConfig, Limiter, Scope, Reservation, reserve, commit, cancel}

-- 8 and 59 fixed bytes, and four texts at their caps with a length in front.
abbrev pub listing_max_size : ℕ
listing_max_size = 8 + 59 + (4 + 60) + (4 + 40) + (4 + 120) + (4 + 120)

pub data DustError : Type 0 where
  wallet_is_treasury rate_limited rpc_failed run_failed : DustError

pub data Dust : Type 0 where
  granted : ℕ → ℕ → Dust
  already_granted already_funded : Dust

pub record DustDeps : Type 0 where
  pub treasury : ℕ
  pub limits : LimitConfig
  pub application_size : ℕ
  pub profile_size : ℕ
  pub dispute_size : ℕ

-- `dustGranted`, the limiter, and of the cluster the wallets of the transfers that have landed.
pub record DustState : Type 0 where
  pub marked : List ℕ
  pub limiter : Limiter
  pub paid : List ℕ

-- The rent-exempt minimum of a size, the wallet's balance, and the signature of the transfer;
-- `none` is a call that throws, and a transfer that throws may have landed.
pub record DustAnswers : Type 0 where
  pub rent : ℕ → Option ℕ
  pub balance : Option ℕ
  pub signature : Option ℕ
  pub landed : Bool

abbrev pub read : Option ℕ → Result DustError ℕ
read none = err rpc_failed
read (some n) = ok n

unfoldable pub rent_dust_amount : DustDeps → (ℕ → Option ℕ) → Result DustError ℕ
rent_dust_amount deps rent = do
  application ← read (rent deps.application_size)
  profile ← read (rent deps.profile_size)
  listing ← read (rent listing_max_size)
  dispute ← read (rent deps.dispute_size)
  ok (2 * application + profile + listing + dispute)

-- Up to `dustGranted.add(wallet)`: `none` goes on.
unfoldable pub begin : DustDeps → DustState → ℕ → DustState × Option (Result DustError Dust)
begin deps s wallet =
    if wallet == deps.treasury
    then (s, some (err wallet_is_treasury))
    else if has wallet s.marked
    then (s, some (ok already_granted))
    else (record s { marked = add wallet s.marked }, none)

-- `dustGranted.delete(wallet)`.
abbrev pub unmark : DustState → ℕ → DustState
unmark s wallet = record s { marked = without wallet s.marked }

-- `deps.run` of the transfer, on the cluster.
abbrev pub pay : DustState → ℕ → Bool → DustState
pay s wallet false = s
pay s wallet true = record s { paid = wallet ∷ s.paid }

-- From the transfer on; the `catch` cancels the reservation, whether the transfer landed or not.
abbrev pub transfer :
    DustState → ℕ → ℕ → Reservation → Option ℕ → Bool → DustState × Result DustError Dust
transfer s wallet amount r none landed =
    (unmark (record (pay s wallet landed) { limiter = cancel s.limiter r }) wallet, err run_failed)
transfer s wallet amount r (some signature) landed = (
  record (pay s wallet true) { limiter = commit s.limiter r amount },
  ok (granted amount signature),
)

abbrev pub grant_reserved :
    DustState
    → DustAnswers
    → ℕ
    → ℕ
    → Limiter × Result Scope Reservation
    → DustState × Result DustError Dust
grant_reserved s answers wallet amount (limiter, err scope) =
    (unmark (record s { limiter = limiter }) wallet, err rate_limited)
grant_reserved s answers wallet amount (limiter, ok r) =
    transfer (record s { limiter = limiter }) wallet amount r answers.signature answers.landed

abbrev pub grant_compared :
    DustDeps → DustState → DustAnswers → ℕ → ℕ → ℕ → Bool → DustState × Result DustError Dust
grant_compared deps s answers wallet now amount true = (unmark s wallet, ok already_funded)
grant_compared deps s answers wallet now amount false =
    grant_reserved s answers wallet amount (reserve deps.limits s.limiter wallet amount now)

abbrev pub grant_priced :
    DustDeps
    → DustState
    → DustAnswers
    → ℕ
    → ℕ
    → Option ℕ
    → Result DustError ℕ
    → DustState × Result DustError Dust
grant_priced deps s answers wallet now balance (err e) = (unmark s wallet, err e)
grant_priced deps s answers wallet now none (ok amount) = (unmark s wallet, err rpc_failed)
grant_priced deps s answers wallet now (some balance) (ok amount) =
    grant_compared deps s answers wallet now amount (leb amount balance)

-- The `try` and its `catch`.
unfoldable pub finish :
    DustDeps → DustState → DustAnswers → ℕ → ℕ → DustState × Result DustError Dust
finish deps s answers wallet now =
    grant_priced deps s answers wallet now answers.balance (rent_dust_amount deps answers.rent)

abbrev pub begun :
    DustDeps
    → DustAnswers
    → ℕ
    → ℕ
    → DustState × Option (Result DustError Dust)
    → DustState × Result DustError Dust
begun deps answers wallet now (s, some result) = (s, result)
begun deps answers wallet now (s, none) = finish deps s answers wallet now

-- A request with nothing in between.
unfoldable pub grant_rent_dust :
    DustDeps → DustState → DustAnswers → ℕ → ℕ → DustState × Result DustError Dust
grant_rent_dust deps s answers wallet now = begun deps answers wallet now (begin deps s wallet)
