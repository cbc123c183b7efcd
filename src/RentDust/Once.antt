-- ===== src/RentDust/Once.antt =====
-- Requests for rent dust that interleave at their first await: what each wallet is granted and paid.
use relstate.Common.{
  ℕ, ◌+◌, ◌≤◌, ◌≡◌, refl, inl, inr, Bool, true, false, ◌&&◌, ◌||◌, ◌==◌, List, [], ◌∷◌, Option,
  none, some, Result, ok, err, arith, has, without, has-add, has-without, if◌then◌else◌, Bool-cases,
  leb,
}
use relstate.Common.Counting.{count, remove_one, count-remove_one}
use relstate.Limits.{Limiter, Scope, Reservation, reserve}
use relstate.RentDust.{
  DustDeps, DustState, DustAnswers, DustError, wallet_is_treasury, rate_limited, rpc_failed,
  run_failed, Dust, granted, already_granted, already_funded, begin, finish, transfer,
  grant_reserved, grant_compared, grant_priced, rent_dust_amount,
}

abbrev pub is_grant : Result DustError Dust → Bool
is_grant (err e) = false
is_grant (ok (granted lamports signature)) = true
is_grant (ok already_granted) = false
is_grant (ok already_funded) = false

-- The transfer of the grant threw.
abbrev pub is_run_failed : Result DustError Dust → Bool
is_run_failed (ok d) = false
is_run_failed (err run_failed) = true
is_run_failed (err wallet_is_treasury) = false
is_run_failed (err rate_limited) = false
is_run_failed (err rpc_failed) = false

-- The service, the wallets whose requests are under way, the wallets of the requests that have
-- returned a grant so far, and those of the requests whose transfer has thrown.
pub record Service : Type 0 where
  pub dust : DustState
  pub running : List ℕ
  pub grants : List ℕ
  pub thrown : List ℕ

module _ (deps : DustDeps) where
  abbrev pub started : Service → ℕ → DustState × Option (Result DustError Dust) → Service
  started s wallet (dust, some result) = record s { dust = dust }
  started s wallet (dust, none) = record s { dust = dust; running = wallet ∷ s.running }

  abbrev pub finished : Service → ℕ → DustState × Result DustError Dust → Service
  finished s wallet (dust, res) = record {
    dust = dust;
    running = remove_one wallet s.running;
    grants = if is_grant res then wallet ∷ s.grants else s.grants;
    thrown = if is_run_failed res then wallet ∷ s.thrown else s.thrown;
  }

  -- A request starts, or one that is under way ends, with any answers.
  pub data Step : Service → Service → Type 0 where
    starts : (s : Service) (wallet : ℕ) → Step s (started s wallet (begin deps s.dust wallet))
    ends :
        (s : Service) (wallet now : ℕ) (answers : DustAnswers)
        → has wallet s.running ≡ true
        → Step s (finished s wallet (finish deps s.dust answers wallet now))

  pub data Reach : Service → Service → Type 0 where
    here : {s : Service} → Reach s s
    next : {s t u : Service} → Reach s t → Step t u → Reach s u

  -- A wallet is under way or granted only with its mark, and once.
  abbrev Once : Service → Type 0
  Once s = (w : ℕ) → count w s.running + count w s.grants ≤ (if has w s.dust.marked then 1 else 0)

  -- How the rest of a request ends: a grant keeps the marks, anything else takes the mark back.
  abbrev pub FinishEnd : List ℕ → ℕ → DustState × Result DustError Dust → Type 0
  FinishEnd marked wallet (s, res) =
      s.marked ≡ (if is_grant res then marked else without wallet marked)

  module _ (s : DustState) (answers : DustAnswers) (wallet now : ℕ) where
    transfer-FinishEnd :
        (t : DustState)
        → t.marked ≡ s.marked
        → (amount : ℕ) (r : Reservation) (o : Option ℕ) (landed : Bool)
        → FinishEnd s.marked wallet (transfer t wallet amount r o landed)
    transfer-FinishEnd t same amount r none false = rw same refl
    transfer-FinishEnd t same amount r none true = rw same refl
    transfer-FinishEnd t same amount r (some signature) landed = same

    reserved-FinishEnd :
        (amount : ℕ) (q : Limiter × Result Scope Reservation)
        → FinishEnd s.marked wallet (grant_reserved s answers wallet amount q)
    reserved-FinishEnd amount (limiter, err scope) = refl
    reserved-FinishEnd amount (limiter, ok r) =
        transfer-FinishEnd (record s { limiter = limiter }) refl amount r answers.signature
          answers.landed

    compared-FinishEnd :
        (amount : ℕ) (b : Bool)
        → FinishEnd s.marked wallet (grant_compared deps s answers wallet now amount b)
    compared-FinishEnd amount true = refl
    compared-FinishEnd amount false =
        reserved-FinishEnd amount (reserve deps.limits s.limiter wallet amount now)

    priced-FinishEnd :
        (balance : Option ℕ) (x : Result DustError ℕ)
        → FinishEnd s.marked wallet (grant_priced deps s answers wallet now balance x)
    priced-FinishEnd balance (err e) = refl
    priced-FinishEnd none (ok amount) = refl
    priced-FinishEnd (some balance) (ok amount) = compared-FinishEnd amount (leb amount balance)

    pub finish-FinishEnd : FinishEnd s.marked wallet (finish deps s answers wallet now)
    unfolding finish
    finish-FinishEnd = priced-FinishEnd answers.balance (rent_dust_amount deps answers.rent)

  finished-Once :
      (s : Service) (wallet : ℕ)
      → Once s
      → has wallet s.running ≡ true
      → (p : DustState × Result DustError Dust) → FinishEnd s.dust.marked wallet p
      → Once (finished s wallet p)
  finished-Once s wallet once under_way (dust, res) same w = elim (Bool-cases (is_grant res)) [
    | inl e ↦ ground (arith, e, same, once w, count-remove_one w wallet s.running)
    | inr e ↦ ground (
      arith,
      e,
      same,
      once w,
      count-remove_one w wallet s.running,
      has-without w wallet s.dust.marked,
    )
  ]

  begin-Once :
      (s : Service) (wallet : ℕ) → Once s → Once (started s wallet (begin deps s.dust wallet))
  unfolding begin
  begin-Once s wallet once w = ground (arith, once w, has-add w wallet s.dust.marked)

  Step-Once : {s t : Service} → Step s t → Once s → Once t
  Step-Once (starts s wallet) once = begin-Once s wallet once
  Step-Once (ends s wallet now answers under_way) once =
      finished-Once s wallet once under_way (finish deps s.dust answers wallet now)
        (finish-FinishEnd s.dust answers wallet now)

  -- What the rest of a request pays: one transfer at most, and none where none was tried.
  abbrev PayEnd : List ℕ → ℕ → DustState × Result DustError Dust → Type 0
  PayEnd paid wallet (s, res) =
      (w : ℕ)
      → count w s.paid
        ≤ count w paid + (if (wallet == w) && (is_grant res || is_run_failed res) then 1 else 0)

  module _ (s : DustState) (answers : DustAnswers) (wallet now : ℕ) where
    transfer-PayEnd :
        (t : DustState)
        → t.paid ≡ s.paid
        → (amount : ℕ) (r : Reservation) (o : Option ℕ) (landed : Bool)
        → PayEnd s.paid wallet (transfer t wallet amount r o landed)
    transfer-PayEnd t same amount r none false w = rw same (ground arith)
    transfer-PayEnd t same amount r none true w = rw same (ground arith)
    transfer-PayEnd t same amount r (some signature) landed w = rw same (ground arith)

    reserved-PayEnd :
        (amount : ℕ) (q : Limiter × Result Scope Reservation)
        → PayEnd s.paid wallet (grant_reserved s answers wallet amount q)
    reserved-PayEnd amount (limiter, err scope) = λ w. ground arith
    reserved-PayEnd amount (limiter, ok r) =
        transfer-PayEnd (record s { limiter = limiter }) refl amount r answers.signature
          answers.landed

    compared-PayEnd :
        (amount : ℕ) (b : Bool)
        → PayEnd s.paid wallet (grant_compared deps s answers wallet now amount b)
    compared-PayEnd amount true = λ w. ground arith
    compared-PayEnd amount false =
        reserved-PayEnd amount (reserve deps.limits s.limiter wallet amount now)

    priced-PayEnd :
        (balance : Option ℕ) (x : Result DustError ℕ)
        → PayEnd s.paid wallet (grant_priced deps s answers wallet now balance x)
    priced-PayEnd balance (err e) = λ w. ground arith
    priced-PayEnd none (ok amount) = λ w. ground arith
    priced-PayEnd (some balance) (ok amount) = compared-PayEnd amount (leb amount balance)

    finish-PayEnd : PayEnd s.paid wallet (finish deps s answers wallet now)
    unfolding finish
    finish-PayEnd = priced-PayEnd answers.balance (rent_dust_amount deps answers.rent)

  -- From `s` to `t` a wallet is paid at most as often as grants and failed transfers have ended.
  abbrev Metered : ℕ → Service → Service → Type 0
  Metered w s t =
      count w t.dust.paid + count w s.grants + count w s.thrown
      ≤ count w s.dust.paid + count w t.grants + count w t.thrown

  begin-Metered :
      (w : ℕ) (s : Service) (wallet : ℕ) → Metered w s (started s wallet (begin deps s.dust wallet))
  unfolding begin
  begin-Metered w s wallet = ground arith

  finished-Metered :
      (w : ℕ) (s : Service) (wallet : ℕ) (p : DustState × Result DustError Dust)
      → PayEnd s.dust.paid wallet p
      → Metered w s (finished s wallet p)
  finished-Metered w s wallet (dust, res) h = ground (arith, h w)

  Step-Metered : (w : ℕ) {s t : Service} → Step s t → Metered w s t
  Step-Metered w (starts s wallet) = begin-Metered w s wallet
  Step-Metered w (ends s wallet now answers under_way) =
      finished-Metered w s wallet (finish deps s.dust answers wallet now)
        (finish-PayEnd s.dust answers wallet now)

  Reach-Metered : (w : ℕ) {s t : Service} → Reach s t → Metered w s t
  Reach-Metered w here = omega arith
  Reach-Metered w (next q step) = omega (arith, Reach-Metered w q, Step-Metered w step)

  Reach-Once : {s t : Service} → Reach s t → Once s → Once t
  Reach-Once here once = once
  Reach-Once (next q step) once = Step-Once step (Reach-Once q once)

  -- Requests for rent dust may interleave at their first await, and their calls return or throw.
  -- From a service with no request under way and no request ended, each wallet is granted rent at
  -- most once, and the transfers to it that land are at most one more than those that throw.
  pub grant_once :
      {s t : Service}
      → Reach s t
      → s.running ≡ []
      → s.grants ≡ []
      → s.thrown ≡ []
      → (w : ℕ)
      → (count w t.grants ≤ 1) × (count w t.dust.paid ≤ count w s.dust.paid + 1 + count w t.thrown)
  grant_once {s} {t} r idle ungranted unthrown w =
      let once : Once s = λ v. rw (idle, ungranted) (ground arith) in
      let most : count w t.grants ≤ 1 = ground (arith, Reach-Once r once w) in
      let metered = Reach-Metered w r in (most, ground arith)
