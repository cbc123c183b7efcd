-- ===== src/RentRoute/Ending.antt =====
-- What a rent payment leaves in the limiter, the plans and the replay entries.
use relstate.Common.{
  ℕ, ◌+◌, ◌-◌, ◌≤◌, ◌≡◌, refl, sym, ◌∙◌, ap, ◌⊎◌, inl, inr, ℤ, true, false, List, [], ◌∷◌, Option,
  some, Result, ok, err, arith, get, set, delete, get-set, get-delete,
}
use relstate.Limits.{Limiter, Reservation, usage, reserve, commit, cancel}
use relstate.Limits.Caps.{IsFresh}
use relstate.Limits.Bookings.{with_one}
use relstate.Limits.TwoPhase.{usage-cancel-reserve, usage-commit-reserve}
use relstate.Transaction.{InspectedTransaction}
use relstate.RentPlan.{Registry, Undo, holds, sweep, admit, undo}
use relstate.RentPlan.Ownership.{Inv}
use relstate.RentPlan.RoundTrip.{holds-undo-admit}
use relstate.RentPlan.Preparations.{preparations-undo-admit}
use relstate.RentPlan.Undoing.{preparations_of}
use relstate.Cosigning.{
  CosignError, refused, rpc_failed, signing_failed, not_landed, outcome_unknown, Cosigned,
  booked_for, check_spend,
}
use relstate.Cosigning.Spending.{is_booked, Bounded, check_spend-Bounded, CosignEnd}
use relstate.RentRoute.{
  RentDeps, RentState, RentAnswers, Payment, sweep_seen, is_seen, check_signers, check_payment,
  rent_bounds, roll_back,
}

-- Every key of the second list is a key of the first.
abbrev pub NothingNew : List (ℕ × ℕ) → List (ℕ × ℕ) → Type 0
NothingNew before later = (k : ℕ) → is_seen k later ≡ true → is_seen k before ≡ true

pub sweep_seen-NothingNew : (now : ℕ) (seen : List (ℕ × ℕ)) → NothingNew seen (sweep_seen now seen)
unfolding sweep_seen
sweep_seen-NothingNew now [] k h = cc
sweep_seen-NothingNew now ((key, at) ∷ rest) k h = ground (arith, sweep_seen-NothingNew now rest k)

module _ (s : RentState) (now : ℕ) where
  -- Plans as they were, or with the contexts and the preparations of each wallet that the sweep of
  -- the expired plans leaves.
  abbrev pub SamePlans : Registry → Type 0
  SamePlans plans =
      (plans ≡ s.plans)
      ⊎ ((j : ℕ)
          → ((c : ℕ)
              → holds plans.cell (get j plans.plans) c
                ≡ holds (sweep s.plans now).cell (get j (sweep s.plans now).plans) c)
            × (preparations_of plans.cell (get j plans.plans)
                ≡ preparations_of (sweep s.plans now).cell (get j (sweep s.plans now).plans)))

  abbrev pub Unchanged : RentState → Type 0
  Unchanged s' =
      ((j t : ℕ) → now ≤ t → usage s'.limiter j t ≡ usage s.limiter j t)
      × SamePlans s'.plans
      × NothingNew s.seen s'.seen

module _ {Wire : Type 0} (deps : RentDeps Wire) (s : RentState) (answers : RentAnswers)
    (wire : Wire) (wallet now : ℕ) (fresh : IsFresh s.limiter) (plans-Inv : Inv s.plans) where
  -- The payment's transaction passed the checks.
  abbrev pub Checked : Payment → Type 0
  Checked p =
      (tx : InspectedTransaction) × (lamports : ℕ) × (check_signers deps wire wallet ≡ ok tx)
      × (check_payment deps tx wallet lamports answers.has_token ≡ ok p)

  -- The payment is booked and remembered, and its contexts stay in the wallet's plan.
  abbrev pub Landing : Payment → RentState → Type 0
  Landing p s' =
      (spent : ℤ) × (check_spend (rent_bounds deps) answers.cosigning ≡ ok spent)
      × Bounded (rent_bounds deps) spent
      × ((t : ℕ)
          → now ≤ t
          → usage s'.limiter wallet t
            ≡ with_one (t - now) (booked_for spent p.fee) (usage s.limiter wallet t))
      × (get (deps.hash p.tx.transaction.message_bytes) s'.seen ≡ some now)
      × (s'.plans ≡ (admit s.plans now wallet p.use_of p.wallet_signs).0)

  abbrev pub PaymentEnd : RentState × Result CosignError Cosigned → Type 0
  PaymentEnd (s', res) =
      ((is_booked res ≡ false) × Unchanged s now s')
      ⊎ ((is_booked res ≡ true) × ((p : Payment) × Checked p × Landing p s'))

  pub early-PaymentEnd :
      (s' : RentState) (e : CosignError)
      → is_booked (err e) ≡ false
      → s'.limiter ≡ s.limiter
      → s'.plans ≡ s.plans
      → NothingNew s.seen s'.seen
      → PaymentEnd (s', err e)
  early-PaymentEnd s' e l same_limiter same_plans new =
      inl (l, (λ j t le. ap (λ x. usage x j t) same_limiter, inl same_plans, new))

  module _ (p : Payment) (checked : Checked p) where
    abbrev key : ℕ
    key = deps.hash p.tx.transaction.message_bytes

    abbrev swept : List (ℕ × ℕ)
    swept = sweep_seen now s.seen

    abbrev worst_case : ℕ
    worst_case = deps.max_spend_lamports + p.fee

    pub deleted-NothingNew : NothingNew s.seen (delete key (set key now swept))
    deleted-NothingNew k h =
        sweep_seen-NothingNew now s.seen k
          (ground (arith, get-delete key k (set key now swept), get-set key k now swept))

    module _ (s1 : Limiter) (r : Reservation)
        (granted : reserve deps.rent_limits s.limiter wallet worst_case now ≡ (s1, ok r))
        (plans : Registry) (d : Undo)
        (admitted : admit s.plans now wallet p.use_of p.wallet_signs ≡ (plans, ok d))
        (range_rent : Option (ℕ × ℕ)) where
      landed :
          (limiter : Limiter) (spent : ℤ)
          → check_spend (rent_bounds deps) answers.cosigning ≡ ok spent
          → limiter ≡ commit s1 r (booked_for spent p.fee)
          → Landing p (record {
            limiter = limiter;
            plans = plans;
            seen = set key now swept;
            range_rent = range_rent;
          })
      landed limiter spent e same = (
        spent,
        e,
        check_spend-Bounded (rent_bounds deps) answers.cosigning spent e,
        λ t le.
            ap (λ x. usage x wallet t) same
            ∙ usage-commit-reserve deps.rent_limits s.limiter s1 wallet worst_case now r fresh
                granted (booked_for spent p.fee) t le,
        get-set key key now swept ∙ ground arith,
        sym (ap (λ q. q.0) admitted),
      )

      unlanded :
          (limiter : Limiter)
          → limiter ≡ s1
          → Unchanged s now (record {
            limiter = cancel limiter r;
            plans = (undo plans d).0;
            seen = delete key (set key now swept);
            range_rent = range_rent;
          })
      unlanded limiter same = (
        λ j t le.
            ap (λ x. usage (cancel x r) j t) same
            ∙ usage-cancel-reserve deps.rent_limits s.limiter s1 wallet worst_case now r fresh
                granted j t le,
        inr (λ j. (
          λ c.
              holds-undo-admit s.plans plans now wallet p.use_of p.wallet_signs d plans-Inv admitted
                j c,
          preparations-undo-admit s.plans plans now wallet p.use_of p.wallet_signs d plans-Inv
              admitted j,
        )),
        deleted-NothingNew,
      )

      abbrev marked : RentState
      marked = record {
        limiter = s1;
        plans = plans;
        seen = set key now swept;
        range_rent = range_rent;
      }

      pub roll_back-PaymentEnd :
          (q : Limiter × Result CosignError Cosigned)
          → CosignEnd deps.setup.mode (rent_bounds deps) answers.cosigning p.fee s1 r q
          → PaymentEnd (roll_back deps marked key d r q)
      roll_back-PaymentEnd (limiter, ok res) (inl (spent, e, same, l)) =
          inr (l, (p, checked, landed limiter spent e same))
      roll_back-PaymentEnd (limiter, ok res) (inr (same, l)) = cc
      roll_back-PaymentEnd (limiter, err (outcome_unknown x)) (inl (spent, e, same, l)) =
          inr (l, (p, checked, landed limiter spent e same))
      roll_back-PaymentEnd (limiter, err (outcome_unknown x)) (inr (same, l)) = cc
      roll_back-PaymentEnd (limiter, err (refused x)) (inl (spent, e, same, l)) = cc
      roll_back-PaymentEnd (limiter, err (refused x)) (inr (same, l)) =
          inl (refl, unlanded limiter same)
      roll_back-PaymentEnd (limiter, err rpc_failed) (inl (spent, e, same, l)) = cc
      roll_back-PaymentEnd (limiter, err rpc_failed) (inr (same, l)) =
          inl (refl, unlanded limiter same)
      roll_back-PaymentEnd (limiter, err signing_failed) (inl (spent, e, same, l)) = cc
      roll_back-PaymentEnd (limiter, err signing_failed) (inr (same, l)) =
          inl (refl, unlanded limiter same)
      roll_back-PaymentEnd (limiter, err not_landed) (inl (spent, e, same, l)) = cc
      roll_back-PaymentEnd (limiter, err not_landed) (inr (same, l)) =
          inl (refl, unlanded limiter same)
