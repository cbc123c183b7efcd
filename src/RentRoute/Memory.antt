-- ===== src/RentRoute/Memory.antt =====
-- The messages that the route remembers, over one request.
use relstate.Common.{
  ℕ, ◌+◌, ◌≤◌, ◌≡◌, inl, inr, false, List, [], ◌∷◌, Option, none, some, Result, ok, err, arith, get,
  set, get-set, get-delete, ◌==◌, Bool-cases,
}
use relstate.Limits.{Limiter, Scope, Reservation, reserve}
use relstate.Transaction.{Rejection, InspectedTransaction}
use relstate.RentPlan.{Registry, Undo, admit}
use relstate.Cosigning.{
  CosignError, refused, rpc_failed, signing_failed, not_landed, outcome_unknown, Cosigned,
  cosign_and_send,
}
use relstate.RentRoute.{
  replay_window_ms, RentDeps, RentState, RentAnswers, Payment, sweep_seen, is_seen, fresh_rent,
  fetched_rent, cached_rent, range_context_rent, check_signers, check_payment, rent_bounds,
  roll_back, cosign_admitted, cosign_reserved, cosign_checked, cosign_rented, cosign_signed,
  sponsor_rent_payment,
}

pub record Request (Wire : Type 0) : Type 0 where
  pub answers : RentAnswers
  pub wire : Wire
  pub wallet : ℕ
  pub now : ℕ

-- Every request runs by the time `limit`.
unfoldable pub AllBy : {Wire : Type 0} → ℕ → List (Request Wire) → Type 0
AllBy limit [] = Unit {0}
AllBy limit (q ∷ qs) = (q.now ≤ limit) × AllBy limit qs

-- The first entry of a key stays, while it is in the window.
pub get-sweep_seen :
    (now k at : ℕ) (seen : List (ℕ × ℕ))
    → get k seen ≡ some at
    → now ≤ at + replay_window_ms
    → get k (sweep_seen now seen) ≡ some at
unfolding sweep_seen
get-sweep_seen now k at [] h le = cc
get-sweep_seen now k at ((key, then) ∷ rest) h le = ground (arith, get-sweep_seen now k at rest)

module _ {Wire : Type 0} (deps : RentDeps Wire) (k at : ℕ) where
  abbrev pub Kept : RentState × Result CosignError Cosigned → Type 0
  Kept (s, res) = get k s.seen ≡ some at

  module _ (s : RentState) (answers : RentAnswers) (wallet now : ℕ) (held : get k s.seen ≡ some at)
      (soon : now ≤ at + replay_window_ms) where
    rolled_back-Kept :
        (t : RentState) (key : ℕ) (d : Undo) (r : Reservation)
        → get k t.seen ≡ some at
        → (key == k) ≡ false
        → (q : Limiter × Result CosignError Cosigned) → Kept (roll_back deps t key d r q)
    rolled_back-Kept t key d r h other (limiter, ok res) = h
    rolled_back-Kept t key d r h other (limiter, err (outcome_unknown x)) = h
    rolled_back-Kept t key d r h other (limiter, err (refused x)) =
        ground (arith, get-delete key k t.seen)
    rolled_back-Kept t key d r h other (limiter, err rpc_failed) =
        ground (arith, get-delete key k t.seen)
    rolled_back-Kept t key d r h other (limiter, err signing_failed) =
        ground (arith, get-delete key k t.seen)
    rolled_back-Kept t key d r h other (limiter, err not_landed) =
        ground (arith, get-delete key k t.seen)

    module _ (p : Payment) (range_rent : Option (ℕ × ℕ)) where
      abbrev key : ℕ
      key = deps.hash p.tx.transaction.message_bytes

      abbrev swept : List (ℕ × ℕ)
      swept = sweep_seen now s.seen

      module _ (other : (key == k) ≡ false) where
        admitted-Kept :
            (limiter : Limiter) (r : Reservation) (q : Registry × Result Rejection Undo)
            → Kept (
                cosign_admitted deps
                  (record {
                    limiter = limiter;
                    plans = s.plans;
                    seen = swept;
                    range_rent = range_rent;
                  })
                  answers
                  p
                  key
                  now
                  r
                  q)
        admitted-Kept limiter r (plans, err e) = get-sweep_seen now k at s.seen held soon
        admitted-Kept limiter r (plans, ok d) =
            rolled_back-Kept
              (record {
                limiter = limiter;
                plans = plans;
                seen = set key now swept;
                range_rent = range_rent;
              })
              key d r (ground (arith, get-set key k now swept, get-sweep_seen now k at s.seen))
              other
              (cosign_and_send deps.setup.mode (rent_bounds deps) answers.cosigning p.fee limiter r)

        reserved-Kept :
            (q : Limiter × Result Scope Reservation)
            → Kept (
                cosign_reserved deps
                  (record {
                    limiter = s.limiter;
                    plans = s.plans;
                    seen = swept;
                    range_rent = range_rent;
                  })
                  answers
                  p
                  wallet
                  key
                  now
                  q)
        reserved-Kept (limiter, err scope) = get-sweep_seen now k at s.seen held soon
        reserved-Kept (limiter, ok r) =
            admitted-Kept limiter r (admit s.plans now wallet p.use_of p.wallet_signs)

      unseen-other : is_seen key swept ≡ false → (key == k) ≡ false
      unseen-other e = ground (arith, get-sweep_seen now k at s.seen)

    checked-Kept :
        (range_rent : Option (ℕ × ℕ)) (x : Result CosignError Payment)
        → Kept (
            cosign_checked deps
              (record {
                limiter = s.limiter;
                plans = s.plans;
                seen = s.seen;
                range_rent = range_rent;
              })
              answers
              wallet
              now
              x)
    checked-Kept range_rent (err e) = held
    checked-Kept range_rent (ok p) =
        elim (Bool-cases
          (is_seen (deps.hash p.tx.transaction.message_bytes) (sweep_seen now s.seen))) [
            | inl e ↦ rw e (get-sweep_seen now k at s.seen held soon)
            | inr e ↦ rw e (
                reserved-Kept p range_rent (unseen-other p range_rent e)
                  (reserve deps.rent_limits s.limiter wallet (deps.max_spend_lamports + p.fee) now))
          ]

    fetched-Kept :
        (tx : InspectedTransaction) (fetched : Option ℕ)
        → Kept (cosign_rented deps answers tx wallet now (fetched_rent s now fetched))
    fetched-Kept tx none = held
    fetched-Kept tx (some lamports) =
        checked-Kept (some (now, lamports))
          (check_payment deps tx wallet lamports answers.has_token)

    cached-Kept :
        (tx : InspectedTransaction) (cached : Option ℕ)
        → Kept (cosign_rented deps answers tx wallet now (cached_rent s now answers.rent cached))
    cached-Kept tx none = fetched-Kept tx answers.rent
    cached-Kept tx (some lamports) =
        checked-Kept s.range_rent (check_payment deps tx wallet lamports answers.has_token)

    signed-Kept :
        (x : Result Rejection InspectedTransaction)
        → Kept (cosign_signed deps s answers wallet now x)
    unfolding range_context_rent
    signed-Kept (err e) = held
    signed-Kept (ok tx) = cached-Kept tx (fresh_rent s.range_rent now)

  -- A request keeps an entry that is in the window.
  pub sponsor_rent_payment-Kept :
      (s : RentState) (q : Request Wire)
      → get k s.seen ≡ some at
      → q.now ≤ at + replay_window_ms
      → Kept (sponsor_rent_payment deps s q.answers q.wire q.wallet q.now)
  unfolding sponsor_rent_payment
  sponsor_rent_payment-Kept s q held soon =
      signed-Kept s q.answers q.wallet q.now held soon (check_signers deps q.wire q.wallet)
