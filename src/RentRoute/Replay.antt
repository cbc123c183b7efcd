-- ===== src/RentRoute/Replay.antt =====
-- The messages that the route remembers, over a run of requests.
use relstate.Common.{
  ℕ, ◌+◌, ◌≤◌, ◌≡◌, refl, sym, ◌∙◌, ap, inl, inr, true, false, List, [], ◌∷◌, Option, none, some,
  Result, ok, err, arith, get,
}
use relstate.Limits.Caps.{IsFresh}
use relstate.Transaction.{InspectedTransaction}
use relstate.RentPlan.Ownership.{Inv}
use relstate.Cosigning.{CosignError, Cosigned}
use relstate.Cosigning.Spending.{is_booked, known, known_err}
use relstate.RentRoute.{
  replay_window_ms, RentDeps, RentState, RentAnswers, Payment, sweep_seen, is_seen, fresh_rent,
  fetched_rent, cached_rent, range_context_rent, check_signers, check_payment, cosign_checked,
  cosign_rented, sponsor_rent_payment,
}
use relstate.RentRoute.Ending.{PaymentEnd}
use relstate.RentRoute.Outcome.{rent_payment_ends}
use relstate.RentRoute.Checks.{check_payment-known, check_payment-tx}
use relstate.RentRoute.Memory.{Request, AllBy, get-sweep_seen, sponsor_rent_payment-Kept}

module _ {Wire : Type 0} (deps : RentDeps Wire) where
  abbrev pub request : RentState → Request Wire → RentState × Result CosignError Cosigned
  request s q = sponsor_rent_payment deps s q.answers q.wire q.wallet q.now

  unfoldable pub run : RentState → List (Request Wire) → RentState
  run s [] = s
  run s (q ∷ qs) = run (request s q).0 qs

  get-run :
      (k at : ℕ) (s : RentState) (qs : List (Request Wire))
      → get k s.seen ≡ some at
      → AllBy (at + replay_window_ms) qs
      → get k (run s qs).seen ≡ some at
  unfolding run AllBy
  get-run k at s [] held soon = held
  get-run k at s (q ∷ qs) held (soon, later) =
      get-run k at (request s q).0 qs (sponsor_rent_payment-Kept deps k at s q held soon) later

  module _ (s : RentState) (answers : RentAnswers) (wallet now at : ℕ) (tx : InspectedTransaction)
      (held : get (deps.hash tx.transaction.message_bytes) s.seen ≡ some at)
      (soon : now ≤ at + replay_window_ms) where
    is_seen-swept :
        (m : ℕ)
        → m ≡ deps.hash tx.transaction.message_bytes
        → is_seen m (sweep_seen now s.seen) ≡ true
    is_seen-swept m same = rw same (
        ground
          (arith, get-sweep_seen now (deps.hash tx.transaction.message_bytes) at s.seen held soon))

    checked_refused :
        (range_rent : Option (ℕ × ℕ)) (lamports : ℕ) (x : Result CosignError Payment)
        → check_payment deps tx wallet lamports answers.has_token ≡ x
        → is_booked
            (cosign_checked deps
              (record {
                limiter = s.limiter;
                plans = s.plans;
                seen = s.seen;
                range_rent = range_rent;
              })
              answers
              wallet
              now
              x).1
          ≡ false
    checked_refused range_rent lamports (err e) h =
        known_err e
          (ap known (sym h) ∙ check_payment-known deps tx wallet lamports answers.has_token)
    checked_refused range_rent lamports (ok p) h =
        let same =
          ap (λ t. deps.hash t.transaction.message_bytes)
            (check_payment-tx deps tx wallet lamports answers.has_token p h) in
        rw (is_seen-swept (deps.hash p.tx.transaction.message_bytes) same) refl

    fetched_refused :
        (fetched : Option ℕ)
        → is_booked (cosign_rented deps answers tx wallet now (fetched_rent s now fetched)).1
          ≡ false
    fetched_refused none = refl
    fetched_refused (some lamports) =
        checked_refused (some (now, lamports)) lamports
          (check_payment deps tx wallet lamports answers.has_token) refl

    cached_refused :
        (cached : Option ℕ)
        → is_booked
            (cosign_rented deps answers tx wallet now (cached_rent s now answers.rent cached)).1
          ≡ false
    cached_refused none = fetched_refused answers.rent
    cached_refused (some lamports) =
        checked_refused s.range_rent lamports
          (check_payment deps tx wallet lamports answers.has_token) refl

  again_refused :
      (s : RentState) (q : Request Wire) (at : ℕ) (tx : InspectedTransaction)
      → check_signers deps q.wire q.wallet ≡ ok tx
      → get (deps.hash tx.transaction.message_bytes) s.seen ≡ some at
      → q.now ≤ at + replay_window_ms
      → is_booked (request s q).1 ≡ false
  unfolding sponsor_rent_payment range_context_rent
  again_refused s q at tx signed held soon =
      rw signed
        (cached_refused s q.answers q.wallet q.now at tx held soon (fresh_rent s.range_rent q.now))

  remembered :
      (s : RentState) (q : Request Wire) (fresh : IsFresh s.limiter) (plans-Inv : Inv s.plans)
      (tx : InspectedTransaction)
      → check_signers deps q.wire q.wallet ≡ ok tx
      → (x : RentState × Result CosignError Cosigned)
      → PaymentEnd deps s q.answers q.wire q.wallet q.now fresh plans-Inv x
      → is_booked x.1 ≡ true
      → get (deps.hash tx.transaction.message_bytes) x.0.seen ≡ some q.now
  remembered s q fresh plans-Inv tx signed x (inl (l, unchanged)) may = cc
  remembered s q fresh plans-Inv tx signed (s', res)
        (inr (l, (p, (tx', lamports, signed', checked), landing))) may =
      let same : tx' ≡ tx = cc in
      let about = check_payment-tx deps tx' q.wallet lamports q.answers.has_token p checked in
      ap (λ t. get (deps.hash t.transaction.message_bytes) s'.seen) (sym (about ∙ same)) ∙ landing.4

  -- From a fresh limiter and a registry that keeps its invariant, a message is co-signed once in
  -- five minutes: after a request that returns, or throws with an unknown outcome of its send, and
  -- whatever requests follow within five minutes of it, a request with the same message in that
  -- time neither returns nor throws with an unknown outcome.
  pub co_signed_once :
      (s : RentState) (first again : Request Wire) (between : List (Request Wire))
      (tx tx' : InspectedTransaction)
      → IsFresh s.limiter
      → Inv s.plans
      → check_signers deps first.wire first.wallet ≡ ok tx
      → check_signers deps again.wire again.wallet ≡ ok tx'
      → tx'.transaction.message_bytes ≡ tx.transaction.message_bytes
      → AllBy (first.now + replay_window_ms) between
      → again.now ≤ first.now + replay_window_ms
      → is_booked (request s first).1 ≡ true
      → is_booked (request (run (request s first).0 between) again).1 ≡ false
  co_signed_once s first again between tx tx' fresh plans-Inv signed signed' same soon by may =
      let held =
        remembered s first fresh plans-Inv tx signed (request s first)
          (rent_payment_ends deps s first.answers first.wire first.wallet first.now fresh plans-Inv)
          may in
      let kept =
        get-run (deps.hash tx.transaction.message_bytes) first.now (request s first).0 between held
          soon in
      again_refused (run (request s first).0 between) again first.now tx' signed'
        (ap (λ m. get (deps.hash m) (run (request s first).0 between).seen) same ∙ kept) by
