-- ===== src/RentPlan/Bounds.antt =====
-- How many plans are live.
use relstate.Common.{
  ℕ, suc, ◌+◌, ◌≤◌, ◌≡◌, inl, inr, Bool, true, false, not, ◌||◌, ◌&&◌, List, [], ◌∷◌, Option, none,
  some, ok, arith, ltb, leb, ◌==◌, length, set, delete, length-delete-le, length-set-le,
  Result-cases,
}
use relstate.RentPlan.{
  Plan, Registry, ContextUse, sweep, sweep_from, admit, is_preparing, check_touched, check_use,
  enter, open_plan, apply_use, max_live_plans,
}
use relstate.RentPlan.Admission.{check_use-parts}

length-sweep_from-le :
    (cell : ℕ → Plan) (now : ℕ) (es m : List (ℕ × ℕ)) → length (sweep_from cell now es m) ≤ length m
unfolding sweep_from
length-sweep_from-le cell now [] m = omega arith
length-sweep_from-le cell now ((w, r) ∷ es) m = ground (
  arith,
  length-sweep_from-le cell now es m,
  length-sweep_from-le cell now es (delete w m),
  length-delete-le w m,
)

-- With no plan and nothing created, a transaction may touch nothing.
touches_nothing : (s : Registry) (ts : List ℕ) → check_touched s none [] ts ≡ ok tt → length ts ≡ 0
unfolding check_touched
touches_nothing s [] e = ground arith
touches_nothing s (t ∷ ts) e = cc

-- A new plan is opened only below the limit.
has_room :
    (s : Registry) (u : ContextUse) (wallet_signs : Bool)
    → check_use s none u wallet_signs ≡ ok tt
    → (ltb 0 (length u.created) || is_preparing u wallet_signs) ≡ true
    → suc (length s.plans) ≤ max_live_plans
has_room s u wallet_signs e wanted =
    let (_, touched, _, room, related) = check_use-parts s none u wallet_signs e in
    by_created u.created touched room related wanted
  where
    by_created :
        (cs : List ℕ)
        → check_touched s none cs u.touched ≡ ok tt
        → (ltb 0 (length cs) && leb max_live_plans (length s.plans)) ≡ false
        → (not wallet_signs && length cs + length u.touched == 0) ≡ false
        → (ltb 0 (length cs) || (not wallet_signs || ltb 0 (length cs))) ≡ true
        → suc (length s.plans) ≤ max_live_plans
    by_created [] touched room related want = ground (arith, touches_nothing s u.touched touched)
    by_created (c ∷ cs) touched room related want = ground arith

length-enter-le :
    (s : Registry) (now w : ℕ) (u : ContextUse) (wallet_signs : Bool) (existing : Option ℕ)
    → length s.plans ≤ max_live_plans
    → length (enter s now w u wallet_signs existing (check_use s existing u wallet_signs)).0.plans
      ≤ max_live_plans
unfolding open_plan apply_use
length-enter-le s now w u wallet_signs existing h =
    elim (Result-cases (check_use s existing u wallet_signs)) [
      | inr (x, e) ↦ rw e h
      | inl e ↦ rw e (by_plan existing e)
    ]
  where
    by_plan :
        (o : Option ℕ)
        → check_use s o u wallet_signs ≡ ok tt
        → length (enter s now w u wallet_signs o (ok tt)).0.plans ≤ max_live_plans
    by_plan none e = ground (
      arith,
      has_room s u wallet_signs e,
      length-set-le w s.next s.plans,
      length-delete-le w s.plans,
      length-delete-le w (set w s.next s.plans),
    )
    by_plan (some r) e = ground (arith, length-delete-le w s.plans)

-- Admission, whether it accepts or throws, keeps the number of live plans within `MAX_LIVE_PLANS`.
pub length-admit-le :
    (s : Registry) (now w : ℕ) (u : ContextUse) (wallet_signs : Bool)
    → length s.plans ≤ max_live_plans
    → length (admit s now w u wallet_signs).0.plans ≤ max_live_plans
unfolding admit
length-admit-le s now w u wallet_signs h =
    let le = length-sweep_from-le s.cell now s.plans s.plans in
    length-enter-le (sweep s now) now w u wallet_signs _ (omega arith)
