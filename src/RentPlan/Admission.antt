-- ===== src/RentPlan/Admission.antt =====
-- What `admit` demands of a transaction, and what it does to the registry.
use relstate.Common.{
  ℕ, ◌+◌, leb, ◌≡◌, refl, ◌∙◌, Bool, true, false, not, ◌&&◌, ◌||◌, Option, ok, arith, ltb, ◌==◌,
  if◌then◌else◌, length, get, has, Option-cases,
}
use relstate.RentPlan.{
  is_none, admit, check_use, Registry, ContextUse, Undo, sweep, holds, is_preparing, is_full,
  open_plan, max_live_plans, check_created, check_touched,
}
use relstate.RentPlan.Scans.{check_created-free, check_touched-own}
use relstate.RentPlan.Ownership.{
  Inv, sweep-Inv, has-empty, after_use, holds-apply_use, points_at-open_plan, holds-open_plan,
  admit-eq-ok,
}

pub check_use-parts :
    (s : Registry) (existing : Option ℕ) (u : ContextUse) (wallet_signs : Bool)
    → check_use s existing u wallet_signs ≡ ok tt
    → (check_created s u.created ≡ ok tt)
      × (check_touched s existing u.created u.touched ≡ ok tt)
      × ((is_preparing u wallet_signs && is_full s.cell existing) ≡ false)
      × ((is_none existing && ltb 0 (length u.created) && leb max_live_plans (length s.plans))
          ≡ false)
      × ((not wallet_signs && length u.created + length u.touched == 0) ≡ false)
unfolding check_use
check_use-parts s existing u wallet_signs e = ground arith

module _ (s s' : Registry) (now w : ℕ) (u : ContextUse) (wallet_signs : Bool) (d : Undo) (v : Inv s)
    (admitted : admit s now w u wallet_signs ≡ (s', ok d)) where
  -- A context that an admitted transaction creates was in no plan of the swept registry, and one
  -- that it verifies into or closes is created by it or is already in its own wallet's plan.
  pub admit_binds :
      (c : ℕ)
      → (has c u.created ≡ true
          → (j : ℕ) → holds (sweep s now).cell (get j (sweep s now).plans) c ≡ false)
        × (has c u.touched ≡ true
            → (has c u.created || holds (sweep s now).cell (get w (sweep s now).plans) c) ≡ true)
  admit_binds c =
      let (ch, _, _) = admit-eq-ok s s' now w u wallet_signs d admitted in
      let t = sweep s now in
      let (created, touched, _, _, _) = check_use-parts t (get w t.plans) u wallet_signs ch in
      (
        λ h j. check_created-free t u.created c j created h,
        check_touched-own t (get w t.plans) u.created u.touched c touched,
      )

  -- After an admitted transaction the plan of its wallet holds a context exactly if the transaction
  -- created it and did not close it, or the plan held it before and the transaction, unless it
  -- created it, did not close it. The other wallets' plans hold what they held when the expired
  -- ones were swept.
  pub holds-admit :
      (j c : ℕ)
      → holds s'.cell (get j s'.plans) c ≡ (
          if j == w
          then after_use u (holds (sweep s now).cell (get w (sweep s now).plans) c) c
          else holds (sweep s now).cell (get j (sweep s now).plans) c)
  holds-admit j c =
      let t = sweep s now in
      let existing = get w t.plans in
      let wanted = ltb 0 (length u.created) || is_preparing u wallet_signs in
      let opened = open_plan t now w existing wanted in
      let tv = sweep-Inv s now v in
      let (ch, es, _) = admit-eq-ok s s' now w u wallet_signs d admitted in
      let points = λ (i : ℕ). points_at-open_plan t now w wanted tv existing i refl in
      let before = holds-open_plan t now w wanted tv existing j c refl in
      rw es (
        holds-apply_use opened.0 w opened.1 u wallet_signs (λ i h. ground (arith, points i)) j c
        ∙ ground (arith, points j, before, has-empty u.created c, Option-cases existing))
