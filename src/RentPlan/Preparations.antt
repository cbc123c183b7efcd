-- ===== src/RentPlan/Preparations.antt =====
-- An undo directly after an admission gives the count of preparations back.
use relstate.Common.{
  ℕ, ◌≡◌, refl, ◌∙◌, inl, inr, Bool, true, not, ◌||◌, Option, none, some, ok, arith, ltb, length,
  get, has, get-set, Bool-cases, Option-cases,
}
use relstate.RentPlan.{
  Registry, ContextUse, Undo, sweep, admit, is_none, is_preparing, undo, open_plan,
}
use relstate.RentPlan.Ownership.{Inv, sweep-Inv, admit-eq-ok, points_at-open_plan, holds-open_plan}
use relstate.RentPlan.Admission.{admit_binds}
use relstate.RentPlan.Keeping.{open_plan-keys}
use relstate.RentPlan.Undoing.{preparations_of}
use relstate.RentPlan.RoundTrip.{preparations-undo-apply, preparations-undo-apply_unlinked}

preparations-open_plan :
    (t : Registry) (now w : ℕ) (wanted : Bool) (v : Inv t) (existing : Option ℕ) (j : ℕ)
    → get w t.plans ≡ existing
    → let o = (open_plan t now w existing wanted).0 in
      preparations_of o.cell (get j o.plans) ≡ preparations_of t.cell (get j t.plans)
unfolding open_plan
preparations-open_plan t now w wanted v none j e = elim (Option-cases (get j t.plans)) [
  | inl n ↦ ground (arith, get-set w j t.next t.plans)
  | inr (q, n) ↦ ground (arith, v.refs j q n, get-set w j t.next t.plans)
]
preparations-open_plan t now w wanted v (some r) j e = refl

-- Undoing an admitted transaction at once takes the preparation it counted back too.
pub preparations-undo-admit :
    (s s' : Registry) (now w : ℕ) (u : ContextUse) (wallet_signs : Bool) (d : Undo)
    → Inv s
    → admit s now w u wallet_signs ≡ (s', ok d)
    → (j : ℕ)
    → preparations_of (undo s' d).0.cell (get j (undo s' d).0.plans)
      ≡ preparations_of (sweep s now).cell (get j (sweep s now).plans)
preparations-undo-admit s s' now w u wallet_signs d v admitted j =
    let t = sweep s now in
    let existing = get w t.plans in
    let wanted = ltb 0 (length u.created) || is_preparing u wallet_signs in
    let opened = open_plan t now w existing wanted in
    let tv = sweep-Inv s now v in
    let (ch, es, ed) = admit-eq-ok s s' now w u wallet_signs d admitted in
    let points = λ (i : ℕ). points_at-open_plan t now w wanted tv existing i refl in
    let same = λ (i k : ℕ). holds-open_plan t now w wanted tv existing i k refl in
    let back = λ (i k : ℕ) (h : has k u.created ≡ true).
      (same i k).0 ∙ (admit_binds s s' now w u wallet_signs d v admitted k).0 h i in
    rw (es, ed)
      (elim (Bool-cases (not (is_none existing) || wanted)) [
        | inl e ↦
            preparations-undo-apply opened.0 w opened.1 u wallet_signs
              (open_plan-keys t now w wanted tv existing) (λ i. ground (arith, points i))
              (λ k i. back i k) (λ k i h ne. ground (arith, same i k, tv.exclusive i w k, points i))
              j
            ∙ preparations-open_plan t now w wanted tv existing j refl
        | inr e ↦
            preparations-undo-apply_unlinked opened.0 w opened.1 u wallet_signs
              (λ i. ground (arith, points i)) j
            ∙ preparations-open_plan t now w wanted tv existing j refl
      ])
