-- ===== src/RentPlan/RoundTrip.antt =====
-- An undo directly after an admission gives the registry's ownership back.
use relstate.Common.{
  ℕ, ◌≡◌, refl, ◌∙◌, inl, inr, Bool, true, false, not, ◌&&◌, ◌||◌, none, ok, arith, ltb, ◌==◌,
  if◌then◌else◌, length, keep, get, set, has, get-set, get-delete, Bool-cases, Option-cases,
}
use relstate.RentPlan.{
  Registry, ContextUse, Undo, sweep, admit, owner_of, holds, points_at, is_none, is_preparing,
  add_all, take_back, undo, apply_use, open_plan,
}
use relstate.RentPlan.Scans.{
  KeysOnce, KeysOnce-set, has-delete_all, has-keep, has-add_all, has-spend_spent, owner_of_of_holds,
}
use relstate.RentPlan.Ownership.{
  Inv, sweep-Inv, after_use, has-left, admit-eq-ok, points_at-open_plan, holds-open_plan,
}
use relstate.RentPlan.Admission.{admit_binds}
use relstate.RentPlan.Keeping.{apply_use-plans, open_plan-keys}
use relstate.RentPlan.Undoing.{shrunk, holds-take_back, preparations_of, preparations-take_back}

module _ (s : Registry) (w r : ℕ) (u : ContextUse) (wallet_signs : Bool) where
  abbrev applied : Registry
  applied = (apply_use s w r u wallet_signs).0

  abbrev closure : Undo
  closure = (apply_use s w r u wallet_signs).1

  -- What the closure has captured.
  closure-parts :
      (c j : ℕ)
      → (has c closure.added ≡ (has c u.created && not (has c u.closed)))
        × (has c closure.spent
            ≡ (has c u.closed && (not (has c u.created) && has c (s.cell r).contexts)))
        × (closure.wallet ≡ w)
        × (closure.plan ≡ r)
        × (closure.undone ≡ false)
        × (closure.preparing ≡ is_preparing u wallet_signs)
        × (get j applied.plans ≡ (if j == w && closure.removed_plan then none else get j s.plans))
  unfolding apply_use
  closure-parts c j =
      let added = keep (λ c. not (has c u.closed)) u.created in
      ground (
        arith,
        has-keep (λ c. not (has c u.closed)) u.created c,
        has-spend_spent u.created u.closed (add_all added (s.cell r).contexts) c,
        has-add_all added (s.cell r).contexts c,
        get-delete w j s.plans,
      )

  applied-cell :
      (c q : ℕ)
      → has c (applied.cell q).contexts
        ≡ (if q == r then after_use u (has c (s.cell r).contexts) c else has c (s.cell q).contexts)
  unfolding apply_use
  applied-cell c q = ground (arith, has-left s r u c)

module _ (s : Registry) (w r : ℕ) (u : ContextUse) (wallet_signs : Bool) (keys : KeysOnce s.plans)
    (linked : (j : ℕ) → points_at (get j s.plans) r ≡ (j == w))
    (free : (c j : ℕ) → has c u.created ≡ true → holds s.cell (get j s.plans) c ≡ false)
    (apart : (c j : ℕ)
      → has c (s.cell r).contexts ≡ true
      → (j == w) ≡ false
      → holds s.cell (get j s.plans) c ≡ false) where
  abbrev after : Registry
  after = applied s w r u wallet_signs

  abbrev d : Undo
  d = closure s w r u wallet_signs

  -- The state on which `undo` works: the plan is in the map again.
  abbrev relinked : Registry
  relinked = record after { plans = if d.removed_plan then set w r after.plans else after.plans }

  get-relinked : (j : ℕ) → get j relinked.plans ≡ get j s.plans
  get-relinked j = ground (
    arith,
    closure-parts s w r u wallet_signs 0 j,
    get-set w j r after.plans,
    linked j,
    Option-cases (get j s.plans),
  )

  undo-apply : (undo after d).0 ≡ take_back relinked d
  unfolding undo
  undo-apply =
      ground (arith, closure-parts s w r u wallet_signs 0 w, linked w, Option-cases (get w s.plans))

  relinked-keys : KeysOnce relinked.plans
  relinked-keys =
      ground
        (arith, (apply_use-plans s w r u wallet_signs 0 0).0 keys, KeysOnce-set w r after.plans)

  shrunk-holds :
      (c j : ℕ)
      → holds (shrunk relinked d) (get j relinked.plans) c ≡ (
          if j == w
          then after_use u (has c (s.cell r).contexts) c
            && not (has c u.created && not (has c u.closed))
          else holds s.cell (get j s.plans) c)
  shrunk-holds c j = rw (get-relinked j) (elim (Option-cases (get j s.plans)) [
    | inl n ↦ let e = linked j in ground arith
    | inr (q, n) ↦
        let e = linked j in
        ground (
          arith,
          closure-parts s w r u wallet_signs c j,
          applied-cell s w r u wallet_signs c q,
          applied-cell s w r u wallet_signs c r,
          has-delete_all d.added (after.cell d.plan).contexts c,
        )
  ])

  unowned :
      (c : ℕ)
      → has c u.closed ≡ true
      → has c u.created ≡ false
      → has c (s.cell r).contexts ≡ true
      → is_none (owner_of (shrunk relinked d) relinked.plans c) ≡ true
  unowned c closed created mine =
      owner_of_of_holds (shrunk relinked d) c relinked.plans relinked-keys
        (λ j. ground (arith, shrunk-holds c j, apart c j mine))

  pub holds-undo-apply :
      (j c : ℕ)
      → holds (undo after d).0.cell (get j (undo after d).0.plans) c
        ≡ holds s.cell (get j s.plans) c
  holds-undo-apply j c = rw undo-apply (
      holds-take_back relinked d j c
        (λ i. ground (arith, get-relinked i, linked i, closure-parts s w r u wallet_signs 0 i))
      ∙ rw (get-relinked j) (elim (Option-cases (get j s.plans)) [
        | inl n ↦ let e = linked j in ground arith
        | inr (q, n) ↦
            let e = linked j in
            ground (
              arith,
              closure-parts s w r u wallet_signs c j,
              applied-cell s w r u wallet_signs c q,
              applied-cell s w r u wallet_signs c r,
              free c j,
              unowned c,
            )
      ]))

  pub preparations-undo-apply :
      (j : ℕ)
      → preparations_of (undo after d).0.cell (get j (undo after d).0.plans)
        ≡ preparations_of s.cell (get j s.plans)
  preparations-undo-apply j = rw undo-apply (
      preparations-take_back relinked d j
        (λ i. ground (arith, get-relinked i, linked i, closure-parts s w r u wallet_signs 0 i))
      ∙ rw (get-relinked j) (elim (Option-cases (get j s.plans)) [
        | inl n ↦ ground arith
        | inr (q, n) ↦ ground (
          arith,
          closure-parts s w r u wallet_signs 0 j,
          (apply_use-plans s w r u wallet_signs j q).3,
          (apply_use-plans s w r u wallet_signs j r).3,
        )
      ]))

-- A transaction that opens no plan leaves nothing to undo.
module _ (s : Registry) (w r : ℕ) (u : ContextUse) (wallet_signs : Bool)
    (absent : (j : ℕ) → points_at (get j s.plans) r ≡ false) where
  undo-apply_unlinked :
      (j c : ℕ)
      → let t = (undo (applied s w r u wallet_signs) (closure s w r u wallet_signs)).0 in
        holds t.cell (get j t.plans) c ≡ holds s.cell (get j s.plans) c
  unfolding undo apply_use
  undo-apply_unlinked j c =
      let e = absent j in
      let f = absent w in
      elim (Option-cases (get j s.plans)) [ inl n ↦ ground arith | inr (q, n) ↦ ground arith ]

  pub preparations-undo-apply_unlinked :
      (j : ℕ)
      → let t = (undo (applied s w r u wallet_signs) (closure s w r u wallet_signs)).0 in
        preparations_of t.cell (get j t.plans) ≡ preparations_of s.cell (get j s.plans)
  unfolding undo apply_use
  preparations-undo-apply_unlinked j =
      let e = absent j in
      let f = absent w in
      elim (Option-cases (get j s.plans)) [ inl n ↦ ground arith | inr (q, n) ↦ ground arith ]

-- Undoing an admitted transaction at once gives every wallet's plan the contexts back that it held
-- when the expired plans were swept.
pub holds-undo-admit :
    (s s' : Registry) (now w : ℕ) (u : ContextUse) (wallet_signs : Bool) (d : Undo)
    → Inv s
    → admit s now w u wallet_signs ≡ (s', ok d)
    → (j c : ℕ)
    → holds (undo s' d).0.cell (get j (undo s' d).0.plans) c
      ≡ holds (sweep s now).cell (get j (sweep s now).plans) c
holds-undo-admit s s' now w u wallet_signs d v admitted j c =
    let t = sweep s now in
    let existing = get w t.plans in
    let wanted = ltb 0 (length u.created) || is_preparing u wallet_signs in
    let opened = open_plan t now w existing wanted in
    let tv = sweep-Inv s now v in
    let (ch, es, ed) = admit-eq-ok s s' now w u wallet_signs d admitted in
    let points = λ (i : ℕ). points_at-open_plan t now w wanted tv existing i refl in
    let same = λ (i k : ℕ). holds-open_plan t now w wanted tv existing i k refl in
    let back = λ (i k : ℕ) (h : has k u.created ≡ true).
      (same i k).0 ∙ (admit_binds s s' now w u wallet_signs d v admitted k).0 h i in
    rw (es, ed)
      (elim (Bool-cases (not (is_none existing) || wanted)) [
        | inl e ↦
            holds-undo-apply opened.0 w opened.1 u wallet_signs
              (open_plan-keys t now w wanted tv existing) (λ i. ground (arith, points i))
              (λ k i. back i k) (λ k i h ne. ground (arith, same i k, tv.exclusive i w k, points i))
              j c
            ∙ (same j c).0
        | inr e ↦
            undo-apply_unlinked opened.0 w opened.1 u wallet_signs (λ i. ground (arith, points i)) j
              c
            ∙ (same j c).0
      ])
