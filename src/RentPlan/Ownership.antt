-- ===== src/RentPlan/Ownership.antt =====
-- The invariant of the registry, and what an admitted transaction does to the contexts.
use relstate.Common.{
  Result-cases, ℕ, ◌≤◌, ◌<◌, ◌≡◌, refl, inl, inr, Bool, true, false, not, ◌&&◌, ◌||◌, List, [], ◌∷◌,
  Option, none, some, ok, err, arith, ltb, ◌==◌, if◌then◌else◌, length, keep, get, has, get-set,
  get-delete, Option-cases, ◌∙◌,
}
use relstate.Transaction.{Rejection}
use relstate.RentPlan.{
  is_none, admit, check_use, Registry, ContextUse, Undo, create_rent_plan_registry, sweep, holds,
  points_at, is_preparing, open_plan, apply_use, add_all, spend, max_preparation_txs,
}
use relstate.RentPlan.Scans.{
  KeysOnce, sweep_from-shrinks, sweep_from-KeysOnce, has-add_all, has-keep, has-spend_left,
}

pub record Inv (s : Registry) : Type 0 where
  pub keys : KeysOnce s.plans
  pub refs : (w r : ℕ) → get w s.plans ≡ some r → r < s.next
  pub alone : (w v r : ℕ) → get w s.plans ≡ some r → get v s.plans ≡ some r → w ≡ v
  pub exclusive :
      (w v c : ℕ)
      → holds s.cell (get w s.plans) c ≡ true
      → holds s.cell (get v s.plans) c ≡ true
      → w ≡ v
  pub capped : (r : ℕ) → (s.cell r).preparations ≤ max_preparation_txs

pub create_rent_plan_registry-Inv : Inv create_rent_plan_registry
unfolding create_rent_plan_registry
create_rent_plan_registry-Inv = record {
  keys = tt;
  refs = λ w r e. cc;
  alone = λ w v r e f. cc;
  exclusive = λ w v c e f. cc;
  capped = λ r. omega arith;
}

-- Fewer wallets, each with the plan that it had.
pub fewer-Inv :
    (s : Registry) (m : List (ℕ × ℕ))
    → KeysOnce m
    → ((w r : ℕ) → get w m ≡ some r → get w s.plans ≡ some r)
    → Inv s
    → Inv (record s { plans = m })
fewer-Inv s m k sub v = record {
  keys = k;
  refs = λ w r e. v.refs w r (sub w r e);
  alone = λ w u r e f. v.alone w u r (sub w r e) (sub u r f);
  exclusive = λ w u c e f. v.exclusive w u c (still w c e) (still u c f);
  capped = v.capped;
}
  where
    still : (w c : ℕ) → holds s.cell (get w m) c ≡ true → holds s.cell (get w s.plans) c ≡ true
    still w c e = elim (Option-cases (get w m)) [
      | inl n ↦ let e' = rw n at e in cc
      | inr (r, n) ↦ rw (sub w r n) (rw n at e)
    ]

pub sweep-Inv : (s : Registry) (now : ℕ) → Inv s → Inv (sweep s now)
unfolding sweep
sweep-Inv s now v =
    fewer-Inv s _ (sweep_from-KeysOnce s.cell now s.plans s.plans v.keys)
      (sweep_from-shrinks s.cell now s.plans s.plans) v

pub has-empty : (s : List ℕ) (c : ℕ) → length s ≡ 0 → has c s ≡ false
has-empty [] c h = refl
has-empty (d ∷ s) c h = absurd (omega arith)

-- Whether a context is in a plan after a transaction with this use.
abbrev pub after_use : ContextUse → Bool → ℕ → Bool
after_use u before c =
    ((has c u.created && not (has c u.closed)) || before)
    && not (has c u.closed && not (has c u.created))

-- What is in a plan after its loops ran.
module _ (s : Registry) (r : ℕ) (u : ContextUse) where
  abbrev pub left : List ℕ
  left =
      (spend u.created u.closed
        (add_all (keep (λ c. not (has c u.closed)) u.created) (s.cell r).contexts)).1

  pub has-left : (c : ℕ) → has c left ≡ after_use u (has c (s.cell r).contexts) c
  has-left c =
      let added = keep (λ c. not (has c u.closed)) u.created in
      ground (
        arith,
        has-spend_left u.created u.closed (add_all added (s.cell r).contexts) c,
        has-add_all added (s.cell r).contexts c,
        has-keep (λ c. not (has c u.closed)) u.created c,
      )

module _ (s : Registry) (wallet r : ℕ) (u : ContextUse) (wallet_signs : Bool)
    (mine : (j : ℕ) → points_at (get j s.plans) r ≡ true → j ≡ wallet) where
  pub holds-apply_use :
      (j c : ℕ)
      → let t = (apply_use s wallet r u wallet_signs).0 in
        holds t.cell (get j t.plans) c ≡ (
          if points_at (get j s.plans) r
          then after_use u (has c (s.cell r).contexts) c
          else holds s.cell (get j s.plans) c)
  unfolding apply_use
  holds-apply_use j c =
      ground
        (arith, has-left s r u c, has-empty (left s r u) c, mine j, get-delete wallet j s.plans)

pub points_at_fresh : (s : Registry) (j : ℕ) → Inv s → points_at (get j s.plans) s.next ≡ false
points_at_fresh s j v = elim (Option-cases (get j s.plans)) [
  | inl n ↦ rw n
  | inr (r, n) ↦ let lt = v.refs j r n in rw n (ground arith)
]

pub points_at_alone :
    (s : Registry) (w r j : ℕ)
    → Inv s
    → get w s.plans ≡ some r
    → points_at (get j s.plans) r ≡ (j == w)
points_at_alone s w r j v e = elim (Option-cases (get j s.plans)) [
  | inl n ↦ rw n (ground arith)
  | inr (q, n) ↦ rw n (ground (arith, v.alone j w r))
]

module _ (s : Registry) (now w : ℕ) (wanted : Bool) (v : Inv s) where
  -- The plan that a transaction works on: the wallet's own, or a new and empty one.
  pub points_at-open_plan :
      (existing : Option ℕ) (j : ℕ)
      → get w s.plans ≡ existing
      → let (t, r) = open_plan s now w existing wanted in
        points_at (get j t.plans) r ≡ (j == w && (not (is_none existing) || wanted))
  unfolding open_plan
  points_at-open_plan none j e = ground (arith, points_at_fresh s j v, get-set w j s.next s.plans)
  points_at-open_plan (some r) j e = points_at_alone s w r j v e ∙ ground arith

  pub holds-open_plan :
      (existing : Option ℕ) (j c : ℕ)
      → get w s.plans ≡ existing
      → let (t, r) = open_plan s now w existing wanted in
        (holds t.cell (get j t.plans) c ≡ holds s.cell (get j s.plans) c)
        × (has c (t.cell r).contexts ≡ holds s.cell existing c)
  unfolding open_plan
  holds-open_plan none j c e = ground (arith, points_at_fresh s j v, get-set w j s.next s.plans)
  holds-open_plan (some r) j c e = (refl, refl)

-- An admitted transaction works on the swept registry, and only where all guards passed.
pub admit-eq-ok :
    (s s' : Registry) (now w : ℕ) (u : ContextUse) (wallet_signs : Bool) (d : Undo)
    → admit s now w u wallet_signs ≡ (s', ok d)
    → let t = sweep s now in
      let existing = get w t.plans in
      let wanted = ltb 0 (length u.created) || is_preparing u wallet_signs in
      let (t', r) = open_plan t now w existing wanted in
      (check_use t existing u wallet_signs ≡ ok tt)
      × (s' ≡ (apply_use t' w r u wallet_signs).0)
      × (d ≡ (apply_use t' w r u wallet_signs).1)
unfolding admit
admit-eq-ok s s' now w u wallet_signs d e =
    elim (Result-cases (check_use (sweep s now) (get w (sweep s now).plans) u wallet_signs)) [
      | inl c ↦ let g = rw c at e in (c, cc, cc)
      | inr (x, c) ↦ let g = rw c at e in cc
    ]

pub admit-eq-err :
    (s s' : Registry) (now w : ℕ) (u : ContextUse) (wallet_signs : Bool) (e : Rejection)
    → admit s now w u wallet_signs ≡ (s', err e)
    → s' ≡ sweep s now
unfolding admit
admit-eq-err s s' now w u wallet_signs x e =
    elim (Result-cases (check_use (sweep s now) (get w (sweep s now).plans) u wallet_signs)) [
      | inl c ↦ let g = rw c at e in cc
      | inr (y, c) ↦ let g = rw c at e in cc
    ]
