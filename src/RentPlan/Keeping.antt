-- ===== src/RentPlan/Keeping.antt =====
-- Admission and the invariant of the registry.
use relstate.Common.{
  ℕ, suc, ◌≤◌, ◌<◌, ◌≡◌, refl, Bool, true, false, ◌&&◌, ◌||◌, Option, none, some, Result, ok, err,
  subst, sym, arith, ltb, ◌==◌, if◌then◌else◌, length, get, has, get-set, get-delete, Bool-cases,
}
use relstate.RentPlan.{
  admit, Registry, ContextUse, Undo, sweep, is_preparing, is_full, open_plan, apply_use,
  max_preparation_txs,
}
use relstate.RentPlan.Scans.{KeysOnce, KeysOnce-set, KeysOnce-delete}
use relstate.RentPlan.Ownership.{Inv, sweep-Inv, admit-eq-ok, admit-eq-err}
use relstate.Transaction.{Rejection}
use relstate.RentPlan.Admission.{check_use-parts, admit_binds, holds-admit}

module _ (s : Registry) (now w : ℕ) (wanted : Bool) (v : Inv s) where
  pub open_plan-keys : (existing : Option ℕ) → KeysOnce (open_plan s now w existing wanted).0.plans
  unfolding open_plan
  open_plan-keys none = ground (arith, KeysOnce-set w s.next s.plans v.keys, v.keys)
  open_plan-keys (some r) = v.keys

  open_plan-refs :
      (existing : Option ℕ) (j q : ℕ)
      → get w s.plans ≡ existing
      → let (t, r) = open_plan s now w existing wanted in
        (get j t.plans ≡ some q → q < t.next) × (r < t.next)
  unfolding open_plan
  open_plan-refs none j q e = ground (arith, v.refs j q, get-set w j s.next s.plans)
  open_plan-refs (some r) j q e = ground (arith, v.refs j q, v.refs w r e)

  open_plan-alone :
      (existing : Option ℕ) (i j q : ℕ)
      → get w s.plans ≡ existing
      → let (t, r) = open_plan s now w existing wanted in
        get i t.plans ≡ some q → get j t.plans ≡ some q → i ≡ j
  unfolding open_plan
  open_plan-alone none i j q e = ground (
    arith,
    v.alone i j q,
    v.refs i q,
    v.refs j q,
    get-set w i s.next s.plans,
    get-set w j s.next s.plans,
  )
  open_plan-alone (some r) i j q e = v.alone i j q

  open_plan-capped :
      (existing : Option ℕ) (q : ℕ)
      → ((open_plan s now w existing wanted).0.cell q).preparations ≤ max_preparation_txs
  unfolding open_plan
  open_plan-capped none q = ground (arith, v.capped q)
  open_plan-capped (some r) q = v.capped q

  open_plan-full :
      (existing : Option ℕ)
      → is_full s.cell existing ≡ false
      → let (t, r) = open_plan s now w existing wanted in
        (t.cell r).preparations < max_preparation_txs
  unfolding open_plan
  open_plan-full none e = ground arith
  open_plan-full (some r) e = ground arith

-- The wallets keep their plans or lose them, and only the plan `r` changes.
pub apply_use-plans :
    (s : Registry) (w r : ℕ) (u : ContextUse) (wallet_signs : Bool) (j q : ℕ)
    → let t = (apply_use s w r u wallet_signs).0 in
      (KeysOnce s.plans → KeysOnce t.plans)
      × (t.next ≡ s.next)
      × (get j t.plans ≡ some q → get j s.plans ≡ some q)
      × ((t.cell q).preparations ≡ (
          if (q == r) && is_preparing u wallet_signs
          then suc (s.cell q).preparations
          else (s.cell q).preparations))
unfolding apply_use
apply_use-plans s w r u wallet_signs j q =
    ground (arith, KeysOnce-delete w s.plans, get-delete w j s.plans)

admitted-Inv :
    (s s' : Registry) (now w : ℕ) (u : ContextUse) (wallet_signs : Bool) (d : Undo)
    → Inv s
    → admit s now w u wallet_signs ≡ (s', ok d)
    → Inv s'
admitted-Inv s s' now w u wallet_signs d v admitted =
    let t = sweep s now in
    let existing = get w t.plans in
    let wanted = ltb 0 (length u.created) || is_preparing u wallet_signs in
    let opened = open_plan t now w existing wanted in
    let tv = sweep-Inv s now v in
    let (ch, es, _) = admit-eq-ok s s' now w u wallet_signs d admitted in
    let (_, _, full, _, _) = check_use-parts t existing u wallet_signs ch in
    let shape = λ (j q : ℕ). apply_use-plans opened.0 w opened.1 u wallet_signs j q in
    record {
      keys = rw es ((shape 0 0).0 (open_plan-keys t now w wanted tv existing));
      refs = λ j q. rw es (λ e.
          let (_, next, sub, _) = shape j q in
          let lt = (open_plan-refs t now w wanted tv existing j q refl).0 (sub e) in omega arith);
      alone = λ i j q. rw es (λ e f.
          open_plan-alone t now w wanted tv existing i j q refl ((shape i q).2 e)
            ((shape j q).2 f));
      exclusive = λ i j c e f.
          let (free, _) = admit_binds s s' now w u wallet_signs d v admitted c in
          ground (
            arith,
            holds-admit s s' now w u wallet_signs d v admitted i c,
            holds-admit s s' now w u wallet_signs d v admitted j c,
            Bool-cases (has c u.created),
            λ (h : has c u.created ≡ true). free h i,
            λ (h : has c u.created ≡ true). free h j,
            tv.exclusive i j c,
            tv.exclusive w j c,
            tv.exclusive i w c,
          );
      capped = λ q. rw es (
          ground (
            arith,
            shape 0 q,
            open_plan-capped t now w wanted tv existing q,
            open_plan-full t now w wanted tv existing,
          ));
    }

result-Inv :
    (s : Registry) (now w : ℕ) (u : ContextUse) (wallet_signs : Bool)
    → Inv s
    → (q : Registry × Result Rejection Undo) → admit s now w u wallet_signs ≡ q
    → Inv q.0
result-Inv s now w u wallet_signs v (s', ok d) e = admitted-Inv s s' now w u wallet_signs d v e
result-Inv s now w u wallet_signs v (s', err x) e =
    subst Inv (sym (admit-eq-err s s' now w u wallet_signs x e)) (sweep-Inv s now v)

-- From a registry in which each wallet has one plan and each plan one wallet, no context is in two
-- wallets' plans, and no plan has more than the allowed preparations, an admission, whether it
-- accepts or throws, leaves such a registry.
pub admit-Inv :
    (s : Registry) (now w : ℕ) (u : ContextUse) (wallet_signs : Bool)
    → Inv s
    → Inv (admit s now w u wallet_signs).0
admit-Inv s now w u wallet_signs v =
    result-Inv s now w u wallet_signs v (admit s now w u wallet_signs) refl
