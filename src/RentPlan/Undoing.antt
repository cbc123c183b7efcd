-- ===== src/RentPlan/Undoing.antt =====
-- What `undo` gives back.
use relstate.Common.{
  ℕ, ◌-◌, ◌≡◌, refl, inl, inr, false, not, ◌&&◌, ◌||◌, List, [], ◌∷◌, Option, none, some, arith,
  ◌==◌, if◌then◌else◌, get, has, add, get-delete, has-add, Option-cases,
}
use relstate.RentPlan.{
  Plan, Registry, Undo, owner_of, holds, points_at, is_none, put, delete_all, reclaim, take_back,
}
use relstate.RentPlan.Scans.{has-delete_all}
use relstate.RentPlan.Ownership.{has-empty}

owner_of-cong :
    (cell cell' : ℕ → Plan) (c : ℕ)
    → ((q : ℕ) → has c (cell' q).contexts ≡ has c (cell q).contexts)
    → (m : List (ℕ × ℕ)) → owner_of cell' m c ≡ owner_of cell m c
unfolding owner_of
owner_of-cong cell cell' c same [] = refl
owner_of-cong cell cell' c same ((w, q) ∷ m) =
    ground (arith, same q, owner_of-cong cell cell' c same m)

-- One round of the loop.
abbrev reclaim_one : (ℕ → Plan) → List (ℕ × ℕ) → ℕ → ℕ → ℕ → Plan
reclaim_one cell m r c =
    if is_none (owner_of cell m c)
    then put r (record (cell r) { contexts = add c (cell r).contexts }) cell
    else cell

has-reclaim_one :
    (cell : ℕ → Plan) (m : List (ℕ × ℕ)) (r d c q : ℕ)
    → (has c (reclaim_one cell m r d q).contexts ≡ (
        if q == r
        then has c (cell q).contexts || (d == c && is_none (owner_of cell m d))
        else has c (cell q).contexts))
      × ((reclaim_one cell m r d q).preparations ≡ (cell q).preparations)
has-reclaim_one cell m r d c q = ground (arith, has-add c d (cell r).contexts)

owner_of-reclaim_one :
    (cell : ℕ → Plan) (m : List (ℕ × ℕ)) (r d c : ℕ)
    → (d == c) ≡ false
    → owner_of (reclaim_one cell m r d) m c ≡ owner_of cell m c
owner_of-reclaim_one cell m r d c ne =
    owner_of-cong cell (reclaim_one cell m r d) c
      (λ q. ground (arith, has-reclaim_one cell m r d c q)) m

-- The contexts that nobody owns come back, each once, and nothing else changes.
has-reclaim :
    (m : List (ℕ × ℕ)) (r c q : ℕ) (cs : List ℕ) (cell : ℕ → Plan)
    → (has c (reclaim cell m r cs q).contexts ≡ (
        if q == r
        then has c (cell q).contexts || (has c cs && is_none (owner_of cell m c))
        else has c (cell q).contexts))
      × ((reclaim cell m r cs q).preparations ≡ (cell q).preparations)
unfolding reclaim
has-reclaim m r c q [] cell = ground arith
has-reclaim m r c q (d ∷ cs) cell = ground (
  arith,
  has-reclaim m r c q cs (reclaim_one cell m r d),
  has-reclaim_one cell m r d c q,
  owner_of-reclaim_one cell m r d c,
)

-- The heap after the contexts that were added are taken out.
abbrev pub shrunk : Registry → Undo → ℕ → Plan
shrunk s d =
    put d.plan (record (s.cell d.plan) { contexts = delete_all d.added (s.cell d.plan).contexts })
      s.cell

pub holds-take_back :
    (s : Registry) (d : Undo) (j c : ℕ)
    → ((i : ℕ) → points_at (get i s.plans) d.plan ≡ (i == d.wallet))
    → let t = take_back s d in
      holds t.cell (get j t.plans) c ≡ (
        if points_at (get j s.plans) d.plan
        then (not (has c d.added) && has c (s.cell d.plan).contexts)
          || (has c d.spent && is_none (owner_of (shrunk s d) s.plans c))
        else holds s.cell (get j s.plans) c)
unfolding take_back
holds-take_back s d j c mine =
    let final = reclaim (shrunk s d) s.plans d.plan d.spent in
    elim (Option-cases (get j s.plans)) [
      | inl n ↦ ground (arith, get-delete d.wallet j s.plans)
      | inr (q, n) ↦ ground (
        arith,
        has-reclaim s.plans d.plan c q d.spent (shrunk s d),
        has-delete_all d.added (s.cell d.plan).contexts c,
        has-empty (final d.plan).contexts c,
        mine j,
        get-delete d.wallet j s.plans,
      )
    ]

-- The preparations counted against a wallet; a wallet without a plan has none.
abbrev pub preparations_of : (ℕ → Plan) → Option ℕ → ℕ
preparations_of cell none = 0
preparations_of cell (some r) = (cell r).preparations

pub preparations-take_back :
    (s : Registry) (d : Undo) (j : ℕ)
    → ((i : ℕ) → points_at (get i s.plans) d.plan ≡ (i == d.wallet))
    → let t = take_back s d in
      preparations_of t.cell (get j t.plans) ≡ (
        if points_at (get j s.plans) d.plan && d.preparing
        then (s.cell d.plan).preparations - 1
        else preparations_of s.cell (get j s.plans))
unfolding take_back
preparations-take_back s d j mine = elim (Option-cases (get j s.plans)) [
  | inl n ↦ ground (arith, get-delete d.wallet j s.plans)
  | inr (q, n) ↦ ground (
    arith,
    has-reclaim s.plans d.plan 0 q d.spent (shrunk s d),
    has-reclaim s.plans d.plan 0 d.plan d.spent (shrunk s d),
    mine j,
    get-delete d.wallet j s.plans,
  )
]
