-- ===== src/RentPlan/Scans.antt =====
-- What the loops of the registry compute, in terms of membership.
use relstate.Common.{
  ℕ, ◌≡◌, refl, inl, inr, Bool, true, false, not, ◌&&◌, ◌||◌, List, [], ◌∷◌, Option, none, some, ok,
  arith, ltb, keep, get, set, delete, has, add, without, get-set, get-delete, has-add, has-without,
  Bool-cases, ◌-◌,
}
use relstate.RentPlan.{
  Plan, Registry, owner_of, sweep_from, holds, is_none, check_created, check_touched, add_all,
  delete_all, spend, plan_ttl_ms,
}

-- Keys stand once in a map.
abbrev pub KeysOnce : List (ℕ × ℕ) → Type 0
KeysOnce [] = Unit
KeysOnce ((k, r) ∷ m) = (get k m ≡ none) × KeysOnce m

pub KeysOnce-set : (k r : ℕ) (m : List (ℕ × ℕ)) → KeysOnce m → KeysOnce (set k r m)
KeysOnce-set k r [] h = (refl, tt)
KeysOnce-set k r ((j, q) ∷ m) h = ground (arith, KeysOnce-set k r m h.1, get-set k j r m)

pub KeysOnce-delete : (k : ℕ) (m : List (ℕ × ℕ)) → KeysOnce m → KeysOnce (delete k m)
KeysOnce-delete k [] h = tt
KeysOnce-delete k ((j, q) ∷ m) h = ground (arith, KeysOnce-delete k m h.1, get-delete k j m)

module _ (cell : ℕ → Plan) (c : ℕ) where
  -- `ownerOf` finds nobody exactly when no wallet's plan holds the context.
  pub holds_of_owner_of :
      (m : List (ℕ × ℕ)) (w : ℕ)
      → is_none (owner_of cell m c) ≡ true
      → holds cell (get w m) c ≡ false
  unfolding owner_of
  holds_of_owner_of [] w h = refl
  holds_of_owner_of ((v, r) ∷ m) w h = ground (arith, holds_of_owner_of m w)

  pub owner_of_of_holds :
      (m : List (ℕ × ℕ))
      → KeysOnce m
      → ((w : ℕ) → holds cell (get w m) c ≡ false)
      → is_none (owner_of cell m c) ≡ true
  unfolding owner_of
  owner_of_of_holds [] k h = refl
  owner_of_of_holds ((v, r) ∷ m) (new, k) h =
      ground (arith, h v, owner_of_of_holds m k (λ w. ground (arith, h w)))

-- The sweep takes wallets out and changes nothing else.
pub sweep_from-shrinks :
    (cell : ℕ → Plan) (now : ℕ) (es m : List (ℕ × ℕ)) (w r : ℕ)
    → get w (sweep_from cell now es m) ≡ some r
    → get w m ≡ some r
unfolding sweep_from
sweep_from-shrinks cell now [] m w r h = h
sweep_from-shrinks cell now ((v, q) ∷ es) m w r h = ground (
  arith,
  sweep_from-shrinks cell now es m w r,
  sweep_from-shrinks cell now es (delete v m) w r,
  get-delete v w m,
)

pub sweep_from-KeysOnce :
    (cell : ℕ → Plan) (now : ℕ) (es m : List (ℕ × ℕ))
    → KeysOnce m
    → KeysOnce (sweep_from cell now es m)
unfolding sweep_from
sweep_from-KeysOnce cell now [] m h = h
sweep_from-KeysOnce cell now ((v, q) ∷ es) m h =
    elim (Bool-cases (ltb plan_ttl_ms (now - (cell q).started_at))) [
      | inl e ↦ rw e (sweep_from-KeysOnce cell now es (delete v m) (KeysOnce-delete v m h))
      | inr e ↦ rw e (sweep_from-KeysOnce cell now es m h)
    ]

pub check_created-free :
    (s : Registry) (cs : List ℕ) (c w : ℕ)
    → check_created s cs ≡ ok tt
    → has c cs ≡ true
    → holds s.cell (get w s.plans) c ≡ false
unfolding check_created
check_created-free s [] c w e h = cc
check_created-free s (d ∷ cs) c w e h =
    ground (arith, check_created-free s cs c w, holds_of_owner_of s.cell c s.plans w)

pub check_touched-own :
    (s : Registry) (existing : Option ℕ) (created cs : List ℕ) (c : ℕ)
    → check_touched s existing created cs ≡ ok tt
    → has c cs ≡ true
    → (has c created || holds s.cell existing c) ≡ true
unfolding check_touched
check_touched-own s existing created [] c e h = cc
check_touched-own s existing created (d ∷ cs) c e h =
    ground (arith, check_touched-own s existing created cs c)

pub has-add_all : (cs s : List ℕ) (c : ℕ) → has c (add_all cs s) ≡ (has c cs || has c s)
unfolding add_all
has-add_all [] s c = refl
has-add_all (d ∷ cs) s c = ground (arith, has-add_all cs (add d s) c, has-add c d s)

pub has-delete_all : (cs s : List ℕ) (c : ℕ) → has c (delete_all cs s) ≡ (not (has c cs) && has c s)
unfolding delete_all
has-delete_all [] s c = refl
has-delete_all (d ∷ cs) s c = ground (arith, has-delete_all cs (without d s) c, has-without c d s)

pub has-keep : (p : ℕ → Bool) (cs : List ℕ) (c : ℕ) → has c (keep p cs) ≡ (has c cs && p c)
has-keep p [] c = refl
has-keep p (d ∷ cs) c = ground (arith, has-keep p cs c)

module _ (created : List ℕ) where
  pub has-spend_left :
      (cs s : List ℕ) (c : ℕ)
      → has c (spend created cs s).1 ≡ (has c s && not (has c cs && not (has c created)))
  unfolding spend
  has-spend_left [] s c = ground arith
  has-spend_left (d ∷ cs) s c =
      ground (arith, has-spend_left cs s c, has-spend_left cs (without d s) c, has-without c d s)

  pub has-spend_spent :
      (cs s : List ℕ) (c : ℕ)
      → has c (spend created cs s).0 ≡ (has c cs && (not (has c created) && has c s))
  unfolding spend
  has-spend_spent [] s c = refl
  has-spend_spent (d ∷ cs) s c =
      ground (arith, has-spend_spent cs s c, has-spend_spent cs (without d s) c, has-without c d s)
