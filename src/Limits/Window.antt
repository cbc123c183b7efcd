-- ===== src/Limits/Window.antt =====
-- How the sums over a window behave when time passes, lists shrink and entries change.
use relstate.Common.{
  ℕ, ◌+◌, ◌-◌, ◌≤◌, ◌<◌, ◌≡◌, List, [], ◌∷◌, ◌++◌, arith, leb, if◌then◌else◌, All, refl,
}
use relstate.Limits.{Entry, put, prune, count_since, lamports_since, remove_from, day_ms, hour_ms}

abbrev pub Below : ℕ → List ℕ → Type 0
Below n = All (λ i. i < n)

pub Below-mono : {m n : ℕ} (is : List ℕ) → m ≤ n → Below m is → Below n is
Below-mono [] h b = tt
Below-mono (i ∷ is) h b = (omega arith, Below-mono is h b.1)

pub prune-Below :
    (cell : ℕ → Entry) (now n : ℕ) (is : List ℕ) → Below n is → Below n (prune cell now is)
unfolding prune
prune-Below cell now n [] b = tt
prune-Below cell now n (i ∷ is) b = ground (arith, prune-Below cell now n is b.1)

pub remove_from-Below : (e n : ℕ) (is : List ℕ) → Below n is → Below n (remove_from e is)
unfolding remove_from
remove_from-Below e n [] b = tt
remove_from-Below e n (i ∷ is) b = ground (arith, remove_from-Below e n is b.1)

-- What `prune` drops lies outside every window up to a day, now and later.
module _ (cell : ℕ → Entry) (now later window : ℕ) (le : now ≤ later)
    (short : window ≤ day_ms) where
  pub lamports_since-prune :
      (is : List ℕ)
      → lamports_since cell later window (prune cell now is) ≡ lamports_since cell later window is
  unfolding prune lamports_since
  lamports_since-prune [] = refl
  lamports_since-prune (i ∷ is) = ground (arith, lamports_since-prune is)

  pub count_since-prune :
      (is : List ℕ)
      → count_since cell later window (prune cell now is) ≡ count_since cell later window is
  unfolding prune count_since
  count_since-prune [] = refl
  count_since-prune (i ∷ is) = ground (arith, count_since-prune is)

-- Time only takes entries out of a window; a change of the heap that raises no amount raises no sum.
module _ (cell cell' : ℕ → Entry) (now later window : ℕ) (le : now ≤ later)
    (kept : (j : ℕ) → (cell' j).at ≡ (cell j).at)
    (lower : (j : ℕ) → (cell' j).lamports ≤ (cell j).lamports) where
  pub lamports_since_mono :
      (is : List ℕ) → lamports_since cell' later window is ≤ lamports_since cell now window is
  unfolding lamports_since
  lamports_since_mono [] = omega arith
  lamports_since_mono (i ∷ is) = ground (arith, lamports_since_mono is, kept i, lower i)

  pub count_since_mono :
      (is : List ℕ) → count_since cell' later window is ≤ count_since cell now window is
  unfolding count_since
  count_since_mono [] = omega arith
  count_since_mono (i ∷ is) = ground (arith, count_since_mono is, kept i)

module _ (cell : ℕ → Entry) (now window e : ℕ) where
  pub lamports_since-remove_from-le :
      (is : List ℕ)
      → lamports_since cell now window (remove_from e is) ≤ lamports_since cell now window is
  unfolding lamports_since remove_from
  lamports_since-remove_from-le [] = omega arith
  lamports_since-remove_from-le (i ∷ is) = ground (arith, lamports_since-remove_from-le is)

  pub count_since-remove_from-le :
      (is : List ℕ)
      → count_since cell now window (remove_from e is) ≤ count_since cell now window is
  unfolding count_since remove_from
  count_since-remove_from-le [] = omega arith
  count_since-remove_from-le (i ∷ is) = ground (arith, count_since-remove_from-le is)

-- A list that is pruned when time has passed: no sum over it is larger than before.
module _ (cell : ℕ → Entry) (now later : ℕ) (le : now ≤ later) (is : List ℕ) where
  pub lamports_since-prune-le :
      lamports_since cell later day_ms (prune cell later is) ≤ lamports_since cell now day_ms is
  lamports_since-prune-le = omega (
    arith,
    lamports_since-prune cell later later day_ms (omega arith) (omega arith) is,
    lamports_since_mono cell cell now later day_ms le (λ _. refl) (λ _. omega arith) is,
  )

  pub count_since-prune-le :
      count_since cell later hour_ms (prune cell later is) ≤ count_since cell now hour_ms is
  count_since-prune-le = omega (
    arith,
    count_since-prune cell later later hour_ms (omega arith) (omega arith) is,
    count_since_mono cell cell now later hour_ms le (λ _. refl) (λ _. omega arith) is,
  )

-- A fresh entry at the end of a list.
module _ (cell : ℕ → Entry) (now window n : ℕ) (entry : Entry) where
  pub lamports_since-put :
      (is : List ℕ)
      → Below n is
      → lamports_since (put n entry cell) now window is ≡ lamports_since cell now window is
  unfolding lamports_since
  lamports_since-put [] b = refl
  lamports_since-put (i ∷ is) b = ground (arith, lamports_since-put is b.1)

  pub count_since-put :
      (is : List ℕ)
      → Below n is
      → count_since (put n entry cell) now window is ≡ count_since cell now window is
  unfolding count_since
  count_since-put [] b = refl
  count_since-put (i ∷ is) b = ground (arith, count_since-put is b.1)

  pub lamports_since-push :
      (is : List ℕ)
      → Below n is
      → lamports_since (put n entry cell) now window (is ++ n ∷ [])
        ≡ lamports_since cell now window is
          + (if leb (now - entry.at) window then entry.lamports else 0)
  unfolding lamports_since
  lamports_since-push [] b = ground arith
  lamports_since-push (i ∷ is) b = ground (arith, lamports_since-push is b.1)

  pub count_since-push :
      (is : List ℕ)
      → Below n is
      → count_since (put n entry cell) now window (is ++ n ∷ [])
        ≡ count_since cell now window is + (if leb (now - entry.at) window then 1 else 0)
  unfolding count_since
  count_since-push [] b = ground arith
  count_since-push (i ∷ is) b = ground (arith, count_since-push is b.1)

pub remove_from-push : (e : ℕ) (is : List ℕ) → Below e is → remove_from e (is ++ e ∷ []) ≡ is
unfolding remove_from
remove_from-push e [] b = ground arith
remove_from-push e (i ∷ is) b = ground (arith, remove_from-push e is b.1)
