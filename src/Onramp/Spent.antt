-- ===== src/Onramp/Spent.antt =====
-- backend/src/providers/onramp.ts, createDailyCap: what a wallet has spent of its daily cap.
use relstate.Common.{
  ℕ, ◌+◌, ◌≤◌, ◌≡◌, refl, sym, ap, inl, inr, false, List, [], ◌∷◌, ◌++◌, arith, keep, ◌==◌,
  if◌then◌else◌, Bool-cases,
}
use relstate.Onramp.DailyCap.{Cap, is_live, live, total, check, record_credit}

-- What a wallet was credited in the day up to `t`.
abbrev pub spent : Cap → ℕ → ℕ → ℕ
spent cap wallet t = total (keep (is_live t) (cap wallet))

total-append : (es fs : List (ℕ × ℕ)) → total (es ++ fs) ≡ total es + total fs
unfolding total
total-append [] fs = omega arith
total-append ((at, amount) ∷ es) fs = omega (arith, total-append es fs)

keep-append :
    (t : ℕ) (es fs : List (ℕ × ℕ))
    → keep (is_live t) (es ++ fs) ≡ keep (is_live t) es ++ keep (is_live t) fs
keep-append t [] fs = refl
keep-append t ((at, amount) ∷ es) fs = elim (Bool-cases (is_live t (at, amount))) [
  | inl e ↦ rw e (ap (λ l. (at, amount) ∷ l) (keep-append t es fs))
  | inr e ↦ rw e (keep-append t es fs)
]

keep-keep :
    (now t : ℕ) (es : List (ℕ × ℕ))
    → now ≤ t
    → total (keep (is_live t) (keep (is_live now) es)) ≡ total (keep (is_live t) es)
unfolding total
keep-keep now t [] le = refl
keep-keep now t ((at, amount) ∷ es) le = ground (arith, keep-keep now t es le)

total-keep-le :
    (now t : ℕ) (es : List (ℕ × ℕ))
    → now ≤ t
    → total (keep (is_live t) es) ≤ total (keep (is_live now) es)
unfolding total
total-keep-le now t [] le = omega arith
total-keep-le now t ((at, amount) ∷ es) le = ground (arith, total-keep-le now t es le)

total-one :
    (t now amount : ℕ)
    → total (keep (is_live t) ((now, amount) ∷ []))
      ≡ (if is_live t (now, amount) then amount else 0)
unfolding total
total-one t now amount = elim (Bool-cases (is_live t (now, amount))) [
  | inl e ↦ rw e (omega arith)
  | inr e ↦ rw e refl
]

-- A credit counts for the day after it.
pub spent-record_credit :
    (cap : Cap) (wallet amount now w t : ℕ)
    → now ≤ t
    → spent (record_credit cap wallet amount now) w t
      ≡ spent cap w t + (if wallet == w then (if is_live t (now, amount) then amount else 0) else 0)
unfolding record_credit live
spent-record_credit cap wallet amount now w t le = elim (Bool-cases (wallet == w)) [
  | inl e ↦
      let same : wallet ≡ w = ground (arith, e) in
      rw (e, sym same)
        (rw
          (
            keep-append t (keep (is_live now) (cap wallet)) ((now, amount) ∷ []),
            total-append (keep (is_live t) (keep (is_live now) (cap wallet)))
                (keep (is_live t) ((now, amount) ∷ [])),
          )
          (omega (arith, keep-keep now t (cap wallet) le, total-one t now amount)))
  | inr e ↦ rw e (omega arith)
]

module _ (limit : ℕ) where
  abbrev pub WithinCap : Cap → ℕ → Type 0
  WithinCap cap now = (w : ℕ) → spent cap w now ≤ limit

  -- The map changes only by what has run out.
  abbrev pub SameFrom : ℕ → Cap → Cap → Type 0
  SameFrom now cap cap' = (w t : ℕ) → now ≤ t → spent cap' w t ≡ spent cap w t

  pub check-SameFrom :
      (cap : Cap) (wallet amount now : ℕ) → SameFrom now cap (check limit cap wallet amount now).0
  unfolding check live
  check-SameFrom cap wallet amount now w t le = elim (Bool-cases (wallet == w)) [
    | inl e ↦
        let same : wallet ≡ w = ground (arith, e) in
        rw (e, sym same) (keep-keep now t (cap wallet) le)
    | inr e ↦ rw e refl
  ]

  pub check-passes :
      (cap : Cap) (wallet amount now : ℕ)
      → (check limit cap wallet amount now).1 ≡ false
      → spent cap wallet now + amount ≤ limit
  unfolding check live
  check-passes cap wallet amount now h = ground (arith, h)

  pub record_credit-WithinCap :
      (cap : Cap) (wallet amount now : ℕ)
      → WithinCap cap now
      → spent cap wallet now + amount ≤ limit
      → WithinCap (record_credit cap wallet amount now) now
  unfolding record_credit live total
  record_credit-WithinCap cap wallet amount now within fits w = elim (Bool-cases (wallet == w)) [
    | inl e ↦ rw e (
        rw
          (
            keep-append now (keep (is_live now) (cap wallet)) ((now, amount) ∷ []),
            total-append (keep (is_live now) (keep (is_live now) (cap wallet)))
                (keep (is_live now) ((now, amount) ∷ [])),
          )
          (ground (arith, fits, keep-keep now now (cap wallet))))
    | inr e ↦ rw e (within w)
  ]

  pub later-WithinCap : (cap : Cap) (now t : ℕ) → now ≤ t → WithinCap cap now → WithinCap cap t
  later-WithinCap cap now t le within w = omega (arith, within w, total-keep-le now t (cap w) le)

  pub same-WithinCap :
      (now : ℕ) (cap cap' : Cap) → SameFrom now cap cap' → WithinCap cap now → WithinCap cap' now
  same-WithinCap now cap cap' same within w = ground (arith, same w now, within w)
