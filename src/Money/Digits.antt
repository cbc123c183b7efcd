-- ===== src/Money/Digits.antt =====
-- Decimal notation of a number, and what a text of digits spells.
use relstate.Common.{
  ℕ, zero, suc, ◌+◌, ◌-◌, ◌*◌, ◌/◌, ◌≤◌, ◌≡◌, refl, ◌∙◌, true, List, [], ◌∷◌, ◌++◌, arith, ltb,
  length, length-append, All, All-append, Bool-cases, inl, inr,
}
use relstate.Money.{is_digit, zeros, to_number, to_digits, pad_start, span_digits}

abbrev pub AreDigits : List ℕ → Type 0
AreDigits = All (λ c. is_digit c ≡ true)

to_number-append :
    (acc : ℕ) (xs ys : List ℕ) → to_number acc (xs ++ ys) ≡ to_number (to_number acc xs) ys
unfolding to_number
to_number-append acc [] ys = refl
to_number-append acc (x ∷ xs) ys = to_number-append (10 * acc + (x - 48)) xs ys

pub to_number-to_digits : (fuel n : ℕ) → n ≤ fuel → to_number 0 (to_digits fuel n) ≡ n
unfolding to_digits to_number
to_number-to_digits zero n le = omega arith
to_number-to_digits (suc fuel) n le = elim (Bool-cases (ltb n 10)) [
  | inl h ↦ rw h (omega arith)
  | inr h ↦ rw h (
      to_number-append 0 (to_digits fuel (n / 10)) _
      ∙ ground (arith, to_number-to_digits fuel (n / 10) (omega arith)))
]

to_digits-AreDigits : (fuel n : ℕ) → n ≤ fuel → AreDigits (to_digits fuel n)
unfolding to_digits
to_digits-AreDigits zero n le = (ground arith, tt)
to_digits-AreDigits (suc fuel) n le = elim (Bool-cases (ltb n 10)) [
  | inl h ↦ rw h (ground arith, tt)
  | inr h ↦ rw h (
      All-append _ (to_digits fuel (n / 10)) _ (to_digits-AreDigits fuel (n / 10) (ground arith))
        (ground arith, tt))
]

zeros-AreDigits : (n : ℕ) → AreDigits (zeros n)
zeros-AreDigits zero = tt
zeros-AreDigits (suc n) = (refl, zeros-AreDigits n)

to_number-zeros : (n : ℕ) (xs : List ℕ) → to_number 0 (zeros n ++ xs) ≡ to_number 0 xs
unfolding to_number
to_number-zeros zero xs = refl
to_number-zeros (suc n) xs = to_number-zeros n xs

length-zeros : (n : ℕ) → length (zeros n) ≡ n
length-zeros zero = refl
length-zeros (suc n) = omega (arith, length-zeros n)

-- What `padStart` leaves true.
pub to_number-pad_start :
    (xs : List ℕ) (width : ℕ) → to_number 0 (pad_start xs width) ≡ to_number 0 xs
unfolding pad_start
to_number-pad_start xs width = to_number-zeros (width - length xs) xs

pub length-pad_start : (xs : List ℕ) (width : ℕ) → width ≤ length (pad_start xs width)
unfolding pad_start
length-pad_start xs width =
    omega (arith, length-append (zeros (width - length xs)) xs, length-zeros (width - length xs))

pub pad_start-AreDigits : (n width : ℕ) → AreDigits (pad_start (to_digits n n) width)
unfolding pad_start
pad_start-AreDigits n width =
    All-append _ (zeros (width - length (to_digits n n))) _ (zeros-AreDigits _)
      (to_digits-AreDigits n n (omega arith))

-- Digits in front of something else are what `\d+` takes.
pub span_digits-stop :
    (ds rest : List ℕ)
    → AreDigits ds
    → span_digits rest ≡ ([], rest)
    → span_digits (ds ++ rest) ≡ (ds, rest)
unfolding span_digits
span_digits-stop [] rest h e = e
span_digits-stop (d ∷ ds) rest (h, hs) e = rw (span_digits-stop ds rest hs e) (rw h refl)

pub span_digits-whole : (ds : List ℕ) → AreDigits ds → span_digits ds ≡ (ds, [])
unfolding span_digits
span_digits-whole [] h = refl
span_digits-whole (d ∷ ds) (h, hs) = rw (span_digits-whole ds hs) (rw h refl)
