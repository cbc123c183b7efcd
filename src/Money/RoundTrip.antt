-- ===== src/Money/RoundTrip.antt =====
-- A formatted amount parses back.
use relstate.Common.{
  pos, ℕ, zero, suc, ◌-◌, ◌≤◌, ◌<◌, ◌≡◌, refl, ◌∙◌, ap, false, List, [], ◌∷◌, ◌++◌, some, ok, arith,
  ltb, length, take, drop, All, All-append, All-weaken,
}
use relstate.Money.{
  Value, string, is_space, text_of, trim_start, trim_end, span_digits, match_rest, match_decimal,
  zeros, to_number, to_digits, pad_start, place_point, parse_scaled, scale, format_scaled,
}
use relstate.Money.Digits.{
  AreDigits, to_number-to_digits, to_number-pad_start, length-pad_start, pad_start-AreDigits,
  span_digits-stop, span_digits-whole,
}

take-append-drop : {A : Type 0} (n : ℕ) (xs : List A) → take n xs ++ drop n xs ≡ xs
take-append-drop zero xs = refl
take-append-drop (suc n) [] = refl
take-append-drop (suc n) (x ∷ xs) = cc (take-append-drop n xs)

length-drop : {A : Type 0} (n : ℕ) (xs : List A) → length (drop n xs) ≡ length xs - n
length-drop zero xs = omega arith
length-drop (suc n) [] = omega arith
length-drop (suc n) (x ∷ xs) = omega (arith, length-drop n xs)

length-take : {A : Type 0} (n : ℕ) (xs : List A) → n ≤ length xs → length (take n xs) ≡ n
length-take zero xs le = omega arith
length-take (suc n) [] le = omega arith
length-take (suc n) (x ∷ xs) le = omega (arith, length-take n xs (omega arith))

take-length : {A : Type 0} (xs : List A) → take (length xs) xs ≡ xs
take-length [] = refl
take-length (x ∷ xs) = cc (take-length xs)

append-nil : {A : Type 0} (xs : List A) → xs ++ [] ≡ xs
append-nil [] = refl
append-nil (x ∷ xs) = cc (append-nil xs)

take-AreDigits : (n : ℕ) (xs : List ℕ) → AreDigits xs → AreDigits (take n xs)
take-AreDigits zero xs h = tt
take-AreDigits (suc n) [] h = tt
take-AreDigits (suc n) (x ∷ xs) (h, hs) = (h, take-AreDigits n xs hs)

drop-AreDigits : (n : ℕ) (xs : List ℕ) → AreDigits xs → AreDigits (drop n xs)
drop-AreDigits zero xs h = h
drop-AreDigits (suc n) [] h = tt
drop-AreDigits (suc n) (x ∷ xs) (h, hs) = drop-AreDigits n xs hs

abbrev NoSpace : List ℕ → Type 0
NoSpace = All (λ c. is_space c ≡ false)

trim_start-NoSpace : (xs : List ℕ) → NoSpace xs → trim_start xs ≡ xs
unfolding trim_start
trim_start-NoSpace [] h = refl
trim_start-NoSpace (x ∷ xs) (h, hs) = rw h refl

trim_end-NoSpace : (xs : List ℕ) → NoSpace xs → trim_end xs ≡ xs
unfolding trim_end
trim_end-NoSpace [] h = refl
trim_end-NoSpace (x ∷ []) (h, hs) = rw h refl
trim_end-NoSpace (x ∷ y ∷ ys) (h, hs) = rw (trim_end-NoSpace (y ∷ ys) hs) refl

text_of-NoSpace : (xs : List ℕ) → NoSpace xs → text_of (string xs) ≡ xs
unfolding text_of
text_of-NoSpace xs h = rw (trim_start-NoSpace xs h) (trim_end-NoSpace xs h)

digits-NoSpace : (xs : List ℕ) → AreDigits xs → NoSpace xs
digits-NoSpace xs h = All-weaken _ _ xs (λ c d. ground arith) h

span_digits-point : (rest : List ℕ) → span_digits (46 ∷ rest) ≡ ([], 46 ∷ rest)
unfolding span_digits
span_digits-point rest = refl

match_fractional :
    (ws fs : List ℕ)
    → AreDigits ws
    → AreDigits fs
    → 0 < length ws
    → 0 < length fs
    → match_decimal (ws ++ 46 ∷ fs) ≡ some (ws, fs)
unfolding match_decimal match_rest
match_fractional [] fs hw hf lw lf = absurd (omega arith)
match_fractional ws [] hw hf lw lf = absurd (omega arith)
match_fractional (w ∷ ws) (f ∷ fs) hw hf lw lf =
    rw (span_digits-stop (w ∷ ws) (46 ∷ f ∷ fs) hw (span_digits-point (f ∷ fs)))
      (rw (span_digits-whole (f ∷ fs) hf) refl)

match_whole_number : (ws : List ℕ) → AreDigits ws → 0 < length ws → match_decimal ws ≡ some (ws, [])
unfolding match_decimal match_rest
match_whole_number [] h l = absurd (omega arith)
match_whole_number (w ∷ ws) h l = rw (span_digits-whole (w ∷ ws) h) refl

parse_matched :
    (v : Value) (ws fs : List ℕ) (n : ℕ)
    → match_decimal (text_of v) ≡ some (ws, fs)
    → length fs ≡ n
    → parse_scaled v n ≡ ok (to_number 0 (ws ++ fs))
unfolding parse_scaled
parse_matched v ws fs n m l =
    let short : ltb n (length fs) ≡ false = ground arith in
    let full : n - length fs ≡ 0 = omega arith in
    let nothing : ws ++ fs ++ zeros 0 ≡ ws ++ fs = append-nil (ws ++ fs) in
    ap (scale n) m ∙ rw short (rw full (rw nothing refl))

-- The text of the padded digits with the point in place.
parse_scaled-place_point :
    (ds : List ℕ) (decimals : ℕ)
    → AreDigits ds
    → decimals < length ds
    → parse_scaled (string (place_point ds decimals)) decimals ≡ ok (to_number 0 ds)
unfolding parse_scaled place_point
parse_scaled-place_point ds zero h l =
    let whole : take (length ds - 0) ds ≡ ds =
      ap (λ (k : ℕ). take k ds) (omega arith) ∙ take-length ds in
    let text : text_of (string (take (length ds - 0) ds)) ≡ ds =
      ap (λ xs. text_of (string xs)) whole ∙ text_of-NoSpace ds (digits-NoSpace ds h) in
    parse_matched (string (take (length ds - 0) ds)) ds [] 0
      (ap match_decimal text ∙ match_whole_number ds h (omega arith)) refl
    ∙ ap (λ xs. ok (to_number 0 xs)) (append-nil ds)
parse_scaled-place_point ds (suc d) h l =
    let k = length ds - suc d in
    let ws = take k ds in
    let fs = drop k ds in
    let dw : AreDigits ws = take-AreDigits k ds h in
    let df : AreDigits fs = drop-AreDigits k ds h in
    let nw : length ws ≡ k = length-take k ds (omega arith) in
    let nf : length fs ≡ suc d = omega (arith, length-drop k ds) in
    let text : text_of (string (ws ++ 46 ∷ fs)) ≡ ws ++ 46 ∷ fs =
      text_of-NoSpace _
        (All-append _ ws (46 ∷ fs) (digits-NoSpace ws dw) (refl, digits-NoSpace fs df)) in
    parse_matched (string (ws ++ 46 ∷ fs)) ws fs (suc d)
      (ap match_decimal text ∙ match_fractional ws fs dw df (omega arith) (omega arith)) nf
    ∙ ap (λ xs. ok (to_number 0 xs)) (take-append-drop k ds)

-- The text of a non-negative amount, with any number of decimal places, parses back to the amount.
pub parse_scaled-format_scaled :
    (n decimals : ℕ) → parse_scaled (string (format_scaled (pos n) decimals)) decimals ≡ ok n
unfolding format_scaled
parse_scaled-format_scaled n decimals =
    let ds = pad_start (to_digits n n) (suc decimals) in
    parse_scaled-place_point ds decimals (pad_start-AreDigits n (suc decimals))
      (length-pad_start (to_digits n n) (suc decimals))
    ∙ ap ok
        (to_number-pad_start (to_digits n n) (suc decimals) ∙ to_number-to_digits n n (omega arith))
