-- ===== src/Money.antt =====
-- backend/src/providers/money.ts: exact arithmetic between grosz and rUSDC base units.
-- A text is the list of its code points. A value that is a JavaScript number is given as the text
-- that `String` makes of it. `BigInt(…)` of digits and `toString` are positional notation, written
-- out here; `toString` has the value itself as fuel, which a division by ten never uses up.
pub mod Digits
pub mod RoundTrip
pub mod Rounding
mod Examples
use relstate.Common.{
  ℤ, pos, negsuc, ℕ, zero, suc, ◌+◌, ◌-◌, ◌*◌, ◌/◌, ◌%◌, Bool, true, false, not, ◌&&◌, ◌||◌, List,
  [], ◌∷◌, ◌++◌, Option, none, some, Result, ok, err, ◌>>◌, refuse_if, ltb, leb, ◌==◌,
  if◌then◌else◌, length, take, drop, any,
}

-- What is thrown, without the message.
pub data MoneyError : Type 0 where
  not_decimal too_many_places bad_rate negative_amount : MoneyError

abbrev pub pln_decimals : ℕ
pln_decimals = 2

abbrev pub usdc_decimals : ℕ
usdc_decimals = 6

abbrev pub rate_decimals : ℕ
rate_decimals = 6

abbrev pub pow10 : ℕ → ℕ
pow10 zero = 1
pow10 (suc n) = 10 * pow10 n

abbrev pub is_digit : ℕ → Bool
is_digit c = leb 48 c && leb c 57

-- The white space that `trim` removes.
abbrev pub is_space : ℕ → Bool
is_space c =
    (leb 9 c && leb c 13)
    || any (λ d. c == d)
        (32 ∷ 160 ∷ 0x1680 ∷ 0x2028 ∷ 0x2029 ∷ 0x202f ∷ 0x205f ∷ 0x3000 ∷ 0xfeff ∷ [])
    || (leb 0x2000 c && leb c 0x200a)

unfoldable pub trim_start : List ℕ → List ℕ
trim_start [] = []
trim_start (c ∷ cs) = let rest = trim_start cs in if is_space c then rest else c ∷ cs

abbrev pub before_spaces : ℕ → List ℕ → List ℕ
before_spaces c [] = if is_space c then [] else c ∷ []
before_spaces c (d ∷ ds) = c ∷ d ∷ ds

unfoldable pub trim_end : List ℕ → List ℕ
trim_end [] = []
trim_end (c ∷ cs) = before_spaces c (trim_end cs)

pub data Value : Type 0 where
  string number : List ℕ → Value

unfoldable pub text_of : Value → List ℕ
text_of (string s) = trim_end (trim_start s)
text_of (number s) = s

-- The digits that a text starts with, and what follows them.
unfoldable pub span_digits : List ℕ → List ℕ × List ℕ
span_digits [] = ([], [])
span_digits (c ∷ cs) =
    let (ds, rest) = span_digits cs in if is_digit c then (c ∷ ds, rest) else ([], c ∷ cs)

-- `/^(\d+)(?:\.(\d+))?$/.exec`, the two groups; a fraction that is absent is empty.
abbrev pub match_fraction : List ℕ → List ℕ × List ℕ → Option (List ℕ × List ℕ)
match_fraction whole ([], []) = none
match_fraction whole (_ ∷ _, _ ∷ _) = none
match_fraction whole ([], _ ∷ _) = none
match_fraction whole (d ∷ ds, []) = some (whole, d ∷ ds)

unfoldable pub match_rest : List ℕ → List ℕ → Option (List ℕ × List ℕ)
match_rest whole [] = some (whole, [])
match_rest whole (c ∷ rest) = if c == 46 then match_fraction whole (span_digits rest) else none

abbrev pub match_whole : List ℕ × List ℕ → Option (List ℕ × List ℕ)
match_whole ([], rest) = none
match_whole (d ∷ ds, rest) = match_rest (d ∷ ds) rest

unfoldable pub match_decimal : List ℕ → Option (List ℕ × List ℕ)
match_decimal text = match_whole (span_digits text)

-- `n` zeros.
abbrev pub zeros : ℕ → List ℕ
zeros zero = []
zeros (suc n) = 48 ∷ zeros n

-- `BigInt` of a text of digits, after the digits that spell `acc`.
unfoldable pub to_number : ℕ → List ℕ → ℕ
to_number acc [] = acc
to_number acc (c ∷ cs) = to_number (10 * acc + (c - 48)) cs

abbrev pub scale : ℕ → Option (List ℕ × List ℕ) → Result MoneyError ℕ
scale decimals none = err not_decimal
scale decimals (some (whole, fraction)) =
    refuse_if (ltb decimals (length fraction)) too_many_places
    >> ok (to_number 0 (whole ++ fraction ++ zeros (decimals - length fraction)))

unfoldable pub parse_scaled : Value → ℕ → Result MoneyError ℕ
parse_scaled value decimals = scale decimals (match_decimal (text_of value))

-- `toString` of a non-negative bigint.
unfoldable pub to_digits : ℕ → ℕ → List ℕ
to_digits zero n = (48 + n) ∷ []
to_digits (suc fuel) n =
    let rest = to_digits fuel (n / 10) in
    if ltb n 10 then (48 + n) ∷ [] else rest ++ (48 + n % 10) ∷ []

unfoldable pub pad_start : List ℕ → ℕ → List ℕ
pad_start digits width = zeros (width - length digits) ++ digits

-- The two slices, with the point between them.
unfoldable pub place_point : List ℕ → ℕ → List ℕ
place_point digits zero = take (length digits - 0) digits
place_point digits (suc d) =
    take (length digits - suc d) digits ++ 46 ∷ drop (length digits - suc d) digits

unfoldable pub format_scaled : ℤ → ℕ → List ℕ
format_scaled (pos n) decimals = place_point (pad_start (to_digits n n) (suc decimals)) decimals
format_scaled (negsuc n) decimals =
    45 ∷ place_point (pad_start (to_digits (suc n) (suc n)) (suc decimals)) decimals

-- Both conversions refuse a rate that is not positive, then a negative amount.
unfoldable pub check_conversion : ℤ → ℤ → Result MoneyError (ℕ × ℕ)
check_conversion amount (negsuc r) = err bad_rate
check_conversion amount (pos zero) = err bad_rate
check_conversion (negsuc a) (pos (suc r)) = err negative_amount
check_conversion (pos a) (pos (suc r)) = ok (a, suc r)

unfoldable pub pln_to_usdc : ℤ → ℤ → Result MoneyError ℕ
unfolding check_conversion
pln_to_usdc grosz rate = elim (check_conversion grosz rate) [
  | err e ↦ err e
  | ok (g, r) ↦ ok (g * pow10 usdc_decimals * pow10 rate_decimals / (pow10 pln_decimals * r))
]

unfoldable pub usdc_to_pln : ℤ → ℤ → Result MoneyError ℕ
unfolding check_conversion
usdc_to_pln base rate = elim (check_conversion base rate) [
  | err e ↦ err e
  | ok (b, r) ↦
      let denominator = pow10 usdc_decimals * pow10 rate_decimals in
      ok ((b * r * pow10 pln_decimals + denominator / 2) / denominator)
]
