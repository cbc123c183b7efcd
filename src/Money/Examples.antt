-- ===== src/Money/Examples.antt =====
-- 12.50 PLN at 4.30 PLN per USDC.
use relstate.Common.{pos, negsuc, ℕ, suc, ◌<◌, ◌≡◌, refl, [], ◌∷◌, ◌*◌, arith, ok, err, ◌≤◌}
use relstate.Money.{
  string, number, not_decimal, too_many_places, bad_rate, negative_amount, text_of, trim_start,
  trim_end, span_digits, match_rest, match_decimal, to_number, parse_scaled, to_digits, pad_start,
  place_point, format_scaled, check_conversion, pln_to_usdc, usdc_to_pln,
}
use relstate.Money.RoundTrip.{parse_scaled-format_scaled}
use relstate.Money.Rounding.{pln_to_usdc_floors, usdc_to_pln-pln_to_usdc}

tests : Unit {0}
unfolding parse_scaled text_of trim_start trim_end match_decimal span_digits match_rest to_number
    format_scaled to_digits pad_start place_point pln_to_usdc usdc_to_pln check_conversion
tests = tt

text_tests :
    (parse_scaled (string (32 ∷ 49 ∷ 50 ∷ 46 ∷ 53 ∷ 10 ∷ [])) 2 ≡ ok 1_250)
    × (parse_scaled (number (49 ∷ 50 ∷ 46 ∷ 53 ∷ 53 ∷ 53 ∷ [])) 2 ≡ err too_many_places)
    × (parse_scaled (string (45 ∷ 49 ∷ [])) 2 ≡ err not_decimal)
    × (parse_scaled (string (49 ∷ 46 ∷ [])) 2 ≡ err not_decimal)
    × (format_scaled (pos 5) 2 ≡ 48 ∷ 46 ∷ 48 ∷ 53 ∷ [])
    × (format_scaled (negsuc 1_249) 2 ≡ 45 ∷ 49 ∷ 50 ∷ 46 ∷ 53 ∷ 48 ∷ [])
    × (pln_to_usdc (pos 1_250) (pos 4_300_000) ≡ ok 2_906_976)
    × (pln_to_usdc (negsuc 0) (pos 1) ≡ err negative_amount)
    × (usdc_to_pln (pos 1) (pos 0) ≡ err bad_rate)
unfolding tests
text_tests = (refl, refl, refl, refl, refl, refl, refl, refl, refl)

parse_scaled-format_scaled_example :
    parse_scaled (string (49 ∷ 50 ∷ 46 ∷ 53 ∷ 48 ∷ [])) 2 ≡ ok 1_250
unfolding tests
parse_scaled-format_scaled_example = parse_scaled-format_scaled 1_250 2

pln_to_usdc_floors_example :
    (q : ℕ) × (pln_to_usdc (pos 1_250) (pos 4_300_000) ≡ ok q)
    × (100 * 4_300_000 * q ≤ 1_250 * 1_000_000_000_000)
    × (1_250 * 1_000_000_000_000 < 100 * 4_300_000 * suc q)
pln_to_usdc_floors_example = pln_to_usdc_floors 1_250 4_299_999

usdc_to_pln-pln_to_usdc_example : usdc_to_pln (pos 2_906_976) (pos 4_300_000) ≡ ok 1_250
unfolding tests
usdc_to_pln-pln_to_usdc_example =
    usdc_to_pln-pln_to_usdc 1_250 4_299_999 2_906_976 (omega arith) refl
