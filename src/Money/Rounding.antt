-- ===== src/Money/Rounding.antt =====
-- How the two conversions round.
use native.Mathlib.Nat.{div-add-mod, mod-lt}
use relstate.Common.{pos, ℕ, suc, ◌*◌, ◌/◌, ◌≤◌, ◌<◌, ◌≡◌, ap, subst, ok, arith}
use relstate.Money.{pln_to_usdc, usdc_to_pln, check_conversion}

-- Division with a positive divisor.
div_bounds : (n d : ℕ) → 0 < d → (d * (n / d) ≤ n) × (n < d * suc (n / d))
div_bounds n d h =
    (omega (arith, div-add-mod n d), omega (arith, div-add-mod n d, mod-lt n {m = d} h))

-- The rUSDC that a top-up buys costs at most the grosz paid, and one base unit more would cost more.
pub pln_to_usdc_floors :
    (g r : ℕ)
    → (q : ℕ) × (pln_to_usdc (pos g) (pos (suc r)) ≡ ok q)
      × (100 * suc r * q ≤ g * 1_000_000_000_000)
      × (g * 1_000_000_000_000 < 100 * suc r * suc q)
unfolding pln_to_usdc check_conversion
pln_to_usdc_floors g r =
    let (low, high) = div_bounds (g * 1_000_000_000_000) (100 * suc r) (omega arith) in
    (
      g * 1_000_000_000_000 / (100 * suc r),
      ap ok (ap (λ (t : ℕ). t / (100 * suc r)) (omega arith)),
      low,
      high,
    )

-- At a rate of at most 5,000 PLN per USDC, what a top-up bought shows as the grosz that were paid.
pub usdc_to_pln-pln_to_usdc :
    (g r q : ℕ)
    → suc r ≤ 5_000_000_000
    → pln_to_usdc (pos g) (pos (suc r)) ≡ ok q
    → usdc_to_pln (pos q) (pos (suc r)) ≡ ok g
unfolding pln_to_usdc usdc_to_pln check_conversion
usdc_to_pln-pln_to_usdc g r q le e =
    let (q', same, low, high) = pln_to_usdc_floors g r in
    let same_q : q' ≡ q = cc in
    let below = subst (λ (t : ℕ). 100 * suc r * t ≤ g * 1_000_000_000_000) same_q low in
    let above = subst (λ (t : ℕ). g * 1_000_000_000_000 < 100 * suc r * suc t) same_q high in
    ap ok (omega (arith, below, above, le))
