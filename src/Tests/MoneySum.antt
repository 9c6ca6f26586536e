-- ===== src/Tests/MoneySum.antt =====
-- Tests of src/money_utils.cc.
use service_control_client_c.Prelude.{
  ◌-◌, ◌^◌, ◌≡◌, refl, ◌↔◌, ◌∷◌, [], ℤ, pos, negsuc, Text, arith, int32, int64, ◌+ℤ◌, ◌-ℤ◌,
}
use service_control_client_c.Status.{ok, out_of_range}
use service_control_client_c.Money.{
  Money, try_add_money, validate_money, add_amounts, check_overflow, get_amount_sign, align_signs,
  carry_nanos,
}
use service_control_client_c.Money.Sum.{IsSum}
use service_control_client_c.Money.Overflow.{IsAmount, largest, smallest, validate_money_iff}
use service_control_client_c.Money.Exact.{
  try_add_money_exact, try_add_money_above, try_add_money_false_above, try_add_money_false_below,
}

abbrev usd : Text
usd = 85 ∷ 83 ∷ 68 ∷ []

abbrev dollars : ℤ → ℤ → Money
dollars u n = record { currency_code = usd; units = u; nanos = n }

-- 1.50 and 2.70 dollars make 4.20 dollars.
abbrev one_fifty : Money
one_fifty = dollars (pos 1) (pos 500_000_000)

abbrev two_seventy : Money
two_seventy = dollars (pos 2) (pos 700_000_000)

abbrev four_twenty : Money
four_twenty = dollars (pos 4) (pos 200_000_000)

abbrev half : Money
half = dollars (pos 0) (pos 500_000_000)

abbrev quarter : Money
quarter = dollars (pos 0) (pos 250_000_000)

abbrev minus_half : Money
minus_half = dollars (pos 0) (negsuc 499_999_999)

abbrev most : Money
most = dollars (pos (2 ^ 63 - 1)) (pos 999_999_999)

abbrev least : Money
least = dollars (negsuc (2 ^ 63 - 1)) (negsuc 999_999_998)

sum_run : try_add_money one_fifty two_seventy ≡ (four_twenty, ok)
unfolding try_add_money add_amounts check_overflow get_amount_sign align_signs int64 ◌+ℤ◌
    carry_nanos int32 ◌-ℤ◌
sum_run = refl

IsAmount-one_fifty : IsAmount one_fifty
IsAmount-one_fifty = record {
  code = refl;
  fraction = omega arith;
  agrees = omega arith;
  fits = omega arith;
}

IsAmount-two_seventy : IsAmount two_seventy
IsAmount-two_seventy = record {
  code = refl;
  fraction = omega arith;
  agrees = omega arith;
  fits = omega arith;
}

IsAmount-half : IsAmount half
IsAmount-half = record {
  code = refl;
  fraction = omega arith;
  agrees = omega arith;
  fits = omega arith;
}

IsAmount-quarter : IsAmount quarter
IsAmount-quarter = record {
  code = refl;
  fraction = omega arith;
  agrees = omega arith;
  fits = omega arith;
}

IsAmount-minus_half : IsAmount minus_half
IsAmount-minus_half = record {
  code = refl;
  fraction = omega arith;
  agrees = omega arith;
  fits = omega arith;
}

IsAmount-most : IsAmount most
IsAmount-most = record {
  code = refl;
  fraction = omega arith;
  agrees = omega arith;
  fits = omega arith;
}

IsAmount-least : IsAmount least
IsAmount-least = record {
  code = refl;
  fraction = omega arith;
  agrees = omega arith;
  fits = omega arith;
}

try_add_money_exact_example :
    IsAmount four_twenty
    × (usd ≡ usd)
    × (usd ≡ usd)
    × IsSum (pos 1) (pos 500_000_000) (pos 2) (pos 700_000_000) (pos 4, pos 200_000_000)
try_add_money_exact_example =
    try_add_money_exact one_fifty two_seventy four_twenty IsAmount-one_fifty IsAmount-two_seventy
      sum_run

try_add_money_above_example : try_add_money most half ≡ (largest usd, out_of_range)
try_add_money_above_example =
    try_add_money_above most half IsAmount-most IsAmount-half refl (omega arith) (omega arith)
      (omega arith)

try_add_money_false_above_example : try_add_money half quarter ≡ (largest usd, out_of_range)
try_add_money_false_above_example =
    try_add_money_false_above half quarter IsAmount-half IsAmount-quarter refl (omega arith)
      (omega arith) (omega arith)

validate_money_iff_example : (validate_money one_fifty ≡ ok) ↔ IsAmount one_fifty
validate_money_iff_example = validate_money_iff one_fifty (omega arith)

try_add_money_false_below_example :
    try_add_money minus_half minus_half ≡ (smallest usd, out_of_range)
try_add_money_false_below_example =
    try_add_money_false_below minus_half minus_half IsAmount-minus_half IsAmount-minus_half refl
      (omega arith) (omega arith) (omega arith) (omega arith)
