-- ===== src/Money.antt =====
-- Sums of google.type.Money (src/money_utils.cc). A Money is its currency code, its units (an
-- int64) and its nanos (an int32); every sum that the source makes on a machine integer wraps.
pub mod Sum
pub mod Overflow
pub mod Exact
use service_control_client_c.Prelude.{
  ℕ, ◌-◌, ◌+◌, ◌*◌, ◌^◌, Bool, true, false, ◌&&◌, ◌||◌, not, [], if◌then◌else◌, Text, text_beq,
  length, nat_beq, ℤ, pos, negsuc, pos_part, neg_part, sub_ℕ, ◌+ℤ◌, ◌-ℤ◌, ltb_ℤ, leb_ℤ, int32,
  int64,
}
use service_control_client_c.Status.{Status, ok, invalid_argument, out_of_range}

pub record Money : Type 0 where
  pub currency_code : Text
  pub units : ℤ
  pub nanos : ℤ

abbrev pub billion : ℤ
billion = pos 1_000_000_000

unfoldable pub validate_money : Money → Status
validate_money m =
    if nat_beq (length m.currency_code) 0 || not (nat_beq (length m.currency_code) 3)
    then invalid_argument
    else if ltb_ℤ (pos 0) m.units && ltb_ℤ m.nanos (pos 0)
        || ltb_ℤ m.units (pos 0) && ltb_ℤ (pos 0) m.nanos
    then invalid_argument
    else if ltb_ℤ m.nanos (negsuc 999_999_998) || ltb_ℤ (pos 999_999_999) m.nanos
    then invalid_argument
    else ok

unfoldable pub get_amount_sign : Money → ℤ
get_amount_sign m =
    if ltb_ℤ (pos 0) m.units
    then pos 1
    else if ltb_ℤ m.units (pos 0)
    then negsuc 0
    else if ltb_ℤ (pos 0) m.nanos
    then pos 1
    else if ltb_ℤ m.nanos (pos 0)
    then negsuc 0
    else pos 0

-- The carry of the nanos, and what is left of them.
unfoldable pub carry_nanos : ℤ → ℤ × ℤ
carry_nanos n =
    if leb_ℤ billion n
    then (pos 1, int32 (n -ℤ billion))
    else if leb_ℤ n (negsuc 999_999_999)
    then (negsuc 0, int32 (n +ℤ billion))
    else (pos 0, n)

-- The adjustment that makes the signs of units and nanos agree.
unfoldable pub align_signs : ℤ → ℤ → ℤ × ℤ
align_signs u n =
    if ltb_ℤ (pos 0) u && ltb_ℤ n (pos 0)
    then (int64 (u -ℤ pos 1), int32 (n +ℤ billion))
    else if ltb_ℤ u (pos 0) && ltb_ℤ (pos 0) n
    then (int64 (u +ℤ pos 1), int32 (n -ℤ billion))
    else (u, n)

-- The end of the function: the two tests for an overflow, and the success case.
unfoldable pub check_overflow : Money → Money → ℤ → ℤ → ℤ → Money × Status
check_overflow a b no_carry u n =
    if ltb_ℤ (pos 0) (get_amount_sign a) && ltb_ℤ (pos 0) (get_amount_sign b) && leb_ℤ u (pos 0)
    then (
      record { currency_code = a.currency_code; units = pos (2 ^ 63 - 1); nanos = pos 999_999_999 },
      out_of_range,
    )
    else if ltb_ℤ (get_amount_sign a) (pos 0)
        && ltb_ℤ (get_amount_sign b) (pos 0)
        && (leb_ℤ (pos 0) no_carry || leb_ℤ (pos 0) u)
    then (
      record {
        currency_code = a.currency_code;
        units = negsuc (2 ^ 63 - 1);
        nanos = negsuc 999_999_998;
      },
      out_of_range,
    )
    else (record { currency_code = a.currency_code; units = u; nanos = n }, ok)

-- `TryAddMoney`, for two values of one currency; every path sets all fields of `sum`.
unfoldable pub add_amounts : Money → Money → Money × Status
add_amounts a b =
    let (carry, n) = carry_nanos (int32 (a.nanos +ℤ b.nanos)) in
    let no_carry = int64 (a.units +ℤ b.units) in
    let (u, n') = align_signs (int64 (no_carry +ℤ carry)) n in check_overflow a b no_carry u n'

unfoldable pub try_add_money : Money → Money → Money × Status
try_add_money a b =
    if text_beq a.currency_code b.currency_code
    then add_amounts a b
    else (record { currency_code = []; units = pos 0; nanos = pos 0 }, invalid_argument)

-- The sum of `SaturatedAddMoney`; the status that it asserts on is the second part.
unfoldable pub saturated_add_money : Money → Money → Money
saturated_add_money a b = (try_add_money a b).0
