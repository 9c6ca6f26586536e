-- ===== src/Money/Overflow.antt =====
-- When a sum of two valid amounts succeeds and when it saturates (TryAddMoney of
-- src/money_utils.cc).
use service_control_client_c.Prelude.{
  ◌-◌, ◌^◌, ◌<◌, ◌≡◌, ◌⊎◌, arith, true, ℤ, pos, negsuc, pos_part, neg_part, ◌+ℤ◌, int32, int64,
  int64-WrapsTo, int_laws, one_sign, Text, int64-IsInt64, IsInt64, ltb_ℤ, ◌↔◌, length,
}
use service_control_client_c.Status.{ok, out_of_range}
use service_control_client_c.Money.{
  Money, validate_money, get_amount_sign, carry_nanos, align_signs, check_overflow,
}
use service_control_client_c.Money.Sum.{
  IsFraction, Agrees, pos_nanos, neg_nanos, carry_nanos-Carries, align_signs-Aligns, Trace,
  LosesSign,
}

-- What `ValidateMoney` accepts, and units that fit an int64.
pub record IsAmount (m : Money) : Type 0 where
  pub code : length m.currency_code ≡ 3
  pub fraction : IsFraction m.nanos
  pub agrees : Agrees m.units m.nanos
  pub fits : IsInt64 m.units

-- Of the values whose units fit an int64, `ValidateMoney` accepts exactly the well-formed amounts:
-- a code of three characters, nanos strictly between -10^9 and 10^9, and signs that agree.
pub validate_money_iff : (m : Money) → IsInt64 m.units → (validate_money m ≡ ok) ↔ IsAmount m
unfolding validate_money
validate_money_iff m h = (ground arith, ground arith)

-- The sign tests read the sign of the whole amount.
sign_pos_iff :
    (a : Money)
    → IsAmount a
    → (ltb_ℤ (pos 0) (get_amount_sign a) ≡ true) ↔ (0 < pos_nanos a.units a.nanos)
unfolding get_amount_sign
sign_pos_iff a v = (ground arith, ground arith)

sign_neg_iff :
    (a : Money)
    → IsAmount a
    → (ltb_ℤ (get_amount_sign a) (pos 0) ≡ true) ↔ (0 < neg_nanos a.units a.nanos)
unfolding get_amount_sign
sign_neg_iff a v = (ground arith, ground arith)

-- The amounts that an overflow saturates to.
abbrev pub largest : Text → Money
largest c = record { currency_code = c; units = pos (2 ^ 63 - 1); nanos = pos 999_999_999 }

abbrev pub smallest : Text → Money
smallest c = record { currency_code = c; units = negsuc (2 ^ 63 - 1); nanos = negsuc 999_999_998 }

-- The two tests for an overflow let a result pass exactly if no sign is lost.
module _ (a b : Money) (nc u n : ℤ) (va : IsAmount a) (vb : IsAmount b) where
  pub check_overflow_passes :
      ¬ LosesSign a.units a.nanos b.units b.nanos nc u
      → check_overflow a b nc u n
        ≡ (record { currency_code = a.currency_code; units = u; nanos = n }, ok)
  unfolding check_overflow
  check_overflow_passes h =
      ground (arith, sign_pos_iff a va, sign_pos_iff b vb, sign_neg_iff a va, sign_neg_iff b vb)

  pub check_overflow_above :
      (0 < pos_nanos a.units a.nanos)
      → (0 < pos_nanos b.units b.nanos)
      → (pos_part u ≡ 0)
      → check_overflow a b nc u n ≡ (largest a.currency_code, out_of_range)
  unfolding check_overflow
  check_overflow_above h k l = ground (arith, sign_pos_iff a va, sign_pos_iff b vb)

  pub check_overflow_below :
      (0 < neg_nanos a.units a.nanos)
      → (0 < neg_nanos b.units b.nanos)
      → (neg_part u ≡ 0) ⊎ (neg_part nc ≡ 0)
      → check_overflow a b nc u n ≡ (smallest a.currency_code, out_of_range)
  unfolding check_overflow
  check_overflow_below h k l = ground (
    arith,
    sign_pos_iff a va,
    sign_pos_iff b vb,
    sign_neg_iff a va,
    sign_neg_iff b vb,
    one_sign a.units,
    one_sign a.nanos,
  )

-- The values that the function computes for two amounts make a trace.
module _ (a b : Money) (va : IsAmount a) (vb : IsAmount b) where
  pub sum-Trace :
      let c = carry_nanos (int32 (a.nanos +ℤ b.nanos)) in
      let nc = int64 (a.units +ℤ b.units) in
      let u = int64 (nc +ℤ c.0) in Trace a.units a.nanos b.units b.nanos nc u c (align_signs u c.1)
  sum-Trace =
      let c = carry_nanos (int32 (a.nanos +ℤ b.nanos)) in
      let nc = int64 (a.units +ℤ b.units) in
      let u = int64 (nc +ℤ c.0) in
      let k = carry_nanos-Carries a.nanos b.nanos va.fraction vb.fraction in
      let i = int64-IsInt64 (a.units +ℤ b.units) in
      record {
        carries = k;
        units = int64-WrapsTo _ (omega int_laws) (omega int_laws);
        carried = int64-WrapsTo _ (omega int_laws) (omega int_laws);
        fits = int64-IsInt64 _;
        aligns = align_signs-Aligns u c.1 (int64-IsInt64 _) k.0;
      }
