-- ===== src/Money/Exact.antt =====
-- The outcomes of an addition of two valid amounts (TryAddMoney of src/money_utils.cc).
use service_control_client_c.Prelude.{
  ◌+◌, ◌*◌, ◌^◌, ◌≤◌, ◌<◌, ◌≡◌, refl, ◌⊎◌, arith, ℤ, pos_part, neg_part, ◌+ℤ◌, +ℤ_parts, inl, inr,
  text_beq, text_beq_iff, Bool-cases, one_sign,
}
use service_control_client_c.Status.{ok, out_of_range}
use service_control_client_c.Money.{Money, check_overflow, add_amounts, try_add_money}
use service_control_client_c.Money.Sum.{pos_nanos, neg_nanos, Trace, Trace-IsSum, LosesSign, IsSum}
use service_control_client_c.Money.Overflow.{
  IsAmount, largest, smallest, sum-Trace, check_overflow_passes, check_overflow_above,
  check_overflow_below,
}

-- Facts about the end of the function at the values of a trace.
module _ (a b : Money) (va : IsAmount a) (vb : IsAmount b) (nc u : ℤ) (c r : ℤ × ℤ)
    (t : Trace a.units a.nanos b.units b.nanos nc u c r) where
  Loses : Type 0
  Loses = LosesSign a.units a.nanos b.units b.nanos nc r.0

  stops : (s : Money) → check_overflow a b nc r.0 r.1 ≡ (s, ok) → ¬ Loses
  unfolding Loses
  stops s h (inl l) = cc (check_overflow_above a b nc r.0 r.1 va vb l.0 l.1 l.2)
  stops s h (inr l) = cc (check_overflow_below a b nc r.0 r.1 va vb l.0 l.1 l.2)

  IsSum-of_not_Loses : ¬ Loses → IsSum a.units a.nanos b.units b.nanos r
  unfolding Loses
  IsSum-of_not_Loses n =
      elim (Trace-IsSum _ _ _ _ nc u c r t (va.fraction, va.fits, va.agrees)
        (vb.fraction, vb.fits, vb.agrees)) [ inl e ↦ e | inr l ↦ absurd (n l) ]

  result-IsAmount : IsAmount (record { currency_code = a.currency_code; units = r.0; nanos = r.1 })
  result-IsAmount = record {
    code = va.code;
    fraction = t.aligns.0;
    agrees = t.aligns.1;
    fits = (omega arith, omega arith);
  }

  checked_exact :
      (s : Money)
      → check_overflow a b nc r.0 r.1 ≡ (s, ok)
      → IsAmount s
        × (s.currency_code ≡ a.currency_code)
        × IsSum a.units a.nanos b.units b.nanos (s.units, s.nanos)
  unfolding Loses
  checked_exact s h =
      let passes = check_overflow_passes a b nc r.0 r.1 va vb (stops s h) in
      let e : s ≡ record { currency_code = a.currency_code; units = r.0; nanos = r.1 } = cc in
      rw e (result-IsAmount, refl, IsSum-of_not_Loses (stops s h))

  -- No sum that fits is this large, so a sign is lost.
  above_lost :
      2 ^ 63 * 1_000_000_000 ≤ pos_nanos a.units a.nanos + pos_nanos b.units b.nanos
      → (0 < pos_nanos a.units a.nanos)
      → (0 < pos_nanos b.units b.nanos)
      → IsSum a.units a.nanos b.units b.nanos r ⊎ Loses
      → pos_part r.0 ≡ 0
  unfolding Loses
  above_lost h k l (inl e) =
      let s₁ = one_sign a.units in
      let s₂ = one_sign a.nanos in
      let s₃ = one_sign b.units in let s₄ = one_sign b.nanos in absurd (omega arith)
  above_lost h k l (inr (inl e)) = e.2
  above_lost h k l (inr (inr e)) =
      let s₁ = one_sign a.units in let s₂ = one_sign a.nanos in absurd (omega arith)

  below_lost :
      2 ^ 63 * 1_000_000_000 + 1_000_000_000 ≤ neg_nanos a.units a.nanos + neg_nanos b.units b.nanos
      → (0 < neg_nanos a.units a.nanos)
      → (0 < neg_nanos b.units b.nanos)
      → IsSum a.units a.nanos b.units b.nanos r ⊎ Loses
      → (neg_part r.0 ≡ 0) ⊎ (neg_part nc ≡ 0)
  unfolding Loses
  below_lost h k l (inl e) =
      let s₁ = one_sign a.units in
      let s₂ = one_sign a.nanos in
      let s₃ = one_sign b.units in let s₄ = one_sign b.nanos in absurd (omega arith)
  below_lost h k l (inr (inl e)) =
      let s₁ = one_sign a.units in let s₂ = one_sign a.nanos in absurd (omega arith)
  below_lost h k l (inr (inr e)) = e.2

  checked_overflow :
      (2 ^ 63 * 1_000_000_000 ≤ pos_nanos a.units a.nanos + pos_nanos b.units b.nanos
        → 0 < pos_nanos a.units a.nanos
        → 0 < pos_nanos b.units b.nanos
        → check_overflow a b nc r.0 r.1 ≡ (largest a.currency_code, out_of_range))
      × (2 ^ 63 * 1_000_000_000 + 1_000_000_000
            ≤ neg_nanos a.units a.nanos + neg_nanos b.units b.nanos
          → 0 < neg_nanos a.units a.nanos
          → 0 < neg_nanos b.units b.nanos
          → check_overflow a b nc r.0 r.1 ≡ (smallest a.currency_code, out_of_range))
  unfolding Loses
  checked_overflow =
      let o =
        Trace-IsSum _ _ _ _ nc u c r t (va.fraction, va.fits, va.agrees)
          (vb.fraction, vb.fits, vb.agrees) in
      (
        λ h k l. check_overflow_above a b nc r.0 r.1 va vb k l (above_lost h k l o),
        λ h k l. check_overflow_below a b nc r.0 r.1 va vb k l (below_lost h k l o),
      )

-- Facts about the end of the function for amounts below one unit.
module _ (a b : Money) (va : IsAmount a) (vb : IsAmount b) (nc u : ℤ) (c r : ℤ × ℤ)
    (t : Trace a.units a.nanos b.units b.nanos nc u c r) where
  below_unit :
      pos_nanos a.units a.nanos + pos_nanos b.units b.nanos < 1_000_000_000
      → (0 < pos_nanos a.units a.nanos)
      → (0 < pos_nanos b.units b.nanos)
      → IsSum a.units a.nanos b.units b.nanos r ⊎ LosesSign a.units a.nanos b.units b.nanos nc r.0
      → pos_part r.0 ≡ 0
  below_unit h k l (inl e) =
      let s₁ = one_sign a.units in
      let s₂ = one_sign a.nanos in
      let s₃ = one_sign b.units in let s₄ = one_sign b.nanos in let s₅ = one_sign r.0 in omega arith
  below_unit h k l (inr (inl e)) = e.2
  below_unit h k l (inr (inr e)) =
      let s₁ = one_sign a.units in let s₂ = one_sign a.nanos in absurd (omega arith)

  above_minus_unit :
      neg_nanos a.units a.nanos < 1_000_000_000
      → neg_nanos b.units b.nanos < 1_000_000_000
      → 0 < neg_nanos a.units a.nanos
      → 0 < neg_nanos b.units b.nanos
      → neg_part nc ≡ 0
  above_minus_unit h k i j =
      let p = +ℤ_parts a.units b.units in
      let w = t.units in
      let s₁ = one_sign (a.units +ℤ b.units) in let s₂ = one_sign nc in omega arith

  checked_false_overflow :
      (pos_nanos a.units a.nanos + pos_nanos b.units b.nanos < 1_000_000_000
        → 0 < pos_nanos a.units a.nanos
        → 0 < pos_nanos b.units b.nanos
        → check_overflow a b nc r.0 r.1 ≡ (largest a.currency_code, out_of_range))
      × (neg_nanos a.units a.nanos < 1_000_000_000
          → neg_nanos b.units b.nanos < 1_000_000_000
          → 0 < neg_nanos a.units a.nanos
          → 0 < neg_nanos b.units b.nanos
          → check_overflow a b nc r.0 r.1 ≡ (smallest a.currency_code, out_of_range))
  checked_false_overflow =
      let o =
        Trace-IsSum _ _ _ _ nc u c r t (va.fraction, va.fits, va.agrees)
          (vb.fraction, vb.fits, vb.agrees) in
      (
        λ h k l. check_overflow_above a b nc r.0 r.1 va vb k l (below_unit h k l o),
        λ h g k l. check_overflow_below a b nc r.0 r.1 va vb k l (inr (above_minus_unit h g k l)),
      )

-- An addition of two valid amounts that reports success is exact: the currencies were the same,
-- and the result is a valid amount of that currency that stands for the sum in nanos.
pub try_add_money_exact :
    (a b s : Money)
    → IsAmount a
    → IsAmount b
    → try_add_money a b ≡ (s, ok)
    → IsAmount s
      × (s.currency_code ≡ a.currency_code)
      × (a.currency_code ≡ b.currency_code)
      × IsSum a.units a.nanos b.units b.nanos (s.units, s.nanos)
unfolding try_add_money add_amounts
try_add_money_exact a b s va vb h = elim (Bool-cases (text_beq a.currency_code b.currency_code)) [
  | inl e ↦
      let x = checked_exact a b va vb _ _ _ _ (sum-Trace a b va vb) s (rw e at h) in
      (x.0, x.1, (text_beq_iff _ _).0 e, x.2)
  | inr e ↦ cc (rw e at h)
]

-- Two valid positive amounts of one currency whose sum lies past the largest amount saturate to
-- it, with the status out_of_range.
pub try_add_money_above :
    (a b : Money)
    → IsAmount a
    → IsAmount b
    → a.currency_code ≡ b.currency_code
    → 2 ^ 63 * 1_000_000_000 ≤ pos_nanos a.units a.nanos + pos_nanos b.units b.nanos
    → 0 < pos_nanos a.units a.nanos
    → 0 < pos_nanos b.units b.nanos
    → try_add_money a b ≡ (largest a.currency_code, out_of_range)
unfolding try_add_money add_amounts
try_add_money_above a b va vb e h k l =
    rw ((text_beq_iff a.currency_code b.currency_code).1 e)
      ((checked_overflow a b va vb _ _ _ _ (sum-Trace a b va vb)).0 h k l)

-- Two valid negative amounts of one currency whose sum lies past the smallest amount saturate to
-- it, with the status out_of_range.
try_add_money_below :
    (a b : Money)
    → IsAmount a
    → IsAmount b
    → a.currency_code ≡ b.currency_code
    → 2 ^ 63 * 1_000_000_000 + 1_000_000_000 ≤ neg_nanos a.units a.nanos + neg_nanos b.units b.nanos
    → 0 < neg_nanos a.units a.nanos
    → 0 < neg_nanos b.units b.nanos
    → try_add_money a b ≡ (smallest a.currency_code, out_of_range)
unfolding try_add_money add_amounts
try_add_money_below a b va vb e h k l =
    rw ((text_beq_iff a.currency_code b.currency_code).1 e)
      ((checked_overflow a b va vb _ _ _ _ (sum-Trace a b va vb)).1 h k l)

-- Two valid positive amounts of one currency that sum to less than one unit are reported as an
-- overflow, and saturate to the largest amount, though their sum is an amount.
pub try_add_money_false_above :
    (a b : Money)
    → IsAmount a
    → IsAmount b
    → a.currency_code ≡ b.currency_code
    → pos_nanos a.units a.nanos + pos_nanos b.units b.nanos < 1_000_000_000
    → 0 < pos_nanos a.units a.nanos
    → 0 < pos_nanos b.units b.nanos
    → try_add_money a b ≡ (largest a.currency_code, out_of_range)
unfolding try_add_money add_amounts
try_add_money_false_above a b va vb e h k l =
    rw ((text_beq_iff a.currency_code b.currency_code).1 e)
      ((checked_false_overflow a b va vb _ _ _ _ (sum-Trace a b va vb)).0 h k l)

-- Two valid negative amounts of one currency that are each above minus one unit are reported as
-- an overflow, and saturate to the smallest amount.
pub try_add_money_false_below :
    (a b : Money)
    → IsAmount a
    → IsAmount b
    → a.currency_code ≡ b.currency_code
    → neg_nanos a.units a.nanos < 1_000_000_000
    → neg_nanos b.units b.nanos < 1_000_000_000
    → 0 < neg_nanos a.units a.nanos
    → 0 < neg_nanos b.units b.nanos
    → try_add_money a b ≡ (smallest a.currency_code, out_of_range)
unfolding try_add_money add_amounts
try_add_money_false_below a b va vb e h g k l =
    rw ((text_beq_iff a.currency_code b.currency_code).1 e)
      ((checked_false_overflow a b va vb _ _ _ _ (sum-Trace a b va vb)).1 h g k l)
