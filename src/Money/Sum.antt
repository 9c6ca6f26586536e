-- ===== src/Money/Sum.antt =====
-- What a sum of two valid amounts is (TryAddMoney of src/money_utils.cc).
use service_control_client_c.Prelude.{
  ℕ, ◌+◌, ◌*◌, ◌≤◌, ◌<◌, ◌≡◌, +ℤ_parts, WrapsTo, ◌⊎◌, arith, inl, inr, one_sign, ℤ, pos, negsuc,
  pos_part, neg_part, ◌+ℤ◌, ◌-ℤ◌, int32, int64, +ℤ_parts, IsInt64,
}
use service_control_client_c.Money.{carry_nanos, align_signs}

-- The two parts of an amount in nanos, of which its value is the difference.
abbrev pub pos_nanos : ℤ → ℤ → ℕ
pos_nanos u n = pos_part u * 1_000_000_000 + pos_part n

abbrev pub neg_nanos : ℤ → ℤ → ℕ
neg_nanos u n = neg_part u * 1_000_000_000 + neg_part n

-- nanos strictly between -10^9 and 10^9
abbrev pub IsFraction : ℤ → Type 0
IsFraction n = (pos_part n < 1_000_000_000) × (neg_part n < 1_000_000_000)

abbrev pub Agrees : ℤ → ℤ → Type 0
Agrees u n = ((pos_part u ≡ 0) ⊎ (neg_part n ≡ 0)) × ((neg_part u ≡ 0) ⊎ (pos_part n ≡ 0))

-- What `r` must be as the carry and the rest of `x + y` nanos.
abbrev pub Carries : ℤ → ℤ → ℤ × ℤ → Type 0
Carries x y r =
    IsFraction r.1
    × (pos_nanos r.0 r.1 + neg_part x + neg_part y ≡ neg_nanos r.0 r.1 + pos_part x + pos_part y)
    × Agrees r.0 r.1
    × (pos_part r.0 ≤ 1)
    × (neg_part r.0 ≤ 1)

pub carry_nanos-Carries :
    (x y : ℤ) → IsFraction x → IsFraction y → Carries x y (carry_nanos (int32 (x +ℤ y)))
unfolding carry_nanos int32 ◌+ℤ◌ ◌-ℤ◌
carry_nanos-Carries x y hx hy = ground arith

-- `r` is the amount of `u` units and `n` nanos again, with signs that agree.
abbrev pub Aligns : ℤ → ℤ → ℤ × ℤ → Type 0
Aligns u n r =
    IsFraction r.1
    × Agrees r.0 r.1
    × (pos_nanos r.0 r.1 + neg_nanos u n ≡ neg_nanos r.0 r.1 + pos_nanos u n)
    × (pos_part r.0 ≤ pos_part u)
    × (neg_part r.0 ≤ neg_part u)

pub align_signs-Aligns : (u n : ℤ) → IsInt64 u → IsFraction n → Aligns u n (align_signs u n)
unfolding align_signs int32 int64 ◌+ℤ◌ ◌-ℤ◌
align_signs-Aligns (pos x) (pos y) hu hn = ground arith
align_signs-Aligns (pos x) (negsuc y) hu hn = ground arith
align_signs-Aligns (negsuc x) (pos y) hu hn = ground arith
align_signs-Aligns (negsuc x) (negsuc y) hu hn = ground arith

-- The function's intermediate values: the carry and rest `c` of the nanos, the sum `nc` of the
-- units, `u` with the carry, and `r` with the signs made to agree.
pub record Trace (au an bu bn nc u : ℤ) (c r : ℤ × ℤ) : Type 0 where
  pub carries : Carries an bn c
  pub units : WrapsTo (au +ℤ bu) nc
  pub carried : WrapsTo (nc +ℤ c.0) u
  pub fits : IsInt64 u
  pub aligns : Aligns u c.1 r

-- The result stands for the sum of the two amounts.
abbrev pub IsSum : ℤ → ℤ → ℤ → ℤ → ℤ × ℤ → Type 0
IsSum au an bu bn r =
    pos_nanos r.0 r.1 + neg_nanos au an + neg_nanos bu bn
    ≡ neg_nanos r.0 r.1 + pos_nanos au an + pos_nanos bu bn

-- Both amounts have one sign, and the units of the result do not.
abbrev pub LosesSign : ℤ → ℤ → ℤ → ℤ → ℤ → ℤ → Type 0
LosesSign au an bu bn nc u =
    ((0 < pos_nanos au an) × (0 < pos_nanos bu bn) × (pos_part u ≡ 0))
    ⊎ ((0 < neg_nanos au an) × (0 < neg_nanos bu bn) × ((neg_part u ≡ 0) ⊎ (neg_part nc ≡ 0)))

-- The sum is exact unless a sign is lost.
pub Trace-IsSum :
    (au an bu bn nc u : ℤ) (c r : ℤ × ℤ)
    → Trace au an bu bn nc u c r
    → IsFraction an × IsInt64 au × Agrees au an
    → IsFraction bn × IsInt64 bu × Agrees bu bn
    → IsSum au an bu bn r ⊎ LosesSign au an bu bn nc r.0
Trace-IsSum au an bu bn nc u c r t ha hb =
    let p = +ℤ_parts au bu in
    let q = +ℤ_parts nc c.0 in
    let g₁ = one_sign an in
    let g₂ = one_sign bn in
    let s₁ = one_sign au in
    let s₂ = one_sign bu in
    let s₃ = one_sign (au +ℤ bu) in
    let s₄ = one_sign nc in
    let s₅ = one_sign c.0 in
    let s₆ = one_sign (nc +ℤ c.0) in
    let s₇ = one_sign u in
    let s₈ = one_sign r.0 in
    elim t.units [
      | inl a ↦ elim t.carried [
        | inl x ↦ inl (omega arith)
        | inr (inl y) ↦ inr (inl (omega arith))
        | inr (inr y) ↦ inr (inr (omega arith))
      ]
      | inr (inl b) ↦ inr (inl (omega arith))
      | inr (inr b) ↦ inr (inr (omega arith))
    ]
