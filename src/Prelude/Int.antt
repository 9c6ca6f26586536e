-- ===== src/Prelude/Int.antt =====
-- Signed integers over the native numbers, and the two's complement wrap of machine integers.
use Prim.Native.Nat.{ℕ, suc, ◌+◌, ◌-◌, ◌%◌, ◌^◌, ◌≤◌, ◌<◌}
use mathlib.Core.Path.{◌≡◌, ap}
use mathlib.Core.Logic.{◌⊎◌, inl, inr}
use mathlib.Core.Bool.{Bool}
use native.Mathlib.Omega.{arith}
use service_control_client_c.Prelude.Tests.{ltb, leb, nat_beq, if◌then◌else◌}

-- `negsuc n` is -(n + 1).
pub data ℤ : Type 0 where
  pos : ℕ → ℤ
  negsuc : ℕ → ℤ

abbrev pub pos_part : ℤ → ℕ
pos_part (pos n) = n
pos_part (negsuc n) = 0

abbrev pub neg_part : ℤ → ℕ
neg_part (pos n) = 0
neg_part (negsuc n) = suc n

-- a - b, as an integer.
abbrev pub sub_ℕ : ℕ → ℕ → ℤ
sub_ℕ a b = if leb b a then pos (a - b) else negsuc (b - a - 1)

infixl 65 ◌+ℤ◌ ◌-ℤ◌
infix 50 ◌≤ℤ◌ ◌<ℤ◌
unfoldable pub ◌+ℤ◌ : ℤ → ℤ → ℤ
a +ℤ b = sub_ℕ (pos_part a + pos_part b) (neg_part a + neg_part b)

unfoldable pub ◌-ℤ◌ : ℤ → ℤ → ℤ
a -ℤ b = sub_ℕ (pos_part a + neg_part b) (neg_part a + pos_part b)

abbrev pub ◌≤ℤ◌ : ℤ → ℤ → Type 0
a ≤ℤ b = pos_part a + neg_part b ≤ pos_part b + neg_part a

abbrev pub ◌<ℤ◌ : ℤ → ℤ → Type 0
a <ℤ b = pos_part a + neg_part b < pos_part b + neg_part a

abbrev pub ltb_ℤ : ℤ → ℤ → Bool
ltb_ℤ a b = ltb (pos_part a + neg_part b) (pos_part b + neg_part a)

abbrev pub leb_ℤ : ℤ → ℤ → Bool
leb_ℤ a b = leb (pos_part a + neg_part b) (pos_part b + neg_part a)

abbrev pub eqb_ℤ : ℤ → ℤ → Bool
eqb_ℤ a b = nat_beq (pos_part a + neg_part b) (pos_part b + neg_part a)

pub +ℤ_parts :
    (a b : ℤ)
    → pos_part (a +ℤ b) + neg_part a + neg_part b ≡ neg_part (a +ℤ b) + pos_part a + pos_part b
unfolding ◌+ℤ◌
+ℤ_parts a b = ground arith

pub -ℤ_parts :
    (a b : ℤ)
    → pos_part (a -ℤ b) + neg_part a + pos_part b ≡ neg_part (a -ℤ b) + pos_part a + neg_part b
unfolding ◌-ℤ◌
-ℤ_parts a b = ground arith

pub eq_of_parts : (a b : ℤ) → pos_part a + neg_part b ≡ pos_part b + neg_part a → a ≡ b
eq_of_parts a b h = ground arith

-- An integer has one sign.
pub one_sign : (z : ℤ) → (pos_part z ≡ 0) ⊎ (neg_part z ≡ 0)
one_sign z = ground arith

pub ruleset int_laws = (arith, +ℤ_parts, -ℤ_parts, eq_of_parts)

-- The value of a w-bit two's complement register into which `z` is stored; `half` is 2 ^ (w - 1).
-- The residue of `z` modulo `half + half`, read as a signed number.
abbrev pub residue : ℕ → ℤ → ℕ
residue m (pos n) = n % m
residue m (negsuc n) = m - 1 - n % m

abbrev pub signed : ℕ → ℕ → ℤ
signed half r = if ltb r half then pos r else negsuc (half + half - 1 - r)

unfoldable pub int32 : ℤ → ℤ
int32 z = signed (2 ^ 31) (residue (2 ^ 32) z)

unfoldable pub int64 : ℤ → ℤ
int64 z = signed (2 ^ 63) (residue (2 ^ 64) z)

abbrev pub IsInt32 : ℤ → Type 0
IsInt32 z = (negsuc (2 ^ 31 - 1) ≤ℤ z) × (z ≤ℤ pos (2 ^ 31 - 1))

abbrev pub IsInt64 : ℤ → Type 0
IsInt64 z = (negsuc (2 ^ 63 - 1) ≤ℤ z) × (z ≤ℤ pos (2 ^ 63 - 1))

pub int32_id : (z : ℤ) → IsInt32 z → int32 z ≡ z
unfolding int32
int32_id z h = ground arith

pub int64_id : (z : ℤ) → IsInt64 z → int64 z ≡ z
unfolding int64
int64_id z h = ground arith

pub int64_above :
    (z : ℤ)
    → pos (2 ^ 63) ≤ℤ z
    → z <ℤ pos (2 ^ 64)
    → pos_part z + neg_part (int64 z) ≡ pos_part (int64 z) + 2 ^ 64
unfolding int64
int64_above z h k = ground arith

pub int64_below :
    (z : ℤ)
    → z <ℤ negsuc (2 ^ 63 - 1)
    → negsuc (2 ^ 64 - 1) ≤ℤ z
    → neg_part z + pos_part (int64 z) ≡ neg_part (int64 z) + 2 ^ 64
unfolding int64
int64_below z h k = ground arith

in_range : (z : ℤ) → IsInt64 z ⊎ (pos (2 ^ 63) ≤ℤ z) ⊎ (z <ℤ negsuc (2 ^ 63 - 1))
in_range z = ground arith

pub int64-IsInt64 : (z : ℤ) → IsInt64 (int64 z)
unfolding int64
int64-IsInt64 z = ground arith

-- `w` is `z`, or `z` wrapped once past one of the two ends.
abbrev pub WrapsTo : ℤ → ℤ → Type 0
WrapsTo z w =
    (IsInt64 z × (pos_part w ≡ pos_part z) × (neg_part w ≡ neg_part z))
    ⊎ ((pos (2 ^ 63) ≤ℤ z) × (pos_part z + neg_part w ≡ pos_part w + 2 ^ 64))
    ⊎ ((z <ℤ negsuc (2 ^ 63 - 1)) × (neg_part z + pos_part w ≡ neg_part w + 2 ^ 64))

pub int64-WrapsTo : (z : ℤ) → negsuc (2 ^ 64 - 1) ≤ℤ z → z <ℤ pos (2 ^ 64) → WrapsTo z (int64 z)
int64-WrapsTo z h k = elim (in_range z) [
  | inl i ↦ inl (i, ap pos_part (int64_id z i), ap neg_part (int64_id z i))
  | inr (inl a) ↦ inr (inl (a, int64_above z a k))
  | inr (inr b) ↦ inr (inr (b, int64_below z b h))
]
