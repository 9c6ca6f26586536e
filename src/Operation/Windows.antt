-- ===== src/Operation/Windows.antt =====
-- The time window of a merged operation (MergeOperation and MergeDeltaMetricValue of
-- src/operation_aggregator.cc), and the sums of int64 metrics.
use service_control_client_c.Float.{Float}
use service_control_client_c.Prelude.{
  true, false, Option, none, some, Text, ◌≡◌, refl, arith, Bool-cases, inl, inr, ◌⊎◌, ℤ, pos,
  negsuc, ◌+ℤ◌, int64,
}
use service_control_client_c.Proto.{Timestamp, Operation}
use service_control_client_c.Operation.{
  timestamp_before, merge_start, merge_end, Kinds, Aggregator, merge_operation,
}

-- A time that is set is not before `u`, or not after it.
abbrev pub NotBefore : Option Timestamp → Timestamp → Type 0
NotBefore none u = Unit
NotBefore (some x) u = timestamp_before x u ≡ false

abbrev pub NotAfter : Option Timestamp → Timestamp → Type 0
NotAfter none u = Unit
NotAfter (some x) u = timestamp_before u x ≡ false

-- The result is one of the two times, and neither is before it; it is none only if both are.
abbrev pub IsEarliest : Option Timestamp → Option Timestamp → Option Timestamp → Type 0
IsEarliest a b none = (a ≡ none) × (b ≡ none)
IsEarliest a b (some u) = ((a ≡ some u) ⊎ (b ≡ some u)) × NotBefore a u × NotBefore b u

abbrev pub IsLatest : Option Timestamp → Option Timestamp → Option Timestamp → Type 0
IsLatest a b none = (a ≡ none) × (b ≡ none)
IsLatest a b (some u) = ((a ≡ some u) ⊎ (b ≡ some u)) × NotAfter a u × NotAfter b u

before_irrefl : (t : Timestamp) → timestamp_before t t ≡ false
unfolding timestamp_before
before_irrefl t = ground arith

before_asymm : (s t : Timestamp) → timestamp_before s t ≡ true → timestamp_before t s ≡ false
unfolding timestamp_before
before_asymm s t h = ground arith

pub start-IsEarliest : (f t : Option Timestamp) → IsEarliest f t (merge_start f t)
unfolding merge_start
start-IsEarliest none none = (refl, refl)
start-IsEarliest none (some t) = (inr refl, tt, before_irrefl t)
start-IsEarliest (some f) none = (inl refl, before_irrefl f, tt)
start-IsEarliest (some f) (some t) = elim (Bool-cases (timestamp_before f t)) [
  | inl e ↦ rw e (inl refl, before_irrefl f, before_asymm f t e)
  | inr e ↦ rw e (inr refl, e, before_irrefl t)
]

pub end-IsLatest : (f t : Option Timestamp) → IsLatest f t (merge_end f t)
unfolding merge_end
end-IsLatest none none = (refl, refl)
end-IsLatest none (some t) = (inr refl, tt, before_irrefl t)
end-IsLatest (some f) none = (inl refl, before_irrefl f, tt)
end-IsLatest (some f) (some t) = elim (Bool-cases (timestamp_before t f)) [
  | inl e ↦ rw e (inl refl, before_irrefl f, before_asymm t f e)
  | inr e ↦ rw e (inr refl, e, before_irrefl t)
]

module _ {ℓ} {D : Type ℓ} (fl : Float D) (md5 : Text → Text) (kinds : Kinds) where
  -- The window of a merged operation starts at the earliest start and ends at the latest end that
  -- the aggregated operation and the new one have, and is open only where neither has one.
  pub merge_operation_window :
      (op : Operation D) (a : Aggregator fl)
      → let r = (merge_operation fl md5 kinds op a).operation in
        IsEarliest op.start_time (a.operation).start_time r.start_time
        × IsLatest op.end_time (a.operation).end_time r.end_time
  unfolding merge_operation
  merge_operation_window op a = (
    start-IsEarliest op.start_time (a.operation).start_time,
    end-IsLatest op.end_time (a.operation).end_time,
  )

pub int64_add : (x y : ℤ) → int64 (int64 x +ℤ y) ≡ int64 (x +ℤ y)
unfolding int64 ◌+ℤ◌
int64_add (pos x) (pos y) = ground arith
int64_add (pos x) (negsuc y) = ground arith
int64_add (negsuc x) (pos y) = ground arith
int64_add (negsuc x) (negsuc y) = ground arith
