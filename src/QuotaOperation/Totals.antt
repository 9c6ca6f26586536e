-- ===== src/QuotaOperation/Totals.antt =====
-- The amounts of quota operations add up (src/quota_operation_aggregator.cc).
use mathlib.Core.Path.{subst}
use service_control_client_c.Float.{Float}
use service_control_client_c.Prelude.{
  Option, none, some, List, [], ◌∷◌, Text, text_beq, ◌≡◌, refl, ap, sym, ◌∙◌, ℤ, pos, ◌+ℤ◌, int64,
  int64_id, int64-IsInt64, Bool-cases, inl, inr, true, if◌then◌else◌, All, arith,
}
use service_control_client_c.Proto.{
  MetricData, int64_value, MetricValue, MetricValueSet, QuotaOperation,
}
use service_control_client_c.Operation.{find_value, same_case}
use service_control_client_c.Operation.Windows.{int64_add}
use service_control_client_c.QuotaOperation.{
  QuotaAggregate, merged_amount, merge_quota_value, merge_quota_content, merge_quota_operation,
  new_quota_aggregate,
}
use service_control_client_c.QuotaOperation.Amounts.{HasValue, amount_after, find-merge_amounts}

+ℤ_assoc : (a b c : ℤ) → (a +ℤ b) +ℤ c ≡ a +ℤ (b +ℤ c)
unfolding ◌+ℤ◌
+ℤ_assoc a b c = ground arith

zero_+ℤ : (a : ℤ) → pos 0 +ℤ a ≡ a
unfolding ◌+ℤ◌
zero_+ℤ a = ground arith

+ℤ_zero : (a : ℤ) → a +ℤ pos 0 ≡ a
unfolding ◌+ℤ◌
+ℤ_zero a = ground arith

module _ {D : Type 0} (fl : Float D) where
  -- The metric has one value, as the source asserts, and that is an int64.
  pub record IsCount (s : MetricValueSet D) : Type 0 where
    pub value : MetricValue D
    pub count : ℤ
    pub single : s.metric_values ≡ value ∷ []
    pub is_int64 : value.content ≡ int64_value count

  -- The sum of the values of the metrics of one name.
  abbrev pub amount : MetricData D → ℤ
  amount (int64_value n) = n
  amount _ = pos 0

  abbrev pub sum_of : List (MetricValue D) → ℤ
  sum_of [] = pos 0
  sum_of (v ∷ vs) = amount v.content +ℤ sum_of vs

  abbrev pub total_of : Text → List (MetricValueSet D) → ℤ
  total_of n [] = pos 0
  total_of n (s ∷ sets) =
      (if text_beq s.metric_name n then sum_of s.metric_values else pos 0) +ℤ total_of n sets

  -- The amount is an int64 that is `z`, up to wrapping around; no amount stands for 0.
  abbrev pub Counts : Option (MetricValue D) → ℤ → Type 0
  Counts none z = z ≡ pos 0
  Counts (some v) z = (t : ℤ) × (v.content ≡ int64_value t) × (int64 t ≡ int64 z)

  int64_wrap : (t c z : ℤ) → int64 t ≡ int64 z → int64 (int64 (t +ℤ c)) ≡ int64 (z +ℤ c)
  int64_wrap t c z h =
      int64_id (int64 (t +ℤ c)) (int64-IsInt64 (t +ℤ c))
      ∙ (sym (int64_add t c) ∙ (ap (λ i. int64 (i +ℤ c)) h ∙ int64_add z c))

  merged-Counts :
      (v : MetricValue D) (c : ℤ) (o : Option (MetricValue D)) (z : ℤ)
      → v.content ≡ int64_value c
      → Counts o z
      → Counts (some (merged_amount fl v o)) (z +ℤ c)
  unfolding merge_quota_value merge_quota_content same_case
  merged-Counts v c none z e h = (c, e, ap int64 (sym (ap (λ i. i +ℤ c) h ∙ zero_+ℤ c)))
  merged-Counts v c (some x) z e (t, q, h) = (int64 (t +ℤ c), rw (q, e) refl, int64_wrap t c z h)

  total_here :
      (n : Text) (s : MetricValueSet D) (sets : List (MetricValueSet D)) (i : IsCount s)
      → text_beq s.metric_name n ≡ true
      → total_of n (s ∷ sets) ≡ i.count +ℤ total_of n sets
  total_here n s sets i b =
      ap (λ w. w +ℤ total_of n sets) (rw (b, i.single, i.is_int64) (+ℤ_zero i.count))

  amount_after-Counts :
      (n : Text) (sets : List (MetricValueSet D)) (o : Option (MetricValue D)) (z : ℤ)
      → All IsCount sets
      → Counts o z
      → Counts (amount_after fl n sets o) (z +ℤ total_of n sets)
  unfolding amount_after
  amount_after-Counts n [] o z h k = subst (Counts o) (sym (+ℤ_zero z)) k
  amount_after-Counts n (s ∷ sets) o z h k =
      let i = h.0 in
      elim (Bool-cases (text_beq s.metric_name n)) [
        | inl b ↦
            subst (λ w. Counts (amount_after fl n (s ∷ sets) o) (z +ℤ w))
              (sym (total_here n s sets i b))
              (rw (amount_after, i.single, b)
                (subst (Counts (amount_after fl n sets (some (merged_amount fl i.value o))))
                  (+ℤ_assoc z i.count (total_of n sets))
                  (amount_after-Counts n sets _ (z +ℤ i.count) h.1
                    (merged-Counts i.value i.count o z i.is_int64 k))))
        | inr b ↦ rw (i.single, b, zero_+ℤ (total_of n sets)) (amount_after-Counts n sets o z h.1 k)
      ]

  counts-HaveValues : (sets : List (MetricValueSet D)) → All IsCount sets → All (HasValue fl) sets
  counts-HaveValues [] h = tt
  counts-HaveValues (s ∷ sets) h = ((h.0.value, [], h.0.single), counts-HaveValues sets h.1)

  -- Where each metric of an operation has one value, an int64, as the source expects, merging the
  -- operation succeeds and keeps the aggregated one, and the amount of a metric is afterwards an
  -- int64, the amount before plus the operation's values of that metric, up to wrapping around; a
  -- new aggregate of the operation holds it, and the sum of its values.
  pub merge_quota_operation-Counts :
      (n : Text) (z : ℤ) (op : QuotaOperation D) (a : QuotaAggregate fl)
      → All IsCount op.quota_metrics
      → Counts (find_value n a.amounts) z
      → ((r : QuotaAggregate fl) × (merge_quota_operation fl op a ≡ some r)
          × (r.operation ≡ a.operation)
          × Counts (find_value n r.amounts) (z +ℤ total_of n op.quota_metrics))
        × ((r₀ : QuotaAggregate fl) × (new_quota_aggregate fl op ≡ some r₀)
            × (r₀.operation ≡ op)
            × Counts (find_value n r₀.amounts) (total_of n op.quota_metrics))
  unfolding merge_quota_operation new_quota_aggregate find_value
  merge_quota_operation-Counts n z op a h k =
      let v = counts-HaveValues op.quota_metrics h in
      let (m, e, q) = find-merge_amounts fl n op.quota_metrics a.amounts v in
      let (m₀, e₀, q₀) = find-merge_amounts fl n op.quota_metrics [] v in
      (
        (
          record { operation = a.operation; amounts = m },
          rw e refl,
          refl,
          rw q (amount_after-Counts n op.quota_metrics (find_value n a.amounts) z h k),
        ),
        (
          record { operation = op; amounts = m₀ },
          rw e₀ refl,
          refl,
          rw q₀ (
              subst (Counts _) (zero_+ℤ (total_of n op.quota_metrics))
                (amount_after-Counts n op.quota_metrics none (pos 0) h refl)),
        ),
      )
