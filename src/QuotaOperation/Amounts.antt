-- ===== src/QuotaOperation/Amounts.antt =====
-- The amounts of an aggregated quota operation (src/quota_operation_aggregator.cc), seen as a map
-- from a metric's name to one value.
use service_control_client_c.Prelude.{
  Option, some, List, [], ◌∷◌, Text, text_beq, text_beq_iff, ◌≡◌, refl, ◌∙◌, ap, Bool-cases, inl,
  inr, if◌then◌else◌, All,
}
use service_control_client_c.Float.{Float}
use service_control_client_c.Proto.{MetricValue, MetricValueSet}
use service_control_client_c.Operation.{find_value, put_value}
use service_control_client_c.Operation.Views.{find-put_value}
use service_control_client_c.QuotaOperation.{merged_amount, merge_amounts}

module _ {ℓ} {D : Type ℓ} (fl : Float D) where
  -- The metric has a value, as the source expects.
  abbrev pub HasValue : MetricValueSet D → Type ℓ
  HasValue s = (v : MetricValue D) × (vs : List (MetricValue D)) × (s.metric_values ≡ v ∷ vs)

  -- The first values of the metrics of one name, met in order.
  unfoldable pub amount_after :
      Text → List (MetricValueSet D) → Option (MetricValue D) → Option (MetricValue D)
  amount_after n [] old = old
  amount_after n (s ∷ sets) old = elim s.metric_values [
    | [] ↦ amount_after n sets old
    | v ∷ _ ↦
        amount_after n sets
          (if text_beq s.metric_name n then some (merged_amount fl v old) else old)
  ]

  one_amount :
      (n k : Text) (v : MetricValue D) (m : List (Text × MetricValue D))
      → find_value n (put_value k (merged_amount fl v (find_value k m)) m)
        ≡ (if text_beq k n then some (merged_amount fl v (find_value n m)) else find_value n m)
  one_amount n k v m = find-put_value n k _ m ∙ elim (Bool-cases (text_beq k n)) [
    | inl e ↦ rw e (ap (λ j. some (merged_amount fl v (find_value j m))) ((text_beq_iff k n).0 e))
    | inr e ↦ rw e
  ]

  pub find-merge_amounts :
      (n : Text) (sets : List (MetricValueSet D)) (m : List (Text × MetricValue D))
      → All HasValue sets
      → (m' : List (Text × MetricValue D)) × (merge_amounts fl sets m ≡ some m')
        × (find_value n m' ≡ amount_after n sets (find_value n m))
  unfolding merge_amounts amount_after
  find-merge_amounts n [] m h = (m, refl, refl)
  find-merge_amounts n (s ∷ sets) m h =
      let (v, vs, e) = h.0 in
      let (m', r, f) =
        find-merge_amounts n sets
          (put_value s.metric_name (merged_amount fl v (find_value s.metric_name m)) m) h.1 in
      (m', rw e r, rw e (f ∙ ap (amount_after n sets) (one_amount n s.metric_name v m)))
