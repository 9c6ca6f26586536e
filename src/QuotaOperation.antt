-- ===== src/QuotaOperation.antt =====
-- QuotaOperationAggregator (src/quota_operation_aggregator.cc): quota operations of one signature
-- are merged metric by metric. The read of the first value of a metric that has none is undefined
-- in the source: the result none.
pub mod Amounts
pub mod Totals
use service_control_client_c.Prelude.{
  Bool, true, false, Option, none, some, List, [], ◌∷◌, map, Text, ℤ, ◌+ℤ◌, int64, if◌then◌else◌,
}
use service_control_client_c.Float.{Float}
use service_control_client_c.Proto.{
  MetricData, int64_value, MetricValue, MetricValueSet, QuotaOperation,
}
use service_control_client_c.Operation.{same_case, merge_start, merge_end, find_value, put_value}

module _ {ℓ} {D : Type ℓ} (fl : Float D) where
  -- The switch of `MergeDeltaMetricValue`: only int64 values are added.
  unfoldable pub merge_quota_content : MetricData D → MetricData D → MetricData D
  merge_quota_content (int64_value f) (int64_value t) = int64_value (int64 (t +ℤ f))
  merge_quota_content _ to = to

  -- `MergeDeltaMetricValue`
  unfoldable pub merge_quota_value : MetricValue D → MetricValue D → MetricValue D
  merge_quota_value from to =
      if same_case fl to.content from.content
      then record to {
        start_time = merge_start from.start_time to.start_time;
        end_time = merge_end from.end_time to.end_time;
        content = merge_quota_content from.content to.content;
      }
      else to

  -- The state: `operation_` and `metric_value_sets_`.
  pub record QuotaAggregate : Type ℓ where
    pub operation : QuotaOperation D
    pub amounts : List (Text × MetricValue D)

  -- What the map gets for the value `v` of a metric.
  abbrev pub merged_amount : MetricValue D → Option (MetricValue D) → MetricValue D
  merged_amount v none = v
  merged_amount v (some found) = merge_quota_value v found

  -- The loop of `MergeOperation`
  unfoldable pub merge_amounts :
      List (MetricValueSet D) → List (Text × MetricValue D) → Option (List (Text × MetricValue D))
  merge_amounts [] m = some m
  merge_amounts (s ∷ sets) m = elim s.metric_values [
    | [] ↦ none
    | v ∷ _ ↦
        merge_amounts sets
          (put_value s.metric_name (merged_amount v (find_value s.metric_name m)) m)
  ]

  abbrev pub with_amounts :
      QuotaOperation D → Option (List (Text × MetricValue D)) → Option QuotaAggregate
  with_amounts op none = none
  with_amounts op (some m) = some (record { operation = op; amounts = m })

  -- `MergeOperation`
  unfoldable pub merge_quota_operation : QuotaOperation D → QuotaAggregate → Option QuotaAggregate
  merge_quota_operation op a = with_amounts a.operation (merge_amounts op.quota_metrics a.amounts)

  -- The constructor.
  unfoldable pub new_quota_aggregate : QuotaOperation D → Option QuotaAggregate
  new_quota_aggregate op = with_amounts op (merge_amounts op.quota_metrics [])

  -- `ToOperationProto`
  unfoldable pub to_quota_operation : QuotaAggregate → QuotaOperation D
  to_quota_operation a = record (a.operation) {
    quota_metrics = map (λ e. record { metric_name = e.0; metric_values = e.1 ∷ [] }) a.amounts;
  }
