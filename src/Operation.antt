-- ===== src/Operation.antt =====
-- OperationAggregator (src/operation_aggregator.cc): one operation that other operations with the
-- same signature are merged into. The two nested hash maps are association lists.
pub mod Views
pub mod Windows
pub mod Merged
use service_control_client_c.Float.{Float}
use service_control_client_c.Prelude.{
  ℕ, Bool, true, false, not, ◌&&◌, ◌||◌, Option, none, some, List, [], ◌∷◌, ◌++◌, map, length, leb,
  Text, text_beq, ℤ, pos, ◌+ℤ◌, ltb_ℤ, eqb_ℤ, int64, if◌then◌else◌,
}
use service_control_client_c.Distribution
use service_control_client_c.Proto.{
  Timestamp, MetricKind, delta, MetricData, unset, bool_value, int64_value, double_value,
  string_value, money_value, distribution_value, MetricValue, MetricValueSet, Operation,
}
use service_control_client_c.Signature.{metric_value_bytes}

abbrev pub max_log_entries : ℕ
max_log_entries = 100

-- `TimestampBefore`
unfoldable pub timestamp_before : Timestamp → Timestamp → Bool
timestamp_before a b =
    ltb_ℤ a.seconds b.seconds || eqb_ℤ a.seconds b.seconds && ltb_ℤ a.nanos b.nanos

-- What the getter of a timestamp that is not set returns.
abbrev pub time_or_zero : Option Timestamp → Timestamp
time_or_zero none = record { seconds = pos 0; nanos = pos 0 }
time_or_zero (some t) = t

-- The earlier start and the later end, where `from` has one.
unfoldable pub merge_start : Option Timestamp → Option Timestamp → Option Timestamp
merge_start none to = to
merge_start (some f) none = some f
merge_start (some f) (some t) = if timestamp_before f t then some f else some t

unfoldable pub merge_end : Option Timestamp → Option Timestamp → Option Timestamp
merge_end none to = to
merge_end (some f) none = some f
merge_end (some f) (some t) = if timestamp_before t f then some f else some t

-- `FindOrNull` and `operator[]` of the maps
unfoldable pub find_value {ℓ} : {A : Type ℓ} → Text → List (Text × A) → Option A
find_value k [] = none
find_value k ((j, a) ∷ m) = if text_beq j k then some a else find_value k m

unfoldable pub put_value {ℓ} : {A : Type ℓ} → Text → A → List (Text × A) → List (Text × A)
put_value k a [] = (k, a) ∷ []
put_value k a ((j, b) ∷ m) = if text_beq j k then (j, a) ∷ m else (j, b) ∷ put_value k a m

abbrev pub or_default {ℓ} : {A : Type ℓ} → A → Option A → A
or_default d none = d
or_default d (some a) = a

-- `metric_kinds_`, which may be null; the default kind is DELTA.
abbrev pub Kinds : Type 0
Kinds = Option (List (Text × MetricKind))

unfoldable pub kind_of : Kinds → Text → MetricKind
kind_of none name = delta
kind_of (some kinds) name = or_default delta (find_value name kinds)

abbrev pub is_delta : MetricKind → Bool
is_delta delta = true
is_delta _ = false

module _ {ℓ} {D : Type ℓ} (fl : Float D) where
  -- `to->value_case() != from.value_case()`, negated
  unfoldable pub same_case : MetricData D → MetricData D → Bool
  same_case unset unset = true
  same_case (bool_value _) (bool_value _) = true
  same_case (int64_value _) (int64_value _) = true
  same_case (double_value _) (double_value _) = true
  same_case (string_value _) (string_value _) = true
  same_case (money_value _) (money_value _) = true
  same_case (distribution_value _) (distribution_value _) = true
  same_case _ _ = false

  -- The switch of `MergeDeltaMetricValue`; the status of a distribution's merge is dropped.
  unfoldable pub merge_content : MetricData D → MetricData D → MetricData D
  merge_content (int64_value f) (int64_value t) = int64_value (int64 (t +ℤ f))
  merge_content (double_value f) (double_value t) = double_value (fl.add t f)
  merge_content (distribution_value f) (distribution_value t) =
      distribution_value (Distribution.merge fl f t).1
  merge_content _ to = to

  -- `MergeDeltaMetricValue`
  unfoldable pub merge_delta_metric_value : MetricValue D → MetricValue D → MetricValue D
  merge_delta_metric_value from to =
      if same_case to.content from.content
      then record to {
        start_time = merge_start from.start_time to.start_time;
        end_time = merge_end from.end_time to.end_time;
        content = merge_content from.content to.content;
      }
      else to

  -- `MergeCumulativeOrGaugeMetricValue`
  unfoldable pub merge_cumulative_or_gauge_metric_value :
      MetricValue D → MetricValue D → MetricValue D
  merge_cumulative_or_gauge_metric_value from to =
      if timestamp_before (time_or_zero from.end_time) (time_or_zero to.end_time) then to else from

  -- `MergeMetricValue`
  unfoldable pub merge_metric_value : MetricKind → MetricValue D → MetricValue D → MetricValue D
  merge_metric_value kind from to =
      if is_delta kind
      then merge_delta_metric_value from to
      else merge_cumulative_or_gauge_metric_value from to

  -- The state: `operation_` and `metric_value_sets_`.
  pub record Aggregator : Type ℓ where
    pub operation : Operation D
    pub metric_value_sets : List (Text × List (Text × MetricValue D))

  -- `md5` is the hash of the signatures; `kinds` is `metric_kinds_`.
  module _ (md5 : Text → Text) (kinds : Kinds) where
    -- `GenerateReportMetricValueSignature`
    abbrev pub value_signature : MetricValue D → Text
    value_signature v = md5 (metric_value_bytes v)

    -- The inner loop of `MergeMetricValueSets`.
    unfoldable pub merge_values :
        MetricKind
        → List (MetricValue D)
        → List (Text × MetricValue D)
        → List (Text × MetricValue D)
    merge_values kind [] m = m
    merge_values kind (v ∷ vs) m =
        let merged : MetricValue D = elim (find_value (value_signature v) m) [
          | none ↦ v
          | some existing ↦ merge_metric_value kind v existing
        ] in
        merge_values kind vs (put_value (value_signature v) merged m)

    -- `MergeMetricValueSets`, on the map
    unfoldable pub merge_metric_value_sets :
        List (MetricValueSet D)
        → List (Text × List (Text × MetricValue D))
        → List (Text × List (Text × MetricValue D))
    merge_metric_value_sets [] m = m
    merge_metric_value_sets (s ∷ sets) m = merge_metric_value_sets sets (
        put_value s.metric_name
          (merge_values (kind_of kinds s.metric_name) s.metric_values
            (or_default [] (find_value s.metric_name m)))
          m)

    -- The constructor.
    unfoldable pub new_aggregator : Operation D → Aggregator
    new_aggregator op = record {
      operation = record op { metric_value_sets = [] };
      metric_value_sets = merge_metric_value_sets op.metric_value_sets [];
    }

    -- `MergeOperation`
    unfoldable pub merge_operation : Operation D → Aggregator → Aggregator
    merge_operation op a = record {
      operation = record (a.operation) {
        start_time = merge_start op.start_time (a.operation).start_time;
        end_time = merge_end op.end_time (a.operation).end_time;
        log_entries = (a.operation).log_entries ++ op.log_entries;
      };
      metric_value_sets = merge_metric_value_sets op.metric_value_sets a.metric_value_sets;
    }

  -- `TooBig`
  unfoldable pub too_big : Aggregator → Bool
  too_big a = leb max_log_entries (length (a.operation).log_entries)

  -- One set of `ToOperationProto`.
  abbrev pub to_set : Text × List (Text × MetricValue D) → MetricValueSet D
  to_set e = record { metric_name = e.0; metric_values = map (λ v. v.1) e.1 }

  -- `ToOperationProto`; `operation_` has no sets of its own.
  unfoldable pub to_operation_proto : Aggregator → Operation D
  to_operation_proto a = record (a.operation) {
    metric_value_sets = (a.operation).metric_value_sets ++ map to_set a.metric_value_sets;
  }
