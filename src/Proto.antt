-- ===== src/Proto.antt =====
-- The messages of the service control API (protobuf types that the build generates), as far as
-- the library reads and writes them. A log entry is its serialised bytes.
use service_control_client_c.Prelude.{ℕ, Bool, Option, List, ℤ, Text}
use service_control_client_c.Money.{Money}
use service_control_client_c.Distribution.{Distribution}

pub record Timestamp : Type 0 where
  pub seconds : ℤ
  pub nanos : ℤ

-- `MetricDescriptor::MetricKind`
pub data MetricKind : Type 0 where
  unspecified gauge delta cumulative : MetricKind

-- The oneof `value`; its constructor is what `value_case` tells.
pub data MetricData {ℓ} (D : Type ℓ) : Type ℓ where
  unset : MetricData D
  bool_value : Bool → MetricData D
  int64_value : ℤ → MetricData D
  double_value : D → MetricData D
  string_value : Text → MetricData D
  money_value : Money → MetricData D
  distribution_value : Distribution D → MetricData D

pub record MetricValue {ℓ} (D : Type ℓ) : Type ℓ where
  pub labels : List (Text × Text)
  pub start_time : Option Timestamp
  pub end_time : Option Timestamp
  pub content : MetricData D

pub record MetricValueSet {ℓ} (D : Type ℓ) : Type ℓ where
  pub metric_name : Text
  pub metric_values : List (MetricValue D)

pub data Importance : Type 0 where
  low high : Importance

pub record Operation {ℓ} (D : Type ℓ) : Type ℓ where
  pub operation_id : Text
  pub operation_name : Text
  pub consumer_id : Text
  pub start_time : Option Timestamp
  pub end_time : Option Timestamp
  pub labels : List (Text × Text)
  pub metric_value_sets : List (MetricValueSet D)
  pub log_entries : List Text
  pub importance : Importance

pub record ReportRequest {ℓ} (D : Type ℓ) : Type ℓ where
  pub service_name : Text
  pub service_config_id : Text
  pub operations : List (Operation D)

-- `has_operation` is whether the operation is there.
pub record CheckRequest {ℓ} (D : Type ℓ) : Type ℓ where
  pub service_name : Text
  pub service_config_id : Text
  pub operation : Option (Operation D)

-- The number of errors is all that the library reads of a response.
pub record CheckResponse : Type 0 where
  pub operation_id : Text
  pub check_errors : List Text

-- `QuotaOperation_QuotaMode`: the mode that is set, and the number of any other.
pub data QuotaMode : Type 0 where
  check_only : QuotaMode
  other_mode : ℕ → QuotaMode

-- The message `QuotaOperation`, as far as it is read.
pub record QuotaOperation {ℓ} (D : Type ℓ) : Type ℓ where
  pub method_name : Text
  pub consumer_id : Text
  pub quota_mode : QuotaMode
  pub quota_metrics : List (MetricValueSet D)

-- `AllocateQuotaRequest` and `AllocateQuotaResponse`
pub record QuotaRequest {ℓ} (D : Type ℓ) : Type ℓ where
  pub service_name : Text
  pub service_config_id : Text
  pub allocate_operation : Option (QuotaOperation D)

pub record QuotaResponse : Type 0 where
  pub operation_id : Text
  pub allocate_errors : List Text
