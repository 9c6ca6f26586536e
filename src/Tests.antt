-- ===== src/Tests.antt =====
-- Tests of the models on concrete inputs, and what they share.
pub mod MoneySum
pub mod CacheCalls
pub mod Reports
pub mod Checks
pub mod Clients
pub mod Blocking
pub mod Buckets
pub mod Quotas
pub mod QuotaCalls
pub mod Signatures
pub mod Evictions
pub mod Destroyed
use service_control_client_c.Float.{Float}
use service_control_client_c.Prelude.{
  ℕ, ◌+◌, ◌*◌, ◌-◌, Bool, true, false, Option, none, some, List, [], ◌∷◌, leb, ltb, Text, ℤ, pos,
  pos_part,
}
use service_control_client_c.Proto.{
  Importance, low, Operation, MetricValue, MetricValueSet, int64_value, ReportRequest,
}
use service_control_client_c.Operation.{Kinds}

-- Natural numbers in place of doubles, and the text itself in place of its hash.
abbrev pub whole : Float ℕ
whole = record {
  of_int = pos_part;
  add = λ a b. a + b;
  sub = λ a b. a - b;
  mul = λ a b. a * b;
  div = λ a b. a;
  log2 = λ a. a;
  abs = λ a. a;
  lt = ltb;
  le = leb;
  is_nan = λ a. false;
  to_int = pos;
  epsilon = 0;
}

abbrev pub same_text : Text → Text
same_text t = t

abbrev pub no_kinds : Kinds
no_kinds = none

abbrev pub one_value : ℤ → MetricValueSet ℕ
one_value n = record {
  metric_name = 7 ∷ [];
  metric_values =
      record { labels = []; start_time = none; end_time = none; content = int64_value n } ∷ [];
}

abbrev pub an_operation : ℤ → Text → Operation ℕ
an_operation n log = record {
  operation_id = 1 ∷ [];
  operation_name = 2 ∷ [];
  consumer_id = 3 ∷ [];
  start_time = some (record { seconds = n; nanos = pos 0 });
  end_time = some (record { seconds = n; nanos = pos 5 });
  labels = [];
  metric_value_sets = one_value n ∷ [];
  log_entries = log ∷ [];
  importance = low;
}

abbrev pub a_request : ReportRequest ℕ
a_request = record {
  service_name = 9 ∷ [];
  service_config_id = 4 ∷ [];
  operations = an_operation (pos 3) (65 ∷ 66 ∷ []) ∷ an_operation (pos 2) (67 ∷ []) ∷ [];
}
