-- ===== src/Tests/Reports.antt =====
-- Tests of src/report_aggregator_impl.cc and src/operation_aggregator.cc.
use service_control_client_c.Prelude.{
  ℕ, ◌≡◌, refl, ◌++◌, true, Option, none, some, [], ◌∷◌, ℤ, pos, pos_part, length,
}
use service_control_client_c.Proto.{Operation}
use service_control_client_c.Operation.{Aggregator, new_aggregator, merge_operation}
use service_control_client_c.Operation.Views.{view}
use service_control_client_c.Operation.Merged.{declared, met, IsMerged, merge_operation-IsMerged}
use service_control_client_c.Operation.Windows.{IsEarliest, IsLatest, merge_operation_window}
use service_control_client_c.Report.{
  ReportAggregator, new_report_aggregator, has_high_important_operation, report_cached, report,
  flush, flush_all,
}
use service_control_client_c.Report.Conserve.{
  Accounts, pending, request_weight, report_conserves, flush_conserves,
}
use service_control_client_c.Tests.{whole, same_text, no_kinds, an_operation, a_request}

abbrev in_cycles : ℤ → Option ℕ
in_cycles ms = some (pos_part ms)

abbrev idle : ReportAggregator whole same_text no_kinds in_cycles
idle =
    record (new_report_aggregator whole same_text no_kinds in_cycles (9 ∷ []) (4 ∷ []) (pos 5)
      (pos 100)) { has_callback = true }

abbrev after : ReportAggregator whole same_text no_kinds in_cycles
after = (report whole same_text no_kinds in_cycles 10 a_request idle).0

after-has_callback : after.has_callback ≡ true
unfolding report new_report_aggregator has_high_important_operation report_cached
after-has_callback = refl

report_conserves_example :
    Accounts whole same_text no_kinds in_cycles length idle
      (pending whole same_text no_kinds in_cycles length idle)
      (request_weight whole same_text no_kinds in_cycles length a_request)
      (report whole same_text no_kinds in_cycles 10 a_request idle)
report_conserves_example =
    report_conserves whole same_text no_kinds in_cycles length 10 a_request idle refl

flush_conserves_example :
    Accounts whole same_text no_kinds in_cycles length after
      (pending whole same_text no_kinds in_cycles length after)
      0
      (flush whole same_text no_kinds in_cycles 200 after)
    × Accounts whole same_text no_kinds in_cycles length after
        (pending whole same_text no_kinds in_cycles length after)
        0
        (flush_all whole same_text no_kinds in_cycles after)
flush_conserves_example =
    flush_conserves whole same_text no_kinds in_cycles length 200 after (after-has_callback)

abbrev first : Aggregator whole
first = new_aggregator whole same_text no_kinds (an_operation (pos 3) (65 ∷ []))

abbrev second : Operation ℕ
second = an_operation (pos 2) (66 ∷ [])

merge_operation-IsMerged_example :
    IsMerged whole
      (declared no_kinds (7 ∷ []))
      (met whole same_text no_kinds (7 ∷ []) [] second.metric_value_sets)
      (view whole same_text no_kinds (7 ∷ []) [] first.metric_value_sets)
      (view whole same_text no_kinds
        (7 ∷ [])
        []
        (merge_operation whole same_text no_kinds second first).metric_value_sets)
    × (((merge_operation whole same_text no_kinds second first).operation).log_entries
        ≡ (first.operation).log_entries ++ second.log_entries)
    × IsMerged whole
        (declared no_kinds (7 ∷ []))
        (met whole same_text no_kinds (7 ∷ []) [] second.metric_value_sets)
        none
        (view whole same_text no_kinds
          (7 ∷ [])
          []
          (new_aggregator whole same_text no_kinds second).metric_value_sets)
    × (((new_aggregator whole same_text no_kinds second).operation).log_entries
        ≡ second.log_entries)
merge_operation-IsMerged_example =
    merge_operation-IsMerged whole same_text no_kinds (7 ∷ []) [] second first

merge_operation_window_example :
    IsEarliest second.start_time
      (first.operation).start_time
      ((merge_operation whole same_text no_kinds second first).operation).start_time
    × IsLatest second.end_time
        (first.operation).end_time
        ((merge_operation whole same_text no_kinds second first).operation).end_time
merge_operation_window_example = merge_operation_window whole same_text no_kinds second first
