-- ===== src/Tests/Clients.antt =====
-- Tests of src/service_control_client_impl.cc and src/quota_operation_aggregator.cc.
use service_control_client_c.Prelude.{ℕ, ◌≡◌, ◌+ℤ◌, refl, true, none, some, [], ◌∷◌, pos}
use service_control_client_c.Proto.{ReportRequest, other_mode, QuotaOperation}
use service_control_client_c.Operation.{find_value}
use service_control_client_c.QuotaOperation.{
  QuotaAggregate, merge_quota_operation, new_quota_aggregate,
}
use service_control_client_c.QuotaOperation.Totals.{Counts, total_of, merge_quota_operation-Counts}
use service_control_client_c.Client.{Aggregates, Service, new_service, dispatch}
use service_control_client_c.Client.Calls.{start, next, call_step, IsBalanced, Reach-IsBalanced}
use service_control_client_c.Client.Kinds.{report_calls}
use service_control_client_c.Report.{ReportAggregator, new_report_aggregator}
use service_control_client_c.Tests.{whole, same_text, no_kinds, one_value, a_request}

-- The report calls of a client without a cache.
abbrev pub calls :
    Aggregates (ReportAggregator whole same_text no_kinds (λ ms. none)) (ReportRequest ℕ) Unit
calls = report_calls whole same_text no_kinds (λ ms. none)

abbrev pub uncached : ReportAggregator whole same_text no_kinds (λ ms. none)
uncached =
    new_report_aggregator whole same_text no_kinds (λ ms. none) (9 ∷ []) (4 ∷ []) (pos 0) (pos 100)

abbrev pub asking : Service calls
asking = dispatch calls 1 true a_request (new_service calls uncached)

Reach-IsBalanced_example : IsBalanced calls asking
Reach-IsBalanced_example = Reach-IsBalanced calls (next start (call_step 1 true a_request _))

abbrev a_quota : QuotaOperation ℕ
a_quota = record {
  method_name = 1 ∷ [];
  consumer_id = 2 ∷ [];
  quota_mode = other_mode 1;
  quota_metrics = one_value (pos 5) ∷ one_value (pos 6) ∷ [];
}

abbrev no_amounts : QuotaAggregate whole
no_amounts = record { operation = a_quota; amounts = [] }

no_amounts-Counts : Counts whole (find_value (7 ∷ []) no_amounts.amounts) (pos 0)
unfolding find_value
no_amounts-Counts = refl

merge_quota_operation-Counts_example :
    ((r : QuotaAggregate whole) × (merge_quota_operation whole a_quota no_amounts ≡ some r)
      × (r.operation ≡ a_quota)
      × Counts whole
          (find_value (7 ∷ []) r.amounts)
          (pos 0 +ℤ total_of whole (7 ∷ []) a_quota.quota_metrics))
    × ((r₀ : QuotaAggregate whole) × (new_quota_aggregate whole a_quota ≡ some r₀)
        × (r₀.operation ≡ a_quota)
        × Counts whole
            (find_value (7 ∷ []) r₀.amounts)
            (total_of whole (7 ∷ []) a_quota.quota_metrics))
merge_quota_operation-Counts_example =
    merge_quota_operation-Counts whole (7 ∷ []) (pos 0) a_quota no_amounts
      (
        record { value = _; count = pos 5; single = refl; is_int64 = refl },
        (record { value = _; count = pos 6; single = refl; is_int64 = refl }, tt),
      )
      no_amounts-Counts
