-- ===== src/Client/Kinds.antt =====
-- The kinds of calls whose aggregators are modelled, as instances of the client's interface, with
-- what src/service_control_client_impl.cc does with a response.
use service_control_client_c.Float.{Float}
use service_control_client_c.Prelude.{ℕ, Option, none, List, [], length, Text, ℤ, if◌then◌else◌}
use service_control_client_c.Status.{Status, ok, is_ok}
use service_control_client_c.Proto.{low, Operation, ReportRequest, CheckRequest, CheckResponse}
use service_control_client_c.Operation.{Kinds, or_default}
use service_control_client_c.Report.{ReportAggregator, report, flush, flush_all}
use service_control_client_c.Check.{
  CheckAggregator, check, cache_response, flush_checks, flush_all_checks,
}
use service_control_client_c.Client.{Aggregates}

-- The operation of a request that has none.
abbrev empty_operation {ℓ} : {D : Type ℓ} → Operation D
empty_operation = record {
  operation_id = [];
  operation_name = [];
  consumer_id = [];
  start_time = none;
  end_time = none;
  labels = [];
  metric_value_sets = [];
  log_entries = [];
  importance = low;
}

module _ {D : Type 0} (fl : Float D) (md5 : Text → Text) (kinds : Kinds)
    (to_cycles : ℤ → Option ℕ) where
  -- The callback of `Check`: a response with the status ok is cached.
  unfoldable pub on_check_response :
      ℕ
      → Status
      → CheckRequest D
      → CheckResponse
      → CheckAggregator fl md5 kinds to_cycles
      → CheckAggregator fl md5 kinds to_cycles × List (CheckRequest D)
  on_check_response now status request response a =
      if is_ok status
      then cache_response fl md5 kinds to_cycles now (or_default empty_operation request.operation)
          response a
      else (a, [])

  abbrev pub check_calls :
      Aggregates (CheckAggregator fl md5 kinds to_cycles) (CheckRequest D) CheckResponse
  check_calls = record {
    handle = check fl md5 kinds to_cycles;
    on_response = on_check_response;
    flush_expired =
        λ now a. let (a', flushed) = flush_checks fl md5 kinds to_cycles now a in (a', ok, flushed);
    flush_everything =
        λ a. let (a', flushed) = flush_all_checks fl md5 kinds to_cycles a in (a', ok, flushed);
    size = λ request. 1;
  }

  -- The response to a report is dropped.
  abbrev pub report_calls :
      Aggregates (ReportAggregator fl md5 kinds to_cycles) (ReportRequest D) Unit
  report_calls = record {
    handle = λ now request a.
        let (a', status, flushed) = report fl md5 kinds to_cycles now request a in
        (a', status, none, flushed);
    on_response = λ now status request response a. (a, []);
    flush_expired = flush fl md5 kinds to_cycles;
    flush_everything = flush_all fl md5 kinds to_cycles;
    size = λ request. length request.operations;
  }
