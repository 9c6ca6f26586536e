-- ===== src/Tests/Destroyed.antt =====
-- Tests of the client as a whole (src/service_control_client_impl.cc).
use service_control_client_c.Prelude.{
  ℕ, ◌≡◌, refl, arith, true, false, some, [], ◌∷◌, pos, text_eq, returns, undefined,
}
use service_control_client_c.Status.{ok}
use service_control_client_c.Proto.{CheckRequest, CheckResponse}
use service_control_client_c.Check.{
  check_options, new_check_aggregator, check, check_operation, next_flush_interval,
}
use service_control_client_c.Report.{new_report_aggregator, get_next_flush_interval}
use service_control_client_c.Quota.{new_quota_aggregator}
use service_control_client_c.Quota.Calls.{flush_all_quota, flush_all_quota_in, next_quota_flush}
use service_control_client_c.Quota.Returns.{new_quota_aggregator-IsAtRest}
use service_control_client_c.Client.{
  new_service, dispatch, send, flush_callback, flush_service, next_interval, interval_or_max, min_ℤ,
  respond,
}
use service_control_client_c.Client.Kinds.{check_calls}
use service_control_client_c.Client.Quotas.{
  QuotaService, new_quota_service, quota_flush_callback, flush_all_quotas, on_call_response,
}
use service_control_client_c.Client.Served.{IsServed}
use service_control_client_c.Client.Whole.{
  ClientOptions, Client, started, stop, new_client, client_interval, destroy, flush_all_client,
  disconnect, respond_refill, emptied_checks, emptied_reports,
}
use service_control_client_c.Client.Late.{none_yet, check_late, IsSilent}
use service_control_client_c.Client.Destroyed.{IsDestroyed, destroy-IsDestroyed, destroy-IsSilent}
use service_control_client_c.Tests.{whole, same_text, no_kinds, an_operation}
use service_control_client_c.Tests.Quotas.{in_cycles, wanted}

-- No cache for checks and reports, a quota cache of two elements, and a timer.
abbrev options : ClientOptions
options = record {
  check_options = check_options (pos 0) (pos 500) (pos 1000);
  quota_options = record {
    num_entries = pos 2;
    refresh_interval_ms = pos 1;
    expiration_interval_ms = pos 9;
  };
  report_options = record { num_entries = pos 0; flush_interval_ms = pos 1000 };
  has_timer = true;
}

abbrev fresh_client : Client whole same_text no_kinds in_cycles
fresh_client = new_client whole same_text no_kinds in_cycles (9 ∷ []) (4 ∷ []) options

fresh_client-timer : fresh_client.timer ≡ started (pos 1)
unfolding new_client client_interval next_interval interval_or_max min_ℤ next_flush_interval
    next_quota_flush get_next_flush_interval new_service new_quota_service new_quota_aggregator
    new_check_aggregator new_report_aggregator check_options
fresh_client-timer = refl

fresh_client-IsServed : IsServed whole same_text in_cycles fresh_client.quotas
unfolding new_client new_quota_service
fresh_client-IsServed = record {
  at_rest = new_quota_aggregator-IsAtRest whole same_text in_cycles (9 ∷ []) (4 ∷ []) _;
  calls = refl;
  flights = omega arith;
  flushes = omega arith;
}

destroy-IsDestroyed_example :
    (d : Client whole same_text no_kinds in_cycles) × (destroy whole same_text no_kinds in_cycles 1
        20 fresh_client
      ≡ returns d)
    × IsDestroyed whole same_text no_kinds in_cycles fresh_client d
destroy-IsDestroyed_example =
    destroy-IsDestroyed whole same_text no_kinds in_cycles 0 20 fresh_client fresh_client-IsServed

-- A client without caches, with a check that waits for the transport.
abbrev a_check : CheckRequest ℕ
a_check = record {
  service_name = 9 ∷ [];
  service_config_id = 4 ∷ [];
  operation = some (an_operation (pos 1) []);
}

abbrev passed : CheckResponse
passed = record { operation_id = []; check_errors = [] }

abbrev cacheless : Client whole same_text no_kinds in_cycles
cacheless =
    new_client whole same_text no_kinds in_cycles (9 ∷ []) (4 ∷ [])
      (record options { quota_options = record (options.quota_options) { num_entries = pos 0 } })

abbrev checking : Client whole same_text no_kinds in_cycles
checking = record cacheless {
  checks =
      dispatch (check_calls whole same_text no_kinds in_cycles) 5 true a_check cacheless.checks;
}

checking-IsServed : IsServed whole same_text in_cycles checking.quotas
unfolding new_client new_quota_service
checking-IsServed = record {
  at_rest = new_quota_aggregator-IsAtRest whole same_text in_cycles (9 ∷ []) (4 ∷ []) _;
  calls = refl;
  flights = omega arith;
  flushes = omega arith;
}

abbrev gone : Client whole same_text no_kinds in_cycles
gone = disconnect whole same_text no_kinds in_cycles (record checking {
  checks = (emptied_checks whole same_text no_kinds in_cycles checking).0;
  quotas = record (checking.quotas) {
    aggregator = record ((checking.quotas).aggregator) { in_flush_all = true };
  };
  reports = (emptied_reports whole same_text no_kinds in_cycles checking).0;
  timer = stop checking.timer;
  is_alive = false;
})

destroy-checking : destroy whole same_text no_kinds in_cycles 1 20 checking ≡ returns gone
unfolding destroy flush_all_client disconnect new_client new_quota_service flush_all_quotas
    flush_all_quota flush_all_quota_in new_quota_aggregator quota_flush_callback
destroy-checking = refl

gone-waiting : (gone.checks).waiting ≡ a_check ∷ []
unfolding disconnect flush_service flush_callback new_client new_service dispatch send check
    check_operation new_check_aggregator check_options
gone-waiting = refl

abbrev answered : Client whole same_text no_kinds in_cycles
answered = record gone {
  checks =
      respond (check_calls whole same_text no_kinds in_cycles) 30 ok [] a_check [] passed
        gone.checks;
}

destroy-IsSilent_example :
    IsSilent whole same_text no_kinds in_cycles gone answered
    × ((q : QuotaService whole same_text in_cycles) × (on_call_response whole same_text in_cycles 0
            40 ok []
            (wanted 1)
            []
            (record { operation_id = []; allocate_errors = [] })
            answered.quotas
          ≡ returns q))
    × (respond_refill whole same_text no_kinds in_cycles 0 40 ok []
          (wanted 1)
          []
          (record { operation_id = []; allocate_errors = [] })
          answered
        ≡ undefined)
destroy-IsSilent_example =
    destroy-IsSilent whole same_text no_kinds in_cycles 0 20 0 40 checking gone answered ok []
      (wanted 1) [] (record { operation_id = []; allocate_errors = [] }) checking-IsServed
      destroy-checking (check_late 30 ok [] a_check [] passed none_yet gone-waiting)
