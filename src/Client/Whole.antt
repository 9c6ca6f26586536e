-- ===== src/Client/Whole.antt =====
-- The client as a whole (ServiceControlClientImpl of src/service_control_client_impl.cc): its
-- constructor and destructor, Flush, FlushAll, the function that the periodic timer calls, and
-- GetStatistics. The timer is the program's environment; what the client does with it is `timer`.
use service_control_client_c.Float.{Float}
use service_control_client_c.Prelude.{
  ℕ, Bool, true, false, ◌&&◌, Option, List, Text, if◌then◌else◌, ℤ, pos, ltb_ℤ, Run, returns,
  undefined, ◌>>=◌,
}
use service_control_client_c.Status.{Status, ok}
use service_control_client_c.Proto.{QuotaRequest, QuotaResponse}
use service_control_client_c.Operation.{Kinds}
use service_control_client_c.Report.{
  ReportAggregator, new_report_aggregator, get_next_flush_interval,
}
use service_control_client_c.Check.{
  CheckAggregator, CheckOptions, new_check_aggregator, next_flush_interval,
}
use service_control_client_c.Quota.{QuotaOptions, new_quota_aggregator}
use service_control_client_c.Quota.Calls.{next_quota_flush}
use service_control_client_c.Client.{
  Service, new_service, flush_service, first_failure, next_interval,
}
use service_control_client_c.Client.Kinds.{check_calls, report_calls}
use service_control_client_c.Client.Quotas.{
  QuotaService, new_quota_service, flush_quotas, flush_all_quotas, on_flush_response,
}

-- `ReportAggregationOptions`, and `ServiceControlClientOptions` without the transports.
pub record ReportOptions : Type 0 where
  pub num_entries : ℤ
  pub flush_interval_ms : ℤ

pub record ClientOptions : Type 0 where
  pub check_options : CheckOptions
  pub quota_options : QuotaOptions
  pub report_options : ReportOptions
  pub has_timer : Bool

-- `flush_timer_`, with the interval that the timer was made with.
pub data FlushTimer : Type 0 where
  absent : FlushTimer
  started : ℤ → FlushTimer
  stopped : FlushTimer

-- `flush_timer_->Stop()`, where there is a timer
unfoldable pub stop : FlushTimer → FlushTimer
stop absent = absent
stop (started interval) = stopped
stop stopped = stopped

-- `Statistics`
pub record Statistics : Type 0 where
  pub total_called_checks : ℕ
  pub send_checks_by_flush : ℕ
  pub send_checks_in_flight : ℕ
  pub total_called_quotas : ℕ
  pub send_quotas_by_flush : ℕ
  pub send_quotas_in_flight : ℕ
  pub total_called_reports : ℕ
  pub send_reports_by_flush : ℕ
  pub send_reports_in_flight : ℕ
  pub send_report_operations : ℕ

module _ {D : Type 0} (fl : Float D) (md5 : Text → Text) (kinds : Kinds)
    (to_cycles : ℤ → Option ℕ) where
  pub record Client : Type 0 where
    pub checks : Service (check_calls fl md5 kinds to_cycles)
    pub quotas : QuotaService fl md5 to_cycles
    pub reports : Service (report_calls fl md5 kinds to_cycles)
    pub timer : FlushTimer
    pub is_alive : Bool

  -- The aggregators that the constructor makes and connects.
  abbrev pub check_aggregator : Text → Text → ClientOptions → CheckAggregator fl md5 kinds to_cycles
  check_aggregator service config o =
      record (new_check_aggregator fl md5 kinds to_cycles service config o.check_options) {
        has_callback = true;
      }

  abbrev pub report_aggregator :
      Text → Text → ClientOptions → ReportAggregator fl md5 kinds to_cycles
  report_aggregator service config o =
      record (new_report_aggregator fl md5 kinds to_cycles service config
        (o.report_options).num_entries (o.report_options).flush_interval_ms) { has_callback = true }

  -- `GetNextFlushInterval`
  unfoldable pub client_interval : Client → ℤ
  client_interval c =
      next_interval (next_flush_interval fl md5 kinds to_cycles (c.checks).aggregator)
        (next_quota_flush fl md5 to_cycles (c.quotas).aggregator)
        (get_next_flush_interval fl md5 kinds to_cycles (c.reports).aggregator)

  -- The constructor.
  unfoldable pub new_client : Text → Text → ClientOptions → Client
  new_client service config o =
      let c : Client = record {
        checks =
            new_service (check_calls fl md5 kinds to_cycles) (check_aggregator service config o);
        quotas =
            new_quota_service fl md5 to_cycles
              (new_quota_aggregator fl md5 to_cycles service config o.quota_options);
        reports =
            new_service (report_calls fl md5 kinds to_cycles) (report_aggregator service config o);
        timer = absent;
        is_alive = true;
      } in
      record c {
        timer =
            if o.has_timer && ltb_ℤ (pos 0) (client_interval c)
            then started (client_interval c)
            else absent;
      }

  -- What `Flush`, `FlushAll` and the timer do with the check and the report aggregator.
  abbrev pub flushed_checks : ℕ → Client → Service (check_calls fl md5 kinds to_cycles) × Status
  flushed_checks now c =
      let ops = check_calls fl md5 kinds to_cycles in
      flush_service ops (ops.flush_expired now (c.checks).aggregator) c.checks

  abbrev pub flushed_reports : ℕ → Client → Service (report_calls fl md5 kinds to_cycles) × Status
  flushed_reports now c =
      let ops = report_calls fl md5 kinds to_cycles in
      flush_service ops (ops.flush_expired now (c.reports).aggregator) c.reports

  abbrev pub emptied_checks : Client → Service (check_calls fl md5 kinds to_cycles) × Status
  emptied_checks c =
      let ops = check_calls fl md5 kinds to_cycles in
      flush_service ops (ops.flush_everything (c.checks).aggregator) c.checks

  abbrev pub emptied_reports : Client → Service (report_calls fl md5 kinds to_cycles) × Status
  emptied_reports c =
      let ops = report_calls fl md5 kinds to_cycles in
      flush_service ops (ops.flush_everything (c.reports).aggregator) c.reports

  -- `Flush`; the quota aggregator's status is always ok.
  unfoldable pub flush_client : ℕ → ℕ → Client → Run (Client × Status)
  flush_client fuel now c =
      let (checks, check_status) = flushed_checks now c in
      let (reports, report_status) = flushed_reports now c in
      flush_quotas fl md5 to_cycles fuel now c.quotas >>= λ quotas. returns (
        record c { checks = checks; quotas = quotas; reports = reports },
        first_failure check_status ok report_status,
      )

  -- `FlushAll`
  unfoldable pub flush_all_client : ℕ → ℕ → Client → Run (Client × Status)
  flush_all_client fuel now c =
      let (checks, check_status) = emptied_checks c in
      let (reports, report_status) = emptied_reports c in
      flush_all_quotas fl md5 to_cycles fuel now c.quotas >>= λ quotas. returns (
        record c { checks = checks; quotas = quotas; reports = reports },
        first_failure check_status ok report_status,
      )

  -- The function that the timer calls; it logs the statuses.
  unfoldable pub on_timer : ℕ → ℕ → Client → Run Client
  on_timer fuel now c =
      let checks = (flushed_checks now c).0 in
      let reports = (flushed_reports now c).0 in
      flush_quotas fl md5 to_cycles fuel now c.quotas >>= λ quotas.
      returns (record c { checks = checks; quotas = quotas; reports = reports })

  -- `SetFlushCallback(NULL)` on each aggregator
  unfoldable pub disconnect : Client → Client
  disconnect c = record c {
    checks = record (c.checks) {
      aggregator = record ((c.checks).aggregator) { has_callback = false };
    };
    quotas = record (c.quotas) {
      aggregator = record ((c.quotas).aggregator) { has_callback = false };
    };
    reports = record (c.reports) {
      aggregator = record ((c.reports).aggregator) { has_callback = false };
    };
  }

  -- The destructor, after which the object is gone; the aggregators live as long as a callback
  -- has a reference to them.
  unfoldable pub destroy : ℕ → ℕ → Client → Run Client
  destroy fuel now c = flush_all_client fuel now c >>= λ r.
      returns (disconnect (record (r.0) { timer = stop (r.0).timer; is_alive = false }))

  -- The lambda of `AllocateQuotaFlushCallback`, which reaches the aggregator through `this`.
  unfoldable pub respond_refill :
      ℕ
      → ℕ
      → Status
      → List (QuotaRequest D)
      → QuotaRequest D
      → List (QuotaRequest D)
      → QuotaResponse
      → Client
      → Run Client
  respond_refill fuel now status before request after response c =
      let run =
        on_flush_response fl md5 to_cycles fuel now status before request after response c.quotas in
      if c.is_alive then (run >>= λ quotas. returns (record c { quotas = quotas })) else undefined

  -- `GetStatistics`
  unfoldable pub get_statistics : Client → Statistics
  get_statistics c = record {
    total_called_checks = (c.checks).total_called;
    send_checks_by_flush = (c.checks).send_by_flush;
    send_checks_in_flight = (c.checks).send_in_flight;
    total_called_quotas = (c.quotas).total_called;
    send_quotas_by_flush = (c.quotas).send_by_flush;
    send_quotas_in_flight = (c.quotas).send_in_flight;
    total_called_reports = (c.reports).total_called;
    send_reports_by_flush = (c.reports).send_by_flush;
    send_reports_in_flight = (c.reports).send_in_flight;
    send_report_operations = (c.reports).send_operations;
  }
