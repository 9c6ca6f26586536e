-- ===== src/Client/Late.antt =====
-- The responses of the transport that come after the client's destructor
-- (src/service_control_client_impl.cc).
use mathlib.Core.Path.{subst}
use service_control_client_c.Float.{Float}
use service_control_client_c.Prelude.{
  ℕ, ◌≡◌, refl, ap, sym, ◌∙◌, Option, List, [], ◌∷◌, ◌++◌, arith, length, Text, text_eq, ℤ, returns,
  returns-injective, ◌>>=◌,
}
use service_control_client_c.Status.{Status}
use service_control_client_c.Proto.{
  CheckRequest, CheckResponse, QuotaRequest, QuotaResponse, ReportRequest,
}
use service_control_client_c.Operation.{Kinds}
use service_control_client_c.Quota.Calls.{cache_quota_response}
use service_control_client_c.Client.{respond, flush_callback, finish}
use service_control_client_c.Client.Kinds.{check_calls, report_calls}
use service_control_client_c.Client.Quotas.{
  QuotaService, quota_flush_callback, finish_call, store_response, on_call_response,
}
use service_control_client_c.Client.Whole.{Client}
use service_control_client_c.Client.Closed.{
  NoEntries, IsClosed, check_response-closed, cached_quota-closed,
}

module _ {D : Type 0} (fl : Float D) (md5 : Text → Text) (kinds : Kinds)
    (to_cycles : ℤ → Option ℕ) where
  -- The responses that come to calls after the destructor, in any order.
  pub data Late (c : Client fl md5 kinds to_cycles) : Client fl md5 kinds to_cycles → Type 0 where
    none_yet : Late c c
    check_late :
        {d : Client fl md5 kinds to_cycles} (now : ℕ) (status : Status)
        (before : List (CheckRequest D)) (request : CheckRequest D) (after : List (CheckRequest D))
        (response : CheckResponse)
        → Late c d
        → (d.checks).waiting ≡ before ++ request ∷ after
        → Late c (record d {
          checks =
              respond
                (check_calls fl md5 kinds to_cycles)
                now
                status
                before
                request
                after
                response
                d.checks;
        })
    report_late :
        {d : Client fl md5 kinds to_cycles} (now : ℕ) (status : Status)
        (before : List (ReportRequest D)) (request : ReportRequest D)
        (after : List (ReportRequest D))
        → Late c d
        → (d.reports).waiting ≡ before ++ request ∷ after
        → Late c (record d {
          reports =
              respond
                (report_calls fl md5 kinds to_cycles)
                now
                status
                before
                request
                after
                tt
                d.reports;
        })
    quota_late :
        {d : Client fl md5 kinds to_cycles} {q : QuotaService fl md5 to_cycles} (fuel now : ℕ)
        (status : Status) (before : List (QuotaRequest D)) (request : QuotaRequest D)
        (after : List (QuotaRequest D)) (response : QuotaResponse)
        → Late c d
        → (d.quotas).asked ≡ before ++ request ∷ after
        → on_call_response fl md5 to_cycles fuel now status before request after response d.quotas
          ≡ returns q
        → Late c (record d { quotas = q })

  -- The flush callbacks were not called between the two states.
  pub record IsSilent (c d : Client fl md5 kinds to_cycles) : Type 0 where
    pub no_checks : (d.checks).send_by_flush ≡ (c.checks).send_by_flush
    pub no_quotas : (d.quotas).send_by_flush ≡ (c.quotas).send_by_flush
    pub no_reports : (d.reports).send_by_flush ≡ (c.reports).send_by_flush
    pub same_life : d.is_alive ≡ c.is_alive

  -- What a late response leaves of the service of the quota calls.
  abbrev after_call :
      Status → List (QuotaRequest D) → QuotaService fl md5 to_cycles → QuotaService fl md5 to_cycles
  after_call status waiting q =
      finish_call fl md5 to_cycles status
        (quota_flush_callback fl md5 to_cycles [] (record q { asked = waiting }))

  pub on_call_response-closed :
      (fuel now : ℕ) (status : Status) (before : List (QuotaRequest D)) (request : QuotaRequest D)
      (after : List (QuotaRequest D)) (response : QuotaResponse) (q : QuotaService fl md5 to_cycles)
      → NoEntries (q.aggregator).cache
      → on_call_response fl md5 to_cycles fuel now status before request after response q
        ≡ returns (after_call status (before ++ after) q)
  unfolding on_call_response store_response cache_quota_response
  on_call_response-closed fuel now status before request after response q e =
      ap
        (λ x.
          (x >>= λ r. returns (
            quota_flush_callback fl md5 to_cycles r.1
              (record q { asked = before ++ after; aggregator = r.0 })))
          >>= λ s. returns (finish_call fl md5 to_cycles status s))
        (cached_quota-closed fl md5 kinds to_cycles fuel now _ _ q.aggregator (q.aggregator).cache
          refl e)

  -- The quota calls after a late response.
  with_quotas :
      (c d : Client fl md5 kinds to_cycles) (q x : QuotaService fl md5 to_cycles)
      → returns x ≡ returns q
      → x.aggregator ≡ (d.quotas).aggregator
      → x.send_by_flush ≡ (d.quotas).send_by_flush
      → IsClosed fl md5 kinds to_cycles d × IsSilent c d
      → IsClosed fl md5 kinds to_cycles (record d { quotas = q })
        × IsSilent c (record d { quotas = q })
  with_quotas c d q x e a n (h, s) =
      let p = sym (returns-injective x q e) in
      let b = ap (λ z. z.aggregator) p ∙ a in
      (
        record {
          checks_off = h.checks_off;
          quotas_off = ap (λ z. z.has_callback) b ∙ h.quotas_off;
          reports_off = h.reports_off;
          quotas_empty = subst (λ z. NoEntries z.cache) (sym b) h.quotas_empty;
        },
        record {
          no_checks = s.no_checks;
          no_quotas = ap (λ z. z.send_by_flush) p ∙ (n ∙ s.no_quotas);
          no_reports = s.no_reports;
          same_life = s.same_life;
        },
      )

  pub Late-IsClosed :
      {c d : Client fl md5 kinds to_cycles}
      → IsClosed fl md5 kinds to_cycles c
      → Late c d
      → IsClosed fl md5 kinds to_cycles d × IsSilent c d
  unfolding respond finish flush_callback quota_flush_callback finish_call
  Late-IsClosed h none_yet =
      (h, record { no_checks = refl; no_quotas = refl; no_reports = refl; same_life = refl })
  Late-IsClosed {c} h (check_late {d} now status before request after response l w) =
      let (k, s) = Late-IsClosed h l in
      let (n, off) =
        check_response-closed fl md5 kinds to_cycles now status request response
          (d.checks).aggregator k.checks_off in
      (
        record {
          checks_off = off;
          quotas_off = k.quotas_off;
          reports_off = k.reports_off;
          quotas_empty = k.quotas_empty;
        },
        record {
          no_checks = omega (arith, s.no_checks, ap length n);
          no_quotas = s.no_quotas;
          no_reports = s.no_reports;
          same_life = s.same_life;
        },
      )
  Late-IsClosed h (report_late now status before request after l w) =
      let (k, s) = Late-IsClosed h l in
      (
        record {
          checks_off = k.checks_off;
          quotas_off = k.quotas_off;
          reports_off = k.reports_off;
          quotas_empty = k.quotas_empty;
        },
        record {
          no_checks = s.no_checks;
          no_quotas = s.no_quotas;
          no_reports = omega (arith, s.no_reports);
          same_life = s.same_life;
        },
      )
  Late-IsClosed {c} h (quota_late {d} {q} fuel now status before request after response l w e) =
      let r = Late-IsClosed h l in
      with_quotas c d q (after_call status (before ++ after) d.quotas)
        (sym (
            on_call_response-closed fuel now status before request after response d.quotas
              (r.0).quotas_empty)
          ∙ e)
        refl (omega arith) r
