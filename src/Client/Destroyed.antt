-- ===== src/Client/Destroyed.antt =====
-- The client's destructor (src/service_control_client_impl.cc).
use mathlib.Core.Path.{subst}
use service_control_client_c.Float.{Float}
use service_control_client_c.Prelude.{
  ℕ, suc, ◌≡◌, refl, ap, sym, ◌∙◌, true, false, undefined, Option, none, some, List, [], Text,
  text_eq, ℤ, returns, returns-injective,
}
use service_control_client_c.Operation.{Kinds}
use service_control_client_c.Proto.{QuotaRequest, QuotaResponse}
use service_control_client_c.Status.{Status}
use service_control_client_c.Cache.{remove_all}
use service_control_client_c.Check.{
  CheckAggregator, CheckCache, update_cache, flush_all_checks, drained,
}
use service_control_client_c.Report
use service_control_client_c.Report.{ReportAggregator, ReportCache, with_cache, flush_all}
use service_control_client_c.Quota.{QuotaAggregator, QuotaCache}
use service_control_client_c.Quota.Calls.{flush_all_quota, flush_all_quota_in}
use service_control_client_c.Quota.Returns.{IsQuietIn, IsAtRest}
use service_control_client_c.Quota.Flushes.{flush_all_quota-empty}
use service_control_client_c.Client.{flush_service, flush_callback}
use service_control_client_c.Client.Quotas.{
  on_call_response, QuotaService, quota_flush_callback, flush_all_quotas,
}
use service_control_client_c.Client.Served.{IsServed}
use service_control_client_c.Client.Whole.{
  Client, stop, flush_all_client, disconnect, destroy, respond_refill, emptied_checks,
  emptied_reports,
}
use service_control_client_c.Client.Closed.{NoEntries, IsClosed}
use service_control_client_c.Client.Late.{Late, IsSilent, Late-IsClosed, on_call_response-closed}

module _ {D : Type 0} (fl : Float D) (md5 : Text → Text) (kinds : Kinds)
    (to_cycles : ℤ → Option ℕ) where
  update_cache-NoEntries :
      (a : CheckAggregator fl md5 kinds to_cycles) (o : Option (CheckCache fl md5 kinds to_cycles))
      → a.cache ≡ o
      → NoEntries (update_cache fl md5 kinds to_cycles remove_all a o).0.cache
  unfolding update_cache remove_all drained
  update_cache-NoEntries a none m = subst NoEntries (sym m) tt
  update_cache-NoEntries a (some c) m = refl

  with_cache-NoEntries :
      (a : ReportAggregator fl md5 kinds to_cycles)
      (o : Option (ReportCache fl md5 kinds to_cycles))
      → a.cache ≡ o
      → NoEntries (with_cache fl md5 kinds to_cycles remove_all a o).0.cache
  unfolding with_cache remove_all Report.drained
  with_cache-NoEntries a none m = subst NoEntries (sym m) tt
  with_cache-NoEntries a (some c) m = refl

  flush_all_quota-NoEntries :
      (f now : ℕ) (a : QuotaAggregator fl md5 to_cycles) (o : Option (QuotaCache fl md5 to_cycles))
      → a.cache ≡ o
      → IsQuietIn fl md5 to_cycles o
      → (r : QuotaAggregator fl md5 to_cycles × List (QuotaRequest D)) × (flush_all_quota fl md5
            to_cycles
            (suc f)
            now
            a
          ≡ returns r)
        × NoEntries (r.0).cache
  unfolding flush_all_quota flush_all_quota_in
  flush_all_quota-NoEntries f now a none m h = (
    (record a { in_flush_all = true }, []),
    ap (flush_all_quota_in fl md5 to_cycles (suc f) now (record a { in_flush_all = true })) m,
    subst NoEntries (sym m) tt,
  )
  flush_all_quota-NoEntries f now a (some c) m h =
      (_, flush_all_quota-empty fl md5 to_cycles a now f c m h, refl)

  flush_all_quotas-NoEntries :
      (f now : ℕ) (s : QuotaService fl md5 to_cycles)
      → IsAtRest fl md5 to_cycles s.aggregator
      → (r : QuotaService fl md5 to_cycles) × (flush_all_quotas fl md5 to_cycles (suc f) now s
          ≡ returns r)
        × NoEntries (r.aggregator).cache
  unfolding flush_all_quotas quota_flush_callback
  flush_all_quotas-NoEntries f now s h =
      let (r, e, n) = flush_all_quota-NoEntries f now s.aggregator (s.aggregator).cache refl h in
      (quota_flush_callback fl md5 to_cycles r.1 (record s { aggregator = r.0 }), rw e refl, n)

  -- The client that the destructor leaves: every cache is empty, no aggregator has a callback, and
  -- the timer is stopped.
  pub record IsDestroyed (c d : Client fl md5 kinds to_cycles) : Type 0 where
    pub checks_empty : NoEntries ((d.checks).aggregator).cache
    pub quotas_empty : NoEntries ((d.quotas).aggregator).cache
    pub reports_empty : NoEntries ((d.reports).aggregator).cache
    pub timer_stopped : d.timer ≡ stop c.timer
    pub gone : d.is_alive ≡ false
    pub closed : IsClosed fl md5 kinds to_cycles d

  -- In a state whose quota calls are served the destructor returns, with any fuel but 0, and leaves
  -- every cache empty, every flush callback disconnected, and the timer stopped if there is one.
  pub destroy-IsDestroyed :
      (f now : ℕ) (c : Client fl md5 kinds to_cycles)
      → IsServed fl md5 to_cycles c.quotas
      → (d : Client fl md5 kinds to_cycles) × (destroy fl md5 kinds to_cycles (suc f) now c
          ≡ returns d)
        × IsDestroyed c d
  unfolding destroy flush_all_client disconnect flush_service flush_callback flush_all_checks
      flush_all
  destroy-IsDestroyed f now c h =
      let (q, e, n) = flush_all_quotas-NoEntries f now c.quotas h.at_rest in
      let d : Client fl md5 kinds to_cycles = disconnect fl md5 kinds to_cycles (record c {
        checks = (emptied_checks fl md5 kinds to_cycles c).0;
        quotas = q;
        reports = (emptied_reports fl md5 kinds to_cycles c).0;
        timer = stop c.timer;
        is_alive = false;
      }) in
      (
        d,
        rw e refl,
        record {
          checks_empty = update_cache-NoEntries (c.checks).aggregator _ refl;
          quotas_empty = n;
          reports_empty = with_cache-NoEntries (c.reports).aggregator _ refl;
          timer_stopped = refl;
          gone = refl;
          closed = record {
            checks_off = refl;
            quotas_off = refl;
            reports_off = refl;
            quotas_empty = n;
          };
        },
      )

  -- The responses that come to calls after the destructor, in any order, make no flush: from the
  -- state that the destructor leaves, where the quota calls were served, each service has sent as
  -- many requests by flushes after them as before. A late response to a quota call returns with any
  -- fuel; one to a request that a flush of the quota aggregator sent is undefined, since its
  -- callback reads the client that is gone.
  pub destroy-IsSilent :
      (f now fuel later : ℕ) (c d e : Client fl md5 kinds to_cycles) (status : Status)
      (before : List (QuotaRequest D)) (request : QuotaRequest D) (after : List (QuotaRequest D))
      (response : QuotaResponse)
      → IsServed fl md5 to_cycles c.quotas
      → destroy fl md5 kinds to_cycles (suc f) now c ≡ returns d
      → Late fl md5 kinds to_cycles d e
      → IsSilent fl md5 kinds to_cycles d e
        × ((q : QuotaService fl md5 to_cycles) × (on_call_response fl md5 to_cycles fuel later
                status before request after response e.quotas
              ≡ returns q))
        × (respond_refill fl md5 kinds to_cycles fuel later status before request after response e
            ≡ undefined)
  unfolding respond_refill
  destroy-IsSilent f now fuel later c d e status before request after response h r l =
      let (x, t, k) = destroy-IsDestroyed f now c h in
      let p = returns-injective x d (sym t ∙ r) in
      let (s, z) =
        Late-IsClosed fl md5 kinds to_cycles (subst (IsClosed fl md5 kinds to_cycles) p k.closed)
          l in
      let gone : e.is_alive ≡ false = z.same_life ∙ (ap (λ y. y.is_alive) (sym p) ∙ k.gone) in
      (
        z,
        (
          _,
          on_call_response-closed fl md5 kinds to_cycles fuel later status before request after
              response e.quotas s.quotas_empty,
        ),
        rw gone refl,
      )
