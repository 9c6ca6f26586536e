-- ===== src/Client/Served.antt =====
-- The quota calls of the client (src/service_control_client_impl.cc) return while the aggregator is at
-- rest, and each call is answered once.
use service_control_client_c.Float.{Float}
use service_control_client_c.Prelude.{
  ℕ, suc, ◌+◌, ◌≤◌, ◌≡◌, refl, ap, Bool, true, false, Option, List, [], ◌∷◌, ◌++◌, length,
  length-append, arith, Text, text_eq, ℤ, Bool-cases, inl, inr, returns, ◌>>=◌,
}
use service_control_client_c.Status.{Status, invalid_argument, is_not_found}
use service_control_client_c.Proto.{QuotaRequest, QuotaResponse}
use service_control_client_c.Operation.{or_default}
use service_control_client_c.Quota.{QuotaAggregator}
use service_control_client_c.Quota.Returns.{
  IsAtRest, IsFit, quota-returns, flush_quota-returns, cache_quota_response-returns,
  flush_all_quota-returns,
}
use service_control_client_c.Client.Quotas.{
  empty_quota_operation, QuotaService, quota_flush_callback, finish_call, route, quota_call,
  response_or_open, store_response, on_call_response, on_flush_response, flush_quotas,
  flush_all_quotas,
}

module _ {D : Type 0} (fl : Float D) (md5 : Text → Text) (to_cycles : ℤ → Option ℕ) where
  -- The aggregator is at rest; the calls are those that are answered and those that wait; the
  -- requests that wait were counted as sent.
  pub record IsServed (s : QuotaService fl md5 to_cycles) : Type 0 where
    pub at_rest : IsAtRest fl md5 to_cycles s.aggregator
    pub calls : s.total_called ≡ length s.finished + length s.asked
    pub flights : length s.asked ≤ s.send_in_flight
    pub flushes : length s.refreshed ≤ s.send_by_flush

  flushed-IsServed :
      (items : List (QuotaRequest D)) (a : QuotaAggregator fl md5 to_cycles)
      (s : QuotaService fl md5 to_cycles)
      → IsAtRest fl md5 to_cycles a
      → IsServed s
      → IsServed (quota_flush_callback fl md5 to_cycles items (record s { aggregator = a }))
  unfolding quota_flush_callback
  flushed-IsServed items a s rest h = record {
    at_rest = rest;
    calls = h.calls;
    flights = h.flights;
    flushes = omega (arith, h.flushes, length-append s.refreshed items);
  }

  pub flush_quotas-IsServed :
      (f now : ℕ) (s : QuotaService fl md5 to_cycles)
      → IsServed s
      → (s' : QuotaService fl md5 to_cycles) × (flush_quotas fl md5 to_cycles (suc f) now s
          ≡ returns s')
        × IsServed s'
  unfolding flush_quotas
  flush_quotas-IsServed f now s h =
      let (r, e, rest) = flush_quota-returns fl md5 to_cycles f now s.aggregator h.at_rest in
      (_, rw e refl, flushed-IsServed r.1 r.0 s rest h)

  pub flush_all_quotas-IsServed :
      (f now : ℕ) (s : QuotaService fl md5 to_cycles)
      → IsServed s
      → (s' : QuotaService fl md5 to_cycles) × (flush_all_quotas fl md5 to_cycles (suc f) now s
          ≡ returns s')
        × IsServed s'
  unfolding flush_all_quotas
  flush_all_quotas-IsServed f now s h =
      let (r, e, rest) = flush_all_quota-returns fl md5 to_cycles f now s.aggregator h.at_rest in
      (_, rw e refl, flushed-IsServed r.1 r.0 s rest h)

  -- A call, whatever the aggregator's answer.
  routed-IsServed :
      (status : Status) (request : QuotaRequest D) (s : QuotaService fl md5 to_cycles)
      → IsAtRest fl md5 to_cycles s.aggregator
      → s.total_called ≡ suc (length s.finished + length s.asked)
      → length s.asked ≤ s.send_in_flight
      → length s.refreshed ≤ s.send_by_flush
      → IsServed (route fl md5 to_cycles status request s)
  unfolding route finish_call
  routed-IsServed status request s rest c l g = elim (Bool-cases (is_not_found status)) [
    | inl b ↦ rw b (record {
      at_rest = rest;
      calls = omega (arith, c, length-append s.asked (request ∷ []));
      flights = omega (arith, l, length-append s.asked (request ∷ []));
      flushes = g;
    })
    | inr b ↦ rw b (record {
      at_rest = rest;
      calls = omega (arith, c, length-append s.finished (status ∷ []));
      flights = l;
      flushes = g;
    })
  ]

  pub quota_call-IsServed :
      (f now : ℕ) (has_transport : Bool) (request : QuotaRequest D)
      (s : QuotaService fl md5 to_cycles)
      → IsServed s
      → IsFit fl md5 to_cycles now request s.aggregator
      → (s' : QuotaService fl md5 to_cycles) × (quota_call fl md5 to_cycles
            (suc f)
            now
            has_transport
            request
            s
          ≡ returns s')
        × IsServed s'
  unfolding quota_call quota_flush_callback finish_call
  quota_call-IsServed f now false request s h fit = (
    _,
    refl,
    record {
      at_rest = h.at_rest;
      calls = omega (arith, h.calls, length-append s.finished (invalid_argument ∷ []));
      flights = h.flights;
      flushes = h.flushes;
    },
  )
  quota_call-IsServed f now true request s h fit =
      let (r, e, rest) = quota-returns fl md5 to_cycles f now request s.aggregator h.at_rest fit in
      let s1 : QuotaService fl md5 to_cycles =
        quota_flush_callback fl md5 to_cycles r.3
          (record s { total_called = suc s.total_called; aggregator = r.0 }) in
      (
        route fl md5 to_cycles r.1 request s1,
        rw e refl,
        routed-IsServed r.1 request s1 rest (omega (arith, h.calls)) h.flights
            (omega (arith, h.flushes, length-append s.refreshed r.3)),
      )

  store_response-returns :
      (f now : ℕ) (status : Status) (request : QuotaRequest D) (response : QuotaResponse)
      (s : QuotaService fl md5 to_cycles)
      → IsAtRest fl md5 to_cycles s.aggregator
      → (a : QuotaAggregator fl md5 to_cycles) × (items : List (QuotaRequest D)) × (store_response
            fl md5 to_cycles
            (suc f)
            now
            status
            request
            response
            s
          ≡ returns (quota_flush_callback fl md5 to_cycles items (record s { aggregator = a })))
        × IsAtRest fl md5 to_cycles a
  unfolding store_response
  store_response-returns f now status request response s h =
      let (r, e, rest) =
        cache_quota_response-returns fl md5 to_cycles f now
          (or_default empty_quota_operation request.allocate_operation)
          (response_or_open fl md5 to_cycles status response) s.aggregator h in
      (r.0, r.1, rw e refl, rest)

  pub on_call_response-IsServed :
      (f now : ℕ) (status : Status) (before : List (QuotaRequest D)) (request : QuotaRequest D)
      (after : List (QuotaRequest D)) (response : QuotaResponse) (s : QuotaService fl md5 to_cycles)
      → s.asked ≡ before ++ request ∷ after
      → IsServed s
      → (s' : QuotaService fl md5 to_cycles) × (on_call_response fl md5 to_cycles
            (suc f)
            now
            status
            before
            request
            after
            response
            s
          ≡ returns s')
        × IsServed s'
  unfolding on_call_response finish_call quota_flush_callback
  on_call_response-IsServed f now status before request after response s w h =
      let (a, items, e, rest) =
        store_response-returns f now status request response (record s { asked = before ++ after })
          h.at_rest in
      let l = length-append before (request ∷ after) in
      let l' = length-append before after in
      (
        _,
        ap (λ r. r >>= λ s'. returns (finish_call fl md5 to_cycles status s')) e,
        record {
          at_rest = rest;
          calls =
              omega (arith, h.calls, ap length w, l, l', length-append s.finished (status ∷ []));
          flights = omega (arith, h.flights, ap length w, l, l');
          flushes = omega (arith, h.flushes, length-append s.refreshed items);
        },
      )

  pub on_flush_response-IsServed :
      (f now : ℕ) (status : Status) (before : List (QuotaRequest D)) (request : QuotaRequest D)
      (after : List (QuotaRequest D)) (response : QuotaResponse) (s : QuotaService fl md5 to_cycles)
      → s.refreshed ≡ before ++ request ∷ after
      → IsServed s
      → (s' : QuotaService fl md5 to_cycles) × (on_flush_response fl md5 to_cycles
            (suc f)
            now
            status
            before
            request
            after
            response
            s
          ≡ returns s')
        × IsServed s'
  unfolding on_flush_response quota_flush_callback
  on_flush_response-IsServed f now status before request after response s w h =
      let (a, items, e, rest) =
        store_response-returns f now status request response
          (record s { refreshed = before ++ after }) h.at_rest in
      (
        _,
        e,
        record {
          at_rest = rest;
          calls = h.calls;
          flights = h.flights;
          flushes = omega (
            arith,
            h.flushes,
            ap length w,
            length-append before (request ∷ after),
            length-append before after,
            length-append (before ++ after) items,
          );
        },
      )
