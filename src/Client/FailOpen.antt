-- ===== src/Client/FailOpen.antt =====
-- The quota calls of the client (src/service_control_client_impl.cc) in any order, and a failed call
-- of the transport, which leaves the quota open.
use mathlib.Core.Path.{subst}
use service_control_client_c.Float.{Float}
use service_control_client_c.Prelude.{
  ℕ, suc, ◌≡◌, refl, ap, sym, ◌∙◌, Bool, true, false, Option, some, List, [], ◌∷◌, ◌++◌, arith,
  Text, text_eq, ==_refl, ℤ, Run, returns, returns-injective, ◌>>=◌,
}
use service_control_client_c.Status.{Status, is_ok}
use service_control_client_c.Proto.{QuotaOperation, QuotaRequest, QuotaResponse}
use service_control_client_c.Cache.{find}
use service_control_client_c.Cache.Table.{find-key, find-replace}
use service_control_client_c.Quota.{
  QuotaCache, QuotaAggregator, QuotaOptions, new_quota_aggregator, is_positive, set_quota_response,
}
use service_control_client_c.Quota.Calls.{quota_signature, finish_quota}
use service_control_client_c.Quota.Expiry.{QuotaEntry}
use service_control_client_c.Quota.Quiet.{IsQuiet, rested, refreshes}
use service_control_client_c.Quota.Answers.{stored}
use service_control_client_c.Quota.Flushes.{with_response, cache_quota_response-found}
use service_control_client_c.Quota.Returns.{IsFit, new_quota_aggregator-IsAtRest}
use service_control_client_c.Client.Quotas.{
  QuotaService, new_quota_service, quota_flush_callback, quota_call, response_or_open,
  store_response, on_call_response, on_flush_response, flush_quotas, flush_all_quotas,
}
use service_control_client_c.Client.Served.{
  IsServed, flush_quotas-IsServed, flush_all_quotas-IsServed, quota_call-IsServed,
  on_call_response-IsServed, on_flush_response-IsServed,
}

module _ {D : Type 0} (fl : Float D) (md5 : Text → Text) (to_cycles : ℤ → Option ℕ) where
  -- Calls, responses of the transport to requests that wait, and flushes; every call finds room.
  pub data Served : QuotaService fl md5 to_cycles → Type 0 where
    created :
        (service config : Text) (options : QuotaOptions)
        → Served (
            new_quota_service fl md5 to_cycles
              (new_quota_aggregator fl md5 to_cycles service config options))
    called :
        {s s' : QuotaService fl md5 to_cycles} (f now : ℕ) (has_transport : Bool)
        (request : QuotaRequest D)
        → Served s
        → IsFit fl md5 to_cycles now request s.aggregator
        → quota_call fl md5 to_cycles (suc f) now has_transport request s ≡ returns s'
        → Served s'
    answered :
        {s s' : QuotaService fl md5 to_cycles} (f now : ℕ) (status : Status)
        (before : List (QuotaRequest D)) (request : QuotaRequest D) (after : List (QuotaRequest D))
        (response : QuotaResponse)
        → Served s
        → s.asked ≡ before ++ request ∷ after
        → on_call_response fl md5 to_cycles (suc f) now status before request after response s
          ≡ returns s'
        → Served s'
    refilled :
        {s s' : QuotaService fl md5 to_cycles} (f now : ℕ) (status : Status)
        (before : List (QuotaRequest D)) (request : QuotaRequest D) (after : List (QuotaRequest D))
        (response : QuotaResponse)
        → Served s
        → s.refreshed ≡ before ++ request ∷ after
        → on_flush_response fl md5 to_cycles (suc f) now status before request after response s
          ≡ returns s'
        → Served s'
    flushed :
        {s s' : QuotaService fl md5 to_cycles} (f now : ℕ)
        → Served s
        → flush_quotas fl md5 to_cycles (suc f) now s ≡ returns s'
        → Served s'
    emptied :
        {s s' : QuotaService fl md5 to_cycles} (f now : ℕ)
        → Served s
        → flush_all_quotas fl md5 to_cycles (suc f) now s ≡ returns s'
        → Served s'

  of_run :
      (x : Run (QuotaService fl md5 to_cycles)) (s : QuotaService fl md5 to_cycles)
      → x ≡ returns s
      → (s' : QuotaService fl md5 to_cycles) × (x ≡ returns s') × IsServed fl md5 to_cycles s'
      → IsServed fl md5 to_cycles s
  of_run x s h (s', e, p) = subst (IsServed fl md5 to_cycles) (returns-injective s' s (sym e ∙ h)) p

  -- However quota calls, responses and flushes are interleaved, while every call finds room, the
  -- aggregator is at rest, the calls counted are those whose done callback has run once and those
  -- that wait, and the requests that wait were counted as sent in flight or by a flush.
  pub Served-IsServed : (s : QuotaService fl md5 to_cycles) → Served s → IsServed fl md5 to_cycles s
  unfolding new_quota_service
  Served-IsServed _ (created service config options) = record {
    at_rest = new_quota_aggregator-IsAtRest fl md5 to_cycles service config options;
    calls = refl;
    flights = omega arith;
    flushes = omega arith;
  }
  Served-IsServed s' (called {s} f now t request h fit e) =
      of_run _ s' e
        (quota_call-IsServed fl md5 to_cycles f now t request s (Served-IsServed s h) fit)
  Served-IsServed s' (answered {s} f now status before request after response h w e) =
      of_run _ s' e (
        on_call_response-IsServed fl md5 to_cycles f now status before request after response s w
          (Served-IsServed s h))
  Served-IsServed s' (refilled {s} f now status before request after response h w e) =
      of_run _ s' e (
        on_flush_response-IsServed fl md5 to_cycles f now status before request after response s w
          (Served-IsServed s h))
  Served-IsServed s' (flushed {s} f now h e) =
      of_run _ s' e (flush_quotas-IsServed fl md5 to_cycles f now s (Served-IsServed s h))
  Served-IsServed s' (emptied {s} f now h e) =
      of_run _ s' e (flush_all_quotas-IsServed fl md5 to_cycles f now s (Served-IsServed s h))

  -- A failed call of the transport, on an aggregator whose cache is at rest and holds the signature:
  -- the callback returns, with any fuel but 0, and afterwards the element of the signature answers
  -- positively and does not wait for a response, whatever the transport wrote.
  pub store_response-open :
      (f now : ℕ) (status : Status) (request : QuotaRequest D) (response : QuotaResponse)
      (op : QuotaOperation D) (s : QuotaService fl md5 to_cycles) (c : QuotaCache fl md5 to_cycles)
      (e : QuotaEntry fl md5 to_cycles)
      → request.allocate_operation ≡ some op
      → (s.aggregator).cache ≡ some c
      → IsQuiet fl md5 to_cycles c
      → find
          (quota_signature fl md5 to_cycles op)
          (rested fl md5 to_cycles s.aggregator now c).entries
        ≡ some e
      → is_ok status ≡ false
      → (s' : QuotaService fl md5 to_cycles) × (c' : QuotaCache fl md5 to_cycles) × (e' : QuotaEntry
          fl md5 to_cycles)
        × (store_response fl md5 to_cycles (suc f) now status request response s ≡ returns s')
        × ((s'.aggregator).cache ≡ some c')
        × (find (quota_signature fl md5 to_cycles op) c'.entries ≡ some e')
        × (is_positive fl md5 to_cycles e'.value ≡ true)
        × (e'.value.in_flight ≡ false)
  unfolding store_response response_or_open quota_flush_callback set_quota_response is_positive
  store_response-open f now status request response op s c e h k q found failed =
      let k1 = quota_signature fl md5 to_cycles op in
      let c1 = rested fl md5 to_cycles s.aggregator now c in
      let dummy : QuotaResponse = record { operation_id = []; allocate_errors = [] } in
      let v = with_response fl md5 to_cycles s.aggregator now f c dummy e.value in
      let keyed : e.key ≡ k1 = find-key k1 c1.entries e found in
      let r : QuotaAggregator fl md5 to_cycles × List (QuotaRequest D) =
        finish_quota fl md5 to_cycles s.aggregator
          (stored fl md5 to_cycles k1 e v c1, refreshes fl md5 to_cycles s.aggregator now c) in
      let next : QuotaAggregator fl md5 to_cycles × List (QuotaRequest D)
          → QuotaService fl md5 to_cycles =
        λ x. quota_flush_callback fl md5 to_cycles x.1 (record s { aggregator = x.0 }) in
      (
        next r,
        stored fl md5 to_cycles k1 e v c1,
        record e { value = v },
        rw (failed, h)
            (ap (λ x. x >>= λ y. returns (next y))
              (cache_quota_response-found fl md5 to_cycles s.aggregator now f c op dummy e k q
                found)),
        refl,
        find-replace k1 k1 (record e { value = v }) c1.entries e keyed found ∙ rw (==_refl k1) refl,
        refl,
        refl,
      )
