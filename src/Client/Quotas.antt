-- ===== src/Client/Quotas.antt =====
-- The quota calls of ServiceControlClientImpl (src/service_control_client_impl.cc): Quota, its
-- callbacks, and AllocateQuotaFlushCallback. They take the path of Client, but a run of the quota
-- aggregator takes fuel, and a failed call of the transport is cached as a response without errors.
use service_control_client_c.Float.{Float}
use service_control_client_c.Prelude.{
  ℕ, suc, ◌+◌, Bool, true, not, Option, List, [], ◌∷◌, ◌++◌, length, Text, if◌then◌else◌, ℤ, Run,
  returns, ◌>>=◌,
}
use service_control_client_c.Status.{Status, invalid_argument, is_ok, is_not_found}
use service_control_client_c.Proto.{other_mode, QuotaOperation, QuotaRequest, QuotaResponse}
use service_control_client_c.Operation.{or_default}
use service_control_client_c.Quota.{QuotaAggregator}
use service_control_client_c.Quota.Calls.{quota, cache_quota_response, flush_quota, flush_all_quota}

-- The operation of a request that has none.
abbrev pub empty_quota_operation {ℓ} : {D : Type ℓ} → QuotaOperation D
empty_quota_operation = record {
  method_name = [];
  consumer_id = [];
  quota_mode = other_mode 0;
  quota_metrics = [];
}

module _ {D : Type 0} (fl : Float D) (md5 : Text → Text) (to_cycles : ℤ → Option ℕ) where
  -- `asked` waits for the transport on behalf of calls, `refreshed` on behalf of flushes.
  pub record QuotaService : Type 0 where
    pub aggregator : QuotaAggregator fl md5 to_cycles
    pub total_called : ℕ
    pub send_by_flush : ℕ
    pub send_in_flight : ℕ
    pub asked : List (QuotaRequest D)
    pub refreshed : List (QuotaRequest D)
    pub finished : List Status

  -- The constructor's part, for an aggregator without a callback.
  unfoldable pub new_quota_service : QuotaAggregator fl md5 to_cycles → QuotaService
  new_quota_service a = record {
    aggregator = record a { has_callback = true };
    total_called = 0;
    send_by_flush = 0;
    send_in_flight = 0;
    asked = [];
    refreshed = [];
    finished = [];
  }

  -- `AllocateQuotaFlushCallback`, for the requests that a call of the aggregator flushes.
  unfoldable pub quota_flush_callback : List (QuotaRequest D) → QuotaService → QuotaService
  quota_flush_callback items s = record s {
    send_by_flush = s.send_by_flush + length items;
    refreshed = s.refreshed ++ items;
  }

  -- `on_quota_done(status)`
  unfoldable pub finish_call : Status → QuotaService → QuotaService
  finish_call status s = record s { finished = s.finished ++ (status ∷ []) }

  -- The part of `Quota` that follows the aggregator's answer.
  unfoldable pub route : Status → QuotaRequest D → QuotaService → QuotaService
  route status request s =
      if is_not_found status
      then record s { send_in_flight = suc s.send_in_flight; asked = s.asked ++ (request ∷ []) }
      else finish_call status s

  -- `Quota`
  unfoldable pub quota_call : ℕ → ℕ → Bool → QuotaRequest D → QuotaService → Run QuotaService
  quota_call fuel now has_transport request s₀ =
      let s : QuotaService = record s₀ { total_called = suc s₀.total_called } in
      if not has_transport
      then returns (finish_call invalid_argument s)
      else (quota fl md5 to_cycles fuel now request s.aggregator >>= λ r.
          returns (route r.1 request (quota_flush_callback r.3 (record s { aggregator = r.0 }))))

  -- The response that is cached: one without errors where the call failed.
  unfoldable pub response_or_open : Status → QuotaResponse → QuotaResponse
  response_or_open status response =
      if is_ok status then response else record { operation_id = []; allocate_errors = [] }

  -- The callbacks of the transport: for a call, and for a request that a flush sent.
  unfoldable pub store_response :
      ℕ → ℕ → Status → QuotaRequest D → QuotaResponse → QuotaService → Run QuotaService
  store_response fuel now status request response s =
      cache_quota_response fl md5 to_cycles fuel now
        (or_default empty_quota_operation request.allocate_operation)
        (response_or_open status response) s.aggregator
      >>= λ r. returns (quota_flush_callback r.1 (record s { aggregator = r.0 }))

  unfoldable pub on_call_response :
      ℕ
      → ℕ
      → Status
      → List (QuotaRequest D)
      → QuotaRequest D
      → List (QuotaRequest D)
      → QuotaResponse
      → QuotaService
      → Run QuotaService
  on_call_response fuel now status before request after response s =
      store_response fuel now status request response (record s { asked = before ++ after })
      >>= λ s'. returns (finish_call status s')

  unfoldable pub on_flush_response :
      ℕ
      → ℕ
      → Status
      → List (QuotaRequest D)
      → QuotaRequest D
      → List (QuotaRequest D)
      → QuotaResponse
      → QuotaService
      → Run QuotaService
  on_flush_response fuel now status before request after response s =
      store_response fuel now status request response (record s { refreshed = before ++ after })

  -- The part of `Flush` and of the timer that is about the quota aggregator.
  unfoldable pub flush_quotas : ℕ → ℕ → QuotaService → Run QuotaService
  flush_quotas fuel now s = flush_quota fl md5 to_cycles fuel now s.aggregator >>= λ r.
      returns (quota_flush_callback r.1 (record s { aggregator = r.0 }))

  -- The part of `FlushAll`.
  unfoldable pub flush_all_quotas : ℕ → ℕ → QuotaService → Run QuotaService
  flush_all_quotas fuel now s = flush_all_quota fl md5 to_cycles fuel now s.aggregator >>= λ r.
      returns (quota_flush_callback r.1 (record s { aggregator = r.0 }))
