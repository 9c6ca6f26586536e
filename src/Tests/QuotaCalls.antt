-- ===== src/Tests/QuotaCalls.antt =====
-- Tests of the quota calls of src/service_control_client_impl.cc.
use service_control_client_c.Prelude.{
  ℕ, zero, suc, ◌≡◌, refl, arith, sum_by, true, false, none, some, [], ◌∷◌, pos, text_eq, returns,
}
use service_control_client_c.Status.{ok, not_found}
use service_control_client_c.Signature.{
  quota_request_bytes, name_bytes, metric_names, ordered, map_insert,
}
use service_control_client_c.Cache.{find}
use service_control_client_c.Quota.{QuotaCache, new_quota_aggregator, is_positive}
use service_control_client_c.Quota.Expiry.{QuotaEntry}
use service_control_client_c.Quota.Returns.{IsFit, new_quota_aggregator-IsAtRest}
use service_control_client_c.Client.Quotas.{
  QuotaService, new_quota_service, quota_call, store_response,
}
use service_control_client_c.Client.Served.{IsServed, quota_call-IsServed}
use service_control_client_c.Client.Promises.{awaited, blocked, owns}
use service_control_client_c.Client.Blocking.Quotas.{
  QuotaSession, respond_quota, IsQuotaAligned, respond_quota-returns,
}
use service_control_client_c.Client.FailOpen.{created, called, Served-IsServed, store_response-open}
use service_control_client_c.Tests.{whole, same_text}
use service_control_client_c.Tests.Quotas.{
  in_cycles, with_room, wanted, tokens, ready-IsFit, signature_of, stays, one_of, holding_one,
  one_of-IsQuiet,
}

abbrev served : QuotaService whole same_text in_cycles
served = new_quota_service whole same_text in_cycles (with_room (pos 2))

served-IsServed : IsServed whole same_text in_cycles served
unfolding new_quota_service
served-IsServed = record {
  at_rest = new_quota_aggregator-IsAtRest whole same_text in_cycles (9 ∷ []) (4 ∷ []) _;
  calls = refl;
  flights = omega arith;
  flushes = omega arith;
}

served-IsFit : IsFit whole same_text in_cycles 10 (wanted 1) served.aggregator
unfolding new_quota_service new_quota_aggregator
served-IsFit = ready-IsFit

-- The state after a call.
abbrev one_call :
    (s : QuotaService whole same_text in_cycles) × (quota_call whole same_text in_cycles 1 10 true
        (wanted 1)
        served
      ≡ returns s)
    × IsServed whole same_text in_cycles s
one_call =
    quota_call-IsServed whole same_text in_cycles 0 10 true (wanted 1) served served-IsServed
      served-IsFit

Served-IsServed_example : IsServed whole same_text in_cycles one_call.0
Served-IsServed_example =
    Served-IsServed whole same_text in_cycles one_call.0
      (called 0 10 true (wanted 1) (created (9 ∷ []) (4 ∷ []) _) served-IsFit one_call.1)

-- A service whose cache holds a response, and the answer to its request.
abbrev waiting : QuotaService whole same_text in_cycles
waiting = record served { aggregator = holding_one 1 }

store_response-open_example :
    (s' : QuotaService whole same_text in_cycles) × (c' : QuotaCache whole same_text in_cycles)
    × (e' : QuotaEntry whole same_text in_cycles) × (store_response whole same_text in_cycles 1 20
          not_found
          (wanted 1)
          (record { operation_id = []; allocate_errors = (3 ∷ []) ∷ [] })
          waiting
        ≡ returns s')
    × ((s'.aggregator).cache ≡ some c')
    × (find (signature_of 1) c'.entries ≡ some e')
    × (is_positive whole same_text in_cycles e'.value ≡ true)
    × (e'.value.in_flight ≡ false)
unfolding find quota_request_bytes name_bytes metric_names ordered map_insert
store_response-open_example =
    store_response-open whole same_text in_cycles 0 20 not_found (wanted 1)
      (record { operation_id = []; allocate_errors = (3 ∷ []) ∷ [] }) (tokens 1) waiting (one_of 1)
      (stays 1) refl refl one_of-IsQuiet refl refl

-- The thread of a blocking quota call, whose request is in flight.
abbrev one_blocked : QuotaSession whole same_text in_cycles
one_blocked = record {
  service = record served { total_called = 1; send_in_flight = 1; asked = wanted 1 ∷ [] };
  threads = record { owners = some 0 ∷ []; promises = none ∷ [] };
}

one_blocked-paired : (n : ℕ) → sum_by (owns n) (some 0 ∷ []) ≡ blocked n (none ∷ [])
one_blocked-paired zero = ground arith
one_blocked-paired (suc n) = ground arith

one_blocked-IsQuotaAligned : IsQuotaAligned whole same_text in_cycles one_blocked
unfolding new_quota_service
one_blocked-IsQuotaAligned = record {
  served = record {
    at_rest = served-IsServed.at_rest;
    calls = refl;
    flights = omega arith;
    flushes = omega arith;
  };
  paired = one_blocked-paired;
  aligned = refl;
}

respond_quota-returns_example :
    (x' : QuotaSession whole same_text in_cycles) × (respond_quota whole same_text in_cycles 1 20 ok
        []
        (wanted 1)
        []
        (record { operation_id = []; allocate_errors = [] })
        []
        (some 0)
        []
        one_blocked
      ≡ returns (some x'))
    × IsQuotaAligned whole same_text in_cycles x'
    × (awaited 0 x'.threads ≡ some ok)
respond_quota-returns_example =
    respond_quota-returns whole same_text in_cycles 0 20 ok [] (wanted 1) []
      (record { operation_id = []; allocate_errors = [] }) [] 0 [] one_blocked
      one_blocked-IsQuotaAligned refl refl
