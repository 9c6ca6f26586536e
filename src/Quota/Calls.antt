-- ===== src/Quota/Calls.antt =====
-- The calls of QuotaAggregatorImpl (src/quota_aggregator_impl.cc): Quota, CacheResponse, Flush,
-- FlushAll and GetNextFlushInterval.
use service_control_client_c.Float.{Float}
use service_control_client_c.Prelude.{
  ℕ, ◌+◌, true, false, not, Option, none, some, List, [], ◌∷◌, ◌++◌, Text, text_eq, text_beq,
  if◌then◌else◌, ℤ, negsuc, Run, returns, ◌>>=◌,
}
use service_control_client_c.Status.{Status, ok, invalid_argument, not_found}
use service_control_client_c.Proto.{QuotaOperation, QuotaRequest, QuotaResponse}
use service_control_client_c.Signature.{quota_request_bytes}
use service_control_client_c.RemovedItems.{add_items, flush_out}
use service_control_client_c.Check.{never_merge}
use service_control_client_c.Cache.{find, write}
use service_control_client_c.Cache.Deleter.{
  insert_with, lookup_with, release_with, remove_expired_with, remove_all_with,
}
use service_control_client_c.Quota.{
  QuotaElem, defined, is_positive, aggregate_quota, set_quota_response, QuotaCache, QuotaWorld,
  QuotaAggregator, on_delete,
}

module _ {D : Type 0} (fl : Float D) (md5 : Text → Text) (to_cycles : ℤ → Option ℕ) where
  abbrev pub quota_signature : QuotaOperation D → Text
  quota_signature op = md5 (quota_request_bytes op)

  -- The end of a call.
  unfoldable pub quota_flushed :
      QuotaAggregator fl md5 to_cycles → List (QuotaRequest D) → List (QuotaRequest D)
  quota_flushed a items = flush_out a.has_callback (add_items never_merge [] items)

  abbrev pub QuotaResult : Type 0
  QuotaResult =
      QuotaAggregator fl md5 to_cycles × Status × Option QuotaResponse × List (QuotaRequest D)

  -- The temporary element of a request that is sent.
  abbrev pub temporary : ℕ → Text → QuotaRequest D → QuotaElem fl md5 to_cycles
  temporary now s request = record {
    operation_aggregator = none;
    quota_request = request;
    quota_response = record { operation_id = []; allocate_errors = [] };
    signature = s;
    last_refresh_time = now;
    in_flight = true;
  }

  -- The read of the response of the new element, which is undefined where the deleter has freed it.
  abbrev pub read_response :
      Text → QuotaWorld fl md5 to_cycles → Run (QuotaWorld fl md5 to_cycles × QuotaResponse)
  read_response s w = defined (find s (w.0).entries) >>= λ e. returns (w, e.value.quota_response)

  -- The part of `Quota` that follows the lookup: the world, and the response.
  unfoldable pub quota_answer :
      ℕ
      → ℕ
      → Text
      → QuotaRequest D
      → QuotaOperation D
      → QuotaAggregator fl md5 to_cycles
      → QuotaWorld fl md5 to_cycles × Option (ℕ × QuotaElem fl md5 to_cycles)
      → Run (QuotaWorld fl md5 to_cycles × QuotaResponse)
  quota_answer fuel now s request op a (w, none) =
      insert_with (on_delete fl md5 to_cycles fuel now a) s a.next_ptr (temporary now s request) 1
        now w
      >>= λ w'. read_response s (w'.0, w'.1 ++ (request ∷ []))
  quota_answer fuel now s request op a (w, some (p, e)) =
      (if is_positive fl md5 to_cycles e then aggregate_quota fl md5 to_cycles op e else returns e)
      >>= λ e'.
          (release_with (on_delete fl md5 to_cycles fuel now a) s p now (write s e' w.0, w.1)
            >>= λ w'. returns (w', e'.quota_response))

  -- `Quota`, from the test of the operation on
  unfoldable pub quota_operation :
      ℕ
      → ℕ
      → QuotaRequest D
      → Option (QuotaOperation D)
      → QuotaAggregator fl md5 to_cycles
      → Option (QuotaCache fl md5 to_cycles)
      → Run QuotaResult
  quota_operation fuel now request none a o = returns (a, invalid_argument, none, [])
  quota_operation fuel now request (some op) a none = returns (a, not_found, none, [])
  quota_operation fuel now request (some op) a (some c) =
      let s = quota_signature op in
      lookup_with (on_delete fl md5 to_cycles fuel now a) s now (c, []) >>= λ found.
      (quota_answer fuel now s request op a found >>= λ r. returns (
        record a { cache = some (r.0).0; next_ptr = a.next_ptr + 1 },
        ok,
        some r.1,
        quota_flushed a (r.0).1,
      ))

  unfoldable pub quota : ℕ → ℕ → QuotaRequest D → QuotaAggregator fl md5 to_cycles → Run QuotaResult
  quota fuel now request a =
      if not (text_beq request.service_name a.service_name)
      then returns (a, invalid_argument, none, [])
      else quota_operation fuel now request request.allocate_operation a a.cache

  -- The lookup of `CacheResponse`, and the release of the element that it finds.
  unfoldable pub store_quota :
      ℕ
      → ℕ
      → Text
      → QuotaResponse
      → QuotaAggregator fl md5 to_cycles
      → QuotaWorld fl md5 to_cycles × Option (ℕ × QuotaElem fl md5 to_cycles)
      → Run (QuotaWorld fl md5 to_cycles)
  store_quota fuel now s response a (w, none) = returns w
  store_quota fuel now s response a (w, some (p, e)) =
      let e' = set_quota_response fl md5 to_cycles response (record e { in_flight = false }) in
      release_with (on_delete fl md5 to_cycles fuel now a) s p now (write s e' w.0, w.1)

  -- A call that changes the cache alone.
  abbrev pub finish_quota :
      QuotaAggregator fl md5 to_cycles
      → QuotaWorld fl md5 to_cycles
      → QuotaAggregator fl md5 to_cycles × List (QuotaRequest D)
  finish_quota a w = (record a { cache = some w.0 }, quota_flushed a w.1)

  -- `CacheResponse`; `op` is the operation of the request.
  unfoldable pub cache_quota_in :
      ℕ
      → ℕ
      → QuotaOperation D
      → QuotaResponse
      → QuotaAggregator fl md5 to_cycles
      → Option (QuotaCache fl md5 to_cycles)
      → Run (QuotaAggregator fl md5 to_cycles × List (QuotaRequest D))
  cache_quota_in fuel now op response a none = returns (a, [])
  cache_quota_in fuel now op response a (some c) =
      let s = quota_signature op in
      lookup_with (on_delete fl md5 to_cycles fuel now a) s now (c, []) >>= λ found.
      (store_quota fuel now s response a found >>= λ w. returns (finish_quota a w))

  unfoldable pub cache_quota_response :
      ℕ
      → ℕ
      → QuotaOperation D
      → QuotaResponse
      → QuotaAggregator fl md5 to_cycles
      → Run (QuotaAggregator fl md5 to_cycles × List (QuotaRequest D))
  cache_quota_response fuel now op response a = cache_quota_in fuel now op response a a.cache

  -- `GetNextFlushInterval`
  unfoldable pub next_quota_flush : QuotaAggregator fl md5 to_cycles → ℤ
  next_quota_flush a = elim a.cache [ none ↦ negsuc 0 | some _ ↦ (a.options).refresh_interval_ms ]

  -- `Flush`
  unfoldable pub flush_quota_in :
      ℕ
      → ℕ
      → QuotaAggregator fl md5 to_cycles
      → Option (QuotaCache fl md5 to_cycles)
      → Run (QuotaAggregator fl md5 to_cycles × List (QuotaRequest D))
  flush_quota_in fuel now a none = returns (a, [])
  flush_quota_in fuel now a (some c) =
      remove_expired_with (on_delete fl md5 to_cycles fuel now a) now (c, []) >>= λ w.
      returns (finish_quota a w)

  unfoldable pub flush_quota :
      ℕ
      → ℕ
      → QuotaAggregator fl md5 to_cycles
      → Run (QuotaAggregator fl md5 to_cycles × List (QuotaRequest D))
  flush_quota fuel now a = flush_quota_in fuel now a a.cache

  -- `FlushAll`: `in_flush_all_` is set, and stays set.
  unfoldable pub flush_all_quota_in :
      ℕ
      → ℕ
      → QuotaAggregator fl md5 to_cycles
      → Option (QuotaCache fl md5 to_cycles)
      → Run (QuotaAggregator fl md5 to_cycles × List (QuotaRequest D))
  flush_all_quota_in fuel now a none = returns (a, [])
  flush_all_quota_in fuel now a (some c) =
      remove_all_with (on_delete fl md5 to_cycles fuel now a) (c, []) >>= λ w.
      returns (finish_quota a w)

  unfoldable pub flush_all_quota :
      ℕ
      → ℕ
      → QuotaAggregator fl md5 to_cycles
      → Run (QuotaAggregator fl md5 to_cycles × List (QuotaRequest D))
  flush_all_quota fuel now a =
      let a' : QuotaAggregator fl md5 to_cycles = record a { in_flush_all = true } in
      flush_all_quota_in fuel now a' a.cache
