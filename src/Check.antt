-- ===== src/Check.antt =====
-- CheckAggregatorImpl (src/check_aggregator_impl.cc and .h): the responses to check requests are
-- cached by the signature of the operation, and the operations that a cached response answers
-- are aggregated until the response leaves the cache.
--
-- A call takes the time `now` (in cycles, which are microseconds) that SimpleCycleTimer::Now()
-- has during it, and returns the new state, the status, the response that it wrote, if any, and
-- the requests that it flushed, as in Report.
pub mod Answers
pub mod Stored
pub mod Conserve
pub mod Absorb
use service_control_client_c.Float.{Float}
use service_control_client_c.Prelude.{
  ℕ, suc, ◌+◌, ◌*◌, ◌/◌, Bool, true, false, not, ◌||◌, Option, none, some, List, [], ◌∷◌, ◌++◌,
  length, leb, ltb, Text, text_eq, text_beq, if◌then◌else◌, ℤ, pos, negsuc, pos_part, sub_ℕ, ◌+ℤ◌,
  ltb_ℤ, leb_ℤ,
}
use service_control_client_c.Status.{Status, ok, invalid_argument, not_found}
use service_control_client_c.Proto.{Importance, Operation, CheckRequest, CheckResponse}
use service_control_client_c.Signature.{check_request_bytes}
use service_control_client_c.Operation.{
  Kinds, Aggregator, new_aggregator, merge_operation, to_operation_proto,
}
use service_control_client_c.RemovedItems.{add_items, flush_out}
use service_control_client_c.Report.{is_low}
use service_control_client_c.Cache.{
  Cache, new_cache, set_timeout, lookup, write, release, insert, remove_expired_entries, remove_all,
}

-- `CheckAggregationOptions`, and its constructor.
pub record CheckOptions : Type 0 where
  pub num_entries : ℤ
  pub flush_interval_ms : ℤ
  pub expiration_ms : ℤ

unfoldable pub check_options : ℤ → ℤ → ℤ → CheckOptions
check_options cache_entries flush_interval response_expiration = record {
  num_entries = cache_entries;
  flush_interval_ms = flush_interval;
  expiration_ms =
      if ltb_ℤ (flush_interval +ℤ pos 1) response_expiration
      then response_expiration
      else flush_interval +ℤ pos 1;
}

-- `flush_interval_ms * SimpleCycleTimer::Frequency() / 1000`
unfoldable pub interval_in_cycles : ℤ → ℤ
interval_in_cycles (pos ms) = pos (ms * 1_000_000 / 1000)
interval_in_cycles (negsuc ms) = sub_ℕ 0 (suc ms * 1_000_000 / 1000)

-- `MergeItem` of the base class: requests are never merged.
abbrev pub never_merge {ℓ} : {A : Type ℓ} → A → A → Option A
never_merge new old = none

module _ {D : Type 0} (fl : Float D) (md5 : Text → Text) (kinds : Kinds)
    (to_cycles : ℤ → Option ℕ) where
  -- `CacheElem`
  pub record CacheElem : Type 0 where
    pub operation_aggregator : Option (Aggregator fl)
    pub check_response : CheckResponse
    pub last_check_time : ℕ
    pub quota_scale : ℤ
    pub is_flushing : Bool

  -- `CacheElem::Aggregate`
  unfoldable pub aggregate : Operation D → CacheElem → CacheElem
  aggregate op e = record e {
    operation_aggregator = elim e.operation_aggregator [
      | none ↦ some (new_aggregator fl md5 kinds op)
      | some iop ↦ some (merge_operation fl md5 kinds op iop)
    ];
  }

  -- `CacheElem::ReturnCheckRequestAndClear`, where the element is then deleted.
  unfoldable pub return_check_request : Text → Text → CacheElem → CheckRequest D
  return_check_request service config e = record {
    service_name = service;
    service_config_id = config;
    operation = elim e.operation_aggregator [
      | none ↦ none
      | some iop ↦ some (to_operation_proto fl iop)
    ];
  }

  abbrev pub CheckCache : Type 0
  CheckCache = Cache Text CacheElem

  -- The state; `cache` is none where the cache is disabled, `next_ptr` the next fresh address.
  pub record CheckAggregator : Type 0 where
    pub service_name : Text
    pub service_config_id : Text
    pub options : CheckOptions
    pub flush_interval_in_cycle : ℤ
    pub cache : Option CheckCache
    pub next_ptr : ℕ
    pub has_callback : Bool

  -- The constructor.
  unfoldable pub new_check_aggregator : Text → Text → CheckOptions → CheckAggregator
  new_check_aggregator service config options = record {
    service_name = service;
    service_config_id = config;
    options = options;
    flush_interval_in_cycle = interval_in_cycles options.flush_interval_ms;
    cache =
        if ltb_ℤ (pos 0) options.num_entries
        then some (
            set_timeout (to_cycles options.expiration_ms) true 0
              (new_cache (pos_part options.num_entries)))
        else none;
    next_ptr = 1;
    has_callback = false;
  }

  -- `ShouldFlush`
  unfoldable pub should_flush : ℤ → ℕ → CacheElem → Bool
  should_flush interval now e = leb_ℤ interval (sub_ℕ now e.last_check_time)

  -- The part of `Check` that is about the element found: the element, and the response, or none
  -- where the caller has to send the request.
  unfoldable pub answer : ℤ → ℕ → Operation D → CacheElem → CacheElem × Option CheckResponse
  answer interval now op e =
      if ltb 0 (length (e.check_response).check_errors)
      then if should_flush interval now e
        then (record e { last_check_time = now }, none)
        else (e, some e.check_response)
      else if should_flush interval now (aggregate op e)
      then (record (aggregate op e) { is_flushing = true; last_check_time = now }, none)
      else (aggregate op e, some e.check_response)

  abbrev pub check_signature : Operation D → Text
  check_signature op = md5 (check_request_bytes op)

  -- The lookup of `Check`, the answer and the release of the element.
  unfoldable pub check_lookup : ℤ → ℕ → Operation D → CheckCache → CheckCache × Option CheckResponse
  check_lookup interval now op c =
      let s = check_signature op in
      let c' = (lookup s now c).0 in
      elim (lookup s now c).1 [
        | none ↦ (c', none)
        | some (p, e) ↦ let r = answer interval now op e in (release s p now (write s r.0 c'), r.1)
      ]

  -- The end of a call: `OnCacheEntryDelete` makes requests from the discarded elements that have
  -- an aggregated operation, and the callback gets them.
  unfoldable pub removed_requests : CheckAggregator → List CacheElem → List (CheckRequest D)
  removed_requests a [] = []
  removed_requests a (e ∷ es) = elim e.operation_aggregator [
    | none ↦ removed_requests a es
    | some _ ↦ return_check_request a.service_name a.service_config_id e ∷ removed_requests a es
  ]

  unfoldable pub drained : CheckCache → CheckCache
  drained c = record c { discarded = [] }

  unfoldable pub flushed : CheckAggregator → CheckCache → List (CheckRequest D)
  flushed a c = flush_out a.has_callback (add_items never_merge [] (removed_requests a c.discarded))

  abbrev pub Result : Type 0
  Result = CheckAggregator × Status × Option CheckResponse × List (CheckRequest D)

  abbrev pub status_of : Option CheckResponse → Status
  status_of none = not_found
  status_of (some _) = ok

  -- `Check`, from the test of the operation on
  unfoldable pub check_operation :
      ℕ → Option (Operation D) → CheckAggregator → Option CheckCache → Result
  check_operation now none a o = (a, invalid_argument, none, [])
  check_operation now (some op) a none = (a, not_found, none, [])
  check_operation now (some op) a (some c) =
      let (c', response) = check_lookup a.flush_interval_in_cycle now op c in
      if not (is_low op.importance)
      then (a, not_found, none, [])
      else (record a { cache = some (drained c') }, status_of response, response, flushed a c')

  unfoldable pub check : ℕ → CheckRequest D → CheckAggregator → Result
  check now request a =
      if not (text_beq request.service_name a.service_name)
      then (a, invalid_argument, none, [])
      else check_operation now request.operation a a.cache

  -- `CacheResponse`: the element found is refreshed, or a new one is inserted.
  abbrev pub refreshed : ℕ → CheckResponse → CacheElem → CacheElem
  refreshed now response e = record e {
    check_response = response;
    last_check_time = now;
    quota_scale = pos 0;
    is_flushing = false;
  }

  abbrev pub new_cache_elem : ℕ → CheckResponse → CacheElem
  new_cache_elem now response = record {
    operation_aggregator = none;
    check_response = response;
    last_check_time = now;
    quota_scale = pos 0;
    is_flushing = false;
  }

  unfoldable pub store : ℕ → Text → CheckResponse → ℕ → CheckCache → CheckCache
  store now s response next c =
      let c' = (lookup s now c).0 in
      elim (lookup s now c).1 [
        | none ↦ insert s next (new_cache_elem now response) 1 now c'
        | some (p, e) ↦ release s p now (write s (refreshed now response e) c')
      ]

  -- The signature reads the operation of the request, of which the default has no content.
  unfoldable pub cache_response_in :
      ℕ
      → Operation D
      → CheckResponse
      → CheckAggregator
      → Option CheckCache
      → CheckAggregator × List (CheckRequest D)
  cache_response_in now op response a none = (a, [])
  cache_response_in now op response a (some c) =
      let c' = store now (check_signature op) response a.next_ptr c in
      (record a { cache = some (drained c'); next_ptr = a.next_ptr + 1 }, flushed a c')

  unfoldable pub cache_response :
      ℕ → Operation D → CheckResponse → CheckAggregator → CheckAggregator × List (CheckRequest D)
  cache_response now op response a = cache_response_in now op response a a.cache

  -- `GetNextFlushInterval`
  unfoldable pub next_flush_interval : CheckAggregator → ℤ
  next_flush_interval a = elim a.cache [ none ↦ negsuc 0 | some _ ↦ (a.options).expiration_ms ]

  -- `Flush` and `FlushAll`
  unfoldable pub update_cache :
      (CheckCache → CheckCache)
      → CheckAggregator
      → Option CheckCache
      → CheckAggregator × List (CheckRequest D)
  update_cache f a none = (a, [])
  update_cache f a (some c) = (record a { cache = some (drained (f c)) }, flushed a (f c))

  unfoldable pub flush_checks : ℕ → CheckAggregator → CheckAggregator × List (CheckRequest D)
  flush_checks now a = update_cache (remove_expired_entries now) a a.cache

  unfoldable pub flush_all_checks : CheckAggregator → CheckAggregator × List (CheckRequest D)
  flush_all_checks a = update_cache remove_all a a.cache
