-- ===== src/Quota.antt =====
-- QuotaAggregatorImpl (src/quota_aggregator_impl.cc and .h): quota requests of one signature are
-- answered from a cached response and merged, until the response is due for a refresh.
--
-- The cache evicts by age, and its deleter OnCacheEntryDelete puts an element back into the cache
-- while it leaves it. So a call takes fuel, which bounds the depth of the nested deletions: the run
-- is no_fuel where the depth is not enough. A call takes the time `now` in cycles, and returns as
-- in Report; the requests that the deleter adds go to the flush callback at the end of the call.
pub mod Calls
pub mod Expiry
pub mod Quiet
pub mod Answers
pub mod Hits
pub mod Flushes
pub mod Returns
pub mod Reach
pub mod Kept
pub mod Overfull
pub mod Coalesced
use service_control_client_c.Float.{Float}
use service_control_client_c.Prelude.{
  ℕ, suc, zero, ◌+◌, Bool, true, false, not, ◌&&◌, ◌||◌, Option, none, some, List, [], ◌∷◌, ◌++◌,
  length, nat_beq, Text, text_eq, text_beq, if◌then◌else◌, ℤ, pos, negsuc, pos_part, sub_ℕ, ltb_ℤ,
  leb_ℤ, Run, returns, no_fuel, undefined, ◌>>=◌,
}
use service_control_client_c.Status.{Status, ok, invalid_argument, not_found}
use service_control_client_c.Proto.{
  QuotaMode, check_only, QuotaOperation, QuotaRequest, QuotaResponse,
}
use service_control_client_c.Signature.{quota_request_bytes}
use service_control_client_c.QuotaOperation.{
  QuotaAggregate, new_quota_aggregate, merge_quota_operation, to_quota_operation,
}
use service_control_client_c.RemovedItems.{add_items, flush_out}
use service_control_client_c.Check.{interval_in_cycles, never_merge}
use service_control_client_c.Cache.{Cache, new_cache, find, set_timeout, write}
use service_control_client_c.Cache.Deleter.{
  insert_with, lookup_with, release_with, remove_expired_with, remove_all_with,
}

-- `QuotaAggregationOptions`
pub record QuotaOptions : Type 0 where
  pub num_entries : ℤ
  pub refresh_interval_ms : ℤ
  pub expiration_interval_ms : ℤ

abbrev pub is_some {ℓ} : {A : Type ℓ} → Option A → Bool
is_some none = false
is_some (some _) = true

-- A read of a value that is not there is undefined.
abbrev pub defined {ℓ} : {A : Type ℓ} → Option A → Run A
defined none = undefined
defined (some a) = returns a

module _ {D : Type 0} (fl : Float D) (md5 : Text → Text) (to_cycles : ℤ → Option ℕ) where
  -- `CacheElem`
  pub record QuotaElem : Type 0 where
    pub operation_aggregator : Option (QuotaAggregate fl)
    pub quota_request : QuotaRequest D
    pub quota_response : QuotaResponse
    pub signature : Text
    pub last_refresh_time : ℕ
    pub in_flight : Bool

  -- `is_positive_response`
  unfoldable pub is_positive : QuotaElem → Bool
  is_positive e = nat_beq (length (e.quota_response).allocate_errors) 0

  -- `CacheElem::Aggregate`
  unfoldable pub aggregate_quota : QuotaOperation D → QuotaElem → Run QuotaElem
  aggregate_quota op e =
      defined (elim e.operation_aggregator [
        | none ↦ new_quota_aggregate fl op
        | some a ↦ merge_quota_operation fl op a
      ])
      >>= λ a. returns (record e { operation_aggregator = some a })

  -- `set_quota_response`
  unfoldable pub set_quota_response : QuotaResponse → QuotaElem → QuotaElem
  set_quota_response response e = record e {
    quota_response = response;
    operation_aggregator =
        if nat_beq (length response.allocate_errors) 0 then e.operation_aggregator else none;
  }

  abbrev pub QuotaCache : Type 0
  QuotaCache = Cache Text QuotaElem

  -- The cache and the removed items.
  abbrev pub QuotaWorld : Type 0
  QuotaWorld = QuotaCache × List (QuotaRequest D)

  -- The state; `cache` is none where the cache is disabled, `next_ptr` the next fresh address.
  pub record QuotaAggregator : Type 0 where
    pub service_name : Text
    pub service_config_id : Text
    pub options : QuotaOptions
    pub expiration_interval_in_cycle : ℤ
    pub in_flush_all : Bool
    pub cache : Option QuotaCache
    pub next_ptr : ℕ
    pub has_callback : Bool

  -- The constructor.
  unfoldable pub new_quota_aggregator : Text → Text → QuotaOptions → QuotaAggregator
  new_quota_aggregator service config options = record {
    service_name = service;
    service_config_id = config;
    options = options;
    expiration_interval_in_cycle = interval_in_cycles options.expiration_interval_ms;
    in_flush_all = false;
    cache =
        if ltb_ℤ (pos 0) options.num_entries
        then some (
            set_timeout (to_cycles options.refresh_interval_ms) false 0
              (new_cache (pos_part options.num_entries)))
        else none;
    next_ptr = 1;
    has_callback = false;
  }

  -- `ShouldDrop`
  unfoldable pub should_drop : QuotaAggregator → ℕ → QuotaElem → Bool
  should_drop a now e = leb_ℤ a.expiration_interval_in_cycle (sub_ℕ now e.last_refresh_time)

  -- `ReturnAllocateQuotaRequestAndClear`: the request, and the element without its operation.
  unfoldable pub return_quota_request : QuotaAggregator → QuotaElem → QuotaRequest D
  return_quota_request a e = elim e.operation_aggregator [
    | none ↦ e.quota_request
    | some q ↦ record {
      service_name = a.service_name;
      service_config_id = a.service_config_id;
      allocate_operation = some (to_quota_operation fl q);
    }
  ]

  -- `set_quota_mode(CHECK_ONLY)` of the operation of a request.
  abbrev pub check_only_operation : Option (QuotaOperation D) → QuotaOperation D
  check_only_operation none = record {
    method_name = [];
    consumer_id = [];
    quota_mode = check_only;
    quota_metrics = [];
  }
  check_only_operation (some op) = record op { quota_mode = check_only }

  unfoldable pub refresh_request : QuotaAggregator → QuotaElem → QuotaRequest D
  refresh_request a e =
      let request = return_quota_request a e in
      if is_positive e then request else record request {
        allocate_operation = some (check_only_operation request.allocate_operation);
      }

  -- The element that waits for the response to a refresh.
  unfoldable pub refreshing : ℕ → QuotaElem → QuotaElem
  refreshing now e = record e {
    in_flight = true;
    last_refresh_time = now;
    operation_aggregator = none;
  }

  -- Whether a refresh is due for an element that leaves the cache.
  unfoldable pub needs_refresh : QuotaElem → Bool
  needs_refresh e = not e.in_flight && (is_some e.operation_aggregator || not (is_positive e))

  -- `OnCacheEntryDelete`, for the element at the address `p`
  unfoldable pub on_delete : ℕ → ℕ → QuotaAggregator → ℕ → QuotaElem → QuotaWorld → Run QuotaWorld
  on_delete zero now a p e w = no_fuel
  on_delete (suc fuel) now a p e w =
      let put_back =
        λ (x : QuotaElem). insert_with (on_delete fuel now a) x.signature p x 1 now w in
      if a.in_flush_all || should_drop a now e
      then returns w
      else if needs_refresh e
      then (put_back (refreshing now e) >>= λ w'.
          returns (w'.0, w'.1 ++ (refresh_request a e ∷ [])))
      else put_back e
