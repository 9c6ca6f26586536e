-- ===== src/Report.antt =====
-- ReportAggregatorImpl (src/report_aggregator_impl.cc): the operations of low importance are
-- aggregated in a cache and flushed when they leave it.
--
-- A call takes the time `now` at which it runs and returns the new state, the status and the
-- requests that it flushed. The deleter of the cache only makes a request, so the values that the
-- cache discards during a call are turned into requests in the order in which they left.
pub mod Conserve
use service_control_client_c.Float.{Float}
use service_control_client_c.Prelude.{
  ℕ, ◌+◌, Bool, true, false, not, ◌&&◌, ◌||◌, Option, none, some, List, [], ◌∷◌, ◌++◌, map, length,
  leb, ltb, Text, text_eq, text_beq, nat_beq, if◌then◌else◌, ℤ, pos, negsuc, pos_part, ltb_ℤ,
}
use service_control_client_c.Status.{Status, ok, invalid_argument, not_found}
use service_control_client_c.Proto.{Importance, low, high, Operation, ReportRequest}
use service_control_client_c.Signature.{report_operation_bytes}
use service_control_client_c.Operation.{
  Kinds, Aggregator, new_aggregator, merge_operation, too_big, to_operation_proto,
}
use service_control_client_c.RemovedItems.{add_items, flush_out}
use service_control_client_c.Cache.{
  Cache, Elem, find, replace, new_cache, set_timeout, lookup, write, release, insert, remove,
  remove_expired_entries, remove_all,
}

abbrev pub max_operations_to_send : ℕ
max_operations_to_send = 10

abbrev pub is_low : Importance → Bool
is_low low = true
is_low high = false

-- `HasHighImportantOperation`
unfoldable pub has_high_important_operation {ℓ} : {D : Type ℓ} → List (Operation D) → Bool
has_high_important_operation [] = false
has_high_important_operation (op ∷ ops) =
    not (is_low op.importance) || has_high_important_operation ops

-- `MergeFrom` of the messages: a string that is set replaces, a repeated field is appended.
abbrev pub merge_text : Text → Text → Text
merge_text new old = if nat_beq (length new) 0 then old else new

unfoldable pub merge_from {ℓ} : {D : Type ℓ} → ReportRequest D → ReportRequest D → ReportRequest D
merge_from new old = record {
  service_name = merge_text new.service_name old.service_name;
  service_config_id = merge_text new.service_config_id old.service_config_id;
  operations = old.operations ++ new.operations;
}

-- `MergeItem`
unfoldable pub merge_item {ℓ} :
    {D : Type ℓ} → ReportRequest D → ReportRequest D → Option (ReportRequest D)
merge_item new old =
    if not (text_beq old.service_name new.service_name)
      || ltb max_operations_to_send (length old.operations + length new.operations)
    then none
    else some (merge_from new old)

-- `to_cycles` is the conversion of milliseconds to cycles that SetAgeBasedEviction makes in
-- doubles, `md5` the hash of the signatures, `kinds` the map of metric kinds.
module _ {D : Type 0} (fl : Float D) (md5 : Text → Text) (kinds : Kinds)
    (to_cycles : ℤ → Option ℕ) where
  abbrev pub ReportCache : Type 0
  ReportCache = Cache Text (Aggregator fl)

  -- The state; `cache` is none where the cache is disabled, `next_ptr` the next fresh address.
  pub record ReportAggregator : Type 0 where
    pub service_name : Text
    pub service_config_id : Text
    pub flush_interval_ms : ℤ
    pub cache : Option ReportCache
    pub next_ptr : ℕ
    pub has_callback : Bool

  -- The constructor, and `SetFlushCallback`.
  unfoldable pub new_report_aggregator : Text → Text → ℤ → ℤ → ReportAggregator
  new_report_aggregator name config num_entries flush_interval_ms = record {
    service_name = name;
    service_config_id = config;
    flush_interval_ms = flush_interval_ms;
    cache =
        if ltb_ℤ (pos 0) num_entries
        then some
            (set_timeout (to_cycles flush_interval_ms) false 0 (new_cache (pos_part num_entries)))
        else none;
    next_ptr = 1;
    has_callback = false;
  }

  -- `OnCacheEntryDelete`: the request that is made from an element.
  unfoldable pub to_request : ReportAggregator → Aggregator fl → ReportRequest D
  to_request a iop = record {
    service_name = a.service_name;
    service_config_id = a.service_config_id;
    operations = to_operation_proto fl iop ∷ [];
  }

  abbrev pub report_signature : Operation D → Text
  report_signature op = md5 (report_operation_bytes op)

  -- The body of the loop of `Report`, on the cache and the next address.
  unfoldable pub report_operation : ℕ → Operation D → ReportCache × ℕ → ReportCache × ℕ
  report_operation now op (c, next) =
      let s = report_signature op in
      let c' = (lookup s now c).0 in
      elim (lookup s now c).1 [
        | none ↦ (insert s next (new_aggregator fl md5 kinds op) 1 now c', next + 1)
        | some (p, iop) ↦
            let merged = merge_operation fl md5 kinds op iop in
            let released = release s p now (write s merged c') in
            (if too_big fl merged then remove s released else released, next)
      ]

  unfoldable pub report_operations : ℕ → List (Operation D) → ReportCache × ℕ → ReportCache × ℕ
  report_operations now [] st = st
  report_operations now (op ∷ ops) st = report_operations now ops (report_operation now op st)

  -- The end of a call: the cache has handed out its discarded elements.
  unfoldable pub drained : ReportCache → ReportCache
  drained c = record c { discarded = [] }

  unfoldable pub flushed : ReportAggregator → ReportCache → List (ReportRequest D)
  flushed a c = flush_out a.has_callback (add_items merge_item [] (map (to_request a) c.discarded))

  -- The part of `Report` that may use the cache.
  unfoldable pub report_cached :
      ℕ
      → List (Operation D)
      → ReportAggregator
      → Option ReportCache
      → ReportAggregator × Status × List (ReportRequest D)
  report_cached now ops a none = (a, not_found, [])
  report_cached now ops a (some c) =
      let (c', next) = report_operations now ops (c, a.next_ptr) in
      (record a { cache = some (drained c'); next_ptr = next }, ok, flushed a c')

  -- `Report`
  unfoldable pub report :
      ℕ → ReportRequest D → ReportAggregator → ReportAggregator × Status × List (ReportRequest D)
  report now request a =
      if not (text_beq request.service_name a.service_name)
      then (a, invalid_argument, [])
      else if has_high_important_operation request.operations
      then (a, not_found, [])
      else report_cached now request.operations a a.cache

  -- `GetNextFlushInterval`
  unfoldable pub get_next_flush_interval : ReportAggregator → ℤ
  get_next_flush_interval a = elim a.cache [ none ↦ negsuc 0 | some _ ↦ a.flush_interval_ms ]

  -- A call that changes the cache alone: `Flush` and `FlushAll`.
  unfoldable pub with_cache :
      (ReportCache → ReportCache)
      → ReportAggregator
      → Option ReportCache
      → ReportAggregator × Status × List (ReportRequest D)
  with_cache f a none = (a, ok, [])
  with_cache f a (some c) = (record a { cache = some (drained (f c)) }, ok, flushed a (f c))

  unfoldable pub flush : ℕ → ReportAggregator → ReportAggregator × Status × List (ReportRequest D)
  flush now a = with_cache (remove_expired_entries now) a a.cache

  unfoldable pub flush_all : ReportAggregator → ReportAggregator × Status × List (ReportRequest D)
  flush_all a = with_cache remove_all a a.cache
