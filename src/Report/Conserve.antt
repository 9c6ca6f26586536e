-- ===== src/Report/Conserve.antt =====
-- No log entry of a report is lost and none is sent twice (src/report_aggregator_impl.cc).
use service_control_client_c.Float.{Float}
use service_control_client_c.Prelude.{
  ℕ, ◌+◌, Bool, true, false, Option, none, some, List, [], ◌∷◌, map, Text, text_eq, text_beq,
  if◌then◌else◌, ℤ, ◌≡◌, ◌≢◌, refl, ap, ◌∙◌, ◌⊎◌, inl, inr, sum_by, sum_by-append, arith,
  Bool-cases, Option-cases,
}
use service_control_client_c.Status.{Status, ok}
use service_control_client_c.Proto.{Operation, ReportRequest}
use service_control_client_c.Operation.{
  Kinds, Aggregator, new_aggregator, merge_operation, too_big, to_operation_proto,
}
use service_control_client_c.RemovedItems.{add_items, add_items_weight, flush_out}
use service_control_client_c.Cache.{
  lookup, write, release, remove, remove_expired_entries, remove_all,
}
use service_control_client_c.Cache.Conserve.{
  total, total-write, total-lookup, total-release, total-insert, total-remove, total-remove_all,
  total-remove_expired_entries,
}
use service_control_client_c.Cache.Reads.{find-lookup}
use service_control_client_c.Report.{
  merge_item, merge_from, ReportCache, ReportAggregator, to_request, report_signature,
  report_operation, report_operations, drained, flushed, has_high_important_operation, with_cache,
  report_cached, report, flush, flush_all,
}

module _ {D : Type 0} (fl : Float D) (md5 : Text → Text) (kinds : Kinds) (to_cycles : ℤ → Option ℕ)
    (f : Text → ℕ) where
  -- The weight of the log entries of operations, aggregated operations and requests.
  abbrev pub operation_weight : Operation D → ℕ
  operation_weight op = sum_by f op.log_entries

  abbrev pub iop_weight : Aggregator fl → ℕ
  iop_weight iop = operation_weight iop.operation

  abbrev pub request_weight : ReportRequest D → ℕ
  request_weight r = sum_by operation_weight r.operations

  shrink_total :
      (k : Text) (c : ReportCache fl md5 kinds to_cycles) (b : Bool)
      → total iop_weight (if b then remove k c else c) ≡ total iop_weight c
  shrink_total k c true = total-remove iop_weight k c
  shrink_total k c false = refl

  new_aggregator_weight :
      (op : Operation D) → iop_weight (new_aggregator fl md5 kinds op) ≡ operation_weight op
  unfolding new_aggregator
  new_aggregator_weight op = refl

  merge_operation_weight :
      (op : Operation D) (a : Aggregator fl)
      → iop_weight (merge_operation fl md5 kinds op a) ≡ iop_weight a + operation_weight op
  unfolding merge_operation
  merge_operation_weight op a = sum_by-append f (a.operation).log_entries op.log_entries

  total-report_operation :
      (now : ℕ) (op : Operation D) (c : ReportCache fl md5 kinds to_cycles) (next : ℕ)
      → total iop_weight (report_operation fl md5 kinds to_cycles now op (c, next)).0
        ≡ total iop_weight c + operation_weight op
  unfolding report_operation
  total-report_operation now op c next =
      let s = report_signature fl md5 kinds to_cycles op in
      let c' = (lookup s now c).0 in
      let kept = total-lookup iop_weight s now c in
      elim (Option-cases (lookup s now c).1) [
        | inl m ↦
            rw (m, report_operation)
              (let i = total-insert iop_weight s next (new_aggregator fl md5 kinds op) 1 now c' in
                omega (arith, i, kept, new_aggregator_weight op))
        | inr ((p, iop), m) ↦
            let (e, _, _, g, _, v) = find-lookup s now c p iop m in
            let merged = merge_operation fl md5 kinds op iop in
            let w = write s merged c' in
            rw (m, report_operation)
              (shrink_total s (release s p now w) (too_big fl merged)
                ∙ omega (
                  arith,
                  total-release iop_weight s p now w,
                  total-write iop_weight s merged c' _ g,
                  ap iop_weight v,
                  kept,
                  merge_operation_weight op iop,
                ))
      ]

  total-report_operations :
      (now : ℕ) (ops : List (Operation D)) (c : ReportCache fl md5 kinds to_cycles) (next : ℕ)
      → total iop_weight (report_operations fl md5 kinds to_cycles now ops (c, next)).0
        ≡ total iop_weight c + sum_by operation_weight ops
  unfolding report_operations
  total-report_operations now [] c next = omega arith
  total-report_operations now (op ∷ ops) c next =
      let st = report_operation fl md5 kinds to_cycles now op (c, next) in
      omega (arith, total-report_operations now ops st.0 st.1, total-report_operation now op c next)

  -- The requests that are made from discarded elements weigh what these weigh.
  merge_item_weight :
      (r x y : ReportRequest D)
      → merge_item r x ≡ some y
      → request_weight y ≡ request_weight x + request_weight r
  unfolding merge_item merge_from
  merge_item_weight r x y h =
      ground (arith, sum_by-append operation_weight x.operations r.operations)

  requests_weight :
      (a : ReportAggregator fl md5 kinds to_cycles) (iops : List (Aggregator fl))
      → sum_by request_weight (map (to_request fl md5 kinds to_cycles a) iops)
        ≡ sum_by iop_weight iops
  unfolding to_request to_operation_proto
  requests_weight a [] = refl
  requests_weight a (iop ∷ iops) = omega (arith, requests_weight a iops)

  flushed_weight :
      (a : ReportAggregator fl md5 kinds to_cycles) (c : ReportCache fl md5 kinds to_cycles)
      → a.has_callback ≡ true
      → total iop_weight (drained fl md5 kinds to_cycles c)
          + sum_by request_weight (flushed fl md5 kinds to_cycles a c)
        ≡ total iop_weight c
  unfolding drained flushed flush_out
  flushed_weight a c h =
      let requests = map (to_request fl md5 kinds to_cycles a) c.discarded in
      omega (
        arith,
        ap (λ b. sum_by request_weight (flush_out b (add_items merge_item [] requests))) h,
        add_items_weight merge_item request_weight merge_item_weight [] requests,
        requests_weight a c.discarded,
      )

  -- The weight of the log entries that wait in the cache.
  abbrev pub pending_in : Option (ReportCache fl md5 kinds to_cycles) → ℕ
  pending_in none = 0
  pending_in (some c) = total iop_weight c

  abbrev pub pending : ReportAggregator fl md5 kinds to_cycles → ℕ
  pending a = pending_in a.cache

  -- A call that was given `extra` log entries accounts for them, or changes nothing.
  abbrev pub Accounts :
      ReportAggregator fl md5 kinds to_cycles
      → ℕ
      → ℕ
      → ReportAggregator fl md5 kinds to_cycles × Status × List (ReportRequest D)
      → Type 0
  Accounts a before extra r =
      ((r.1 ≡ ok) × (pending r.0 + sum_by request_weight r.2 ≡ before + extra))
      ⊎ ((r.1 ≢ ok) × (r.0 ≡ a) × (r.2 ≡ []))

  report_cached_conserves :
      (now : ℕ) (ops : List (Operation D)) (a : ReportAggregator fl md5 kinds to_cycles)
      (o : Option (ReportCache fl md5 kinds to_cycles))
      → a.has_callback ≡ true
      → Accounts a
          (pending_in o)
          (sum_by operation_weight ops)
          (report_cached fl md5 kinds to_cycles now ops a o)
  unfolding report_cached
  report_cached_conserves now ops a none h = inr (ground arith, refl, refl)
  report_cached_conserves now ops a (some c) h =
      let c' = (report_operations fl md5 kinds to_cycles now ops (c, a.next_ptr)).0 in
      inl (refl, flushed_weight a c' h ∙ total-report_operations now ops c a.next_ptr)

  with_cache_conserves :
      (g : ReportCache fl md5 kinds to_cycles → ReportCache fl md5 kinds to_cycles)
      → ((c : ReportCache fl md5 kinds to_cycles) → total iop_weight (g c) ≡ total iop_weight c)
      → (a : ReportAggregator fl md5 kinds to_cycles)
        (o : Option (ReportCache fl md5 kinds to_cycles))
      → a.cache ≡ o
      → a.has_callback ≡ true
      → Accounts a (pending_in o) 0 (with_cache fl md5 kinds to_cycles g a o)
  unfolding with_cache
  with_cache_conserves g keeps a none e h = inl (refl, omega (arith, ap pending_in e))
  with_cache_conserves g keeps a (some c) e h =
      inl (refl, omega (arith, flushed_weight a (g c) h, keeps c))

  -- Where a flush callback is set, a report that is aggregated keeps every log entry: for every weight of log entries, what then
  -- waits in the cache and what was handed to the flush callback weigh together what waited
  -- before and what the request brought. A report that is not aggregated changes nothing and
  -- flushes nothing.
  pub report_conserves :
      (now : ℕ) (request : ReportRequest D) (a : ReportAggregator fl md5 kinds to_cycles)
      → a.has_callback ≡ true
      → Accounts a
          (pending a)
          (request_weight request)
          (report fl md5 kinds to_cycles now request a)
  unfolding report
  report_conserves now request a h =
      elim (Bool-cases (text_beq request.service_name a.service_name)) [
        | inr e ↦ rw e (inr (ground arith, refl, refl))
        | inl e ↦ elim (Bool-cases (has_high_important_operation request.operations)) [
          | inl i ↦ rw (e, i) (inr (ground arith, refl, refl))
          | inr i ↦ rw (e, i) (report_cached_conserves now request.operations a a.cache h)
        ]
      ]

  -- Where a flush callback is set, a flush of the expired elements, or of all, hands to the callback exactly the log entries
  -- that leave the cache.
  pub flush_conserves :
      (now : ℕ) (a : ReportAggregator fl md5 kinds to_cycles)
      → a.has_callback ≡ true
      → Accounts a (pending a) 0 (flush fl md5 kinds to_cycles now a)
        × Accounts a (pending a) 0 (flush_all fl md5 kinds to_cycles a)
  unfolding flush flush_all
  flush_conserves now a h = (
    with_cache_conserves (remove_expired_entries now) (total-remove_expired_entries iop_weight now)
        a a.cache refl h,
    with_cache_conserves remove_all (total-remove_all iop_weight) a a.cache refl h,
  )
