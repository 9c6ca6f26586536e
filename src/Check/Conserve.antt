-- ===== src/Check/Conserve.antt =====
-- No log entry of an aggregated check is lost, and none is sent twice by the aggregator
-- (src/check_aggregator_impl.cc).
use service_control_client_c.Float.{Float}
use service_control_client_c.Prelude.{
  ℕ, ◌+◌, ◌≡◌, refl, ap, true, Option, none, some, List, [], ◌∷◌, Text, text_eq, ℤ, sum_by, arith,
  Option-cases, inl, inr,
}
use service_control_client_c.Proto.{Operation, CheckRequest}
use service_control_client_c.Operation.{Kinds, Aggregator, to_operation_proto}
use service_control_client_c.RemovedItems.{add_items, add_items_weight, flush_out}
use service_control_client_c.Cache.{remove_expired_entries, remove_all}
use service_control_client_c.Cache.Conserve.{total, total-remove_all, total-remove_expired_entries}
use service_control_client_c.Check.{
  CacheElem, CheckCache, CheckAggregator, return_check_request, removed_requests, never_merge,
  drained, flushed, update_cache, flush_checks, flush_all_checks,
}

module _ {D : Type 0} (fl : Float D) (md5 : Text → Text) (kinds : Kinds) (to_cycles : ℤ → Option ℕ)
    (f : Text → ℕ) where
  -- The weight of the log entries of aggregated operations, elements and requests.
  abbrev weigh_aggregator : Option (Aggregator fl) → ℕ
  weigh_aggregator none = 0
  weigh_aggregator (some iop) = sum_by f (iop.operation).log_entries

  abbrev pub elem_weight : CacheElem fl md5 kinds to_cycles → ℕ
  elem_weight e = weigh_aggregator e.operation_aggregator

  abbrev weigh_operation : Option (Operation D) → ℕ
  weigh_operation none = 0
  weigh_operation (some op) = sum_by f op.log_entries

  abbrev pub check_weight : CheckRequest D → ℕ
  check_weight r = weigh_operation r.operation

  returned_weight :
      (service config : Text) (e : CacheElem fl md5 kinds to_cycles)
      → check_weight (return_check_request fl md5 kinds to_cycles service config e) ≡ elem_weight e
  unfolding return_check_request to_operation_proto
  returned_weight service config e = elim (Option-cases e.operation_aggregator) [
    | inl m ↦ rw m refl
    | inr (iop, m) ↦ rw m refl
  ]

  removed_requests_weight :
      (a : CheckAggregator fl md5 kinds to_cycles) (es : List (CacheElem fl md5 kinds to_cycles))
      → sum_by check_weight (removed_requests fl md5 kinds to_cycles a es) ≡ sum_by elem_weight es
  unfolding removed_requests
  removed_requests_weight a [] = refl
  removed_requests_weight a (e ∷ es) = elim (Option-cases e.operation_aggregator) [
    | inl m ↦ rw (m, removed_requests) (omega (arith, removed_requests_weight a es))
    | inr (iop, m) ↦
        rw (m, removed_requests)
          (omega (
            arith,
            removed_requests_weight a es,
            returned_weight a.service_name a.service_config_id e,
            ap weigh_aggregator m,
          ))
  ]

  pub flushed_checks_weight :
      (a : CheckAggregator fl md5 kinds to_cycles) (c : CheckCache fl md5 kinds to_cycles)
      → a.has_callback ≡ true
      → total elem_weight (drained fl md5 kinds to_cycles c)
          + sum_by check_weight (flushed fl md5 kinds to_cycles a c)
        ≡ total elem_weight c
  unfolding drained flushed flush_out
  flushed_checks_weight a c h =
      let requests = removed_requests fl md5 kinds to_cycles a c.discarded in
      omega (
        arith,
        ap (λ b. sum_by check_weight (flush_out b (add_items never_merge [] requests))) h,
        add_items_weight never_merge check_weight (λ r x y e. absurd (cc e)) [] requests,
        removed_requests_weight a c.discarded,
      )

  -- The weight of the log entries that wait in the cache.
  abbrev pub weigh_cache : Option (CheckCache fl md5 kinds to_cycles) → ℕ
  weigh_cache none = 0
  weigh_cache (some c) = total elem_weight c

  abbrev pub waiting_weight : CheckAggregator fl md5 kinds to_cycles → ℕ
  waiting_weight a = weigh_cache a.cache

  abbrev pub Balances : ℕ → CheckAggregator fl md5 kinds to_cycles × List (CheckRequest D) → Type 0
  Balances before r = waiting_weight r.0 + sum_by check_weight r.1 ≡ before

  update_cache-Balances :
      (g : CheckCache fl md5 kinds to_cycles → CheckCache fl md5 kinds to_cycles)
      → ((c : CheckCache fl md5 kinds to_cycles) → total elem_weight (g c) ≡ total elem_weight c)
      → (a : CheckAggregator fl md5 kinds to_cycles)
        (o : Option (CheckCache fl md5 kinds to_cycles))
      → a.cache ≡ o
      → a.has_callback ≡ true
      → Balances (weigh_cache o) (update_cache fl md5 kinds to_cycles g a o)
  unfolding update_cache
  update_cache-Balances g keeps a none e h = omega (arith, ap weigh_cache e)
  update_cache-Balances g keeps a (some c) e h =
      omega (arith, flushed_checks_weight a (g c) h, keeps c)

  -- Where a flush callback is set, a flush of the expired responses, or of all, hands to the
  -- callback requests with exactly the log entries that leave the cache: for every weight of log
  -- entries, what stays and what is flushed weigh what was there.
  pub flush_checks_conserve :
      (now : ℕ) (a : CheckAggregator fl md5 kinds to_cycles)
      → a.has_callback ≡ true
      → Balances (waiting_weight a) (flush_checks fl md5 kinds to_cycles now a)
        × Balances (waiting_weight a) (flush_all_checks fl md5 kinds to_cycles a)
  unfolding flush_checks flush_all_checks
  flush_checks_conserve now a h = (
    update_cache-Balances (remove_expired_entries now)
        (total-remove_expired_entries elem_weight now) a a.cache refl h,
    update_cache-Balances remove_all (total-remove_all elem_weight) a a.cache refl h,
  )
