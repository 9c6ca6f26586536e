-- ===== src/Check/Absorb.antt =====
-- The log entries that Check and CacheResponse (src/check_aggregator_impl.cc) take in.
use service_control_client_c.Float.{Float}
use service_control_client_c.Prelude.{
  ℕ, ◌+◌, ◌≡◌, refl, ap, sym, ◌∙◌, Bool, true, not, Option, none, some, Text, text_eq, text_beq, ℤ,
  length, ltb, if◌then◌else◌, sum_by, sum_by-append, arith, Option-cases, Bool-cases, inl, inr,
}
use service_control_client_c.Proto.{Operation, CheckRequest, CheckResponse}
use service_control_client_c.Operation.{Kinds, new_aggregator, merge_operation}
use service_control_client_c.Report.{is_low}
use service_control_client_c.Cache.{lookup, write}
use service_control_client_c.Cache.Conserve.{
  total, total-write, total-lookup, total-release, total-insert,
}
use service_control_client_c.Cache.Reads.{find-lookup}
use service_control_client_c.Check.{
  CacheElem, CheckCache, CheckAggregator, aggregate, should_flush, answer, check_signature,
  check_lookup, check_operation, check, refreshed, new_cache_elem, store, cache_response_in,
  cache_response, flush_checks, flush_all_checks,
}
use service_control_client_c.Check.Conserve.{
  elem_weight, weigh_cache, waiting_weight, flushed_checks_weight, flush_checks_conserve, Balances,
}

module _ {D : Type 0} (fl : Float D) (md5 : Text → Text) (kinds : Kinds) (to_cycles : ℤ → Option ℕ)
    (f : Text → ℕ) where
  abbrev pub log_weight : Operation D → ℕ
  log_weight op = sum_by f op.log_entries

  -- A response without errors takes the operation in.
  abbrev pub passes : CacheElem fl md5 kinds to_cycles → Bool
  passes e = not (ltb 0 (length (e.check_response).check_errors))

  abbrev pub absorbed : Operation D → Option (ℕ × CacheElem fl md5 kinds to_cycles) → ℕ
  absorbed op none = 0
  absorbed op (some (p, e)) = if passes e then log_weight op else 0

  aggregate_weight :
      (op : Operation D) (e : CacheElem fl md5 kinds to_cycles)
      → elem_weight fl md5 kinds to_cycles f (aggregate fl md5 kinds to_cycles op e)
        ≡ elem_weight fl md5 kinds to_cycles f e + log_weight op
  unfolding aggregate new_aggregator merge_operation
  aggregate_weight op e = elim (Option-cases e.operation_aggregator) [
    | inl m ↦ rw m (omega arith)
    | inr (a, m) ↦ rw m (sum_by-append f (a.operation).log_entries op.log_entries)
  ]

  answer_weight :
      (interval : ℤ) (now : ℕ) (op : Operation D) (p : ℕ) (e : CacheElem fl md5 kinds to_cycles)
      → elem_weight fl md5 kinds to_cycles f (answer fl md5 kinds to_cycles interval now op e).0
        ≡ elem_weight fl md5 kinds to_cycles f e + absorbed op (some (p, e))
  unfolding answer
  answer_weight interval now op p e =
      elim (Bool-cases (ltb 0 (length (e.check_response).check_errors))) [
        | inl b ↦ elim (Bool-cases (should_flush fl md5 kinds to_cycles interval now e)) [
          | inl d ↦ rw (b, d) (omega arith)
          | inr d ↦ rw (b, d) (omega arith)
        ]
        | inr b ↦
            elim (Bool-cases (
              should_flush fl md5 kinds to_cycles interval now
                (aggregate fl md5 kinds to_cycles op e))) [
                  | inl d ↦ rw (b, d) (aggregate_weight op e)
                  | inr d ↦ rw (b, d) (aggregate_weight op e)
                ]
      ]

  total-check_lookup :
      (interval : ℤ) (now : ℕ) (op : Operation D) (c : CheckCache fl md5 kinds to_cycles)
      → let s = check_signature fl md5 kinds to_cycles op in
        total
          (elem_weight fl md5 kinds to_cycles f)
          (check_lookup fl md5 kinds to_cycles interval now op c).0
        ≡ total (elem_weight fl md5 kinds to_cycles f) c + absorbed op (lookup s now c).1
  unfolding check_lookup
  total-check_lookup interval now op c =
      let w = elem_weight fl md5 kinds to_cycles f in
      let s = check_signature fl md5 kinds to_cycles op in
      let c' = (lookup s now c).0 in
      elim (Option-cases (lookup s now c).1) [
        | inl m ↦ rw (m, check_lookup) (omega (arith, total-lookup w s now c))
        | inr ((p, e), m) ↦
            let (_, _, _, g, _, v) = find-lookup s now c p e m in
            let x = (answer fl md5 kinds to_cycles interval now op e).0 in
            rw (m, check_lookup)
              (omega (
                arith,
                total-release w s p now (write s x c'),
                total-write w s x c' _ g,
                ap w v,
                total-lookup w s now c,
                answer_weight interval now op p e,
              ))
      ]

  total-store :
      (now : ℕ) (s : Text) (response : CheckResponse) (next : ℕ)
      (c : CheckCache fl md5 kinds to_cycles)
      → total
          (elem_weight fl md5 kinds to_cycles f)
          (store fl md5 kinds to_cycles now s response next c)
        ≡ total (elem_weight fl md5 kinds to_cycles f) c
  unfolding store
  total-store now s response next c =
      let w = elem_weight fl md5 kinds to_cycles f in
      let c' = (lookup s now c).0 in
      elim (Option-cases (lookup s now c).1) [
        | inl m ↦
            let x = new_cache_elem fl md5 kinds to_cycles now response in
            rw (m, store) (omega (arith, total-insert w s next x 1 now c', total-lookup w s now c))
        | inr ((p, e), m) ↦
            let (_, _, _, g, _, v) = find-lookup s now c p e m in
            let x = refreshed fl md5 kinds to_cycles now response e in
            rw (m, store)
              (omega (
                arith,
                total-release w s p now (write s x c'),
                total-write w s x c' _ g,
                ap w v,
                total-lookup w s now c,
              ))
      ]

  cached_response-Balances :
      (now : ℕ) (op : Operation D) (response : CheckResponse)
      (a : CheckAggregator fl md5 kinds to_cycles) (o : Option (CheckCache fl md5 kinds to_cycles))
      → a.cache ≡ o
      → a.has_callback ≡ true
      → Balances fl md5 kinds to_cycles f
          (waiting_weight fl md5 kinds to_cycles f a)
          (cache_response_in fl md5 kinds to_cycles now op response a o)
  unfolding cache_response_in
  cached_response-Balances now op response a none m h = omega arith
  cached_response-Balances now op response a (some c) m h =
      let c' =
        store fl md5 kinds to_cycles now (check_signature fl md5 kinds to_cycles op) response
          a.next_ptr c in
      flushed_checks_weight fl md5 kinds to_cycles f a c' h
      ∙ total-store now (check_signature fl md5 kinds to_cycles op) response a.next_ptr c
      ∙ sym (ap (weigh_cache fl md5 kinds to_cycles f) m)

  -- The check of an operation that is not of high importance.
  checked_operation-Balances :
      (now : ℕ) (op : Operation D) (a : CheckAggregator fl md5 kinds to_cycles)
      (c : CheckCache fl md5 kinds to_cycles)
      → a.has_callback ≡ true
      → is_low op.importance ≡ true
      → let r = check_operation fl md5 kinds to_cycles now (some op) a (some c) in
        Balances fl md5 kinds to_cycles f
          (total (elem_weight fl md5 kinds to_cycles f) c
            + absorbed op (lookup (check_signature fl md5 kinds to_cycles op) now c).1)
          (r.0, r.3)
  unfolding check_operation
  checked_operation-Balances now op a c h l =
      let c' = (check_lookup fl md5 kinds to_cycles a.flush_interval_in_cycle now op c).0 in
      rw (l) (
        flushed_checks_weight fl md5 kinds to_cycles f a c' h
        ∙ total-check_lookup a.flush_interval_in_cycle now op c)

  -- Where a flush callback is set, no call loses a log entry or makes one up, whatever elements it
  -- takes out of the cache: for every weight of log entries, what waits in the cache after a Check
  -- (of this service, with an operation that is not of high importance) and what it hands to the
  -- callback weigh what waited before and, where a cached response without errors is found, the
  -- operation; after CacheResponse, Flush and FlushAll they weigh what waited before.
  pub checks_conserve :
      (now : ℕ) (request : CheckRequest D) (op : Operation D) (response : CheckResponse)
      (a : CheckAggregator fl md5 kinds to_cycles) (c : CheckCache fl md5 kinds to_cycles)
      → a.has_callback ≡ true
      → a.cache ≡ some c
      → request.operation ≡ some op
      → text_beq request.service_name a.service_name ≡ true
      → is_low op.importance ≡ true
      → (let r = check fl md5 kinds to_cycles now request a in
          Balances fl md5 kinds to_cycles f
            (waiting_weight fl md5 kinds to_cycles f a
              + absorbed op (lookup (check_signature fl md5 kinds to_cycles op) now c).1)
            (r.0, r.3))
        × Balances fl md5 kinds to_cycles f
            (waiting_weight fl md5 kinds to_cycles f a)
            (cache_response fl md5 kinds to_cycles now op response a)
        × Balances fl md5 kinds to_cycles f
            (waiting_weight fl md5 kinds to_cycles f a)
            (flush_checks fl md5 kinds to_cycles now a)
        × Balances fl md5 kinds to_cycles f
            (waiting_weight fl md5 kinds to_cycles f a)
            (flush_all_checks fl md5 kinds to_cycles a)
  unfolding check cache_response
  checks_conserve now request op response a c h m o n l = (
    rw (n, o, m) (checked_operation-Balances now op (record a { cache = some c }) c h l),
    cached_response-Balances now op response a a.cache refl h,
    (flush_checks_conserve fl md5 kinds to_cycles f now a h).0,
    (flush_checks_conserve fl md5 kinds to_cycles f now a h).1,
  )
