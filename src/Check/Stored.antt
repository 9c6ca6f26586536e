-- ===== src/Check/Stored.antt =====
-- A response that is cached is what later checks get (CacheResponse and Check of
-- src/check_aggregator_impl.cc).
use service_control_client_c.Float.{Float}
use service_control_client_c.Prelude.{
  Option-cases, ℕ, ◌+◌, ◌≤◌, ◌≡◌, refl, ap, ◌⊎◌, true, false, Option, none, some, Text, text_eq, ℤ,
  leb_ℤ, sub_ℕ, inl, inr,
}
use service_control_client_c.Status.{ok}
use service_control_client_c.Proto.{Operation, CheckRequest, CheckResponse}
use service_control_client_c.Operation.{Kinds}
use service_control_client_c.Cache.{Elem, find, find_deferred, new_elem}
use service_control_client_c.Cache.Reads.{fresh, lookup_hit, lookup_miss}
use service_control_client_c.Cache.Rests.{Rests, IsFresh, expire-Rests, touch-Rests, insert-Rests}
use service_control_client_c.Check.{
  CacheElem, CheckCache, CheckAggregator, check_signature, drained, check, refreshed,
  new_cache_elem, store, cache_response_in, cache_response,
}
use service_control_client_c.Check.Answers.{
  Caches, IsKept, IsChecked, is_due, IsFresh-elem, drained-Rests, check_cached,
}

module _ {D : Type 0} (fl : Float D) (md5 : Text → Text) (kinds : Kinds)
    (to_cycles : ℤ → Option ℕ) where
  -- The signature is not in the cache, which has room for one more element, in LRU mode.
  pub record HasRoom (s : Text) (next now : ℕ) (idle : Option ℕ)
      (c : CheckCache fl md5 kinds to_cycles) : Type 0 where
    pub absent : find s (fresh s now c).entries ≡ none
    pub alone : find_deferred s next (fresh s now c).defer ≡ none
    pub lru : (fresh s now c).lru ≡ true
    pub room : (fresh s now c).units + 1 ≤ (fresh s now c).max_units
    pub expires : (fresh s now c).max_idle ≡ idle

  -- What `store` leaves in the cache.
  record Stores (s : Text) (response : CheckResponse) (now : ℕ) (idle : Option ℕ)
      (c : CheckCache fl md5 kinds to_cycles) : Type 0 where
    elem : Elem Text (CacheElem fl md5 kinds to_cycles)
    rests : Rests s elem idle c
    responds : (elem.value).check_response ≡ response
    last_check : (elem.value).last_check_time ≡ now
    last_used : elem.last_use ≡ now

  store_found :
      (now : ℕ) (s : Text) (response : CheckResponse) (next : ℕ) (idle : Option ℕ)
      (e : Elem Text (CacheElem fl md5 kinds to_cycles)) (c : CheckCache fl md5 kinds to_cycles)
      → IsFresh now e idle
      → Rests s e idle c
      → Stores s response now idle (store fl md5 kinds to_cycles now s response next c)
  unfolding store
  store_found now s response next idle e c h r =
      let v = refreshed fl md5 kinds to_cycles now response e.value in
      let q = lookup_hit s now c e (expire-Rests now s e idle c h r).found in
      let t = touch-Rests s now v e idle c h r in
      rw (q, store)
        (record {
          elem = record e { pin = 0; value = v; last_use = now; linked = true };
          rests = t;
          responds = refl;
          last_check = refl;
          last_used = refl;
        })

  store_absent :
      (now : ℕ) (s : Text) (response : CheckResponse) (next : ℕ) (idle : Option ℕ)
      (c : CheckCache fl md5 kinds to_cycles)
      → HasRoom s next now idle c
      → Stores s response now idle (store fl md5 kinds to_cycles now s response next c)
  unfolding store
  store_absent now s response next idle c h =
      let v = new_cache_elem fl md5 kinds to_cycles now response in
      rw (lookup_miss s now c h.absent, store)
        (record {
          elem = record (new_elem s next v 1 now true) { pin = 0; linked = true };
          rests = rw (ap (λ l. l.0) (lookup_miss s now c h.absent)) (
              insert-Rests s next v 1 now idle (fresh s now c) h.absent h.alone h.lru h.room
                h.expires);
          responds = refl;
          last_check = refl;
          last_used = refl;
        })

  -- The signature has a cached response, or the cache has room for one.
  abbrev pub CanCache : Text → ℕ → Option ℕ → CheckAggregator fl md5 kinds to_cycles → Type 0
  CanCache s now idle a =
      ((old : CheckResponse) × (checked : ℕ) × (used : ℕ) × Caches fl md5 kinds to_cycles s old
          checked used idle a
        × IsKept fl md5 kinds to_cycles idle used now)
      ⊎ ((c : CheckCache fl md5 kinds to_cycles) × (a.cache ≡ some c)
          × HasRoom s a.next_ptr now idle c)

  stored-Caches :
      (now : ℕ) (op : Operation D) (response : CheckResponse) (idle : Option ℕ)
      (a : CheckAggregator fl md5 kinds to_cycles) (c : CheckCache fl md5 kinds to_cycles)
      → a.cache ≡ some c
      → (let s = check_signature fl md5 kinds to_cycles op in
          Stores s response now idle (store fl md5 kinds to_cycles now s response a.next_ptr c))
      → Caches fl md5 kinds to_cycles
          (check_signature fl md5 kinds to_cycles op)
          response
          now
          now
          idle
          (cache_response fl md5 kinds to_cycles now op response a).0
  unfolding cache_response cache_response_in
  stored-Caches now op response idle a c e t = rw e (record {
    cached = drained fl md5 kinds to_cycles (
        store fl md5 kinds to_cycles now (check_signature fl md5 kinds to_cycles op) response
          a.next_ptr c);
    elem = t.elem;
    enabled = refl;
    rests = drained-Rests fl md5 kinds to_cycles _ _ _ _ t.rests;
    responds = t.responds;
    last_check = t.last_check;
    last_used = t.last_used;
  })

  cache_response_interval :
      (now : ℕ) (op : Operation D) (response : CheckResponse)
      (a : CheckAggregator fl md5 kinds to_cycles)
      → (cache_response fl md5 kinds to_cycles now op response a).0.flush_interval_in_cycle
        ≡ a.flush_interval_in_cycle
  unfolding cache_response cache_response_in
  cache_response_interval now op response a = elim (Option-cases a.cache) [
    | inl e ↦ rw e
    | inr (c, e) ↦ rw e
  ]

  -- A response that is cached for an operation, whose signature has a cached response or for
  -- which the cache has room, is cached as checked and used at that time.
  pub cache_response-Caches :
      (now : ℕ) (op : Operation D) (response : CheckResponse) (idle : Option ℕ)
      (a : CheckAggregator fl md5 kinds to_cycles)
      → CanCache (check_signature fl md5 kinds to_cycles op) now idle a
      → Caches fl md5 kinds to_cycles
          (check_signature fl md5 kinds to_cycles op)
          response
          now
          now
          idle
          (cache_response fl md5 kinds to_cycles now op response a).0
  unfolding cache_response cache_response_in
  cache_response-Caches now op response idle a h =
      let s = check_signature fl md5 kinds to_cycles op in
      elim h [
        | inl (old, checked, used, r, k) ↦ stored-Caches now op response idle a r.cached r.enabled (
            store_found now s response a.next_ptr idle r.elem r.cached
              (IsFresh-elem fl md5 kinds to_cycles idle used now r.elem r.last_used k) r.rests)
        | inr (c, e, r) ↦
            stored-Caches now op response idle a c e
              (store_absent now s response a.next_ptr idle c r)
      ]

  -- A response that is cached is what every check of this service, of an operation of low importance
  -- with the same signature, gets, with the status ok,
  -- that comes before the response is due for a refresh and before it expires: where the signature
  -- had a cached response, or the cache had room for one.
  pub check_after_response :
      (now later : ℕ) (op op' : Operation D) (request : CheckRequest D) (response : CheckResponse)
      (idle : Option ℕ) (a : CheckAggregator fl md5 kinds to_cycles)
      → CanCache (check_signature fl md5 kinds to_cycles op) now idle a
      → check_signature fl md5 kinds to_cycles op' ≡ check_signature fl md5 kinds to_cycles op
      → IsChecked fl md5 kinds to_cycles request op'
          (cache_response fl md5 kinds to_cycles now op response a).0
      → leb_ℤ a.flush_interval_in_cycle (sub_ℕ later now) ≡ false
      → IsKept fl md5 kinds to_cycles idle now later
      → let r =
          check fl md5 kinds to_cycles later request
            (cache_response fl md5 kinds to_cycles now op response a).0 in
        (r.1 ≡ ok) × (r.2 ≡ some response)
  check_after_response now later op op' request response idle a h q k d f =
      let b = (cache_response fl md5 kinds to_cycles now op response a).0 in
      let s = cache_response-Caches now op response idle a h in
      let r =
        check_cached fl md5 kinds to_cycles later request op' response now now idle b k (rw q s)
          f in
      let e : is_due fl md5 kinds to_cycles b now later ≡ false =
        rw (cache_response_interval now op response a) d in
      (rw e at r.0, rw e at r.1)
