-- ===== src/Quota/Flushes.antt =====
-- CacheResponse, Flush and FlushAll of QuotaAggregatorImpl (src/quota_aggregator_impl.cc) on a cache
-- that is at rest.
use service_control_client_c.Float.{Float}
use service_control_client_c.Prelude.{
  ℕ, suc, ◌+◌, ◌-◌, ◌≡◌, refl, ap, sym, ◌∙◌, true, false, Option, none, some, List, [], ◌∷◌, length,
  arith, Text, text_eq, ℤ, All, returns, ◌>>=◌,
}
use service_control_client_c.Proto.{QuotaOperation, QuotaRequest, QuotaResponse}
use service_control_client_c.Cache.{find}
use service_control_client_c.Cache.Table.{All-find}
use service_control_client_c.Cache.Deleter.{remove_all_with, remove_elems_with}
use service_control_client_c.Cache.Deleter.Room.{remove_elem_with-unpinned, visited}
use service_control_client_c.Cache.Deleter.Lookups.{lookup_with-missing, lookup_with-found}
use service_control_client_c.Quota.{
  QuotaElem, QuotaCache, QuotaWorld, QuotaAggregator, set_quota_response, on_delete,
}
use service_control_client_c.Quota.Calls.{
  quota_signature, store_quota, finish_quota, cache_quota_in, cache_quota_response, flush_quota_in,
  flush_quota, flush_all_quota_in, flush_all_quota,
}
use service_control_client_c.Quota.Expiry.{QuotaEntry, IsCalm}
use service_control_client_c.Quota.Quiet.{
  IsQuiet, rested, refreshes, remove_expired-rested, rested-IsQuiet,
}
use service_control_client_c.Quota.Answers.{no_deferred, stored}

module _ {D : Type 0} (fl : Float D) (md5 : Text → Text) (to_cycles : ℤ → Option ℕ) where
  module _ (a : QuotaAggregator fl md5 to_cycles) (now f : ℕ)
      (c : QuotaCache fl md5 to_cycles) where
    -- On a cache at rest, Flush with any fuel but 0 is one pass over the chain from its tail: the idle
    -- elements leave, those that are not to be dropped come back at the head, refreshed where that is
    -- due, and the requests of the refreshes are what the call sends.
    pub flush_quota-rested :
        a.cache ≡ some c
        → IsQuiet fl md5 to_cycles c
        → flush_quota fl md5 to_cycles (suc f) now a
          ≡ returns (
              finish_quota fl md5 to_cycles a
                (rested fl md5 to_cycles a now c, refreshes fl md5 to_cycles a now c))
    unfolding flush_quota flush_quota_in
    flush_quota-rested h q =
        ap (flush_quota_in fl md5 to_cycles (suc f) now a) h
        ∙ ap (λ r. r >>= λ w. returns (finish_quota fl md5 to_cycles a w))
            (remove_expired-rested fl md5 to_cycles a now f c [] q)

    -- What a response makes of the element.
    abbrev pub with_response :
        QuotaResponse → QuotaElem fl md5 to_cycles → QuotaElem fl md5 to_cycles
    with_response response v =
        set_quota_response fl md5 to_cycles response (record v { in_flight = false })

    pub cache_quota_response-found :
        (op : QuotaOperation D) (response : QuotaResponse) (e : QuotaEntry fl md5 to_cycles)
        → a.cache ≡ some c
        → IsQuiet fl md5 to_cycles c
        → find (quota_signature fl md5 to_cycles op) (rested fl md5 to_cycles a now c).entries
          ≡ some e
        → cache_quota_response fl md5 to_cycles (suc f) now op response a
          ≡ returns (
              finish_quota fl md5 to_cycles a (
                stored fl md5 to_cycles
                    (quota_signature fl md5 to_cycles op)
                    e
                    (with_response response e.value)
                    (rested fl md5 to_cycles a now c),
                refreshes fl md5 to_cycles a now c,
              ))
    unfolding cache_quota_response cache_quota_in store_quota
    cache_quota_response-found op response e h q found =
        let s = quota_signature fl md5 to_cycles op in
        let c1 = rested fl md5 to_cycles a now c in
        let q1 = rested-IsQuiet fl md5 to_cycles a now c q in
        let m : IsCalm fl md5 to_cycles e =
          All-find (IsCalm fl md5 to_cycles) s c1.entries e q1.calm found in
        let items = refreshes fl md5 to_cycles a now c in
        let delete = on_delete fl md5 to_cycles (suc f) now a in
        ap (cache_quota_in fl md5 to_cycles (suc f) now op response a) h
        ∙ (ap
              (λ r. r >>= λ x.
                (store_quota fl md5 to_cycles (suc f) now s response a x >>= λ w.
                returns (finish_quota fl md5 to_cycles a w)))
              (lookup_with-found delete s now e (c, []) (c1, items)
                (remove_expired-rested fl md5 to_cycles a now f c [] q) found)
            ∙ ap (λ r. r >>= λ w. returns (finish_quota fl md5 to_cycles a w))
                (visited delete s e.ptr now (with_response response e.value) e c1 items found
                  m.unpinned (no_deferred fl md5 to_cycles s e.ptr c1.defer q1.undeferred) q1.aged
                  q1.room))

    pub cache_quota_response-missing :
        (op : QuotaOperation D) (response : QuotaResponse)
        → a.cache ≡ some c
        → IsQuiet fl md5 to_cycles c
        → find (quota_signature fl md5 to_cycles op) (rested fl md5 to_cycles a now c).entries
          ≡ none
        → cache_quota_response fl md5 to_cycles (suc f) now op response a
          ≡ flush_quota fl md5 to_cycles (suc f) now a
    unfolding cache_quota_response cache_quota_in store_quota
    cache_quota_response-missing op response h q missing =
        let s = quota_signature fl md5 to_cycles op in
        let c1 = rested fl md5 to_cycles a now c in
        let items = refreshes fl md5 to_cycles a now c in
        let delete = on_delete fl md5 to_cycles (suc f) now a in
        ap (cache_quota_in fl md5 to_cycles (suc f) now op response a) h
        ∙ (ap
              (λ r. r >>= λ x.
                (store_quota fl md5 to_cycles (suc f) now s response a x >>= λ w.
                returns (finish_quota fl md5 to_cycles a w)))
              (lookup_with-missing delete s now (c, []) (c1, items)
                (remove_expired-rested fl md5 to_cycles a now f c [] q) missing)
            ∙ sym (flush_quota-rested h q))

  -- With `in_flush_all_` set, the deleter lets every element go.
  on_delete-flushed :
      (a : QuotaAggregator fl md5 to_cycles) (now f p : ℕ) (v : QuotaElem fl md5 to_cycles)
      (w : QuotaWorld fl md5 to_cycles)
      → a.in_flush_all ≡ true
      → on_delete fl md5 to_cycles (suc f) now a p v w ≡ returns w
  unfolding on_delete
  on_delete-flushed a now f p v w h = rw h refl

  remove_elems-flushed :
      (a : QuotaAggregator fl md5 to_cycles) (now f n : ℕ) (es : List (QuotaEntry fl md5 to_cycles))
      (c : QuotaCache fl md5 to_cycles) (items : List (QuotaRequest D))
      → a.in_flush_all ≡ true
      → All (IsCalm fl md5 to_cycles) es
      → c.units ≡ length es + n
      → remove_elems_with (on_delete fl md5 to_cycles (suc f) now a) es (c, items)
        ≡ returns (record c { units = n }, items)
  unfolding remove_elems_with
  remove_elems-flushed a now f n [] c items h m u =
      let same : c.units ≡ n = omega (arith, u) in
      ap (λ k. returns (record c { units = k }, items)) same
  remove_elems-flushed a now f n (e ∷ es) c items h m u =
      let delete = on_delete fl md5 to_cycles (suc f) now a in
      let c' : QuotaCache fl md5 to_cycles = record c { units = c.units - e.units } in
      ap (λ r. r >>= λ w. remove_elems_with delete es w)
        (remove_elem_with-unpinned delete e c items m.0.unpinned
          ∙ on_delete-flushed a now f e.ptr e.value (c', items) h)
      ∙ remove_elems-flushed a now f n es c' items h m.1 (omega (arith, u, m.0.one_unit))

  -- On a cache at rest, FlushAll with any fuel but 0 returns, empties the cache and sends nothing.
  pub flush_all_quota-empty :
      (a : QuotaAggregator fl md5 to_cycles) (now f : ℕ) (c : QuotaCache fl md5 to_cycles)
      → a.cache ≡ some c
      → IsQuiet fl md5 to_cycles c
      → flush_all_quota fl md5 to_cycles (suc f) now a
        ≡ returns (
            finish_quota fl md5 to_cycles
              (record a { in_flush_all = true })
              (record c { units = 0; entries = [] }, []))
  unfolding flush_all_quota flush_all_quota_in remove_all_with
  flush_all_quota-empty a now f c h q =
      let a' : QuotaAggregator fl md5 to_cycles = record a { in_flush_all = true } in
      ap (flush_all_quota_in fl md5 to_cycles (suc f) now a') h
      ∙ ap
          (λ r.
            (r >>= λ (w' : QuotaWorld fl md5 to_cycles).
            returns (record (w'.0) { entries = [] }, w'.1))
            >>= λ w. returns (finish_quota fl md5 to_cycles a' w))
          (remove_elems-flushed a' now f 0 c.entries c [] refl q.calm (omega (arith, q.sized)))
