-- ===== src/Client/Closed.antt =====
-- An aggregator whose flush callback is disconnected (src/service_control_client_impl.cc): what it
-- does with a response.
use service_control_client_c.Float.{Float}
use service_control_client_c.Prelude.{
  ℕ, ◌≡◌, refl, ap, sym, ◌∙◌, Bool, true, false, Option, none, some, [], arith, Text, text_eq, ℤ,
  Run, returns, ◌>>=◌, Option-cases, Bool-cases, Eq, inl, inr,
}
use service_control_client_c.Status.{Status, is_ok}
use service_control_client_c.Proto.{
  Operation, CheckRequest, CheckResponse, QuotaOperation, QuotaRequest, QuotaResponse,
}
use service_control_client_c.Operation.{Kinds}
use service_control_client_c.RemovedItems.{add_items, flush_out}
use service_control_client_c.Cache.{Cache, find, chain}
use service_control_client_c.Cache.Deleter.{lookup_with, remove_expired_with, idle_loop_with}
use service_control_client_c.Check.{
  CheckAggregator, CheckCache, cache_response, cache_response_in, flushed, removed_requests,
  never_merge, store, check_signature,
}
use service_control_client_c.Quota.{QuotaAggregator, QuotaCache, on_delete}
use service_control_client_c.Quota.Calls.{
  cache_quota_in, store_quota, quota_flushed, quota_signature, finish_quota,
}
use service_control_client_c.Client.Kinds.{on_check_response}
use service_control_client_c.Client.Whole.{Client}

-- The cache, where there is one, has no elements.
abbrev pub NoEntries {ℓ} : {K V : Type ℓ} → Option (Cache K V) → Type ℓ
NoEntries none = Unit
NoEntries (some c) = c.entries ≡ []

module _ {ℓ} {K V : Type ℓ} ⦃eq : Eq K⦄ {S : Type ℓ}
    (delete : ℕ → V → Cache K V × S → Run (Cache K V × S)) where
  remove_expired_with-empty :
      (now : ℕ) (c : Cache K V) (s : S)
      → c.entries ≡ []
      → remove_expired_with delete now (c, s) ≡ returns (c, s)
  unfolding remove_expired_with idle_loop_with chain
  remove_expired_with-empty now c s e = elim (Option-cases c.max_idle) [
    | inl m ↦ ground (arith, m)
    | inr (idle, m) ↦ ground (arith, m, e)
  ]

  lookup_with-empty :
      (k : K) (now : ℕ) (c : Cache K V) (s : S)
      → c.entries ≡ []
      → lookup_with delete k now (c, s) ≡ returns ((c, s), none)
  unfolding lookup_with find
  lookup_with-empty k now c s e = ground (arith, remove_expired_with-empty now c s e, e)

module _ {D : Type 0} (fl : Float D) (md5 : Text → Text) (kinds : Kinds)
    (to_cycles : ℤ → Option ℕ) where
  -- No aggregator has a callback, and the quota aggregator holds nothing.
  pub record IsClosed (c : Client fl md5 kinds to_cycles) : Type 0 where
    pub checks_off : ((c.checks).aggregator).has_callback ≡ false
    pub quotas_off : ((c.quotas).aggregator).has_callback ≡ false
    pub reports_off : ((c.reports).aggregator).has_callback ≡ false
    pub quotas_empty : NoEntries ((c.quotas).aggregator).cache

  cached-closed :
      (now : ℕ) (op : Operation D) (response : CheckResponse)
      (a : CheckAggregator fl md5 kinds to_cycles) (o : Option (CheckCache fl md5 kinds to_cycles))
      → a.has_callback ≡ false
      → let r = cache_response_in fl md5 kinds to_cycles now op response a o in
        (r.1 ≡ []) × ((r.0).has_callback ≡ false)
  unfolding cache_response_in flushed flush_out
  cached-closed now op response a none h = (refl, h)
  cached-closed now op response a (some c) h = (
    ap
        (λ b. flush_out b (
          add_items never_merge [] (
            removed_requests fl md5 kinds to_cycles a
              (store fl md5 kinds to_cycles now (check_signature fl md5 kinds to_cycles op) response
                a.next_ptr c).discarded)))
        h,
    h,
  )

  pub check_response-closed :
      (now : ℕ) (status : Status) (request : CheckRequest D) (response : CheckResponse)
      (a : CheckAggregator fl md5 kinds to_cycles)
      → a.has_callback ≡ false
      → let r = on_check_response fl md5 kinds to_cycles now status request response a in
        (r.1 ≡ []) × ((r.0).has_callback ≡ false)
  unfolding on_check_response cache_response
  check_response-closed now status request response a h = elim (Bool-cases (is_ok status)) [
    | inl b ↦ rw b (cached-closed now _ response a a.cache h)
    | inr b ↦ rw b (refl, h)
  ]

  flush_nothing : (b : Bool) → flush_out {R = QuotaRequest D} b [] ≡ []
  unfolding flush_out
  flush_nothing true = refl
  flush_nothing false = refl

  -- A late response to a quota request finds nothing, whatever the fuel.
  pub cached_quota-closed :
      (fuel now : ℕ) (op : QuotaOperation D) (response : QuotaResponse)
      (a : QuotaAggregator fl md5 to_cycles) (o : Option (QuotaCache fl md5 to_cycles))
      → a.cache ≡ o
      → NoEntries o
      → cache_quota_in fl md5 to_cycles fuel now op response a o ≡ returns (a, [])
  unfolding cache_quota_in store_quota quota_flushed add_items
  cached_quota-closed fuel now op response a none m e = refl
  cached_quota-closed fuel now op response a (some c) m e =
      let k = quota_signature fl md5 to_cycles op in
      ap
        (λ x. x >>= λ found.
          (store_quota fl md5 to_cycles fuel now k response a found >>= λ w.
          returns (finish_quota fl md5 to_cycles a w)))
        (lookup_with-empty (on_delete fl md5 to_cycles fuel now a) k now c [] e)
      ∙ (ap (λ l. returns (record a { cache = some c }, l)) (flush_nothing a.has_callback)
          ∙ ap (λ o. returns (record a { cache = o }, [])) (sym m))
