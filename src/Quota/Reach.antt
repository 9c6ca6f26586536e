-- ===== src/Quota/Reach.antt =====
-- The states that the calls of QuotaAggregatorImpl (src/quota_aggregator_impl.cc) reach while the
-- cache has room for what is inserted.
use mathlib.Core.Path.{subst}
use service_control_client_c.Float.{Float}
use service_control_client_c.Prelude.{
  ℕ, suc, ◌≡◌, sym, ◌∙◌, true, Option, Text, ℤ, Run, returns, returns-injective,
}
use service_control_client_c.Proto.{QuotaOperation, QuotaRequest, QuotaResponse}
use service_control_client_c.Quota.{QuotaAggregator, QuotaOptions, new_quota_aggregator}
use service_control_client_c.Quota.Calls.{
  quota, QuotaResult, cache_quota_response, flush_quota, flush_all_quota,
}
use service_control_client_c.Quota.Returns.{
  IsAtRest, IsFit, Outcome, new_quota_aggregator-IsAtRest, quota-returns, flush_quota-returns,
  cache_quota_response-returns, flush_all_quota-returns,
}

module _ {D : Type 0} (fl : Float D) (md5 : Text → Text) (to_cycles : ℤ → Option ℕ) where
  -- A sequence of calls; every call of `Quota` finds room.
  pub data Reach : QuotaAggregator fl md5 to_cycles → Type 0 where
    created :
        (service config : Text) (options : QuotaOptions)
        → Reach (new_quota_aggregator fl md5 to_cycles service config options)
    with_callback :
        {a : QuotaAggregator fl md5 to_cycles} → Reach a → Reach (record a { has_callback = true })
    asked :
        {a : QuotaAggregator fl md5 to_cycles} (f now : ℕ) (request : QuotaRequest D)
        (r : QuotaResult fl md5 to_cycles)
        → Reach a
        → IsFit fl md5 to_cycles now request a
        → quota fl md5 to_cycles (suc f) now request a ≡ returns r
        → Reach r.0
    stored :
        {a : QuotaAggregator fl md5 to_cycles} (f now : ℕ) (op : QuotaOperation D)
        (response : QuotaResponse) (r : Outcome fl md5 to_cycles)
        → Reach a
        → cache_quota_response fl md5 to_cycles (suc f) now op response a ≡ returns r
        → Reach r.0
    flushed :
        {a : QuotaAggregator fl md5 to_cycles} (f now : ℕ) (r : Outcome fl md5 to_cycles)
        → Reach a
        → flush_quota fl md5 to_cycles (suc f) now a ≡ returns r
        → Reach r.0
    emptied :
        {a : QuotaAggregator fl md5 to_cycles} (f now : ℕ) (r : Outcome fl md5 to_cycles)
        → Reach a
        → flush_all_quota fl md5 to_cycles (suc f) now a ≡ returns r
        → Reach r.0

  -- The result of a run has what a result of the run has.
  of_result {ℓ} :
      {A : Type ℓ} (P : A → Type 0) (x : Run A) (r : A)
      → x ≡ returns r
      → (r' : A) × (x ≡ returns r') × P r'
      → P r
  of_result P x r h (r', e, p) = subst P (returns-injective r' r (sym e ∙ h)) p

  Reach-IsAtRest : (a : QuotaAggregator fl md5 to_cycles) → Reach a → IsAtRest fl md5 to_cycles a
  Reach-IsAtRest _ (created service config options) =
      new_quota_aggregator-IsAtRest fl md5 to_cycles service config options
  Reach-IsAtRest _ (with_callback {a} h) = Reach-IsAtRest a h
  Reach-IsAtRest _ (asked {a} f now request r h fit e) =
      of_result (λ x. IsAtRest fl md5 to_cycles x.0) _ r e
        (quota-returns fl md5 to_cycles f now request a (Reach-IsAtRest a h) fit)
  Reach-IsAtRest _ (stored {a} f now op response r h e) =
      of_result (λ x. IsAtRest fl md5 to_cycles x.0) _ r e
        (cache_quota_response-returns fl md5 to_cycles f now op response a (Reach-IsAtRest a h))
  Reach-IsAtRest _ (flushed {a} f now r h e) =
      of_result (λ x. IsAtRest fl md5 to_cycles x.0) _ r e
        (flush_quota-returns fl md5 to_cycles f now a (Reach-IsAtRest a h))
  Reach-IsAtRest _ (emptied {a} f now r h e) =
      of_result (λ x. IsAtRest fl md5 to_cycles x.0) _ r e
        (flush_all_quota-returns fl md5 to_cycles f now a (Reach-IsAtRest a h))

  -- In a state that calls reach from a new aggregator, where every earlier Quota request too had
  -- metrics with values and a signature that the cache held or had room for, Quota returns for a
  -- request of this kind, with any fuel but 0. The state after it is at rest, and reached in this
  -- way.
  pub Reach-quota :
      (a : QuotaAggregator fl md5 to_cycles) (f now : ℕ) (request : QuotaRequest D)
      → Reach a
      → IsFit fl md5 to_cycles now request a
      → (r : QuotaResult fl md5 to_cycles) × (quota fl md5 to_cycles (suc f) now request a
          ≡ returns r)
        × IsAtRest fl md5 to_cycles r.0
        × Reach r.0
  Reach-quota a f now request h fit =
      let (r, e, q) = quota-returns fl md5 to_cycles f now request a (Reach-IsAtRest a h) fit in
      (r, e, q, asked f now request r h fit e)

  -- In a state that calls reach from a new aggregator, where every Quota request had metrics with
  -- values and a signature that the cache held or had room for, Flush, CacheResponse and FlushAll
  -- return, with any fuel but 0, to states that are at rest, and reached in this way.
  pub Reach-others :
      (a : QuotaAggregator fl md5 to_cycles) (f now : ℕ) (op : QuotaOperation D)
      (response : QuotaResponse)
      → Reach a
      → ((r : Outcome fl md5 to_cycles) × (flush_quota fl md5 to_cycles (suc f) now a ≡ returns r)
          × IsAtRest fl md5 to_cycles r.0
          × Reach r.0)
        × ((r : Outcome fl md5 to_cycles) × (cache_quota_response fl md5 to_cycles
                (suc f)
                now
                op
                response
                a
              ≡ returns r)
            × IsAtRest fl md5 to_cycles r.0
            × Reach r.0)
        × ((r : Outcome fl md5 to_cycles) × (flush_all_quota fl md5 to_cycles (suc f) now a
              ≡ returns r)
            × IsAtRest fl md5 to_cycles r.0
            × Reach r.0)
  Reach-others a f now op response h =
      let rest = Reach-IsAtRest a h in
      let (r, e, q) = flush_quota-returns fl md5 to_cycles f now a rest in
      let (r', e', q') = cache_quota_response-returns fl md5 to_cycles f now op response a rest in
      let (r'', e'', q'') = flush_all_quota-returns fl md5 to_cycles f now a rest in
      (
        (r, e, q, flushed f now r h e),
        (r', e', q', stored f now op response r' h e'),
        (r'', e'', q'', emptied f now r'' h e''),
      )
