-- ===== src/Client/Blocking/Quotas.antt =====
-- The blocking variant of Quota beside the others (src/service_control_client_impl.cc).
use mathlib.Core.Path.{subst}
use service_control_client_c.Float.{Float}
use service_control_client_c.Prelude.{
  ℕ, suc, ◌≡◌, refl, ap, sym, ◌∙◌, Bool, true, false, Option, none, some, List, [], ◌∷◌, ◌++◌,
  length, length-append, Text, ℤ, Run, returns, no_fuel, undefined, returns-injective, ◌>>=◌, inl,
  inr, Bool-cases, sum_by, arith,
}
use service_control_client_c.Status.{Status, invalid_argument, is_not_found}
use service_control_client_c.Proto.{QuotaRequest, QuotaResponse}
use service_control_client_c.Quota.{QuotaAggregator}
use service_control_client_c.Quota.Calls.{quota}
use service_control_client_c.Quota.Returns.{IsFit}
use service_control_client_c.Client.Quotas.{
  QuotaService, quota_flush_callback, finish_call, route, quota_call, store_response,
  on_call_response,
}
use service_control_client_c.Client.Served.{
  IsServed, quota_call-IsServed, on_call_response-IsServed,
}
use service_control_client_c.Client.Promises.{
  Threads, after_call, after_response, awaited, blocked, owns,
}
use service_control_client_c.Client.Promises.Paired.{
  IsOutcome, after_call-IsPaired, after_response-IsPaired,
}

module _ {D : Type 0} (fl : Float D) (md5 : Text → Text) (to_cycles : ℤ → Option ℕ) where
  pub record QuotaSession : Type 0 where
    pub service : QuotaService fl md5 to_cycles
    pub threads : Threads

  -- A call, as `start_call` of Client/Blocking, and the response to the request of one.
  abbrev with_threads : QuotaService fl md5 to_cycles → Option Threads → Option QuotaSession
  with_threads s none = none
  with_threads s (some t) = some (record { service = s; threads = t })

  abbrev settle_call :
      Bool → QuotaSession → QuotaService fl md5 to_cycles → Run (Option QuotaSession)
  settle_call blocking x s' =
      let s = x.service in
      returns (
        with_threads s'
          (after_call blocking s.finished s'.finished (length s.asked) (length s'.asked) x.threads))

  abbrev settle_response :
      List (Option ℕ)
      → Option ℕ
      → List (Option ℕ)
      → QuotaSession
      → QuotaService fl md5 to_cycles
      → Run (Option QuotaSession)
  settle_response before owner after x s' = returns (
      with_threads s'
        (after_response before owner after (x.service).finished s'.finished x.threads))

  unfoldable pub start_quota :
      ℕ → ℕ → Bool → Bool → QuotaRequest D → QuotaSession → Run (Option QuotaSession)
  start_quota fuel now has_transport blocking request x =
      quota_call fl md5 to_cycles fuel now has_transport request x.service
      >>= settle_call blocking x

  unfoldable pub respond_quota :
      ℕ
      → ℕ
      → Status
      → List (QuotaRequest D)
      → QuotaRequest D
      → List (QuotaRequest D)
      → QuotaResponse
      → List (Option ℕ)
      → Option ℕ
      → List (Option ℕ)
      → QuotaSession
      → Run (Option QuotaSession)
  respond_quota fuel now status before request after response before_owners owner after_owners x =
      on_call_response fl md5 to_cycles fuel now status before request after response x.service
      >>= settle_response before_owners owner after_owners x

  pub record IsQuotaAligned (x : QuotaSession) : Type 0 where
    pub served : IsServed fl md5 to_cycles x.service
    pub paired : (n : ℕ) → sum_by (owns n) (x.threads).owners ≡ blocked n (x.threads).promises
    pub aligned : length (x.threads).owners ≡ length (x.service).asked

  routed-IsOutcome :
      (status : Status) (request : QuotaRequest D) (s : QuotaService fl md5 to_cycles)
      → let s' = route fl md5 to_cycles status request s in
        IsOutcome s.finished s'.finished (length s.asked) (length s'.asked)
  unfolding route finish_call
  routed-IsOutcome status request s = elim (Bool-cases (is_not_found status)) [
    | inl e ↦ inl (rw e refl, rw e (omega (arith, length-append s.asked (request ∷ []))))
    | inr e ↦ inr (status, rw e refl, rw e refl)
  ]

  -- What the quota aggregator answered decides the outcome of a call.
  asked-IsOutcome :
      (answer : Run
        (QuotaAggregator fl md5 to_cycles × Status × Option QuotaResponse × List (QuotaRequest D)))
      (request : QuotaRequest D) (s s' : QuotaService fl md5 to_cycles)
      → (answer >>= λ r. returns (
          route fl md5 to_cycles r.1 request (
            quota_flush_callback fl md5 to_cycles r.3
              (record s { total_called = suc s.total_called; aggregator = r.0 }))))
        ≡ returns s'
      → IsOutcome s.finished s'.finished (length s.asked) (length s'.asked)
  unfolding quota_flush_callback
  asked-IsOutcome (returns r) request s s' e =
      subst (λ z. IsOutcome s.finished z.finished (length s.asked) (length z.asked))
        (returns-injective _ s' e)
        (routed-IsOutcome r.1 request (
          quota_flush_callback fl md5 to_cycles r.3
            (record s { total_called = suc s.total_called; aggregator = r.0 })))
  asked-IsOutcome no_fuel request s s' e = absurd (cc e)
  asked-IsOutcome undefined request s s' e = absurd (cc e)

  quota_call-IsOutcome :
      (fuel now : ℕ) (has_transport : Bool) (request : QuotaRequest D)
      (s s' : QuotaService fl md5 to_cycles)
      → quota_call fl md5 to_cycles fuel now has_transport request s ≡ returns s'
      → IsOutcome s.finished s'.finished (length s.asked) (length s'.asked)
  unfolding quota_call finish_call
  quota_call-IsOutcome fuel now false request s s' e =
      subst (λ z. IsOutcome s.finished z.finished (length s.asked) (length z.asked))
        (returns-injective _ s' e) (inr (invalid_argument, refl, refl))
  quota_call-IsOutcome fuel now true request s s' e =
      asked-IsOutcome (quota fl md5 to_cycles fuel now request s.aggregator) request s s' e

  -- The response of a call runs its done callback once.
  stored-finished :
      (run : Run (QuotaAggregator fl md5 to_cycles × List (QuotaRequest D))) (status : Status)
      (s s' : QuotaService fl md5 to_cycles)
      → ((run >>= λ r.
            returns (quota_flush_callback fl md5 to_cycles r.1 (record s { aggregator = r.0 })))
          >>= λ s₁. returns (finish_call fl md5 to_cycles status s₁))
        ≡ returns s'
      → (s'.finished ≡ s.finished ++ status ∷ []) × (s'.asked ≡ s.asked)
  unfolding quota_flush_callback finish_call
  stored-finished (returns r) status s s' e =
      let q = returns-injective _ s' e in (ap (λ z. z.finished) (sym q), ap (λ z. z.asked) (sym q))
  stored-finished no_fuel status s s' e = absurd (cc e)
  stored-finished undefined status s s' e = absurd (cc e)

  on_call_response-finished :
      (fuel now : ℕ) (status : Status) (before : List (QuotaRequest D)) (request : QuotaRequest D)
      (after : List (QuotaRequest D)) (response : QuotaResponse)
      (s s' : QuotaService fl md5 to_cycles)
      → on_call_response fl md5 to_cycles fuel now status before request after response s
        ≡ returns s'
      → (s'.finished ≡ s.finished ++ status ∷ []) × (s'.asked ≡ before ++ after)
  unfolding on_call_response store_response
  on_call_response-finished fuel now status before request after response s s' e =
      stored-finished _ status (record s { asked = before ++ after }) s' e

  -- A quota call, blocking or not, that finds room returns, with any fuel but 0, without a throw of
  -- `set_value`, and leaves the session aligned.
  start_quota-returns :
      (f now : ℕ) (has_transport blocking : Bool) (request : QuotaRequest D) (x : QuotaSession)
      → IsQuotaAligned x
      → IsFit fl md5 to_cycles now request (x.service).aggregator
      → (x' : QuotaSession) × (start_quota (suc f) now has_transport blocking request x
          ≡ returns (some x'))
        × IsQuotaAligned x'
  unfolding start_quota
  start_quota-returns f now has_transport blocking request x h fit =
      let s = x.service in
      let (s', e, q) =
        quota_call-IsServed fl md5 to_cycles f now has_transport request s h.served fit in
      let (t, r, l, p, _, _) =
        after_call-IsPaired blocking s.finished s'.finished (length s.asked) (length s'.asked)
          x.threads (quota_call-IsOutcome (suc f) now has_transport request s s' e) h.paired
          h.aligned in
      (
        record { service = s'; threads = t },
        ap (λ run. run >>= settle_call blocking x) e ∙ ap (λ o. returns (with_threads s' o)) r,
        record { served = q; paired = p; aligned = l },
      )

  -- Where the aggregator is at rest and the threads are blocked exactly while one request of each
  -- waits, the response to the quota request of a thread returns, with any fuel but 0, without a
  -- throw of `set_value`; the thread gets the status of the response, the aggregator is at rest
  -- again, and again the threads are blocked exactly while one request of each waits.
  pub respond_quota-returns :
      (f now : ℕ) (status : Status) (before : List (QuotaRequest D)) (request : QuotaRequest D)
      (after : List (QuotaRequest D)) (response : QuotaResponse) (before_owners : List (Option ℕ))
      (n : ℕ) (after_owners : List (Option ℕ)) (x : QuotaSession)
      → IsQuotaAligned x
      → (x.service).asked ≡ before ++ request ∷ after
      → (x.threads).owners ≡ before_owners ++ some n ∷ after_owners
      → (x' : QuotaSession) × (respond_quota
            (suc f)
            now
            status
            before
            request
            after
            response
            before_owners
            (some n)
            after_owners
            x
          ≡ returns (some x'))
        × IsQuotaAligned x'
        × (awaited n x'.threads ≡ some status)
  unfolding respond_quota
  respond_quota-returns f now status before request after response bo n ao x h w v =
      let s = x.service in
      let (s', e, q) =
        on_call_response-IsServed fl md5 to_cycles f now status before request after response s w
          h.served in
      let (i, j) =
        on_call_response-finished (suc f) now status before request after response s s' e in
      let (t, r, o, p, g, _) =
        after_response-IsPaired bo (some n) ao s.finished status x.threads v h.paired in
      (
        record { service = s'; threads = t },
        ap (λ run. run >>= settle_response bo (some n) ao x) e
            ∙ ap
                (λ z.
                  returns (with_threads s' (after_response bo (some n) ao s.finished z x.threads)))
                i
            ∙ ap (λ o. returns (with_threads s' o)) r,
        record {
          served = q;
          paired = p;
          aligned = omega (
            arith,
            h.aligned,
            ap length o,
            ap length j,
            ap length v,
            ap length w,
            length-append bo (some n ∷ ao),
            length-append bo ao,
            length-append before (request ∷ after),
            length-append before after,
          );
        },
        g n refl,
      )
