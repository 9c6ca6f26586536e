-- ===== src/Quota/Hits.antt =====
-- The calls of QuotaAggregatorImpl (src/quota_aggregator_impl.cc) that find an element in the
-- cache: Quota, which adds to its operation, and CacheResponse, which stores a response in it.
use service_control_client_c.Float.{Float}
use service_control_client_c.Prelude.{
  ℕ, suc, ◌≡◌, refl, ap, ◌∙◌, Option, none, some, [], Text, text_eq, if◌then◌else◌, ℤ, All,
  Bool-cases, Option-cases, inl, inr, Run, returns, ◌>>=◌,
}
use service_control_client_c.Proto.{QuotaOperation, QuotaRequest}
use service_control_client_c.QuotaOperation.{
  QuotaAggregate, new_quota_aggregate, merge_quota_operation,
}
use service_control_client_c.QuotaOperation.Amounts.{HasValue, find-merge_amounts}
use service_control_client_c.Cache.{find, pin_elem, write}
use service_control_client_c.Cache.Table.{All-find}
use service_control_client_c.Cache.Deleter.{release_with}
use service_control_client_c.Cache.Deleter.Room.{visited}
use service_control_client_c.Cache.Deleter.Lookups.{lookup_with-found}
use service_control_client_c.Quota.{
  QuotaElem, QuotaCache, QuotaAggregator, is_positive, aggregate_quota, defined, on_delete,
}
use service_control_client_c.Quota.Calls.{quota_signature, quota_answer, quota}
use service_control_client_c.Quota.Expiry.{QuotaEntry, IsCalm}
use service_control_client_c.Quota.Quiet.{
  IsQuiet, rested, refreshes, remove_expired-rested, rested-IsQuiet,
}
use service_control_client_c.Quota.Answers.{no_deferred, stored, replied, quota-replied}

module _ {D : Type 0} (fl : Float D) (md5 : Text → Text) (to_cycles : ℤ → Option ℕ) where
  new_quota_aggregate-defined :
      (op : QuotaOperation D)
      → All (HasValue fl) op.quota_metrics
      → (g : QuotaAggregate fl) × (new_quota_aggregate fl op ≡ some g)
  unfolding new_quota_aggregate
  new_quota_aggregate-defined op h =
      let (m, e, _) = find-merge_amounts fl [] op.quota_metrics [] h in
      (record { operation = op; amounts = m }, rw e refl)

  merge_quota_operation-defined :
      (op : QuotaOperation D) (g : QuotaAggregate fl)
      → All (HasValue fl) op.quota_metrics
      → (g' : QuotaAggregate fl) × (merge_quota_operation fl op g ≡ some g')
  unfolding merge_quota_operation
  merge_quota_operation-defined op g h =
      let (m, e, _) = find-merge_amounts fl [] op.quota_metrics g.amounts h in
      (record { operation = g.operation; amounts = m }, rw e refl)

  -- What a call makes of the element it finds: a positive one counts the operation.
  abbrev pub counted :
      QuotaOperation D → QuotaElem fl md5 to_cycles → Run (QuotaElem fl md5 to_cycles)
  counted op v =
      if is_positive fl md5 to_cycles v then aggregate_quota fl md5 to_cycles op v else returns v

  aggregate_quota-at :
      (op : QuotaOperation D) (v : QuotaElem fl md5 to_cycles) (g : QuotaAggregate fl)
      (o : Option (QuotaAggregate fl))
      → v.operation_aggregator ≡ o
      → (elim o [ none ↦ new_quota_aggregate fl op | some x ↦ merge_quota_operation fl op x ])
        ≡ some g
      → aggregate_quota fl md5 to_cycles op v ≡ returns (record v { operation_aggregator = some g })
  unfolding aggregate_quota
  aggregate_quota-at op v g o n e =
      let next : Option (QuotaAggregate fl) → Run (QuotaElem fl md5 to_cycles) =
        λ x. defined x >>= λ y. returns (record v { operation_aggregator = some y }) in
      ap
        (λ (x : Option (QuotaAggregate fl)).
          next
            (elim x [ none ↦ new_quota_aggregate fl op | some y ↦ merge_quota_operation fl op y ]))
        n
      ∙ ap next e

  counted-returns :
      (op : QuotaOperation D) (v : QuotaElem fl md5 to_cycles)
      → All (HasValue fl) op.quota_metrics
      → (v' : QuotaElem fl md5 to_cycles) × (counted op v ≡ returns v')
        × (v'.quota_response ≡ v.quota_response)
        × (v'.signature ≡ v.signature)
  unfolding aggregate_quota
  counted-returns op v h =
      let with_operation : QuotaAggregate fl → QuotaElem fl md5 to_cycles =
        λ g. record v { operation_aggregator = some g } in
      elim (Bool-cases (is_positive fl md5 to_cycles v)) [
        | inr b ↦ (v, rw b refl, refl, refl)
        | inl b ↦ elim (Option-cases v.operation_aggregator) [
          | inl n ↦
              let (g, e) = new_quota_aggregate-defined op h in
              (with_operation g, rw b (aggregate_quota-at op v g none n e), refl, refl)
          | inr (g, n) ↦
              let (g', e) = merge_quota_operation-defined op g h in
              (with_operation g', rw b (aggregate_quota-at op v g' (some g) n e), refl, refl)
        ]
      ]

  module _ (a : QuotaAggregator fl md5 to_cycles) (now f : ℕ) where
    -- A call that finds its signature answers from the element and sends nothing for it.
    pub quota-hit :
        (request : QuotaRequest D) (op : QuotaOperation D) (c : QuotaCache fl md5 to_cycles)
        (e : QuotaEntry fl md5 to_cycles)
        → request.service_name ≡ a.service_name
        → request.allocate_operation ≡ some op
        → a.cache ≡ some c
        → IsQuiet fl md5 to_cycles c
        → find (quota_signature fl md5 to_cycles op) (rested fl md5 to_cycles a now c).entries
          ≡ some e
        → All (HasValue fl) op.quota_metrics
        → (v : QuotaElem fl md5 to_cycles) × (counted op e.value ≡ returns v)
          × (v.signature ≡ e.value.signature)
          × (quota fl md5 to_cycles (suc f) now request a
              ≡ replied fl md5 to_cycles a now f
                  (stored fl md5 to_cycles
                    (quota_signature fl md5 to_cycles op)
                    e
                    v
                    (rested fl md5 to_cycles a now c))
                  (refreshes fl md5 to_cycles a now c)
                  e.value.quota_response)
    unfolding quota_answer
    quota-hit request op c e n h k q found valued =
        let s = quota_signature fl md5 to_cycles op in
        let c1 = rested fl md5 to_cycles a now c in
        let q1 = rested-IsQuiet fl md5 to_cycles a now c q in
        let m : IsCalm fl md5 to_cycles e =
          All-find (IsCalm fl md5 to_cycles) s c1.entries e q1.calm found in
        let items = refreshes fl md5 to_cycles a now c in
        let delete = on_delete fl md5 to_cycles (suc f) now a in
        let (v, r, same, signed) = counted-returns op e.value valued in
        (
          v,
          r,
          signed,
          quota-replied fl md5 to_cycles a now f request op c (stored fl md5 to_cycles s e v c1)
              ((pin_elem s e c1, items), some (e.ptr, e.value)) items e.value.quota_response n h k
              (lookup_with-found delete s now e (c, []) (c1, items)
                (remove_expired-rested fl md5 to_cycles a now f c [] q) found)
              (ap
                  (λ r'. r' >>= λ x.
                    (release_with delete s e.ptr now (write s x (pin_elem s e c1), items) >>= λ w'.
                    returns (w', x.quota_response)))
                  r
                ∙ (ap (λ r'. r' >>= λ w'. returns (w', v.quota_response))
                      (visited delete s e.ptr now v e c1 items found m.unpinned
                        (no_deferred fl md5 to_cycles s e.ptr c1.defer q1.undeferred) q1.aged
                        q1.room)
                    ∙ ap (λ z. returns ((stored fl md5 to_cycles s e v c1, items), z)) same)),
        )
