-- ===== src/Quota/Coalesced.antt =====
-- Requests of one signature while the first one waits for its response
-- (src/quota_aggregator_impl.cc).
use service_control_client_c.Float.{Float}
use service_control_client_c.Prelude.{
  ℕ, suc, ◌+◌, ◌<◌, ◌≡◌, refl, ap, ◌∙◌, true, Option, none, some, [], ◌∷◌, ◌++◌, Text, text_eq,
  ==_refl, ℤ, All, inl, inr, returns,
}
use service_control_client_c.Status.{ok}
use service_control_client_c.Proto.{QuotaOperation, QuotaRequest}
use service_control_client_c.QuotaOperation.Amounts.{HasValue}
use service_control_client_c.Cache.{find}
use service_control_client_c.Cache.Deleter.Room.{put, put_elem}
use service_control_client_c.Quota.{QuotaCache, QuotaAggregator}
use service_control_client_c.Quota.Calls.{quota_signature, quota_flushed, temporary, quota}
use service_control_client_c.Quota.Expiry.{QuotaEntry, is_kept}
use service_control_client_c.Quota.Quiet.{IsQuiet, rested, refreshes, rested-IsQuiet}
use service_control_client_c.Quota.Answers.{put-IsQuiet, stored, replied, quota-miss}
use service_control_client_c.Quota.Hits.{quota-hit}
use service_control_client_c.Quota.Kept.{IsSuccessor, rested-kept}

module _ {D : Type 0} (fl : Float D) (md5 : Text → Text) (to_cycles : ℤ → Option ℕ) where
  -- The cache and the state after a call that did not find its signature.
  abbrev pub sent_cache :
      ℕ
      → QuotaRequest D
      → QuotaOperation D
      → QuotaAggregator fl md5 to_cycles
      → QuotaCache fl md5 to_cycles
      → QuotaCache fl md5 to_cycles
  sent_cache now request op a c =
      put (quota_signature fl md5 to_cycles op) a.next_ptr
        (temporary fl md5 to_cycles now (quota_signature fl md5 to_cycles op) request) 1 now
        (rested fl md5 to_cycles a now c)

  abbrev pub sent_once :
      ℕ
      → QuotaRequest D
      → QuotaOperation D
      → QuotaAggregator fl md5 to_cycles
      → QuotaCache fl md5 to_cycles
      → QuotaAggregator fl md5 to_cycles
  sent_once now request op a c = record a {
    cache = some (sent_cache now request op a c);
    next_ptr = a.next_ptr + 1;
  }

  -- What is found for an element that waits for its response is that element.
  waiting :
      (a : QuotaAggregator fl md5 to_cycles) (now : ℕ) (e e' : QuotaEntry fl md5 to_cycles)
      → e.value.in_flight ≡ true
      → IsSuccessor fl md5 to_cycles a now e e'
      → e'.value ≡ e.value
  waiting a now e e' w s = elim s.same_value [ inl h ↦ h | inr r ↦ absurd (cc (r.waited, w)) ]

  -- From a cache at rest that has room and does not hold the signature, the first request is sent,
  -- and a later one of the same signature is answered positively from the cache, where the element
  -- has not expired: it is not sent, and the call sends nothing but the refreshes of the elements
  -- that it removes as expired. Both calls return, with any fuel but 0.
  pub quota-coalesced :
      (f now now' : ℕ) (request request' : QuotaRequest D) (op op' : QuotaOperation D)
      (a : QuotaAggregator fl md5 to_cycles) (c : QuotaCache fl md5 to_cycles)
      → request.service_name ≡ a.service_name
      → request.allocate_operation ≡ some op
      → a.cache ≡ some c
      → IsQuiet fl md5 to_cycles c
      → find (quota_signature fl md5 to_cycles op) (rested fl md5 to_cycles a now c).entries ≡ none
      → (rested fl md5 to_cycles a now c).units < (rested fl md5 to_cycles a now c).max_units
      → request'.service_name ≡ a.service_name
      → request'.allocate_operation ≡ some op'
      → quota_signature fl md5 to_cycles op' ≡ quota_signature fl md5 to_cycles op
      → All (HasValue fl) op'.quota_metrics
      → is_kept fl md5 to_cycles
          (sent_once now request op a c)
          now'
          (temporary fl md5 to_cycles now (quota_signature fl md5 to_cycles op) request)
        ≡ true
      → (quota fl md5 to_cycles (suc f) now request a
          ≡ returns (
            sent_once now request op a c,
            ok,
            some (record { operation_id = []; allocate_errors = [] }),
            quota_flushed fl md5 to_cycles a (refreshes fl md5 to_cycles a now c ++ (request ∷ [])),
          ))
        × ((c' : QuotaCache fl md5 to_cycles) × (quota fl md5 to_cycles
                (suc f)
                now'
                request'
                (sent_once now request op a c)
              ≡ returns (
                record (sent_once now request op a c) {
                  cache = some c';
                  next_ptr = (sent_once now request op a c).next_ptr + 1;
                },
                ok,
                some (record { operation_id = []; allocate_errors = [] }),
                quota_flushed fl md5 to_cycles (sent_once now request op a c) (
                    refreshes fl md5 to_cycles
                      (sent_once now request op a c)
                      now'
                      (sent_cache now request op a c)),
              )))
  unfolding find
  quota-coalesced f now now' request request' op op' a c n h k q missing room n' h' same valued
        kept =
      let s = quota_signature fl md5 to_cycles op in
      let v = temporary fl md5 to_cycles now s request in
      let a1 = sent_once now request op a c in
      let c1 = sent_cache now request op a c in
      let e = put_elem s a.next_ptr v 1 now (rested fl md5 to_cycles a now c).lru in
      let q1 : IsQuiet fl md5 to_cycles c1 =
        put-IsQuiet fl md5 to_cycles s a.next_ptr now v (rested fl md5 to_cycles a now c)
          (rested-IsQuiet fl md5 to_cycles a now c q) missing refl room in
      let here : find s c1.entries ≡ some e = rw (==_refl s) refl in
      let (e', found, succ) =
        rested-kept fl md5 to_cycles a1 now' s c1 e c1.max_idle q1 here kept in
      let (v', _, _, r) =
        quota-hit fl md5 to_cycles a1 now' f request' op' c1 e' n' h' refl q1 (rw same found)
          valued in
      (
        quota-miss fl md5 to_cycles a now f request op c n h k q missing room,
        (
          _,
          r
              ∙ ap
                  (λ x.
                    replied fl md5 to_cycles a1 now' f
                      (stored fl md5 to_cycles (quota_signature fl md5 to_cycles op') e' v'
                        (rested fl md5 to_cycles a1 now' c1))
                      (refreshes fl md5 to_cycles a1 now' c1) x.quota_response)
                  (waiting a1 now' e e' refl succ),
        ),
      )
