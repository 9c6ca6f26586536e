-- ===== src/Quota/Kept.antt =====
-- The elements that QuotaAggregatorImpl::Flush (src/quota_aggregator_impl.cc) leaves in the cache.
use mathlib.Core.Option.{some-injective}
use mathlib.Core.Path.{subst}
use service_control_client_c.Float.{Float}
use service_control_client_c.Prelude.{
  ℕ, suc, ◌≡◌, ◌⊎◌, refl, ap, sym, ◌∙◌, true, false, Option, none, some, List, [], ◌∷◌, ◌++◌,
  reverse, append_assoc, append-nil, arith, Text, text_eq, text_beq_iff, ◌==◌, ℤ, Bool-cases, inl,
  inr, returns,
}
use service_control_client_c.Proto.{QuotaRequest}
use service_control_client_c.Cache.{find, is_idle}
use service_control_client_c.Cache.Table.{Distinct}
use service_control_client_c.Cache.Chain.{
  find-append, find-append-found, find-parts, find-reverse-found, Distinct-reverse,
}
use service_control_client_c.Quota.{
  QuotaElem, QuotaCache, QuotaAggregator, needs_refresh, refreshing,
}
use service_control_client_c.Quota.Calls.{flush_quota}
use service_control_client_c.Quota.Expiry.{
  QuotaEntry, is_kept, returned, rotated, Distinct-returned,
}
use service_control_client_c.Quota.Quiet.{IsQuiet, rested_by, Distinct-rotated}
use service_control_client_c.Quota.Flushes.{flush_quota-rested}

module _ {D : Type 0} (fl : Float D) (md5 : Text → Text) (to_cycles : ℤ → Option ℕ)
    (a : QuotaAggregator fl md5 to_cycles) (now : ℕ) where
  -- The element did not wait for a response and does now: its response stays, and the operations
  -- that were aggregated have left it.
  pub record IsRefreshed (v v' : QuotaElem fl md5 to_cycles) : Type 0 where
    pub waited : v.in_flight ≡ false
    pub waits : v'.in_flight ≡ true
    pub same_response : v'.quota_response ≡ v.quota_response
    pub same_request : v'.quota_request ≡ v.quota_request
    pub same_signature : v'.signature ≡ v.signature
    pub refreshed_at : v'.last_refresh_time ≡ now
    pub handed_over : v'.operation_aggregator ≡ none

  refreshing-IsRefreshed :
      (v : QuotaElem fl md5 to_cycles)
      → v.in_flight ≡ false
      → IsRefreshed v (refreshing fl md5 to_cycles now v)
  unfolding refreshing
  refreshing-IsRefreshed v h = record {
    waited = h;
    waits = refl;
    same_response = refl;
    same_request = refl;
    same_signature = refl;
    refreshed_at = refl;
    handed_over = refl;
  }

  -- The element is the same, or waits for the response to a refresh that was not asked for before.
  pub record IsSuccessor (e e' : QuotaEntry fl md5 to_cycles) : Type 0 where
    pub same_object : e'.ptr ≡ e.ptr
    pub same_value : (e'.value ≡ e.value) ⊎ IsRefreshed e.value e'.value

  returned-kept :
      (e : QuotaEntry fl md5 to_cycles)
      → is_kept fl md5 to_cycles a now e.value ≡ true
      → (e' : QuotaEntry fl md5 to_cycles) × (returned fl md5 to_cycles a now e ≡ e' ∷ [])
        × (e'.key ≡ e.key)
        × IsSuccessor e e'
  unfolding needs_refresh
  returned-kept e k = elim (Bool-cases (needs_refresh fl md5 to_cycles e.value)) [
    | inl n ↦ (
      record e { value = refreshing fl md5 to_cycles now e.value; last_use = now },
      rw (k, n) refl,
      refl,
      record {
        same_object = refl;
        same_value = inr (refreshing-IsRefreshed e.value (ground (arith, n)));
      },
    )
    | inr n ↦ (
      record e { last_use = now },
      rw (k, n) refl,
      refl,
      record { same_object = refl; same_value = inl refl },
    )
  ]

  module _ (idle : ℕ) (k : Text) where
    -- An element that is put back already stays.
    rotated-later :
        (r m : List (QuotaEntry fl md5 to_cycles)) (e : QuotaEntry fl md5 to_cycles)
        → find k r ≡ none
        → find k m ≡ some e
        → find k (rotated fl md5 to_cycles a now idle r m) ≡ some e
    unfolding find
    rotated-later [] m e n h = h
    rotated-later (x ∷ r) m e n h = elim (Bool-cases (is_idle idle now x)) [
      | inl i ↦ rw i (
          rotated-later r (m ++ returned fl md5 to_cycles a now x) e (ground (arith, n))
            (find-append-found k m (returned fl md5 to_cycles a now x) e h))
      | inr i ↦ rw i (find-append k (x ∷ r) m n ∙ h)
    ]

    rotated-kept :
        (r m : List (QuotaEntry fl md5 to_cycles)) (e : QuotaEntry fl md5 to_cycles)
        → Distinct (r ++ m)
        → find k r ≡ some e
        → is_kept fl md5 to_cycles a now e.value ≡ true
        → (e' : QuotaEntry fl md5 to_cycles) × (find k (rotated fl md5 to_cycles a now idle r m)
            ≡ some e')
          × IsSuccessor e e'
    unfolding find
    rotated-kept [] m e d h b = absurd (cc h)
    rotated-kept (x ∷ r) m e d h b = elim (Bool-cases (is_idle idle now x)) [
      | inr i ↦ (
        e,
        rw i (find-append-found k (x ∷ r) m e h),
        record { same_object = refl; same_value = inl refl },
      )
      | inl i ↦ elim (Bool-cases (x.key == k)) [
        | inr g ↦
            let (e', f, s) =
              rotated-kept r (m ++ returned fl md5 to_cycles a now x) e
                (rw⁻¹ (append_assoc r m (returned fl md5 to_cycles a now x))
                  (Distinct-returned fl md5 to_cycles a now x (r ++ m) d))
                (rw g at h) b in
            (e', rw i f, s)
        | inl g ↦
            let same : x ≡ e = some-injective x e (rw g at h) in
            let keyed : x.key ≡ k = (text_beq_iff x.key k).0 g in
            let (no_r, no_m) = find-parts k r m (subst (λ j. find j (r ++ m) ≡ none) keyed d.0) in
            let (e', back, key', s) = returned-kept e b in
            let here : (e'.key == k) ≡ true =
              (text_beq_iff e'.key k).1 (key' ∙ (sym (ap (λ y. y.key) same) ∙ keyed)) in
            let found : find k (m ++ returned fl md5 to_cycles a now x) ≡ some e' =
              find-append k m (returned fl md5 to_cycles a now x) no_m
              ∙ (ap (λ y. find k (returned fl md5 to_cycles a now y)) same
                  ∙ rw (back, here) refl) in
            (e', rw i (rotated-later r (m ++ returned fl md5 to_cycles a now x) e' no_r found), s)
      ]
    ]

  pub rested-kept :
      (k : Text) (c : QuotaCache fl md5 to_cycles) (e : QuotaEntry fl md5 to_cycles) (o : Option ℕ)
      → IsQuiet fl md5 to_cycles c
      → find k c.entries ≡ some e
      → is_kept fl md5 to_cycles a now e.value ≡ true
      → (e' : QuotaEntry fl md5 to_cycles) × (find k (rested_by fl md5 to_cycles a now o c).entries
          ≡ some e')
        × IsSuccessor e e'
  rested-kept k c e none q h b = (e, h, record { same_object = refl; same_value = inl refl })
  rested-kept k c e (some idle) q h b =
      let r = reverse c.entries in
      let d : Distinct r = Distinct-reverse c.entries q.distinct in
      let d' : Distinct (r ++ []) = rw (append-nil r) d in
      let (e', f, s) =
        rotated-kept idle k r [] e d' (find-reverse-found k c.entries e q.distinct h) b in
      (
        e',
        find-reverse-found k (rotated fl md5 to_cycles a now idle r []) e'
            (Distinct-rotated fl md5 to_cycles a now idle r [] d') f,
        s,
      )

  -- On a cache at rest, Flush returns, with any fuel but 0, and each element that is not to be dropped
  -- is still found: the same object, with the same value, or, where it did not wait for a response
  -- before, with the same response, request and signature, marked as in flight since this call, and
  -- without the operations that were aggregated into it.
  pub flush_quota-kept :
      (f : ℕ) (k : Text) (c : QuotaCache fl md5 to_cycles) (e : QuotaEntry fl md5 to_cycles)
      → a.cache ≡ some c
      → IsQuiet fl md5 to_cycles c
      → find k c.entries ≡ some e
      → is_kept fl md5 to_cycles a now e.value ≡ true
      → (c' : QuotaCache fl md5 to_cycles) × (items : List (QuotaRequest D)) × (e' : QuotaEntry fl
          md5 to_cycles)
        × (flush_quota fl md5 to_cycles (suc f) now a
            ≡ returns (record a { cache = some c' }, items))
        × (find k c'.entries ≡ some e')
        × IsSuccessor e e'
  flush_quota-kept f k c e h q found b =
      let (e', found', s) = rested-kept k c e c.max_idle q found b in
      (_, _, e', flush_quota-rested fl md5 to_cycles a now f c h q, found', s)
