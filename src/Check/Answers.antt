-- ===== src/Check/Answers.antt =====
-- Which checks the cache answers, and with what (src/check_aggregator_impl.cc).
use service_control_client_c.Float.{Float}
use service_control_client_c.Prelude.{
  ℕ, ◌+◌, ◌≤◌, ◌≡◌, refl, ap, ◌∙◌, Bool, true, false, Option, none, some, length, ltb, Text,
  text_eq, text_beq_iff, if◌then◌else◌, ℤ, leb_ℤ, sub_ℕ, Bool-cases, inl, inr,
}
use service_control_client_c.Status.{ok, not_found}
use service_control_client_c.Proto.{low, Operation, CheckRequest, CheckResponse}
use service_control_client_c.Operation.{Kinds}
use service_control_client_c.Cache.{Elem, write, release}
use service_control_client_c.Cache.Reads.{lookup_hit}
use service_control_client_c.Cache.Rests.{Rests, IsFresh, expire-Rests, touch-Rests, touch}
use service_control_client_c.Check.{
  CacheElem, CheckCache, CheckAggregator, aggregate, should_flush, answer, check_signature,
  check_lookup, drained, flushed, status_of, check_operation, check,
}

module _ {D : Type 0} (fl : Float D) (md5 : Text → Text) (kinds : Kinds)
    (to_cycles : ℤ → Option ℕ) where
  -- The signature `s` has a cached response, which was last checked at the time `checked`, and is
  -- in an element that was last used at the time `used` and rests in the cache.
  pub record Caches (s : Text) (response : CheckResponse) (checked used : ℕ) (idle : Option ℕ)
      (a : CheckAggregator fl md5 kinds to_cycles) : Type 0 where
    pub cached : CheckCache fl md5 kinds to_cycles
    pub elem : Elem Text (CacheElem fl md5 kinds to_cycles)
    pub enabled : a.cache ≡ some cached
    pub rests : Rests s elem idle cached
    pub responds : (elem.value).check_response ≡ response
    pub last_check : (elem.value).last_check_time ≡ checked
    pub last_used : elem.last_use ≡ used

  -- Whether the response is due for a refresh.
  abbrev pub is_due : CheckAggregator fl md5 kinds to_cycles → ℕ → ℕ → Bool
  is_due a checked now = leb_ℤ a.flush_interval_in_cycle (sub_ℕ now checked)

  -- Nothing expires, or the time `now` is not past the idle time.
  abbrev pub IsKept : Option ℕ → ℕ → ℕ → Type 0
  IsKept none used now = Unit
  IsKept (some idle) used now = now ≤ used + idle

  -- What the element found answers, and what is then kept of it.
  answer_lem :
      (interval : ℤ) (now : ℕ) (op : Operation D) (v : CacheElem fl md5 kinds to_cycles)
      → let due = leb_ℤ interval (sub_ℕ now v.last_check_time) in
        let r = answer fl md5 kinds to_cycles interval now op v in
        (r.1 ≡ (if due then none else some v.check_response))
        × (r.0.check_response ≡ v.check_response)
        × (r.0.last_check_time ≡ (if due then now else v.last_check_time))
  unfolding answer should_flush aggregate
  answer_lem interval now op v =
      elim (Bool-cases (ltb 0 (length (v.check_response).check_errors))) [
        | inl e ↦ elim (Bool-cases (leb_ℤ interval (sub_ℕ now v.last_check_time))) [
          | inl d ↦ rw (e, d) (refl, refl, refl)
          | inr d ↦ rw (e, d) (refl, refl, refl)
        ]
        | inr e ↦ elim (Bool-cases (leb_ℤ interval (sub_ℕ now v.last_check_time))) [
          | inl d ↦ rw (e, d) (refl, refl, refl)
          | inr d ↦ rw (e, d) (refl, refl, refl)
        ]
      ]

  -- The lookup, the answer and the release, where the signature is cached.
  check_lookup_hit :
      (interval : ℤ) (now : ℕ) (op : Operation D) (o : Option ℕ)
      (e : Elem Text (CacheElem fl md5 kinds to_cycles)) (c : CheckCache fl md5 kinds to_cycles)
      → IsFresh now e o
      → Rests (check_signature fl md5 kinds to_cycles op) e o c
      → let r = answer fl md5 kinds to_cycles interval now op e.value in
        check_lookup fl md5 kinds to_cycles interval now op c
        ≡ (touch (check_signature fl md5 kinds to_cycles op) now r.0 e c, r.1)
  unfolding check_lookup
  check_lookup_hit interval now op o e c h r =
      let s = check_signature fl md5 kinds to_cycles op in
      let a = answer fl md5 kinds to_cycles interval now op e.value in
      let q = lookup_hit s now c e (expire-Rests now s e o c h r).found in
      rw (q, check_lookup) (ap (λ l. (release s e.ptr now (write s a.0 l.0), a.1)) q)

  pub drained-Rests :
      (s : Text) (e : Elem Text (CacheElem fl md5 kinds to_cycles)) (o : Option ℕ)
      (c : CheckCache fl md5 kinds to_cycles)
      → Rests s e o c
      → Rests s e o (drained fl md5 kinds to_cycles c)
  unfolding drained
  drained-Rests s e o c r = record {
    found = r.found;
    unpinned = r.unpinned;
    alone = r.alone;
    lru = r.lru;
    fits = r.fits;
    expires = r.expires;
  }

  -- A request that `Check` looks up in the cache.
  pub record IsChecked (request : CheckRequest D) (op : Operation D)
      (a : CheckAggregator fl md5 kinds to_cycles) : Type 0 where
    pub service : request.service_name ≡ a.service_name
    pub has_operation : request.operation ≡ some op
    pub importance : op.importance ≡ low

  pub IsFresh-elem :
      (o : Option ℕ) (u now : ℕ) (e : Elem Text (CacheElem fl md5 kinds to_cycles))
      → e.last_use ≡ u
      → IsKept o u now
      → IsFresh now e o
  IsFresh-elem none u now e q h = tt
  IsFresh-elem (some idle) u now e q h = rw q h

  check_run :
      (now : ℕ) (request : CheckRequest D) (op : Operation D)
      (a : CheckAggregator fl md5 kinds to_cycles) (c : CheckCache fl md5 kinds to_cycles)
      → IsChecked request op a
      → a.cache ≡ some c
      → let l = check_lookup fl md5 kinds to_cycles a.flush_interval_in_cycle now op c in
        check fl md5 kinds to_cycles now request a ≡ (
          record a { cache = some (drained fl md5 kinds to_cycles l.0) },
          status_of fl md5 kinds to_cycles l.1,
          l.1,
          flushed fl md5 kinds to_cycles a l.0,
        )
  unfolding check check_operation
  check_run now request op a c k h = rw (
    (text_beq_iff request.service_name a.service_name).1 k.service,
    k.has_operation,
    h,
    k.importance,
  )

  status_due :
      (due : Bool) (response : CheckResponse)
      → status_of fl md5 kinds to_cycles (if due then none else some response)
        ≡ (if due then not_found else ok)
  status_due true response = refl
  status_due false response = refl

  -- A check of this service, of an operation of low importance whose signature has a cached response
  -- that is not expired, gets that response with the
  -- status ok, unless it is due for a refresh: then the status is not_found, so that the caller
  -- asks the server, and the refresh is taken as done at this time. Either way the same response
  -- stays cached, as used at this time.
  pub check_cached :
      (now : ℕ) (request : CheckRequest D) (op : Operation D) (response : CheckResponse)
      (checked used : ℕ) (idle : Option ℕ) (a : CheckAggregator fl md5 kinds to_cycles)
      → IsChecked request op a
      → Caches (check_signature fl md5 kinds to_cycles op) response checked used idle a
      → IsKept idle used now
      → let r = check fl md5 kinds to_cycles now request a in
        (r.1 ≡ (if is_due a checked now then not_found else ok))
        × (r.2 ≡ (if is_due a checked now then none else some response))
        × Caches
            (check_signature fl md5 kinds to_cycles op)
            response
            (if is_due a checked now then now else checked)
            now
            idle
            r.0
  check_cached now request op response checked used idle a k s f =
      let c = s.cached in
      let e = s.elem in
      let p = s.responds in
      let t = s.last_check in
      let h = IsFresh-elem idle used now e s.last_used f in
      let v = answer fl md5 kinds to_cycles a.flush_interval_in_cycle now op e.value in
      let l = check_lookup_hit a.flush_interval_in_cycle now op idle e c h s.rests in
      let w = answer_lem a.flush_interval_in_cycle now op e.value in
      let q : v.1 ≡ (if is_due a checked now then none else some response) =
        w.0
        ∙ ap (λ t. if is_due a t now then none else some (e.value).check_response) t
        ∙ ap (λ x. if is_due a checked now then none else some x) p in
      rw (check_run now request op a c k s.enabled, l)
        (
          ap (status_of fl md5 kinds to_cycles) q ∙ status_due (is_due a checked now) response,
          q,
          record {
            cached =
                drained fl md5 kinds to_cycles
                  (touch (check_signature fl md5 kinds to_cycles op) now v.0 e c);
            elem = record e { pin = 0; value = v.0; last_use = now; linked = true };
            enabled = refl;
            rests = drained-Rests _ _ _ _ (touch-Rests _ now v.0 e idle c h s.rests);
            responds = w.1 ∙ p;
            last_check = w.2 ∙ ap (λ t. if is_due a t now then now else t) t;
            last_used = refl;
          },
        )
