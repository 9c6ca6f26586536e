-- ===== src/Quota/Returns.antt =====
-- Every call of QuotaAggregatorImpl (src/quota_aggregator_impl.cc) returns on a cache that is at rest
-- and has room for what is inserted, and leaves it at rest.
use mathlib.Core.Path.{subst}
use service_control_client_c.Float.{Float}
use service_control_client_c.Prelude.{
  ℕ, suc, ◌<◌, ◌⊎◌, ◌≡◌, refl, ap, ◌∙◌, true, false, Option, none, some, List, [], arith, Text,
  text_eq, text_beq, text_beq_iff, ℤ, ltb_ℤ, pos, pos_part, All, Bool-cases, Option-cases, inl, inr,
  returns,
}
use service_control_client_c.Status.{invalid_argument, not_found}
use service_control_client_c.Proto.{QuotaOperation, QuotaRequest, QuotaResponse}
use service_control_client_c.QuotaOperation.Amounts.{HasValue}
use service_control_client_c.Cache.{find, new_cache, set_timeout, discard_idle, idle_loop, chain}
use service_control_client_c.Quota.{
  QuotaCache, QuotaAggregator, QuotaOptions, new_quota_aggregator, set_quota_response,
}
use service_control_client_c.Quota.Calls.{
  quota_signature, temporary, quota_operation, quota, QuotaResult, cache_quota_in,
  cache_quota_response, flush_quota_in, flush_quota, flush_all_quota_in, flush_all_quota,
}
use service_control_client_c.Quota.Expiry.{QuotaEntry}
use service_control_client_c.Quota.Quiet.{IsQuiet, rested, rested-IsQuiet}
use service_control_client_c.Quota.Answers.{put-IsQuiet, stored-IsQuiet, quota-miss}
use service_control_client_c.Quota.Hits.{quota-hit}
use service_control_client_c.Quota.Flushes.{
  flush_quota-rested, with_response, cache_quota_response-found, cache_quota_response-missing,
  flush_all_quota-empty,
}

module _ {D : Type 0} (fl : Float D) (md5 : Text → Text) (to_cycles : ℤ → Option ℕ) where
  abbrev pub IsQuietIn : Option (QuotaCache fl md5 to_cycles) → Type 0
  IsQuietIn none = Unit
  IsQuietIn (some c) = IsQuiet fl md5 to_cycles c

  abbrev pub IsAtRest : QuotaAggregator fl md5 to_cycles → Type 0
  IsAtRest a = IsQuietIn a.cache

  -- The cache holds the operation's signature, or has room for one more element.
  abbrev pub HasRoomIn :
      ℕ
      → QuotaOperation D
      → QuotaAggregator fl md5 to_cycles
      → Option (QuotaCache fl md5 to_cycles)
      → Type 0
  HasRoomIn now op a none = Unit
  HasRoomIn now op a (some c) =
      ((rested fl md5 to_cycles a now c).units < (rested fl md5 to_cycles a now c).max_units)
      ⊎ ((e : QuotaEntry fl md5 to_cycles) × (find (quota_signature fl md5 to_cycles op)
              (rested fl md5 to_cycles a now c).entries
            ≡ some e))

  -- A request that the cache can take: its metrics have values, and there is room for it.
  abbrev pub IsFitFor : ℕ → QuotaAggregator fl md5 to_cycles → Option (QuotaOperation D) → Type 0
  IsFitFor now a none = Unit
  IsFitFor now a (some op) = All (HasValue fl) op.quota_metrics × HasRoomIn now op a a.cache

  abbrev pub IsFit : ℕ → QuotaRequest D → QuotaAggregator fl md5 to_cycles → Type 0
  IsFit now request a = IsFitFor now a request.allocate_operation

  new_cache-IsQuiet :
      (o : Option ℕ) (n : ℕ) → IsQuiet fl md5 to_cycles (set_timeout o false 0 (new_cache n))
  unfolding set_timeout new_cache discard_idle idle_loop chain
  new_cache-IsQuiet none n = record {
    distinct = tt;
    calm = tt;
    sized = refl;
    room = omega arith;
    undeferred = refl;
    aged = refl;
  }
  new_cache-IsQuiet (some cycles) n = record {
    distinct = tt;
    calm = tt;
    sized = refl;
    room = omega arith;
    undeferred = refl;
    aged = refl;
  }

  pub new_quota_aggregator-IsAtRest :
      (service config : Text) (options : QuotaOptions)
      → IsAtRest (new_quota_aggregator fl md5 to_cycles service config options)
  unfolding new_quota_aggregator
  new_quota_aggregator-IsAtRest service config options =
      let q =
        new_cache-IsQuiet (to_cycles options.refresh_interval_ms) (pos_part options.num_entries) in
      elim (Bool-cases (ltb_ℤ (pos 0) options.num_entries)) [ inl b ↦ rw b q | inr b ↦ rw b tt ]

  quota_operation-returns :
      (f now : ℕ) (request : QuotaRequest D) (op : QuotaOperation D)
      (a : QuotaAggregator fl md5 to_cycles) (c : QuotaCache fl md5 to_cycles)
      → request.service_name ≡ a.service_name
      → request.allocate_operation ≡ some op
      → a.cache ≡ some c
      → IsQuiet fl md5 to_cycles c
      → All (HasValue fl) op.quota_metrics
      → HasRoomIn now op a (some c)
      → (r : QuotaResult fl md5 to_cycles) × (quota fl md5 to_cycles (suc f) now request a
          ≡ returns r)
        × IsAtRest r.0
  quota_operation-returns f now request op a c n h k q valued room =
      let s = quota_signature fl md5 to_cycles op in
      let c1 = rested fl md5 to_cycles a now c in
      let q1 = rested-IsQuiet fl md5 to_cycles a now c q in
      let hit : (e : QuotaEntry fl md5 to_cycles)
          → find s c1.entries ≡ some e
          → (r : QuotaResult fl md5 to_cycles) × (quota fl md5 to_cycles (suc f) now request a
              ≡ returns r)
            × IsAtRest r.0 =
        λ e found.
          let (v, _, signed, e') =
            quota-hit fl md5 to_cycles a now f request op c e n h k q found valued in
          (_, e', stored-IsQuiet fl md5 to_cycles s e v c1 q1 found signed) in
      elim room [
        | inr (e, found) ↦ hit e found
        | inl free ↦ elim (Option-cases (find s c1.entries)) [
          | inr (e, found) ↦ hit e found
          | inl missing ↦ (
            _,
            quota-miss fl md5 to_cycles a now f request op c n h k q missing free,
            put-IsQuiet fl md5 to_cycles s a.next_ptr now (temporary fl md5 to_cycles now s request)
                c1 q1 missing refl free,
          )
        ]
      ]

  pub quota-returns :
      (f now : ℕ) (request : QuotaRequest D) (a : QuotaAggregator fl md5 to_cycles)
      → IsAtRest a
      → IsFit now request a
      → (r : QuotaResult fl md5 to_cycles) × (quota fl md5 to_cycles (suc f) now request a
          ≡ returns r)
        × IsAtRest r.0
  unfolding quota quota_operation
  quota-returns f now request a rest fit =
      elim (Bool-cases (text_beq request.service_name a.service_name)) [
        | inr b ↦ ((a, invalid_argument, none, []), rw b refl, rest)
        | inl b ↦ elim (Option-cases request.allocate_operation) [
          | inl n ↦ (
            (a, invalid_argument, none, []),
            rw b (ap (λ o. quota_operation fl md5 to_cycles (suc f) now request o a a.cache) n),
            rest,
          )
          | inr (op, h) ↦
              let fit' = subst (IsFitFor now a) h fit in
              elim (Option-cases a.cache) [
                | inl n ↦ (
                  (a, not_found, none, []),
                  rw b (
                      ap (λ o. quota_operation fl md5 to_cycles (suc f) now request o a a.cache) h
                      ∙ ap (λ o. quota_operation fl md5 to_cycles (suc f) now request (some op) a o)
                          n),
                  rest,
                )
                | inr (c, k) ↦
                    quota_operation-returns f now request op a c
                      ((text_beq_iff request.service_name a.service_name).0 b) h k
                      (subst IsQuietIn k rest) fit'.0 (subst (HasRoomIn now op a) k fit'.1)
              ]
        ]
      ]

  abbrev pub Outcome : Type 0
  Outcome = QuotaAggregator fl md5 to_cycles × List (QuotaRequest D)

  pub flush_quota-returns :
      (f now : ℕ) (a : QuotaAggregator fl md5 to_cycles)
      → IsAtRest a
      → (r : Outcome) × (flush_quota fl md5 to_cycles (suc f) now a ≡ returns r) × IsAtRest r.0
  unfolding flush_quota flush_quota_in
  flush_quota-returns f now a rest = elim (Option-cases a.cache) [
    | inl n ↦ ((a, []), ap (flush_quota_in fl md5 to_cycles (suc f) now a) n, rest)
    | inr (c, k) ↦ (
      _,
      flush_quota-rested fl md5 to_cycles a now f c k (subst IsQuietIn k rest),
      rested-IsQuiet fl md5 to_cycles a now c (subst IsQuietIn k rest),
    )
  ]

  pub cache_quota_response-returns :
      (f now : ℕ) (op : QuotaOperation D) (response : QuotaResponse)
      (a : QuotaAggregator fl md5 to_cycles)
      → IsAtRest a
      → (r : Outcome) × (cache_quota_response fl md5 to_cycles (suc f) now op response a
          ≡ returns r)
        × IsAtRest r.0
  unfolding cache_quota_response cache_quota_in set_quota_response
  cache_quota_response-returns f now op response a rest = elim (Option-cases a.cache) [
    | inl n ↦ ((a, []), ap (cache_quota_in fl md5 to_cycles (suc f) now op response a) n, rest)
    | inr (c, k) ↦
        let s = quota_signature fl md5 to_cycles op in
        let c1 = rested fl md5 to_cycles a now c in
        let q1 = rested-IsQuiet fl md5 to_cycles a now c (subst IsQuietIn k rest) in
        elim (Option-cases (find s c1.entries)) [
          | inl missing ↦
              let (r, e, z) = flush_quota-returns f now a rest in
              (
                r,
                cache_quota_response-missing fl md5 to_cycles a now f c op response k
                      (subst IsQuietIn k rest) missing
                    ∙ e,
                z,
              )
          | inr (e, found) ↦ (
            _,
            cache_quota_response-found fl md5 to_cycles a now f c op response e k
                (subst IsQuietIn k rest) found,
            stored-IsQuiet fl md5 to_cycles s e
                (with_response fl md5 to_cycles a now f c response e.value) c1 q1 found refl,
          )
        ]
  ]

  pub flush_all_quota-returns :
      (f now : ℕ) (a : QuotaAggregator fl md5 to_cycles)
      → IsAtRest a
      → (r : Outcome) × (flush_all_quota fl md5 to_cycles (suc f) now a ≡ returns r) × IsAtRest r.0
  unfolding flush_all_quota flush_all_quota_in
  flush_all_quota-returns f now a rest = elim (Option-cases a.cache) [
    | inl n ↦
        let a' : QuotaAggregator fl md5 to_cycles = record a { in_flush_all = true } in
        ((a', []), ap (flush_all_quota_in fl md5 to_cycles (suc f) now a') n, rest)
    | inr (c, k) ↦ (
      _,
      flush_all_quota-empty fl md5 to_cycles a now f c k (subst IsQuietIn k rest),
      record {
        distinct = tt;
        calm = tt;
        sized = refl;
        room = omega arith;
        undeferred = (subst IsQuietIn k rest).undeferred;
        aged = (subst IsQuietIn k rest).aged;
      },
    )
  ]
