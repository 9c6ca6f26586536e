-- ===== src/Quota/Answers.antt =====
-- The answers of QuotaAggregatorImpl::Quota (src/quota_aggregator_impl.cc) from a cache that is at
-- rest, and the cache after the call.
use service_control_client_c.Float.{Float}
use service_control_client_c.Prelude.{
  ℕ, suc, ◌+◌, ◌<◌, ◌≡◌, refl, ap, sym, ◌∙◌, Option, none, some, List, [], ◌∷◌, ◌++◌, arith, Text,
  text_eq, ==_refl, text_beq_iff, ℤ, Run, returns, ◌>>=◌,
}
use service_control_client_c.Status.{ok}
use service_control_client_c.Proto.{QuotaOperation, QuotaRequest, QuotaResponse}
use service_control_client_c.Cache.{find, find_deferred, replace}
use service_control_client_c.Cache.Table.{find-key, All-find, All-replace, Distinct-replace}
use service_control_client_c.Cache.Chain.{length-replace}
use service_control_client_c.Cache.Deleter.Lookups.{lookup_with-missing}
use service_control_client_c.Cache.Deleter.{lookup_with}
use service_control_client_c.Cache.Deleter.Room.{put, insert_with_room}
use service_control_client_c.Quota.{QuotaElem, QuotaCache, QuotaWorld, QuotaAggregator, on_delete}
use service_control_client_c.Quota.Calls.{
  quota_signature, quota_flushed, temporary, read_response, quota_answer, quota_operation, quota,
  QuotaResult,
}
use service_control_client_c.Quota.Expiry.{QuotaEntry, IsCalm}
use service_control_client_c.Quota.Quiet.{
  IsQuiet, rested, refreshes, remove_expired-rested, rested-IsQuiet,
}

module _ {D : Type 0} (fl : Float D) (md5 : Text → Text) (to_cycles : ℤ → Option ℕ) where
  pub put-IsQuiet :
      (k : Text) (p now : ℕ) (v : QuotaElem fl md5 to_cycles) (c : QuotaCache fl md5 to_cycles)
      → IsQuiet fl md5 to_cycles c
      → find k c.entries ≡ none
      → v.signature ≡ k
      → c.units < c.max_units
      → IsQuiet fl md5 to_cycles (put k p v 1 now c)
  put-IsQuiet k p now v c q n s room = record {
    distinct = (n, q.distinct);
    calm =
        (record { signed = s; one_unit = refl; unpinned = refl; chained = rw q.aged refl }, q.calm);
    sized = omega (arith, q.sized);
    room = omega (arith, room);
    undeferred = q.undeferred;
    aged = q.aged;
  }

  -- The cache where the value of the key is another one.
  abbrev pub stored :
      Text
      → QuotaEntry fl md5 to_cycles
      → QuotaElem fl md5 to_cycles
      → QuotaCache fl md5 to_cycles
      → QuotaCache fl md5 to_cycles
  stored k e v c = record c { entries = replace k (record e { value = v }) c.entries }

  pub stored-IsQuiet :
      (k : Text) (e : QuotaEntry fl md5 to_cycles) (v : QuotaElem fl md5 to_cycles)
      (c : QuotaCache fl md5 to_cycles)
      → IsQuiet fl md5 to_cycles c
      → find k c.entries ≡ some e
      → v.signature ≡ e.value.signature
      → IsQuiet fl md5 to_cycles (stored k e v c)
  stored-IsQuiet k e v c q f s =
      let m : IsCalm fl md5 to_cycles e =
        All-find (IsCalm fl md5 to_cycles) k c.entries e q.calm f in
      record {
        distinct =
            Distinct-replace k (record e { value = v }) c.entries e (find-key k c.entries e f) f
              q.distinct;
        calm =
            All-replace (IsCalm fl md5 to_cycles) k (record e { value = v }) c.entries
              (record {
                signed = s ∙ m.signed;
                one_unit = m.one_unit;
                unpinned = m.unpinned;
                chained = m.chained;
              })
              q.calm;
        sized = q.sized ∙ sym (length-replace k (record e { value = v }) c.entries);
        room = q.room;
        undeferred = q.undeferred;
        aged = q.aged;
      }

  pub no_deferred :
      (k : Text) (p : ℕ) (es : List (QuotaEntry fl md5 to_cycles))
      → es ≡ []
      → find_deferred k p es ≡ none
  unfolding find_deferred
  no_deferred k p es h = ap (find_deferred k p) h

  module _ (a : QuotaAggregator fl md5 to_cycles) (now f : ℕ) where
    -- A call with an operation of the service, for an aggregator with a cache.
    pub quota-operation :
        (request : QuotaRequest D) (op : QuotaOperation D) (c : QuotaCache fl md5 to_cycles)
        → request.service_name ≡ a.service_name
        → request.allocate_operation ≡ some op
        → a.cache ≡ some c
        → quota fl md5 to_cycles (suc f) now request a
          ≡ quota_operation fl md5 to_cycles (suc f) now request (some op) a (some c)
    unfolding quota
    quota-operation request op c n h k =
        rw ((text_beq_iff request.service_name a.service_name).1 n) (
          ap (λ o. quota_operation fl md5 to_cycles (suc f) now request o a a.cache) h
          ∙ ap (λ o. quota_operation fl md5 to_cycles (suc f) now request (some op) a o) k)

    -- The result of a call whose lookup and answer return.
    abbrev pub replied :
        QuotaCache fl md5 to_cycles
        → List (QuotaRequest D)
        → QuotaResponse
        → Run (QuotaResult fl md5 to_cycles)
    replied c items response = returns (
      record a { cache = some c; next_ptr = a.next_ptr + 1 },
      ok,
      some response,
      quota_flushed fl md5 to_cycles a items,
    )

    pub quota-replied :
        (request : QuotaRequest D) (op : QuotaOperation D) (c c' : QuotaCache fl md5 to_cycles)
        (found : QuotaWorld fl md5 to_cycles × Option (ℕ × QuotaElem fl md5 to_cycles))
        (items : List (QuotaRequest D)) (response : QuotaResponse)
        → request.service_name ≡ a.service_name
        → request.allocate_operation ≡ some op
        → a.cache ≡ some c
        → lookup_with
            (on_delete fl md5 to_cycles (suc f) now a)
            (quota_signature fl md5 to_cycles op)
            now
            (c, [])
          ≡ returns found
        → quota_answer fl md5 to_cycles
            (suc f)
            now
            (quota_signature fl md5 to_cycles op)
            request
            op
            a
            found
          ≡ returns ((c', items), response)
        → quota fl md5 to_cycles (suc f) now request a ≡ replied c' items response
    unfolding quota_operation
    quota-replied request op c c' found items response n h k l w =
        let finish : QuotaWorld fl md5 to_cycles × QuotaResponse
            → Run (QuotaResult fl md5 to_cycles) =
          λ r. replied (r.0).0 (r.0).1 r.1 in
        quota-operation request op c n h k
        ∙ (ap
              (λ r. r >>= λ found'.
                (quota_answer fl md5 to_cycles (suc f) now (quota_signature fl md5 to_cycles op)
                    request op a found'
                  >>= finish))
              l
            ∙ ap (λ r. r >>= finish) w)

    -- A call whose signature is not in the cache inserts a temporary element and sends the request.
    pub quota-miss :
        (request : QuotaRequest D) (op : QuotaOperation D) (c : QuotaCache fl md5 to_cycles)
        → request.service_name ≡ a.service_name
        → request.allocate_operation ≡ some op
        → a.cache ≡ some c
        → IsQuiet fl md5 to_cycles c
        → find (quota_signature fl md5 to_cycles op) (rested fl md5 to_cycles a now c).entries
          ≡ none
        → (rested fl md5 to_cycles a now c).units < (rested fl md5 to_cycles a now c).max_units
        → quota fl md5 to_cycles (suc f) now request a
          ≡ replied
              (put
                (quota_signature fl md5 to_cycles op)
                a.next_ptr
                (temporary fl md5 to_cycles now (quota_signature fl md5 to_cycles op) request)
                1
                now
                (rested fl md5 to_cycles a now c))
              (refreshes fl md5 to_cycles a now c ++ (request ∷ []))
              (record { operation_id = []; allocate_errors = [] })
    unfolding quota_answer find
    quota-miss request op c n h k q missing room =
        let s = quota_signature fl md5 to_cycles op in
        let c1 = rested fl md5 to_cycles a now c in
        let q1 = rested-IsQuiet fl md5 to_cycles a now c q in
        let v = temporary fl md5 to_cycles now s request in
        let items = refreshes fl md5 to_cycles a now c in
        let delete = on_delete fl md5 to_cycles (suc f) now a in
        quota-replied request op c (put s a.next_ptr v 1 now c1) ((c1, items), none)
          (items ++ (request ∷ [])) (record { operation_id = []; allocate_errors = [] }) n h k
          (lookup_with-missing delete s now (c, []) (c1, items)
            (remove_expired-rested fl md5 to_cycles a now f c [] q) missing)
          (ap (λ r. r >>= λ w'. read_response fl md5 to_cycles s (w'.0, w'.1 ++ (request ∷ [])))
              (insert_with_room delete s a.next_ptr v 1 now c1 items missing
                (no_deferred s a.next_ptr c1.defer q1.undeferred) q1.aged (omega (arith, room)))
            ∙ rw (==_refl s) refl)
