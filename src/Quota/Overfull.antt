-- ===== src/Quota/Overfull.antt =====
-- An insertion into the cache of QuotaAggregatorImpl (src/quota_aggregator_impl.cc) that is full of
-- responses which have not expired: OnCacheEntryDelete puts back what the insertion evicts.
use service_control_client_c.Float.{Float}
use service_control_client_c.Prelude.{
  ℕ, suc, zero, ◌+◌, ◌-◌, ◌≤◌, ◌≡◌, refl, ap, ◌∙◌, true, false, ◌||◌, Option, none, some, List, [],
  ◌∷◌, ◌++◌, arith, Text, text_eq, ==_refl, ℤ, pos, ltb_ℤ, sub_ℕ, All, Bool-cases, inl, inr, Run,
  returns, no_fuel, ◌>>=◌,
}
use service_control_client_c.Proto.{QuotaOperation, QuotaRequest, QuotaResponse}
use service_control_client_c.Cache.{find, erase, enter, new_elem}
use service_control_client_c.Cache.Table.{
  Distinct, find-key, All-find, All-erase, find-erase, Distinct-erase,
}
use service_control_client_c.Cache.Deleter.{insert_with}
use service_control_client_c.Cache.Deleter.Jams.{insert_with-NoReturn}
use service_control_client_c.Quota.{
  QuotaElem, QuotaCache, QuotaWorld, QuotaAggregator, should_drop, refreshing, needs_refresh,
  refresh_request, on_delete,
}
use service_control_client_c.Cache.Deleter.Lookups.{lookup_with-missing}
use service_control_client_c.Quota.Calls.{
  quota_signature, temporary, read_response, quota_answer, quota_operation, quota, QuotaResult,
}
use service_control_client_c.Quota.Expiry.{QuotaEntry, IsCalm}
use service_control_client_c.Quota.Quiet.{
  IsQuiet, rested, refreshes, remove_expired-rested, rested-IsQuiet,
}
use service_control_client_c.Quota.Answers.{no_deferred, replied, quota-operation}

module _ {D : Type 0} (fl : Float D) (md5 : Text → Text) (to_cycles : ℤ → Option ℕ)
    (a : QuotaAggregator fl md5 to_cycles) (now : ℕ) where
  -- An element that the deleter puts back.
  pub record IsLive (e : QuotaEntry fl md5 to_cycles) : Type 0 where
    pub unexpired : should_drop fl md5 to_cycles a now e.value ≡ false
    pub signed : e.value.signature ≡ e.key
    pub one_unit : e.units ≡ 1

  -- A full cache of such elements.
  pub record IsJammed (c : QuotaCache fl md5 to_cycles) : Type 0 where
    pub distinct : Distinct c.entries
    pub live : All IsLive c.entries
    pub full : c.max_units ≤ c.units
    pub undeferred : c.defer ≡ []
    pub aged : c.lru ≡ false

  new-unexpired :
      (v : QuotaElem fl md5 to_cycles)
      → ltb_ℤ (pos 0) a.expiration_interval_in_cycle ≡ true
      → v.last_refresh_time ≡ now
      → should_drop fl md5 to_cycles a now v ≡ false
  unfolding should_drop
  new-unexpired v h r =
      let e : sub_ℕ now now ≡ pos 0 = ground arith in rw (r, e) (ground (arith, h))

  insert_with-jammed :
      (f : ℕ) (k : Text) (p : ℕ) (v : QuotaElem fl md5 to_cycles) (c : QuotaCache fl md5 to_cycles)
      (s : List (QuotaRequest D))
      → ((p' : ℕ) (v' : QuotaElem fl md5 to_cycles) (c' : QuotaCache fl md5 to_cycles)
          → should_drop fl md5 to_cycles a now v' ≡ false
          → IsJammed c'
          → find v'.signature c'.entries ≡ none
          → on_delete fl md5 to_cycles f now a p' v' (c', s) ≡ no_fuel)
      → v.signature ≡ k
      → should_drop fl md5 to_cycles a now v ≡ false
      → IsJammed c
      → find k c.entries ≡ none
      → insert_with (on_delete fl md5 to_cycles f now a) k p v 1 now (c, s) ≡ no_fuel
  unfolding enter
  insert_with-jammed f k p v c s h g l j n =
      let x = new_elem k p v 1 now c.lru in
      let distinct : Distinct (x ∷ c.entries) = (n, j.distinct) in
      let live : All IsLive (x ∷ c.entries) =
        (record { unexpired = l; signed = g; one_unit = refl }, j.live) in
      insert_with-NoReturn (on_delete fl md5 to_cycles f now a) c s k p v 1 now n
        (no_deferred fl md5 to_cycles k p c.defer j.undeferred) j.aged (omega (arith, j.full))
        (λ i e found _.
          let m : IsLive e = All-find IsLive i (x ∷ c.entries) e live found in
          h e.ptr e.value
            (record (enter x c) {
              units = c.units + 1 - e.units;
              entries = erase i (x ∷ c.entries);
            })
            m.unexpired
            (record {
              distinct = Distinct-erase i (x ∷ c.entries) distinct;
              live = All-erase IsLive i (x ∷ c.entries) live;
              full = omega (arith, m.one_unit, j.full);
              undeferred = j.undeferred;
              aged = j.aged;
            })
            (rw (m.signed, find-key i (x ∷ c.entries) e found)
              (find-erase i i (x ∷ c.entries) distinct ∙ rw (==_refl i) refl)))
        (h p v (record c { units = c.units + 1 - 1; pinned_units = c.pinned_units + 1 - 1 }) l
          (record {
            distinct = j.distinct;
            live = j.live;
            full = omega (arith, j.full);
            undeferred = j.undeferred;
            aged = j.aged;
          })
          (rw g n))

  on_delete-jammed :
      (f p : ℕ) (v : QuotaElem fl md5 to_cycles) (c : QuotaCache fl md5 to_cycles)
      (s : List (QuotaRequest D))
      → a.in_flush_all ≡ false
      → ltb_ℤ (pos 0) a.expiration_interval_in_cycle ≡ true
      → should_drop fl md5 to_cycles a now v ≡ false
      → IsJammed c
      → find v.signature c.entries ≡ none
      → on_delete fl md5 to_cycles f now a p v (c, s) ≡ no_fuel
  unfolding on_delete refreshing
  on_delete-jammed zero p v c s i t l j n = refl
  on_delete-jammed (suc f) p v c s i t l j n =
      let again : (x : QuotaElem fl md5 to_cycles)
          → x.signature ≡ v.signature
          → should_drop fl md5 to_cycles a now x ≡ false
          → insert_with (on_delete fl md5 to_cycles f now a) x.signature p x 1 now (c, s)
            ≡ no_fuel =
        λ x g l'.
          insert_with-jammed f x.signature p x c s
            (λ p' v' c' l'' j' n'. on_delete-jammed f p' v' c' s i t l'' j' n') refl l' j
            (rw g n) in
      let stays : (a.in_flush_all || should_drop fl md5 to_cycles a now v) ≡ false =
        ap (λ x. x || should_drop fl md5 to_cycles a now v) i ∙ l in
      elim (Bool-cases (needs_refresh fl md5 to_cycles v)) [
        | inl b ↦
            rw (stays, b)
              (ap
                (λ r.
                  r >>= λ w'. returns (w'.0, w'.1 ++ (refresh_request fl md5 to_cycles a v ∷ [])))
                (again (refreshing fl md5 to_cycles now v) refl
                  (new-unexpired (refreshing fl md5 to_cycles now v) t refl)))
        | inr b ↦ rw (stays, b) (again v refl l)
      ]

  abbrev pub IsUnexpired : QuotaEntry fl md5 to_cycles → Type 0
  IsUnexpired e = should_drop fl md5 to_cycles a now e.value ≡ false

  calm-IsLive :
      (es : List (QuotaEntry fl md5 to_cycles))
      → All (IsCalm fl md5 to_cycles) es
      → All IsUnexpired es
      → All IsLive es
  calm-IsLive [] m u = tt
  calm-IsLive (e ∷ es) m u = (
    record { unexpired = u.0; signed = m.0.signed; one_unit = m.0.one_unit },
    calm-IsLive es m.1 u.1,
  )

  -- Where no time passes, a call of Quota with a signature that is not in the cache does not return,
  -- whatever the fuel, when the cache, without the elements removed as expired, is full of elements
  -- that are not to be dropped.
  pub quota-jammed :
      (f : ℕ) (request : QuotaRequest D) (op : QuotaOperation D) (c : QuotaCache fl md5 to_cycles)
      → request.service_name ≡ a.service_name
      → request.allocate_operation ≡ some op
      → a.cache ≡ some c
      → IsQuiet fl md5 to_cycles c
      → find (quota_signature fl md5 to_cycles op) (rested fl md5 to_cycles a now c).entries ≡ none
      → (rested fl md5 to_cycles a now c).max_units ≤ (rested fl md5 to_cycles a now c).units
      → All IsUnexpired (rested fl md5 to_cycles a now c).entries
      → a.in_flush_all ≡ false
      → ltb_ℤ (pos 0) a.expiration_interval_in_cycle ≡ true
      → quota fl md5 to_cycles (suc f) now request a ≡ no_fuel
  unfolding quota_operation quota_answer
  quota-jammed f request op c n h k q missing full unexpired i t =
      let s = quota_signature fl md5 to_cycles op in
      let c1 = rested fl md5 to_cycles a now c in
      let q1 = rested-IsQuiet fl md5 to_cycles a now c q in
      let v = temporary fl md5 to_cycles now s request in
      let items = refreshes fl md5 to_cycles a now c in
      let delete = on_delete fl md5 to_cycles (suc f) now a in
      let finish : QuotaWorld fl md5 to_cycles × QuotaResponse
          → Run (QuotaResult fl md5 to_cycles) =
        λ r. replied fl md5 to_cycles a now f (r.0).0 (r.0).1 r.1 in
      quota-operation fl md5 to_cycles a now f request op c n h k
      ∙ (ap
            (λ r. r >>= λ found'.
              (quota_answer fl md5 to_cycles (suc f) now s request op a found' >>= finish))
            (lookup_with-missing delete s now (c, []) (c1, items)
              (remove_expired-rested fl md5 to_cycles a now f c [] q) missing)
          ∙ ap
              (λ r.
                (r >>= λ w'. read_response fl md5 to_cycles s (w'.0, w'.1 ++ (request ∷ [])))
                >>= finish)
              (insert_with-jammed (suc f) s a.next_ptr v c1 items
                (λ p' v' c' l' j' n'. on_delete-jammed (suc f) p' v' c' items i t l' j' n') refl
                (new-unexpired v t refl)
                (record {
                  distinct = q1.distinct;
                  live = calm-IsLive c1.entries q1.calm unexpired;
                  full = full;
                  undeferred = q1.undeferred;
                  aged = q1.aged;
                })
                missing))
