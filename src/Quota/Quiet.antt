-- ===== src/Quota/Quiet.antt =====
-- The cache of QuotaAggregatorImpl (src/quota_aggregator_impl.cc) between two calls: no element is
-- in use, and none waits for a release.
use mathlib.Core.List.{reverse-reverse}
use service_control_client_c.Float.{Float}
use service_control_client_c.Prelude.{
  ℕ, suc, ◌+◌, ◌≤◌, ◌≡◌, refl, ap, sym, ◌∙◌, false, Option, none, some, List, [], ◌∷◌, ◌++◌, map,
  reverse, append_assoc, append-nil, length, length-append, arith, Text, text_eq, ℤ, All,
  All-append, Bool-cases, inl, inr, returns,
}
use service_control_client_c.Proto.{QuotaRequest}
use service_control_client_c.Cache.{is_idle}
use service_control_client_c.Cache.Table.{Distinct}
use service_control_client_c.Cache.Chain.{
  key_of, IsLinked, Distinct-reverse, All-reverse, length-reverse, chain-reverse,
}
use service_control_client_c.Cache.Deleter.{idle_loop_with, remove_expired_with}
use service_control_client_c.Cache.Deleter.Room.{remove_expired_with-at}
use service_control_client_c.Quota.{QuotaCache, QuotaAggregator, refreshing, on_delete}
use service_control_client_c.Quota.Expiry.{
  QuotaEntry, IsCalm, is_kept, returned, rotated, all_asked, holding, Distinct-returned,
  length-returned, idle_loop-rotated,
}

module _ {D : Type 0} (fl : Float D) (md5 : Text → Text) (to_cycles : ℤ → Option ℕ) where
  pub record IsQuiet (c : QuotaCache fl md5 to_cycles) : Type 0 where
    pub distinct : Distinct c.entries
    pub calm : All (IsCalm fl md5 to_cycles) c.entries
    pub sized : c.units ≡ length c.entries
    pub room : c.units ≤ c.max_units
    pub undeferred : c.defer ≡ []
    pub aged : c.lru ≡ false

  All-IsLinked :
      (es : List (QuotaEntry fl md5 to_cycles)) → All (IsCalm fl md5 to_cycles) es → All IsLinked es
  All-IsLinked [] h = tt
  All-IsLinked (e ∷ es) h = (h.0.chained, All-IsLinked es h.1)

  module _ (a : QuotaAggregator fl md5 to_cycles) (now : ℕ) where
    -- The cache after the removal of the expired elements, and the requests which that sends.
    abbrev pub rested_by : Option ℕ → QuotaCache fl md5 to_cycles → QuotaCache fl md5 to_cycles
    rested_by none c = c
    rested_by (some idle) c =
        holding fl md5 to_cycles a now c
          (rotated fl md5 to_cycles a now idle (reverse c.entries) [])

    abbrev pub refreshes_by : Option ℕ → QuotaCache fl md5 to_cycles → List (QuotaRequest D)
    refreshes_by none c = []
    refreshes_by (some idle) c = all_asked fl md5 to_cycles a now idle (reverse c.entries)

    abbrev pub rested : QuotaCache fl md5 to_cycles → QuotaCache fl md5 to_cycles
    rested c = rested_by c.max_idle c

    abbrev pub refreshes : QuotaCache fl md5 to_cycles → List (QuotaRequest D)
    refreshes c = refreshes_by c.max_idle c

    whole_cache :
        (c : QuotaCache fl md5 to_cycles)
        → IsQuiet c
        → holding fl md5 to_cycles a now c (reverse c.entries) ≡ c
    whole_cache c q = rw (reverse-reverse c.entries, length-reverse c.entries, ← q.sized) refl

    pub remove_expired-rested :
        (f : ℕ) (c : QuotaCache fl md5 to_cycles) (s : List (QuotaRequest D))
        → IsQuiet c
        → remove_expired_with (on_delete fl md5 to_cycles (suc f) now a) now (c, s)
          ≡ returns (rested c, s ++ refreshes c)
    remove_expired-rested f c s q = go c.max_idle refl
      where
        r : List (QuotaEntry fl md5 to_cycles)
        r = reverse c.entries

        from_tail : c ≡ holding fl md5 to_cycles a now c (r ++ [])
        from_tail = rw (append-nil r) (sym (whole_cache c q))

        go :
            (o : Option ℕ)
            → c.max_idle ≡ o
            → remove_expired_with (on_delete fl md5 to_cycles (suc f) now a) now (c, s)
              ≡ returns (rested_by o c, s ++ refreshes_by o c)
        go none e =
            remove_expired_with-at (on_delete fl md5 to_cycles (suc f) now a) none now (c, s) e
            ∙ rw (append-nil s) refl
        go (some idle) e =
            remove_expired_with-at (on_delete fl md5 to_cycles (suc f) now a) (some idle) now (c, s)
              e
            ∙ (ap
                  (λ ks.
                    idle_loop_with (on_delete fl md5 to_cycles (suc f) now a) idle now ks (c, s))
                  (chain-reverse c.entries (All-IsLinked c.entries q.calm))
                ∙ (ap
                      (λ c'.
                        idle_loop_with (on_delete fl md5 to_cycles (suc f) now a) idle now
                          (map key_of r) (c', s))
                      from_tail
                    ∙ idle_loop-rotated fl md5 to_cycles a now f idle r [] c s
                        (All-reverse (IsCalm fl md5 to_cycles) c.entries q.calm)
                        (rw (append-nil r) (Distinct-reverse c.entries q.distinct))
                        (rw (append-nil r)
                          (omega (arith, length-reverse c.entries, q.sized, q.room)))
                        q.undeferred q.aged))

    IsCalm-returned :
        (e : QuotaEntry fl md5 to_cycles)
        → IsCalm fl md5 to_cycles e
        → All (IsCalm fl md5 to_cycles) (returned fl md5 to_cycles a now e)
    unfolding refreshing
    IsCalm-returned e m = elim (Bool-cases (is_kept fl md5 to_cycles a now e.value)) [
      | inr b ↦ rw b tt
      | inl b ↦ rw b (
        record {
          signed = ground (arith, m.signed);
          one_unit = m.one_unit;
          unpinned = m.unpinned;
          chained = m.chained;
        },
        tt,
      )
    ]

    module _ (idle : ℕ) where
      pub Distinct-rotated :
          (r m : List (QuotaEntry fl md5 to_cycles))
          → Distinct (r ++ m)
          → Distinct (rotated fl md5 to_cycles a now idle r m)
      Distinct-rotated [] m d = d
      Distinct-rotated (e ∷ r) m d = elim (Bool-cases (is_idle idle now e)) [
        | inl i ↦ rw i (
            Distinct-rotated r (m ++ returned fl md5 to_cycles a now e) (
              rw⁻¹ (append_assoc r m (returned fl md5 to_cycles a now e))
                (Distinct-returned fl md5 to_cycles a now e (r ++ m) d)))
        | inr i ↦ rw i d
      ]

      All-rotated :
          (r m : List (QuotaEntry fl md5 to_cycles))
          → All (IsCalm fl md5 to_cycles) r
          → All (IsCalm fl md5 to_cycles) m
          → All (IsCalm fl md5 to_cycles) (rotated fl md5 to_cycles a now idle r m)
      All-rotated [] m h k = k
      All-rotated (e ∷ r) m h k = elim (Bool-cases (is_idle idle now e)) [
        | inl i ↦ rw i (
            All-rotated r (m ++ returned fl md5 to_cycles a now e) h.1 (
              All-append (IsCalm fl md5 to_cycles) m (returned fl md5 to_cycles a now e) k
                (IsCalm-returned e h.0)))
        | inr i ↦ rw i (All-append (IsCalm fl md5 to_cycles) (e ∷ r) m h k)
      ]

      length-rotated :
          (r m : List (QuotaEntry fl md5 to_cycles))
          → length (rotated fl md5 to_cycles a now idle r m) ≤ length r + length m
      length-rotated [] m = omega arith
      length-rotated (e ∷ r) m = elim (Bool-cases (is_idle idle now e)) [
        | inl i ↦ rw i (
            omega (
              arith,
              length-rotated r (m ++ returned fl md5 to_cycles a now e),
              length-append m (returned fl md5 to_cycles a now e),
              length-returned fl md5 to_cycles a now e,
            ))
        | inr i ↦ rw i (omega (arith, length-append (e ∷ r) m))
      ]

    rested_by-IsQuiet :
        (o : Option ℕ) (c : QuotaCache fl md5 to_cycles) → IsQuiet c → IsQuiet (rested_by o c)
    rested_by-IsQuiet none c q = q
    rested_by-IsQuiet (some idle) c q =
        let r = reverse c.entries in
        let es = rotated fl md5 to_cycles a now idle r [] in
        record {
          distinct = Distinct-reverse es (
              Distinct-rotated idle r []
                (rw (append-nil r) (Distinct-reverse c.entries q.distinct)));
          calm =
              All-reverse (IsCalm fl md5 to_cycles) es
                (All-rotated idle r [] (All-reverse (IsCalm fl md5 to_cycles) c.entries q.calm) tt);
          sized = sym (length-reverse es);
          room = omega (arith, length-rotated idle r [], length-reverse c.entries, q.sized, q.room);
          undeferred = q.undeferred;
          aged = q.aged;
        }

    pub rested-IsQuiet : (c : QuotaCache fl md5 to_cycles) → IsQuiet c → IsQuiet (rested c)
    rested-IsQuiet c q = rested_by-IsQuiet c.max_idle c q
