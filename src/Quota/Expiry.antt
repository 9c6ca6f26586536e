-- ===== src/Quota/Expiry.antt =====
-- Expiry in the cache of QuotaAggregatorImpl (src/quota_aggregator_impl.cc): the loop of
-- RemoveExpiredEntries with OnCacheEntryDelete as its deleter, for a cache that has room.
use mathlib.Core.List.{reverse-append}
use service_control_client_c.Float.{Float}
use service_control_client_c.Prelude.{
  ℕ, suc, ◌+◌, ◌-◌, ◌≤◌, ◌≡◌, refl, ap, ◌∙◌, Bool, true, false, not, ◌&&◌, ◌||◌, Option, none, List,
  [], ◌∷◌, ◌++◌, map, reverse, append_assoc, append-nil, length, length-append, arith, Text,
  text_eq, if◌then◌else◌, ℤ, All, Bool-cases, inl, inr, Run, returns, ◌>>=◌,
}
use service_control_client_c.Proto.{QuotaRequest}
use service_control_client_c.Cache.{Elem, find, find_deferred, is_idle}
use service_control_client_c.Cache.Table.{Distinct}
use service_control_client_c.Cache.Chain.{
  key_of, find-reverse, Distinct-append, find-oldest, erase-oldest,
}
use service_control_client_c.Cache.Deleter.{insert_with, remove_with, idle_loop_with}
use service_control_client_c.Cache.Deleter.Room.{
  put_elem, insert_with_room, remove_with-unpinned, idle_loop_with-idle, idle_loop_with-fresh,
}
use service_control_client_c.Quota.{
  QuotaElem, QuotaCache, QuotaWorld, QuotaAggregator, should_drop, refresh_request, refreshing,
  needs_refresh, on_delete,
}

module _ {D : Type 0} (fl : Float D) (md5 : Text → Text) (to_cycles : ℤ → Option ℕ) where
  abbrev pub QuotaEntry : Type 0
  QuotaEntry = Elem Text (QuotaElem fl md5 to_cycles)

  -- An element that is not in use, in a cache that evicts by age.
  pub record IsCalm (e : QuotaEntry) : Type 0 where
    pub signed : e.value.signature ≡ e.key
    pub one_unit : e.units ≡ 1
    pub unpinned : e.pin ≡ 0
    pub chained : e.linked ≡ true

  module _ (a : QuotaAggregator fl md5 to_cycles) (now : ℕ) where
    -- Whether the deleter puts an element back, what it puts back, and the request it sends.
    abbrev pub is_kept : QuotaElem fl md5 to_cycles → Bool
    is_kept v = not (a.in_flush_all || should_drop fl md5 to_cycles a now v)

    abbrev pub put_back_as : QuotaElem fl md5 to_cycles → QuotaElem fl md5 to_cycles
    put_back_as v =
        if needs_refresh fl md5 to_cycles v then refreshing fl md5 to_cycles now v else v

    abbrev pub returned : QuotaEntry → List QuotaEntry
    returned e =
        if is_kept e.value
        then record e { value = put_back_as e.value; last_use = now } ∷ []
        else []

    abbrev pub asked : QuotaEntry → List (QuotaRequest D)
    asked e =
        if is_kept e.value && needs_refresh fl md5 to_cycles e.value
        then refresh_request fl md5 to_cycles a e.value ∷ []
        else []

    -- The chain from its tail after the visit of the elements of `r`, where those of `m` are put
    -- back already: an element that is not idle ends the loop.
    abbrev pub rotated : ℕ → List QuotaEntry → List QuotaEntry → List QuotaEntry
    rotated idle [] m = m
    rotated idle (e ∷ r) m =
        if is_idle idle now e then rotated idle r (m ++ returned e) else (e ∷ r) ++ m

    abbrev pub all_asked : ℕ → List QuotaEntry → List (QuotaRequest D)
    all_asked idle [] = []
    all_asked idle (e ∷ r) = if is_idle idle now e then asked e ++ all_asked idle r else []

    -- A cache of elements of one unit each, given from the tail of the chain.
    abbrev pub holding : QuotaCache fl md5 to_cycles → List QuotaEntry → QuotaCache fl md5 to_cycles
    holding c es = record c { units = length es; entries = reverse es }

    insert_with-holding :
        (delete : ℕ
          → QuotaElem fl md5 to_cycles
          → QuotaWorld fl md5 to_cycles
          → Run (QuotaWorld fl md5 to_cycles))
        (k : Text) (x : QuotaElem fl md5 to_cycles) (e : QuotaEntry) (es : List QuotaEntry)
        (c : QuotaCache fl md5 to_cycles) (q : List (QuotaRequest D))
        → k ≡ e.key
        → IsCalm e
        → find e.key es ≡ none
        → suc (length es) ≤ c.max_units
        → c.defer ≡ []
        → c.lru ≡ false
        → insert_with delete k e.ptr x 1 now (holding c es, q)
          ≡ returns (holding c (es ++ (record e { value = x; last_use = now } ∷ [])), q)
    unfolding find_deferred
    insert_with-holding delete k x e es c q s m h room d l =
        let y : QuotaEntry = record e { value = x; last_use = now } in
        let grown : length es + 1 ≡ length (es ++ (y ∷ [])) =
          omega (arith, length-append es (y ∷ [])) in
        let kept : c.pinned_units + 1 - 1 ≡ c.pinned_units = omega arith in
        let front : put_elem e.key e.ptr x 1 now c.lru ∷ reverse es ≡ reverse (es ++ (y ∷ [])) =
          rw (reverse-append es (y ∷ []))
            (ap (λ z. z ∷ reverse es) (rw (m.unpinned, m.one_unit, m.chained, l) refl)) in
        rw s (
          insert_with_room delete e.key e.ptr x 1 now (holding c es) q (find-reverse e.key es h)
            (ap (find_deferred e.key e.ptr) d) l (omega (arith, room))
          ∙ ap (λ c'. returns (c', q))
              (rw (kept, grown)
                (ap (λ xs. record (holding c (es ++ (y ∷ []))) { entries = xs }) front)))

    on_delete_room :
        (f : ℕ) (e : QuotaEntry) (es : List QuotaEntry) (c : QuotaCache fl md5 to_cycles)
        (q : List (QuotaRequest D))
        → IsCalm e
        → find e.key es ≡ none
        → suc (length es) ≤ c.max_units
        → c.defer ≡ []
        → c.lru ≡ false
        → on_delete fl md5 to_cycles (suc f) now a e.ptr e.value (holding c es, q)
          ≡ returns (holding c (es ++ returned e), q ++ asked e)
    unfolding refreshing on_delete
    on_delete_room f e es c q m h room d l =
        elim (Bool-cases (a.in_flush_all || should_drop fl md5 to_cycles a now e.value)) [
          | inl b ↦ rw (on_delete, b, append-nil es, append-nil q) refl
          | inr b ↦ elim (Bool-cases (needs_refresh fl md5 to_cycles e.value)) [
            | inl n ↦
                rw (on_delete, b, n)
                  (ap
                    (λ r. r >>= λ w'.
                      returns (w'.0, w'.1 ++ (refresh_request fl md5 to_cycles a e.value ∷ [])))
                    (insert_with-holding (on_delete fl md5 to_cycles f now a) e.value.signature
                      (refreshing fl md5 to_cycles now e.value) e es c q m.signed m h room d l))
            | inr n ↦
                rw (on_delete, b, n, append-nil q)
                  (insert_with-holding (on_delete fl md5 to_cycles f now a) e.value.signature
                    e.value e es c q m.signed m h room d l)
          ]
        ]

    remove_with-oldest :
        (f : ℕ) (e : QuotaEntry) (es : List QuotaEntry) (c : QuotaCache fl md5 to_cycles)
        (q : List (QuotaRequest D))
        → IsCalm e
        → find e.key es ≡ none
        → suc (length es) ≤ c.max_units
        → c.defer ≡ []
        → c.lru ≡ false
        → remove_with (on_delete fl md5 to_cycles (suc f) now a) e.key (holding c (e ∷ es), q)
          ≡ returns (holding c (es ++ returned e), q ++ asked e)
    remove_with-oldest f e es c q m h room d l =
        let less : suc (length es) - e.units ≡ length es = omega (arith, m.one_unit) in
        remove_with-unpinned (on_delete fl md5 to_cycles (suc f) now a) e.key e (reverse es)
          (holding c (e ∷ es)) q (find-oldest e es h) (erase-oldest e es h) m.unpinned
        ∙ rw less (on_delete_room f e es c q m h room d l)

    pub Distinct-returned :
        (e : QuotaEntry) (es : List QuotaEntry) → Distinct (e ∷ es) → Distinct (es ++ returned e)
    Distinct-returned e es h = elim (Bool-cases (is_kept e.value)) [
      | inl b ↦
          rw b
            (Distinct-append es (record e { value = put_back_as e.value; last_use = now }) h.1 h.0)
      | inr b ↦ rw (b, append-nil es) h.1
    ]

    pub length-returned : (e : QuotaEntry) → length (returned e) ≤ 1
    length-returned e = ground arith

    pub idle_loop-rotated :
        (f idle : ℕ) (r m : List QuotaEntry) (c : QuotaCache fl md5 to_cycles)
        (q : List (QuotaRequest D))
        → All IsCalm r
        → Distinct (r ++ m)
        → length (r ++ m) ≤ c.max_units
        → c.defer ≡ []
        → c.lru ≡ false
        → idle_loop_with
            (on_delete fl md5 to_cycles (suc f) now a)
            idle
            now
            (map key_of r)
            (holding c (r ++ m), q)
          ≡ returns (holding c (rotated idle r m), q ++ all_asked idle r)
    unfolding idle_loop_with
    idle_loop-rotated f idle [] m c q w u n d l = rw (append-nil q) refl
    idle_loop-rotated f idle (e ∷ r) m c q w u n d l =
        let delete = on_delete fl md5 to_cycles (suc f) now a in
        let found = find-oldest e (r ++ m) u.0 in
        let loop : QuotaWorld fl md5 to_cycles → Run (QuotaWorld fl md5 to_cycles) =
          λ w'. idle_loop_with delete idle now (map key_of r) w' in
        elim (Bool-cases (is_idle idle now e)) [
          | inl i ↦
              idle_loop_with-idle delete idle now e.key (map key_of r) e (holding c ((e ∷ r) ++ m))
                q found i
              ∙ (ap (λ x. x >>= loop) (remove_with-oldest f e (r ++ m) c q w.0 u.0 n d l)
                  ∙ (ap (λ es. loop (holding c es, q ++ asked e)) (append_assoc r m (returned e))
                      ∙ (idle_loop-rotated f idle r (m ++ returned e) c (q ++ asked e) w.1
                            (rw⁻¹ (append_assoc r m (returned e)) (Distinct-returned e (r ++ m) u))
                            (omega (
                              arith,
                              n,
                              length-append r m,
                              length-append r (m ++ returned e),
                              length-append m (returned e),
                              length-returned e,
                            ))
                            d l
                          ∙ rw (i, append_assoc q (asked e) (all_asked idle r)) refl)))
          | inr i ↦
              idle_loop_with-fresh delete idle now e.key (map key_of r) e (holding c ((e ∷ r) ++ m))
                q found i
              ∙ rw (i, append-nil q) refl
        ]
