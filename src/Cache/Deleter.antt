-- ===== src/Cache/Deleter.antt =====
-- The calls of the cache of utils/simple_lru_cache_inl.h where RemoveElement runs a deleter that
-- may call the cache again, as the deleter of SimpleLRUCacheWithDeleter may.
--
-- `delete p v` is the call of the deleter for the value `v` at the address `p`, on the cache and
-- what else the deleter changes. The steps are those of Cache, in the order of the source: the
-- table and the counters are up to date when the deleter runs. A loop that is to visit an element
-- which is no longer there would follow a pointer to freed memory, which is undefined.
pub mod Room
pub mod Lookups
pub mod Jams
use service_control_client_c.Prelude.{
  ℕ, ◌+◌, ◌-◌, Bool, true, false, Option, none, some, List, [], ◌∷◌, Eq, ◌==◌, nat_beq, ltb,
  if◌then◌else◌, Run, returns, no_fuel, undefined, ◌>>=◌,
}
use service_control_client_c.Cache.{
  Elem, Cache, find, erase, find_deferred, erase_deferred, replace, replace_deferred, chain,
  is_overfull, is_idle, pin_elem, unpin, settle, new_elem, enter,
}

module _ {ℓ} {K V S : Type ℓ} ⦃eq : Eq K⦄
    (delete : ℕ → V → Cache K V × S → Run (Cache K V × S)) where
  abbrev pub World : Type ℓ
  World = Cache K V × S

  -- `Discard`
  unfoldable pub discard_with : Elem K V → World → Run World
  discard_with e (c, s) = delete e.ptr e.value (record c { units = c.units - e.units }, s)

  -- `Remove(Elem*)`, for an element that is no longer in the table
  unfoldable pub remove_elem_with : Elem K V → World → Run World
  remove_elem_with e (c, s) =
      if ltb 0 e.pin
      then returns (
        record c {
          pinned_units = c.pinned_units - e.units;
          defer = record e { linked = false } ∷ c.defer;
        },
        s,
      )
      else discard_with e (c, s)

  -- `Remove(const Key&)`
  unfoldable pub remove_with : K → World → Run World
  remove_with k (c, s) = elim (find k c.entries) [
    | none ↦ returns (c, s)
    | some e ↦ remove_elem_with e (record c { entries = erase k c.entries }, s)
  ]

  -- The body of the loop of `GarbageCollect`, and the loop.
  unfoldable pub collect_with : K → World → Run World
  collect_with k (c, s) = elim (find k c.entries) [
    | none ↦ undefined
    | some e ↦
        if nat_beq e.pin 0
        then discard_with e (record c { entries = erase k c.entries }, s)
        else returns (c, s)
  ]

  unfoldable pub collect_loop_with : List K → World → Run World
  collect_loop_with [] w = returns w
  collect_loop_with (k ∷ ks) w = elim (is_overfull w.0) [
    | true ↦ (collect_with k w >>= λ w'. collect_loop_with ks w')
    | false ↦ returns w
  ]

  unfoldable pub garbage_collect_with : World → Run World
  garbage_collect_with w = collect_loop_with (chain (w.0).entries) w

  -- `RemoveExpiredEntries`
  unfoldable pub idle_loop_with : ℕ → ℕ → List K → World → Run World
  idle_loop_with idle now [] w = returns w
  idle_loop_with idle now (k ∷ ks) w = elim (find k (w.0).entries) [
    | none ↦ undefined
    | some e ↦ elim (is_idle idle now e) [
      | true ↦ (remove_with k w >>= λ w'. idle_loop_with idle now ks w')
      | false ↦ returns w
    ]
  ]

  unfoldable pub remove_expired_with : ℕ → World → Run World
  remove_expired_with now w = elim (w.0).max_idle [
    | none ↦ returns w
    | some idle ↦ idle_loop_with idle now (chain (w.0).entries) w
  ]

  -- `Lookup`
  unfoldable pub lookup_with : K → ℕ → World → Run (World × Option (ℕ × V))
  lookup_with k now w = remove_expired_with now w >>= λ w'. elim (find k (w'.0).entries) [
    | none ↦ returns (w', none)
    | some e ↦ returns ((pin_elem k e w'.0, w'.1), some (e.ptr, e.value))
  ]

  -- `Release`
  unfoldable pub release_deferred_with : K → ℕ → Elem K V → World → Run World
  release_deferred_with k p e (c, s) =
      if nat_beq (e.pin - 1) 0
      then discard_with e (record c { defer = erase_deferred k p c.defer }, s)
      else returns
          (record c { defer = replace_deferred k p (record e { pin = e.pin - 1 }) c.defer }, s)

  unfoldable pub unpin_elem_with : K → ℕ → Elem K V → World → Run World
  unpin_elem_with k now e (c, s) =
      let c' = settle k now e c in
      if nat_beq (e.pin - 1) 0
      then if is_overfull c' then remove_with k (c', s) else returns (c', s)
      else returns (record c { entries = replace k (unpin now c.lru e) c.entries }, s)

  unfoldable pub release_with : K → ℕ → ℕ → World → Run World
  release_with k p now (c, s) = elim (find_deferred k p c.defer) [
    | some e ↦ release_deferred_with k p e (c, s)
    | none ↦ elim (find k c.entries) [ none ↦ undefined | some e ↦ unpin_elem_with k now e (c, s) ]
  ]

  -- `InsertPinned` and `Insert`
  unfoldable pub insert_pinned_with : K → ℕ → V → ℕ → ℕ → World → Run World
  insert_pinned_with k p v units now w = remove_with k w >>= λ w'.
      garbage_collect_with (enter (new_elem k p v units now (w.0).lru) w'.0, w'.1)

  unfoldable pub insert_with : K → ℕ → V → ℕ → ℕ → World → Run World
  insert_with k p v units now w =
      insert_pinned_with k p v units now w >>= λ w'. release_with k p now w'

  -- The loop of `RemoveAll`
  unfoldable pub remove_elems_with : List (Elem K V) → World → Run World
  remove_elems_with [] w = returns w
  remove_elems_with (e ∷ es) w = remove_elem_with e w >>= λ w'. remove_elems_with es w'

  unfoldable pub remove_all_with : World → Run World
  remove_all_with w =
      remove_elems_with (w.0).entries w >>= λ w'. returns (record (w'.0) { entries = [] }, w'.1)
