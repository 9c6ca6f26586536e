-- ===== src/Cache/Others.antt =====
-- The calls of the cache of utils/simple_lru_cache_inl.h that its clients in the library do not
-- make: RemoveUnpinned, Clear, UpdateSize, and the reads.
use service_control_client_c.Prelude.{
  ℕ, suc, ◌+◌, ◌-◌, Bool, true, false, ◌&&◌, ◌||◌, Option, none, some, List, [], ◌∷◌, Eq, ◌==◌,
  nat_beq, ltb, if◌then◌else◌,
}
use service_control_client_c.Cache.{Elem, Cache, find, replace, remove, discard, garbage_collect}

module _ {ℓ} {K V : Type ℓ} ⦃eq : Eq K⦄ where
  -- The keys of the chain from its head (`head_.next`) to its tail.
  unfoldable pub from_head : List (Elem K V) → List K
  from_head [] = []
  from_head (e ∷ es) = if e.linked then e.key ∷ from_head es else from_head es

  -- The body of the loop of `RemoveUnpinned`, and the loop.
  unfoldable pub remove_if_unpinned : K → Cache K V → Cache K V
  remove_if_unpinned k c = elim (find k c.entries) [
    | none ↦ c
    | some e ↦ if nat_beq e.pin 0 then remove k c else c
  ]

  unfoldable pub remove_unpinned_loop : List K → Cache K V → Cache K V
  remove_unpinned_loop [] c = c
  remove_unpinned_loop (k ∷ ks) c = remove_unpinned_loop ks (remove_if_unpinned k c)

  unfoldable pub remove_unpinned : Cache K V → Cache K V
  remove_unpinned c = remove_unpinned_loop (from_head c.entries) c

  -- `Clear`
  unfoldable pub discard_elems : List (Elem K V) → Cache K V → Cache K V
  discard_elems [] c = c
  discard_elems (e ∷ es) c = discard_elems es (discard e c)

  unfoldable pub clear : Cache K V → Cache K V
  clear c = record (discard_elems c.entries c) { entries = []; units = 0; pinned_units = 0 }

  -- The test of a value; none stands for the null pointer, which every value matches.
  unfoldable pub is_value : Option ℕ → Elem K V → Bool
  is_value none e = true
  is_value (some p) e = nat_beq e.ptr p

  -- The loop of `UpdateSize` over the deferred elements of the key: the total, and the elements.
  abbrev pub is_resized : K → Option ℕ → Elem K V → Bool
  is_resized k p e = e.key == k && is_value p e

  unfoldable pub resized_units : K → Option ℕ → ℕ → List (Elem K V) → ℕ → ℕ
  resized_units k p u [] n = n
  resized_units k p u (e ∷ es) n =
      resized_units k p u es (if is_resized k p e then n - e.units + u else n)

  unfoldable pub resized : K → Option ℕ → ℕ → List (Elem K V) → List (Elem K V)
  resized k p u [] = []
  resized k p u (e ∷ es) =
      (if is_resized k p e then record e { units = u } else e) ∷ resized k p u es

  unfoldable pub resize_deferred : K → Option ℕ → ℕ → Cache K V → Cache K V
  resize_deferred k p u c = record c {
    units = resized_units k p u c.defer c.units;
    defer = resized k p u c.defer;
  }

  unfoldable pub resize_elem : K → ℕ → Elem K V → Cache K V → Cache K V
  resize_elem k u e c = record c {
    units = c.units - e.units + u;
    pinned_units = if ltb 0 e.pin then c.pinned_units - e.units + u else c.pinned_units;
    entries = replace k (record e { units = u }) c.entries;
  }

  unfoldable pub resized_cache : K → Option ℕ → ℕ → Cache K V → Cache K V
  resized_cache k p u c = elim (find k c.entries) [
    | none ↦ resize_deferred k p u c
    | some e ↦ if is_value p e then resize_elem k u e c else resize_deferred k p u c
  ]

  -- `UpdateSize`
  unfoldable pub update_size : K → Option ℕ → ℕ → Cache K V → Cache K V
  update_size k p u c = garbage_collect (resized_cache k p u c)

  -- `InDeferredTable`
  unfoldable pub in_deferred : K → Option ℕ → List (Elem K V) → Bool
  in_deferred k p [] = false
  in_deferred k p (e ∷ es) = is_resized k p e || in_deferred k p es

  -- `StillInUse`
  unfoldable pub still_in_use : K → Option ℕ → Cache K V → Bool
  still_in_use k p c = elim (find k c.entries) [
    | none ↦ in_deferred k p c.defer
    | some e ↦ is_value p e || in_deferred k p c.defer
  ]

  -- `CountDeferredEntries`: DeferredEntries() and DeferredSize()
  unfoldable pub count_deferred : List (Elem K V) → ℕ × ℕ
  count_deferred [] = (0, 0)
  count_deferred (e ∷ es) = let (n, size) = count_deferred es in (suc n, e.units + size)

  -- `GetLastUseTime` in LRU mode, `GetInsertionTime` in age-based mode
  unfoldable pub use_time : K → Cache K V → Option ℕ
  use_time k c = elim (find k c.entries) [ none ↦ none | some e ↦ some e.last_use ]
