-- ===== src/Cache.antt =====
-- The LRU cache of utils/simple_lru_cache_inl.h: its elements, its tables and its operations.
--
-- `entries` is `table_`, and at the same time the chain that hangs from `head_`: the linked
-- elements, in the order of the list, are the chain from its head (most recent) to its tail. The
-- table is keyed, so the order of the others is immaterial. `defer` is `defer_`. A value is the
-- address `ptr` of an object and the object; addresses are compared as the code compares
-- `Value*`. `discarded` collects what is handed to RemoveElement, in the order of the calls: the
-- deleters modelled here do not call back into the cache.
-- `now` is the value that SimpleCycleTimer::Now() has during a call, in microseconds. The options
-- of a lookup are the default ones (update_eviction_order is true).
pub mod Table
pub mod Valid
pub mod Timed
pub mod Calls
pub mod Others
pub mod Unpinned
pub mod Resize
pub mod Reach
pub mod Clock
pub mod Idle
pub mod Collect
pub mod Eviction
pub mod Conserve
pub mod Conserved
pub mod Chain
pub mod Reads
pub mod Rests
pub mod Deleter
use service_control_client_c.Prelude.{
  ℕ, suc, ◌+◌, ◌-◌, Bool, true, false, not, ◌&&◌, ◌||◌, Option, none, some, List, [], ◌∷◌, ◌++◌, Eq,
  ◌==◌, nat_beq, ltb, leb, if◌then◌else◌, sum_by, length, map,
}

-- `SimpleLRUCacheElem`; `linked` is what `IsLinked` tells of an element of the table.
pub record Elem {ℓ} (K V : Type ℓ) : Type ℓ where
  pub key : K
  pub ptr : ℕ
  pub value : V
  pub pin : ℕ
  pub units : ℕ
  pub last_use : ℕ
  pub linked : Bool

-- `max_idle` is none where `max_idle_` is -1 (no expiration).
pub record Cache {ℓ} (K V : Type ℓ) : Type ℓ where
  pub entries : List (Elem K V)
  pub defer : List (Elem K V)
  pub units : ℕ
  pub max_units : ℕ
  pub pinned_units : ℕ
  pub max_idle : Option ℕ
  pub lru : Bool
  pub discarded : List V

-- The constructor.
unfoldable pub new_cache {ℓ} : {K V : Type ℓ} → ℕ → Cache K V
new_cache total_units = record {
  entries = [];
  defer = [];
  units = 0;
  max_units = total_units;
  pinned_units = 0;
  max_idle = none;
  lru = true;
  discarded = [];
}

module _ {ℓ} {K V : Type ℓ} ⦃eq : Eq K⦄ where
  -- `table_.find(k)`
  unfoldable pub find : K → List (Elem K V) → Option (Elem K V)
  find k [] = none
  find k (e ∷ es) = if e.key == k then some e else find k es

  -- `table_.erase(iter)` for the element of the key
  unfoldable pub erase : K → List (Elem K V) → List (Elem K V)
  erase k [] = []
  erase k (e ∷ es) = if e.key == k then es else e ∷ erase k es

  -- a write through the pointer to the element of the key
  unfoldable pub replace : K → Elem K V → List (Elem K V) → List (Elem K V)
  replace k x [] = []
  replace k x (e ∷ es) = if e.key == k then x ∷ es else e ∷ replace k x es

  -- The keys of the chain, from its tail (`head_.prev`) to its head.
  unfoldable pub chain : List (Elem K V) → List K
  chain [] = []
  chain (e ∷ es) = if e.linked then chain es ++ (e.key ∷ []) else chain es

  -- the search of a deferred element by key and value
  unfoldable pub find_deferred : K → ℕ → List (Elem K V) → Option (Elem K V)
  find_deferred k p [] = none
  find_deferred k p (e ∷ es) =
      if e.key == k && nat_beq e.ptr p then some e else find_deferred k p es

  unfoldable pub erase_deferred : K → ℕ → List (Elem K V) → List (Elem K V)
  erase_deferred k p [] = []
  erase_deferred k p (e ∷ es) =
      if e.key == k && nat_beq e.ptr p then es else e ∷ erase_deferred k p es

  unfoldable pub replace_deferred : K → ℕ → Elem K V → List (Elem K V) → List (Elem K V)
  replace_deferred k p x [] = []
  replace_deferred k p x (e ∷ es) =
      if e.key == k && nat_beq e.ptr p then x ∷ es else e ∷ replace_deferred k p x es

  -- `IsOverfullInternal`
  abbrev pub is_overfull : Cache K V → Bool
  is_overfull c = ltb c.max_units c.units

  -- `Discard`
  unfoldable pub discard : Elem K V → Cache K V → Cache K V
  discard e c = record c { units = c.units - e.units; discarded = c.discarded ++ (e.value ∷ []) }

  -- `Remove(Elem*)`, for an element that is no longer in the table
  unfoldable pub remove_elem : Elem K V → Cache K V → Cache K V
  remove_elem e c =
      if ltb 0 e.pin
      then record c {
        pinned_units = c.pinned_units - e.units;
        defer = record e { linked = false } ∷ c.defer;
      }
      else discard e c

  -- `Remove(const Key&)`
  unfoldable pub remove : K → Cache K V → Cache K V
  remove k c = elim (find k c.entries) [
    | none ↦ c
    | some e ↦ remove_elem e (record c { entries = erase k c.entries })
  ]

  -- The body of the loop of `GarbageCollect`.
  unfoldable pub collect : K → Cache K V → Cache K V
  collect k c = elim (find k c.entries) [
    | none ↦ c
    | some e ↦ if nat_beq e.pin 0 then discard e (record c { entries = erase k c.entries }) else c
  ]

  unfoldable pub collect_loop : List K → Cache K V → Cache K V
  collect_loop [] c = c
  collect_loop (k ∷ ks) c = collect_loop ks (if is_overfull c then collect k c else c)

  unfoldable pub garbage_collect : Cache K V → Cache K V
  garbage_collect c = collect_loop (chain c.entries) c

  -- The test of the loop of `DiscardIdle`: `e->last_use_ < Now() - max_idle`.
  abbrev pub is_idle : ℕ → ℕ → Elem K V → Bool
  is_idle idle now e = ltb (e.last_use + idle) now

  -- The loop of `DiscardIdle`, which stops at the first element that is not idle.
  unfoldable pub idle_loop : ℕ → ℕ → List K → Cache K V → Cache K V
  idle_loop idle now [] c = c
  idle_loop idle now (k ∷ ks) c =
      let rest = idle_loop idle now ks (remove k c) in
      elim (find k c.entries) [ none ↦ c | some e ↦ if is_idle idle now e then rest else c ]

  unfoldable pub discard_idle : ℕ → ℕ → Cache K V → Cache K V
  discard_idle idle now c = idle_loop idle now (chain c.entries) c

  -- `RemoveExpiredEntries`
  unfoldable pub remove_expired_entries : ℕ → Cache K V → Cache K V
  remove_expired_entries now c = elim c.max_idle [ none ↦ c | some idle ↦ discard_idle idle now c ]

  -- The part of `Lookup` that pins the element found; in LRU mode the first pin takes it off the
  -- chain.
  abbrev pub pinned : Bool → Elem K V → Elem K V
  pinned lru e = record e {
    pin = e.pin + 1;
    linked = if nat_beq e.pin 0 && lru then false else e.linked;
  }

  unfoldable pub pin_elem : K → Elem K V → Cache K V → Cache K V
  pin_elem k e c = record c {
    pinned_units = if nat_beq e.pin 0 then c.pinned_units + e.units else c.pinned_units;
    entries = replace k (pinned c.lru e) c.entries;
  }

  -- `Lookup`: the value found, with its address.
  unfoldable pub lookup : K → ℕ → Cache K V → Cache K V × Option (ℕ × V)
  lookup k now c =
      let c' = remove_expired_entries now c in
      elim (find k c'.entries) [
        | none ↦ (c', none)
        | some e ↦ (pin_elem k e c', some (e.ptr, e.value))
      ]

  -- A write through the pointer to the value that a lookup returned.
  unfoldable pub write : K → V → Cache K V → Cache K V
  write k v c = elim (find k c.entries) [
    | none ↦ c
    | some e ↦ record c { entries = replace k (record e { value = v }) c.entries }
  ]

  -- The two halves of `Release`: a deferred value, and one that is in the table.
  unfoldable pub release_deferred : K → ℕ → Elem K V → Cache K V → Cache K V
  release_deferred k p e c =
      if nat_beq (e.pin - 1) 0
      then discard e (record c { defer = erase_deferred k p c.defer })
      else record c { defer = replace_deferred k p (record e { pin = e.pin - 1 }) c.defer }

  abbrev pub unpin : ℕ → Bool → Elem K V → Elem K V
  unpin now lru e = record e { pin = e.pin - 1; last_use = if lru then now else e.last_use }

  -- An element whose last pin is gone: in LRU mode it becomes the head of the chain.
  unfoldable pub settle : K → ℕ → Elem K V → Cache K V → Cache K V
  settle k now e c = record c {
    pinned_units = c.pinned_units - e.units;
    entries =
        if c.lru
        then record (unpin now c.lru e) { linked = true } ∷ erase k c.entries
        else replace k (unpin now c.lru e) c.entries;
  }

  unfoldable pub unpin_elem : K → ℕ → Elem K V → Cache K V → Cache K V
  unpin_elem k now e c =
      let c' = settle k now e c in
      if nat_beq (e.pin - 1) 0
      then if is_overfull c' then remove k c' else c'
      else record c { entries = replace k (unpin now c.lru e) c.entries }

  -- `Release`
  unfoldable pub release : K → ℕ → ℕ → Cache K V → Cache K V
  release k p now c = elim (find_deferred k p c.defer) [
    | some e ↦ release_deferred k p e c
    | none ↦ elim (find k c.entries) [ none ↦ c | some e ↦ unpin_elem k now e c ]
  ]

  -- The new element of `InsertPinned`, and its entry in the table, the counters and the chain.
  abbrev pub new_elem : K → ℕ → V → ℕ → ℕ → Bool → Elem K V
  new_elem k p v units now lru = record {
    key = k;
    ptr = p;
    value = v;
    pin = 1;
    units = units;
    last_use = now;
    linked = not lru;
  }

  unfoldable pub enter : Elem K V → Cache K V → Cache K V
  enter e c = record c {
    units = c.units + e.units;
    pinned_units = c.pinned_units + e.units;
    entries = e ∷ c.entries;
  }

  -- `InsertPinned`
  unfoldable pub insert_pinned : K → ℕ → V → ℕ → ℕ → Cache K V → Cache K V
  insert_pinned k p v units now c =
      garbage_collect (enter (new_elem k p v units now c.lru) (remove k c))

  -- `Insert`
  unfoldable pub insert : K → ℕ → V → ℕ → ℕ → Cache K V → Cache K V
  insert k p v units now c = release k p now (insert_pinned k p v units now c)

  -- The loop of `RemoveAll`; the elements stay in the table until it is cleared.
  unfoldable pub remove_elems : List (Elem K V) → Cache K V → Cache K V
  remove_elems [] c = c
  remove_elems (e ∷ es) c = remove_elems es (remove_elem e c)

  unfoldable pub remove_all : Cache K V → Cache K V
  remove_all c = record (remove_elems c.entries c) { entries = [] }

  -- `SetMaxSize`
  unfoldable pub set_max_size : ℕ → Cache K V → Cache K V
  set_max_size total_units c = garbage_collect (record c { max_units = total_units })

  -- `SetTimeout`; none stands for a negative or infinite number of seconds, some for a number of
  -- cycles. A call that would mix the two modes is ignored.
  unfoldable pub set_timeout : Option ℕ → Bool → ℕ → Cache K V → Cache K V
  set_timeout none lru now c = record c { lru = lru; max_idle = none }
  set_timeout (some cycles) lru now c =
      let mixed : Bool = elim c.max_idle [ none ↦ false | some _ ↦ true ] in
      if mixed && not (if lru then c.lru else not c.lru)
      then c
      else discard_idle cycles now (record c { lru = lru; max_idle = some cycles })
