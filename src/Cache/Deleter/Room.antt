-- ===== src/Cache/Deleter/Room.antt =====
-- An insertion into a cache that evicts by age and has room for it (utils/simple_lru_cache_inl.h):
-- it does not run the deleter.
use service_control_client_c.Prelude.{
  ℕ, ◌+◌, ◌-◌, ◌≤◌, ◌≡◌, refl, ap, ◌∙◌, Bool, true, false, Option, none, some, List, [], ◌∷◌, Eq,
  ==_refl, ltb, arith, Run, returns, ◌>>=◌,
}
use service_control_client_c.Cache.{
  Elem, Cache, find, find_deferred, replace, write, pinned, pin_elem, erase, is_idle, chain, settle,
  new_elem, enter,
}
use service_control_client_c.Cache.Table.{find-key, find-replace, replace-replace}
use service_control_client_c.Cache.Deleter.{
  World, remove_expired_with, discard_with, remove_elem_with, remove_with, idle_loop_with,
  collect_loop_with, garbage_collect_with, insert_pinned_with, unpin_elem_with, release_with,
  insert_with,
}

module _ {ℓ} {K V : Type ℓ} ⦃eq : Eq K⦄ where
  -- The element after the insertion, and the cache.
  abbrev pub put_elem : K → ℕ → V → ℕ → ℕ → Bool → Elem K V
  put_elem k p v u now lru = record (new_elem k p v u now lru) { pin = 0 }

  abbrev pub put : K → ℕ → V → ℕ → ℕ → Cache K V → Cache K V
  put k p v u now c = record c {
    units = c.units + u;
    pinned_units = c.pinned_units + u - u;
    entries = put_elem k p v u now c.lru ∷ c.entries;
  }

module _ {ℓ} {K V S : Type ℓ} ⦃eq : Eq K⦄
    (delete : ℕ → V → Cache K V × S → Run (Cache K V × S)) where
  pub remove_elem_with-unpinned :
      (e : Elem K V) (c : Cache K V) (s : S)
      → e.pin ≡ 0
      → remove_elem_with delete e (c, s)
        ≡ delete e.ptr e.value (record c { units = c.units - e.units }, s)
  unfolding remove_elem_with discard_with
  remove_elem_with-unpinned e c s p = rw p refl

  -- An element that is not pinned goes from the table to the deleter.
  pub remove_with-unpinned :
      (k : K) (e : Elem K V) (ys : List (Elem K V)) (c : Cache K V) (s : S)
      → find k c.entries ≡ some e
      → erase k c.entries ≡ ys
      → e.pin ≡ 0
      → remove_with delete k (c, s)
        ≡ delete e.ptr e.value (record c { units = c.units - e.units; entries = ys }, s)
  unfolding remove_with remove_elem_with discard_with
  remove_with-unpinned k e ys c s f r p = rw (f, remove_with, r, p) refl

  pub idle_loop_with-idle :
      (idle now : ℕ) (k : K) (ks : List K) (e : Elem K V) (c : Cache K V) (s : S)
      → find k c.entries ≡ some e
      → is_idle idle now e ≡ true
      → idle_loop_with delete idle now (k ∷ ks) (c, s)
        ≡ (remove_with delete k (c, s) >>= λ w. idle_loop_with delete idle now ks w)
  unfolding idle_loop_with
  idle_loop_with-idle idle now k ks e c s f i = rw (f, idle_loop_with, i) refl

  pub idle_loop_with-fresh :
      (idle now : ℕ) (k : K) (ks : List K) (e : Elem K V) (c : Cache K V) (s : S)
      → find k c.entries ≡ some e
      → is_idle idle now e ≡ false
      → idle_loop_with delete idle now (k ∷ ks) (c, s) ≡ returns (c, s)
  unfolding idle_loop_with
  idle_loop_with-fresh idle now k ks e c s f i = rw (f, idle_loop_with, i) refl

  pub remove_expired_with-at :
      (o : Option ℕ) (now : ℕ) (w : World delete)
      → (w.0).max_idle ≡ o
      → remove_expired_with delete now w ≡ elim o [
        | none ↦ returns w
        | some idle ↦ idle_loop_with delete idle now (chain (w.0).entries) w
      ]
  unfolding remove_expired_with
  remove_expired_with-at o now w e =
      ap
        (λ (o' : Option ℕ). elim o' [
          | none ↦ returns w
          | some idle ↦ idle_loop_with delete idle now (chain (w.0).entries) w
        ])
        e

  collect_loop_with_room :
      (ks : List K) (c : Cache K V) (s : S)
      → c.units ≤ c.max_units
      → collect_loop_with delete ks (c, s) ≡ returns (c, s)
  unfolding collect_loop_with
  collect_loop_with_room [] c s h = refl
  collect_loop_with_room (k ∷ ks) c s h =
      let o : ltb c.max_units c.units ≡ false = ground arith in rw (o, collect_loop_with)

  -- The release of an element of the table that is pinned once.
  release_with-found :
      (k : K) (p now : ℕ) (e : Elem K V) (c : Cache K V) (s : S)
      → find k c.entries ≡ some e
      → e.pin ≡ 1
      → find_deferred k p c.defer ≡ none
      → c.lru ≡ false
      → c.units ≤ c.max_units
      → release_with delete k p now (c, s)
        ≡ returns (
          record c {
            pinned_units = c.pinned_units - e.units;
            entries = replace k (record e { pin = 0 }) c.entries;
          },
          s,
        )
  unfolding release_with unpin_elem_with settle
  release_with-found k p now e c s f one d l u =
      let o : ltb c.max_units c.units ≡ false = ground arith in
      rw (d, release_with) (rw (f, release_with) (rw (one, unpin_elem_with, l, o) refl))

  write-pin_elem :
      (k : K) (v : V) (e : Elem K V) (c : Cache K V)
      → find k c.entries ≡ some e
      → e.pin ≡ 0
      → write k v (pin_elem k e c) ≡ record c {
        pinned_units = c.pinned_units + e.units;
        entries = replace k (record (pinned c.lru e) { value = v }) c.entries;
      }
  unfolding write pin_elem
  write-pin_elem k v e c f z =
      let keyed : e.key ≡ k = find-key k c.entries e f in
      let found : find k (replace k (pinned c.lru e) c.entries) ≡ some (pinned c.lru e) =
        find-replace k k (pinned c.lru e) c.entries e keyed f ∙ rw (==_refl k) refl in
      rw (found, write)
        (rw
          (
            replace-replace k (record (pinned c.lru e) { value = v }) (pinned c.lru e) c.entries
                keyed,
            z,
          )
          refl)

  -- A lookup that finds the element, a write to its value, and the release.
  pub visited :
      (k : K) (p now : ℕ) (v : V) (e : Elem K V) (c : Cache K V) (s : S)
      → find k c.entries ≡ some e
      → e.pin ≡ 0
      → find_deferred k p c.defer ≡ none
      → c.lru ≡ false
      → c.units ≤ c.max_units
      → release_with delete k p now (write k v (pin_elem k e c), s)
        ≡ returns (record c { entries = replace k (record e { value = v }) c.entries }, s)
  visited k p now v e c s f z d l u =
      let y : Elem K V = record (pinned c.lru e) { value = v } in
      let keyed : e.key ≡ k = find-key k c.entries e f in
      let found : find k (replace k y c.entries) ≡ some y =
        find-replace k k y c.entries e keyed f ∙ rw (==_refl k) refl in
      let back : c.pinned_units + e.units - e.units ≡ c.pinned_units = omega arith in
      rw (write-pin_elem k v e c f z) (
        release_with-found k p now y
          (record c { pinned_units = c.pinned_units + e.units; entries = replace k y c.entries }) s
          found (rw z refl) d l u
        ∙ rw (back, replace-replace k (record y { pin = 0 }) y c.entries keyed, l, z) refl)

  insert_pinned_with_room :
      (k : K) (p : ℕ) (v : V) (u now : ℕ) (c : Cache K V) (s : S)
      → find k c.entries ≡ none
      → c.units + u ≤ c.max_units
      → insert_pinned_with delete k p v u now (c, s)
        ≡ returns (enter (new_elem k p v u now c.lru) c, s)
  unfolding insert_pinned_with remove_with garbage_collect_with enter
  insert_pinned_with_room k p v u now c s f room =
      rw (f, remove_with)
        (collect_loop_with_room (chain (new_elem k p v u now c.lru ∷ c.entries))
          (enter (new_elem k p v u now c.lru) c) s room)

  pub insert_with_room :
      (k : K) (p : ℕ) (v : V) (u now : ℕ) (c : Cache K V) (s : S)
      → find k c.entries ≡ none
      → find_deferred k p c.defer ≡ none
      → c.lru ≡ false
      → c.units + u ≤ c.max_units
      → insert_with delete k p v u now (c, s) ≡ returns (put k p v u now c, s)
  unfolding insert_with enter find replace
  insert_with_room k p v u now c s f d l room =
      rw (insert_pinned_with_room k p v u now c s f room) (
        release_with-found k p now (new_elem k p v u now c.lru)
          (enter (new_elem k p v u now c.lru) c) s (rw (==_refl k) refl) refl d l room
        ∙ rw (==_refl k) refl)
