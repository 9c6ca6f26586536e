-- ===== src/Cache/Rests.antt =====
-- What a user of the cache finds again (utils/simple_lru_cache_inl.h): an element that rests in
-- the table, is written through a lookup, and is met by a later call.
use mathlib.Core.Option.{some-injective}
use service_control_client_c.Prelude.{
  ℕ, ◌+◌, ◌-◌, ◌≤◌, ◌≡◌, refl, ap, sym, ◌∙◌, true, false, Option, none, some, List, [], ◌∷◌, Eq,
  ◌==◌, ==_refl, ltb, arith, Option-cases, Bool-cases, inl, inr,
}
use service_control_client_c.Cache.{
  Elem, Cache, find, erase, replace, find_deferred, discard, remove_elem, remove, is_idle,
  idle_loop, discard_idle, remove_expired_entries, pinned, pin_elem, lookup, write, settle,
  unpin_elem, release, new_elem, enter, collect_loop, garbage_collect, insert_pinned, insert, chain,
}
use service_control_client_c.Cache.Table.{find-replace, find-key}
use service_control_client_c.Cache.Reads.{fresh, lookup_hit}

-- The element `e` of the key `k` is in the table and not pinned, no element of its key and address
-- is deferred, the cache is in LRU mode, is not overfull, and its elements expire after `idle`.
pub record Rests {ℓ} {K V : Type ℓ} ⦃eq : Eq K⦄ (k : K) (e : Elem K V) (idle : Option ℕ)
    (c : Cache K V) : Type ℓ where
  pub found : find k c.entries ≡ some e
  pub unpinned : e.pin ≡ 0
  pub alone : find_deferred k e.ptr c.defer ≡ none
  pub lru : c.lru ≡ true
  pub fits : c.units ≤ c.max_units
  pub expires : c.max_idle ≡ idle

module _ {ℓ} {K V : Type ℓ} ⦃eq : Eq K⦄ where
  find-erase_other :
      (j k : K) (es : List (Elem K V)) → (j == k) ≡ false → find k (erase j es) ≡ find k es
  unfolding find erase
  find-erase_other j k [] h = refl
  find-erase_other j k (x ∷ es) h = ground (
    arith,
    find-erase_other j k es h,
    eq.equals_iff x.key j,
    eq.equals_iff x.key k,
    eq.equals_iff j k,
  )

  remove_elem-Rests :
      (x : Elem K V) (k : K) (e : Elem K V) (o : Option ℕ) (c : Cache K V)
      → (x.key == k) ≡ false
      → Rests k e o c
      → Rests k e o (remove_elem x c)
  unfolding remove_elem discard find_deferred
  remove_elem-Rests x k e o c h r = elim (Bool-cases (ltb 0 x.pin)) [
    | inl p ↦ rw p (record {
      found = r.found;
      unpinned = r.unpinned;
      alone = rw h r.alone;
      lru = r.lru;
      fits = r.fits;
      expires = r.expires;
    })
    | inr p ↦ rw p (record {
      found = r.found;
      unpinned = r.unpinned;
      alone = r.alone;
      lru = r.lru;
      fits = omega (arith, r.fits);
      expires = r.expires;
    })
  ]

  remove-Rests :
      (j k : K) (e : Elem K V) (o : Option ℕ) (c : Cache K V)
      → (j == k) ≡ false
      → Rests k e o c
      → Rests k e o (remove j c)
  unfolding remove
  remove-Rests j k e o c h r = elim (Option-cases (find j c.entries)) [
    | inl m ↦ rw (m, remove) r
    | inr (x, m) ↦
        rw (m, remove)
          (remove_elem-Rests x k e o _ (rw (find-key j c.entries x m) h) (record {
            found = find-erase_other j k c.entries h ∙ r.found;
            unpinned = r.unpinned;
            alone = r.alone;
            lru = r.lru;
            fits = r.fits;
            expires = r.expires;
          }))
  ]

  -- An element that is not idle survives the removal of the idle ones.
  idle_loop-Rests :
      (idle now : ℕ) (ks : List K) (k : K) (e : Elem K V) (o : Option ℕ) (c : Cache K V)
      → now ≤ e.last_use + idle
      → Rests k e o c
      → Rests k e o (idle_loop idle now ks c)
  unfolding idle_loop
  idle_loop-Rests idle now [] k e o c h r = r
  idle_loop-Rests idle now (j ∷ ks) k e o c h r = elim (Option-cases (find j c.entries)) [
    | inl m ↦ rw (m, idle_loop) r
    | inr (x, m) ↦ elim (Bool-cases (is_idle idle now x)) [
      | inr i ↦ rw (m, idle_loop, i) r
      | inl i ↦ elim (Bool-cases (j == k)) [
        | inl q ↦
            let u : x ≡ e =
              some-injective x e
                (sym m ∙ ap (λ l. find l c.entries) ((eq.equals_iff j k).0 q) ∙ r.found) in
            absurd (ground (arith, ap (λ y. y.last_use) u))
        | inr q ↦
            rw (m, idle_loop, i)
              (idle_loop-Rests idle now ks k e o (remove j c) h (remove-Rests j k e o c q r))
      ]
    ]
  ]

  -- `e` is not idle at the time `now`, or nothing expires.
  abbrev pub IsFresh : ℕ → Elem K V → Option ℕ → Type 0
  IsFresh now e none = Unit
  IsFresh now e (some idle) = now ≤ e.last_use + idle

  pub expire-Rests :
      (now : ℕ) (k : K) (e : Elem K V) (o : Option ℕ) (c : Cache K V)
      → IsFresh now e o
      → Rests k e o c
      → Rests k e o (remove_expired_entries now c)
  unfolding remove_expired_entries discard_idle
  expire-Rests now k e none c h r = rw (r.expires, remove_expired_entries) r
  expire-Rests now k e (some idle) c h r =
      rw (r.expires, remove_expired_entries)
        (idle_loop-Rests idle now (chain c.entries) k e (some idle) c h r)

  -- A lookup that is followed by a write to the value found and by its release.
  abbrev pub touch : K → ℕ → V → Elem K V → Cache K V → Cache K V
  touch k now v e c = release k e.ptr now (write k v (lookup k now c).0)

  written :
      (k : K) (v : V) (x : Elem K V) (c : Cache K V)
      → find k c.entries ≡ some x
      → write k v c ≡ record c { entries = replace k (record x { value = v }) c.entries }
  unfolding write
  written k v x c h = rw (h, write)

  find-written :
      (k : K) (v : V) (x : Elem K V) (c : Cache K V)
      → find k c.entries ≡ some x
      → find k (replace k (record x { value = v }) c.entries) ≡ some (record x { value = v })
  find-written k v x c h =
      find-replace k k (record x { value = v }) c.entries x (find-key k c.entries x h) h
      ∙ rw (==_refl k)

  -- The release of the last pin of an element.
  abbrev settled : K → ℕ → Elem K V → Cache K V → Cache K V
  settled k now x c = record c {
    pinned_units = c.pinned_units - x.units;
    entries = record x { pin = 0; last_use = now; linked = true } ∷ erase k c.entries;
  }

  release_run :
      (k : K) (p now : ℕ) (x : Elem K V) (c : Cache K V)
      → find k c.entries ≡ some x
      → x.pin ≡ 1
      → find_deferred k p c.defer ≡ none
      → c.lru ≡ true
      → c.units ≤ c.max_units
      → release k p now c ≡ settled k now x c
  unfolding release unpin_elem settle
  release_run k p now x c f one d l u =
      let o : ltb c.max_units c.units ≡ false = ground arith in
      rw (d, release) (rw (f, release) (rw (one, unpin_elem, l, o)))

  release-Rests :
      (k : K) (now : ℕ) (x : Elem K V) (o : Option ℕ) (c : Cache K V)
      → find k c.entries ≡ some x
      → x.pin ≡ 1
      → find_deferred k x.ptr c.defer ≡ none
      → c.lru ≡ true
      → c.units ≤ c.max_units
      → c.max_idle ≡ o
      → Rests k (record x { pin = 0; last_use = now; linked = true }) o (release k x.ptr now c)
  unfolding find
  release-Rests k now x o c f one d l u i = rw (release_run k x.ptr now x c f one d l u) (record {
    found = rw (find-key k c.entries x f, ==_refl k);
    unpinned = refl;
    alone = d;
    lru = l;
    fits = u;
    expires = i;
  })

  pub touch-Rests :
      (k : K) (now : ℕ) (v : V) (e : Elem K V) (o : Option ℕ) (c : Cache K V)
      → IsFresh now e o
      → Rests k e o c
      → Rests k
          (record e { pin = 0; value = v; last_use = now; linked = true })
          o
          (touch k now v e c)
  unfolding pin_elem
  touch-Rests k now v e o c h r =
      let s = expire-Rests now k e o c h r in
      let c' = fresh k now c in
      let x = pinned c'.lru e in
      let g : find k (pin_elem k e c').entries ≡ some x =
        find-replace k k x c'.entries e (find-key k c'.entries e s.found) s.found
        ∙ rw (==_refl k) in
      let w = pin_elem k e c' in
      let w' : Cache K V = record w { entries = replace k (record x { value = v }) w.entries } in
      rw (lookup_hit k now c e s.found) (
        rw (written k v x w g) (
          release-Rests k now (record x { value = v }) o w' (find-written k v x w g)
            (omega (arith, r.unpinned)) s.alone s.lru s.fits s.expires))

  collect_loop_room : (ks : List K) (c : Cache K V) → c.units ≤ c.max_units → collect_loop ks c ≡ c
  unfolding collect_loop
  collect_loop_room [] c h = refl
  collect_loop_room (k ∷ ks) c h =
      let o : ltb c.max_units c.units ≡ false = ground arith in rw o (collect_loop_room ks c h)

  remove_absent : (k : K) (c : Cache K V) → find k c.entries ≡ none → remove k c ≡ c
  unfolding remove
  remove_absent k c n = rw (n, remove)

  -- An insertion at a key that is not in the table, into a cache in LRU mode with room for it, at
  -- an address that no deferred element of the key has.
  pub insert-Rests :
      (k : K) (p : ℕ) (v : V) (u now : ℕ) (o : Option ℕ) (c : Cache K V)
      → find k c.entries ≡ none
      → find_deferred k p c.defer ≡ none
      → c.lru ≡ true
      → c.units + u ≤ c.max_units
      → c.max_idle ≡ o
      → Rests k
          (record (new_elem k p v u now true) { pin = 0; linked = true })
          o
          (insert k p v u now c)
  unfolding insert insert_pinned garbage_collect enter find
  insert-Rests k p v u now o c n d l h i =
      let x = new_elem k p v u now c.lru in
      let c' = enter x c in
      let f : find k c'.entries ≡ some x = rw (==_refl k) in
      rw (remove_absent k c n)
        (rw (collect_loop_room (chain c'.entries) c' h) (release-Rests k now x o c' f refl d l h i))
