-- ===== src/Cache/Deleter/Jams.antt =====
-- GarbageCollect (utils/simple_lru_cache_inl.h) with a deleter that does not return for the elements
-- which may be evicted.
use service_control_client_c.Prelude.{
  ℕ, ◌+◌, ◌-◌, ◌<◌, ◌≡◌, ◌⊎◌, refl, ap, ◌∙◌, true, false, none, some, List, [], ◌∷◌, ◌++◌, arith,
  text_eq, Eq, ◌==◌, ==_refl, nat_beq, ltb, All, All-append, All-if, Bool-cases, inl, inr, Run,
  returns, no_fuel, ◌>>=◌,
}
use service_control_client_c.Cache.{
  Elem, Cache, find, erase, replace, find_deferred, settle, chain, enter, new_elem,
}
use service_control_client_c.Cache.Deleter.Room.{remove_with-unpinned}
use service_control_client_c.Cache.Deleter.{
  remove_with, insert_pinned_with, garbage_collect_with, release_with, unpin_elem_with, World,
  discard_with, collect_with, collect_loop_with, insert_with,
}

module _ {ℓ} {K V : Type ℓ} ⦃eq : Eq K⦄ where
  -- The keys of the chain are those of elements of the table.
  abbrev pub IsFound : List (Elem K V) → K → Type ℓ
  IsFound es k = (e : Elem K V) × (find k es ≡ some e)

  IsFound-more :
      (x : Elem K V) (es : List (Elem K V)) (ks : List K)
      → All (IsFound es) ks
      → All (IsFound (x ∷ es)) ks
  unfolding find
  IsFound-more x es [] h = tt
  IsFound-more x es (k ∷ ks) h = (
    elim (Bool-cases (x.key == k)) [
      | inl b ↦ (x, rw b refl)
      | inr b ↦ let (e, f) = h.0 in (e, rw b f)
    ],
    IsFound-more x es ks h.1,
  )

  chain-IsFound : (es : List (Elem K V)) → All (IsFound es) (chain es)
  unfolding chain find
  chain-IsFound [] = tt
  chain-IsFound (e ∷ es) =
      let older = IsFound-more e es (chain es) (chain-IsFound es) in
      All-if (IsFound (e ∷ es)) e.linked (chain es ++ (e.key ∷ [])) (chain es)
        (All-append (IsFound (e ∷ es)) (chain es) (e.key ∷ []) older
          ((e, rw (==_refl e.key) refl), tt))
        older

module _ {ℓ} {K V S : Type ℓ} ⦃eq : Eq K⦄ (delete : ℕ → V → Cache K V × S → Run (Cache K V × S))
    (c : Cache K V) (s : S) where
  -- The deleter does not return for an element of the cache that is not pinned.
  abbrev pub NoReturn : Type ℓ
  NoReturn =
      (k : K) (e : Elem K V)
      → find k c.entries ≡ some e
      → e.pin ≡ 0
      → delete e.ptr e.value
          (record c { units = c.units - e.units; entries = erase k c.entries }, s)
        ≡ no_fuel

  collect_with-unpinned :
      (k : K) (e : Elem K V)
      → find k c.entries ≡ some e
      → nat_beq e.pin 0 ≡ true
      → collect_with delete k (c, s)
        ≡ delete e.ptr e.value
            (record c { units = c.units - e.units; entries = erase k c.entries }, s)
  unfolding collect_with discard_with
  collect_with-unpinned k e f p = rw (f, collect_with, p) refl

  collect_with-pinned :
      (k : K) (e : Elem K V)
      → find k c.entries ≡ some e
      → nat_beq e.pin 0 ≡ false
      → collect_with delete k (c, s) ≡ returns (c, s)
  unfolding collect_with
  collect_with-pinned k e f p = rw (f, collect_with, p) refl

  pub collect_loop-NoReturn :
      (ks : List K)
      → c.max_units < c.units
      → NoReturn
      → All (IsFound c.entries) ks
      → (collect_loop_with delete ks (c, s) ≡ no_fuel)
        ⊎ (collect_loop_with delete ks (c, s) ≡ returns (c, s))
  unfolding collect_loop_with
  collect_loop-NoReturn [] over h f = inr refl
  collect_loop-NoReturn (k ∷ ks) over h f =
      let o : ltb c.max_units c.units ≡ true = ground arith in
      let (e, found) = f.0 in
      let loop : World delete → Run (World delete) = λ w'. collect_loop_with delete ks w' in
      let opened : collect_loop_with delete (k ∷ ks) (c, s)
          ≡ (collect_with delete k (c, s) >>= loop) =
        rw (o, collect_loop_with) refl in
      elim (Bool-cases (nat_beq e.pin 0)) [
        | inl b ↦ inl (
            opened
            ∙ ap (λ r. r >>= loop)
                (collect_with-unpinned k e found b ∙ h k e found (ground (arith, b))))
        | inr b ↦ elim (collect_loop-NoReturn ks over h f.1) [
          | inl n ↦ inl (opened ∙ (ap (λ r. r >>= loop) (collect_with-pinned k e found b) ∙ n))
          | inr r ↦ inr (opened ∙ (ap (λ r. r >>= loop) (collect_with-pinned k e found b) ∙ r))
        ]
      ]

  -- The release of a new element in a cache with too many units evicts it.
  release_with-overfull :
      (k : K) (p now : ℕ) (e : Elem K V) (es : List (Elem K V))
      → c.entries ≡ e ∷ es
      → e.key ≡ k
      → e.pin ≡ 1
      → find_deferred k p c.defer ≡ none
      → c.lru ≡ false
      → c.max_units < c.units
      → release_with delete k p now (c, s)
        ≡ delete e.ptr e.value (
          record c {
            units = c.units - e.units;
            pinned_units = c.pinned_units - e.units;
            entries = es;
          },
          s,
        )
  unfolding release_with unpin_elem_with settle find replace erase
  release_with-overfull k p now e es f q one d l u =
      let o : ltb c.max_units c.units ≡ true = ground arith in
      let g : find k c.entries ≡ some e = rw (f, q, ==_refl k) in
      let r : replace k (record e { pin = 0 }) c.entries ≡ record e { pin = 0 } ∷ es =
        rw (f, q, ==_refl k) in
      rw (d, release_with)
        (rw (g, release_with)
          (rw (one, unpin_elem_with, l, o, r)
            (remove_with-unpinned delete k (record e { pin = 0 }) es
              (record c {
                pinned_units = c.pinned_units - e.units;
                lru = false;
                entries = record e { pin = 0 } ∷ es;
              })
              s (rw (q, ==_refl k) refl) (rw (q, ==_refl k) refl) refl)))

module _ {ℓ} {K V S : Type ℓ} ⦃eq : Eq K⦄ (delete : ℕ → V → Cache K V × S → Run (Cache K V × S))
    (c : Cache K V) (s : S) where
  -- An insertion that has to evict does not return, where the deleter returns neither for the
  -- elements that may be evicted nor for the new one.
  pub insert_with-NoReturn :
      (k : K) (p : ℕ) (v : V) (u now : ℕ)
      → find k c.entries ≡ none
      → find_deferred k p c.defer ≡ none
      → c.lru ≡ false
      → c.max_units < c.units + u
      → ((j : K) (e : Elem K V)
          → find j (new_elem k p v u now c.lru ∷ c.entries) ≡ some e
          → e.pin ≡ 0
          → delete e.ptr e.value (
            record (enter (new_elem k p v u now c.lru) c) {
              units = c.units + u - e.units;
              entries = erase j (new_elem k p v u now c.lru ∷ c.entries);
            },
            s,
          )
            ≡ no_fuel)
      → delete p v (record c { units = c.units + u - u; pinned_units = c.pinned_units + u - u }, s)
        ≡ no_fuel
      → insert_with delete k p v u now (c, s) ≡ no_fuel
  unfolding insert_with insert_pinned_with garbage_collect_with remove_with enter
  insert_with-NoReturn k p v u now f d l over evicted new =
      let x = new_elem k p v u now c.lru in
      let c1 = enter x c in
      let release : World delete → Run (World delete) = λ w'. release_with delete k p now w' in
      let opened : insert_with delete k p v u now (c, s)
          ≡ (collect_loop_with delete (chain c1.entries) (c1, s) >>= release) =
        rw (f, remove_with) refl in
      elim (collect_loop-NoReturn delete c1 s (chain c1.entries) over evicted
        (chain-IsFound c1.entries)) [
          | inl n ↦ opened ∙ ap (λ r. r >>= release) n
          | inr r ↦
              opened
              ∙ (ap (λ r'. r' >>= release) r
                  ∙ (release_with-overfull delete c1 s k p now x c.entries refl refl refl d l over
                      ∙ new))
        ]
