-- ===== src/Cache/Eviction.antt =====
-- What the calls of the cache (utils/simple_lru_cache_inl.h) that make room evict.
use mathlib.Core.Path.{subst}
use mathlib.Core.List.{reverse-reverse}
use service_control_client_c.Prelude.{
  ℕ, ◌≤◌, ◌≡◌, refl, sym, ap, ◌∙◌, false, ◌&&◌, List, [], ◌∷◌, ◌++◌, reverse, append-nil, Eq, arith,
  All, ◌⊎◌, inl, inr, Bool-cases,
}
use service_control_client_c.Cache.{
  Elem, Cache, chain, collect_loop, garbage_collect, remove, enter, new_elem, insert_pinned,
  set_max_size,
}
use service_control_client_c.Cache.Valid.{IsValid}
use service_control_client_c.Cache.Calls.{enter-IsValid}
use service_control_client_c.Cache.Reach.{resized-IsValid}
use service_control_client_c.Cache.Timed.{IsTimed, IsTimed-le, latest, remove-IsTimed}
use service_control_client_c.Cache.Clock.{Run, Run-IsValid, Run-IsTimed, enter-IsTimed}
use service_control_client_c.Cache.Collect.{spared, newest, IsNeeded, Evicted, collect_loop-Evicted}

module _ {ℓ} {K V : Type ℓ} where
  -- Of the elements those on the chain were used no later than `x`, if that is on the chain too.
  abbrev pub IsOlder : List (Elem K V) → Elem K V → Type 0
  IsOlder older x = All (λ e. (x.linked && e.linked ≡ false) ⊎ (e.last_use ≤ x.last_use)) older

  -- The least recently used elements make room, and no more of them than it takes.
  pub record IsEviction (c c' : Cache K V) : Type ℓ where
    pub kept : List (Elem K V)
    pub older : List (Elem K V)
    -- the elements of the table, the most recent ones first
    pub split : c.entries ≡ kept ++ older
    -- of the older ones those stay that may not be evicted
    pub left : c'.entries ≡ kept ++ spared older
    pub aged : All (IsOlder older) kept
    pub fits : (c'.units ≤ c'.max_units) ⊎ (spared c'.entries ≡ c'.entries)
    -- without the last eviction the cache would be overfull
    pub needed : IsNeeded (newest older) c c'

  spared-spared : (es : List (Elem K V)) → spared (spared es) ≡ spared es
  spared-spared [] = refl
  spared-spared (e ∷ es) = ground (arith, spared-spared es)

module _ {ℓ} {K V : Type ℓ} ⦃eq : Eq K⦄ where
  is_older :
      (t : ℕ) (x : Elem K V) (es : List (Elem K V))
      → (x.linked ≡ false) ⊎ (t ≤ x.last_use)
      → IsTimed t es
      → IsOlder es x
  is_older t x [] h s = tt
  is_older t x (e ∷ es) (inl h) s =
      (inl (ground (arith, h)), is_older (latest t e) x es (inl h) s.1)
  is_older t x (e ∷ es) (inr h) s = (
    elim (Bool-cases e.linked) [
      | inl l ↦ inr (ground (arith, s.0, l))
      | inr l ↦ inl (ground (arith, l))
    ],
    is_older (latest t e) x es (inr (ground (arith, s.0))) s.1,
  )

  IsTimed-suffix : (t : ℕ) (es fs : List (Elem K V)) → IsTimed t (es ++ fs) → IsTimed t fs
  IsTimed-suffix t [] fs s = s
  IsTimed-suffix t (e ∷ es) fs s =
      IsTimed-le (latest t e) t fs s.0 (IsTimed-suffix (latest t e) es fs s.1)

  aged_lem :
      (t : ℕ) (kept older : List (Elem K V)) → IsTimed t (kept ++ older) → All (IsOlder older) kept
  aged_lem t [] older s = tt
  aged_lem t (x ∷ kept) older s = (
    is_older (latest t x) x older
        (elim (Bool-cases x.linked) [ inl l ↦ inr (ground (arith, l)) | inr l ↦ inl l ])
        (IsTimed-suffix (latest t x) kept older s.1),
    aged_lem (latest t x) kept older s.1,
  )

  garbage_collect-IsEviction :
      (t : ℕ) (c : Cache K V) → IsValid c → IsTimed t c.entries → IsEviction c (garbage_collect c)
  unfolding garbage_collect
  garbage_collect-IsEviction t c v s =
      let r = reverse-reverse c.entries in
      let w : Evicted c.entries [] c (collect_loop (chain c.entries) c) =
        subst (λ l. Evicted l [] c (collect_loop (chain l) c)) r
          (collect_loop-Evicted (reverse c.entries) [] c
            (sym (append-nil (reverse (reverse c.entries)) ∙ r)) v) in
      let x = w.left ∙ ap (λ l. w.kept ++ l) (append-nil (spared w.older)) in
      record {
        kept = w.kept;
        older = w.older;
        split = w.split;
        left = x;
        aged = aged_lem t w.kept w.older (subst (IsTimed t) w.split s);
        fits = full w.kept w.older (collect_loop (chain c.entries) c) x w.fits;
        needed = w.needed;
      }
    where
      full :
          (kept older : List (Elem K V)) (c' : Cache K V)
          → c'.entries ≡ kept ++ spared older
          → (c'.units ≤ c'.max_units) ⊎ (kept ≡ [])
          → (c'.units ≤ c'.max_units) ⊎ (spared c'.entries ≡ c'.entries)
      full kept older c' x (inl h) = inl h
      full kept older c' x (inr h) =
          let y = x ∙ ap (λ l. l ++ spared older) h in
          inr (ap spared y ∙ (spared-spared older ∙ sym y))

  -- Where the clock does not go back, InsertPinned, after its removal of an older value of the key,
  -- and SetMaxSize evict the least recently used elements: each evicted one was used no later than
  -- those of the chain that stay, the cache is overfull afterwards only if no element may be evicted,
  -- and the last eviction was needed.
  pub calls-IsEviction :
      {n t : ℕ} (k : K) (p : ℕ) (x : V) (u m now : ℕ) (c : Cache K V)
      → Run n t c
      → t ≤ now
      → IsEviction (enter (new_elem k p x u now c.lru) (remove k c)) (insert_pinned k p x u now c)
        × IsEviction (record c { max_units = m }) (set_max_size m c)
  unfolding insert_pinned set_max_size
  calls-IsEviction {n} {t} k p x u m now c r l =
      let v = Run-IsValid r in
      let s = IsTimed-le t now c.entries l (Run-IsTimed r) in
      (
        garbage_collect-IsEviction now _ (enter-IsValid k p x u now c v)
            (enter-IsTimed now k p x u c.lru (remove k c) (remove-IsTimed now k c s)),
        garbage_collect-IsEviction now (record c { max_units = m }) (resized-IsValid m c v) s,
      )
