-- ===== src/Cache/Timed.antt =====
-- The chain of the cache in the order of time (utils/simple_lru_cache_inl.h): what the sanity check
-- of DiscardIdle calls "LRU list should be sorted by last_use_".
use mathlib.Core.Path.{subst}
use mathlib.Core.Option.{some-injective}
use service_control_client_c.Prelude.{
  ℕ, ◌≤◌, ◌≡◌, refl, sym, Bool, false, some, List, [], ◌∷◌, Eq, ◌==◌, ◌&&◌, nat_beq, if◌then◌else◌,
  arith, Bool-cases, Option-cases, inl, inr, ◌⊎◌,
}
use service_control_client_c.Cache.Valid.{entries-remove_elem}
use service_control_client_c.Cache.{
  Elem, Cache, find, erase, replace, chain, is_overfull, discard, remove, collect, collect_loop,
  garbage_collect, is_idle, idle_loop, discard_idle, remove_expired_entries, pinned, pin_elem,
  lookup,
}

-- The time of use of a linked element, or of the linked one before it.
abbrev pub latest {ℓ} : {K V : Type ℓ} → ℕ → Elem K V → ℕ
latest t e = if e.linked then e.last_use else t

-- The linked elements, from the head, are not newer than `t` and than those before them.
abbrev pub IsTimed {ℓ} : {K V : Type ℓ} → ℕ → List (Elem K V) → Type 0
IsTimed t [] = Unit
IsTimed t (e ∷ es) = (latest t e ≤ t) × IsTimed (latest t e) es

module _ {ℓ} {K V : Type ℓ} ⦃eq : Eq K⦄ where
  pub IsTimed-le : (t t' : ℕ) (es : List (Elem K V)) → t ≤ t' → IsTimed t es → IsTimed t' es
  IsTimed-le t t' [] h s = tt
  IsTimed-le t t' (e ∷ es) h s =
      (ground (arith, s.0), IsTimed-le (latest t e) (latest t' e) es (ground arith) s.1)

  pub IsTimed-erase : (t : ℕ) (k : K) (es : List (Elem K V)) → IsTimed t es → IsTimed t (erase k es)
  unfolding erase
  IsTimed-erase t k [] s = tt
  IsTimed-erase t k (e ∷ es) s = elim (Bool-cases (e.key == k)) [
    | inl b ↦ rw b (IsTimed-le (latest t e) t es s.0 s.1)
    | inr b ↦ rw b (s.0, IsTimed-erase (latest t e) k es s.1)
  ]

  -- A write that takes an element off the chain, or leaves its place and its time.
  abbrev pub IsMoved : Elem K V → Elem K V → Type 0
  IsMoved y e = (y.linked ≡ false) ⊎ ((y.linked ≡ e.linked) × (y.last_use ≡ e.last_use))

  latest-IsMoved :
      (t : ℕ) (y e : Elem K V)
      → IsMoved y e
      → latest t e ≤ t
      → (latest t e ≤ latest t y) × (latest t y ≤ t)
  latest-IsMoved t y e (inl l) h = ground arith
  latest-IsMoved t y e (inr m) h = ground (arith, m.0, m.1)

  pub IsTimed-replace :
      (t : ℕ) (k : K) (y e : Elem K V) (es : List (Elem K V))
      → find k es ≡ some e
      → IsMoved y e
      → IsTimed t es
      → IsTimed t (replace k y es)
  unfolding replace find
  IsTimed-replace t k y e [] h m s = tt
  IsTimed-replace t k y e (x ∷ es) h m s = elim (Bool-cases (x.key == k)) [
    | inl b ↦
        let q =
          latest-IsMoved t y x (subst (IsMoved y) (sym (some-injective x e (rw b at h))) m) s.0 in
        rw b (q.1, IsTimed-le (latest t x) (latest t y) es q.0 s.1)
    | inr b ↦ rw b (s.0, IsTimed-replace (latest t x) k y e es (rw b at h) m s.1)
  ]

  -- What each operation does to the order, where the chain is not newer than `t`.
  module _ (t : ℕ) where
    pub remove-IsTimed :
        (k : K) (c : Cache K V) → IsTimed t c.entries → IsTimed t (remove k c).entries
    unfolding remove
    remove-IsTimed k c s = elim (Option-cases (find k c.entries)) [
      | inl m ↦ rw (m, remove) s
      | inr (e, h) ↦
          rw (h, remove, entries-remove_elem e (record c { entries = erase k c.entries }))
            (IsTimed-erase t k c.entries s)
    ]

    collect-IsTimed :
        (k : K) (c : Cache K V) → IsTimed t c.entries → IsTimed t (collect k c).entries
    unfolding collect discard
    collect-IsTimed k c s = elim (Option-cases (find k c.entries)) [
      | inl m ↦ rw (m, collect) s
      | inr (e, h) ↦ elim (Bool-cases (nat_beq e.pin 0)) [
        | inl z ↦ rw (h, collect, z) (IsTimed-erase t k c.entries s)
        | inr z ↦ rw (h, collect, z) s
      ]
    ]

    collect_loop-IsTimed :
        (ks : List K) (c : Cache K V) → IsTimed t c.entries → IsTimed t (collect_loop ks c).entries
    unfolding collect_loop
    collect_loop-IsTimed [] c s = s
    collect_loop-IsTimed (k ∷ ks) c s =
        collect_loop-IsTimed ks (if is_overfull c then collect k c else c)
          (elim (Bool-cases (is_overfull c)) [
            | inl b ↦ rw b (collect-IsTimed k c s)
            | inr b ↦ rw b s
          ])

    pub garbage_collect-IsTimed :
        (c : Cache K V) → IsTimed t c.entries → IsTimed t (garbage_collect c).entries
    unfolding garbage_collect
    garbage_collect-IsTimed c s = collect_loop-IsTimed (chain c.entries) c s

    pub idle_loop-IsTimed :
        (idle now : ℕ) (ks : List K) (c : Cache K V)
        → IsTimed t c.entries
        → IsTimed t (idle_loop idle now ks c).entries
    unfolding idle_loop
    idle_loop-IsTimed idle now [] c s = s
    idle_loop-IsTimed idle now (k ∷ ks) c s = elim (Option-cases (find k c.entries)) [
      | inl m ↦ rw (m, idle_loop) s
      | inr (e, h) ↦ elim (Bool-cases (is_idle idle now e)) [
        | inl b ↦
            rw (h, idle_loop, b) (idle_loop-IsTimed idle now ks (remove k c) (remove-IsTimed k c s))
        | inr b ↦ rw (h, idle_loop, b) s
      ]
    ]

    pub remove_expired_entries-IsTimed :
        (now : ℕ) (c : Cache K V)
        → IsTimed t c.entries
        → IsTimed t (remove_expired_entries now c).entries
    unfolding remove_expired_entries discard_idle
    remove_expired_entries-IsTimed now c s = elim (Option-cases c.max_idle) [
      | inl m ↦ rw (m, remove_expired_entries) s
      | inr (idle, h) ↦
          rw (h, remove_expired_entries) (idle_loop-IsTimed idle now (chain c.entries) c s)
    ]

    pinned-IsMoved : (lru : Bool) (e : Elem K V) → IsMoved (pinned lru e) e
    pinned-IsMoved lru e = elim (Bool-cases (nat_beq e.pin 0 && lru)) [
      | inl b ↦ rw b (inl refl)
      | inr b ↦ rw b (inr (refl, refl))
    ]

    pub lookup-IsTimed :
        (k : K) (now : ℕ) (c : Cache K V)
        → IsTimed t c.entries
        → IsTimed t (lookup k now c).0.entries
    unfolding lookup pin_elem
    lookup-IsTimed k now c s =
        let c' = remove_expired_entries now c in
        let s' = remove_expired_entries-IsTimed now c s in
        elim (Option-cases (find k c'.entries)) [
          | inl m ↦ rw (m, lookup) s'
          | inr (e, h) ↦
              rw (h, lookup)
                (IsTimed-replace t k (pinned c'.lru e) e c'.entries h (pinned-IsMoved c'.lru e) s')
        ]
