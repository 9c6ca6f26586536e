-- ===== src/Cache/Valid.antt =====
-- The representation invariant of the cache (utils/simple_lru_cache_inl.h), which every operation
-- keeps.
use mathlib.Core.Path.{subst}
use service_control_client_c.Prelude.{
  ℕ, ◌+◌, ◌<◌, ◌≡◌, sym, Bool, false, not, ◌&&◌, ◌||◌, none, some, List, [], ◌∷◌, Eq, ◌==◌, arith,
  nat_beq, ltb, if◌then◌else◌, sum_by, All, Bool-cases, Option-cases, inl, inr,
}
use service_control_client_c.Cache.{
  Elem, Cache, find, erase, chain, is_overfull, discard, remove_elem, remove, collect, collect_loop,
  garbage_collect, is_idle, idle_loop, discard_idle, remove_expired_entries, pin_elem, lookup,
}
use service_control_client_c.Cache.Table.{
  Distinct, find-key, sum_by-erase, sum_by-replace, All-find, All-erase, All-replace, find-erase,
  Distinct-erase, Distinct-replace,
}

-- The units that an element of the table adds to `pinned_units_`.
abbrev pub pinned_of {ℓ} : {K V : Type ℓ} → Elem K V → ℕ
pinned_of e = if nat_beq e.pin 0 then 0 else e.units

abbrev pub units_of {ℓ} : {K V : Type ℓ} → Elem K V → ℕ
units_of e = e.units

-- In LRU mode the chain holds the elements that are not pinned, in age-based mode all of them.
abbrev pub IsPlaced {ℓ} : {K V : Type ℓ} → Bool → Elem K V → Type 0
IsPlaced lru e = e.linked ≡ (not lru || nat_beq e.pin 0)

abbrev pub IsHeld {ℓ} : {K V : Type ℓ} → Elem K V → Type 0
IsHeld e = 0 < e.pin

module _ {ℓ} {K V : Type ℓ} ⦃eq : Eq K⦄ where
  -- The invariant, where `es` stands for the elements of the table.
  pub record IsValidOver (es : List (Elem K V)) (c : Cache K V) : Type ℓ where
    pub distinct : Distinct es
    pub sized : c.units ≡ sum_by units_of es + sum_by units_of c.defer
    pub pins : c.pinned_units ≡ sum_by pinned_of es
    pub placed : All (IsPlaced c.lru) es
    pub held : All IsHeld c.defer

  abbrev pub IsValid : Cache K V → Type ℓ
  IsValid c = IsValidOver c.entries c

  -- An element may be taken to the front.
  pub detach-IsValidOver :
      (k : K) (es : List (Elem K V)) (e : Elem K V) (c : Cache K V)
      → find k es ≡ some e
      → IsValidOver es c
      → IsValidOver (e ∷ erase k es) c
  detach-IsValidOver k es e c h v = record {
    distinct = (
      ground (arith, find-erase e.key k es v.distinct, find-key k es e h, eq.equals_iff k e.key),
      Distinct-erase k es v.distinct,
    );
    sized = omega (arith, v.sized, sum_by-erase units_of k es e h);
    pins = omega (arith, v.pins, sum_by-erase pinned_of k es e h);
    placed =
        (All-find (IsPlaced c.lru) k es e v.placed h, All-erase (IsPlaced c.lru) k es v.placed);
    held = v.held;
  }

  pub discard-IsValidOver :
      (e : Elem K V) (es : List (Elem K V)) (c : Cache K V)
      → e.pin ≡ 0
      → IsValidOver (e ∷ es) c
      → IsValidOver es (discard e c)
  unfolding discard
  discard-IsValidOver e es c p v = record {
    distinct = v.distinct.1;
    sized = omega (arith, v.sized);
    pins = ground (arith, v.pins);
    placed = v.placed.1;
    held = v.held;
  }

  pub remove_elem-IsValidOver :
      (e : Elem K V) (es : List (Elem K V)) (c : Cache K V)
      → IsValidOver (e ∷ es) c
      → IsValidOver es (remove_elem e c)
  unfolding remove_elem
  remove_elem-IsValidOver e es c v = elim (Bool-cases (ltb 0 e.pin)) [
    | inl b ↦ rw b (record {
      distinct = v.distinct.1;
      sized = omega (arith, v.sized);
      pins = ground (arith, v.pins);
      placed = v.placed.1;
      held = (ground arith, v.held);
    })
    | inr b ↦ rw b (discard-IsValidOver e es c (ground arith) v)
  ]

  pub entries-remove_elem : (e : Elem K V) (c : Cache K V) → (remove_elem e c).entries ≡ c.entries
  unfolding remove_elem discard
  entries-remove_elem e c = ground arith

  pub find-remove :
      (j k : K) (c : Cache K V)
      → Distinct c.entries
      → find j (remove k c).entries ≡ (if k == j then none else find j c.entries)
  unfolding remove
  find-remove j k c d = elim (Option-cases (find k c.entries)) [
    | inl m ↦ rw (m, remove) (ground (arith, eq.equals_iff k j))
    | inr (e, h) ↦
        rw (h, remove, entries-remove_elem e (record c { entries = erase k c.entries }))
          (find-erase j k c.entries d)
  ]

  -- The elements of the table may be named by an equal list, or replaced.
  pub of_entries :
      (es : List (Elem K V)) (c : Cache K V) → c.entries ≡ es → IsValidOver es c → IsValid c
  of_entries es c p v = subst (λ l. IsValidOver l c) (sym p) v

  pub with_entries :
      (es l : List (Elem K V)) (c : Cache K V)
      → IsValidOver es c
      → IsValidOver es (record c { entries = l })
  with_entries es l c v = record {
    distinct = v.distinct;
    sized = v.sized;
    pins = v.pins;
    placed = v.placed;
    held = v.held;
  }

  remove_found-IsValid :
      (k : K) (e : Elem K V) (c : Cache K V)
      → find k c.entries ≡ some e
      → IsValid c
      → IsValid (remove_elem e (record c { entries = erase k c.entries }))
  remove_found-IsValid k e c h v =
      let c' : Cache K V = record c { entries = erase k c.entries } in
      of_entries (erase k c.entries) (remove_elem e c') (entries-remove_elem e c') (
        remove_elem-IsValidOver e (erase k c.entries) c' (
          with_entries (e ∷ erase k c.entries) (erase k c.entries) c
            (detach-IsValidOver k c.entries e c h v)))

  pub remove-IsValid : (k : K) (c : Cache K V) → IsValid c → IsValid (remove k c)
  unfolding remove
  remove-IsValid k c v = elim (Option-cases (find k c.entries)) [
    | inl m ↦ rw (m, remove) v
    | inr (e, h) ↦ rw (h, remove) (remove_found-IsValid k e c h v)
  ]

  pub collect-IsValid : (k : K) (c : Cache K V) → IsValid c → IsValid (collect k c)
  unfolding collect
  collect-IsValid k c v = elim (Option-cases (find k c.entries)) [
    | inl m ↦ rw (m, collect) v
    | inr (e, h) ↦ elim (Bool-cases (nat_beq e.pin 0)) [
      | inl z ↦
          rw (h, collect, z)
            (let d =
                discard-IsValidOver e (erase k c.entries) c (ground arith)
                  (detach-IsValidOver k c.entries e c h v) in
              unfold discard in
              with_entries (erase k c.entries) (erase k c.entries) (discard e c) d)
      | inr z ↦ rw (h, collect, z) v
    ]
  ]

  pub collect_loop-IsValid : (ks : List K) (c : Cache K V) → IsValid c → IsValid (collect_loop ks c)
  unfolding collect_loop
  collect_loop-IsValid [] c v = v
  collect_loop-IsValid (k ∷ ks) c v =
      collect_loop-IsValid ks (if is_overfull c then collect k c else c)
        (elim (Bool-cases (is_overfull c)) [
          | inl b ↦ rw b (collect-IsValid k c v)
          | inr b ↦ rw b v
        ])

  pub garbage_collect-IsValid : (c : Cache K V) → IsValid c → IsValid (garbage_collect c)
  unfolding garbage_collect
  garbage_collect-IsValid c v = collect_loop-IsValid (chain c.entries) c v

  pub idle_loop-IsValid :
      (idle now : ℕ) (ks : List K) (c : Cache K V) → IsValid c → IsValid (idle_loop idle now ks c)
  unfolding idle_loop
  idle_loop-IsValid idle now [] c v = v
  idle_loop-IsValid idle now (k ∷ ks) c v = elim (Option-cases (find k c.entries)) [
    | inl m ↦ rw (m, idle_loop) v
    | inr (e, h) ↦ elim (Bool-cases (is_idle idle now e)) [
      | inl b ↦
          rw (h, idle_loop, b) (idle_loop-IsValid idle now ks (remove k c) (remove-IsValid k c v))
      | inr b ↦ rw (h, idle_loop, b) v
    ]
  ]

  pub remove_expired_entries-IsValid :
      (now : ℕ) (c : Cache K V) → IsValid c → IsValid (remove_expired_entries now c)
  unfolding remove_expired_entries discard_idle
  remove_expired_entries-IsValid now c v = elim (Option-cases c.max_idle) [
    | inl m ↦ rw (m, remove_expired_entries) v
    | inr (idle, h) ↦
        rw (h, remove_expired_entries) (idle_loop-IsValid idle now (chain c.entries) c v)
  ]

  pin_elem-IsValid :
      (k : K) (e : Elem K V) (c : Cache K V)
      → find k c.entries ≡ some e
      → IsValid c
      → IsValid (pin_elem k e c)
  unfolding pin_elem
  pin_elem-IsValid k e c h v =
      let x : Elem K V = record e {
        pin = e.pin + 1;
        linked = if nat_beq e.pin 0 && c.lru then false else e.linked;
      } in
      let q = All-find (IsPlaced c.lru) k c.entries e v.placed h in
      record {
        distinct = Distinct-replace k x c.entries e (find-key k c.entries e h) h v.distinct;
        sized = omega (arith, v.sized, sum_by-replace units_of k x c.entries e h);
        pins = ground (arith, v.pins, sum_by-replace pinned_of k x c.entries e h);
        placed = All-replace (IsPlaced c.lru) k x c.entries (ground arith) v.placed;
        held = v.held;
      }

  pub lookup-IsValid : (k : K) (now : ℕ) (c : Cache K V) → IsValid c → IsValid (lookup k now c).0
  unfolding lookup
  lookup-IsValid k now c v =
      let c' = remove_expired_entries now c in
      let v' = remove_expired_entries-IsValid now c v in
      elim (Option-cases (find k c'.entries)) [
        | inl m ↦ rw (m, lookup) v'
        | inr (e, h) ↦ rw (h, lookup) (pin_elem-IsValid k e c' h v')
      ]
