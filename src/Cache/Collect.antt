-- ===== src/Cache/Collect.antt =====
-- The loop of GarbageCollect (utils/simple_lru_cache_inl.h), which starts at the tail of the chain.
use mathlib.Core.Path.{subst}
use mathlib.Core.List.{reverse-cons}
use service_control_client_c.Prelude.{
  ℕ, ◌+◌, ◌≤◌, ◌<◌, ◌≡◌, refl, sym, ap, ◌∙◌, Bool, true, false, ◌&&◌, Option, none, some, List, [],
  ◌∷◌, ◌++◌, reverse, append_assoc, append-nil, Eq, if◌then◌else◌, arith, nat_beq, Bool-cases,
  Option-cases, inl, inr, ◌⊎◌,
}
use service_control_client_c.Cache.{
  Elem, Cache, find, chain, discard, is_overfull, collect, collect_loop,
}
use service_control_client_c.Cache.Table.{sum_by-erase}
use service_control_client_c.Cache.Valid.{IsValid, units_of, collect-IsValid}
use service_control_client_c.Cache.Idle.{find-between, erase-between, chain-append}

abbrev or_else : Option ℕ → Option ℕ → Option ℕ
or_else none o = o
or_else (some u) o = some u

module _ {ℓ} {K V : Type ℓ} where
  abbrev pub is_evictable : Elem K V → Bool
  is_evictable e = e.linked && nat_beq e.pin 0

  -- The elements that may not be evicted.
  abbrev pub spared : List (Elem K V) → List (Elem K V)
  spared [] = []
  spared (e ∷ es) = if is_evictable e then spared es else e ∷ spared es

  -- The units of the first element, from the head, that may be evicted.
  abbrev pub newest : List (Elem K V) → Option ℕ
  newest [] = none
  newest (e ∷ es) = if is_evictable e then some e.units else newest es

  spared-append : (es fs : List (Elem K V)) → spared (es ++ fs) ≡ spared es ++ spared fs
  spared-append [] fs = refl
  spared-append (e ∷ es) fs = ground (arith, spared-append es fs)

  newest-append : (es fs : List (Elem K V)) → newest (es ++ fs) ≡ or_else (newest es) (newest fs)
  newest-append [] fs = refl
  newest-append (e ∷ es) fs = ground (arith, newest-append es fs)

  -- Without the last eviction the cache would be overfull.
  abbrev pub IsNeeded : Option ℕ → Cache K V → Cache K V → Type 0
  IsNeeded none c c' = c'.units ≡ c.units
  IsNeeded (some u) c c' = c'.max_units < c'.units + u

  -- A run of the loop over the chain of `es`, after which `fs` follow.
  pub record Evicted (es fs : List (Elem K V)) (c c' : Cache K V) : Type ℓ where
    pub kept : List (Elem K V)
    pub older : List (Elem K V)
    pub split : es ≡ kept ++ older
    pub left : c'.entries ≡ kept ++ (spared older ++ fs)
    pub fits : (c'.units ≤ c'.max_units) ⊎ (kept ≡ [])
    pub needed : IsNeeded (newest older) c c'

  spared-snoc :
      (es fs : List (Elem K V)) (e : Elem K V)
      → spared (es ++ (e ∷ [])) ++ fs ≡ spared es ++ (spared (e ∷ []) ++ fs)
  spared-snoc es fs e =
      ap (λ l. l ++ fs) (spared-append es (e ∷ [])) ∙ append_assoc (spared es) (spared (e ∷ [])) fs

  IsNeeded-none :
      (o : Option ℕ) (c c' : Cache K V) → IsNeeded o c c' → IsNeeded (or_else o none) c c'
  IsNeeded-none none c c' h = h
  IsNeeded-none (some u) c c' h = h

  IsNeeded-some :
      (o : Option ℕ) (u : ℕ) (c c₁ c' : Cache K V)
      → c₁.units + u ≡ c.units
      → c'.max_units ≡ c.max_units
      → c.max_units < c.units
      → IsNeeded o c₁ c'
      → IsNeeded (or_else o (some u)) c c'
  IsNeeded-some none u c c₁ c' h x l n = omega arith
  IsNeeded-some (some v) u c c₁ c' h x l n = n

  Evicted-stop :
      (es fs : List (Elem K V)) (c : Cache K V)
      → c.entries ≡ es ++ fs
      → c.units ≤ c.max_units
      → Evicted es fs c c
  Evicted-stop es fs c p h = record {
    kept = es;
    older = [];
    split = sym (append-nil es);
    left = p;
    fits = inl h;
    needed = refl;
  }

  Evicted-spared :
      (es fs : List (Elem K V)) (e : Elem K V) (c c' : Cache K V)
      → is_evictable e ≡ false
      → Evicted es (e ∷ fs) c c'
      → Evicted (es ++ (e ∷ [])) fs c c'
  Evicted-spared es fs e c c' n v =
      let w : spared (e ∷ []) ≡ e ∷ [] = ground (arith, n) in
      let z : newest (e ∷ []) ≡ none = ground (arith, n) in
      record {
        kept = v.kept;
        older = v.older ++ (e ∷ []);
        split = ap (λ l. l ++ (e ∷ [])) v.split ∙ append_assoc v.kept v.older (e ∷ []);
        left =
            v.left
            ∙ ap (λ l. v.kept ++ l)
                (ap (λ l. spared v.older ++ (l ++ fs)) (sym w) ∙ sym (spared-snoc v.older fs e));
        fits = v.fits;
        needed =
            subst (λ o. IsNeeded o c c')
              (sym (newest-append v.older (e ∷ []) ∙ ap (or_else (newest v.older)) z))
              (IsNeeded-none (newest v.older) c c' v.needed);
      }

  Evicted-gone :
      (es fs : List (Elem K V)) (e : Elem K V) (c c₁ c' : Cache K V)
      → is_evictable e ≡ true
      → c₁.units + e.units ≡ c.units
      → c'.max_units ≡ c.max_units
      → c.max_units < c.units
      → Evicted es fs c₁ c'
      → Evicted (es ++ (e ∷ [])) fs c c'
  Evicted-gone es fs e c c₁ c' n h x o v =
      let w : spared (e ∷ []) ≡ [] = ground (arith, n) in
      let z : newest (e ∷ []) ≡ some e.units = ground (arith, n) in
      record {
        kept = v.kept;
        older = v.older ++ (e ∷ []);
        split = ap (λ l. l ++ (e ∷ [])) v.split ∙ append_assoc v.kept v.older (e ∷ []);
        left =
            v.left
            ∙ ap (λ l. v.kept ++ l)
                (ap (λ l. spared v.older ++ (l ++ fs)) (sym w) ∙ sym (spared-snoc v.older fs e));
        fits = v.fits;
        needed =
            subst (λ o. IsNeeded o c c')
              (sym (newest-append v.older (e ∷ []) ∙ ap (or_else (newest v.older)) z))
              (IsNeeded-some (newest v.older) e.units c c₁ c' h x o v.needed);
      }

module _ {ℓ} {K V : Type ℓ} ⦃eq : Eq K⦄ where
  collect_loop-stop : (ks : List K) (c : Cache K V) → is_overfull c ≡ false → collect_loop ks c ≡ c
  unfolding collect_loop
  collect_loop-stop [] c h = refl
  collect_loop-stop (k ∷ ks) c h = rw h (collect_loop-stop ks c h)

  collect_loop-over :
      (k : K) (ks : List K) (c : Cache K V)
      → is_overfull c ≡ true
      → collect_loop (k ∷ ks) c ≡ collect_loop ks (collect k c)
  unfolding collect_loop
  collect_loop-over k ks c h = rw h

  max_units-collect : (k : K) (c : Cache K V) → (collect k c).max_units ≡ c.max_units
  unfolding collect discard
  max_units-collect k c = elim (Option-cases (find k c.entries)) [
    | inl m ↦ rw (m, collect)
    | inr (e, h) ↦ rw (h, collect) (ground arith)
  ]

  max_units-collect_loop :
      (ks : List K) (c : Cache K V) → (collect_loop ks c).max_units ≡ c.max_units
  unfolding collect_loop
  max_units-collect_loop [] c = refl
  max_units-collect_loop (k ∷ ks) c =
      max_units-collect_loop ks (if is_overfull c then collect k c else c)
      ∙ ground (arith, max_units-collect k c)

  -- The body of the loop at the last element before those that are passed.
  module _ (es fs : List (Elem K V)) (e : Elem K V) (c : Cache K V) (q : c.entries ≡ es ++ e ∷ fs)
      (v : IsValid c) where
    entries-collect : e.pin ≡ 0 → (collect e.key c).entries ≡ es ++ fs
    unfolding collect discard
    entries-collect z =
        rw (find-between es fs e c q v.distinct, collect, z) (erase-between es fs e c q v.distinct)

    units-collect : e.pin ≡ 0 → (collect e.key c).units + e.units ≡ c.units
    unfolding collect discard
    units-collect z =
        let f = find-between es fs e c q v.distinct in
        rw (f, collect, z) (omega (arith, v.sized, sum_by-erase units_of e.key c.entries e f))

    collect-pinned : nat_beq e.pin 0 ≡ false → collect e.key c ≡ c
    unfolding collect
    collect-pinned z = rw (find-between es fs e c q v.distinct, collect, z)

    linked-Evicted :
        is_overfull c ≡ true
        → e.linked ≡ true
        → ((gs : List (Elem K V)) (c₁ : Cache K V)
            → c₁.entries ≡ es ++ gs
            → IsValid c₁
            → Evicted es gs c₁ (collect_loop (chain es) c₁))
        → Evicted (es ++ (e ∷ [])) fs c (collect_loop (chain es) (collect e.key c))
    linked-Evicted o l rest = elim (Bool-cases (nat_beq e.pin 0)) [
      | inl z ↦
          Evicted-gone es fs e c (collect e.key c) _ (ground (arith, l, z))
            (units-collect (ground (arith, z)))
            (max_units-collect_loop _ _ ∙ max_units-collect e.key c) (ground (arith, o))
            (rest fs (collect e.key c) (entries-collect (ground (arith, z)))
              (collect-IsValid e.key c v))
      | inr z ↦
          subst (λ c₁. Evicted (es ++ (e ∷ [])) fs c (collect_loop (chain es) c₁))
            (sym (collect-pinned z))
            (Evicted-spared es fs e c _ (ground (arith, z)) (rest (e ∷ fs) c q v))
    ]

  pub collect_loop-Evicted :
      (es fs : List (Elem K V)) (c : Cache K V)
      → c.entries ≡ reverse es ++ fs
      → IsValid c
      → Evicted (reverse es) fs c (collect_loop (chain (reverse es)) c)
  unfolding chain collect_loop
  collect_loop-Evicted [] fs c p v = elim (Bool-cases (is_overfull c)) [
    | inl o ↦ record {
      kept = [];
      older = [];
      split = refl;
      left = p;
      fits = inr refl;
      needed = refl;
    }
    | inr o ↦ Evicted-stop [] fs c p (ground arith)
  ]
  collect_loop-Evicted (e ∷ es) fs c p v =
      let hs = reverse es in
      let q : c.entries ≡ hs ++ e ∷ fs =
        p ∙ (ap (λ l. l ++ fs) (reverse-cons e es) ∙ append_assoc hs (e ∷ []) fs) in
      subst (λ l. Evicted l fs c (collect_loop (chain l) c)) (sym (reverse-cons e es))
        (subst (λ ks. Evicted (hs ++ (e ∷ [])) fs c (collect_loop ks c))
          (sym (chain-append hs (e ∷ [])))
          (elim (Bool-cases (is_overfull c)) [
            | inr o ↦
                subst (Evicted (hs ++ (e ∷ [])) fs c)
                  (sym (collect_loop-stop (chain (e ∷ []) ++ chain hs) c o))
                  (Evicted-stop _ fs c (q ∙ sym (append_assoc hs (e ∷ []) fs)) (ground arith))
            | inl o ↦ elim (Bool-cases e.linked) [
              | inr l ↦
                  let a : chain hs ≡ chain (e ∷ []) ++ chain hs = ground (arith, l) in
                  subst (λ ks. Evicted (hs ++ (e ∷ [])) fs c (collect_loop ks c)) a
                    (Evicted-spared hs fs e c _ (ground (arith, l))
                      (collect_loop-Evicted es (e ∷ fs) c q v))
              | inl l ↦
                  let a : e.key ∷ chain hs ≡ chain (e ∷ []) ++ chain hs = ground (arith, l) in
                  subst (Evicted (hs ++ (e ∷ [])) fs c)
                    (sym (collect_loop-over e.key (chain hs) c o) ∙ ap (λ ks. collect_loop ks c) a)
                    (linked-Evicted hs fs e c q v o l (collect_loop-Evicted es))
            ]
          ]))
