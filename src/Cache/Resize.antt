-- ===== src/Cache/Resize.antt =====
-- UpdateSize, Clear and StillInUse (utils/simple_lru_cache_inl.h): the counters follow the elements,
-- and a value that a client holds is in use.
use mathlib.Core.Option.{some-injective}
use service_control_client_c.Prelude.{
  ℕ, ◌+◌, ◌-◌, ◌≤◌, ◌≡◌, ◌⊎◌, refl, ap, sym, ◌∙◌, true, false, ◌&&◌, Option, none, some, List, [],
  ◌∷◌, Eq, ◌==◌, arith, nat_beq, ltb, sum_by, All, Bool-cases, Option-cases, inl, inr,
}
use service_control_client_c.Cache.{
  Elem, Cache, find, find_deferred, remove, remove_elem, erase, discard,
}
use service_control_client_c.Cache.Table.{
  Distinct, find-erase, find-key, All-find, All-replace, Distinct-replace, sum_by-replace,
  sum_by-erase,
}
use service_control_client_c.Cache.Valid.{
  IsValid, pinned_of, units_of, IsPlaced, IsHeld, garbage_collect-IsValid,
}
use service_control_client_c.Cache.Calls.{Holds}
use service_control_client_c.Cache.Others.{
  is_value, is_resized, resized_units, resized, resize_deferred, resize_elem, resized_cache,
  update_size, discard_elems, clear, in_deferred, still_in_use,
}

module _ {ℓ} {K V : Type ℓ} ⦃eq : Eq K⦄ where
  sum_by-resized :
      (k : K) (p : Option ℕ) (u : ℕ) (es : List (Elem K V)) (n : ℕ)
      → sum_by units_of es ≤ n
      → resized_units k p u es n + sum_by units_of es ≡ n + sum_by units_of (resized k p u es)
  unfolding resized_units resized
  sum_by-resized k p u [] n h = refl
  sum_by-resized k p u (e ∷ es) n h = elim (Bool-cases (is_resized k p e)) [
    | inl b ↦ rw b (omega (arith, h, sum_by-resized k p u es (n - e.units + u) (omega (arith, h))))
    | inr b ↦ rw b (omega (arith, h, sum_by-resized k p u es n (omega (arith, h))))
  ]

  All-resized :
      (k : K) (p : Option ℕ) (u : ℕ) (es : List (Elem K V))
      → All IsHeld es
      → All IsHeld (resized k p u es)
  unfolding resized
  All-resized k p u [] h = tt
  All-resized k p u (e ∷ es) h = elim (Bool-cases (is_resized k p e)) [
    | inl b ↦ rw b (h.0, All-resized k p u es h.1)
    | inr b ↦ rw b (h.0, All-resized k p u es h.1)
  ]

  resize_deferred-IsValid :
      (k : K) (p : Option ℕ) (u : ℕ) (c : Cache K V) → IsValid c → IsValid (resize_deferred k p u c)
  unfolding resize_deferred
  resize_deferred-IsValid k p u c v = record {
    distinct = v.distinct;
    sized = omega (arith, v.sized, sum_by-resized k p u c.defer c.units (omega (arith, v.sized)));
    pins = v.pins;
    placed = v.placed;
    held = All-resized k p u c.defer v.held;
  }

  resize_elem-IsValid :
      (k : K) (u : ℕ) (e : Elem K V) (c : Cache K V)
      → find k c.entries ≡ some e
      → IsValid c
      → IsValid (resize_elem k u e c)
  unfolding resize_elem
  resize_elem-IsValid k u e c h v =
      let x : Elem K V = record e { units = u } in
      record {
        distinct = Distinct-replace k x c.entries e (find-key k c.entries e h) h v.distinct;
        sized = omega (
          arith,
          v.sized,
          sum_by-replace units_of k x c.entries e h,
          sum_by-erase units_of k c.entries e h,
        );
        pins = ground (
          arith,
          v.pins,
          sum_by-replace pinned_of k x c.entries e h,
          sum_by-erase pinned_of k c.entries e h,
        );
        placed =
            All-replace (IsPlaced c.lru) k x c.entries
              (All-find (IsPlaced c.lru) k c.entries e v.placed h) v.placed;
        held = v.held;
      }

  resized_cache-IsValid :
      (k : K) (p : Option ℕ) (u : ℕ) (c : Cache K V) → IsValid c → IsValid (resized_cache k p u c)
  unfolding resized_cache
  resized_cache-IsValid k p u c w = elim (Option-cases (find k c.entries)) [
    | inl m ↦ rw (m, resized_cache) (resize_deferred-IsValid k p u c w)
    | inr (e, h) ↦ elim (Bool-cases (is_value p e)) [
      | inl b ↦ rw (h, resized_cache, b) (resize_elem-IsValid k u e c h w)
      | inr b ↦ rw (h, resized_cache, b) (resize_deferred-IsValid k p u c w)
    ]
  ]

  pub update_size-IsValid :
      (k : K) (p : Option ℕ) (u : ℕ) (c : Cache K V) → IsValid c → IsValid (update_size k p u c)
  unfolding update_size
  update_size-IsValid k p u c v =
      garbage_collect-IsValid (resized_cache k p u c) (resized_cache-IsValid k p u c v)

  -- Clear leaves an empty cache; the source asserts that no element is deferred.
  discard_elems-defer :
      (es : List (Elem K V)) (c : Cache K V) → (discard_elems es c).defer ≡ c.defer
  unfolding discard_elems discard
  discard_elems-defer [] c = refl
  discard_elems-defer (e ∷ es) c = discard_elems-defer es (discard e c)

  pub clear-IsValid : (c : Cache K V) → c.defer ≡ [] → IsValid (clear c)
  unfolding clear
  clear-IsValid c d = record {
    distinct = tt;
    sized = rw (discard_elems-defer c.entries c, d) refl;
    pins = refl;
    placed = tt;
    held = rw (discard_elems-defer c.entries c, d) tt;
  }

  find_deferred-in :
      (k : K) (p : ℕ) (es : List (Elem K V)) (e : Elem K V)
      → find_deferred k p es ≡ some e
      → in_deferred k (some p) es ≡ true
  unfolding find_deferred in_deferred is_value
  find_deferred-in k p [] e h = absurd (cc h)
  find_deferred-in k p (x ∷ es) e h = ground (arith, find_deferred-in k p es e)

  any_deferred :
      (k : K) (p : ℕ) (es : List (Elem K V))
      → in_deferred k (some p) es ≡ true
      → in_deferred k none es ≡ true
  unfolding in_deferred is_value
  any_deferred k p [] h = h
  any_deferred k p (e ∷ es) h = ground (arith, any_deferred k p es)

  -- A value that a client holds is in use, by its address and by its key.
  pub Holds-still_in_use :
      (k : K) (p : ℕ) (c : Cache K V)
      → Holds k p c
      → (still_in_use k (some p) c ≡ true) × (still_in_use k none c ≡ true)
  unfolding still_in_use is_value
  Holds-still_in_use k p c (e, inl d) =
      let found = find_deferred-in k p c.defer e d in
      elim (Option-cases (find k c.entries)) [
        | inl m ↦ rw (m, still_in_use) (found, any_deferred k p c.defer found)
        | inr (x, m) ↦ rw (m, still_in_use) (ground (arith, found), refl)
      ]
  Holds-still_in_use k p c (e, inr h) = rw (h.1, still_in_use) (ground (arith, h.2), refl)

  -- Another element of the table, or the one of the key.
  other_or_same :
      (j k : K) (x e : Elem K V) (es : List (Elem K V))
      → Distinct es
      → find j es ≡ some x
      → find k es ≡ some e
      → (find k (erase j es) ≡ some e) ⊎ ((x ≡ e) × (x.key ≡ k))
  other_or_same j k x e es d m f = elim (Bool-cases (j == k)) [
    | inr g ↦ inl (find-erase k j es d ∙ rw g f)
    | inl g ↦
        let keyed = (eq.equals_iff j k).0 g in
        inr
          (some-injective x e (sym m ∙ (ap (λ i. find i es) keyed ∙ f)), find-key j es x m ∙ keyed)
  ]

  -- In a cache that satisfies the representation invariant, a removal of any key leaves a value that a
  -- client holds to be released: in the table, or among the deferred elements.
  pub remove-Holds :
      (j k : K) (p : ℕ) (c : Cache K V) → IsValid c → Holds k p c → Holds k p (remove j c)
  unfolding remove remove_elem discard find_deferred
  remove-Holds j k p c v (e, h) = elim (Option-cases (find j c.entries)) [
    | inl m ↦ rw (m, remove) (e, h)
    | inr (x, m) ↦ elim (Bool-cases (ltb 0 x.pin)) [
      | inl b ↦ elim (Bool-cases (x.key == k && nat_beq x.ptr p)) [
        | inl g ↦ rw (m, remove, b) (record x { linked = false }, inl (rw g refl))
        | inr g ↦ elim h [
          | inl d ↦ rw (m, remove, b) (e, inl (rw g d))
          | inr (n, f, q, l) ↦ elim (other_or_same j k x e c.entries v.distinct m f) [
            | inl f' ↦ rw (m, remove, b) (e, inr (rw g n, f', q, l))
            | inr (same, keyed) ↦
                absurd (ground (arith, g, q, ap (λ y. y.ptr) same, (eq.equals_iff x.key k).1 keyed))
          ]
        ]
      ]
      | inr b ↦ elim h [
        | inl d ↦ rw (m, remove, b) (e, inl d)
        | inr (n, f, q, l) ↦ elim (other_or_same j k x e c.entries v.distinct m f) [
          | inl f' ↦ rw (m, remove, b) (e, inr (n, f', q, l))
          | inr (same, keyed) ↦ absurd (ground (arith, b, l, ap (λ y. y.pin) same))
        ]
      ]
    ]
  ]
