-- ===== src/Cache/Calls.antt =====
-- The calls of the cache as a whole (utils/simple_lru_cache_inl.h): each keeps the representation
-- invariant, and so does every sequence of calls.
use service_control_client_c.Prelude.{
  ℕ, ◌-◌, ◌<◌, ◌≡◌, refl, Bool, true, false, none, some, List, [], ◌∷◌, Eq, arith, nat_beq,
  if◌then◌else◌, Bool-cases, Option-cases, ==_refl, inl, inr, ◌⊎◌,
}
use service_control_client_c.Cache.{
  Elem, Cache, find, erase, replace, find_deferred, is_overfull, discard, remove_elem, remove,
  release_deferred, unpin, settle, unpin_elem, release, insert_pinned, new_elem, enter,
  remove_elems, remove_all,
}
use service_control_client_c.Cache.Table.{
  find-key, sum_by-replace, sum_by-erase_deferred, sum_by-replace_deferred, All-find, All-replace,
  All-erase_deferred, All-replace_deferred, Distinct-replace,
}
use service_control_client_c.Cache.Valid.{
  IsValid, IsValidOver, pinned_of, units_of, IsPlaced, IsHeld, find-remove, detach-IsValidOver,
  remove-IsValid, remove_elem-IsValidOver, garbage_collect-IsValid,
}

module _ {ℓ} {K V : Type ℓ} ⦃eq : Eq K⦄ where
  release_deferred-IsValid :
      (k : K) (p : ℕ) (e : Elem K V) (c : Cache K V)
      → find_deferred k p c.defer ≡ some e
      → IsValid c
      → IsValid (release_deferred k p e c)
  unfolding release_deferred discard
  release_deferred-IsValid k p e c h v = elim (Bool-cases (nat_beq (e.pin - 1) 0)) [
    | inl b ↦ rw b (record {
      distinct = v.distinct;
      sized = omega (arith, v.sized, sum_by-erase_deferred units_of k p c.defer e h);
      pins = v.pins;
      placed = v.placed;
      held = All-erase_deferred IsHeld k p c.defer v.held;
    })
    | inr b ↦
        let x : Elem K V = record e { pin = e.pin - 1 } in
        rw b (record {
          distinct = v.distinct;
          sized = omega (arith, v.sized, sum_by-replace_deferred units_of k p x c.defer e h);
          pins = v.pins;
          placed = v.placed;
          held = All-replace_deferred IsHeld k p x c.defer (ground arith) v.held;
        })
  ]

  -- The table when the last pin of an element is gone: the element is in the chain again.
  module _ (k : K) (now : ℕ) (e : Elem K V) (c : Cache K V) (h : find k c.entries ≡ some e)
      (v : IsValid c) (pinned : 0 < e.pin) where
    unpinned : Elem K V
    unpinned = unpin now c.lru e

    unlinked :
        (e.pin - 1 ≡ 0)
        → c.lru ≡ true
        → IsValid (record c {
          pinned_units = c.pinned_units - e.units;
          entries = record unpinned { linked = true } ∷ erase k c.entries;
        })
    unfolding unpinned
    unlinked z m =
        let d = detach-IsValidOver k c.entries e c h v in
        record {
          distinct = d.distinct;
          sized = d.sized;
          pins = ground (arith, d.pins);
          placed = (ground arith, d.placed.1);
          held = d.held;
        }

    in_place :
        (u : ℕ)
        → (u ≡ c.pinned_units - (if nat_beq (e.pin - 1) 0 then e.units else 0))
        → ((e.pin - 1 ≡ 0) → c.lru ≡ false)
        → IsValid (record c { pinned_units = u; entries = replace k unpinned c.entries })
    unfolding unpinned
    in_place u w m =
        let q = All-find (IsPlaced c.lru) k c.entries e v.placed h in
        record {
          distinct =
              Distinct-replace k unpinned c.entries e (find-key k c.entries e h) h v.distinct;
          sized = omega (arith, v.sized, sum_by-replace units_of k unpinned c.entries e h);
          pins = ground (arith, v.pins, w, sum_by-replace pinned_of k unpinned c.entries e h);
          placed = All-replace (IsPlaced c.lru) k unpinned c.entries (ground arith) v.placed;
          held = v.held;
        }

    shrink-IsValid :
        (c' : Cache K V) → IsValid c' → IsValid (if is_overfull c' then remove k c' else c')
    shrink-IsValid c' v' = elim (Bool-cases (is_overfull c')) [
      | inl b ↦ rw b (remove-IsValid k c' v')
      | inr b ↦ rw b v'
    ]

    settled :
        (b : Bool)
        → c.lru ≡ b
        → e.pin - 1 ≡ 0
        → IsValid (record c {
          pinned_units = c.pinned_units - e.units;
          entries =
              if b
              then record unpinned { linked = true } ∷ erase k c.entries
              else replace k unpinned c.entries;
        })
    settled true m z = unlinked z m
    settled false m z = in_place (c.pinned_units - e.units) (ground arith) (λ _. m)

    unpin_elem-IsValid : IsValid (unpin_elem k now e c)
    unfolding unpin_elem settle unpinned
    unpin_elem-IsValid = elim (Bool-cases (nat_beq (e.pin - 1) 0)) [
      | inl b ↦ rw b (shrink-IsValid (settle k now e c) (settled c.lru refl (ground arith)))
      | inr b ↦ rw b (in_place c.pinned_units (rw b (omega arith)) (λ z. absurd (ground arith)))
    ]

  -- Only a pinned value may be released.
  abbrev pub Holds : K → ℕ → Cache K V → Type ℓ
  Holds k p c =
      (e : Elem K V) × ((find_deferred k p c.defer ≡ some e)
        ⊎ (find_deferred k p c.defer ≡ none)
          × (find k c.entries ≡ some e)
          × (e.ptr ≡ p)
          × (0 < e.pin))

  pub release-IsValid :
      (k : K) (p now : ℕ) (c : Cache K V) → Holds k p c → IsValid c → IsValid (release k p now c)
  unfolding release
  release-IsValid k p now c (e, inl d) v = rw (d, release) (release_deferred-IsValid k p e c d v)
  release-IsValid k p now c (e, inr h) v =
      rw (h.0, h.1, release) (unpin_elem-IsValid k now e c h.1 v h.3)

  pub lru-remove : (k : K) (c : Cache K V) → (remove k c).lru ≡ c.lru
  unfolding remove remove_elem discard
  lru-remove k c = elim (Option-cases (find k c.entries)) [
    | inl m ↦ rw (m, remove)
    | inr (e, h) ↦ rw (h, remove) (ground arith)
  ]

  pub enter-IsValid :
      (k : K) (p : ℕ) (x : V) (u now : ℕ) (c : Cache K V)
      → IsValid c
      → IsValid (enter (new_elem k p x u now c.lru) (remove k c))
  unfolding enter
  enter-IsValid k p x u now c v =
      let w = remove-IsValid k c v in
      record {
        distinct = (rw (find-remove k k c v.distinct, ==_refl k), w.distinct);
        sized = omega (arith, w.sized);
        pins = omega (arith, w.pins);
        placed = (ground (arith, lru-remove k c), w.placed);
        held = w.held;
      }

  pub insert_pinned-IsValid :
      (k : K) (p : ℕ) (x : V) (u now : ℕ) (c : Cache K V)
      → IsValid c
      → IsValid (insert_pinned k p x u now c)
  unfolding insert_pinned
  insert_pinned-IsValid k p x u now c v = garbage_collect-IsValid _ (enter-IsValid k p x u now c v)

  pub remove_elems-IsValidOver :
      (es l : List (Elem K V)) (c : Cache K V)
      → IsValidOver es c
      → IsValidOver [] (remove_elems es c)
  unfolding remove_elems
  remove_elems-IsValidOver [] l c v = v
  remove_elems-IsValidOver (e ∷ es) l c v =
      remove_elems-IsValidOver es l (remove_elem e c) (remove_elem-IsValidOver e es c v)

  pub remove_all-IsValid : (c : Cache K V) → IsValid c → IsValid (remove_all c)
  unfolding remove_all
  remove_all-IsValid c v =
      let w = remove_elems-IsValidOver c.entries [] c v in
      record {
        distinct = w.distinct;
        sized = w.sized;
        pins = w.pins;
        placed = w.placed;
        held = w.held;
      }
