-- ===== src/Cache/Unpinned.antt =====
-- RemoveUnpinned (utils/simple_lru_cache_inl.h) removes the elements that no client holds, and no
-- others.
use mathlib.Core.Option.{some-injective}
use service_control_client_c.Prelude.{
  ◌≡◌, refl, ap, sym, ◌∙◌, Bool, true, false, ◌&&◌, ◌||◌, Option, none, some, List, [], ◌∷◌, Eq,
  ◌==◌, arith, nat_beq, if◌then◌else◌, Bool-cases, Option-cases, inl, inr,
}
use service_control_client_c.Cache.{Elem, Cache, find}
use service_control_client_c.Cache.Table.{All-find}
use service_control_client_c.Cache.Valid.{IsValid, IsPlaced, find-remove, remove-IsValid}
use service_control_client_c.Cache.Others.{
  from_head, remove_if_unpinned, remove_unpinned_loop, remove_unpinned,
}

abbrev is_in {ℓ} : {K : Type ℓ} ⦃eq : Eq K⦄ → K → List K → Bool
is_in j [] = false
is_in j (k ∷ ks) = k == j || is_in j ks

module _ {ℓ} {K V : Type ℓ} ⦃eq : Eq K⦄ where
  -- What a removal of the unpinned elements leaves of an element that is listed.
  abbrev pub held_or : Bool → Option (Elem K V) → Option (Elem K V)
  held_or listed none = none
  held_or listed (some e) = if nat_beq e.pin 0 && listed then none else some e

  remove_if_unpinned-IsValid :
      (k : K) (c : Cache K V) → IsValid c → IsValid (remove_if_unpinned k c)
  unfolding remove_if_unpinned
  remove_if_unpinned-IsValid k c v = elim (Option-cases (find k c.entries)) [
    | inl m ↦ rw (m, remove_if_unpinned) v
    | inr (e, h) ↦ elim (Bool-cases (nat_beq e.pin 0)) [
      | inl b ↦ rw (h, remove_if_unpinned, b) (remove-IsValid k c v)
      | inr b ↦ rw (h, remove_if_unpinned, b) v
    ]
  ]

  pub remove_unpinned_loop-IsValid :
      (ks : List K) (c : Cache K V) → IsValid c → IsValid (remove_unpinned_loop ks c)
  unfolding remove_unpinned_loop
  remove_unpinned_loop-IsValid [] c v = v
  remove_unpinned_loop-IsValid (k ∷ ks) c v =
      remove_unpinned_loop-IsValid ks (remove_if_unpinned k c) (remove_if_unpinned-IsValid k c v)

  pub remove_unpinned-IsValid : (c : Cache K V) → IsValid c → IsValid (remove_unpinned c)
  unfolding remove_unpinned
  remove_unpinned-IsValid c v = remove_unpinned_loop-IsValid (from_head c.entries) c v

  held_or-false : (o : Option (Elem K V)) → held_or false o ≡ o
  held_or-false none = refl
  held_or-false (some e) = ground arith

  -- The element of one key, where the others stay.
  find-at :
      (j k : K) (es : List (Elem K V)) (o o' : Option (Elem K V))
      → find k es ≡ o
      → held_or true o ≡ o'
      → (if k == j then o' else find j es) ≡ held_or (k == j) (find j es)
  find-at j k es o o' h e = elim (Bool-cases (k == j)) [
    | inr g ↦ rw g (sym (held_or-false (find j es)))
    | inl g ↦
        rw g (sym (ap (held_or true) (ap (λ i. find i es) (sym ((eq.equals_iff k j).0 g)) ∙ h) ∙ e))
  ]

  same_table :
      (j k : K) (es : List (Elem K V)) → (if k == j then find k es else find j es) ≡ find j es
  same_table j k es = elim (Bool-cases (k == j)) [
    | inr g ↦ rw g refl
    | inl g ↦ rw g (ap (λ i. find i es) ((eq.equals_iff k j).0 g))
  ]

  find-remove_if_unpinned :
      (j k : K) (c : Cache K V)
      → IsValid c
      → find j (remove_if_unpinned k c).entries ≡ held_or (k == j) (find j c.entries)
  unfolding remove_if_unpinned
  find-remove_if_unpinned j k c v = elim (Option-cases (find k c.entries)) [
    | inl m ↦
        rw (m, remove_if_unpinned)
          (sym (same_table j k c.entries)
            ∙ find-at j k c.entries (find k c.entries) (find k c.entries) refl (rw m refl))
    | inr (e, h) ↦ elim (Bool-cases (nat_beq e.pin 0)) [
      | inl b ↦
          rw (h, remove_if_unpinned, b)
            (find-remove j k c v.distinct ∙ find-at j k c.entries (some e) none h (rw b refl))
      | inr b ↦
          rw (h, remove_if_unpinned, b)
            (sym (same_table j k c.entries)
              ∙ find-at j k c.entries (find k c.entries) (find k c.entries) refl (rw (h, b) refl))
    ]
  ]

  held_or-twice :
      (a b : Bool) (o : Option (Elem K V)) → held_or b (held_or a o) ≡ held_or (a || b) o
  held_or-twice a b none = refl
  held_or-twice a b (some e) = ground arith

  find-remove_unpinned_loop :
      (j : K) (ks : List K) (c : Cache K V)
      → IsValid c
      → find j (remove_unpinned_loop ks c).entries ≡ held_or (is_in j ks) (find j c.entries)
  unfolding remove_unpinned_loop
  find-remove_unpinned_loop j [] c v = elim (Option-cases (find j c.entries)) [
    | inl m ↦ rw m refl
    | inr (e, h) ↦ rw h (ground arith)
  ]
  find-remove_unpinned_loop j (k ∷ ks) c v =
      find-remove_unpinned_loop j ks (remove_if_unpinned k c) (remove_if_unpinned-IsValid k c v)
      ∙ (ap (held_or (is_in j ks)) (find-remove_if_unpinned j k c v)
          ∙ held_or-twice (k == j) (is_in j ks) (find j c.entries))

  -- An element of the chain is listed.
  from_head-lists :
      (j : K) (es : List (Elem K V)) (e : Elem K V)
      → find j es ≡ some e
      → e.linked ≡ true
      → is_in j (from_head es) ≡ true
  unfolding from_head find
  from_head-lists j [] e h l = absurd (cc h)
  from_head-lists j (x ∷ es) e h l = elim (Bool-cases (x.key == j)) [
    | inl b ↦
        let same : x ≡ e = some-injective x e (rw b at h) in
        let linked : x.linked ≡ true = ap (λ y. y.linked) same ∙ l in ground (arith, linked, b)
    | inr b ↦ ground (arith, from_head-lists j es e (rw b at h) l)
  ]

  -- In a cache that satisfies the representation invariant, RemoveUnpinned takes every element that
  -- no client holds out of the table, and leaves the others as they are.
  pub find-remove_unpinned :
      (j : K) (c : Cache K V)
      → IsValid c
      → find j (remove_unpinned c).entries ≡ held_or true (find j c.entries)
  unfolding remove_unpinned
  find-remove_unpinned j c v =
      find-remove_unpinned_loop j (from_head c.entries) c v
      ∙ elim (Option-cases (find j c.entries)) [
        | inl m ↦ rw m refl
        | inr (e, h) ↦
            let placed : IsPlaced c.lru e = All-find (IsPlaced c.lru) j c.entries e v.placed h in
            elim (Bool-cases (nat_beq e.pin 0)) [
              | inr b ↦ rw (h, b) refl
              | inl b ↦
                  let listed : is_in j (from_head c.entries) ≡ true =
                    from_head-lists j c.entries e h (ground (arith, placed, b)) in
                  rw (listed) refl
            ]
      ]
