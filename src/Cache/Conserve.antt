-- ===== src/Cache/Conserve.antt =====
-- No value is lost and none is discarded twice (utils/simple_lru_cache_inl.h).
use service_control_client_c.Prelude.{
  ℕ, ◌+◌, ◌-◌, ◌≡◌, refl, ap, ◌∙◌, Bool, true, false, ◌&&◌, some, List, [], ◌∷◌, Eq, arith, nat_beq,
  ltb, if◌then◌else◌, sum_by, sum_by-append, Bool-cases, Option-cases, inl, inr,
}
use service_control_client_c.Cache.{
  Elem, Cache, find, erase, replace, find_deferred, chain, is_overfull, discard, remove_elem,
  remove, collect, collect_loop, garbage_collect, is_idle, idle_loop, discard_idle,
  remove_expired_entries, pin_elem, lookup, release_deferred, unpin, settle, unpin_elem, release,
  insert_pinned, new_elem, enter, insert, remove_elems, remove_all, write,
}
use service_control_client_c.Cache.Table.{
  sum_by-erase, sum_by-replace, sum_by-erase_deferred, sum_by-replace_deferred,
}
use service_control_client_c.Cache.Valid.{entries-remove_elem}

module _ {ℓ} {K V : Type ℓ} ⦃eq : Eq K⦄ (f : V → ℕ) where
  abbrev pub weigh : Elem K V → ℕ
  weigh e = f e.value

  -- The weight of the elements `es`, of the deferred elements and of what has been discarded.
  abbrev pub total_over : List (Elem K V) → Cache K V → ℕ
  total_over es c = sum_by weigh es + sum_by weigh c.defer + sum_by f c.discarded

  -- The weight of all values that were ever handed to the cache.
  abbrev pub total : Cache K V → ℕ
  total c = total_over c.entries c

  pub discard_total :
      (e : Elem K V) (es : List (Elem K V)) (c : Cache K V)
      → total_over es (discard e c) ≡ total_over (e ∷ es) c
  unfolding discard
  discard_total e es c = omega (arith, sum_by-append f c.discarded (e.value ∷ []))

  remove_elem_total :
      (e : Elem K V) (es : List (Elem K V)) (c : Cache K V)
      → total_over es (remove_elem e c) ≡ total_over (e ∷ es) c
  unfolding remove_elem
  remove_elem_total e es c = elim (Bool-cases (ltb 0 e.pin)) [
    | inl b ↦ rw b (omega arith)
    | inr b ↦ rw b (discard_total e es c)
  ]

  pub total-remove : (k : K) (c : Cache K V) → total (remove k c) ≡ total c
  unfolding remove
  total-remove k c = elim (Option-cases (find k c.entries)) [
    | inl m ↦ rw (m, remove)
    | inr (e, h) ↦
        let c' : Cache K V = record c { entries = erase k c.entries } in
        rw (h, remove)
          (omega (
            arith,
            remove_elem_total e (erase k c.entries) c',
            ap (sum_by weigh) (entries-remove_elem e c'),
            sum_by-erase weigh k c.entries e h,
          ))
  ]

  total-collect : (k : K) (c : Cache K V) → total (collect k c) ≡ total c
  unfolding collect
  total-collect k c = elim (Option-cases (find k c.entries)) [
    | inl m ↦ rw (m, collect)
    | inr (e, h) ↦ elim (Bool-cases (nat_beq e.pin 0)) [
      | inl z ↦
          rw (h, collect, z)
            (unfold discard in
              omega (
                arith,
                sum_by-append f c.discarded (e.value ∷ []),
                sum_by-erase weigh k c.entries e h,
              ))
      | inr z ↦ rw (h, collect, z)
    ]
  ]

  pub total-collect_loop : (ks : List K) (c : Cache K V) → total (collect_loop ks c) ≡ total c
  unfolding collect_loop
  total-collect_loop [] c = refl
  total-collect_loop (k ∷ ks) c =
      total-collect_loop ks (if is_overfull c then collect k c else c)
      ∙ elim (Bool-cases (is_overfull c)) [ inl b ↦ rw b (total-collect k c) | inr b ↦ rw b ]

  pub total-idle_loop :
      (idle now : ℕ) (ks : List K) (c : Cache K V) → total (idle_loop idle now ks c) ≡ total c
  unfolding idle_loop
  total-idle_loop idle now [] c = refl
  total-idle_loop idle now (k ∷ ks) c = elim (Option-cases (find k c.entries)) [
    | inl m ↦ rw (m, idle_loop)
    | inr (e, h) ↦ elim (Bool-cases (is_idle idle now e)) [
      | inl b ↦ rw (h, idle_loop, b) (total-idle_loop idle now ks (remove k c) ∙ total-remove k c)
      | inr b ↦ rw (h, idle_loop, b)
    ]
  ]

  pub total-remove_expired_entries :
      (now : ℕ) (c : Cache K V) → total (remove_expired_entries now c) ≡ total c
  unfolding remove_expired_entries discard_idle
  total-remove_expired_entries now c = elim (Option-cases c.max_idle) [
    | inl m ↦ rw (m, remove_expired_entries)
    | inr (idle, h) ↦ rw (h, remove_expired_entries) (total-idle_loop idle now (chain c.entries) c)
  ]

  pub total-lookup : (k : K) (now : ℕ) (c : Cache K V) → total (lookup k now c).0 ≡ total c
  unfolding lookup pin_elem
  total-lookup k now c =
      let c' = remove_expired_entries now c in
      elim (Option-cases (find k c'.entries)) [
        | inl m ↦ rw (m, lookup) (total-remove_expired_entries now c)
        | inr (e, h) ↦
            rw (h, lookup)
              (omega (
                arith,
                total-remove_expired_entries now c,
                sum_by-replace weigh k
                    (record e {
                      pin = e.pin + 1;
                      linked = if nat_beq e.pin 0 && c'.lru then false else e.linked;
                    })
                    c'.entries e h,
              ))
      ]

  total-release_deferred :
      (k : K) (p : ℕ) (e : Elem K V) (c : Cache K V)
      → find_deferred k p c.defer ≡ some e
      → total (release_deferred k p e c) ≡ total c
  unfolding release_deferred discard
  total-release_deferred k p e c h = elim (Bool-cases (nat_beq (e.pin - 1) 0)) [
    | inl b ↦ rw b (
        omega (
          arith,
          sum_by-append f c.discarded (e.value ∷ []),
          sum_by-erase_deferred weigh k p c.defer e h,
        ))
    | inr b ↦ rw b (
        omega (arith, sum_by-replace_deferred weigh k p (record e { pin = e.pin - 1 }) c.defer e h))
  ]

  shrink_total : (k : K) (c : Cache K V) (b : Bool) → total (if b then remove k c else c) ≡ total c
  shrink_total k c true = total-remove k c
  shrink_total k c false = refl

  relink_total :
      (k : K) (e x y : Elem K V) (es : List (Elem K V)) (b : Bool)
      → find k es ≡ some e
      → x.value ≡ e.value
      → y.value ≡ e.value
      → sum_by weigh (if b then x ∷ erase k es else replace k y es) ≡ sum_by weigh es
  relink_total k e x y es true h p q = omega (arith, sum_by-erase weigh k es e h, ap f p)
  relink_total k e x y es false h p q = omega (arith, sum_by-replace weigh k y es e h, ap f q)

  total-settle :
      (k : K) (now : ℕ) (e : Elem K V) (c : Cache K V)
      → find k c.entries ≡ some e
      → total (settle k now e c) ≡ total c
  unfolding settle
  total-settle k now e c h = omega (
    arith,
    relink_total k e (record (unpin now c.lru e) { linked = true }) (unpin now c.lru e) c.entries
        c.lru h refl refl,
  )

  total-unpin_elem :
      (k : K) (now : ℕ) (e : Elem K V) (c : Cache K V)
      → find k c.entries ≡ some e
      → total (unpin_elem k now e c) ≡ total c
  unfolding unpin_elem
  total-unpin_elem k now e c h = elim (Bool-cases (nat_beq (e.pin - 1) 0)) [
    | inl b ↦ rw b (
        shrink_total k (settle k now e c) (is_overfull (settle k now e c))
        ∙ total-settle k now e c h)
    | inr b ↦ rw b (omega (arith, sum_by-replace weigh k (unpin now c.lru e) c.entries e h))
  ]

  pub total-release : (k : K) (p now : ℕ) (c : Cache K V) → total (release k p now c) ≡ total c
  unfolding release
  total-release k p now c = elim (Option-cases (find_deferred k p c.defer)) [
    | inr (e, h) ↦ rw (h, release) (total-release_deferred k p e c h)
    | inl d ↦ elim (Option-cases (find k c.entries)) [
      | inl m ↦ rw (d, m, release)
      | inr (e, h) ↦ rw (d, h, release) (total-unpin_elem k now e c h)
    ]
  ]

  pub total-insert_pinned :
      (k : K) (p : ℕ) (x : V) (u now : ℕ) (c : Cache K V)
      → total (insert_pinned k p x u now c) ≡ total c + f x
  unfolding insert_pinned garbage_collect enter
  total-insert_pinned k p x u now c = omega (
    arith,
    total-collect_loop (chain (enter (new_elem k p x u now c.lru) (remove k c)).entries)
        (enter (new_elem k p x u now c.lru) (remove k c)),
    total-remove k c,
  )

  remove_elems_total :
      (es : List (Elem K V)) (c : Cache K V) → total_over [] (remove_elems es c) ≡ total_over es c
  unfolding remove_elems
  remove_elems_total [] c = refl
  remove_elems_total (e ∷ es) c = remove_elems_total es (remove_elem e c) ∙ remove_elem_total e es c

  pub total-insert :
      (k : K) (p : ℕ) (x : V) (u now : ℕ) (c : Cache K V)
      → total (insert k p x u now c) ≡ total c + f x
  unfolding insert
  total-insert k p x u now c =
      total-release k p now (insert_pinned k p x u now c) ∙ total-insert_pinned k p x u now c

  -- A write through the pointer to a value.
  pub total-write :
      (k : K) (v : V) (c : Cache K V) (e : Elem K V)
      → find k c.entries ≡ some e
      → total (write k v c) + f e.value ≡ total c + f v
  unfolding write
  total-write k v c e h =
      rw (h, write)
        (omega (
          arith,
          sum_by-replace (λ (x : Elem K V). f x.value) k (record e { value = v }) c.entries e h,
        ))

  pub total-remove_all : (c : Cache K V) → total (remove_all c) ≡ total c
  unfolding remove_all
  total-remove_all c = remove_elems_total c.entries c
