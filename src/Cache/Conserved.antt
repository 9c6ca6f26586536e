-- ===== src/Cache/Conserved.antt =====
-- No value is lost and none is discarded twice by any call (utils/simple_lru_cache_inl.h).
use service_control_client_c.Prelude.{
  ℕ, ◌+◌, ◌≡◌, refl, ap, ◌∙◌, Bool, true, false, Option, none, some, List, [], ◌∷◌, Eq, arith,
  nat_beq, if◌then◌else◌, sum_by, Bool-cases, Option-cases, inl, inr,
}
use service_control_client_c.Cache.{
  Elem, Cache, find, chain, discard, remove, garbage_collect, remove_expired_entries, lookup,
  release, insert_pinned, insert, remove_all, set_max_size, set_timeout, discard_idle,
}
use service_control_client_c.Cache.Others.{
  from_head, remove_if_unpinned, remove_unpinned_loop, remove_unpinned, discard_elems, clear,
  is_value, is_resized, resized, resize_deferred, resize_elem, resized_cache, update_size,
}
use service_control_client_c.Cache.Table.{sum_by-replace}
use service_control_client_c.Cache.Conserve.{
  weigh, total_over, total, discard_total, total-collect_loop, total-idle_loop, total-remove,
  total-remove_expired_entries, total-lookup, total-release, total-insert, total-insert_pinned,
  total-remove_all,
}

module _ {ℓ} {K V : Type ℓ} ⦃eq : Eq K⦄ (f : V → ℕ) where
  total-garbage_collect : (c : Cache K V) → total f (garbage_collect c) ≡ total f c
  unfolding garbage_collect
  total-garbage_collect c = total-collect_loop f (chain c.entries) c

  total-set_max_size : (n : ℕ) (c : Cache K V) → total f (set_max_size n c) ≡ total f c
  unfolding set_max_size
  total-set_max_size n c = total-garbage_collect (record c { max_units = n })

  either_total :
      (b : Bool) (x y : Cache K V) (t : ℕ)
      → total f x ≡ t
      → total f y ≡ t
      → total f (if b then x else y) ≡ t
  either_total true x y t h k = h
  either_total false x y t h k = k

  total-set_timeout :
      (o : Option ℕ) (lru : Bool) (now : ℕ) (c : Cache K V)
      → total f (set_timeout o lru now c) ≡ total f c
  unfolding set_timeout discard_idle
  total-set_timeout none lru now c = refl
  total-set_timeout (some cycles) lru now c =
      let c' : Cache K V = record c { lru = lru; max_idle = some cycles } in
      either_total _ c _ (total f c) refl (total-idle_loop f cycles now (chain c.entries) c')

  total-remove_unpinned_loop :
      (ks : List K) (c : Cache K V) → total f (remove_unpinned_loop ks c) ≡ total f c
  unfolding remove_unpinned_loop remove_if_unpinned
  total-remove_unpinned_loop [] c = refl
  total-remove_unpinned_loop (k ∷ ks) c =
      total-remove_unpinned_loop ks (remove_if_unpinned k c)
      ∙ elim (Option-cases (find k c.entries)) [
        | inl m ↦ rw (m, remove_if_unpinned)
        | inr (e, h) ↦ elim (Bool-cases (nat_beq e.pin 0)) [
          | inl b ↦ rw (h, remove_if_unpinned, b) (total-remove f k c)
          | inr b ↦ rw (h, remove_if_unpinned, b)
        ]
      ]

  total-discard_elems :
      (es : List (Elem K V)) (c : Cache K V)
      → total_over f [] (discard_elems es c) ≡ total_over f es c
  unfolding discard_elems
  total-discard_elems [] c = refl
  total-discard_elems (e ∷ es) c = total-discard_elems es (discard e c) ∙ discard_total f e es c

  total-clear : (c : Cache K V) → total f (clear c) ≡ total f c
  unfolding clear
  total-clear c = total-discard_elems c.entries c

  resized_weight :
      (k : K) (p : Option ℕ) (u : ℕ) (es : List (Elem K V))
      → sum_by (weigh f) (resized k p u es) ≡ sum_by (weigh f) es
  unfolding resized
  resized_weight k p u [] = refl
  resized_weight k p u (e ∷ es) = elim (Bool-cases (is_resized k p e)) [
    | inl b ↦ rw b (ap (λ n. f e.value + n) (resized_weight k p u es))
    | inr b ↦ rw b (ap (λ n. f e.value + n) (resized_weight k p u es))
  ]

  total-resize_deferred :
      (k : K) (p : Option ℕ) (u : ℕ) (c : Cache K V) → total f (resize_deferred k p u c) ≡ total f c
  unfolding resize_deferred
  total-resize_deferred k p u c = omega (arith, resized_weight k p u c.defer)

  total-update_size :
      (k : K) (p : Option ℕ) (u : ℕ) (c : Cache K V) → total f (update_size k p u c) ≡ total f c
  unfolding update_size resized_cache
  total-update_size k p u c =
      total-garbage_collect (resized_cache k p u c) ∙ elim (Option-cases (find k c.entries)) [
        | inl m ↦ rw (m, resized_cache) (total-resize_deferred k p u c)
        | inr (e, h) ↦ elim (Bool-cases (is_value p e)) [
          | inl b ↦
              rw (h, resized_cache, b)
                (unfold resize_elem in
                  omega (arith, sum_by-replace (weigh f) k (record e { units = u }) c.entries e h))
          | inr b ↦ rw (h, resized_cache, b) (total-resize_deferred k p u c)
        ]
      ]

  -- Every call conserves the values, of those that the library makes and of SetMaxSize, SetTimeout,
  -- RemoveUnpinned, Clear and UpdateSize: for every weight of values, the values in the table, the
  -- deferred ones and the discarded ones together weigh what they weighed before, plus the weight
  -- of the value that an insertion adds. So no value is lost, and none is discarded twice.
  pub calls_conserve :
      (k : K) (p : ℕ) (x : V) (u now : ℕ) (o : Option ℕ) (lru : Bool) (c : Cache K V)
      → (total f (insert k p x u now c) ≡ total f c + f x)
        × (total f (insert_pinned k p x u now c) ≡ total f c + f x)
        × (total f (lookup k now c).0 ≡ total f c)
        × (total f (release k p now c) ≡ total f c)
        × (total f (remove k c) ≡ total f c)
        × (total f (remove_expired_entries now c) ≡ total f c)
        × (total f (remove_all c) ≡ total f c)
        × (total f (set_max_size u c) ≡ total f c)
        × (total f (set_timeout o lru now c) ≡ total f c)
        × (total f (remove_unpinned c) ≡ total f c)
        × (total f (clear c) ≡ total f c)
        × (total f (update_size k o u c) ≡ total f c)
  unfolding remove_unpinned
  calls_conserve k p x u now o lru c = (
    total-insert f k p x u now c,
    total-insert_pinned f k p x u now c,
    total-lookup f k now c,
    total-release f k p now c,
    total-remove f k c,
    total-remove_expired_entries f now c,
    total-remove_all f c,
    total-set_max_size u c,
    total-set_timeout o lru now c,
    total-remove_unpinned_loop (from_head c.entries) c,
    total-clear c,
    total-update_size k o u c,
  )
