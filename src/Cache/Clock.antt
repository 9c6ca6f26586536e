-- ===== src/Cache/Clock.antt =====
-- The cache under a clock that does not go back (utils/simple_lru_cache_inl.h, whose times are those
-- of SimpleCycleTimer).
use mathlib.Core.Path.{subst}
use service_control_client_c.Prelude.{
  ℕ, ◌-◌, ◌≤◌, ◌≡◌, refl, sym, Bool, true, false, Option, none, some, List, [], ◌∷◌, Eq, nat_beq,
  if◌then◌else◌, arith, Bool-cases, Option-cases, inl, inr,
}
use service_control_client_c.Cache.{
  Elem, Cache, new_cache, find, erase, replace, is_overfull, discard, remove, release_deferred,
  unpin, settle, unpin_elem, release, insert_pinned, new_elem, enter, insert, remove_all,
  set_max_size, set_timeout, discard_idle, chain,
}
use service_control_client_c.Cache.Table.{All-find}
use service_control_client_c.Cache.Valid.{IsPlaced, IsValid}
use service_control_client_c.Cache.Calls.{Holds, insert_pinned-IsValid}
use service_control_client_c.Cache.Others.{
  remove_unpinned, remove_unpinned_loop, remove_if_unpinned, from_head, update_size, resized_cache,
  resize_elem, resize_deferred, is_value, clear,
}
use service_control_client_c.Cache.Reach.{
  Step, lookup_step, release_step, insert_pinned_step, insert_step, remove_step, remove_all_step,
  expire_step, resize_step, timeout_step, remove_unpinned_step, update_size_step, clear_step,
  Step-IsValid, Reach-IsValid, start, insert_pinned-Holds,
}
use service_control_client_c.Cache.Timed.{
  IsTimed, IsTimed-le, IsTimed-erase, IsMoved, IsTimed-replace, remove-IsTimed,
  garbage_collect-IsTimed, idle_loop-IsTimed, remove_expired_entries-IsTimed, lookup-IsTimed,
}

module _ {ℓ} {K V : Type ℓ} ⦃eq : Eq K⦄ where
  -- A call that is made at the time `t`, or that does not read the clock.
  abbrev pub IsAt : {c c' : Cache K V} → ℕ → Step c c' → Type 0
  IsAt t (lookup_step k now c) = now ≡ t
  IsAt t (release_step k p now c h) = now ≡ t
  IsAt t (insert_pinned_step k p x u now c) = now ≡ t
  IsAt t (insert_step k p x u now c) = now ≡ t
  IsAt t (remove_step k c) = Unit
  IsAt t (remove_all_step c) = Unit
  IsAt t (expire_step now c) = now ≡ t
  IsAt t (resize_step n c) = Unit
  IsAt t (timeout_step o lru now c e) = now ≡ t
  IsAt t (remove_unpinned_step c) = Unit
  IsAt t (update_size_step k p u c) = Unit
  IsAt t (clear_step c d) = Unit

  -- The caches that calls reach from a new one by the time `t`, where no call is earlier than the
  -- one before it.
  pub data Run (n : ℕ) : ℕ → Cache K V → Type ℓ where
    begin : Run n 0 (new_cache n)
    call :
        {t : ℕ} {c c' : Cache K V} (t' : ℕ) (s : Step c c')
        → Run n t c
        → t ≤ t'
        → IsAt t' s
        → Run n t' c'

  module _ (now : ℕ) where
    unpin-IsMoved :
        (e : Elem K V) (lru : Bool)
        → nat_beq (e.pin - 1) 0 ≡ false
        → IsPlaced lru e
        → IsMoved (unpin now lru e) e
    unpin-IsMoved e true b h = inl (ground arith)
    unpin-IsMoved e false b h = inr (refl, refl)

    settled-IsTimed :
        (k : K) (e : Elem K V) (es : List (Elem K V)) (b : Bool)
        → find k es ≡ some e
        → IsTimed now es
        → IsTimed now (
            if b
            then record (unpin now b e) { linked = true } ∷ erase k es
            else replace k (unpin now b e) es)
    settled-IsTimed k e es true h s = (omega arith, IsTimed-erase now k es s)
    settled-IsTimed k e es false h s =
        IsTimed-replace now k (unpin now false e) e es h (inr (refl, refl)) s

    unpin_elem-IsTimed :
        (k : K) (e : Elem K V) (c : Cache K V)
        → find k c.entries ≡ some e
        → IsValid c
        → IsTimed now c.entries
        → IsTimed now (unpin_elem k now e c).entries
    unfolding unpin_elem settle
    unpin_elem-IsTimed k e c h v s = elim (Bool-cases (nat_beq (e.pin - 1) 0)) [
      | inl b ↦
          let q = settled-IsTimed k e c.entries c.lru h s in
          elim (Bool-cases (is_overfull (settle k now e c))) [
            | inl f ↦ rw (b, f) (remove-IsTimed now k (settle k now e c) q)
            | inr f ↦ rw (b, f) q
          ]
      | inr b ↦ rw b (
          IsTimed-replace now k (unpin now c.lru e) e c.entries h
            (unpin-IsMoved e c.lru b (All-find (IsPlaced c.lru) k c.entries e v.placed h)) s)
    ]

    release-IsTimed :
        (k : K) (p : ℕ) (c : Cache K V)
        → Holds k p c
        → IsValid c
        → IsTimed now c.entries
        → IsTimed now (release k p now c).entries
    unfolding release release_deferred discard
    release-IsTimed k p c (e, inl d) v s = elim (Bool-cases (nat_beq (e.pin - 1) 0)) [
      | inl b ↦ rw (d, release, b) s
      | inr b ↦ rw (d, release, b) s
    ]
    release-IsTimed k p c (e, inr h) v s = rw (h.0, h.1, release) (unpin_elem-IsTimed k e c h.1 v s)

    pub enter-IsTimed :
        (k : K) (p : ℕ) (x : V) (u : ℕ) (lru : Bool) (c : Cache K V)
        → IsTimed now c.entries
        → IsTimed now (enter (new_elem k p x u now lru) c).entries
    unfolding enter
    enter-IsTimed k p x u lru c s = (ground arith, IsTimed-le now _ _ (ground arith) s)

    insert_pinned-IsTimed :
        (k : K) (p : ℕ) (x : V) (u : ℕ) (c : Cache K V)
        → IsTimed now c.entries
        → IsTimed now (insert_pinned k p x u now c).entries
    unfolding insert_pinned
    insert_pinned-IsTimed k p x u c s =
        garbage_collect-IsTimed now _
          (enter-IsTimed k p x u c.lru (remove k c) (remove-IsTimed now k c s))

    insert-IsTimed :
        (k : K) (p : ℕ) (x : V) (u : ℕ) (c : Cache K V)
        → IsValid c
        → IsTimed now c.entries
        → IsTimed now (insert k p x u now c).entries
    unfolding insert
    insert-IsTimed k p x u c v s =
        release-IsTimed k p (insert_pinned k p x u now c) (insert_pinned-Holds k p x u now c v)
          (insert_pinned-IsValid k p x u now c v) (insert_pinned-IsTimed k p x u c s)

  module _ (t : ℕ) where
    remove_if_unpinned-IsTimed :
        (k : K) (c : Cache K V) → IsTimed t c.entries → IsTimed t (remove_if_unpinned k c).entries
    unfolding remove_if_unpinned
    remove_if_unpinned-IsTimed k c s = elim (Option-cases (find k c.entries)) [
      | inl m ↦ rw (m, remove_if_unpinned) s
      | inr (e, h) ↦ elim (Bool-cases (nat_beq e.pin 0)) [
        | inl z ↦ rw (h, remove_if_unpinned, z) (remove-IsTimed t k c s)
        | inr z ↦ rw (h, remove_if_unpinned, z) s
      ]
    ]

    remove_unpinned_loop-IsTimed :
        (ks : List K) (c : Cache K V)
        → IsTimed t c.entries
        → IsTimed t (remove_unpinned_loop ks c).entries
    unfolding remove_unpinned_loop
    remove_unpinned_loop-IsTimed [] c s = s
    remove_unpinned_loop-IsTimed (k ∷ ks) c s =
        remove_unpinned_loop-IsTimed ks (remove_if_unpinned k c) (remove_if_unpinned-IsTimed k c s)

    resized_cache-IsTimed :
        (k : K) (p : Option ℕ) (u : ℕ) (c : Cache K V)
        → IsTimed t c.entries
        → IsTimed t (resized_cache k p u c).entries
    unfolding resized_cache resize_elem resize_deferred
    resized_cache-IsTimed k p u c s = elim (Option-cases (find k c.entries)) [
      | inl m ↦ rw (m, resized_cache) s
      | inr (e, h) ↦ elim (Bool-cases (is_value p e)) [
        | inl b ↦
            rw (h, resized_cache, b)
              (IsTimed-replace t k (record e { units = u }) e c.entries h (inr (refl, refl)) s)
        | inr b ↦ rw (h, resized_cache, b) s
      ]
    ]

    timeout-IsTimed :
        (o : Option ℕ) (lru : Bool) (now : ℕ) (c : Cache K V)
        → IsTimed t c.entries
        → IsTimed t (set_timeout o lru now c).entries
    unfolding set_timeout discard_idle
    timeout-IsTimed none lru now c s = s
    timeout-IsTimed (some idle) lru now c s = guarded _ _ (
        idle_loop-IsTimed t idle now (chain c.entries)
          (record c { max_idle = some idle; lru = lru }) s)
      where
        guarded :
            (b : Bool) (c' : Cache K V)
            → IsTimed t c'.entries
            → IsTimed t (if b then c else c').entries
        guarded true c' w = s
        guarded false c' w = w

    pub Step-IsTimed :
        {c c' : Cache K V} (s : Step c c')
        → IsAt t s
        → IsValid c
        → IsTimed t c.entries
        → IsTimed t c'.entries
    unfolding remove_all clear set_max_size remove_unpinned update_size
    Step-IsTimed (lookup_step k now c) a v s = lookup-IsTimed t k now c s
    Step-IsTimed (release_step k p now c h) a v s =
        subst (λ n. IsTimed t (release k p n c).entries) (sym a) (release-IsTimed t k p c h v s)
    Step-IsTimed (insert_pinned_step k p x u now c) a v s =
        subst (λ n. IsTimed t (insert_pinned k p x u n c).entries) (sym a)
          (insert_pinned-IsTimed t k p x u c s)
    Step-IsTimed (insert_step k p x u now c) a v s =
        subst (λ n. IsTimed t (insert k p x u n c).entries) (sym a) (insert-IsTimed t k p x u c v s)
    Step-IsTimed (remove_step k c) a v s = remove-IsTimed t k c s
    Step-IsTimed (remove_all_step c) a v s = tt
    Step-IsTimed (expire_step now c) a v s = remove_expired_entries-IsTimed t now c s
    Step-IsTimed (resize_step n c) a v s = garbage_collect-IsTimed t (record c { max_units = n }) s
    Step-IsTimed (timeout_step o lru now c e) a v s = timeout-IsTimed o lru now c s
    Step-IsTimed (remove_unpinned_step c) a v s =
        remove_unpinned_loop-IsTimed (from_head c.entries) c s
    Step-IsTimed (update_size_step k p u c) a v s =
        garbage_collect-IsTimed t (resized_cache k p u c) (resized_cache-IsTimed k p u c s)
    Step-IsTimed (clear_step c d) a v s = tt

  pub Run-IsValid : {n t : ℕ} {c : Cache K V} → Run n t c → IsValid c
  Run-IsValid begin = Reach-IsValid start
  Run-IsValid (call t' s r l a) = Step-IsValid s (Run-IsValid r)

  -- The chain stays in the order of time.
  pub Run-IsTimed : {n t : ℕ} {c : Cache K V} → Run n t c → IsTimed t c.entries
  unfolding new_cache
  Run-IsTimed begin = tt
  Run-IsTimed (call {t} {c} {c'} t' s r l a) =
      Step-IsTimed t' s a (Run-IsValid r) (IsTimed-le t t' c.entries l (Run-IsTimed r))
