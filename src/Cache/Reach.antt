-- ===== src/Cache/Reach.antt =====
-- Every cache that calls can reach from a new one satisfies the representation invariant
-- (utils/simple_lru_cache_inl.h).
use mathlib.Core.Path.{subst}
use service_control_client_c.Prelude.{
  ℕ, ◌<◌, ◌≡◌, refl, sym, ◌∙◌, Bool, true, false, Option, none, some, List, [], ◌∷◌, Eq, arith,
  nat_beq, if◌then◌else◌, All, Bool-cases, Option-cases, ==_refl, inl, inr,
}
use service_control_client_c.Cache.{
  Elem, Cache, find, find_deferred, chain, is_overfull, discard, remove, collect, collect_loop,
  garbage_collect, remove_expired_entries, lookup, release, insert_pinned, new_elem, enter, insert,
  remove_all, set_max_size, set_timeout, discard_idle, new_cache,
}
use service_control_client_c.Cache.Table.{find-erase}
use service_control_client_c.Cache.Valid.{
  IsPlaced, IsValid, remove-IsValid, garbage_collect-IsValid, idle_loop-IsValid,
  remove_expired_entries-IsValid, lookup-IsValid, collect-IsValid,
}
use service_control_client_c.Cache.Calls.{
  enter-IsValid, Holds, release-IsValid, insert_pinned-IsValid, remove_all-IsValid,
}
use service_control_client_c.Cache.Others.{remove_unpinned, update_size, clear}
use service_control_client_c.Cache.Unpinned.{remove_unpinned-IsValid}
use service_control_client_c.Cache.Resize.{update_size-IsValid, clear-IsValid}

module _ {ℓ} {K V : Type ℓ} ⦃eq : Eq K⦄ where
  -- An element that is pinned stays in the table while others are collected.
  abbrev Keeps : K → Elem K V → Cache K V → Cache K V → Type ℓ
  Keeps k e c c' = (find k c'.entries ≡ some e) × (c'.defer ≡ c.defer)

  collect-Keeps :
      (k j : K) (e : Elem K V) (c : Cache K V)
      → IsValid c
      → find k c.entries ≡ some e
      → 0 < e.pin
      → Keeps k e c (collect j c)
  unfolding collect discard
  collect-Keeps k j e c v h p = elim (Option-cases (find j c.entries)) [
    | inl m ↦ rw (m, collect) (h, refl)
    | inr (x, m) ↦ elim (Bool-cases (nat_beq x.pin 0)) [
      | inl z ↦
          rw (m, collect, z)
            (ground (arith, find-erase k j c.entries v.distinct, eq.equals_iff j k), refl)
      | inr z ↦ rw (m, collect, z) (h, refl)
    ]
  ]

  shrink-Keeps :
      (k j : K) (e : Elem K V) (c : Cache K V) (b : Bool)
      → IsValid c
      → find k c.entries ≡ some e
      → 0 < e.pin
      → Keeps k e c (if b then collect j c else c) × IsValid (if b then collect j c else c)
  shrink-Keeps k j e c true v h p = (collect-Keeps k j e c v h p, collect-IsValid j c v)
  shrink-Keeps k j e c false v h p = ((h, refl), v)

  pub collect_loop-Keeps :
      (k : K) (e : Elem K V) (ks : List K) (c : Cache K V)
      → IsValid c
      → find k c.entries ≡ some e
      → 0 < e.pin
      → Keeps k e c (collect_loop ks c)
  unfolding collect_loop
  collect_loop-Keeps k e [] c v h p = (h, refl)
  collect_loop-Keeps k e (j ∷ ks) c v h p =
      let (s, w) = shrink-Keeps k j e c (is_overfull c) v h p in
      let r = collect_loop-Keeps k e ks (if is_overfull c then collect j c else c) w s.0 p in
      (r.0, r.1 ∙ s.1)

  find-new_elem :
      (k : K) (p : ℕ) (x : V) (u now : ℕ) (lru : Bool) (c : Cache K V)
      → find k (enter (new_elem k p x u now lru) c).entries ≡ some (new_elem k p x u now lru)
  unfolding enter find
  find-new_elem k p x u now lru c = rw (==_refl k)

  -- What is inserted pinned is in the table, and is there to be released.
  pub find-insert_pinned :
      (k : K) (p : ℕ) (x : V) (u now : ℕ) (c : Cache K V)
      → IsValid c
      → find k (insert_pinned k p x u now c).entries ≡ some (new_elem k p x u now c.lru)
  unfolding insert_pinned garbage_collect
  find-insert_pinned k p x u now c v =
      (collect_loop-Keeps k (new_elem k p x u now c.lru) _ _ (enter-IsValid k p x u now c v)
        (find-new_elem k p x u now c.lru (remove k c)) (omega arith)).0

  pub insert_pinned-Holds :
      (k : K) (p : ℕ) (x : V) (u now : ℕ) (c : Cache K V)
      → IsValid c
      → Holds k p (insert_pinned k p x u now c)
  insert_pinned-Holds k p x u now c v =
      elim (Option-cases (find_deferred k p (insert_pinned k p x u now c).defer)) [
        | inl m ↦ (
          new_elem k p x u now c.lru,
          inr (m, find-insert_pinned k p x u now c v, refl, omega arith),
        )
        | inr (e, h) ↦ (e, inl h)
      ]

  pub insert-IsValid :
      (k : K) (p : ℕ) (x : V) (u now : ℕ) (c : Cache K V)
      → IsValid c
      → IsValid (insert k p x u now c)
  unfolding insert
  insert-IsValid k p x u now c v =
      let c' = insert_pinned k p x u now c in
      release-IsValid k p now c' (insert_pinned-Holds k p x u now c v)
        (insert_pinned-IsValid k p x u now c v)

  -- The calls of a client, which releases only what it holds, sets a timeout only before the first
  -- insertion, and clears a cache where no removed element waits for a release.
  pub data Step : Cache K V → Cache K V → Type ℓ where
    lookup_step : (k : K) (now : ℕ) (c : Cache K V) → Step c (lookup k now c).0
    release_step : (k : K) (p now : ℕ) (c : Cache K V) → Holds k p c → Step c (release k p now c)
    insert_pinned_step :
        (k : K) (p : ℕ) (x : V) (u now : ℕ) (c : Cache K V) → Step c (insert_pinned k p x u now c)
    insert_step :
        (k : K) (p : ℕ) (x : V) (u now : ℕ) (c : Cache K V) → Step c (insert k p x u now c)
    remove_step : (k : K) (c : Cache K V) → Step c (remove k c)
    remove_all_step : (c : Cache K V) → Step c (remove_all c)
    expire_step : (now : ℕ) (c : Cache K V) → Step c (remove_expired_entries now c)
    resize_step : (n : ℕ) (c : Cache K V) → Step c (set_max_size n c)
    timeout_step :
        (o : Option ℕ) (lru : Bool) (now : ℕ) (c : Cache K V)
        → c.entries ≡ []
        → Step c (set_timeout o lru now c)
    remove_unpinned_step : (c : Cache K V) → Step c (remove_unpinned c)
    update_size_step : (k : K) (p : Option ℕ) (u : ℕ) (c : Cache K V) → Step c (update_size k p u c)
    clear_step : (c : Cache K V) → c.defer ≡ [] → Step c (clear c)

  pub data Reach (n : ℕ) : Cache K V → Type ℓ where
    start : Reach n (new_cache n)
    next : {c c' : Cache K V} → Reach n c → Step c c' → Reach n c'

  pub resized-IsValid : (n : ℕ) (c : Cache K V) → IsValid c → IsValid (record c { max_units = n })
  resized-IsValid n c v = record {
    distinct = v.distinct;
    sized = v.sized;
    pins = v.pins;
    placed = v.placed;
    held = v.held;
  }

  resize-IsValid : (n : ℕ) (c : Cache K V) → IsValid c → IsValid (set_max_size n c)
  unfolding set_max_size
  resize-IsValid n c v = garbage_collect-IsValid _ (resized-IsValid n c v)

  configured :
      (o : Option ℕ) (lru : Bool) (c : Cache K V)
      → c.entries ≡ []
      → IsValid c
      → IsValid (record c { max_idle = o; lru = lru })
  configured o lru c e v = record {
    distinct = v.distinct;
    sized = v.sized;
    pins = v.pins;
    placed = subst (All (IsPlaced lru)) (sym e) tt;
    held = v.held;
  }

  timeout-IsValid :
      (o : Option ℕ) (lru : Bool) (now : ℕ) (c : Cache K V)
      → c.entries ≡ []
      → IsValid c
      → IsValid (set_timeout o lru now c)
  unfolding set_timeout discard_idle
  timeout-IsValid none lru now c e v = configured none lru c e v
  timeout-IsValid (some t) lru now c e v =
      guarded _ (idle_loop-IsValid t now (chain c.entries) _ (configured (some t) lru c e v))
    where
      guarded : (b : Bool) {c' : Cache K V} → IsValid c' → IsValid (if b then c else c')
      guarded true w = v
      guarded false w = w

  pub Step-IsValid : {c c' : Cache K V} → Step c c' → IsValid c → IsValid c'
  Step-IsValid (lookup_step k now c) v = lookup-IsValid k now c v
  Step-IsValid (release_step k p now c h) v = release-IsValid k p now c h v
  Step-IsValid (insert_pinned_step k p x u now c) v = insert_pinned-IsValid k p x u now c v
  Step-IsValid (insert_step k p x u now c) v = insert-IsValid k p x u now c v
  Step-IsValid (remove_step k c) v = remove-IsValid k c v
  Step-IsValid (remove_all_step c) v = remove_all-IsValid c v
  Step-IsValid (expire_step now c) v = remove_expired_entries-IsValid now c v
  Step-IsValid (resize_step n c) v = resize-IsValid n c v
  Step-IsValid (timeout_step o lru now c e) v = timeout-IsValid o lru now c e v
  Step-IsValid (remove_unpinned_step c) v = remove_unpinned-IsValid c v
  Step-IsValid (update_size_step k p u c) v = update_size-IsValid k p u c v
  Step-IsValid (clear_step c d) v = clear-IsValid c d

  pub Reach-IsValid : {n : ℕ} {c : Cache K V} → Reach n c → IsValid c
  unfolding new_cache
  Reach-IsValid start = record { distinct = tt; sized = refl; pins = refl; placed = tt; held = tt }
  Reach-IsValid (next r s) = Step-IsValid s (Reach-IsValid r)
