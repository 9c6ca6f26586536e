-- ===== src/Cache/Reads.antt =====
-- What a lookup finds (utils/simple_lru_cache_inl.h).
use service_control_client_c.Prelude.{
  ℕ, ◌≡◌, ap, sym, ◌∙◌, Option, none, some, Eq, ==_refl, Option-cases, inl, inr,
}
use service_control_client_c.Cache.{
  Elem, Cache, find, pinned, pin_elem, lookup, remove_expired_entries,
}
use service_control_client_c.Cache.Table.{find-replace, find-key}

module _ {ℓ} {K V : Type ℓ} ⦃eq : Eq K⦄ (k : K) (now : ℕ) (c : Cache K V) where
  -- The cache in which a lookup searches: expired entries are gone.
  abbrev pub fresh : Cache K V
  fresh = remove_expired_entries now c

  pub lookup_hit :
      (e : Elem K V)
      → find k fresh.entries ≡ some e
      → lookup k now c ≡ (pin_elem k e fresh, some (e.ptr, e.value))
  unfolding lookup
  lookup_hit e h = rw (h, lookup)

  pub lookup_miss : find k fresh.entries ≡ none → lookup k now c ≡ (fresh, none)
  unfolding lookup
  lookup_miss h = rw (h, lookup)

  find-pin_elem :
      (e : Elem K V)
      → find k fresh.entries ≡ some e
      → find k (pin_elem k e fresh).entries ≡ some (pinned fresh.lru e)
  unfolding pin_elem
  find-pin_elem e h =
      find-replace k k (pinned fresh.lru e) fresh.entries e (find-key k fresh.entries e h) h
      ∙ rw (==_refl k)

  -- A lookup that finds a value leaves the element that holds it in the table, pinned once more.
  pub find-lookup :
      (p : ℕ) (v : V)
      → (lookup k now c).1 ≡ some (p, v)
      → (e : Elem K V) × (find k fresh.entries ≡ some e)
        × (lookup k now c ≡ (pin_elem k e fresh, some (p, v)))
        × (find k (lookup k now c).0.entries ≡ some (pinned fresh.lru e))
        × (e.ptr ≡ p)
        × (e.value ≡ v)
  find-lookup p v h = elim (Option-cases (find k fresh.entries)) [
    | inl m ↦ absurd (cc (ap (λ r. r.1) (lookup_miss m)))
    | inr (e, m) ↦
        let q = lookup_hit e m in
        let r : ◌≡◌ {A = Option (ℕ × V)} (some (e.ptr, e.value)) (some (p, v)) =
          sym (ap (λ r. r.1) q) ∙ h in
        (
          e,
          m,
          q ∙ ap (λ o. (pin_elem k e fresh, o)) r,
          ap (λ r. find k r.0.entries) q ∙ find-pin_elem e m,
          cc,
          cc,
        )
  ]
