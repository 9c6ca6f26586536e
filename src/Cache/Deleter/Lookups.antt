-- ===== src/Cache/Deleter/Lookups.antt =====
-- The two outcomes of a lookup in a cache whose deleter may call it again
-- (utils/simple_lru_cache_inl.h), where the removal of the expired elements returns.
use service_control_client_c.Prelude.{ℕ, ◌≡◌, ap, ◌∙◌, Option, none, some, Eq, Run, returns, ◌>>=◌}
use service_control_client_c.Cache.{Elem, Cache, find, pin_elem}
use service_control_client_c.Cache.Deleter.{World, remove_expired_with, lookup_with}

module _ {ℓ} {K V S : Type ℓ} ⦃eq : Eq K⦄
    (delete : ℕ → V → Cache K V × S → Run (Cache K V × S)) where
  -- What a lookup does after the removal of the expired elements.
  abbrev looked : K → World delete → Option (Elem K V) → Run (World delete × Option (ℕ × V))
  looked k w none = returns (w, none)
  looked k w (some e) = returns ((pin_elem k e w.0, w.1), some (e.ptr, e.value))

  lookup_with-looked :
      (k : K) (now : ℕ) (o : Option (Elem K V)) (w w' : World delete)
      → remove_expired_with delete now w ≡ returns w'
      → find k (w'.0).entries ≡ o
      → lookup_with delete k now w ≡ looked k w' o
  unfolding lookup_with
  lookup_with-looked k now o w w' h f =
      ap
        (λ r. r >>= λ (x : World delete). elim (find k (x.0).entries) [
          | none ↦ returns (x, none)
          | some e ↦ returns ((pin_elem k e x.0, x.1), some (e.ptr, e.value))
        ])
        h
      ∙ ap (looked k w') f

  pub lookup_with-missing :
      (k : K) (now : ℕ) (w w' : World delete)
      → remove_expired_with delete now w ≡ returns w'
      → find k (w'.0).entries ≡ none
      → lookup_with delete k now w ≡ returns (w', none)
  lookup_with-missing k now w w' h f = lookup_with-looked k now none w w' h f

  pub lookup_with-found :
      (k : K) (now : ℕ) (e : Elem K V) (w w' : World delete)
      → remove_expired_with delete now w ≡ returns w'
      → find k (w'.0).entries ≡ some e
      → lookup_with delete k now w ≡ returns ((pin_elem k e w'.0, w'.1), some (e.ptr, e.value))
  lookup_with-found k now e w w' h f = lookup_with-looked k now (some e) w w' h f
