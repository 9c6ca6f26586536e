-- ===== src/Cache/Chain.antt =====
-- The chain of the cache (utils/simple_lru_cache_inl.h) in the order in which its loops visit it,
-- from the tail to the head: the elements of the table in reverse.
use mathlib.Core.List.{reverse-cons, map-append}
use service_control_client_c.Prelude.{
  ◌≡◌, refl, ap, sym, ◌∙◌, true, none, some, List, [], ◌∷◌, ◌++◌, reverse, map, Eq, ◌==◌, ==_refl,
  arith, length, length-append, All, All-append, Bool-cases, inl, inr, append-nil,
}
use service_control_client_c.Cache.{Elem, find, erase, replace, chain}
use service_control_client_c.Cache.Table.{Distinct}

module _ {ℓ} {K V : Type ℓ} ⦃eq : Eq K⦄ where
  abbrev pub key_of : Elem K V → K
  key_of e = e.key

  abbrev pub IsLinked : Elem K V → Type 0
  IsLinked e = e.linked ≡ true

  pub find-append :
      (k : K) (es fs : List (Elem K V)) → find k es ≡ none → find k (es ++ fs) ≡ find k fs
  unfolding find
  find-append k [] fs h = refl
  find-append k (e ∷ es) fs h = ground (arith, find-append k es fs)

  pub find-append-found :
      (k : K) (es fs : List (Elem K V)) (e : Elem K V)
      → find k es ≡ some e
      → find k (es ++ fs) ≡ some e
  unfolding find
  find-append-found k [] fs e h = absurd (cc h)
  find-append-found k (x ∷ es) fs e h = ground (arith, find-append-found k es fs e)

  -- An element that an append does not have is in neither part.
  pub find-parts :
      (k : K) (es fs : List (Elem K V))
      → find k (es ++ fs) ≡ none
      → (find k es ≡ none) × (find k fs ≡ none)
  unfolding find
  find-parts k [] fs h = (refl, h)
  find-parts k (x ∷ es) fs h = ground (arith, find-parts k es fs)

  pub erase-append :
      (k : K) (es fs : List (Elem K V)) → find k es ≡ none → erase k (es ++ fs) ≡ es ++ erase k fs
  unfolding find erase
  erase-append k [] fs h = refl
  erase-append k (e ∷ es) fs h = ground (arith, erase-append k es fs)

  pub find-reverse : (k : K) (es : List (Elem K V)) → find k es ≡ none → find k (reverse es) ≡ none
  unfolding find
  find-reverse k [] h = refl
  find-reverse k (e ∷ es) h = rw (reverse-cons e es) (
      find-append k (reverse es) (e ∷ []) (find-reverse k es (ground (arith, h)))
      ∙ ground (arith, h))

  pub find-reverse-found :
      (k : K) (es : List (Elem K V)) (e : Elem K V)
      → Distinct es
      → find k es ≡ some e
      → find k (reverse es) ≡ some e
  unfolding find
  find-reverse-found k [] e d h = absurd (cc h)
  find-reverse-found k (x ∷ es) e d h = elim (Bool-cases (x.key == k)) [
    | inl b ↦ rw (reverse-cons x es) (
        find-append k (reverse es) (x ∷ [])
          (find-reverse k es (ground (arith, d.0, eq.equals_iff x.key k)))
        ∙ ground (arith, h, b))
    | inr b ↦ rw (reverse-cons x es) (
        find-append-found k (reverse es) (x ∷ []) e
          (find-reverse-found k es e d.1 (ground (arith, h, b))))
  ]

  pub Distinct-append :
      (es : List (Elem K V)) (e : Elem K V)
      → Distinct es
      → find e.key es ≡ none
      → Distinct (es ++ (e ∷ []))
  unfolding find
  Distinct-append [] e d h = (refl, tt)
  Distinct-append (x ∷ es) e d h = (
    find-append x.key es (e ∷ []) d.0
        ∙ ground (arith, h, eq.equals_iff e.key x.key, eq.equals_iff x.key e.key),
    Distinct-append es e d.1 (ground (arith, h)),
  )

  pub Distinct-reverse : (es : List (Elem K V)) → Distinct es → Distinct (reverse es)
  Distinct-reverse [] d = tt
  Distinct-reverse (e ∷ es) d =
      rw (reverse-cons e es)
        (Distinct-append (reverse es) e (Distinct-reverse es d.1) (find-reverse e.key es d.0))

  pub All-reverse {κ} :
      (P : Elem K V → Type κ) (es : List (Elem K V)) → All P es → All P (reverse es)
  All-reverse P [] h = tt
  All-reverse P (e ∷ es) h =
      rw (reverse-cons e es) (All-append P (reverse es) (e ∷ []) (All-reverse P es h.1) (h.0, tt))

  pub length-reverse : (es : List (Elem K V)) → length (reverse es) ≡ length es
  length-reverse [] = refl
  length-reverse (e ∷ es) =
      rw (reverse-cons e es) (omega (arith, length-append (reverse es) (e ∷ []), length-reverse es))

  pub length-replace :
      (k : K) (y : Elem K V) (es : List (Elem K V)) → length (replace k y es) ≡ length es
  unfolding replace
  length-replace k y [] = refl
  length-replace k y (e ∷ es) = ground (arith, length-replace k y es)

  -- The oldest element.
  pub find-oldest :
      (e : Elem K V) (es : List (Elem K V))
      → find e.key es ≡ none
      → find e.key (reverse (e ∷ es)) ≡ some e
  unfolding find
  find-oldest e es h =
      rw
        (
          reverse-cons e es,
          find-append e.key (reverse es) (e ∷ []) (find-reverse e.key es h),
          ==_refl e.key,
        )
        refl

  pub erase-oldest :
      (e : Elem K V) (es : List (Elem K V))
      → find e.key es ≡ none
      → erase e.key (reverse (e ∷ es)) ≡ reverse es
  unfolding erase
  erase-oldest e es h =
      rw
        (
          reverse-cons e es,
          erase-append e.key (reverse es) (e ∷ []) (find-reverse e.key es h),
          ==_refl e.key,
        )
        (append-nil (reverse es))

  pub chain-reverse : (es : List (Elem K V)) → All IsLinked es → chain es ≡ map key_of (reverse es)
  unfolding chain
  chain-reverse [] h = refl
  chain-reverse (e ∷ es) h =
      let c : chain (e ∷ es) ≡ chain es ++ (e.key ∷ []) = ground (arith, h.0) in
      c
      ∙ (ap (λ ks. ks ++ (e.key ∷ [])) (chain-reverse es h.1)
          ∙ (sym (map-append key_of (reverse es) (e ∷ []))
              ∙ ap (map key_of) (sym (reverse-cons e es))))
