-- ===== src/Cache/Table.antt =====
-- Laws of the searches and updates in the tables of the cache (utils/simple_lru_cache_inl.h).
use mathlib.Core.Option.{some-injective}
use mathlib.Core.Path.{subst}
use service_control_client_c.Prelude.{
  ℕ, ◌+◌, ◌≡◌, refl, none, some, List, [], ◌∷◌, Eq, ◌==◌, arith, ◌&&◌, nat_beq, if◌then◌else◌,
  sum_by, All, Bool-cases, inl, inr,
}
use service_control_client_c.Cache.{
  Elem, find, erase, replace, find_deferred, erase_deferred, replace_deferred,
}

-- No key twice.
abbrev pub Distinct {ℓ} : {K V : Type ℓ} ⦃eq : Eq K⦄ → List (Elem K V) → Type ℓ
Distinct [] = Unit
Distinct (e ∷ es) = (find e.key es ≡ none) × Distinct es

module _ {ℓ} {K V : Type ℓ} ⦃eq : Eq K⦄ where
  pub find-key : (k : K) (es : List (Elem K V)) (e : Elem K V) → find k es ≡ some e → e.key ≡ k
  unfolding find
  find-key k [] e h = cc
  find-key k (x ∷ es) e h = ground (arith, find-key k es e, eq.equals_iff x.key k)

  module _ (f : Elem K V → ℕ) where
    pub sum_by-erase :
        (k : K) (es : List (Elem K V)) (e : Elem K V)
        → find k es ≡ some e
        → sum_by f es ≡ f e + sum_by f (erase k es)
    unfolding find erase
    sum_by-erase k [] e h = cc
    sum_by-erase k (x ∷ es) e h = ground (arith, sum_by-erase k es e)

    pub sum_by-replace :
        (k : K) (x : Elem K V) (es : List (Elem K V)) (e : Elem K V)
        → find k es ≡ some e
        → sum_by f (replace k x es) + f e ≡ sum_by f es + f x
    unfolding find replace
    sum_by-replace k x [] e h = cc
    sum_by-replace k x (y ∷ es) e h = ground (arith, sum_by-replace k x es e)

    pub sum_by-erase_deferred :
        (k : K) (p : ℕ) (es : List (Elem K V)) (e : Elem K V)
        → find_deferred k p es ≡ some e
        → sum_by f es ≡ f e + sum_by f (erase_deferred k p es)
    unfolding find_deferred erase_deferred
    sum_by-erase_deferred k p [] e h = cc
    sum_by-erase_deferred k p (x ∷ es) e h = ground (arith, sum_by-erase_deferred k p es e)

    pub sum_by-replace_deferred :
        (k : K) (p : ℕ) (x : Elem K V) (es : List (Elem K V)) (e : Elem K V)
        → find_deferred k p es ≡ some e
        → sum_by f (replace_deferred k p x es) + f e ≡ sum_by f es + f x
    unfolding find_deferred replace_deferred
    sum_by-replace_deferred k p x [] e h = cc
    sum_by-replace_deferred k p x (y ∷ es) e h = ground (arith, sum_by-replace_deferred k p x es e)

  module _ {κ} (P : Elem K V → Type κ) where
    pub All-find :
        (k : K) (es : List (Elem K V)) (e : Elem K V) → All P es → find k es ≡ some e → P e
    unfolding find
    All-find k [] e h q = absurd (cc q)
    All-find k (x ∷ es) e h q = elim (Bool-cases (x.key == k)) [
      | inl b ↦ subst P (some-injective x e (rw b at q)) h.0
      | inr b ↦ All-find k es e h.1 (rw b at q)
    ]

    pub All-erase : (k : K) (es : List (Elem K V)) → All P es → All P (erase k es)
    unfolding erase
    All-erase k [] h = h
    All-erase k (x ∷ es) h = elim (Bool-cases (x.key == k)) [
      | inl e ↦ rw e h.1
      | inr e ↦ rw e (h.0, All-erase k es h.1)
    ]

    pub All-replace :
        (k : K) (y : Elem K V) (es : List (Elem K V)) → P y → All P es → All P (replace k y es)
    unfolding replace
    All-replace k y [] p h = h
    All-replace k y (x ∷ es) p h = elim (Bool-cases (x.key == k)) [
      | inl e ↦ rw e (p, h.1)
      | inr e ↦ rw e (h.0, All-replace k y es p h.1)
    ]

    pub All-find_deferred :
        (k : K) (p : ℕ) (es : List (Elem K V)) (e : Elem K V)
        → All P es
        → find_deferred k p es ≡ some e
        → P e
    unfolding find_deferred
    All-find_deferred k p [] e h q = absurd (cc q)
    All-find_deferred k p (x ∷ es) e h q = elim (Bool-cases (x.key == k && nat_beq x.ptr p)) [
      | inl b ↦ subst P (some-injective x e (rw b at q)) h.0
      | inr b ↦ All-find_deferred k p es e h.1 (rw b at q)
    ]

    pub All-erase_deferred :
        (k : K) (p : ℕ) (es : List (Elem K V)) → All P es → All P (erase_deferred k p es)
    unfolding erase_deferred
    All-erase_deferred k p [] h = h
    All-erase_deferred k p (x ∷ es) h = elim (Bool-cases (x.key == k && nat_beq x.ptr p)) [
      | inl e ↦ rw e h.1
      | inr e ↦ rw e (h.0, All-erase_deferred k p es h.1)
    ]

    pub All-replace_deferred :
        (k : K) (p : ℕ) (y : Elem K V) (es : List (Elem K V))
        → P y
        → All P es
        → All P (replace_deferred k p y es)
    unfolding replace_deferred
    All-replace_deferred k p y [] q h = h
    All-replace_deferred k p y (x ∷ es) q h = elim (Bool-cases (x.key == k && nat_beq x.ptr p)) [
      | inl e ↦ rw e (q, h.1)
      | inr e ↦ rw e (h.0, All-replace_deferred k p y es q h.1)
    ]

  pub find-erase :
      (j k : K) (es : List (Elem K V))
      → Distinct es
      → find j (erase k es) ≡ (if k == j then none else find j es)
  unfolding find erase
  find-erase j k [] d = ground arith
  find-erase j k (x ∷ es) d =
      ground
        (arith, find-erase j k es, eq.equals_iff x.key k, eq.equals_iff x.key j, eq.equals_iff k j)

  pub find-replace :
      (j k : K) (y : Elem K V) (es : List (Elem K V)) (e : Elem K V)
      → y.key ≡ k
      → find k es ≡ some e
      → find j (replace k y es) ≡ (if k == j then some y else find j es)
  unfolding find replace
  find-replace j k y [] e h q = cc
  find-replace j k y (x ∷ es) e h q = ground (
    arith,
    find-replace j k y es e,
    eq.equals_iff x.key k,
    eq.equals_iff x.key j,
    eq.equals_iff k j,
    eq.equals_iff y.key j,
  )

  pub replace-replace :
      (k : K) (x y : Elem K V) (es : List (Elem K V))
      → y.key ≡ k
      → replace k x (replace k y es) ≡ replace k x es
  unfolding replace
  replace-replace k x y [] h = refl
  replace-replace k x y (z ∷ es) h =
      ground (arith, replace-replace k x y es h, eq.equals_iff y.key k)

  pub Distinct-erase : (k : K) (es : List (Elem K V)) → Distinct es → Distinct (erase k es)
  unfolding erase
  Distinct-erase k [] d = d
  Distinct-erase k (x ∷ es) d = elim (Bool-cases (x.key == k)) [
    | inl e ↦ rw e d.1
    | inr e ↦ rw e (ground (arith, find-erase x.key k es), Distinct-erase k es d.1)
  ]

  pub Distinct-replace :
      (k : K) (y : Elem K V) (es : List (Elem K V)) (e : Elem K V)
      → y.key ≡ k
      → find k es ≡ some e
      → Distinct es
      → Distinct (replace k y es)
  unfolding find replace
  Distinct-replace k y [] e h q d = d
  Distinct-replace k y (x ∷ es) e h q d = elim (Bool-cases (x.key == k)) [
    | inl b ↦ rw b (ground (arith, eq.equals_iff x.key k), d.1)
    | inr b ↦ rw b (
      ground (arith, find-replace x.key k y es e, eq.equals_iff x.key k, eq.equals_iff k x.key),
      Distinct-replace k y es e h (rw b at q) d.1,
    )
  ]
