-- ===== src/Cache/Idle.antt =====
-- DiscardIdle (utils/simple_lru_cache_inl.h) stops at the first element of the chain that is not
-- idle; what it leaves on a chain that is in the order of time.
use mathlib.Core.Path.{subst}
use mathlib.Core.List.{reverse-cons, reverse-reverse}
use service_control_client_c.Prelude.{
  ℕ, ◌≤◌, ◌≡◌, refl, sym, ap, ◌∙◌, true, false, ◌&&◌, Option, none, some, List, [], ◌∷◌, ◌++◌,
  reverse, append_assoc, append-nil, Eq, if◌then◌else◌, arith, Bool-cases, Option-cases, inl, inr,
  ==_refl,
}
use service_control_client_c.Cache.{
  Elem, Cache, find, erase, chain, remove, is_idle, idle_loop, discard_idle, remove_expired_entries,
  lookup,
}
use service_control_client_c.Cache.Table.{Distinct, Distinct-erase}
use service_control_client_c.Cache.Valid.{entries-remove_elem}
use service_control_client_c.Cache.Chain.{find-append, find-parts, erase-append}
use service_control_client_c.Cache.Timed.{IsTimed, latest}
use service_control_client_c.Cache.Clock.{Run, Run-IsValid, Run-IsTimed}

module _ {ℓ} {K V : Type ℓ} ⦃eq : Eq K⦄ where
  -- The elements that a timeout leaves: those that are off the chain or not idle.
  abbrev pub fresh : ℕ → ℕ → List (Elem K V) → List (Elem K V)
  fresh idle now [] = []
  fresh idle now (e ∷ es) =
      if e.linked && is_idle idle now e then fresh idle now es else e ∷ fresh idle now es

  fresh-append :
      (idle now : ℕ) (es fs : List (Elem K V))
      → fresh idle now (es ++ fs) ≡ fresh idle now es ++ fresh idle now fs
  fresh-append idle now [] fs = refl
  fresh-append idle now (e ∷ es) fs = ground (arith, fresh-append idle now es fs)

  pub chain-append : (es fs : List (Elem K V)) → chain (es ++ fs) ≡ chain fs ++ chain es
  unfolding chain
  chain-append [] fs = sym (append-nil (chain fs))
  chain-append (e ∷ es) fs =
      ground (arith, chain-append es fs, append_assoc (chain fs) (chain es) (e.key ∷ []))

  -- Before an element that is not idle, nothing is.
  fresh-timed :
      (idle now t : ℕ) (es : List (Elem K V)) (e : Elem K V)
      → e.linked ≡ true
      → is_idle idle now e ≡ false
      → IsTimed t (es ++ e ∷ [])
      → (fresh idle now es ≡ es) × (e.last_use ≤ t)
  fresh-timed idle now t [] e l f s = ground (arith, s.0)
  fresh-timed idle now t (x ∷ es) e l f s =
      ground (arith, s.0, fresh-timed idle now (latest t x) es e l f s.1)

  IsTimed-prefix : (t : ℕ) (es fs : List (Elem K V)) → IsTimed t (es ++ fs) → IsTimed t es
  IsTimed-prefix t [] fs s = tt
  IsTimed-prefix t (e ∷ es) fs s = (s.0, IsTimed-prefix (latest t e) es fs s.1)

  find-before :
      (es fs : List (Elem K V)) (e : Elem K V) → Distinct (es ++ e ∷ fs) → find e.key es ≡ none
  unfolding find
  find-before [] fs e d = refl
  find-before (x ∷ es) fs e d = ground (
    arith,
    find-before es fs e d.1,
    (find-parts x.key es (e ∷ fs) d.0).1,
    eq.equals_iff x.key e.key,
    eq.equals_iff e.key x.key,
  )

  -- The removal of one element between others.
  module _ (es fs : List (Elem K V)) (e : Elem K V) (c : Cache K V)
      (split : c.entries ≡ es ++ e ∷ fs) (d : Distinct c.entries) where
    pub find-between : find e.key c.entries ≡ some e
    unfolding find
    find-between =
        rw
          (
            split,
            find-append e.key es (e ∷ fs) (find-before es fs e (rw split at d)),
            ==_refl e.key,
          )
          refl

    pub erase-between : erase e.key c.entries ≡ es ++ fs
    unfolding erase
    erase-between =
        rw
          (
            split,
            erase-append e.key es (e ∷ fs) (find-before es fs e (rw split at d)),
            ==_refl e.key,
          )
          refl

    pub Distinct-between : Distinct (es ++ fs)
    Distinct-between = subst Distinct erase-between (Distinct-erase e.key c.entries d)

    pub remove-between : (remove e.key c).entries ≡ es ++ fs
    unfolding remove
    remove-between =
        rw
          (
            find-between,
            remove,
            entries-remove_elem e (record c { entries = erase e.key c.entries }),
          )
          erase-between

  -- The loop, from the tail: `fs` are the elements that it has passed.
  idle_loop-fresh :
      (idle now t : ℕ) (es fs : List (Elem K V)) (c : Cache K V)
      → c.entries ≡ reverse es ++ fs
      → Distinct c.entries
      → IsTimed t (reverse es)
      → (idle_loop idle now (chain (reverse es)) c).entries ≡ fresh idle now (reverse es) ++ fs
  unfolding idle_loop chain
  idle_loop-fresh idle now t [] fs c p d s = p
  idle_loop-fresh idle now t (e ∷ es) fs c p d s =
      let q : c.entries ≡ reverse es ++ e ∷ fs =
        p ∙ (ap (λ l. l ++ fs) (reverse-cons e es) ∙ append_assoc (reverse es) (e ∷ []) fs) in
      let s' : IsTimed t (reverse es ++ e ∷ []) = subst (IsTimed t) (reverse-cons e es) s in
      let r = IsTimed-prefix t (reverse es) (e ∷ []) s' in
      let f = find-between (reverse es) fs e c q d in
      let m = remove-between (reverse es) fs e c q d in
      let n = Distinct-between (reverse es) fs e c q d in
      let z = append_assoc (fresh idle now (reverse es)) (e ∷ []) fs in
      let x = fresh-append idle now (reverse es) (e ∷ []) in
      let y = chain-append (reverse es) (e ∷ []) in
      rw (reverse-cons e es, y, x)
        (elim (Bool-cases e.linked) [
          | inl l ↦ elim (Bool-cases (is_idle idle now e)) [
            | inl b ↦
                rw (l, f, idle_loop, b, append-nil (fresh idle now (reverse es)))
                  (idle_loop-fresh idle now t es fs (remove e.key c) m (subst Distinct (sym m) n) r)
            | inr b ↦
                let a : (idle_loop idle now (chain (e ∷ []) ++ chain (reverse es)) c).entries
                    ≡ c.entries =
                  rw (l, f, idle_loop, b) refl in
                let w : fresh idle now (e ∷ []) ≡ e ∷ [] = ground (arith, l, b) in
                let u = (fresh-timed idle now t (reverse es) e l b s').0 in
                a
                ∙ (q
                    ∙ (sym (append_assoc (reverse es) (e ∷ []) fs) ∙ ap (λ h. h ++ fs) (cc (w, u))))
          ]
          | inr l ↦
              let a : chain (e ∷ []) ++ chain (reverse es) ≡ chain (reverse es) =
                ground (arith, l) in
              let w : fresh idle now (e ∷ []) ≡ e ∷ [] = ground (arith, l) in
              ap (λ ks. (idle_loop idle now ks c).entries) a
              ∙ (idle_loop-fresh idle now t es (e ∷ fs) c q d r
                  ∙ (sym z ∙ ap (λ h. (fresh idle now (reverse es) ++ h) ++ fs) (sym w)))
        ])

  -- On a chain in the order of time the loop removes every idle element of the chain, and no other.
  discard_idle-fresh :
      (idle now t : ℕ) (c : Cache K V)
      → Distinct c.entries
      → IsTimed t c.entries
      → (discard_idle idle now c).entries ≡ fresh idle now c.entries
  unfolding discard_idle
  discard_idle-fresh idle now t c d s =
      let r = reverse-reverse c.entries in
      subst (λ l. (idle_loop idle now (chain l) c).entries ≡ fresh idle now l) r
        (idle_loop-fresh idle now t (reverse c.entries) [] c
            (sym (append-nil (reverse (reverse c.entries)) ∙ r)) d (subst (IsTimed t) (sym r) s)
          ∙ append-nil (fresh idle now (reverse (reverse c.entries))))

  -- The value that a lookup hands out.
  abbrev pub found : Option (Elem K V) → Option (ℕ × V)
  found none = none
  found (some e) = some (e.ptr, e.value)

  lookup-found :
      (k : K) (now : ℕ) (c : Cache K V)
      → (lookup k now c).1 ≡ found (find k (remove_expired_entries now c).entries)
  unfolding lookup
  lookup-found k now c = elim (Option-cases (find k (remove_expired_entries now c).entries)) [
    | inl m ↦ rw (m, lookup)
    | inr (e, h) ↦ rw (h, lookup)
  ]

  -- Where the clock does not go back, a timeout leaves exactly the elements that are off the chain
  -- or were used within it, in the order that they had, and Lookup answers from these.
  pub remove_expired_entries-fresh :
      {n t : ℕ} (idle now : ℕ) (k : K) (c : Cache K V)
      → Run n t c
      → c.max_idle ≡ some idle
      → ((remove_expired_entries now c).entries ≡ fresh idle now c.entries)
        × ((lookup k now c).1 ≡ found (find k (fresh idle now c.entries)))
  unfolding remove_expired_entries
  remove_expired_entries-fresh {n} {t} idle now k c r m =
      let q : (remove_expired_entries now c).entries ≡ fresh idle now c.entries =
        rw (m, remove_expired_entries)
          (discard_idle-fresh idle now t c (Run-IsValid r).distinct (Run-IsTimed r)) in
      (q, lookup-found k now c ∙ ap (λ es. found (find k es)) q)
