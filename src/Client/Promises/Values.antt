-- ===== src/Client/Promises/Values.antt =====
-- The promises one by one: setting one, and making a new one
-- (src/service_control_client_impl.cc).
use service_control_client_c.Prelude.{
  ℕ, zero, suc, ◌+◌, ◌≤◌, ◌≡◌, refl, sym, ap, ◌∙◌, Option, none, some, List, [], ◌∷◌, ◌++◌, length,
  get_elem?, Option-cases, ◌⊎◌, inl, inr, arith,
}
use service_control_client_c.Status.{Status}
use service_control_client_c.Client.Promises.{set_value, Threads, awaited, blocked, owns, Keeps}

owns_first :
    (status : Status) (ps : List (Option Status)) (m : ℕ)
    → owns m (some 0) + blocked m (some status ∷ ps) ≡ blocked m (none ∷ ps)
owns_first status ps zero = ground arith
owns_first status ps (suc m) = ground arith

owns_later :
    (n : ℕ) (p : Option Status) (ps qs : List (Option Status))
    → ((m : ℕ) → owns m (some n) + blocked m qs ≡ blocked m ps)
    → (m : ℕ) → owns m (some (suc n)) + blocked m (p ∷ qs) ≡ blocked m (p ∷ ps)
owns_later n none ps qs h zero = ground arith
owns_later n (some x) ps qs h zero = ground arith
owns_later n p ps qs h (suc m) = ground (arith, h m)

Keeps-first : (status : Status) (ps : List (Option Status)) → Keeps (none ∷ ps) (some status ∷ ps)
Keeps-first status ps zero x h = absurd (cc h)
Keeps-first status ps (suc m) x h = h

Keeps-later :
    (p : Option Status) (ps qs : List (Option Status)) → Keeps ps qs → Keeps (p ∷ ps) (p ∷ qs)
Keeps-later p ps qs k zero x h = h
Keeps-later p ps qs k (suc m) x h = k m x h

-- A promise that is not set can be set, once, and no other promise changes.
pub set_value-blocked :
    (n : ℕ) (status : Status) (ps : List (Option Status))
    → blocked n ps ≡ 1
    → (qs : List (Option Status)) × (set_value n status ps ≡ some qs)
      × (get_elem? qs n ≡ some (some status))
      × ((m : ℕ) → owns m (some n) + blocked m qs ≡ blocked m ps)
      × Keeps ps qs
unfolding set_value
set_value-blocked n status [] h = absurd (omega (arith, h))
set_value-blocked zero status (none ∷ ps) h =
    (some status ∷ ps, refl, refl, owns_first status ps, Keeps-first status ps)
set_value-blocked zero status (some x ∷ ps) h = absurd (omega (arith, h))
set_value-blocked (suc n) status (p ∷ ps) h =
    let (qs, e, g, c, k) = set_value-blocked n status ps h in
    (p ∷ qs, rw e refl, g, owns_later n p ps qs c, Keeps-later p ps qs k)

pub blocked-open :
    (m : ℕ) (ps : List (Option Status))
    → blocked m (ps ++ none ∷ []) ≡ owns m (some (length ps)) + blocked m ps
blocked-open zero [] = ground arith
blocked-open (suc m) [] = ground arith
blocked-open zero (none ∷ ps) = ground arith
blocked-open zero (some x ∷ ps) = ground arith
blocked-open (suc m) (p ∷ ps) = ground (arith, blocked-open m ps)

pub Keeps-open : (ps qs : List (Option Status)) → Keeps ps (ps ++ qs)
Keeps-open [] qs m x h = absurd (cc h)
Keeps-open (p ∷ ps) qs zero x h = h
Keeps-open (p ∷ ps) qs (suc m) x h = Keeps-open ps qs m x h

pub blocked_le : (n : ℕ) (ps : List (Option Status)) → blocked n ps ≤ 1
blocked_le n [] = omega arith
blocked_le zero (none ∷ ps) = omega arith
blocked_le zero (some x ∷ ps) = omega arith
blocked_le (suc n) (p ∷ ps) = blocked_le n ps

pub owns_self : (n : ℕ) → owns n (some n) ≡ 1
owns_self n = ground arith

pub awaited_lem :
    (n : ℕ) (x : Status) (t : Threads)
    → get_elem? t.promises n ≡ some (some x)
    → awaited n t ≡ some x
awaited_lem n x t h = rw (awaited, h) refl

set_promise :
    (o : Option (Option Status)) (x : Status)
    → elim o as (λ p. Option Status) [ none ↦ none | some p ↦ p ] ≡ some x
    → o ≡ some (some x)
set_promise none x h = absurd (cc h)
set_promise (some p) x h = ap some h

pub Keeps-awaited :
    (t t' : Threads) (m : ℕ)
    → Keeps t.promises t'.promises
    → (awaited m t ≡ none) ⊎ (awaited m t' ≡ awaited m t)
Keeps-awaited t t' m k = elim (Option-cases (awaited m t)) [
  | inl e ↦ inl e
  | inr (x, e) ↦ inr (awaited_lem m x t' (k m x (set_promise (get_elem? t.promises m) x e)) ∙ sym e)
]
