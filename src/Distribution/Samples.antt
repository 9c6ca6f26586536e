-- ===== src/Distribution/Samples.antt =====
-- What a new sample does to a distribution (utils/distribution_helper.cc, AddSample).
use mathlib.Core.Option.{some-injective}
use mathlib.Core.Path.{subst}
use service_control_client_c.Float.{Float}
use service_control_client_c.Prelude.{
  ℕ, suc, zero, ◌+◌, ◌<◌, ◌≤◌, ◌^◌, ◌≡◌, refl, ◌⊎◌, ap, sym, ◌∙◌, none, some, List, [], ◌∷◌, length,
  get_elem?, set, ℤ, pos, negsuc, pos_part, ◌+ℤ◌, eqb_ℤ, int64, sum_by, All, arith, Bool-cases,
  Option-cases, inl, inr,
}
use service_control_client_c.Status.{Status, ok, invalid_argument}
use service_control_client_c.Distribution.{
  Buckets, Distribution, update_general_statistics, increment, upper_bound, explicit_index,
  add_sample, add_to, succeed, init_explicit, given_bounds, is_sorted, has_adjacent, linear,
  exponential, explicit, not_set, linear_index, exponential_index,
}
use service_control_client_c.Distribution.Merging.{IsNonneg, IsCounted, int64_add-IsNonneg}

module _ {ℓ} {A : Type ℓ} where
  pub sum_by-set :
      (f : A → ℕ) (xs : List A) (i : ℕ) (x y : A)
      → get_elem? xs i ≡ some x
      → sum_by f (set xs i y) + f x ≡ sum_by f xs + f y
  sum_by-set f [] i x y h = cc
  sum_by-set f (z ∷ xs) zero x y h = ground arith
  sum_by-set f (z ∷ xs) (suc i) x y h = omega (arith, sum_by-set f xs i x y h)

  pub All-set {κ} :
      (P : A → Type κ) (xs : List A) (i : ℕ) (y : A) → P y → All P xs → All P (set xs i y)
  All-set P [] i y p h = h
  All-set P (z ∷ xs) zero y p h = (p, h.1)
  All-set P (z ∷ xs) (suc i) y p h = (h.0, All-set P xs i y p h.1)

  pub All-get {κ} :
      (P : A → Type κ) (xs : List A) (i : ℕ) (x : A) → All P xs → get_elem? xs i ≡ some x → P x
  All-get P [] i x h e = absurd (cc e)
  All-get P (z ∷ xs) zero x h e = subst P (some-injective z x e) h.0
  All-get P (z ∷ xs) (suc i) x h e = All-get P xs i x h.1 e

  pub length-set : (xs : List A) (i : ℕ) (y : A) → length (set xs i y) ≡ length xs
  length-set [] i y = refl
  length-set (z ∷ xs) zero y = refl
  length-set (z ∷ xs) (suc i) y = ap suc (length-set xs i y)

  pub get_elem-some : (xs : List A) (i : ℕ) → i < length xs → (x : A) × (get_elem? xs i ≡ some x)
  get_elem-some [] i h = absurd (omega arith)
  get_elem-some (z ∷ xs) zero h = (z, refl)
  get_elem-some (z ∷ xs) (suc i) h = get_elem-some xs i (omega arith)

-- An increment within range adds one to the counts, and changes nothing else.
pub increment_counts {ℓ} :
    {D : Type ℓ} (i : ℤ) (u r : Distribution D)
    → increment i u ≡ some r
    → All IsNonneg u.bucket_counts
    → sum_by pos_part u.bucket_counts + 1 < 2 ^ 63
    → (r.count ≡ u.count)
      × (r.buckets ≡ u.buckets)
      × All IsNonneg r.bucket_counts
      × (length r.bucket_counts ≡ length u.bucket_counts)
      × (sum_by pos_part r.bucket_counts ≡ sum_by pos_part u.bucket_counts + 1)
unfolding increment
increment_counts (negsuc i) u r e h k = absurd (cc e)
increment_counts {D} (pos i) u r e h k = elim (Option-cases (get_elem? u.bucket_counts i)) [
  | inl m ↦ absurd (cc (rw (m, increment) at e))
  | inr (n, m) ↦
      let n' = int64 (n +ℤ pos 1) in
      let g = sum_by-set pos_part u.bucket_counts i n (pos 0) m in
      let p = All-get IsNonneg u.bucket_counts i n h m in
      let s = int64_add-IsNonneg n (pos 1) p refl (omega arith) in
      let x : Distribution D = record u { bucket_counts = set u.bucket_counts i n' } in
      let q : x ≡ r = some-injective x r (rw (m, increment) at e) in
      subst
        (λ (r : Distribution D).
          (r.count ≡ u.count)
          × (r.buckets ≡ u.buckets)
          × All IsNonneg r.bucket_counts
          × (length r.bucket_counts ≡ length u.bucket_counts)
          × (sum_by pos_part r.bucket_counts ≡ sum_by pos_part u.bucket_counts + 1))
        q
        (
          refl,
          refl,
          All-set IsNonneg u.bucket_counts i n' s.0 h,
          length-set u.bucket_counts i n',
          omega (arith, sum_by-set pos_part u.bucket_counts i n n' m, s.1),
        )
]

module _ {ℓ} {D : Type ℓ} (fl : Float D) where
  -- One more sample in a distribution of the same buckets.
  abbrev Adds : Distribution D → Distribution D → Type ℓ
  Adds d r =
      IsCounted r
      × (pos_part r.count ≡ pos_part d.count + 1)
      × (length r.bucket_counts ≡ length d.bucket_counts)
      × (r.buckets ≡ d.buckets)

  statistics_count :
      (value : D) (d : Distribution D)
      → IsNonneg d.count
      → pos_part d.count + 1 < 2 ^ 63
      → IsNonneg (update_general_statistics fl value d).count
        × (pos_part (update_general_statistics fl value d).count ≡ pos_part d.count + 1)
        × ((update_general_statistics fl value d).bucket_counts ≡ d.bucket_counts)
        × ((update_general_statistics fl value d).buckets ≡ d.buckets)
  unfolding update_general_statistics
  statistics_count value d n h = elim (Bool-cases (eqb_ℤ d.count (pos 0))) [
    | inl e ↦ rw e (refl, ground arith, refl, refl)
    | inr e ↦ rw e (let s = int64_add-IsNonneg d.count (pos 1) n refl h in (s.0, s.1, refl, refl))
  ]

  increment-Adds :
      (i : ℤ) (value : D) (d r : Distribution D)
      → IsCounted d
      → pos_part d.count + 1 < 2 ^ 63
      → increment i (update_general_statistics fl value d) ≡ some r
      → Adds d r
  increment-Adds i value d r c h e =
      let u = update_general_statistics fl value d in
      let s = statistics_count value d c.nonneg h in
      let k =
        increment_counts i u r e (subst (All IsNonneg) (sym s.2) c.buckets_nonneg)
          (rw s.2 (omega (arith, c.counted))) in
      (
        record {
          nonneg = rw k.0 s.0;
          buckets_nonneg = k.2;
          counted = omega (arith, ap pos_part k.0, s.1, k.4, ap (sum_by pos_part) s.2, c.counted);
        },
        omega (arith, ap pos_part k.0, s.1),
        k.3 ∙ ap length s.2,
        k.1 ∙ s.3,
      )

  Outcome : Distribution D → Status → Distribution D → Type ℓ
  Outcome d st r = (st ≡ ok) × Adds d r ⊎ (st ≡ invalid_argument) × (r ≡ d) × (d.buckets ≡ not_set)

  succeed-Adds :
      (value : D) (d r : Distribution D) (i : ℤ) (st : Status)
      → IsCounted d
      → pos_part d.count + 1 < 2 ^ 63
      → succeed (increment i (update_general_statistics fl value d)) ≡ some (st, r)
      → Outcome d st r
  unfolding Outcome
  succeed-Adds value d r i st c h e =
      elim (Option-cases (increment i (update_general_statistics fl value d))) [
        | inl m ↦ absurd (cc (rw m at e))
        | inr (u, m) ↦
            let q : (ok, u) ≡ (st, r) = some-injective (ok, u) (st, r) (rw m at e) in
            inl (sym (ap (λ p. p.0) q), increment-Adds i value d r c h (m ∙ ap (λ p. some p.1) q))
      ]

  add_to_counts :
      (b : Buckets D) (value : D) (d r : Distribution D) (st : Status)
      → d.buckets ≡ b
      → IsCounted d
      → pos_part d.count + 1 < 2 ^ 63
      → add_to fl b value d ≡ some (st, r)
      → Outcome d st r
  unfolding add_to Outcome
  add_to_counts not_set value d r st q c h e =
      let p : (invalid_argument, d) ≡ (st, r) = some-injective _ _ e in
      inr (sym (ap (λ p. p.0) p), sym (ap (λ p. p.1) p), q)
  add_to_counts (linear n w o) value d r st q c h e =
      succeed-Adds value d r (linear_index fl n w o value) st c h e
  add_to_counts (exponential n g s) value d r st q c h e =
      succeed-Adds value d r (exponential_index fl n g s value) st c h e
  add_to_counts (explicit bs) value d r st q c h e =
      elim (Option-cases (explicit_index fl bs value)) [
        | inl m ↦ absurd (cc (rw (m, add_to) at e))
        | inr (i, m) ↦ succeed-Adds value d r i st c h (rw (m, add_to) at e)
      ]

  -- A sample that is added to a distribution whose count is the sum of its buckets, without an
  -- int64 overflow and within the bucket counts, makes it such a distribution with one more sample
  -- in as many buckets, of the same bounds; where the kind of buckets is not set, the status is
  -- invalid_argument and the distribution stays as it was.
  pub add_sample_counts :
      (value : D) (d r : Distribution D) (st : Status)
      → IsCounted d
      → pos_part d.count + 1 < 2 ^ 63
      → add_sample fl value d ≡ some (st, r)
      → (st ≡ ok) × Adds d r ⊎ (st ≡ invalid_argument) × (r ≡ d) × (d.buckets ≡ not_set)
  unfolding add_sample Outcome
  add_sample_counts value d r st c h e = add_to_counts d.buckets value d r st refl c h e

  upper_bound-le : (bs : List D) (value : D) → upper_bound fl bs value ≤ length bs
  unfolding upper_bound
  upper_bound-le [] value = omega arith
  upper_bound-le (b ∷ bs) value = ground (arith, upper_bound-le bs value)

  explicit_in_range :
      (value b : D) (bs : List D)
      → (i : ℕ) × (explicit_index fl (b ∷ bs) value ≡ some (pos i)) × (i ≤ length (b ∷ bs))
  unfolding explicit_index
  explicit_in_range value b bs = elim (Bool-cases (fl.le b value)) [
    | inl e ↦ (upper_bound fl (b ∷ bs) value, rw e, upper_bound-le (b ∷ bs) value)
    | inr e ↦ (0, rw e, omega arith)
  ]

  bucket_counts_kept :
      (value : D) (d : Distribution D)
      → (update_general_statistics fl value d).bucket_counts ≡ d.bucket_counts
  unfolding update_general_statistics
  bucket_counts_kept value d = elim (Bool-cases (eqb_ℤ d.count (pos 0))) [
    | inl e ↦ rw e
    | inr e ↦ rw e
  ]

  increment_in_range :
      (i : ℕ) (u : Distribution D)
      → i < length u.bucket_counts
      → (r : Distribution D) × (increment (pos i) u ≡ some r)
  unfolding increment
  increment_in_range i u h =
      let (n, m) = get_elem-some u.bucket_counts i h in
      (record u { bucket_counts = set u.bucket_counts i (int64 (n +ℤ pos 1)) }, rw (m, increment))

  -- A sample is always added, with the status ok, to a distribution with at least one explicit
  -- bound and one more bucket than bounds: no bucket count out of range is read or written.
  pub add_sample_explicit :
      (value b : D) (bs : List D) (d : Distribution D)
      → d.buckets ≡ explicit (b ∷ bs)
      → length d.bucket_counts ≡ suc (length (b ∷ bs))
      → (r : Distribution D) × (add_sample fl value d ≡ some (ok, r))
  unfolding add_sample add_to
  add_sample_explicit value b bs d q l =
      let (i, m, k) = explicit_in_range value b bs in
      let u = update_general_statistics fl value d in
      let (r, n) = increment_in_range i u (omega (arith, ap length (bucket_counts_kept value d))) in
      (r, ap (λ k. add_to fl k value d) q ∙ rw (m, add_to) (ap succeed n))

  -- Without bounds, given or there before, the initialisation succeeds, and then every sample reads a bound that is not
  -- there.
  pub init_explicit_without_bounds :
      (value : D) (d : Distribution D)
      → given_bounds d.buckets ≡ []
      → ((init_explicit fl [] d).0 ≡ ok) × (add_sample fl value (init_explicit fl [] d).1 ≡ none)
  unfolding init_explicit is_sorted has_adjacent add_sample add_to explicit_index
  init_explicit_without_bounds value d q = (refl, rw q)
