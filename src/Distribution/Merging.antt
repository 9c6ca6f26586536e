-- ===== src/Distribution/Merging.antt =====
-- What a merge does to the counts of a distribution (utils/distribution_helper.cc, Merge).
use service_control_client_c.Float.{Float}
use service_control_client_c.Prelude.{
  ◌+◌, ◌<◌, ◌^◌, ◌≡◌, refl, ◌⊎◌, List, [], ◌∷◌, length, nat_beq, ℤ, pos, pos_part, neg_part, ◌+ℤ◌,
  leb_ℤ, int64, sum_by, All, arith, Bool-cases, inl, inr,
}
use service_control_client_c.Status.{ok, invalid_argument}
use service_control_client_c.Distribution.{
  Distribution, add_counts, merge_statistics, merge, buckets_approximately_equal,
}

abbrev pub IsNonneg : ℤ → Type 0
IsNonneg z = neg_part z ≡ 0

-- The count is the sum of the bucket counts, and no count is negative.
pub record IsCounted {ℓ} {D : Type ℓ} (d : Distribution D) : Type 0 where
  pub nonneg : IsNonneg d.count
  pub buckets_nonneg : All IsNonneg d.bucket_counts
  pub counted : pos_part d.count ≡ sum_by pos_part d.bucket_counts

pub int64_add-IsNonneg :
    (x y : ℤ)
    → IsNonneg x
    → IsNonneg y
    → pos_part x + pos_part y < 2 ^ 63
    → IsNonneg (int64 (x +ℤ y)) × (pos_part (int64 (x +ℤ y)) ≡ pos_part x + pos_part y)
unfolding int64 ◌+ℤ◌
int64_add-IsNonneg x y hx hy h = ground arith

pub add_counts_sum :
    (xs ys : List ℤ)
    → length xs ≡ length ys
    → All IsNonneg xs
    → All IsNonneg ys
    → sum_by pos_part xs + sum_by pos_part ys < 2 ^ 63
    → All IsNonneg (add_counts xs ys)
      × (sum_by pos_part (add_counts xs ys) ≡ sum_by pos_part xs + sum_by pos_part ys)
      × (length (add_counts xs ys) ≡ length ys)
unfolding add_counts
add_counts_sum [] [] l hx hy h = (tt, refl, refl)
add_counts_sum [] (y ∷ ys) l hx hy h = absurd (omega arith)
add_counts_sum (x ∷ xs) [] l hx hy h = absurd (omega arith)
add_counts_sum (x ∷ xs) (y ∷ ys) l hx hy h =
    let s = int64_add-IsNonneg y x hy.0 hx.0 (omega arith) in
    let r = add_counts_sum xs ys (omega arith) hx.1 hy.1 (omega arith) in
    ((s.0, r.0), omega arith, omega arith)

module _ {ℓ} {D : Type ℓ} (fl : Float D) (from to : Distribution D) where
  -- The merged distribution counts the samples of both.
  abbrev Merges : Distribution D → Type 0
  Merges r =
      IsCounted r
      × (pos_part r.count ≡ pos_part from.count + pos_part to.count)
      × (length r.bucket_counts ≡ length to.bucket_counts)

  statistics-Merges :
      IsCounted from
      → IsCounted to
      → length from.bucket_counts ≡ length to.bucket_counts
      → pos_part from.count + pos_part to.count < 2 ^ 63
      → Merges (merge_statistics fl from to)
  unfolding merge_statistics
  statistics-Merges f t l h =
      let c = int64_add-IsNonneg to.count from.count t.nonneg f.nonneg (omega arith) in
      let s =
        add_counts_sum from.bucket_counts to.bucket_counts l f.buckets_nonneg t.buckets_nonneg
          (omega (arith, f.counted, t.counted)) in
      (
        record {
          nonneg = c.0;
          buckets_nonneg = s.0;
          counted = omega (arith, f.counted, t.counted);
        },
        omega arith,
        s.2,
      )

  -- A merge of two distributions whose counts are the sums of their buckets, without an int64
  -- overflow, either reports invalid_argument and leaves the target as it was, or succeeds, and
  -- the result is such a distribution again, with the samples of both and the target's number of
  -- buckets.
  pub merge_counts :
      IsCounted from
      → IsCounted to
      → pos_part from.count + pos_part to.count < 2 ^ 63
      → (merge fl from to ≡ (invalid_argument, to))
        ⊎ ((r : Distribution D) × (merge fl from to ≡ (ok, r)) × Merges r)
  unfolding merge
  merge_counts f t h = elim (Bool-cases (buckets_approximately_equal fl from.buckets to.buckets)) [
    | inr e ↦ inl (rw e)
    | inl e ↦ elim (Bool-cases (nat_beq (length from.bucket_counts) (length to.bucket_counts))) [
      | inr l ↦ inl (rw (e, l))
      | inl l ↦ elim (Bool-cases (leb_ℤ from.count (pos 0))) [
        | inl z ↦ inr (to, rw (e, l, z), (t, ground arith, refl))
        | inr z ↦ elim (Bool-cases (leb_ℤ to.count (pos 0))) [
          | inl y ↦ inr (from, rw (e, l, z, y), (f, ground arith, ground arith))
          | inr y ↦
              inr (
                merge_statistics fl from to,
                rw (e, l, z, y),
                statistics-Merges f t (ground arith) h,
              )
        ]
      ]
    ]
  ]
