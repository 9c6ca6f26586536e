-- ===== src/Tests/Buckets.antt =====
-- Tests of utils/distribution_helper.cc.
use service_control_client_c.Prelude.{
  ℕ, int64, ◌+ℤ◌, ◌+◌, ◌≡◌, refl, ◌⊎◌, some, none, [], ◌∷◌, length, arith, pos, pos_part,
}
use service_control_client_c.Status.{ok, invalid_argument}
use service_control_client_c.Distribution.{
  Distribution, given_bounds, add_to, explicit_index, increment, update_general_statistics,
  upper_bound, explicit, not_set, add_sample, init_explicit, merge,
}
use service_control_client_c.Distribution.Merging.{IsCounted, merge_counts}
use service_control_client_c.Distribution.Samples.{
  add_sample_counts, add_sample_explicit, init_explicit_without_bounds,
}
use service_control_client_c.Tests.{whole}

-- Three buckets, with two samples in the first and one in the last.
abbrev three : Distribution ℕ
three = record {
  count = pos 3;
  mean = 9;
  minimum = 4;
  maximum = 20;
  sum_of_squared_deviation = 0;
  buckets = explicit (5 ∷ 10 ∷ []);
  bucket_counts = pos 2 ∷ pos 0 ∷ pos 1 ∷ [];
}

abbrev four : Distribution ℕ
four = record three { count = pos 4; mean = 34; bucket_counts = pos 2 ∷ pos 1 ∷ pos 1 ∷ [] }

abbrev untyped : Distribution ℕ
untyped = record three { buckets = not_set }

three-IsCounted : IsCounted three
three-IsCounted = record {
  nonneg = refl;
  buckets_nonneg = (refl, (refl, (refl, tt)));
  counted = refl;
}

add_sample_run : add_sample whole 7 three ≡ some (ok, four)
unfolding add_sample add_to explicit_index increment update_general_statistics upper_bound int64
    ◌+ℤ◌
add_sample_run = refl

add_sample_counts_example :
    (ok ≡ ok)
      × (IsCounted four
          × (pos_part four.count ≡ pos_part three.count + 1)
          × (length four.bucket_counts ≡ length three.bucket_counts)
          × (four.buckets ≡ three.buckets))
    ⊎ (ok ≡ invalid_argument) × (four ≡ three) × (three.buckets ≡ not_set)
add_sample_counts_example =
    add_sample_counts whole 7 three four ok three-IsCounted (omega arith) add_sample_run

add_sample_explicit_example : (r : Distribution ℕ) × (add_sample whole 7 three ≡ some (ok, r))
add_sample_explicit_example = add_sample_explicit whole 7 5 (10 ∷ []) three refl refl

init_explicit_without_bounds_example :
    ((init_explicit whole [] untyped).0 ≡ ok)
    × (add_sample whole 7 (init_explicit whole [] untyped).1 ≡ none)
unfolding given_bounds
init_explicit_without_bounds_example = init_explicit_without_bounds whole 7 untyped refl

merge_counts_example :
    (merge whole three three ≡ (invalid_argument, three))
    ⊎ ((r : Distribution ℕ) × (merge whole three three ≡ (ok, r))
        × (IsCounted r
            × (pos_part r.count ≡ pos_part three.count + pos_part three.count)
            × (length r.bucket_counts ≡ length three.bucket_counts)))
merge_counts_example = merge_counts whole three three three-IsCounted three-IsCounted (omega arith)
