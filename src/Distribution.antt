-- ===== src/Distribution.antt =====
-- Distributions of samples over buckets (utils/distribution_helper.cc). Doubles are those of a
-- `Float`; counts are int64 and wrap. An access to a bucket count out of range, and the read of
-- the first of no bounds, are undefined in the source: the result none.
pub mod Samples
pub mod Merging
use service_control_client_c.Float.{Float}
use service_control_client_c.Prelude.{
  ℕ, suc, zero, ◌+◌, ◌-◌, Bool, true, false, not, ◌&&◌, ◌||◌, Option, none, some, List, [], ◌∷◌,
  ◌++◌, length, get_elem?, set, replicate, nat_beq, ltb, if◌then◌else◌, ℤ, pos, negsuc, pos_part,
  ◌+ℤ◌, leb_ℤ, ltb_ℤ, eqb_ℤ, int64, int32,
}
use service_control_client_c.Status.{Status, ok, invalid_argument}

-- The oneof `bucket_option`.
pub data Buckets {ℓ} (D : Type ℓ) : Type ℓ where
  not_set : Buckets D
  -- number of finite buckets, width, offset
  linear : ℤ → D → D → Buckets D
  -- number of finite buckets, growth factor, scale
  exponential : ℤ → D → D → Buckets D
  -- bounds
  explicit : List D → Buckets D

pub record Distribution {ℓ} (D : Type ℓ) : Type ℓ where
  pub count : ℤ
  pub mean : D
  pub minimum : D
  pub maximum : D
  pub sum_of_squared_deviation : D
  pub buckets : Buckets D
  pub bucket_counts : List ℤ

-- `RepeatedField::Resize`: cut off, or filled up with zeros.
unfoldable pub resize : ℕ → List ℤ → List ℤ
resize zero ns = []
resize (suc k) [] = pos 0 ∷ resize k []
resize (suc k) (n ∷ ns) = n ∷ resize k ns

-- The bounds that `mutable_explicit_buckets` finds; those of another kind are given up.
unfoldable pub given_bounds {ℓ} : {D : Type ℓ} → Buckets D → List D
given_bounds (explicit bounds) = bounds
given_bounds _ = []

-- The sums of the counts, bucket by bucket: the loop at the end of `Merge`.
unfoldable pub add_counts : List ℤ → List ℤ → List ℤ
add_counts [] ys = ys
add_counts (x ∷ xs) [] = []
add_counts (x ∷ xs) (y ∷ ys) = int64 (y +ℤ x) ∷ add_counts xs ys

-- `set_bucket_counts(i, bucket_counts(i) + 1)`
unfoldable pub increment {ℓ} : {D : Type ℓ} → ℤ → Distribution D → Option (Distribution D)
increment (negsuc n) d = none
increment (pos i) d = elim (get_elem? d.bucket_counts i) [
  | none ↦ none
  | some n ↦ some (record d { bucket_counts = set d.bucket_counts i (int64 (n +ℤ pos 1)) })
]

abbrev pub succeed {ℓ} : {A : Type ℓ} → Option A → Option (Status × A)
succeed none = none
succeed (some a) = some (ok, a)

module _ {ℓ} {D : Type ℓ} (fl : Float D) where
  open fl use {of_int, add, sub, mul, div, log2, abs, lt, le, is_nan, to_int, epsilon}

  -- `std::min` and `std::max`
  abbrev min_of : D → D → D
  min_of a b = if lt b a then b else a

  abbrev max_of : D → D → D
  max_of a b = if lt a b then b else a

  -- `UpdateGeneralStatictics`
  unfoldable pub update_general_statistics : D → Distribution D → Distribution D
  update_general_statistics value d =
      if eqb_ℤ d.count (pos 0)
      then record d {
        count = pos 1;
        maximum = value;
        minimum = value;
        mean = value;
        sum_of_squared_deviation = of_int (pos 0);
      }
      else (let new_mean =
            div (add (mul (of_int d.count) d.mean) value) (of_int (int64 (d.count +ℤ pos 1))) in
          record d {
            sum_of_squared_deviation =
                add d.sum_of_squared_deviation (mul (sub value d.mean) (sub value new_mean));
            count = int64 (d.count +ℤ pos 1);
            minimum = min_of value d.minimum;
            maximum = max_of value d.maximum;
            mean = new_mean;
          })

  -- `IsCloseEnough`
  unfoldable pub is_close_enough : D → D → Bool
  is_close_enough x y = le (abs (sub x y)) (mul epsilon (abs x))

  -- The comparison of explicit bounds, whose numbers agree.
  unfoldable pub bounds_close : List D → List D → Bool
  bounds_close [] ys = true
  bounds_close (x ∷ xs) [] = true
  bounds_close (x ∷ xs) (y ∷ ys) = is_close_enough x y && bounds_close xs ys

  -- `BucketsApproximatelyEqual`
  unfoldable pub buckets_approximately_equal : Buckets D → Buckets D → Bool
  buckets_approximately_equal (linear n w o) (linear n' w' o') =
      eqb_ℤ n n' && (is_close_enough w w' && is_close_enough o o')
  buckets_approximately_equal (exponential n g s) (exponential n' g' s') =
      eqb_ℤ n n' && (is_close_enough g g' && is_close_enough s s')
  buckets_approximately_equal (explicit xs) (explicit ys) =
      nat_beq (length xs) (length ys) && bounds_close xs ys
  buckets_approximately_equal _ _ = false

  -- The bucket of a value, in the three kinds of distributions.
  unfoldable pub exponential_index : ℤ → D → D → D → ℤ
  exponential_index n growth scale value =
      if le scale value
      then (let i = int32 (pos 1 +ℤ to_int (div (log2 (div value scale)) (log2 growth))) in
          if ltb_ℤ (int32 (n +ℤ pos 1)) i then int32 (n +ℤ pos 1) else i)
      else pos 0

  unfoldable pub linear_index : ℤ → D → D → D → ℤ
  linear_index n width offset value =
      if lt value offset || is_nan value
      then pos 0
      else if le (add offset (mul (of_int n) width)) value
      then int32 (n +ℤ pos 1)
      else int32 (pos 1 +ℤ to_int (div (sub value offset) width))

  -- `std::upper_bound`: the index of the first bound that is greater.
  unfoldable pub upper_bound : List D → D → ℕ
  upper_bound [] value = 0
  upper_bound (b ∷ bs) value = if lt value b then 0 else suc (upper_bound bs value)

  unfoldable pub explicit_index : List D → D → Option ℤ
  explicit_index [] value = none
  explicit_index (b ∷ bs) value =
      some (if le b value then pos (upper_bound (b ∷ bs) value) else pos 0)

  -- The switch of `AddSample` over the kind of the buckets.
  unfoldable pub add_to : Buckets D → D → Distribution D → Option (Status × Distribution D)
  add_to not_set value d = some (invalid_argument, d)
  add_to (linear n width offset) value d =
      succeed (increment (linear_index n width offset value) (update_general_statistics value d))
  add_to (exponential n growth scale) value d =
      succeed
        (increment (exponential_index n growth scale value) (update_general_statistics value d))
  add_to (explicit bounds) value d = elim (explicit_index bounds value) [
    | none ↦ none
    | some i ↦ succeed (increment i (update_general_statistics value d))
  ]

  -- `AddSample`
  unfoldable pub add_sample : D → Distribution D → Option (Status × Distribution D)
  add_sample value d = add_to d.buckets value d

  -- `InitExponential`, `InitLinear`; `Resize` of the counts of a new distribution.
  unfoldable pub init_exponential : ℤ → D → D → Distribution D → Status × Distribution D
  init_exponential n growth scale d =
      if leb_ℤ n (pos 0)
      then (invalid_argument, d)
      else if le growth (of_int (pos 1))
      then (invalid_argument, d)
      else if le scale (of_int (pos 0))
      then (invalid_argument, d)
      else (
        ok,
        record d {
          buckets = exponential n growth scale;
          bucket_counts = resize (pos_part n + 2) d.bucket_counts;
        },
      )

  unfoldable pub init_linear : ℤ → D → D → Distribution D → Status × Distribution D
  init_linear n width offset d =
      if leb_ℤ n (pos 0)
      then (invalid_argument, d)
      else if le width (of_int (pos 0))
      then (invalid_argument, d)
      else (
        ok,
        record d {
          buckets = linear n width offset;
          bucket_counts = resize (pos_part n + 2) d.bucket_counts;
        },
      )

  -- `std::is_sorted`, and no two adjacent elements equal as doubles.
  unfoldable pub is_sorted : List D → Bool
  is_sorted [] = true
  is_sorted (x ∷ []) = true
  is_sorted (x ∷ y ∷ xs) = not (lt y x) && is_sorted (y ∷ xs)

  unfoldable pub has_adjacent : List D → Bool
  has_adjacent [] = false
  has_adjacent (x ∷ []) = false
  has_adjacent (x ∷ y ∷ xs) = le x y && le y x || has_adjacent (y ∷ xs)

  unfoldable pub init_explicit : List D → Distribution D → Status × Distribution D
  init_explicit bounds d =
      if not (is_sorted bounds)
      then (invalid_argument, d)
      else if has_adjacent bounds
      then (invalid_argument, d)
      else (
        ok,
        record d {
          buckets = explicit (given_bounds d.buckets ++ bounds);
          bucket_counts = resize (length bounds + 1) d.bucket_counts;
        },
      )

  -- The statistics of two distributions that both have samples.
  unfoldable pub merge_statistics : Distribution D → Distribution D → Distribution D
  merge_statistics from to =
      let count = int64 (to.count +ℤ from.count) in
      let mean =
        div (add (mul (of_int to.count) to.mean) (mul (of_int from.count) from.mean))
          (of_int count) in
      record to {
        count = count;
        minimum = min_of from.minimum to.minimum;
        maximum = max_of from.maximum to.maximum;
        mean = mean;
        sum_of_squared_deviation =
            add
              (add (add to.sum_of_squared_deviation from.sum_of_squared_deviation)
                (mul (mul (of_int to.count) (sub mean to.mean)) (sub mean to.mean)))
              (mul (mul (of_int from.count) (sub mean from.mean)) (sub mean from.mean));
        bucket_counts = add_counts from.bucket_counts to.bucket_counts;
      }

  -- `Merge`
  unfoldable pub merge : Distribution D → Distribution D → Status × Distribution D
  merge from to =
      if not (buckets_approximately_equal from.buckets to.buckets)
      then (invalid_argument, to)
      else if not (nat_beq (length from.bucket_counts) (length to.bucket_counts))
      then (invalid_argument, to)
      else if leb_ℤ from.count (pos 0)
      then (ok, to)
      else if leb_ℤ to.count (pos 0)
      then (ok, from)
      else (ok, merge_statistics from to)
