-- ===== src/Operation/Merged.antt =====
-- What MergeMetricValue and the loops around it (src/operation_aggregator.cc) make of the values of
-- a metric, described apart from the code.
use service_control_client_c.Float.{Float}
use service_control_client_c.Prelude.{
  ℕ, true, false, Option, none, some, List, [], ◌∷◌, ◌++◌, Text, text_beq, ◌≡◌, refl, ◌⊎◌, ◌+ℤ◌,
  int64, nat_beq, Bool-cases, inl, inr, arith, if◌then◌else◌,
}
use service_control_client_c.Distribution
use service_control_client_c.Proto.{
  MetricKind, unspecified, gauge, delta, cumulative, MetricData, unset, bool_value, int64_value,
  double_value, string_value, money_value, distribution_value, MetricValue, MetricValueSet,
  Operation,
}
use service_control_client_c.Operation.{
  timestamp_before, time_or_zero, find_value, or_default, Kinds, kind_of, same_case, merge_content,
  merge_delta_metric_value, merge_cumulative_or_gauge_metric_value, merge_metric_value,
  value_signature, Aggregator, new_aggregator, merge_operation,
}
use service_control_client_c.Operation.Windows.{
  IsEarliest, IsLatest, start-IsEarliest, end-IsLatest,
}
use service_control_client_c.Operation.Views.{
  view, combine, combine_all, combine_sets, merge_operation-view,
}

-- The kind that the descriptors give a metric, if any.
abbrev pub declared : Kinds → Text → Option MetricKind
declared none n = none
declared (some kinds) n = find_value n kinds

module _ {ℓ} {D : Type ℓ} (fl : Float D) where
  -- The field of the oneof that is set.
  abbrev pub tag : MetricData D → ℕ
  tag unset = 0
  tag (bool_value _) = 1
  tag (int64_value _) = 2
  tag (double_value _) = 3
  tag (string_value _) = 4
  tag (money_value _) = 5
  tag (distribution_value _) = 6

  -- The sum of two contents of one kind: int64 values wrap around; the others stay.
  abbrev pub IsSum : MetricData D → MetricData D → MetricData D → Type ℓ
  IsSum (int64_value f) (int64_value t) r = r ≡ int64_value (int64 (t +ℤ f))
  IsSum (double_value f) (double_value t) r = r ≡ double_value (fl.add t f)
  IsSum (distribution_value f) (distribution_value t) r =
      r ≡ distribution_value (Distribution.merge fl f t).1
  IsSum _ t r = r ≡ t

  same_case-tag : (t f : MetricData D) → same_case fl t f ≡ nat_beq (tag f) (tag t)
  unfolding same_case
  same_case-tag t f = ground arith

  merge_content-IsSum : (f t : MetricData D) → IsSum f t (merge_content fl f t)
  unfolding merge_content
  merge_content-IsSum f t = ground arith

  -- A DELTA value `v` is added to `x`: the contents are summed over the time that spans both, and
  -- the labels stay; a value of another kind of content changes nothing.
  abbrev pub IsDeltaMerge : MetricValue D → MetricValue D → MetricValue D → Type ℓ
  IsDeltaMerge v x y =
      ((nat_beq (tag v.content) (tag x.content) ≡ true)
        × IsSum v.content x.content y.content
        × IsEarliest v.start_time x.start_time y.start_time
        × IsLatest v.end_time x.end_time y.end_time
        × (y.labels ≡ x.labels))
      ⊎ ((nat_beq (tag v.content) (tag x.content) ≡ false) × (y ≡ x))

  -- Of two values of another kind the one that ends later stays, and the newer one of two that end
  -- at one time.
  abbrev pub IsLaterValue : MetricValue D → MetricValue D → MetricValue D → Type ℓ
  IsLaterValue v x y =
      ((timestamp_before (time_or_zero v.end_time) (time_or_zero x.end_time) ≡ true) × (y ≡ x))
      ⊎ ((timestamp_before (time_or_zero v.end_time) (time_or_zero x.end_time) ≡ false) × (y ≡ v))

  -- `y` is `x` merged with `v`; a metric without a declared kind is DELTA.
  abbrev pub IsMerge : Option MetricKind → MetricValue D → MetricValue D → MetricValue D → Type ℓ
  IsMerge none v x y = IsDeltaMerge v x y
  IsMerge (some delta) v x y = IsDeltaMerge v x y
  IsMerge (some _) v x y = IsLaterValue v x y

  delta-IsDeltaMerge : (v x : MetricValue D) → IsDeltaMerge v x (merge_delta_metric_value fl v x)
  unfolding merge_delta_metric_value
  delta-IsDeltaMerge v x = elim (Bool-cases (nat_beq (tag v.content) (tag x.content))) [
    | inl e ↦
        rw (same_case-tag x.content v.content, e)
          (inl (
            refl,
            merge_content-IsSum v.content x.content,
            start-IsEarliest v.start_time x.start_time,
            end-IsLatest v.end_time x.end_time,
            refl,
          ))
    | inr e ↦ rw (same_case-tag x.content v.content, e) (inr (refl, refl))
  ]

  later-IsLaterValue :
      (v x : MetricValue D) → IsLaterValue v x (merge_cumulative_or_gauge_metric_value fl v x)
  unfolding merge_cumulative_or_gauge_metric_value
  later-IsLaterValue v x =
      elim (Bool-cases (timestamp_before (time_or_zero v.end_time) (time_or_zero x.end_time))) [
        | inl e ↦ inl (e, rw e refl)
        | inr e ↦ inr (e, rw e refl)
      ]

  merge_metric_value-IsMerge :
      (o : Option MetricKind) (v x : MetricValue D)
      → IsMerge o v x (merge_metric_value fl (or_default delta o) v x)
  unfolding merge_metric_value
  merge_metric_value-IsMerge none v x = delta-IsDeltaMerge v x
  merge_metric_value-IsMerge (some delta) v x = delta-IsDeltaMerge v x
  merge_metric_value-IsMerge (some gauge) v x = later-IsLaterValue v x
  merge_metric_value-IsMerge (some cumulative) v x = later-IsLaterValue v x
  merge_metric_value-IsMerge (some unspecified) v x = later-IsLaterValue v x

  -- `new` is what is there after values that meet `old` in order: the first value where there is
  -- none, and then one merge after the other.
  abbrev pub IsMerged :
      Option MetricKind
      → List (MetricValue D)
      → Option (MetricValue D)
      → Option (MetricValue D)
      → Type ℓ
  IsMerged o [] old new = new ≡ old
  IsMerged o (v ∷ vs) none new = IsMerged o vs (some v) new
  IsMerged o (v ∷ vs) (some x) new =
      (y : MetricValue D) × IsMerge o v x y × IsMerged o vs (some y) new

  module _ (md5 : Text → Text) (kinds : Kinds) where
    -- The values of one signature, and of one metric and one signature, in order.
    abbrev pub met_values : Text → List (MetricValue D) → List (MetricValue D)
    met_values s [] = []
    met_values s (v ∷ vs) =
        if text_beq (value_signature fl md5 kinds v) s then v ∷ met_values s vs else met_values s vs

    abbrev pub met : Text → Text → List (MetricValueSet D) → List (MetricValue D)
    met n s [] = []
    met n s (x ∷ sets) =
        (if text_beq x.metric_name n then met_values s x.metric_values else []) ++ met n s sets

    kind_of-declared : (ks : Kinds) (n : Text) → kind_of ks n ≡ or_default delta (declared ks n)
    unfolding kind_of
    kind_of-declared none n = refl
    kind_of-declared (some m) n = refl

    one_merge :
        (n : Text) (v : MetricValue D) (ws : List (MetricValue D))
        (old new : Option (MetricValue D))
        → IsMerged (declared kinds n) ws (some (combine fl md5 kinds (kind_of kinds n) old v)) new
        → IsMerged (declared kinds n) (v ∷ ws) old new
    unfolding combine
    one_merge n v ws none new h = h
    one_merge n v ws (some x) new h = (
      merge_metric_value fl (kind_of kinds n) v x,
      rw (kind_of-declared kinds n) (merge_metric_value-IsMerge (declared kinds n) v x),
      h,
    )

    values-IsMerged :
        (n s : Text) (vs ws : List (MetricValue D)) (old new : Option (MetricValue D))
        → IsMerged (declared kinds n) ws (combine_all fl md5 kinds (kind_of kinds n) s vs old) new
        → IsMerged (declared kinds n) (met_values s vs ++ ws) old new
    unfolding combine_all
    values-IsMerged n s [] ws old new h = h
    values-IsMerged n s (v ∷ vs) ws old new h =
        elim (Bool-cases (text_beq (value_signature fl md5 kinds v) s)) [
          | inl e ↦ rw e (
              one_merge n v (met_values s vs ++ ws) old new
                (values-IsMerged n s vs ws _ new (rw e at h)))
          | inr e ↦ rw e (values-IsMerged n s vs ws old new (rw e at h))
        ]

    sets-IsMerged :
        (n s : Text) (sets : List (MetricValueSet D)) (old : Option (MetricValue D))
        → IsMerged (declared kinds n) (met n s sets) old (combine_sets fl md5 kinds n s sets old)
    unfolding combine_sets
    sets-IsMerged n s [] old = refl
    sets-IsMerged n s (x ∷ sets) old = elim (Bool-cases (text_beq x.metric_name n)) [
      | inl e ↦ rw e (
          values-IsMerged n s x.metric_values (met n s sets) old _ (
            sets-IsMerged n s sets
              (combine_all fl md5 kinds (kind_of kinds n) s x.metric_values old)))
      | inr e ↦ rw e (sets-IsMerged n s sets old)
    ]

    -- Merging an operation merges, under a metric's name and a signature, the operation's values of
    -- that metric and signature into what is there, in order, and appends its log entries; a new
    -- aggregator holds what the operation's own values make, and its log entries. Values of a metric
    -- that is DELTA, or has no declared kind, are added where their contents are of one kind (int64
    -- values wrap around; of contents other than int64, double and distribution the older one
    -- stays), over the time that spans both; of other metrics the value that ends later stays.
    pub merge_operation-IsMerged :
        (n s : Text) (op : Operation D) (a : Aggregator fl)
        → let r = merge_operation fl md5 kinds op a in
          let r₀ = new_aggregator fl md5 kinds op in
          IsMerged
            (declared kinds n)
            (met n s op.metric_value_sets)
            (view fl md5 kinds n s a.metric_value_sets)
            (view fl md5 kinds n s r.metric_value_sets)
          × ((r.operation).log_entries ≡ (a.operation).log_entries ++ op.log_entries)
          × IsMerged
              (declared kinds n)
              (met n s op.metric_value_sets)
              none
              (view fl md5 kinds n s r₀.metric_value_sets)
          × ((r₀.operation).log_entries ≡ op.log_entries)
    merge_operation-IsMerged n s op a =
        let (m, l, m₀, l₀) = merge_operation-view fl md5 kinds n s op a in
        (
          rw m (sets-IsMerged n s op.metric_value_sets (view fl md5 kinds n s a.metric_value_sets)),
          l,
          rw m₀ (sets-IsMerged n s op.metric_value_sets none),
          l₀,
        )
