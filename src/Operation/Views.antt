-- ===== src/Operation/Views.antt =====
-- The metric values of an aggregated operation, seen as a map from a metric's name and a
-- signature to one value (MergeMetricValueSets of src/operation_aggregator.cc).
use service_control_client_c.Float.{Float}
use service_control_client_c.Prelude.{
  Option, none, some, List, [], ◌∷◌, ◌++◌, Text, text_beq, text_beq_iff, ◌≡◌, refl, ◌∙◌, ap, arith,
  Option-cases, Bool-cases, inl, inr, if◌then◌else◌,
}
use service_control_client_c.Proto.{MetricKind, MetricValue, MetricValueSet, Operation}
use service_control_client_c.Operation.{
  find_value, put_value, or_default, Kinds, kind_of, merge_metric_value, Aggregator,
  value_signature, merge_values, merge_metric_value_sets, new_aggregator, merge_operation,
}

pub find-put_value {ℓ} :
    {A : Type ℓ} (j k : Text) (a : A) (m : List (Text × A))
    → find_value j (put_value k a m) ≡ (if text_beq k j then some a else find_value j m)
unfolding find_value put_value
find-put_value j k a [] = refl
find-put_value j k a ((i, b) ∷ m) =
    ground (arith, find-put_value j k a m, text_beq_iff i k, text_beq_iff i j, text_beq_iff k j)

module _ {ℓ} {D : Type ℓ} (fl : Float D) (md5 : Text → Text) (kinds : Kinds) where
  -- A value that meets what is there: the first one is kept, a later one is merged.
  unfoldable pub combine : MetricKind → Option (MetricValue D) → MetricValue D → MetricValue D
  combine kind none v = v
  combine kind (some existing) v = merge_metric_value fl kind v existing

  -- The values of one signature, met in order.
  unfoldable pub combine_all :
      MetricKind → Text → List (MetricValue D) → Option (MetricValue D) → Option (MetricValue D)
  combine_all kind s [] old = old
  combine_all kind s (v ∷ vs) old =
      combine_all kind s vs
        (if text_beq (value_signature fl md5 kinds v) s then some (combine kind old v) else old)

  -- The values of one metric and one signature, met in order.
  unfoldable pub combine_sets :
      Text → Text → List (MetricValueSet D) → Option (MetricValue D) → Option (MetricValue D)
  combine_sets n s [] old = old
  combine_sets n s (x ∷ sets) old = combine_sets n s sets (
      if text_beq x.metric_name n then combine_all (kind_of kinds n) s x.metric_values old else old)

  -- The value that the nested maps hold under a metric's name and a signature.
  unfoldable pub view :
      Text → Text → List (Text × List (Text × MetricValue D)) → Option (MetricValue D)
  view n s m = find_value s (or_default [] (find_value n m))

  -- What the loop stores for a value, and what it then finds under a signature.
  merged : MetricKind → MetricValue D → List (Text × MetricValue D) → MetricValue D
  merged kind v m = elim (find_value (value_signature fl md5 kinds v) m) [
    | none ↦ v
    | some existing ↦ merge_metric_value fl kind v existing
  ]

  merged-combine :
      (kind : MetricKind) (v : MetricValue D) (m : List (Text × MetricValue D))
      → merged kind v m ≡ combine kind (find_value (value_signature fl md5 kinds v) m) v
  unfolding merged combine
  merged-combine kind v m = elim (Option-cases (find_value (value_signature fl md5 kinds v) m)) [
    | inl e ↦ rw (e, merged)
    | inr (x, e) ↦ rw (e, merged)
  ]

  one_value :
      (kind : MetricKind) (s : Text) (v : MetricValue D) (m : List (Text × MetricValue D))
      → find_value s (put_value (value_signature fl md5 kinds v) (merged kind v m) m) ≡ (
          if text_beq (value_signature fl md5 kinds v) s
          then some (combine kind (find_value s m) v)
          else find_value s m)
  one_value kind s v m =
      let k = value_signature fl md5 kinds v in
      find-put_value s k (merged kind v m) m ∙ elim (Bool-cases (text_beq k s)) [
        | inl e ↦ rw e (rw (merged-combine kind v m, (text_beq_iff k s).0 e))
        | inr e ↦ rw e
      ]

  find-merge_values :
      (kind : MetricKind) (s : Text) (vs : List (MetricValue D)) (m : List (Text × MetricValue D))
      → find_value s (merge_values fl md5 kinds kind vs m) ≡ combine_all kind s vs (find_value s m)
  unfolding merge_values combine_all merged
  find-merge_values kind s [] m = refl
  find-merge_values kind s (v ∷ vs) m =
      let k = value_signature fl md5 kinds v in
      find-merge_values kind s vs (put_value k (merged kind v m) m)
      ∙ ap (combine_all kind s vs) (one_value kind s v m)

  one_set :
      (n s : Text) (x : MetricValueSet D) (m : List (Text × List (Text × MetricValue D)))
      → view n s (
          put_value x.metric_name
            (merge_values fl md5 kinds
              (kind_of kinds x.metric_name)
              x.metric_values
              (or_default [] (find_value x.metric_name m)))
            m)
        ≡ (if text_beq x.metric_name n
            then combine_all (kind_of kinds n) s x.metric_values (view n s m)
            else view n s m)
  unfolding view
  one_set n s x m = elim (Bool-cases (text_beq x.metric_name n)) [
    | inl e ↦
        let q = (text_beq_iff x.metric_name n).0 e in
        rw (find-put_value n x.metric_name, e)
          (find-merge_values (kind_of kinds x.metric_name) s x.metric_values _
            ∙ ap
                (λ k.
                  combine_all (kind_of kinds k) s x.metric_values
                    (find_value s (or_default [] (find_value k m))))
                q)
    | inr e ↦ rw (find-put_value n x.metric_name, e)
  ]

  -- Merging sets changes the value under a name and a signature exactly as that name's values of
  -- that signature do, one after the other.
  pub view-merge_metric_value_sets :
      (n s : Text) (sets : List (MetricValueSet D)) (m : List (Text × List (Text × MetricValue D)))
      → view n s (merge_metric_value_sets fl md5 kinds sets m) ≡ combine_sets n s sets (view n s m)
  unfolding merge_metric_value_sets combine_sets
  view-merge_metric_value_sets n s [] m = refl
  view-merge_metric_value_sets n s (x ∷ sets) m =
      view-merge_metric_value_sets n s sets _ ∙ ap (combine_sets n s sets) (one_set n s x m)

  empty_view : (n s : Text) → view n s [] ≡ none
  unfolding view find_value
  empty_view n s = refl

  -- Merging an operation appends its log entries, and changes each metric value exactly as the
  -- operation's values of that metric and signature do, in order; a new aggregator holds what
  -- the operation's own values make, and its log entries.
  pub merge_operation-view :
      (n s : Text) (op : Operation D) (a : Aggregator fl)
      → let r = merge_operation fl md5 kinds op a in
        let r₀ = new_aggregator fl md5 kinds op in
        (view n s r.metric_value_sets
          ≡ combine_sets n s op.metric_value_sets (view n s a.metric_value_sets))
        × ((r.operation).log_entries ≡ (a.operation).log_entries ++ op.log_entries)
        × (view n s r₀.metric_value_sets ≡ combine_sets n s op.metric_value_sets none)
        × ((r₀.operation).log_entries ≡ op.log_entries)
  unfolding merge_operation new_aggregator
  merge_operation-view n s op a = (
    view-merge_metric_value_sets n s op.metric_value_sets a.metric_value_sets,
    refl,
    view-merge_metric_value_sets n s op.metric_value_sets []
        ∙ ap (combine_sets n s op.metric_value_sets) (empty_view n s),
    refl,
  )
