-- ===== src/Signature/Hashed.antt =====
-- The signatures (src/signature.cc) and the bytes that they are the hash of.
use mathlib.Core.Path.{subst}
use service_control_client_c.Prelude.{
  ◌≡◌, refl, ap, ◌∙◌, sym, List, [], ◌∷◌, ◌++◌, map, append_assoc, append-nil, Text,
}
use service_control_client_c.Proto.{MetricValue, Operation, QuotaOperation}
use service_control_client_c.Md5.{OpenSsl, Md5, digest}
use service_control_client_c.Md5.Fed.{IsFed, new_md5-IsFed, update-IsFed, digest-IsFed}
use service_control_client_c.Signature.{
  delimiter, ordered, label_bytes, hash_labels, name_bytes, metric_names, metric_value_bytes,
  metric_values_bytes, metric_map, metric_map_bytes, report_operation_bytes, check_request_bytes,
  quota_request_bytes,
}
use service_control_client_c.Operation.{find_value}
use service_control_client_c.Signature.Maps.{
  IsAscending, last_values, ordered-sorts, metric_map-sorts,
}
use service_control_client_c.Signature.Generate.{
  update_delimited, update_each_label, update_hash_labels, update_names, update_hash_metric_value,
  update_metric_values, update_metric_map, generate_report_operation_signature,
  generate_report_metric_value_signature, generate_check_request_signature,
  generate_allocate_quota_request_signature,
}

-- `sorted` has the keys of `entries`, ascending, each with its first value.
abbrev pub IsSorted {ℓ} : {A : Type ℓ} → Text → List (Text × A) → List (Text × A) → Type ℓ
IsSorted k entries sorted = IsAscending sorted × (find_value k sorted ≡ find_value k entries)

module _ (ssl : OpenSsl) where
  update_delimited-IsFed :
      (x t : Text) (m : Md5 ssl)
      → IsFed ssl t m
      → IsFed ssl (t ++ (delimiter ++ x)) (update_delimited ssl x m)
  update_delimited-IsFed x t m h =
      subst (λ l. IsFed ssl l (update_delimited ssl x m)) (append_assoc t delimiter x)
        (update-IsFed ssl x (t ++ delimiter) _ (update-IsFed ssl delimiter t m h))

  update_each_label-IsFed :
      (labels : List (Text × Text)) (t : Text) (m : Md5 ssl)
      → IsFed ssl t m
      → IsFed ssl (t ++ label_bytes labels) (update_each_label ssl labels m)
  unfolding label_bytes update_each_label
  update_each_label-IsFed [] t m h = subst (λ l. IsFed ssl l m) (sym (append-nil t)) h
  update_each_label-IsFed ((k, v) ∷ labels) t m h =
      subst (λ l. IsFed ssl l (update_each_label ssl ((k, v) ∷ labels) m)) (simp append_assoc)
        (update_each_label-IsFed labels ((t ++ (delimiter ++ k)) ++ (delimiter ++ v)) _
          (update_delimited-IsFed v _ _ (update_delimited-IsFed k t m h)))

  update_hash_labels-IsFed :
      (labels : List (Text × Text)) (t : Text) (m : Md5 ssl)
      → IsFed ssl t m
      → IsFed ssl (t ++ hash_labels labels) (update_hash_labels ssl labels m)
  unfolding hash_labels update_hash_labels
  update_hash_labels-IsFed labels t m h = update_each_label-IsFed (ordered [] labels) t m h

  update_names-IsFed :
      (names : List (Text × Unit {0})) (t : Text) (m : Md5 ssl)
      → IsFed ssl t m
      → IsFed ssl (t ++ name_bytes names) (update_names ssl names m)
  unfolding name_bytes update_names
  update_names-IsFed [] t m h = subst (λ l. IsFed ssl l m) (sym (append-nil t)) h
  update_names-IsFed ((name, u) ∷ names) t m h =
      subst (λ l. IsFed ssl l (update_names ssl ((name, u) ∷ names) m)) (simp append_assoc)
        (update_names-IsFed names (t ++ (delimiter ++ name)) _ (update_delimited-IsFed name t m h))

  digest-hash : (t u : Text) (m : Md5 ssl) → IsFed ssl t m → t ≡ u → (digest ssl m).1 ≡ ssl.hash u
  digest-hash t u m h e = (digest-IsFed ssl t m h).0 ∙ ap ssl.hash e

  module _ {ℓ} {D : Type ℓ} where
    update_metric_values-IsFed :
        (vs : List (MetricValue D)) (t : Text) (m : Md5 ssl)
        → IsFed ssl t m
        → IsFed ssl (t ++ metric_values_bytes vs) (update_metric_values ssl vs m)
    unfolding metric_values_bytes update_metric_values update_hash_metric_value
    update_metric_values-IsFed [] t m h = subst (λ l. IsFed ssl l m) (sym (append-nil t)) h
    update_metric_values-IsFed (v ∷ vs) t m h =
        subst (λ l. IsFed ssl l (update_metric_values ssl (v ∷ vs) m)) (simp append_assoc)
          (update_metric_values-IsFed vs (t ++ hash_labels v.labels) _
            (update_hash_labels-IsFed v.labels t m h))

    update_metric_map-IsFed :
        (sets : List (Text × List (MetricValue D))) (t : Text) (m : Md5 ssl)
        → IsFed ssl t m
        → IsFed ssl (t ++ metric_map_bytes sets) (update_metric_map ssl sets m)
    unfolding metric_map_bytes update_metric_map
    update_metric_map-IsFed [] t m h = subst (λ l. IsFed ssl l m) (sym (append-nil t)) h
    update_metric_map-IsFed ((name, vs) ∷ sets) t m h =
        subst (λ l. IsFed ssl l (update_metric_map ssl ((name, vs) ∷ sets) m)) (simp append_assoc)
          (update_metric_map-IsFed sets ((t ++ (delimiter ++ name)) ++ metric_values_bytes vs) _
            (update_metric_values-IsFed vs _ _ (update_delimited-IsFed name t m h)))

    -- Each signature is the hash of the bytes that the model of the signature writes out, in
    -- whatever pieces the hasher gets them. The labels and the metrics stand in these bytes by
    -- ascending keys, each key once: a label with the first value that it has, a metric of a check
    -- request with the values of its last set, and the metrics of a quota request by their names.
    -- Of a metric value the labels alone are hashed.
    pub signatures-hash :
        (k : Text) (op : Operation D) (value : MetricValue D) (quota : QuotaOperation D)
        → (generate_report_operation_signature ssl op ≡ ssl.hash (report_operation_bytes op))
          × (generate_report_metric_value_signature ssl value ≡ ssl.hash (metric_value_bytes value))
          × (generate_check_request_signature ssl op ≡ ssl.hash (check_request_bytes op))
          × (generate_allocate_quota_request_signature ssl quota
              ≡ ssl.hash (quota_request_bytes quota))
          × IsSorted k op.labels (ordered [] op.labels)
          × IsSorted k value.labels (ordered [] value.labels)
          × (IsAscending (metric_map [] op.metric_value_sets)
              × (find_value k (metric_map [] op.metric_value_sets)
                  ≡ last_values k op.metric_value_sets))
          × IsSorted k
              (map (λ s. (s.metric_name, tt)) quota.quota_metrics)
              (metric_names quota.quota_metrics)
    unfolding generate_report_operation_signature generate_report_metric_value_signature
        generate_check_request_signature generate_allocate_quota_request_signature
        report_operation_bytes metric_value_bytes check_request_bytes quota_request_bytes
        update_hash_metric_value metric_names
    signatures-hash k op value quota =
        let start = new_md5-IsFed ssl in
        (
          digest-hash _ _ _
              (update_hash_labels-IsFed op.labels _ _ (
                update_delimited-IsFed op.operation_name _ _
                  (update-IsFed ssl op.consumer_id _ _ start)))
              (simp append_assoc),
          digest-hash _ _ _ (update_hash_labels-IsFed value.labels _ _ start) refl,
          digest-hash _ _ _
              (update-IsFed ssl delimiter _ _ (
                update_metric_map-IsFed (metric_map [] op.metric_value_sets) _ _ (
                  update_hash_labels-IsFed op.labels _ _ (
                    update-IsFed ssl delimiter _ _ (
                      update_delimited-IsFed op.consumer_id _ _
                        (update-IsFed ssl op.operation_name _ _ start))))))
              (simp append_assoc),
          digest-hash _ _ _
              (update_names-IsFed (metric_names quota.quota_metrics) _ _ (
                update_delimited-IsFed quota.consumer_id _ _
                  (update-IsFed ssl quota.method_name _ _ start)))
              (simp append_assoc),
          ordered-sorts k op.labels,
          ordered-sorts k value.labels,
          metric_map-sorts k op.metric_value_sets,
          ordered-sorts k (map (λ s. (s.metric_name, tt)) quota.quota_metrics),
        )
