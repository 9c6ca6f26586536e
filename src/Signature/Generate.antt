-- ===== src/Signature/Generate.antt =====
-- The functions of src/signature.cc, which feed a hasher (utils/md5.h) piece by piece.
use service_control_client_c.Prelude.{List, [], ◌∷◌, Text}
use service_control_client_c.Proto.{MetricValue, Operation, QuotaOperation}
use service_control_client_c.Md5.{OpenSsl, Md5, new_md5, update, digest}
use service_control_client_c.Signature.{delimiter, ordered, metric_names, metric_map}

module _ (ssl : OpenSsl) where
  -- `hasher.Update(kDelimiter, kDelimiterLength)` and `hasher.Update(str)`
  abbrev pub update_delimited : Text → Md5 ssl → Md5 ssl
  update_delimited str m = update ssl str (update ssl delimiter m)

  -- The loop of `UpdateHashLabels`, and the function.
  unfoldable pub update_each_label : List (Text × Text) → Md5 ssl → Md5 ssl
  update_each_label [] m = m
  update_each_label ((k, v) ∷ labels) m =
      update_each_label labels (update_delimited v (update_delimited k m))

  unfoldable pub update_hash_labels : List (Text × Text) → Md5 ssl → Md5 ssl
  update_hash_labels labels m = update_each_label (ordered [] labels) m

  -- The loop of `GenerateAllocateQuotaRequestSignature`
  unfoldable pub update_names : List (Text × Unit {0}) → Md5 ssl → Md5 ssl
  update_names [] m = m
  update_names ((name, _) ∷ names) m = update_names names (update_delimited name m)

  module _ {ℓ} {D : Type ℓ} where
    unfoldable pub update_hash_metric_value : MetricValue D → Md5 ssl → Md5 ssl
    update_hash_metric_value v m = update_hash_labels v.labels m

    -- The loops of `GenerateCheckRequestSignature`
    unfoldable pub update_metric_values : List (MetricValue D) → Md5 ssl → Md5 ssl
    update_metric_values [] m = m
    update_metric_values (v ∷ vs) m = update_metric_values vs (update_hash_metric_value v m)

    unfoldable pub update_metric_map : List (Text × List (MetricValue D)) → Md5 ssl → Md5 ssl
    update_metric_map [] m = m
    update_metric_map ((name, vs) ∷ sets) m =
        update_metric_map sets (update_metric_values vs (update_delimited name m))

    unfoldable pub generate_report_operation_signature : Operation D → Text
    generate_report_operation_signature op =
        (digest ssl (
          update_hash_labels op.labels
            (update_delimited op.operation_name (update ssl op.consumer_id (new_md5 ssl))))).1

    unfoldable pub generate_report_metric_value_signature : MetricValue D → Text
    generate_report_metric_value_signature v =
        (digest ssl (update_hash_metric_value v (new_md5 ssl))).1

    -- for the operation of the request
    unfoldable pub generate_check_request_signature : Operation D → Text
    generate_check_request_signature op =
        (digest ssl (
          update ssl delimiter (
            update_metric_map (metric_map [] op.metric_value_sets) (
              update_hash_labels op.labels (
                update ssl delimiter (
                  update_delimited op.consumer_id
                    (update ssl op.operation_name (new_md5 ssl)))))))).1

    unfoldable pub generate_allocate_quota_request_signature : QuotaOperation D → Text
    generate_allocate_quota_request_signature op =
        (digest ssl (
          update_names (metric_names op.quota_metrics)
            (update_delimited op.consumer_id (update ssl op.method_name (new_md5 ssl))))).1
