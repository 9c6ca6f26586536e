-- ===== src/Signature.antt =====
-- Signatures of operations and requests (src/signature.cc). The bytes that are fed to the hasher
-- are written out; the hash itself (utils/md5.cc calls OpenSSL) is a parameter.
pub mod Order
pub mod Generate
pub mod Maps
pub mod Hashed
use service_control_client_c.Prelude.{
  Bool, true, false, ◌||◌, ◌&&◌, List, [], ◌∷◌, ◌++◌, map, Text, text_beq, nat_beq, ltb,
  if◌then◌else◌,
}
use service_control_client_c.Proto.{MetricValue, MetricValueSet, Operation, QuotaOperation}

-- `std::string` in the order of its bytes
unfoldable pub text_ltb : Text → Text → Bool
text_ltb [] [] = false
text_ltb [] (y ∷ ys) = true
text_ltb (x ∷ xs) [] = false
text_ltb (x ∷ xs) (y ∷ ys) = ltb x y || nat_beq x y && text_ltb xs ys

-- An insertion into a `std::map`: `overwrite` tells `map[k] = v` from `map.insert`.
unfoldable pub map_insert {ℓ} : {A : Type ℓ} → Bool → Text → A → List (Text × A) → List (Text × A)
map_insert overwrite k v [] = (k, v) ∷ []
map_insert overwrite k v (e ∷ m) =
    if text_ltb k e.0
    then (k, v) ∷ e ∷ m
    else if text_beq k e.0
    then (k, if overwrite then v else e.1) ∷ m
    else e ∷ map_insert overwrite k v m

-- The `std::map` of the labels, from the first to the last.
unfoldable pub ordered {ℓ} : {A : Type ℓ} → List (Text × A) → List (Text × A) → List (Text × A)
ordered m [] = m
ordered m ((k, v) ∷ labels) = ordered (map_insert false k v m) labels

abbrev pub delimiter : Text
delimiter = 0 ∷ []

-- The bytes of labels in order: the loop of `UpdateHashLabels`.
unfoldable pub label_bytes : List (Text × Text) → Text
label_bytes [] = []
label_bytes ((k, v) ∷ labels) = delimiter ++ (k ++ (delimiter ++ (v ++ label_bytes labels)))

-- `UpdateHashLabels`
unfoldable pub hash_labels : List (Text × Text) → Text
hash_labels labels = label_bytes (ordered [] labels)

-- The bytes of metric names in order: the loop of `GenerateAllocateQuotaRequestSignature`.
unfoldable pub name_bytes : List (Text × Unit {0}) → Text
name_bytes [] = []
name_bytes ((name, _) ∷ names) = delimiter ++ (name ++ name_bytes names)

module _ {ℓ} {D : Type ℓ} where
  -- The input of the hash in `GenerateReportOperationSignature`
  unfoldable pub report_operation_bytes : Operation D → Text
  report_operation_bytes op =
      op.consumer_id ++ (delimiter ++ (op.operation_name ++ hash_labels op.labels))

  -- ... and in `GenerateReportMetricValueSignature`
  unfoldable pub metric_value_bytes : MetricValue D → Text
  metric_value_bytes v = hash_labels v.labels

  unfoldable pub metric_values_bytes : List (MetricValue D) → Text
  metric_values_bytes [] = []
  metric_values_bytes (v ∷ vs) = hash_labels v.labels ++ metric_values_bytes vs

  -- The map of metric names to their values; a later set of one name replaces an earlier one.
  unfoldable pub metric_map :
      List (Text × List (MetricValue D))
      → List (MetricValueSet D)
      → List (Text × List (MetricValue D))
  metric_map m [] = m
  metric_map m (s ∷ sets) = metric_map (map_insert true s.metric_name s.metric_values m) sets

  unfoldable pub metric_map_bytes : List (Text × List (MetricValue D)) → Text
  metric_map_bytes [] = []
  metric_map_bytes ((name, vs) ∷ m) =
      delimiter ++ (name ++ (metric_values_bytes vs ++ metric_map_bytes m))

  -- ... and in `GenerateCheckRequestSignature`, for the operation of the request
  unfoldable pub check_request_bytes : Operation D → Text
  check_request_bytes op =
      op.operation_name
      ++ (delimiter
          ++ (op.consumer_id
              ++ (delimiter
                  ++ (hash_labels op.labels
                      ++ (metric_map_bytes (metric_map [] op.metric_value_sets) ++ delimiter)))))

  -- The `std::set` of the metric names of a quota operation.
  unfoldable pub metric_names : List (MetricValueSet D) → List (Text × Unit {0})
  metric_names sets = ordered [] (map (λ s. (s.metric_name, tt)) sets)

  -- ... and the input of the hash in `GenerateAllocateQuotaRequestSignature`
  unfoldable pub quota_request_bytes : QuotaOperation D → Text
  quota_request_bytes op =
      op.method_name
      ++ (delimiter ++ (op.consumer_id ++ name_bytes (metric_names op.quota_metrics)))
