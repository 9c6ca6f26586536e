-- ===== src/Tests/Signatures.antt =====
-- Tests of src/signature.cc.
use mathlib.Core.List.{Permᴰ}
use service_control_client_c.Prelude.{
  ℕ, ◌%◌, ◌≡◌, refl, sym, ap, ◌∙◌, none, List, [], ◌∷◌, ◌++◌, map, append_assoc, append-nil, Text,
  sum_by, pos,
}
use service_control_client_c.Proto.{MetricValue, Operation, int64_value}
use service_control_client_c.Operation.{find_value}
use service_control_client_c.Md5.{OpenSsl, fed, message, debug_string, until_nul}
use service_control_client_c.Signature.{
  report_operation_bytes, check_request_bytes, quota_request_bytes, metric_value_bytes, ordered,
  metric_map, metric_names,
}
use service_control_client_c.Signature.Generate.{
  generate_report_operation_signature, generate_report_metric_value_signature,
  generate_check_request_signature, generate_allocate_quota_request_signature,
}
use service_control_client_c.Signature.Hashed.{IsSorted, signatures-hash}
use service_control_client_c.Signature.Maps.{IsAscending, last_values}
use service_control_client_c.Signature.Order.{labelled, labels-same_signature}
use service_control_client_c.Tests.{an_operation}
use service_control_client_c.Tests.Quotas.{tokens}

-- Each label has the value of one byte more.
abbrev value : Text → Text
value k = 1 ∷ k

labels-same_signature_example :
    (report_operation_bytes
        (record (an_operation (pos 1) []) { labels = labelled value ((8 ∷ []) ∷ (7 ∷ []) ∷ []) })
      ≡ report_operation_bytes
          (record (an_operation (pos 1) []) { labels = labelled value ((7 ∷ []) ∷ (8 ∷ []) ∷ []) }))
    × (check_request_bytes
          (record (an_operation (pos 1) []) { labels = labelled value ((8 ∷ []) ∷ (7 ∷ []) ∷ []) })
        ≡ check_request_bytes (record (an_operation (pos 1) []) {
          labels = labelled value ((7 ∷ []) ∷ (8 ∷ []) ∷ []);
        }))
labels-same_signature_example =
    labels-same_signature (an_operation (pos 1) []) value (Permᴰ.swap {l = []} refl refl)

-- A hash that adds the bytes up, as a stand-in for OpenSSL's.
abbrev sum_of : Text → Text
sum_of bytes = (sum_by (λ b. b) bytes % 256) ∷ []

fed-append : (c : Text) (pieces : List Text) → fed (λ x c. c ++ x) c pieces ≡ c ++ message pieces
fed-append c [] = sym (append-nil c)
fed-append c (x ∷ xs) = fed-append (c ++ x) xs ∙ append_assoc c x (message xs)

abbrev adding : OpenSsl
adding = record {
  Context = Text;
  init = [];
  update = λ x c. c ++ x;
  final = λ c. (sum_of c, []);
  hash = sum_of;
  streams = λ pieces. ap sum_of (fed-append [] pieces);
}

abbrev a_value : MetricValue ℕ
a_value = record {
  labels = labelled value ((8 ∷ []) ∷ []);
  start_time = none;
  end_time = none;
  content = int64_value (pos 5);
}

abbrev labelled_operation : Operation ℕ
labelled_operation = record (an_operation (pos 1) []) {
  labels = labelled value ((8 ∷ []) ∷ (7 ∷ []) ∷ []);
}

signatures-hash_example :
    (generate_report_operation_signature adding labelled_operation
      ≡ sum_of (report_operation_bytes labelled_operation))
    × (generate_report_metric_value_signature adding a_value ≡ sum_of (metric_value_bytes a_value))
    × (generate_check_request_signature adding labelled_operation
        ≡ sum_of (check_request_bytes labelled_operation))
    × (generate_allocate_quota_request_signature adding (tokens 3)
        ≡ sum_of (quota_request_bytes (tokens 3)))
    × IsSorted (7 ∷ []) labelled_operation.labels (ordered [] labelled_operation.labels)
    × IsSorted (7 ∷ []) a_value.labels (ordered [] a_value.labels)
    × (IsAscending (metric_map [] labelled_operation.metric_value_sets)
        × (find_value (7 ∷ []) (metric_map [] labelled_operation.metric_value_sets)
            ≡ last_values (7 ∷ []) labelled_operation.metric_value_sets))
    × IsSorted
        (7 ∷ [])
        (map (λ s. (s.metric_name, tt)) (tokens 3).quota_metrics)
        (metric_names (tokens 3).quota_metrics)
signatures-hash_example = signatures-hash adding (7 ∷ []) labelled_operation a_value (tokens 3)

-- The bytes 0xAB and 0x05 are printed as ab05.
debug_string_bytes : debug_string (171 ∷ 5 ∷ []) ≡ 97 ∷ 98 ∷ 48 ∷ 53 ∷ []
unfolding debug_string
debug_string_bytes = refl

until_nul_bytes : until_nul (65 ∷ 66 ∷ 0 ∷ 67 ∷ []) ≡ 65 ∷ 66 ∷ []
unfolding until_nul
until_nul_bytes = refl
