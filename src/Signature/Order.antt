-- ===== src/Signature/Order.antt =====
-- Signatures and the order of labels and metrics (src/signature.cc).
use mathlib.Core.List.{Permᴰ}
use service_control_client_c.Prelude.{
  ◌≡◌, refl, ap, sym, ◌∙◌, true, false, List, [], ◌∷◌, ◌++◌, map, Text, text_beq, text_beq_iff,
  arith, Bool-cases, inl, inr,
}
use service_control_client_c.Proto.{Operation, MetricValueSet, QuotaOperation}
use service_control_client_c.Signature.{
  text_ltb, map_insert, ordered, hash_labels, report_operation_bytes, check_request_bytes,
  metric_names, quota_request_bytes, name_bytes, label_bytes, delimiter,
}

pub text_ltb_irreflexive : (a : Text) → text_ltb a a ≡ false
unfolding text_ltb
text_ltb_irreflexive [] = refl
text_ltb_irreflexive (x ∷ xs) = ground (arith, text_ltb_irreflexive xs)

pub text_ltb_transitive :
    (a b c : Text) → text_ltb a b ≡ true → text_ltb b c ≡ true → text_ltb a c ≡ true
unfolding text_ltb
text_ltb_transitive [] [] c h k = absurd (cc h)
text_ltb_transitive [] (y ∷ ys) [] h k = absurd (cc k)
text_ltb_transitive [] (y ∷ ys) (z ∷ zs) h k = refl
text_ltb_transitive (x ∷ xs) [] c h k = absurd (cc h)
text_ltb_transitive (x ∷ xs) (y ∷ ys) [] h k = absurd (cc k)
text_ltb_transitive (x ∷ xs) (y ∷ ys) (z ∷ zs) h k = ground (arith, text_ltb_transitive xs ys zs)

pub text_ltb_total :
    (a b : Text) → text_ltb a b ≡ false → text_beq a b ≡ false → text_ltb b a ≡ true
unfolding text_ltb
text_ltb_total [] [] h k = absurd (cc k)
text_ltb_total [] (y ∷ ys) h k = absurd (cc h)
text_ltb_total (x ∷ xs) [] h k = refl
text_ltb_total (x ∷ xs) (y ∷ ys) h k = ground (arith, text_ltb_total xs ys)

text_ltb_asymmetric : (a b : Text) → text_ltb a b ≡ true → text_ltb b a ≡ false
text_ltb_asymmetric a b h = elim (Bool-cases (text_ltb b a)) [
  | inl e ↦ absurd (cc (text_ltb_transitive a b a h e, text_ltb_irreflexive a))
  | inr e ↦ e
]

pub text_ltb-text_beq : (a b : Text) → text_ltb a b ≡ true → text_beq a b ≡ false
unfolding text_ltb
text_ltb-text_beq [] [] h = absurd (cc h)
text_ltb-text_beq [] (y ∷ ys) h = refl
text_ltb-text_beq (x ∷ xs) [] h = refl
text_ltb-text_beq (x ∷ xs) (y ∷ ys) h = ground (arith, text_ltb-text_beq xs ys)

pub text_beq_comm : (a b : Text) → text_beq a b ≡ text_beq b a
text_beq_comm [] [] = refl
text_beq_comm [] (y ∷ ys) = refl
text_beq_comm (x ∷ xs) [] = refl
text_beq_comm (x ∷ xs) (y ∷ ys) = ground (arith, text_beq_comm xs ys)

module _ {ℓ} {A : Type ℓ} where
  -- Two insertions of different keys commute.
  map_insert_comm :
      (j k : Text) (u v : A) (m : List (Text × A))
      → text_ltb j k ≡ true
      → map_insert false j u (map_insert false k v m)
        ≡ map_insert false k v (map_insert false j u m)
  unfolding map_insert
  map_insert_comm j k u v [] l =
      ground (arith, l, text_ltb_asymmetric j k l, text_ltb-text_beq j k l, text_beq_comm j k)
  map_insert_comm j k u v (e ∷ m) l = ground (
    arith,
    l,
    text_ltb_asymmetric j k l,
    text_ltb-text_beq j k l,
    text_beq_comm j k,
    text_ltb_transitive j k e.0 l,
    text_ltb_total k e.0,
    text_ltb_transitive j e.0 k,
    text_beq_iff k e.0,
    text_beq_iff j e.0,
    map_insert_comm j k u v m l,
  )

  -- ... and so do two of the same element.
  map_insert_swap :
      (j k : Text) (u v : A) (m : List (Text × A))
      → (j ≡ k → u ≡ v)
      → map_insert false j u (map_insert false k v m)
        ≡ map_insert false k v (map_insert false j u m)
  map_insert_swap j k u v m same = elim (Bool-cases (text_ltb j k)) [
    | inl l ↦ map_insert_comm j k u v m l
    | inr g ↦ elim (Bool-cases (text_beq j k)) [
      | inl e ↦ let q = (text_beq_iff j k).0 e in cc (q, same q)
      | inr n ↦ sym (map_insert_comm k j v u m (text_ltb_total j k g n))
    ]
  ]

module _ {ℓ ℓ'} {B : Type ℓ} {A : Type ℓ'} (g : B → Text × A)
    (same : (x y : B) → (g x).0 ≡ (g y).0 → (g x).1 ≡ (g y).1) where
  -- Elements of which those of one key have one value make the same map in every order.
  pub ordered-Permᴰ :
      {xs ys : List B}
      → Permᴰ xs ys
      → (m : List (Text × A)) → ordered m (map g xs) ≡ ordered m (map g ys)
  unfolding ordered
  ordered-Permᴰ Permᴰ.nil m = refl
  ordered-Permᴰ (Permᴰ.cons {a} {b} {l₁} {l₂} e p) m =
      ap (λ x. ordered (map_insert false (g x).0 (g x).1 m) (map g l₁)) e
      ∙ ordered-Permᴰ p (map_insert false (g b).0 (g b).1 m)
  ordered-Permᴰ (Permᴰ.swap {a} {b} {a'} {b'} {l} e e') m =
      ap (λ z. ordered z (map g l)) (map_insert_swap (g b).0 (g a).0 (g b).1 (g a).1 m (same b a))
      ∙ cc (e, e')
  ordered-Permᴰ (Permᴰ.trans p q) m = ordered-Permᴰ p m ∙ ordered-Permᴰ q m

-- The labels that the keys have under `f`, in the order of the keys.
abbrev pub labelled : (Text → Text) → List Text → List (Text × Text)
labelled f keys = map (λ k. (k, f k)) keys

hash_labels-labelled :
    (f : Text → Text) {ks ks' : List Text}
    → Permᴰ ks ks'
    → hash_labels (labelled f ks) ≡ hash_labels (labelled f ks')
unfolding hash_labels
hash_labels-labelled f p = ap label_bytes (ordered-Permᴰ (λ k. (k, f k)) (λ x y e. ap f e) p [])

module _ {ℓ} {D : Type ℓ} where
  -- Two operations that differ in the order in which their labels are met, each label with one
  -- value, hash the same bytes, as operations of a report and of a check request.
  pub labels-same_signature :
      (op : Operation D) (f : Text → Text) {ks ks' : List Text}
      → Permᴰ ks ks'
      → (report_operation_bytes (record op { labels = labelled f ks })
          ≡ report_operation_bytes (record op { labels = labelled f ks' }))
        × (check_request_bytes (record op { labels = labelled f ks })
            ≡ check_request_bytes (record op { labels = labelled f ks' }))
  unfolding report_operation_bytes check_request_bytes
  labels-same_signature op f p = (cc (hash_labels-labelled f p), cc (hash_labels-labelled f p))

  -- Two quota operations that differ in the order of their metrics hash the same bytes.
  metrics-same_signature :
      (op : QuotaOperation D) {sets sets' : List (MetricValueSet D)}
      → Permᴰ sets sets'
      → quota_request_bytes (record op { quota_metrics = sets })
        ≡ quota_request_bytes (record op { quota_metrics = sets' })
  unfolding quota_request_bytes metric_names
  metrics-same_signature op p =
      ap (λ names. op.method_name ++ (delimiter ++ (op.consumer_id ++ name_bytes names)))
        (ordered-Permᴰ (λ s. (s.metric_name, tt)) (λ x y e. refl) p [])
