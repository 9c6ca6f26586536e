-- ===== src/Signature/Maps.antt =====
-- The maps that sort labels and metrics for the signatures (src/signature.cc).
use mathlib.Core.Path.{subst}
use service_control_client_c.Prelude.{
  Bool, true, false, Option, none, some, List, [], ◌∷◌, Text, text_beq, text_beq_iff, ◌≡◌, refl, ap,
  sym, ◌∙◌, arith, Bool-cases, inl, inr, if◌then◌else◌,
}
use service_control_client_c.Proto.{MetricValue, MetricValueSet}
use service_control_client_c.Operation.{find_value}
use service_control_client_c.Signature.{text_ltb, map_insert, ordered, metric_map}
use service_control_client_c.Signature.Order.{
  text_ltb_transitive, text_ltb_total, text_ltb-text_beq, text_beq_comm,
}

abbrev pub or_else {ℓ} : {A : Type ℓ} → Option A → Option A → Option A
or_else none b = b
or_else (some a) b = some a

module _ {ℓ} {A : Type ℓ} where
  abbrev AllAbove : Text → List (Text × A) → Type 0
  AllAbove k [] = Unit
  AllAbove k (e ∷ m) = (text_ltb k e.0 ≡ true) × AllAbove k m

  -- The keys ascend, each once.
  abbrev pub IsAscending : List (Text × A) → Type 0
  IsAscending [] = Unit
  IsAscending (e ∷ m) = AllAbove e.0 m × IsAscending m

  AllAbove-below :
      (j k : Text) (m : List (Text × A)) → text_ltb j k ≡ true → AllAbove k m → AllAbove j m
  AllAbove-below j k [] l h = tt
  AllAbove-below j k (e ∷ m) l h = (text_ltb_transitive j k e.0 l h.0, AllAbove-below j k m l h.1)

  find-AllAbove : (k : Text) (m : List (Text × A)) → AllAbove k m → find_value k m ≡ none
  unfolding find_value
  find-AllAbove k [] h = refl
  find-AllAbove k (e ∷ m) h =
      rw (text_beq_comm e.0 k, text_ltb-text_beq k e.0 h.0) (find-AllAbove k m h.1)

  AllAbove-map_insert :
      (b : Bool) (j k : Text) (v : A) (m : List (Text × A))
      → text_ltb j k ≡ true
      → AllAbove j m
      → AllAbove j (map_insert b k v m)
  unfolding map_insert
  AllAbove-map_insert b j k v [] l h = (l, tt)
  AllAbove-map_insert b j k v (e ∷ m) l h = elim (Bool-cases (text_ltb k e.0)) [
    | inl x ↦ rw x (l, h)
    | inr x ↦ elim (Bool-cases (text_beq k e.0)) [
      | inl y ↦ rw (x, y) (l, h.1)
      | inr y ↦ rw (x, y) (h.0, AllAbove-map_insert b j k v m l h.1)
    ]
  ]

  map_insert-IsAscending :
      (b : Bool) (k : Text) (v : A) (m : List (Text × A))
      → IsAscending m
      → IsAscending (map_insert b k v m)
  unfolding map_insert
  map_insert-IsAscending b k v [] h = (tt, tt)
  map_insert-IsAscending b k v (e ∷ m) h = elim (Bool-cases (text_ltb k e.0)) [
    | inl x ↦ rw x ((x, AllAbove-below k e.0 m x h.0), h)
    | inr x ↦ elim (Bool-cases (text_beq k e.0)) [
      | inl y ↦ rw (x, y) (rw ((text_beq_iff k e.0).0 y) h.0, h.1)
      | inr y ↦
          rw (x, y)
            (
              AllAbove-map_insert b e.0 k v m (text_ltb_total k e.0 x y) h.0,
              map_insert-IsAscending b k v m h.1,
            )
    ]
  ]

  or_else_assoc : (a b c : Option A) → or_else (or_else a b) c ≡ or_else a (or_else b c)
  or_else_assoc none b c = refl
  or_else_assoc (some x) b c = refl

  or_else-none : (a : Option A) → or_else a none ≡ a
  or_else-none none = refl
  or_else-none (some x) = refl

  if_or_else :
      (b : Bool) (x v : A) (o : Option A)
      → (if b then some x else o) ≡ or_else (if b then some x else o) (if b then some v else none)
  if_or_else true x v o = refl
  if_or_else false x v o = sym (or_else-none o)

  or_else_if :
      (b : Bool) (x : A) (o : Option A)
      → or_else (if b then some x else none) o ≡ (if b then some x else o)
  or_else_if true x o = refl
  or_else_if false x o = refl

  -- `insert` keeps the value that is there, `operator[]` replaces it.
  find-insert :
      (j k : Text) (v : A) (m : List (Text × A))
      → IsAscending m
      → find_value j (map_insert false k v m)
        ≡ or_else (find_value j m) (if text_beq k j then some v else none)
  unfolding find_value map_insert
  find-insert j k v [] h = refl
  find-insert j k v (e ∷ m) h = elim (Bool-cases (text_ltb k e.0)) [
    | inl x ↦ elim (Bool-cases (text_beq k j)) [
      | inl y ↦
          let below : AllAbove j (e ∷ m) =
            subst (λ i. AllAbove i (e ∷ m)) ((text_beq_iff k j).0 y)
              (x, AllAbove-below k e.0 m x h.0) in
          rw (x, y) (sym (ap (λ o. or_else o (some v)) (find-AllAbove j (e ∷ m) below)))
      | inr y ↦ rw (x, y) (sym (or_else-none (find_value j (e ∷ m))))
    ]
    | inr x ↦ elim (Bool-cases (text_beq k e.0)) [
      | inl y ↦
          rw (x, y)
            (rw ((text_beq_iff k e.0).0 y) (if_or_else (text_beq e.0 j) e.1 v (find_value j m)))
      | inr y ↦
          rw (x, y)
            (elim (Bool-cases (text_beq e.0 j)) [
              | inl z ↦ rw z refl
              | inr z ↦ rw z (find-insert j k v m h.1)
            ])
    ]
  ]

  find-assign :
      (j k : Text) (v : A) (m : List (Text × A))
      → find_value j (map_insert true k v m) ≡ (if text_beq k j then some v else find_value j m)
  unfolding find_value map_insert
  find-assign j k v [] = refl
  find-assign j k v (e ∷ m) =
      ground (arith, find-assign j k v m, text_beq_iff k e.0, text_beq_iff k j, text_beq_iff e.0 j)

  ordered-IsAscending :
      (m labels : List (Text × A)) → IsAscending m → IsAscending (ordered m labels)
  unfolding ordered
  ordered-IsAscending m [] h = h
  ordered-IsAscending m (e ∷ labels) h =
      ordered-IsAscending (map_insert false e.0 e.1 m) labels
        (map_insert-IsAscending false e.0 e.1 m h)

  find-ordered :
      (k : Text) (m labels : List (Text × A))
      → IsAscending m
      → find_value k (ordered m labels) ≡ or_else (find_value k m) (find_value k labels)
  unfolding ordered find_value
  find-ordered k m [] h = sym (or_else-none (find_value k m))
  find-ordered k m (e ∷ labels) h =
      find-ordered k (map_insert false e.0 e.1 m) labels (map_insert-IsAscending false e.0 e.1 m h)
      ∙ (ap (λ o. or_else o (find_value k labels)) (find-insert k e.0 e.1 m h)
          ∙ (or_else_assoc (find_value k m) _ (find_value k labels)
              ∙ ap (or_else (find_value k m))
                  (or_else_if (text_beq e.0 k) e.1 (find_value k labels))))

  pub ordered-sorts :
      (k : Text) (labels : List (Text × A))
      → IsAscending (ordered [] labels) × (find_value k (ordered [] labels) ≡ find_value k labels)
  unfolding find_value
  ordered-sorts k labels = (ordered-IsAscending [] labels tt, find-ordered k [] labels tt)

module _ {ℓ} {D : Type ℓ} where
  -- The values of the last set of a name.
  abbrev pub last_values : Text → List (MetricValueSet D) → Option (List (MetricValue D))
  last_values n [] = none
  last_values n (s ∷ sets) =
      or_else (last_values n sets) (if text_beq s.metric_name n then some s.metric_values else none)

  metric_map-IsAscending :
      (m : List (Text × List (MetricValue D))) (sets : List (MetricValueSet D))
      → IsAscending m
      → IsAscending (metric_map m sets)
  unfolding metric_map
  metric_map-IsAscending m [] h = h
  metric_map-IsAscending m (s ∷ sets) h =
      metric_map-IsAscending (map_insert true s.metric_name s.metric_values m) sets
        (map_insert-IsAscending true s.metric_name s.metric_values m h)

  find-metric_map :
      (n : Text) (m : List (Text × List (MetricValue D))) (sets : List (MetricValueSet D))
      → find_value n (metric_map m sets) ≡ or_else (last_values n sets) (find_value n m)
  unfolding metric_map
  find-metric_map n m [] = refl
  find-metric_map n m (s ∷ sets) =
      find-metric_map n (map_insert true s.metric_name s.metric_values m) sets
      ∙ (ap (or_else (last_values n sets)) (find-assign n s.metric_name s.metric_values m)
          ∙ (ap (or_else (last_values n sets))
                (sym (or_else_if (text_beq s.metric_name n) s.metric_values (find_value n m)))
              ∙ sym (or_else_assoc (last_values n sets) _ (find_value n m))))

  pub metric_map-sorts :
      (n : Text) (sets : List (MetricValueSet D))
      → IsAscending (metric_map [] sets) × (find_value n (metric_map [] sets) ≡ last_values n sets)
  unfolding find_value
  metric_map-sorts n sets = (
    metric_map-IsAscending [] sets tt,
    find-metric_map n [] sets ∙ or_else-none (last_values n sets),
  )
