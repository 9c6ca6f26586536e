-- ===== src/RemovedItems.antt =====
-- The buffer of removed items (src/cache_removed_items_handler.h). While a call holds the lock of
-- the cache, the requests made from removed elements are collected, the last one merged with the
-- next where the handler can; when the call has given the lock up they go to the flush callback,
-- in order. A request that the callback got is what the model lists as flushed.
use service_control_client_c.Prelude.{
  ℕ, ◌+◌, ◌≡◌, Bool, true, false, Option, none, some, List, [], ◌∷◌, sum_by, arith, Option-cases,
  inl, inr,
}

module _ {ℓ} {R : Type ℓ} (merge_item : R → R → Option R) where
  -- `StackBuffer::Add`; `merge_item new old` is the merged old item, or none where `MergeItem`
  -- answers false.
  unfoldable pub add_item : List R → R → List R
  add_item [] r = r ∷ []
  add_item (x ∷ []) r = elim (merge_item r x) [ none ↦ x ∷ r ∷ [] | some y ↦ y ∷ [] ]
  add_item (x ∷ y ∷ xs) r = x ∷ add_item (y ∷ xs) r

  -- `AddRemovedItem`, for the items that one call removes.
  unfoldable pub add_items : List R → List R → List R
  add_items items [] = items
  add_items items (r ∷ rs) = add_items (add_item items r) rs

  -- A merge that keeps a weight keeps the weight of all items.
  module _ (w : R → ℕ) (keeps : (r x y : R) → merge_item r x ≡ some y → w y ≡ w x + w r) where
    add_item_weight : (items : List R) (r : R) → sum_by w (add_item items r) ≡ sum_by w items + w r
    unfolding add_item
    add_item_weight [] r = omega arith
    add_item_weight (x ∷ []) r = elim (Option-cases (merge_item r x)) [
      | inl e ↦ rw (e, add_item) (omega arith)
      | inr (y, e) ↦ rw (e, add_item) (omega (arith, keeps r x y e))
    ]
    add_item_weight (x ∷ y ∷ xs) r = omega (arith, add_item_weight (y ∷ xs) r)

    pub add_items_weight :
        (items rs : List R) → sum_by w (add_items items rs) ≡ sum_by w items + sum_by w rs
    unfolding add_items
    add_items_weight items [] = omega arith
    add_items_weight items (r ∷ rs) =
        omega (arith, add_items_weight (add_item items r) rs, add_item_weight items r)

-- The destructor of `StackBuffer`: `FlushOut` for each item, where a callback is set.
unfoldable pub flush_out {ℓ} : {R : Type ℓ} → Bool → List R → List R
flush_out true items = items
flush_out false items = []
