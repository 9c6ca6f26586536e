-- ===== src/Tests/CacheCalls.antt =====
-- Tests of utils/simple_lru_cache_inl.h.
use service_control_client_c.Prelude.{ℕ, ◌+◌, ◌≡◌, true, some, nat_eq}
use service_control_client_c.Cache.{
  Cache, find, new_cache, insert, insert_pinned, lookup, release, remove, remove_all,
  remove_expired_entries, set_max_size, set_timeout,
}
use service_control_client_c.Cache.Valid.{IsValid}
use service_control_client_c.Cache.Calls.{Holds}
use service_control_client_c.Cache.Others.{remove_unpinned, clear, update_size}
use service_control_client_c.Cache.Unpinned.{held_or, find-remove_unpinned}
use service_control_client_c.Cache.Resize.{remove-Holds}
use service_control_client_c.Cache.Reach.{
  start, next, insert_step, insert_pinned_step, insert_pinned-Holds, Reach-IsValid,
}
use service_control_client_c.Cache.Conserve.{total}
use service_control_client_c.Cache.Conserved.{calls_conserve}

-- A cache of two units, the value 20 under the key 2 pinned, and then removed.
abbrev busy : Cache ℕ ℕ
busy = remove 2 (insert_pinned 2 8 20 1 6 (insert 1 7 10 1 5 (new_cache 2)))

calls_conserve_example :
    (total (λ v. v) (insert 3 9 30 1 7 busy) ≡ total (λ v. v) busy + 30)
    × (total (λ v. v) (insert_pinned 3 9 30 1 7 busy) ≡ total (λ v. v) busy + 30)
    × (total (λ v. v) (lookup 3 7 busy).0 ≡ total (λ v. v) busy)
    × (total (λ v. v) (release 3 9 7 busy) ≡ total (λ v. v) busy)
    × (total (λ v. v) (remove 3 busy) ≡ total (λ v. v) busy)
    × (total (λ v. v) (remove_expired_entries 7 busy) ≡ total (λ v. v) busy)
    × (total (λ v. v) (remove_all busy) ≡ total (λ v. v) busy)
    × (total (λ v. v) (set_max_size 1 busy) ≡ total (λ v. v) busy)
    × (total (λ v. v) (set_timeout (some 4) true 7 busy) ≡ total (λ v. v) busy)
    × (total (λ v. v) (remove_unpinned busy) ≡ total (λ v. v) busy)
    × (total (λ v. v) (clear busy) ≡ total (λ v. v) busy)
    × (total (λ v. v) (update_size 3 (some 4) 1 busy) ≡ total (λ v. v) busy)
calls_conserve_example = calls_conserve (λ v. v) 3 9 30 1 7 (some 4) true busy

-- The value 10 under the key 1, and the value 20 pinned.
abbrev held : Cache ℕ ℕ
held = insert_pinned 2 8 20 1 6 (insert 1 7 10 1 5 (new_cache 2))

held-IsValid : IsValid held
held-IsValid =
    Reach-IsValid (next (next start (insert_step 1 7 10 1 5 _)) (insert_pinned_step 2 8 20 1 6 _))

find-remove_unpinned_example :
    find 1 (remove_unpinned held).entries ≡ held_or true (find 1 held.entries)
find-remove_unpinned_example = find-remove_unpinned 1 held held-IsValid

remove-Holds_example : Holds {K = ℕ} {V = ℕ} 2 8 (remove 2 held)
remove-Holds_example = remove-Holds 2 2 8 held held-IsValid (
    insert_pinned-Holds 2 8 20 1 6 (insert 1 7 10 1 5 (new_cache 2))
      (Reach-IsValid (next start (insert_step 1 7 10 1 5 _))))
