-- ===== src/Tests/Evictions.antt =====
-- Tests of utils/simple_lru_cache_inl.h under a clock.
use service_control_client_c.Prelude.{ℕ, ◌≡◌, refl, true, some, arith, nat_eq}
use service_control_client_c.Cache.{
  Cache, new_elem, set_max_size, lookup, remove_expired_entries, insert, insert_pinned,
  garbage_collect, collect_loop, collect, chain, enter, remove, find, erase, replace, release,
  find_deferred, unpin_elem, settle, set_timeout, discard_idle, idle_loop, discard, new_cache,
}
use service_control_client_c.Cache.Reach.{timeout_step, insert_step}
use service_control_client_c.Cache.Clock.{Run, begin, call}
use service_control_client_c.Cache.Idle.{fresh, found, remove_expired_entries-fresh}
use service_control_client_c.Cache.Eviction.{IsEviction, calls-IsEviction}

-- Room for two units and a timeout of 10; the value 10 inserted at 5, and 20 at 9.
abbrev patient : Cache ℕ ℕ
patient = set_timeout (some 10) true 0 (new_cache 2)

abbrev both : Cache ℕ ℕ
both = insert 2 8 20 1 9 (insert 1 7 10 1 5 patient)

both-Run : Run {K = ℕ} {V = ℕ} 2 9 both
unfolding new_cache
both-Run =
    call 9 (insert_step 2 8 20 1 9 _)
      (call 5 (insert_step 1 7 10 1 5 _)
        (call 0 (timeout_step (some 10) true 0 _ refl) begin (omega arith) refl) (omega arith) refl)
      (omega arith) refl

both-max_idle : both.max_idle ≡ some 10
unfolding insert insert_pinned garbage_collect collect_loop collect chain enter remove find erase
    replace release find_deferred unpin_elem settle set_timeout discard_idle idle_loop discard
    new_cache
both-max_idle = refl

remove_expired_entries-fresh_example :
    ((remove_expired_entries 17 both).entries ≡ fresh 10 17 both.entries)
    × ((lookup 1 17 both).1 ≡ found (find 1 (fresh 10 17 both.entries)))
remove_expired_entries-fresh_example =
    remove_expired_entries-fresh 10 17 1 both both-Run both-max_idle

calls-IsEviction_example :
    IsEviction
      (enter (new_elem 3 9 30 1 12 both.lru) (remove 3 both))
      (insert_pinned 3 9 30 1 12 both)
    × IsEviction (record both { max_units = 1 }) (set_max_size 1 both)
calls-IsEviction_example = calls-IsEviction 3 9 30 1 1 12 both both-Run (omega arith)
