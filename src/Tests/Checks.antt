-- ===== src/Tests/Checks.antt =====
-- Tests of src/check_aggregator_impl.cc.
use service_control_client_c.Prelude.{
  ℕ, ◌*◌, ◌+◌, ◌+ℤ◌, text_eq, text_beq, ◌≡◌, refl, inr, arith, length, true, false, Option, none,
  some, [], ◌∷◌, ℤ, pos, pos_part, if◌then◌else◌, Text,
}
use service_control_client_c.Status.{ok, not_found}
use service_control_client_c.Proto.{CheckRequest, CheckResponse}
use service_control_client_c.Cache.{
  Cache, lookup, new_cache, set_timeout, discard_idle, idle_loop, remove_expired_entries, chain,
  find, find_deferred,
}
use service_control_client_c.Check.{
  CacheElem, flush_checks, flush_all_checks, check_operation, CheckAggregator, check_options,
  new_check_aggregator, interval_in_cycles, check_signature, check, cache_response,
  cache_response_in,
}
use service_control_client_c.Check.Absorb.{absorbed, checks_conserve}
use service_control_client_c.Check.Answers.{Caches, IsChecked, is_due, check_cached}
use service_control_client_c.Check.Conserve.{Balances, waiting_weight}
use service_control_client_c.Check.Stored.{CanCache, cache_response-Caches, check_after_response}
use service_control_client_c.Tests.{whole, same_text, no_kinds, an_operation}

abbrev in_cycles : ℤ → Option ℕ
in_cycles ms = some (pos_part ms * 1000)

-- Five responses, which are refreshed after 2000 cycles and expire after 9000.
abbrev quiet : CheckAggregator whole same_text no_kinds in_cycles
quiet =
    new_check_aggregator whole same_text no_kinds in_cycles (9 ∷ []) (4 ∷ [])
      (check_options (pos 5) (pos 2) (pos 9))

abbrev passed : CheckResponse
passed = record { operation_id = 1 ∷ []; check_errors = [] }

abbrev asked : CheckRequest ℕ
asked = record {
  service_name = 9 ∷ [];
  service_config_id = 4 ∷ [];
  operation = some (an_operation (pos 3) (65 ∷ []));
}

abbrev the_signature : Text
the_signature = check_signature whole same_text no_kinds in_cycles (an_operation (pos 3) (65 ∷ []))

abbrev known : CheckAggregator whole same_text no_kinds in_cycles
known =
    (cache_response whole same_text no_kinds in_cycles 100 (an_operation (pos 3) (65 ∷ [])) passed
      quiet).0

quiet-CanCache : CanCache whole same_text no_kinds in_cycles the_signature 100 (some 9000) quiet
unfolding new_check_aggregator check_options set_timeout new_cache discard_idle idle_loop chain find
    remove_expired_entries find_deferred ◌+ℤ◌
quiet-CanCache = inr (
  set_timeout (some 9000) true 0 (new_cache 5),
  refl,
  record { absent = refl; alone = refl; lru = refl; room = omega arith; expires = refl },
)

known-Caches :
    Caches whole same_text no_kinds in_cycles the_signature passed 100 100 (some 9000) known
known-Caches =
    cache_response-Caches whole same_text no_kinds in_cycles 100 (an_operation (pos 3) (65 ∷ []))
      passed (some 9000) quiet quiet-CanCache

asked-IsChecked :
    IsChecked whole same_text no_kinds in_cycles asked (an_operation (pos 3) (65 ∷ [])) known
unfolding cache_response cache_response_in new_check_aggregator check_options
asked-IsChecked = record { service = refl; has_operation = refl; importance = refl }

due_run : is_due whole same_text no_kinds in_cycles quiet 100 1000 ≡ false
unfolding new_check_aggregator check_options interval_in_cycles
due_run = refl

check_cached_example :
    (let r = check whole same_text no_kinds in_cycles 5000 asked known in
      (r.1 ≡ (if is_due whole same_text no_kinds in_cycles known 100 5000 then not_found else ok))
      × (r.2 ≡ (
          if is_due whole same_text no_kinds in_cycles known 100 5000 then none else some passed))
      × Caches whole same_text no_kinds in_cycles the_signature passed
          (if is_due whole same_text no_kinds in_cycles known 100 5000 then 5000 else 100)
          5000
          (some 9000)
          r.0)
check_cached_example =
    check_cached whole same_text no_kinds in_cycles 5000 asked (an_operation (pos 3) (65 ∷ []))
      passed 100 100 (some 9000) known asked-IsChecked known-Caches (omega arith)

check_after_response_example :
    (let r = check whole same_text no_kinds in_cycles 1000 asked known in
      (r.1 ≡ ok) × (r.2 ≡ some passed))
check_after_response_example =
    check_after_response whole same_text no_kinds in_cycles 100 1000
      (an_operation (pos 3) (65 ∷ [])) (an_operation (pos 3) (65 ∷ [])) asked passed (some 9000)
      quiet quiet-CanCache refl asked-IsChecked due_run (omega arith)

-- The response is cached, and a check that it answers is aggregated until it is flushed.
abbrev checked : CheckAggregator whole same_text no_kinds in_cycles
checked =
    (check whole same_text no_kinds in_cycles 1000 asked (record known { has_callback = true })).0

checked-has_callback : checked.has_callback ≡ true
unfolding check cache_response cache_response_in new_check_aggregator check_options check_operation
checked-has_callback = refl

-- The cache of `checked`.
abbrev checked_cache : Cache Text (CacheElem whole same_text no_kinds in_cycles)
checked_cache = elim checked.cache [ none ↦ new_cache 5 | some c ↦ c ]

checked-cache : checked.cache ≡ some checked_cache
unfolding check cache_response cache_response_in new_check_aggregator check_options check_operation
checked-cache = refl

asked-service : text_beq asked.service_name checked.service_name ≡ true
unfolding check cache_response cache_response_in new_check_aggregator check_options check_operation
asked-service = refl

checks_conserve_example :
    (let r = check whole same_text no_kinds in_cycles 1500 asked checked in
      Balances whole same_text no_kinds in_cycles length
        (waiting_weight whole same_text no_kinds in_cycles length checked
          + absorbed whole same_text no_kinds in_cycles length
              (an_operation (pos 3) (65 ∷ []))
              (lookup the_signature 1500 checked_cache).1)
        (r.0, r.3))
    × Balances whole same_text no_kinds in_cycles length
        (waiting_weight whole same_text no_kinds in_cycles length checked)
        (cache_response whole same_text no_kinds in_cycles 1500
          (an_operation (pos 3) (65 ∷ []))
          passed
          checked)
    × Balances whole same_text no_kinds in_cycles length
        (waiting_weight whole same_text no_kinds in_cycles length checked)
        (flush_checks whole same_text no_kinds in_cycles 1500 checked)
    × Balances whole same_text no_kinds in_cycles length
        (waiting_weight whole same_text no_kinds in_cycles length checked)
        (flush_all_checks whole same_text no_kinds in_cycles checked)
checks_conserve_example =
    checks_conserve whole same_text no_kinds in_cycles length 1500 asked
      (an_operation (pos 3) (65 ∷ [])) passed checked checked_cache checked-has_callback
      checked-cache refl asked-service refl
