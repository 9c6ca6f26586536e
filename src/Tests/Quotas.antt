-- ===== src/Tests/Quotas.antt =====
-- Tests of src/quota_aggregator_impl.cc.
use service_control_client_c.Prelude.{
  ℕ, ◌+◌, ◌*◌, ◌+ℤ◌, ◌≡◌, refl, inl, arith, true, false, Option, some, List, [], ◌∷◌, ℤ, pos,
  pos_part, Text, text_eq, All, returns, no_fuel,
}
use service_control_client_c.Status.{ok}
use service_control_client_c.Proto.{QuotaRequest, QuotaOperation, QuotaResponse, other_mode}
use service_control_client_c.Cache.{find, new_cache, set_timeout, discard_idle, idle_loop, chain}
use service_control_client_c.QuotaOperation.Amounts.{HasValue}
use service_control_client_c.Quota.{QuotaAggregator, QuotaCache, new_quota_aggregator, should_drop}
use service_control_client_c.Signature.{
  quota_request_bytes, name_bytes, metric_names, ordered, map_insert,
}
use service_control_client_c.Check.{interval_in_cycles}
use service_control_client_c.Quota.Calls.{
  quota_flushed, QuotaResult, quota_signature, temporary, quota, flush_quota, cache_quota_response,
  flush_all_quota, finish_quota,
}
use service_control_client_c.Quota.Expiry.{QuotaEntry}
use service_control_client_c.Quota.Quiet.{IsQuiet, rested, refreshes}
use service_control_client_c.Quota.Returns.{Outcome, IsAtRest, IsFit}
use service_control_client_c.Quota.Reach.{Reach, created, with_callback, Reach-quota, Reach-others}
use service_control_client_c.Quota.Flushes.{flush_quota-rested}
use service_control_client_c.Quota.Kept.{IsSuccessor, flush_quota-kept}
use service_control_client_c.Quota.Overfull.{quota-jammed}
use service_control_client_c.Quota.Coalesced.{sent_once, sent_cache, quota-coalesced}
use service_control_client_c.Tests.{whole, same_text, one_value}

abbrev pub in_cycles : ℤ → Option ℕ
in_cycles ms = some (pos_part ms * 1000)

-- Responses which are refreshed after 1000 cycles and expire after 9000, and room for `n`.
abbrev pub with_room : ℤ → QuotaAggregator whole same_text in_cycles
with_room n =
    new_quota_aggregator whole same_text in_cycles (9 ∷ []) (4 ∷ [])
      (record { num_entries = n; refresh_interval_ms = pos 1; expiration_interval_ms = pos 9 })

abbrev pub ready : ℤ → QuotaAggregator whole same_text in_cycles
ready n = record (with_room n) { has_callback = true }

abbrev pub tokens : ℕ → QuotaOperation ℕ
tokens m = record {
  method_name = m ∷ [];
  consumer_id = 2 ∷ [];
  quota_mode = other_mode 1;
  quota_metrics = one_value (pos 5) ∷ [];
}

abbrev pub wanted : ℕ → QuotaRequest ℕ
wanted m = record {
  service_name = 9 ∷ [];
  service_config_id = 4 ∷ [];
  allocate_operation = some (tokens m);
}

has_value : All (HasValue whole) (tokens 1).quota_metrics
has_value = ((_, [], refl), tt)

pub ready-IsFit : IsFit whole same_text in_cycles 10 (wanted 1) (ready (pos 2))
unfolding new_quota_aggregator set_timeout new_cache discard_idle idle_loop chain
ready-IsFit = (has_value, inl (omega arith))

Reach-quota_example :
    (r : QuotaResult whole same_text in_cycles) × (quota whole same_text in_cycles 1 10
        (wanted 1)
        (ready (pos 2))
      ≡ returns r)
    × IsAtRest whole same_text in_cycles r.0
    × Reach whole same_text in_cycles r.0
Reach-quota_example =
    Reach-quota whole same_text in_cycles (ready (pos 2)) 0 10 (wanted 1)
      (with_callback (created (9 ∷ []) (4 ∷ []) _)) ready-IsFit

Reach-others_example :
    ((r : Outcome whole same_text in_cycles) × (flush_quota whole same_text in_cycles 1 10
          (ready (pos 2))
        ≡ returns r)
      × IsAtRest whole same_text in_cycles r.0
      × Reach whole same_text in_cycles r.0)
    × ((r : Outcome whole same_text in_cycles) × (cache_quota_response whole same_text in_cycles 1
            10
            (tokens 1)
            (record { operation_id = []; allocate_errors = [] })
            (ready (pos 2))
          ≡ returns r)
        × IsAtRest whole same_text in_cycles r.0
        × Reach whole same_text in_cycles r.0)
    × ((r : Outcome whole same_text in_cycles) × (flush_all_quota whole same_text in_cycles 1 10
            (ready (pos 2))
          ≡ returns r)
        × IsAtRest whole same_text in_cycles r.0
        × Reach whole same_text in_cycles r.0)
Reach-others_example =
    Reach-others whole same_text in_cycles (ready (pos 2)) 0 10 (tokens 1)
      (record { operation_id = []; allocate_errors = [] })
      (with_callback (created (9 ∷ []) (4 ∷ []) _))

-- A cache that holds the response to the first request alone.
abbrev pub signature_of : ℕ → Text
signature_of m = quota_signature whole same_text in_cycles (tokens m)

abbrev pub stays : ℕ → QuotaEntry whole same_text in_cycles
stays m = record {
  key = signature_of m;
  ptr = m;
  value = temporary whole same_text in_cycles 10 (signature_of m) (wanted m);
  pin = 0;
  units = 1;
  last_use = 10;
  linked = true;
}

abbrev pub one_of : ℕ → QuotaCache whole same_text in_cycles
one_of n = record {
  entries = stays 1 ∷ [];
  defer = [];
  units = 1;
  max_units = n;
  pinned_units = 0;
  max_idle = some 1000;
  lru = false;
  discarded = [];
}

abbrev pub holding_one : ℕ → QuotaAggregator whole same_text in_cycles
holding_one n = record (ready (pos n)) { cache = some (one_of n) }

pub one_of-IsQuiet : IsQuiet whole same_text in_cycles (one_of 1)
unfolding find
one_of-IsQuiet = record {
  distinct = (refl, tt);
  calm = (record { signed = refl; one_unit = refl; unpinned = refl; chained = refl }, tt);
  sized = refl;
  room = omega arith;
  undeferred = refl;
  aged = refl;
}

flush_quota-kept_example :
    (c' : QuotaCache whole same_text in_cycles) × (items : List (QuotaRequest ℕ)) × (e' : QuotaEntry
      whole same_text in_cycles)
    × (flush_quota whole same_text in_cycles 1 1500 (holding_one 1)
        ≡ returns (record (holding_one 1) { cache = some c' }, items))
    × (find (signature_of 1) c'.entries ≡ some e')
    × IsSuccessor whole same_text in_cycles (holding_one 1) 1500 (stays 1) e'
unfolding find should_drop interval_in_cycles new_quota_aggregator set_timeout new_cache
    discard_idle idle_loop chain ◌+ℤ◌ quota_request_bytes name_bytes metric_names ordered map_insert
flush_quota-kept_example =
    flush_quota-kept whole same_text in_cycles (holding_one 1) 1500 0 (signature_of 1) (one_of 1)
      (stays 1) refl one_of-IsQuiet refl refl

quota-jammed_example : quota whole same_text in_cycles 5 20 (wanted 2) (holding_one 1) ≡ no_fuel
unfolding find should_drop interval_in_cycles new_quota_aggregator set_timeout new_cache
    discard_idle idle_loop chain ◌+ℤ◌ quota_request_bytes name_bytes metric_names ordered map_insert
quota-jammed_example =
    quota-jammed whole same_text in_cycles (holding_one 1) 20 4 (wanted 2) (tokens 2) (one_of 1)
      refl refl refl one_of-IsQuiet refl (omega arith) (refl, tt) refl refl

-- The cache of a new aggregator with room for two.
abbrev empty : QuotaCache whole same_text in_cycles
empty = record {
  entries = [];
  defer = [];
  units = 0;
  max_units = 2;
  pinned_units = 0;
  max_idle = some 1000;
  lru = false;
  discarded = [];
}

abbrev starting : QuotaAggregator whole same_text in_cycles
starting = record (ready (pos 2)) { cache = some empty }

empty-IsQuiet : IsQuiet whole same_text in_cycles empty
empty-IsQuiet = record {
  distinct = tt;
  calm = tt;
  sized = refl;
  room = omega arith;
  undeferred = refl;
  aged = refl;
}

abbrev positive : QuotaResponse
positive = record { operation_id = []; allocate_errors = [] }

abbrev waiting : QuotaAggregator whole same_text in_cycles
waiting = sent_once whole same_text in_cycles 10 (wanted 1) (tokens 1) starting empty

quota-coalesced_example :
    (quota whole same_text in_cycles 1 10 (wanted 1) starting
      ≡ returns (
        waiting,
        ok,
        some positive,
        quota_flushed whole same_text in_cycles starting (wanted 1 ∷ []),
      ))
    × ((c' : QuotaCache whole same_text in_cycles) × (quota whole same_text in_cycles 1 1500
            (wanted 1)
            waiting
          ≡ returns (
            record waiting { cache = some c'; next_ptr = waiting.next_ptr + 1 },
            ok,
            some positive,
            quota_flushed whole same_text in_cycles waiting (
                refreshes whole same_text in_cycles waiting 1500
                  (sent_cache whole same_text in_cycles 10 (wanted 1) (tokens 1) starting empty)),
          )))
unfolding find should_drop interval_in_cycles new_quota_aggregator set_timeout new_cache
    discard_idle idle_loop chain ◌+ℤ◌ quota_request_bytes name_bytes metric_names ordered map_insert
quota-coalesced_example =
    quota-coalesced whole same_text in_cycles 0 10 1500 (wanted 1) (wanted 1) (tokens 1) (tokens 1)
      starting empty refl refl refl empty-IsQuiet refl (omega arith) refl refl refl has_value refl

flush_quota-rested_example :
    flush_quota whole same_text in_cycles 1 1500 (holding_one 1)
    ≡ returns (
        finish_quota whole same_text in_cycles (holding_one 1) (
          rested whole same_text in_cycles (holding_one 1) 1500 (one_of 1),
          refreshes whole same_text in_cycles (holding_one 1) 1500 (one_of 1),
        ))
flush_quota-rested_example =
    flush_quota-rested whole same_text in_cycles (holding_one 1) 1500 0 (one_of 1) refl
      one_of-IsQuiet
