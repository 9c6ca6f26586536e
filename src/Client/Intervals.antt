-- ===== src/Client/Intervals.antt =====
-- When the client flushes next (GetNextFlushInterval of src/service_control_client_impl.cc).
use service_control_client_c.Prelude.{◌≡◌, ◌⊎◌, arith, ℤ, pos_part, neg_part, ◌≤ℤ◌, ◌^◌, ◌<◌}
use service_control_client_c.Client.{int_max, interval_or_max, min_ℤ, next_interval}

-- The interval of an aggregator that has one (a negative one stands for never).
abbrev IsDue : ℤ → ℤ → Type 0
IsDue n z = neg_part z ≡ 0 → n ≤ℤ z

-- For intervals below 2^31, the next interval of the client is not after that of any aggregator that has one, and it is the
-- interval of one of them, or the largest int where none has one.
next_interval_lem :
    (check quota report : ℤ)
    → pos_part check < 2 ^ 31
    → pos_part quota < 2 ^ 31
    → pos_part report < 2 ^ 31
    → let n = next_interval check quota report in
      IsDue n check
      × IsDue n quota
      × IsDue n report
      × ((n ≡ check) ⊎ (n ≡ quota) ⊎ (n ≡ report) ⊎ (n ≡ int_max))
unfolding next_interval min_ℤ interval_or_max
next_interval_lem check quota report c q r = ground arith
