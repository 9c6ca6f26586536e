-- ===== src/Client.antt =====
-- ServiceControlClientImpl (src/service_control_client_impl.cc): calls go to an aggregator first,
-- and to the transport where the aggregator answers not_found.
--
-- The three kinds of calls (Check, Quota, Report) take one path; a kind is an instance of the
-- interface `Aggregates`, and the difference in what is done with a response is its `on_response`.
-- The transport and the done callbacks are the program's environment: a request that was handed to
-- the transport is waiting, until a step of the environment responds to it; the statuses that the
-- done callbacks got are `finished`.
pub mod Calls
pub mod Intervals
pub mod Kinds
pub mod Quotas
pub mod Served
pub mod FailOpen
pub mod Promises
pub mod Blocking
pub mod Whole
pub mod Closed
pub mod Late
pub mod Destroyed
use service_control_client_c.Prelude.{
  ℕ, suc, ◌+◌, ◌-◌, ◌^◌, ◌≡◌, Bool, true, false, not, Option, none, some, List, [], ◌∷◌, ◌++◌,
  length, sum_by, if◌then◌else◌, ℤ, pos, ltb_ℤ,
}
use service_control_client_c.Status.{Status, ok, invalid_argument, is_ok, is_not_found}

-- What the client calls of an aggregator; the lists are the requests that it flushes.
pub record Aggregates (A Req Resp : Type 0) : Type 0 where
  pub handle : ℕ → Req → A → A × Status × Option Resp × List Req
  pub on_response : ℕ → Status → Req → Resp → A → A × List Req
  pub flush_expired : ℕ → A → A × Status × List Req
  pub flush_everything : A → A × Status × List Req
  -- the number of operations in a request
  pub size : Req → ℕ

module _ {A Req Resp : Type 0} (ops : Aggregates A Req Resp) where
  -- The aggregator and the counters of one kind of calls.
  pub record Service : Type 0 where
    pub aggregator : A
    pub total_called : ℕ
    pub send_by_flush : ℕ
    pub send_in_flight : ℕ
    pub send_operations : ℕ
    pub waiting : List Req
    pub finished : List Status

  -- The constructor's part.
  unfoldable pub new_service : A → Service
  new_service a = record {
    aggregator = a;
    total_called = 0;
    send_by_flush = 0;
    send_in_flight = 0;
    send_operations = 0;
    waiting = [];
    finished = [];
  }

  -- `CheckFlushCallback` and its kin, for the requests that a call of the aggregator flushes.
  unfoldable pub flush_callback : List Req → Service → Service
  flush_callback flushed s = record s {
    send_by_flush = s.send_by_flush + length flushed;
    send_operations = s.send_operations + sum_by ops.size flushed;
  }

  -- `on_check_done(status)`
  unfoldable pub finish : Status → Service → Service
  finish status s = record s { finished = s.finished ++ (status ∷ []) }

  -- The call of the transport.
  unfoldable pub send : Req → Service → Service
  send request s = record s {
    send_in_flight = suc s.send_in_flight;
    send_operations = s.send_operations + ops.size request;
    waiting = s.waiting ++ (request ∷ []);
  }

  -- `Check`, `Quota` and `Report` with a transport, or none.
  unfoldable pub dispatch : ℕ → Bool → Req → Service → Service
  dispatch now has_transport request s₀ =
      let s : Service = record s₀ { total_called = suc s₀.total_called } in
      let (a, status, _, flushed) = ops.handle now request s.aggregator in
      let s' = flush_callback flushed (record s { aggregator = a }) in
      if not has_transport
      then finish invalid_argument s
      else if is_not_found status
      then send request s'
      else finish status s'

  -- The callback of the transport, for a request between the others that wait.
  unfoldable pub respond : ℕ → Status → List Req → Req → List Req → Resp → Service → Service
  respond now status before request after response s =
      let (a, flushed) = ops.on_response now status request response s.aggregator in
      finish status
        (flush_callback flushed (record s { aggregator = a; waiting = before ++ after }))

  -- The part of `Flush` and `FlushAll` that is about one aggregator.
  unfoldable pub flush_service : A × Status × List Req → Service → Service × Status
  flush_service (a, status, flushed) s =
      (flush_callback flushed (record s { aggregator = a }), status)

-- `Flush` and `FlushAll`: the status, of those of the three aggregators.
unfoldable pub first_failure : Status → Status → Status → Status
first_failure check quota report =
    if not (is_ok check) then check else if not (is_ok quota) then quota else report

abbrev pub int_max : ℤ
int_max = pos (2 ^ 31 - 1)

-- `GetNextFlushInterval`
unfoldable pub interval_or_max : ℤ → ℤ
interval_or_max z = if ltb_ℤ z (pos 0) then int_max else z

unfoldable pub min_ℤ : ℤ → ℤ → ℤ
min_ℤ a b = if ltb_ℤ b a then b else a

unfoldable pub next_interval : ℤ → ℤ → ℤ → ℤ
next_interval check quota report =
    min_ℤ (interval_or_max check) (min_ℤ (interval_or_max quota) (interval_or_max report))
