-- ===== src/Client/Calls.antt =====
-- Every call is answered once (src/service_control_client_impl.cc).
use service_control_client_c.Prelude.{
  ℕ, suc, ◌+◌, ◌≤◌, ◌≡◌, refl, ap, Bool, true, false, List, [], ◌∷◌, ◌++◌, length, length-append,
  Bool-cases, inl, inr, arith,
}
use service_control_client_c.Status.{Status, is_not_found}
use service_control_client_c.Client.{
  Aggregates, Service, new_service, flush_callback, finish, send, dispatch, respond, flush_service,
}

module _ {A Req Resp : Type 0} (ops : Aggregates A Req Resp) where
  -- A call, a response of the transport to a request that waits, or a flush.
  pub data Step : Service ops → Service ops → Type 0 where
    call_step :
        (now : ℕ) (has_transport : Bool) (request : Req) (s : Service ops)
        → Step s (dispatch ops now has_transport request s)
    response_step :
        (now : ℕ) (status : Status) (before : List Req) (request : Req) (after : List Req)
        (response : Resp) (s : Service ops)
        → s.waiting ≡ before ++ request ∷ after
        → Step s (respond ops now status before request after response s)
    flush_step : (r : A × Status × List Req) (s : Service ops) → Step s (flush_service ops r s).0

  pub data Reach (a : A) : Service ops → Type 0 where
    start : Reach a (new_service ops a)
    next : {s s' : Service ops} → Reach a s → Step s s' → Reach a s'

  -- The calls are those that are answered and those that wait; what waits was sent.
  pub record IsBalanced (s : Service ops) : Type 0 where
    pub calls : s.total_called ≡ length s.finished + length s.waiting
    pub sent : length s.waiting ≤ s.send_in_flight
    pub flights : s.send_in_flight ≤ s.total_called

  finish-IsBalanced :
      (status : Status) (s : Service ops)
      → s.total_called ≡ suc (length s.finished) + length s.waiting
      → length s.waiting ≤ s.send_in_flight
      → s.send_in_flight ≤ s.total_called
      → IsBalanced (finish ops status s)
  unfolding finish
  finish-IsBalanced status s h k l = record {
    calls = omega (arith, length-append s.finished (status ∷ []));
    sent = k;
    flights = l;
  }

  call-IsBalanced :
      (now : ℕ) (has_transport : Bool) (request : Req) (s : Service ops)
      → IsBalanced s
      → IsBalanced (dispatch ops now has_transport request s)
  unfolding dispatch flush_callback send
  call-IsBalanced now false request s b =
      finish-IsBalanced _ _ (omega (arith, b.calls)) b.sent (omega (arith, b.flights))
  call-IsBalanced now true request s b =
      elim (Bool-cases (is_not_found (ops.handle now request s.aggregator).1)) [
        | inl e ↦ rw e (record {
          calls = omega (arith, b.calls, length-append s.waiting (request ∷ []));
          sent = omega (arith, b.sent, length-append s.waiting (request ∷ []));
          flights = omega (arith, b.flights);
        })
        | inr e ↦
            rw e (finish-IsBalanced _ _ (omega (arith, b.calls)) b.sent (omega (arith, b.flights)))
      ]

  pub Step-IsBalanced : {s s' : Service ops} → Step s s' → IsBalanced s → IsBalanced s'
  unfolding respond flush_service flush_callback
  Step-IsBalanced (call_step now t request s) b = call-IsBalanced now t request s b
  Step-IsBalanced (response_step now status before request after response s w) b =
      let l = length-append before (request ∷ after) in
      let l' = length-append before after in
      finish-IsBalanced status _ (omega (arith, b.calls, ap length w, l, l'))
        (omega (arith, b.sent, ap length w, l, l')) b.flights
  Step-IsBalanced (flush_step r s) b = record {
    calls = b.calls;
    sent = b.sent;
    flights = b.flights;
  }

  -- However calls, responses and flushes are interleaved, the calls counted are those whose done
  -- callback has run once and those that wait for the transport, and the requests that wait are
  -- counted among those that were sent in flight, which are at most the calls.
  pub Reach-IsBalanced : {a : A} {s : Service ops} → Reach a s → IsBalanced s
  unfolding new_service
  Reach-IsBalanced start = record { calls = refl; sent = omega arith; flights = omega arith }
  Reach-IsBalanced (next r t) = Step-IsBalanced t (Reach-IsBalanced r)
