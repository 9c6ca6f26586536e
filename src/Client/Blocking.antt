-- ===== src/Client/Blocking.antt =====
-- The blocking variants of Check and Report (src/service_control_client_impl.cc) beside the others:
-- a session is the calls of one kind and the threads that wait for their promises.
pub mod Awaited
pub mod Quotas
use service_control_client_c.Prelude.{ℕ, Bool, Option, none, some, List, [], length}
use service_control_client_c.Status.{Status}
use service_control_client_c.Client.{
  Aggregates, Service, new_service, dispatch, respond, flush_service,
}
use service_control_client_c.Client.Promises.{Threads, after_call, after_response}

module _ {A Req Resp : Type 0} (ops : Aggregates A Req Resp) where
  pub record Session : Type 0 where
    pub service : Service ops
    pub threads : Threads

  abbrev pub new_session : A → Session
  new_session a = record {
    service = new_service ops a;
    threads = record { owners = []; promises = [] };
  }

  -- A call, which blocks its thread or has a done callback of its own; none where `set_value` throws.
  unfoldable pub start_call : ℕ → Bool → Bool → Req → Session → Option Session
  start_call now has_transport blocking request x =
      let s = x.service in
      let s' = dispatch ops now has_transport request s in
      elim (after_call blocking s.finished s'.finished (length s.waiting) (length s'.waiting)
        x.threads) [ none ↦ none | some t ↦ some (record { service = s'; threads = t }) ]

  -- The response to a request between the others that wait, with the owners of these.
  unfoldable pub respond_call :
      ℕ
      → Status
      → List Req
      → Req
      → List Req
      → Resp
      → List (Option ℕ)
      → Option ℕ
      → List (Option ℕ)
      → Session
      → Option Session
  respond_call now status before request after response before_owners owner after_owners x =
      let s = x.service in
      let s' = respond ops now status before request after response s in
      elim (after_response before_owners owner after_owners s.finished s'.finished x.threads) [
        | none ↦ none
        | some t ↦ some (record { service = s'; threads = t })
      ]

  abbrev pub flush_session : A × Status × List Req → Session → Session
  flush_session r x = record x { service = (flush_service ops r x.service).0 }
