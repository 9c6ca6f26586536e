-- ===== src/Tests/Blocking.antt =====
-- Tests of the blocking calls of src/service_control_client_impl.cc.
use service_control_client_c.Prelude.{
  suc, ◌≡◌, refl, ◌⊎◌, true, false, none, some, [], ◌∷◌, ◌++◌, length,
}
use service_control_client_c.Status.{Status, not_found}
use service_control_client_c.Client.{new_service, dispatch, flush_callback, send, finish}
use service_control_client_c.Client.Promises.{after_call, call, deliver, awaited}
use service_control_client_c.Client.Blocking.{Session, new_session, start_call, respond_call}
use service_control_client_c.Client.Blocking.Awaited.{
  Reach, opened, called, IsAligned, Reach-IsAligned, start_call-returns, respond_call-returns,
}
use service_control_client_c.Report.{
  new_report_aggregator, has_high_important_operation, report, report_cached,
}
use service_control_client_c.Tests.{a_request}
use service_control_client_c.Tests.Clients.{calls, uncached, asking}

-- A thread reports; its request is sent, and answered.
abbrev idle : Session calls
idle = new_session calls uncached

abbrev blocked_session : Session calls
blocked_session = record {
  service = asking;
  threads = record { owners = some 0 ∷ []; promises = none ∷ [] };
}

blocked_run : start_call calls 1 true true a_request idle ≡ some blocked_session
unfolding start_call after_call call deliver dispatch new_service flush_callback send report
    report_cached new_report_aggregator finish has_high_important_operation
blocked_run = refl

blocked-Reach : Reach calls uncached blocked_session
blocked-Reach = called 1 true true a_request opened blocked_run

asking_waits : asking.waiting ≡ a_request ∷ []
unfolding dispatch new_service flush_callback send report report_cached new_report_aggregator finish
    has_high_important_operation
asking_waits = refl

Reach-IsAligned_example : IsAligned calls blocked_session
Reach-IsAligned_example = Reach-IsAligned calls blocked-Reach

start_call-returns_example :
    (x' : Session calls) × (start_call calls 2 false true a_request blocked_session ≡ some x')
    × (((x'.threads.owners ≡ some 0 ∷ some 1 ∷ [])
          × (length x'.service.waiting ≡ suc (length asking.waiting)))
        ⊎ ((status : Status) × (x'.service.finished ≡ asking.finished ++ status ∷ [])
            × (awaited 1 x'.threads ≡ some status)))
    × ((awaited 0 blocked_session.threads ≡ none)
        ⊎ (awaited 0 x'.threads ≡ awaited 0 blocked_session.threads))
start_call-returns_example =
    start_call-returns calls 2 false a_request 0 blocked_session blocked-Reach

respond_call-returns_example :
    (x' : Session calls) × (respond_call calls 3 not_found [] a_request [] tt []
        (some 0)
        []
        blocked_session
      ≡ some x')
    × (awaited 0 x'.threads ≡ some not_found)
    × ((awaited 1 blocked_session.threads ≡ none)
        ⊎ (awaited 1 x'.threads ≡ awaited 1 blocked_session.threads))
respond_call-returns_example =
    respond_call-returns calls 3 not_found [] a_request [] tt [] 0 [] 1 blocked_session
      blocked-Reach asking_waits refl
