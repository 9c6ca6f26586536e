-- ===== src/Client/Blocking/Awaited.antt =====
-- Blocking calls return the status of their own request (src/service_control_client_impl.cc).
use mathlib.Core.Path.{subst}
use service_control_client_c.Prelude.{
  ℕ, suc, ◌≡◌, refl, ap, Bool, true, false, Option, none, some, List, [], ◌∷◌, ◌++◌, length,
  length-append, sum_by, Bool-cases, ◌⊎◌, inl, inr, arith,
}
use service_control_client_c.Status.{Status, invalid_argument, is_not_found}
use service_control_client_c.Client.{
  Aggregates, Service, new_service, flush_callback, finish, send, dispatch, respond, flush_service,
}
use service_control_client_c.Client.Promises.{owner_of, awaited, blocked, owns, Keeps}
use service_control_client_c.Client.Promises.Values.{Keeps-awaited}
use service_control_client_c.Client.Promises.Paired.{
  IsOutcome, after_call-IsPaired, after_response-IsPaired,
}
use service_control_client_c.Client.Blocking.{
  Session, new_session, start_call, respond_call, flush_session,
}

module _ {A Req Resp : Type 0} (ops : Aggregates A Req Resp) where
  -- Calls, responses to requests that wait, and flushes.
  pub data Reach (a : A) : Session ops → Type 0 where
    opened : Reach a (new_session ops a)
    called :
        {x x' : Session ops} (now : ℕ) (has_transport blocking : Bool) (request : Req)
        → Reach a x
        → start_call ops now has_transport blocking request x ≡ some x'
        → Reach a x'
    responded :
        {x x' : Session ops} (now : ℕ) (status : Status) (before : List Req) (request : Req)
        (after : List Req) (response : Resp) (before_owners : List (Option ℕ)) (owner : Option ℕ)
        (after_owners : List (Option ℕ))
        → Reach a x
        → (x.service).waiting ≡ before ++ request ∷ after
        → (x.threads).owners ≡ before_owners ++ owner ∷ after_owners
        → length before_owners ≡ length before
        → respond_call ops now status before request after response before_owners owner after_owners
            x
          ≡ some x'
        → Reach a x'
    flushed :
        {x : Session ops} (r : A × Status × List Req) → Reach a x → Reach a (flush_session ops r x)

  -- Every thread is blocked exactly while one request of it waits, and the owners are those of the
  -- requests that wait.
  pub record IsAligned (x : Session ops) : Type 0 where
    pub paired : (n : ℕ) → sum_by (owns n) (x.threads).owners ≡ blocked n (x.threads).promises
    pub aligned : length (x.threads).owners ≡ length (x.service).waiting

  dispatch-IsOutcome :
      (now : ℕ) (has_transport : Bool) (request : Req) (s : Service ops)
      → let s' = dispatch ops now has_transport request s in
        IsOutcome s.finished s'.finished (length s.waiting) (length s'.waiting)
  unfolding dispatch flush_callback send finish
  dispatch-IsOutcome now false request s = inr (invalid_argument, refl, refl)
  dispatch-IsOutcome now true request s =
      let status = (ops.handle now request s.aggregator).1 in
      elim (Bool-cases (is_not_found status)) [
        | inl e ↦ inl (rw e refl, rw e (omega (arith, length-append s.waiting (request ∷ []))))
        | inr e ↦ inr (status, rw e refl, rw e refl)
      ]

  -- A call, and what its thread sees after it: the request waits for it, or it has the status that
  -- the done callback got.
  start_call-IsAligned :
      (now : ℕ) (has_transport blocking : Bool) (request : Req) (x : Session ops)
      → IsAligned x
      → (x' : Session ops) × (start_call ops now has_transport blocking request x ≡ some x')
        × IsAligned x'
        × Keeps (x.threads).promises (x'.threads).promises
        × ((((x'.threads).owners ≡ (x.threads).owners ++ owner_of blocking x.threads ∷ [])
              × (length (x'.service).waiting ≡ suc (length (x.service).waiting)))
            ⊎ ((status : Status) × ((x'.service).finished ≡ (x.service).finished ++ status ∷ [])
                × ((n : ℕ)
                    → owner_of blocking x.threads ≡ some n
                    → awaited n x'.threads ≡ some status)))
  unfolding start_call
  start_call-IsAligned now has_transport blocking request x h =
      let s = x.service in
      let s' = dispatch ops now has_transport request s in
      let (t, e, l, p, k, o) =
        after_call-IsPaired blocking s.finished s'.finished (length s.waiting) (length s'.waiting)
          x.threads (dispatch-IsOutcome now has_transport request s) h.paired h.aligned in
      (
        record { service = s'; threads = t },
        rw (start_call, e) refl,
        record { paired = p; aligned = l },
        k,
        o,
      )

  respond_call-IsAligned :
      (now : ℕ) (status : Status) (before : List Req) (request : Req) (after : List Req)
      (response : Resp) (before_owners : List (Option ℕ)) (owner : Option ℕ)
      (after_owners : List (Option ℕ)) (x : Session ops)
      → (x.service).waiting ≡ before ++ request ∷ after
      → (x.threads).owners ≡ before_owners ++ owner ∷ after_owners
      → IsAligned x
      → (x' : Session ops) × (respond_call ops now status before request after response
            before_owners owner after_owners x
          ≡ some x')
        × IsAligned x'
        × Keeps (x.threads).promises (x'.threads).promises
        × ((n : ℕ) → owner ≡ some n → awaited n x'.threads ≡ some status)
  unfolding respond_call respond finish flush_callback
  respond_call-IsAligned now status before request after response bo o ao x w v h =
      let s = x.service in
      let (t, e, q, p, g, k) =
        after_response-IsPaired bo o ao s.finished status x.threads v h.paired in
      (
        record { service = respond ops now status before request after response s; threads = t },
        rw (respond_call, respond, finish, flush_callback, e) refl,
        record {
          paired = p;
          aligned = omega (
            arith,
            h.aligned,
            ap length q,
            ap length v,
            ap length w,
            length-append bo (o ∷ ao),
            length-append bo ao,
            length-append before (request ∷ after),
            length-append before after,
          );
        },
        k,
        g,
      )

  of_some : {x y : Session ops} {o : Option (Session ops)} → o ≡ some x → o ≡ some y → x ≡ y
  of_some e e' = cc (e, e')

  -- However calls (blocking or not), responses and flushes are interleaved, a thread is blocked (its
  -- promise is made and not set) exactly while a request in flight has it as its owner, which is
  -- then one request, and each request that waits for the transport has one owner, or none.
  pub Reach-IsAligned : {a : A} {x : Session ops} → Reach a x → IsAligned x
  unfolding new_service flush_service flush_callback
  Reach-IsAligned opened = record { paired = λ n. refl; aligned = refl }
  Reach-IsAligned (called {x} now has_transport blocking request r e) =
      let (y, e', h, _, _) =
        start_call-IsAligned now has_transport blocking request x (Reach-IsAligned r) in
      subst IsAligned (of_some e' e) h
  Reach-IsAligned (responded {x} now status before request after response bo o ao r w v _ e) =
      let (y, e', h, _, _) =
        respond_call-IsAligned now status before request after response bo o ao x w v
          (Reach-IsAligned r) in
      subst IsAligned (of_some e' e) h
  Reach-IsAligned (flushed f r) =
      let h = Reach-IsAligned r in record { paired = h.paired; aligned = h.aligned }

  -- A blocking call, in any state that is reached, does not throw, and afterwards its thread has the
  -- status of the done callback, which ran once, or its request is the last one that waits. A thread
  -- that has its status keeps it.
  pub start_call-returns :
      {a : A} (now : ℕ) (has_transport : Bool) (request : Req) (m : ℕ) (x : Session ops)
      → Reach a x
      → (x' : Session ops) × (start_call ops now has_transport true request x ≡ some x')
        × ((((x'.threads).owners ≡ (x.threads).owners ++ some (length (x.threads).promises) ∷ [])
              × (length (x'.service).waiting ≡ suc (length (x.service).waiting)))
            ⊎ ((status : Status) × ((x'.service).finished ≡ (x.service).finished ++ status ∷ [])
                × (awaited (length (x.threads).promises) x'.threads ≡ some status)))
        × ((awaited m x.threads ≡ none) ⊎ (awaited m x'.threads ≡ awaited m x.threads))
  start_call-returns now has_transport request m x r =
      let (y, e, _, k, o) =
        start_call-IsAligned now has_transport true request x (Reach-IsAligned r) in
      (
        y,
        e,
        elim o [
          | inl q ↦ inl q
          | inr (status, f, q) ↦ inr (status, f, q (length (x.threads).promises) refl)
        ],
        Keeps-awaited x.threads y.threads m k,
      )

  -- The response to the request of a thread, in any state that is reached, does not throw, and the
  -- thread gets the status of the response. A thread that has its status keeps it.
  pub respond_call-returns :
      {a : A} (now : ℕ) (status : Status) (before : List Req) (request : Req) (after : List Req)
      (response : Resp) (before_owners : List (Option ℕ)) (n : ℕ) (after_owners : List (Option ℕ))
      (m : ℕ) (x : Session ops)
      → Reach a x
      → (x.service).waiting ≡ before ++ request ∷ after
      → (x.threads).owners ≡ before_owners ++ some n ∷ after_owners
      → (x' : Session ops) × (respond_call ops now status before request after response
            before_owners
            (some n)
            after_owners
            x
          ≡ some x')
        × (awaited n x'.threads ≡ some status)
        × ((awaited m x.threads ≡ none) ⊎ (awaited m x'.threads ≡ awaited m x.threads))
  respond_call-returns now status before request after response bo n ao m x r w v =
      let (y, e, _, k, g) =
        respond_call-IsAligned now status before request after response bo (some n) ao x w v
          (Reach-IsAligned r) in
      (y, e, g n refl, Keeps-awaited x.threads y.threads m k)
