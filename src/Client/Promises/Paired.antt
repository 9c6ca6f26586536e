-- ===== src/Client/Promises/Paired.antt =====
-- A thread of a blocking call is blocked exactly while one request of it waits
-- (src/service_control_client_impl.cc).
use mathlib.Core.Path.{subst}
use service_control_client_c.Prelude.{
  ℕ, suc, ◌+◌, ◌≡◌, refl, ap, ◌∙◌, Bool, true, false, Option, none, some, List, [], ◌∷◌, ◌++◌,
  length, drop, ltb, lt→ltb, drop-append, drop-length, length-append, sum_by, sum_by-append, ◌⊎◌,
  inl, inr, arith,
}
use service_control_client_c.Status.{Status}
use service_control_client_c.Client.Promises.{
  deliver, Threads, owner_of, call, answered, after_call, after_response, awaited, blocked, owns,
  IsPaired, Keeps,
}
use service_control_client_c.Client.Promises.Values.{
  set_value-blocked, blocked-open, Keeps-open, blocked_le, owns_self, awaited_lem,
}

waits_between :
    (m : ℕ) (before : List (Option ℕ)) (owner : Option ℕ) (after : List (Option ℕ)) (t : Threads)
    → t.owners ≡ before ++ owner ∷ after
    → IsPaired t
    → owns m owner + sum_by (owns m) (before ++ after) ≡ blocked m t.promises
waits_between m before owner after t w h = omega (
  arith,
  h m,
  ap (sum_by (owns m)) w,
  sum_by-append (owns m) before (owner ∷ after),
  sum_by-append (owns m) before after,
)

-- A request whose owner is blocked is answered.
pub answered-IsPaired :
    (status : Status) (before : List (Option ℕ)) (owner : Option ℕ) (after : List (Option ℕ))
    (t : Threads)
    → t.owners ≡ before ++ owner ∷ after
    → IsPaired t
    → (t' : Threads) × (answered before owner after (status ∷ []) t ≡ some t')
      × (t'.owners ≡ before ++ after)
      × IsPaired t'
      × ((n : ℕ) → owner ≡ some n → awaited n t' ≡ some status)
      × Keeps t.promises t'.promises
unfolding answered deliver
answered-IsPaired status before none after t w h = (
  record { owners = before ++ after; promises = t.promises },
  refl,
  refl,
  λ m. omega (arith, waits_between m before none after t w h),
  λ n e. absurd (cc e),
  λ m x k. k,
)
answered-IsPaired status before (some n) after t w h =
    let (qs, e, g, c, k) = set_value-blocked n status t.promises (
      omega (
        arith,
        waits_between n before (some n) after t w h,
        owns_self n,
        blocked_le n t.promises,
      )) in
    let t' : Threads = record { owners = before ++ after; promises = qs } in
    (
      t',
      rw (answered, deliver, e) refl,
      refl,
      λ m. omega (arith, waits_between m before (some n) after t w h, c m),
      λ m q. subst (λ i. awaited i t' ≡ some status) (cc q) (awaited_lem n status t' g),
      k,
    )

-- A call whose done callback did not run, and one in which it ran once.
pub call_waiting-IsPaired :
    (blocking : Bool) (t : Threads)
    → IsPaired t
    → (t' : Threads) × (call blocking [] true t ≡ some t')
      × (t'.owners ≡ t.owners ++ owner_of blocking t ∷ [])
      × IsPaired t'
      × Keeps t.promises t'.promises
unfolding call deliver
call_waiting-IsPaired false t h = (
  record { owners = t.owners ++ none ∷ []; promises = t.promises },
  refl,
  refl,
  λ m. omega (arith, h m, sum_by-append (owns m) t.owners (none ∷ [])),
  λ m x k. k,
)
call_waiting-IsPaired true t h = (
  record { owners = t.owners ++ some (length t.promises) ∷ []; promises = t.promises ++ none ∷ [] },
  refl,
  refl,
  λ m. omega (
    arith,
    h m,
    sum_by-append (owns m) t.owners (some (length t.promises) ∷ []),
    blocked-open m t.promises,
  ),
  Keeps-open t.promises (none ∷ []),
)

pub call_done-IsPaired :
    (blocking : Bool) (status : Status) (t : Threads)
    → IsPaired t
    → (t' : Threads) × (call blocking (status ∷ []) false t ≡ some t')
      × (t'.owners ≡ t.owners)
      × IsPaired t'
      × ((n : ℕ) → owner_of blocking t ≡ some n → awaited n t' ≡ some status)
      × Keeps t.promises t'.promises
unfolding call deliver
call_done-IsPaired false status t h = (t, refl, refl, h, λ n e. absurd (cc e), λ m x k. k)
call_done-IsPaired true status t h =
    let l = length t.promises in
    let (qs, e, g, c, k) = set_value-blocked l status (t.promises ++ none ∷ []) (
      omega
        (arith, blocked-open l t.promises, owns_self l, blocked_le l (t.promises ++ none ∷ []))) in
    let t' : Threads = record { owners = t.owners; promises = qs } in
    (
      t',
      rw (call, deliver, e) refl,
      refl,
      λ m. omega (arith, h m, c m, blocked-open m t.promises),
      λ m q. subst (λ i. awaited i t' ≡ some status) (cc q) (awaited_lem l status t' g),
      λ m x r. k m x (Keeps-open t.promises (none ∷ []) m x r),
    )

waiting_news :
    (f f' : List Status) (w w' : ℕ)
    → f' ≡ f
    → w' ≡ suc w
    → (drop (length f) f' ≡ []) × (ltb w w' ≡ true)
waiting_news f f' w w' e q =
    (ap (drop (length f)) e ∙ drop-length f, lt→ltb w w' (omega (arith, q)))

done_news :
    (f f' : List Status) (status : Status) (w w' : ℕ)
    → f' ≡ f ++ status ∷ []
    → w' ≡ w
    → (drop (length f) f' ≡ status ∷ []) × (ltb w w' ≡ false)
done_news f f' status w w' e q =
    (ap (drop (length f)) e ∙ drop-append f (status ∷ []), ground (arith, q))

-- The outcome of a call: its request waits, or its done callback ran once.
abbrev pub IsOutcome : List Status → List Status → ℕ → ℕ → Type 0
IsOutcome f f' w w' =
    ((f' ≡ f) × (w' ≡ suc w)) ⊎ ((status : Status) × (f' ≡ f ++ status ∷ []) × (w' ≡ w))

pub after_call-IsPaired :
    (blocking : Bool) (f f' : List Status) (w w' : ℕ) (t : Threads)
    → IsOutcome f f' w w'
    → IsPaired t
    → length t.owners ≡ w
    → (t' : Threads) × (after_call blocking f f' w w' t ≡ some t')
      × (length t'.owners ≡ w')
      × IsPaired t'
      × Keeps t.promises t'.promises
      × (((t'.owners ≡ t.owners ++ owner_of blocking t ∷ []) × (w' ≡ suc w))
          ⊎ ((status : Status) × (f' ≡ f ++ status ∷ [])
              × ((n : ℕ) → owner_of blocking t ≡ some n → awaited n t' ≡ some status)))
unfolding after_call
after_call-IsPaired blocking f f' w w' t (inl (e, q)) h l =
    let (t', r, o, p, k) = call_waiting-IsPaired blocking t h in
    (
      t',
      rw (waiting_news f f' w w' e q).0 (rw (waiting_news f f' w w' e q).1 r),
      omega (arith, q, l, ap length o, length-append t.owners (owner_of blocking t ∷ [])),
      p,
      k,
      inl (o, q),
    )
after_call-IsPaired blocking f f' w w' t (inr (status, e, q)) h l =
    let (t', r, o, p, g, k) = call_done-IsPaired blocking status t h in
    (
      t',
      rw (done_news f f' status w w' e q).0 (rw (done_news f f' status w w' e q).1 r),
      omega (arith, q, l, ap length o),
      p,
      k,
      inr (status, e, g),
    )

pub after_response-IsPaired :
    (before : List (Option ℕ)) (owner : Option ℕ) (after : List (Option ℕ)) (f : List Status)
    (status : Status) (t : Threads)
    → t.owners ≡ before ++ owner ∷ after
    → IsPaired t
    → (t' : Threads) × (after_response before owner after f (f ++ status ∷ []) t ≡ some t')
      × (t'.owners ≡ before ++ after)
      × IsPaired t'
      × ((n : ℕ) → owner ≡ some n → awaited n t' ≡ some status)
      × Keeps t.promises t'.promises
unfolding after_response
after_response-IsPaired before owner after f status t w h =
    let (t', r, o, p, g, k) = answered-IsPaired status before owner after t w h in
    (t', rw (drop-append f (status ∷ [])) r, o, p, g, k)
