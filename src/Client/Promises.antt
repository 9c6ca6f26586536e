-- ===== src/Client/Promises.antt =====
-- The promises of the blocking calls (src/service_control_client_impl.cc): the done callback of such
-- a call sets the promise that its thread waits for. A promise is none until it is set; threads are
-- numbered in the order of their calls.
pub mod Values
pub mod Paired
use service_control_client_c.Prelude.{
  ℕ, zero, suc, ◌+◌, ◌≤◌, ◌≡◌, refl, sym, ap, Bool, true, false, Option, none, some, List, [], ◌∷◌,
  ◌++◌, length, get_elem?, drop, ltb, sum_by, nat_beq, if◌then◌else◌, ◌⊎◌, inl, inr, arith,
}
use service_control_client_c.Status.{Status}

-- `moved_promise.set_value(status)`: none where it throws, on a promise that is set.
unfoldable pub set_value : ℕ → Status → List (Option Status) → Option (List (Option Status))
set_value n status [] = none
set_value zero status (none ∷ ps) = some (some status ∷ ps)
set_value zero status (some _ ∷ ps) = none
set_value (suc n) status (p ∷ ps) = elim (set_value n status ps) [
  | none ↦ none
  | some qs ↦ some (p ∷ qs)
]

-- The runs of a done callback, with a status each: that of the thread, or one that sets no promise.
unfoldable pub deliver :
    Option ℕ → List Status → List (Option Status) → Option (List (Option Status))
deliver none news ps = some ps
deliver (some n) [] ps = some ps
deliver (some n) (status ∷ news) ps = elim (set_value n status ps) [
  | none ↦ none
  | some qs ↦ deliver (some n) news qs
]

-- The promises, and for each request that waits for the transport the promise that its response
-- sets, if any.
pub record Threads : Type 0 where
  pub owners : List (Option ℕ)
  pub promises : List (Option Status)

-- A call, of which the done callback ran with `news` before it returned; in a blocking call its
-- promise is made first.
abbrev pub owner_of : Bool → Threads → Option ℕ
owner_of blocking t = if blocking then some (length t.promises) else none

abbrev pub opened : Bool → Threads → List (Option Status)
opened blocking t = if blocking then t.promises ++ none ∷ [] else t.promises

unfoldable pub call : Bool → List Status → Bool → Threads → Option Threads
call blocking news waits t = elim (deliver (owner_of blocking t) news (opened blocking t)) [
  | none ↦ none
  | some ps ↦ some (record {
    owners = if waits then t.owners ++ owner_of blocking t ∷ [] else t.owners;
    promises = ps;
  })
]

-- The response to a request that waits between others.
unfoldable pub answered :
    List (Option ℕ) → Option ℕ → List (Option ℕ) → List Status → Threads → Option Threads
answered before owner after news t = elim (deliver owner news t.promises) [
  | none ↦ none
  | some ps ↦ some (record { owners = before ++ after; promises = ps })
]

-- `status_future.wait()` and `get()`: the status, or none where the thread is blocked.
abbrev pub awaited : ℕ → Threads → Option Status
awaited n t = elim (get_elem? t.promises n) [ none ↦ none | some p ↦ p ]

-- 1 where the thread has a promise that is not set, and 0 otherwise.
abbrev pub blocked : ℕ → List (Option Status) → ℕ
blocked n [] = 0
blocked zero (none ∷ ps) = 1
blocked zero (some _ ∷ ps) = 0
blocked (suc n) (p ∷ ps) = blocked n ps

abbrev pub owns : ℕ → Option ℕ → ℕ
owns n none = 0
owns n (some m) = if nat_beq n m then 1 else 0

-- Every thread is blocked exactly while one request of it waits.
abbrev pub IsPaired : Threads → Type 0
IsPaired t = (n : ℕ) → sum_by (owns n) t.owners ≡ blocked n t.promises

-- The promises that are set stay as they are.
abbrev pub Keeps : List (Option Status) → List (Option Status) → Type 0
Keeps ps qs = (m : ℕ) (x : Status) → get_elem? ps m ≡ some (some x) → get_elem? qs m ≡ some (some x)

-- What a call of the client did, as its statuses before and after it and the numbers of requests
-- that wait show.
unfoldable pub after_call : Bool → List Status → List Status → ℕ → ℕ → Threads → Option Threads
after_call blocking finished finished' waiting waiting' t =
    call blocking (drop (length finished) finished') (ltb waiting waiting') t

unfoldable pub after_response :
    List (Option ℕ)
    → Option ℕ
    → List (Option ℕ)
    → List Status
    → List Status
    → Threads
    → Option Threads
after_response before owner after finished finished' t =
    answered before owner after (drop (length finished) finished') t
