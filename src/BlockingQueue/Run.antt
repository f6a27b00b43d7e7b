-- ===== src/BlockingQueue/Run.antt =====
-- Calls of LinkedBlockingQueue.c in the order in which they take the queue's mutex, whatever the
-- threads that make them: what each call returns, and which calls wake a sleeping thread.
use moonlight_common_c.Prelude.{
  ℕ, ◌≡◌, ◌≢◌, refl, ap, ◌∙◌, true, false, Option, none, some, List, [], ◌∷◌,
}
use moonlight_common_c.BlockingQueue.{
  Ptr, null, Queue, Status, flush_items, offer, peek, poll, wait, signal_shutdown, signal_drain,
  signal_user_wake,
}
use moonlight_common_c.BlockingQueue.Chain.{Cells, has}
use moonlight_common_c.BlockingQueue.Spec
use moonlight_common_c.BlockingQueue.Spec.{Fifo}
use moonlight_common_c.BlockingQueue.Refine.{
  Holds, view, after_offer, after_take, offer_refines, poll_refines, peek_refines, wait_refines,
  flush_items_refines, WaitHolds, view_wait,
}

pub data Call : Type 0 where
  offers : ℕ → Ptr → Call
  polls peeks waits flushes shuts_down drains wakes : Call

-- What a caller sees. A wait that goes to sleep has not returned yet.
pub data Reply : Type 0 where
  replies : Status → Option ℕ → Reply
  asleep returns : Reply

abbrev waited : Queue → Option (Queue × Status × Option ℕ) → Queue × Reply
waited q none = (q, asleep)
waited q (some (q', s, item)) = (q', replies s item)

unfoldable pub step : Queue → Call → Queue × Reply
step q (offers x entry) = let (q', s) = offer q x entry in (q', replies s none)
step q polls = let (q', s, item) = poll q in (q', replies s item)
step q peeks = let (s, item) = peek q in (q, replies s item)
step q waits = waited q (wait q)
step q flushes = ((flush_items q).0, returns)
step q shuts_down = (signal_shutdown q, returns)
step q drains = (signal_drain q, returns)
step q wakes = (signal_user_wake q, returns)

abbrev spec_waited : Fifo → Option (Fifo × Status × Option ℕ) → Fifo × Reply
spec_waited s none = (s, asleep)
spec_waited s (some (s', status, item)) = (s', replies status item)

unfoldable pub spec_step : Fifo → Call → Fifo × Reply
spec_step s (offers x entry) = let (s', status) = Spec.offer s x in (s', replies status none)
spec_step s polls = let (s', status, item) = Spec.poll s in (s', replies status item)
spec_step s peeks = let (status, item) = Spec.peek s in (s, replies status item)
spec_step s waits = spec_waited s (Spec.wait s)
spec_step s flushes = ((Spec.flush s).0, returns)
spec_step s shuts_down = (record s { shutdown = true }, returns)
spec_step s drains = (record s { draining = true }, returns)
spec_step s wakes = (record s { pending_user_wake = true }, returns)

-- The replies to a sequence of calls.
unfoldable pub run : Queue → List Call → List Reply
run q [] = []
run q (c ∷ cs) = let (q', r) = step q c in r ∷ run q' cs

unfoldable pub spec_run : Fifo → List Call → List Reply
spec_run s [] = []
spec_run s (c ∷ cs) = let (s', r) = spec_step s c in r ∷ spec_run s' cs

-- The entries that the queue holds after a call.
abbrev pub taken : Cells → Reply → Cells
taken xs (replies s item) = after_take s xs
taken xs _ = xs

abbrev pub cells_after : Cells → Call → Reply → Cells
cells_after xs (offers x entry) (replies s item) = after_offer s xs entry x
cells_after xs polls r = taken xs r
cells_after xs waits r = taken xs r
cells_after xs flushes r = []
cells_after xs _ r = xs

-- A caller offers an entry of its own, which the queue does not hold.
abbrev pub IsFresh : Cells → Call → Type 0
IsFresh xs (offers x entry) = (entry ≢ null) × (has entry xs ≡ false)
IsFresh xs _ = Unit {0}

abbrev pub AllFresh : Queue → Cells → List Call → Type 0
AllFresh q xs [] = Unit {0}
AllFresh q xs (c ∷ cs) = IsFresh xs c × AllFresh (step q c).0 (cells_after xs c (step q c).1) cs

step_refines :
    (q : Queue) (xs : Cells) (c : Call)
    → Holds q xs
    → IsFresh xs c
    → let (q', r) = step q c in
      let ys = cells_after xs c r in Holds q' ys × ((view q' ys, r) ≡ spec_step (view q xs) c)
unfolding step spec_step signal_shutdown signal_drain signal_user_wake
step_refines q xs (offers x entry) h fresh =
    let (kept, e) = offer_refines q xs x entry h fresh.0 fresh.1 in
    (kept, ap (λ (p : Fifo × Status). (p.0, replies p.1 none)) e)
step_refines q xs polls h fresh =
    let (kept, e) = poll_refines q xs h in
    (kept, ap (λ (p : Fifo × Status × Option ℕ). (p.0, replies p.1 p.2)) e)
step_refines q xs peeks h fresh =
    (h, ap (λ (p : Status × Option ℕ). (view q xs, replies p.0 p.1)) (peek_refines q xs h))
step_refines q xs waits h fresh = go (wait q) (wait_refines q xs h)
  where
    go :
        (w : Option (Queue × Status × Option ℕ))
        → WaitHolds xs w × (view_wait xs w ≡ Spec.wait (view q xs))
        → let (q', r) = waited q w in
          Holds q' (taken xs r)
          × ((view q' (taken xs r), r) ≡ spec_waited (view q xs) (Spec.wait (view q xs)))
    go none (kept, e) = (h, ap (spec_waited (view q xs)) e)
    go (some (q', s, item)) (kept, e) = (kept, ap (spec_waited (view q xs)) e)
step_refines q xs flushes h fresh =
    let (kept, e, c) = flush_items_refines q xs h in
    (kept, ap (λ (p : Fifo × List ℕ). (p.0, returns)) e)
step_refines q xs shuts_down h fresh =
    (record { chain = h.chain; size = h.size; bounded = h.bounded; small = h.small }, refl)
step_refines q xs drains h fresh =
    (record { chain = h.chain; size = h.size; bounded = h.bounded; small = h.small }, refl)
step_refines q xs wakes h fresh =
    (record { chain = h.chain; size = h.size; bounded = h.bounded; small = h.small }, refl)

-- However the calls of any number of threads interleave, as long as each offers entries of its
-- own, their replies are those of the bounded FIFO of the queue's items.
pub run_refines :
    (cs : List Call) (q : Queue) (xs : Cells)
    → Holds q xs
    → AllFresh q xs cs
    → run q cs ≡ spec_run (view q xs) cs
unfolding run spec_run
run_refines [] q xs h fresh = refl
run_refines (c ∷ cs) q xs h fresh =
    let (kept, e) = step_refines q xs c h fresh.0 in
    let (q', r) = step q c in
    ap (λ rs. r ∷ rs) (run_refines cs q' (cells_after xs c r) kept fresh.1)
    ∙ ap (λ (p : Fifo × Reply). p.1 ∷ spec_run p.0 cs) e
