-- ===== src/BlockingQueue/Wake.antt =====
-- The condition variable of LinkedBlockingQueue.c: no change that a sleeping thread waits for goes
-- without a signal.
use moonlight_common_c.Prelude.{
  ◌≤◌, ◌<◌, ◌≡◌, true, false, List, [], ◌∷◌, arith, Bool-cases, inl, inr,
}
use moonlight_common_c.BlockingQueue.{
  Queue, flush_items, offer, poll, must_wait, wait, signal_shutdown, signal_drain, signal_user_wake,
}
use moonlight_common_c.BlockingQueue.Run.{
  Call, offers, polls, peeks, waits, flushes, shuts_down, drains, wakes, step,
}

unfoldable pub after_calls : Queue → List Call → Queue
after_calls q [] = q
after_calls q (c ∷ cs) = after_calls (step q c).0 cs

-- A call either signals once or not at all.
step-signals : (q : Queue) (c : Call) → q.signals ≤ (step q c).0.signals
unfolding step offer poll flush_items wait signal_shutdown signal_drain signal_user_wake
step-signals q (offers x entry) = ground arith
step-signals q polls = ground arith
step-signals q peeks = ground arith
step-signals q waits = ground arith
step-signals q flushes = ground arith
step-signals q shuts_down = ground arith
step-signals q drains = ground arith
step-signals q wakes = ground arith

-- A call that ends the condition for sleeping signals.
step_wakes :
    (q : Queue) (c : Call)
    → must_wait q ≡ true
    → must_wait (step q c).0 ≡ false
    → q.signals < (step q c).0.signals
unfolding step must_wait offer poll flush_items wait signal_shutdown signal_drain signal_user_wake
step_wakes q (offers x entry) asleep awake = ground arith
step_wakes q polls asleep awake = ground arith
step_wakes q peeks asleep awake = ground arith
step_wakes q waits asleep awake = ground arith
step_wakes q flushes asleep awake = ground arith
step_wakes q shuts_down asleep awake = ground arith
step_wakes q drains asleep awake = ground arith
step_wakes q wakes asleep awake = ground arith

after_calls-signals : (q : Queue) (cs : List Call) → q.signals ≤ (after_calls q cs).signals
unfolding after_calls
after_calls-signals q [] = omega arith
after_calls-signals q (c ∷ cs) =
    omega (arith, step-signals q c, after_calls-signals (step q c).0 cs)

-- No wake-up is lost: if a queue has nothing for a waiter and after some calls it has, then at
-- least one of the calls has signalled the condition variable.
pub after_calls_wake :
    (q : Queue) (cs : List Call)
    → must_wait q ≡ true
    → must_wait (after_calls q cs) ≡ false
    → q.signals < (after_calls q cs).signals
unfolding after_calls
after_calls_wake q [] asleep awake = cc
after_calls_wake q (c ∷ cs) asleep awake = elim (Bool-cases (must_wait (step q c).0)) [
  | inl still ↦ omega (arith, step-signals q c, after_calls_wake (step q c).0 cs still awake)
  | inr woken ↦ omega (arith, step_wakes q c asleep woken, after_calls-signals (step q c).0 cs)
]
