-- ===== src/BlockingQueue/Tests.antt =====
-- LinkedBlockingQueue.c at concrete queues.
use moonlight_common_c.Prelude.{◌≡◌, ◌<◌, refl, false, none, some, List, [], ◌∷◌, arith}
use moonlight_common_c.BlockingQueue.{
  null, Memory, Queue, success, interrupted, bound_exceeded, user_wake, offer, poll, must_wait,
  wait, peek, signal_user_wake, signal_drain,
}
use moonlight_common_c.BlockingQueue.Spec
use moonlight_common_c.BlockingQueue.Refine.{
  Holds, view, after_offer, after_take, offer_refines, poll_refines, wait_refines, WaitHolds,
  view_wait,
}
use moonlight_common_c.BlockingQueue.Run.{
  Call, offers, polls, peeks, waits, drains, wakes, replies, asleep, returns, run, spec_run,
  spec_step, run_refines, step,
}
use moonlight_common_c.BlockingQueue.Wake.{after_calls, after_calls_wake}

abbrev blank : Memory
blank p = record { flink = null; blink = null; payload = 0 }

abbrev empty : Queue
empty = record {
  head = null;
  tail = null;
  size_bound = 2;
  current_size = 0;
  lifetime_size = 0;
  shutdown = false;
  draining = false;
  pending_user_wake = false;
  signals = 0;
  memory = blank;
}

empty-Holds : Holds empty []
empty-Holds = omega arith

-- Two items at the addresses 16 and 32, and no room for the third.
abbrev script : List Call
script =
    waits
    ∷ offers 7 16
    ∷ offers 8 32
    ∷ offers 9 48
    ∷ wakes
    ∷ waits
    ∷ waits
    ∷ drains
    ∷ polls
    ∷ polls
    ∷ []

whole_script :
    run empty script
    ≡ asleep
      ∷ replies success none
      ∷ replies success none
      ∷ replies bound_exceeded none
      ∷ returns
      ∷ replies user_wake none
      ∷ replies success (some 7)
      ∷ returns
      ∷ replies success (some 8)
      ∷ replies interrupted none
      ∷ []
unfolding run step offer poll must_wait wait signal_user_wake signal_drain
whole_script = refl

run_refines_example :
    run empty (offers 7 16 ∷ polls ∷ waits ∷ [])
    ≡ replies success none ∷ replies success (some 7) ∷ asleep ∷ []
unfolding step offer poll wait must_wait spec_run spec_step Spec.offer Spec.poll Spec.wait
run_refines_example =
    run_refines (offers 7 16 ∷ polls ∷ waits ∷ []) empty [] empty-Holds
      ((omega arith, refl), (tt, (tt, tt)))

after_calls_wake_example : 0 < (after_calls empty (peeks ∷ offers 7 16 ∷ offers 8 32 ∷ [])).signals
unfolding after_calls step offer must_wait peek
after_calls_wake_example = after_calls_wake empty (peeks ∷ offers 7 16 ∷ offers 8 32 ∷ []) refl refl

offer_refines_example :
    let (q', s) = offer empty 7 16 in
    let ys = after_offer s [] 16 7 in Holds q' ys × ((view q' ys, s) ≡ Spec.offer (view empty []) 7)
offer_refines_example = offer_refines empty [] 7 16 empty-Holds (omega arith) refl

poll_refines_example :
    let (q', s, item) = poll empty in
    let ys = after_take s [] in Holds q' ys × ((view q' ys, s, item) ≡ Spec.poll (view empty []))
poll_refines_example = poll_refines empty [] empty-Holds

wait_refines_example :
    WaitHolds [] (wait empty) × (view_wait [] (wait empty) ≡ Spec.wait (view empty []))
wait_refines_example = wait_refines empty [] empty-Holds
