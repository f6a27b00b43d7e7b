-- ===== src/BlockingQueue/Spec.antt =====
-- The contract of LinkedBlockingQueue.h, without links: a first-in first-out queue of at most
-- `bound` items with three flags.
use moonlight_common_c.Prelude.{
  ℕ, Bool, false, ◌||◌, Option, none, some, List, [], ◌∷◌, ◌++◌, ◌==◌, if◌then◌else◌, length,
}
use moonlight_common_c.BlockingQueue.{
  Status, success, interrupted, bound_exceeded, no_element, user_wake,
}

pub record Fifo : Type 0 where
  pub contents : List ℕ
  pub bound : ℕ
  pub shutdown : Bool
  pub draining : Bool
  pub pending_user_wake : Bool

unfoldable pub offer : Fifo → ℕ → Fifo × Status
offer s x =
    if s.shutdown || s.draining
    then (s, interrupted)
    else if length s.contents == s.bound
    then (s, bound_exceeded)
    else (record s { contents = s.contents ++ x ∷ [] }, success)

-- What a queue with no item tells.
abbrev pub nothing : Fifo → Status
nothing s = if s.draining then interrupted else no_element

peek_contents : Fifo → List ℕ → Status × Option ℕ
peek_contents s [] = (nothing s, none)
peek_contents s (x ∷ xs) = (success, some x)

unfoldable pub peek : Fifo → Status × Option ℕ
unfolding peek_contents
peek s = if s.shutdown then (interrupted, none) else peek_contents s s.contents

poll_contents : Fifo → List ℕ → Fifo × Status × Option ℕ
poll_contents s [] = (s, nothing s, none)
poll_contents s (x ∷ xs) = (record s { contents = xs }, success, some x)

unfoldable pub poll : Fifo → Fifo × Status × Option ℕ
unfolding poll_contents
poll s = if s.shutdown then (s, interrupted, none) else poll_contents s s.contents

wait_contents : Fifo → List ℕ → Option (Fifo × Status × Option ℕ)
wait_contents s [] = if s.draining then some (s, interrupted, none) else none
wait_contents s (x ∷ xs) = some (record s { contents = xs }, success, some x)

-- A waiter leaves on shutdown first, then on a user's wake, which it consumes, and then with an item;
-- on an empty queue it leaves only if that is draining, and sleeps (`none`) otherwise.
unfoldable pub wait : Fifo → Option (Fifo × Status × Option ℕ)
unfolding wait_contents
wait s =
    if s.shutdown
    then some (s, interrupted, none)
    else if s.pending_user_wake
    then some (record s { pending_user_wake = false }, user_wake, none)
    else wait_contents s s.contents

unfoldable pub flush : Fifo → Fifo × List ℕ
flush s = (record s { contents = [] }, s.contents)
