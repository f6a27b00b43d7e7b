-- ===== src/BlockingQueue.antt =====
-- LinkedBlockingQueue.c and LinkedBlockingQueue.h: the bounded queue that the packet threads share,
-- with its entries linked through the callers' memory.
-- Every operation holds the queue's mutex from its first read to its last write, so each is one
-- step on the state. `signals` counts the calls of PltSignalConditionVariable.
-- LC_ASSERT is compiled out of release builds and has no counterpart here.
pub mod Chain
pub mod Spec
pub mod Refine
pub mod Run
pub mod Wake
mod Tests
use moonlight_common_c.Prelude.{
  ℕ, ◌+◌, ◌-◌, ◌^◌, Bool, true, false, not, ◌&&◌, ◌||◌, Option, none, some, ◌==◌, if◌then◌else◌,
}
use moonlight_common_c.Seq.{u32}

-- An address; NULL is 0.
abbrev pub Ptr : Type 0
Ptr = ℕ

abbrev pub null : Ptr
null = 0

-- LINKED_BLOCKING_QUEUE_ENTRY
pub record Entry : Type 0 where
  pub flink : Ptr
  pub blink : Ptr
  pub payload : ℕ

abbrev pub Memory : Type 0
Memory = Ptr → Entry

-- The writes `p->flink = v`, `p->blink = v` and `p->data = v`.
abbrev pub set_flink : Memory → Ptr → Ptr → Memory
set_flink mem p v a = if a == p then record (mem a) { flink = v } else mem a

abbrev pub set_blink : Memory → Ptr → Ptr → Memory
set_blink mem p v a = if a == p then record (mem a) { blink = v } else mem a

abbrev pub set_payload : Memory → Ptr → ℕ → Memory
set_payload mem p v a = if a == p then record (mem a) { payload = v } else mem a

-- LINKED_BLOCKING_QUEUE, with the memory of the entries.
pub record Queue : Type 0 where
  pub head : Ptr
  pub tail : Ptr
  pub size_bound : ℕ
  pub current_size : ℕ
  pub lifetime_size : ℕ
  pub shutdown : Bool
  pub draining : Bool
  pub pending_user_wake : Bool
  pub signals : ℕ
  pub memory : Memory

pub data Status : Type 0 where
  success interrupted bound_exceeded no_element user_wake : Status

-- LbqInitializeLinkedBlockingQueue. The first two arguments are what PltCreateMutex and
-- PltCreateConditionVariable return, and the result is the error code.
unfoldable pub initialize : ℕ → ℕ → Memory → ℕ → Queue × ℕ
initialize mutex_err cond_err mem bound =
    if not (mutex_err == 0)
    then (zeroed, mutex_err)
    else if not (cond_err == 0)
    then (zeroed, cond_err)
    else (record zeroed { size_bound = bound }, 0)
  where
    zeroed : Queue
    zeroed = record {
      head = null;
      tail = null;
      size_bound = 0;
      current_size = 0;
      lifetime_size = 0;
      shutdown = false;
      draining = false;
      pending_user_wake = false;
      signals = 0;
      memory = mem;
    }

-- LbqDestroyLinkedBlockingQueue hands the entries back to the caller.
unfoldable pub destroy : Queue → Ptr
destroy q = q.head

unfoldable pub flush_items : Queue → Queue × Ptr
flush_items q =
    if not (q.head == null)
    then (record q { head = null; tail = null; current_size = 0 }, q.head)
    else (q, q.head)

unfoldable pub signal_shutdown : Queue → Queue
signal_shutdown q = record q { shutdown = true; signals = q.signals + 1 }

unfoldable pub signal_drain : Queue → Queue
signal_drain q = record q { draining = true; signals = q.signals + 1 }

unfoldable pub signal_user_wake : Queue → Queue
signal_user_wake q = record q { pending_user_wake = true; signals = q.signals + 1 }

unfoldable pub get_item_count : Queue → ℕ
get_item_count q = q.current_size

-- The part of LbqOfferQueueItem behind its two early returns.
link_entry : Queue → Ptr → Queue
link_entry q entry =
    if q.head == null
    then record q {
      head = entry;
      tail = entry;
      memory = set_blink q.memory entry null;
      current_size = u32 (q.current_size + 1);
      lifetime_size = u32 (q.lifetime_size + 1);
      signals = q.signals + 1;
    }
    else record q {
      tail = entry;
      memory = set_blink (set_flink q.memory q.tail entry) entry q.tail;
      current_size = u32 (q.current_size + 1);
      lifetime_size = u32 (q.lifetime_size + 1);
    }

-- The first two writes of LbqOfferQueueItem, which are made in any case.
prepare_entry : Queue → ℕ → Ptr → Queue
prepare_entry q item entry = record q {
  memory = set_payload (set_flink q.memory entry null) entry item;
}

accept : Queue → Ptr → Queue × Status
unfolding link_entry
accept q entry =
    if q.shutdown || q.draining
    then (q, interrupted)
    else if q.current_size == q.size_bound
    then (q, bound_exceeded)
    else (link_entry q entry, success)

unfoldable pub offer : Queue → ℕ → Ptr → Queue × Status
unfolding prepare_entry accept
offer q item entry = accept (prepare_entry q item entry) entry

-- The option is what goes through the `data` argument: `none` where it is not written.
unfoldable pub peek : Queue → Status × Option ℕ
peek q =
    if q.shutdown
    then (interrupted, none)
    else if q.head == null
    then (if q.draining then interrupted else no_element, none)
    else (success, some (q.memory q.head).payload)

-- The unlinking of the head, the same text in LbqPollQueueElement and LbqWaitForQueueElement.
take_head : Queue → Queue × Status × Option ℕ
take_head q =
    let entry = q.memory q.head in
    let size = u32 (q.current_size + 2 ^ 32 - 1) in
    if entry.flink == null
    then (
      record q { head = entry.flink; current_size = size; tail = null },
      success,
      some entry.payload,
    )
    else (
      record q {
        head = entry.flink;
        current_size = size;
        memory = set_blink q.memory entry.flink null;
      },
      success,
      some entry.payload,
    )

unfoldable pub poll : Queue → Queue × Status × Option ℕ
unfolding take_head
poll q =
    if q.shutdown
    then (q, interrupted, none)
    else if q.head == null
    then (q, (if q.draining then interrupted else no_element), none)
    else take_head q

-- The test of the loop in LbqWaitForQueueElement: the thread sleeps while it holds.
unfoldable pub must_wait : Queue → Bool
must_wait q = q.head == null && not q.draining && not q.shutdown && not q.pending_user_wake

-- One evaluation of LbqWaitForQueueElement from the loop's test on: `none` if the thread goes (back)
-- to sleep on the condition variable, else what the call returns.
unfoldable pub wait : Queue → Option (Queue × Status × Option ℕ)
unfolding must_wait take_head
wait q =
    if must_wait q
    then none
    else if q.shutdown
    then some (q, interrupted, none)
    else if q.pending_user_wake
    then some (record q { pending_user_wake = false }, user_wake, none)
    else if q.draining && q.head == null
    then some (q, interrupted, none)
    else some (take_head q)
