-- ===== src/BlockingQueue/Refine.antt =====
-- LinkedBlockingQueue.c implements the bounded FIFO of its contract: each operation on a
-- well-formed queue returns what the contract's operation returns and keeps the queue well formed.
use moonlight_common_c.Prelude.{
  ℕ, suc, ◌^◌, ◌≤◌, ◌<◌, ◌≡◌, ◌≢◌, refl, sym, subst, ap, true, false, ◌||◌, Option, none, some, [],
  ◌∷◌, ◌++◌, arith, ◌==◌, length, length-append, Bool-cases, inl, inr,
}
use moonlight_common_c.BlockingQueue.{
  Ptr, null, Memory, set_flink, set_blink, set_payload, Queue, Status, success, initialize,
  flush_items, link_entry, prepare_entry, accept, offer, peek, take_head, poll, must_wait, wait,
}
use moonlight_common_c.BlockingQueue.Chain.{
  Cells, has, items, Chain, Chain-frame, Chain-snoc, Chain-unlink, items-append,
}
use moonlight_common_c.BlockingQueue.Spec
use moonlight_common_c.BlockingQueue.Spec.{Fifo}

-- A queue whose links lead through the entries `xs` and whose count is right. A positive bound
-- fits an `int`.
pub record Holds (q : Queue) (xs : Cells) : Type 0 where
  pub chain : Chain q.memory null q.head xs q.tail
  pub size : q.current_size ≡ length xs
  pub bounded : length xs ≤ q.size_bound
  pub small : q.size_bound < 2 ^ 31

-- The contract's view of a queue.
abbrev pub view : Queue → Cells → Fifo
view q xs = record {
  contents = items xs;
  bound = q.size_bound;
  shutdown = q.shutdown;
  draining = q.draining;
  pending_user_wake = q.pending_user_wake;
}

length-items : (xs : Cells) → length (items xs) ≡ length xs
length-items [] = refl
length-items ((a, d) ∷ xs) = ap suc (length-items xs)

-- After a failure nothing has changed, and after a success the entry stands last.
abbrev pub after_offer : Status → Cells → Ptr → ℕ → Cells
after_offer success xs entry x = xs ++ (entry, x) ∷ []
after_offer _ xs entry x = xs

link_entry-Holds :
    (q : Queue) (xs : Cells) (entry x : ℕ)
    → Holds q xs
    → q.current_size ≢ q.size_bound
    → entry ≢ null
    → has entry xs ≡ false
    → (q.memory entry).flink ≡ null
    → (q.memory entry).payload ≡ x
    → Holds (link_entry q entry) (xs ++ (entry, x) ∷ [])
unfolding link_entry
link_entry-Holds q [] entry x h room ne out f e = ground arith
link_entry-Holds q ((a, d) ∷ xs) entry x h room ne out f e =
    let c = Chain-snoc q.memory q.tail entry x null q.head a d xs h.chain ne out f e in
    let full : (q.head == null) ≡ false = ground arith in
    let size = length-append xs ((entry, x) ∷ []) in
    rw full (record {
      chain = c;
      size = omega (arith, h.size, h.bounded, h.small, size);
      bounded = omega (arith, h.size, h.bounded, room, size);
      small = h.small;
    })

accept_refines :
    (q : Queue) (xs : Cells) (x entry : ℕ)
    → Holds q xs
    → entry ≢ null
    → has entry xs ≡ false
    → (q.memory entry).flink ≡ null
    → (q.memory entry).payload ≡ x
    → let (q', s) = accept q entry in
      let ys = after_offer s xs entry x in
      Holds q' ys × ((view q' ys, s) ≡ Spec.offer (view q xs) x)
unfolding accept Spec.offer
accept_refines q xs x entry h ne out f e = elim (Bool-cases (q.shutdown || q.draining)) [
  | inl closed ↦ rw closed (h, refl)
  | inr running ↦ elim (Bool-cases (q.current_size == q.size_bound)) [
    | inl full ↦ rw (running, full) (h, ground (arith, length-items xs, h.size))
    | inr room ↦
        rw (running, room)
          (
            link_entry-Holds q xs entry x h (ground arith) ne out f e,
            ground (arith, length-items xs, h.size, items-append xs ((entry, x) ∷ [])),
          )
  ]
]

prepare_entry-Holds :
    (q : Queue) (xs : Cells) (x entry : ℕ)
    → Holds q xs
    → has entry xs ≡ false
    → Holds (prepare_entry q x entry) xs
unfolding prepare_entry
prepare_entry-Holds q xs x entry h out = record {
  chain = Chain-frame q.memory _ null q.head q.tail xs (λ a i. apart a i) h.chain;
  size = h.size;
  bounded = h.bounded;
  small = h.small;
}
  where
    apart :
        (a : Ptr)
        → has a xs ≡ true
        → set_payload (set_flink q.memory entry null) entry x a ≡ q.memory a
    apart a i = let ne : a ≢ entry = λ e. cc (i, out, e) in ground arith

-- LbqOfferQueueItem on a well-formed queue, with an entry that the queue does not hold yet, returns
-- what the contract's `offer` returns. The new item stands last, unless the queue is shut down,
-- draining or full, when its contents are unchanged.
pub offer_refines :
    (q : Queue) (xs : Cells) (x entry : ℕ)
    → Holds q xs
    → entry ≢ null
    → has entry xs ≡ false
    → let (q', s) = offer q x entry in
      let ys = after_offer s xs entry x in
      Holds q' ys × ((view q' ys, s) ≡ Spec.offer (view q xs) x)
unfolding offer prepare_entry
offer_refines q xs x entry h ne out =
    accept_refines (prepare_entry q x entry) xs x entry (prepare_entry-Holds q xs x entry h out) ne
      out (ground arith) (ground arith)

-- The entries that are left when the first goes out.
abbrev pub tail_cells : Cells → Cells
tail_cells [] = []
tail_cells (x ∷ xs) = xs

take_head-Holds :
    (q : Queue) (a : Ptr) (d : ℕ) (xs : Cells)
    → Holds q ((a, d) ∷ xs)
    → Holds (take_head q).0 xs
      × ((take_head q).1 ≡ success)
      × ((take_head q).2 ≡ some d)
      × (view (take_head q).0 xs ≡ view q xs)
unfolding take_head
take_head-Holds q a d [] h = ground arith
take_head-Holds q a d ((b, e) ∷ xs) h =
    let at : q.head ≡ a = h.chain.0 in
    let more : ((q.memory q.head).flink == null) ≡ false = ground arith in
    let c =
      subst
        (λ (z : Ptr).
          Chain (set_blink q.memory (q.memory z).flink null) null (q.memory z).flink ((b, e) ∷ xs)
            q.tail)
        (sym at) (Chain-unlink q.memory null q.head q.tail a d b e xs h.chain) in
    rw more (
      record {
        chain = c;
        size = omega (arith, h.size, h.bounded, h.small);
        bounded = omega (arith, h.bounded);
        small = h.small;
      },
      refl,
      ground arith,
      refl,
    )

-- The cells that an operation with this status leaves.
abbrev pub after_take : Status → Cells → Cells
after_take success xs = tail_cells xs
after_take _ xs = xs

-- LbqPollQueueElement returns what the contract's `poll` returns: the first item, which leaves the
-- queue, or the reason why there is none.
pub poll_refines :
    (q : Queue) (xs : Cells)
    → Holds q xs
    → let (q', s, item) = poll q in
      let ys = after_take s xs in Holds q' ys × ((view q' ys, s, item) ≡ Spec.poll (view q xs))
unfolding poll Spec.poll
poll_refines q [] h = ground arith
poll_refines q ((a, d) ∷ xs) h = ground (arith, take_head-Holds q a d xs h)

-- LbqPeekQueueElement returns what the contract's `peek` returns.
pub peek_refines : (q : Queue) (xs : Cells) → Holds q xs → peek q ≡ Spec.peek (view q xs)
unfolding peek Spec.peek
peek_refines q [] h = ground arith
peek_refines q ((a, d) ∷ xs) h = ground arith

-- LbqFlushQueueItems hands over the whole chain and leaves an empty queue.
pub flush_items_refines :
    (q : Queue) (xs : Cells)
    → Holds q xs
    → let (q', p) = flush_items q in
      Holds q' []
      × ((view q' [], items xs) ≡ Spec.flush (view q xs))
      × Chain q'.memory null p xs q.tail
unfolding flush_items Spec.flush
flush_items_refines q [] h = ground arith
flush_items_refines q ((a, d) ∷ xs) h = ground arith

-- What a call of LbqWaitForQueueElement that returns leaves behind.
abbrev pub WaitHolds : Cells → Option (Queue × Status × Option ℕ) → Type 0
WaitHolds xs none = Unit {0}
WaitHolds xs (some (q', s, item)) = Holds q' (after_take s xs)

abbrev pub view_wait :
    Cells → Option (Queue × Status × Option ℕ) → Option (Fifo × Status × Option ℕ)
view_wait xs none = none
view_wait xs (some (q', s, item)) = some (view q' (after_take s xs), s, item)

-- LbqWaitForQueueElement sleeps exactly when the contract's `wait` sleeps, and otherwise returns
-- what that returns and keeps the queue well formed.
pub wait_refines :
    (q : Queue) (xs : Cells)
    → Holds q xs
    → WaitHolds xs (wait q) × (view_wait xs (wait q) ≡ Spec.wait (view q xs))
unfolding wait must_wait Spec.wait
wait_refines q [] h = ground arith
wait_refines q ((a, d) ∷ xs) h = ground (arith, take_head-Holds q a d xs h)

-- An initialisation without an error yields an empty queue with its bound.
pub initialize-Holds :
    (mem : Memory) (bound : ℕ)
    → bound < 2 ^ 31
    → let (q, err) = initialize 0 0 mem bound in (err ≡ 0) × Holds q [] × (q.size_bound ≡ bound)
unfolding initialize
initialize-Holds mem bound h = omega arith
