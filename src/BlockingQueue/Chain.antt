-- ===== src/BlockingQueue/Chain.antt =====
-- The doubly linked list of LinkedBlockingQueue.c: which entries a queue holds, and what linking
-- at the tail and unlinking at the head do to them.
use moonlight_common_c.Prelude.{
  ℕ, ◌≡◌, ◌≢◌, refl, ap, Bool, true, false, ◌||◌, List, [], ◌∷◌, ◌++◌, arith, ◌==◌,
}
use moonlight_common_c.BlockingQueue.{Ptr, null, Memory, set_flink, set_blink}

-- What a list stands for: address and item of each entry, in order.
abbrev pub Cells : Type 0
Cells = List (Ptr × ℕ)

abbrev pub has : Ptr → Cells → Bool
has p [] = false
has p ((a, d) ∷ xs) = a == p || has p xs

abbrev pub items : Cells → List ℕ
items [] = []
items ((a, d) ∷ xs) = d ∷ items xs

-- From `p` the forward links lead through exactly the distinct entries `xs`, the last of them
-- `tail`, and each entry's backward link goes to the entry before it, `prev` for the first.
abbrev pub Chain : Memory → Ptr → Ptr → Cells → Ptr → Type 0
Chain mem prev p [] tail = (p ≡ null) × (tail ≡ prev)
Chain mem prev p ((a, d) ∷ xs) tail =
    (p ≡ a)
    × (a ≢ null)
    × ((mem a).blink ≡ prev)
    × ((mem a).payload ≡ d)
    × (has a xs ≡ false)
    × Chain mem a (mem a).flink xs tail

-- A chain does not change with memory elsewhere.
pub Chain-frame :
    (mem new : Memory) (prev p tail : Ptr) (xs : Cells)
    → ((a : Ptr) → has a xs ≡ true → new a ≡ mem a)
    → Chain mem prev p xs tail
    → Chain new prev p xs tail
Chain-frame mem new prev p tail [] same c = c
Chain-frame mem new prev p tail ((a, d) ∷ xs) same c =
    let e = same a (ground arith) in
    (
      c.0,
      c.1,
      rw e c.2,
      rw e c.3,
      c.4,
      rw e (Chain-frame mem new a (mem a).flink tail xs (λ b h. same b (ground arith)) c.5),
    )

-- The last entry of a chain that is not empty is one of its entries.
tail-has :
    (mem : Memory) (prev p tail a : Ptr) (d : ℕ) (xs : Cells)
    → Chain mem prev p ((a, d) ∷ xs) tail
    → has tail ((a, d) ∷ xs) ≡ true
tail-has mem prev p tail a d [] c = ground arith
tail-has mem prev p tail a d ((b, e) ∷ xs) c =
    ground (arith, tail-has mem a (mem a).flink tail b e xs c.5)

pub has-append : (a : Ptr) (xs ys : Cells) → has a (xs ++ ys) ≡ (has a xs || has a ys)
has-append a [] ys = refl
has-append a ((b, d) ∷ xs) ys = ground (arith, has-append a xs ys)

module _ (mem : Memory) (tail entry item : ℕ) where
  -- Memory once `entry` is linked behind `tail`.
  abbrev linked : Memory
  linked = set_blink (set_flink mem tail entry) entry tail

  -- Linking a new entry behind the last one.
  pub Chain-snoc :
      (prev p a : Ptr) (d : ℕ) (xs : Cells)
      → Chain mem prev p ((a, d) ∷ xs) tail
      → entry ≢ null
      → has entry ((a, d) ∷ xs) ≡ false
      → (mem entry).flink ≡ null
      → (mem entry).payload ≡ item
      → Chain linked prev p ((a, d) ∷ xs ++ (entry, item) ∷ []) entry
  Chain-snoc prev p a d [] c ne out f e = ground arith
  Chain-snoc prev p a d ((b, e) ∷ xs) c ne out f g =
      let inside = tail-has mem a (mem a).flink tail b e xs c.5 in
      let apart : a ≢ tail = λ h. cc (inside, c.4, h) in
      let new : (linked a) ≡ mem a = ground arith in
      (
        c.0,
        c.1,
        rw new c.2,
        rw new c.3,
        ground (arith, has-append a xs ((entry, item) ∷ [])),
        rw new (Chain-snoc a (mem a).flink b e xs c.5 ne (ground arith) f g),
      )

-- Unlinking the first of several entries.
pub Chain-unlink :
    (mem : Memory) (prev p tail a : Ptr) (d : ℕ) (b : Ptr) (e : ℕ) (xs : Cells)
    → Chain mem prev p ((a, d) ∷ (b, e) ∷ xs) tail
    → Chain (set_blink mem (mem a).flink null) null (mem a).flink ((b, e) ∷ xs) tail
Chain-unlink mem prev p tail a d b e xs c =
    let rest = c.5 in
    let at : (mem a).flink ≡ b = rest.0 in
    let new : Memory = set_blink mem (mem a).flink null in
    let link : (new b).flink ≡ (mem b).flink = ground arith in
    let kept = Chain-frame mem new b (mem b).flink tail xs (λ x h. ground arith) rest.5 in
    (at, rest.1, ground arith, ground arith, rest.4, rw link kept)

pub items-append : (xs ys : Cells) → items (xs ++ ys) ≡ items xs ++ items ys
items-append [] ys = refl
items-append ((a, d) ∷ xs) ys = ap (λ ds. d ∷ ds) (items-append xs ys)
