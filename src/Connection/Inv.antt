-- ===== src/Connection/Inv.antt =====
-- What holds of a connection of Connection.c between the steps of its stages, and how its stages are
-- undone.
use moonlight_common_c.Prelude.{
  ℕ, zero, suc, ◌-◌, ◌≤◌, ◌≡◌, ◌∙◌, ◌||◌, refl, sym, ap, subst, Bool, true, false, Option, none,
  some, List, [], ◌∷◌, ◌==◌, if◌then◌else◌, ==_iff, if_cases, arith,
}
use moonlight_common_c.Connection.{
  Event, listener_hooked, opened, closed, connection_terminated, Connection, has_cleanup,
  li_interrupt_connection, undo, undo_from, li_stop_connection, cl_internal_connection_terminated,
  Meanwhile, reported, interrupts, meanwhile,
}

-- The stages that are open according to a log, the latest first. What is closed must be the latest.
abbrev pub pop : ℕ → List ℕ → Option (List ℕ)
pop n [] = none
pop n (m ∷ ms) = if m == n then some ms else none

abbrev pub open_after : Event → Option (List ℕ) → Option (List ℕ)
open_after e none = none
open_after e (some ns) = elim e [ opened n ↦ some (n ∷ ns) | closed n ↦ pop n ns | _ ↦ some ns ]

abbrev pub live : List Event → Option (List ℕ)
live [] = some []
live (e ∷ es) = open_after e (live es)

-- The calls of the client's callback since it was hooked.
abbrev pub terminations : List Event → ℕ
terminations [] = 0
terminations (e ∷ es) = elim e [
  | listener_hooked ↦ 0
  | connection_terminated err ↦ suc (terminations es)
  | _ ↦ terminations es
]

-- The stages up to `n` that have something to undo.
abbrev pub parts : ℕ → List ℕ
parts zero = []
parts (suc n) = if has_cleanup (suc n) then suc n ∷ parts n else parts n

pub record IsConsistent (c : Connection) : Type 0 where
  pub balanced : live c.log ≡ some (parts c.stage)
  pub once : terminations c.log ≤ 1
  pub calm : c.already_terminated ≡ false → terminations c.log ≡ 0

closed_log :
    (b : Bool) (n : ℕ) (es : List Event)
    → live es ≡ some (if b then suc n ∷ parts n else parts n)
    → (live (if b then closed (suc n) ∷ es else es) ≡ some (parts n))
      × (terminations (if b then closed (suc n) ∷ es else es) ≡ terminations es)
closed_log true n es h =
    let same : (suc n == suc n) ≡ true = (==_iff (suc n) (suc n)).1 refl in
    let popped : live (closed (suc n) ∷ es) ≡ pop (suc n) (suc n ∷ parts n) =
      ap (open_after (closed (suc n))) h in
    (popped ∙ ap (λ b. if b then some (parts n) else none) same, refl)
closed_log false n es h = (h, refl)

pub undo-IsConsistent : (n : ℕ) (c : Connection) → IsConsistent c → IsConsistent (undo (suc n) c)
unfolding undo
undo-IsConsistent n c s =
    let balanced = s.balanced in
    let once = s.once in
    let calm = s.calm in
    if_cases IsConsistent (c.stage == suc n)
      (λ t.
        let e = (==_iff c.stage (suc n)).0 t in
        let here = subst (λ k. live c.log ≡ some (parts k)) e balanced in
        let (l, k) = closed_log (has_cleanup (suc n)) n c.log here in
        let es = if has_cleanup (suc n) then closed (suc n) ∷ c.log else c.log in
        let less : n ≡ c.stage - 1 = omega arith in
        record {
          balanced = subst (λ m. live es ≡ some (parts m)) less l;
          once = subst (λ m. m ≤ 1) (sym k) once;
          calm = λ f. k ∙ calm f;
        })
      (λ _. s)

undo_stage : (n : ℕ) (c : Connection) → c.stage ≤ suc n → (undo (suc n) c).stage ≤ n
unfolding undo
undo_stage n c h =
    let P : Connection → Type 0 = λ c'. c'.stage ≤ n in
    if_cases P (c.stage == suc n) (λ t. omega arith) (λ f. ground arith)

undo_from-IsConsistent :
    (n : ℕ) (c : Connection)
    → IsConsistent c
    → c.stage ≤ n
    → IsConsistent (undo_from n c) × ((undo_from n c).stage ≡ 0)
unfolding undo_from
undo_from-IsConsistent zero c s h = (s, omega arith)
undo_from-IsConsistent (suc n) c s h =
    undo_from-IsConsistent n (undo (suc n) c) (undo-IsConsistent n c s) (undo_stage n c h)

pub li_stop_connection-IsConsistent :
    (c : Connection)
    → IsConsistent c
    → c.stage ≤ 11
    → IsConsistent (li_stop_connection c) × ((li_stop_connection c).stage ≡ 0)
unfolding li_stop_connection li_interrupt_connection
li_stop_connection-IsConsistent c s h =
    let balanced = s.balanced in
    let once = s.once in
    let stopped = li_interrupt_connection (record c { already_terminated = true }) in
    let start : IsConsistent stopped = record {
      balanced = balanced;
      once = once;
      calm = λ f. absurd (cc f);
    } in
    let (r, z) = undo_from-IsConsistent 11 stopped start h in
    let balanced' = r.balanced in
    let once' = r.once in
    let calm' = r.calm in (record { balanced = balanced'; once = once'; calm = calm' }, z)

left_false : (a b : Bool) → (a || b) ≡ false → a ≡ false
left_false true b h = h
left_false false b h = refl

pub terminated-IsConsistent :
    (err : ℕ) (c : Connection)
    → IsConsistent c
    → IsConsistent (cl_internal_connection_terminated err c)
      × ((cl_internal_connection_terminated err c).stage ≡ c.stage)
unfolding cl_internal_connection_terminated
terminated-IsConsistent err c s =
    let balanced = s.balanced in
    let calm = s.calm in
    let P : Connection → Type 0 = λ c'. IsConsistent c' × (c'.stage ≡ c.stage) in
    if_cases P (c.already_terminated || c.interrupted) (λ _. (s, refl))
      (λ f.
        let none_yet : terminations c.log ≡ 0 =
          calm (left_false c.already_terminated c.interrupted f) in
        (
          record {
            balanced = ap (open_after (connection_terminated err)) balanced;
            once = omega arith;
            calm = λ f. absurd (cc f);
          },
          refl,
        ))

pub meanwhile-IsConsistent :
    (ms : List Meanwhile) (c : Connection)
    → IsConsistent c
    → IsConsistent (meanwhile ms c) × ((meanwhile ms c).stage ≡ c.stage)
unfolding li_interrupt_connection
meanwhile-IsConsistent [] c s = (s, refl)
meanwhile-IsConsistent (reported err ∷ ms) c s =
    let (s', e) = terminated-IsConsistent err c s in
    let (s'', e') = meanwhile-IsConsistent ms (cl_internal_connection_terminated err c) s' in
    (s'', e' ∙ e)
meanwhile-IsConsistent (interrupts ∷ ms) c s =
    let balanced = s.balanced in
    let once = s.once in
    let calm = s.calm in
    meanwhile-IsConsistent ms (li_interrupt_connection c)
      (record { balanced = balanced; once = once; calm = calm })
