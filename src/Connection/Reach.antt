-- ===== src/Connection/Reach.antt =====
-- The connections of Connection.c that the calls of the client and of other threads bring about, and
-- how LiStartConnection ends.
use moonlight_common_c.Prelude.{
  ℕ, ◌≤◌, ◌≡◌, ◌≢◌, ◌∙◌, sym, ap, subst, ◌⊎◌, inl, inr, not, some, List, [], ◌∷◌, ◌==◌, if_cases,
  arith,
}
use moonlight_common_c.Connection.{
  Connection, World, Request, li_interrupt_connection, li_stop_connection,
  cl_internal_connection_terminated, connect, cleanup, li_start_connection,
}
use moonlight_common_c.Connection.Inv.{
  live, terminations, parts, IsConsistent, li_stop_connection-IsConsistent, terminated-IsConsistent,
}
use moonlight_common_c.Connection.Stages.{HasCome, connect-HasCome}

-- How LiStartConnection ends.
abbrev pub all_stages : List ℕ
all_stages = 11 ∷ 10 ∷ 9 ∷ 8 ∷ 7 ∷ 6 ∷ 5 ∷ 3 ∷ 1 ∷ []

abbrev pub IsStarted : Connection × ℕ → Type 0
IsStarted (c, err) = (err ≡ 0) × (c.stage ≡ 11) × (live c.log ≡ some all_stages)

abbrev pub IsUndone : Connection × ℕ → Type 0
IsUndone (c, err) = (err ≢ 0) × (c.stage ≡ 0) × (live c.log ≡ some [])

cleanup_lem :
    (r : Connection × ℕ)
    → HasCome 11 r
    → (IsStarted (cleanup r) ⊎ IsUndone (cleanup r)) × IsConsistent (cleanup r).0
cleanup_lem (c, err) h =
    let s = h.consistent in
    let bound = h.bound in
    let arrived = h.arrived in
    let P : Connection × ℕ → Type 0 = λ r. (IsStarted r ⊎ IsUndone r) × IsConsistent r.0 in
    if_cases P (not (err == 0))
      (λ f.
        let (s', at) = li_stop_connection-IsConsistent c s bound in
        let balanced = s'.balanced in
        let fails : err ≢ 0 = λ z. absurd (ground arith) in
        (inr (fails, at, balanced ∙ ap (λ k. some (parts k)) at), s'))
      (λ t.
        let z : err ≡ 0 = ground arith in
        let at = arrived z in
        let balanced = s.balanced in (inl (z, at, balanced ∙ ap (λ k. some (parts k)) at), s))

-- The connections that the client's calls and the other threads bring about from an unused one. The
-- client starts a connection only while it has none.
pub data SessionReached : Connection → Type 0 where
  unused : (c : Connection) → c.stage ≡ 0 → c.log ≡ [] → SessionReached c
  started :
      (w : World) (r : Request) (c : Connection)
      → SessionReached c
      → c.stage ≡ 0
      → SessionReached (li_start_connection w r c).0
  stopped : (c : Connection) → SessionReached c → SessionReached (li_stop_connection c)
  interrupted : (c : Connection) → SessionReached c → SessionReached (li_interrupt_connection c)
  terminated :
      (err : ℕ) (c : Connection)
      → SessionReached c
      → SessionReached (cl_internal_connection_terminated err c)

SessionReached-IsConsistent : (c : Connection) → SessionReached c → IsConsistent c × (c.stage ≤ 11)
unfolding li_start_connection li_interrupt_connection
SessionReached-IsConsistent c (unused _ at no_log) = (
  record {
    balanced = ap live no_log ∙ ap (λ k. some (parts k)) (sym at);
    once = subst (λ es. terminations es ≤ 1) (sym no_log) (omega arith);
    calm = λ _. ap terminations no_log;
  },
  omega arith,
)
SessionReached-IsConsistent c (started w r c0 before at) =
    let (s, _) = SessionReached-IsConsistent c0 before in
    let (ends, s') = cleanup_lem (connect w r c0) (connect-HasCome w r c0 s at) in
    (s', elim ends [ inl (_, at, _) ↦ omega arith | inr (_, at, _) ↦ omega arith ])
SessionReached-IsConsistent c (stopped c0 before) =
    let (s, bound) = SessionReached-IsConsistent c0 before in
    let (s', at) = li_stop_connection-IsConsistent c0 s bound in (s', omega arith)
SessionReached-IsConsistent c (interrupted c0 before) =
    let (s, bound) = SessionReached-IsConsistent c0 before in
    let balanced = s.balanced in
    let once = s.once in
    let calm = s.calm in (record { balanced = balanced; once = once; calm = calm }, bound)
SessionReached-IsConsistent c (terminated err c0 before) =
    let (s, bound) = SessionReached-IsConsistent c0 before in
    let (s', same) = terminated-IsConsistent err c0 s in (s', omega arith)

-- LiStartConnection, called while there is no connection, after any calls and whatever the other
-- parts return: it returns 0, and then all stages are open, or it returns an error, and then
-- every stage it opened is closed again, the latest first, and the connection is back at stage
-- 0. In both cases the client has got its termination callback at most once since it was hooked,
-- whatever other threads report while the stages are opened, if their calls of
-- ClInternalConnectionTerminated do not overlap.
pub li_start_connection_lem :
    (w : World) (r : Request) (c : Connection)
    → SessionReached c
    → c.stage ≡ 0
    → (IsStarted (li_start_connection w r c) ⊎ IsUndone (li_start_connection w r c))
      × (terminations (li_start_connection w r c).0.log ≤ 1)
unfolding li_start_connection
li_start_connection_lem w r c before at =
    let (s, _) = SessionReached-IsConsistent c before in
    let (ends, s') = cleanup_lem (connect w r c) (connect-HasCome w r c s at) in
    let once = s'.once in (ends, once)
