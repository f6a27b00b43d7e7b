-- ===== src/Connection/Stages.antt =====
-- LiStartConnection of Connection.c: the stages are opened in order, and a failure undoes them.
use moonlight_common_c.Prelude.{
  ℕ, suc, ◌+◌, ◌≤◌, ◌<◌, ◌≡◌, ◌∙◌, refl, sym, ap, subst, Bool, true, false, some, List, ◌∷◌, ◌==◌,
  if◌then◌else◌, ==_iff, if_cases, arith,
}
use moonlight_common_c.Connection.{
  Event, listener_hooked, opened, stage_starting, stage_failed, stage_complete, connection_started,
  mouse_moved, Connection, tell, has_cleanup, World, Request, meanwhile, prepare, round_packet_size,
  adjust, choose, is_refused, is_bad_audio, resolve, open_stage, and_then, celebrate, start_stages,
  open_stages, connect, minus_one,
}
use moonlight_common_c.Connection.Inv.{
  open_after, live, terminations, parts, IsConsistent, meanwhile-IsConsistent,
}

-- Up to stage `n` at most, and there without an error.
pub record HasCome (n : ℕ) (r : Connection × ℕ) : Type 0 where
  pub consistent : IsConsistent r.0
  pub bound : r.0.stage ≤ 11
  pub arrived : r.1 ≡ 0 → r.0.stage ≡ n

opened_log :
    (b : Bool) (n : ℕ) (es : List Event)
    → live es ≡ some (parts n)
    → (live (if b then opened (suc n) ∷ es else es) ≡ some (if b then suc n ∷ parts n else parts n))
      × (terminations (if b then opened (suc n) ∷ es else es) ≡ terminations es)
opened_log true n es h = (ap (open_after (opened (suc n))) h, refl)
opened_log false n es h = (h, refl)

-- An event that neither opens nor closes a stage, nor calls the client's callback.
abbrev IsSilent : Event → Type 0
IsSilent e =
    ((ns : List ℕ) → open_after e (some ns) ≡ some ns)
    × ((es : List Event) → terminations (e ∷ es) ≡ terminations es)

tell-IsConsistent :
    (e : Event) (c : Connection) → IsSilent e → IsConsistent c → IsConsistent (tell e c)
tell-IsConsistent e c (quiet, same) s =
    let balanced = s.balanced in
    let once = s.once in
    let calm = s.calm in
    record {
      balanced = ap (open_after e) balanced ∙ quiet (parts c.stage);
      once = subst (λ k. k ≤ 1) (sym (same c.log)) once;
      calm = λ f. same c.log ∙ calm f;
    }

open_stage-HasCome :
    (w : World) (n err : ℕ) (c : Connection)
    → IsConsistent c
    → c.stage ≡ n
    → n < 11
    → HasCome (suc n) (open_stage w (suc n) err c)
unfolding open_stage
open_stage-HasCome w n err c s at less =
    let begun = tell (stage_starting (suc n)) c in
    let (s', same) =
      meanwhile-IsConsistent (w.during (suc n)) begun
        (tell-IsConsistent (stage_starting (suc n)) c (λ ns. refl, λ es. refl) s) in
    let c' = meanwhile (w.during (suc n)) begun in
    let here : c'.stage ≡ n = same ∙ at in
    let balanced = s'.balanced in
    let once = s'.once in
    let calm = s'.calm in
    let (l, k) =
      opened_log (has_cleanup (suc n)) n c'.log
        (subst (λ k. live c'.log ≡ some (parts k)) here balanced) in
    let next : suc n ≡ c'.stage + 1 = omega arith in
    if_cases (HasCome (suc n)) (err == 0)
      (λ t. record {
        consistent = record {
          balanced = ap (open_after (stage_complete (suc n))) l ∙ ap (λ m. some (parts m)) next;
          once = subst (λ k. k ≤ 1) (sym k) once;
          calm = λ f. k ∙ calm f;
        };
        bound = omega arith;
        arrived = λ _. sym next;
      })
      (λ f. record {
        consistent = tell-IsConsistent (stage_failed (suc n) err) c' (λ ns. refl, λ es. refl) s';
        bound = omega arith;
        arrived = λ z. ground arith;
      })

and_then-HasCome :
    (n m : ℕ) (r : Connection × ℕ) (k : Connection → Connection × ℕ)
    → HasCome n r
    → ((c : Connection) → IsConsistent c → c.stage ≡ n → HasCome m (k c))
    → HasCome m (and_then r k)
and_then-HasCome n m (c, err) k h f =
    let consistent = h.consistent in
    let bound = h.bound in
    let arrived = h.arrived in
    if_cases (HasCome m) (err == 0) (λ t. f c consistent (arrived ((==_iff err 0).0 t)))
      (λ t. record { consistent = consistent; bound = bound; arrived = λ z. ground arith })

celebrate-HasCome : (c : Connection) → IsConsistent c → c.stage ≡ 11 → HasCome 11 (celebrate c)
celebrate-HasCome c s at = record {
  consistent =
      tell-IsConsistent connection_started _ (λ ns. refl, λ es. refl)
        (tell-IsConsistent (mouse_moved _ _) _ (λ ns. refl, λ es. refl)
          (tell-IsConsistent (mouse_moved _ _) c (λ ns. refl, λ es. refl) s));
  bound = omega arith;
  arrived = λ _. at;
}

-- A stage that follows stage `n`, and the stages behind it.
stage_then :
    (w : World) (n err : ℕ) (c : Connection) (k : Connection → Connection × ℕ)
    → IsConsistent c
    → c.stage ≡ n
    → n < 11
    → ((c : Connection) → IsConsistent c → c.stage ≡ suc n → HasCome 11 (k c))
    → HasCome 11 (and_then (open_stage w (suc n) err c) k)
stage_then w n err c k s at less f =
    and_then-HasCome (suc n) 11 (open_stage w (suc n) err c) k
      (open_stage-HasCome w n err c s at less) f

start_stages-HasCome :
    (w : World) (c : Connection) → IsConsistent c → c.stage ≡ 7 → HasCome 11 (start_stages w c)
unfolding start_stages
start_stages-HasCome w c s at =
    stage_then w 7 w.start_control_stream c _ s at (omega arith) (λ c s at.
      stage_then w 8 w.start_video_stream c _ s at (omega arith) (λ c s at.
        stage_then w 9 w.start_audio_stream c _ s at (omega arith) (λ c s at.
          stage_then w 10 w.start_input_stream c celebrate s at (omega arith) celebrate-HasCome)))

-- What the stages read of the configuration does not count.
configured :
    (c : Connection) (c' : Connection)
    → c'.stage ≡ c.stage
    → c'.already_terminated ≡ c.already_terminated
    → c'.log ≡ c.log
    → IsConsistent c
    → IsConsistent c'
configured c c' st ended same s =
    let balanced = s.balanced in
    let once = s.once in
    let calm = s.calm in
    record {
      balanced = ap live same ∙ balanced ∙ ap (λ k. some (parts k)) (sym st);
      once = subst (λ es. terminations es ≤ 1) (sym same) once;
      calm = λ f. ap terminations same ∙ calm (sym ended ∙ f);
    }

open_stages-HasCome :
    (w : World) (c : Connection) → IsConsistent c → c.stage ≡ 0 → HasCome 11 (open_stages w c)
unfolding open_stages
open_stages-HasCome w c s at =
    stage_then w 0 w.initialize_platform c _ s at (omega arith) (λ c s at.
      stage_then w 1 (resolve w c.rtsp_port) c _ s at (omega arith) (λ c s at.
        stage_then w 2 w.initialize_audio_stream (choose w c) _
          (configured c (choose w c) refl refl refl s) at (omega arith)
          (λ c s at. stage_then w 3 w.perform_rtsp_handshake c _ s at (omega arith) (λ c s at.
            stage_then w 4 w.initialize_control_stream c _ s at (omega arith) (λ c s at.
              stage_then w 5 0 c _ s at (omega arith) (λ c s at.
                stage_then w 6 0 c (start_stages w) s at (omega arith)
                  (start_stages-HasCome w)))))))

prepare-IsConsistent : (r : Request) (c : Connection) → IsConsistent c → IsConsistent (prepare r c)
unfolding prepare
prepare-IsConsistent r c s =
    let balanced = s.balanced in
    record {
      balanced = ap (open_after listener_hooked) balanced;
      once = omega arith;
      calm = λ f. refl;
    }

prepare_stage : (r : Request) (c : Connection) → (prepare r c).stage ≡ c.stage
unfolding prepare
prepare_stage r c = refl

adjust-IsConsistent : (w : World) (c : Connection) → IsConsistent c → IsConsistent (adjust w c)
unfolding adjust
adjust-IsConsistent w c s = configured c (adjust w c) refl refl refl s

adjust_stage : (w : World) (c : Connection) → (adjust w c).stage ≡ c.stage
unfolding adjust
adjust_stage w c = refl

refused : (c : Connection) → IsConsistent c → c.stage ≡ 0 → HasCome 11 (c, minus_one)
refused c s at = record { consistent = s; bound = omega arith; arrived = λ z. absurd (omega arith) }

pub connect-HasCome :
    (w : World) (r : Request) (c : Connection)
    → IsConsistent c
    → c.stage ≡ 0
    → HasCome 11 (connect w r c)
unfolding connect
connect-HasCome w r c s at =
    let c1 = prepare r c in
    let c2 = record c1 { config = round_packet_size c1.config } in
    let at1 : c1.stage ≡ 0 = prepare_stage r c ∙ at in
    let s1 = prepare-IsConsistent r c s in
    let s2 : IsConsistent c2 = configured c1 c2 refl refl refl s1 in
    if_cases (HasCome 11) (is_refused r) (λ _. refused c s at)
      (λ _.
        if_cases (HasCome 11) (is_bad_audio c1.config.audio_configuration) (λ _. refused c1 s1 at1)
          (λ _.
            if_cases (HasCome 11) (c2.config.packet_size == 0) (λ _. refused c2 s2 at1)
              (λ _.
                open_stages-HasCome w (adjust w c2) (adjust-IsConsistent w c2 s2)
                  (adjust_stage w c2 ∙ at1))))
