-- ===== src/Event/Loop/Calm.antt =====
-- The closures of event.c with callbacks that make no callback active and take none out.
use libevent_linux.Prelude.{
  ℕ, zero, suc, ◌≡◌, ◌≢◌, List, [], ◌∷◌, ◌++◌, refl, ◌∙◌, true, false, not, ◌&&◌, ◌||◌, none, ◌==◌,
  if◌then◌else◌, if_elim,
}
use libevent_linux.Event.State.{
  Events, Closure, event_closure, event_signal, event_persist, cb_self, cb_finalize, event_finalize,
  event_finalize_free, put,
}
use libevent_linux.Event.Timeouts.{persist_reschedule}
use libevent_linux.Event.Invariant.{flags_of}
use libevent_linux.Event.Loop.Program.{Loop, Program, with_base, gettime}
use libevent_linux.Event.Loop.Closures.{
  signal_loop, event_signal_closure, event_persist_closure, run_closure,
}
use libevent_linux.Event.Loop.Frames.{
  SameActive, SameActive-refl, SameActive-trans, put-SameActive, persist_reschedule-SameActive,
}

-- No callback becomes active or stops being so or gets another closure, and the loop is not told to stop or to go on.
pub record Undisturbed {Map World : Type 0} (s s' : Loop Map World) : Type 0 where
  pub same : SameActive s.base s'.base
  pub break : s'.event_break ≡ s.event_break

keeps :
    {Map World : Type 0} {s s' : Loop Map World}
    → SameActive s.base s'.base
    → s'.event_break ≡ s.event_break
    → Undisturbed s s'
keeps same break = record { same = same; break = break }

-- No callback of the program does any of that.
abbrev pub Calm : {Map World : Type 0} → Program Map World → Type 0
Calm program = (e : ℕ) (res : Events) (s : Loop _ _) → Undisturbed s (program.callback e res s)

Undisturbed-trans :
    {Map World : Type 0} {s s' s'' : Loop Map World}
    → Undisturbed s s'
    → Undisturbed s' s''
    → Undisturbed s s''
Undisturbed-trans h k = keeps (SameActive-trans h.same k.same) (k.break ∙ h.break)

module _ {Map World : Type 0} (program : Program Map World) (calm : Calm program) where
  signal_loop-Undisturbed :
      (ncalls : ℕ) (s : Loop Map World) (e : ℕ) → Undisturbed s (signal_loop program ncalls s e)
  unfolding signal_loop
  signal_loop-Undisturbed zero s e = keeps (SameActive-refl s.base) refl
  signal_loop-Undisturbed (suc ncalls) s e =
      let ev = s.base.event e in
      let next = record ev {
        calls_left = ncalls;
        ev_ncalls = ncalls;
        ev_pncalls = if ncalls == 0 then false else ev.ev_pncalls;
      } in
      let start = with_base s (put s.base e next) in
      let s' = program.callback e ev.ev_res start in
      let ev' = s'.base.event e in
      let called : Undisturbed s s' =
        Undisturbed-trans (keeps (put-SameActive s.base e next refl refl refl refl) refl)
          (calm e ev.ev_res start) in
      if_elim (Undisturbed s) (s'.event_break && not (ev'.calls_left == 0))
        (λ _.
          keeps (SameActive-trans called.same (put-SameActive s'.base e _ refl refl refl refl))
            called.break)
        (λ _.
          if_elim (Undisturbed s) (s'.event_break || ev'.calls_left == 0) (λ _. called)
            (λ _. Undisturbed-trans called (signal_loop-Undisturbed ncalls s' e)))

  signal_closure-Undisturbed :
      (s : Loop Map World) (e : ℕ) → Undisturbed s (event_signal_closure program s e)
  unfolding event_signal_closure
  signal_closure-Undisturbed s e =
      let ev = s.base.event e in
      let ev' = record ev { ev_pncalls = true; calls_left = ev.ev_ncalls } in
      if_elim (Undisturbed s) (ev.ev_ncalls == 0) (λ _. keeps (SameActive-refl s.base) refl)
        (λ _.
          Undisturbed-trans (keeps (put-SameActive s.base e ev' refl refl refl refl) refl)
            (signal_loop-Undisturbed ev.ev_ncalls (with_base s (put s.base e ev')) e))

  persist_closure-Undisturbed :
      (s : Loop Map World) (e : ℕ)
      → (flags_of s.base e).active ≡ false
      → s.base.n_common_timeouts ≡ 0
      → Undisturbed s (event_persist_closure program s e)
  unfolding event_persist_closure
  persist_closure-Undisturbed s e out none_common =
      let now = gettime program s in
      let memory = program.memory s.world in
      let b = persist_reschedule program.evmap s.base e now memory in
      Undisturbed-trans
        (keeps (persist_reschedule-SameActive program.evmap s.base e now memory out none_common)
          refl)
        (calm e (b.event e).ev_res (with_base s b))

  finalizer-Undisturbed :
      (s : Loop Map World) (e : ℕ)
      → Undisturbed s
          (program.callback e (s.base.event e).ev_res (record s { current_event = none }))
  finalizer-Undisturbed s e =
      let called = calm e (s.base.event e).ev_res (record s { current_event = none }) in
      keeps called.same called.break

  pub run_closure-Undisturbed :
      (closure : Closure) (s : Loop Map World) (e : ℕ)
      → (flags_of s.base e).active ≡ false
      → s.base.n_common_timeouts ≡ 0
      → Undisturbed s (run_closure program closure s e)
  run_closure-Undisturbed event_signal s e out none_common = signal_closure-Undisturbed s e
  run_closure-Undisturbed event_persist s e out none_common =
      persist_closure-Undisturbed s e out none_common
  run_closure-Undisturbed event_closure s e out none_common = calm e (s.base.event e).ev_res s
  run_closure-Undisturbed cb_self s e out none_common = calm e (s.base.event e).ev_res s
  run_closure-Undisturbed cb_finalize s e out none_common = finalizer-Undisturbed s e
  run_closure-Undisturbed event_finalize s e out none_common = finalizer-Undisturbed s e
  run_closure-Undisturbed event_finalize_free s e out none_common = finalizer-Undisturbed s e

-- The callbacks write their numbers down, one behind the other, where `seen` finds them.
abbrev pub Logs : {Map World : Type 0} → Program Map World → (World → List ℕ) → Type 0
Logs program seen =
    (e : ℕ) (res : Events) (s : Loop _ _)
    → seen (program.callback e res s).world ≡ seen s.world ++ e ∷ []

-- The closure of any callback but that of a signal, which is called as often as the signal came,
-- calls it once.
pub run_closure-seen :
    {Map World : Type 0} (program : Program Map World) (seen : World → List ℕ)
    → Logs program seen
    → (closure : Closure) (s : Loop Map World) (e : ℕ) → closure ≢ event_signal
    → seen (run_closure program closure s e).world ≡ seen s.world ++ e ∷ []
unfolding event_persist_closure
run_closure-seen program seen logs event_signal s e other = absurd (other refl)
run_closure-seen program seen logs event_persist s e other =
    let b =
      persist_reschedule program.evmap s.base e (gettime program s) (program.memory s.world) in
    logs e (b.event e).ev_res (with_base s b)
run_closure-seen program seen logs event_closure s e other = logs e (s.base.event e).ev_res s
run_closure-seen program seen logs cb_self s e other = logs e (s.base.event e).ev_res s
run_closure-seen program seen logs cb_finalize s e other =
    logs e (s.base.event e).ev_res (record s { current_event = none })
run_closure-seen program seen logs event_finalize s e other =
    logs e (s.base.event e).ev_res (record s { current_event = none })
run_closure-seen program seen logs event_finalize_free s e other =
    logs e (s.base.event e).ev_res (record s { current_event = none })
