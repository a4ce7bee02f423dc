-- ===== src/Event/Loop/InternalRun.antt =====
-- Running a callback in event.c makes none internal, if the callbacks of the program do not.
use libevent_linux.Prelude.{
  ℕ, zero, suc, refl, true, false, not, ◌&&◌, ◌||◌, some, none, ◌==◌, if◌then◌else◌, if_elim,
}
use libevent_linux.Event.State.{
  Events, Closure, event_closure, event_signal, event_persist, cb_self, cb_finalize, event_finalize,
  event_finalize_free, put,
}
use libevent_linux.Event.Timeouts.{persist_reschedule}
use libevent_linux.Event.Loop.Program.{Loop, Program, with_base, gettime}
use libevent_linux.Event.Loop.Closures.{
  signal_loop, event_signal_closure, event_persist_closure, run_closure, dequeue, run_callback,
}
use libevent_linux.Event.Loop.Internal.{
  NoInternal, put-NoInternal, dequeue-NoInternal, reschedule-NoInternal,
}

-- The callbacks of the program mark none as internal.
abbrev pub KeepNoInternal : {Map World : Type 0} → Program Map World → Type 0
KeepNoInternal program =
    (e : ℕ) (res : Events) (s : Loop _ _)
    → NoInternal s.base
    → NoInternal (program.callback e res s).base

module _ {Map World : Type 0} (program : Program Map World) (keeps : KeepNoInternal program) where
  signal_loop-NoInternal :
      (ncalls : ℕ) (s : Loop Map World) (e : ℕ)
      → NoInternal s.base
      → NoInternal (signal_loop program ncalls s e).base
  unfolding signal_loop
  signal_loop-NoInternal zero s e h = h
  signal_loop-NoInternal (suc ncalls) s e h =
      let ev = s.base.event e in
      let next = record ev {
        calls_left = ncalls;
        ev_ncalls = ncalls;
        ev_pncalls = if ncalls == 0 then false else ev.ev_pncalls;
      } in
      let start = with_base s (put s.base e next) in
      let s' = program.callback e ev.ev_res start in
      let ev' = s'.base.event e in
      let h' = keeps e ev.ev_res start (put-NoInternal s.base e next refl h) in
      let P = λ (r : Loop Map World). NoInternal r.base in
      if_elim P (s'.event_break && not (ev'.calls_left == 0))
        (λ _. put-NoInternal s'.base e _ refl h')
        (λ _.
          if_elim P (s'.event_break || ev'.calls_left == 0) (λ _. h')
            (λ _. signal_loop-NoInternal ncalls s' e h'))

  signal_closure-NoInternal :
      (s : Loop Map World) (e : ℕ)
      → NoInternal s.base
      → NoInternal (event_signal_closure program s e).base
  unfolding event_signal_closure
  signal_closure-NoInternal s e h =
      let ev = s.base.event e in
      let ev' = record ev { ev_pncalls = true; calls_left = ev.ev_ncalls } in
      if_elim (λ (r : Loop Map World). NoInternal r.base) (ev.ev_ncalls == 0) (λ _. h)
        (λ _.
          signal_loop-NoInternal ev.ev_ncalls (with_base s (put s.base e ev')) e
            (put-NoInternal s.base e ev' refl h))

  persist_closure-NoInternal :
      (s : Loop Map World) (e : ℕ)
      → NoInternal s.base
      → NoInternal (event_persist_closure program s e).base
  unfolding event_persist_closure
  persist_closure-NoInternal s e h =
      let now = gettime program s in
      let memory = program.memory s.world in
      let b = persist_reschedule program.evmap s.base e now memory in
      keeps e (b.event e).ev_res (with_base s b)
        (reschedule-NoInternal program.evmap s.base e now memory h)

  run_closure-NoInternal :
      (closure : Closure) (s : Loop Map World) (e : ℕ)
      → NoInternal s.base
      → NoInternal (run_closure program closure s e).base
  run_closure-NoInternal event_signal s e h = signal_closure-NoInternal s e h
  run_closure-NoInternal event_persist s e h = persist_closure-NoInternal s e h
  run_closure-NoInternal event_closure s e h = keeps e (s.base.event e).ev_res s h
  run_closure-NoInternal cb_self s e h = keeps e (s.base.event e).ev_res s h
  run_closure-NoInternal cb_finalize s e h =
      keeps e (s.base.event e).ev_res (record s { current_event = none }) h
  run_closure-NoInternal event_finalize s e h =
      keeps e (s.base.event e).ev_res (record s { current_event = none }) h
  run_closure-NoInternal event_finalize_free s e h =
      keeps e (s.base.event e).ev_res (record s { current_event = none }) h

  pub run_callback-NoInternal :
      (s : Loop Map World) (e : ℕ) → NoInternal s.base → NoInternal (run_callback program s e).base
  unfolding run_callback
  run_callback-NoInternal s e h =
      let b = dequeue program s.base e in
      run_closure-NoInternal (b.event e).ev_closure (record s { base = b; current_event = some e })
        e (dequeue-NoInternal program s.base e h)
