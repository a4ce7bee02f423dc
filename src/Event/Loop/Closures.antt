-- ===== src/Event/Loop/Closures.antt =====
-- The closures of event.c, and what event_process_active_single_queue does with one callback.
use libevent_linux.Prelude.{
  ℕ, zero, suc, true, false, not, ◌&&◌, ◌||◌, none, some, ◌==◌, if◌then◌else◌,
}
use libevent_linux.Event.State.{
  Closure, event_closure, event_signal, event_persist, cb_self, cb_finalize, event_finalize,
  event_finalize_free, Base, put,
}
use libevent_linux.Event.Queues.{event_queue_remove_active}
use libevent_linux.Event.Delete.{event_del_nolock}
use libevent_linux.Event.Timeouts.{persist_reschedule}
use libevent_linux.Event.Loop.Program.{with_base, gettime, Loop, Program}

module _ {Map World : Type 0} (program : Program Map World) where
  -- The loop of event_signal_closure, with the calls that are left. A callback can only set them
  -- to 0, through `ev_pncalls`, so that each round leaves fewer.
  unfoldable pub signal_loop : ℕ → Loop Map World → ℕ → Loop Map World
  signal_loop zero s e = s
  signal_loop (suc ncalls) s e =
      let ev = s.base.event e in
      let next = record ev {
        calls_left = ncalls;
        ev_ncalls = ncalls;
        ev_pncalls = if ncalls == 0 then false else ev.ev_pncalls;
      } in
      let s' = program.callback e ev.ev_res (with_base s (put s.base e next)) in
      let ev' = s'.base.event e in
      let rest = signal_loop ncalls s' e in
      if s'.event_break && not (ev'.calls_left == 0)
      then with_base s' (put s'.base e (record ev' { ev_pncalls = false }))
      else if s'.event_break || ev'.calls_left == 0
      then s'
      else rest

  unfoldable pub event_signal_closure : Loop Map World → ℕ → Loop Map World
  unfolding signal_loop
  event_signal_closure s e =
      let ev = s.base.event e in
      let ev' = record ev { ev_pncalls = true; calls_left = ev.ev_ncalls } in
      if ev.ev_ncalls == 0 then s else signal_loop ev.ev_ncalls (with_base s (put s.base e ev')) e

  unfoldable pub event_persist_closure : Loop Map World → ℕ → Loop Map World
  unfolding persist_reschedule
  event_persist_closure s e =
      let b =
        persist_reschedule program.evmap s.base e (gettime program s) (program.memory s.world) in
      program.callback e (b.event e).ev_res (with_base s b)

  -- The `switch` on `evcb_closure`.
  abbrev pub run_closure : Closure → Loop Map World → ℕ → Loop Map World
  run_closure event_signal s e = event_signal_closure s e
  run_closure event_persist s e = event_persist_closure s e
  run_closure event_closure s e = program.callback e (s.base.event e).ev_res s
  run_closure cb_self s e = program.callback e (s.base.event e).ev_res s
  run_closure cb_finalize s e =
      program.callback e (s.base.event e).ev_res (record s { current_event = none })
  run_closure event_finalize s e =
      program.callback e (s.base.event e).ev_res (record s { current_event = none })
  run_closure event_finalize_free s e =
      program.callback e (s.base.event e).ev_res (record s { current_event = none })

  -- An event that is not persistent is deleted before its callback runs.
  unfoldable pub dequeue : Base Map → ℕ → Base Map
  unfolding event_del_nolock event_queue_remove_active
  dequeue b e =
      let ev = b.event e in
      if ev.ev_flags.init && not (ev.ev_events.persist || ev.ev_flags.finalizing)
      then (event_del_nolock program.evmap b e false).1
      else event_queue_remove_active b e

  -- One callback: out of the queue, and run.
  unfoldable pub run_callback : Loop Map World → ℕ → Loop Map World
  unfolding dequeue event_signal_closure event_persist_closure
  run_callback s e =
      let b = dequeue s.base e in
      let s' = record s { base = b; current_event = some e } in
      record (run_closure (b.event e).ev_closure s' e) { current_event = none }
