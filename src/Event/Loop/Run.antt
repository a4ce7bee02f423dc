-- ===== src/Event/Loop/Run.antt =====
-- event_base_loop of event.c.
use libevent_linux.Prelude.{
  ℕ, zero, suc, Bool, true, false, not, ◌&&◌, ◌||◌, Option, none, some, if◌then◌else◌,
}
use libevent_linux.Event.State.{event_haveevents}
use libevent_linux.Event.Queues.{event_queue_make_later_events_active}
use libevent_linux.Event.Timeouts.{Wait, wait, timeout_next, timeout_process}
use libevent_linux.Event.Loop.Program.{
  with_base, clear_time_cache, has_active, gettime, update_time_cache, Loop, Program, LoopFlags,
  Processed, ran,
}
use libevent_linux.Event.Loop.Process.{event_process_active}

-- The start of a round: the two fields that are reset.
abbrev pub start_round : {Map World : Type 0} → Loop Map World → Loop Map World
start_round s = with_base s (record s.base { event_continue = false; n_deferreds_queued = 0 })

abbrev pub is_zero : Processed → Bool
is_zero (ran zero) = true
is_zero _ = false

module _ {Map World : Type 0} (program : Program Map World) where
  -- How long the back end may wait.
  abbrev pub round_wait : Loop Map World → LoopFlags → Wait
  round_wait s flags =
      if not (has_active s) && not flags.nonblock
      then timeout_next s.base (some (gettime program s))
      else wait (some (record { tv_sec = 0; tv_usec = 0 }))

  -- Polling for events and expiring the timeouts, with whether the back end failed.
  unfoldable pub poll : Loop Map World → LoopFlags → Bool × Loop Map World
  unfolding event_queue_make_later_events_active timeout_next timeout_process
  poll s flags =
      let later = with_base s (event_queue_make_later_events_active s.base) in
      let (dispatched, s') = program.dispatch (round_wait s flags) (clear_time_cache later) in
      let s'' = update_time_cache program s' in
      if dispatched
      then (true, with_base s'' (timeout_process program.evmap s''.base (gettime program s'')))
      else (false, s')

  -- The `while` of event_base_loop, with its `retval`: 0, 1 or, as `none`, -1. The fuel is for its
  -- rounds and for those of event_process_active.
  unfoldable pub rounds : ℕ → Loop Map World → LoopFlags → Option (Option ℕ × Loop Map World)
  rounds zero s flags = none
  rounds (suc fuel) s flags =
      let s1 = start_round s in
      let (dispatched, s2) = poll s1 flags in
      let active : Option (Option ℕ × Loop Map World) =
        elim (event_process_active program fuel s2) [
          | none ↦ none
          | some (n, s3) ↦
              let rest = rounds fuel s3 flags in
              if flags.once && not (has_active s3) && not (is_zero n)
              then some (some 0, s3)
              else rest
        ] in
      let rest = rounds fuel s2 flags in
      if s1.event_gotterm || s1.event_break
      then some (some 0, s1)
      else if not flags.no_exit_on_empty && not (event_haveevents s1.base) && not (has_active s1)
      then some (some 1, s1)
      else if not dispatched
      then some (none, s2)
      else if has_active s2
      then active
      else if flags.nonblock
      then some (some 0, s2)
      else rest

  -- evsig_set_base_ writes no field of the base.
  unfoldable pub event_base_loop :
      ℕ → Loop Map World → LoopFlags → Option (Option ℕ × Loop Map World)
  event_base_loop fuel s flags =
      let s' = record (clear_time_cache s) {
        running_loop = true;
        event_gotterm = false;
        event_break = false;
      } in
      let run = rounds fuel s' flags in
      if s.running_loop then some (none, s) else elim run [
        | none ↦ none
        | some (retval, s'') ↦ some (retval, record (clear_time_cache s'') { running_loop = false })
      ]
