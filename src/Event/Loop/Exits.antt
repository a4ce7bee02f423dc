-- ===== src/Event/Loop/Exits.antt =====
-- How event_base_loop of event.c ends.
use libevent_linux.Prelude.{ℕ, ◌≡◌, true, false, not, ◌&&◌, ◌||◌, Option, some, none, Bool}
use libevent_linux.Event.State.{event_haveevents}
use libevent_linux.Event.Loop.Program.{
  Loop, Program, LoopFlags, Processed, clear_time_cache, has_active, with_base,
}
use libevent_linux.Event.Loop.Process.{event_process_active}
use libevent_linux.Event.Loop.Run.{start_round, round_wait, poll, is_zero}
use libevent_linux.Event.Queues.{event_queue_make_later_events_active}

-- event_base_loopbreak or event_base_loopexit was called.
abbrev is_stopped : {Map World : Type 0} → Loop Map World → Bool
is_stopped s = s.event_gotterm || s.event_break

-- There is nothing to wait for, and the loop is not to wait for it.
abbrev is_empty : {Map World : Type 0} → LoopFlags → Loop Map World → Bool
is_empty flags s = not flags.no_exit_on_empty && not (event_haveevents s.base) && not (has_active s)

-- The loop as it is when its first round starts.
abbrev pub started : {Map World : Type 0} → Loop Map World → Loop Map World
started s = record (clear_time_cache s) {
  running_loop = true;
  event_gotterm = false;
  event_break = false;
}

module _ {Map World : Type 0} (program : Program Map World) (flags : LoopFlags) where
  -- The state with which a round calls the back end.
  abbrev dispatched : Loop Map World → Loop Map World
  dispatched s = clear_time_cache (with_base s (event_queue_make_later_events_active s.base))

  -- The start of a round that neither finds the loop stopped nor empty.
  abbrev Enters : Loop Map World → Type 0
  Enters s = (is_stopped (start_round s) ≡ false) × (is_empty flags (start_round s) ≡ false)

  -- A round of the loop in which the back end does not fail, to the state after it.
  abbrev Polls : Loop Map World → Loop Map World → Type 0
  Polls s s2 = poll program (start_round s) flags ≡ (true, s2)

  -- The last round, from its start, with the result and the state: the back end of this round
  -- failed, and left the state; or the loop was stopped before it; or it polled and found no
  -- active callback, with EVLOOP_NONBLOCK; or, with EVLOOP_ONCE, it polled and ran a callback, and
  -- none is left; or there was nothing to wait for.
  pub data Ends : Loop Map World → Option ℕ → Loop Map World → Type 0 where
    failed :
        (s s' : Loop Map World)
        → Enters s
        → program.dispatch (round_wait program (start_round s) flags) (dispatched (start_round s))
          ≡ (false, s')
        → Ends s none s'
    stopped : (s : Loop Map World) → is_stopped s ≡ true → Ends s (some 0) (start_round s)
    nonblocking :
        (s s' : Loop Map World)
        → Enters s
        → Polls s s'
        → has_active s' ≡ false
        → flags.nonblock ≡ true
        → Ends s (some 0) s'
    once :
        (s s2 s' : Loop Map World) (fuel : ℕ) (n : Processed)
        → Enters s
        → Polls s s2
        → has_active s2 ≡ true
        → event_process_active program fuel s2 ≡ some (n, s')
        → flags.once ≡ true
        → is_zero n ≡ false
        → has_active s' ≡ false
        → Ends s (some 0) s'
    empty :
        (s : Loop Map World)
        → is_stopped s ≡ false
        → flags.no_exit_on_empty ≡ false
        → event_haveevents (start_round s).base ≡ false
        → has_active (start_round s) ≡ false
        → Ends s (some 1) (start_round s)

  -- A round after which the loop goes on: it polls, and runs the active callbacks if there are any.
  pub data Round : Loop Map World → Loop Map World → Type 0 where
    idle :
        (s s' : Loop Map World)
        → Enters s
        → Polls s s'
        → has_active s' ≡ false
        → flags.nonblock ≡ false
        → Round s s'
    busy :
        (s s2 s' : Loop Map World) (fuel : ℕ) (n : Processed)
        → Enters s
        → Polls s s2
        → has_active s2 ≡ true
        → event_process_active program fuel s2 ≡ some (n, s')
        → (flags.once && not (has_active s') && not (is_zero n)) ≡ false
        → Round s s'

  -- Some rounds, and then the last one.
  pub data Explains : Loop Map World → Option ℕ → Loop Map World → Type 0 where
    ends :
        (s : Loop Map World) (retval : Option ℕ) (s' : Loop Map World)
        → Ends s retval s'
        → Explains s retval s'
    goes_on :
        (s t : Loop Map World) (retval : Option ℕ) (s' : Loop Map World)
        → Round s t
        → Explains t retval s'
        → Explains s retval s'

  abbrev Explained : Loop Map World → Option (Option ℕ × Loop Map World) → Type 0
  Explained s none = Unit {0}
  Explained s (some (retval, s')) = Explains s retval s'
