-- ===== src/Event/Loop/Limits.antt =====
-- event_process_active of event.c with a limit on the callbacks.
use libevent_linux.Prelude.{ℕ, ◌≤◌, Option, some, none}
use libevent_linux.Event.Delete.{result}
use libevent_linux.Event.Loop.Program.{Loop, Program, Processed, broken, ran}
use libevent_linux.Event.Loop.Internal.{NoInternal}
use libevent_linux.Event.Loop.InternalRun.{KeepNoInternal}

-- At most so many callbacks were run.
abbrev pub IsAtMost : ℕ → Processed → Type 0
IsAtMost n broken = Unit {0}
IsAtMost n (ran c) = c ≤ n

module _ {Map World : Type 0} (program : Program Map World) (keeps : KeepNoInternal program) where
  -- A queue is left after `max_to_process` callbacks at the latest.
  abbrev Returns : ℕ → Option (Processed × Loop Map World) → Type 0
  Returns n none = ⊥
  Returns n (some (result, s)) = IsAtMost n result × NoInternal s.base
