-- ===== src/Event/Loop/Tests.antt =====
-- The loop of event.c with callbacks that write down that they were run.
use libevent_linux.Prelude.{
  ℕ, ◌-◌, ◌^◌, ◌<◌, ◌≡◌, ◌≢◌, refl, true, false, ◌&&◌, Option, some, none, List, [], ◌∷◌, ◌++◌,
  ◌==◌, length, arith,
}
use libevent_linux.Event.State.{Base, ev_timeout_bit, event_haveevents, event_signal}
use libevent_linux.Event.Queues.{event_queue_insert_active, event_queue_make_later_events_active}
use libevent_linux.Event.Active.{event_active_nolock}
use libevent_linux.Event.Delete.{event_del_nolock}
use libevent_linux.Event.Timeouts.{timeout_next, timeout_process}
use libevent_linux.Event.Invariant.{IsBase, flags_of}
use libevent_linux.Event.ActiveLaws.{active-IsBase}
use libevent_linux.Event.Samples.{counting, zero_time, start, start-IsBase}
use libevent_linux.Event.Loop.Program.{Loop, Program, LoopFlags, ran}
use libevent_linux.Event.Loop.Closures.{dequeue, run_callback}
use libevent_linux.Event.Loop.Process.{single_queue, priorities, event_process_active}
use libevent_linux.Event.Loop.Run.{poll, rounds, event_base_loop}
use libevent_linux.Event.Loop.Frames.{SameActive-refl}
use libevent_linux.Event.Loop.Calm.{Calm, Logs}
use libevent_linux.Event.Loop.Strict.{NoSignals, externals, process_active-strict}

-- The world is the list of the callbacks that were run, the last one first.
abbrev noting : Program ℕ (List ℕ)
noting = record {
  evmap = counting;
  callback = λ e res s. record s { world = e ∷ s.world };
  dispatch = λ wait s. (true, s);
  clock = λ w. record { tv_sec = 7; tv_usec = 0 };
  memory = λ w. true;
}

abbrev at_rest : Base ℕ → ℕ → Loop ℕ (List ℕ)
at_rest b max_dispatch_callbacks = record {
  base = b;
  world = [];
  event_break = false;
  event_gotterm = false;
  running_loop = false;
  current_event = none;
  tv_cache = zero_time;
  no_cache_time = false;
  max_dispatch_callbacks = max_dispatch_callbacks;
  limit_callbacks_after_prio = 0;
  max_dispatch_time = none;
}

-- Event 3 is made active, then event 1.
abbrev two_active : Base ℕ
two_active = event_active_nolock (event_active_nolock start 3 ev_timeout_bit 1) 1 ev_timeout_bit 1

two_active-IsBase : IsBase 4 two_active
two_active-IsBase =
    let first = active-IsBase 4 start 3 ev_timeout_bit 1 (omega arith) start-IsBase in
    (active-IsBase 4 (event_active_nolock start 3 ev_timeout_bit 1) 1 ev_timeout_bit 1 (omega arith)
      first.0).0

two_active-fields :
    (two_active.activequeues 0 ≡ 3 ∷ 1 ∷ [])
    × (two_active.n_common_timeouts ≡ 0)
    × (two_active.event_continue ≡ false)
    × (two_active.nactivequeues ≡ 1)
    × (externals two_active (3 ∷ 1 ∷ []) ≡ 2)
    × ((x : ℕ) → (flags_of two_active x).internal ≡ false)
unfolding event_active_nolock event_queue_insert_active
two_active-fields = (refl, refl, refl, refl, refl, λ x. ground arith)

two_active-closures :
    ((two_active.event 3).ev_closure ≢ event_signal)
    × ((two_active.event 1).ev_closure ≢ event_signal)
unfolding event_active_nolock event_queue_insert_active
two_active-closures = ((λ h. cc), λ h. cc)

two_active-served : 0 < two_active.nactivequeues
two_active-served = rw two_active-fields.3 (omega arith)

two_active-external : 0 < externals two_active (two_active.activequeues 0)
two_active-external = rw (two_active-fields.0, two_active-fields.4) (omega arith)

two_active-short :
    (length (two_active.activequeues 0) < 3) × (length (two_active.activequeues 0) < 2 ^ 31 - 1)
two_active-short = rw two_active-fields.0 (omega arith, omega arith)

noting-Calm : Calm noting
noting-Calm e res s = record { same = SameActive-refl s.base; break = refl }

abbrev unlimited : Loop ℕ (List ℕ)
unlimited = at_rest two_active (2 ^ 31 - 1)

-- The callbacks that were run, the first one first.
abbrev in_order : List ℕ → List ℕ
in_order [] = []
in_order (e ∷ l) = in_order l ++ e ∷ []

noting-Logs : Logs noting in_order
noting-Logs e res s = refl

two_active-NoSignals : NoSignals two_active (two_active.activequeues 0)
two_active-NoSignals = rw two_active-fields.0 (two_active-closures.0, (two_active-closures.1, tt))

process_active-strict_example :
    (s' : Loop ℕ (List ℕ)) × (event_process_active noting 3 unlimited
      ≡ some (ran (externals two_active (two_active.activequeues 0)), s'))
    × (in_order s'.world ≡ [] ++ two_active.activequeues 0)
    × (s'.base.activequeues 0 ≡ [])
    × ((x : ℕ) → ((flags_of s'.base x).active && (s'.base.event x).ev_pri == 0) ≡ false)
    × ((q : ℕ) → q ≢ 0 → s'.base.activequeues q ≡ two_active.activequeues q)
process_active-strict_example =
    process_active-strict noting in_order 4 3 0 unlimited noting-Calm noting-Logs
      two_active-NoSignals two_active-IsBase two_active-fields.1 refl two_active-fields.2 refl refl
      two_active-served (λ q below. absurd (omega arith)) two_active-external two_active-short.0
      two_active-short.1

abbrev callbacks_run : {A : Type 0} → Option (A × Loop ℕ (List ℕ)) → List ℕ
callbacks_run none = []
callbacks_run (some (result, s)) = s.world

-- They are run in their order.
both_run : callbacks_run (event_process_active noting 3 unlimited) ≡ 1 ∷ 3 ∷ []
unfolding event_process_active priorities single_queue run_callback dequeue event_active_nolock
    event_del_nolock event_queue_insert_active
both_run = refl

-- With the limit, event 1 waits for the next round.
one_run : callbacks_run (event_process_active noting 1 (at_rest two_active 1)) ≡ 3 ∷ []
unfolding event_process_active priorities single_queue run_callback dequeue event_active_nolock
    event_del_nolock event_queue_insert_active
one_run = refl

abbrev until_empty : LoopFlags
until_empty = record { once = false; nonblock = false; no_exit_on_empty = false }

abbrev idle : Loop ℕ (List ℕ)
idle = at_rest start 1

-- Two rounds: one with the callbacks, and one that finds nothing to wait for.
loop_ends : callbacks_run (event_base_loop noting 4 unlimited until_empty) ≡ 1 ∷ 3 ∷ []
unfolding event_base_loop rounds poll event_process_active priorities single_queue run_callback
    dequeue event_active_nolock event_del_nolock timeout_process timeout_next
    event_queue_make_later_events_active event_haveevents event_queue_insert_active
loop_ends = refl
