-- ===== src/Event/Loop/Program.antt =====
-- What the loop of event.c works on: the rest of `struct event_base` (event-internal.h), the code
-- that it calls, and the cached time. `Loop` holds the fields of `struct event_base` that only the
-- loop uses, and the rest of the program's state, `World`. The lock is held in between the
-- callbacks, and the clock does not fail.
use libevent_linux.Prelude.{ℕ, Bool, not, Option, ◌==◌, if◌then◌else◌}
use libevent_linux.Time.{Timeval}
use libevent_linux.Event.State.{Events, Base, Evmap}
use libevent_linux.Event.Timeouts.{Wait}

-- `no_cache_time` is EVENT_BASE_FLAG_NO_CACHE_TIME; `max_dispatch_time` is `none` if its `tv_sec`
-- is negative.
pub record Loop (Map World : Type 0) : Type 0 where
  pub base : Base Map
  pub world : World
  pub event_break : Bool
  pub event_gotterm : Bool
  pub running_loop : Bool
  pub current_event : Option ℕ
  pub tv_cache : Timeval
  pub no_cache_time : Bool
  pub max_dispatch_callbacks : ℕ
  pub limit_callbacks_after_prio : ℕ
  pub max_dispatch_time : Option Timeval

-- What the loop calls: evmap.c, the callbacks of the user with the `ev_res` that they are given,
-- `evsel->dispatch` with its failure, the monotonic clock, and whether there is memory.
pub record Program (Map World : Type 0) : Type 0 where
  pub evmap : Evmap Map
  pub callback : ℕ → Events → Loop Map World → Loop Map World
  pub dispatch : Wait → Loop Map World → Bool × Loop Map World
  pub clock : World → Timeval
  pub memory : World → Bool

-- EVLOOP_ONCE, EVLOOP_NONBLOCK and EVLOOP_NO_EXIT_ON_EMPTY.
pub record LoopFlags : Type 0 where
  pub once : Bool
  pub nonblock : Bool
  pub no_exit_on_empty : Bool

-- The result of event_process_active: -1, or the number of callbacks.
pub data Processed : Type 0 where
  broken : Processed
  ran : ℕ → Processed

abbrev pub with_base : {Map World : Type 0} → Loop Map World → Base Map → Loop Map World
with_base s b = record s { base = b }

abbrev pub clear_time_cache : {Map World : Type 0} → Loop Map World → Loop Map World
clear_time_cache s = record s { tv_cache = record s.tv_cache { tv_sec = 0 } }

-- `event_count_active` is N_ACTIVE_CALLBACKS.
abbrev pub has_active : {Map World : Type 0} → Loop Map World → Bool
has_active s = not (s.base.event_count_active == 0)

module _ {Map World : Type 0} (program : Program Map World) where
  abbrev pub gettime : Loop Map World → Timeval
  gettime s = if s.tv_cache.tv_sec == 0 then program.clock s.world else s.tv_cache

  abbrev pub update_time_cache : Loop Map World → Loop Map World
  update_time_cache s =
      let s' = clear_time_cache s in
      if s.no_cache_time then s' else record s' { tv_cache = gettime s' }
