-- ===== src/Event/Loop/Process.antt =====
-- event_process_active_single_queue and event_process_active of event.c.
use libevent_linux.Prelude.{
  ℕ, zero, suc, ◌+◌, ◌-◌, ◌^◌, Bool, true, false, ◌&&◌, ◌||◌, Option, none, some, [], ◌∷◌, ltb, leb,
  if◌then◌else◌,
}
use libevent_linux.Time.{Timeval, timer_ge, timeradd}
use libevent_linux.Event.Queues.{weight}
use libevent_linux.Event.Loop.Program.{
  with_base, gettime, update_time_cache, Loop, Program, Processed, broken, ran,
}
use libevent_linux.Event.Loop.Closures.{dequeue, run_callback}

abbrev pub set_running_priority : {Map World : Type 0} → Loop Map World → Option ℕ → Loop Map World
set_running_priority s i = with_base s (record s.base { event_running_priority = i })

abbrev pub is_some_time : Option Timeval → Bool
is_some_time none = false
is_some_time (some endtime) = true

-- `timeradd (&base->max_dispatch_time, &tv, &tv)`.
abbrev pub end_time : Option Timeval → Timeval → Option Timeval
end_time none now = none
end_time (some longest) now = some (timeradd longest now)

module _ {Map World : Type 0} (program : Program Map World) where
  abbrev pub is_over : Option Timeval → Loop Map World → Bool
  is_over none s = false
  is_over (some endtime) s = timer_ge (gettime program s) endtime

  -- The loop of event_process_active_single_queue, from the `count` so far; `none` means that the
  -- fuel ran out.
  unfoldable pub single_queue :
      ℕ → Loop Map World → ℕ → ℕ → Option Timeval → ℕ → Option (Processed × Loop Map World)
  single_queue zero s p max_to_process endtime count = none
  single_queue (suc fuel) s p max_to_process endtime count = elim (s.base.activequeues p) [
    | [] ↦ some (ran count, s)
    | e ∷ others ↦
        let count' = count + weight ((dequeue program s.base e).event e).ev_flags in
        let s' = run_callback program s e in
        let timed = is_some_time endtime && ltb 0 count' in
        let s'' = if timed then update_time_cache program s' else s' in
        let rest = single_queue fuel s'' p max_to_process endtime count' in
        if s'.event_break
        then some (broken, s')
        else if leb max_to_process count'
        then some (ran count', s')
        else if timed && is_over endtime s'' || s''.base.event_continue
        then some (ran count', s'')
        else rest
  ]

  -- The loop of event_process_active over the priorities from `i`, of which `left` are left.
  -- INT_MAX is 2 ^ 31 - 1.
  unfoldable pub priorities :
      ℕ → ℕ → ℕ → Loop Map World → ℕ → ℕ → Option Timeval → Option (Processed × Loop Map World)
  priorities fuel zero i s maxcb limit_after_prio endtime = some (ran 0, s)
  priorities fuel (suc left) i s maxcb limit_after_prio endtime = elim (s.base.activequeues i) [
    | [] ↦ priorities fuel left (suc i) s maxcb limit_after_prio endtime
    | e ∷ others ↦
        let s' = set_running_priority s (some i) in
        let max_to_process = if ltb i limit_after_prio then 2 ^ 31 - 1 else maxcb in
        let until = if ltb i limit_after_prio then none else endtime in
        elim (single_queue fuel s' i max_to_process until 0) [
          | none ↦ none
          | some (broken, s'') ↦ some (broken, s'')
          | some (ran zero, s'') ↦ priorities fuel left (suc i) s'' maxcb limit_after_prio endtime
          | some (ran (suc c), s'') ↦ some (ran (suc c), s'')
        ]
  ]

  -- The number of priorities stays while callbacks run.
  unfoldable pub event_process_active : ℕ → Loop Map World → Option (Processed × Loop Map World)
  unfolding timeradd
  event_process_active fuel s =
      let s' = if is_some_time s.max_dispatch_time then update_time_cache program s else s in
      let endtime = end_time s.max_dispatch_time (gettime program s') in
      elim (priorities fuel s.base.nactivequeues 0 s' s.max_dispatch_callbacks
        s.limit_callbacks_after_prio endtime) [
          | none ↦ none
          | some (result, s'') ↦ some (result, set_running_priority s'' none)
        ]
