-- ===== src/Event/Timeouts.antt =====
-- timeout_next, timeout_process and common_timeout_callback of event.c, and the rescheduling in
-- event_persist_closure. `now` is what gettime gives.
use libevent_linux.Prelude.{
  ℕ, zero, suc, ◌-◌, ◌%◌, ◌^◌, bit_or, Bool, true, false, ◌&&◌, ◌||◌, Option, none, some, [], ◌∷◌,
  length, ltb, ◌==◌, if◌then◌else◌,
}
use libevent_linux.Time.{Timeval, timer_gt, timer_le, timer_lt, timeradd, timersub}
use libevent_linux.MinHeap.{min_heap_top, min_heap_empty}
use libevent_linux.Event.State.{
  Base, Evmap, timeouts, microseconds, is_common_timeout, ev_timeout_bit,
}
use libevent_linux.Event.Active.{event_active_nolock}
use libevent_linux.Event.Delete.{event_del_nolock}
use libevent_linux.Event.Add.{event_add_nolock}

-- The result of timeout_next: how long to wait, `none` for NULL. `gettime` is `none` if it fails.
pub data Wait : Type 0 where
  no_time : Wait
  wait : Option Timeval → Wait

unfoldable pub timeout_next : {Map : Type 0} → Base Map → Option Timeval → Wait
unfolding min_heap_top timer_le timersub
timeout_next b gettime = elim (min_heap_top b.timeheap) [
  | none ↦ wait none
  | some e ↦ elim gettime [
    | none ↦ no_time
    | some now ↦
        if timer_le (timeouts b e) now
        then wait (some (record { tv_sec = 0; tv_usec = 0 }))
        else wait (some (timersub (timeouts b e) now))
  ]
]

-- The time that a persistent event is to run at next, in event_persist_closure.
unfoldable pub next_run : {Map : Type 0} → Base Map → ℕ → Timeval → Timeval
unfolding timeradd microseconds is_common_timeout
next_run b e now =
    let ev = b.event e in
    let common = is_common_timeout ev.ev_timeout b.n_common_timeouts in
    let delay = if common then microseconds ev.ev_io_timeout else ev.ev_io_timeout in
    let mask = if common then ev.ev_io_timeout.tv_usec - ev.ev_io_timeout.tv_usec % 2 ^ 20 else 0 in
    let last = if common then microseconds ev.ev_timeout else ev.ev_timeout in
    let relative_to = if ev.ev_res.timeout then last else now in
    let run_at = timeradd relative_to delay in
    let run_at' = if timer_lt run_at now then timeradd now delay else run_at in
    record run_at' { tv_usec = bit_or run_at'.tv_usec mask }

module _ {Map : Type 0} (evmap : Evmap Map) where
  -- An event whose time has come is deleted and made active.
  abbrev pub expire : Base Map → ℕ → Base Map
  expire b e = event_active_nolock (event_del_nolock evmap b e false).1 e ev_timeout_bit 1

  -- The loop of timeout_process. The number of events in the heap is enough fuel.
  unfoldable pub timeout_loop : ℕ → Base Map → Timeval → Base Map
  timeout_loop zero b now = b
  timeout_loop (suc fuel) b now = elim (min_heap_top b.timeheap) [
    | none ↦ b
    | some e ↦
        let rest = timeout_loop fuel (expire b e) now in
        if timer_gt (timeouts b e) now then b else rest
  ]

  unfoldable pub timeout_process : Base Map → Timeval → Base Map
  unfolding timeout_loop min_heap_empty
  timeout_process b now = if min_heap_empty b.timeheap then b else timeout_loop b.timeheap.n b now

  -- The loop of common_timeout_callback, over the list `idx`; the length of the list is enough
  -- fuel. The first event that is left is in the result.
  unfoldable pub common_timeout_loop : ℕ → Base Map → ℕ → Timeval → Option ℕ × Base Map
  common_timeout_loop zero b idx now = (none, b)
  common_timeout_loop (suc fuel) b idx now = elim (b.common_timeout_queues idx).events [
    | [] ↦ (none, b)
    | e ∷ events ↦
        let tv = timeouts b e in
        let rest = common_timeout_loop fuel (expire b e) idx now in
        if ltb now.tv_sec tv.tv_sec
          || (tv.tv_sec == now.tv_sec && ltb now.tv_usec (tv.tv_usec % 2 ^ 20))
        then (some e, b)
        else rest
  ]

  unfoldable pub common_timeout_callback : Base Map → ℕ → Timeval → Bool → Base Map
  unfolding common_timeout_loop event_add_nolock
  common_timeout_callback b idx now memory =
      let ctl = b.common_timeout_queues idx in
      let (left, b') = common_timeout_loop (suc (length ctl.events)) b idx now in
      elim left [
        | none ↦ b'
        | some e ↦
            (event_add_nolock evmap b' ctl.timeout_event (some (microseconds (timeouts b' e))) true
              now memory).1
      ]

  unfoldable pub persist_reschedule : Base Map → ℕ → Timeval → Bool → Base Map
  unfolding next_run event_add_nolock
  persist_reschedule b e now memory =
      let interval = (b.event e).ev_io_timeout in
      if interval.tv_sec == 0 && interval.tv_usec == 0
      then b
      else (event_add_nolock evmap b e (some (next_run b e now)) true now memory).1
