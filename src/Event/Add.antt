-- ===== src/Event/Add.antt =====
-- event_add_nolock_ of event.c. `now` is what gettime gives, `memory` the answer of mm_realloc, and
-- `tv` is `none` for NULL.
use libevent_linux.Prelude.{
  ℕ, ◌+◌, ◌-◌, ◌%◌, ◌^◌, bit_or, Bool, true, false, not, ◌&&◌, ◌||◌, Option, none, some, List, [],
  ◌∷◌, ◌==◌, if◌then◌else◌,
}
use libevent_linux.Time.{Timeval, timer_lt, timeradd}
use libevent_linux.MinHeap.{min_heap_reserve, min_heap_size, min_heap_top, min_heap_elt_is_top}
use libevent_linux.Event.State.{
  Closure, event_persist, Base, Evmap, Answer, done, Outcome, success, failure, put, timeouts,
  is_io, microseconds, common_timeout_idx, is_common_timeout, notify_if,
}
use libevent_linux.Event.Queues.{
  event_queue_insert_inserted, event_queue_insert_timeout, event_queue_remove_active,
}
use libevent_linux.Event.Delete.{abort_loop, del_timeout, result, asks_notify, is_success}

abbrev pub is_persist : Closure → Bool
is_persist event_persist = true
is_persist _ = false

abbrev pub is_first : ℕ → List ℕ → Bool
is_first e [] = false
is_first e (x ∷ l) = e == x

-- The bits of the common timeout are kept apart from the microseconds.
unfoldable pub absolute_timeout : Timeval → Bool → Bool → Timeval → Timeval
unfolding timeradd microseconds
absolute_timeout tv tv_is_absolute common now =
    let sum = timeradd now (microseconds tv) in
    if tv_is_absolute
    then tv
    else if common
    then record sum { tv_usec = bit_or sum.tv_usec (tv.tv_usec - tv.tv_usec % 2 ^ 20) }
    else timeradd now tv

module _ {Map : Type 0} (evmap : Evmap Map) where
  abbrev pub evmap_add : Base Map → ℕ → Answer × Map
  evmap_add b e =
      let ev = b.event e in
      if is_io ev.ev_events
      then evmap.io_add b.io ev.ev_fd e ev.ev_events
      else evmap.signal_add b.io ev.ev_fd e ev.ev_events

  abbrev pub add_inserted : Base Map → ℕ → Answer × Base Map
  add_inserted b e =
      let ev = b.event e in
      let (answer, io) = evmap_add b e in
      let b' = record b { io = io } in
      if (is_io ev.ev_events || ev.ev_events.signal)
        && not (ev.ev_flags.inserted || ev.ev_flags.active || ev.ev_flags.active_later)
      then (answer, if is_success (result answer) then event_queue_insert_inserted b' e else b')
      else (done, b)

-- An event that is active by its timeout is taken out of its queue.
abbrev pub unschedule : {Map : Type 0} → Base Map → ℕ → Base Map
unschedule b e =
    let ev = b.event e in
    if ev.ev_flags.active && ev.ev_res.timeout
    then event_queue_remove_active (abort_loop b e) e
    else b

abbrev pub keep_interval : {Map : Type 0} → Base Map → ℕ → Timeval → Bool → Base Map
keep_interval b e tv tv_is_absolute =
    let ev = b.event e in
    if is_persist ev.ev_closure && not tv_is_absolute
    then put b e (record ev { ev_io_timeout = tv })
    else b

-- The earliest timeout is that of the event, or is past.
abbrev pub wakes_loop : {Map : Type 0} → Base Map → ℕ → Timeval → Bool
wakes_loop b e now =
    min_heap_elt_is_top b.timeheap e
    || elim (min_heap_top b.timeheap) [ none ↦ false | some top ↦ timer_lt (timeouts b top) now ]

-- The event with the timeout that it gets, before it is queued.
abbrev pub set_timeout : {Map : Type 0} → Base Map → ℕ → Timeval → Bool → Timeval → Base Map
set_timeout b e tv tv_is_absolute now =
    let b' = unschedule (del_timeout (keep_interval b e tv tv_is_absolute) e) e in
    let common = is_common_timeout tv b'.n_common_timeouts in
    put b' e (record (b'.event e) { ev_timeout = absolute_timeout tv tv_is_absolute common now })

-- `schedule` is what common_timeout_schedule adds: an event with an absolute timeout.
abbrev pub add_timeout :
    {Map : Type 0}
    → (Base Map → ℕ → Timeval → Base Map)
    → Base Map
    → ℕ
    → Timeval
    → Bool
    → Timeval
    → Bool
    → Bool × Base Map
add_timeout schedule b e tv tv_is_absolute now memory =
    let b' = event_queue_insert_timeout (set_timeout b e tv tv_is_absolute now) e memory in
    let ctl = b'.common_timeout_queues (common_timeout_idx (timeouts b' e)) in
    if is_common_timeout tv b.n_common_timeouts
    then (
      false,
      if is_first e ctl.events
          then schedule b' ctl.timeout_event (microseconds (timeouts b' e))
          else b',
    )
    else (wakes_loop b' e now, b')

module _ {Map : Type 0} (evmap : Evmap Map) where
  abbrev pub add_step :
      (Base Map → ℕ → Timeval → Base Map)
      → Base Map
      → ℕ
      → Option Timeval
      → Bool
      → Timeval
      → Bool
      → Outcome × Base Map
  add_step schedule b e none tv_is_absolute now memory =
      let (answer, b') = add_inserted evmap b e in
      if (b.event e).ev_flags.finalizing
      then (failure, b)
      else (result answer, notify_if (is_success (result answer) && asks_notify answer) b')
  add_step schedule b e (some tv) tv_is_absolute now memory =
      let (reserved, heap) = min_heap_reserve b.timeheap (1 + min_heap_size b.timeheap) memory in
      let b' = if (b.event e).ev_flags.timeout then b else record b { timeheap = heap } in
      let (answer, b'') = add_inserted evmap b' e in
      let (notify, b''') = add_timeout schedule b'' e tv tv_is_absolute now memory in
      if (b.event e).ev_flags.finalizing || (not (b.event e).ev_flags.timeout && not reserved)
      then (failure, b)
      else if is_success (result answer)
      then (success, notify_if (asks_notify answer || notify) b''')
      else (failure, b'')

  -- What common_timeout_schedule adds. The event of a list of common timeouts has itself no common
  -- timeout, so that its own addition schedules nothing.
  abbrev pub schedule_once : Timeval → Bool → Base Map → ℕ → Timeval → Base Map
  schedule_once now memory b e tv = (add_step (λ b e tv. b) b e (some tv) true now memory).1

  unfoldable pub event_add_nolock :
      Base Map → ℕ → Option Timeval → Bool → Timeval → Bool → Outcome × Base Map
  unfolding min_heap_size min_heap_reserve event_queue_insert_inserted event_queue_insert_timeout
      absolute_timeout is_common_timeout common_timeout_idx microseconds
  event_add_nolock b e tv tv_is_absolute now memory =
      add_step (schedule_once now memory) b e tv tv_is_absolute now memory
