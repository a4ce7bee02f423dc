-- ===== src/Event/Delete.antt =====
-- event_del_nolock_, event_remove_timer_nolock_ and event_callback_cancel_nolock_ of event.c.
use libevent_linux.Prelude.{ℕ, Bool, true, false, not, ◌&&◌, ◌||◌, ◌==◌, if◌then◌else◌}
use libevent_linux.Event.State.{
  Base, Evmap, Answer, failed, done_notify, Outcome, success, failure, put, is_io, event_haveevents,
  notify_if,
}
use libevent_linux.Event.Queues.{
  event_queue_remove_inserted, event_queue_remove_active, event_queue_remove_active_later,
  event_queue_remove_timeout,
}

-- `*ev->ev_pncalls = 0`, if a loop of event_signal_closure runs the event.
abbrev pub abort_loop : {Map : Type 0} → Base Map → ℕ → Base Map
abort_loop b e =
    let ev = b.event e in
    if ev.ev_events.signal && not (ev.ev_ncalls == 0) && ev.ev_pncalls
    then put b e (record ev { calls_left = 0 })
    else b

abbrev pub del_timeout : {Map : Type 0} → Base Map → ℕ → Base Map
del_timeout b e = if (b.event e).ev_flags.timeout then event_queue_remove_timeout b e else b

abbrev pub del_active : {Map : Type 0} → Base Map → ℕ → Base Map
del_active b e =
    let flags = (b.event e).ev_flags in
    if flags.active
    then event_queue_remove_active b e
    else if flags.active_later
    then event_queue_remove_active_later b e
    else b

-- What the answer of evmap.c gives: the result, and whether to wake the loop.
abbrev pub result : Answer → Outcome
result failed = failure
result _ = success

abbrev pub asks_notify : Answer → Bool
asks_notify done_notify = true
asks_notify _ = false

abbrev pub is_success : Outcome → Bool
is_success success = true
is_success failure = false

module _ {Map : Type 0} (evmap : Evmap Map) where
  abbrev pub evmap_del : Base Map → ℕ → Answer × Map
  evmap_del b e =
      let ev = b.event e in
      if is_io ev.ev_events
      then evmap.io_del b.io ev.ev_fd e ev.ev_events
      else evmap.signal_del b.io ev.ev_fd e ev.ev_events

  abbrev pub del_inserted : Base Map → ℕ → Outcome × Base Map
  del_inserted b e =
      let b' = event_queue_remove_inserted b e in
      let (answer, io) = evmap_del b' e in
      let b'' = record b' { io = io } in
      let notify =
        asks_notify answer || (not (event_haveevents b'') && b''.event_count_active == 0) in
      if (b.event e).ev_flags.inserted
      then (result answer, notify_if (is_success (result answer) && notify) b'')
      else (success, b)

  -- `even_if_finalizing` is `blocking == EVENT_DEL_EVEN_IF_FINALIZING`.
  unfoldable pub event_del_nolock : Base Map → ℕ → Bool → Outcome × Base Map
  unfolding event_queue_remove_timeout event_queue_remove_active event_queue_remove_active_later
  event_del_nolock b e even_if_finalizing =
      if not even_if_finalizing && (b.event e).ev_flags.finalizing
      then (success, b)
      else del_inserted (del_active (del_timeout (abort_loop b e) e) e) e

  -- Only one of the two results, 0 or that of event_del_nolock_, is a failure.
  unfoldable pub event_callback_cancel_nolock : Base Map → ℕ → Bool → Outcome × Base Map
  unfolding event_del_nolock
  event_callback_cancel_nolock b e even_if_finalizing =
      let flags = (b.event e).ev_flags in
      if flags.finalizing && not even_if_finalizing
      then (success, b)
      else if flags.init
      then event_del_nolock b e even_if_finalizing
      else (success, del_active b e)

-- `timerclear (&ev->ev_.ev_io.ev_timeout)`, the interval of a persistent event.
unfoldable pub event_remove_timer_nolock : {Map : Type 0} → Base Map → ℕ → Base Map
unfolding event_queue_remove_timeout
event_remove_timer_nolock b e =
    let b' = event_queue_remove_timeout b e in
    if (b.event e).ev_flags.timeout
    then put b' e (record (b'.event e) { ev_io_timeout = record { tv_sec = 0; tv_usec = 0 } })
    else b
