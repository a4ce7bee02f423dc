-- ===== src/Event/State.antt =====
-- `struct event`, `struct event_callback` and `struct event_base` of include/event2/event_struct.h
-- and event-internal.h, and the small helpers of event.c on them. A callback is a number that
-- `event` maps to its fields; a set of flags is a record of Booleans, one for each bit. What
-- evmap.c keeps is a parameter `Map`, its operations are an `Evmap`. The lock is held, and no other
-- thread runs the callback at hand, so that nothing waits for `current_event_cond`.
use libevent_linux.Prelude.{
  ℕ, ◌/◌, ◌%◌, ◌^◌, Bool, true, false, not, ◌&&◌, ◌||◌, Option, List, ltb, ◌==◌, if◌then◌else◌,
}
use libevent_linux.Time.{Timeval}
use libevent_linux.MinHeap.{Heap}

-- EVLIST_TIMEOUT, EVLIST_INSERTED, EVLIST_ACTIVE, EVLIST_INTERNAL, EVLIST_ACTIVE_LATER,
-- EVLIST_FINALIZING and EVLIST_INIT. (EVLIST_SIGNAL is used nowhere.)
pub record Flags : Type 0 where
  pub timeout : Bool
  pub inserted : Bool
  pub active : Bool
  pub internal : Bool
  pub active_later : Bool
  pub finalizing : Bool
  pub init : Bool

-- EV_TIMEOUT, EV_READ, EV_WRITE, EV_SIGNAL, EV_PERSIST, EV_ET, EV_FINALIZE and EV_CLOSED.
pub record Events : Type 0 where
  pub timeout : Bool
  pub read : Bool
  pub write : Bool
  pub signal : Bool
  pub persist : Bool
  pub et : Bool
  pub finalize : Bool
  pub closed : Bool

abbrev pub no_bits : Events
no_bits = record {
  timeout = false;
  read = false;
  write = false;
  signal = false;
  persist = false;
  et = false;
  finalize = false;
  closed = false;
}

abbrev pub ev_timeout_bit : Events
ev_timeout_bit = record no_bits { timeout = true }

-- `a | b`.
abbrev pub join : Events → Events → Events
join a b = record {
  timeout = a.timeout || b.timeout;
  read = a.read || b.read;
  write = a.write || b.write;
  signal = a.signal || b.signal;
  persist = a.persist || b.persist;
  et = a.et || b.et;
  finalize = a.finalize || b.finalize;
  closed = a.closed || b.closed;
}

pub data Closure : Type 0 where
  event_closure : Closure
  event_signal : Closure
  event_persist : Closure
  cb_self : Closure
  cb_finalize : Closure
  event_finalize : Closure
  event_finalize_free : Closure

-- `ev_pncalls` tells whether that pointer is set, and `calls_left` is the variable of
-- event_signal_closure that it then points to.
pub record Event : Type 0 where
  pub ev_flags : Flags
  pub ev_pri : ℕ
  pub ev_closure : Closure
  pub ev_fd : ℕ
  pub ev_events : Events
  pub ev_res : Events
  pub ev_ncalls : ℕ
  pub ev_pncalls : Bool
  pub calls_left : ℕ
  pub ev_timeout : Timeval
  pub ev_io_timeout : Timeval

pub record CommonTimeoutList : Type 0 where
  pub events : List ℕ
  pub duration : Timeval
  pub timeout_event : ℕ

-- `need_notify` is EVBASE_NEED_NOTIFY; `event_running_priority` is `none` for -1.
pub record Base (Map : Type 0) : Type 0 where
  pub event : ℕ → Event
  pub io : Map
  pub timeheap : Heap
  pub common_timeout_queues : ℕ → CommonTimeoutList
  pub n_common_timeouts : ℕ
  pub activequeues : ℕ → List ℕ
  pub nactivequeues : ℕ
  pub active_later_queue : List ℕ
  pub virtual_event_count : ℕ
  pub virtual_event_count_max : ℕ
  pub event_count : ℕ
  pub event_count_max : ℕ
  pub event_count_active : ℕ
  pub event_count_active_max : ℕ
  pub n_deferreds_queued : ℕ
  pub event_running_priority : Option ℕ
  pub event_continue : Bool
  pub need_notify : Bool
  pub th_notify_fn : Bool
  pub is_notify_pending : Bool

-- The answers -1, 0 and 1 of evmap.c.
pub data Answer : Type 0 where
  failed : Answer
  done : Answer
  done_notify : Answer

-- evmap_io_add_, evmap_io_del_, evmap_signal_add_ and evmap_signal_del_: from the file descriptor
-- or signal, the event and its `ev_events`.
pub record Evmap (Map : Type 0) : Type 0 where
  pub io_add : Map → ℕ → ℕ → Events → Answer × Map
  pub io_del : Map → ℕ → ℕ → Events → Answer × Map
  pub signal_add : Map → ℕ → ℕ → Events → Answer × Map
  pub signal_del : Map → ℕ → ℕ → Events → Answer × Map

-- `int` results: 0 and -1.
pub data Outcome : Type 0 where
  success : Outcome
  failure : Outcome

-- A write to one callback.
abbrev pub put : {Map : Type 0} → Base Map → ℕ → Event → Base Map
put b e ev = record b { event = λ x. if e == x then ev else b.event x }

abbrev pub put_flags : {Map : Type 0} → Base Map → ℕ → Flags → Base Map
put_flags b e flags = put b e (record (b.event e) { ev_flags = flags })

abbrev pub timeouts : {Map : Type 0} → Base Map → ℕ → Timeval
timeouts b x = (b.event x).ev_timeout

-- EV_READ, EV_WRITE or EV_CLOSED.
abbrev pub is_io : Events → Bool
is_io ev = ev.read || ev.write || ev.closed

-- The low 20 bits of a `tv_usec` are the microseconds.
unfoldable pub microseconds : Timeval → Timeval
microseconds tv = record tv { tv_usec = tv.tv_usec % 2 ^ 20 }

-- COMMON_TIMEOUT_IDX: the bits from 20 to 27.
unfoldable pub common_timeout_idx : Timeval → ℕ
common_timeout_idx tv = tv.tv_usec / 2 ^ 20 % 2 ^ 8

-- The bits from 28 to 31 are the magic number 5.
unfoldable pub is_common_timeout : Timeval → ℕ → Bool
unfolding common_timeout_idx
is_common_timeout tv n_common_timeouts =
    tv.tv_usec / 2 ^ 28 % 2 ^ 4 == 5 && ltb (common_timeout_idx tv) n_common_timeouts

unfoldable pub event_haveevents : {Map : Type 0} → Base Map → Bool
event_haveevents b = ltb 0 b.virtual_event_count || ltb 0 b.event_count

-- The function that wakes the loop writes to a pipe.
unfoldable pub evthread_notify_base : {Map : Type 0} → Base Map → Base Map
evthread_notify_base b =
    if b.th_notify_fn && not b.is_notify_pending then record b { is_notify_pending = true } else b

-- `if (… && notify && EVBASE_NEED_NOTIFY (base))`.
abbrev pub notify_if : {Map : Type 0} → Bool → Base Map → Base Map
notify_if notify b = if notify && b.need_notify then evthread_notify_base b else b
