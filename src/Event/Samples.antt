-- ===== src/Event/Samples.antt =====
-- A base of event.c with four events that wait for nothing yet, for the tests.
use libevent_linux.Prelude.{ℕ, ◌+◌, ◌-◌, refl, true, false, [], none, arith}
use libevent_linux.Time.{Timeval}
use libevent_linux.Event.State.{Flags, no_bits, event_closure, Event, Base, done, Evmap}
use libevent_linux.Event.Invariant.{IsBase}

-- A map that counts the events that it has.
abbrev pub counting : Evmap ℕ
counting = record {
  io_add = λ m fd e events. (done, m + 1);
  io_del = λ m fd e events. (done, m - 1);
  signal_add = λ m fd e events. (done, m + 1);
  signal_del = λ m fd e events. (done, m - 1);
}

abbrev pub zero_time : Timeval
zero_time = record { tv_sec = 0; tv_usec = 0 }

abbrev pub five_seconds : Timeval
five_seconds = record { tv_sec = 5; tv_usec = 0 }

abbrev pub idle_flags : Flags
idle_flags = record {
  timeout = false;
  inserted = false;
  active = false;
  internal = false;
  active_later = false;
  finalizing = false;
  init = true;
}

-- An event for reading from a file descriptor.
abbrev pub reader : ℕ → Event
reader e = record {
  ev_flags = idle_flags;
  ev_pri = 0;
  ev_closure = event_closure;
  ev_fd = e;
  ev_events = record no_bits { read = true };
  ev_res = no_bits;
  ev_ncalls = 0;
  ev_pncalls = false;
  calls_left = 0;
  ev_timeout = zero_time;
  ev_io_timeout = zero_time;
}

abbrev pub start : Base ℕ
start = record {
  event = reader;
  io = 0;
  timeheap = record { p = []; n = 0; a = 0; index = λ e. none };
  common_timeout_queues = λ i. record { events = []; duration = zero_time; timeout_event = 0 };
  n_common_timeouts = 0;
  activequeues = λ p. [];
  nactivequeues = 1;
  active_later_queue = [];
  virtual_event_count = 0;
  virtual_event_count_max = 0;
  event_count = 0;
  event_count_max = 0;
  event_count_active = 0;
  event_count_active_max = 0;
  n_deferreds_queued = 0;
  event_running_priority = none;
  event_continue = false;
  need_notify = false;
  th_notify_fn = false;
  is_notify_pending = false;
}

pub start-IsBase : IsBase 4 start
start-IsBase = record {
  heap = record {
    size = omega arith;
    capacity = refl;
    small = omega arith;
    order = λ c p q. absurd (omega arith);
    indexed = λ i p. absurd (omega arith);
    inverse = λ x i p. cc;
  };
  words = λ x. omega arith;
  in_heap = λ x. refl;
  in_common = λ i x. refl;
  in_active = λ p x. refl;
  in_later = λ x. refl;
  one_queue = λ x. refl;
  finalizing = λ x. refl;
  bound = λ x p. (refl, refl, refl, refl);
  counted = refl;
  counted_active = refl;
}
