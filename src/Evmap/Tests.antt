-- ===== src/Evmap/Tests.antt =====
-- evmap.c with a backend that records what it is asked for.
use libevent_linux.Prelude.{
  ℕ, ◌<◌, ◌≡◌, ◌≢◌, refl, Bool, true, none, ◌==◌, if◌then◌else◌, arith, ap, not, ◌&&◌, ◌||◌,
  if_true, if_false, Bool-cases, inl, inr,
}
use libevent_linux.Event.State.{Events, no_bits, failed, done, done_notify}
use libevent_linux.Evmap.Slots.{EventOp, Maps, double_beyond, evmap_make_space}
use libevent_linux.Evmap.Io.{evmap_io_add, evmap_io_del}
use libevent_linux.Evmap.Signal.{evmap_signal_add, evmap_signal_del}
use libevent_linux.Evmap.SlotLaws.{IsOp, IsMaps, count_of, slot_of}
use libevent_linux.Evmap.IoLaws.{io_add-IsMaps, io_del-IsMaps}

abbrev Record : Type 0
Record = ℕ → Events

abbrev plus : Events → Events → Events
plus old changed = record no_bits {
  read = old.read || changed.read;
  write = old.write || changed.write;
  closed = old.closed || changed.closed;
  et = changed.et;
}

abbrev without : Events → Events → Events
without old changed = record no_bits {
  read = old.read && not changed.read;
  write = old.write && not changed.write;
  closed = old.closed && not changed.closed;
  et = changed.et;
}

-- As with epoll, the new mask is that of `old` and the change, edge-triggered if the change is.
abbrev recording : EventOp Record
recording = record {
  add = λ d fd old changed. (true, λ x. if fd == x then plus old changed else d x);
  del = λ d fd old changed. (true, λ x. if fd == x then without old changed else d x);
}

abbrev asks : Record → ℕ → Events
asks d = d

same_fd : (fd : ℕ) (a b : Events) → (if fd == fd then a else b) ≡ a
same_fd fd a b = if_true (fd == fd) _ _ (ground arith)

other_fd : (fd x : ℕ) (a b : Events) → fd ≢ x → (if fd == x then a else b) ≡ b
other_fd fd x a b ne = elim (Bool-cases (fd == x)) [
  | inl e ↦ absurd (ne (ground arith))
  | inr e ↦ if_false _ _ _ e
]

recording-IsOp : IsOp recording asks
recording-IsOp = record {
  added = λ d fd old changed ok.
      let w = same_fd fd (plus old changed) (d fd) in
      (
        ap (λ (w : Events). w.read) w,
        ap (λ (w : Events). w.write) w,
        ap (λ (w : Events). w.closed) w,
      );
  not_added = λ d fd old changed ko. cc;
  deleted = λ d fd old changed ok.
      let w = same_fd fd (without old changed) (d fd) in
      (
        ap (λ (w : Events). w.read) w,
        ap (λ (w : Events). w.write) w,
        ap (λ (w : Events). w.closed) w,
      );
  add_others = λ d fd x old changed ne. other_fd fd x (plus old changed) (d x) ne;
  del_others = λ d fd x old changed ne. other_fd fd x (without old changed) (d x) ne;
}

abbrev reading : Events
reading = record no_bits { read = true }

-- All events read.
abbrev bits : ℕ → Events
bits e = reading

abbrev empty : Maps Record
empty = record {
  io = record { entries = λ x. none; nentries = 0 };
  sigmap = record { entries = λ x. none; nentries = 0 };
  dev = λ x. no_bits;
  asked = 0;
}

abbrev granted : ℕ → Bool
granted n = true

empty-IsMaps : IsMaps bits asks empty
empty-IsMaps = record {
  slots = λ x. record {
    reads = refl;
    writes = refl;
    closes = refl;
    small = refl;
    read = refl;
    write = refl;
    closed = refl;
  };
  beyond = λ x h. refl;
}

-- Event 7 waits for descriptor 3.
abbrev one : Maps Record
one = (evmap_io_add recording granted empty 3 7 reading).1

-- With event 8 the backend is told nothing.
answers :
    ((evmap_io_add recording granted empty 3 7 reading).0 ≡ done_notify)
    × ((evmap_io_add recording granted one 3 8 reading).0 ≡ done)
unfolding evmap_io_add evmap_make_space double_beyond
answers = (refl, refl)

signals :
    (let (answer, m) = evmap_signal_add recording granted empty 2 7 in
      (answer ≡ done_notify) × ((evmap_signal_del recording m 2 7).0 ≡ done_notify))
unfolding evmap_signal_add evmap_signal_del evmap_make_space double_beyond
signals = (refl, refl)

io_add-IsMaps_example : IsMaps bits asks (evmap_io_add recording granted empty 3 7 reading).1
io_add-IsMaps_example =
    io_add-IsMaps bits asks recording recording-IsOp granted empty 3 7 empty-IsMaps

one-there : 0 < count_of (λ x. 7 == x) (slot_of (one.io.entries 3)).events
unfolding evmap_io_add evmap_make_space double_beyond
one-there = omega arith

one-works : (evmap_io_del recording one 3 7 reading).0 ≢ failed
unfolding evmap_io_del evmap_io_add evmap_make_space double_beyond
one-works = λ bad. cc

io_del-IsMaps_example : IsMaps bits asks (evmap_io_del recording one 3 7 reading).1
io_del-IsMaps_example =
    io_del-IsMaps bits asks recording recording-IsOp one 3 7
      (io_add-IsMaps bits asks recording recording-IsOp granted empty 3 7 empty-IsMaps) one-there
      one-works
