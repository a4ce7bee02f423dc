-- ===== src/Evmap/Io.antt =====
-- evmap_io_add_, evmap_io_del_ and evmap_io_active_ of evmap.c. `memory` answers each time that
-- memory is asked for: a call has two numbers for it, for more slots and for a new slot.
use libevent_linux.Prelude.{
  ℕ, ◌+◌, ◌-◌, Bool, not, ◌&&◌, ◌||◌, none, some, List, [], ◌∷◌, ltb, leb, ◌==◌, if◌then◌else◌,
}
use libevent_linux.Event.State.{Events, no_bits, Base, Answer, failed, done, done_notify}
use libevent_linux.Event.Queues.{remove}
use libevent_linux.Event.Active.{event_active_nolock}
use libevent_linux.Evmap.Slots.{EvmapIo, EventOp, Maps, evmap_make_space, set_slot, slot_or_new}

abbrev pub no_events : EvmapIo
no_events = record { events = []; nread = 0; nwrite = 0; nclose = 0 }

abbrev pub one_if : Bool → ℕ
one_if b = if b then 1 else 0

-- `old`: what the events of a slot ask for together.
abbrev pub asked_for : EvmapIo → Events
asked_for ctx = record no_bits {
  read = not (ctx.nread == 0);
  write = not (ctx.nwrite == 0);
  closed = not (ctx.nclose == 0);
}

-- The counters with one more event, and `res`: what it is the first to ask for.
abbrev pub counted_in : EvmapIo → ℕ → Events → EvmapIo
counted_in ctx e ev = record {
  events = e ∷ ctx.events;
  nread = ctx.nread + one_if ev.read;
  nwrite = ctx.nwrite + one_if ev.write;
  nclose = ctx.nclose + one_if ev.closed;
}

abbrev pub first_asked : EvmapIo → Events → Events
first_asked ctx ev = record no_bits {
  read = ev.read && ctx.nread + 1 == 1;
  write = ev.write && ctx.nwrite + 1 == 1;
  closed = ev.closed && ctx.nclose + 1 == 1;
}

-- The counters with one event less, and `res`: what it was the last to ask for.
abbrev pub counted_out : EvmapIo → ℕ → Events → EvmapIo
counted_out ctx e ev = record {
  events = remove e ctx.events;
  nread = ctx.nread - one_if ev.read;
  nwrite = ctx.nwrite - one_if ev.write;
  nclose = ctx.nclose - one_if ev.closed;
}

abbrev pub last_asked : EvmapIo → Events → Events
last_asked ctx ev = record no_bits {
  read = ev.read && ctx.nread - 1 == 0;
  write = ev.write && ctx.nwrite - 1 == 0;
  closed = ev.closed && ctx.nclose - 1 == 0;
}

abbrev pub some_io : Events → Bool
some_io ev = ev.read || ev.write || ev.closed

abbrev pub too_many : EvmapIo → Bool
too_many ctx = ltb 65535 ctx.nread || ltb 65535 ctx.nwrite || ltb 65535 ctx.nclose

module _ {Dev : Type 0} (op : EventOp Dev) where
  -- With a slot: the counters are checked before the backend is told, and kept if it fails.
  abbrev pub add_to_slot : Maps Dev → ℕ → EvmapIo → ℕ → Events → Answer × Maps Dev
  add_to_slot m fd ctx e ev =
      let ctx' = counted_in ctx e ev in
      let res = first_asked ctx ev in
      let (ok, dev) = op.add m.dev fd (asked_for ctx) (record res { et = ev.et }) in
      let kept = record m { io = set_slot m.io fd ctx } in
      let added = record m { io = set_slot m.io fd ctx' } in
      if too_many ctx'
      then (failed, kept)
      else if not (some_io res)
      then (done, added)
      else if ok
      then (done_notify, record added { dev = dev })
      else (failed, record kept { dev = dev })

  unfoldable pub evmap_io_add : (ℕ → Bool) → Maps Dev → ℕ → ℕ → Events → Answer × Maps Dev
  evmap_io_add memory m fd e ev =
      let m' = record m { asked = m.asked + 2 } in
      let (spaced, io) = evmap_make_space m.io fd (memory m.asked) in
      if not spaced
      then (failed, m')
      else elim (slot_or_new io fd no_events (memory (m.asked + 1))) [
        | none ↦ (failed, record m' { io = io })
        | some ctx ↦ add_to_slot (record m' { io = io }) fd ctx e ev
      ]

  -- The counters change even if the backend fails.
  abbrev pub del_from_slot : Maps Dev → ℕ → EvmapIo → ℕ → Events → Answer × Maps Dev
  del_from_slot m fd ctx e ev =
      let res = last_asked ctx ev in
      let (ok, dev) = op.del m.dev fd (asked_for ctx) (record res { et = ev.et }) in
      let m' = record m { io = set_slot m.io fd (counted_out ctx e ev) } in
      if not (some_io res)
      then (done, m')
      else (if ok then done_notify else failed, record m' { dev = dev })

  -- (A slot that is NULL would be read.)
  unfoldable pub evmap_io_del : Maps Dev → ℕ → ℕ → Events → Answer × Maps Dev
  evmap_io_del m fd e ev =
      if leb m.io.nentries fd
      then (failed, m)
      else elim (m.io.entries fd) [ none ↦ (failed, m) | some ctx ↦ del_from_slot m fd ctx e ev ]

-- `ev->ev_events & events`, without EV_ET.
abbrev pub meet : Events → Events → Events
meet a b = record {
  timeout = a.timeout && b.timeout;
  read = a.read && b.read;
  write = a.write && b.write;
  signal = a.signal && b.signal;
  persist = a.persist && b.persist;
  et = a.et && b.et;
  finalize = a.finalize && b.finalize;
  closed = a.closed && b.closed;
}

abbrev pub some_but_et : Events → Bool
some_but_et a = a.timeout || a.read || a.write || a.signal || a.persist || a.finalize || a.closed

module _ {Dev : Type 0} where
  abbrev pub active_loop : Base (Maps Dev) → List ℕ → Events → Base (Maps Dev)
  active_loop b [] events = b
  active_loop b (e ∷ l) events =
      let common = meet (b.event e).ev_events events in
      active_loop (if some_but_et common then event_active_nolock b e common 1 else b) l events

  unfoldable pub evmap_io_active : Base (Maps Dev) → ℕ → Events → Base (Maps Dev)
  evmap_io_active b fd events =
      if leb b.io.io.nentries fd
      then b
      else elim (b.io.io.entries fd) [ none ↦ b | some ctx ↦ active_loop b ctx.events events ]
