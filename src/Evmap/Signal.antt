-- ===== src/Evmap/Signal.antt =====
-- evmap_signal_add_ and evmap_signal_del_ of evmap.c, and evmap.c as the event base uses it. A
-- signal is below NSIG, 65.
use libevent_linux.Prelude.{
  ℕ, ◌+◌, Bool, true, false, not, none, some, List, [], ◌∷◌, leb, if◌then◌else◌,
}
use libevent_linux.Event.State.{no_bits, Evmap, Answer, failed, done_notify}
use libevent_linux.Event.Queues.{remove}
use libevent_linux.Evmap.Slots.{EventOp, Maps, evmap_make_space, set_slot, slot_or_new}
use libevent_linux.Evmap.Io.{evmap_io_add, evmap_io_del}

abbrev pub is_empty : List ℕ → Bool
is_empty [] = true
is_empty (e ∷ l) = false

module _ {Dev : Type 0} (op : EventOp Dev) where
  abbrev pub add_signal : Maps Dev → ℕ → List ℕ → ℕ → Answer × Maps Dev
  add_signal m sig events e =
      let (ok, dev) = op.add m.dev sig no_bits (record no_bits { signal = true }) in
      let kept = record m { sigmap = set_slot m.sigmap sig events } in
      let added = record m { sigmap = set_slot m.sigmap sig (e ∷ events) } in
      if not (is_empty events)
      then (done_notify, added)
      else if ok
      then (done_notify, record added { dev = dev })
      else (failed, record kept { dev = dev })

  unfoldable pub evmap_signal_add : (ℕ → Bool) → Maps Dev → ℕ → ℕ → Answer × Maps Dev
  evmap_signal_add memory m sig e =
      let m' = record m { asked = m.asked + 2 } in
      let (spaced, sigmap) = evmap_make_space m.sigmap sig (memory m.asked) in
      if leb 65 sig
      then (failed, m)
      else if not spaced
      then (failed, m')
      else elim (slot_or_new sigmap sig [] (memory (m.asked + 1))) [
        | none ↦ (failed, record m' { sigmap = sigmap })
        | some events ↦ add_signal (record m' { sigmap = sigmap }) sig events e
      ]

  -- (A slot that is NULL would be read.)
  unfoldable pub evmap_signal_del : Maps Dev → ℕ → ℕ → Answer × Maps Dev
  evmap_signal_del m sig e =
      if leb m.sigmap.nentries sig then (failed, m) else elim (m.sigmap.entries sig) [
        | none ↦ (failed, m)
        | some events ↦
            let left = remove e events in
            let m' = record m { sigmap = set_slot m.sigmap sig left } in
            let (ok, dev) = op.del m.dev sig no_bits (record no_bits { signal = true }) in
            if not (is_empty left)
            then (done_notify, m')
            else (if ok then done_notify else failed, record m' { dev = dev })
      ]

-- `evsel` is the backend for descriptors, `evsigsel` that for signals.
abbrev pub evmap_of : {Dev : Type 0} → EventOp Dev → EventOp Dev → (ℕ → Bool) → Evmap (Maps Dev)
evmap_of evsel evsigsel memory = record {
  io_add = evmap_io_add evsel memory;
  io_del = evmap_io_del evsel;
  signal_add = λ m sig e ev. evmap_signal_add evsigsel memory m sig e;
  signal_del = λ m sig e ev. evmap_signal_del evsigsel m sig e;
}
