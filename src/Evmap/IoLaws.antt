-- ===== src/Evmap/IoLaws.antt =====
-- evmap_io_add_ and evmap_io_del_ of evmap.c: the counters of each descriptor, its events, and what
-- the backend asks for.
use mathlib.Core.Path.{subst}
use libevent_linux.Prelude.{
  ℕ, ◌+◌, ◌≤◌, ◌<◌, ◌≡◌, ◌≢◌, ◌&&◌, ◌||◌, refl, sym, ap, ◌∙◌, Bool, true, false, not, Option, none,
  some, leb, ◌==◌, if◌then◌else◌, if_elim, Option-cases, Option_elim, Holds, inl, inr, arith,
}
use libevent_linux.Event.State.{Events, Answer, failed, done_notify}
use libevent_linux.Evmap.Slots.{
  EventSignalMap, EvmapIo, EventOp, Maps, evmap_make_space, set_slot, slot_or_new,
}
use libevent_linux.Evmap.Io.{
  no_events, asked_for, counted_in, first_asked, counted_out, last_asked, some_io, too_many,
  add_to_slot, evmap_io_add, del_from_slot, evmap_io_del,
}
use libevent_linux.Evmap.SlotLaws.{
  count_of, IsOp, IsSlot, slot_of, IsMaps, make_space-Spaced, counted_in-IsSlot, counted_out-IsSlot,
}

or_new-IsSlot :
    (bits : ℕ → Events) (w : Events) (o : Option EvmapIo) (memory : Bool)
    → IsSlot bits w (slot_of o)
    → Holds
        (IsSlot bits w)
        (elim o [ some s ↦ some s | none ↦ if memory then some no_events else none ])
or_new-IsSlot bits w (some s) memory v = v
or_new-IsSlot bits w none true v = v
or_new-IsSlot bits w none false v = tt

told_true : (ok : Bool) → (if ok then done_notify else failed) ≢ failed → ok ≡ true
told_true true h = refl
told_true false h = absurd (h refl)

module _ {Dev : Type 0} (bits : ℕ → Events) (asks : Dev → ℕ → Events) where
  -- One slot is written.
  set_slot-IsMaps :
      (m : Maps Dev) (io : EventSignalMap EvmapIo) (fd : ℕ) (ctx : EvmapIo) (dev : Dev) (asked : ℕ)
      → ((x : ℕ) → fd ≢ x → IsSlot bits (asks dev x) (slot_of (io.entries x)))
      → IsSlot bits (asks dev fd) ctx
      → ((x : ℕ) → io.nentries ≤ x → io.entries x ≡ none)
      → fd < io.nentries
      → IsMaps bits asks (record m { io = set_slot io fd ctx; dev = dev; asked = asked })
  set_slot-IsMaps m io fd ctx dev asked others here beyond below = record {
    slots = λ x.
        if_elim (λ o. IsSlot bits (asks dev x) (slot_of o)) (fd == x)
          (λ e. let same : fd ≡ x = ground arith in rw (sym same) here)
          (λ out. others x (λ e. ground arith));
    beyond = λ x h.
        if_elim (λ o. o ≡ none) (fd == x) (λ e. absurd (ground (arith, h, below)))
          (λ _. beyond x h);
  }

  -- The same when the backend does not ask for anything else of other descriptors.
  same-IsSlot : (w w' : Events) (ctx : EvmapIo) → IsSlot bits w ctx → w' ≡ w → IsSlot bits w' ctx
  same-IsSlot w w' ctx s e = rw e s

  module _ (op : EventOp Dev) (law : IsOp op asks) where
    add_to_slot-IsMaps :
        (m : Maps Dev) (fd : ℕ) (ctx : EvmapIo) (e : ℕ)
        → IsMaps bits asks m
        → IsSlot bits (asks m.dev fd) ctx
        → fd < m.io.nentries
        → IsMaps bits asks (add_to_slot op m fd ctx e (bits e)).1
    add_to_slot-IsMaps m fd ctx e v here below =
        let ev = bits e in
        let res = first_asked ctx ev in
        let changed : Events = record res { et = ev.et } in
        let old = asked_for ctx in
        let P = λ (r : Answer × Maps Dev). IsMaps bits asks r.1 in
        if_elim P (too_many (counted_in ctx e ev))
          (λ _. set_slot-IsMaps m m.io fd ctx m.dev m.asked (λ x _. v.slots x) here v.beyond below)
          (λ small.
            if_elim P (not (some_io res))
              (λ nothing.
                set_slot-IsMaps m m.io fd (counted_in ctx e ev) m.dev m.asked (λ x _. v.slots x)
                  (counted_in-IsSlot bits (asks m.dev fd) (asks m.dev fd) ctx e here small
                    (ground arith) (ground arith) (ground arith))
                  v.beyond below)
              (λ _.
                if_elim P (op.add m.dev fd old changed).0
                  (λ ok.
                    let dev = (op.add m.dev fd old changed).1 in
                    let (read, write, closed) = law.added m.dev fd old changed ok in
                    set_slot-IsMaps m m.io fd (counted_in ctx e ev) dev m.asked
                      (λ x out.
                        same-IsSlot (asks m.dev x) (asks dev x) _ (v.slots x)
                          (law.add_others m.dev fd x old changed out))
                      (counted_in-IsSlot bits (asks m.dev fd) (asks dev fd) ctx e here small
                        (read ∙ ap (λ r. r || res.read) (sym here.read))
                        (write ∙ ap (λ r. r || res.write) (sym here.write))
                        (closed ∙ ap (λ r. r || res.closed) (sym here.closed)))
                      v.beyond below)
                  (λ ko.
                    let dev = (op.add m.dev fd old changed).1 in
                    set_slot-IsMaps m m.io fd ctx dev m.asked
                      (λ x out.
                        same-IsSlot (asks m.dev x) (asks dev x) _ (v.slots x)
                          (law.add_others m.dev fd x old changed out))
                      (same-IsSlot (asks m.dev fd) (asks dev fd) ctx here
                        (law.not_added m.dev fd old changed ko))
                      v.beyond below)))

    del_from_slot-IsMaps :
        (m : Maps Dev) (fd : ℕ) (ctx : EvmapIo) (e : ℕ)
        → IsMaps bits asks m
        → IsSlot bits (asks m.dev fd) ctx
        → 0 < count_of (λ x. e == x) ctx.events
        → fd < m.io.nentries
        → (del_from_slot op m fd ctx e (bits e)).0 ≢ failed
        → IsMaps bits asks (del_from_slot op m fd ctx e (bits e)).1
    del_from_slot-IsMaps m fd ctx e v here there below =
        let ev = bits e in
        let res = last_asked ctx ev in
        let changed : Events = record res { et = ev.et } in
        let old = asked_for ctx in
        let P = λ (r : Answer × Maps Dev). r.0 ≢ failed → IsMaps bits asks r.1 in
        if_elim P (not (some_io res))
          (λ nothing _.
            set_slot-IsMaps m m.io fd (counted_out ctx e ev) m.dev m.asked (λ x _. v.slots x)
              (counted_out-IsSlot bits (asks m.dev fd) (asks m.dev fd) ctx e here there
                (ground arith) (ground arith) (ground arith))
              v.beyond below)
          (λ _ worked.
            let ok : (op.del m.dev fd old changed).0 ≡ true =
              told_true (op.del m.dev fd old changed).0 worked in
            let dev = (op.del m.dev fd old changed).1 in
            let (read, write, closed) = law.deleted m.dev fd old changed ok in
            set_slot-IsMaps m m.io fd (counted_out ctx e ev) dev m.asked
              (λ x out.
                same-IsSlot (asks m.dev x) (asks dev x) _ (v.slots x)
                  (law.del_others m.dev fd x old changed out))
              (counted_out-IsSlot bits (asks m.dev fd) (asks dev fd) ctx e here there
                (read ∙ ap (λ r. r && not res.read) (sym here.read))
                (write ∙ ap (λ r. r && not res.write) (sym here.write))
                (closed ∙ ap (λ r. r && not res.closed) (sym here.closed)))
              v.beyond below)

    -- The counters of each file descriptor count its events that read, write and wait for the end,
    -- and the backend asks for what some event asks for, and evmap_io_add_ keeps that so, whether
    -- it succeeds or fails: of a backend that computes what it asks for from the old events that
    -- it is given and the change.
    pub io_add-IsMaps :
        (memory : ℕ → Bool) (m : Maps Dev) (fd e : ℕ)
        → IsMaps bits asks m
        → IsMaps bits asks (evmap_io_add op memory m fd e (bits e)).1
    unfolding evmap_io_add
    io_add-IsMaps memory m fd e v =
        let spaced = make_space-Spaced m.io fd (memory m.asked) v.beyond in
        let (ok, io) = evmap_make_space m.io fd (memory m.asked) in
        let P = λ (r : Answer × Maps Dev). IsMaps bits asks r.1 in
        let m' : Maps Dev = record m { asked = m.asked + 2; io = io } in
        let v' : IsMaps bits asks m' = record {
          slots = λ x.
              subst (λ o. IsSlot bits (asks m.dev x) (slot_of o)) (sym (spaced.same x)) (v.slots x);
          beyond = λ x h. spaced.same x ∙ v.beyond x (omega (arith, spaced.grown, h));
        } in
        if_elim P (not ok) (λ _. record { slots = v.slots; beyond = v.beyond })
          (λ yes.
            let below = spaced.enough (ground arith) in
            Option_elim (IsSlot bits (asks m.dev fd)) P
              (slot_or_new io fd no_events (memory (m.asked + 1)))
              (or_new-IsSlot bits (asks m.dev fd) (io.entries fd) (memory (m.asked + 1))
                (v'.slots fd))
              v' (λ ctx s. add_to_slot-IsMaps m' fd ctx e v' s below))

    -- evmap_io_del_ of an event that is in the slot keeps this so, unless the backend fails.
    pub io_del-IsMaps :
        (m : Maps Dev) (fd e : ℕ)
        → IsMaps bits asks m
        → 0 < count_of (λ x. e == x) (slot_of (m.io.entries fd)).events
        → (evmap_io_del op m fd e (bits e)).0 ≢ failed
        → IsMaps bits asks (evmap_io_del op m fd e (bits e)).1
    unfolding evmap_io_del
    io_del-IsMaps m fd e v there =
        let P = λ (r : Answer × Maps Dev). r.0 ≢ failed → IsMaps bits asks r.1 in
        if_elim P (leb m.io.nentries fd) (λ _ _. v)
          (λ inside. elim (Option-cases (m.io.entries fd)) [
            | inl e' ↦ rw e' (λ _. v)
            | inr (ctx, e') ↦ rw e' (
                del_from_slot-IsMaps m fd ctx e v
                  (subst (λ o. IsSlot bits (asks m.dev fd) (slot_of o)) e' (v.slots fd))
                  (subst (λ o. 0 < count_of (λ x. e == x) (slot_of o).events) e' there)
                  (ground arith))
          ])
