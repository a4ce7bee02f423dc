-- ===== src/Evmap/SlotLaws.antt =====
-- One slot of evmap.c: its counters count its events. And what evmap_make_space does.
use libevent_linux.Prelude.{
  ℕ, zero, suc, ◌+◌, ◌-◌, ◌*◌, ◌/◌, ◌^◌, ◌≤◌, ◌<◌, ◌≡◌, ◌≢◌, refl, sym, Bool, true, false, not,
  ◌&&◌, ◌||◌, Option, none, some, List, [], ◌∷◌, ltb, leb, ◌==◌, if◌then◌else◌, if_elim, arith,
}
use libevent_linux.Event.State.{Events}
use libevent_linux.Event.Queues.{remove}
use libevent_linux.Evmap.Slots.{
  EventSignalMap, EvmapIo, EventOp, Maps, double_beyond, evmap_make_space,
}
use libevent_linux.Evmap.Io.{
  no_events, one_if, counted_in, first_asked, counted_out, last_asked, too_many,
}

abbrev pub count_of : (ℕ → Bool) → List ℕ → ℕ
count_of f [] = 0
count_of f (e ∷ l) = one_if (f e) + count_of f l

-- What is asked for after an addition or a deletion: it is computed from what was asked for before,
-- as the caller gives it, and from what changes. Whether it is edge-triggered is left open.
abbrev pub Adds : Events → Events → Events → Type 0
Adds old changed w =
    (w.read ≡ (old.read || changed.read))
    × (w.write ≡ (old.write || changed.write))
    × (w.closed ≡ (old.closed || changed.closed))

abbrev pub Drops : Events → Events → Events → Type 0
Drops old changed w =
    (w.read ≡ (old.read && not changed.read))
    × (w.write ≡ (old.write && not changed.write))
    × (w.closed ≡ (old.closed && not changed.closed))

-- A backend, by what it asks the system for of each descriptor. As epoll_nochangelist_add and
-- epoll_nochangelist_del do, it replaces that by what follows from its argument `old`; an addition
-- that fails changes nothing, and no call changes another descriptor.
pub record IsOp {Dev : Type 0} (op : EventOp Dev) (asks : Dev → ℕ → Events) : Type 0 where
  pub added :
      (d : Dev) (fd : ℕ) (old changed : Events)
      → (op.add d fd old changed).0 ≡ true
      → Adds old changed (asks (op.add d fd old changed).1 fd)
  pub not_added :
      (d : Dev) (fd : ℕ) (old changed : Events)
      → (op.add d fd old changed).0 ≡ false
      → asks (op.add d fd old changed).1 fd ≡ asks d fd
  pub deleted :
      (d : Dev) (fd : ℕ) (old changed : Events)
      → (op.del d fd old changed).0 ≡ true
      → Drops old changed (asks (op.del d fd old changed).1 fd)
  pub add_others :
      (d : Dev) (fd x : ℕ) (old changed : Events)
      → fd ≢ x
      → asks (op.add d fd old changed).1 x ≡ asks d x
  pub del_others :
      (d : Dev) (fd x : ℕ) (old changed : Events)
      → fd ≢ x
      → asks (op.del d fd old changed).1 x ≡ asks d x

-- The counters count the events, whose `ev_events` are `bits`, and the backend asks for what some
-- event asks for.
pub record IsSlot (bits : ℕ → Events) (w : Events) (ctx : EvmapIo) : Type 0 where
  pub reads : ctx.nread ≡ count_of (λ e. (bits e).read) ctx.events
  pub writes : ctx.nwrite ≡ count_of (λ e. (bits e).write) ctx.events
  pub closes : ctx.nclose ≡ count_of (λ e. (bits e).closed) ctx.events
  pub small : too_many ctx ≡ false
  pub read : w.read ≡ not (ctx.nread == 0)
  pub write : w.write ≡ not (ctx.nwrite == 0)
  pub closed : w.closed ≡ not (ctx.nclose == 0)

-- A slot that is NULL is as one with no events.
abbrev pub slot_of : Option EvmapIo → EvmapIo
slot_of none = no_events
slot_of (some ctx) = ctx

pub record IsMaps {Dev : Type 0} (bits : ℕ → Events) (asks : Dev → ℕ → Events) (m : Maps Dev)
    : Type 0 where
  pub slots : (fd : ℕ) → IsSlot bits (asks m.dev fd) (slot_of (m.io.entries fd))
  pub beyond : (fd : ℕ) → m.io.nentries ≤ fd → m.io.entries fd ≡ none

double_beyond-large :
    (fuel nentries slot : ℕ)
    → 1 ≤ nentries
    → slot < nentries + fuel
    → (nentries ≤ double_beyond fuel nentries slot) × (slot < double_beyond fuel nentries slot)
unfolding double_beyond
double_beyond-large zero nentries slot one h = (omega arith, omega (arith, h))
double_beyond-large (suc fuel) nentries slot one h =
    if_elim (λ r. (nentries ≤ r) × (slot < r)) (leb nentries slot)
      (λ more.
        let (a, b) =
          double_beyond-large fuel (nentries * 2) slot (omega arith) (omega (arith, h, one)) in
        (omega (arith, a), b))
      (λ enough. (omega arith, ground arith))

-- More slots: the old ones stay, and the others are NULL.
pub record Spaced {Slot : Type 0} (map : EventSignalMap Slot) (slot : ℕ)
    (r : Bool × EventSignalMap Slot) : Type 0 where
  pub same : (x : ℕ) → r.1.entries x ≡ map.entries x
  pub grown : map.nentries ≤ r.1.nentries
  pub enough : r.0 ≡ true → slot < r.1.nentries

unchanged : {Slot : Type 0} (map : EventSignalMap Slot) (slot : ℕ) → Spaced map slot (false, map)
unchanged map slot = record { same = λ x. refl; grown = omega arith; enough = λ bad. cc }

pub make_space-Spaced :
    {Slot : Type 0} (map : EventSignalMap Slot) (slot : ℕ) (memory : Bool)
    → ((x : ℕ) → map.nentries ≤ x → map.entries x ≡ none)
    → Spaced map slot (evmap_make_space map slot memory)
unfolding evmap_make_space
make_space-Spaced map slot memory beyond =
    let start = if map.nentries == 0 then 32 else map.nentries in
    let (more, large) = double_beyond-large (slot + 1) start slot (ground arith) (ground arith) in
    if_elim (Spaced map slot) (not (leb map.nentries slot))
      (λ has. record { same = λ x. refl; grown = omega arith; enough = λ _. ground arith })
      (λ _.
        if_elim (Spaced map slot)
          (ltb ((2 ^ 31 - 1) / 2) slot
            || ltb ((2 ^ 31 - 1) / 8) (double_beyond (slot + 1) start slot)
            || not memory)
          (λ _. unchanged map slot)
          (λ _. record {
            same = λ x.
                if_elim (λ o. o ≡ map.entries x) (ltb x map.nentries) (λ _. refl)
                  (λ out. sym (beyond x (ground arith)));
            grown = ground (arith, more);
            enough = λ _. large;
          }))

count_of-remove :
    (f : ℕ → Bool) (e : ℕ) (l : List ℕ)
    → 0 < count_of (λ x. e == x) l
    → count_of f (remove e l) + one_if (f e) ≡ count_of f l
count_of-remove f e [] h = absurd (omega arith)
count_of-remove f e (x ∷ l) h =
    if_elim (λ r. count_of f r + one_if (f e) ≡ one_if (f x) + count_of f l) (e == x)
      (λ here. let same : e ≡ x = ground arith in rw same (omega arith))
      (λ out. let rest = count_of-remove f e l (ground (arith, h)) in omega (arith, rest))

pub counted_in-IsSlot :
    (bits : ℕ → Events) (w w' : Events) (ctx : EvmapIo) (e : ℕ)
    → IsSlot bits w ctx
    → too_many (counted_in ctx e (bits e)) ≡ false
    → w'.read ≡ (w.read || (first_asked ctx (bits e)).read)
    → w'.write ≡ (w.write || (first_asked ctx (bits e)).write)
    → w'.closed ≡ (w.closed || (first_asked ctx (bits e)).closed)
    → IsSlot bits w' (counted_in ctx e (bits e))
counted_in-IsSlot bits w w' ctx e s small r wr cl = record {
  reads = omega (arith, s.reads);
  writes = omega (arith, s.writes);
  closes = omega (arith, s.closes);
  small = small;
  read = ground (arith, r, s.read);
  write = ground (arith, wr, s.write);
  closed = ground (arith, cl, s.closed);
}

pub counted_out-IsSlot :
    (bits : ℕ → Events) (w w' : Events) (ctx : EvmapIo) (e : ℕ)
    → IsSlot bits w ctx
    → 0 < count_of (λ x. e == x) ctx.events
    → w'.read ≡ (w.read && not (last_asked ctx (bits e)).read)
    → w'.write ≡ (w.write && not (last_asked ctx (bits e)).write)
    → w'.closed ≡ (w.closed && not (last_asked ctx (bits e)).closed)
    → IsSlot bits w' (counted_out ctx e (bits e))
counted_out-IsSlot bits w w' ctx e s here r wr cl =
    let a = count_of-remove (λ x. (bits x).read) e ctx.events here in
    let b = count_of-remove (λ x. (bits x).write) e ctx.events here in
    let c = count_of-remove (λ x. (bits x).closed) e ctx.events here in
    record {
      reads = omega (arith, s.reads, a);
      writes = omega (arith, s.writes, b);
      closes = omega (arith, s.closes, c);
      small = ground (arith, s.small);
      read = ground (arith, r, s.read, s.reads, a);
      write = ground (arith, wr, s.write, s.writes, b);
      closed = ground (arith, cl, s.closed, s.closes, c);
    }
