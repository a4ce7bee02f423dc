-- ===== src/Evmap/Slots.antt =====
-- The arrays of evmap.c. What the backend keeps is a parameter `Dev`. A file descriptor or signal is
-- a number: for negative ones evmap.c does nothing.
use libevent_linux.Prelude.{
  ℕ, zero, suc, ◌+◌, ◌-◌, ◌*◌, ◌/◌, ◌^◌, Bool, true, false, not, ◌||◌, Option, none, some, List,
  ltb, leb, ◌==◌, if◌then◌else◌,
}
use libevent_linux.Event.State.{Events}

-- struct event_signal_map of event-internal.h; a slot is `none` for NULL.
pub record EventSignalMap (Slot : Type 0) : Type 0 where
  pub entries : ℕ → Option Slot
  pub nentries : ℕ

-- struct evmap_io. (struct evmap_signal is the list of its events.)
pub record EvmapIo : Type 0 where
  pub events : List ℕ
  pub nread : ℕ
  pub nwrite : ℕ
  pub nclose : ℕ

-- The functions `add` and `del` of struct eventop: from the descriptor, what was asked for before,
-- and what changes.
pub record EventOp (Dev : Type 0) : Type 0 where
  pub add : Dev → ℕ → Events → Events → Bool × Dev
  pub del : Dev → ℕ → Events → Events → Bool × Dev

-- The fields `io` and `sigmap` of the base, and the backend's. `asked` is how many times memory was
-- asked for.
pub record Maps (Dev : Type 0) : Type 0 where
  pub io : EventSignalMap EvmapIo
  pub sigmap : EventSignalMap (List ℕ)
  pub dev : Dev
  pub asked : ℕ

-- `while (nentries <= slot) nentries <<= 1`: the slot is enough fuel, since `nentries` grows.
unfoldable pub double_beyond : ℕ → ℕ → ℕ → ℕ
double_beyond zero nentries slot = nentries
double_beyond (suc fuel) nentries slot =
    let rest = double_beyond fuel (nentries * 2) slot in
    if leb nentries slot then rest else nentries

module _ {Slot : Type 0} where
  -- The slots after the old ones are NULL. A pointer has 8 bytes; `memory` is the answer of
  -- mm_realloc.
  unfoldable pub evmap_make_space : EventSignalMap Slot → ℕ → Bool → Bool × EventSignalMap Slot
  unfolding double_beyond
  evmap_make_space map slot memory =
      let nentries =
        double_beyond (slot + 1) (if map.nentries == 0 then 32 else map.nentries) slot in
      if not (leb map.nentries slot)
      then (true, map)
      else if ltb ((2 ^ 31 - 1) / 2) slot || ltb ((2 ^ 31 - 1) / 8) nentries || not memory
      then (false, map)
      else (
        true,
        record {
          entries = λ i. if ltb i map.nentries then map.entries i else none;
          nentries = nentries;
        },
      )

  abbrev pub set_slot : EventSignalMap Slot → ℕ → Slot → EventSignalMap Slot
  set_slot map slot s = record map { entries = λ i. if slot == i then some s else map.entries i }

  -- GET_SIGNAL_SLOT_AND_CTOR: the slot, or a new one if there is memory.
  abbrev pub slot_or_new : EventSignalMap Slot → ℕ → Slot → Bool → Option Slot
  slot_or_new map slot new memory = elim (map.entries slot) [
    | some s ↦ some s
    | none ↦ if memory then some new else none
  ]
