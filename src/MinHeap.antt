-- ===== src/MinHeap.antt =====
-- minheap-internal.h: the array of pointers to events, ordered by `ev_timeout`.
-- An event is a number, its timeout is given by `timeout`, and `index` holds the fields
-- `ev_timeout_pos.min_heap_idx` of all events, `none` for -1. Every array index that is read is
-- below `n`, which the invariant keeps within the array. What mm_realloc answers is an argument.
pub mod Invariant
pub mod Up
pub mod Down
pub mod Methods
pub mod Remove
mod Tests
use libevent_linux.Prelude.{
  ℕ, zero, suc, ◌+◌, ◌-◌, ◌*◌, ◌/◌, ◌%◌, ◌^◌, Bool, true, false, not, ◌&&◌, ◌||◌, Option, none,
  some, List, [], ◌++◌, length, get_or, set, replicate, ltb, leb, ◌==◌, if◌then◌else◌,
}
use libevent_linux.Time.{Timeval, timer_gt}

pub record Heap : Type 0 where
  pub p : List ℕ
  pub n : ℕ
  pub a : ℕ
  pub index : ℕ → Option ℕ

-- A write to one event's field.
abbrev pub update : (ℕ → Option ℕ) → ℕ → Option ℕ → ℕ → Option ℕ
update f e v x = if e == x then v else f x

unfoldable pub min_heap_ctor : (ℕ → Option ℕ) → Heap
min_heap_ctor index = record { p = []; n = 0; a = 0; index = index }

unfoldable pub min_heap_elem_init : Heap → ℕ → Heap
min_heap_elem_init s e = record s { index = update s.index e none }

unfoldable pub min_heap_empty : Heap → Bool
min_heap_empty s = 0 == s.n

unfoldable pub min_heap_size : Heap → ℕ
min_heap_size s = s.n

abbrev pub at : Heap → ℕ → ℕ
at s i = get_or s.p i 0

unfoldable pub min_heap_top : Heap → Option ℕ
min_heap_top s = if s.n == 0 then none else some (at s 0)

unfoldable pub min_heap_elt_is_top : Heap → ℕ → Bool
min_heap_elt_is_top s e = elim (s.index e) [ none ↦ false | some i ↦ i == 0 ]

-- `(s->p[hole_index] = e)->ev_timeout_pos.min_heap_idx = hole_index`
abbrev pub place : Heap → ℕ → ℕ → Heap
place s hole_index e = record s {
  p = set s.p hole_index e;
  index = update s.index e (some hole_index);
}

abbrev pub parent : ℕ → ℕ
parent i = (i - 1) / 2

-- The answer of mm_realloc: `true` if it gives the memory. What new cells hold is not used.
unfoldable pub min_heap_reserve : Heap → ℕ → Bool → Bool × Heap
min_heap_reserve s n memory =
    let doubled = if s.a == 0 then 8 else s.a * 2 % 2 ^ 32 in
    let a = if ltb doubled n then n else doubled in
    if ltb s.a n
    then if memory then (true, record s { p = s.p ++ replicate (a - s.a) 0; a = a }) else (false, s)
    else (true, s)

module _ (timeout : ℕ → Timeval) where
  unfoldable pub min_heap_elem_greater : ℕ → ℕ → Bool
  min_heap_elem_greater a b = timer_gt (timeout a) (timeout b)

  -- The `while` of min_heap_shift_up_, with the hole's index as fuel.
  unfoldable pub shift_up_loop : ℕ → Heap → ℕ → ℕ → Heap
  shift_up_loop zero s hole_index e = place s hole_index e
  shift_up_loop (suc fuel) s hole_index e =
      let above = at s (parent hole_index) in
      let rest = shift_up_loop fuel (place s hole_index above) (parent hole_index) e in
      if not (hole_index == 0) && min_heap_elem_greater above e then rest else place s hole_index e

  unfoldable pub min_heap_shift_up : Heap → ℕ → ℕ → Heap
  unfolding shift_up_loop
  min_heap_shift_up s hole_index e = shift_up_loop hole_index s hole_index e

  -- The `do … while` makes one move before the test.
  unfoldable pub min_heap_shift_up_unconditional : Heap → ℕ → ℕ → Heap
  unfolding min_heap_shift_up
  min_heap_shift_up_unconditional s hole_index e =
      min_heap_shift_up (place s hole_index (at s (parent hole_index))) (parent hole_index) e

  -- `min_child -= min_child == s->n || …`
  abbrev pub min_child : Heap → ℕ → ℕ
  min_child s child =
      child
      - (if child == s.n || min_heap_elem_greater (at s child) (at s (child - 1)) then 1 else 0)

  -- The `while` of min_heap_shift_down_, with the size as fuel.
  unfoldable pub shift_down_loop : ℕ → Heap → ℕ → ℕ → Heap
  shift_down_loop zero s hole_index e = place s hole_index e
  shift_down_loop (suc fuel) s hole_index e =
      let right = 2 * (hole_index + 1) % 2 ^ 32 in
      let child = min_child s right in
      let rest = shift_down_loop fuel (place s hole_index (at s child)) child e in
      let move = if min_heap_elem_greater e (at s child) then rest else place s hole_index e in
      if leb right s.n then move else place s hole_index e

  unfoldable pub min_heap_shift_down : Heap → ℕ → ℕ → Heap
  unfolding shift_down_loop
  min_heap_shift_down s hole_index e = shift_down_loop s.n s hole_index e

  -- `true` for the 0 of success.
  unfoldable pub min_heap_push : Heap → ℕ → Bool → Bool × Heap
  unfolding min_heap_reserve min_heap_shift_up
  min_heap_push s e memory =
      let (reserved, s') = min_heap_reserve s (s.n + 1) memory in
      if s.n == 2 ^ 32 - 1
      then (false, s)
      else if reserved
      then (true, min_heap_shift_up (record s' { n = s'.n + 1 }) s'.n e)
      else (false, s)

  unfoldable pub min_heap_pop : Heap → Option ℕ × Heap
  unfolding min_heap_shift_down
  min_heap_pop s =
      let e = at s 0 in
      let s' = record s { n = s.n - 1 } in
      let s'' = min_heap_shift_down s' 0 (at s (s.n - 1)) in
      if s.n == 0 then (none, s) else (some e, record s'' { index = update s''.index e none })

  -- An element at index `i` is replaced by the last, which moves up or down.
  unfoldable pub erase_at : Heap → ℕ → ℕ → Heap
  unfolding min_heap_shift_up_unconditional min_heap_shift_down
  erase_at s e i =
      let last = at s (s.n - 1) in
      let s' = record s { n = s.n - 1 } in
      let s'' =
        if not (i == 0) && min_heap_elem_greater (at s (parent i)) last
        then min_heap_shift_up_unconditional s' i last
        else min_heap_shift_down s' i last in
      record s'' { index = update s''.index e none }

  unfoldable pub min_heap_erase : Heap → ℕ → Bool × Heap
  unfolding erase_at
  min_heap_erase s e = elim (s.index e) [ none ↦ (false, s) | some i ↦ (true, erase_at s e i) ]

  unfoldable pub min_heap_adjust : Heap → ℕ → Bool → Bool × Heap
  unfolding min_heap_push min_heap_shift_up_unconditional min_heap_shift_down
  min_heap_adjust s e memory = elim (s.index e) [
    | none ↦ min_heap_push s e memory
    | some i ↦ (
      true,
      if not (i == 0) && min_heap_elem_greater (at s (parent i)) e
          then min_heap_shift_up_unconditional s i e
          else min_heap_shift_down s i e,
    )
  ]
