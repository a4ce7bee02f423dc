-- ===== src/MinHeap/Up.antt =====
-- min_heap_shift_up_ and min_heap_shift_up_unconditional_ of minheap-internal.h.
use libevent_linux.Prelude.{
  ℕ, Bool, zero, suc, ◌≤◌, ◌<◌, ◌≡◌, ◌≢◌, not, ◌&&◌, ◌==◌, Bool-cases, inl, inr, arith,
}
use libevent_linux.Time.{Timeval}
use libevent_linux.MinHeap.{
  Heap, at, parent, place, min_heap_elem_greater, shift_up_loop, min_heap_shift_up,
  min_heap_shift_up_unconditional,
}
use libevent_linux.MinHeap.Invariant.{
  IsWords, key, greater-key, HasHole, IsOrderedAround, IsPlaced, at-place, place-IsPlaced,
  place-HasHole, members-place,
}

-- What the hole's children need: `e` may stand above them.
abbrev pub IsBelow : (ℕ → Timeval) → Heap → ℕ → ℕ → Type 0
IsBelow timeout s hole e =
    (c : ℕ) → 0 < c → c < s.n → parent c ≡ hole → key timeout e ≤ key timeout (at s c)

-- A result for the state after a move is one for the state before it.
pub IsPlaced-place :
    (timeout : ℕ → Timeval) {gone : ℕ → Bool} (s t : Heap) (hole from e : ℕ)
    → HasHole gone s hole e
    → from < s.n
    → from ≢ hole
    → IsPlaced timeout gone (place s hole (at s from)) e t
    → IsPlaced timeout gone s e t
IsPlaced-place timeout s t hole from e h inside ne r = record {
  heap = r.heap;
  members = λ x. ground (arith, r.members x, members-place s hole from e x h inside ne);
  same_size = r.same_size;
}

module _ (timeout : ℕ → Timeval) (s : Heap) (hole e : ℕ) where
  rise-IsOrderedAround :
      {gone : ℕ → Bool}
      → HasHole gone s hole e
      → IsOrderedAround timeout s hole
      → 0 < hole
      → IsOrderedAround timeout (place s hole (at s (parent hole))) (parent hole)
  rise-IsOrderedAround h o pos =
      let cell = λ (i : ℕ). at-place s hole (at s (parent hole)) i h.inside h.size h.capacity in
      record {
        edges = λ c p q r t. ground (arith, cell c, cell (parent c), o.edges c, o.bridge c);
        bridge = λ c q r t.
            ground (arith, cell c, cell (parent (parent hole)), o.edges c, o.edges (parent hole));
      }

  rise-IsBelow :
      {gone : ℕ → Bool}
      → HasHole gone s hole e
      → IsOrderedAround timeout s hole
      → 0 < hole
      → key timeout e < key timeout (at s (parent hole))
      → IsBelow timeout (place s hole (at s (parent hole))) (parent hole) e
  rise-IsBelow h o pos later c p q r =
      ground (arith, at-place s hole (at s (parent hole)) c h.inside h.size h.capacity, o.edges c)

shift_up_loop-IsPlaced :
    (timeout : ℕ → Timeval) {gone : ℕ → Bool} (fuel : ℕ) (s : Heap) (hole e : ℕ)
    → IsWords timeout
    → hole ≤ fuel
    → HasHole gone s hole e
    → IsOrderedAround timeout s hole
    → IsBelow timeout s hole e
    → IsPlaced timeout gone s e (shift_up_loop timeout fuel s hole e)
unfolding shift_up_loop
shift_up_loop-IsPlaced timeout zero s hole e w f h o below =
    place-IsPlaced timeout s hole e h o (λ p. absurd (omega arith)) below
shift_up_loop-IsPlaced timeout (suc fuel) s hole e w f h o below =
    let above = at s (parent hole) in
    elim (Bool-cases (not (hole == 0) && min_heap_elem_greater timeout above e)) [
      | inl up ↦
          let pos : 0 < hole = ground arith in
          let later : key timeout e < key timeout above =
            ground (arith, greater-key timeout above e w) in
          rw up (
            IsPlaced-place timeout s _ hole (parent hole) e h (omega (arith, h.inside))
              (omega arith)
              (shift_up_loop-IsPlaced timeout fuel (place s hole above) (parent hole) e w
                (omega arith)
                (place-HasHole s hole (parent hole) e h (omega (arith, h.inside)) (omega arith))
                (rise-IsOrderedAround timeout s hole e h o pos)
                (rise-IsBelow timeout s hole e h o pos later)))
      | inr stay ↦ rw stay (
          place-IsPlaced timeout s hole e h o (λ pos. ground (arith, greater-key timeout above e w))
            below)
    ]

pub shift_up-IsPlaced :
    (timeout : ℕ → Timeval) {gone : ℕ → Bool} (s : Heap) (hole e : ℕ)
    → IsWords timeout
    → HasHole gone s hole e
    → IsOrderedAround timeout s hole
    → IsBelow timeout s hole e
    → IsPlaced timeout gone s e (min_heap_shift_up timeout s hole e)
unfolding min_heap_shift_up
shift_up-IsPlaced timeout s hole e w h o below =
    shift_up_loop-IsPlaced timeout hole s hole e w (omega arith) h o below

-- The first move needs no test if the element belongs above the hole.
pub shift_up_unconditional-IsPlaced :
    (timeout : ℕ → Timeval) {gone : ℕ → Bool} (s : Heap) (hole e : ℕ)
    → IsWords timeout
    → 0 < hole
    → HasHole gone s hole e
    → IsOrderedAround timeout s hole
    → key timeout e < key timeout (at s (parent hole))
    → IsPlaced timeout gone s e (min_heap_shift_up_unconditional timeout s hole e)
unfolding min_heap_shift_up_unconditional
shift_up_unconditional-IsPlaced timeout s hole e w pos h o later =
    let inside : parent hole < s.n = omega (arith, h.inside) in
    IsPlaced-place timeout s _ hole (parent hole) e h inside (omega arith) (
      shift_up-IsPlaced timeout (place s hole (at s (parent hole))) (parent hole) e w
        (place-HasHole s hole (parent hole) e h inside (omega arith))
        (rise-IsOrderedAround timeout s hole e h o pos)
        (rise-IsBelow timeout s hole e h o pos later))
