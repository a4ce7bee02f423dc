-- ===== src/MinHeap/Down.antt =====
-- min_heap_shift_down_ of minheap-internal.h.
use libevent_linux.Prelude.{
  ℕ, Bool, zero, suc, ◌+◌, ◌-◌, ◌*◌, ◌%◌, ◌^◌, ◌≤◌, ◌<◌, ◌≡◌, ◌≢◌, ◌⊎◌, refl, false, leb,
  if◌then◌else◌, Bool-cases, inl, inr, arith,
}
use libevent_linux.Time.{Timeval}
use libevent_linux.MinHeap.{
  Heap, at, parent, place, min_heap_elem_greater, min_child, shift_down_loop, min_heap_shift_down,
}
use libevent_linux.MinHeap.Invariant.{
  IsWords, key, greater-key, HasHole, IsOrderedAround, IsPlaced, at-place, place-IsPlaced,
  place-HasHole,
}
use libevent_linux.MinHeap.Up.{IsPlaced-place}

-- `child` is the child of the hole with the earlier timeout.
record IsFirstChild (timeout : ℕ → Timeval) (s : Heap) (hole child : ℕ) : Type 0 where
  inside : child < s.n
  below : (child ≡ 2 * hole + 1) ⊎ (child ≡ 2 * hole + 2)
  first :
      (c : ℕ) → 0 < c → c < s.n → parent c ≡ hole → key timeout (at s child) ≤ key timeout (at s c)

child_of : (hole c : ℕ) → 0 < c → parent c ≡ hole → (c ≡ 2 * (hole + 1)) ⊎ (c ≡ 2 * (hole + 1) - 1)
child_of hole c p r = omega arith

min_child-IsFirstChild :
    (timeout : ℕ → Timeval) (s : Heap) (hole : ℕ)
    → IsWords timeout
    → 2 * (hole + 1) ≤ s.n
    → IsFirstChild timeout s hole (min_child timeout s (2 * (hole + 1)))
min_child-IsFirstChild timeout s hole w h =
    let right = 2 * (hole + 1) in
    let test = greater-key timeout (at s right) (at s (right - 1)) w in
    record {
      inside = ground (arith, test);
      below = ground (arith, test);
      first = λ c p q r. ground (arith, test, child_of hole c p r);
    }

module _ (timeout : ℕ → Timeval) (s : Heap) (hole e child : ℕ) where
  sink-IsOrderedAround :
      {gone : ℕ → Bool}
      → HasHole gone s hole e
      → IsOrderedAround timeout s hole
      → IsFirstChild timeout s hole child
      → IsOrderedAround timeout (place s hole (at s child)) child
  sink-IsOrderedAround h o f =
      let cell = λ (i : ℕ). at-place s hole (at s child) i h.inside h.size h.capacity in
      record {
        edges = λ c p q r t. ground (
          arith,
          cell c,
          cell (parent c),
          o.edges c,
          o.bridge child,
          f.first c,
          f.below,
          f.inside,
        );
        bridge = λ c q r t. ground (arith, cell c, cell (parent child), o.edges c, f.below);
      }

  sink_above :
      {gone : ℕ → Bool}
      → HasHole gone s hole e
      → IsFirstChild timeout s hole child
      → key timeout (at s child) < key timeout e
      → 0 < child
      → key timeout (at (place s hole (at s child)) (parent child)) ≤ key timeout e
  sink_above h f later pos =
      ground
        (arith, at-place s hole (at s child) (parent child) h.inside h.size h.capacity, f.below)

fits_word : (hole n : ℕ) → hole < n → n < 2 ^ 31 → 2 * (hole + 1) % 2 ^ 32 ≡ 2 * (hole + 1)
fits_word hole n h small = omega arith

-- One round, given what the rest of the loop does from the child on.
round-IsPlaced :
    (timeout : ℕ → Timeval) {gone : ℕ → Bool} (s t : Heap) (hole e child : ℕ)
    → IsWords timeout
    → HasHole gone s hole e
    → IsOrderedAround timeout s hole
    → (0 < hole → key timeout (at s (parent hole)) ≤ key timeout e)
    → IsFirstChild timeout s hole child
    → (HasHole gone (place s hole (at s child)) child e
        → IsOrderedAround timeout (place s hole (at s child)) child
        → (0 < child → key timeout (at (place s hole (at s child)) (parent child)) ≤ key timeout e)
        → IsPlaced timeout gone (place s hole (at s child)) e t)
    → IsPlaced timeout gone s e
        (if min_heap_elem_greater timeout e (at s child) then t else place s hole e)
round-IsPlaced timeout s t hole e child w h o above f rest =
    let lower : child ≢ hole = omega (arith, f.below) in
    let test = greater-key timeout e (at s child) w in
    elim (Bool-cases (min_heap_elem_greater timeout e (at s child))) [
      | inl down ↦
          let later : key timeout (at s child) < key timeout e = ground (arith, test) in
          rw down (
            IsPlaced-place timeout s t hole child e h f.inside lower (
              rest (place-HasHole s hole child e h f.inside lower)
                (sink-IsOrderedAround timeout s hole e child h o f)
                (sink_above timeout s hole e child h f later)))
      | inr stay ↦ rw stay (
          place-IsPlaced timeout s hole e h o above
            (λ c p q r. ground (arith, test, f.first c p q r)))
    ]

shift_down_loop-IsPlaced :
    (timeout : ℕ → Timeval) {gone : ℕ → Bool} (fuel : ℕ) (s : Heap) (hole e : ℕ)
    → IsWords timeout
    → s.n ≤ hole + fuel
    → HasHole gone s hole e
    → IsOrderedAround timeout s hole
    → (0 < hole → key timeout (at s (parent hole)) ≤ key timeout e)
    → IsPlaced timeout gone s e (shift_down_loop timeout fuel s hole e)
unfolding shift_down_loop
shift_down_loop-IsPlaced timeout zero s hole e w f h o above = absurd (omega (arith, h.inside))
shift_down_loop-IsPlaced timeout (suc fuel) s hole e w f h o above =
    let child = min_child timeout s (2 * (hole + 1)) in
    rw (fits_word hole s.n h.inside h.small) (elim (Bool-cases (leb (2 * (hole + 1)) s.n)) [
      | inr leaf ↦
          rw leaf (place-IsPlaced timeout s hole e h o above (λ c p q r. absurd (ground arith)))
      | inl inner ↦
          let first = min_child-IsFirstChild timeout s hole w (ground arith) in
          rw inner (
            round-IsPlaced timeout s _ hole e child w h o above first (
              shift_down_loop-IsPlaced timeout fuel (place s hole (at s child)) child e w
                (omega (arith, first.below))))
    ])

pub shift_down-IsPlaced :
    (timeout : ℕ → Timeval) {gone : ℕ → Bool} (s : Heap) (hole e : ℕ)
    → IsWords timeout
    → HasHole gone s hole e
    → IsOrderedAround timeout s hole
    → (0 < hole → key timeout (at s (parent hole)) ≤ key timeout e)
    → IsPlaced timeout gone s e (min_heap_shift_down timeout s hole e)
unfolding min_heap_shift_down
shift_down-IsPlaced timeout s hole e w h o above =
    shift_down_loop-IsPlaced timeout s.n s hole e w (omega arith) h o above

-- Past the end there is nothing to move.
pub shift_down-past :
    (timeout : ℕ → Timeval) (s : Heap) (hole e : ℕ)
    → s.n ≤ hole
    → hole < 2 ^ 31 - 1
    → min_heap_shift_down timeout s hole e ≡ place s hole e
unfolding min_heap_shift_down
shift_down-past timeout s hole e h small = past s.n h
  where
    past : (fuel : ℕ) → s.n ≤ hole → shift_down_loop timeout fuel s hole e ≡ place s hole e
    past zero h = refl
    past (suc fuel) h =
        let over : leb (2 * (hole + 1) % 2 ^ 32) s.n ≡ false = ground arith in rw over refl
