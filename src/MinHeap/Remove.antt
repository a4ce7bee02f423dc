-- ===== src/MinHeap/Remove.antt =====
-- min_heap_erase_, min_heap_pop_ and min_heap_adjust_ of minheap-internal.h.
use libevent_linux.Prelude.{
  ℕ, ◌+◌, ◌-◌, ◌<◌, ◌≡◌, ◌≢◌, refl, ap, sym, ◌∙◌, none, some, Bool, true, false, not, ◌&&◌,
  get_or-set, length-set, ◌==◌, if◌then◌else◌, Bool-cases, Option-cases, inl, inr, arith,
}
use native.Mathlib.Decide.{ℕ_discrete}
use libevent_linux.Time.{Timeval, rank}
use libevent_linux.MinHeap.{
  Heap, at, parent, place, update, min_heap_elem_greater, min_heap_top, min_heap_pop,
  min_heap_erase, erase_at, min_heap_adjust, min_heap_shift_up_unconditional, min_heap_shift_down,
}
use libevent_linux.MinHeap.Invariant.{
  IsWords, key, greater-key, IsHeap, HasHole, IsOrderedAround, IsPlaced, has, none_gone,
  IsHeapBut-IsHeap,
}
use libevent_linux.MinHeap.Up.{shift_up_unconditional-IsPlaced}
use libevent_linux.MinHeap.Down.{shift_down-IsPlaced, shift_down-past}

-- The choice of direction that erasing and adjusting share.
abbrev settle : (ℕ → Timeval) → Heap → ℕ → ℕ → Heap
settle timeout s i e =
    if not (i == 0) && min_heap_elem_greater timeout (at s (parent i)) e
    then min_heap_shift_up_unconditional timeout s i e
    else min_heap_shift_down timeout s i e

settle-IsPlaced :
    (timeout : ℕ → Timeval) {gone : ℕ → Bool} (s : Heap) (hole e : ℕ)
    → IsWords timeout
    → HasHole gone s hole e
    → IsOrderedAround timeout s hole
    → IsPlaced timeout gone s e (settle timeout s hole e)
settle-IsPlaced timeout s hole e w h o =
    let test = greater-key timeout (at s (parent hole)) e w in
    elim (Bool-cases (not (hole == 0) && min_heap_elem_greater timeout (at s (parent hole)) e)) [
      | inl up ↦ rw up (
          shift_up_unconditional-IsPlaced timeout s hole e w (ground arith) h o
            (ground (arith, test)))
      | inr down ↦
          rw down (shift_down-IsPlaced timeout s hole e w h o (λ pos. ground (arith, test)))
    ]

-- The events but one.
abbrev only : ℕ → ℕ → Bool
only e x = e == x

abbrev shorter : Heap → Heap
shorter s = record s { n = s.n - 1 }

-- Without the last element and the one at `i`, a valid heap has a hole at `i`.
shorter-HasHole :
    (timeout : ℕ → Timeval) (s : Heap) (e i : ℕ)
    → IsHeap timeout s
    → s.index e ≡ some i
    → i < s.n - 1
    → HasHole (only e) (shorter s) i (at s (s.n - 1)) × IsOrderedAround timeout (shorter s) i
shorter-HasHole timeout s e i v here inside = (
  record {
    size = omega (arith, v.size);
    capacity = v.capacity;
    small = omega (arith, v.small);
    inside = inside;
    indexed = λ j p q. v.indexed j (omega arith);
    inverse = λ x j g ne p.
        ground (arith, v.inverse x j, v.inverse e i here, v.indexed j, v.indexed (s.n - 1));
    absent = λ j p q. ground (arith, v.indexed j);
    kept = ground (arith, v.indexed (s.n - 1));
    fresh = λ j p q. ground (arith, v.indexed j, v.indexed (s.n - 1));
  },
  record {
    edges = λ c p q r t. v.order c p (omega arith);
    bridge = λ c q r t. ground (arith, v.order c, v.order i);
  },
)

-- An event leaves the heap.
abbrev pub Removed : (ℕ → Timeval) → Heap → ℕ → Heap → Type 0
Removed timeout s e t =
    IsHeap timeout t × (t.n + 1 ≡ s.n) × ((x : ℕ) → has t x ≡ (if e == x then false else has s x))

drop_index-Removed :
    (timeout : ℕ → Timeval) (s t : Heap) (e i : ℕ)
    → IsHeap timeout s
    → s.index e ≡ some i
    → i < s.n - 1
    → IsPlaced timeout (only e) (shorter s) (at s (s.n - 1)) t
    → Removed timeout s e (record t { index = update t.index e none })
drop_index-Removed timeout s t e i v here inside p = (
  record {
    size = p.heap.size;
    capacity = p.heap.capacity;
    small = p.heap.small;
    order = p.heap.order;
    indexed = λ j q. ground (arith, p.heap.indexed j, p.heap.absent j);
    inverse = λ x j q. ground (arith, p.heap.inverse x j);
  },
  omega (arith, p.same_size),
  λ x. ground (arith, p.members x, v.indexed (s.n - 1)),
)

last-Removed :
    (timeout : ℕ → Timeval) (s : Heap) (e : ℕ)
    → IsHeap timeout s
    → s.index e ≡ some (s.n - 1)
    → 0 < s.n
    → let t = place (shorter s) (s.n - 1) e in
      Removed timeout s e (record t { index = update t.index e none })
last-Removed timeout s e v here pos =
    let cell = λ (i : ℕ). get_or-set s.p (s.n - 1) i e 0 in
    (
      record {
        size = omega (arith, v.size);
        capacity = omega (arith, length-set s.p (s.n - 1) e, v.capacity);
        small = omega (arith, v.small);
        order = λ c p q. ground (arith, cell c, cell (parent c), v.order c, v.size, v.capacity);
        indexed = λ i p. ground (arith, cell i, v.indexed i, v.size, v.capacity);
        inverse = λ x i p.
            ground (arith, cell i, v.inverse x i, v.inverse e (s.n - 1) here, v.size, v.capacity);
      },
      omega arith,
      λ x. ground arith,
    )

erase_at-last :
    (timeout : ℕ → Timeval) (s : Heap) (e : ℕ)
    → IsWords timeout
    → IsHeap timeout s
    → s.index e ≡ some (s.n - 1)
    → 0 < s.n
    → Removed timeout s e (erase_at timeout s e (s.n - 1))
unfolding erase_at
erase_at-last timeout s e w v here pos =
    let last = s.n - 1 in
    let same : at s last ≡ e = (v.inverse e last here).1 in
    let test = greater-key timeout (at s (parent last)) (at s last) w in
    let stay : (not (last == 0) && min_heap_elem_greater timeout (at s (parent last)) (at s last))
        ≡ false =
      ground (arith, test, v.order last) in
    rw
      (
        stay,
        shift_down-past timeout (shorter s) last (at s last) (omega arith) (omega (arith, v.small)),
        same,
      )
      (last-Removed timeout s e v here pos)

-- Erasing the event at its index.
erase_at-Removed :
    (timeout : ℕ → Timeval) (s : Heap) (e i : ℕ)
    → IsWords timeout
    → IsHeap timeout s
    → s.index e ≡ some i
    → Removed timeout s e (erase_at timeout s e i)
unfolding erase_at
erase_at-Removed timeout s e i w v here = elim (ℕ_discrete i (s.n - 1)) [
  | no other ↦
      let inside : i < s.n - 1 = omega (arith, (v.inverse e i here).0) in
      let (h, o) = shorter-HasHole timeout s e i v here inside in
      drop_index-Removed timeout s (settle timeout (shorter s) i (at s (s.n - 1))) e i v here inside
        (settle-IsPlaced timeout (shorter s) i (at s (s.n - 1)) w h o)
  | yes end ↦
      let here' : s.index e ≡ some (s.n - 1) = here ∙ ap some end in
      rw end (erase_at-last timeout s e w v here' (omega (arith, (v.inverse e i here).0)))
]

-- min_heap_erase_ on a valid heap fails exactly if the event is not in it, and then changes
-- nothing; otherwise it leaves a valid heap without the event, and with all others.
pub erase-Removed :
    (timeout : ℕ → Timeval) (s : Heap) (e : ℕ)
    → IsWords timeout
    → IsHeap timeout s
    → let (done, t) = min_heap_erase timeout s e in
      (done ≡ has s e) × (done ≡ false → t ≡ s) × (done ≡ true → Removed timeout s e t)
unfolding min_heap_erase
erase-Removed timeout s e w v = elim (Option-cases (s.index e)) [
  | inl out ↦ rw (out, min_heap_erase) (refl, (λ _. refl), λ f. cc)
  | inr (i, here) ↦
      rw (here, min_heap_erase) (refl, (λ f. cc), λ _. erase_at-Removed timeout s e i w v here)
]

pop-erase_at :
    (timeout : ℕ → Timeval) (s : Heap)
    → 0 < s.n
    → min_heap_pop timeout s ≡ (some (at s 0), erase_at timeout s (at s 0) 0)
unfolding min_heap_pop erase_at
pop-erase_at timeout s pos = let n : (s.n == 0) ≡ false = ground arith in rw n refl

-- min_heap_pop_ on a valid heap returns what min_heap_top_ does; if that is an event, a valid heap
-- is left without it and with all others, and otherwise nothing changes.
pub pop-Removed :
    (timeout : ℕ → Timeval) (s : Heap)
    → IsWords timeout
    → IsHeap timeout s
    → let (top, t) = min_heap_pop timeout s in
      (top ≡ min_heap_top s)
      × (top ≡ none → t ≡ s)
      × ((e : ℕ) → top ≡ some e → Removed timeout s e t)
unfolding min_heap_top
pop-Removed timeout s w v = elim (Bool-cases (s.n == 0)) [
  | inl empty ↦
      let same : min_heap_pop timeout s ≡ (none, s) = unfold min_heap_pop in rw empty refl in
      rw (same, empty) (refl, (λ _. refl), λ e f. cc)
  | inr left ↦
      let pos : 0 < s.n = ground arith in
      rw (pop-erase_at timeout s pos, left)
        (
          refl,
          (λ f. cc),
          λ e f.
              let is_e : at s 0 ≡ e = cc in
              rw (sym is_e) (erase_at-Removed timeout s (at s 0) 0 w v (v.indexed 0 pos)),
        )
]

changed-HasHole :
    (old timeout : ℕ → Timeval) (s : Heap) (e i : ℕ)
    → IsHeap old s
    → s.index e ≡ some i
    → ((x : ℕ) → x ≢ e → timeout x ≡ old x)
    → HasHole none_gone s i e × IsOrderedAround timeout s i
changed-HasHole old timeout s e i v here others =
    let (inside, is_e) = v.inverse e i here in
    let fresh : (j : ℕ) → j < s.n → j ≢ i → at s j ≢ e = λ j p q. ground (arith, v.indexed j) in
    let same : (j : ℕ) → j < s.n → j ≢ i → key timeout (at s j) ≡ key old (at s j) =
      λ j p q. ap rank (others (at s j) (fresh j p q)) in
    (
      record {
        size = v.size;
        capacity = v.capacity;
        small = v.small;
        inside = inside;
        indexed = λ j p q. v.indexed j p;
        inverse = λ x j g ne p. ground (arith, v.inverse x j);
        absent = λ j p q. refl;
        kept = refl;
        fresh = fresh;
      },
      record {
        edges =
            λ c p q r t. omega (arith, same c q r, same (parent c) (omega arith) t, v.order c p q);
        bridge = λ c q r t. omega (
          arith,
          same c q (omega (arith, r, t)),
          same (parent i) (omega arith) (omega arith),
          v.order c (omega (arith, r, t)) q,
          v.order i t inside,
          ap (at s) r,
          ap (λ x. key old (at s x)) r,
        );
      },
    )

-- After the timeout of one event has changed in a valid heap, min_heap_adjust_ of that event
-- makes the heap valid for the new timeouts, with the same events.
pub adjust-IsHeap :
    (old timeout : ℕ → Timeval) (s : Heap) (e : ℕ) (memory : Bool)
    → IsWords timeout
    → IsHeap old s
    → has s e ≡ true
    → ((x : ℕ) → x ≢ e → timeout x ≡ old x)
    → let (done, t) = min_heap_adjust timeout s e memory in
      (done ≡ true) × IsHeap timeout t × (t.n ≡ s.n) × ((x : ℕ) → has t x ≡ has s x)
unfolding min_heap_adjust
adjust-IsHeap old timeout s e memory w v member others = elim (Option-cases (s.index e)) [
  | inl out ↦ absurd (ground (arith, out))
  | inr (i, here) ↦
      let (h, o) = changed-HasHole old timeout s e i v here others in
      let p = settle-IsPlaced timeout s i e w h o in
      rw (here, min_heap_adjust)
        (refl, IsHeapBut-IsHeap timeout p.heap, p.same_size, λ x. ground (arith, p.members x))
]
