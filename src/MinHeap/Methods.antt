-- ===== src/MinHeap/Methods.antt =====
-- min_heap_top_, min_heap_push_ and min_heap_adjust_ of minheap-internal.h.
use libevent_linux.Prelude.{
  ℕ, zero, suc, ◌+◌, ◌-◌, ◌*◌, ◌%◌, ◌^◌, ◌≤◌, ◌<◌, ◌≡◌, refl, ap, ◌∙◌, ◌⊎◌, Option, none, some,
  Bool, true, false, ◌++◌, replicate, get_or-append, length-append, length-replicate, ltb, ◌==◌,
  if◌then◌else◌, Bool-cases, Option-cases, inl, inr, arith,
}
use libevent_linux.Time.{Timeval}
use libevent_linux.MinHeap.{
  Heap, at, parent, min_heap_reserve, min_heap_top, min_heap_push, min_heap_shift_up,
}
use libevent_linux.MinHeap.Invariant.{
  IsWords, key, IsHeap, HasHole, IsOrderedAround, IsPlaced, has, is_some, none_gone,
  IsHeapBut-IsHeap,
}
use libevent_linux.MinHeap.Up.{shift_up-IsPlaced}

root_first_below :
    (timeout : ℕ → Timeval) (s : Heap) (bound i : ℕ)
    → IsHeap timeout s
    → i < bound
    → i < s.n
    → key timeout (at s 0) ≤ key timeout (at s i)
root_first_below timeout s zero i v b h = absurd (omega arith)
root_first_below timeout s (suc bound) i v b h =
    ground (arith, v.order i, root_first_below timeout s bound (parent i) v)

-- In a valid heap min_heap_top_ gives no event exactly if no event is in the heap, and otherwise
-- an event of the heap such that no event of the heap times out before it.
pub top-first :
    (timeout : ℕ → Timeval) (s : Heap)
    → IsHeap timeout s
    → ((min_heap_top s ≡ none) → (x : ℕ) → has s x ≡ false)
      × ((e : ℕ)
          → min_heap_top s ≡ some e
          → (has s e ≡ true) × ((x : ℕ) → has s x ≡ true → key timeout e ≤ key timeout x))
unfolding min_heap_top
top-first timeout s v = (λ e x. no_member e x, λ e h. (ground (arith, v.indexed 0), first e h))
  where
    no_member : (if s.n == 0 then none else some (at s 0)) ≡ none → (x : ℕ) → has s x ≡ false
    no_member e x = elim (Option-cases (s.index x)) [
      | inl out ↦ rw out refl
      | inr (i, here) ↦ absurd (ground (arith, v.inverse x i here))
    ]

    first :
        (e : ℕ)
        → (if s.n == 0 then none else some (at s 0)) ≡ some e
        → (x : ℕ) → has s x ≡ true
        → key timeout e ≤ key timeout x
    first e h x q = elim (Option-cases (s.index x)) [
      | inl out ↦ absurd (ground (arith, out))
      | inr (i, here) ↦ ground (arith, v.inverse x i here, root_first_below timeout s (suc i) i v)
    ]

grow-IsHeap :
    (timeout : ℕ → Timeval) (s : Heap) (a : ℕ)
    → IsHeap timeout s
    → s.a ≤ a
    → IsHeap timeout (record s { p = s.p ++ replicate (a - s.a) 0; a = a })
grow-IsHeap timeout s a v h =
    let cell = λ (i : ℕ). get_or-append s.p (replicate (a - s.a) 0) i 0 in
    let room = v.capacity in
    record {
      size = omega (arith, v.size);
      capacity = omega (
        arith,
        length-append s.p (replicate (a - s.a) 0),
        length-replicate (a - s.a) (◌+◌ 0 0),
        room,
      );
      small = v.small;
      order = λ c p q. ground (arith, cell c, cell (parent c), v.order c, v.size, room);
      indexed = λ i p. ground (arith, cell i, v.indexed i, v.size, room);
      inverse = λ x i p. ground (arith, cell i, v.inverse x i, v.size, room);
    }

-- Reserving keeps the heap, and on success there is room.
abbrev pub Reserved : (ℕ → Timeval) → Heap → ℕ → Bool × Heap → Type 0
Reserved timeout s n r =
    IsHeap timeout r.1 × (r.1.n ≡ s.n) × (r.1.index ≡ s.index) × (r.0 ≡ true → n ≤ r.1.a)

pub reserve-Reserved :
    (timeout : ℕ → Timeval) (s : Heap) (n : ℕ) (memory : Bool)
    → IsHeap timeout s
    → Reserved timeout s n (min_heap_reserve s n memory)
unfolding min_heap_reserve
reserve-Reserved timeout s n memory v = elim (Bool-cases (ltb s.a n)) [
  | inr room ↦ rw room (v, refl, refl, λ e. ground arith)
  | inl full ↦ rw full (choose memory full)
]
  where
    doubled : ℕ
    doubled = if s.a == 0 then 8 else s.a * 2 % 2 ^ 32

    size : ℕ
    size = if ltb doubled n then n else doubled

    choose :
        (memory : Bool)
        → ltb s.a n ≡ true
        → Reserved timeout s n (
            if memory
            then (true, record s { p = s.p ++ replicate (size - s.a) 0; a = size })
            else (false, s))
    choose true full = (grow-IsHeap timeout s size v (ground arith), refl, refl, λ e. ground arith)
    choose false full = (v, refl, refl, λ e. cc)

-- A new element at the end of a valid heap.
end-HasHole :
    (timeout : ℕ → Timeval) (s : Heap) (e : ℕ)
    → IsHeap timeout s
    → s.n < s.a
    → s.n + 1 < 2 ^ 31
    → has s e ≡ false
    → HasHole none_gone (record s { n = s.n + 1 }) s.n e
      × IsOrderedAround timeout (record s { n = s.n + 1 }) s.n
end-HasHole timeout s e v room small out = (
  record {
    size = omega arith;
    capacity = v.capacity;
    small = small;
    inside = omega arith;
    indexed = λ i p q. v.indexed i (omega arith);
    inverse = λ x i g p q. ground (arith, v.inverse x i);
    absent = λ i p q. refl;
    kept = refl;
    fresh = λ i p q. ground (arith, v.indexed i);
  },
  record {
    edges = λ c p q r t. v.order c p (omega arith);
    bridge = λ c q r t. absurd (omega arith);
  },
)

-- Pushing an event that is not in a valid heap of fewer than 2^31 - 1 events: if the memory is
-- given, the push succeeds and leaves a valid heap with that event added; a push that fails leaves
-- the heap as it was.
pub push-IsPlaced :
    (timeout : ℕ → Timeval) (s : Heap) (e : ℕ) (memory : Bool)
    → IsWords timeout
    → IsHeap timeout s
    → s.n + 1 < 2 ^ 31
    → has s e ≡ false
    → let (done, t) = min_heap_push timeout s e memory in
      (memory ≡ true → done ≡ true)
      × (done ≡ false → t ≡ s)
      × (done ≡ true
          → IsHeap timeout t
            × (t.n ≡ s.n + 1)
            × ((x : ℕ) → has t x ≡ (if e == x then true else has s x)))
unfolding min_heap_push
push-IsPlaced timeout s e memory w v small out =
    let n : (s.n == 2 ^ 32 - 1) ≡ false = ground arith in
    rw n (split (Bool-cases (min_heap_reserve s (s.n + 1) memory).0))
  where
    t : Heap
    t = (min_heap_reserve s (s.n + 1) memory).1

    r : Reserved timeout s (s.n + 1) (min_heap_reserve s (s.n + 1) memory)
    r = reserve-Reserved timeout s (s.n + 1) memory v

    same : (x : ℕ) → has t x ≡ has s x
    same x = ap (λ (f : ℕ → Option ℕ). is_some (f x)) r.2

    pushed : Heap
    pushed = min_heap_shift_up timeout (record t { n = t.n + 1 }) t.n e

    placed : s.n + 1 ≤ t.a → IsPlaced timeout none_gone (record t { n = t.n + 1 }) e pushed
    placed room =
        let (hole, around) =
          end-HasHole timeout t e r.0 (omega (arith, r.1, room)) (omega (arith, r.1))
            (same e ∙ out) in
        shift_up-IsPlaced timeout (record t { n = t.n + 1 }) t.n e w hole around
          (λ c p q u. absurd (omega arith))

    unreserved : memory ≡ true → (min_heap_reserve s (s.n + 1) memory).0 ≡ false → ⊥
    unreserved m = unfold min_heap_reserve in ground arith

    split :
        ((min_heap_reserve s (s.n + 1) memory).0 ≡ true)
          ⊎ ((min_heap_reserve s (s.n + 1) memory).0 ≡ false)
        → let out : Bool × Heap =
            if (min_heap_reserve s (s.n + 1) memory).0 then (true, pushed) else (false, s) in
          (memory ≡ true → out.0 ≡ true)
          × (out.0 ≡ false → out.1 ≡ s)
          × (out.0 ≡ true
              → IsHeap timeout out.1
                × (out.1.n ≡ s.n + 1)
                × ((x : ℕ) → has out.1 x ≡ (if e == x then true else has s x)))
    split (inl done) = rw done (
      (λ _. refl),
      (λ f. cc),
      λ _.
          let p = placed (r.3 done) in
          (
            IsHeapBut-IsHeap timeout p.heap,
            p.same_size ∙ ap (λ m. m + 1) r.1,
            λ x. p.members x ∙ rw (same x) refl,
          ),
    )
    split (inr failed) = rw failed ((λ m. absurd (unreserved m failed)), (λ _. refl), λ f. cc)
