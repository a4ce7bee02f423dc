-- ===== src/Buffer/AddSuccess.antt =====
-- When evbuffer_add and evbuffer_prepend of buffer.c do not fail.
use libevent_linux.Prelude.{
  ℕ, ◌+◌, ◌-◌, ◌^◌, ◌≤◌, ◌<◌, ◌≡◌, refl, sym, ap, drop, Bool, true, false, not, ◌&&◌, ◌||◌, ◌++◌,
  length, get_elem?, take, length-take, ltb, leb, ◌==◌, if◌then◌else◌, if_elim, if_true,
  Option-cases, inl, inr, arith,
}
use libevent_linux.Buffer.Chain.{
  Bytes, Chain, chain_max, chain_size, chain_space_len, evbuffer_chain_should_realign,
}
use libevent_linux.Buffer.ChainLaws.{chain_new-some, some-IsFresh}
use libevent_linux.Buffer.State.{Evbuffer, evbuffer_chain_insert}
use libevent_linux.Buffer.Invariant.{Represents, get_elem?-IsChain}
use libevent_linux.Buffer.Add.{
  writable, next_size, add_chain, add_to, evbuffer_add, at_end, prepend_chain, prepend_to,
  evbuffer_prepend,
}
use libevent_linux.Buffer.AddLaws.{add-Represents}
use libevent_linux.Buffer.PrependLaws.{prepend-Represents}

add_to-Done :
    (buf : Evbuffer) (i : ℕ) (chain : Chain) (d : Bytes)
    → chain.buffer_len ≤ chain_max - chain_size
    → length d ≤ chain_max - chain_size
    → (add_to buf i chain d true).0 ≡ true
unfolding add_to add_chain
add_to-Done buf i chain d bounded small =
    let P = λ (r : Bool × Evbuffer). r.0 ≡ true in
    let (tmp, e) =
      chain_new-some (next_size chain.buffer_len (length d)) (ground (arith, bounded, small)) in
    if_elim P (not chain.immutable && leb (length d) (chain_space_len chain)) (λ _. refl)
      (λ _.
        if_elim P (not chain.immutable && evbuffer_chain_should_realign chain (length d))
          (λ _. refl) (λ _. rw (add_chain, e) refl))

add-Done :
    (buf : Evbuffer) (bs : Bytes) (d : Bytes)
    → Represents buf bs
    → buf.freeze_end ≡ false
    → length bs + length d < 2 ^ 64
    → length d ≤ chain_max - chain_size
    → (evbuffer_add buf d true true).0 ≡ true
unfolding evbuffer_add
add-Done buf bs d s free fits small =
    let P = λ (r : Bool × Evbuffer). r.0 ≡ true in
    if_elim P (buf.freeze_end || ltb (2 ^ 64 - 1 - buf.total_len) (length d))
      (λ out. absurd (ground (arith, s.counted)))
      (λ _. elim (Option-cases (get_elem? buf.chains (writable buf))) [
        | inl e ↦
            let (chain, new) = chain_new-some (length d) small in
            let valid = (some-IsFresh (length d) true chain new).valid in
            rw (e, new)
              (add_to-Done (evbuffer_chain_insert buf chain) 0 chain d valid.bounded small)
        | inr (chain, e) ↦
            let v = get_elem?-IsChain buf.chains (writable buf) chain s.valid e in
            rw e (add_to-Done buf (writable buf) chain d v.bounded small)
      ])

-- With memory, evbuffer_add puts the data behind the bytes of a buffer that is not frozen at its
-- end, when the data is no larger than a chain may be and the length does not overflow.
pub add-appends :
    (buf : Evbuffer) (bs : Bytes) (d : Bytes)
    → Represents buf bs
    → buf.freeze_end ≡ false
    → length bs + length d < 2 ^ 64
    → length d ≤ chain_max - chain_size
    → (let r = evbuffer_add buf d true true in (r.0 ≡ true) × Represents r.1 (bs ++ d))
add-appends buf bs d s free fits small =
    let done = add-Done buf bs d s free fits small in
    let e : (if (evbuffer_add buf d true true).0 then bs ++ d else bs) ≡ bs ++ d =
      if_true _ _ _ done in
    (done, rw (sym e) (add-Represents buf bs d true true s))

prepend_to-Done :
    (buf : Evbuffer) (chain : Chain) (d : Bytes)
    → length d ≤ chain_max - chain_size
    → (prepend_to buf chain d true).0 ≡ true
unfolding prepend_to prepend_chain
prepend_to-Done buf chain d small =
    let P = λ (r : Bool × Evbuffer). r.0 ≡ true in
    let free = (at_end chain).misalign in
    let kept = length d - free in
    let (all, e) = chain_new-some (length d) small in
    let (part, e') =
      chain_new-some (length (take kept d)) (omega (arith, length-take kept d, small)) in
    if_elim P chain.immutable (λ _. rw (prepend_chain, e) refl)
      (λ _. if_elim P (leb (length d) free) (λ _. refl) (λ _. rw (prepend_chain, e') refl))

prepend-Done :
    (buf : Evbuffer) (bs : Bytes) (d : Bytes)
    → Represents buf bs
    → buf.freeze_start ≡ false
    → length bs + length d < 2 ^ 64
    → length d ≤ chain_max - chain_size
    → (evbuffer_prepend buf d true true).0 ≡ true
unfolding evbuffer_prepend
prepend-Done buf bs d s free fits small =
    let P = λ (r : Bool × Evbuffer). r.0 ≡ true in
    let (chain, new) = chain_new-some (length d) small in
    if_elim P (length d == 0) (λ _. refl)
      (λ _.
        if_elim P (buf.freeze_start || ltb (2 ^ 64 - 1 - buf.total_len) (length d))
          (λ out. absurd (ground (arith, s.counted)))
          (λ _. elim (Option-cases (get_elem? buf.chains 0)) [
            | inl e ↦ rw (e, new) (prepend_to-Done (evbuffer_chain_insert buf chain) chain d small)
            | inr (first, e) ↦ rw e (prepend_to-Done buf first d small)
          ]))

-- With memory, evbuffer_prepend puts the data before the bytes of a buffer that is not frozen at
-- its start, when the data is no larger than a chain may be and the length does not overflow.
pub prepend-prepends :
    (buf : Evbuffer) (bs : Bytes) (d : Bytes)
    → Represents buf bs
    → buf.freeze_start ≡ false
    → length bs + length d < 2 ^ 64
    → length d ≤ chain_max - chain_size
    → (let r = evbuffer_prepend buf d true true in (r.0 ≡ true) × Represents r.1 (d ++ bs))
prepend-prepends buf bs d s free fits small =
    let done = prepend-Done buf bs d s free fits small in
    let (k, (left, whole)) = prepend-Represents buf bs d true true s in
    let e : drop k d ++ bs ≡ d ++ bs = ap (λ i. drop i d ++ bs) (whole done) in
    (done, rw (sym e) left)
