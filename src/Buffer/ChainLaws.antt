-- ===== src/Buffer/ChainLaws.antt =====
-- What the operations on one chain do to the bytes that it holds.
use libevent_linux.Prelude.{
  ℕ, zero, suc, ◌+◌, ◌-◌, ◌*◌, ◌/◌, ◌≤◌, ◌≡◌, refl, sym, ap, ap₂, ◌∙◌, Bool, true, false, not, ◌||◌,
  some, ◌++◌, length, take, drop, length-append, length-take, length-drop, length-replicate,
  take-append, ltb, if_elim, if_false, some, Holds, Holds-some, arith,
}
use libevent_linux.Prelude.Slices.{
  take-append_ge, drop-append_le, drop-append_ge, drop-take, drop-drop,
}
use libevent_linux.Buffer.Chain.{
  Bytes, Chain, bytes, memcpy, chain_max, chain_size, double_until, allocation, evbuffer_chain_new,
  evbuffer_chain_align, put_end, put_start, take_start,
}

-- The data lies in the memory, which is no larger than a chain's may be.
pub record IsChain (chain : Chain) : Type 0 where
  pub within : chain.misalign + chain.off ≤ chain.buffer_len
  pub bounded : chain.buffer_len ≤ chain_max - chain_size
  pub sized : length chain.buffer ≡ chain.buffer_len

pub length-bytes : (c : Chain) → IsChain c → length (bytes c) ≡ c.off
length-bytes c v = omega (
  arith,
  length-take c.off (drop c.misalign c.buffer),
  length-drop c.misalign c.buffer,
  v.within,
  v.sized,
)

-- A copy inside the memory keeps its length.
pub length-memcpy :
    (buffer : Bytes) (i : ℕ) (from : Bytes)
    → i + length from ≤ length buffer
    → length (memcpy buffer i from) ≡ length buffer
length-memcpy buffer i from h = omega (
  arith,
  length-append (take i buffer) (from ++ drop (i + length from) buffer),
  length-append from (drop (i + length from) buffer),
  length-take i buffer,
  length-drop (i + length from) buffer,
)

pub put_end-bytes :
    (c : Chain) (d : Bytes)
    → IsChain c
    → c.misalign + c.off + length d ≤ c.buffer_len
    → bytes (put_end d c) ≡ bytes c ++ d
put_end-bytes c d v h =
    let m = c.misalign in
    let p = take (m + c.off) c.buffer in
    let r = drop (m + c.off + length d) c.buffer in
    let long : length p ≡ m + c.off =
      omega (arith, length-take (m + c.off) c.buffer, v.within, v.sized) in
    let long' : length (drop m p) ≡ c.off = omega (arith, length-drop m p, long) in
    let left : c.off + length d - length (drop m p) ≡ length d = omega (arith, long') in
    ap (take (c.off + length d)) (drop-append_le m p (d ++ r) (omega (arith, long)))
    ∙ take-append_ge (c.off + length d) (drop m p) (d ++ r) (omega (arith, long'))
    ∙ ap (λ n. drop m p ++ take n (d ++ r)) left
    ∙ ap (◌++◌ (drop m p)) (take-append d r)
    ∙ ap (λ z. z ++ d) (drop-take m c.off c.buffer)

pub put_end-IsChain :
    (c : Chain) (d : Bytes)
    → IsChain c
    → c.misalign + c.off + length d ≤ c.buffer_len
    → IsChain (put_end d c)
put_end-IsChain c d v h = record {
  within = omega (arith, h);
  bounded = v.bounded;
  sized = length-memcpy c.buffer (c.misalign + c.off) d (omega (arith, h, v.sized)) ∙ v.sized;
}

pub put_start-bytes :
    (c : Chain) (d : Bytes)
    → IsChain c
    → length d ≤ c.misalign
    → bytes (put_start d c) ≡ d ++ bytes c
put_start-bytes c d v h =
    let i = c.misalign - length d in
    let r = drop (i + length d) c.buffer in
    let long : length (take i c.buffer) ≡ i =
      omega (arith, length-take i c.buffer, v.within, v.sized, h) in
    let left : i - length (take i c.buffer) ≡ 0 = omega (arith, long) in
    let left' : c.off + length d - length d ≡ c.off = omega arith in
    let whole : i + length d ≡ c.misalign = omega (arith, h) in
    ap (take (c.off + length d)) (
      drop-append_ge i (take i c.buffer) (d ++ r) (omega (arith, long))
      ∙ ap (λ n. drop n (d ++ r)) left)
    ∙ take-append_ge (c.off + length d) d r (omega arith)
    ∙ ap₂ (λ n k. d ++ take n (drop k c.buffer)) left' whole

pub put_start-IsChain :
    (c : Chain) (d : Bytes) → IsChain c → length d ≤ c.misalign → IsChain (put_start d c)
put_start-IsChain c d v h = record {
  within = omega (arith, h, v.within);
  bounded = v.bounded;
  sized =
      length-memcpy c.buffer (c.misalign - length d) d (omega (arith, h, v.within, v.sized))
      ∙ v.sized;
}

pub align-bytes : (c : Chain) → IsChain c → bytes (evbuffer_chain_align c) ≡ bytes c
align-bytes c v =
    ap (λ n. take n (memcpy c.buffer 0 (bytes c))) (sym (length-bytes c v))
    ∙ take-append (bytes c) (drop (0 + length (bytes c)) c.buffer)

pub align-IsChain : (c : Chain) → IsChain c → IsChain (evbuffer_chain_align c)
align-IsChain c v = record {
  within = omega (arith, v.within);
  bounded = v.bounded;
  sized =
      length-memcpy c.buffer 0 (bytes c) (omega (arith, length-bytes c v, v.within, v.sized))
      ∙ v.sized;
}

pub take_start-bytes : (c : Chain) (n : ℕ) → n ≤ c.off → bytes (take_start n c) ≡ drop n (bytes c)
take_start-bytes c n h =
    let e : n + (c.off - n) ≡ c.off = omega (arith, h) in
    ap (take (c.off - n)) (sym (drop-drop n c.misalign c.buffer))
    ∙ sym (drop-take n (c.off - n) (drop c.misalign c.buffer))
    ∙ ap (λ k. drop n (take k (drop c.misalign c.buffer))) e

pub take_start-IsChain : (c : Chain) (n : ℕ) → IsChain c → n ≤ c.off → IsChain (take_start n c)
take_start-IsChain c n v h = record {
  within = omega (arith, h, v.within);
  bounded = v.bounded;
  sized = v.sized;
}

-- The loop ends with a size that is large enough: `to_alloc` grows each time.
double_until-large :
    (fuel to_alloc size : ℕ)
    → 1 ≤ to_alloc
    → size ≤ to_alloc + fuel
    → size ≤ double_until fuel to_alloc size
unfolding double_until
double_until-large zero to_alloc size one h = omega (arith, h)
double_until-large (suc fuel) to_alloc size one h =
    if_elim (λ r. size ≤ r) (ltb to_alloc size)
      (λ _. double_until-large fuel (to_alloc * 2) size (omega arith) (omega arith))
      (λ out. ground arith)

-- A new chain is empty and has room for what was asked for.
pub record IsFresh (size : ℕ) (c : Chain) : Type 0 where
  pub valid : IsChain c
  pub room : size ≤ c.buffer_len
  pub empty : c.off ≡ 0
  pub start : c.misalign ≡ 0
  pub writable : c.immutable ≡ false

allocation-large : (size : ℕ) → size ≤ allocation size
unfolding allocation
allocation-large size =
    if_elim (λ r. size ≤ r) (ltb size (chain_max / 2))
      (λ _. double_until-large size 1024 size (omega arith) (omega arith)) (λ _. omega arith)

double_until-small :
    (fuel to_alloc size most : ℕ)
    → to_alloc ≤ most
    → size * 2 ≤ most
    → double_until fuel to_alloc size ≤ most
unfolding double_until
double_until-small zero to_alloc size most h h' = h
double_until-small (suc fuel) to_alloc size most h h' =
    if_elim (λ r. r ≤ most) (ltb to_alloc size)
      (λ more. double_until-small fuel (to_alloc * 2) size most (ground arith) h') (λ _. h)

allocation-small : (size : ℕ) → size ≤ chain_max → allocation size ≤ chain_max
unfolding allocation
allocation-small size h =
    if_elim (λ r. r ≤ chain_max) (ltb size (chain_max / 2))
      (λ less. double_until-small size 1024 size chain_max (omega arith) (ground arith)) (λ _. h)

-- What is asked for is given, as far as there is memory.
pub chain_new-some :
    (size : ℕ)
    → size ≤ chain_max - chain_size
    → (c : Chain) × (evbuffer_chain_new size true ≡ some c)
unfolding evbuffer_chain_new
chain_new-some size h =
    let fits : (ltb (chain_max - chain_size) size || not true) ≡ false = ground arith in
    (_, if_false _ _ _ fits)

pub chain_new-IsFresh :
    (size : ℕ) (memory : Bool) → Holds (IsFresh size) (evbuffer_chain_new size memory)
unfolding evbuffer_chain_new
chain_new-IsFresh size memory =
    let large = allocation-large (size + chain_size) in
    let buffer_len = allocation (size + chain_size) - chain_size in
    let small : (ltb (chain_max - chain_size) size || not memory) ≡ false
        → allocation (size + chain_size) ≤ chain_max =
      λ out. allocation-small (size + chain_size) (ground arith) in
    if_elim (Holds (IsFresh size)) (ltb (chain_max - chain_size) size || not memory) (λ _. tt)
      (λ out. record {
        valid = record {
          within = omega arith;
          bounded = omega (arith, small out);
          sized = length-replicate buffer_len 0;
        };
        room = omega (arith, large);
        empty = refl;
        start = refl;
        writable = refl;
      })

pub some-IsFresh :
    (size : ℕ) (memory : Bool) (c : Chain)
    → evbuffer_chain_new size memory ≡ some c
    → IsFresh size c
some-IsFresh size memory c e = Holds-some (IsFresh size) _ c e (chain_new-IsFresh size memory)
