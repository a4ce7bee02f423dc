-- ===== src/Buffer/AddLaws.antt =====
-- evbuffer_add of buffer.c, as an operation on the bytes that a buffer represents.
use mathlib.Core.List.{append_assoc, append-nil}
use libevent_linux.Prelude.{
  ℕ, ◌+◌, ◌-◌, ◌^◌, ◌≤◌, ◌<◌, ◌≡◌, refl, sym, ap, ap₂, ◌∙◌, Bool, not, ◌&&◌, ◌||◌, some, [], ◌∷◌,
  ◌++◌, length, get_elem?, take, drop, length-append, take-append-drop, length-take, length-drop,
  ltb, leb, ◌==◌, if◌then◌else◌, if_elim, if_true, lt→ltb, Option_elim, Option-cases, inl, inr,
  arith,
}
use libevent_linux.Buffer.Chain.{
  Bytes, Chain, bytes, chain_space_len, evbuffer_chain_new, evbuffer_chain_align,
  evbuffer_chain_should_realign, put_end,
}
use libevent_linux.Buffer.ChainLaws.{
  IsChain, IsFresh, length-bytes, put_end-bytes, put_end-IsChain, align-bytes, align-IsChain,
  chain_new-IsFresh,
}
use libevent_linux.Buffer.State.{
  Evbuffer, free_trailing_from, evbuffer_chain_insert, evbuffer_free_trailing_empty_chains,
}
use libevent_linux.Buffer.Invariant.{
  EmptyAfter, off_at, Stores, Represents, invoke_elim, contents-append, IsChains-append, last-below,
  get_elem?-IsChain, AllEmpty-bytes, no_chains, free_trailing-EmptyAfter, free_trailing-off_at,
  get_elem?-below, get_elem?-none, get_elem?-off_at, modify-contents, modify-IsChains,
  modify-off_at, modify-EmptyAfter, free_trailing-contents, free_trailing-IsChains,
  EmptyAfter-append, off_at-append,
}
use libevent_linux.Buffer.Add.{
  counted, grown, writable, next_size, update, add_chain, add_to, evbuffer_add,
}

-- The bytes after a call that appends some, if it does not fail.
abbrev pub appended : Bytes → Bytes → Bool → Bytes
appended bs d done = if done then bs ++ d else bs

abbrev pub Appends : Bytes → Bytes → Bool × Evbuffer → Type 0
Appends bs d r = Represents r.1 (appended bs d r.0)

-- Bytes put at the end of the last chain with data.
module _ (buf : Evbuffer) (bs : Bytes) (s : Represents buf bs) (chain : Chain)
    (here : get_elem? buf.chains buf.last_with_datap ≡ some chain) (d : Bytes)
    (fits : length bs + length d < 2 ^ 64) where
  update-Represents :
      (f : Chain → Chain)
      → IsChain (f chain)
      → bytes (f chain) ≡ bytes chain ++ d
      → chain.off ≤ (f chain).off
      → Represents (grown (update buf buf.last_with_datap f) (length d)) (bs ++ d)
  update-Represents f v more larger =
      let i = buf.last_with_datap in
      let at_i = modify-off_at f d chain buf.chains i here in
      let before = get_elem?-off_at buf.chains i chain here in
      record {
        valid = modify-IsChains f d chain buf.chains i here s.valid v;
        behind = modify-EmptyAfter f buf.chains i s.behind;
        full = λ h. omega (arith, at_i, before, larger, s.full h);
        held = modify-contents f d chain buf.chains i here s.behind more ∙ ap (λ z. z ++ d) s.held;
        counted = omega (arith, length-append bs d, s.counted);
        small = omega (arith, length-append bs d, fits);
      }

-- A new chain behind the last one with data.
pub chain_insert-Represents :
    (buf : Evbuffer) (bs : Bytes) (c : Chain)
    → Represents buf bs
    → IsChain c
    → length bs + c.off < 2 ^ 64
    → Represents (evbuffer_chain_insert buf c) (bs ++ bytes c)
unfolding evbuffer_chain_insert evbuffer_free_trailing_empty_chains
chain_insert-Represents buf bs c s v fits =
    let last = buf.last_with_datap in
    let kept = free_trailing_from last buf.chains in
    let total = length-append bs (bytes c) in
    let size = length-bytes c v in
    let end : off_at (kept ++ c ∷ []) (length kept) ≡ c.off =
      off_at-append kept (c ∷ []) 0 (length kept) (omega arith) in
    let stores : (i : ℕ)
        → EmptyAfter i (kept ++ c ∷ [])
        → (0 < i → 0 < off_at (kept ++ c ∷ []) i)
        → Stores (bs ++ bytes c) (kept ++ c ∷ []) i (buf.total_len + c.off) =
      λ i behind full. record {
        valid =
            IsChains-append kept (c ∷ []) (free_trailing-IsChains buf.chains last s.valid) (v, tt);
        behind = behind;
        full = full;
        held =
            contents-append kept (c ∷ [])
            ∙ ap₂ ◌++◌ (free_trailing-contents buf.chains last s.behind ∙ s.held)
                (append-nil (bytes c));
        counted = omega (arith, total, size, s.counted);
        small = omega (arith, total, size, fits);
      } in
    if_elim (λ b. Represents b (bs ++ bytes c)) (leb (length buf.chains) last)
      (λ out.
        let alone = no_chains buf.chains s (ground arith) in
        record {
          valid = (v, tt);
          behind = rw alone.0 tt;
          full = λ h. absurd (let e = alone.0 in omega arith);
          held = append-nil (bytes c) ∙ ap (λ z. z ++ bytes c) (sym alone.1);
          counted = omega (arith, total, size, s.counted);
          small = omega (arith, total, size, fits);
        })
      (λ _.
        if_elim (λ i. Stores (bs ++ bytes c) (kept ++ c ∷ []) i (buf.total_len + c.off))
          (c.off == 0)
          (λ z.
            stores last (free_trailing-EmptyAfter buf.chains last c (ground arith) s.behind)
              (λ h. free_trailing-off_at buf.chains last (c ∷ []) (s.full h)))
          (λ full.
            stores (length kept) (EmptyAfter-append kept (c ∷ []) 0 (length kept) (omega arith) tt)
              (λ _. let full' : 0 < c.off = ground arith in omega (arith, end, full'))))

-- The space behind the data, as a bound.
space-fits :
    (c : Chain) (n : ℕ) → IsChain c → n ≤ chain_space_len c → c.misalign + c.off + n ≤ c.buffer_len
space-fits c n v =
    if_elim (λ k. n ≤ k → c.misalign + c.off + n ≤ c.buffer_len) c.immutable
      (λ _ h. omega (arith, v.within)) (λ _ h. omega (arith, v.within))

-- In the same place: the cases of evbuffer_add when there is a chain to write to.
module _ (buf : Evbuffer) (bs : Bytes) (s : Represents buf bs) (chain : Chain)
    (here : get_elem? buf.chains buf.last_with_datap ≡ some chain) (d : Bytes)
    (fits : length bs + length d < 2 ^ 64) where
  add_chain-Appends :
      (memory : Bool) → Appends bs d (add_chain buf buf.last_with_datap chain d memory)
  unfolding add_chain
  add_chain-Appends memory =
      let v = get_elem?-IsChain buf.chains buf.last_with_datap chain s.valid here in
      let remain = chain_space_len chain in
      let d₁ = take remain d in
      let d₂ = drop remain d in
      let filled = grown (update buf buf.last_with_datap (put_end d₁)) (length d₁) in
      let long = length-take remain d in
      let long' = length-drop remain d in
      let room = space-fits chain (length d₁) v (omega (arith, long)) in
      let ok =
        update-Represents buf bs s chain here d₁ (omega (arith, long, fits)) (put_end d₁)
          (put_end-IsChain chain d₁ v room) (put_end-bytes chain d₁ v room) (omega arith) in
      Option_elim (IsFresh (next_size chain.buffer_len (length d))) (Appends bs d)
        (evbuffer_chain_new (next_size chain.buffer_len (length d)) memory)
        (chain_new-IsFresh _ memory) s
        (λ tmp new.
          let room : tmp.misalign + tmp.off + length d₂ ≤ tmp.buffer_len =
            omega (arith, new.start, new.empty, new.room, long') in
          let next = put_end d₂ tmp in
          let e : (bs ++ d₁) ++ bytes next ≡ bs ++ d =
            ap (◌++◌ (bs ++ d₁)) (
              put_end-bytes tmp d₂ new.valid room
              ∙ ap (λ z. z ++ d₂) (AllEmpty-bytes tmp new.empty))
            ∙ append_assoc bs d₁ d₂
            ∙ ap (◌++◌ bs) (take-append-drop remain d) in
          invoke_elim (Stores (bs ++ d)) (counted (evbuffer_chain_insert filled next) (length d₂)) (
            rw (sym e) (
              chain_insert-Represents filled (bs ++ d₁) next ok
                (put_end-IsChain tmp d₂ new.valid room)
                (omega (arith, length-append bs d₁, long, long', new.empty, fits)))))

  add_to-Appends : (memory : Bool) → Appends bs d (add_to buf buf.last_with_datap chain d memory)
  unfolding add_to
  add_to-Appends memory =
      let v = get_elem?-IsChain buf.chains buf.last_with_datap chain s.valid here in
      let n = length d in
      if_elim (Appends bs d) (not chain.immutable && leb n (chain_space_len chain))
        (λ room.
          let room' : chain.misalign + chain.off + n ≤ chain.buffer_len =
            space-fits chain n v (ground arith) in
          invoke_elim (Stores (bs ++ d)) _ (
            update-Represents buf bs s chain here d fits (put_end d)
              (put_end-IsChain chain d v room') (put_end-bytes chain d v room') (omega arith)))
        (λ no_room.
          if_elim (Appends bs d) (not chain.immutable && evbuffer_chain_should_realign chain n)
            (λ realign.
              let c = evbuffer_chain_align chain in
              let w = align-IsChain chain v in
              let room' : c.misalign + c.off + n ≤ c.buffer_len = ground (arith, v.within) in
              invoke_elim (Stores (bs ++ d)) _ (
                update-Represents buf bs s chain here d fits
                  (λ c. put_end d (evbuffer_chain_align c)) (put_end-IsChain c d w room')
                  (put_end-bytes c d w room' ∙ ap (λ z. z ++ d) (align-bytes chain v))
                  (omega arith)))
            (λ _. add_chain-Appends memory))

-- The first chain of a buffer.
pub insert-first :
    (buf : Evbuffer) (c : Chain)
    → length buf.chains ≤ buf.last_with_datap
    → buf.last_with_datap ≡ 0
    → (let b = evbuffer_chain_insert buf c in
        (get_elem? b.chains 0 ≡ some c) × (b.last_with_datap ≡ 0))
unfolding evbuffer_chain_insert
insert-first buf c out e =
    if_elim (λ (b : Evbuffer). (get_elem? b.chains 0 ≡ some c) × (b.last_with_datap ≡ 0))
      (leb (length buf.chains) buf.last_with_datap) (λ _. (refl, e)) (λ z. absurd (ground arith))

pub insert-empty :
    (buf : Evbuffer) (bs : Bytes) (c : Chain) {size : ℕ}
    → Represents buf bs
    → IsFresh size c
    → Represents (evbuffer_chain_insert buf c) bs
insert-empty buf bs c s new =
    let e : bs ++ bytes c ≡ bs = ap (◌++◌ bs) (AllEmpty-bytes c new.empty) ∙ append-nil bs in
    rw (sym e) (chain_insert-Represents buf bs c s new.valid (omega (arith, new.empty, s.small)))

add_to-at :
    (buf : Evbuffer) (bs : Bytes) (i : ℕ) (chain : Chain) (d : Bytes) (memory : Bool)
    → Represents buf bs
    → i ≡ buf.last_with_datap
    → get_elem? buf.chains i ≡ some chain
    → length bs + length d < 2 ^ 64
    → Appends bs d (add_to buf i chain d memory)
add_to-at buf bs i chain d memory s e here fits =
    rw e (add_to-Appends buf bs s chain (rw (sym e) here) d fits memory)

-- evbuffer_add refines the concatenation of lists of bytes. A buffer that represents some bytes
-- represents them with the data behind them afterwards, or the same bytes when the call fails.
pub add-Represents :
    (buf : Evbuffer) (bs : Bytes) (d : Bytes) (memory memory' : Bool)
    → Represents buf bs
    → (let r = evbuffer_add buf d memory memory' in Represents r.1 (if r.0 then bs ++ d else bs))
unfolding evbuffer_add
add-Represents buf bs d memory memory' s =
    if_elim (Appends bs d) (buf.freeze_end || ltb (2 ^ 64 - 1 - buf.total_len) (length d)) (λ _. s)
      (λ free.
        let fits : length bs + length d < 2 ^ 64 = ground (arith, s.counted) in
        elim (Option-cases (get_elem? buf.chains (writable buf))) [
          | inl e ↦
              let past = get_elem?-none buf.chains (writable buf) e in
              let out : length buf.chains ≤ buf.last_with_datap = ground arith in
              let at_0 = λ (c : Chain). insert-first buf c out (no_chains buf.chains s out).0 in
              rw e (
                Option_elim (IsFresh (length d)) (Appends bs d)
                  (evbuffer_chain_new (length d) memory) (chain_new-IsFresh _ memory) s
                  (λ chain new.
                    add_to-at (evbuffer_chain_insert buf chain) bs 0 chain d memory'
                      (insert-empty buf bs chain s new) (sym (at_0 chain).1) (at_0 chain).0 fits))
          | inr (chain, e) ↦
              let below = get_elem?-below buf.chains (writable buf) chain e in
              let same : writable buf ≡ buf.last_with_datap =
                if_true _ _ _ (lt→ltb _ _ (last-below s (omega arith))) in
              rw e (add_to-at buf bs (writable buf) chain d memory' s same e fits)
        ])
