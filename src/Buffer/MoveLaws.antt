-- ===== src/Buffer/MoveLaws.antt =====
-- evbuffer_add_buffer and evbuffer_prepend_buffer of buffer.c, as operations on the bytes that
-- the two buffers represent.
use mathlib.Core.List.{append-nil}
use libevent_linux.Prelude.{
  ℕ, zero, suc, ◌+◌, ◌^◌, ◌≤◌, ◌<◌, ◌≡◌, refl, sym, ap, ap₂, ◌∙◌, Bool, true, false, ◌||◌, List, [],
  ◌∷◌, ◌++◌, length, length-append, leb, ◌==◌, if_elim, arith,
}
use libevent_linux.Prelude.Slices.{drop_all}
use libevent_linux.Buffer.Chain.{Bytes, Chain, bytes}
use libevent_linux.Buffer.ChainLaws.{length-bytes}
use libevent_linux.Buffer.State.{
  Evbuffer, free_trailing_from, evbuffer_free_trailing_empty_chains, zero_chain,
}
use libevent_linux.Buffer.Invariant.{
  off_at, Stores, Represents, invoke_elim, contents-append, IsChains-append, no_chains,
  AllEmpty-contents, free_trailing-contents, free_trailing-IsChains, EmptyAfter-append,
  off_at-append,
}
use libevent_linux.Buffer.Add.{counted}
use libevent_linux.Buffer.Remove.{shrunk}
use libevent_linux.Buffer.Move.{
  append_chain, prepend_chains, moved, evbuffer_add_buffer, evbuffer_prepend_buffer,
}

-- A buffer that is not empty has data in its last chain.
pub last-full :
    {bs : Bytes} (cs : List Chain) {last n : ℕ}
    → Stores bs cs last n
    → 0 < length bs
    → 0 < off_at cs last
last-full cs {last = suc last} s h = s.full (omega arith)
last-full [] {last = zero} s h = absurd (let e = ap length s.held in omega arith)
last-full {bs} (c ∷ cs) {last = zero} s h =
    let alone : bytes c ≡ bs =
      sym (ap (◌++◌ (bytes c)) (AllEmpty-contents cs s.behind) ∙ append-nil (bytes c)) ∙ s.held in
    let size : length (bytes c) ≡ length bs = ap length alone in
    omega (arith, length-bytes c s.valid.0, size)

zero-Represents : (buf : Evbuffer) → Represents (zero_chain buf) []
zero-Represents buf = record {
  valid = tt;
  behind = tt;
  full = λ h. absurd (omega arith);
  held = refl;
  counted = refl;
  small = omega arith;
}

module _ (dst src : Evbuffer) (ys xs : Bytes) (t : Represents dst ys) (s : Represents src xs)
    (some_data : 0 < length xs) (fits : length ys + length xs < 2 ^ 64) where
  append_chain-Represents : Represents (append_chain dst src) (ys ++ xs)
  unfolding append_chain evbuffer_free_trailing_empty_chains
  append_chain-Represents =
      let kept = free_trailing_from dst.last_with_datap dst.chains in
      let i = length kept + src.last_with_datap in
      let end = off_at-append kept src.chains src.last_with_datap i refl in
      let full = last-full src.chains s some_data in
      record {
        valid =
            IsChains-append kept src.chains
              (free_trailing-IsChains dst.chains dst.last_with_datap t.valid) s.valid;
        behind = EmptyAfter-append kept src.chains src.last_with_datap i refl s.behind;
        full = λ _. omega (arith, end, full);
        held =
            contents-append kept src.chains
            ∙ ap₂ ◌++◌ (free_trailing-contents dst.chains dst.last_with_datap t.behind ∙ t.held)
                s.held;
        counted = omega (arith, length-append ys xs, s.counted, t.counted);
        small = omega (arith, length-append ys xs, fits);
      }

  prepend_chains-Represents : 0 < length ys → Represents (prepend_chains dst src) (xs ++ ys)
  unfolding prepend_chains
  prepend_chains-Represents some_data' =
      let i = length src.chains + dst.last_with_datap in
      let end = off_at-append src.chains dst.chains dst.last_with_datap i refl in
      let full = last-full dst.chains t some_data' in
      if_elim (λ j. Stores (xs ++ ys) (src.chains ++ dst.chains) j (dst.total_len + src.total_len))
        (leb (length dst.chains) dst.last_with_datap)
        (λ out.
          let empty = (no_chains dst.chains t (ground arith)).1 in
          absurd (let e = ap length empty in omega arith))
        (λ _. record {
          valid = IsChains-append src.chains dst.chains s.valid t.valid;
          behind = EmptyAfter-append src.chains dst.chains dst.last_with_datap i refl t.behind;
          full = λ _. omega (arith, end, full);
          held = contents-append src.chains dst.chains ∙ ap₂ ◌++◌ s.held t.held;
          counted = omega (arith, length-append xs ys, s.counted, t.counted);
          small = omega (arith, length-append xs ys, fits);
        })

-- The result of a move that leaves some bytes in the second buffer.
Moves : Bytes → Bytes → Bool × (Evbuffer × Evbuffer) → Type 0
Moves left bs r = (r.0 ≡ true) × (Represents r.1.0 left × Represents r.1.1 bs)

moved-Moves :
    (inbuf outbuf : Evbuffer) (n : ℕ) (bs : Bytes)
    → Represents outbuf bs
    → Moves [] bs (true, moved inbuf outbuf n)
unfolding Moves
moved-Moves inbuf outbuf n bs s = (
  refl,
  (
    invoke_elim (Stores []) (shrunk (zero_chain inbuf) n) (zero-Represents inbuf),
    invoke_elim (Stores bs) (counted outbuf n) s,
  ),
)

module _ (outbuf inbuf : Evbuffer) (ys xs : Bytes) (t : Represents outbuf ys)
    (s : Represents inbuf xs) (fits : length ys + length xs < 2 ^ 64) where
  -- evbuffer_add_buffer refines the concatenation of two lists of bytes: with the ends that change
  -- not frozen it succeeds, the first buffer represents its bytes with those of the second behind
  -- them, and the second buffer is empty.
  pub add_buffer-Represents :
      outbuf.freeze_end ≡ false
      → inbuf.freeze_start ≡ false
      → (let r = evbuffer_add_buffer outbuf inbuf in
          (r.0 ≡ true) × (Represents r.1.0 [] × Represents r.1.1 (ys ++ xs)))
  unfolding evbuffer_add_buffer Moves
  add_buffer-Represents free free' =
      if_elim (Moves [] (ys ++ xs)) (inbuf.total_len == 0)
        (λ e.
          let none_there : length xs ≤ 0 = ground (arith, s.counted) in
          let nil : xs ≡ [] = drop_all 0 xs none_there in
          (refl, (rw (sym nil) s, rw (nil, append-nil) t)))
        (λ some_there.
          let some_data : 0 < length xs = ground (arith, s.counted) in
          if_elim (Moves [] (ys ++ xs)) (outbuf.freeze_end || inbuf.freeze_start)
            (λ frozen. absurd (ground arith))
            (λ _. moved-Moves inbuf _ inbuf.total_len (ys ++ xs) (
              if_elim (λ b. Represents b (ys ++ xs)) (outbuf.total_len == 0)
                (λ e. let nil : ys ≡ [] = drop_all 0 ys (ground (arith, t.counted)) in rw nil s)
                (λ _. append_chain-Represents outbuf inbuf ys xs t s some_data fits))))

  -- evbuffer_prepend_buffer refines the concatenation in the other order: with the starts not
  -- frozen it succeeds, the first buffer represents its bytes with those of the second before them,
  -- and the second buffer is empty.
  pub prepend_buffer-Represents :
      outbuf.freeze_start ≡ false
      → inbuf.freeze_start ≡ false
      → (let r = evbuffer_prepend_buffer outbuf inbuf in
          (r.0 ≡ true) × (Represents r.1.0 [] × Represents r.1.1 (xs ++ ys)))
  unfolding evbuffer_prepend_buffer Moves
  prepend_buffer-Represents free free' =
      if_elim (Moves [] (xs ++ ys)) (inbuf.total_len == 0)
        (λ e.
          let none_there : length xs ≤ 0 = ground (arith, s.counted) in
          let nil : xs ≡ [] = drop_all 0 xs none_there in (refl, (rw (sym nil) s, rw nil t)))
        (λ some_there.
          let some_data : 0 < length xs = ground (arith, s.counted) in
          if_elim (Moves [] (xs ++ ys)) (outbuf.freeze_start || inbuf.freeze_start)
            (λ frozen. absurd (ground arith))
            (λ _. moved-Moves inbuf _ inbuf.total_len (xs ++ ys) (
              if_elim (λ b. Represents b (xs ++ ys)) (outbuf.total_len == 0)
                (λ e.
                  let nil : ys ≡ [] = drop_all 0 ys (ground (arith, t.counted)) in
                  rw (nil, append-nil) s)
                (λ full.
                  prepend_chains-Represents outbuf inbuf ys xs t s some_data fits
                    (ground (arith, t.counted))))))
