-- ===== src/Buffer/SplitLaws.antt =====
-- evbuffer_remove_buffer of buffer.c, as an operation on the bytes that the two buffers
-- represent.
use mathlib.Core.List.{append_assoc, append-nil}
use mathlib.Core.Path.{subst}
use libevent_linux.Prelude.{
  ℕ, zero, suc, ◌+◌, ◌-◌, ◌%◌, ◌^◌, ◌≤◌, ◌<◌, min, ◌≡◌, refl, sym, ap, ◌∙◌, Bool, true, false, ◌||◌,
  none, some, List, [], ◌∷◌, ◌++◌, length, drop, take, length-append, length-take, length-drop,
  take-append-drop, leb, ◌==◌, if_elim, arith,
}
use libevent_linux.Prelude.Slices.{take_all, drop_all}
use libevent_linux.Buffer.Chain.{Bytes, Chain}
use libevent_linux.Buffer.State.{
  Evbuffer, contents_of, free_trailing_from, bytes_of_first, evbuffer_free_trailing_empty_chains,
}
use libevent_linux.Buffer.Invariant.{
  IsChains, EmptyAfter, off_at, Stores, Represents, invoke_elim, contents-append, IsChains-append,
  off_at-below, free_trailing-contents, free_trailing-IsChains, free_trailing-off_at,
}
use libevent_linux.Buffer.Add.{evbuffer_add}
use libevent_linux.Buffer.Remove.{to_int, shrunk}
use libevent_linux.Buffer.RemoveLaws.{Drained, drain_chains-Drained}
use libevent_linux.Buffer.AddSuccess.{add-appends}
use libevent_linux.Buffer.MoveLaws.{add_buffer-Represents}
use libevent_linux.Buffer.Split.{
  split_chains, total_off, furthest, advance_last_with_data, link_chains, cut_first,
  evbuffer_remove_buffer,
}
use libevent_linux.Buffer.SplitChains.{
  split_chains-Parts, total_off-length, EmptyAfter-take, off_at-take, furthest-IsLast,
}

-- advance_last_with_data changes only last_with_datap, which then is at the last chain with data.
advance_elim :
    (P : List Chain → ℕ → ℕ → Type 0) (buf : Evbuffer)
    → buf.last_with_datap < length buf.chains
    → (0 < buf.last_with_datap → 0 < off_at buf.chains buf.last_with_datap)
    → ((i : ℕ)
        → EmptyAfter i buf.chains
        → (0 < i → 0 < off_at buf.chains i)
        → P buf.chains i buf.total_len)
    → (let b = advance_last_with_data buf in P b.chains b.last_with_datap b.total_len)
unfolding advance_last_with_data
advance_elim P buf below full go =
    let last = buf.last_with_datap in
    let cs = buf.chains in
    let whole : take (last + 1) cs ++ drop (last + 1) cs ≡ cs = take-append-drop (last + 1) cs in
    let one : last + 1 ≡ suc last = omega arith in
    let long = length-take (last + 1) cs in
    let behind : EmptyAfter last (take (last + 1) cs) = rw one (EmptyAfter-take last cs) in
    let here : off_at (take (last + 1) cs) last ≡ off_at cs last = rw one (off_at-take last cs) in
    let i = furthest (last + 1) last (drop (last + 1) cs) in
    let found =
      furthest-IsLast (drop (last + 1) cs) (take (last + 1) cs) last (last + 1)
        (omega (arith, long, below)) (omega (arith, long, below)) behind
        (λ h. omega (arith, here, full h)) in
    let found' = subst (λ xs. EmptyAfter i xs × (0 < i → 0 < off_at xs i)) whole found in
    if_elim (λ (b : Evbuffer). P b.chains b.last_with_datap b.total_len) (leb (length cs) last)
      (λ out. absurd (ground (arith, below))) (λ _. go i found'.0 found'.1)

full-below :
    (last : ℕ) (cs : List Chain)
    → (0 < last → 0 < off_at cs last)
    → 0 < length cs
    → last < length cs
full-below zero cs full h = h
full-below (suc last) cs full h = off_at-below cs (suc last) (full (omega arith))

-- Chains with bytes are put behind the bytes of a buffer.
link_chains-Represents :
    (dst : Evbuffer) (ys : Bytes) (taken : List Chain)
    → Represents dst ys
    → IsChains taken
    → length ys + total_off taken < 2 ^ 64
    → Represents (link_chains dst taken) (ys ++ contents_of taken)
unfolding evbuffer_free_trailing_empty_chains
link_chains-Represents dst ys [] t v fits = rw (append-nil ys) t
link_chains-Represents dst ys (c ∷ cs) t v fits =
    let taken = c ∷ cs in
    let last = dst.last_with_datap in
    let kept = free_trailing_from last dst.chains in
    let joined : Evbuffer = record dst { chains = kept ++ taken } in
    let full = λ (h : 0 < last). free_trailing-off_at dst.chains last taken (t.full h) in
    let below : last < length (kept ++ taken) =
      full-below last (kept ++ taken) full (omega (arith, length-append kept taken)) in
    let total = length-append ys (contents_of taken) in
    let size = total_off-length taken v in
    advance_elim (λ chains i n. Stores (ys ++ contents_of taken) chains i (n + total_off taken))
      joined below full
      (λ i behind full. record {
        valid = IsChains-append kept taken (free_trailing-IsChains dst.chains last t.valid) v;
        behind = behind;
        full = full;
        held =
            contents-append kept taken
            ∙ ap (λ z. z ++ contents_of taken)
                (free_trailing-contents dst.chains last t.behind ∙ t.held);
        counted = omega (arith, total, size, t.counted);
        small = omega (arith, total, size, fits);
      })

link_chains-freeze_end :
    (dst : Evbuffer) (taken : List Chain) → (link_chains dst taken).freeze_end ≡ dst.freeze_end
unfolding advance_last_with_data
link_chains-freeze_end dst [] = refl
link_chains-freeze_end dst (c ∷ cs) =
    if_elim (λ (b : Evbuffer). b.freeze_end ≡ dst.freeze_end) _ (λ _. refl) (λ _. refl)

-- What is left of the two buffers, and the number that is returned.
Removes : Bytes → Bytes → ℕ → ℕ × (Evbuffer × Evbuffer) → Type 0
Removes left bs n r = (r.0 ≡ to_int (some n)) × (Represents r.1.0 left × Represents r.1.1 bs)

module _ (src dst : Evbuffer) (xs ys : Bytes) (s : Represents src xs) (t : Represents dst ys)
    (fits : length ys + length xs < 2 ^ 64) where
  -- The two buffers when only a part is moved.
  abbrev left_buffer : ℕ → Evbuffer
  left_buffer n =
      let (taken, (left, last)) = split_chains n src.chains src.last_with_datap in
      record src {
        chains = cut_first (n - total_off taken) left;
        last_with_datap = last;
        total_len = src.total_len - n;
      }

  left-Represents :
      (n : ℕ) → n < length (contents_of src.chains) → Represents (left_buffer n) (drop n xs)
  left-Represents n part =
      let p = split_chains-Parts src.chains n src.last_with_datap s.valid part in
      let d =
        subst (Drained (drop n (contents_of src.chains))) (sym p.left)
          (drain_chains-Drained src.chains n src.last_with_datap s.valid s.behind s.full part) in
      record {
        valid = d.valid;
        behind = d.behind;
        full = d.full;
        held = d.held ∙ ap (drop n) s.held;
        counted = omega (arith, length-drop n xs, s.counted);
        small = omega (arith, length-drop n xs, s.small);
      }

  abbrev adding : ℕ → Bool × Evbuffer
  adding n =
      let (taken, (left, last)) = split_chains n src.chains src.last_with_datap in
      evbuffer_add (link_chains dst taken) (take (n - total_off taken) (bytes_of_first left)) true
        true

  added-Represents :
      (n : ℕ)
      → dst.freeze_end ≡ false
      → n < length (contents_of src.chains)
      → Represents (adding n).1 (ys ++ take n xs)
  added-Represents n free part =
      let (taken, (left, last)) = split_chains n src.chains src.last_with_datap in
      let p = split_chains-Parts src.chains n src.last_with_datap s.valid part in
      let d = take (n - total_off taken) (bytes_of_first left) in
      let whole = ap length s.held in
      let long = total_off-length taken p.valid in
      let size = length-take (n - total_off taken) (bytes_of_first left) in
      let linked =
        link_chains-Represents dst ys taken t p.valid (omega (arith, p.size, part, whole, fits)) in
      let total = length-append ys (contents_of taken) in
      let e : (ys ++ contents_of taken) ++ d ≡ ys ++ take n xs =
        append_assoc ys (contents_of taken) d ∙ ap (◌++◌ ys) (p.held ∙ ap (take n) s.held) in
      let (done, joined) =
        add-appends (link_chains dst taken) (ys ++ contents_of taken) d linked
          (link_chains-freeze_end dst taken ∙ free)
          (omega (arith, total, long, size, p.size, part, whole, fits))
          (omega (arith, size, p.small)) in
      rw (sym e) joined

  moves :
      (n : ℕ)
      → dst.freeze_end ≡ false
      → src.freeze_start ≡ false
      → Removes
          (drop n xs)
          (ys ++ take n xs)
          (min n (length xs))
          (evbuffer_remove_buffer src dst n true true)
  unfolding evbuffer_remove_buffer Removes
  moves n free free' =
      let P = Removes (drop n xs) (ys ++ take n xs) (min n (length xs)) in
      if_elim P (n == 0)
        (λ e. let z : n ≡ 0 = ground arith in (omega (arith, z), (rw z s, rw (z, append-nil) t)))
        (λ _.
          if_elim P (dst.freeze_end || src.freeze_start) (λ frozen. absurd (ground arith))
            (λ _.
              if_elim P (leb src.total_len n)
                (λ all.
                  let all' : length xs ≤ n = ground (arith, s.counted) in
                  let r = add_buffer-Represents dst src ys xs t s fits free free' in
                  (
                    ap (λ k. to_int (some k)) (omega (arith, s.counted, all')),
                    (rw (drop_all n xs all') r.1.0, rw (take_all n xs all') r.1.1),
                  ))
                (λ part.
                  let part' : n < length (contents_of src.chains) =
                    let whole = ap length s.held in ground (arith, s.counted, whole) in
                  (
                    ap (λ k. to_int (some k)) (ground (arith, s.counted)),
                    (
                      invoke_elim (Stores (drop n xs)) (shrunk (left_buffer n) n)
                          (left-Represents n part'),
                      invoke_elim (Stores (ys ++ take n xs)) (adding n).1
                          (added-Represents n free part'),
                    ),
                  ))))

  -- With memory, and with the ends that change not frozen, evbuffer_remove_buffer moves the bytes
  -- asked for, or all if there are fewer, from the start of the first buffer to the end of the
  -- second, and returns their number as a 32-bit word: the number itself if it is less than
  -- 2 ^ 31, and -1 for 2 ^ 32 - 1 bytes, although they are moved.
  pub remove_buffer-Represents :
      (n : ℕ)
      → dst.freeze_end ≡ false
      → src.freeze_start ≡ false
      → (let r = evbuffer_remove_buffer src dst n true true in
          let moved = min n (length xs) in
          (Represents r.1.0 (drop n xs) × Represents r.1.1 (ys ++ take n xs))
          × (r.0 ≡ moved % 2 ^ 32)
          × (moved < 2 ^ 31 → r.0 ≡ moved)
          × (moved ≡ 2 ^ 32 - 1 → r.0 ≡ to_int none))
  unfolding Removes
  remove_buffer-Represents n free free' =
      let (cut, moved) = moves n free free' in
      (moved, cut, (λ small. cut ∙ omega (arith, small)), λ large. cut ∙ ap (λ k. k % 2 ^ 32) large)
