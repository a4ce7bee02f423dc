-- ===== src/Buffer/RemoveLaws.antt =====
-- evbuffer_drain, evbuffer_copyout_from and evbuffer_remove of buffer.c, as operations
-- on the bytes that a buffer represents.
use libevent_linux.Prelude.{
  ℕ, zero, suc, ◌+◌, ◌-◌, ◌%◌, ◌^◌, ◌≤◌, ◌<◌, ◌≡◌, refl, sym, ap, ap₂, ◌∙◌, min, Bool, true, false,
  Option, none, some, List, [], ◌∷◌, ◌++◌, length, take, drop, length-append, length-drop, ltb, leb,
  ◌==◌, if_elim, if_false, arith, take-append-drop, drop-append, take-min-length,
}
use libevent_linux.Prelude.Slices.{
  take_all, drop_all, take-take, drop-append_le, drop-append_ge, take-append_le, take-append_ge,
}
use libevent_linux.Buffer.Chain.{Bytes, Chain, bytes, take_start}
use libevent_linux.Buffer.ChainLaws.{length-bytes, take_start-bytes, take_start-IsChain}
use libevent_linux.Buffer.State.{Evbuffer, contents_of}
use libevent_linux.Buffer.Invariant.{
  IsChains, EmptyAfter, off_at, Stores, Represents, invoke_elim, behind-update, full-update,
  contents-append,
}
use libevent_linux.Buffer.Remove.{
  drain_chains, evbuffer_drain, EvbufferPtr, copy_chains, copyout_at, evbuffer_copyout_from,
  remove_bytes, evbuffer_remove, to_int, length_or_none,
}

-- The first chain is taken off.
EmptyAfter-pred :
    (c : Chain) (cs : List Chain) (last : ℕ) → EmptyAfter last (c ∷ cs) → EmptyAfter (last - 1) cs
EmptyAfter-pred c cs (suc last) h = let e : suc last - 1 ≡ last = omega arith in rw e h
EmptyAfter-pred c [] zero h = tt
EmptyAfter-pred c (x ∷ cs) zero h = h.1

off_at-pred :
    (c : Chain) (cs : List Chain) (last : ℕ)
    → (0 < last → 0 < off_at (c ∷ cs) last)
    → 0 < last - 1
    → 0 < off_at cs (last - 1)
off_at-pred c cs zero full h = absurd (omega arith)
off_at-pred c cs (suc last) full h =
    let e : suc last - 1 ≡ last = omega arith in rw e (full (omega arith))

-- The chains that the loop of evbuffer_drain leaves.
pub record Drained (bs : Bytes) (r : List Chain × ℕ) : Type 0 where
  pub valid : IsChains r.0
  pub behind : EmptyAfter r.1 r.0
  pub full : 0 < r.1 → 0 < off_at r.0 r.1
  pub held : contents_of r.0 ≡ bs

pub drain_chains-Drained :
    (cs : List Chain) (n last : ℕ)
    → IsChains cs
    → EmptyAfter last cs
    → (0 < last → 0 < off_at cs last)
    → n < length (contents_of cs)
    → Drained (drop n (contents_of cs)) (drain_chains n cs last)
drain_chains-Drained [] n last v behind full h = absurd (omega arith)
drain_chains-Drained (c ∷ cs) n last v behind full h =
    let size = length-bytes c v.0 in
    let total = length-append (bytes c) (contents_of cs) in
    if_elim (Drained (drop n (contents_of (c ∷ cs)))) (leb c.off n)
      (λ all.
        let all' : c.off ≤ n = ground arith in
        let e : drop n (bytes c ++ contents_of cs) ≡ drop (n - c.off) (contents_of cs) =
          drop-append_ge n (bytes c) (contents_of cs) (omega (arith, size, all'))
          ∙ ap (λ k. drop (n - k) (contents_of cs)) size in
        rw e (
          drain_chains-Drained cs (n - c.off) (last - 1) v.1 (EmptyAfter-pred c cs last behind)
            (off_at-pred c cs last full) (omega (arith, size, total, all', h))))
      (λ part.
        let part' : n < c.off = ground arith in
        record {
          valid = (take_start-IsChain c n v.0 (omega (arith, part')), v.1);
          behind = behind-update c cs (take_start n c) last behind;
          full = full-update c cs (take_start n c) last full;
          held =
              ap (λ z. z ++ contents_of cs) (take_start-bytes c n (omega (arith, part')))
              ∙ sym (drop-append_le n (bytes c) (contents_of cs) (omega (arith, size, part')));
        })

-- evbuffer_drain refines dropping the front of a list of bytes: with the front not frozen it
-- succeeds, and the buffer represents what is left, nothing if there are no more bytes than asked.
pub drain-Represents :
    (buf : Evbuffer) (bs : Bytes) (n : ℕ)
    → Represents buf bs
    → buf.freeze_start ≡ false
    → (let r = evbuffer_drain buf n in (r.0 ≡ true) × Represents r.1 (drop n bs))
unfolding evbuffer_drain
drain-Represents buf bs n s free =
    let P = λ (r : Bool × Evbuffer). (r.0 ≡ true) × Represents r.1 (drop n bs) in
    if_elim P (buf.total_len == 0)
      (λ e.
        let nothing : length bs ≤ 0 = ground (arith, s.counted) in
        let empty : bs ≡ [] = drop_all 0 bs nothing in
        (refl, (rw (drop_all n bs (omega (arith, nothing)), sym empty) s)))
      (λ _.
        if_elim P buf.freeze_start (λ frozen. absurd cc)
          (λ _.
            if_elim P (leb buf.total_len n)
              (λ all.
                let all' : length bs ≤ n = ground (arith, s.counted) in
                (
                  refl,
                  invoke_elim (Stores (drop n bs)) _ (record {
                    valid = tt;
                    behind = tt;
                    full = λ h. absurd (omega arith);
                    held = sym (drop_all n bs all');
                    counted = omega (arith, length-drop n bs, all');
                    small = omega (arith, length-drop n bs, all');
                  }),
                ))
              (λ part.
                let held = s.held in
                let part' : n < length (contents_of buf.chains) =
                  rw held (ground (arith, s.counted)) in
                let d =
                  drain_chains-Drained buf.chains n buf.last_with_datap s.valid s.behind s.full
                    part' in
                (
                  refl,
                  invoke_elim (Stores (drop n bs)) _ (record {
                    valid = d.valid;
                    behind = d.behind;
                    full = d.full;
                    held = d.held ∙ ap (drop n) held;
                    counted = omega (arith, length-drop n bs, s.counted);
                    small = omega (arith, length-drop n bs, s.small);
                  }),
                ))))

copy_part :
    (c : Chain) (skip : ℕ)
    → skip ≤ c.off
    → take (c.off - skip) (drop (c.misalign + skip) c.buffer) ≡ drop skip (bytes c)
copy_part c skip h = take_start-bytes c skip h

-- The loop of evbuffer_copyout_from copies the bytes from its place on.
copy_chains-take :
    (cs : List Chain) (n skip : ℕ)
    → IsChains cs
    → skip ≤ off_at cs 0
    → copy_chains n skip cs ≡ take n (drop skip (contents_of cs))
copy_chains-take [] n skip v h =
    sym (ap (take n) (drop_all skip [] (omega arith)) ∙ take_all n [] (omega arith))
copy_chains-take (c ∷ cs) n skip v h =
    let len = c.off - skip in
    let part = drop skip (bytes c) in
    let size : length part ≡ len = omega (arith, length-drop skip (bytes c), length-bytes c v.0) in
    let copied = copy_part c skip h in
    let data_out = drop (c.misalign + skip) c.buffer in
    let e : drop skip (bytes c ++ contents_of cs) ≡ part ++ contents_of cs =
      drop-append_le skip (bytes c) (contents_of cs) (omega (arith, length-bytes c v.0, h)) in
    let rest : copy_chains (n - len) 0 cs ≡ take (n - len) (contents_of cs) =
      copy_chains-take cs (n - len) 0 v.1 (omega arith) in
    let P = λ (r : Bytes). r ≡ take n (part ++ contents_of cs) in
    if_elim P (n == 0) (λ z. let z' : n ≡ 0 = ground arith in rw z' refl)
      (λ _.
        if_elim P (leb len n)
          (λ all.
            ap₂ ◌++◌ copied rest
            ∙ sym (
                take-append_ge n part (contents_of cs) (ground (arith, size))
                ∙ ap (λ k. part ++ take (n - k) (contents_of cs)) size))
          (λ some_left. sym (
            take-append_le n part (contents_of cs) (ground (arith, size))
            ∙ ap (take n) (sym copied)
            ∙ take-take n len data_out (ground arith))))
    ∙ sym (ap (take n) e)

-- A position in the data that agrees with the place in the chains.
pub record IsPtr (buf : Evbuffer) (p : EvbufferPtr) : Type 0 where
  pub at : p.pos ≡ length (contents_of (take p.chain buf.chains)) + p.pos_in_chain
  pub within : p.pos_in_chain ≤ off_at (drop p.chain buf.chains) 0

pub IsChains-drop : (i : ℕ) (cs : List Chain) → IsChains cs → IsChains (drop i cs)
IsChains-drop zero cs v = v
IsChains-drop (suc i) [] v = v
IsChains-drop (suc i) (c ∷ cs) v = IsChains-drop i cs v.1

copyout_at-take :
    (buf : Evbuffer) (n skip : ℕ) (cs : List Chain)
    → buf.freeze_start ≡ false
    → IsChains cs
    → skip ≤ off_at cs 0
    → copyout_at buf n skip cs ≡ some (take n (drop skip (contents_of cs)))
copyout_at-take buf n skip cs free v h =
    let P = λ (r : Option Bytes). r ≡ some (take n (drop skip (contents_of cs))) in
    if_elim P (n == 0) (λ z. let z' : n ≡ 0 = ground arith in rw z' refl)
      (λ _.
        if_elim P buf.freeze_start (λ frozen. absurd cc)
          (λ _. ap some (copy_chains-take cs n skip v h)))

-- evbuffer_copyout_from copies the bytes from a position on, as many as asked or as
-- there are.
pub copyout_from-take :
    (buf : Evbuffer) (bs : Bytes) (p : EvbufferPtr) (n : ℕ)
    → Represents buf bs
    → IsPtr buf p
    → buf.freeze_start ≡ false
    → n + p.pos < 2 ^ 63
    → evbuffer_copyout_from buf (some p) n ≡ some (take n (drop p.pos bs))
unfolding evbuffer_copyout_from
copyout_from-take buf bs p n s at free small =
    let a = contents_of (take p.chain buf.chains) in
    let b = contents_of (drop p.chain buf.chains) in
    let whole : a ++ b ≡ bs =
      sym (contents-append (take p.chain buf.chains) (drop p.chain buf.chains))
      ∙ ap contents_of (take-append-drop p.chain buf.chains)
      ∙ s.held in
    let left : p.pos - length a ≡ p.pos_in_chain = omega (arith, at.at) in
    let rest : drop p.pos_in_chain b ≡ drop p.pos bs =
      ap (λ k. drop k b) (sym left)
      ∙ sym (drop-append_ge p.pos a b (omega (arith, at.at)))
      ∙ ap (drop p.pos) whole in
    let copied = λ (k : ℕ).
      copyout_at-take buf k p.pos_in_chain (drop p.chain buf.chains) free
        (IsChains-drop p.chain buf.chains s.valid) at.within
      ∙ ap (λ z. some (take k z)) rest in
    let long = length-drop p.pos bs in
    if_false (ltb (2 ^ 63 - 1 - p.pos) n) none _ (ground arith)
    ∙ if_elim
        (λ k.
          copyout_at buf k p.pos_in_chain (drop p.chain buf.chains) ≡ some (take n (drop p.pos bs)))
        (ltb buf.total_len (n + p.pos))
        (λ past.
          copied (buf.total_len - p.pos)
          ∙ ap some (
              take_all _ _ (omega (arith, long, s.counted))
              ∙ sym (take_all n (drop p.pos bs) (ground (arith, long, s.counted)))))
        (λ _. copied n)

-- The same from the start.
pub copyout-take :
    (buf : Evbuffer) (bs : Bytes) (n : ℕ)
    → Represents buf bs
    → buf.freeze_start ≡ false
    → evbuffer_copyout_from buf none n ≡ some (take n bs)
unfolding evbuffer_copyout_from
copyout-take buf bs n s free =
    copyout_at-take buf (min n buf.total_len) 0 buf.chains free s.valid (omega arith)
    ∙ ap some (
        ap₂ take (let e : min n buf.total_len ≡ min (length bs) n = omega (arith, s.counted) in e)
          s.held
        ∙ take-min-length bs n)

-- The bytes that are removed, and those that stay.
pub remove_bytes-Represents :
    (buf : Evbuffer) (bs : Bytes) (n : ℕ)
    → Represents buf bs
    → buf.freeze_start ≡ false
    → (let r = remove_bytes buf n in (r.0 ≡ some (take n bs)) × Represents r.1 (drop n bs))
unfolding remove_bytes
remove_bytes-Represents buf bs n s free =
    let e = copyout-take buf bs n s free in
    let d = drain-Represents buf bs (length (take n bs)) s free in
    let data_out = take n bs in
    let P = λ (r : Option Bytes × Evbuffer). (r.0 ≡ some data_out) × Represents r.1 (drop n bs) in
    let left : drop (length data_out) bs ≡ drop n bs =
      ap (drop (length data_out)) (sym (take-append-drop n bs))
      ∙ drop-append data_out (drop n bs) in
    rw (remove_bytes, e)
      (if_elim P (length data_out == 0)
        (λ z.
          let nil : data_out ≡ [] = drop_all 0 data_out (ground arith) in
          let same : drop n bs ≡ bs = ap (λ z. z ++ drop n bs) (sym nil) ∙ take-append-drop n bs in
          (ap some (sym nil), rw same s))
        (λ _.
          if_elim P (evbuffer_drain buf (length data_out)).0 (λ _. (refl, rw (sym left) d.1))
            (λ stuck. absurd cc)))

-- evbuffer_remove refines splitting a list of bytes: with the front not frozen it writes the bytes
-- asked for, or all if there are fewer, and the buffer represents the others. The result is the
-- number of these bytes as a 32-bit word: the number itself if it is less than 2 ^ 31, and -1 for
-- 2 ^ 32 - 1 bytes, although they are removed.
pub remove-Represents :
    (buf : Evbuffer) (bs : Bytes) (n : ℕ)
    → Represents buf bs
    → buf.freeze_start ≡ false
    → (let r = evbuffer_remove buf n in
        (r.0 ≡ length (take n bs) % 2 ^ 32)
        × ((r.1.0 ≡ some (take n bs)) × Represents r.1.1 (drop n bs))
        × (length (take n bs) < 2 ^ 31 → r.0 ≡ length (take n bs))
        × (length (take n bs) ≡ 2 ^ 32 - 1 → r.0 ≡ to_int none))
unfolding evbuffer_remove
remove-Represents buf bs n s free =
    let r = remove_bytes-Represents buf bs n s free in
    let cut : (evbuffer_remove buf n).0 ≡ length (take n bs) % 2 ^ 32 =
      ap (λ b. to_int (length_or_none b)) r.0 in
    (cut, r, (λ small. cut ∙ omega (arith, small)), λ large. cut ∙ omega (arith, large))
