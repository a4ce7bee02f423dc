-- ===== src/Buffer/PullupLaws.antt =====
-- evbuffer_pullup of buffer.c, as an operation on the bytes of a buffer.
use libevent_linux.Prelude.{
  ℕ, zero, suc, ◌-◌, ◌≤◌, ◌<◌, ◌≡◌, refl, sym, ap, ◌∙◌, Bool, true, ◌||◌, Option, some, List, [],
  ◌∷◌, length, take, length-append, ltb, leb, ◌==◌, if_elim, Option_elim, arith,
}
use libevent_linux.Prelude.Slices.{take-append_le}
use libevent_linux.Buffer.Chain.{Bytes, Chain, bytes, chain_max, chain_size, evbuffer_chain_new}
use libevent_linux.Buffer.ChainLaws.{IsFresh, length-bytes, chain_new-IsFresh, chain_new-some}
use libevent_linux.Buffer.State.{Evbuffer, contents_of, off_of_first, bytes_of_first}
use libevent_linux.Buffer.Invariant.{
  IsChains, EmptyAfter, off_at, Stores, Represents, AllEmpty-bytes, AllEmpty-contents,
}
use libevent_linux.Buffer.MoveLaws.{last-full}
use libevent_linux.Buffer.Pullup.{pullup_chains, asked, evbuffer_pullup}
use libevent_linux.Buffer.PullChains.{pulled-Represents}

-- More data than the first chain has is in chains behind it.
tail-last :
    (bs : Bytes) (c : Chain) (cs : List Chain) (last n : ℕ)
    → Stores bs (c ∷ cs) last n
    → c.off < length bs
    → (1 ≤ last) × (EmptyAfter (last - 1) cs × (0 < off_at cs (last - 1)))
tail-last bs c cs zero n s h =
    let whole = ap length s.held in
    let nothing = ap length (AllEmpty-contents cs s.behind) in
    absurd (
      omega (
        arith,
        whole,
        nothing,
        length-append (bytes c) (contents_of cs),
        length-bytes c s.valid.0,
        h,
      ))
tail-last bs c cs (suc last) n s h =
    let e : suc last - 1 ≡ last = omega arith in
    (omega arith, (rw e s.behind, rw e (s.full (omega arith))))

-- What evbuffer_pullup gives for `n` bytes: the same bytes, and if it does not fail, so many in the
-- first chain.
abbrev pub Pulls : Bytes → ℕ → Bool × Evbuffer → Type 0
Pulls bs n r = Represents r.1 bs × (r.0 ≡ true → n ≤ off_of_first r.1.chains)

pullup_chains-Pulls :
    (buf : Evbuffer) (bs : Bytes) (n : ℕ) (chains : List Chain) (memory : Bool)
    → Represents buf bs
    → buf.chains ≡ chains
    → n ≤ length bs
    → 0 < n
    → Pulls bs n (pullup_chains buf n chains memory)
pullup_chains-Pulls buf bs n [] memory s e h some_asked = (s, λ bad. cc)
pullup_chains-Pulls buf bs n (c ∷ cs) memory s e h some_asked =
    let s' : Stores bs (c ∷ cs) buf.last_with_datap buf.total_len = rw (sym e) s in
    let total = length-append (bytes c) (contents_of cs) in
    let long = length-bytes c s'.valid.0 in
    let whole = ap length s'.held in
    if_elim (Pulls bs n) (leb n c.off)
      (λ here.
        let first : off_of_first buf.chains ≡ c.off = ap off_of_first e in
        (s, λ _. ground (arith, first)))
      (λ more.
        let more' : c.off < n = ground arith in
        if_elim (Pulls bs n) (leb n (c.buffer_len - c.misalign))
          (λ room.
            let (after, (behind, full)) =
              tail-last bs c cs buf.last_with_datap buf.total_len s' (omega (arith, more', h)) in
            let (kept, size) =
              pulled-Represents buf bs (bytes c) c (n - c.off) 1 cs s s'.valid.0 refl s'.held
                (ground (arith, more', s'.valid.0.within))
                (omega (arith, more', h, whole, total, long)) s'.valid.1 after behind full in
            (kept, λ _. omega (arith, size, more')))
          (λ _.
            Option_elim (IsFresh n) (Pulls bs n) (evbuffer_chain_new n memory)
              (chain_new-IsFresh n memory) (s, λ bad. cc)
              (λ tmp new.
                let z : buf.last_with_datap - 0 ≡ buf.last_with_datap = omega arith in
                let full = last-full (c ∷ cs) s' (omega (arith, h, some_asked)) in
                let (kept, size) =
                  pulled-Represents buf bs [] tmp n 0 (c ∷ cs) s new.valid
                    (AllEmpty-bytes tmp new.empty) s'.held
                    (omega (arith, new.empty, new.start, new.room)) (omega (arith, h, whole))
                    s'.valid (omega arith) (rw z s'.behind) (rw z full) in
                (kept, λ _. omega (arith, size)))))

pullup-Pulls :
    (buf : Evbuffer) (bs : Bytes) (size : Option ℕ) (memory : Bool)
    → Represents buf bs
    → Pulls bs (asked size (length bs)) (evbuffer_pullup buf size memory)
unfolding evbuffer_pullup
pullup-Pulls buf bs size memory s =
    let n = asked size buf.total_len in
    rw (sym s.counted) (
      if_elim (Pulls bs n) (n == 0 || ltb buf.total_len n) (λ _. (s, λ bad. cc))
        (λ ok.
          pullup_chains-Pulls buf bs n buf.chains memory s refl (ground (arith, s.counted))
            (ground arith)))

pullup_chains-succeeds :
    (buf : Evbuffer) (n : ℕ) (chains : List Chain)
    → n ≤ length (contents_of chains)
    → 0 < n
    → n ≤ chain_max - chain_size
    → (pullup_chains buf n chains true).0 ≡ true
pullup_chains-succeeds buf n [] h some_asked small = absurd (omega arith)
pullup_chains-succeeds buf n (c ∷ cs) h some_asked small =
    let P = λ (r : Bool × Evbuffer). r.0 ≡ true in
    let (tmp, e) = chain_new-some n small in
    if_elim P (leb n c.off) (λ _. refl)
      (λ _. if_elim P (leb n (c.buffer_len - c.misalign)) (λ _. refl) (λ _. rw e refl))

pullup-succeeds :
    (buf : Evbuffer) (bs : Bytes) (n : ℕ)
    → Represents buf bs
    → 0 < n
    → n ≤ length bs
    → n ≤ chain_max - chain_size
    → (evbuffer_pullup buf (some n) true).0 ≡ true
unfolding evbuffer_pullup
pullup-succeeds buf bs n s some_asked h small =
    let whole = ap length s.held in
    if_elim (λ (r : Bool × Evbuffer). r.0 ≡ true) (n == 0 || ltb buf.total_len n)
      (λ bad. absurd (ground (arith, s.counted)))
      (λ _. pullup_chains-succeeds buf n buf.chains (omega (arith, whole, h)) some_asked small)

bytes_of_first-take :
    (cs : List Chain) (n : ℕ)
    → IsChains cs
    → n ≤ off_of_first cs
    → take n (bytes_of_first cs) ≡ take n (contents_of cs)
bytes_of_first-take [] n v h = refl
bytes_of_first-take (c ∷ cs) n v h =
    sym (take-append_le n (bytes c) (contents_of cs) (omega (arith, length-bytes c v.0, h)))

-- With memory, evbuffer_pullup succeeds for any number of bytes that the buffer has, as far as a
-- chain may be so large. The buffer represents the same bytes as before, and the bytes that the
-- result points at, those of the first chain, begin with those asked for.
pub pullup-take :
    (buf : Evbuffer) (bs : Bytes) (n : ℕ)
    → Represents buf bs
    → 0 < n
    → n ≤ length bs
    → n ≤ chain_max - chain_size
    → (let r = evbuffer_pullup buf (some n) true in
        (r.0 ≡ true) × (Represents r.1 bs × (take n (bytes_of_first r.1.chains) ≡ take n bs)))
pullup-take buf bs n s some_asked h small =
    let r = evbuffer_pullup buf (some n) true in
    let (kept, front) = pullup-Pulls buf bs (some n) true s in
    let done = pullup-succeeds buf bs n s some_asked h small in
    (done, (kept, bytes_of_first-take r.1.chains n kept.valid (front done) ∙ ap (take n) kept.held))
