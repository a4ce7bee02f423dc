-- ===== src/Buffer/PullChains.antt =====
-- The loop of evbuffer_pullup in buffer.c, and where it leaves last_with_datap.
use libevent_linux.Prelude.{
  ℕ, zero, suc, ◌+◌, ◌-◌, ◌≤◌, ◌<◌, ◌≡◌, refl, sym, ap, ap₂, ◌∙◌, ◌&&◌, List, [], ◌∷◌, ◌++◌, length,
  drop, take, length-append, length-take, take-append-drop, ltb, leb, ◌==◌, if_elim, arith,
}
use mathlib.Core.List.{append_assoc}
use libevent_linux.Prelude.Slices.{take-append_le, take-append_ge, drop-append_le, drop-append_ge}
use libevent_linux.Buffer.Chain.{Bytes, Chain, bytes, put_end, take_start}
use libevent_linux.Buffer.ChainLaws.{
  IsChain, length-bytes, put_end-bytes, put_end-IsChain, take_start-bytes, take_start-IsChain,
}
use libevent_linux.Buffer.State.{Evbuffer, contents_of, off_of_first}
use libevent_linux.Buffer.Invariant.{
  IsChains, AllEmpty, EmptyAfter, off_at, Represents, behind-update,
}
use libevent_linux.Buffer.Pullup.{pull_chains, pulled_last, pulled}

-- What the loop copies, and what it leaves.
record Splits (size : ℕ) (bs : Bytes) (r : Bytes × (List Chain × ℕ)) : Type 0 where
  pub copied : r.0 ≡ take size bs
  pub held : contents_of r.1.0 ≡ drop size bs
  pub valid : IsChains r.1.0

pull_chains-Splits :
    (cs : List Chain) (size : ℕ)
    → IsChains cs
    → size ≤ length (contents_of cs)
    → Splits size (contents_of cs) (pull_chains size cs)
pull_chains-Splits [] size v h =
    let z : size ≡ 0 = omega (arith, h) in
    record { copied = rw z refl; held = rw z refl; valid = tt }
pull_chains-Splits (c ∷ cs) size v h =
    let long = length-bytes c v.0 in
    let total = length-append (bytes c) (contents_of cs) in
    if_elim (Splits size (contents_of (c ∷ cs))) (leb c.off size)
      (λ all.
        let all' : length (bytes c) ≤ size = ground (arith, long) in
        let rest = pull_chains-Splits cs (size - c.off) v.1 (omega (arith, h, total, long)) in
        record {
          copied =
              ap (◌++◌ (bytes c))
                (rest.copied ∙ ap (λ n. take (size - n) (contents_of cs)) (sym long))
              ∙ sym (take-append_ge size (bytes c) (contents_of cs) all');
          held =
              rest.held
              ∙ ap (λ n. drop (size - n) (contents_of cs)) (sym long)
              ∙ sym (drop-append_ge size (bytes c) (contents_of cs) all');
          valid = rest.valid;
        })
      (λ part.
        let part' : size < c.off = ground arith in
        record {
          copied =
              sym (take-append_le size (bytes c) (contents_of cs) (omega (arith, part', long)));
          held =
              ap (λ z. z ++ contents_of cs) (take_start-bytes c size (omega (arith, part')))
              ∙ sym (drop-append_le size (bytes c) (contents_of cs) (omega (arith, part', long)));
          valid = (take_start-IsChain c size v.0 (omega (arith, part')), v.1);
        })

pull_chains-AllEmpty : (cs : List Chain) (size : ℕ) → AllEmpty cs → (pull_chains size cs).1.0 ≡ []
pull_chains-AllEmpty [] size e = refl
pull_chains-AllEmpty (c ∷ cs) size e =
    if_elim (λ (r : Bytes × (List Chain × ℕ)). r.1.0 ≡ []) (leb c.off size)
      (λ _. pull_chains-AllEmpty cs (size - c.off) e.1) (λ out. absurd (ground (arith, e.0)))

-- Where the last chain with data is after the loop: freed with all behind it, or left.
record Placed (last : ℕ) (r : List Chain × ℕ) : Type 0 where
  pub gone : last < r.1 → r.0 ≡ []
  pub behind : r.1 ≤ last → EmptyAfter (last - r.1) r.0
  pub full : r.1 ≤ last → 0 < off_at r.0 (last - r.1)

Placed-suc :
    (last : ℕ) (left : List Chain) (freed : ℕ)
    → Placed last (left, freed)
    → Placed (suc last) (left, suc freed)
Placed-suc last left freed p =
    let e : suc last - suc freed ≡ last - freed = omega arith in
    record {
      gone = λ h. p.gone (omega (arith, h));
      behind = λ h. rw e (p.behind (omega (arith, h)));
      full = λ h. rw e (p.full (omega (arith, h)));
    }

off_at-part :
    (c : Chain) (cs : List Chain) (size last : ℕ)
    → size < c.off
    → 0 < off_at (c ∷ cs) last
    → 0 < off_at (take_start size c ∷ cs) last
off_at-part c cs size zero h full = omega (arith, h)
off_at-part c cs size (suc last) h full = full

part-Placed :
    (c : Chain) (cs : List Chain) (size last : ℕ)
    → size < c.off
    → EmptyAfter last (c ∷ cs)
    → 0 < off_at (c ∷ cs) last
    → Placed last (take_start size c ∷ cs, 0)
part-Placed c cs size last h behind full =
    let e : last - 0 ≡ last = omega arith in
    record {
      gone = λ h. absurd (omega (arith, h));
      behind = λ _. rw e (behind-update c cs (take_start size c) last behind);
      full = λ _. rw e (off_at-part c cs size last h full);
    }

pull_chains-Placed :
    (cs : List Chain) (size last : ℕ)
    → EmptyAfter last cs
    → 0 < off_at cs last
    → Placed last (pull_chains size cs).1
pull_chains-Placed [] size last behind full = absurd (omega arith)
pull_chains-Placed (c ∷ cs) size zero behind full =
    if_elim (λ (r : Bytes × (List Chain × ℕ)). Placed 0 r.1) (leb c.off size)
      (λ _. record {
        gone = λ _. pull_chains-AllEmpty cs (size - c.off) behind;
        behind = λ h. absurd (omega (arith, h));
        full = λ h. absurd (omega (arith, h));
      })
      (λ part. part-Placed c cs size 0 (ground arith) behind full)
pull_chains-Placed (c ∷ cs) size (suc last) behind full =
    if_elim (λ (r : Bytes × (List Chain × ℕ)). Placed (suc last) r.1) (leb c.off size)
      (λ _. Placed-suc last _ _ (pull_chains-Placed cs (size - c.off) last behind full))
      (λ part. part-Placed c cs size (suc last) (ground arith) behind full)

first-off : (cs : List Chain) → off_of_first cs ≡ off_at cs 0
first-off [] = refl
first-off (c ∷ cs) = refl

-- `last_with_datap` afterwards is again at the last chain with data.
pulled_last-right :
    (last from freed : ℕ) (x : Chain) (left : List Chain)
    → from ≤ last
    → Placed (last - from) (left, freed)
    → (let i = pulled_last last from freed left in
        EmptyAfter i (x ∷ left) × (0 < i → 0 < off_at (x ∷ left) i))
pulled_last-right last from freed x left h p =
    let P = λ (i : ℕ). EmptyAfter i (x ∷ left) × (0 < i → 0 < off_at (x ∷ left) i) in
    if_elim P (ltb last from) (λ out. absurd (ground (arith, h)))
      (λ _.
        if_elim P (ltb last (from + freed))
          (λ gone. (rw (p.gone (ground (arith, h))) tt, λ z. absurd (omega arith)))
          (λ kept.
            let kept' : freed ≤ last - from = ground (arith, h) in
            let behind = p.behind kept' in
            let full = p.full kept' in
            if_elim P (last == from + freed && ltb 0 freed)
              (λ at.
                let z : last - from - freed ≡ 0 = ground (arith, h) in
                let behind' : EmptyAfter 0 left = rw (sym z) behind in
                let full' : 0 < off_at left 0 = rw (sym z) full in
                if_elim P (off_of_first left == 0) (λ e. absurd (ground (arith, first-off left)))
                  (λ _. (behind', λ _. full')))
              (λ _.
                let e : last - (from + freed) + 1 ≡ suc (last - from - freed) = omega arith in
                rw e (behind, λ _. full))))

-- The bytes that the loop copies are put behind those of `tmp`.
pub pulled-Represents :
    (buf : Evbuffer) (bs before : Bytes) (tmp : Chain) (size from : ℕ) (chains : List Chain)
    → Represents buf bs
    → IsChain tmp
    → bytes tmp ≡ before
    → before ++ contents_of chains ≡ bs
    → tmp.misalign + tmp.off + size ≤ tmp.buffer_len
    → size ≤ length (contents_of chains)
    → IsChains chains
    → from ≤ buf.last_with_datap
    → EmptyAfter (buf.last_with_datap - from) chains
    → 0 < off_at chains (buf.last_with_datap - from)
    → Represents (pulled buf tmp size from chains) bs
      × (tmp.off + size ≡ off_of_first (pulled buf tmp size from chains).chains)
pulled-Represents buf bs before tmp size from chains s v held whole room some_left valid h behind
      full =
    let (copied, (left, freed)) = pull_chains size chains in
    let parts = pull_chains-Splits chains size valid some_left in
    let long : length copied ≡ size =
      ap length parts.copied ∙ omega (arith, length-take size (contents_of chains), some_left) in
    let room' : tmp.misalign + tmp.off + length copied ≤ tmp.buffer_len =
      omega (arith, long, room) in
    let right =
      pulled_last-right buf.last_with_datap from freed (put_end copied tmp) left h
        (pull_chains-Placed chains size (buf.last_with_datap - from) behind full) in
    (
      record {
        valid = (put_end-IsChain tmp copied v room', parts.valid);
        behind = right.0;
        full = right.1;
        held =
            ap₂ ◌++◌ (put_end-bytes tmp copied v room' ∙ ap₂ ◌++◌ held parts.copied) parts.held
            ∙ append_assoc before (take size (contents_of chains)) (drop size (contents_of chains))
            ∙ ap (◌++◌ before) (take-append-drop size (contents_of chains))
            ∙ whole;
        counted = s.counted;
        small = s.small;
      },
      omega (arith, long),
    )
