-- ===== src/Buffer/SplitChains.antt =====
-- The loops of evbuffer_remove_buffer and advance_last_with_data in buffer.c.
use mathlib.Core.List.{append_assoc, append-nil}
use libevent_linux.Prelude.{
  ℕ, zero, suc, ◌+◌, ◌-◌, ◌≤◌, ◌<◌, ◌≡◌, refl, sym, ap, ◌∙◌, List, [], ◌∷◌, ◌++◌, length, take,
  length-append, leb, ◌==◌, if◌then◌else◌, if_elim, if_true, if_false, arith,
}
use libevent_linux.Prelude.Slices.{take-append_le, take-append_ge}
use libevent_linux.Buffer.Chain.{Chain, bytes, chain_max, chain_size, take_start}
use libevent_linux.Buffer.ChainLaws.{length-bytes}
use libevent_linux.Buffer.State.{contents_of, bytes_of_first}
use libevent_linux.Buffer.Invariant.{
  IsChains, AllEmpty, EmptyAfter, off_at, EmptyAfter-append, off_at-append,
}
use libevent_linux.Buffer.Remove.{drain_chains}
use libevent_linux.Buffer.Split.{split_chains, total_off, furthest, cut_first}

-- What the loop moves, and what it leaves.
pub record Parts (n : ℕ) (cs : List Chain) (last : ℕ) (r : List Chain × (List Chain × ℕ))
    : Type 0 where
  pub valid : IsChains r.0
  pub small : length (bytes_of_first r.1.0) ≤ chain_max - chain_size
  pub size : total_off r.0 ≤ n
  pub held :
      contents_of r.0 ++ take (n - total_off r.0) (bytes_of_first r.1.0) ≡ take n (contents_of cs)
  pub left : (cut_first (n - total_off r.0) r.1.0, r.1.1) ≡ drain_chains n cs last

pub split_chains-Parts :
    (cs : List Chain) (n last : ℕ)
    → IsChains cs
    → n < length (contents_of cs)
    → Parts n cs last (split_chains n cs last)
split_chains-Parts [] n last v h = absurd (omega arith)
split_chains-Parts (c ∷ cs) n last v h =
    let long = length-bytes c v.0 in
    let total = length-append (bytes c) (contents_of cs) in
    if_elim (Parts n (c ∷ cs) last) (leb c.off n)
      (λ all.
        let p = split_chains-Parts cs (n - c.off) (last - 1) v.1 (ground (arith, h, total, long)) in
        let (taken, (left, last')) = split_chains (n - c.off) cs (last - 1) in
        let e : n - (c.off + total_off taken) ≡ n - c.off - total_off taken = omega arith in
        let all' : length (bytes c) ≤ n = ground (arith, long) in
        record {
          valid = (v.0, p.valid);
          small = p.small;
          size = ground (arith, p.size);
          held =
              append_assoc (bytes c) (contents_of taken)
                (take (n - (c.off + total_off taken)) (bytes_of_first left))
              ∙ ap (◌++◌ (bytes c)) (
                  ap (λ k. contents_of taken ++ take k (bytes_of_first left)) e
                  ∙ p.held
                  ∙ ap (λ k. take (n - k) (contents_of cs)) (sym long))
              ∙ sym (take-append_ge n (bytes c) (contents_of cs) all');
          left =
              ap (λ k. (cut_first k left, last')) e ∙ p.left ∙ sym (if_true (leb c.off n) _ _ all);
        })
      (λ part.
        let part' : n ≤ length (bytes c) = ground (arith, long) in
        let e : n - 0 ≡ n = omega arith in
        record {
          valid = tt;
          small = omega (arith, long, v.0.within, v.0.bounded);
          size = omega arith;
          held =
              ap (λ k. take k (bytes c)) e
              ∙ sym (take-append_le n (bytes c) (contents_of cs) part');
          left = ap (λ k. (take_start k c ∷ cs, last)) e ∙ sym (if_false (leb c.off n) _ _ part);
        })

pub total_off-length : (cs : List Chain) → IsChains cs → length (contents_of cs) ≡ total_off cs
total_off-length [] v = refl
total_off-length (c ∷ cs) v =
    omega
      (arith, length-append (bytes c) (contents_of cs), length-bytes c v.0, total_off-length cs v.1)

AllEmpty-snoc : (xs : List Chain) (c : Chain) → c.off ≡ 0 → AllEmpty xs → AllEmpty (xs ++ c ∷ [])
AllEmpty-snoc [] c e v = (e, tt)
AllEmpty-snoc (x ∷ xs) c e v = (v.0, AllEmpty-snoc xs c e v.1)

EmptyAfter-snoc :
    (xs : List Chain) (i : ℕ) (c : Chain)
    → c.off ≡ 0
    → i < length xs
    → EmptyAfter i xs
    → EmptyAfter i (xs ++ c ∷ [])
EmptyAfter-snoc [] i c e h v = absurd (omega arith)
EmptyAfter-snoc (x ∷ xs) zero c e h v = AllEmpty-snoc xs c e v
EmptyAfter-snoc (x ∷ xs) (suc i) c e h v = EmptyAfter-snoc xs i c e (omega arith) v

off_at-before : (xs ys : List Chain) (i : ℕ) → i < length xs → off_at (xs ++ ys) i ≡ off_at xs i
off_at-before [] ys i h = absurd (omega arith)
off_at-before (x ∷ xs) ys zero h = refl
off_at-before (x ∷ xs) ys (suc i) h = off_at-before xs ys i (omega arith)

pub EmptyAfter-take : (i : ℕ) (xs : List Chain) → EmptyAfter i (take (suc i) xs)
EmptyAfter-take zero [] = tt
EmptyAfter-take zero (x ∷ xs) = tt
EmptyAfter-take (suc i) [] = tt
EmptyAfter-take (suc i) (x ∷ xs) = EmptyAfter-take i xs

pub off_at-take : (i : ℕ) (xs : List Chain) → off_at (take (suc i) xs) i ≡ off_at xs i
off_at-take zero [] = refl
off_at-take zero (x ∷ xs) = refl
off_at-take (suc i) [] = refl
off_at-take (suc i) (x ∷ xs) = off_at-take i xs

-- The loop of advance_last_with_data, after the chains `pre`.
pub furthest-IsLast :
    (cs pre : List Chain) (best k : ℕ)
    → k ≡ length pre
    → best < length pre
    → EmptyAfter best pre
    → (0 < best → 0 < off_at pre best)
    → EmptyAfter (furthest k best cs) (pre ++ cs)
      × (0 < furthest k best cs → 0 < off_at (pre ++ cs) (furthest k best cs))
furthest-IsLast [] pre best k size below behind full =
    let same = append-nil pre in (rw same behind, λ h. rw same (full h))
furthest-IsLast (c ∷ cs) pre best k size below behind full =
    let long = length-append pre (c ∷ []) in
    let whole : (pre ++ c ∷ []) ++ cs ≡ pre ++ c ∷ cs = append_assoc pre (c ∷ []) cs in
    let next = furthest (k + 1) (if c.off == 0 then best else k) cs in
    let go : (b : ℕ)
        → b < length (pre ++ c ∷ [])
        → EmptyAfter b (pre ++ c ∷ [])
        → (0 < b → 0 < off_at (pre ++ c ∷ []) b)
        → (let i = furthest (k + 1) b cs in
            EmptyAfter i (pre ++ c ∷ cs) × (0 < i → 0 < off_at (pre ++ c ∷ cs) i)) =
      λ b below' behind' full'. rw (sym whole) (
        furthest-IsLast cs (pre ++ c ∷ []) b (k + 1) (omega (arith, size, long)) below' behind'
          full') in
    if_elim
      (λ b.
        let i = furthest (k + 1) b cs in
        EmptyAfter i (pre ++ c ∷ cs) × (0 < i → 0 < off_at (pre ++ c ∷ cs) i))
      (c.off == 0)
      (λ e.
        go best (omega (arith, below, long))
          (EmptyAfter-snoc pre best c (ground arith) below behind)
          (λ h. omega (arith, off_at-before pre (c ∷ []) best below, full h)))
      (λ out.
        let end = off_at-append pre (c ∷ []) 0 k (omega (arith, size)) in
        let full' : 0 < c.off = ground arith in
        go k (omega (arith, size, long))
          (EmptyAfter-append pre (c ∷ []) 0 k (omega (arith, size)) tt)
          (λ _. omega (arith, end, full')))
