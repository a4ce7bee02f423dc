-- ===== src/Buffer/SearchLaws.antt =====
-- The searches of buffer.c over chains, against searches in the list of bytes.
use mathlib.Core.Option.{some-ne-none}
use libevent_linux.Prelude.{
  ℕ, zero, suc, ◌+◌, ◌-◌, ◌≤◌, ◌<◌, ◌≡◌, refl, sym, ap, ◌∙◌, Bool, false, Option, none, some, List,
  [], ◌∷◌, ◌++◌, length, take, drop, ltb, ◌==◌, if_false, length-append, take-append-drop,
  length-take, length-drop, Bool-cases, Option-cases, inl, inr, ◌⊎◌, arith,
}
use libevent_linux.Prelude.Slices.{drop_all}
use libevent_linux.Buffer.Chain.{Bytes, Chain, bytes}
use libevent_linux.Buffer.ChainLaws.{length-bytes}
use libevent_linux.Buffer.State.{contents_of}
use libevent_linux.Buffer.Invariant.{IsChains, off_at}
use libevent_linux.Buffer.Remove.{EvbufferPtr}
use libevent_linux.Buffer.Search.{
  is_eol, find_index, memchr, earlier, chunk_or, find_eol_loop, find_eol_char, search_chains,
}

abbrev pub shift : ℕ → Option ℕ → Option ℕ
shift n none = none
shift n (some k) = some (n + k)

-- What a search finds in two lists, one behind the other.
abbrev or_later : ℕ → Option ℕ → Option ℕ → Option ℕ
or_later n none later = shift n later
or_later n (some k) later = some k

find_index-append :
    (p : ℕ → Bool) (xs ys : Bytes)
    → find_index p (xs ++ ys) ≡ or_later (length xs) (find_index p xs) (find_index p ys)
find_index-append p [] ys = elim (Option-cases (find_index p ys)) [
  | inl out ↦ rw out refl
  | inr (k, found) ↦ rw found (ap some (omega arith))
]
find_index-append p (c ∷ xs) ys = elim (Bool-cases (p c)) [
  | inl here ↦ rw here refl
  | inr other ↦ elim (Option-cases (find_index p xs)) [
    | inr (k, found) ↦
        let whole =
          find_index-append p xs ys ∙ ap (λ r. or_later (length xs) r (find_index p ys)) found in
        rw (other, found, whole) refl
    | inl out ↦
        let whole =
          find_index-append p xs ys ∙ ap (λ r. or_later (length xs) r (find_index p ys)) out in
        elim (Option-cases (find_index p ys)) [
          | inl none_later ↦ rw (other, out, whole, none_later) refl
          | inr (k, later) ↦ rw (other, out, whole, later) (ap some (omega arith))
        ]
  ]
]

-- The first CR or LF is the earlier one of the first CR and the first LF.
earlier-index : (s : Bytes) → earlier (memchr 13 s) (memchr 10 s) ≡ find_index is_eol s
earlier-index [] = refl
earlier-index (c ∷ s) = ground (arith, earlier-index s)

find_eol_loop-round :
    (fuel : ℕ) (s : Bytes) (done : ℕ)
    → (length s == 0) ≡ false
    → find_eol_loop (suc fuel) s done
      ≡ chunk_or done
          (find_index is_eol (take 128 s))
          (find_eol_loop fuel (drop 128 s) (done + 128))
unfolding find_eol_loop
find_eol_loop-round fuel s done some_left =
    if_false _ _ _ some_left
    ∙ ap (λ r. chunk_or done r (find_eol_loop fuel (drop 128 s) (done + 128)))
        (earlier-index (take 128 s))

chunk-shift :
    (done n : ℕ) (here later : Option ℕ)
    → (here ≡ none → (n ≡ 128) ⊎ (later ≡ none))
    → chunk_or done here (shift (done + 128) later) ≡ shift done (or_later n here later)
chunk-shift done n (some k) later h = refl
chunk-shift done n none none h = refl
chunk-shift done n none (some k) h = elim (h refl) [
  | inl whole ↦ ap some (omega arith)
  | inr out ↦ absurd (some-ne-none _ out)
]

nothing_left : (fuel done : ℕ) → find_eol_loop fuel [] done ≡ none
unfolding find_eol_loop
nothing_left zero done = refl
nothing_left (suc fuel) done = refl

chunk_full : (s : Bytes) → (length (take 128 s) ≡ 128) ⊎ (find_index is_eol (drop 128 s) ≡ none)
chunk_full s = elim (Bool-cases (ltb (length s) 128)) [
  | inr long ↦
      let long' : 128 ≤ length s = ground arith in inl (omega (arith, length-take 128 s, long'))
  | inl short ↦ inr (ap (find_index is_eol) (drop_all 128 s (ground arith)))
]

find_eol_loop-index :
    (fuel : ℕ) (s : Bytes) (done : ℕ)
    → length s ≤ fuel
    → find_eol_loop fuel s done ≡ shift done (find_index is_eol s)
find_eol_loop-index zero s done enough =
    let empty : s ≡ [] = drop_all 0 s enough in rw empty (nothing_left zero done)
find_eol_loop-index (suc fuel) s done enough = elim (Bool-cases (length s == 0)) [
  | inl none_left ↦
      let empty : s ≡ [] = drop_all 0 s (ground arith) in rw empty (nothing_left (suc fuel) done)
  | inr some_left ↦
      let here = find_index is_eol (take 128 s) in
      let later = find_index is_eol (drop 128 s) in
      find_eol_loop-round fuel s done some_left
      ∙ ap (chunk_or done here)
          (find_eol_loop-index fuel (drop 128 s) (done + 128) (ground (arith, length-drop 128 s)))
      ∙ chunk-shift done (length (take 128 s)) here later (λ out. chunk_full s)
      ∙ ap (shift done) (
          sym (find_index-append is_eol (take 128 s) (drop 128 s))
          ∙ ap (find_index is_eol) (take-append-drop 128 s))
]

pub find_eol_char-index : (s : Bytes) → find_eol_char s ≡ find_index is_eol s
unfolding find_eol_char
find_eol_char-index s =
    find_eol_loop-index (length s) s 0 (omega arith) ∙ shift_zero (find_index is_eol s)
  where
    shift_zero : (r : Option ℕ) → shift 0 r ≡ r
    shift_zero none = refl
    shift_zero (some k) = ap some (omega arith)

-- What a search over the chains gives: the position of the first byte with the property, and its
-- place in the chains; or there is no such byte.
pub data Found (p : ℕ → Bool) (cs : List Chain) (chain pos : ℕ) : Option EvbufferPtr → Type 0 where
  missing : find_index p (contents_of cs) ≡ none → Found p cs chain pos none
  found :
      (it : EvbufferPtr) (k j : ℕ)
      → find_index p (contents_of cs) ≡ some k
      → it.pos ≡ pos + k
      → it.chain ≡ chain + j
      → k ≡ length (contents_of (take j cs)) + it.pos_in_chain
      → it.pos_in_chain < off_at (drop j cs) 0
      → Found p cs chain pos (some it)

pub find_index-below : (p : ℕ → Bool) (s : Bytes) (k : ℕ) → find_index p s ≡ some k → k < length s
find_index-below p [] k h = absurd (some-ne-none _ (sym h))
find_index-below p (c ∷ s) k h = elim (Bool-cases (p c)) [
  | inl here ↦ ground (arith, h, here)
  | inr other ↦ elim (Option-cases (find_index p s)) [
    | inl out ↦ ground (arith, h, other, out)
    | inr (m, at) ↦ ground (arith, h, other, at, find_index-below p s m at)
  ]
]

-- A search that goes on in the chains behind the first.
further :
    (c : Chain) (cs : List Chain) (chain pos : ℕ) (p : ℕ → Bool) (r : Option EvbufferPtr)
    → length (bytes c) ≡ c.off
    → find_index p (bytes c) ≡ none
    → Found p cs (suc chain) (pos + (c.off - 0)) r
    → Found p (c ∷ cs) chain pos r
further c cs chain pos p none size out (missing none_later) = missing (
    find_index-append p (bytes c) (contents_of cs)
    ∙ ap (λ r. or_later (length (bytes c)) r (find_index p (contents_of cs))) out
    ∙ ap (shift (length (bytes c))) none_later)
further c cs chain pos p (some it) size out (found _ k j here at_pos at_chain index inside) =
    found it (length (bytes c) + k) (suc j)
      (find_index-append p (bytes c) (contents_of cs)
        ∙ ap (λ r. or_later (length (bytes c)) r (find_index p (contents_of cs))) out
        ∙ ap (shift (length (bytes c))) here)
      (omega (arith, at_pos, size)) (omega (arith, at_chain))
      (omega (arith, index, length-append (bytes c) (contents_of (take j cs)))) inside

pub search_chains-Found :
    (finder : Bytes → Option ℕ) (p : ℕ → Bool) (cs : List Chain) (chain pos : ℕ)
    → ((s : Bytes) → finder s ≡ find_index p s)
    → IsChains cs
    → Found p cs chain pos (search_chains finder cs chain 0 pos)
search_chains-Found finder p [] chain pos same v = missing refl
search_chains-Found finder p (c ∷ cs) chain pos same v =
    let size = length-bytes c v.0 in
    let whole = find_index-append p (bytes c) (contents_of cs) in
    elim (Option-cases (find_index p (bytes c))) [
      | inr (k, here) ↦
          rw (same (bytes c) ∙ here, search_chains)
            (found (record { pos = pos + k; chain = chain; pos_in_chain = 0 + k }) k 0
              (whole ∙ ap (λ r. or_later (length (bytes c)) r (find_index p (contents_of cs))) here)
              refl (omega arith) (omega arith)
              (omega (arith, size, find_index-below p (bytes c) k here)))
      | inl out ↦
          rw (same (bytes c) ∙ out, search_chains)
            (further c cs chain pos p (search_chains finder cs (suc chain) 0 (pos + (c.off - 0)))
              size out (search_chains-Found finder p cs (suc chain) (pos + (c.off - 0)) same v.1))
    ]
