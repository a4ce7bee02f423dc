-- ===== src/Buffer/PlaceLaws.antt =====
-- Places in the chains of a buffer (buffer.c), against indices in its list of bytes.
use libevent_linux.Prelude.{
  ℕ, zero, suc, ◌+◌, ◌-◌, ◌≤◌, ◌<◌, ◌≡◌, refl, sym, ap, ◌∙◌, Bool, true, false, Option, none, some,
  List, [], ◌∷◌, ◌++◌, length, get_elem?, take, drop, ltb, leb, if◌then◌else◌, if_true, if_false,
  length-append, take-append-drop, length-drop, Bool-cases, inl, inr, arith,
}
use libevent_linux.Prelude.Slices.{drop_all, drop-append_le, drop-append_ge}
use libevent_linux.Buffer.Chain.{Bytes, Chain, bytes}
use libevent_linux.Buffer.ChainLaws.{length-bytes}
use libevent_linux.Buffer.State.{Evbuffer, contents_of}
use libevent_linux.Buffer.Invariant.{IsChains, off_at, contents-append}
use libevent_linux.Buffer.Remove.{EvbufferPtr}
use libevent_linux.Buffer.Search.{span, strspn_chains, evbuffer_getchr, walk}

module _ {ℓ} {A : Type ℓ} where
  get_elem?-take : (n i : ℕ) (xs : List A) → i < n → get_elem? (take n xs) i ≡ get_elem? xs i
  get_elem?-take zero i xs h = absurd (omega arith)
  get_elem?-take (suc n) i [] h = refl
  get_elem?-take (suc n) zero (x ∷ xs) h = refl
  get_elem?-take (suc n) (suc i) (x ∷ xs) h = get_elem?-take n i xs (omega arith)

  get_elem?-drop : (n i : ℕ) (xs : List A) → get_elem? (drop n xs) i ≡ get_elem? xs (n + i)
  get_elem?-drop zero i xs = ap (get_elem? xs) (omega arith)
  get_elem?-drop (suc n) i [] = refl
  get_elem?-drop (suc n) i (x ∷ xs) =
      let sum : suc (n + i) ≡ suc n + i = omega arith in
      get_elem?-drop n i xs ∙ ap (get_elem? (x ∷ xs)) sum

  get_elem?-append_lt :
      (i : ℕ) (xs ys : List A) → i < length xs → get_elem? (xs ++ ys) i ≡ get_elem? xs i
  get_elem?-append_lt i [] ys h = absurd (omega arith)
  get_elem?-append_lt zero (x ∷ xs) ys h = refl
  get_elem?-append_lt (suc i) (x ∷ xs) ys h = get_elem?-append_lt i xs ys (omega arith)

  get_elem?-append_ge :
      (i : ℕ) (xs ys : List A) → get_elem? (xs ++ ys) (length xs + i) ≡ get_elem? ys i
  get_elem?-append_ge i [] ys = ap (get_elem? ys) (omega arith)
  get_elem?-append_ge i (x ∷ xs) ys =
      let sum : suc (length xs) + i ≡ suc (length xs + i) = omega arith in
      ap (get_elem? (x ∷ (xs ++ ys))) sum ∙ get_elem?-append_ge i xs ys

-- The index of a place in the chains.
pub record IsPlace (cs : List Chain) (index chain pos_in_chain : ℕ) : Type 0 where
  pub at : index ≡ length (contents_of (take chain cs)) + pos_in_chain
  pub within : pos_in_chain < off_at (drop chain cs) 0

byte_of :
    (c : Chain) (x : ℕ) → x < c.off → get_elem? c.buffer (c.misalign + x) ≡ get_elem? (bytes c) x
byte_of c x inside =
    sym (get_elem?-drop c.misalign x c.buffer)
    ∙ sym (get_elem?-take c.off x (drop c.misalign c.buffer) inside)

-- The byte of a chain.
abbrev byte_in : List Chain → ℕ → ℕ → Option ℕ
byte_in cs chain x = elim (get_elem? cs chain) [
  | none ↦ none
  | some c ↦ get_elem? c.buffer (c.misalign + x)
]

byte_in-contents :
    (cs : List Chain) (index chain x : ℕ)
    → IsChains cs
    → IsPlace cs index chain x
    → byte_in cs chain x ≡ get_elem? (contents_of cs) index
byte_in-contents [] index chain x v place = absurd (nowhere chain place.within)
  where
    nowhere : (chain : ℕ) → x < off_at (drop chain []) 0 → ⊥
    nowhere zero h = omega arith
    nowhere (suc chain) h = omega arith
byte_in-contents (c ∷ cs) index zero x v place =
    let same : index ≡ x = omega (arith, place.at) in
    byte_of c x place.within
    ∙ sym (
        get_elem?-append_lt x (bytes c) (contents_of cs)
          (omega (arith, length-bytes c v.0, place.within)))
    ∙ ap (get_elem? (contents_of (c ∷ cs))) (sym same)
byte_in-contents (c ∷ cs) index (suc chain) x v place =
    let rest = length (contents_of (take chain cs)) + x in
    let sum : index ≡ length (bytes c) + rest =
      omega (arith, place.at, length-append (bytes c) (contents_of (take chain cs))) in
    byte_in-contents cs rest chain x v.1 (record { at = refl; within = place.within })
    ∙ sym (get_elem?-append_ge rest (bytes c) (contents_of cs))
    ∙ ap (get_elem? (contents_of (c ∷ cs))) (sym sum)

pub getchr-contents :
    (buf : Evbuffer) (it : EvbufferPtr) (index : ℕ)
    → IsChains buf.chains
    → IsPlace buf.chains index it.chain it.pos_in_chain
    → evbuffer_getchr buf it ≡ get_elem? (contents_of buf.chains) index
unfolding evbuffer_getchr
getchr-contents buf it index v place =
    byte_in-contents buf.chains index it.chain it.pos_in_chain v place

-- The bytes from a place on.
pub place-drop :
    (cs : List Chain) (index chain x : ℕ)
    → IsPlace cs index chain x
    → drop index (contents_of cs) ≡ drop x (contents_of (drop chain cs))
place-drop cs index chain x place =
    let before = contents_of (take chain cs) in
    let behind = contents_of (drop chain cs) in
    let parts : contents_of cs ≡ before ++ behind =
      ap contents_of (sym (take-append-drop chain cs))
      ∙ contents-append (take chain cs) (drop chain cs) in
    let left : index - length before ≡ x = omega (arith, place.at) in
    ap (drop index) parts
    ∙ drop-append_ge index before behind (omega (arith, place.at))
    ∙ ap (λ n. drop n behind) left

-- evbuffer_ptr_set finds the place of an index.
pub walk-IsPlace :
    (cs : List Chain) (first left pos : ℕ)
    → IsChains cs
    → left < length (contents_of cs)
    → (it : EvbufferPtr) × (chain : ℕ) × (walk cs first left pos ≡ some it)
      × (it.pos ≡ pos)
      × (it.chain ≡ first + chain)
      × IsPlace cs left chain it.pos_in_chain
walk-IsPlace [] first left pos v h = absurd (omega arith)
walk-IsPlace (c ∷ cs) first left pos v h =
    let size = length-bytes c v.0 in
    let sum = length-append (bytes c) (contents_of cs) in
    elim (Bool-cases (leb c.off left)) [
      | inr here ↦ (
        record { pos = pos; chain = first; pos_in_chain = left },
        0,
        if_false _ _ _ here,
        refl,
        omega arith,
        record { at = omega arith; within = ground (arith, here) },
      )
      | inl later ↦
          let passed : c.off ≤ left = ground (arith, later) in
          let (it, chain, walked, same, number, place) =
            walk-IsPlace cs (suc first) (left - c.off) pos v.1
              (omega (arith, h, size, sum, passed)) in
          (
            it,
            suc chain,
            if_true _ _ _ later ∙ walked,
            same,
            omega (arith, number),
            record {
              at = omega (
                arith,
                place.at,
                passed,
                size,
                length-append (bytes c) (contents_of (take chain cs)),
              );
              within = place.within;
            },
          )
    ]

-- evbuffer_strspn counts over the bytes from a place on.
length-span : (p : ℕ → Bool) (s : Bytes) → span p s ≤ length s
length-span p [] = omega arith
length-span p (c ∷ s) = ground (arith, length-span p s)

span-append :
    (p : ℕ → Bool) (xs ys : Bytes)
    → span p (xs ++ ys) ≡ (if ltb (span p xs) (length xs) then span p xs else span p xs + span p ys)
span-append p [] ys = ground arith
span-append p (c ∷ xs) ys = ground (arith, span-append p xs ys, length-span p xs)

pub strspn-span :
    (p : ℕ → Bool) (cs : List Chain) (i : ℕ)
    → IsChains cs
    → i ≤ off_at cs 0
    → strspn_chains p cs i ≡ span p (drop i (contents_of cs))
strspn-span p [] i v h = ap (span p) (sym (drop_all i [] (omega arith)))
strspn-span p (c ∷ cs) i v h =
    let size = length-bytes c v.0 in
    let left = length-drop i (bytes c) in
    let xs = drop i (bytes c) in
    let split = drop-append_le i (bytes c) (contents_of cs) (omega (arith, size, h)) in
    let rest = strspn-span p cs 0 v.1 (omega arith) in
    let n = span p xs in
    let whole = ap (span p) split ∙ span-append p xs (contents_of cs) in
    elim (Bool-cases (ltb (i + n) c.off)) [
      | inl stops ↦
          let stops' : i + n < c.off = ground (arith, stops) in
          let inside : n < length xs = omega (arith, left, size, stops') in
          let test : ltb n (length xs) ≡ true = ground (arith, inside) in
          if_true _ _ _ stops ∙ sym (whole ∙ if_true _ _ _ test)
      | inr goes_on ↦
          let goes_on' : c.off ≤ i + n = ground (arith, goes_on) in
          let outside : length xs ≤ n = omega (arith, left, size, goes_on') in
          let test : ltb n (length xs) ≡ false = ground (arith, outside) in
          if_false _ _ _ goes_on ∙ ap (λ m. n + m) rest ∙ sym (whole ∙ if_false _ _ _ test)
    ]
