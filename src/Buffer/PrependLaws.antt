-- ===== src/Buffer/PrependLaws.antt =====
-- evbuffer_prepend of buffer.c, as an operation on the bytes that a buffer represents.
use mathlib.Core.List.{append_assoc, append-nil}
use libevent_linux.Prelude.{
  ℕ, zero, suc, ◌+◌, ◌-◌, ◌^◌, ◌≤◌, ◌<◌, ◌≡◌, refl, sym, ap, ap₂, ◌∙◌, Bool, true, false, ◌&&◌,
  ◌||◌, some, List, [], ◌∷◌, ◌++◌, length, get_elem?, take, drop, length-append, take-append-drop,
  length-take, length-drop, ltb, leb, ◌==◌, if◌then◌else◌, if_elim, Option_elim, Option-cases, inl,
  inr, arith,
}
use libevent_linux.Prelude.Slices.{drop_all}
use libevent_linux.Buffer.Chain.{Bytes, Chain, bytes, evbuffer_chain_new, put_start}
use libevent_linux.Buffer.ChainLaws.{
  IsChain, IsFresh, put_start-bytes, put_start-IsChain, chain_new-IsFresh,
}
use libevent_linux.Buffer.State.{Evbuffer, contents_of, evbuffer_chain_insert}
use libevent_linux.Buffer.Invariant.{
  AllEmpty, EmptyAfter, off_at, Stores, Represents, invoke_elim, behind-update, full-update,
  no_chains, AllEmpty-bytes, get_elem?-none,
}
use libevent_linux.Buffer.Add.{grown, update, at_end, prepend_chain, prepend_to, evbuffer_prepend}
use libevent_linux.Buffer.AddLaws.{insert-first, insert-empty}

-- What a call represents that fails with no change.
Puts : Bytes → Bytes → Bool × Evbuffer → Type 0
Puts bs d r = Represents r.1 (if r.0 then d ++ bs else bs)

-- What the result represents: of a call that fails, a part of the data may be there already.
abbrev pub Prepends : Bytes → Bytes → Bool × Evbuffer → Type 0
Prepends bs d r = (k : ℕ) × (Represents r.1 (drop k d ++ bs) × (r.0 ≡ true → k ≡ 0))

at_end-IsChain : (c : Chain) → IsChain c → IsChain (at_end c)
at_end-IsChain c v =
    if_elim IsChain (c.off == 0)
      (λ e.
        let e' : c.off ≡ 0 = ground arith in
        record { within = omega arith; bounded = v.bounded; sized = v.sized })
      (λ _. v)

at_end-bytes : (c : Chain) → bytes (at_end c) ≡ bytes c
at_end-bytes c =
    if_elim (λ x. bytes x ≡ bytes c) (c.off == 0)
      (λ e.
        let e' : c.off ≡ 0 = ground arith in
        let empty : (m : ℕ) → take c.off (drop m c.buffer) ≡ [] = λ m. rw e' refl in
        empty c.buffer_len ∙ sym (empty c.misalign))
      (λ _. refl)

at_end-off : (c : Chain) → (at_end c).off ≡ c.off
at_end-off c = if_elim (λ (x : Chain). x.off ≡ c.off) (c.off == 0) (λ _. refl) (λ _. refl)

module _ (c : Chain) (cs : List Chain) where
  behind-first : (last : ℕ) → last ≡ 0 → EmptyAfter last (c ∷ cs) → AllEmpty cs
  behind-first zero e h = h
  behind-first (suc last) e h = absurd (omega arith)

  full-first :
      (last : ℕ)
      → (0 < last → 0 < off_at (c ∷ cs) last)
      → (last == 0 && c.off == 0) ≡ false
      → 0 < off_at (c ∷ cs) last
  full-first zero full e = ground arith
  full-first (suc last) full e = full (omega arith)

-- A change of the first chain that puts bytes before its own.
update-first :
    (f : Chain → Chain) (d bs : Bytes) (c : Chain) (cs : List Chain) (last n k : ℕ)
    → Stores bs (c ∷ cs) last n
    → length d ≡ k
    → IsChain (f c)
    → bytes (f c) ≡ d ++ bytes c
    → c.off ≤ (f c).off
    → length d + length bs < 2 ^ 64
    → Stores (d ++ bs) (f c ∷ cs) last (n + k)
update-first f d bs c cs last n k s size v more larger fits =
    let total = length-append d bs in
    record {
      valid = (v, s.valid.1);
      behind = behind-update c cs (f c) last s.behind;
      full = full-update c cs (f c) last s.full;
      held =
          ap (λ z. z ++ contents_of cs) more
          ∙ append_assoc d (bytes c) (contents_of cs)
          ∙ ap (◌++◌ d) s.held;
      counted = omega (arith, total, size, s.counted);
      small = omega (arith, total, fits);
    }

-- A new first chain.
new_first :
    (d bs : Bytes) (x c : Chain) (cs : List Chain) (last n : ℕ)
    → Stores bs (c ∷ cs) last n
    → IsChain x
    → bytes x ≡ d
    → length d + length bs < 2 ^ 64
    → Stores (d ++ bs) (x ∷ c ∷ cs) (if last == 0 && c.off == 0 then 0 else suc last) (n + length d)
new_first d bs x c cs last n s v holds fits =
    let total = length-append d bs in
    let stores : (i : ℕ)
        → EmptyAfter i (x ∷ c ∷ cs)
        → (0 < i → 0 < off_at (x ∷ c ∷ cs) i)
        → Stores (d ++ bs) (x ∷ c ∷ cs) i (n + length d) =
      λ i behind full. record {
        valid = (v, s.valid);
        behind = behind;
        full = full;
        held = ap₂ ◌++◌ holds s.held;
        counted = omega (arith, total, s.counted);
        small = omega (arith, total, fits);
      } in
    if_elim (λ i. Stores (d ++ bs) (x ∷ c ∷ cs) i (n + length d)) (last == 0 && c.off == 0)
      (λ e.
        let z : last ≡ 0 = ground arith in
        stores 0 (ground arith, behind-first c cs last z s.behind) (λ h. absurd (omega arith)))
      (λ e. stores (suc last) s.behind (λ _. full-first c cs last s.full e))

get_elem?-first :
    (cs : List Chain) (c : Chain) → get_elem? cs 0 ≡ some c → (rest : List Chain) × (cs ≡ c ∷ rest)
get_elem?-first [] c e = cc
get_elem?-first (x ∷ cs) c e = let same : x ≡ c = cc in (cs, ap (λ y. y ∷ cs) same)

module _ (buf : Evbuffer) (bs : Bytes) (s : Represents buf bs) (c : Chain)
    (here : get_elem? buf.chains 0 ≡ some c) (d : Bytes)
    (fits : length d + length bs < 2 ^ 64) where
  prepend_chain-Puts : (memory : Bool) → Puts bs d (prepend_chain buf c d memory)
  unfolding prepend_chain Puts
  prepend_chain-Puts memory =
      let (rest, e) = get_elem?-first buf.chains c here in
      let s' : Stores bs (c ∷ rest) buf.last_with_datap buf.total_len = rw (sym e) s in
      Option_elim (IsFresh (length d)) (Puts bs d) (evbuffer_chain_new (length d) memory)
        (chain_new-IsFresh _ memory) s
        (λ tmp new.
          let x : Chain = record tmp { misalign = tmp.buffer_len } in
          let v : IsChain x = record {
            within = omega (arith, new.empty);
            bounded = new.valid.bounded;
            sized = new.valid.sized;
          } in
          let filled = put_start d x in
          let w = put_start-IsChain x d v new.room in
          let more : bytes filled ≡ d =
            put_start-bytes x d v new.room
            ∙ ap (◌++◌ d) (AllEmpty-bytes x new.empty)
            ∙ append-nil d in
          invoke_elim (Stores (d ++ bs)) _
            (rw e (new_first d bs filled c rest buf.last_with_datap buf.total_len s' w more fits)))

-- A part of the data is there already.
rest-Prepends :
    (bs d : Bytes) (k : ℕ) (r : Bool × Evbuffer)
    → Puts (drop k d ++ bs) (take k d) r
    → Prepends bs d r
unfolding Puts
rest-Prepends bs d k (true, b) h =
    let e : take k d ++ (drop k d ++ bs) ≡ d ++ bs =
      sym (append_assoc (take k d) (drop k d) bs) ∙ ap (λ z. z ++ bs) (take-append-drop k d) in
    (0, (rw (sym e) h, λ _. refl))
rest-Prepends bs d k (false, b) h = (k, (h, λ e. cc))

Puts-Prepends : (bs d : Bytes) (r : Bool × Evbuffer) → Puts bs d r → Prepends bs d r
unfolding Puts
Puts-Prepends bs d (true, b) h = (0, (h, λ _. refl))
Puts-Prepends bs d (false, b) h =
    let e = drop_all (length d) d (omega arith) in (length d, (rw e h, λ e. cc))

prepend_to-Prepends :
    (buf : Evbuffer) (bs : Bytes) (c : Chain) (d : Bytes) (memory : Bool)
    → Represents buf bs
    → get_elem? buf.chains 0 ≡ some c
    → length d + length bs < 2 ^ 64
    → Prepends bs d (prepend_to buf c d memory)
unfolding prepend_to
prepend_to-Prepends buf bs c d memory s here fits =
    let (rest, e) = get_elem?-first buf.chains c here in
    let last = buf.last_with_datap in
    let s' : Stores bs (c ∷ rest) last buf.total_len = rw (sym e) s in
    let v = at_end-IsChain c s'.valid.0 in
    let off = at_end-off c in
    let free = (at_end c).misalign in
    let kept = length d - free in
    let put : (x : Bytes) (k : ℕ)
        → length x ≡ k
        → k ≤ free
        → length x + length bs < 2 ^ 64
        → Represents (grown (update buf 0 (λ c. put_start x (at_end c))) k) (x ++ bs) =
      λ x k size room small.
        let room' : length x ≤ free = omega (arith, size, room) in
        rw e (
          update-first (λ c. put_start x (at_end c)) x bs c rest last buf.total_len k s' size
            (put_start-IsChain (at_end c) x v room')
            (put_start-bytes (at_end c) x v room' ∙ ap (◌++◌ x) (at_end-bytes c))
            (omega (arith, off)) small) in
    if_elim (Prepends bs d) c.immutable
      (λ _. Puts-Prepends bs d _ (prepend_chain-Puts buf bs s c here d fits memory))
      (λ _.
        if_elim (Prepends bs d) (leb (length d) free)
          (λ room. (
            0,
            (
              invoke_elim (Stores (d ++ bs)) _ (put d (length d) refl (ground arith) fits),
              λ _. refl,
            ),
          ))
          (λ out.
            let less : free < length d = ground arith in
            let x = drop kept d in
            let size : length x ≡ free = omega (arith, length-drop kept d, less) in
            let size' : length (take kept d) ≡ kept = omega (arith, length-take kept d, less) in
            let total = length-append x bs in
            let first = λ (c : Chain). put_start x (at_end c) in
            rest-Prepends bs d kept _ (
              prepend_chain-Puts (grown (update buf 0 first) free) (x ++ bs)
                (put x free size (omega arith) (omega (arith, size, less, fits))) (first c)
                (rw e refl) (take kept d) (omega (arith, total, size, size', less, fits)) memory)))

-- evbuffer_prepend refines the concatenation of lists of bytes. A buffer that represents some bytes
-- represents them with the data before them when the call succeeds; when it fails, with the last
-- part of the data before them, which may be none of it.
pub prepend-Represents :
    (buf : Evbuffer) (bs : Bytes) (d : Bytes) (memory memory' : Bool)
    → Represents buf bs
    → Prepends bs d (evbuffer_prepend buf d memory memory')
unfolding evbuffer_prepend Puts
prepend-Represents buf bs d memory memory' s =
    let failed : Prepends bs d (false, buf) = Puts-Prepends bs d (false, buf) s in
    if_elim (Prepends bs d) (length d == 0)
      (λ e. let nothing : d ≡ [] = drop_all 0 d (ground arith) in (0, (rw nothing s, λ _. refl)))
      (λ _.
        if_elim (Prepends bs d) (buf.freeze_start || ltb (2 ^ 64 - 1 - buf.total_len) (length d))
          (λ _. failed)
          (λ free.
            let fits : length d + length bs < 2 ^ 64 = ground (arith, s.counted) in
            elim (Option-cases (get_elem? buf.chains 0)) [
              | inl e ↦ rw e (
                  Option_elim (IsFresh (length d)) (Prepends bs d)
                    (evbuffer_chain_new (length d) memory) (chain_new-IsFresh _ memory) failed
                    (λ chain new.
                      let none_left : length buf.chains ≤ buf.last_with_datap =
                        omega (arith, get_elem?-none buf.chains 0 e) in
                      prepend_to-Prepends (evbuffer_chain_insert buf chain) bs chain d memory'
                        (insert-empty buf bs chain s new)
                        (insert-first buf chain none_left (no_chains buf.chains s none_left).0).0
                        fits))
              | inr (chain, e) ↦ rw e (prepend_to-Prepends buf bs chain d memory' s e fits)
            ]))
