-- ===== src/Evdns/Wire.antt =====
-- Names in a packet as RFC 1035 describes them, independently of evdns.c: labels behind their
-- lengths, a zero byte, and pointers to other names.
use libevent_linux.Prelude.{
  ℕ, suc, ◌+◌, ◌*◌, ◌%◌, ◌≤◌, ◌<◌, ◌≡◌, ap, ◌∙◌, List, [], ◌∷◌, ◌++◌, length, drop, length-append,
  length-drop, arith,
}
use mathlib.Core.List.{append_assoc}
use libevent_linux.Prelude.Slices.{drop-append_le}
use libevent_linux.Evdns.Names.{Text}

-- At a position of the packet, the labels of a name; the number of pointers that are followed, and
-- the position behind the name.
pub data IsName (packet : Text) : ℕ → List Text → ℕ → ℕ → Type 0 where
  root : (pos : ℕ) (rest : Text) → drop pos packet ≡ 0 ∷ rest → IsName packet pos [] 0 (pos + 1)
  label :
      (pos : ℕ) (l rest : Text) (ls : List Text) (h next : ℕ)
      → drop pos packet ≡ length l ∷ (l ++ rest)
      → 0 < length l
      → length l ≤ 63
      → IsName packet (pos + 1 + length l) ls h next
      → IsName packet pos (l ∷ ls) h next
  pointer :
      (pos high low : ℕ) (rest : Text) (ls : List Text) (h next : ℕ)
      → drop pos packet ≡ high ∷ low ∷ rest
      → 192 ≤ high
      → IsName packet (high % 64 * 256 + low) ls h next
      → IsName packet pos ls (suc h) (pos + 2)

-- The labels with a dot before each.
abbrev pub dots : List Text → Text
dots [] = []
dots (l ∷ ls) = 46 ∷ (l ++ dots ls)

-- A name is its labels with dots between them.
abbrev pub join : List Text → Text
join [] = []
join (l ∷ ls) = l ++ dots ls

-- A position with bytes behind it is in the packet.
pub within :
    (packet : Text) (pos c : ℕ) (rest : Text) → drop pos packet ≡ c ∷ rest → pos < length packet
within packet pos c rest h = omega (arith, ap length h, length-drop pos packet)

drop-more :
    (packet more : Text) (pos c : ℕ) (rest : Text)
    → drop pos packet ≡ c ∷ rest
    → drop pos (packet ++ more) ≡ c ∷ (rest ++ more)
drop-more packet more pos c rest at =
    drop-append_le pos packet more (omega (arith, within packet pos c rest at))
    ∙ ap (λ xs. xs ++ more) at

-- More bytes behind a packet change no name.
pub IsName-append :
    (packet more : Text) (pos : ℕ) (ls : List Text) (h next : ℕ)
    → IsName packet pos ls h next
    → IsName (packet ++ more) pos ls h next
IsName-append packet more _ _ _ _ (root pos rest at) =
    root pos (rest ++ more) (drop-more packet more pos 0 rest at)
IsName-append packet more _ _ _ _ (label pos l rest ls h next at some_bytes short inner) =
    label pos l (rest ++ more) ls h next
      (drop-more packet more pos (length l) (l ++ rest) at
        ∙ ap (λ xs. length l ∷ xs) (append_assoc l rest more))
      some_bytes short (IsName-append packet more (pos + 1 + length l) ls h next inner)
IsName-append packet more _ _ _ _ (pointer pos high low rest ls h next at high_bits inner) =
    pointer pos high low (rest ++ more) ls h next (drop-more packet more pos high (low ∷ rest) at)
      high_bits (IsName-append packet more (high % 64 * 256 + low) ls h next inner)

-- A name starts in the packet.
pub IsName-within :
    (packet : Text) (pos : ℕ) (ls : List Text) (h next : ℕ)
    → IsName packet pos ls h next
    → pos < length packet
IsName-within packet _ _ _ _ (root pos rest at) = within packet pos 0 rest at
IsName-within packet _ _ _ _ (label pos l rest ls h next at some_bytes short inner) =
    within packet pos (length l) (l ++ rest) at
IsName-within packet _ _ _ _ (pointer pos high low rest ls h next at high_bits inner) =
    within packet pos high (low ∷ rest) at

-- There are no empty labels, so that a name is at least as long as it has labels.
pub IsName-length :
    (packet : Text) (pos : ℕ) (ls : List Text) (h next : ℕ)
    → IsName packet pos ls h next
    → length ls ≤ length (dots ls)
IsName-length packet _ _ _ _ (root pos rest at) = omega arith
IsName-length packet _ _ _ _ (label pos l rest ls h next at some_bytes short inner) =
    omega
      (arith, IsName-length packet (pos + 1 + length l) ls h next inner, length-append l (dots ls))
IsName-length packet _ _ _ _ (pointer pos high low rest ls h next at high_bits inner) =
    IsName-length packet (high % 64 * 256 + low) ls h next inner

pub IsName-first :
    (packet : Text) (pos : ℕ) (l : Text) (ls : List Text) (h next : ℕ)
    → IsName packet pos (l ∷ ls) h next
    → 0 < length l
IsName-first packet _ _ _ _ _ (label pos l rest ls h next at some_bytes short inner) = some_bytes
IsName-first packet _ l ls _ _ (pointer pos high low rest _ h next at high_bits inner) =
    IsName-first packet (high % 64 * 256 + low) l ls h next inner
