-- ===== src/Evdns/Endings.antt =====
-- The pieces that dnsname_to_labels of evdns.c writes: labels, a zero byte, and pointers.
use libevent_linux.Prelude.{
  ℕ, suc, ◌+◌, ◌*◌, ◌/◌, ◌%◌, ◌^◌, ◌≤◌, ◌<◌, ◌≡◌, refl, sym, ap, ◌∙◌, true, List, [], ◌∷◌, ◌++◌,
  length, drop, length-append, drop-append, bit_or, arith,
}
use libevent_linux.Prelude.Bits.{bit_or_low}
use mathlib.Core.List.{append_assoc}
use mathlib.Core.Path.{subst}
use libevent_linux.Evdns.Names.{Text}
use libevent_linux.Evdns.Labels.{append_pointer}
use libevent_linux.Evdns.Wire.{IsName, root, label, pointer, join, IsName-append, IsName-within}
use libevent_linux.Evdns.TableLaws.{is_plain}

-- Labels of 1 to 63 bytes without dots and NULs.
abbrev pub AreLabels : List Text → Type 0
AreLabels [] = Unit {0}
AreLabels (l ∷ ls) = (0 < length l) × (length l ≤ 63) × (is_plain l ≡ true) × AreLabels ls

-- The packet has the name at the position, with fewer pointers than the limit.
abbrev pub Known : Text → ℕ → Text → ℕ → Type 0
Known packet limit name pos =
    (ls : List Text) × (h : ℕ) × (next : ℕ) × (name ≡ join ls)
    × (h < limit)
    × IsName packet pos ls h next

pub Known-append :
    (packet more : Text) (limit pos : ℕ) (name : Text)
    → Known packet limit name pos
    → Known (packet ++ more) limit name pos
Known-append packet more limit pos name (ls, h, next, same, few, is) =
    (ls, h, next, same, few, IsName-append packet more pos ls h next is)

-- The bytes behind a buffer.
drop-behind : (buf more : Text) → drop (length buf) (buf ++ more) ≡ more
drop-behind buf more = drop-append buf more

-- The name at the end of the buffer, up to its new end.
abbrev pub Ends : Text → ℕ → Text → ℕ → Type 0
Ends packet limit name pos =
    (ls : List Text) × (h : ℕ) × (name ≡ join ls)
    × (h < limit)
    × IsName packet pos ls h (length packet)

pub pointer-Ends :
    (buf name : Text) (limit ref : ℕ)
    → length buf ≤ 2 ^ 14
    → Known buf limit name ref
    → Ends (append_pointer buf ref) (limit + 1) name (length buf)
pointer-Ends buf name limit ref small (ls, h, next, same, few, is) = (
  ls,
  suc h,
  same,
  omega (arith, few),
  subst (IsName (buf ++ high ∷ low ∷ []) _ ls (suc h)) end at,
)
  where
    x : ℕ
    x = bit_or ref (3 * 2 ^ 14)

    high : ℕ
    high = x / 256 % 256

    low : ℕ
    low = x % 256

    value : x ≡ 3 * 2 ^ 14 + ref
    value = bit_or_low 14 ref 3 (omega (arith, IsName-within buf ref ls h next is))

    target : high % 64 * 256 + low ≡ ref
    target = omega (arith, value, IsName-within buf ref ls h next is)

    end : length buf + 2 ≡ length (buf ++ high ∷ low ∷ [])
    end = omega (arith, length-append buf (high ∷ low ∷ []))

    at : IsName (buf ++ high ∷ low ∷ []) (length buf) ls (suc h) (length buf + 2)
    at =
        pointer (length buf) high low [] ls h next (drop-behind buf (high ∷ low ∷ []))
          (omega (arith, value, IsName-within buf ref ls h next is))
          (IsName-append buf (high ∷ low ∷ []) _ ls h next
            (subst (λ p. IsName buf p ls h next) (sym target) is))

-- A label in front of the rest of the name.
pub label-Ends :
    (buf l more name : Text) (limit : ℕ)
    → 0 < length l
    → length l ≤ 63
    → let packet = (buf ++ length l ∷ l) ++ more in
      (ls : List Text) (h : ℕ)
      → name ≡ join (l ∷ ls)
      → h < limit
      → IsName packet (length (buf ++ length l ∷ l)) ls h (length packet)
      → Ends packet limit name (length buf)
label-Ends buf l more name limit some_bytes short ls h same few is =
    (l ∷ ls, h, same, few, label (length buf) l more ls h _ at some_bytes short inner)
  where
    packet : Text
    packet = (buf ++ length l ∷ l) ++ more

    at : drop (length buf) packet ≡ length l ∷ (l ++ more)
    at =
        ap (drop (length buf)) (append_assoc buf (length l ∷ l) more)
        ∙ drop-behind buf (length l ∷ (l ++ more))

    inner : IsName packet (length buf + 1 + length l) ls h (length packet)
    inner =
        subst (λ p. IsName packet p ls h (length packet))
          (omega (arith, length-append buf (length l ∷ l))) is

-- The last label, with the zero byte behind it.
pub last-Ends :
    (buf l : Text) (limit : ℕ)
    → 0 < length l
    → length l ≤ 63
    → 0 < limit
    → Ends ((buf ++ length l ∷ l) ++ 0 ∷ []) limit (join (l ∷ [])) (length buf)
last-Ends buf l limit some_bytes short below =
    label-Ends buf l (0 ∷ []) (join (l ∷ [])) limit some_bytes short [] 0 refl below (
      subst (IsName packet (length buf') [] 0) (omega (arith, length-append buf' (0 ∷ [])))
        (root (length buf') [] (drop-behind buf' (0 ∷ []))))
  where
    buf' : Text
    buf' = buf ++ length l ∷ l

    packet : Text
    packet = buf' ++ 0 ∷ []
