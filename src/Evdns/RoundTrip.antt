-- ===== src/Evdns/RoundTrip.antt =====
-- What dnsname_to_labels of evdns.c writes is what name_parse reads.
use libevent_linux.Prelude.{
  ℕ, ◌+◌, ◌^◌, ◌≤◌, ◌<◌, ◌≡◌, sym, ap, ◌∙◌, Bool, Option, none, some, List, ◌∷◌, ◌++◌, length, ltb,
  length-append, ◌⊎◌, inl, inr, arith, false,
}
use mathlib.Core.Path.{subst}
use libevent_linux.Evdns.Names.{Text, name_parse}
use libevent_linux.Evdns.Labels.{
  Table, Labels, label_too_long, no_room, encoded, labels_loop, dnsname_to_labels,
}
use libevent_linux.Evdns.Wire.{IsName, join, IsName-append, IsName-within}
use libevent_linux.Evdns.ReadLaws.{name_parse-reads}
use libevent_linux.Evdns.TableLaws.{Entries, Entries-map}
use libevent_linux.Evdns.Endings.{AreLabels, Known}
use libevent_linux.Evdns.LabelLaws.{Written, labels_loop-Written}

-- A table for a buffer: each entry is the position of its name, with fewer pointers than bytes.
abbrev pub IsTable : Text → Option Table → Type 0
IsTable buf table = Entries (Known buf (length buf)) table

-- What the result means for a reader of the packet, whatever follows in it.
abbrev pub Readable : ℕ → Text → Text → Option Labels → Type 0
Readable buf_len buf name none = ⊥
Readable buf_len buf name (some (label_too_long written table)) = ⊥
Readable buf_len buf name (some (no_room written table)) = buf_len < length buf + length name + 1
Readable buf_len buf name (some (encoded packet table)) =
    ((post : Text) (name_out_len : ℕ)
      → length name < name_out_len
      → name_parse (packet ++ post) name_out_len (length buf) ≡ some (some (name, length packet)))
    × IsTable packet table

Written-Readable :
    (buf_len : ℕ) (buf name : Text) (r : Option Labels)
    → Written buf_len buf name (length buf + 1) (Known buf (length buf)) r
    → Readable buf_len buf name r
Written-Readable buf_len buf name none w = w
Written-Readable buf_len buf name (some (label_too_long written table)) w = w
Written-Readable buf_len buf name (some (no_room written table)) w = w
Written-Readable buf_len buf name (some (encoded packet table))
      ((more, grown), (ls, h, same, few, is), entries) =
    (
      (λ post name_out_len room.
          let size = length-append packet post in
          name_parse-reads (packet ++ post) name_out_len (length buf) ls h (length packet)
            (IsName-append packet post (length buf) ls h (length packet) is)
            (omega (arith, few, inside, size)) (omega (arith, room, ap (λ xs. length xs) same))
          ∙ ap (λ xs. some (some (xs, length packet))) (sym same)),
      Entries-map _ (Known packet (length packet)) table known entries,
    )
  where
    inside : length buf < length packet
    inside = IsName-within packet (length buf) ls h (length packet) is

    known :
        (v : Text) (pos : ℕ)
        → Known buf (length buf) v pos ⊎ Known packet (length buf + 1) v pos
        → Known packet (length packet) v pos
    known v pos (inl (ls', h', next, same', few', is')) = (
      ls',
      h',
      next,
      same',
      omega (arith, few', inside),
      subst (λ p. IsName p pos ls' h' next) (sym grown)
          (IsName-append buf more pos ls' h' next is'),
    )
    known v pos (inr (ls', h', next, same', few', is')) =
        (ls', h', next, same', omega (arith, few', inside), is')

-- Of a name of labels of 1 to 63 bytes, 255 bytes at most, in a buffer of at most 16 kB,
-- dnsname_to_labels writes what name_parse reads back, up to its end, whatever follows in the
-- packet; or it says that there is no room, and then there is less than the length of the name and
-- one more byte. The table may hold names that were written before, or there may be none: names
-- that are compressed by pointers to them are read back too, and the new table is again right.
pub name_parse-dnsname_to_labels :
    (buf_len : ℕ) (memory : Bool) (buf l : Text) (ls : List Text) (table : Option Table)
    → buf_len ≤ 2 ^ 14
    → length buf ≤ buf_len
    → AreLabels (l ∷ ls)
    → length (join (l ∷ ls)) ≤ 255
    → IsTable buf table
    → Readable buf_len buf
        (join (l ∷ ls))
        (dnsname_to_labels buf_len memory buf (join (l ∷ ls)) table)
unfolding dnsname_to_labels
name_parse-dnsname_to_labels buf_len memory buf l ls table small room good short valid =
    let name = join (l ∷ ls) in
    let fits : ltb 255 (length name) ≡ false = ground arith in
    rw fits (
      Written-Readable buf_len buf name
        (labels_loop buf_len memory (length name + 1) buf name table)
        (labels_loop-Written buf_len memory small (length name + 1) (length buf) buf l ls table
          (Known buf (length buf)) good room (omega arith) valid (λ v pos old short'. old)))
