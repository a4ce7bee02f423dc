-- ===== src/Evdns/Labels.antt =====
-- dnsname_to_labels of evdns.c, with the table of names that it uses for compression. The buffer is
-- the list of the bytes before `j`; a name is a list of bytes without NUL, and the table a list of
-- names with their positions, in the order of its array.
use libevent_linux.Prelude.{
  ℕ, zero, suc, ◌+◌, ◌*◌, ◌/◌, ◌%◌, ◌^◌, Bool, true, false, ◌&&◌, Option, none, some, List, [], ◌∷◌,
  ◌++◌, length, ltb, ◌==◌, if◌then◌else◌, bit_or,
}
use libevent_linux.Evdns.Names.{Text}

abbrev pub Table : Type 0
Table = List (Text × ℕ)

-- `! strcmp (a, b)`.
abbrev pub is_same : Text → Text → Bool
is_same [] [] = true
is_same [] (d ∷ b) = false
is_same (c ∷ a) [] = false
is_same (c ∷ a) (d ∷ b) = c == d && is_same a b

unfoldable pub dnslabel_table_get_pos : Table → Text → Option ℕ
dnslabel_table_get_pos [] label = none
dnslabel_table_get_pos ((v, pos) ∷ table) label =
    let rest = dnslabel_table_get_pos table label in if is_same label v then some pos else rest

-- MAX_LABELS is 128; `memory` is the answer of mm_strdup. The result of the function is not used.
unfoldable pub dnslabel_table_add : Table → Text → ℕ → Bool → Table
dnslabel_table_add table label pos memory =
    if ltb (length table) 128 && memory then table ++ (label, pos) ∷ [] else table

-- `strchr (name, '.')`: what is before the dot and what is behind it.
abbrev pub split_dot : Text → Text × Option Text
split_dot [] = ([], none)
split_dot (c ∷ name) =
    let (label, rest) = split_dot name in if c == 46 then ([], some name) else (c ∷ label, rest)

-- The results -1 and -2, and an index: with the bytes that the call leaves in the buffer, those
-- that it wrote before an error too, and the table.
pub data Labels : Type 0 where
  label_too_long : Text → Option Table → Labels
  no_room : Text → Option Table → Labels
  encoded : Text → Option Table → Labels

-- APPEND16 (ref | 0xc000).
abbrev pub append_pointer : Text → ℕ → Text
append_pointer buf ref = let x = bit_or ref (3 * 2 ^ 14) in buf ++ x / 256 % 256 ∷ x % 256 ∷ []

abbrev pub last_is_zero : Text → Bool
last_is_zero [] = false
last_is_zero (c ∷ []) = c == 0
last_is_zero (c ∷ d ∷ buf) = last_is_zero (d ∷ buf)

-- `if (!j || buf[j-1]) buf[j++] = 0`, without a look at the size of the buffer.
abbrev pub terminate : Text → Text
terminate buf = if last_is_zero buf then buf else buf ++ 0 ∷ []

-- Looking up a name, if there is a table.
abbrev pub find : Option Table → Text → Option ℕ
find none name = none
find (some table) name = dnslabel_table_get_pos table name

abbrev pub remember : Option Table → Text → ℕ → Bool → Option Table
remember none name pos memory = none
remember (some table) name pos memory = some (dnslabel_table_add table name pos memory)

module _ (buf_len : ℕ) (memory : Bool) where
  -- The loop over the labels; `none` means that the fuel ran out.
  unfoldable pub labels_loop : ℕ → Text → Text → Option Table → Option Labels
  unfolding dnslabel_table_get_pos dnslabel_table_add
  labels_loop zero buf name table = none
  labels_loop (suc fuel) buf name table = elim (find table name) [
    | some ref ↦
        if ltb buf_len (length buf + 2)
        then some (no_room buf table)
        else some (encoded (append_pointer buf ref) table)
    | none ↦
        let (label, next) = split_dot name in
        let table' = remember table name (length buf) memory in
        let buf' = buf ++ length label ∷ label in
        let rest : Option Labels = elim next [
          | none ↦ some (encoded (terminate buf') table')
          | some name' ↦ labels_loop fuel buf' name' table'
        ] in
        if ltb 63 (length label)
        then some (label_too_long buf table)
        else if ltb buf_len (length buf + length label + 1)
        then some (no_room buf table)
        else rest
  ]

  -- A label is shorter than the rest of the name by its dot, so that the length of the name bounds
  -- the number of rounds.
  unfoldable pub dnsname_to_labels : Text → Text → Option Table → Option Labels
  unfolding labels_loop
  dnsname_to_labels buf name table =
      if ltb 255 (length name)
      then some (no_room buf table)
      else labels_loop (length name + 1) buf name table
