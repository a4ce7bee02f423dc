-- ===== src/Evdns/TableLaws.antt =====
-- The table of dnsname_to_labels in evdns.c, and the pieces of a name.
use libevent_linux.Prelude.{
  ℕ, ◌<◌, ◌≡◌, refl, sym, ap₂, ◌∙◌, Bool, true, false, not, ◌&&◌, Option, none, some, [], ◌∷◌, ◌++◌,
  length, ltb, ◌==◌, if_elim, Bool-cases, inl, inr, arith,
}
use mathlib.Core.Option.{some-injective, some-ne-none}
use mathlib.Core.Path.{subst}
use libevent_linux.Evdns.Names.{Text}
use libevent_linux.Evdns.Labels.{
  Table, is_same, dnslabel_table_get_pos, dnslabel_table_add, split_dot, last_is_zero, find,
  remember,
}

-- Bytes of a label: no dot and no NUL.
abbrev pub is_plain : Text → Bool
is_plain [] = true
is_plain (c ∷ l) = not (c == 46) && not (c == 0) && is_plain l

abbrev pub AllEntries : (Text → ℕ → Type 0) → Table → Type 0
AllEntries P [] = Unit {0}
AllEntries P ((v, pos) ∷ table) = P v pos × AllEntries P table

-- The entries of a table, if there is one.
abbrev pub Entries : (Text → ℕ → Type 0) → Option Table → Type 0
Entries P none = Unit {0}
Entries P (some table) = AllEntries P table

is_same-equal : (a b : Text) → is_same a b ≡ true → a ≡ b
is_same-equal [] [] h = refl
is_same-equal [] (d ∷ b) h = cc
is_same-equal (c ∷ a) [] h = cc
is_same-equal (c ∷ a) (d ∷ b) h =
    let head : c ≡ d = ground arith in
    let tail : is_same a b ≡ true = ground arith in
    ap₂ (λ x xs. x ∷ xs) head (is_same-equal a b tail)

get_pos-entry :
    (P : Text → ℕ → Type 0) (table : Table) (name : Text) (ref : ℕ)
    → AllEntries P table
    → dnslabel_table_get_pos table name ≡ some ref
    → P name ref
unfolding dnslabel_table_get_pos
get_pos-entry P [] name ref all h = absurd (some-ne-none _ (sym h))
get_pos-entry P ((v, pos) ∷ table) name ref (here, all) h = elim (Bool-cases (is_same name v)) [
  | inl same ↦
      let at : pos ≡ ref = some-injective _ _ (sym (rw same refl) ∙ h) in
      subst (P name) at (subst (λ t. P t pos) (sym (is_same-equal name v same)) here)
  | inr other ↦ get_pos-entry P table name ref all (sym (rw other refl) ∙ h)
]

pub find-entry :
    (P : Text → ℕ → Type 0) (table : Option Table) (name : Text) (ref : ℕ)
    → Entries P table
    → find table name ≡ some ref
    → P name ref
find-entry P none name ref all h = absurd (some-ne-none _ (sym h))
find-entry P (some table) name ref all h = get_pos-entry P table name ref all h

AllEntries-append :
    (P : Text → ℕ → Type 0) (table : Table) (name : Text) (pos : ℕ)
    → AllEntries P table
    → P name pos
    → AllEntries P (table ++ (name, pos) ∷ [])
AllEntries-append P [] name pos all new = (new, tt)
AllEntries-append P ((v, p) ∷ table) name pos (here, all) new =
    (here, AllEntries-append P table name pos all new)

pub remember-Entries :
    (P : Text → ℕ → Type 0) (table : Option Table) (name : Text) (pos : ℕ) (memory : Bool)
    → Entries P table
    → P name pos
    → Entries P (remember table name pos memory)
unfolding dnslabel_table_add
remember-Entries P none name pos memory all new = tt
remember-Entries P (some table) name pos memory all new =
    if_elim (AllEntries P) (ltb (length table) 128 && memory)
      (λ _. AllEntries-append P table name pos all new) (λ _. all)

AllEntries-map :
    (P Q : Text → ℕ → Type 0) (table : Table)
    → ((v : Text) (pos : ℕ) → P v pos → Q v pos)
    → AllEntries P table
    → AllEntries Q table
AllEntries-map P Q [] f all = tt
AllEntries-map P Q ((v, pos) ∷ table) f (here, all) = (f v pos here, AllEntries-map P Q table f all)

pub Entries-map :
    (P Q : Text → ℕ → Type 0) (table : Option Table)
    → ((v : Text) (pos : ℕ) → P v pos → Q v pos)
    → Entries P table
    → Entries Q table
Entries-map P Q none f all = tt
Entries-map P Q (some table) f all = AllEntries-map P Q table f all

-- A label is split from what follows its dot.
pub split_dot-label :
    (l name : Text) → is_plain l ≡ true → split_dot (l ++ 46 ∷ name) ≡ (l, some name)
split_dot-label [] name plain = refl
split_dot-label (c ∷ l) name plain =
    let no_dot : (c == 46) ≡ false = ground arith in
    let others : is_plain l ≡ true = ground arith in rw (split_dot-label l name others, no_dot) refl

pub split_dot-last : (l : Text) → is_plain l ≡ true → split_dot l ≡ (l, none)
split_dot-last [] plain = refl
split_dot-last (c ∷ l) plain =
    let no_dot : (c == 46) ≡ false = ground arith in
    let others : is_plain l ≡ true = ground arith in rw (split_dot-last l others, no_dot) refl

last-plain : (c : ℕ) (l : Text) → is_plain (c ∷ l) ≡ true → last_is_zero (c ∷ l) ≡ false
last-plain c [] plain = ground arith
last-plain c (d ∷ l) plain =
    let others : is_plain (d ∷ l) ≡ true = ground arith in last-plain d l others

-- The last byte of a label that was written is not zero.
pub last-label :
    (buf : Text) (n : ℕ) (l : Text)
    → is_plain l ≡ true
    → 0 < length l
    → last_is_zero (buf ++ n ∷ l) ≡ false
last-label [] n [] plain some_bytes = absurd (omega arith)
last-label [] n (c ∷ l) plain some_bytes = last-plain c l plain
last-label (b ∷ []) n l plain some_bytes = last-label [] n l plain some_bytes
last-label (b ∷ d ∷ buf) n l plain some_bytes = last-label (d ∷ buf) n l plain some_bytes
