-- ===== src/Evdns/Tests.antt =====
-- The names of evdns.c at concrete packets.
use libevent_linux.Prelude.{◌≡◌, refl, true, none, some, List, [], ◌∷◌, ◌++◌, arith}
use libevent_linux.Evdns.Names.{Text, name_loop, name_parse}
use libevent_linux.Evdns.Labels.{
  encoded, labels_loop, dnsname_to_labels, dnslabel_table_get_pos, dnslabel_table_add,
}
use libevent_linux.Evdns.ParseLaws.{Safe, name_parse-Safe}
use libevent_linux.Evdns.RoundTrip.{Readable, name_parse-dnsname_to_labels}
use libevent_linux.Evdns.Bounds.{Reaches, dnsname_to_labels-Reaches}
use libevent_linux.Evdns.Wire.{IsName, root, label, join}
use libevent_linux.Evdns.ReadLaws.{name_parse-reads}

-- A pointer to itself.
abbrev pointer_loop : Text
pointer_loop = 192 ∷ 0 ∷ []

loop_refused : name_parse pointer_loop 256 0 ≡ some none
unfolding name_parse name_loop
loop_refused = refl

name_parse-Safe_example : Safe pointer_loop 256 (name_parse pointer_loop 256 0)
name_parse-Safe_example = name_parse-Safe pointer_loop 256 0

abbrev abc : Text
abc = 97 ∷ 98 ∷ 99 ∷ []

abbrev org : Text
org = 111 ∷ 114 ∷ 103 ∷ []

-- "abc.org" behind two bytes, and then "org" by a pointer.
abbrev header : Text
header = 0 ∷ 0 ∷ []

abbrev two_labels : List Text
two_labels = abc ∷ org ∷ []

abbrev wire : Text
wire = header ++ 3 ∷ (abc ++ 3 ∷ (org ++ 0 ∷ []))

first_name :
    dnsname_to_labels 100 true header (join two_labels) (some [])
    ≡ some (encoded wire (some ((join two_labels, 2) ∷ (org, 6) ∷ [])))
unfolding dnsname_to_labels labels_loop dnslabel_table_get_pos dnslabel_table_add
first_name = refl

second_name :
    dnsname_to_labels 100 true wire org (some ((join two_labels, 2) ∷ (org, 6) ∷ []))
    ≡ some (encoded (wire ++ 192 ∷ 6 ∷ []) (some ((join two_labels, 2) ∷ (org, 6) ∷ [])))
unfolding dnsname_to_labels labels_loop dnslabel_table_get_pos dnslabel_table_add
second_name = refl

read_back : name_parse (wire ++ 192 ∷ 6 ∷ []) 256 11 ≡ some (some (org, 13))
unfolding name_parse name_loop
read_back = refl

name_parse-dnsname_to_labels_example :
    Readable 100 header
      (join two_labels)
      (dnsname_to_labels 100 true header (join two_labels) (some []))
name_parse-dnsname_to_labels_example =
    name_parse-dnsname_to_labels 100 true header abc (org ∷ []) (some []) (omega arith)
      (omega arith) (omega arith, omega arith, refl, (omega arith, omega arith, refl, tt))
      (omega arith) tt

org-IsName : IsName (3 ∷ (org ++ 0 ∷ [])) 0 (org ∷ []) 0 5
org-IsName = label 0 org (0 ∷ []) [] 0 5 refl (omega arith) (omega arith) (root 4 [] refl)

name_parse-reads_example : name_parse (3 ∷ (org ++ 0 ∷ [])) 256 0 ≡ some (some (join (org ∷ []), 5))
name_parse-reads_example =
    name_parse-reads (3 ∷ (org ++ 0 ∷ [])) 256 0 (org ∷ []) 0 5 org-IsName (omega arith)
      (omega arith)

dnsname_to_labels-Reaches_example : Reaches 5 (dnsname_to_labels 5 true (0 ∷ []) org none)
dnsname_to_labels-Reaches_example = dnsname_to_labels-Reaches 5 true (0 ∷ []) org none (omega arith)

-- The zero byte stands behind the five bytes of the buffer.
one_byte_behind :
    dnsname_to_labels 5 true (0 ∷ []) org none ≡ some (encoded (0 ∷ 3 ∷ (org ++ 0 ∷ [])) none)
unfolding dnsname_to_labels labels_loop
one_byte_behind = refl
