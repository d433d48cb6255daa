-- ===== src/Sip/Dns.antt =====
-- crates/sip-core/src/wire/dns.rs: names and responses of the DNS client. A name is a text, whose bytes are
-- its characters where it is ASCII. The queries themselves are I/O.
pub mod Names
pub mod Responses
pub mod Tests
use dee_lip.Prelude.{
  ℕ, zero, suc, ◌+◌, ◌*◌, ◌/◌, ◌%◌, Bool, true, false, ◌&&◌, Option, none, some, List, [], ◌∷◌,
  ◌++◌, length, get_elem?, ltb, leb, ◌==◌, if◌then◌else◌, u8, be16, of_be16, codes, range_of, slice,
  Outcome, panic, err, ok, and_then, ◌>>=◌, from_utf8_lossy,
}
use dee_lip.Sip.Util.{split_on}
use dee_lip.Sip.Auth.{trim_end_char}
use dee_lip.Sip.Message.{into_bytes}

abbrev pub qtype_a : ℕ
qtype_a = 1

abbrev pub qtype_aaaa : ℕ
qtype_aaaa = 28

abbrev pub qtype_srv : ℕ
qtype_srv = 33

pub record SrvTarget : Type 0 where
  pub priority : ℕ
  pub port : ℕ
  pub target : List ℕ

-- An address is its bytes.
pub data Answer : Type 0 where
  addr : List ℕ → Answer
  srv : SrvTarget → Answer

abbrev filled : List (List ℕ) → List (List ℕ)
filled [] = []
filled ([] ∷ ls) = filled ls
filled ((c ∷ cs) ∷ ls) = (c ∷ cs) ∷ filled ls

-- The labels of a name: the parts between its dots that are not empty.
unfoldable pub labels_of : List ℕ → List (List ℕ)
unfolding split_on trim_end_char
labels_of name = filled (split_on 0x2e (trim_end_char 0x2e name))

unfoldable pub encode_labels : List (List ℕ) → List ℕ
encode_labels [] = 0 ∷ []
encode_labels (l ∷ ls) = u8 (length (into_bytes l)) ∷ (into_bytes l ++ encode_labels ls)

unfoldable pub encode_name : List ℕ → List ℕ
unfolding labels_of encode_labels into_bytes
encode_name name = encode_labels (labels_of name)

unfoldable pub build_query : ℕ → List ℕ → ℕ → List ℕ
unfolding encode_name
build_query id name qtype =
    be16 id
    ++ (be16 0x100
        ++ (be16 1
            ++ (be16 0 ++ (be16 0 ++ (be16 0 ++ (encode_name name ++ (be16 qtype ++ be16 1)))))))

-- What a name holds at a position: its end, a pointer, or a label and the position behind it.
pub data Piece : Type 0 where
  broken root : Piece
  pointer : ℕ → Piece
  label : List ℕ → ℕ → Piece

abbrev pointer_to : ℕ → Option ℕ → Piece
pointer_to high none = broken
pointer_to high (some low) = pointer (high * 256 + low)

abbrev pub piece_of : List ℕ → ℕ → Option ℕ → Piece
piece_of buf cur none = broken
piece_of buf cur (some len) =
    if len == 0
    then root
    else if len / 64 == 3
    then pointer_to (len % 64) (get_elem? buf (cur + 1))
    else if leb (cur + 1 + len) (length buf)
    then label (range_of buf (cur + 1) (cur + 1 + len)) (cur + 1 + len)
    else broken

abbrev pub end_or : Option ℕ → ℕ → ℕ
end_or none pos = pos
end_or (some pos) other = pos

-- The loop of `decode_name`, with the hops that are left.
unfoldable pub decode_labels :
    ℕ → List ℕ → ℕ → Option ℕ → List (List ℕ) → Option (List (List ℕ) × ℕ)
unfolding from_utf8_lossy
decode_labels zero buf cur end_pos labels = none
decode_labels (suc hops) buf cur end_pos labels = elim (piece_of buf cur (get_elem? buf cur)) [
  | broken ↦ none
  | root ↦ some (labels, end_or end_pos (cur + 1))
  | pointer target ↦ decode_labels hops buf target (some (end_or end_pos (cur + 2))) labels
  | label l next ↦ decode_labels hops buf next end_pos (labels ++ (from_utf8_lossy l ∷ []))
]

-- `labels.join(".")`
unfoldable pub join_dots : List (List ℕ) → List ℕ
join_dots [] = []
join_dots (l ∷ []) = l
join_dots (l ∷ m ∷ ls) = l ++ (0x2e ∷ join_dots (m ∷ ls))

abbrev pub joined : Option (List (List ℕ) × ℕ) → Option (List ℕ × ℕ)
joined none = none
joined (some (labels, pos)) = some (join_dots labels, pos)

unfoldable pub decode_name : List ℕ → ℕ → Option (List ℕ × ℕ)
unfolding decode_labels join_dots
decode_name buf pos = joined (decode_labels 128 buf pos none [])

-- `skip_name`: each step goes forward by at least one, so the length of the buffer and one more is enough fuel.
abbrev pub over : ℕ → ℕ → Option ℕ
over pos len = if len == 0 then some (pos + 1) else if len / 64 == 3 then some (pos + 2) else none

unfoldable pub skip_from : ℕ → List ℕ → ℕ → Option ℕ
skip_from zero buf pos = none
skip_from (suc fuel) buf pos = elim (get_elem? buf pos) [
  | none ↦ none
  | some len ↦ elim (over pos len) [
    | some next ↦ some next
    | none ↦ skip_from fuel buf (pos + (1 + len))
  ]
]

unfoldable pub skip_name : List ℕ → ℕ → Option ℕ
unfolding skip_from
skip_name buf pos = skip_from (length buf + 1) buf pos

abbrev pub Parsed : Type 0 → Type 0
Parsed A = Outcome (List ℕ) A

unfoldable pub skip_questions : ℕ → List ℕ → ℕ → Parsed ℕ
unfolding skip_name
skip_questions zero buf pos = ok pos
skip_questions (suc n) buf pos = elim (skip_name buf pos) [
  | none ↦ err (codes "bad question name")
  | some next ↦ skip_questions n buf (next + 4)
]

abbrev srv_answer : List ℕ → List ℕ → Option (List ℕ × ℕ) → List Answer
srv_answer priority port none = []
srv_answer priority port (some (target, next)) =
    srv (record { priority = of_be16 priority; port = of_be16 port; target = target }) ∷ []

-- What a record's data says, where it is of the type that was asked for.
unfoldable pub answer_of : List ℕ → ℕ → ℕ → ℕ → Parsed (List Answer)
unfolding slice decode_name
answer_of buf qtype rdata rdlen =
    if qtype == qtype_a && rdlen == 4
    then slice buf rdata (rdata + 4) >>= (λ b. ok (addr b ∷ []))
    else if qtype == qtype_aaaa && rdlen == 16
    then slice buf rdata (rdata + 16) >>= (λ b. ok (addr b ∷ []))
    else if qtype == qtype_srv && leb 6 rdlen
    then slice buf rdata (rdata + 2) >>= (λ priority.
      slice buf (rdata + 4) (rdata + 6)
      >>= (λ port. ok (srv_answer priority port (decode_name buf (rdata + 6)))))
    else ok []

-- A record behind its name: its answers and the position behind it, or none where the buffer ends in it.
unfoldable pub record_at : List ℕ → ℕ → ℕ → Parsed (Option (List Answer × ℕ))
unfolding slice answer_of
record_at buf qtype pos =
    if ltb (length buf) (pos + 10)
    then ok none
    else slice buf pos (pos + 2) >>= (λ rtype. slice buf (pos + 8) (pos + 10) >>= (λ len.
      if ltb (length buf) (pos + 10 + of_be16 len)
      then ok none
      else (if of_be16 rtype == qtype then answer_of buf qtype (pos + 10) (of_be16 len) else ok [])
        >>= (λ more. ok (some (more, pos + 10 + of_be16 len)))))

unfoldable pub read_answers : ℕ → List ℕ → ℕ → ℕ → List Answer → Parsed (List Answer)
unfolding decode_name record_at
read_answers zero buf qtype pos answers = ok answers
read_answers (suc n) buf qtype pos answers = elim (decode_name buf pos) [
  | none ↦ err (codes "bad answer name")
  | some named ↦ record_at buf qtype named.1 >>= (λ r. elim r [
    | none ↦ ok answers
    | some found ↦ read_answers n buf qtype found.1 (answers ++ found.0)
  ])
]

abbrev pub read_body : List ℕ → ℕ → Parsed (List Answer)
read_body buf qtype = slice buf 4 6 >>= (λ qdcount. slice buf 6 8 >>= (λ ancount.
    skip_questions (of_be16 qdcount) buf 12
    >>= (λ pos. read_answers (of_be16 ancount) buf qtype pos [])))

unfoldable pub parse_response : List ℕ → ℕ → ℕ → Parsed (List Answer)
unfolding slice skip_questions read_answers
parse_response buf expected_id qtype =
    if ltb (length buf) 12
    then err (codes "DNS response too short")
    else slice buf 0 2 >>= (λ id.
      if of_be16 id == expected_id
      then read_body buf qtype
      else err (codes "DNS response ID mismatch"))
