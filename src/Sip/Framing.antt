-- ===== src/Sip/Framing.antt =====
-- crates/sip-core/src/wire/framing.rs: message boundaries on a byte stream, and the loop of
-- `StreamHalves::recv` of crates/sip-core/src/transport.rs. `usize` has 64 bits and its addition wraps,
-- as in a release build.
pub mod Stability
pub mod Chunks
pub mod Tests
use mathlib.Core.List.{map}
use dee_lip.Prelude.{
  ℕ, zero, suc, ◌+◌, ◌%◌, ◌^◌, Bool, true, false, ◌&&◌, Option, none, some, List, [], ◌∷◌, ◌++◌,
  length, take, drop, ltb, ◌==◌, if◌then◌else◌, codes, from_utf8_lossy, is_utf8, to_ascii_lowercase,
  trim, strip_prefix, parse_unsigned,
}

abbrev pub usize_values : ℕ
usize_values = 2 ^ 64

pub record MessageFramer : Type 0 where
  pub buf : List ℕ

abbrev pub empty_framer : MessageFramer
empty_framer = record { buf = [] }

unfoldable pub push : MessageFramer → List ℕ → MessageFramer
push f chunk = record { buf = f.buf ++ chunk }

abbrev pub ends_headers : List ℕ → Bool
ends_headers (a ∷ b ∷ c ∷ d ∷ _) = (a == 13) && (b == 10) && (c == 13) && (d == 10)
ends_headers _ = false

abbrev pub one_more : Option ℕ → Option ℕ
one_more none = none
one_more (some n) = some (suc n)

unfoldable pub find_header_block_end : List ℕ → Option ℕ
find_header_block_end [] = none
find_header_block_end (b ∷ bs) =
    let rest = find_header_block_end bs in if ends_headers (b ∷ bs) then some 4 else one_more rest

abbrev pub starts_crlf : List ℕ → Bool
starts_crlf (a ∷ b ∷ _) = (a == 13) && (b == 10)
starts_crlf _ = false

abbrev pub onto_first : ℕ → List (List ℕ) → List (List ℕ)
onto_first c [] = (c ∷ []) ∷ []
onto_first c (l ∷ ls) = (c ∷ l) ∷ ls

-- `split("\r\n")`; the flag says that the next character ends a separator.
unfoldable pub split_crlf : Bool → List ℕ → List (List ℕ)
split_crlf skip [] = [] ∷ []
split_crlf true (c ∷ cs) = split_crlf false cs
split_crlf false (c ∷ cs) =
    let found = starts_crlf (c ∷ cs) in
    let rest = split_crlf found cs in if found then [] ∷ rest else onto_first c rest

abbrev or_else : Option (List ℕ) → Option (List ℕ) → Option (List ℕ)
or_else (some v) o = some v
or_else none o = o

abbrev trimmed_number : Option (List ℕ) → Option ℕ
trimmed_number none = none
trimmed_number (some v) = parse_unsigned usize_values (trim v)

-- The number that a line gives as the content length, if it gives one.
unfoldable pub length_in_line : List ℕ → Option ℕ
length_in_line line =
    let lower = map to_ascii_lowercase line in
    trimmed_number
      (or_else (strip_prefix (codes "content-length:") lower) (strip_prefix (codes "l:") lower))

abbrev or_number : Option ℕ → ℕ → ℕ
or_number (some n) m = n
or_number none m = m

unfoldable pub first_length : List (List ℕ) → ℕ
unfolding length_in_line
first_length [] = 0
first_length (line ∷ lines) = or_number (length_in_line line) (first_length lines)

unfoldable pub extract_content_length : List ℕ → ℕ
unfolding split_crlf first_length
extract_content_length header_block = first_length (split_crlf false header_block)

-- `header_end + content_length`
abbrev pub total_len : List ℕ → ℕ → ℕ
total_len bytes header_end =
    (header_end + extract_content_length (from_utf8_lossy (take header_end bytes))) % usize_values

abbrev pub take_at : List ℕ → Option ℕ → Option (List ℕ × MessageFramer)
take_at bytes none = none
take_at bytes (some header_end) =
    if is_utf8 (take header_end bytes)
    then (if ltb (length bytes) (total_len bytes header_end)
        then none
        else some (
          take (total_len bytes header_end) bytes,
          record { buf = drop (total_len bytes header_end) bytes },
        ))
    else none

unfoldable pub try_take_message : MessageFramer → Option (List ℕ × MessageFramer)
unfolding find_header_block_end extract_content_length
try_take_message f = take_at f.buf (find_header_block_end f.buf)

-- What `recv` ends with: a message, the framer and the chunks not read; or the end of the stream.
pub data Received : Type 0 where
  message : List ℕ → MessageFramer → List (List ℕ) → Received
  closed : Received

abbrev pub taken_or : Option (List ℕ × MessageFramer) → List (List ℕ) → Received → Received
taken_or none chunks r = r
taken_or (some (m, f)) chunks r = message m f chunks

-- `StreamHalves::recv` on a stream that delivers the chunks; a read of no bytes closes it.
unfoldable pub recv : MessageFramer → List (List ℕ) → Received
unfolding push try_take_message
recv f [] = taken_or (try_take_message f) [] closed
recv f (chunk ∷ chunks) =
    let later = recv (push f chunk) chunks in
    taken_or (try_take_message f) (chunk ∷ chunks) (if length chunk == 0 then closed else later)

-- The messages of `n` calls of `recv`, up to the end of the stream.
unfoldable pub recv_all : ℕ → MessageFramer → List (List ℕ) → List (List ℕ)
unfolding recv
recv_all zero f chunks = []
recv_all (suc n) f chunks = elim (recv f chunks) [
  | message m f' chunks' ↦ m ∷ recv_all n f' chunks'
  | closed ↦ []
]
