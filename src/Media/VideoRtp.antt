-- ===== src/Media/VideoRtp.antt =====
-- crates/media-engine/src/video_rtp.rs: H.264 NAL units as RTP payloads, and back. `VideoCodec` has the
-- one constructor H264, so the two dispatchers are the functions themselves. Subtraction on `usize`
-- aborts below zero, as in a build with overflow checks.
pub mod Units
pub mod Bits
pub mod Fragments
pub mod RoundTrip
pub mod Tests
use Prim.Native.Nat.{bit_and, bit_or, max}
use dee_lip.Prelude.{
  ℕ, zero, suc, ◌+◌, ◌-◌, Bool, true, false, not, ◌&&◌, Option, none, some, List, [], ◌∷◌, ◌++◌,
  length, take, drop, get_or, range_of, leb, ltb, ◌==◌, if◌then◌else◌, Outcome, ok, panic, ◌>>=◌,
}

abbrev pub fu_a_type : ℕ
fu_a_type = 28

abbrev pub start_code : List ℕ
start_code = 0 ∷ 0 ∷ 0 ∷ 1 ∷ []

-- A result or an abort; the code has no error value here.
abbrev pub Checked {ℓ} : Type ℓ → Type ℓ
Checked A = Outcome (Unit {0}) A

abbrev pub checked_sub : ℕ → ℕ → Checked ℕ
checked_sub a b = if leb b a then ok (a - b) else panic

abbrev is_start_code : List ℕ → Bool
is_start_code (a ∷ b ∷ c ∷ _) = (a == 0) && (b == 0) && (c == 1)
is_start_code _ = false

-- The first loop of `split_nal_units`: `i` is the index of the list's head, and the next `skip` bytes
-- belong to a start code already found.
unfoldable pub find_starts : ℕ → ℕ → List ℕ → List ℕ
find_starts i skip [] = []
find_starts i (suc skip) (b ∷ bs) = find_starts (i + 1) skip bs
find_starts i zero (b ∷ bs) =
    let found = is_start_code (b ∷ bs) in
    let rest = find_starts (i + 1) (if found then 2 else 0) bs in if found then i ∷ rest else rest

-- `while end > content_start && annex_b[end - 1] == 0 { end -= 1; }`
unfoldable pub trim_zeros : List ℕ → ℕ → ℕ → ℕ
trim_zeros bytes content_start zero = zero
trim_zeros bytes content_start (suc end) =
    let shorter = trim_zeros bytes content_start end in
    if ltb content_start (suc end) && (get_or bytes end 0 == 0) then shorter else suc end

abbrev content_end : List ℕ → ℕ → List ℕ → ℕ
content_end bytes content_start [] = length bytes
content_end bytes content_start (next ∷ _) = trim_zeros bytes content_start next

-- The second loop of `split_nal_units`.
unfoldable pub cut_at : List ℕ → List ℕ → List (List ℕ)
unfolding trim_zeros
cut_at bytes [] = []
cut_at bytes (start ∷ starts) =
    let rest = cut_at bytes starts in
    let end = content_end bytes (start + 3) starts in
    if ltb (start + 3) end then range_of bytes (start + 3) end ∷ rest else rest

unfoldable pub split_nal_units : List ℕ → List (List ℕ)
unfolding find_starts cut_at
split_nal_units annex_b = cut_at annex_b (find_starts 0 0 annex_b)

-- `payload.chunks(size)`; the fuel is the payload's length, and `size` is positive.
unfoldable pub chunks_of : ℕ → ℕ → List ℕ → List (List ℕ)
chunks_of fuel size [] = []
chunks_of zero size (b ∷ bs) = []
chunks_of (suc fuel) size (b ∷ bs) = take size (b ∷ bs) ∷ chunks_of fuel size (drop size (b ∷ bs))

abbrev pub fu_indicator : ℕ → ℕ
fu_indicator nal_header = bit_or (bit_and nal_header 0xe0) fu_a_type

abbrev pub fu_header : ℕ → Bool → Bool → ℕ
fu_header nal_header first final =
    let original_type = bit_and nal_header 0x1f in
    let started = if first then bit_or original_type 0x80 else original_type in
    if final then bit_or started 0x40 else started

-- The chunks from index `i` on, each behind its two header bytes.
unfoldable pub fu_packets : ℕ → ℕ → ℕ → List (List ℕ) → List (List ℕ)
fu_packets nal_header last i [] = []
fu_packets nal_header last i (chunk ∷ chunks) =
    (fu_indicator nal_header ∷ fu_header nal_header (i == 0) (i == last) ∷ chunk)
    ∷ fu_packets nal_header last (i + 1) chunks

-- The body of the loop of `fragment_nal_units`.
unfoldable pub packets_of : ℕ → List ℕ → Checked (List (List ℕ))
unfolding chunks_of fu_packets
packets_of mtu [] = ok []
packets_of mtu (nal_header ∷ payload) =
    if leb (length (nal_header ∷ payload)) mtu
    then ok ((nal_header ∷ payload) ∷ [])
    else (checked_sub mtu 2 >>= λ chunk_size.
        checked_sub (length (chunks_of (length payload) (max chunk_size 1) payload)) 1 >>= λ last.
        ok (fu_packets nal_header last 0 (chunks_of (length payload) (max chunk_size 1) payload)))

unfoldable pub fragment_all : ℕ → List (List ℕ) → Checked (List (List ℕ))
unfolding packets_of
fragment_all mtu [] = ok []
fragment_all mtu (nal ∷ nals) =
    packets_of mtu nal >>= λ packets. fragment_all mtu nals >>= λ rest. ok (packets ++ rest)

unfoldable pub fragment_nal_units : List ℕ → ℕ → Checked (List (List ℕ))
unfolding split_nal_units fragment_all
fragment_nal_units annex_b mtu = fragment_all mtu (split_nal_units annex_b)

-- What `reassemble_nal_units` carries from payload to payload: `out` and `fu_accum`.
abbrev pub Reassembly : Type 0
Reassembly = List ℕ × Option (List ℕ)

abbrev emit : List ℕ → List ℕ → List ℕ
emit out nal = out ++ (start_code ++ nal)

abbrev accumulate : ℕ → ℕ → List ℕ → Option (List ℕ) → Option (List ℕ)
accumulate indicator header chunk accum =
    if not (bit_and header 0x80 == 0)
    then some (bit_or (bit_and indicator 0xe0) (bit_and header 0x1f) ∷ chunk)
    else elim accum [ none ↦ none | some buf ↦ some (buf ++ chunk) ]

abbrev close : List ℕ → Option (List ℕ) → Reassembly
close out none = (out, none)
close out (some buf) = (emit out buf, none)

unfoldable pub reassemble_step : Reassembly → List ℕ → Reassembly
reassemble_step st [] = st
reassemble_step st (first ∷ []) =
    if bit_and first 0x1f == fu_a_type then st else (emit st.0 (first ∷ []), st.1)
reassemble_step st (first ∷ second ∷ chunk) =
    if bit_and first 0x1f == fu_a_type
    then (let accum = accumulate first second chunk st.1 in
        if not (bit_and second 0x40 == 0) then close st.0 accum else (st.0, accum))
    else (emit st.0 (first ∷ second ∷ chunk), st.1)

unfoldable pub reassemble_from : Reassembly → List (List ℕ) → Reassembly
unfolding reassemble_step
reassemble_from st [] = st
reassemble_from st (payload ∷ payloads) = reassemble_from (reassemble_step st payload) payloads

unfoldable pub reassemble_nal_units : List (List ℕ) → List ℕ
unfolding reassemble_from
reassemble_nal_units payloads = (reassemble_from ([], none) payloads).0
