-- ===== src/Zrtp/Wire/Panics.antt =====
-- Which inputs make `Message::decode` of wire.rs abort.
use dee_lip.Prelude.{
  err-ne-panic, ◌&&◌, ap, ◌∙◌, ◌>>◌, ℕ, ◌+◌, ◌-◌, ◌<◌, ◌≤◌, ◌≡◌, ◌≢◌, ◌↔◌, List, length, range_of,
  length-range_of, slice, slice-eq-ok, Outcome, ok, panic, ◌>>=◌, arith, false, leb, leb→le, ltb→lt,
  ltb, ◌==◌, ==_iff, of_be16, of_be32, Bool-cases, inl, inr, ensure, trim_end, from_utf8_lossy,
}
use dee_lip.Zrtp.Wire.Types.{WireError, Message, msg_preamble, bad_crc}
use dee_lip.Zrtp.Wire.Decode.{decode_body, decode}
use dee_lip.Zrtp.Wire.Bounds.{take_array-eq-ok, long_enough, decode_body-ne-panic}

-- What the length field of `bytes` says.
abbrev pub byte_len : List ℕ → ℕ
byte_len bytes = of_be16 (range_of bytes 2 4)

-- A frame that passes the checks of `decode` up to the checksum.
pub record IsChecked (crc32 : List ℕ → ℕ) (bytes : List ℕ) : Type 0 where
  pub long : 16 ≤ length bytes
  pub preamble : of_be16 (range_of bytes 0 2) ≡ msg_preamble
  pub whole : 4 + byte_len bytes ≤ length bytes
  pub checksum :
      of_be32
        (range_of (range_of bytes 0 (4 + byte_len bytes)) (byte_len bytes) (4 + byte_len bytes))
      ≡ crc32 (range_of (range_of bytes 0 (4 + byte_len bytes)) 0 (byte_len bytes))

module _ (crc32 : List ℕ → ℕ) (bytes : List ℕ) where
  abbrev parsed : Outcome WireError Message
  parsed = do
    tag ← slice (range_of bytes 0 (4 + byte_len bytes)) 4 12
    body ← slice (range_of bytes 0 (4 + byte_len bytes)) 12 (byte_len bytes)
    decode_body (trim_end (from_utf8_lossy tag)) body

  module _ (long : 16 ≤ length bytes) (whole : 4 + byte_len bytes ≤ length bytes) where
    width : length (range_of bytes 0 (4 + byte_len bytes)) ≡ 4 + byte_len bytes
    width = omega (arith, length-range_of bytes 0 (4 + byte_len bytes) (omega arith) whole)

    decode_checked :
        of_be16 (range_of bytes 0 2) ≡ msg_preamble
        → decode crc32 bytes ≡ (do
          ensure
              (of_be32 (
                  range_of
                    (range_of bytes 0 (4 + byte_len bytes))
                    (byte_len bytes)
                    (4 + byte_len bytes))
                == crc32 (range_of (range_of bytes 0 (4 + byte_len bytes)) 0 (byte_len bytes)))
              bad_crc
          parsed)
    unfolding decode
    decode_checked preamble =
        let n = byte_len bytes in
        let m = range_of bytes 0 (4 + n) in
        let less : 4 + n - 4 ≡ n = omega arith in
        let s_all : slice {E = WireError} bytes 0 (4 + n) ≡ ok m =
          slice-eq-ok bytes 0 (4 + n) (omega arith) whole in
        let s_crc : slice {E = WireError} m n (length m) ≡ ok (range_of m n (4 + n)) =
          ap (slice m n) width ∙ slice-eq-ok m n (4 + n) (omega arith) (omega (arith, width)) in
        let s_cov : slice {E = WireError} m 0 n ≡ ok (range_of m 0 n) =
          slice-eq-ok m 0 n (omega arith) (omega (arith, width)) in
        rw (
          long_enough 16 (length bytes) long,
          take_array-eq-ok bytes 0 2 (omega arith),
          (==_iff (of_be16 (range_of bytes 0 2)) msg_preamble).1 preamble,
          take_array-eq-ok bytes 2 2 (omega arith),
          long_enough (4 + n) (length bytes) whole,
          s_all,
          less,
          s_crc,
          s_cov,
        )

slice-eq-panic {ℓ} :
    {E : Type ℓ} (xs : List ℕ) (i j : ℕ)
    → (leb i j && leb j (length xs)) ≡ false
    → slice {E = E} xs i j ≡ panic
unfolding slice
slice-eq-panic xs i j h = rw h

module _ (crc32 : List ℕ → ℕ) (bytes : List ℕ) where
  module _ (long : 16 ≤ length bytes) (whole : 4 + byte_len bytes ≤ length bytes) where
    abbrev frame : List ℕ
    frame = range_of bytes 0 (4 + byte_len bytes)

    frame_width : length frame ≡ 4 + byte_len bytes
    frame_width = width crc32 bytes long whole

    no_tag : leb 12 (length frame) ≡ false → slice {E = WireError} frame 4 12 ≡ panic
    no_tag h = slice-eq-panic frame 4 12 (rw h)

    tag_read : 12 ≤ length frame → slice {E = WireError} frame 4 12 ≡ ok (range_of frame 4 12)
    tag_read h = slice-eq-ok frame 4 12 (omega arith) h

    no_body : byte_len bytes < 12 → slice {E = WireError} frame 12 (byte_len bytes) ≡ panic
    no_body h =
        slice-eq-panic frame 12 (byte_len bytes)
          (let e : leb 12 (byte_len bytes) ≡ false = ground arith in rw e)

    body_read :
        12 ≤ byte_len bytes
        → slice {E = WireError} frame 12 (byte_len bytes) ≡ ok (range_of frame 12 (byte_len bytes))
    body_read h = slice-eq-ok frame 12 (byte_len bytes) h (omega (arith, frame_width))

    parsed_short : byte_len bytes < 12 → parsed crc32 bytes ≡ panic
    parsed_short h = elim (Bool-cases (leb 12 (length frame))) [
      | inl tagged ↦ rw (tag_read (leb→le 12 (length frame) tagged), no_body h)
      | inr short ↦ rw (no_tag short)
    ]

    parsed_long : 12 ≤ byte_len bytes → parsed crc32 bytes ≢ panic
    parsed_long h =
        rw (tag_read (omega (arith, frame_width)), body_read h) (decode_body-ne-panic _ _)

  decode_panics : IsChecked crc32 bytes → byte_len bytes < 12 → decode crc32 bytes ≡ panic
  decode_panics c h =
      decode_checked crc32 bytes c.long c.whole c.preamble
      ∙ rw ((==_iff _ _).1 c.checksum) (parsed_short c.long c.whole h)

  refuse_short : leb 16 (length bytes) ≡ false → decode crc32 bytes ≢ panic
  unfolding decode
  refuse_short h = rw h (λ e. cc)

  refuse_preamble :
      16 ≤ length bytes
      → (of_be16 (range_of bytes 0 2) == msg_preamble) ≡ false
      → decode crc32 bytes ≢ panic
  unfolding decode
  refuse_preamble h e =
      rw (long_enough 16 (length bytes) h, take_array-eq-ok bytes 0 2 (omega arith), e) (λ e. cc)

  refuse_partial :
      16 ≤ length bytes
      → leb (4 + byte_len bytes) (length bytes) ≡ false
      → of_be16 (range_of bytes 0 2) ≡ msg_preamble
      → decode crc32 bytes ≢ panic
  unfolding decode
  refuse_partial h e p =
      rw
        (
          long_enough 16 (length bytes) h,
          take_array-eq-ok bytes 0 2 (omega arith),
          (==_iff (of_be16 (range_of bytes 0 2)) msg_preamble).1 p,
          take_array-eq-ok bytes 2 2 (omega arith),
          e,
        )
        (λ e. cc)

  refuse_checksum :
      (long : 16 ≤ length bytes) (whole : 4 + byte_len bytes ≤ length bytes)
      → of_be16 (range_of bytes 0 2) ≡ msg_preamble
      → (of_be32 (range_of (frame long whole) (byte_len bytes) (4 + byte_len bytes))
          == crc32 (range_of (frame long whole) 0 (byte_len bytes)))
        ≡ false
      → decode crc32 bytes ≢ panic
  refuse_checksum long whole p e = rw (decode_checked crc32 bytes long whole p, e) (err-ne-panic _)

  refuse_body : IsChecked crc32 bytes → 12 ≤ byte_len bytes → decode crc32 bytes ≢ panic
  refuse_body c h =
      rw (decode_checked crc32 bytes c.long c.whole c.preamble, (==_iff _ _).1 c.checksum)
        (parsed_long c.long c.whole h)

  -- Each test that fails gives an error, so an abort has passed them all.
  module _ (p : decode crc32 bytes ≡ panic) where
    panic_long : 16 ≤ length bytes
    panic_long = elim (Bool-cases (leb 16 (length bytes))) [
      | inl h ↦ leb→le _ _ h
      | inr h ↦ absurd (refuse_short h p)
    ]

    panic_preamble : of_be16 (range_of bytes 0 2) ≡ msg_preamble
    panic_preamble = elim (Bool-cases (of_be16 (range_of bytes 0 2) == msg_preamble)) [
      | inl h ↦ (==_iff _ _).0 h
      | inr h ↦ absurd (refuse_preamble panic_long h p)
    ]

    panic_whole : 4 + byte_len bytes ≤ length bytes
    panic_whole = elim (Bool-cases (leb (4 + byte_len bytes) (length bytes))) [
      | inl h ↦ leb→le _ _ h
      | inr h ↦ absurd (refuse_partial panic_long h panic_preamble p)
    ]

    panic-IsChecked : IsChecked crc32 bytes
    panic-IsChecked = record {
      long = panic_long;
      preamble = panic_preamble;
      whole = panic_whole;
      checksum =
          elim (Bool-cases (
            of_be32 (range_of (frame panic_long panic_whole) (byte_len bytes) (4 + byte_len bytes))
            == crc32 (range_of (frame panic_long panic_whole) 0 (byte_len bytes)))) [
              | inl h ↦ (==_iff _ _).0 h
              | inr h ↦ absurd (refuse_checksum panic_long panic_whole panic_preamble h p)
            ];
    }

    panic_tiny : byte_len bytes < 12
    panic_tiny = elim (Bool-cases (ltb (byte_len bytes) 12)) [
      | inl h ↦ ltb→lt _ _ h
      | inr h ↦ absurd (refuse_body panic-IsChecked (ground arith) p)
    ]

  -- `decode` aborts exactly on a frame that passes its checks of length, preamble and checksum and
  -- whose length field is below 12, which is less than a type tag and a checksum take.
  pub decode-panic_iff :
      (decode crc32 bytes ≡ panic) ↔ (IsChecked crc32 bytes × (byte_len bytes < 12))
  decode-panic_iff = (λ p. (panic-IsChecked p, panic_tiny p), λ c. decode_panics c.0 c.1)
