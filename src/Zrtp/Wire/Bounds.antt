-- ===== src/Zrtp/Wire/Bounds.antt =====
-- No decoder of a message body in wire.rs aborts: each index and each slice is inside the body.
use dee_lip.Prelude.{
  ok-ne-panic, err-ne-panic, [], ◌∷◌, ℕ, zero, suc, ◌+◌, ◌<◌, ◌≤◌, ◌≡◌, ◌≢◌, refl, List, length,
  range_of, length-range_of, slice-eq-ok, get_range, get_elem?, some, Outcome, ok, panic,
  >>=-ne-panic, arith, true, false, leb, ==_iff, Bool-cases, inl, inr, if◌then◌else◌, Bool,
  bytes_eq, codes,
}
use dee_lip.Zrtp.Wire.Types.{
  WireError, Message, truncated, hello, commit, dh_part1, dh_part2, confirm1, confirm2, conf2_ack,
  unknown_message_type,
}
use dee_lip.Zrtp.Wire.Decode.{
  as_message, take_array, byte_at, get_byte, decode_algos, decode_algo_list, decode_hello,
  decode_commit, decode_dhpart, decode_confirm, decode_body,
}

module _ (body : List ℕ) (pos n : ℕ) (h : pos + n ≤ length body) where
  pub take_array-eq-ok : take_array body pos n ≡ ok (range_of body pos (pos + n), pos + n)
  unfolding take_array
  take_array-eq-ok =
      let start : pos ≤ pos + n = omega arith in
      let size : length (range_of body pos (pos + n)) ≡ n =
        omega (arith, length-range_of body pos (pos + n) start h) in
      rw (
        slice-eq-ok body pos (pos + n) start h,
        (==_iff (length (range_of body pos (pos + n))) n).1 size,
      )

get_elem?-some : (xs : List ℕ) (i : ℕ) → i < length xs → (b : ℕ) × (get_elem? xs i ≡ some b)
get_elem?-some [] i h = elim h [ ]
get_elem?-some (x ∷ xs) zero h = (x, refl)
get_elem?-some (x ∷ xs) (suc i) h = get_elem?-some xs i (omega arith)

byte_at-eq-ok : (xs : List ℕ) (i : ℕ) → i < length xs → (b : ℕ) × (byte_at xs i ≡ ok b)
unfolding byte_at
byte_at-eq-ok xs i h = let (b, e) = get_elem?-some xs i h in (b, rw (e, byte_at))

get_range-ne-panic : (e : WireError) (xs : List ℕ) (i j : ℕ) → get_range e xs i j ≢ panic
unfolding get_range
get_range-ne-panic e xs i j = ground arith

get_byte-ne-panic : (xs : List ℕ) (i : ℕ) → get_byte xs i ≢ panic
unfolding get_byte
get_byte-ne-panic xs i = ground arith

decode_algos-ne-panic : (body : List ℕ) (count pos : ℕ) → decode_algos body count pos ≢ panic
unfolding decode_algos
decode_algos-ne-panic body zero pos = λ e. cc
decode_algos-ne-panic body (suc count) pos =
    >>=-ne-panic _ _ (get_range-ne-panic truncated body pos (pos + 4))
      λ chunk. >>=-ne-panic _ _ (decode_algos-ne-panic body count (pos + 4)) λ rest e. cc

decode_algo_list-ne-panic : (body : List ℕ) (pos : ℕ) → decode_algo_list body pos ≢ panic
unfolding decode_algo_list
decode_algo_list-ne-panic body pos =
    >>=-ne-panic _ _ (get_byte-ne-panic body pos)
      λ count. decode_algos-ne-panic body count (pos + 1)

pub long_enough : (k n : ℕ) → k ≤ n → leb k n ≡ true
long_enough k n h = ground arith

module _ (body : List ℕ) where
  abbrev fixed :
      (pos n : ℕ)
      → pos + n ≤ length body
      → take_array body pos n ≡ ok (range_of body pos (pos + n), pos + n)
  fixed = take_array-eq-ok body

  commit_fields : 104 ≤ length body → decode_commit body ≢ panic
  unfolding decode_commit
  commit_fields h =
      rw
        (
          long_enough 104 (length body) h,
          fixed 0 32 (omega arith),
          fixed 32 12 (omega arith),
          fixed 44 4 (omega arith),
          fixed 48 4 (omega arith),
          fixed 52 4 (omega arith),
          fixed 56 4 (omega arith),
          fixed 60 4 (omega arith),
          fixed 64 32 (omega arith),
          fixed 96 8 (omega arith),
        )
        (λ e. cc)

  dhpart_fields : 66 ≤ length body → decode_dhpart body ≢ panic
  unfolding decode_dhpart
  dhpart_fields h =
      rw
        (
          long_enough 66 (length body) h,
          fixed 0 32 (omega arith),
          fixed 32 8 (omega arith),
          fixed 40 8 (omega arith),
          fixed 48 8 (omega arith),
          fixed 56 8 (omega arith),
          fixed 64 2 (omega arith),
        )
        (>>=-ne-panic _ _ (get_range-ne-panic _ _ _ _)
          λ pv. >>=-ne-panic _ _ (get_range-ne-panic _ _ _ _) λ mac e. cc)

  confirm_fields : 26 ≤ length body → decode_confirm body ≢ panic
  unfolding decode_confirm
  confirm_fields h =
      rw
        (
          long_enough 26 (length body) h,
          fixed 0 8 (omega arith),
          fixed 8 16 (omega arith),
          fixed 24 2 (omega arith),
        )
        (>>=-ne-panic _ _ (get_range-ne-panic _ _ _ _) λ encrypted e. cc)

  hello_fields : 65 ≤ length body → decode_hello body ≢ panic
  unfolding decode_hello
  hello_fields h =
      rw
        (
          long_enough 65 (length body) h,
          fixed 0 4 (omega arith),
          fixed 4 16 (omega arith),
          fixed 20 32 (omega arith),
          fixed 52 12 (omega arith),
          (byte_at-eq-ok body 64 (omega arith)).1,
        )
        (>>=-ne-panic _ _ (decode_algo_list-ne-panic body _) λ l1.
          >>=-ne-panic _ _ (decode_algo_list-ne-panic body _) λ l2.
            >>=-ne-panic _ _ (decode_algo_list-ne-panic body _) λ l3.
              >>=-ne-panic _ _ (decode_algo_list-ne-panic body _) λ l4.
                >>=-ne-panic _ _ (decode_algo_list-ne-panic body _)
                  λ l5. >>=-ne-panic _ _ (get_range-ne-panic _ _ _ _) λ mac e. cc)

  decode_hello-ne-panic : decode_hello body ≢ panic
  unfolding decode_hello
  decode_hello-ne-panic = elim (Bool-cases (leb 65 (length body))) [
    | inl long ↦ hello_fields (ground arith)
    | inr short ↦ rw short (λ e. cc)
  ]

  decode_commit-ne-panic : decode_commit body ≢ panic
  unfolding decode_commit
  decode_commit-ne-panic = elim (Bool-cases (leb 104 (length body))) [
    | inl long ↦ commit_fields (ground arith)
    | inr short ↦ rw short (λ e. cc)
  ]

  decode_dhpart-ne-panic : decode_dhpart body ≢ panic
  unfolding decode_dhpart
  decode_dhpart-ne-panic = elim (Bool-cases (leb 66 (length body))) [
    | inl long ↦ dhpart_fields (ground arith)
    | inr short ↦ rw short (λ e. cc)
  ]

  decode_confirm-ne-panic : decode_confirm body ≢ panic
  unfolding decode_confirm
  decode_confirm-ne-panic = elim (Bool-cases (leb 26 (length body))) [
    | inl long ↦ confirm_fields (ground arith)
    | inr short ↦ rw short (λ e. cc)
  ]

if-ne-panic :
    {A : Type 0} (b : Bool) (m n : Outcome WireError A)
    → m ≢ panic
    → n ≢ panic
    → (if b then m else n) ≢ panic
if-ne-panic true m n h k = h
if-ne-panic false m n h k = k

as_message-ne-panic :
    {A : Type 0} (m : Outcome WireError A) (f : A → Message) → m ≢ panic → as_message m f ≢ panic
as_message-ne-panic m f h = >>=-ne-panic m _ h λ a e. cc

pub decode_body-ne-panic : (tag body : List ℕ) → decode_body tag body ≢ panic
unfolding decode_body
decode_body-ne-panic tag body =
    if-ne-panic (bytes_eq tag (codes "Hello")) _ _
      (as_message-ne-panic _ hello (decode_hello-ne-panic body))
      (if-ne-panic (bytes_eq tag (codes "Commit")) _ _
        (as_message-ne-panic _ commit (decode_commit-ne-panic body))
        (if-ne-panic (bytes_eq tag (codes "DHPart1")) _ _
          (as_message-ne-panic _ dh_part1 (decode_dhpart-ne-panic body))
          (if-ne-panic (bytes_eq tag (codes "DHPart2")) _ _
            (as_message-ne-panic _ dh_part2 (decode_dhpart-ne-panic body))
            (if-ne-panic (bytes_eq tag (codes "Confirm1")) _ _
              (as_message-ne-panic _ confirm1 (decode_confirm-ne-panic body))
              (if-ne-panic (bytes_eq tag (codes "Confirm2")) _ _
                (as_message-ne-panic _ confirm2 (decode_confirm-ne-panic body))
                (if-ne-panic (bytes_eq tag (codes "Conf2ACK")) _ _ (ok-ne-panic conf2_ack)
                  (err-ne-panic (unknown_message_type tag))))))))
