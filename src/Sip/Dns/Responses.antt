-- ===== src/Sip/Dns/Responses.antt =====
-- `parse_response` of wire/dns.rs on whatever bytes arrive.
use dee_lip.Prelude.{
  ℕ, zero, suc, ◌+◌, ◌≤◌, ◌≡◌, ◌≢◌, refl, sym, ◌∙◌, Bool, true, false, ◌&&◌, Option, none, some,
  List, [], ◌++◌, length, ltb, leb, ◌==◌, if◌then◌else◌, arith, of_be16, slice, slice-eq-ok, panic,
  >>=-ne-panic, ok-ne-panic, err-ne-panic, range_of,
}
use dee_lip.Sip.Dns.{
  Answer, Parsed, skip_name, skip_questions, decode_name, answer_of, record_at, read_answers,
  read_body, parse_response, qtype_a, qtype_aaaa, qtype_srv,
}

slice_fits : (buf : List ℕ) (i j : ℕ) → i ≤ j → j ≤ length buf → slice {E = List ℕ} buf i j ≢ panic
slice_fits buf i j h k e = ok-ne-panic (range_of buf i j) (sym (slice-eq-ok buf i j h k) ∙ e)

not_above : (n m : ℕ) → ltb n m ≡ false → m ≤ n
not_above n m h = ground arith

guarded :
    {A : Type 0} (b : Bool) (x y : Parsed A)
    → (b ≡ true → x ≢ panic)
    → (b ≡ false → y ≢ panic)
    → (if b then x else y) ≢ panic
guarded true x y f g = f refl
guarded false x y f g = g refl

optioned :
    {A B : Type 0} (o : Option A) (x : Parsed B) (f : A → Parsed B)
    → x ≢ panic
    → ((a : A) → f a ≢ panic)
    → elim o as (λ q. Parsed B) [ none ↦ x | some a ↦ f a ] ≢ panic
optioned none x f h k = h
optioned (some a) x f h k = k a

is_both : (n m : ℕ) (b : Bool) → b && (n == m) ≡ true → n ≡ m
is_both n m b h = ground arith

room : (n m : ℕ) (b : Bool) → b && leb n m ≡ true → n ≤ m
room n m b h = ground arith

module _ (buf : List ℕ) (qtype : ℕ) where
  answer_of-ne-panic :
      (rdata rdlen : ℕ) → rdata + rdlen ≤ length buf → answer_of buf qtype rdata rdlen ≢ panic
  unfolding answer_of
  answer_of-ne-panic rdata rdlen fits =
      guarded (qtype == qtype_a && rdlen == 4) _ _
        (λ h.
          >>=-ne-panic _ _
            (slice_fits buf rdata (rdata + 4) (omega arith)
              (omega (arith, is_both rdlen 4 (qtype == qtype_a) h)))
            (λ b. ok-ne-panic _))
        (λ h.
          guarded (qtype == qtype_aaaa && rdlen == 16) _ _
            (λ k.
              >>=-ne-panic _ _
                (slice_fits buf rdata (rdata + 16) (omega arith)
                  (omega (arith, is_both rdlen 16 (qtype == qtype_aaaa) k)))
                (λ b. ok-ne-panic _))
            (λ k.
              guarded (qtype == qtype_srv && leb 6 rdlen) _ _
                (λ j.
                  let long = room 6 rdlen (qtype == qtype_srv) j in
                  >>=-ne-panic _ _ (slice_fits buf rdata (rdata + 2) (omega arith) (omega arith))
                    (λ p.
                      >>=-ne-panic _ _
                        (slice_fits buf (rdata + 4) (rdata + 6) (omega arith) (omega arith))
                        (λ q. ok-ne-panic _)))
                (λ j. ok-ne-panic _)))

  record_at-ne-panic : (pos : ℕ) → record_at buf qtype pos ≢ panic
  unfolding record_at
  record_at-ne-panic pos =
      guarded (ltb (length buf) (pos + 10)) _ _ (λ h. ok-ne-panic _)
        (λ h.
          let room = not_above (length buf) (pos + 10) h in
          >>=-ne-panic _ _ (slice_fits buf pos (pos + 2) (omega arith) (omega arith)) (λ rtype.
            >>=-ne-panic _ _ (slice_fits buf (pos + 8) (pos + 10) (omega arith) (omega arith))
              (λ len.
                guarded (ltb (length buf) (pos + 10 + of_be16 len)) _ _ (λ k. ok-ne-panic _)
                  (λ k.
                    >>=-ne-panic _ _
                      (guarded (of_be16 rtype == qtype) _ _
                        (λ j.
                          answer_of-ne-panic (pos + 10) (of_be16 len)
                            (not_above (length buf) (pos + 10 + of_be16 len) k))
                        (λ j. ok-ne-panic _))
                      (λ more. ok-ne-panic _)))))

  read_answers-ne-panic :
      (n pos : ℕ) (answers : List Answer) → read_answers n buf qtype pos answers ≢ panic
  unfolding read_answers
  read_answers-ne-panic zero pos answers = ok-ne-panic answers
  read_answers-ne-panic (suc n) pos answers =
      optioned (decode_name buf pos) _ _ (err-ne-panic _) (λ named.
        >>=-ne-panic _ _ (record_at-ne-panic named.1) (λ r.
          optioned r _ _ (ok-ne-panic answers)
            (λ found. read_answers-ne-panic n found.1 (answers ++ found.0))))

skip_questions-ne-panic : (n : ℕ) (buf : List ℕ) (pos : ℕ) → skip_questions n buf pos ≢ panic
unfolding skip_questions
skip_questions-ne-panic zero buf pos = ok-ne-panic pos
skip_questions-ne-panic (suc n) buf pos =
    optioned (skip_name buf pos) _ _ (err-ne-panic _)
      (λ next. skip_questions-ne-panic n buf (next + 4))

read_body-ne-panic : (buf : List ℕ) (qtype : ℕ) → 12 ≤ length buf → read_body buf qtype ≢ panic
read_body-ne-panic buf qtype long =
    >>=-ne-panic _ _ (slice_fits buf 4 6 (omega arith) (omega arith)) (λ qdcount.
      >>=-ne-panic _ _ (slice_fits buf 6 8 (omega arith) (omega arith)) (λ ancount.
        >>=-ne-panic _ _ (skip_questions-ne-panic (of_be16 qdcount) buf 12)
          (λ pos. read_answers-ne-panic buf qtype (of_be16 ancount) pos [])))

-- Whatever bytes arrive, `parse_response` gives answers or an error: no index and no range of it is out of
-- bounds.
pub parse_response-ne-panic :
    (buf : List ℕ) (expected_id qtype : ℕ) → parse_response buf expected_id qtype ≢ panic
unfolding parse_response
parse_response-ne-panic buf expected_id qtype =
    guarded (ltb (length buf) 12) _ _ (λ h. err-ne-panic _)
      (λ h.
        let long = not_above (length buf) 12 h in
        >>=-ne-panic _ _ (slice_fits buf 0 2 (omega arith) (omega arith)) (λ id.
          guarded (of_be16 id == expected_id) _ _ (λ k. read_body-ne-panic buf qtype long)
            (λ k. err-ne-panic _)))
