-- ===== src/Zrtp/Wire/Cursor.antt =====
-- Readers at a known place of a body (`take_array`, `get_byte`, `decode_algo_list` of wire.rs).
use dee_lip.Prelude.{
  ◌<◌, ℕ, ◌+◌, ◌≡◌, refl, sym, ap, ◌∙◌, List, [], ◌∷◌, ◌++◌, length, some, get_elem?, All, At,
  At-next, slice-at, get_range-at, ok, arith, append_assoc, ==_iff, u8,
}
use dee_lip.Zrtp.Wire.Types.{truncated, IsAlgoList, IsArray}
use dee_lip.Zrtp.Wire.Encode.{algos, encode_algo_list}
use dee_lip.Zrtp.Wire.Decode.{take_array, byte_at, get_byte, decode_algos, decode_algo_list}

get_elem?-append : (xs ys : List ℕ) (b : ℕ) → get_elem? (xs ++ b ∷ ys) (length xs) ≡ some b
get_elem?-append [] ys b = refl
get_elem?-append (x ∷ xs) ys b = get_elem?-append xs ys b

-- `b` stands at `pos`, and a reader takes it.
pub record Reads (body : List ℕ) (pos n : ℕ) (b rest : List ℕ) : Type 0 where
  pub takes : take_array body pos n ≡ ok (b, pos + n)
  pub next : At body (pos + n) rest

pub reads :
    {body : List ℕ} {pos : ℕ} {rest : List ℕ} (b : List ℕ) (n : ℕ)
    → length b ≡ n
    → At body pos (b ++ rest)
    → Reads body pos n b rest
unfolding take_array
reads {rest} b n fits at = record {
  takes = rw (slice-at b rest n at fits, (==_iff (length b) n).1 fits);
  next = At-next b rest n at fits;
}

module _ {body : List ℕ} {pos : ℕ} (b : ℕ) (rest : List ℕ) (at : At body pos (b ∷ rest)) where
  elem_at : get_elem? body pos ≡ some b
  elem_at =
      ap (λ l. get_elem? l pos) at.split
      ∙ ap (get_elem? (at.before ++ b ∷ rest)) (sym at.width)
      ∙ get_elem?-append at.before rest b

  pub byte_at-at : byte_at body pos ≡ ok b
  unfolding byte_at
  byte_at-at = rw (elem_at, byte_at)

  pub get_byte-at : get_byte body pos ≡ ok b
  unfolding get_byte
  get_byte-at = rw (elem_at, get_byte)

-- The place behind a list of algorithms that stands at `pos`.
pub record ReadList (body : List ℕ) (pos : ℕ) (l : List (List ℕ)) (rest : List ℕ) : Type 0 where
  pub end : ℕ
  pub reads : decode_algo_list body pos ≡ ok (l, end)
  pub at_end : At body end rest

record ReadAlgos (body : List ℕ) (pos : ℕ) (l : List (List ℕ)) (rest : List ℕ) : Type 0 where
  end : ℕ
  reads : decode_algos body (length l) pos ≡ ok (l, end)
  at_end : At body end rest

decode_algos-At :
    (body : List ℕ) (pos : ℕ) (l : List (List ℕ)) (rest : List ℕ)
    → All (IsArray 4) l
    → At body pos (algos l ++ rest)
    → ReadAlgos body pos l rest
unfolding decode_algos algos
decode_algos-At body pos [] rest h at = record { end = pos; reads = refl; at_end = at }
decode_algos-At body pos (a ∷ l) rest h at =
    let at' : At body pos (a ++ (algos l ++ rest)) = rw (← append_assoc) at in
    let more = decode_algos-At body (pos + 4) l rest h.1 (At-next a (algos l ++ rest) 4 at' h.0) in
    record {
      end = more.end;
      reads = rw (get_range-at a (algos l ++ rest) 4 at' h.0 truncated, more.reads);
      at_end = more.at_end;
    }

u8-eq : (n : ℕ) → n < 256 → u8 n ≡ n
u8-eq n h = omega arith

pub decode_algo_list-At :
    (body : List ℕ) (pos : ℕ) (l : List (List ℕ)) (rest : List ℕ)
    → IsAlgoList l
    → At body pos (encode_algo_list l ++ rest)
    → ReadList body pos l rest
unfolding decode_algo_list encode_algo_list
decode_algo_list-At body pos l rest h at =
    let more =
      decode_algos-At body (pos + 1) l rest h.1
        (At-next (u8 (length l) ∷ []) (algos l ++ rest) 1 at refl) in
    record {
      end = more.end;
      reads =
          rw (get_byte-at (u8 (length l)) (algos l ++ rest) at)
            (rw (u8-eq (length l) h.0) more.reads);
      at_end = more.at_end;
    }
