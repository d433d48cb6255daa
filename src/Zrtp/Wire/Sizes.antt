-- ===== src/Zrtp/Wire/Sizes.antt =====
-- The lengths of the bodies that wire.rs writes.
use dee_lip.Prelude.{
  ℕ, ◌+◌, ◌*◌, ◌≤◌, ◌≡◌, refl, List, [], ◌∷◌, length, length-append, arith, All, ◌<◌,
}
use dee_lip.Zrtp.Wire.Types.{
  Hello, Commit, DhPart, Confirm, IsHello, IsCommit, IsDhPart, IsConfirm, IsArray, IsAlgoList,
  Message, IsMessage, hello, commit, dh_part1, dh_part2, confirm1, confirm2, conf2_ack,
}
use dee_lip.Zrtp.Wire.Encode.{
  algos, encode_algo_list, encode_hello, encode_commit, encode_dhpart, encode_confirm, encode_body,
}

length-algos : (l : List (List ℕ)) → All (IsArray 4) l → length (algos l) ≡ 4 * length l
unfolding algos
length-algos [] h = refl
length-algos (a ∷ l) h = omega (arith, length-append a (algos l), length-algos l h.1, h.0)

pub length-encode_algo_list :
    (l : List (List ℕ)) → IsAlgoList l → length (encode_algo_list l) ≤ 1021
unfolding encode_algo_list
length-encode_algo_list l h = omega (arith, length-algos l h.1, h.0)

pub length-encode_hello :
    (h : Hello) → IsHello h → (73 ≤ length (encode_hello h)) × (length (encode_hello h) ≤ 5178)
unfolding encode_hello
length-encode_hello h w = omega (
  arith,
  length-append {0},
  length-encode_algo_list h.hashes w.hashes_fit,
  length-encode_algo_list h.ciphers w.ciphers_fit,
  length-encode_algo_list h.auths w.auths_fit,
  length-encode_algo_list h.key_agreements w.key_agreements_fit,
  length-encode_algo_list h.sas_types w.sas_types_fit,
)

pub length-encode_commit : (c : Commit) → IsCommit c → length (encode_commit c) ≡ 104
unfolding encode_commit
length-encode_commit c w = omega (arith, length-append {0})

pub length-encode_dhpart : (d : DhPart) → IsDhPart d → length (encode_dhpart d) ≡ 74 + length d.pv
unfolding encode_dhpart
length-encode_dhpart d w = omega (arith, length-append {0})

pub length-encode_confirm :
    (c : Confirm) → IsConfirm c → length (encode_confirm c) ≡ 26 + length c.encrypted
unfolding encode_confirm
length-encode_confirm c w = omega (arith, length-append {0})

-- The two-byte length of a message holds its body.
pub length-encode_body : (m : Message) → IsMessage m → length (encode_body m) + 12 < 65536
unfolding encode_body
length-encode_body (hello h) w = omega (arith, length-encode_hello h w)
length-encode_body (commit c) w = omega (arith, length-encode_commit c w)
length-encode_body (dh_part1 d) w = omega (arith, length-encode_dhpart d w, w.pv_fits)
length-encode_body (dh_part2 d) w = omega (arith, length-encode_dhpart d w, w.pv_fits)
length-encode_body (confirm1 c) w = omega (arith, length-encode_confirm c w, w.encrypted_fits)
length-encode_body (confirm2 c) w = omega (arith, length-encode_confirm c w, w.encrypted_fits)
length-encode_body conf2_ack w = omega arith
