-- ===== src/Zrtp/Wire/Bodies.antt =====
-- The `decode_*` functions of wire.rs undo the `encode_*` functions.
use dee_lip.Prelude.{
  ℕ, ◌<◌, ◌≡◌, refl, List, [], ◌∷◌, ◌++◌, length, At, At-next, At-start, ok, arith, true, false,
  Bool, not, ◌==◌, ◌≤◌, leb, be16, u16, of_be16, get_range-at, append-nil, sym, subst,
}
use dee_lip.Zrtp.Wire.Types.{
  Hello, Commit, DhPart, Confirm, IsHello, IsCommit, IsDhPart, IsConfirm, truncated,
}
use dee_lip.Zrtp.Wire.Encode.{of_bool, encode_hello, encode_commit, encode_dhpart, encode_confirm}
use dee_lip.Zrtp.Wire.Decode.{decode_hello, decode_commit, decode_dhpart, decode_confirm}
use dee_lip.Zrtp.Wire.Cursor.{reads, byte_at-at, decode_algo_list-At}
use dee_lip.Zrtp.Wire.Sizes.{
  length-encode_hello, length-encode_commit, length-encode_dhpart, length-encode_confirm,
}

size_kept : (n : ℕ) → n < 65536 → of_be16 (be16 (u16 n)) ≡ n
size_kept n h = omega arith

pub At-all : {body : List ℕ} {pos : ℕ} (b : List ℕ) → At body pos b → At body pos (b ++ [])
At-all b at = subst (At _ _) (sym (append-nil b)) at

flag_kept : (b : Bool) → not (of_bool b == 0) ≡ b
flag_kept true = refl
flag_kept false = refl

module _ (body : List ℕ) where
  confirm_of :
      (c : Confirm)
      → IsConfirm c
      → At body 0 (encode_confirm c)
      → leb 26 (length body) ≡ true
      → decode_confirm body ≡ ok c
  unfolding encode_confirm decode_confirm
  confirm_of c h at long =
      let r1 = reads c.confirm_mac 8 h.confirm_mac_8 at in
      let r2 = reads c.cfb_iv 16 h.cfb_iv_16 r1.next in
      let r3 = reads (be16 (u16 (length c.encrypted))) 2 refl r2.next in
      let size = size_kept (length c.encrypted) (omega (arith, h.encrypted_fits)) in
      rw (
        long,
        r1.takes,
        r2.takes,
        r3.takes,
        size,
        get_range-at c.encrypted [] (length c.encrypted) (At-all c.encrypted r3.next) refl
            truncated,
      )

  dhpart_of :
      (d : DhPart)
      → IsDhPart d
      → At body 0 (encode_dhpart d)
      → leb 66 (length body) ≡ true
      → decode_dhpart body ≡ ok d
  unfolding encode_dhpart decode_dhpart
  dhpart_of d h at long =
      let r1 = reads d.h1 32 h.h1_32 at in
      let r2 = reads d.rs1_id 8 h.rs1_id_8 r1.next in
      let r3 = reads d.rs2_id 8 h.rs2_id_8 r2.next in
      let r4 = reads d.aux_id 8 h.aux_id_8 r3.next in
      let r5 = reads d.pbx_id 8 h.pbx_id_8 r4.next in
      let r6 = reads (be16 (u16 (length d.pv))) 2 refl r5.next in
      let size = size_kept (length d.pv) (omega (arith, h.pv_fits)) in
      let at_mac = At-next d.pv d.mac (length d.pv) r6.next refl in
      rw (
        long,
        r1.takes,
        r2.takes,
        r3.takes,
        r4.takes,
        r5.takes,
        r6.takes,
        size,
        get_range-at d.pv d.mac (length d.pv) r6.next refl truncated,
        get_range-at d.mac [] 8 (At-all d.mac at_mac) h.mac_8 truncated,
      )

  commit_of :
      (c : Commit)
      → IsCommit c
      → At body 0 (encode_commit c)
      → leb 104 (length body) ≡ true
      → decode_commit body ≡ ok c
  unfolding encode_commit decode_commit
  commit_of c h at long =
      let r1 = reads c.h2 32 h.h2_32 at in
      let r2 = reads c.zid 12 h.zid_12 r1.next in
      let r3 = reads c.hash 4 h.hash_4 r2.next in
      let r4 = reads c.cipher 4 h.cipher_4 r3.next in
      let r5 = reads c.auth 4 h.auth_4 r4.next in
      let r6 = reads c.key_agreement 4 h.key_agreement_4 r5.next in
      let r7 = reads c.sas 4 h.sas_4 r6.next in
      let r8 = reads c.hvi 32 h.hvi_32 r7.next in
      let r9 = reads c.mac 8 h.mac_8 (At-all c.mac r8.next) in
      rw (
        long, r1.takes, r2.takes, r3.takes, r4.takes, r5.takes, r6.takes, r7.takes, r8.takes,
        r9.takes,
      )

  hello_of :
      (h : Hello)
      → IsHello h
      → At body 0 (encode_hello h)
      → leb 65 (length body) ≡ true
      → decode_hello body ≡ ok h
  unfolding encode_hello decode_hello
  hello_of h w at long =
      let r1 = reads h.version 4 w.version_4 at in
      let r2 = reads h.client_id 16 w.client_id_16 r1.next in
      let r3 = reads h.h3 32 w.h3_32 r2.next in
      let r4 = reads h.zid 12 w.zid_12 r3.next in
      let r5 = reads (of_bool h.mitm_capable ∷ []) 1 refl r4.next in
      let l1 = decode_algo_list-At body 65 h.hashes _ w.hashes_fit r5.next in
      let l2 = decode_algo_list-At body l1.end h.ciphers _ w.ciphers_fit l1.at_end in
      let l3 = decode_algo_list-At body l2.end h.auths _ w.auths_fit l2.at_end in
      let l4 = decode_algo_list-At body l3.end h.key_agreements _ w.key_agreements_fit l3.at_end in
      let l5 = decode_algo_list-At body l4.end h.sas_types _ w.sas_types_fit l4.at_end in
      rw (
        long,
        r1.takes,
        r2.takes,
        r3.takes,
        r4.takes,
        byte_at-at (of_bool h.mitm_capable) _ r4.next,
        l1.reads,
        l2.reads,
        l3.reads,
        l4.reads,
        l5.reads,
        get_range-at h.mac [] 8 (At-all h.mac l5.at_end) w.mac_8 truncated,
        flag_kept h.mitm_capable,
      )

long_enough : (k n : ℕ) → k ≤ n → leb k n ≡ true
long_enough k n h = ground arith

pub decode_hello-encode_hello : (h : Hello) → IsHello h → decode_hello (encode_hello h) ≡ ok h
decode_hello-encode_hello h w =
    hello_of _ h w (At-start _) (long_enough _ _ (omega (arith, length-encode_hello h w)))

pub decode_commit-encode_commit : (c : Commit) → IsCommit c → decode_commit (encode_commit c) ≡ ok c
decode_commit-encode_commit c w =
    commit_of _ c w (At-start _) (long_enough _ _ (omega (arith, length-encode_commit c w)))

pub decode_dhpart-encode_dhpart : (d : DhPart) → IsDhPart d → decode_dhpart (encode_dhpart d) ≡ ok d
decode_dhpart-encode_dhpart d w =
    dhpart_of _ d w (At-start _) (long_enough _ _ (omega (arith, length-encode_dhpart d w)))

pub decode_confirm-encode_confirm :
    (c : Confirm) → IsConfirm c → decode_confirm (encode_confirm c) ≡ ok c
decode_confirm-encode_confirm c w =
    confirm_of _ c w (At-start _) (long_enough _ _ (omega (arith, length-encode_confirm c w)))
