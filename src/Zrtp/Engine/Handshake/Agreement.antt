-- ===== src/Zrtp/Engine/Handshake/Agreement.antt =====
-- The exchange of Handshake.antt ends with both engines secure under one set of keys.
use dee_lip.Prelude.{
  ℕ, ◌≡◌, refl, ◌∙◌, none, some, List, [], ◌∷◌, ◌++◌, length, ok, bytes_eq_refl, bytes_eq,
  take-append_exact, be32, ==_iff,
}
use dee_lip.Zrtp.Wire.Types.{
  Message, Hello, Commit, DhPart, Confirm, hello, commit, dh_part1, dh_part2, confirm1, confirm2,
  conf2_ack, IsMessage,
}
use dee_lip.Zrtp.Wire.Encode.{encode}
use dee_lip.Zrtp.Wire.RoundTrip.{decode-encode}
use dee_lip.Zrtp.Crypto.{
  message_mac, Primitives, HashChain, SrtpKeys, generate_hash_chain, compute_hvi, total_hash,
  derive_s0, kdf_context, derive_srtp_keys, derive_mac_keys, derive_zrtp_keys, derive_sas,
  generate_ec25_keypair, ec25_shared_secret,
}
use dee_lip.Zrtp.Cache.{SharedSecretStore}
use dee_lip.Zrtp.Engine.Types.{
  initiator, responder, hello_received, commit_sent, dh_part1_sent, dh_part2_sent, confirm1_sent,
  confirm2_sent, secure, send, sas_ready, secure_on, ZrtpEngine, Entropy, Handled,
}
use dee_lip.Zrtp.Engine.Build.{contains, hello_of, dhpart_of, commit_of, new, start}
use dee_lip.Zrtp.Engine.Steps.{
  early, with_shared_secret, finish_key_agreement, zids, become_secure, confirm_of, secure_session,
  check_confirm, persist,
}
use dee_lip.Zrtp.Engine.Handlers.{
  send_commit, send_dhpart1, send_confirm1, on_hello, on_commit, on_dhpart1, on_dhpart2,
  on_confirm1, on_confirm2, on_conf2ack, dispatch, receive,
}
use dee_lip.Zrtp.Engine.Handshake.{Laws, Side, IsSide, entropy_of, exchange, Agreed}
use dee_lip.Zrtp.Engine.Handshake.Messages.{
  hello_of-IsHello, commit_of-IsCommit, dhpart_of-IsDhPart, confirm_of-IsConfirm, chain_h2,
  chain_h1, chain_h1_h2, chain_h0, length-h0, long_payload,
}

module _ {K S : Type 0} (p : Primitives K) (laws : Laws p) (secrets : SharedSecretStore S) where
  -- A message that an engine built is received as itself.
  receive-encode :
      (m : Message)
      → IsMessage m
      → (e : ZrtpEngine K S) (entropy : Entropy K)
      → receive p secrets (encode p.crc32 m) e entropy
        ≡ dispatch p secrets m e.state e.role (encode p.crc32 m) e entropy
  unfolding receive
  receive-encode m w e entropy = rw (decode-encode p.crc32 laws.crc32_u32 m w)

  -- The checks of a Confirm message hold of one that its own sender built.
  confirm_accepted :
      (random zrtp_key mackey iv : List ℕ) (e : ZrtpEngine K S) (next : Handled K S)
      → length random ≡ 32
      → check_confirm p
          (confirm_of p zrtp_key mackey (generate_hash_chain p random).h0 iv)
          zrtp_key
          mackey
          (some (generate_hash_chain p random).h1)
          e
          next
        ≡ next
  unfolding early check_confirm confirm_of
  confirm_accepted random zrtp_key mackey iv e next h =
      let h0 = (generate_hash_chain p random).h0 in
      rw (
        bytes_eq_refl (message_mac p mackey (p.confirm_encrypt zrtp_key iv (h0 ++ be32 3600))),
        laws.cfb_undone zrtp_key iv (h0 ++ be32 3600),
        long_payload p laws h0 (length-h0 p laws random h),
        take-append_exact h0 (be32 3600) 32 (length-h0 p laws random h),
        chain_h0 p laws random,
      )

  module _ (a b : Side K S) (wa : IsSide a) (wb : IsSide b) where
    abbrev chain_i : HashChain
    chain_i = generate_hash_chain p a.random

    abbrev chain_r : HashChain
    chain_r = generate_hash_chain p b.random

    abbrev hello_i : Hello
    hello_i = hello_of p chain_i a.zid a.client_id

    abbrev hello_r : Hello
    hello_r = hello_of p chain_r b.zid b.client_id

    abbrev raw : Message → List ℕ
    raw = encode p.crc32

    abbrev part2 : DhPart
    part2 = dhpart_of p dh_part2 chain_i (p.public_bytes a.private)

    abbrev part1 : DhPart
    part1 = dhpart_of p dh_part1 chain_r (p.public_bytes b.private)

    abbrev commit_i : Commit
    commit_i =
        commit_of p chain_i a.zid (compute_hvi p (raw (dh_part2 part2)) (raw (hello hello_r)))

    abbrev e_i : Entropy K
    e_i = entropy_of a

    abbrev e_r : Entropy K
    e_r = entropy_of b

    i0 : ZrtpEngine K S
    unfolding new start
    i0 = (start p (new p initiator a.zid a.client_id a.random a.store)).1

    r0 : ZrtpEngine K S
    unfolding new start
    r0 = (start p (new p responder b.zid b.client_id b.random b.store)).1

    i1 : ZrtpEngine K S
    unfolding i0
    i1 = record i0 {
      remote_zid = some b.zid;
      remote_hello_bytes = some (raw (hello hello_r));
      remote_hello = some hello_r;
      local_keypair = some (generate_ec25_keypair p a.private);
      dhpart2_bytes = some (raw (dh_part2 part2));
      commit_bytes = some (raw (commit commit_i));
      commit = some commit_i;
      state = commit_sent;
    }

    step_i1 :
        receive p secrets (raw (hello hello_r)) i0 e_i ≡ (ok (send (commit commit_i) ∷ []), i1)
    unfolding i1 early on_hello send_commit dispatch hello_of contains bytes_eq
        generate_ec25_keypair
    step_i1 =
        receive-encode (hello hello_r)
          (hello_of-IsHello p laws b.random b.zid b.client_id wb.zid_12 wb.client_id_16) i0 e_i

    r1 : ZrtpEngine K S
    unfolding r0
    r1 = record r0 {
      remote_zid = some a.zid;
      remote_hello_bytes = some (raw (hello hello_i));
      remote_hello = some hello_i;
      state = hello_received;
    }

    step_r1 : receive p secrets (raw (hello hello_i)) r0 e_r ≡ (ok [], r1)
    unfolding r1 early on_hello send_commit dispatch hello_of contains bytes_eq
    step_r1 =
        receive-encode (hello hello_i)
          (hello_of-IsHello p laws a.random a.zid a.client_id wa.zid_12 wa.client_id_16) r0 e_r

    r2 : ZrtpEngine K S
    unfolding r1
    r2 = record r1 {
      commit_bytes = some (raw (commit commit_i));
      commit = some commit_i;
      local_keypair = some (generate_ec25_keypair p b.private);
      dhpart1_bytes = some (raw (dh_part1 part1));
      state = dh_part1_sent;
    }

    step_r2 :
        receive p secrets (raw (commit commit_i)) r1 e_r ≡ (ok (send (dh_part1 part1) ∷ []), r2)
    unfolding r2 early on_commit send_dhpart1 dispatch hello_of commit_of bytes_eq
        generate_ec25_keypair
    step_r2 =
        receive-encode (commit commit_i) (commit_of-IsCommit p laws a.random a.zid _ _ wa.zid_12) r1
          e_r
        ∙ rw (chain_h2 p laws a.random)

    abbrev shared : List ℕ
    shared = laws.shared a.private b.private

    th : List ℕ
    th =
        total_hash p (raw (hello hello_r)) (raw (commit commit_i)) (raw (dh_part1 part1))
          (raw (dh_part2 part2))

    s0 : List ℕ
    s0 = derive_s0 p shared a.zid b.zid th none

    context : List ℕ
    context = kdf_context a.zid b.zid th

    abbrev keys : SrtpKeys
    keys = derive_srtp_keys p s0 context

    abbrev mac_keys : List ℕ × List ℕ
    mac_keys = derive_mac_keys p s0 context

    abbrev zrtp_keys : List ℕ × List ℕ
    zrtp_keys = derive_zrtp_keys p s0 context

    abbrev sas : ℕ × List ℕ
    sas = derive_sas p s0 context

    i2 : ZrtpEngine K S
    unfolding i1
    i2 = record i1 {
      dhpart1_h1 = some chain_r.h1;
      dhpart1_bytes = some (raw (dh_part1 part1));
      local_keypair = none;
      total_hash = some th;
      srtp_keys = some keys;
      mac_keys = some mac_keys;
      zrtp_keys = some zrtp_keys;
      sas = some (derive_sas p s0 context);
      s0 = some s0;
      state = dh_part2_sent;
    }

    step_i2 :
        receive p secrets (raw (dh_part1 part1)) i1 e_i
        ≡ (ok (send (dh_part2 part2) ∷ sas_ready sas.1 ∷ []), i2)
    unfolding i2 early on_dhpart1 with_shared_secret finish_key_agreement zids dispatch hello_of
        dhpart_of th s0 context generate_ec25_keypair ec25_shared_secret
    step_i2 =
        receive-encode (dh_part1 part1) (dhpart_of-IsDhPart p laws b.random dh_part1 b.private) i1
          e_i
        ∙ rw (
          chain_h1 p laws b.random,
          (==_iff (length (p.public_bytes b.private)) 64).1 (laws.public_64 b.private),
          laws.agree_left a.private b.private,
          decode-encode p.crc32 laws.crc32_u32 (dh_part2 part2)
              (dhpart_of-IsDhPart p laws a.random dh_part2 a.private),
        )

    abbrev conf1 : Confirm
    conf1 = confirm_of p zrtp_keys.1 mac_keys.1 chain_r.h0 b.iv

    r3 : ZrtpEngine K S
    unfolding r2
    r3 = record r2 {
      dhpart2_h1 = some chain_i.h1;
      local_keypair = none;
      total_hash = some th;
      srtp_keys = some keys;
      mac_keys = some mac_keys;
      zrtp_keys = some zrtp_keys;
      sas = some sas;
      s0 = some s0;
      state = confirm1_sent;
    }

    step_r3 :
        receive p secrets (raw (dh_part2 part2)) r2 e_r
        ≡ (ok (send (confirm1 conf1) ∷ sas_ready sas.1 ∷ []), r3)
    unfolding r3 early on_dhpart2 send_confirm1 with_shared_secret finish_key_agreement zids
        dispatch hello_of dhpart_of commit_of th s0 context generate_ec25_keypair ec25_shared_secret
    step_r3 =
        receive-encode (dh_part2 part2) (dhpart_of-IsDhPart p laws a.random dh_part2 a.private) r2
          e_r
        ∙ rw (
          chain_h1_h2 p laws a.random,
          bytes_eq_refl (compute_hvi p (raw (dh_part2 part2)) (raw (hello hello_r))),
          (==_iff (length (p.public_bytes a.private)) 64).1 (laws.public_64 a.private),
          laws.agree_right a.private b.private,
        )

    abbrev conf2 : Confirm
    conf2 = confirm_of p zrtp_keys.0 mac_keys.0 chain_i.h0 a.iv

    i3 : ZrtpEngine K S
    unfolding i2
    i3 = record i2 { state = confirm2_sent }

    step_i3 :
        receive p secrets (raw (confirm1 conf1)) i2 e_i ≡ (ok (send (confirm2 conf2) ∷ []), i3)
    unfolding i3 on_confirm1 dispatch
    step_i3 =
        receive-encode (confirm1 conf1)
          (confirm_of-IsConfirm p laws zrtp_keys.1 mac_keys.1 chain_r.h0 b.iv
            (length-h0 p laws b.random wb.random_32) wb.iv_16)
          i2 e_i
        ∙ confirm_accepted b.random zrtp_keys.1 mac_keys.1 b.iv i2
            (ok (send (confirm2 conf2) ∷ []), i3) wb.random_32

    r4 : ZrtpEngine K S
    unfolding r3
    r4 = persist p secrets (some a.zid) (some s0) (record r3 { state = secure })

    step_r4 :
        receive p secrets (raw (confirm2 conf2)) r3 e_r
        ≡ (ok (send conf2_ack ∷ secure_on (secure_session keys responder) ∷ []), r4)
    unfolding r4 on_confirm2 become_secure dispatch
    step_r4 =
        receive-encode (confirm2 conf2)
          (confirm_of-IsConfirm p laws zrtp_keys.0 mac_keys.0 chain_i.h0 a.iv
            (length-h0 p laws a.random wa.random_32) wa.iv_16)
          r3 e_r
        ∙ confirm_accepted a.random zrtp_keys.0 mac_keys.0 a.iv r3
            (ok (send conf2_ack ∷ secure_on (secure_session keys responder) ∷ []), r4) wa.random_32

    i4 : ZrtpEngine K S
    unfolding i3
    i4 = persist p secrets (some b.zid) (some s0) (record i3 { state = secure })

    step_i4 :
        receive p secrets (raw conf2_ack) i3 e_i
        ≡ (ok (secure_on (secure_session keys initiator) ∷ []), i4)
    unfolding i4 on_conf2ack become_secure dispatch
    step_i4 = receive-encode conf2_ack tt i3 e_i

    exchange_lem : exchange p secrets a b ≡ (
      (ok (secure_on (secure_session keys initiator) ∷ []), i4),
      (ok (send conf2_ack ∷ secure_on (secure_session keys responder) ∷ []), r4),
    )
    unfolding exchange i0 r0
    exchange_lem = rw (step_i1, step_r1, step_r2, step_i2, step_r3, step_i3, step_r4, step_i4)

    agreed : Agreed p secrets a b (exchange p secrets a b)
    unfolding i4 r4
    agreed = rw exchange_lem (record {
      keys = keys;
      sas = sas;
      rs1 = p.sha256 s0;
      initiator_session = refl;
      responder_session = refl;
      initiator_secure = refl;
      responder_secure = refl;
      initiator_sas = refl;
      responder_sas = refl;
      initiator_stored = refl;
      responder_stored = refl;
    })

-- Where digests, public keys and checksums have their sizes, decryption undoes encryption and
-- either private key agrees with the other's public key on one value, and where both sides have
-- ZIDs, client identifiers and random values of the right sizes: the exchange of their messages,
-- delivered in order, ends with both engines in the state `Secure`; each announces a session under
-- one and the same set of SRTP keys, in its own role, both hold the same short authentication
-- string, and each has stored one secret under the pair of ZIDs.
pub exchange_agrees :
    {K S : Type 0} (p : Primitives K) (secrets : SharedSecretStore S) (a b : Side K S)
    → Laws p
    → IsSide a
    → IsSide b
    → Agreed p secrets a b (exchange p secrets a b)
exchange_agrees p secrets a b laws wa wb = agreed p laws secrets a b wa wb
