-- ===== src/Zrtp/Engine/Tests.antt =====
-- The theorems of the ZRTP engine at concrete inputs, over toy primitives.
use dee_lip.Prelude.{
  ◌↔◌, ◌/◌, ◌^◌, bytes_eq, ok, err, panic, ℕ, ◌≡◌, refl, some, List, [], ◌∷◌, replicate, arith,
}
use dee_lip.Zrtp.Wire.Types.{DhPart, Hello, dh_part1}
use dee_lip.Zrtp.Wire.Encode.{encode}
use dee_lip.Zrtp.Wire.Decode.{decode}
use dee_lip.Zrtp.Wire.RoundTrip.{decode-encode}
use dee_lip.Zrtp.Wire.Panics.{decode-panic_iff}
use dee_lip.Zrtp.Engine.Toy.{toy, toy-Laws}
use dee_lip.Zrtp.Crypto.Sas.{render_sas_base32-eq_iff}
use dee_lip.Zrtp.Crypto.{
  render_sas_base32, hash_forward, generate_ec25_keypair, generate_hash_chain,
  verify_hash_chain_hop,
}
use dee_lip.Zrtp.Engine.Types.{ZrtpEngine, Entropy, initiator, commit_sent, unexpected_message}
use dee_lip.Zrtp.Engine.Build.{new, start, hello_of}
use dee_lip.Zrtp.Engine.Handlers.{receive}
use dee_lip.Zrtp.Engine.Safety.{AbortsOn}
use dee_lip.Zrtp.Engine.Safety.Receive.{begun, receive_aborts, key_pair_spent}
use dee_lip.Zrtp.Cache.{MemorySharedSecretStore, memory_store}
use dee_lip.Zrtp.Engine.Handshake.{Side, exchange, Agreed}
use dee_lip.Zrtp.Engine.Handshake.Agreement.{exchange_agrees}

abbrev alice : Side ℕ MemorySharedSecretStore
alice = record {
  zid = replicate 12 1;
  client_id = replicate 16 32;
  random = replicate 32 5;
  private = 3;
  iv = replicate 16 0;
  store = record { entries = [] };
}

abbrev bob : Side ℕ MemorySharedSecretStore
bob = record {
  zid = replicate 12 2;
  client_id = replicate 16 32;
  random = replicate 32 6;
  private = 4;
  iv = replicate 16 0;
  store = record { entries = [] };
}

exchange_agrees_example : Agreed toy memory_store alice bob (exchange toy memory_store alice bob)
exchange_agrees_example =
    exchange_agrees toy memory_store alice bob toy-Laws
      (record { zid_12 = refl; client_id_16 = refl; random_32 = refl; iv_16 = refl })
      (record { zid_12 = refl; client_id_16 = refl; random_32 = refl; iv_16 = refl })

-- A peer whose frame is shorter than a message type.
abbrev tiny : List ℕ
tiny = 0x50 ∷ 0x5a ∷ 0 ∷ 4 ∷ 0 ∷ 0 ∷ 0 ∷ 0 ∷ replicate 8 0

abbrev entropy : Entropy ℕ
entropy = record { private = 3; iv = replicate 16 0 }

abbrev empty_store : MemorySharedSecretStore
empty_store = record { entries = [] }

abbrev begun_alice : ZrtpEngine ℕ MemorySharedSecretStore
begun_alice =
    (start toy
      (new toy initiator (replicate 12 1) (replicate 16 32) (replicate 32 5) empty_store)).1

tiny_decodes : decode toy.crc32 tiny ≡ panic
tiny_decodes = (decode-panic_iff toy.crc32 tiny).1 (
  record { long = omega arith; preamble = refl; whole = omega arith; checksum = refl },
  omega arith,
)

tiny_aborts : (receive toy memory_store tiny begun_alice entropy).0 ≡ panic
unfolding receive
tiny_aborts = rw tiny_decodes refl

receive_aborts_example :
    ((receive toy memory_store tiny begun_alice entropy).0 ≡ panic)
    ↔ AbortsOn toy begun_alice tiny (decode toy.crc32 tiny)
receive_aborts_example =
    receive_aborts toy memory_store toy-Laws
      (begun initiator (replicate 12 1) (replicate 16 32) (replicate 32 5) empty_store) tiny entropy

-- A DHPart1 whose public value is four bytes long.
abbrev short_part : DhPart
short_part = record {
  h1 = replicate 32 1;
  rs1_id = replicate 8 2;
  rs2_id = replicate 8 3;
  aux_id = replicate 8 4;
  pbx_id = replicate 8 5;
  pv = replicate 4 6;
  mac = replicate 8 7;
}

abbrev peer_hello : Hello
peer_hello =
    hello_of toy (generate_hash_chain toy (replicate 32 6)) (replicate 12 2) (replicate 16 32)

abbrev committed : ZrtpEngine ℕ MemorySharedSecretStore
committed = record begun_alice {
  state = commit_sent;
  remote_hello = some peer_hello;
  local_keypair = some (generate_ec25_keypair toy 3);
}

abbrev short_bytes : List ℕ
short_bytes = encode toy.crc32 (dh_part1 short_part)

short_decodes : decode toy.crc32 short_bytes ≡ ok (dh_part1 short_part)
short_decodes = decode-encode toy.crc32 toy-Laws.crc32_u32 (dh_part1 short_part) (record {
  h1_32 = refl;
  rs1_id_8 = refl;
  rs2_id_8 = refl;
  aux_id_8 = refl;
  pbx_id_8 = refl;
  pv_fits = omega arith;
  mac_8 = refl;
})

key_pair_spent_example :
    let (r, e') = receive toy memory_store short_bytes committed entropy in
    (r ≡ err unexpected_message)
    × (e'.state ≡ commit_sent)
    × ((receive toy memory_store short_bytes e' entropy).0 ≡ panic)
unfolding hello_of generate_hash_chain verify_hash_chain_hop start new bytes_eq hash_forward
key_pair_spent_example =
    key_pair_spent toy memory_store committed short_bytes short_bytes entropy entropy peer_hello
      (generate_ec25_keypair toy 3) short_part short_part refl refl refl refl short_decodes
      short_decodes refl refl refl

render_sas_base32-eq_iff_example :
    (render_sas_base32 0xdeadbeef ≡ render_sas_base32 0xdeadb000)
    ↔ (0xdeadbeef / 2 ^ 12 ≡ 0xdeadb000 / 2 ^ 12)
render_sas_base32-eq_iff_example =
    render_sas_base32-eq_iff 0xdeadbeef 0xdeadb000 (omega arith) (omega arith)
